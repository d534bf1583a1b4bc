-- ===== src/Threads/Malloc/Back.antt =====
-- A block that malloc takes from a free list goes back to its front by free.
use ee461s_projects.Common.{
  ℕ, ◌+◌, ◌-◌, ◌%◌, ◌^◌, ◌<◌, ◌≤◌, ◌≡◌, refl, sym, ap, subst, ◌∙◌, true, false, some, List, ◌∷◌,
  ◌==◌, arith, inl, inr, ◌⊎◌, Bool-cases, ==-self,
}
use ee461s_projects.Threads.Palloc.{set_bytes}
use ee461s_projects.Threads.Malloc.{Arena, Heap, malloc, free}
use ee461s_projects.Threads.Malloc.Blocks.{
  arena_of, IsBlock, Serves, taken, put_back, malloc-taken, taken-IsBlock, free-put_back,
}

-- `h'` is `h` but for the bytes of the block.
pub record IsSame (h : Heap) (d b : ℕ) (h' : Heap) : Type 0 where
  pub descs : (e : ℕ) → h'.descs e ≡ h.descs e
  pub desc_cnt : h'.desc_cnt ≡ h.desc_cnt
  pub arenas : (x : ℕ) → h'.arenas x ≡ h.arenas x
  pub kernel_pool : h'.ram.kernel_pool ≡ h.ram.kernel_pool
  pub user_pool : h'.ram.user_pool ≡ h.ram.user_pool
  pub bytes :
      (x : ℕ) → (x < b) ⊎ (b + (h.descs d).block_size ≤ x) → h'.ram.memory x ≡ h.ram.memory x

same_desc :
    (h : Heap) (d b : ℕ) (a a' : Arena) (bs : List ℕ)
    → (h.descs d).free_list ≡ b ∷ bs
    → (put_back (taken h d b a bs) d b a').descs d ≡ h.descs d
unfolding put_back taken
same_desc h d b a a' bs l = rw (==-self d) (rw (sym l) refl)

other_desc :
    (h : Heap) (d b e : ℕ) (a a' : Arena) (bs : List ℕ)
    → (e == d) ≡ false
    → (put_back (taken h d b a bs) d b a').descs e ≡ h.descs e
unfolding put_back taken
other_desc h d b e a a' bs ne = rw ne refl

same_arena :
    (h : Heap) (d b x : ℕ) (a : Arena) (bs : List ℕ)
    → h.arenas (arena_of b) ≡ some a
    → 0 < a.free_cnt
    → a.free_cnt < 2 ^ 32
    → (put_back
          (taken h d b a bs)
          d
          b
          (record a { free_cnt = (a.free_cnt + 2 ^ 32 - 1) % 2 ^ 32 })).arenas
        x
      ≡ h.arenas x
unfolding put_back taken
same_arena h d b x a bs e pos small = elim (Bool-cases (x == arena_of b)) [
  | inl eq ↦ rw eq (
      ap (λ n. some (record a { free_cnt = n })) (omega (arith, pos, small))
      ∙ sym e
      ∙ ap h.arenas (found eq))
  | inr ne ↦ rw ne refl
]
  where
    found : (x == arena_of b) ≡ true → arena_of b ≡ x
    found eq = ground arith

same_bytes :
    (h : Heap) (d b x : ℕ) (a a' : Arena) (bs : List ℕ)
    → (x < b) ⊎ (b + (h.descs d).block_size ≤ x)
    → (put_back (taken h d b a bs) d b a').ram.memory x ≡ h.ram.memory x
unfolding put_back taken set_bytes
same_bytes h d b x a a' bs (inl lt) = rw (==-self d) (ground arith)
same_bytes h d b x a a' bs (inr ge) = rw (==-self d) (ground arith)

same_descs :
    (h : Heap) (d b e : ℕ) (a a' : Arena) (bs : List ℕ)
    → (h.descs d).free_list ≡ b ∷ bs
    → (put_back (taken h d b a bs) d b a').descs e ≡ h.descs e
same_descs h d b e a a' bs l = elim (Bool-cases (e == d)) [
  | inl eq ↦
      subst (λ k. (put_back (taken h d b a bs) d b a').descs k ≡ h.descs k) (found eq)
        (same_desc h d b a a' bs l)
  | inr ne ↦ other_desc h d b e a a' bs ne
]
  where
    found : (e == d) ≡ true → d ≡ e
    found eq = ground arith

taken_per_arena :
    (h : Heap) (d b : ℕ) (a : Arena) (bs : List ℕ)
    → ((taken h d b a bs).descs d).blocks_per_arena ≡ (h.descs d).blocks_per_arena
unfolding taken
taken_per_arena h d b a bs = rw (==-self d) refl

-- For a size that a descriptor serves whose free list is not empty, malloc gives the first block of the
-- list of the smallest such descriptor, when the block lies in an arena that is in part in use; free
-- of the block then passes all ASSERTs and puts descriptors, arenas and pools back to what they were,
-- and no byte outside of the block has changed.
pub malloc-free :
    (h : Heap) (size d b : ℕ) (bs : List ℕ) (a : Arena)
    → 0 < size
    → Serves h d size
    → (h.descs d).free_list ≡ b ∷ bs
    → IsBlock h d b a
    → 0 < a.free_cnt
    → a.free_cnt < (h.descs d).blocks_per_arena
    → (h.descs d).blocks_per_arena < 2 ^ 32
    → (h1 : Heap) × (malloc h size ≡ some (b, h1))
      × (h2 : Heap) × (free h1 b ≡ some h2)
      × IsSame h d b h2
unfolding put_back taken
malloc-free h size d b bs a some_size s l i pos part small =
    let h1 = taken h d b a bs in
    let a1 : Arena = record a { free_cnt = (a.free_cnt + 2 ^ 32 - 1) % 2 ^ 32 } in
    let i1 = taken-IsBlock h d b bs a i in
    (
      h1,
      malloc-taken h size d b bs a some_size s l i,
      put_back h1 d b a1,
      free-put_back h1 d b a1 i1 (rw (taken_per_arena h d b a bs) (omega (arith, pos, part, small)))
          (rw (taken_per_arena h d b a bs) small),
      record {
        descs = λ k. same_descs h d b k a a1 bs l;
        desc_cnt = refl;
        arenas = λ x. same_arena h d b x a bs i.arena pos (omega (arith, part, small));
        kernel_pool = refl;
        user_pool = refl;
        bytes = λ x. same_bytes h d b x a a1 bs;
      },
    )

-- ===== src/Threads/Malloc/Blocks.antt =====
-- What malloc of a block from a free list, and free of a block of a used arena, do to the heap.
use ee461s_projects.Common.{
  zero, suc, leb, ◌≤◌, inl, inr, Bool-cases, ◌==◌, ℕ, ◌+◌, ◌-◌, ◌%◌, ◌^◌, ◌<◌, ◌≡◌, refl, true,
  false, some, List, ◌∷◌, ltb, ◌==◌, arith, ==-self,
}
use ee461s_projects.Threads.Vaddr.{pg_ofs}
use ee461s_projects.Threads.Palloc.{set_bytes}
use ee461s_projects.Threads.Malloc.{
  Desc, Arena, Heap, find_desc, is_aligned, block_to_arena, set_free_list, set_free_cnt, pop_block,
  malloc_block, malloc, free_block, free,
}

abbrev pub arena_of : ℕ → ℕ
arena_of b = b - b % 4096

-- `b` is a block of the descriptor `d`, in an arena that holds `a`.
pub record IsBlock (h : Heap) (d b : ℕ) (a : Arena) : Type 0 where
  pub not_null : 0 < arena_of b
  pub arena : h.arenas (arena_of b) ≡ some a
  pub owner : a.desc ≡ some d
  pub aligned : is_aligned h b (some d) ≡ true

block_to_arena_lem :
    (h : Heap) (d b : ℕ) (a : Arena) → IsBlock h d b a → block_to_arena h b ≡ some (arena_of b, a)
unfolding block_to_arena pg_ofs
block_to_arena_lem h d b a i =
    let valid : (arena_of b == 0) ≡ false = ground (arith, i.not_null) in
    rw (valid, block_to_arena)
      (rw (i.arena, block_to_arena)
        (rw (i.owner, block_to_arena) (rw (i.aligned, block_to_arena) refl)))

free_list-IsBlock :
    (h : Heap) (d b : ℕ) (a : Arena) (l : List ℕ)
    → IsBlock h d b a
    → IsBlock (set_free_list h d l) d b a
unfolding set_free_list is_aligned
free_list-IsBlock h d b a l i = record {
  not_null = i.not_null;
  arena = i.arena;
  owner = i.owner;
  aligned = rw (==-self d) i.aligned;
}

free_cnt-IsBlock :
    (h : Heap) (d b : ℕ) (a : Arena) (n : ℕ)
    → IsBlock h d b a
    → IsBlock (set_free_cnt h (arena_of b) a n) d b (record a { free_cnt = n })
unfolding set_free_cnt is_aligned
free_cnt-IsBlock h d b a n i = record {
  not_null = i.not_null;
  arena = rw (==-self (arena_of b)) refl;
  owner = i.owner;
  aligned = i.aligned;
}

-- The smallest descriptor, where they are in the order of their sizes, whose blocks hold `size` bytes.
pub record Serves (h : Heap) (d size : ℕ) : Type 0 where
  pub exists : d < h.desc_cnt
  pub holds : size ≤ (h.descs d).block_size
  pub smaller : (e : ℕ) → e < d → (h.descs e).block_size < size

find_desc_lem :
    (n : ℕ) (descs : ℕ → Desc) (from d size : ℕ)
    → from ≤ d
    → d < from + n
    → size ≤ (descs d).block_size
    → ((e : ℕ) → e < d → (descs e).block_size < size)
    → find_desc n descs from size ≡ d
unfolding find_desc
find_desc_lem zero descs from d size le lt holds smaller = absurd (omega arith)
find_desc_lem (suc n) descs from d size le lt holds smaller = elim (Bool-cases (from == d)) [
  | inl e ↦
      let here : from ≡ d = ground arith in
      let first : leb size (descs from).block_size ≡ true = rw here (ground arith) in
      rw (first, find_desc) here
  | inr e ↦
      let not_here : leb size (descs from).block_size ≡ false = ground (arith, smaller from) in
      rw (not_here, find_desc)
        (find_desc_lem n descs (from + 1) d size (ground arith) (omega arith) holds smaller)
]

-- The heap with `b` in use.
unfoldable pub taken : Heap → (d b : ℕ) → Arena → List ℕ → Heap
unfolding set_free_cnt set_free_list
taken h d b a bs =
    set_free_cnt (set_free_list h d bs) (arena_of b) a ((a.free_cnt + 2 ^ 32 - 1) % 2 ^ 32)

pub malloc-taken :
    (h : Heap) (size d b : ℕ) (bs : List ℕ) (a : Arena)
    → 0 < size
    → Serves h d size
    → (h.descs d).free_list ≡ b ∷ bs
    → IsBlock h d b a
    → malloc h size ≡ some (b, taken h d b a bs)
unfolding malloc malloc_block pop_block taken
malloc-taken h size d b bs a pos s l i =
    let e : find_desc h.desc_cnt h.descs 0 size ≡ d =
      find_desc_lem h.desc_cnt h.descs 0 d size (omega arith) (omega (arith, s.exists)) s.holds
        s.smaller in
    let size_ok : (size == 0) ≡ false = ground arith in
    let small : (d == h.desc_cnt) ≡ false = ground (arith, s.exists) in
    rw (size_ok, malloc)
      (rw (e, malloc)
        (rw (small, malloc)
          (rw (l, malloc)
            (rw
              (
                block_to_arena_lem (set_free_list h d bs) d b a (free_list-IsBlock h d b a bs i),
                malloc,
              )
              refl))))

pub taken-IsBlock :
    (h : Heap) (d b : ℕ) (bs : List ℕ) (a : Arena)
    → IsBlock h d b a
    → IsBlock (taken h d b a bs) d b (record a { free_cnt = (a.free_cnt + 2 ^ 32 - 1) % 2 ^ 32 })
unfolding taken
taken-IsBlock h d b bs a i =
    free_cnt-IsBlock (set_free_list h d bs) d b a _ (free_list-IsBlock h d b a bs i)

-- The heap with `b` free.
unfoldable pub put_back : Heap → (d b : ℕ) → Arena → Heap
unfolding set_free_cnt set_free_list set_bytes
put_back h d b a =
    let memory = set_bytes h.ram.memory b 0xcc (h.descs d).block_size in
    set_free_cnt
      (set_free_list (record h { ram = record h.ram { memory = memory } }) d
        (b ∷ (h.descs d).free_list))
      (arena_of b) a ((a.free_cnt + 1) % 2 ^ 32)

pub free-put_back :
    (h : Heap) (d b : ℕ) (a : Arena)
    → IsBlock h d b a
    → a.free_cnt + 1 < (h.descs d).blocks_per_arena
    → (h.descs d).blocks_per_arena < 2 ^ 32
    → free h b ≡ some (put_back h d b a)
unfolding free free_block put_back
free-put_back h d b a i lt small =
    let some_block : (b == 0) ≡ false = ground (arith, i.not_null) in
    let more : ltb ((a.free_cnt + 1) % 2 ^ 32) (h.descs d).blocks_per_arena ≡ true = ground arith in
    rw (some_block, free)
      (rw (block_to_arena_lem h d b a i, free) (rw (i.owner, free) (rw (more, free) refl)))

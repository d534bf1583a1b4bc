-- ===== src/Threads/Palloc/Free.antt =====
-- palloc_free_multiple gives a run of pages back, and undoes palloc_get_multiple.
use ee461s_projects.Common.{
  ℕ, ◌+◌, ◌-◌, ◌*◌, ◌%◌, ◌^◌, ◌<◌, ◌≤◌, ◌≡◌, ◌≢◌, refl, Bool, true, false, ◌&&◌, ◌||◌, some, ltb,
  leb, ◌==◌, if◌then◌else◌, arith, inl, inr, ◌⊎◌, ap, ◌∙◌, sym,
}
use ee461s_projects.KernelLib.Bitmap.{Bitmap, bitmap_all}
use ee461s_projects.KernelLib.Bitmap.Words.{value_at, IsValid}
use ee461s_projects.KernelLib.Bitmap.Ranges.{Group, bitmap_set_multiple-Filled, bitmap_contains_lem}
use ee461s_projects.Threads.Vaddr.{page_size, pg_no}
use ee461s_projects.Threads.Palloc.{
  Pool, Ram, has_flag, pal_assert, pal_user, pool_of, set_used_map, set_bytes, free_in,
  palloc_get_multiple, palloc_free_multiple,
}
use ee461s_projects.Threads.Palloc.Pools.{
  IsPool, IsReady, pool_of-IsPool, Marked, set_used_map-Marked, Marked-IsReady, page_of_pool,
  page_not_of_kernel, page_ofs-zero,
}
use ee461s_projects.Threads.Palloc.Get.{
  Given, given, refused, memory_after, palloc_get_multiple_lem,
}

all_used :
    (b : Bitmap) (i cnt : ℕ)
    → IsValid b
    → i + cnt ≤ b.bit_cnt
    → Group b i cnt true
    → bitmap_all b i cnt ≡ some true
unfolding bitmap_all
all_used b i cnt v le g = elim (bitmap_contains_lem b i cnt false v le) [
  | inl (e, (j, p, q, at)) ↦ absurd (ground (arith, g j p q))
  | inr (e, none_free) ↦ rw (e, bitmap_all) refl
]

page_index : (p : Pool) (i : ℕ) → IsPool p → pg_no (p.base + page_size * i) - pg_no p.base ≡ i
unfolding pg_no
page_index p i r = omega (arith, r.aligned)

-- The memory behind a call that takes `cnt` pages back at `pages`.
abbrev pub Debris : Ram → (pages cnt : ℕ) → Ram → Type 0
Debris s pages cnt s' =
    (a : ℕ)
    → s'.memory a ≡ (if leb pages a && ltb a (pages + page_size * cnt) then 0xcc else s.memory a)

memory-set_used_map :
    (s : Ram) (memory : ℕ → ℕ) (user : Bool) (b : Bitmap)
    → (set_used_map (record s { memory = memory }) user b).memory ≡ memory
unfolding set_used_map
memory-set_used_map s memory true b = refl
memory-set_used_map s memory false b = refl

free_in_lem :
    (s : Ram) (user : Bool) (i cnt : ℕ)
    → IsReady s
    → i + cnt ≤ (pool_of s user).used_map.bit_cnt
    → Group (pool_of s user).used_map i cnt true
    → (s' : Ram) × (free_in s user ((pool_of s user).base + page_size * i) cnt ≡ some s')
      × Marked s user i cnt false s'
      × Debris s ((pool_of s user).base + page_size * i) cnt s'
unfolding free_in set_bytes
free_in_lem s user i cnt r le g =
    let q = pool_of-IsPool s user r in
    let p = pool_of s user in
    let pages = p.base + page_size * i in
    let (b, e, f) = bitmap_set_multiple-Filled p.used_map i cnt false q.valid le in
    let memory = set_bytes s.memory pages 0xcc (page_size * cnt % 2 ^ 32) in
    (
      set_used_map (record s { memory = memory }) user b,
      rw (page_index p i q, free_in)
          (rw (all_used p.used_map i cnt q.valid le g, free_in) (rw (e, free_in) refl)),
      set_used_map-Marked s user i cnt false b memory f,
      λ a. ap (λ m. m a) (memory-set_used_map s memory user b) ∙ ground (arith, q.below),
    )

chooses :
    (s : Ram) (user : Bool) (i cnt : ℕ)
    → IsReady s
    → 0 < cnt
    → i + cnt ≤ (pool_of s user).used_map.bit_cnt
    → palloc_free_multiple s ((pool_of s user).base + page_size * i) cnt
      ≡ free_in s user ((pool_of s user).base + page_size * i) cnt
unfolding palloc_free_multiple pool_of
chooses s true i cnt r pos le =
    let valid : ((s.user_pool.base + page_size * i == 0) || (cnt == 0)) ≡ false =
      ground (arith, r.user.not_null) in
    rw (page_ofs-zero s.user_pool i r.user, palloc_free_multiple)
      (rw (valid, palloc_free_multiple)
        (rw
          (
            page_not_of_kernel s i r,
            page_of_pool s.user_pool i r.user (omega arith),
            palloc_free_multiple,
          )
          refl))
chooses s false i cnt r pos le =
    let valid : ((s.kernel_pool.base + page_size * i == 0) || (cnt == 0)) ≡ false =
      ground (arith, r.kernel.not_null) in
    rw (page_ofs-zero s.kernel_pool i r.kernel, palloc_free_multiple)
      (rw (valid, palloc_free_multiple)
        (rw (page_of_pool s.kernel_pool i r.kernel (omega arith), palloc_free_multiple) refl))

-- palloc_free_multiple of pages that are in use passes all ASSERTs: it frees exactly these pages of
-- the pool they are from, fills them with 0xcc, and keeps the pools well formed.
pub palloc_free_multiple_lem :
    (s : Ram) (user : Bool) (i cnt : ℕ)
    → IsReady s
    → 0 < cnt
    → i + cnt ≤ (pool_of s user).used_map.bit_cnt
    → Group (pool_of s user).used_map i cnt true
    → (s' : Ram) × (palloc_free_multiple s ((pool_of s user).base + page_size * i) cnt ≡ some s')
      × Marked s user i cnt false s'
      × Debris s ((pool_of s user).base + page_size * i) cnt s'
      × IsReady s'
palloc_free_multiple_lem s user i cnt r pos le g =
    let (s', e, m, d) = free_in_lem s user i cnt r le g in
    (s', chooses s user i cnt r pos le ∙ e, m, d, Marked-IsReady s s' user i cnt false r m)

-- `s'` has the pools' bits and the memory of `s`, but for what the `cnt` pages at `pages` hold.
pub record Restored (s : Ram) (pages cnt : ℕ) (s' : Ram) : Type 0 where
  pub kernel_bits : (j : ℕ) → value_at s'.kernel_pool.used_map j ≡ value_at s.kernel_pool.used_map j
  pub user_bits : (j : ℕ) → value_at s'.user_pool.used_map j ≡ value_at s.user_pool.used_map j
  pub bytes : (a : ℕ) → (a < pages) ⊎ (pages + page_size * cnt ≤ a) → s'.memory a ≡ s.memory a
  pub ready : IsReady s'

same_bits :
    (s s1 s2 : Ram) (user : Bool) (i cnt : ℕ)
    → Group (pool_of s user).used_map i cnt false
    → Marked s user i cnt true s1
    → Marked s1 user i cnt false s2
    → (j : ℕ) → value_at (pool_of s2 user).used_map j ≡ value_at (pool_of s user).used_map j
same_bits s s1 s2 user i cnt g m1 m2 j = ground (arith, m2.map.bits j, m1.map.bits j, g j)

both_pools :
    (s s1 s2 : Ram) (user : Bool) (i cnt : ℕ)
    → Group (pool_of s user).used_map i cnt false
    → Marked s user i cnt true s1
    → Marked s1 user i cnt false s2
    → ((j : ℕ) → value_at s2.kernel_pool.used_map j ≡ value_at s.kernel_pool.used_map j)
      × ((j : ℕ) → value_at s2.user_pool.used_map j ≡ value_at s.user_pool.used_map j)
unfolding pool_of
both_pools s s1 s2 true i cnt g m1 m2 = (
  λ j. ap (λ p. value_at p.used_map j) (m2.other ∙ m1.other),
  same_bits s s1 s2 true i cnt g m1 m2,
)
both_pools s s1 s2 false i cnt g m1 m2 = (
  same_bits s s1 s2 false i cnt g m1 m2,
  λ j. ap (λ p. value_at p.used_map j) (m2.other ∙ m1.other),
)

same_bytes :
    (s s1 s2 : Ram) (flags pages cnt : ℕ)
    → ((a : ℕ) → s1.memory a ≡ memory_after s flags pages cnt a)
    → Debris s1 pages cnt s2
    → (a : ℕ) → (a < pages) ⊎ (pages + page_size * cnt ≤ a)
    → s2.memory a ≡ s.memory a
unfolding memory_after
same_bytes s s1 s2 flags pages cnt m d a (inl lt) = ground (arith, d a, m a)
same_bytes s s1 s2 flags pages cnt m d a (inr ge) = ground (arith, d a, m a)

-- Pages that palloc_get_multiple of one page or more, without PAL_ASSERT, gives out can be freed:
-- palloc_free_multiple of them passes all ASSERTs and puts the two pools' maps back to what they were,
-- and it leaves the memory outside of the pages as it was. Otherwise palloc_get_multiple gave the null
-- pointer and changed nothing.
pub palloc_get-free :
    (s : Ram) (flags cnt : ℕ)
    → IsReady s
    → 0 < cnt
    → has_flag flags pal_assert ≡ false
    → (pages : ℕ) × (s1 : Ram) × (palloc_get_multiple s flags cnt ≡ some (pages, s1))
      × (((pages ≡ 0) × (s1 ≡ s))
          ⊎ ((pages ≢ 0)
              × (s2 : Ram) × (palloc_free_multiple s1 pages cnt ≡ some s2)
              × Restored s pages cnt s2))
palloc_get-free s flags cnt r pos assert =
    let (pages, s1, e, g, r1) = palloc_get_multiple_lem s flags cnt r pos assert in
    (pages, s1, e, go pages s1 g r1)
  where
    user : Bool
    user = has_flag flags pal_user

    go :
        (pages : ℕ) (s1 : Ram)
        → Given s (has_flag flags pal_user) flags cnt pages s1
        → IsReady s1
        → ((pages ≡ 0) × (s1 ≡ s))
          ⊎ ((pages ≢ 0)
              × (s2 : Ram) × (palloc_free_multiple s1 pages cnt ≡ some s2)
              × Restored s pages cnt s2)
    go pages s1 (refused all) r1 = inl (refl, refl)
    go pages s1 (given i _ f m mem) r1 =
        let q = pool_of-IsPool s user r in
        let (s2, e, m2, d, r2) =
          palloc_free_multiple_lem s1 user i cnt r1 pos (omega (arith, f.fits, m.map.same_cnt))
            (λ j p q. ground (arith, m.map.bits j)) in
        let (kernel, users) = both_pools s s1 s2 user i cnt f.group m m2 in
        inr (
          λ z. omega (arith, q.not_null),
          s2,
          rw (sym m.same_base) e,
          record {
            kernel_bits = kernel;
            user_bits = users;
            bytes =
                same_bytes s s1 s2 flags ((pool_of s user).base + page_size * i) cnt mem
                  (rw (sym m.same_base) d);
            ready = r2;
          },
        )

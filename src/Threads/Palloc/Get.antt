-- ===== src/Threads/Palloc/Get.antt =====
-- palloc_get_multiple takes the first free run of its pool.
use ee461s_projects.Common.{
  ℕ, ◌+◌, ◌*◌, ◌^◌, ◌%◌, ◌<◌, ◌≤◌, ◌≡◌, refl, Bool, true, false, not, ◌&&◌, some, ltb, leb, ◌==◌,
  if◌then◌else◌, arith, ◌∙◌, inl, inr, Bool-cases,
}
use ee461s_projects.KernelLib.Bitmap.{Bitmap, bitmap_error, bitmap_scan_and_flip}
use ee461s_projects.KernelLib.Bitmap.Ranges.{Group}
use ee461s_projects.KernelLib.Bitmap.Scan.{
  First, Flipped, flipped, unchanged, bitmap_scan_and_flip-Flipped,
}
use ee461s_projects.Threads.Vaddr.{page_size}
use ee461s_projects.Threads.Palloc.{
  Pool, Ram, has_flag, pal_assert, pal_zero, pal_user, pool_of, set_used_map, set_bytes,
  page_address, hand_out, get_from, palloc_get_multiple,
}
use ee461s_projects.Threads.Palloc.Pools.{
  IsPool, IsReady, pool_of-IsPool, Marked, set_used_map-Marked, Marked-IsReady,
}

-- The memory behind a call that gives out `cnt` pages at `pages`.
unfoldable pub memory_after : Ram → (flags pages cnt : ℕ) → ℕ → ℕ
memory_after s flags pages cnt a =
    if has_flag flags pal_zero && (leb pages a && ltb a (pages + page_size * cnt))
    then 0
    else s.memory a

-- The first free run of the pool, at the page `i`, is in use now; or there is none, and 0 is returned.
pub data Given (s : Ram) (user : Bool) (flags cnt : ℕ) : ℕ → Ram → Type 0 where
  given :
      (i : ℕ) (s' : Ram)
      → First (pool_of s user).used_map 0 cnt false i
      → Marked s user i cnt true s'
      → ((a : ℕ) → s'.memory a ≡ memory_after s flags ((pool_of s user).base + page_size * i) cnt a)
      → Given s user flags cnt ((pool_of s user).base + page_size * i) s'
  refused :
      ((j : ℕ)
        → j + cnt ≤ (pool_of s user).used_map.bit_cnt
        → ¬ Group (pool_of s user).used_map j cnt false)
      → Given s user flags cnt 0 s

set_same : (s : Ram) (user : Bool) → set_used_map s user (pool_of s user).used_map ≡ s
unfolding set_used_map pool_of
set_same s true = refl
set_same s false = refl

keeps_memory : (s : Ram) (user : Bool) (b : Bitmap) → (set_used_map s user b).memory ≡ s.memory
unfolding set_used_map
keeps_memory s true b = refl
keeps_memory s false b = refl

page_address_lem :
    (p : Pool) (i cnt : ℕ)
    → IsPool p
    → i + cnt ≤ p.used_map.bit_cnt
    → page_address p i ≡ p.base + page_size * i
unfolding page_address
page_address_lem p i cnt r le = ground (arith, r.below)

hand_out_lem :
    (s : Ram) (flags pages cnt : ℕ)
    → 0 < pages
    → pages + page_size * cnt < 2 ^ 32
    → (s' : Ram) × (hand_out s flags pages cnt ≡ some (pages, s'))
      × (s'.kernel_pool ≡ s.kernel_pool)
      × (s'.user_pool ≡ s.user_pool)
      × ((a : ℕ) → s'.memory a ≡ memory_after s flags pages cnt a)
unfolding hand_out memory_after set_bytes
hand_out_lem s flags pages cnt pos below =
    let null : (pages == 0) ≡ false = ground arith in
    elim (Bool-cases (has_flag flags pal_zero)) [
      | inl e ↦ (
        record s { memory = set_bytes s.memory pages 0 (page_size * cnt % 2 ^ 32) },
        rw (null, e, hand_out) refl,
        refl,
        refl,
        λ a. ground arith,
      )
      | inr e ↦ (s, rw (null, e, hand_out) refl, refl, refl, λ a. ground arith)
    ]

same_pools :
    (s s' : Ram) (user : Bool)
    → s'.kernel_pool ≡ s.kernel_pool
    → s'.user_pool ≡ s.user_pool
    → pool_of s' user ≡ pool_of s user
unfolding pool_of
same_pools s s' true k u = u
same_pools s s' false k u = k

-- A change of the memory keeps the marks.
Marked-memory :
    (s s1 s' : Ram) (user : Bool) (i cnt : ℕ)
    → s'.kernel_pool ≡ s1.kernel_pool
    → s'.user_pool ≡ s1.user_pool
    → Marked s user i cnt true s1
    → Marked s user i cnt true s'
Marked-memory s s1 s' user i cnt k u m = record {
  map = rw (same_pools s1 s' user k u) m.map;
  same_base = rw (same_pools s1 s' user k u) m.same_base;
  other = same_pools s1 s' (not user) k u ∙ m.other;
}

same_memory :
    (s s1 : Ram) (flags pages cnt a : ℕ)
    → s1.memory ≡ s.memory
    → memory_after s1 flags pages cnt a ≡ memory_after s flags pages cnt a
unfolding memory_after
same_memory s s1 flags pages cnt a e = rw e refl

-- No page: the null pointer.
no_pages :
    (s : Ram) (flags cnt : ℕ) (p : Pool)
    → has_flag flags pal_assert ≡ false
    → hand_out s flags (page_address p bitmap_error) cnt ≡ some (0, s)
unfolding hand_out page_address
no_pages s flags cnt p e = rw (e, hand_out) refl

get_from_lem :
    (s : Ram) (user : Bool) (flags cnt : ℕ)
    → IsReady s
    → 0 < cnt
    → has_flag flags pal_assert ≡ false
    → (pages : ℕ) × (s' : Ram) × (get_from s user flags cnt ≡ some (pages, s'))
      × Given s user flags cnt pages s'
unfolding get_from
get_from_lem s user flags cnt ready pos assert =
    let (r, b, e, f) =
      bitmap_scan_and_flip-Flipped p.used_map 0 cnt false q.valid (omega (arith, q.below))
        (omega arith) in
    go r b e f
  where
    p : Pool
    p = pool_of s user

    q : IsPool (pool_of s user)
    q = pool_of-IsPool s user ready

    some_pages : (cnt == 0) ≡ false
    some_pages = ground arith

    go :
        (r : ℕ) (b : Bitmap)
        → bitmap_scan_and_flip (pool_of s user).used_map 0 cnt false ≡ some (r, b)
        → Flipped (pool_of s user).used_map 0 cnt false r b
        → (pages : ℕ) × (s' : Ram) × (get_from s user flags cnt ≡ some (pages, s'))
          × Given s user flags cnt pages s'
    go r b e (unchanged all) = (
      0,
      s,
      rw (some_pages, get_from)
          (rw (e, get_from) (rw (set_same s user) (no_pages s flags cnt p assert))),
      refused (λ j. all j (omega arith)),
    )
    go r b e (flipped i b' f filled) =
        let (s', e', k, u, m) =
          hand_out_lem (set_used_map s user b') flags (p.base + page_size * i) cnt
            (omega (arith, q.not_null)) (omega (arith, q.below, f.fits)) in
        let mark = set_used_map-Marked s user i cnt true b' s.memory filled in
        (
          p.base + page_size * i,
          s',
          rw (some_pages, get_from) (rw (e, get_from) (rw (page_address_lem p i cnt q f.fits) e')),
          given i s' f (Marked-memory s (set_used_map s user b') s' user i cnt k u mark) (λ a.
              m a
              ∙ same_memory s (set_used_map s user b') flags (p.base + page_size * i) cnt a
                  (keeps_memory s user b')),
        )

Given-IsReady :
    (s s' : Ram) (user : Bool) (flags cnt pages : ℕ)
    → IsReady s
    → Given s user flags cnt pages s'
    → IsReady s'
Given-IsReady s s' user flags cnt pages r (given i _ f m mem) =
    Marked-IsReady s s' user i cnt true r m
Given-IsReady s s' user flags cnt pages r (refused all) = r

-- palloc_get_multiple of one page or more without PAL_ASSERT, on well-formed pools, passes all ASSERTs:
-- it gives the address of the first free run of that many pages of the pool that PAL_USER names, which
-- is in use from then on and, with PAL_ZERO, zero, or the null pointer when the pool has no such run;
-- all other pages and bytes are as before, and the pools are still well formed.
pub palloc_get_multiple_lem :
    (s : Ram) (flags cnt : ℕ)
    → IsReady s
    → 0 < cnt
    → has_flag flags pal_assert ≡ false
    → (pages : ℕ) × (s' : Ram) × (palloc_get_multiple s flags cnt ≡ some (pages, s'))
      × Given s (has_flag flags pal_user) flags cnt pages s'
      × IsReady s'
unfolding palloc_get_multiple
palloc_get_multiple_lem s flags cnt r pos assert =
    let user = has_flag flags pal_user in
    let (pages, s', e, g) = get_from_lem s user flags cnt r pos assert in
    (pages, s', e, g, Given-IsReady s s' user flags cnt pages r g)

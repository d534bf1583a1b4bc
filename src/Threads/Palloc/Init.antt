-- ===== src/Threads/Palloc/Init.antt =====
-- palloc_init divides the memory behind the first megabyte into two pools of free pages.
use ee461s_projects.Common.{
  ℕ, zero, suc, ◌+◌, ◌-◌, ◌*◌, ◌/◌, ◌%◌, ◌^◌, ◌<◌, ◌≤◌, ◌≡◌, refl, ap, subst, false, some, ltb,
  if◌then◌else◌, arith, length, min,
}
use ee461s_projects.KernelLib.Bitmap.{bitmap_buf_size, byte_cnt, elem_cnt}
use ee461s_projects.KernelLib.Bitmap.Ranges.{Group, bitmap_create_in_buf_lem}
use ee461s_projects.Threads.Vaddr.{page_size, phys_base, ptov}
use ee461s_projects.Threads.Palloc.{Pool, Ram, words_at, init_pool, pages_between, palloc_init}
use ee461s_projects.Threads.Palloc.Pools.{IsPool, IsReady}

length-words_at : (memory : ℕ → ℕ) (a n : ℕ) → length (words_at memory a n) ≡ n
unfolding words_at
length-words_at memory a zero = refl
length-words_at memory a (suc n) = ap suc (length-words_at memory (a + 4) n)

-- A pool of free pages between `base` and `end`, the pages of its bitmap left out.
pub record IsFresh (base end : ℕ) (p : Pool) : Type 0 where
  pub pool : IsPool p
  pub all_free : Group p.used_map 0 p.used_map.bit_cnt false
  pub from_base : base < p.base
  pub to_end : p.base + page_size * p.used_map.bit_cnt ≡ end

init_pool_lem :
    (memory : ℕ → ℕ) (base page_cnt : ℕ)
    → base % page_size ≡ 0
    → 0 < page_cnt
    → base + page_size * page_cnt < 2 ^ 32
    → (p : Pool) × (init_pool memory base page_cnt ≡ some p)
      × IsFresh base (base + page_size * page_cnt) p
unfolding init_pool bitmap_buf_size byte_cnt elem_cnt
init_pool_lem memory base page_cnt aligned pos below =
    let bm_pages = (bitmap_buf_size page_cnt + page_size - 1) / page_size in
    let left = page_cnt - bm_pages in
    let fits : ltb page_cnt bm_pages ≡ false = ground arith in
    let (b, e, cnt, valid, all) =
      bitmap_create_in_buf_lem left (words_at memory (base + 8) (elem_cnt left))
        (bm_pages * page_size) (length-words_at memory (base + 8) (elem_cnt left)) (omega arith)
        (omega arith) in
    (
      record { used_map = b; base = (base + bm_pages * page_size) % 2 ^ 32 },
      rw (fits, init_pool) (rw (e, init_pool) refl),
      record {
        pool = record {
          valid = valid;
          aligned = omega arith;
          not_null = omega arith;
          below = omega (arith, cnt);
        };
        all_free = rw cnt all;
        from_base = omega arith;
        to_end = omega (arith, cnt);
      },
    )

-- Where the user pool begins: it has half of the pages behind the first megabyte, but not more than
-- the limit.
abbrev pub middle : (ram_pages user_page_limit : ℕ) → ℕ
middle ram_pages user_page_limit =
    phys_base + page_size * (ram_pages - min user_page_limit ((ram_pages - 256) / 2))

ptov_lem : (paddr : ℕ) → paddr < 2 ^ 30 → ptov paddr ≡ some (phys_base + paddr)
unfolding ptov
ptov_lem paddr h = ground arith

pages_between_lem :
    (ram : ℕ)
    → 258 ≤ ram
    → ram < 2 ^ 18
    → pages_between (phys_base + 1024 * 1024) (phys_base + ram * page_size % 2 ^ 32) ≡ ram - 256
unfolding pages_between
pages_between_lem ram low high = ground arith

-- The pools that the pages of the RAM are divided into.
pub record IsDivided (ram_pages user_page_limit : ℕ) (s : Ram) : Type 0 where
  pub kernel : IsFresh (phys_base + 1024 * 1024) (middle ram_pages user_page_limit) s.kernel_pool
  pub user :
      IsFresh (middle ram_pages user_page_limit) (phys_base + page_size * ram_pages) s.user_pool
  pub ready : IsReady s

lesser : (a b : ℕ) → (if ltb a b then a else b) ≡ min a b
lesser a b = ground arith

middle_lem :
    (ram limit : ℕ)
    → 258 ≤ ram
    → ram < 2 ^ 18
    → (phys_base + 1024 * 1024 + (ram - 256 - min limit ((ram - 256) / 2)) * page_size) % 2 ^ 32
      ≡ middle ram limit
middle_lem ram limit low high = omega arith

palloc_init-pools :
    (memory : ℕ → ℕ) (ram limit : ℕ) (k u : Pool)
    → 258 ≤ ram
    → ram < 2 ^ 18
    → init_pool memory (phys_base + 1024 * 1024) (ram - 256 - min limit ((ram - 256) / 2)) ≡ some k
    → init_pool memory (middle ram limit) (min limit ((ram - 256) / 2)) ≡ some u
    → palloc_init memory ram limit
      ≡ some (record { kernel_pool = k; user_pool = u; memory = memory })
unfolding palloc_init
palloc_init-pools memory ram limit k u low high ek eu =
    rw (ptov_lem (ram * page_size % 2 ^ 32) (omega arith)) (
      rw (pages_between_lem ram low high) (
        rw (lesser limit ((ram - 256) / 2))
          (rw (ek, palloc_init) (rw (middle_lem ram limit low high) (rw (eu, palloc_init) refl)))))

divided :
    (memory : ℕ → ℕ) (ram limit : ℕ) (k u : Pool)
    → IsFresh (phys_base + 1024 * 1024) (middle ram limit) k
    → IsFresh (middle ram limit) (phys_base + page_size * ram) u
    → IsDivided ram limit (record { kernel_pool = k; user_pool = u; memory = memory })
divided memory ram limit k u fk fu = record {
  kernel = fk;
  user = fu;
  ready = record {
    kernel = fk.pool;
    user = fu.pool;
    apart = omega (arith, fk.to_end, fu.from_base);
  };
}

-- With at least two pages of RAM behind the first megabyte, less than 1 GB in all, and a user page limit
-- that is not 0, palloc_init passes all ASSERTs and does not panic: half of these pages, but not more
-- than the limit, are the user pool's, the other pages are the kernel pool's, each pool's bitmap lies at
-- its start, all pages behind it are free, and the pools are well formed and apart.
pub palloc_init-IsDivided :
    (memory : ℕ → ℕ) (ram_pages user_page_limit : ℕ)
    → 258 ≤ ram_pages
    → ram_pages < 2 ^ 18
    → 0 < user_page_limit
    → (s : Ram) × (palloc_init memory ram_pages user_page_limit ≡ some s)
      × (s.memory ≡ memory)
      × IsDivided ram_pages user_page_limit s
palloc_init-IsDivided memory ram limit low high pos =
    let user_pages = min limit ((ram - 256) / 2) in
    let (k, ek, fk) =
      init_pool_lem memory (phys_base + 1024 * 1024) (ram - 256 - user_pages) (omega arith)
        (omega arith) (omega arith) in
    let (u, eu, fu) =
      init_pool_lem memory (middle ram limit) user_pages (omega arith) (omega arith)
        (omega arith) in
    (
      record { kernel_pool = k; user_pool = u; memory = memory },
      palloc_init-pools memory ram limit k u low high ek eu,
      refl,
      divided memory ram limit k u
          (subst (λ e. IsFresh (phys_base + 1024 * 1024) e k) (omega arith) fk)
          (subst (λ e. IsFresh (middle ram limit) e u) (omega arith) fu),
    )

-- ===== src/Threads/Palloc/Pools.antt =====
-- When the two pools of palloc.c are well formed.
use ee461s_projects.Common.{
  ℕ, ◌+◌, ◌*◌, ◌%◌, ◌^◌, ◌<◌, ◌≤◌, ◌≡◌, refl, Bool, true, false, not, arith,
}
use ee461s_projects.KernelLib.Bitmap.{Bitmap}
use ee461s_projects.KernelLib.Bitmap.Words.{IsValid}
use ee461s_projects.KernelLib.Bitmap.Ranges.{Filled}
use ee461s_projects.Threads.Vaddr.{page_size, pg_no, pg_ofs}
use ee461s_projects.Threads.Palloc.{Pool, Ram, pool_of, set_used_map, page_from_pool}

-- A pool's pages begin on a page behind the null page and lie below 2 ^ 32.
pub record IsPool (p : Pool) : Type 0 where
  pub valid : IsValid p.used_map
  pub aligned : p.base % page_size ≡ 0
  pub not_null : 0 < p.base
  pub below : p.base + page_size * p.used_map.bit_cnt < 2 ^ 32

-- The pools' pages are apart.
pub record IsReady (s : Ram) : Type 0 where
  pub kernel : IsPool s.kernel_pool
  pub user : IsPool s.user_pool
  pub apart : s.kernel_pool.base + page_size * s.kernel_pool.used_map.bit_cnt ≤ s.user_pool.base

pub pool_of-IsPool : (s : Ram) (user : Bool) → IsReady s → IsPool (pool_of s user)
unfolding pool_of
pool_of-IsPool s true r = r.user
pool_of-IsPool s false r = r.kernel

-- `s'` has the pools of `s`, but for the `cnt` pages from `i` on in one pool, which are now in use or free.
pub record Marked (s : Ram) (user : Bool) (i cnt : ℕ) (used : Bool) (s' : Ram) : Type 0 where
  pub map : Filled (pool_of s user).used_map i cnt used (pool_of s' user).used_map
  pub same_base : (pool_of s' user).base ≡ (pool_of s user).base
  pub other : pool_of s' (not user) ≡ pool_of s (not user)

pub set_used_map-Marked :
    (s : Ram) (user : Bool) (i cnt : ℕ) (used : Bool) (b : Bitmap) (memory : ℕ → ℕ)
    → Filled (pool_of s user).used_map i cnt used b
    → Marked s user i cnt used (set_used_map (record s { memory = memory }) user b)
unfolding pool_of set_used_map
set_used_map-Marked s true i cnt used b memory f = record {
  map = f;
  same_base = refl;
  other = refl;
}
set_used_map-Marked s false i cnt used b memory f = record {
  map = f;
  same_base = refl;
  other = refl;
}

marked-IsPool :
    (p p' : Pool) (i cnt : ℕ) (used : Bool)
    → IsPool p
    → Filled p.used_map i cnt used p'.used_map
    → p'.base ≡ p.base
    → IsPool p'
marked-IsPool p p' i cnt used r f e = record {
  valid = f.valid;
  aligned = rw e r.aligned;
  not_null = rw e r.not_null;
  below = rw (e, f.same_cnt) r.below;
}

pub Marked-IsReady :
    (s s' : Ram) (user : Bool) (i cnt : ℕ) (used : Bool)
    → IsReady s
    → Marked s user i cnt used s'
    → IsReady s'
unfolding pool_of
Marked-IsReady s s' true i cnt used r m = record {
  kernel = rw m.other r.kernel;
  user = marked-IsPool s.user_pool s'.user_pool i cnt used r.user m.map m.same_base;
  apart = rw (m.other, m.same_base) r.apart;
}
Marked-IsReady s s' false i cnt used r m = record {
  kernel = marked-IsPool s.kernel_pool s'.kernel_pool i cnt used r.kernel m.map m.same_base;
  user = rw m.other r.user;
  apart = rw (m.other, m.same_base, m.map.same_cnt) r.apart;
}

-- The address of a pool's page `i`.
pub page_of_pool :
    (p : Pool) (i : ℕ)
    → IsPool p
    → i < p.used_map.bit_cnt
    → page_from_pool p (p.base + page_size * i) ≡ true
unfolding page_from_pool pg_no
page_of_pool p i r lt = ground (arith, r.aligned, r.below)

pub page_not_of_kernel :
    (s : Ram) (i : ℕ)
    → IsReady s
    → page_from_pool s.kernel_pool (s.user_pool.base + page_size * i) ≡ false
unfolding page_from_pool pg_no
page_not_of_kernel s i r = ground (arith, r.apart, r.kernel.aligned, r.kernel.below)

pub page_ofs-zero : (p : Pool) (i : ℕ) → IsPool p → pg_ofs (p.base + page_size * i) ≡ 0
unfolding pg_ofs
page_ofs-zero p i r = omega (arith, r.aligned)

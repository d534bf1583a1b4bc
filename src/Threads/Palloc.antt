-- ===== src/Threads/Palloc.antt =====
-- threads/palloc.c over lib/kernel/bitmap.c. `none` is a failed ASSERT, a PANIC or NOT_REACHED; the
-- null pointer is 0. A pool's lock is held around the one call of bitmap_scan_and_flip, which is one
-- step here. The bitmaps, which lie in front of the pools' bases, are kept apart from the memory.
pub mod Pools
pub mod Get
pub mod Free
pub mod Init
mod Tests
use ee461s_projects.Common.{
  ℕ, zero, suc, ◌+◌, ◌-◌, ◌*◌, ◌/◌, ◌%◌, ◌^◌, Bool, true, false, not, ◌&&◌, ◌||◌, Option, none,
  some, List, [], ◌∷◌, ltb, leb, ◌==◌, if◌then◌else◌, ◌>>=◌, bit_and,
}
use ee461s_projects.KernelLib.Bitmap.{
  Bitmap, bitmap_error, elem_cnt, bitmap_buf_size, bitmap_create_in_buf, bitmap_scan_and_flip,
  bitmap_all, bitmap_set_multiple,
}
use ee461s_projects.Threads.Vaddr.{page_size, pg_ofs, pg_no, ptov}

-- enum palloc_flags
abbrev pub pal_assert : ℕ
pal_assert = 1

abbrev pub pal_zero : ℕ
pal_zero = 2

abbrev pub pal_user : ℕ
pal_user = 4

-- struct pool
pub record Pool : Type 0 where
  pub used_map : Bitmap
  pub base : ℕ

-- The two pools and the bytes of the memory they divide.
pub record Ram : Type 0 where
  pub kernel_pool : Pool
  pub user_pool : Pool
  pub memory : ℕ → ℕ

unfoldable pub has_flag : ℕ → ℕ → Bool
has_flag flags flag = not (bit_and flags flag == 0)

unfoldable pub pool_of : Ram → (user : Bool) → Pool
pool_of s true = s.user_pool
pool_of s false = s.kernel_pool

unfoldable pub set_used_map : Ram → (user : Bool) → Bitmap → Ram
set_used_map s true b = record s { user_pool = record s.user_pool { used_map = b } }
set_used_map s false b = record s { kernel_pool = record s.kernel_pool { used_map = b } }

-- memset on the memory
unfoldable pub set_bytes : (ℕ → ℕ) → (dst value size : ℕ) → ℕ → ℕ
set_bytes memory dst value size a = if leb dst a && ltb a (dst + size) then value else memory a

unfoldable pub page_address : Pool → ℕ → ℕ
page_address pool page_idx =
    if page_idx == bitmap_error then 0 else (pool.base + page_size * page_idx) % 2 ^ 32

-- The end of palloc_get_multiple, behind the choice of `pages`.
unfoldable pub hand_out : Ram → (flags pages page_cnt : ℕ) → Option (ℕ × Ram)
unfolding has_flag
hand_out s flags pages page_cnt =
    if pages == 0
    then if has_flag flags pal_assert then none else some (0, s)
    else some (
      pages,
      if has_flag flags pal_zero
          then record s { memory = set_bytes s.memory pages 0 (page_size * page_cnt % 2 ^ 32) }
          else s,
    )

unfoldable pub get_from : Ram → (user : Bool) → (flags page_cnt : ℕ) → Option (ℕ × Ram)
unfolding pool_of set_used_map page_address hand_out
get_from s user flags page_cnt = if page_cnt == 0 then some (0, s) else do
  r ← bitmap_scan_and_flip (pool_of s user).used_map 0 page_cnt false
  hand_out (set_used_map s user r.1) flags (page_address (pool_of s user) r.0) page_cnt

unfoldable pub palloc_get_multiple : Ram → (flags page_cnt : ℕ) → Option (ℕ × Ram)
unfolding get_from has_flag
palloc_get_multiple s flags page_cnt = get_from s (has_flag flags pal_user) flags page_cnt

unfoldable pub palloc_get_page : Ram → (flags : ℕ) → Option (ℕ × Ram)
unfolding palloc_get_multiple
palloc_get_page s flags = palloc_get_multiple s flags 1

unfoldable pub page_from_pool : Pool → (page : ℕ) → Bool
unfolding pg_no
page_from_pool pool page =
    leb (pg_no pool.base) (pg_no page)
    && ltb (pg_no page) ((pg_no pool.base + pool.used_map.bit_cnt) % 2 ^ 32)

-- palloc_free_multiple behind the choice of the pool.
unfoldable pub free_in : Ram → (user : Bool) → (pages page_cnt : ℕ) → Option Ram
unfolding pool_of set_used_map set_bytes pg_no
free_in s user pages page_cnt = do
  let pool = pool_of s user
  let page_idx = pg_no pages - pg_no pool.base
  let memory = set_bytes s.memory pages 0xcc (page_size * page_cnt % 2 ^ 32)
  all_used ← bitmap_all pool.used_map page_idx page_cnt
  if all_used
      then (do
        b ← bitmap_set_multiple pool.used_map page_idx page_cnt false
        some (set_used_map (record s { memory = memory }) user b))
      else none

unfoldable pub palloc_free_multiple : Ram → (pages page_cnt : ℕ) → Option Ram
unfolding pg_ofs page_from_pool free_in
palloc_free_multiple s pages page_cnt =
    if not (pg_ofs pages == 0)
    then none
    else if (pages == 0) || (page_cnt == 0)
    then some s
    else if page_from_pool s.kernel_pool pages
    then free_in s false pages page_cnt
    else if page_from_pool s.user_pool pages
    then free_in s true pages page_cnt
    else none

unfoldable pub palloc_free_page : Ram → (page : ℕ) → Option Ram
unfolding palloc_free_multiple
palloc_free_page s page = palloc_free_multiple s page 1

-- The `n` words of the memory from `a` on, as a block holds them.
unfoldable pub words_at : (ℕ → ℕ) → (a n : ℕ) → List ℕ
words_at memory a zero = []
words_at memory a (suc n) =
    (memory a + 2 ^ 8 * memory (a + 1) + 2 ^ 16 * memory (a + 2) + 2 ^ 24 * memory (a + 3))
    ∷ words_at memory (a + 4) n

unfoldable pub init_pool : (ℕ → ℕ) → (base page_cnt : ℕ) → Option Pool
unfolding words_at
init_pool memory base page_cnt = do
  let bm_pages = (bitmap_buf_size page_cnt + page_size - 1) / page_size
  let left = page_cnt - bm_pages
  if ltb page_cnt bm_pages then none else do
    b ←
        bitmap_create_in_buf left (words_at memory (base + 8) (elem_cnt left))
          (bm_pages * page_size)
    some (record { used_map = b; base = (base + bm_pages * page_size) % 2 ^ 32 })

-- The difference of two pointers, by the size of a page: both are signed, the result is a size_t.
unfoldable pub pages_between : (free_start free_end : ℕ) → ℕ
pages_between free_start free_end =
    let d = (free_end + 2 ^ 32 - free_start) % 2 ^ 32 in
    if ltb d (2 ^ 31) then d / page_size else (2 ^ 32 - (2 ^ 32 - d) / page_size) % 2 ^ 32

unfoldable pub palloc_init : (ℕ → ℕ) → (init_ram_pages user_page_limit : ℕ) → Option Ram
unfolding ptov init_pool pages_between
palloc_init memory init_ram_pages user_page_limit = do
  free_start ← ptov (1024 * 1024)
  free_end ← ptov (init_ram_pages * page_size % 2 ^ 32)
  let free_pages = pages_between free_start free_end
  let half = free_pages / 2
  let user_pages = if ltb user_page_limit half then user_page_limit else half
  let kernel_pages = free_pages - user_pages
  kernel ← init_pool memory free_start kernel_pages
  user ← init_pool memory ((free_start + kernel_pages * page_size) % 2 ^ 32) user_pages
  some (record { kernel_pool = kernel; user_pool = user; memory = memory })

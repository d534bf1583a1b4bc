-- ===== src/Threads/Malloc.antt =====
-- threads/malloc.c over threads/palloc.c. A descriptor is named by its index, and the addresses of its
-- free blocks are its list. The arenas are a store with addresses: an address has an arena while the
-- magic number stands there, so that the pages that palloc takes back have none. `none` is a failed
-- ASSERT. A descriptor's lock is held by one call at a time, which is one step here.
pub mod Blocks
pub mod Back
mod Tests
use ee461s_projects.Common.{
  ℕ, zero, suc, ◌+◌, ◌-◌, ◌*◌, ◌/◌, ◌%◌, ◌^◌, Bool, true, false, not, ◌&&◌, ◌||◌, Option, none,
  some, List, [], ◌∷◌, ◌++◌, ltb, leb, ◌==◌, if◌then◌else◌, ◌>>=◌, update, erase_all,
}
use ee461s_projects.Threads.Vaddr.{page_size, pg_ofs}
use ee461s_projects.Threads.Palloc.{
  Ram, set_bytes, palloc_get_multiple, palloc_get_page, palloc_free_multiple, palloc_free_page,
}

-- struct desc
pub record Desc : Type 0 where
  pub block_size : ℕ
  pub blocks_per_arena : ℕ
  pub free_list : List ℕ

-- struct arena; `desc` is the index of the owning descriptor, or `none` for a big block.
pub record Arena : Type 0 where
  pub desc : Option ℕ
  pub free_cnt : ℕ

pub record Heap : Type 0 where
  pub ram : Ram
  pub arenas : ℕ → Option Arena
  pub descs : ℕ → Desc
  pub desc_cnt : ℕ

-- sizeof (struct arena)
abbrev pub arena_size : ℕ
arena_size = 12

-- The loop of malloc_init.
unfoldable pub init_descs : ℕ → (block_size desc_cnt : ℕ) → (ℕ → Desc) → Option ((ℕ → Desc) × ℕ)
init_descs zero block_size desc_cnt descs = none
init_descs (suc fuel) block_size desc_cnt descs =
    let new : Desc = record {
      block_size = block_size;
      blocks_per_arena = (page_size - arena_size) / block_size;
      free_list = [];
    } in
    let rest = init_descs fuel (block_size * 2) (desc_cnt + 1) (update descs desc_cnt new) in
    if ltb block_size (page_size / 2)
    then if leb (desc_cnt + 1) 10 then rest else none
    else some (descs, desc_cnt)

unfoldable pub malloc_init : Heap → Option Heap
unfolding init_descs
malloc_init h = do
  r ← init_descs 12 16 h.desc_cnt h.descs
  some (record h { descs = r.0; desc_cnt = r.1 })

-- The first of the `n` descriptors from `d` on whose blocks hold `size` bytes.
unfoldable pub find_desc : ℕ → (ℕ → Desc) → (d size : ℕ) → ℕ
find_desc zero descs d size = d
find_desc (suc n) descs d size =
    let rest = find_desc n descs (d + 1) size in if leb size (descs d).block_size then d else rest

-- The ASSERTs on a block's place in its arena.
unfoldable pub is_aligned : Heap → (b : ℕ) → Option ℕ → Bool
unfolding pg_ofs
is_aligned h b none = pg_ofs b == arena_size
is_aligned h b (some d) = (pg_ofs b + 2 ^ 32 - arena_size) % 2 ^ 32 % (h.descs d).block_size == 0

unfoldable pub block_to_arena : Heap → (b : ℕ) → Option (ℕ × Arena)
unfolding is_aligned pg_ofs
block_to_arena h b =
    let addr = b - pg_ofs b in
    if addr == 0
    then none
    else (do a ← h.arenas addr; if is_aligned h b a.desc then some (addr, a) else none)

-- The blocks of an arena from the `i`th on, by arena_to_block.
unfoldable pub arena_to_blocks : ℕ → (a block_size i : ℕ) → List ℕ
arena_to_blocks zero a block_size i = []
arena_to_blocks (suc n) a block_size i =
    (a + arena_size + i * block_size) ∷ arena_to_blocks n a block_size (i + 1)

unfoldable pub set_free_list : Heap → (d : ℕ) → List ℕ → Heap
set_free_list h d l = record h { descs = update h.descs d (record (h.descs d) { free_list = l }) }

unfoldable pub set_free_cnt : Heap → (addr : ℕ) → Arena → ℕ → Heap
set_free_cnt h addr a n = record h {
  arenas = update h.arenas addr (some (record a { free_cnt = n }));
}

-- A big block.
unfoldable pub malloc_pages : Heap → (size : ℕ) → Option (ℕ × Heap)
malloc_pages h size = do
  let page_cnt = (size + arena_size + page_size - 1) % 2 ^ 32 / page_size
  r ← palloc_get_multiple h.ram 0 page_cnt
  if r.0 == 0
      then some (0, record h { ram = r.1 })
      else some (
        (r.0 + arena_size) % 2 ^ 32,
        record h {
          ram = r.1;
          arenas = update h.arenas r.0 (some (record { desc = none; free_cnt = page_cnt }));
        },
      )

-- A new arena and its blocks.
unfoldable pub add_arena : Heap → Ram → (a d : ℕ) → Heap
unfolding arena_to_blocks set_free_list
add_arena h ram a d =
    let desc = h.descs d in
    set_free_list
      (record h {
        ram = ram;
        arenas =
            update h.arenas a (some (record { desc = some d; free_cnt = desc.blocks_per_arena }));
      })
      d (desc.free_list ++ arena_to_blocks desc.blocks_per_arena a desc.block_size 0)

-- The first of the free blocks.
unfoldable pub pop_block : Heap → (d : ℕ) → List ℕ → Option (ℕ × Heap)
unfolding block_to_arena set_free_list set_free_cnt
pop_block h d [] = none
pop_block h d (b ∷ bs) = do
  r ← block_to_arena (set_free_list h d bs) b
  some (b, set_free_cnt (set_free_list h d bs) r.0 r.1 ((r.1.free_cnt + 2 ^ 32 - 1) % 2 ^ 32))

unfoldable pub malloc_block : Heap → (d : ℕ) → List ℕ → Option (ℕ × Heap)
unfolding add_arena pop_block
malloc_block h d [] = do
  r ← palloc_get_page h.ram 0
  if r.0 == 0
      then some (0, record h { ram = r.1 })
      else (do let h' = add_arena h r.1 r.0 d; pop_block h' d (h'.descs d).free_list)
malloc_block h d (b ∷ bs) = pop_block h d (b ∷ bs)

unfoldable pub malloc : Heap → (size : ℕ) → Option (ℕ × Heap)
unfolding find_desc malloc_pages malloc_block
malloc h size =
    let d = find_desc h.desc_cnt h.descs 0 size in
    if size == 0
    then some (0, h)
    else if d == h.desc_cnt
    then malloc_pages h size
    else malloc_block h d (h.descs d).free_list

unfoldable pub calloc : Heap → (a b : ℕ) → Option (ℕ × Heap)
unfolding malloc set_bytes
calloc h a b =
    let size = a * b % 2 ^ 32 in
    if ltb size a || ltb size b then some (0, h) else (do
      r ← malloc h size
      if r.0 == 0
          then some r
          else some (
            r.0,
            record r.1 { ram = record r.1.ram { memory = set_bytes r.1.ram.memory r.0 0 size } },
          ))

-- The loop of list_remove over the blocks of an arena.
unfoldable pub remove_blocks : List ℕ → List ℕ → List ℕ
remove_blocks [] l = l
remove_blocks (b ∷ bs) l = remove_blocks bs (erase_all b l)

-- An entirely unused arena.
unfoldable pub free_arena : Heap → (addr d : ℕ) → Option Heap
unfolding arena_to_blocks set_free_list remove_blocks
free_arena h addr d = do
  let desc = h.descs d
  let blocks = arena_to_blocks desc.blocks_per_arena addr desc.block_size 0
  ram ← palloc_free_page h.ram addr
  some (
      set_free_list (record h { ram = ram; arenas = update h.arenas addr none }) d
        (remove_blocks blocks desc.free_list))

unfoldable pub free_block : Heap → (p addr : ℕ) → Arena → Option ℕ → Option Heap
unfolding free_arena set_free_list set_free_cnt set_bytes
free_block h p addr a none = do
  ram ← palloc_free_multiple h.ram addr a.free_cnt
  some (record h { ram = ram; arenas = update h.arenas addr none })
free_block h p addr a (some d) =
    let desc = h.descs d in
    let free_cnt = (a.free_cnt + 1) % 2 ^ 32 in
    let memory = set_bytes h.ram.memory p 0xcc desc.block_size in
    let h' =
      set_free_cnt
        (set_free_list (record h { ram = record h.ram { memory = memory } }) d (p ∷ desc.free_list))
        addr a free_cnt in
    if ltb free_cnt desc.blocks_per_arena
    then some h'
    else if free_cnt == desc.blocks_per_arena
    then free_arena h' addr d
    else none

unfoldable pub free : Heap → (p : ℕ) → Option Heap
unfolding block_to_arena free_block
free h p = if p == 0 then some h else (do r ← block_to_arena h p; free_block h p r.0 r.1 r.1.desc)

-- What block_size gives for a block of the arena.
unfoldable pub size_in : Heap → (block : ℕ) → Arena → Option ℕ → ℕ
size_in h block a none = (page_size * a.free_cnt + 2 ^ 32 - block % page_size) % 2 ^ 32
size_in h block a (some d) = (h.descs d).block_size

unfoldable pub copy_bytes : (ℕ → ℕ) → (dst src size : ℕ) → ℕ → ℕ
copy_bytes memory dst src size a =
    if leb dst a && ltb a (dst + size) then memory (src + (a - dst)) else memory a

unfoldable pub realloc : Heap → (old_block new_size : ℕ) → Option (ℕ × Heap)
unfolding malloc free block_to_arena size_in copy_bytes
realloc h old_block new_size =
    if new_size == 0 then (do h' ← free h old_block; some (0, h')) else (do
      r ← malloc h new_size
      if (old_block == 0) || (r.0 == 0) then some r else (do
        q ← block_to_arena r.1 old_block
        let old_size = size_in r.1 old_block q.1 q.1.desc
        let min_size = if ltb new_size old_size then new_size else old_size
        let memory = copy_bytes r.1.ram.memory r.0 old_block min_size
        h' ← free (record r.1 { ram = record r.1.ram { memory = memory } }) old_block
        some (r.0, h')))

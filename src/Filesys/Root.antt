-- ===== src/Filesys/Root.antt =====
-- filesys/filesys.c, and the start and end of the free map in filesys/free-map.c with bitmap_read of
-- lib/kernel/bitmap.c. `none` is a failed ASSERT or a PANIC. An argument that begins with `fresh` is an
-- address that malloc or calloc returns, 0 for NULL, one that ends in `ok` says whether it is not NULL.
mod Reads
mod Tests
use ee461s_projects.Common.{
  ℕ, zero, suc, ◌+◌, ◌-◌, ◌*◌, Bool, true, false, not, ◌&&◌, ◌||◌, Option, none, some, List, [],
  ◌∷◌, ◌++◌, ◌==◌, if◌then◌else◌, ◌>>=◌, take, drop, get_or, bit_and,
}
use ee461s_projects.KernelLib.Bitmap.{
  Bitmap, bitmap_error, byte_cnt, elem_cnt, last_mask, set_elem, bitmap_create, bitmap_mark,
}
use ee461s_projects.Filesys.Store.{
  FileSystem, null, u32_at, bytes_of, file_read_at, bitmap_write, free_map_allocate,
  free_map_release,
}
use ee461s_projects.Filesys.OpenInodes.{inode_open, inode_create}
use ee461s_projects.Filesys.File.{file_open, file_close}
use ee461s_projects.Filesys.Directory.{
  Dir, root_dir_sector, dir_open_root, dir_close, dir_create, dir_lookup, dir_add, dir_remove,
}

abbrev pub free_map_sector : ℕ
free_map_sector = 0

-- The `n` words that the bytes stand for.
unfoldable pub words_of : ℕ → List ℕ → List ℕ
words_of zero bytes = []
words_of (suc n) bytes = u32_at bytes 0 ∷ words_of n (drop 4 bytes)

-- The bits past the end of the bitmap are cleared, also when the file is too short.
unfoldable pub bitmap_read : FileSystem → Bitmap → (file : ℕ) → Option (Bool × Bitmap)
unfolding words_of
bitmap_read fs b file = if b.bit_cnt == 0 then some (true, b) else (do
  let n = elem_cnt b.bit_cnt
  r ← file_read_at fs file (byte_cnt b.bit_cnt) 0
  let words = words_of n (take r.0 r.1 ++ drop r.0 (bytes_of b.bits))
  let last = bit_and (get_or words (n - 1) 0) (last_mask b)
  some (r.0 == byte_cnt b.bit_cnt, record b { bits = set_elem words (n - 1) last }))

-- `sectors` is the size of the device, and `garbage` what bitmap_create finds in its block.
unfoldable pub free_map_init :
    FileSystem → (struct_ok bits_ok : Bool) → List ℕ → (sectors : ℕ) → Option FileSystem
free_map_init fs struct_ok bits_ok garbage sectors =
    bitmap_create struct_ok bits_ok garbage sectors >>= λ r. elim r [
      | none ↦ none
      | some b ↦ (do
        b1 ← bitmap_mark b free_map_sector
        b2 ← bitmap_mark b1 root_dir_sector
        some (record fs { free_map = b2 }))
    ]

unfoldable pub free_map_open : FileSystem → (fresh_inode fresh_file : ℕ) → Option FileSystem
unfolding bitmap_read
free_map_open fs fresh_inode fresh_file = do
  i ← inode_open fs fresh_inode free_map_sector
  f ← file_open i.1 fresh_file i.0
  if f.0 == null then none else (do
    r ← bitmap_read f.1 f.1.free_map f.0
    if r.0 then some (record f.1 { free_map = r.1; free_map_file = f.0 }) else none)

unfoldable pub free_map_close : FileSystem → Option FileSystem
free_map_close fs = file_close fs fs.free_map_file

unfoldable pub free_map_create :
    FileSystem → (inode_ok : Bool) → (fresh_inode fresh_file : ℕ) → Option FileSystem
free_map_create fs inode_ok fresh_inode fresh_file = do
  c ← inode_create fs inode_ok free_map_sector (byte_cnt fs.free_map.bit_cnt)
  if not c.0 then none else (do
    i ← inode_open c.1 fresh_inode free_map_sector
    f ← file_open i.1 fresh_file i.0
    if f.0 == null then none else (do
      w ← bitmap_write f.1 f.1.free_map f.0
      if w.0 then some (record w.1 { free_map_file = f.0 }) else none))

unfoldable pub do_format :
    FileSystem → (map_ok root_ok : Bool) → (fresh_inode fresh_file : ℕ) → Option FileSystem
unfolding free_map_create free_map_close
do_format fs map_ok root_ok fresh_inode fresh_file = do
  fs1 ← free_map_create fs map_ok fresh_inode fresh_file
  r ← dir_create fs1 root_ok root_dir_sector 16
  if r.0 then free_map_close r.1 else none

unfoldable pub filesys_done : FileSystem → Option FileSystem
unfolding free_map_close
filesys_done fs = free_map_close fs

-- The allocations and the addition of filesys_create: whether they succeed, and `inode_sector`.
unfoldable pub create_in :
    FileSystem
    → (inode_ok : Bool) → Option Dir
    → (name : List ℕ) (initial_size : ℕ) (e : List ℕ) → Option ((Bool × ℕ) × FileSystem)
create_in fs inode_ok none name initial_size e = some ((false, 0), fs)
create_in fs inode_ok (some dir) name initial_size e = do
  a ← free_map_allocate fs 1
  if a.0 == bitmap_error then some ((false, 0), a.1) else (do
    c ← inode_create a.1 inode_ok a.0 initial_size
    if not c.0
        then some ((false, a.0), c.1)
        else (do w ← dir_add c.1 dir name a.0 e; some ((w.0, a.0), w.1)))

-- `e` is what the stack holds in a variable of dir_add before.
unfoldable pub filesys_create :
    FileSystem
    → (dir_ok inode_ok : Bool) (fresh_dir : ℕ) → (name : List ℕ) (initial_size : ℕ) (e : List ℕ)
    → Option (Bool × FileSystem)
unfolding create_in
filesys_create fs dir_ok inode_ok fresh_dir name initial_size e = do
  d ← dir_open_root fs dir_ok fresh_dir
  r ← create_in d.1 inode_ok d.0 name initial_size e
  fs1 ← if not r.0.0 && not (r.0.1 == 0) then free_map_release r.1 r.0.1 1 else some r.1
  fs2 ← dir_close fs1 d.0
  some (r.0.0, fs2)

unfoldable pub lookup_in : FileSystem → (fresh : ℕ) → Option Dir → List ℕ → Option (ℕ × FileSystem)
lookup_in fs fresh none name = some (null, fs)
lookup_in fs fresh (some dir) name = dir_lookup fs fresh dir name

unfoldable pub filesys_open :
    FileSystem
    → (dir_ok : Bool) (fresh_dir fresh_inode fresh_file : ℕ) → (name : List ℕ)
    → Option (ℕ × FileSystem)
unfolding lookup_in
filesys_open fs dir_ok fresh_dir fresh_inode fresh_file name = do
  d ← dir_open_root fs dir_ok fresh_dir
  i ← lookup_in d.1 fresh_inode d.0 name
  fs1 ← dir_close i.1 d.0
  file_open fs1 fresh_file i.0

unfoldable pub remove_in :
    FileSystem → (fresh : ℕ) → Option Dir → List ℕ → Option (Bool × FileSystem)
remove_in fs fresh none name = some (false, fs)
remove_in fs fresh (some dir) name = dir_remove fs fresh dir name

unfoldable pub filesys_remove :
    FileSystem
    → (dir_ok : Bool) (fresh_dir fresh_inode : ℕ) → (name : List ℕ) → Option (Bool × FileSystem)
unfolding remove_in
filesys_remove fs dir_ok fresh_dir fresh_inode name = do
  d ← dir_open_root fs dir_ok fresh_dir
  r ← remove_in d.1 fresh_inode d.0 name
  fs1 ← dir_close r.1 d.0
  some (r.0, fs1)

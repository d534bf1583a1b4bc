-- ===== src/Filesys/Store.antt =====
-- The state of the file system in memory: open inodes (filesys/inode.c), open files
-- (filesys/file.c) and the free map (filesys/free-map.c), as blocks at addresses, 0 for NULL.
-- `none` is a failed ASSERT, an access through NULL or to a block that is not allocated.
use ee461s_projects.Common.{
  ℕ, ◌+◌, ◌*◌, ◌/◌, ◌%◌, Bool, false, ◌||◌, Option, none, some, List, [], ◌∷◌, ◌++◌, ◌==◌,
  if◌then◌else◌, ◌>>=◌, get_or,
}
use ee461s_projects.KernelLib.Bitmap.{
  Bitmap, bitmap_error, byte_cnt, bitmap_all, bitmap_set_multiple, bitmap_scan_and_flip,
}
use ee461s_projects.Filesys.Inode.{Disk, Inode, inode_read_at, inode_write_at}

-- struct file
pub record File : Type 0 where
  pub inode : ℕ
  pub pos : ℕ
  pub deny_write : Bool

-- The disk, the static variables of inode.c and free-map.c, and the blocks of memory. `bounce_ok`
-- says whether malloc gives a bounce buffer to the transfer that runs.
pub record FileSystem : Type 0 where
  pub disk : Disk
  pub open_inodes : List ℕ
  pub inodes : ℕ → Option Inode
  pub files : ℕ → Option File
  pub free_map : Bitmap
  pub free_map_file : ℕ
  pub bounce_ok : Bool

abbrev pub null : ℕ
null = 0

-- The bytes of a 32-bit word, lowest first, and the word at an offset of some bytes.
abbrev pub le32 : ℕ → List ℕ
le32 w = w % 256 ∷ w / 256 % 256 ∷ w / 65536 % 256 ∷ w / 16777216 % 256 ∷ []

abbrev pub u32_at : List ℕ → ℕ → ℕ
u32_at bytes o =
    get_or bytes o 0
    + 256 * get_or bytes (o + 1) 0
    + 65536 * get_or bytes (o + 2) 0
    + 16777216 * get_or bytes (o + 3) 0

abbrev pub bytes_of : List ℕ → List ℕ
bytes_of [] = []
bytes_of (w ∷ ws) = le32 w ++ bytes_of ws

unfoldable pub file_read_at : FileSystem → (file size file_ofs : ℕ) → Option (ℕ × List ℕ)
file_read_at fs file size file_ofs = do
  f ← fs.files file
  inode ← fs.inodes f.inode
  some (inode_read_at fs.disk fs.bounce_ok inode size file_ofs)

unfoldable pub file_write_at :
    FileSystem → ℕ → List ℕ → (size file_ofs : ℕ) → Option (ℕ × FileSystem)
file_write_at fs file buffer size file_ofs = do
  f ← fs.files file
  inode ← fs.inodes f.inode
  let (n, disk) = inode_write_at fs.disk fs.bounce_ok inode buffer size file_ofs in
      some (n, record fs { disk = disk })

-- bitmap_write of lib/kernel/bitmap.c
unfoldable pub bitmap_write : FileSystem → Bitmap → ℕ → Option (Bool × FileSystem)
bitmap_write fs b file = do
  r ← file_write_at fs file (bytes_of b.bits) (byte_cnt b.bit_cnt) 0
  some (r.0 == byte_cnt b.bit_cnt, r.1)

-- free_map_allocate: the first sector of the run, BITMAP_ERROR if it returns false.
unfoldable pub free_map_allocate : FileSystem → (cnt : ℕ) → Option (ℕ × FileSystem)
free_map_allocate fs cnt = do
  s ← bitmap_scan_and_flip fs.free_map 0 cnt false
  if s.0 == bitmap_error || (fs.free_map_file == null)
      then some (s.0, record fs { free_map = s.1 })
      else do
        w ← bitmap_write fs s.1 fs.free_map_file
        if w.0 then some (s.0, record w.1 { free_map = s.1 }) else do
          b ← bitmap_set_multiple s.1 s.0 cnt false
          some (bitmap_error, record w.1 { free_map = b })

unfoldable pub free_map_release : FileSystem → (sector cnt : ℕ) → Option FileSystem
free_map_release fs sector cnt = do
  all ← bitmap_all fs.free_map sector cnt
  if all
      then (do
        b ← bitmap_set_multiple fs.free_map sector cnt false
        w ← bitmap_write (record fs { free_map = b }) b fs.free_map_file
        some w.1)
      else none

-- ===== src/Filesys/OpenInodes.antt =====
-- filesys/inode.c: the list of open inodes, their counts of openers and of those who deny writes.
use ee461s_projects.Common.{
  ℕ, zero, suc, ◌+◌, ◌-◌, ◌%◌, ◌^◌, Bool, true, false, not, ◌&&◌, Option, none, some, List, [], ◌∷◌,
  ◌++◌, ltb, leb, ◌==◌, if◌then◌else◌, update, ◌>>=◌, erase_all, replicate,
}
use ee461s_projects.Filesys.Inode.{InodeDisk, Inode, Disk, bytes_to_sectors, block_sector_size}
use ee461s_projects.Filesys.Store.{
  FileSystem, null, le32, u32_at, free_map_allocate, free_map_release,
}
use ee461s_projects.KernelLib.Bitmap.{bitmap_error}

-- The sector's first two words; the disk has the layout of struct inode_disk.
unfoldable pub inode_disk_at : List ℕ → InodeDisk
inode_disk_at bytes = record { start = u32_at bytes 0; length = u32_at bytes 4 }

abbrev pub set_inode : FileSystem → ℕ → Inode → FileSystem
set_inode fs a i = record fs { inodes = update fs.inodes a (some i) }

unfoldable pub inode_reopen : FileSystem → ℕ → Option FileSystem
inode_reopen fs inode = if inode == null then some fs else do
  i ← fs.inodes inode
  some (set_inode fs inode (record i { open_cnt = (i.open_cnt + 1) % 2 ^ 32 }))

-- The loop of inode_open: the open inode of a sector, or NULL.
unfoldable pub find_open : (ℕ → Option Inode) → ℕ → List ℕ → Option ℕ
find_open inodes sector [] = some null
find_open inodes sector (a ∷ rest) =
    let later = find_open inodes sector rest in
    inodes a >>= λ i. if i.sector == sector then some a else later

-- `fresh` is what malloc returns.
unfoldable pub inode_open : FileSystem → (fresh sector : ℕ) → Option (ℕ × FileSystem)
inode_open fs fresh sector = do
  a ← find_open fs.inodes sector fs.open_inodes
  if not (a == null)
      then (do fs' ← inode_reopen fs a; some (a, fs'))
      else if fresh == null
      then some (null, fs)
      else some (
        fresh,
        record (set_inode fs fresh (record {
          sector = sector;
          open_cnt = 1;
          removed = false;
          deny_write_cnt = 0;
          inode_data = inode_disk_at (fs.disk sector);
        })) { open_inodes = fresh ∷ fs.open_inodes },
      )

-- The last part of inode_close: the blocks of a removed inode, then its memory.
unfoldable pub inode_release : FileSystem → ℕ → Inode → Option FileSystem
inode_release fs inode i = do
  fs' ←
      if i.removed
      then (do
        fs1 ← free_map_release fs i.sector 1
        free_map_release fs1 i.inode_data.start (bytes_to_sectors i.inode_data.length))
      else some fs
  some (record fs' { inodes = update fs'.inodes inode none })

unfoldable pub inode_close : FileSystem → ℕ → Option FileSystem
inode_close fs inode = if inode == null then some fs else do
  i ← fs.inodes inode
  let cnt = (i.open_cnt + 2 ^ 32 - 1) % 2 ^ 32 in
      if cnt == 0
      then inode_release
          (record (set_inode fs inode (record i { open_cnt = cnt })) {
            open_inodes = erase_all inode fs.open_inodes;
          })
          inode i
      else some (set_inode fs inode (record i { open_cnt = cnt }))

unfoldable pub inode_remove : FileSystem → ℕ → Option FileSystem
inode_remove fs inode =
    if inode == null
    then none
    else do i ← fs.inodes inode; some (set_inode fs inode (record i { removed = true }))

unfoldable pub inode_deny_write : FileSystem → ℕ → Option FileSystem
inode_deny_write fs inode = do
  i ← fs.inodes inode
  let cnt = (i.deny_write_cnt + 1) % 2 ^ 32 in
      if leb cnt i.open_cnt
      then some (set_inode fs inode (record i { deny_write_cnt = cnt }))
      else none

unfoldable pub inode_allow_write : FileSystem → ℕ → Option FileSystem
inode_allow_write fs inode = do
  i ← fs.inodes inode
  if ltb 0 i.deny_write_cnt && leb i.deny_write_cnt i.open_cnt
      then some (set_inode fs inode (record i { deny_write_cnt = i.deny_write_cnt - 1 }))
      else none

unfoldable pub inode_length : FileSystem → ℕ → Option ℕ
inode_length fs inode = do i ← fs.inodes inode; some i.inode_data.length

-- The loop of inode_create that clears the data.
unfoldable pub clear_sectors : ℕ → Disk → ℕ → Disk
clear_sectors zero disk start = disk
clear_sectors (suc n) disk start =
    clear_sectors n (update disk start (replicate block_sector_size 0)) (start + 1)

-- INODE_MAGIC
abbrev pub inode_magic : ℕ
inode_magic = 0x494e4f44

-- `calloc_ok` says whether the temporary struct inode_disk can be allocated.
unfoldable pub inode_create : FileSystem → Bool → (sector length : ℕ) → Option (Bool × FileSystem)
inode_create fs calloc_ok sector length = if not calloc_ok then some (false, fs) else do
  a ← free_map_allocate fs (bytes_to_sectors length)
  if a.0 == bitmap_error
      then some (false, a.1)
      else some (
        true,
        record a.1 {
          disk =
              clear_sectors (bytes_to_sectors length)
                (update a.1.disk sector
                  (le32 a.0 ++ (le32 length ++ (le32 inode_magic ++ replicate 500 0))))
                a.0;
        },
      )

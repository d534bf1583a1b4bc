-- ===== src/Filesys/FreeMap/Create.antt =====
-- inode_create writes an inode that inode_open reads back, and clears the file's data.
use ee461s_projects.Common.{
  ℕ, zero, suc, ◌+◌, ◌*◌, ◌/◌, ◌%◌, ◌^◌, ◌≤◌, ◌<◌, ◌≡◌, ◌≢◌, refl, ap, ap₂, ◌∙◌, true, false, ◌&&◌,
  some, List, ◌∷◌, ◌++◌, ◌==◌, ltb, leb, if◌then◌else◌, arith, ◌⊎◌, update, replicate,
}
use ee461s_projects.KernelLib.Bitmap.{bitmap_error}
use ee461s_projects.Filesys.Inode.{Inode, Disk, bytes_to_sectors, block_sector_size}
use ee461s_projects.Filesys.Store.{FileSystem, null, le32, free_map_allocate}
use ee461s_projects.Filesys.OpenInodes.{
  inode_create, inode_open, inode_disk_at, clear_sectors, find_open, inode_magic,
}

-- The loop of inode_create clears the sectors of a run and no others.
clear_sectors_lem :
    (n : ℕ) (disk : Disk) (start s : ℕ)
    → clear_sectors n disk start s
      ≡ (if leb start s && ltb s (start + n) then replicate block_sector_size 0 else disk s)
unfolding clear_sectors
clear_sectors_lem zero disk start s = ground arith
clear_sectors_lem (suc n) disk start s =
    clear_sectors_lem n (update disk start (replicate block_sector_size 0)) (start + 1) s
    ∙ ground arith

-- A word's four bytes are the word.
word_back :
    (w : ℕ)
    → w < 2 ^ 32
    → w % 256 + 256 * (w / 256 % 256) + 65536 * (w / 65536 % 256) + 16777216 * (w / 16777216 % 256)
      ≡ w
word_back w h = omega arith

abbrev header : (start len : ℕ) → List ℕ
header start len = le32 start ++ (le32 len ++ (le32 inode_magic ++ replicate 500 0))

inode_disk_at-header :
    (start len : ℕ)
    → start < 2 ^ 32
    → len < 2 ^ 32
    → inode_disk_at (header start len) ≡ record { start = start; length = len }
unfolding inode_disk_at
inode_disk_at-header start len p q =
    ap₂ (λ a b. record { start = a; length = b }) (word_back start p) (word_back len q)

-- What a created inode looks like once it is open.
pub record Created (fs fs' : FileSystem) (fresh sector start len : ℕ) : Type 0 where
  pub opened :
      (i : Inode) × (fs'.inodes fresh ≡ some i)
      × (i.inode_data ≡ record { start = start; length = len })
      × (i.sector ≡ sector)
      × (i.open_cnt ≡ 1)
  pub cleared :
      (k : ℕ) → k < bytes_to_sectors len → fs'.disk (start + k) ≡ replicate block_sector_size 0
  pub others :
      (s : ℕ)
      → s ≢ sector
      → (s < start) ⊎ (start + bytes_to_sectors len ≤ s)
      → fs'.disk s ≡ fs.disk s

-- inode_create of less than 2 GB, when calloc succeeds and free_map_allocate gives it a run that does not
-- hold the inode's own sector, succeeds; inode_open of that sector, when it is not open yet and malloc
-- succeeds, then reads back the run and the length, and the data are zeros. Compared with the disk that
-- free_map_allocate leaves, which may have written the map's file, no other sector has changed.
pub inode_create-open :
    (fs fs1 : FileSystem) (fresh sector start len : ℕ)
    → free_map_allocate fs (bytes_to_sectors len) ≡ some (start, fs1)
    → start < bitmap_error
    → len < 2 ^ 31
    → (sector < start) ⊎ (start + bytes_to_sectors len ≤ sector)
    → find_open fs1.inodes sector fs1.open_inodes ≡ some null
    → fresh ≢ null
    → (fs2 : FileSystem) × (inode_create fs true sector len ≡ some (true, fs2))
      × (fs3 : FileSystem) × (inode_open fs2 fresh sector ≡ some (fresh, fs3))
      × Created fs1 fs3 fresh sector start len
unfolding inode_create inode_open
inode_create-open fs fs1 fresh sector start len e good small apart unopened nf =
    let ok : (start == bitmap_error) ≡ false = ground arith in
    let has_memory : (fresh == null) ≡ false = ground arith in
    let n : ℕ = bytes_to_sectors len in
    let disk : Disk = clear_sectors n (update fs1.disk sector (header start len)) start in
    let at_sector : disk sector ≡ header start len =
      clear_sectors_lem n (update fs1.disk sector (header start len)) start sector ∙ ground arith in
    let i : Inode = record {
      sector = sector;
      open_cnt = 1;
      removed = false;
      deny_write_cnt = 0;
      inode_data = inode_disk_at (disk sector);
    } in
    (
      record fs1 { disk = disk },
      rw (e, inode_create) (rw (ok, inode_create) refl),
      record fs1 {
        disk = disk;
        inodes = update fs1.inodes fresh (some i);
        open_inodes = fresh ∷ fs1.open_inodes;
      },
      rw (unopened, inode_open) (rw (has_memory, inode_open) refl),
      record {
        opened = (
          i,
          ground arith,
          ap inode_disk_at at_sector ∙ inode_disk_at-header start len (omega arith) (omega arith),
          refl,
          refl,
        );
        cleared = λ k lt.
            clear_sectors_lem n (update fs1.disk sector (header start len)) start (start + k)
            ∙ ground arith;
        others = λ s ns out.
            clear_sectors_lem n (update fs1.disk sector (header start len)) start s ∙ ground arith;
      },
    )

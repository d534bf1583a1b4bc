-- ===== src/Filesys/FreeMap/Allocate.antt =====
-- free_map_allocate gives away free sectors only, and keeps the map when it fails.
use ee461s_projects.Common.{
  ℕ, ◌+◌, ◌≤◌, ◌<◌, ◌≡◌, ◌≢◌, refl, ap, ◌∙◌, ◌⊎◌, Bool, true, false, ◌||◌, some, ◌==◌, arith, inl,
  inr, Bool-cases,
}
use ee461s_projects.KernelLib.Bitmap.{
  Bitmap, bitmap_error, byte_cnt, bitmap_scan_and_flip, bitmap_all, bitmap_contains,
}
use ee461s_projects.KernelLib.Bitmap.Words.{value_at, IsValid}
use ee461s_projects.KernelLib.Bitmap.Ranges.{
  Filled, Group, bitmap_set_multiple-Filled, bitmap_contains_lem,
}
use ee461s_projects.KernelLib.Bitmap.Scan.{
  First, Flipped, flipped, unchanged, bitmap_scan_and_flip-Flipped,
}
use ee461s_projects.Filesys.Inode.{Inode, Disk, inode_write_at}
use ee461s_projects.Filesys.Store.{
  File, FileSystem, null, bytes_of, file_write_at, bitmap_write, free_map_allocate,
  free_map_release,
}

-- The free map's file is open, or there is none yet.
pub data MapFile (fs : FileSystem) : Type 0 where
  no_file : fs.free_map_file ≡ null → MapFile fs
  open_file :
      (f : File) (i : Inode)
      → fs.free_map_file ≢ null
      → fs.files fs.free_map_file ≡ some f
      → fs.inodes f.inode ≡ some i
      → MapFile fs

-- The map `b` goes into its file, or there is no file yet.
abbrev pub Stored : FileSystem → Bitmap → Type 0
Stored fs b =
    (fs.free_map_file ≡ null)
    ⊎ ((fs' : FileSystem) × (bitmap_write fs b fs.free_map_file ≡ some (true, fs')))

-- There is a file, and the map `b` does not go into it.
abbrev pub NotStored : FileSystem → Bitmap → Type 0
NotStored fs b =
    (fs.free_map_file ≢ null)
    × (fs' : FileSystem) × (bitmap_write fs b fs.free_map_file ≡ some (false, fs'))

-- What free_map_allocate does. With a free run and a map that goes into its file, the first run is taken.
-- With no free run, or a map with the first run taken that does not go into its file, it fails, and the
-- bits are as before.
pub data Allocated (fs : FileSystem) (cnt : ℕ) : ℕ → FileSystem → Type 0 where
  taken :
      (i : ℕ) (fs' : FileSystem)
      → First fs.free_map 0 cnt false i
      → Filled fs.free_map i cnt true fs'.free_map
      → Stored fs fs'.free_map
      → Allocated fs cnt i fs'
  no_run :
      (fs' : FileSystem)
      → ((i : ℕ) → i + cnt ≤ fs.free_map.bit_cnt → ¬ Group fs.free_map i cnt false)
      → IsValid fs'.free_map
      → ((j : ℕ) → value_at fs'.free_map j ≡ value_at fs.free_map j)
      → Allocated fs cnt bitmap_error fs'
  not_stored :
      (i : ℕ) (b : Bitmap) (fs' : FileSystem)
      → First fs.free_map 0 cnt false i
      → Filled fs.free_map i cnt true b
      → NotStored fs b
      → IsValid fs'.free_map
      → ((j : ℕ) → value_at fs'.free_map j ≡ value_at fs.free_map j)
      → Allocated fs cnt bitmap_error fs'

bitmap_write_lem :
    (fs : FileSystem) (b : Bitmap) (f : File) (i : Inode)
    → fs.files fs.free_map_file ≡ some f
    → fs.inodes f.inode ≡ some i
    → (ok : Bool) × (fs' : FileSystem) × (bitmap_write fs b fs.free_map_file ≡ some (ok, fs'))
      × (fs'.free_map ≡ fs.free_map)
      × (fs'.files ≡ fs.files)
      × (fs'.inodes ≡ fs.inodes)
unfolding bitmap_write file_write_at
bitmap_write_lem fs b f i ef ei =
    let w : ℕ × Disk =
      inode_write_at fs.disk fs.bounce_ok i (bytes_of b.bits) (byte_cnt b.bit_cnt) 0 in
    (
      w.0 == byte_cnt b.bit_cnt,
      record fs { disk = w.1 },
      rw (ef, bitmap_write) (rw (ei, bitmap_write) refl),
      refl,
      refl,
      refl,
    )

-- Taking back what the scan gave restores every bit.
restored :
    (b b1 b2 : Bitmap) (i cnt : ℕ)
    → First b 0 cnt false i
    → Filled b i cnt true b1
    → Filled b1 i cnt false b2
    → (j : ℕ) → value_at b2 j ≡ value_at b j
restored b b1 b2 i cnt f one two j = ground (arith, two.bits j, one.bits j, f.group j)

-- free_map_allocate, with the map's file open or not there yet, passes all ASSERTs. When there is a free
-- run of the count, and bitmap_write of the map with the first such run taken gives true or there is no
-- file, it takes that run. When there is no such run, or bitmap_write gives false, it returns false and
-- leaves every bit of the map as it was.
pub free_map_allocate-Allocated :
    (fs : FileSystem) (cnt : ℕ)
    → IsValid fs.free_map
    → fs.free_map.bit_cnt < bitmap_error
    → MapFile fs
    → (r : ℕ) × (fs' : FileSystem) × (free_map_allocate fs cnt ≡ some (r, fs'))
      × Allocated fs cnt r fs'
unfolding free_map_allocate
free_map_allocate-Allocated fs cnt v small file =
    let (r, b, e, s) = bitmap_scan_and_flip-Flipped fs.free_map 0 cnt false v small (omega arith) in
    go r b e s file
  where
    go :
        (r : ℕ) (b : Bitmap)
        → bitmap_scan_and_flip fs.free_map 0 cnt false ≡ some (r, b)
        → Flipped fs.free_map 0 cnt false r b
        → MapFile fs
        → (r' : ℕ) × (fs' : FileSystem) × (free_map_allocate fs cnt ≡ some (r', fs'))
          × Allocated fs cnt r' fs'
    go r b e (unchanged all) file = (
      bitmap_error,
      record fs { free_map = fs.free_map },
      rw (e, free_map_allocate) refl,
      no_run _ (λ i. all i (omega arith)) v (λ j. refl),
    )
    go r b e (flipped i b' f filled) (no_file nf) =
        let stop : ((i == bitmap_error) || (fs.free_map_file == null)) ≡ true = ground arith in
        (
          i,
          record fs { free_map = b' },
          rw (e, free_map_allocate) (rw (stop, free_map_allocate) refl),
          taken i _ f filled (inl nf),
        )
    go r b e (flipped i b' f filled) (open_file fl ino nf ef ei) =
        let (ok, fs1, ew, same, sf, si) = bitmap_write_lem fs b' fl ino ef ei in
        let on : ((i == bitmap_error) || (fs.free_map_file == null)) ≡ false =
          ground (arith, f.fits) in
        elim (Bool-cases ok) [
          | inl w ↦ (
            i,
            record fs1 { free_map = b' },
            rw (e, free_map_allocate)
                (rw (on, free_map_allocate)
                  (rw (ew, free_map_allocate) (rw (w, free_map_allocate) refl))),
            taken i _ f filled (inr (fs1, ew ∙ ap (λ a. some (a, fs1)) w)),
          )
          | inr w ↦
              let (b2, e2, undone) =
                bitmap_set_multiple-Filled b' i cnt false filled.valid
                  (omega (arith, f.fits, filled.same_cnt)) in
              (
                bitmap_error,
                record fs1 { free_map = b2 },
                rw (e, free_map_allocate)
                    (rw (on, free_map_allocate)
                      (rw (ew, free_map_allocate)
                        (rw (w, free_map_allocate) (rw (e2, free_map_allocate) refl)))),
                not_stored i b' _ f filled (nf, fs1, ew ∙ ap (λ a. some (a, fs1)) w) undone.valid
                    (restored fs.free_map b' b2 i cnt f filled undone),
              )
        ]

-- free_map_release of sectors in use passes its ASSERT and frees exactly them.
pub free_map_release-Filled :
    (fs : FileSystem) (sector cnt : ℕ) (f : File) (i : Inode)
    → IsValid fs.free_map
    → sector + cnt ≤ fs.free_map.bit_cnt
    → Group fs.free_map sector cnt true
    → fs.files fs.free_map_file ≡ some f
    → fs.inodes f.inode ≡ some i
    → (fs' : FileSystem) × (free_map_release fs sector cnt ≡ some fs')
      × Filled fs.free_map sector cnt false fs'.free_map
unfolding free_map_release bitmap_all
free_map_release-Filled fs sector cnt f i v le all ef ei =
    let (b, e, filled) = bitmap_set_multiple-Filled fs.free_map sector cnt false v le in
    let (ok, fs1, ew, same, sf, si) = bitmap_write_lem (record fs { free_map = b }) b f i ef ei in
    (
      fs1,
      rw (used, free_map_release) (rw (e, free_map_release) (rw (ew, free_map_release) refl)),
      rw same filled,
    )
  where
    used : bitmap_contains fs.free_map sector cnt false ≡ some false
    used = elim (bitmap_contains_lem fs.free_map sector cnt false v le) [
      | inl (e, (j, p, q, at)) ↦ absurd (ground (arith, all j p q))
      | inr (e, none_free) ↦ e
    ]

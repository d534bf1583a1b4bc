-- ===== src/Filesys/FreeMap/Tests.antt =====
-- A free map of 64 sectors, of which the first two are in use and there is no file yet.
use ee461s_projects.Common.{ℕ, ◌≡◌, refl, true, none, some, [], ◌∷◌, arith, inl, replicate}
use ee461s_projects.KernelLib.Bitmap.{
  elem_cnt, bitmap_scan_and_flip, bitmap_scan, scan_from, bitmap_contains, contains_bit,
  bitmap_test, bitmap_set_multiple, set_bits, bitmap_set,
}
use ee461s_projects.KernelLib.Bitmap.Words.{IsValid}
use ee461s_projects.Filesys.Inode.{bytes_to_sectors}
use ee461s_projects.Filesys.Store.{FileSystem, null, free_map_allocate}
use ee461s_projects.Filesys.OpenInodes.{inode_create, inode_open, find_open}
use ee461s_projects.Filesys.FreeMap.Allocate.{Allocated, no_file, free_map_allocate-Allocated}
use ee461s_projects.Filesys.FreeMap.Create.{Created, inode_create-open}

abbrev formatting : FileSystem
formatting = record {
  disk = λ s. replicate 512 7;
  open_inodes = [];
  inodes = λ a. none;
  files = λ f. none;
  free_map = record { bit_cnt = 64; bits = 3 ∷ 0 ∷ [] };
  free_map_file = null;
  bounce_ok = true;
}

formatting-IsValid : IsValid formatting.free_map
unfolding elem_cnt
formatting-IsValid = record { words = refl; small = omega arith }

free_map_allocate-Allocated_example :
    (r : ℕ) × (fs' : FileSystem) × (free_map_allocate formatting 3 ≡ some (r, fs'))
    × Allocated formatting 3 r fs'
free_map_allocate-Allocated_example =
    free_map_allocate-Allocated formatting 3 formatting-IsValid (omega arith) (no_file refl)

takes_two :
    free_map_allocate formatting (bytes_to_sectors 700)
    ≡ some (2, record formatting { free_map = record { bit_cnt = 64; bits = 15 ∷ 0 ∷ [] } })
unfolding free_map_allocate bytes_to_sectors bitmap_scan_and_flip bitmap_scan scan_from
    bitmap_contains contains_bit bitmap_test bitmap_set_multiple set_bits bitmap_set
takes_two = refl

not_open : find_open formatting.inodes 1 formatting.open_inodes ≡ some null
unfolding find_open
not_open = refl

inode_create-open_example :
    (fs2 : FileSystem) × (inode_create formatting true 1 700 ≡ some (true, fs2))
    × (fs3 : FileSystem) × (inode_open fs2 9 1 ≡ some (9, fs3))
    × Created
        (record formatting { free_map = record { bit_cnt = 64; bits = 15 ∷ 0 ∷ [] } })
        fs3
        9
        1
        2
        700
inode_create-open_example =
    inode_create-open formatting
      (record formatting { free_map = record { bit_cnt = 64; bits = 15 ∷ 0 ∷ [] } }) 9 1 2 700
      takes_two (omega arith) (omega arith) (inl (omega arith)) not_open (λ e. omega arith)

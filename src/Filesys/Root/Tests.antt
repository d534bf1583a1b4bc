-- ===== src/Filesys/Root/Tests.antt =====
-- A device of 64 sectors: the file system is formatted and a file is created in it.
use ee461s_projects.Common.{
  ℕ, List, ◌==◌, if◌then◌else◌, arith, length-replicate, ◌≡◌, refl, Bool, true, false, none, some,
  [], ◌∷◌, Option, ◌>>=◌, replicate,
}
use ee461s_projects.KernelLib.Bitmap.Words.{IsValid}
use ee461s_projects.Filesys.Root.Reads.{IsTrimmed, bitmap_write-read}
use ee461s_projects.KernelLib.Bitmap.{
  Bitmap, bitmap_create, bitmap_set_all, set_bits, bitmap_set, bitmap_scan_and_flip, bitmap_scan,
  byte_cnt, scan_from, bitmap_contains, contains_bit, bitmap_test, bit_mask, bitmap_all,
  bitmap_mark, bitmap_reset, bitmap_set_multiple, change_elem, elem_cnt, elem_idx, last_mask,
  range_ok, bitmap_flip,
}
use ee461s_projects.Filesys.OpenInodes.{
  inode_create, clear_sectors, find_open, inode_allow_write, inode_close, inode_disk_at, inode_open,
  inode_release, inode_reopen, inode_remove,
}
use ee461s_projects.Filesys.Store.{
  bytes_of, FileSystem, null, free_map_allocate, bitmap_write, file_read_at, file_write_at,
  free_map_release,
}
use ee461s_projects.Filesys.Inode.{Inode, bytes_to_sectors, inode_read_at, inode_write_at}
use ee461s_projects.Filesys.Directory.{
  dir_create, dir_open_root, dir_close, dir_lookup, dir_add, dir_remove, lookup, lookup_loop,
  free_loop, dir_open,
}
use ee461s_projects.Filesys.File.{file_allow_write, file_close, file_open}
use ee461s_projects.Filesys.Root.{
  free_map_init, do_format, free_map_create, free_map_close, free_map_open, bitmap_read, words_of,
  filesys_create, create_in, filesys_open, lookup_in, filesys_remove, remove_in,
}
use ee461s_projects.Libc.Strings.{strcmp, strlen, strlcpy, strlen_from, put}

abbrev map_inode : Inode
map_inode = record {
  sector = 0;
  open_cnt = 1;
  removed = false;
  deny_write_cnt = 0;
  inode_data = record { start = 2; length = 8 };
}

abbrev blank : FileSystem
blank = record {
  disk = λ s. replicate 512 0;
  open_inodes = [];
  inodes = λ a. none;
  files = λ a. none;
  free_map = record { bit_cnt = 0; bits = [] };
  free_map_file = null;
  bounce_ok = true;
}

abbrev a_name : List ℕ
a_name = 97 ∷ 0 ∷ []

abbrev b_name : List ℕ
b_name = 98 ∷ 0 ∷ []

formatted : Option FileSystem
formatted = do
  fs ← free_map_init blank true true (5 ∷ 9 ∷ []) 64
  fs1 ← do_format fs true true 10 11
  free_map_open fs1 12 13

create_named : List ℕ → FileSystem → Option (Bool × FileSystem)
create_named name fs = filesys_create fs true true 20 name 5 (replicate 20 0)

open_named : List ℕ → FileSystem → Option (ℕ × FileSystem)
open_named name fs = filesys_open fs true 30 31 32 name

-- What the calls return, and the free map behind them.
record Report : Type 0 where
  formatted_map : List ℕ
  created : Bool
  created_map : List ℕ
  opened : ℕ
  absent : ℕ
  created_again : Bool
  again_map : List ℕ
  removed : Bool
  removed_map : List ℕ
  opened_again : ℕ

session : Option Report
unfolding formatted create_named open_named
session = do
  fs ← formatted
  c ← create_named a_name fs
  o ← open_named a_name c.1
  n ← open_named b_name c.1
  again ← create_named a_name c.1
  r ← filesys_remove again.1 true 40 41 a_name
  gone ← open_named a_name r.1
  some (record {
    formatted_map = fs.free_map.bits;
    created = c.0;
    created_map = c.1.free_map.bits;
    opened = o.0;
    absent = n.0;
    created_again = again.0;
    again_map = again.1.free_map.bits;
    removed = r.0;
    removed_map = r.1.free_map.bits;
    opened_again = gone.0;
  })

-- Sectors 0 to 3 are the inodes and data of the map and the root directory. A file of five bytes takes
-- two sectors, and a second file of the name is refused but keeps its data sector.
session_runs :
    session
    ≡ some (record {
      formatted_map = 15 ∷ 0 ∷ [];
      created = true;
      created_map = 63 ∷ 0 ∷ [];
      opened = 32;
      absent = null;
      created_again = false;
      again_map = 191 ∷ 0 ∷ [];
      removed = true;
      removed_map = 143 ∷ 0 ∷ [];
      opened_again = null;
    })
unfolding session formatted create_named open_named bitmap_create bitmap_set_all set_bits bitmap_set
    bitmap_scan_and_flip bitmap_scan byte_cnt scan_from bitmap_contains contains_bit bitmap_test
    bit_mask bitmap_all bitmap_mark bitmap_reset bitmap_set_multiple change_elem elem_cnt elem_idx
    last_mask range_ok bitmap_flip inode_create clear_sectors find_open inode_allow_write
    inode_close inode_disk_at inode_open inode_release inode_reopen inode_remove free_map_allocate
    bitmap_write file_read_at file_write_at free_map_release bytes_to_sectors inode_read_at
    inode_write_at dir_create dir_open_root dir_close dir_lookup dir_add dir_remove lookup
    lookup_loop free_loop dir_open file_allow_write file_close file_open free_map_init do_format
    free_map_create free_map_close free_map_open bitmap_read words_of filesys_create create_in
    filesys_open lookup_in filesys_remove remove_in strcmp strlen strlcpy strlen_from put
session_runs = refl

-- A map of 40 sectors whose file is the one sector of data of the inode at 100.
abbrev map_file : FileSystem
map_file = record blank {
  inodes = λ a. if a == 100 then some map_inode else none;
  files = λ f. if f == 1 then some (record { inode = 100; pos = 0; deny_write = false }) else none;
}

abbrev map_40 : Bitmap
map_40 = record { bit_cnt = 40; bits = 15 ∷ 128 ∷ [] }

map_40-IsValid : IsValid map_40
unfolding elem_cnt
map_40-IsValid = record { words = refl; small = omega arith }

trimmed : IsTrimmed map_40
unfolding elem_cnt last_mask
trimmed = refl

two_words : 2 ≡ elem_cnt 40
unfolding elem_cnt
two_words = refl

whole :
    (inode_write_at blank.disk true map_inode (bytes_of map_40.bits) (byte_cnt 40) 0).0
    ≡ byte_cnt 40
unfolding inode_write_at byte_cnt elem_cnt
whole = refl

bitmap_write-read_example :
    (fs1 : FileSystem) × (bitmap_write map_file map_40 1 ≡ some (true, fs1))
    × (bitmap_read fs1 (record map_40 { bits = 0 ∷ 7 ∷ [] }) 1 ≡ some (true, map_40))
bitmap_write-read_example =
    bitmap_write-read map_file 1 (record { inode = 100; pos = 0; deny_write = false }) map_inode
      map_40 (0 ∷ 7 ∷ []) refl refl (λ s. length-replicate {A = ℕ} 512 0) refl refl (omega arith)
      map_40-IsValid two_words (omega arith, (omega arith, tt)) trimmed whole

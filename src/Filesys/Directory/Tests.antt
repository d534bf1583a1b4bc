-- ===== src/Filesys/Directory/Tests.antt =====
-- Runs of directory.c on a directory of two entries: "a" in sector 5, and a free one.
use ee461s_projects.Common.{
  ℕ, ◌≡◌, ◌≢◌, refl, true, false, some, none, List, [], ◌∷◌, ◌++◌, arith, ◌==◌, if◌then◌else◌,
  replicate, inl, inr, Bool-cases,
}
use ee461s_projects.Libc.Strings.{strcmp}
use ee461s_projects.Libc.Strings.Texts.{NoNul, c_string}
use ee461s_projects.Filesys.Inode.{Inode, Disk}
use ee461s_projects.Filesys.Inode.Read.{IsDisk}
use ee461s_projects.Filesys.Store.{FileSystem}
use ee461s_projects.Filesys.Directory.{Dir, entry_of, entry_sector, lookup, dir_add}
use ee461s_projects.Filesys.Directory.Entries.{AllEntries}
use ee461s_projects.Filesys.Directory.Lookup.{IsOpenDir, dir_entries, lookup_lem}
use ee461s_projects.Filesys.Directory.Add.{dir_add_lem, dir_add-refused}

abbrev a_entry : List ℕ
a_entry = entry_of 5 (97 ∷ replicate 14 0) 1

abbrev small_disk : Disk
small_disk s = if s == 2 then a_entry ++ replicate 492 0 else replicate 512 0

small_disk-IsDisk : IsDisk small_disk
small_disk-IsDisk s = elim (Bool-cases (s == 2)) [ inl e ↦ rw e refl | inr e ↦ rw e refl ]

abbrev dir_inode : Inode
dir_inode = record {
  sector = 1;
  open_cnt = 1;
  removed = false;
  deny_write_cnt = 0;
  inode_data = record { start = 2; length = 40 };
}

abbrev small : FileSystem
small = record {
  disk = small_disk;
  open_inodes = 7 ∷ [];
  inodes = λ a. if a == 7 then some dir_inode else none;
  files = λ a. none;
  free_map = record { bit_cnt = 0; bits = [] };
  free_map_file = 0;
  bounce_ok = true;
}

abbrev root : Dir
root = record { inode = 7; pos = 0 }

small-IsOpenDir : IsOpenDir small 7 dir_inode
small-IsOpenDir = record { found = refl; valid = small_disk-IsDisk; memory = refl; allowed = refl }

small-AllEntries : AllEntries (dir_entries small dir_inode)
small-AllEntries =
    ((97 ∷ [], replicate 13 0, (omega arith, tt), refl), (([], replicate 14 0, tt, refl), tt))

abbrev b_name : List ℕ
b_name = 98 ∷ []

b_name-NoNul : NoNul b_name
b_name-NoNul = (omega arith, tt)

dir_add_lem_example :
    (fs' : FileSystem) × (e : List ℕ) × (ofs : ℕ) × (dir_add small root (c_string b_name []) 9 []
      ≡ some (true, fs'))
    × IsOpenDir fs' 7 dir_inode
    × AllEntries (dir_entries fs' dir_inode)
    × (lookup fs' root (c_string b_name []) ≡ some (some (e, ofs)))
    × (entry_sector e ≡ 9)
    × ((u rest' : List ℕ)
        → NoNul u
        → u ≢ b_name
        → lookup fs' root (c_string u rest') ≡ lookup small root (c_string u rest'))
unfolding strcmp
dir_add_lem_example =
    dir_add_lem root b_name [] 9 [] small-IsOpenDir b_name-NoNul small-AllEntries (omega arith)
      (omega arith) (omega arith) refl
      (lookup_lem root b_name [] small-IsOpenDir b_name-NoNul small-AllEntries)

dir_add-refused_example : dir_add small root (c_string [] []) 9 [] ≡ some (false, small)
dir_add-refused_example =
    dir_add-refused root [] [] 9 [] small-IsOpenDir tt small-AllEntries (inl refl)

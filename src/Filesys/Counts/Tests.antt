-- ===== src/Filesys/Counts/Tests.antt =====
-- Two files of one inode, of which the first denies writes.
use ee461s_projects.Common.{
  ℕ, ◌≡◌, refl, true, false, Option, none, some, [], ◌∷◌, ◌==◌, if◌then◌else◌, Bool-cases, inl, inr,
  arith, replicate,
}
use ee461s_projects.Filesys.Inode.{Inode}
use ee461s_projects.Filesys.Store.{File, FileSystem, null}
use ee461s_projects.Filesys.File.{file_close, file_write}
use ee461s_projects.Filesys.Counts.Defs.{IsCounted}
use ee461s_projects.Filesys.Counts.Inodes.{IsListed}
use ee461s_projects.Filesys.Counts.Close.{file_close-IsCounted}
use ee461s_projects.Filesys.Counts.Denied.{file_write-denied}

abbrev shared : Inode
shared = record {
  sector = 5;
  open_cnt = 3;
  removed = false;
  deny_write_cnt = 1;
  inode_data = record { start = 10; length = 700 };
}

abbrev first_file : File
first_file = record { inode = 100; pos = 0; deny_write = true }

abbrev second_file : File
second_file = record { inode = 100; pos = 7; deny_write = false }

abbrev inodes : ℕ → Option Inode
inodes a = if a == 100 then some shared else none

abbrev files : ℕ → Option File
files f = if f == 1 then some first_file else if f == 2 then some second_file else none

-- A third reference to the inode is a caller's of inode_open.
abbrev two_files : FileSystem
two_files = record {
  disk = λ s. replicate 512 0;
  open_inodes = 100 ∷ [];
  inodes = inodes;
  files = files;
  free_map = record { bit_cnt = 64; bits = 3 ∷ 0 ∷ [] };
  free_map_file = null;
  bounce_ok = true;
}

abbrev held : ℕ → ℕ
held a = if a == 100 then 1 else 0

two_files-IsCounted : IsCounted two_files (1 ∷ 2 ∷ []) held
two_files-IsCounted = record {
  once = λ f. ground arith;
  file_open = λ f n. elim (Bool-cases (f == 1)) [
    | inl e ↦ (first_file, ground arith, λ z. omega arith)
    | inr e ↦ (second_file, ground arith, λ z. omega arith)
  ];
  file_closed = λ f n. ground arith;
  no_null = (refl, refl);
  inode_open = λ a i e. ground arith;
  inode_closed = λ a e. ground arith;
  fits = λ a. ground arith;
}

file_close-IsCounted_example :
    (fs' : FileSystem) × (file_close two_files 1 ≡ some fs') × IsCounted fs' (2 ∷ []) held
file_close-IsCounted_example =
    file_close-IsCounted two_files (1 ∷ 2 ∷ []) held 1 two_files-IsCounted (λ e. omega arith)
      (λ a i e. ground arith)

file_write-denied_example :
    (fs' : FileSystem) × (file_write two_files 2 (9 ∷ []) 1 ≡ some (0, fs'))
    × (fs'.disk ≡ two_files.disk)
file_write-denied_example =
    file_write-denied two_files (1 ∷ 2 ∷ []) held 1 2 first_file second_file (9 ∷ []) 1
      two_files-IsCounted (λ e. omega arith) refl refl refl refl

two_files-IsListed : IsListed two_files
two_files-IsListed = record { listed = λ a n. (shared, ground arith); no_null = refl }

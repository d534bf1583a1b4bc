-- ===== src/Userprog/Descriptors/Tests.antt =====
-- A process with a file of 700 bytes open as descriptor 2.
use ee461s_projects.Common.{
  ℕ, ◌≤◌, ◌≡◌, ◌≢◌, refl, true, false, none, some, [], ◌∷◌, ◌==◌, if◌then◌else◌, arith, ◌⊎◌,
  replicate, length-replicate,
}
use ee461s_projects.Filesys.Inode.{Inode}
use ee461s_projects.Filesys.Store.{File, FileSystem, null}
use ee461s_projects.Filesys.File.{file_close, file_allow_write}
use ee461s_projects.Filesys.OpenInodes.{inode_close, inode_release}
use ee461s_projects.Userprog.Descriptors.{
  Caller, minus_one, find_fd_element, open_fd, read, write, seek, close,
}
use ee461s_projects.Userprog.Descriptors.Table.{IsValid, open_fd-fresh}
use ee461s_projects.Userprog.Descriptors.Calls.{IsOpen, write-seek-read}
use ee461s_projects.Userprog.Descriptors.Closed.{IsUnusable, close-IsUnusable}

abbrev data_inode : Inode
data_inode = record {
  sector = 5;
  open_cnt = 1;
  removed = false;
  deny_write_cnt = 0;
  inode_data = record { start = 10; length = 700 };
}

abbrev at_start : File
at_start = record { inode = 100; pos = 0; deny_write = false }

abbrev caller : Caller
caller = record {
  fs = record {
    disk = λ s. replicate 512 0;
    open_inodes = 100 ∷ [];
    inodes = λ a. if a == 100 then some data_inode else none;
    files = λ f. if f == 1 then some at_start else none;
    free_map = record { bit_cnt = 64; bits = 3 ∷ 0 ∷ [] };
    free_map_file = null;
    bounce_ok = true;
  };
  fd_table = record { fd = 2; fp = 1 } ∷ [];
  fd_table_counter = 3;
  console = [];
}

caller-IsValid : IsValid caller
caller-IsValid = record {
  once = λ fd. ground arith;
  given = λ fd n. ground arith;
  counter = omega arith;
}

caller-IsOpen : IsOpen caller 2 1 at_start data_inode
unfolding find_fd_element
caller-IsOpen = record {
  not_console = omega arith;
  in_table = refl;
  not_null = λ e. omega arith;
  file = refl;
  inode = refl;
}

open_fd-fresh_example :
    ((7 ≡ null) × (open_fd caller true 7 caller.fs ≡ some (minus_one, caller)))
    ⊎ ((fd : ℕ) × (c' : Caller) × (open_fd caller true 7 caller.fs ≡ some (fd, c'))
        × (7 ≢ null)
        × (2 ≤ fd)
        × (find_fd_element fd caller.fd_table ≡ none)
        × (find_fd_element fd c'.fd_table ≡ some (record { fd = fd; fp = 7 }))
        × ((g : ℕ) → g ≢ fd → find_fd_element g c'.fd_table ≡ find_fd_element g caller.fd_table)
        × (c'.fs ≡ caller.fs)
        × IsValid c')
open_fd-fresh_example = open_fd-fresh caller 7 caller.fs caller-IsValid (omega arith)

closes_one : (fs : FileSystem) × (file_close caller.fs 1 ≡ some fs)
unfolding file_close file_allow_write inode_close inode_release
closes_one = (_, refl)

close-IsUnusable_example :
    (c' : Caller) × (close caller 2 ≡ some (true, c'))
    × IsUnusable c' 2
    × ((g : ℕ) → g ≢ 2 → find_fd_element g c'.fd_table ≡ find_fd_element g caller.fd_table)
    × IsValid c'
close-IsUnusable_example =
    close-IsUnusable caller 2 (record { fd = 2; fp = 1 }) (closes_one.0) caller-IsValid
      caller-IsOpen.in_table (closes_one.1)

write-seek-read_example :
    (c1 c2 c3 c4 : Caller) × (seek caller 2 698 ≡ some (true, c1))
    × (write c1 2 (1 ∷ 2 ∷ 3 ∷ []) 3 ≡ some (2, c2))
    × (seek c2 2 698 ≡ some (true, c3))
    × (read c3 [] 2 2 ≡ some ((2, 1 ∷ 2 ∷ []), c4))
write-seek-read_example =
    write-seek-read caller [] 2 1 at_start data_inode (1 ∷ 2 ∷ 3 ∷ []) 3 698 caller-IsOpen
      (λ s. length-replicate {A = ℕ} 512 0) refl refl (omega arith) (omega arith) (omega arith)

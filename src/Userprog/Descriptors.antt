-- ===== src/Userprog/Descriptors.antt =====
-- userprog/syscall.c: the file descriptors of a process and the system calls on them. Integers are
-- words of 32 bits, so -1 is 2 ^ 32 - 1. `none` is an access through NULL, or what filesys/file.c
-- has as such. The locks around the calls are left out: they do not change what a call does.
pub mod Table
pub mod Calls
pub mod Closed
mod Tests
use ee461s_projects.Common.{
  ℕ, zero, suc, ◌+◌, ◌-◌, ◌%◌, ◌^◌, Bool, true, false, not, ◌&&◌, ◌||◌, Option, none, some, List,
  [], ◌∷◌, ◌++◌, ltb, leb, ◌==◌, if◌then◌else◌, ◌>>=◌, take,
}
use ee461s_projects.Filesys.Store.{FileSystem, null}
use ee461s_projects.Filesys.File.{file_close, file_read, file_write, file_length, file_seek}

-- struct fd_list_element, less its list element
pub record FdElement : Type 0 where
  pub fd : ℕ
  pub fp : ℕ

-- The members of struct thread that this code uses, the file system, and what the console has written.
pub record Caller : Type 0 where
  pub fs : FileSystem
  pub fd_table : List FdElement
  pub fd_table_counter : ℕ
  pub console : List ℕ

abbrev pub minus_one : ℕ
minus_one = 2 ^ 32 - 1

-- NULL is `none`.
unfoldable pub find_fd_element : ℕ → List FdElement → Option FdElement
find_fd_element fd [] = none
find_fd_element fd (e ∷ rest) =
    let later = find_fd_element fd rest in if e.fd == fd then some e else later

-- list_remove of the element that find_fd_element found
unfoldable pub remove_fd_element : ℕ → List FdElement → List FdElement
remove_fd_element fd [] = []
remove_fd_element fd (e ∷ rest) =
    let later = remove_fd_element fd rest in if e.fd == fd then rest else e ∷ later

-- `malloc_ok` says whether malloc gives an element; the code does not test it.
unfoldable pub add_file_to_fd_table : Caller → Bool → (fp : ℕ) → Option (ℕ × Caller)
add_file_to_fd_table c malloc_ok fp =
    if malloc_ok
    then some (
      c.fd_table_counter,
      record c {
        fd_table = c.fd_table ++ (record { fd = c.fd_table_counter; fp = fp } ∷ []);
        fd_table_counter = (c.fd_table_counter + 1) % 2 ^ 32;
      },
    )
    else none

-- `fp` and `fs` are what filesys_open gives: the file, NULL if there is none, and the state.
-- the function open; the name is a keyword here
unfoldable pub open_fd : Caller → Bool → (fp : ℕ) → FileSystem → Option (ℕ × Caller)
open_fd c malloc_ok fp fs =
    if fp == null
    then some (minus_one, record c { fs = fs })
    else add_file_to_fd_table (record c { fs = fs }) malloc_ok fp

-- The size that file_read and file_write get is an off_t: from 2 ^ 31 on it is negative, which
-- inode_read_at and inode_write_at treat as 0.
unfoldable pub off_t : ℕ → ℕ
off_t size = if ltb size (2 ^ 31) then size else 0

-- `keys` is what `size` calls of input_getc return. The result and the bytes put in the buffer.
unfoldable pub read : Caller → (keys : List ℕ) → (fd size : ℕ) → Option ((ℕ × List ℕ) × Caller)
read c keys fd size =
    if fd == 0
    then some ((size, take size keys), c)
    else if fd == 1
    then some ((minus_one, []), c)
    else elim (find_fd_element fd c.fd_table) [
      | none ↦ some ((minus_one, []), c)
      | some e ↦ file_read c.fs e.fp (off_t size) >>= λ r. some (r.0, record c { fs = r.1 })
    ]

unfoldable pub write : Caller → (fd : ℕ) → (buffer : List ℕ) → (size : ℕ) → Option (ℕ × Caller)
write c fd buffer size =
    if fd == 1
    then some (size, record c { console = c.console ++ take size buffer })
    else if fd == 0
    then some (minus_one, c)
    else elim (find_fd_element fd c.fd_table) [
      | none ↦ some (minus_one, c)
      | some e ↦ file_write c.fs e.fp buffer (off_t size) >>= λ r. some (r.0, record c { fs = r.1 })
    ]

unfoldable pub filesize_get : Caller → (fd : ℕ) → Option ℕ
filesize_get c fd = elim (find_fd_element fd c.fd_table) [
  | none ↦ some minus_one
  | some e ↦ file_length c.fs e.fp
]

unfoldable pub seek : Caller → (fd position : ℕ) → Option (Bool × Caller)
seek c fd position = elim (find_fd_element fd c.fd_table) [
  | none ↦ some (false, c)
  | some e ↦ file_seek c.fs e.fp position >>= λ fs. some (true, record c { fs = fs })
]

-- tell calls file_seek with one argument: `garbage` is what the stack holds in place of the position,
-- and `eax` what the register holds after a function that returns nothing.
unfoldable pub tell : Caller → (garbage eax fd : ℕ) → Option (ℕ × Caller)
tell c garbage eax fd = elim (find_fd_element fd c.fd_table) [
  | none ↦ none
  | some e ↦ file_seek c.fs e.fp garbage >>= λ fs. some (eax, record c { fs = fs })
]

unfoldable pub close : Caller → (fd : ℕ) → Option (Bool × Caller)
close c fd = elim (find_fd_element fd c.fd_table) [
  | none ↦ some (false, c)
  | some e ↦ file_close c.fs e.fp >>= λ fs.
      some (true, record c { fs = fs; fd_table = remove_fd_element fd c.fd_table })
]

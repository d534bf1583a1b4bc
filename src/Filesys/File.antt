-- ===== src/Filesys/File.antt =====
-- filesys/file.c: open files, each with a position of its own in an inode that files share.
use ee461s_projects.Common.{
  ℕ, ◌+◌, ◌%◌, ◌^◌, true, false, not, ◌&&◌, Option, none, some, List, ltb, ◌==◌, if◌then◌else◌,
  update, ◌>>=◌,
}
use ee461s_projects.Filesys.Store.{File, FileSystem, null, file_read_at, file_write_at}
use ee461s_projects.Filesys.OpenInodes.{
  inode_reopen, inode_close, inode_deny_write, inode_allow_write, inode_length,
}

abbrev pub set_file : FileSystem → ℕ → File → FileSystem
set_file fs a f = record fs { files = update fs.files a (some f) }

-- `fresh` is what calloc returns.
unfoldable pub file_open : FileSystem → (fresh inode : ℕ) → Option (ℕ × FileSystem)
file_open fs fresh inode =
    if not (inode == null) && not (fresh == null)
    then some (fresh, set_file fs fresh (record { inode = inode; pos = 0; deny_write = false }))
    else (do fs' ← inode_close fs inode; some (null, fs'))

unfoldable pub file_reopen : FileSystem → (fresh file : ℕ) → Option (ℕ × FileSystem)
file_reopen fs fresh file = do
  f ← fs.files file
  fs' ← inode_reopen fs f.inode
  file_open fs' fresh f.inode

unfoldable pub file_deny_write : FileSystem → ℕ → Option FileSystem
file_deny_write fs file = if file == null then none else do
  f ← fs.files file
  if f.deny_write
      then some fs
      else inode_deny_write (set_file fs file (record f { deny_write = true })) f.inode

unfoldable pub file_allow_write : FileSystem → ℕ → Option FileSystem
file_allow_write fs file = if file == null then none else do
  f ← fs.files file
  if f.deny_write
      then inode_allow_write (set_file fs file (record f { deny_write = false })) f.inode
      else some fs

unfoldable pub file_close : FileSystem → ℕ → Option FileSystem
file_close fs file = if file == null then some fs else do
  fs1 ← file_allow_write fs file
  f ← fs1.files file
  fs2 ← inode_close fs1 f.inode
  some (record fs2 { files = update fs2.files file none })

-- The number of bytes, the bytes, and the state with the position moved on.
unfoldable pub file_read : FileSystem → (file size : ℕ) → Option ((ℕ × List ℕ) × FileSystem)
file_read fs file size = do
  f ← fs.files file
  r ← file_read_at fs file size f.pos
  some (r, set_file fs file (record f { pos = (f.pos + r.0) % 2 ^ 32 }))

unfoldable pub file_write : FileSystem → ℕ → List ℕ → ℕ → Option (ℕ × FileSystem)
file_write fs file buffer size = do
  f ← fs.files file
  r ← file_write_at fs file buffer size f.pos
  some (r.0, set_file r.1 file (record f { pos = (f.pos + r.0) % 2 ^ 32 }))

unfoldable pub file_length : FileSystem → ℕ → Option ℕ
file_length fs file = if file == null then none else do f ← fs.files file; inode_length fs f.inode

-- `new_pos` is an off_t, as a 32-bit word.
unfoldable pub file_seek : FileSystem → (file new_pos : ℕ) → Option FileSystem
file_seek fs file new_pos =
    if file == null
    then none
    else if ltb new_pos (2 ^ 31)
    then (do f ← fs.files file; some (set_file fs file (record f { pos = new_pos })))
    else none

unfoldable pub file_tell : FileSystem → ℕ → Option ℕ
file_tell fs file = if file == null then none else do f ← fs.files file; some f.pos

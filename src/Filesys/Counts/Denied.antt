-- ===== src/Filesys/Counts/Denied.antt =====
-- While an open file denies writes, no file writes to its inode.
use ee461s_projects.Common.{
  ℕ, ◌+◌, ◌%◌, ◌^◌, ◌≡◌, ◌≢◌, refl, true, some, List, count, arith, update, ltb,
}
use ee461s_projects.Filesys.Inode.{Inode, inode_write_at}
use ee461s_projects.Filesys.Store.{File, FileSystem, file_write_at}
use ee461s_projects.Filesys.File.{file_write}
use ee461s_projects.Filesys.Counts.Defs.{IsCounted, denier_counted, inode_of_file}

write_to_denied :
    (fs : FileSystem) (g : ℕ) (y : File) (i : Inode) (buffer : List ℕ) (size : ℕ)
    → fs.files g ≡ some y
    → fs.inodes y.inode ≡ some i
    → ltb 0 i.deny_write_cnt ≡ true
    → (fs' : FileSystem) × (file_write fs g buffer size ≡ some (0, fs')) × (fs'.disk ≡ fs.disk)
unfolding file_write file_write_at inode_write_at
write_to_denied fs g y i buffer size ey ei denied = (
  record fs { files = update fs.files g (some (record y { pos = (y.pos + 0) % 2 ^ 32 })) },
  rw (ey, file_write) (rw (ei, file_write) (rw (denied, file_write) refl)),
  refl,
)

-- If an open file denies writes, then file_write through any open file of the same inode returns 0
-- and leaves the disk as it is.
pub file_write-denied :
    (fs : FileSystem) (fl : List ℕ) (held : ℕ → ℕ) (f g : ℕ) (x y : File) (buffer : List ℕ)
    (size : ℕ)
    → IsCounted fs fl held
    → count f fl ≢ 0
    → fs.files f ≡ some x
    → x.deny_write ≡ true
    → fs.files g ≡ some y
    → y.inode ≡ x.inode
    → (fs' : FileSystem) × (file_write fs g buffer size ≡ some (0, fs')) × (fs'.disk ≡ fs.disk)
file_write-denied fs fl held f g x y buffer size c n ex e ey same =
    let (i, ei) = inode_of_file fs fl held f x c ex n in
    let (oc, dc, pos) = c.inode_open x.inode i ei in
    let one = denier_counted x.inode f fs.files fl n in
    write_to_denied fs g y i buffer size ey (rw same ei) (ground arith)

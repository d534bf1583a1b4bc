-- ===== src/Filesys/Directory.antt =====
-- filesys/directory.c: a directory is a file of entries of 20 bytes: the sector in the first four,
-- 15 bytes of name, and a byte that says whether the entry is in use.
pub mod Entries
pub mod Lookup
mod Slots
pub mod Add
mod Tests
use ee461s_projects.Common.{
  ℕ, zero, suc, ◌+◌, ◌*◌, Bool, true, false, not, ◌&&◌, ◌||◌, Option, none, some, List, [], ◌∷◌,
  ◌++◌, ltb, ◌==◌, if◌then◌else◌, ◌>>=◌, take, drop, get_or,
}
use ee461s_projects.Libc.Strings.{Sign, negative, equal, positive, strcmp, strlen, strlcpy}
use ee461s_projects.Filesys.Inode.{Inode, inode_read_at, inode_write_at}
use ee461s_projects.Filesys.Store.{FileSystem, null, le32, u32_at}
use ee461s_projects.Filesys.OpenInodes.{
  inode_open, inode_reopen, inode_close, inode_remove, inode_create,
}

-- NAME_MAX
abbrev pub name_max : ℕ
name_max = 14

-- sizeof (struct dir_entry)
abbrev pub entry_size : ℕ
entry_size = 20

-- ROOT_DIR_SECTOR
abbrev pub root_dir_sector : ℕ
root_dir_sector = 1

-- struct dir
pub record Dir : Type 0 where
  pub inode : ℕ
  pub pos : ℕ

-- The members of a struct dir_entry that is held as its bytes.
abbrev pub entry_sector : List ℕ → ℕ
entry_sector e = u32_at e 0

abbrev pub entry_name : List ℕ → List ℕ
entry_name e = take 15 (drop 4 e)

abbrev pub entry_in_use : List ℕ → Bool
entry_in_use e = not (get_or e 19 0 == 0)

abbrev pub entry_of : (sector : ℕ) → List ℕ → (in_use : ℕ) → List ℕ
entry_of sector name in_use = le32 sector ++ (name ++ (in_use ∷ []))

-- e.in_use = false
abbrev pub unused : List ℕ → List ℕ
unused e = take 19 e ++ (0 ∷ [])

-- inode_read_at and inode_write_at on an inode in memory.
abbrev pub read_entry : FileSystem → (inode ofs : ℕ) → Option (ℕ × List ℕ)
read_entry fs inode ofs = do
  i ← fs.inodes inode
  some (inode_read_at fs.disk fs.bounce_ok i entry_size ofs)

abbrev pub write_entry : FileSystem → ℕ → List ℕ → ℕ → Option (ℕ × FileSystem)
write_entry fs inode e ofs = do
  i ← fs.inodes inode
  let (n, disk) = inode_write_at fs.disk fs.bounce_ok i e entry_size ofs in
      some (n, record fs { disk = disk })

-- `calloc_ok` says whether calloc gives memory for the struct dir.
unfoldable pub dir_open : FileSystem → Bool → ℕ → Option (Option Dir × FileSystem)
dir_open fs calloc_ok inode =
    if not (inode == null) && calloc_ok
    then some (some (record { inode = inode; pos = 0 }), fs)
    else (do fs' ← inode_close fs inode; some (none, fs'))

-- `fresh` is what malloc returns for an inode that is not open.
unfoldable pub dir_open_root : FileSystem → Bool → (fresh : ℕ) → Option (Option Dir × FileSystem)
dir_open_root fs calloc_ok fresh = do
  r ← inode_open fs fresh root_dir_sector
  dir_open r.1 calloc_ok r.0

unfoldable pub dir_reopen : FileSystem → Bool → Dir → Option (Option Dir × FileSystem)
dir_reopen fs calloc_ok dir = do fs' ← inode_reopen fs dir.inode; dir_open fs' calloc_ok dir.inode

unfoldable pub dir_close : FileSystem → Option Dir → Option FileSystem
dir_close fs none = some fs
dir_close fs (some dir) = inode_close fs dir.inode

unfoldable pub dir_create : FileSystem → Bool → (sector entry_cnt : ℕ) → Option (Bool × FileSystem)
dir_create fs calloc_ok sector entry_cnt = inode_create fs calloc_ok sector (entry_cnt * entry_size)

-- The loop of lookup: the entry with the name and its offset. `name` ends with its zero byte.
unfoldable pub lookup_loop :
    (fuel : ℕ) → FileSystem → ℕ → List ℕ → (ofs : ℕ) → Option (Option (List ℕ × ℕ))
lookup_loop zero fs inode name ofs = none
lookup_loop (suc fuel) fs inode name ofs =
    let more = lookup_loop fuel fs inode name (ofs + entry_size) in
    read_entry fs inode ofs >>= λ r.
    if not (r.0 == entry_size)
    then some none
    else if entry_in_use r.1
    then (strcmp name (entry_name r.1) >>= λ c. elim c [
      | equal ↦ some (some (r.1, ofs))
      | _ ↦ more
    ])
    else more

-- A round moves on by an entry, so a round for each byte and one for the end are enough.
unfoldable pub lookup : FileSystem → Dir → List ℕ → Option (Option (List ℕ × ℕ))
lookup fs dir name = do
  i ← fs.inodes dir.inode
  lookup_loop (suc i.inode_data.length) fs dir.inode name 0

-- The inode, NULL if there is none with the name.
unfoldable pub dir_lookup : FileSystem → (fresh : ℕ) → Dir → List ℕ → Option (ℕ × FileSystem)
dir_lookup fs fresh dir name = do
  r ← lookup fs dir name
  elim r [ none ↦ some (null, fs) | some (e, ofs) ↦ inode_open fs fresh (entry_sector e) ]

-- The loop of dir_add: the offset of the first free entry or of the end, and what `e` then holds.
unfoldable pub free_loop :
    (fuel : ℕ) → FileSystem → (inode : ℕ) → List ℕ → (ofs : ℕ) → Option (List ℕ × ℕ)
free_loop zero fs inode e ofs = none
free_loop (suc fuel) fs inode e ofs = read_entry fs inode ofs >>= λ r.
    let more = free_loop fuel fs inode r.1 (ofs + entry_size) in
    if not (r.0 == entry_size)
    then some (r.1 ++ drop r.0 e, ofs)
    else if not (entry_in_use r.1)
    then some (r.1, ofs)
    else more

-- `e` is what the stack holds in the variable before.
unfoldable pub dir_add : FileSystem → Dir → List ℕ → ℕ → (e : List ℕ) → Option (Bool × FileSystem)
dir_add fs dir name inode_sector e = do
  len ← strlen name
  if len == 0 || ltb name_max len then some (false, fs) else (do
    r ← lookup fs dir name
    elim r [
      | some found ↦ some (false, fs)
      | none ↦ (do
        i ← fs.inodes dir.inode
        slot ← free_loop (suc i.inode_data.length) fs dir.inode e 0
        copied ← strlcpy (entry_name slot.0) name 15
        w ← write_entry fs dir.inode (entry_of inode_sector copied.1 1) slot.1
        some (w.0 == entry_size, w.1))
    ])

unfoldable pub dir_remove : FileSystem → (fresh : ℕ) → Dir → List ℕ → Option (Bool × FileSystem)
dir_remove fs fresh dir name = do
  r ← lookup fs dir name
  elim r [
    | none ↦ some (false, fs)
    | some (e, ofs) ↦ (do
      o ← inode_open fs fresh (entry_sector e)
      if o.0 == null then some (false, o.1) else (do
        w ← write_entry o.1 dir.inode (unused e) ofs
        if not (w.0 == entry_size)
            then (do fs' ← inode_close w.1 o.0; some (false, fs'))
            else (do fs1 ← inode_remove w.1 o.0; fs2 ← inode_close fs1 o.0; some (true, fs2))))
  ]

-- The name of the next entry in use, and the directory with its position moved on.
unfoldable pub readdir_loop :
    (fuel : ℕ) → FileSystem → Dir → List ℕ → Option (Option (List ℕ) × Dir)
readdir_loop zero fs dir name = none
readdir_loop (suc fuel) fs dir name =
    let dir' = record dir { pos = dir.pos + entry_size } in
    let more = readdir_loop fuel fs dir' name in
    read_entry fs dir.inode dir.pos >>= λ r.
    if not (r.0 == entry_size)
    then some (none, dir)
    else if entry_in_use r.1
    then (strlcpy name (entry_name r.1) 15 >>= λ c. some (some c.1, dir'))
    else more

unfoldable pub dir_readdir : FileSystem → Dir → List ℕ → Option (Option (List ℕ) × Dir)
dir_readdir fs dir name = do
  i ← fs.inodes dir.inode
  readdir_loop (suc i.inode_data.length) fs dir name

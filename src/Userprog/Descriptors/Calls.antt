-- ===== src/Userprog/Descriptors/Calls.antt =====
-- System calls on an open descriptor: a write that is read back.
use ee461s_projects.Common.{
  ℕ, ◌+◌, ◌-◌, ◌%◌, ◌^◌, ◌<◌, ◌≤◌, min, ◌≡◌, ◌≢◌, refl, sym, subst, ap, ◌∙◌, Bool, true, false,
  some, List, ltb, ◌==◌, arith, length, take, lt→ltb,
}
use ee461s_projects.Filesys.Inode.{Inode, Disk, inode_read_at, inode_write_at}
use ee461s_projects.Filesys.Inode.Read.{IsDisk}
use ee461s_projects.Filesys.Inode.Write.{inode_write_at-Wrote, read-write}
use ee461s_projects.Filesys.Store.{File, null, file_read_at, file_write_at}
use ee461s_projects.Filesys.File.{set_file, file_read, file_write, file_seek}
use ee461s_projects.Userprog.Descriptors.{Caller, find_fd_element, off_t, read, write, seek}

-- A descriptor that is open for a file with an inode.
pub record IsOpen (c : Caller) (fd fp : ℕ) (f : File) (i : Inode) : Type 0 where
  pub not_console : 2 ≤ fd
  pub in_table : find_fd_element fd c.fd_table ≡ some (record { fd = fd; fp = fp })
  pub not_null : fp ≢ null
  pub file : c.fs.files fp ≡ some f
  pub inode : c.fs.inodes f.inode ≡ some i

seek_lem :
    (c : Caller) (fd fp : ℕ) (f : File) (i : Inode) (position : ℕ)
    → IsOpen c fd fp f i
    → position < 2 ^ 31
    → let c' = record c { fs = set_file c.fs fp (record f { pos = position }) } in
      (seek c fd position ≡ some (true, c')) × IsOpen c' fd fp (record f { pos = position }) i
unfolding seek file_seek
seek_lem c fd fp f i position o h =
    let in_range : ltb position (2 ^ 31) ≡ true = lt→ltb position (2 ^ 31) h in
    let is_file : (fp == null) ≡ false = ground (arith, o.not_null) in
    (
      rw (o.in_table, seek) (rw (is_file, in_range, seek) (rw (o.file, seek) refl)),
      record {
        not_console = o.not_console;
        in_table = o.in_table;
        not_null = o.not_null;
        file = ground arith;
        inode = o.inode;
      },
    )

write_lem :
    (c : Caller) (fd fp : ℕ) (f : File) (i : Inode) (buffer : List ℕ) (size : ℕ)
    → IsOpen c fd fp f i
    → size < 2 ^ 31
    → let w = inode_write_at c.fs.disk c.fs.bounce_ok i buffer size f.pos in
      let f' = record f { pos = (f.pos + w.0) % 2 ^ 32 } in
      let c' = record c { fs = set_file (record c.fs { disk = w.1 }) fp f' } in
      (write c fd buffer size ≡ some (w.0, c')) × IsOpen c' fd fp f' i
unfolding write file_write file_write_at off_t
write_lem c fd fp f i buffer size o h =
    let not_zero : (fd == 0) ≡ false = ground (arith, o.not_console) in
    let not_one : (fd == 1) ≡ false = ground (arith, o.not_console) in
    let small : ltb size (2 ^ 31) ≡ true = lt→ltb size (2 ^ 31) h in
    (
      rw (not_zero, not_one, o.in_table, write)
          (rw (o.file, small, write) (rw (o.inode, write) refl)),
      record {
        not_console = o.not_console;
        in_table = o.in_table;
        not_null = o.not_null;
        file = ground arith;
        inode = o.inode;
      },
    )

read_lem :
    (c : Caller) (keys : List ℕ) (fd fp : ℕ) (f : File) (i : Inode) (size : ℕ)
    → IsOpen c fd fp f i
    → size < 2 ^ 31
    → let r = inode_read_at c.fs.disk c.fs.bounce_ok i size f.pos in
      read c keys fd size
      ≡ some (r, record c { fs = set_file c.fs fp (record f { pos = (f.pos + r.0) % 2 ^ 32 }) })
unfolding read file_read file_read_at off_t
read_lem c keys fd fp f i size o h =
    let not_zero : (fd == 0) ≡ false = ground (arith, o.not_console) in
    let not_one : (fd == 1) ≡ false = ground (arith, o.not_console) in
    let small : ltb size (2 ^ 31) ≡ true = lt→ltb size (2 ^ 31) h in
    rw (not_zero, not_one, o.in_table, read) (rw (o.file, small, read) (rw (o.inode, read) refl))

-- What a process writes at a position of an open file, with writes not denied and malloc
-- succeeding, it reads back from there: seek, write, seek and read pass, write gives the number
-- of bytes that fit, and read gives those bytes.
pub write-seek-read :
    (c : Caller) (keys : List ℕ) (fd fp : ℕ) (f : File) (i : Inode) (buffer : List ℕ)
    (size position : ℕ)
    → IsOpen c fd fp f i
    → IsDisk c.fs.disk
    → c.fs.bounce_ok ≡ true
    → i.deny_write_cnt ≡ 0
    → size ≤ length buffer
    → size < 2 ^ 31
    → position < 2 ^ 31
    → let n = min size (i.inode_data.length - position) in
      (c1 c2 c3 c4 : Caller) × (seek c fd position ≡ some (true, c1))
      × (write c1 fd buffer size ≡ some (n, c2))
      × (seek c2 fd position ≡ some (true, c3))
      × (read c3 keys fd n ≡ some ((n, take n buffer), c4))
write-seek-read c keys fd fp f i buffer size position o w ok allowed l small p =
    let f1 : File = record f { pos = position } in
    let c1 : Caller = record c { fs = set_file c.fs fp f1 } in
    let (s1, o1) = seek_lem c fd fp f i position o p in
    let r : ℕ × Disk = written c.fs.bounce_ok in
    let f2 : File = record f1 { pos = (position + r.0) % 2 ^ 32 } in
    let c2 : Caller = record c1 { fs = set_file (record c1.fs { disk = r.1 }) fp f2 } in
    let (s2, o2) = write_lem c1 fd fp f1 i buffer size o1 small in
    let c3 : Caller = record c2 { fs = set_file c2.fs fp f1 } in
    let (s3, o3) = seek_lem c2 fd fp f2 i position o2 p in
    let r4 : ℕ × List ℕ =
      inode_read_at r.1 c.fs.bounce_ok i (min size (i.inode_data.length - position)) position in
    let c4 : Caller = record c3 {
      fs = set_file c3.fs fp (record f1 { pos = (position + r4.0) % 2 ^ 32 });
    } in
    let s4 =
      read_lem c3 keys fd fp f1 i (min size (i.inode_data.length - position)) o3 (omega arith) in
    (
      c1,
      c2,
      c3,
      c4,
      s1,
      s2 ∙ ap (λ k. some (k, c2)) count_written,
      s3,
      s4 ∙ ap (λ q. some (q, c4)) back,
    )
  where
    written : Bool → ℕ × Disk
    written b = inode_write_at c.fs.disk b i buffer size position

    count_written : (written c.fs.bounce_ok).0 ≡ min size (i.inode_data.length - position)
    count_written =
        ap (λ b. (written b).0) ok
        ∙ (inode_write_at-Wrote c.fs.disk i buffer size position w allowed l).0

    back :
        let n = min size (i.inode_data.length - position) in
        inode_read_at (written c.fs.bounce_ok).1 c.fs.bounce_ok i n position ≡ (n, take n buffer)
    back =
        subst
          (λ k.
            inode_read_at (written c.fs.bounce_ok).1 c.fs.bounce_ok i k position
            ≡ (k, take k buffer))
          count_written
          (subst
            (λ b.
              inode_read_at (written b).1 b i (written b).0 position
              ≡ ((written b).0, take (written b).0 buffer))
            (sym ok) (read-write c.fs.disk i buffer size position w allowed l))

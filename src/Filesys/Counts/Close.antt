-- ===== src/Filesys/Counts/Close.antt =====
-- file_allow_write and file_close keep the counters of the open inodes right.
use ee461s_projects.Common.{
  ℕ, ◌+◌, ◌-◌, ◌%◌, ◌^◌, ◌≤◌, ◌<◌, ◌≡◌, ◌≢◌, refl, ap, ◌∙◌, true, false, Option, none, some, List,
  ◌==◌, ◌&&◌, if◌then◌else◌, count, arith, ◌⊎◌, inl, inr, update, sum-congr, sum-erase_all,
  count-erase_all, erase_all, Bool-cases, ltb, leb,
}
use ee461s_projects.Filesys.Inode.{Inode}
use ee461s_projects.Filesys.Store.{File, FileSystem, null}
use ee461s_projects.Filesys.OpenInodes.{set_inode, inode_close, inode_release, inode_allow_write}
use ee461s_projects.Filesys.File.{file_allow_write, file_close}
use ee461s_projects.Filesys.Counts.Defs.{
  opens, denies, openers, deniers, IsCounted, denies≤opens, denier_counted, inode_of_file,
}
use ee461s_projects.Filesys.Counts.Files.{set_both, set_both-IsCounted}

allow_passes :
    (fs : FileSystem) (f : ℕ) (x : File) (i : Inode)
    → f ≢ null
    → fs.files f ≡ some x
    → fs.inodes x.inode ≡ some i
    → x.deny_write ≡ true
    → 0 < i.deny_write_cnt
    → i.deny_write_cnt ≤ i.open_cnt
    → file_allow_write fs f
      ≡ some (
          set_both fs f
            (record x { deny_write = false })
            (record i { deny_write_cnt = i.deny_write_cnt - 1 }))
unfolding file_allow_write inode_allow_write
allow_passes fs f x i nf ex ei e pos le =
    let not_null : (f == null) ≡ false = ground arith in
    let ok : (ltb 0 i.deny_write_cnt && leb i.deny_write_cnt i.open_cnt) ≡ true = ground arith in
    rw (not_null, ex, file_allow_write)
      (rw (e, ei, file_allow_write) (rw (ok, file_allow_write) refl))

-- The state of a file after file_allow_write.
record Allowed (fs : FileSystem) (fl : List ℕ) (held : ℕ → ℕ) (f : ℕ) (x : File) (i : Inode)
    (fs' : FileSystem) : Type 0 where
  counted : IsCounted fs' fl held
  file : fs'.files f ≡ some (record x { deny_write = false })
  inode : (i' : Inode) × (fs'.inodes x.inode ≡ some i') × (i'.removed ≡ i.removed)

allow-Allowed :
    (fs : FileSystem) (fl : List ℕ) (held : ℕ → ℕ) (f : ℕ) (x : File) (i : Inode)
    → IsCounted fs fl held
    → count f fl ≢ 0
    → fs.files f ≡ some x
    → x.inode ≢ null
    → fs.inodes x.inode ≡ some i
    → (x.deny_write ≡ true) ⊎ (x.deny_write ≡ false)
    → (fs' : FileSystem) × (file_allow_write fs f ≡ some fs') × Allowed fs fl held f x i fs'
unfolding file_allow_write
allow-Allowed fs fl held f x i c n ex nx ei (inl e) =
    let (oc, dc, pos) = c.inode_open x.inode i ei in
    let one = denier_counted x.inode f fs.files fl n in
    let i' : Inode = record i { deny_write_cnt = i.deny_write_cnt - 1 } in
    (
      set_both fs f (record x { deny_write = false }) i',
      allow_passes fs f x i (ground (arith, c.no_null)) ex ei e (ground arith)
          (ground (arith, denies≤opens x.inode fs.files fl)),
      record {
        counted =
            set_both-IsCounted fs fl held f x (record x { deny_write = false }) i i' c n ex ei refl
              nx refl (ground arith);
        file = ground arith;
        inode = (i', ground arith, refl);
      },
    )
allow-Allowed fs fl held f x i c n ex nx ei (inr e) = (
  fs,
  ground (arith, c.no_null),
  record {
    counted = c;
    file = ex ∙ ap (λ b. some (record x { deny_write = b })) e;
    inode = (i, ei, refl);
  },
)

-- file_allow_write on an open file passes its ASSERTs and keeps the counters right.
pub file_allow_write-IsCounted :
    (fs : FileSystem) (fl : List ℕ) (held : ℕ → ℕ) (f : ℕ)
    → IsCounted fs fl held
    → count f fl ≢ 0
    → (fs' : FileSystem) × (file_allow_write fs f ≡ some fs') × IsCounted fs' fl held
file_allow_write-IsCounted fs fl held f c n =
    let (x, ex, nx) = c.file_open f n in
    let (i, ei) = inode_of_file fs fl held f x c ex n in
    let (fs', e, a) = allow-Allowed fs fl held f x i c n ex nx ei (Bool-cases x.deny_write) in
    (fs', e, a.counted)

-- The inode of a file that has been closed: gone with its last opener.
abbrev left : Inode → Option Inode
left i = if i.open_cnt == 1 then none else some (record i { open_cnt = i.open_cnt - 1 })

forget-IsCounted :
    (fs fs' : FileSystem) (fl : List ℕ) (held : ℕ → ℕ) (f : ℕ) (x : File) (i : Inode)
    → IsCounted fs fl held
    → count f fl ≢ 0
    → fs.files f ≡ some x
    → x.deny_write ≡ false
    → fs.inodes x.inode ≡ some i
    → ((g : ℕ) → fs'.files g ≡ update fs.files f none g)
    → ((a : ℕ) → fs'.inodes a ≡ update fs.inodes x.inode (left i) a)
    → IsCounted fs' (erase_all f fl) held
forget-IsCounted fs fs' fl held f x i c n ex allowed ei files' inodes' =
    let (oc, dc, pos) = c.inode_open x.inode i ei in
    record {
      once = λ g. ground (arith, count-erase_all f g fl, c.once g);
      file_open = λ g m.
          let (y, ey, ny) = c.file_open g (ground (arith, count-erase_all f g fl)) in
          (y, ground (arith, files' g, count-erase_all f g fl), ny);
      file_closed = λ g m. ground (arith, files' g, count-erase_all f g fl, c.file_closed g);
      no_null = ground (arith, count-erase_all f null fl, c.no_null);
      inode_open = λ a j ej. elim (Bool-cases (a == x.inode)) [
        | inl e ↦ ground (arith, inodes' a, openers_left a, deniers_left a)
        | inr e ↦ ground (arith, inodes' a, openers_left a, deniers_left a, c.inode_open a j)
      ];
      inode_closed = λ a ej. elim (Bool-cases (a == x.inode)) [
        | inl e ↦ ground (arith, inodes' a, openers_left a)
        | inr e ↦ ground (arith, inodes' a, openers_left a, c.inode_closed a)
      ];
      fits = λ a. ground (arith, c.fits a, openers_left a);
    }
  where
    one : count f fl ≡ 1
    one = ground (arith, c.once f)

    kept : (g : ℕ) → count g (erase_all f fl) ≢ 0 → fs'.files g ≡ fs.files g
    kept g m = ground (arith, files' g, count-erase_all f g fl)

    openers_left :
        (a : ℕ) → openers fs'.files a (erase_all f fl) + opens a (some x) ≡ openers fs.files a fl
    openers_left a = ground (
      arith,
      sum-congr (λ g. opens a (fs'.files g)) (λ g. opens a (fs.files g)) (erase_all f fl)
          (λ g m. ap (opens a) (kept g m)),
      sum-erase_all (λ g. opens a (fs.files g)) f fl one,
      ap (opens a) ex,
    )

    deniers_left : (a : ℕ) → deniers fs'.files a (erase_all f fl) ≡ deniers fs.files a fl
    deniers_left a = ground (
      arith,
      sum-congr (λ g. denies a (fs'.files g)) (λ g. denies a (fs.files g)) (erase_all f fl)
          (λ g m. ap (denies a) (kept g m)),
      sum-erase_all (λ g. denies a (fs.files g)) f fl one,
      ap (denies a) ex,
    )

-- inode_close on an inode that is not removed.
inode_close_lem :
    (fs : FileSystem) (a : ℕ) (i : Inode)
    → a ≢ null
    → fs.inodes a ≡ some i
    → i.removed ≡ false
    → 0 < i.open_cnt
    → i.open_cnt < 2 ^ 31
    → (fs' : FileSystem) × (inode_close fs a ≡ some fs')
      × ((g : ℕ) → fs'.files g ≡ fs.files g)
      × ((b : ℕ) → fs'.inodes b ≡ update fs.inodes a (left i) b)
unfolding inode_close inode_release
inode_close_lem fs a i na ei keep pos fits =
    let not_null : (a == null) ≡ false = ground arith in
    let cnt : ℕ = (i.open_cnt + 2 ^ 32 - 1) % 2 ^ 32 in
    elim (Bool-cases (i.open_cnt == 1)) [
      | inl e ↦
          let last : (cnt == 0) ≡ true = ground arith in
          (
            record fs {
              inodes = update (set_inode fs a (record i { open_cnt = cnt })).inodes a none;
              open_inodes = erase_all a fs.open_inodes;
            },
            rw (not_null, ei, inode_close) (rw (last, inode_close) (rw (keep, inode_close) refl)),
            λ g. refl,
            λ b. ground arith,
          )
      | inr e ↦
          let more : (cnt == 0) ≡ false = ground arith in
          let less : cnt ≡ i.open_cnt - 1 = omega arith in
          (
            set_inode fs a (record i { open_cnt = cnt }),
            rw (not_null, ei, inode_close) (rw (more, inode_close) refl),
            λ g. refl,
            λ b. ground arith,
          )
    ]

file_close_parts :
    (fs fs1 fs2 : FileSystem) (f : ℕ) (x : File)
    → f ≢ null
    → file_allow_write fs f ≡ some fs1
    → fs1.files f ≡ some x
    → inode_close fs1 x.inode ≡ some fs2
    → file_close fs f ≡ some (record fs2 { files = update fs2.files f none })
unfolding file_close
file_close_parts fs fs1 fs2 f x nf e1 ex e2 =
    let not_null : (f == null) ≡ false = ground arith in
    rw (not_null, e1, file_close) (rw (ex, file_close) (rw (e2, file_close) refl))

-- file_close on an open file, whose inode is not removed, passes all ASSERTs and keeps the counters
-- right: an inode is freed with its last opener, and a file's denial of writes ends with the file.
pub file_close-IsCounted :
    (fs : FileSystem) (fl : List ℕ) (held : ℕ → ℕ) (f : ℕ)
    → IsCounted fs fl held
    → count f fl ≢ 0
    → ((a : ℕ) (i : Inode) → fs.inodes a ≡ some i → i.removed ≡ false)
    → (fs' : FileSystem) × (file_close fs f ≡ some fs') × IsCounted fs' (erase_all f fl) held
unfolding file_close
file_close-IsCounted fs fl held f c n keep =
    let (x, ex, nx) = c.file_open f n in
    let (i, ei) = inode_of_file fs fl held f x c ex n in
    let (fs1, e1, al) = allow-Allowed fs fl held f x i c n ex nx ei (Bool-cases x.deny_write) in
    let (i1, ei1, r1) = al.inode in
    let (oc, dc, pos) = al.counted.inode_open x.inode i1 ei1 in
    let (fs2, e2, files2, inodes2) =
      inode_close_lem fs1 x.inode i1 nx ei1 (r1 ∙ keep x.inode i ei) pos
        (ground (arith, al.counted.fits x.inode)) in
    (
      record fs2 { files = update fs2.files f none },
      file_close_parts fs fs1 fs2 f (record x { deny_write = false }) (ground (arith, c.no_null)) e1
          al.file e2,
      forget-IsCounted fs1 (record fs2 { files = update fs2.files f none }) fl held f
          (record x { deny_write = false }) i1 al.counted n al.file refl ei1
          (λ g. ground (arith, files2 g)) inodes2,
    )

-- ===== src/Filesys/Counts/Files.antt =====
-- file_open, file_deny_write, file_allow_write and file_close keep the counters right.
use ee461s_projects.Common.{
  ℕ, ◌+◌, ◌-◌, ◌%◌, ◌^◌, ◌≤◌, ◌<◌, ◌≡◌, ◌≢◌, refl, true, false, Option, none, some, List, ◌∷◌, ◌==◌,
  count, arith, ◌⊎◌, inl, inr, update, sum_change, sum-congr, Bool-cases, leb,
}
use ee461s_projects.Filesys.Inode.{Inode}
use ee461s_projects.Filesys.Store.{File, FileSystem, null}
use ee461s_projects.Filesys.OpenInodes.{inode_deny_write}
use ee461s_projects.Filesys.File.{file_open, file_deny_write, set_file}
use ee461s_projects.Filesys.Counts.Defs.{
  opens, denies, openers, deniers, IsCounted, denies≤opens, absent_of_closed, inode_of_file,
}

-- A change of one open file changes the sums by what it does itself.
openers_change :
    (files : ℕ → Option File) (fl : List ℕ) (f a : ℕ) (x' : Option File)
    → count f fl ≡ 1
    → openers (update files f x') a fl + opens a (files f) ≡ openers files a fl + opens a x'
openers_change files fl f a x' n = ground (
  arith,
  sum_change (λ g. opens a (files g)) (λ g. opens a (update files f x' g)) f fl n
      (λ g ne. ground arith),
)

deniers_change :
    (files : ℕ → Option File) (fl : List ℕ) (f a : ℕ) (x' : Option File)
    → count f fl ≡ 1
    → deniers (update files f x') a fl + denies a (files f) ≡ deniers files a fl + denies a x'
deniers_change files fl f a x' n = ground (
  arith,
  sum_change (λ g. denies a (files g)) (λ g. denies a (update files f x' g)) f fl n
      (λ g ne. ground arith),
)

-- The files of a list without `f` do not see a change of `f`.
pub openers_absent :
    (files : ℕ → Option File) (fl : List ℕ) (f a : ℕ) (x' : Option File)
    → count f fl ≡ 0
    → openers (update files f x') a fl ≡ openers files a fl
openers_absent files fl f a x' n =
    sum-congr (λ g. opens a (update files f x' g)) (λ g. opens a (files g)) fl
      (λ g ng. ground arith)

pub deniers_absent :
    (files : ℕ → Option File) (fl : List ℕ) (f a : ℕ) (x' : Option File)
    → count f fl ≡ 0
    → deniers (update files f x') a fl ≡ deniers files a fl
deniers_absent files fl f a x' n =
    sum-congr (λ g. denies a (update files f x' g)) (λ g. denies a (files g)) fl
      (λ g ng. ground arith)

-- file_open takes over a reference to an inode: it passes, and the counters stay right with the new
-- file in place of the reference.
pub file_open-IsCounted :
    (fs : FileSystem) (fl : List ℕ) (held : ℕ → ℕ) (fresh inode : ℕ)
    → IsCounted fs fl held
    → 0 < held inode
    → fresh ≢ null
    → fs.files fresh ≡ none
    → (fs' : FileSystem) × (file_open fs fresh inode ≡ some (fresh, fs'))
      × IsCounted fs' (fresh ∷ fl) (update held inode (held inode - 1))
unfolding file_open
file_open-IsCounted fs fl held fresh inode c h ne free =
    let new_file : File = record { inode = inode; pos = 0; deny_write = false } in
    let absent : count fresh fl ≡ 0 = absent_of_closed fs fl held fresh c free in
    let nn : inode ≢ null = ground (arith, c.no_null) in
    (
      set_file fs fresh new_file,
      ground arith,
      record {
        once = λ f. ground (arith, c.once f);
        file_open = λ f n. elim (Bool-cases (f == fresh)) [
          | inl e ↦ (new_file, ground arith, nn)
          | inr e ↦ let (x, ex, nx) = c.file_open f (ground arith) in (x, ground arith, nx)
        ];
        file_closed = λ f n. ground (arith, c.file_closed f);
        no_null = ground (arith, c.no_null);
        inode_open = λ a i e. ground (
          arith,
          c.inode_open a i e,
          openers_absent fs.files fl fresh a (some new_file) absent,
          deniers_absent fs.files fl fresh a (some new_file) absent,
        );
        inode_closed = λ a e.
            ground (
              arith,
              c.inode_closed a e,
              openers_absent fs.files fl fresh a (some new_file) absent,
            );
        fits = λ a.
            ground (arith, c.fits a, openers_absent fs.files fl fresh a (some new_file) absent);
      },
    )

-- A new state of an open file and of its inode, with the same inode and count of openers.
abbrev pub set_both : FileSystem → ℕ → File → Inode → FileSystem
set_both fs f x i = record fs {
  files = update fs.files f (some x);
  inodes = update fs.inodes x.inode (some i);
}

pub set_both-IsCounted :
    (fs : FileSystem) (fl : List ℕ) (held : ℕ → ℕ) (f : ℕ) (x x' : File) (i i' : Inode)
    → IsCounted fs fl held
    → count f fl ≢ 0
    → fs.files f ≡ some x
    → fs.inodes x.inode ≡ some i
    → x'.inode ≡ x.inode
    → x.inode ≢ null
    → i'.open_cnt ≡ i.open_cnt
    → i'.deny_write_cnt + denies x.inode (some x) ≡ i.deny_write_cnt + denies x.inode (some x')
    → IsCounted (set_both fs f x' i') fl held
set_both-IsCounted fs fl held f x x' i i' c n ex ei same nx oc dc =
    let one : count f fl ≡ 1 = ground (arith, c.once f) in
    record {
      once = c.once;
      file_open = λ g m. elim (Bool-cases (g == f)) [
        | inl e ↦ (x', ground arith, ground arith)
        | inr e ↦ let (y, ey, ny) = c.file_open g m in (y, ground arith, ny)
      ];
      file_closed = λ g m. ground (arith, c.file_closed g);
      no_null = c.no_null;
      inode_open = λ a j ej. elim (Bool-cases (a == x.inode)) [
        | inl e ↦ ground (
          arith,
          c.inode_open x.inode i ei,
          openers_change fs.files fl f a (some x') one,
          deniers_change fs.files fl f a (some x') one,
        )
        | inr e ↦ ground (
          arith,
          c.inode_open a j,
          openers_change fs.files fl f a (some x') one,
          deniers_change fs.files fl f a (some x') one,
        )
      ];
      inode_closed =
          λ a ej. ground (arith, c.inode_closed a, openers_change fs.files fl f a (some x') one);
      fits = λ a. ground (arith, c.fits a, openers_change fs.files fl f a (some x') one);
    }

deny_passes :
    (fs : FileSystem) (f : ℕ) (x : File) (i : Inode)
    → f ≢ null
    → fs.files f ≡ some x
    → fs.inodes x.inode ≡ some i
    → x.deny_write ≡ false
    → i.deny_write_cnt + 1 ≤ i.open_cnt
    → i.open_cnt < 2 ^ 31
    → file_deny_write fs f
      ≡ some (
          set_both fs f
            (record x { deny_write = true })
            (record i { deny_write_cnt = (i.deny_write_cnt + 1) % 2 ^ 32 }))
unfolding file_deny_write inode_deny_write
deny_passes fs f x i nf ex ei e le fits =
    let not_null : (f == null) ≡ false = ground arith in
    let ok : leb ((i.deny_write_cnt + 1) % 2 ^ 32) i.open_cnt ≡ true = ground arith in
    rw (not_null, ex, file_deny_write) (rw (e, ei, file_deny_write) (rw (ok, file_deny_write) refl))

-- A file that does not deny writes leaves room to deny them.
room_to_deny :
    (fs : FileSystem) (fl : List ℕ) (held : ℕ → ℕ) (f : ℕ) (x : File) (i : Inode)
    → IsCounted fs fl held
    → count f fl ≡ 1
    → fs.files f ≡ some x
    → fs.inodes x.inode ≡ some i
    → x.deny_write ≡ false
    → (i.deny_write_cnt + 1 ≤ i.open_cnt) × (i.open_cnt < 2 ^ 31)
room_to_deny fs fl held f x i c one ex ei e =
    let x' : File = record x { deny_write = true } in
    ground (
      arith,
      c.inode_open x.inode i ei,
      c.fits x.inode,
      openers_change fs.files fl f x.inode (some x') one,
      deniers_change fs.files fl f x.inode (some x') one,
      denies≤opens x.inode (update fs.files f (some x')) fl,
    )

-- file_deny_write on an open file passes its ASSERTs and keeps the counters right.
pub file_deny_write-IsCounted :
    (fs : FileSystem) (fl : List ℕ) (held : ℕ → ℕ) (f : ℕ)
    → IsCounted fs fl held
    → count f fl ≢ 0
    → (fs' : FileSystem) × (file_deny_write fs f ≡ some fs') × IsCounted fs' fl held
unfolding file_deny_write
file_deny_write-IsCounted fs fl held f c n =
    let (x, ex, nx) = c.file_open f n in
    let (i, ei) = inode_of_file fs fl held f x c ex n in go x i ex nx ei (Bool-cases x.deny_write)
  where
    go :
        (x : File) (i : Inode)
        → fs.files f ≡ some x
        → x.inode ≢ null
        → fs.inodes x.inode ≡ some i
        → (x.deny_write ≡ true) ⊎ (x.deny_write ≡ false)
        → (fs' : FileSystem) × (file_deny_write fs f ≡ some fs') × IsCounted fs' fl held
    go x i ex nx ei (inl e) = (fs, ground (arith, c.no_null), c)
    go x i ex nx ei (inr e) =
        let (le, fits) = room_to_deny fs fl held f x i c (ground (arith, c.once f)) ex ei e in
        let i' : Inode = record i { deny_write_cnt = (i.deny_write_cnt + 1) % 2 ^ 32 } in
        (
          set_both fs f (record x { deny_write = true }) i',
          deny_passes fs f x i (ground (arith, c.no_null)) ex ei e le fits,
          set_both-IsCounted fs fl held f x (record x { deny_write = true }) i i' c n ex ei refl nx
              refl (ground arith),
        )

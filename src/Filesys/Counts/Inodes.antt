-- ===== src/Filesys/Counts/Inodes.antt =====
-- inode_open gives one inode per sector and counts its openers.
use ee461s_projects.Common.{
  ℕ, ◌+◌, ◌%◌, ◌^◌, ◌<◌, ◌≡◌, ◌≢◌, refl, false, Option, none, some, List, [], ◌∷◌, ◌==◌, count,
  arith, ◌⊎◌, inl, inr, update, Bool-cases,
}
use ee461s_projects.Filesys.Inode.{Inode}
use ee461s_projects.Filesys.Store.{FileSystem, null}
use ee461s_projects.Filesys.OpenInodes.{
  set_inode, inode_open, inode_reopen, inode_disk_at, find_open,
}
use ee461s_projects.Filesys.Counts.Defs.{openers, IsCounted, denies≤opens}

-- The open inodes stand in the list, and only they.
pub record IsListed (fs : FileSystem) : Type 0 where
  pub listed : (a : ℕ) → count a fs.open_inodes ≢ 0 → (i : Inode) × (fs.inodes a ≡ some i)
  pub no_null : count null fs.open_inodes ≡ 0

find_open_lem :
    (inodes : ℕ → Option Inode) (sector : ℕ) (list : List ℕ)
    → ((a : ℕ) → count a list ≢ 0 → (i : Inode) × (inodes a ≡ some i))
    → count null list ≡ 0
    → (find_open inodes sector list ≡ some null)
      ⊎ ((a : ℕ) × (i : Inode) × (find_open inodes sector list ≡ some a)
          × (a ≢ null)
          × (inodes a ≡ some i)
          × (i.sector ≡ sector))
unfolding find_open
find_open_lem inodes sector [] l n = inl refl
find_open_lem inodes sector (x ∷ rest) l n =
    let (j, ej) = l x (ground arith) in
    let nx : x ≢ null = ground arith in
    elim (Bool-cases (j.sector == sector)) [
      | inl e ↦ inr (x, j, rw (ej, find_open) (rw e refl), nx, ej, ground arith)
      | inr e ↦ elim (find_open_lem inodes sector rest (λ a m. l a (ground arith)) (ground arith)) [
        | inl h ↦ inl (rw (ej, find_open) (rw (e, h) refl))
        | inr (a, i, h, na, ei, s) ↦ inr (a, i, rw (ej, find_open) (rw (e, h) refl), na, ei, s)
      ]
    ]

-- One more reference to an open inode.
more-IsCounted :
    (fs : FileSystem) (fl : List ℕ) (held : ℕ → ℕ) (a cnt : ℕ) (i : Inode)
    → IsCounted fs fl held
    → fs.inodes a ≡ some i
    → a ≢ null
    → cnt ≡ i.open_cnt + 1
    → cnt < 2 ^ 31
    → IsCounted (set_inode fs a (record i { open_cnt = cnt })) fl (update held a (held a + 1))
more-IsCounted fs fl held a cnt i c ei na e room =
    let (oc, dc, pos) = c.inode_open a i ei in
    record {
      once = c.once;
      file_open = c.file_open;
      file_closed = c.file_closed;
      no_null = ground (arith, c.no_null);
      inode_open = λ b j ej. elim (Bool-cases (b == a)) [
        | inl s ↦ ground arith
        | inr s ↦ ground (arith, c.inode_open b j)
      ];
      inode_closed = λ b eb. ground (arith, c.inode_closed b);
      fits = λ b. ground (arith, c.fits b);
    }

-- The first reference to an inode that was not open.
first-IsCounted :
    (fs : FileSystem) (fl : List ℕ) (held : ℕ → ℕ) (a : ℕ) (i : Inode) (list : List ℕ)
    → IsCounted fs fl held
    → fs.inodes a ≡ none
    → a ≢ null
    → i.open_cnt ≡ 1
    → i.deny_write_cnt ≡ 0
    → IsCounted (record (set_inode fs a i) { open_inodes = list }) fl (update held a (held a + 1))
first-IsCounted fs fl held a i list c ei na one zero_denied =
    let none_open = c.inode_closed a ei in
    let none_denied = denies≤opens a fs.files fl in
    record {
      once = c.once;
      file_open = c.file_open;
      file_closed = c.file_closed;
      no_null = ground (arith, c.no_null);
      inode_open = λ b j ej. elim (Bool-cases (b == a)) [
        | inl s ↦ ground arith
        | inr s ↦ ground (arith, c.inode_open b j)
      ];
      inode_closed = λ b eb. ground (arith, c.inode_closed b);
      fits = λ b. ground (arith, c.fits b);
    }

-- inode_open, with memory and below the limit of the counter, gives an inode of the sector, the open
-- one if there is one, and counts the new reference; the counters of all inodes stay right.
pub inode_open-IsCounted :
    (fs : FileSystem) (fl : List ℕ) (held : ℕ → ℕ) (fresh sector : ℕ)
    → IsCounted fs fl held
    → IsListed fs
    → fresh ≢ null
    → fs.inodes fresh ≡ none
    → ((a : ℕ) → openers fs.files a fl + held a + 1 < 2 ^ 31)
    → (a : ℕ) × (fs' : FileSystem) × (inode_open fs fresh sector ≡ some (a, fs'))
      × IsCounted fs' fl (update held a (held a + 1))
      × (i : Inode) × (fs'.inodes a ≡ some i)
      × (i.sector ≡ sector)
unfolding inode_open inode_reopen
inode_open-IsCounted fs fl held fresh sector c l nf free room =
    elim (find_open_lem fs.inodes sector fs.open_inodes l.listed l.no_null) [
      | inl h ↦
          let has_memory : (fresh == null) ≡ false = ground arith in
          let i : Inode = record {
            sector = sector;
            open_cnt = 1;
            removed = false;
            deny_write_cnt = 0;
            inode_data = inode_disk_at (fs.disk sector);
          } in
          (
            fresh,
            record (set_inode fs fresh i) { open_inodes = fresh ∷ fs.open_inodes },
            rw (h, inode_open) (rw (has_memory, inode_open) refl),
            first-IsCounted fs fl held fresh i (fresh ∷ fs.open_inodes) c free nf refl refl,
            i,
            ground arith,
            refl,
          )
      | inr (a, i, h, na, ei, s) ↦
          let (oc, dc, pos) = c.inode_open a i ei in
          let found : (a == null) ≡ false = ground arith in
          let cnt : ℕ = (i.open_cnt + 1) % 2 ^ 32 in
          let plus : cnt ≡ i.open_cnt + 1 = ground (arith, room a) in
          (
            a,
            set_inode fs a (record i { open_cnt = cnt }),
            rw (h, inode_open) (rw (found, inode_open) (rw (ei, inode_open) refl)),
            more-IsCounted fs fl held a cnt i c ei na plus (ground (arith, room a)),
            record i { open_cnt = cnt },
            ground arith,
            s,
          )
    ]

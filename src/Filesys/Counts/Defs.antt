-- ===== src/Filesys/Counts/Defs.antt =====
-- What open_cnt and deny_write_cnt of filesys/inode.c count.
use ee461s_projects.Common.{
  ℕ, ◌+◌, ◌^◌, ◌≤◌, ◌<◌, ◌≡◌, ◌≢◌, refl, Option, none, some, List, [], ◌∷◌, ◌==◌, ◌&&◌,
  if◌then◌else◌, count, sum, arith, Option-cases, Bool-cases, inl, inr,
}
use ee461s_projects.Filesys.Inode.{Inode}
use ee461s_projects.Filesys.Store.{File, FileSystem, null}

-- Whether a file has the inode `a` open, and whether it denies writes to it.
abbrev pub opens : ℕ → Option File → ℕ
opens a none = 0
opens a (some f) = if f.inode == a then 1 else 0

abbrev pub denies : ℕ → Option File → ℕ
denies a none = 0
denies a (some f) = if (f.inode == a) && f.deny_write then 1 else 0

-- How many of the files of a list do.
abbrev pub openers : (ℕ → Option File) → ℕ → List ℕ → ℕ
openers files a fl = sum (λ f. opens a (files f)) fl

abbrev pub deniers : (ℕ → Option File) → ℕ → List ℕ → ℕ
deniers files a fl = sum (λ f. denies a (files f)) fl

-- `fl` are the open files; `held a` is the number of references to the inode `a` that are not a file's,
-- such as one that inode_open gave and that file_open has not yet taken.
pub record IsCounted (fs : FileSystem) (fl : List ℕ) (held : ℕ → ℕ) : Type 0 where
  pub once : (f : ℕ) → count f fl ≤ 1
  pub file_open : (f : ℕ) → count f fl ≢ 0 → (x : File) × (fs.files f ≡ some x) × (x.inode ≢ null)
  pub file_closed : (f : ℕ) → count f fl ≡ 0 → fs.files f ≡ none
  pub no_null : (count null fl ≡ 0) × (held null ≡ 0)
  pub inode_open :
      (a : ℕ) (i : Inode)
      → fs.inodes a ≡ some i
      → (i.open_cnt ≡ openers fs.files a fl + held a)
        × (i.deny_write_cnt ≡ deniers fs.files a fl)
        × (0 < i.open_cnt)
  pub inode_closed : (a : ℕ) → fs.inodes a ≡ none → openers fs.files a fl + held a ≡ 0
  pub fits : (a : ℕ) → openers fs.files a fl + held a < 2 ^ 31

-- A file denies writes to an inode only if it has it open.
pub denies≤opens :
    (a : ℕ) (files : ℕ → Option File) (fl : List ℕ) → deniers files a fl ≤ openers files a fl
denies≤opens a files [] = omega arith
denies≤opens a files (f ∷ fl) = elim (Option-cases (files f)) [
  | inl e ↦ ground (arith, denies≤opens a files fl)
  | inr (x, e) ↦ ground (arith, denies≤opens a files fl)
]

-- A file of the list that has an inode open is counted.
pub opener_counted :
    (a f : ℕ) (files : ℕ → Option File) (fl : List ℕ)
    → count f fl ≢ 0
    → opens a (files f) ≤ openers files a fl
opener_counted a f files [] n = absurd (n refl)
opener_counted a f files (g ∷ fl) n = ground (arith, opener_counted a f files fl)

pub absent_of_closed :
    (fs : FileSystem) (fl : List ℕ) (held : ℕ → ℕ) (f : ℕ)
    → IsCounted fs fl held
    → fs.files f ≡ none
    → count f fl ≡ 0
absent_of_closed fs fl held f c e = elim (Bool-cases (count f fl == 0)) [
  | inl z ↦ ground arith
  | inr z ↦ let (x, ex, nx) = c.file_open f (ground arith) in absurd (ground arith)
]

-- An inode that a file has open is allocated.
pub inode_of_file :
    (fs : FileSystem) (fl : List ℕ) (held : ℕ → ℕ) (f : ℕ) (x : File)
    → IsCounted fs fl held
    → fs.files f ≡ some x
    → count f fl ≢ 0
    → (i : Inode) × (fs.inodes x.inode ≡ some i)
inode_of_file fs fl held f x c e n = elim (Option-cases (fs.inodes x.inode)) [
  | inl z ↦
      absurd (ground (arith, c.inode_closed x.inode z, opener_counted x.inode f fs.files fl n))
  | inr (i, ei) ↦ (i, ei)
]

pub denier_counted :
    (a f : ℕ) (files : ℕ → Option File) (fl : List ℕ)
    → count f fl ≢ 0
    → denies a (files f) ≤ deniers files a fl
denier_counted a f files [] n = absurd (n refl)
denier_counted a f files (g ∷ fl) n = ground (arith, denier_counted a f files fl)

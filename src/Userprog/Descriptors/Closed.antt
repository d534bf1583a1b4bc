-- ===== src/Userprog/Descriptors/Closed.antt =====
-- After close the descriptor is of no use to the system calls.
use ee461s_projects.Common.{
  ℕ, ◌≤◌, ◌≡◌, ◌≢◌, refl, sym, subst, ◌∙◌, ap, true, false, none, some, Option, List, [], ◌==◌,
  arith, inl, inr,
}
use ee461s_projects.Filesys.Store.{FileSystem}
use ee461s_projects.Filesys.File.{file_close}
use ee461s_projects.Userprog.Descriptors.{
  FdElement, Caller, minus_one, find_fd_element, read, write, filesize_get, seek, tell, close,
}
use ee461s_projects.Userprog.Descriptors.Table.{IsValid, find_absent, close-gone}

not-some : (o : Option FdElement) (e : FdElement) → o ≡ some e → o ≡ none → ⊥
not-some o e p q = cc

-- A descriptor in a valid table is none of the console's.
found-bound :
    (c : Caller) (fd : ℕ) (e : FdElement)
    → IsValid c
    → find_fd_element fd c.fd_table ≡ some e
    → 2 ≤ fd
found-bound c fd e v h =
    (v.given fd (λ z. not-some (find_fd_element fd c.fd_table) e h (find_absent fd c.fd_table z))).0

-- The calls on a descriptor that is not open: -1 or false, and nothing changes. tell goes on with NULL.
pub record IsUnusable (c : Caller) (fd : ℕ) : Type 0 where
  pub no_read : (keys : List ℕ) (size : ℕ) → read c keys fd size ≡ some ((minus_one, []), c)
  pub no_write : (buffer : List ℕ) (size : ℕ) → write c fd buffer size ≡ some (minus_one, c)
  pub no_size : filesize_get c fd ≡ some minus_one
  pub no_seek : (position : ℕ) → seek c fd position ≡ some (false, c)
  pub no_tell : (garbage eax : ℕ) → tell c garbage eax fd ≡ none
  pub no_close : close c fd ≡ some (false, c)

unusable : (c : Caller) (fd : ℕ) → 2 ≤ fd → find_fd_element fd c.fd_table ≡ none → IsUnusable c fd
unfolding read write filesize_get seek close tell
unusable c fd h e =
    let not_zero : (fd == 0) ≡ false = ground arith in
    let not_one : (fd == 1) ≡ false = ground arith in
    record {
      no_read = λ keys size. rw (not_zero, not_one, e, read) refl;
      no_write = λ buffer size. rw (not_zero, not_one, e, write) refl;
      no_size = rw (e, filesize_get) refl;
      no_seek = λ position. rw (e, seek) refl;
      no_tell = λ garbage eax. rw (e, tell) refl;
      no_close = rw (e, close) refl;
    }

-- close of an open descriptor of a valid table, when file_close of its file passes, returns true. On the
-- state that it leaves read, write and filesize of the descriptor give -1, seek and a second close give
-- false, and none of them changes anything; tell goes on with NULL. The other descriptors are as before.
pub close-IsUnusable :
    (c : Caller) (fd : ℕ) (e : FdElement) (fs : FileSystem)
    → IsValid c
    → find_fd_element fd c.fd_table ≡ some e
    → file_close c.fs e.fp ≡ some fs
    → (c' : Caller) × (close c fd ≡ some (true, c'))
      × IsUnusable c' fd
      × ((g : ℕ) → g ≢ fd → find_fd_element g c'.fd_table ≡ find_fd_element g c.fd_table)
      × IsValid c'
close-IsUnusable c fd e fs v h f = elim (close-gone c fd v closes) [
  | inl (n, same) ↦ absurd (not-some (find_fd_element fd c.fd_table) e h n)
  | inr (c', ok, gone, others, valid) ↦
      (c', ok, unusable c' fd (found-bound c fd e v h) gone, others, valid)
]
  where
    fp_of : FdElement → Option FdElement → ℕ
    fp_of d none = d.fp
    fp_of d (some x) = x.fp

    closes :
        (x : FdElement)
        → find_fd_element fd c.fd_table ≡ some x
        → (fs' : FileSystem) × (file_close c.fs x.fp ≡ some fs')
    closes x p =
        subst (λ a. (fs' : FileSystem) × (file_close c.fs a ≡ some fs')) (ap (fp_of e) (sym h ∙ p))
          (fs, f)

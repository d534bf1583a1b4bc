-- ===== src/Userprog/Descriptors/Table.antt =====
-- The table of file descriptors: new ones are fresh, and a closed one is gone.
use ee461s_projects.Common.{
  ℕ, ◌+◌, ◌%◌, ◌^◌, ◌<◌, ◌≤◌, ◌≡◌, ◌≢◌, refl, true, false, none, some, List, [], ◌∷◌, ◌++◌, ◌==◌,
  if◌then◌else◌, arith, Bool-cases, inl, inr, ◌⊎◌, Option-cases,
}
use ee461s_projects.Filesys.Store.{FileSystem, null}
use ee461s_projects.Filesys.File.{file_close}
use ee461s_projects.Userprog.Descriptors.{
  FdElement, Caller, minus_one, find_fd_element, remove_fd_element, add_file_to_fd_table, open_fd,
  close,
}

-- How many elements have a descriptor.
abbrev pub fd_count : ℕ → List FdElement → ℕ
fd_count fd [] = 0
fd_count fd (e ∷ rest) = (if e.fd == fd then 1 else 0) + fd_count fd rest

-- Each descriptor stands once and was given out by the counter, which starts at 2.
pub record IsValid (c : Caller) : Type 0 where
  pub once : (fd : ℕ) → fd_count fd c.fd_table ≤ 1
  pub given : (fd : ℕ) → fd_count fd c.fd_table ≢ 0 → (2 ≤ fd) × (fd < c.fd_table_counter)
  pub counter : 2 ≤ c.fd_table_counter

pub find_absent : (fd : ℕ) (t : List FdElement) → fd_count fd t ≡ 0 → find_fd_element fd t ≡ none
unfolding find_fd_element
find_absent fd [] n = refl
find_absent fd (e ∷ t) n = ground (arith, find_absent fd t)

fd_count-append :
    (fd : ℕ) (t : List FdElement) (e : FdElement)
    → fd_count fd (t ++ (e ∷ [])) ≡ fd_count fd t + (if e.fd == fd then 1 else 0)
fd_count-append fd [] e = omega arith
fd_count-append fd (x ∷ t) e = ground (arith, fd_count-append fd t e)

find-append :
    (fd : ℕ) (t : List FdElement) (e : FdElement)
    → fd_count e.fd t ≡ 0
    → find_fd_element fd (t ++ (e ∷ [])) ≡ (if e.fd == fd then some e else find_fd_element fd t)
unfolding find_fd_element
find-append fd [] e n = refl
find-append fd (x ∷ t) e n = ground (arith, find-append fd t e)

fd_count-remove :
    (fd g : ℕ) (t : List FdElement)
    → fd_count fd t ≤ 1
    → fd_count g (remove_fd_element fd t) ≡ (if g == fd then 0 else fd_count g t)
unfolding remove_fd_element
fd_count-remove fd g [] h = ground arith
fd_count-remove fd g (x ∷ t) h = ground (arith, fd_count-remove fd g t)

find-remove :
    (fd g : ℕ) (t : List FdElement)
    → fd_count fd t ≤ 1
    → find_fd_element g (remove_fd_element fd t) ≡ (if g == fd then none else find_fd_element g t)
unfolding remove_fd_element find_fd_element
find-remove fd g [] h = ground arith
find-remove fd g (x ∷ t) h = ground (arith, find-remove fd g t, find_absent fd t)

unused_counter : (c : Caller) → IsValid c → fd_count c.fd_table_counter c.fd_table ≡ 0
unused_counter c v = elim (Bool-cases (fd_count c.fd_table_counter c.fd_table == 0)) [
  | inl e ↦ ground arith
  | inr e ↦ absurd (ground (arith, v.given c.fd_table_counter))
]

-- open, when malloc gives the table element and the counter is below its limit: for a file that
-- filesys_open found, and for no NULL, it gives a descriptor of 2 or more that was not in use and leads to
-- the file, and leaves the other descriptors as they are; if filesys_open found none it returns -1 and
-- the table stays.
pub open_fd-fresh :
    (c : Caller) (fp : ℕ) (fs : FileSystem)
    → IsValid c
    → c.fd_table_counter < 2 ^ 31
    → ((fp ≡ null) × (open_fd c true fp fs ≡ some (minus_one, record c { fs = fs })))
      ⊎ ((fd : ℕ) × (c' : Caller) × (open_fd c true fp fs ≡ some (fd, c'))
          × (fp ≢ null)
          × (2 ≤ fd)
          × (find_fd_element fd c.fd_table ≡ none)
          × (find_fd_element fd c'.fd_table ≡ some (record { fd = fd; fp = fp }))
          × ((g : ℕ) → g ≢ fd → find_fd_element g c'.fd_table ≡ find_fd_element g c.fd_table)
          × (c'.fs ≡ fs)
          × IsValid c')
unfolding open_fd add_file_to_fd_table
open_fd-fresh c fp fs v room = elim (Bool-cases (fp == null)) [
  | inl e ↦ inl (ground arith, rw (e, open_fd) refl)
  | inr e ↦
      let fd : ℕ = c.fd_table_counter in
      let new_elem : FdElement = record { fd = fd; fp = fp } in
      let unused : fd_count fd c.fd_table ≡ 0 = unused_counter c v in
      let c' : Caller = record c {
        fs = fs;
        fd_table = c.fd_table ++ (new_elem ∷ []);
        fd_table_counter = (fd + 1) % 2 ^ 32;
      } in
      inr (
        fd,
        c',
        rw (e, open_fd) refl,
        λ n. ground arith,
        v.counter,
        find_absent fd c.fd_table unused,
        ground (arith, find-append fd c.fd_table new_elem unused),
        λ g ne. ground (arith, find-append g c.fd_table new_elem unused),
        refl,
        record {
          once = λ g. ground (arith, fd_count-append g c.fd_table new_elem, v.once g);
          given =
              λ g n. ground (arith, fd_count-append g c.fd_table new_elem, v.given g, v.counter);
          counter = ground (arith, v.counter);
        },
      )
]

-- close of an open descriptor whose file file_close takes returns true; the descriptor is gone and the
-- others stay. close of any other descriptor returns false and changes nothing.
pub close-gone :
    (c : Caller) (fd : ℕ)
    → IsValid c
    → ((e : FdElement)
        → find_fd_element fd c.fd_table ≡ some e
        → (fs : FileSystem) × (file_close c.fs e.fp ≡ some fs))
    → ((find_fd_element fd c.fd_table ≡ none) × (close c fd ≡ some (false, c)))
      ⊎ ((c' : Caller) × (close c fd ≡ some (true, c'))
          × (find_fd_element fd c'.fd_table ≡ none)
          × ((g : ℕ) → g ≢ fd → find_fd_element g c'.fd_table ≡ find_fd_element g c.fd_table)
          × IsValid c')
unfolding close
close-gone c fd v closes = elim (Option-cases (find_fd_element fd c.fd_table)) [
  | inl h ↦ inl (h, rw (h, close) refl)
  | inr (e, h) ↦
      let (fs, ef) = closes e h in
      inr (
        record c { fs = fs; fd_table = remove_fd_element fd c.fd_table },
        rw (h, close) (rw (ef, close) refl),
        ground (arith, find-remove fd fd c.fd_table (v.once fd)),
        λ g ne. ground (arith, find-remove fd g c.fd_table (v.once fd)),
        record {
          once = λ g. ground (arith, fd_count-remove fd g c.fd_table (v.once fd), v.once g);
          given = λ g n. ground (arith, fd_count-remove fd g c.fd_table (v.once fd), v.given g);
          counter = v.counter;
        },
      )
]

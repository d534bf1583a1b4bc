-- ===== src/Filesys/Directory/Slots.antt =====
-- filesys/directory.c: the free entries of a directory, and the entry that dir_add writes.
use ee461s_projects.Common.{
  ℕ, zero, suc, ◌+◌, ◌*◌, ◌-◌, ◌^◌, ◌≤◌, ◌<◌, ◌≡◌, ◌≢◌, refl, true, false, ◌&&◌, Option, none, some,
  List, [], ◌∷◌, ◌++◌, length, get_or, arith, ltb, leb, if◌then◌else◌, ap, ap₂, ◌∙◌, inl, inr,
  Bool-cases, range_of, range_of-congr, take-drop-eq-range_of, take_all, sym, get_or-append_right,
  length-append,
}
use ee461s_projects.Libc.Strings.{Sign, negative, equal, positive, strcmp}
use ee461s_projects.Libc.Strings.Texts.{NoNul, c_string, strcmp_self, strcmp-equal}
use ee461s_projects.Libc.Strings.Copies.{take_exact}
use ee461s_projects.Filesys.Inode.{Inode, Disk}
use ee461s_projects.Filesys.Inode.Read.{byte_at}
use ee461s_projects.Filesys.Inode.Splice.{Wrote}
use ee461s_projects.Filesys.Store.{le32, u32_at}
use ee461s_projects.Filesys.Directory.{entry_of, entry_name, entry_in_use}
use ee461s_projects.Filesys.Directory.Entries.{
  entries, IsEntry, matches, is_equal, has_free, free_ofs, replace_free,
}

pub length-range_of : (f : ℕ → ℕ) (o n : ℕ) → length (range_of f o n) ≡ n
length-range_of f o zero = refl
length-range_of f o (suc n) = omega (arith, length-range_of f (o + 1) n)

le-free_ofs : (es : List (List ℕ)) (ofs : ℕ) → ofs ≤ free_ofs es ofs
le-free_ofs [] ofs = omega arith
le-free_ofs (e ∷ es) ofs = ground (arith, le-free_ofs es (ofs + 20))

pub free_ofs-inside :
    (disk : Disk) (i : Inode) (ofs n : ℕ)
    → has_free (entries disk i ofs n) ≡ true
    → free_ofs (entries disk i ofs n) ofs + 20 ≤ ofs + n * 20
free_ofs-inside disk i ofs zero h = cc
free_ofs-inside disk i ofs (suc n) h =
    elim (Bool-cases (entry_in_use (range_of (byte_at disk i) ofs 20))) [
      | inl u ↦ rw u (let b = free_ofs-inside disk i (ofs + 20) n (rw u at h) in omega arith)
      | inr z ↦ rw z (omega arith)
    ]

module _ {disk disk' : Disk} {i : Inode} {new : List ℕ} {w : ℕ}
    (wrote : Wrote disk i new w 20 0 disk') where
  entries-after : (ofs n : ℕ) → w + 20 ≤ ofs → entries disk' i ofs n ≡ entries disk i ofs n
  entries-after ofs zero h = refl
  entries-after ofs (suc n) h =
      ap₂ (λ a b. a ∷ b)
        (range_of-congr (byte_at disk' i) (byte_at disk i) ofs ofs 20
          (λ k l. wrote.bytes (ofs + k) ∙ ground arith))
        (entries-after (ofs + 20) n (omega arith))

  entry-before :
      (ofs : ℕ)
      → ofs + 20 ≤ w
      → range_of (byte_at disk' i) ofs 20 ≡ range_of (byte_at disk i) ofs 20
  entry-before ofs h =
      range_of-congr (byte_at disk' i) (byte_at disk i) ofs ofs 20
        (λ k l. wrote.bytes (ofs + k) ∙ ground arith)

  entry_written : length new ≡ 20 → range_of (byte_at disk' i) w 20 ≡ new
  entry_written l =
      range_of-congr (byte_at disk' i) (λ k. get_or new k 0) w 0 20
        (λ k h. wrote.bytes (w + k) ∙ written k h)
      ∙ sym (take-drop-eq-range_of 20 0 new (omega arith))
      ∙ take_all 20 new (omega arith)
    where
      written :
          (k : ℕ)
          → k < 20
          → (if leb w (w + k) && ltb (w + k) (w + 20)
              then get_or new (0 + (w + k - w)) 0
              else byte_at disk i (w + k))
            ≡ get_or new (0 + k) 0
      written k h = ground arith

  pub entries-write :
      (ofs n : ℕ)
      → length new ≡ 20
      → has_free (entries disk i ofs n) ≡ true
      → w ≡ free_ofs (entries disk i ofs n) ofs
      → entries disk' i ofs n ≡ replace_free new (entries disk i ofs n)
  entries-write ofs zero l h e = refl
  entries-write ofs (suc n) l h e =
      elim (Bool-cases (entry_in_use (range_of (byte_at disk i) ofs 20))) [
        | inl u ↦
            (let e' : w ≡ free_ofs (entries disk i (ofs + 20) n) (ofs + 20) = rw u at e in
              rw u (
                ap₂ (λ a b. a ∷ b)
                  (entry-before ofs
                    (omega (arith, le-free_ofs (entries disk i (ofs + 20) n) (ofs + 20))))
                  (entries-write (ofs + 20) n l (rw u at h) e')))
        | inr z ↦
            (let e' : w ≡ ofs = rw z at e in
              rw z (
                ap₂ (λ a b. a ∷ b)
                  (ap (λ k. range_of (byte_at disk' i) k 20) (sym e') ∙ entry_written l)
                  (entries-after (ofs + 20) n (omega arith))))
      ]

-- The entry that dir_add writes.
pub u32-le32 : (w : ℕ) (rest : List ℕ) → w < 2 ^ 32 → u32_at (le32 w ++ rest) 0 ≡ w
u32-le32 w rest h = omega arith

module _ (sector : ℕ) (t d : List ℕ) (l : length (c_string t d) ≡ 15) (h : NoNul t) where
  abbrev new_entry : List ℕ
  new_entry = entry_of sector (c_string t d) 1

  pub new-length : length new_entry ≡ 20
  new-length = omega (arith, length-append (c_string t d) (1 ∷ []))

  new-name : entry_name new_entry ≡ c_string t d
  new-name = take_exact (c_string t d) (1 ∷ []) 15 (omega arith)

  new-in_use : entry_in_use new_entry ≡ true
  new-in_use = ground (arith, get_or-append_right (c_string t d) (1 ∷ []) 15 0 (omega arith))

  pub new-IsEntry : IsEntry new_entry
  new-IsEntry = (t, d, h, new-name)

  pub new-matches : matches t new_entry ≡ true
  new-matches = rw (new-in_use, new-name, strcmp_self t [] d h) refl

  is_equal-eq : (r : Option Sign) → is_equal r ≡ true → r ≡ some equal
  is_equal-eq none e = cc
  is_equal-eq (some negative) e = cc
  is_equal-eq (some equal) e = refl
  is_equal-eq (some positive) e = cc

  pub new-matches_other : (u : List ℕ) → NoNul u → u ≢ t → matches u new_entry ≡ false
  new-matches_other u k ne = elim (Bool-cases (is_equal (strcmp (c_string u []) (c_string t d)))) [
    | inl e ↦
        absurd
          (ne (strcmp-equal u t [] d k h (is_equal-eq (strcmp (c_string u []) (c_string t d)) e)))
    | inr e ↦ rw (new-in_use, new-name, e) refl
  ]

-- ===== src/Filesys/Directory/Entries.antt =====
-- filesys/directory.c: the entries of a directory as a list, and what a name finds in it.
use ee461s_projects.Common.{
  ℕ, zero, suc, ◌+◌, ◌≡◌, refl, Bool, true, false, ◌&&◌, Option, none, some, List, [], ◌∷◌, arith,
  if◌then◌else◌, inl, inr, Bool-cases, range_of,
}
use ee461s_projects.Libc.Strings.{Sign, negative, equal, positive, strcmp}
use ee461s_projects.Libc.Strings.Texts.{NoNul, c_string}
use ee461s_projects.Filesys.Inode.{Inode, Disk}
use ee461s_projects.Filesys.Inode.Read.{byte_at}
use ee461s_projects.Filesys.Directory.{entry_size, entry_name, entry_in_use}

-- The bytes of `n` entries from an offset on.
abbrev pub entries : Disk → Inode → (ofs n : ℕ) → List (List ℕ)
entries disk i ofs zero = []
entries disk i ofs (suc n) =
    range_of (byte_at disk i) ofs entry_size ∷ entries disk i (ofs + entry_size) n

-- The entry's name is a text with its zero byte.
abbrev pub IsEntry : List ℕ → Type 0
IsEntry e = (t : List ℕ) × (rest : List ℕ) × NoNul t × (entry_name e ≡ c_string t rest)

abbrev pub AllEntries : List (List ℕ) → Type 0
AllEntries [] = Unit {0}
AllEntries (e ∷ es) = IsEntry e × AllEntries es

abbrev pub is_equal : Option Sign → Bool
is_equal none = false
is_equal (some negative) = false
is_equal (some equal) = true
is_equal (some positive) = false

-- The entry is in use and has the name.
abbrev pub matches : List ℕ → List ℕ → Bool
matches t e = entry_in_use e && is_equal (strcmp (c_string t []) (entry_name e))

-- The first entry in use with the name, and its offset.
abbrev pub find : List ℕ → List (List ℕ) → (ofs : ℕ) → Option (List ℕ × ℕ)
find t [] ofs = none
find t (e ∷ es) ofs =
    let later = find t es (ofs + entry_size) in if matches t e then some (e, ofs) else later

-- Whether an entry is free, the offset of the first, and the entries with that one replaced.
abbrev pub has_free : List (List ℕ) → Bool
has_free [] = false
has_free (e ∷ es) = let later = has_free es in if entry_in_use e then later else true

abbrev pub free_ofs : List (List ℕ) → ℕ → ℕ
free_ofs [] ofs = ofs
free_ofs (e ∷ es) ofs =
    let later = free_ofs es (ofs + entry_size) in if entry_in_use e then later else ofs

abbrev pub replace_free : List ℕ → List (List ℕ) → List (List ℕ)
replace_free new [] = []
replace_free new (e ∷ es) =
    let later = e ∷ replace_free new es in if entry_in_use e then later else new ∷ es

-- A new entry is found by its name.
pub find-replace_free :
    (t : List ℕ) (new : List ℕ) (es : List (List ℕ)) (ofs : ℕ)
    → matches t new ≡ true
    → has_free es ≡ true
    → find t es ofs ≡ none
    → find t (replace_free new es) ofs ≡ some (new, free_ofs es ofs)
find-replace_free t new [] ofs m h n = absurd (ground arith)
find-replace_free t new (e ∷ es) ofs m h n = elim (Bool-cases (entry_in_use e)) [
  | inl u ↦ ground (arith, u, find-replace_free t new es (ofs + entry_size) m)
  | inr f ↦ ground (arith, f)
]

-- It changes nothing for another name.
pub find-replace_free_other :
    (u : List ℕ) (new : List ℕ) (es : List (List ℕ)) (ofs : ℕ)
    → matches u new ≡ false
    → find u (replace_free new es) ofs ≡ find u es ofs
find-replace_free_other u new [] ofs m = refl
find-replace_free_other u new (e ∷ es) ofs m = elim (Bool-cases (entry_in_use e)) [
  | inl i ↦ ground (arith, i, find-replace_free_other u new es (ofs + entry_size) m)
  | inr f ↦ ground (arith, f)
]

pub replace_free-AllEntries :
    (new : List ℕ) (es : List (List ℕ))
    → IsEntry new
    → AllEntries es
    → AllEntries (replace_free new es)
replace_free-AllEntries new [] n a = tt
replace_free-AllEntries new (e ∷ es) n a = elim (Bool-cases (entry_in_use e)) [
  | inl u ↦ rw u (a.0, replace_free-AllEntries new es n a.1)
  | inr f ↦ rw f (n, a.1)
]

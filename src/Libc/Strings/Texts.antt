-- ===== src/Libc/Strings/Texts.antt =====
-- lib/string.c: strlen and strcmp on the characters in front of the zero byte.
use ee461s_projects.Common.{
  ℕ, ◌+◌, ◌≡◌, ◌≢◌, refl, false, some, List, [], ◌∷◌, ◌++◌, length, arith, ltb, ◌==◌, if◌then◌else◌,
  ap, ◌∙◌, inl, inr, Bool-cases,
}
use ee461s_projects.Libc.Strings.{Sign, negative, equal, positive, strlen, strlen_from, strcmp}

-- No character is the zero byte.
abbrev pub NoNul : List ℕ → Type 0
NoNul [] = Unit {0}
NoNul (c ∷ t) = (c ≢ 0) × NoNul t

-- A text in memory, with what follows it in its object.
abbrev pub c_string : List ℕ → List ℕ → List ℕ
c_string t rest = t ++ (0 ∷ rest)

strlen_from_lem :
    (t rest : List ℕ) (n : ℕ) → NoNul t → strlen_from (c_string t rest) n ≡ some (n + length t)
unfolding strlen_from
strlen_from_lem [] rest n h = ap some (omega arith)
strlen_from_lem (c ∷ t) rest n h =
    let ne : (c == 0) ≡ false = ground (arith, h.0) in
    rw ne (strlen_from_lem t rest (n + 1) h.1 ∙ ap some (omega arith))

pub strlen_lem : (t rest : List ℕ) → NoNul t → strlen (c_string t rest) ≡ some (length t)
unfolding strlen
strlen_lem t rest h = strlen_from_lem t rest 0 h ∙ ap some (omega arith)

pub strcmp_self :
    (t rest rest' : List ℕ) → NoNul t → strcmp (c_string t rest) (c_string t rest') ≡ some equal
unfolding strcmp
strcmp_self [] rest rest' h = ground arith
strcmp_self (c ∷ t) rest rest' h = ground (arith, strcmp_self t rest rest' h.1, h.0)

-- Two texts that strcmp calls equal are the same.
pub strcmp-equal :
    (t u rest rest' : List ℕ)
    → NoNul t
    → NoNul u
    → strcmp (c_string t rest) (c_string u rest') ≡ some equal
    → t ≡ u
unfolding strcmp
strcmp-equal [] [] rest rest' h k e = refl
strcmp-equal [] (d ∷ u) rest rest' h k e = ground (arith, k.0)
strcmp-equal (c ∷ t) [] rest rest' h k e = ground (arith, h.0)
strcmp-equal (c ∷ t) (d ∷ u) rest rest' h k e =
    ground (arith, h.0, k.0, strcmp-equal t u rest rest' h.1 k.1)

-- strcmp of two texts returns.
pub strcmp-returns :
    (t u rest rest' : List ℕ)
    → NoNul t
    → NoNul u
    → (r : Sign) × (strcmp (c_string t rest) (c_string u rest') ≡ some r)
unfolding strcmp
strcmp-returns [] [] rest rest' h k = (equal, ground arith)
strcmp-returns [] (d ∷ u) rest rest' h k = (negative, ground (arith, k.0))
strcmp-returns (c ∷ t) [] rest rest' h k = (positive, ground (arith, h.0))
strcmp-returns (c ∷ t) (d ∷ u) rest rest' h k = elim (Bool-cases (c == d)) [
  | inl e ↦ (let r = strcmp-returns t u rest rest' h.1 k.1 in (r.0, ground (arith, h.0, r.1)))
  | inr e ↦ (if ltb c d then negative else if ltb d c then positive else equal, ground (arith, h.0))
]

-- What stands behind the zero bytes does not matter.
pub strcmp-rest :
    (t u r r' s s' : List ℕ)
    → NoNul t
    → NoNul u
    → strcmp (c_string t r) (c_string u s) ≡ strcmp (c_string t r') (c_string u s')
unfolding strcmp
strcmp-rest [] [] r r' s s' h k = ground arith
strcmp-rest [] (d ∷ u) r r' s s' h k = ground arith
strcmp-rest (c ∷ t) [] r r' s s' h k = ground (arith, h.0)
strcmp-rest (c ∷ t) (d ∷ u) r r' s s' h k = ground (arith, strcmp-rest t u r r' s s' h.1 k.1)

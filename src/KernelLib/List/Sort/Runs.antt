-- ===== src/KernelLib/List/Sort/Runs.antt =====
-- lib/kernel/list.c: the runs that list_sort works with, on lists of elements.
use ee461s_projects.Common.{
  ℕ, ◌+◌, ◌≤◌, ◌≡◌, refl, Bool, true, false, List, [], ◌∷◌, ◌++◌, if◌then◌else◌, arith, count,
  length, inl, inr, Bool-cases,
}

module _ (less : ℕ → ℕ → Bool) where
  -- No element is less than the one before it.
  abbrev pub Ascends : ℕ → List ℕ → Type 0
  Ascends x [] = Unit {0}
  Ascends x (y ∷ ys) = (less y x ≡ false) × Ascends y ys

  abbrev pub IsAscending : List ℕ → Type 0
  IsAscending [] = Unit {0}
  IsAscending (x ∷ xs) = Ascends x xs

  -- What continues a run that has come to `x`, and what follows the run.
  abbrev pub run : ℕ → List ℕ → List ℕ
  run x [] = []
  run x (y ∷ ys) = if less y x then [] else y ∷ run y ys

  abbrev pub after_run : ℕ → List ℕ → List ℕ
  after_run x [] = []
  after_run x (y ∷ ys) = if less y x then y ∷ ys else after_run y ys

  abbrev pub descents : ℕ → List ℕ → ℕ
  descents x [] = 0
  descents x (y ∷ ys) = (if less y x then 1 else 0) + descents y ys

  -- The number of runs.
  abbrev pub runs : List ℕ → ℕ
  runs [] = 0
  runs (x ∷ xs) = 1 + descents x xs

  abbrev pub merge : List ℕ → List ℕ → List ℕ
  merge [] bs = bs
  merge (a ∷ as') [] = a ∷ as'
  merge (a ∷ as') (b ∷ bs) =
      let moved = b ∷ merge (a ∷ as') bs in
      let kept = a ∷ merge as' (b ∷ bs) in if less b a then moved else kept

module _ (less : ℕ → ℕ → Bool) where
  pub run-append-after_run : (x : ℕ) (xs : List ℕ) → run less x xs ++ after_run less x xs ≡ xs
  run-append-after_run x [] = refl
  run-append-after_run x (y ∷ ys) = ground (arith, run-append-after_run y ys)

  pub run-Ascends : (x : ℕ) (xs : List ℕ) → Ascends less x (run less x xs)
  run-Ascends x [] = tt
  run-Ascends x (y ∷ ys) = elim (Bool-cases (less y x)) [
    | inl e ↦ rw e tt
    | inr e ↦ rw e (e, run-Ascends y ys)
  ]

  pub descents-after_run :
      (x : ℕ) (xs : List ℕ) → descents less x xs ≡ runs less (after_run less x xs)
  descents-after_run x [] = refl
  descents-after_run x (y ∷ ys) = ground (arith, descents-after_run y ys)

  pub descents-append :
      (x : ℕ) (xs ys : List ℕ) → Ascends less x xs → descents less x (xs ++ ys) ≤ runs less ys
  descents-append x [] [] h = omega arith
  descents-append x [] (y ∷ ys) h = ground arith
  descents-append x (z ∷ xs) ys h = ground (arith, descents-append z xs ys h.1)

  pub descents-Ascends : (x : ℕ) (xs : List ℕ) → descents less x xs ≡ 0 → Ascends less x xs
  descents-Ascends x [] h = tt
  descents-Ascends x (y ∷ ys) h = (ground arith, descents-Ascends y ys (ground arith))

  pub runs-IsAscending : (xs : List ℕ) → runs less xs ≤ 1 → IsAscending less xs
  runs-IsAscending [] h = tt
  runs-IsAscending (x ∷ xs) h = descents-Ascends x xs (omega arith)

  pub runs-append : (xs ys : List ℕ) → IsAscending less xs → runs less (xs ++ ys) ≤ 1 + runs less ys
  runs-append [] ys h = omega arith
  runs-append (x ∷ xs) ys h = omega (arith, descents-append x xs ys h)

  pub descents-le-length : (x : ℕ) (xs : List ℕ) → descents less x xs ≤ length xs
  descents-le-length x [] = omega arith
  descents-le-length x (y ∷ ys) = ground (arith, descents-le-length y ys)

  pub runs-le-length : (xs : List ℕ) → runs less xs ≤ length xs
  runs-le-length [] = omega arith
  runs-le-length (x ∷ xs) = omega (arith, descents-le-length x xs)

  pub count-merge : (e : ℕ) (xs ys : List ℕ) → count e (merge less xs ys) ≡ count e xs + count e ys
  count-merge e [] ys = omega arith
  count-merge e (x ∷ xs) [] = omega arith
  count-merge e (x ∷ xs) (y ∷ ys) =
      ground (arith, count-merge e (x ∷ xs) ys, count-merge e xs (y ∷ ys))

  pub length-merge : (xs ys : List ℕ) → length (merge less xs ys) ≡ length xs + length ys
  length-merge [] ys = omega arith
  length-merge (x ∷ xs) [] = omega arith
  length-merge (x ∷ xs) (y ∷ ys) =
      ground (arith, length-merge (x ∷ xs) ys, length-merge xs (y ∷ ys))

  module _ (asym : (x y : ℕ) → less x y ≡ true → less y x ≡ false) where
    merge-Ascends :
        (p : ℕ) (xs ys : List ℕ)
        → Ascends less p xs
        → Ascends less p ys
        → Ascends less p (merge less xs ys)
    merge-Ascends p [] ys h k = k
    merge-Ascends p (x ∷ xs) [] h k = h
    merge-Ascends p (x ∷ xs) (y ∷ ys) h k = elim (Bool-cases (less y x)) [
      | inl e ↦ rw e (k.0, merge-Ascends y (x ∷ xs) ys (asym y x e, h.1) k.1)
      | inr e ↦ rw e (h.0, merge-Ascends x xs (y ∷ ys) h.1 (e, k.1))
    ]

    pub merge-IsAscending :
        (xs ys : List ℕ)
        → IsAscending less xs
        → IsAscending less ys
        → IsAscending less (merge less xs ys)
    merge-IsAscending [] ys h k = k
    merge-IsAscending (x ∷ xs) [] h k = h
    merge-IsAscending (x ∷ xs) (y ∷ ys) h k = elim (Bool-cases (less y x)) [
      | inl e ↦ rw e (merge-Ascends y (x ∷ xs) ys (asym y x e, h) k)
      | inr e ↦ rw e (merge-Ascends x xs (y ∷ ys) h (e, k))
    ]

-- ===== src/KernelLib/List/Unique.antt =====
-- lib/kernel/list.c: list_unique, where the duplicates are not kept.
use ee461s_projects.Common.{
  ℕ, zero, suc, ◌<◌, ◌≡◌, some, none, List, [], ◌∷◌, ◌++◌, length, arith, if◌then◌else◌, not, ◌&&◌,
  Bool, subst, append_assoc, inl, inr, Bool-cases,
}
use ee461s_projects.KernelLib.List.{Links, LinkedList, list_empty, list_unique, unique_loop}
use ee461s_projects.KernelLib.List.Chain.{IsList}
use ee461s_projects.KernelLib.List.Walk.{list_next_lem, list_begin_lem, not-end, step-IsList}
use ee461s_projects.KernelLib.List.Remove.{list_remove_lem}

module _ (less : ℕ → ℕ → Bool) where
  -- The elements without those that equal the last one kept.
  abbrev pub unique : ℕ → List ℕ → List ℕ
  unique e [] = []
  unique e (x ∷ xs) =
      let dropped = unique e xs in
      let kept = x ∷ unique x xs in if not (less e x) && not (less x e) then dropped else kept

  unique_loop_lem :
      (fuel : ℕ) {m : Links} {list : LinkedList} (xs : List ℕ) (e : ℕ) (ys : List ℕ)
      → IsList m list (xs ++ (e ∷ ys))
      → length ys < fuel
      → (m' : Links) × (unique_loop less fuel m list none e ≡ some m')
        × IsList m' list (xs ++ (e ∷ unique e ys))
  unfolding unique_loop
  unique_loop_lem zero xs e ys v f = absurd (omega arith)
  unique_loop_lem (suc fuel) {m} {list} xs e [] v f =
      (m, ground (arith, list_next_lem xs [] e v), v)
  unique_loop_lem (suc fuel) {m} {list} xs e (y ∷ ys) v f =
      let w = step-IsList xs (y ∷ ys) e v in
      elim (Bool-cases (not (less e y) && not (less y e))) [
        | inl d ↦
            (let k = list_remove_lem (xs ++ (e ∷ [])) ys y w in
              let r =
                unique_loop_lem fuel xs e ys
                  (subst (λ l. IsList k.0 list l) (append_assoc xs (e ∷ []) ys) k.2)
                  (omega arith) in
              (
                r.0,
                rw (list_next_lem xs (y ∷ ys) e v, not-end (xs ++ (e ∷ [])) ys y w, d, k.1) r.1,
                rw d r.2,
              ))
        | inr n ↦
            (let r = unique_loop_lem fuel (xs ++ (e ∷ [])) y ys w (omega arith) in
              (
                r.0,
                rw (list_next_lem xs (y ∷ ys) e v, not-end (xs ++ (e ∷ [])) ys y w, n) r.1,
                rw n (
                    subst (λ l. IsList r.0 list l) (append_assoc xs (e ∷ []) (y ∷ unique y ys))
                      r.2),
              ))
      ]

  -- list_unique with no list for the duplicates keeps the first of each run of equal elements.
  pub list_unique_lem :
      (fuel : ℕ) {m : Links} {list : LinkedList} (x : ℕ) (xs : List ℕ)
      → IsList m list (x ∷ xs)
      → length xs < fuel
      → (m' : Links) × (list_unique less fuel m list none ≡ some m')
        × IsList m' list (x ∷ unique x xs)
  unfolding list_unique list_empty
  list_unique_lem fuel {m} {list} x xs v f =
      let r = unique_loop_lem fuel [] x xs v f in
      (r.0, rw (list_begin_lem (x ∷ xs) v, not-end [] xs x v) r.1, r.2)

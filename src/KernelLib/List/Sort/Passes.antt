-- ===== src/KernelLib/List/Sort/Passes.antt =====
-- lib/kernel/list.c: the passes of list_sort, and list_sort itself.
use ee461s_projects.Common.{
  ℕ, zero, suc, ◌+◌, ◌≤◌, ◌<◌, ◌≡◌, refl, some, List, [], ◌∷◌, ◌++◌, count, count-append, length,
  length-append, arith, Bool, true, false, subst, sym, append_assoc, ap, ◌∙◌, inl, inr, ◌⊎◌,
  ==-self,
}
use ee461s_projects.KernelLib.List.{Links, LinkedList}
use ee461s_projects.KernelLib.List.Chain.{first, IsList}
use ee461s_projects.KernelLib.List.Walk.{not-end}
use ee461s_projects.KernelLib.List.Sort.{pass_loop}
use ee461s_projects.KernelLib.List.Sort.Runs
use ee461s_projects.KernelLib.List.Sort.Runs.{Ascends, IsAscending, run, after_run, runs, merge}
use ee461s_projects.KernelLib.List.Sort.Merge.{find_end_of_run_lem, inplace_merge_lem}

module _ (less : ℕ → ℕ → Bool) where
  -- What a pass puts out for `ys`: `zs`, with `c` runs at most.
  pub record IsPass (ys zs : List ℕ) (c : ℕ) : Type 0 where
    pub same : (e : ℕ) → count e zs ≡ count e ys
    pub same_length : length zs ≡ length ys
    pub below : runs less zs ≤ c
    pub halved : c + c ≤ runs less ys + 1

  module _ (asym : (x y : ℕ) → less x y ≡ true → less y x ≡ false) where
    IsPass-empty : IsPass [] [] 0
    IsPass-empty = record {
      same = λ e. refl;
      same_length = refl;
      below = omega arith;
      halved = omega arith;
    }

    module _ (x : ℕ) (xs : List ℕ) where
      IsPass-last : after_run less x xs ≡ [] → IsPass (x ∷ xs) (x ∷ xs) 1
      IsPass-last e = record {
        same = λ e. refl;
        same_length = refl;
        below = ground (arith, Runs.descents-after_run less x xs, ap (runs less) e);
        halved = omega arith;
      }

      IsPass-merge :
          (y : ℕ) (ys zs : List ℕ) (c : ℕ)
          → after_run less x xs ≡ y ∷ ys
          → IsPass (after_run less y ys) zs c
          → IsPass (x ∷ xs) (merge less (x ∷ run less x xs) (y ∷ run less y ys) ++ zs) (c + 1)
      IsPass-merge y ys zs c e p = record {
        same = λ a. ground (
          arith,
          p.same a,
          count-append a (merge less (x ∷ run less x xs) (y ∷ run less y ys)) zs,
          Runs.count-merge less a (x ∷ run less x xs) (y ∷ run less y ys),
          ap (count a) e,
          ap (count a) (Runs.run-append-after_run less x xs),
          count-append a (run less x xs) (after_run less x xs),
          ap (count a) (Runs.run-append-after_run less y ys),
          count-append a (run less y ys) (after_run less y ys),
        );
        same_length = omega (
          arith,
          p.same_length,
          length-append (merge less (x ∷ run less x xs) (y ∷ run less y ys)) zs,
          Runs.length-merge less (x ∷ run less x xs) (y ∷ run less y ys),
          ap (length {A = ℕ}) e,
          ap (length {A = ℕ}) (Runs.run-append-after_run less x xs),
          length-append (run less x xs) (after_run less x xs),
          ap (length {A = ℕ}) (Runs.run-append-after_run less y ys),
          length-append (run less y ys) (after_run less y ys),
        );
        below = omega (
          arith,
          p.below,
          Runs.runs-append less (merge less (x ∷ run less x xs) (y ∷ run less y ys)) zs (
              Runs.merge-IsAscending less asym (x ∷ run less x xs) (y ∷ run less y ys)
                (Runs.run-Ascends less x xs) (Runs.run-Ascends less y ys)),
        );
        halved = omega (
          arith,
          p.halved,
          Runs.descents-after_run less x xs,
          Runs.descents-after_run less y ys,
          ap (runs less) e,
        );
      }

      module _ (y : ℕ) (ys : List ℕ) (e : after_run less x xs ≡ y ∷ ys) where
        two_runs : (x ∷ run less x xs) ++ ((y ∷ run less y ys) ++ after_run less y ys) ≡ x ∷ xs
        two_runs =
            ap (λ l. x ∷ (run less x xs ++ (y ∷ l))) (Runs.run-append-after_run less y ys)
            ∙ ap (λ l. x ∷ (run less x xs ++ l)) (sym e)
            ∙ ap (λ l. x ∷ l) (Runs.run-append-after_run less x xs)

        two_runs_length :
            length (run less x xs) + length (run less y ys) + length (after_run less y ys) + 1
            ≡ length xs
        two_runs_length = omega (
          arith,
          ap (length {A = ℕ}) two_runs,
          length-append (run less x xs) ((y ∷ run less y ys) ++ after_run less y ys),
          length-append (run less y ys) (after_run less y ys),
        )

    List-cases : (l : List ℕ) → (l ≡ []) ⊎ ((y : ℕ) × (ys : List ℕ) × (l ≡ y ∷ ys))
    List-cases [] = inl refl
    List-cases (y ∷ ys) = inr (y, ys, refl)

    -- The list's elements are again those before the pass's place, then what it puts out.
    abbrev pub PassResult : (rounds fuel : ℕ) → Links → LinkedList → (xs ys : List ℕ) → ℕ → Type 0
    PassResult rounds fuel m list xs ys cnt =
        (m' : Links) × (c : ℕ) × (zs : List ℕ) × (pass_loop less rounds fuel m list
            (first ys list.tail) cnt
          ≡ some (cnt + c, m'))
        × IsList m' list (xs ++ zs)
        × IsPass ys zs c

    module _ (rounds fuel : ℕ) {m : Links} {list : LinkedList} (xs : List ℕ) (x : ℕ) (ys : List ℕ)
        (cnt : ℕ) (v : IsList m list (xs ++ (x ∷ ys))) (f : length ys < fuel) where
      pass_stops : after_run less x ys ≡ [] → PassResult (suc rounds) fuel m list xs (x ∷ ys) cnt
      unfolding pass_loop
      pass_stops e = (
        m,
        1,
        x ∷ ys,
        rw (not-end xs ys x v, find_end_of_run_lem less fuel xs x ys v f, e, ==-self list.tail)
            refl,
        v,
        IsPass-last x ys e,
      )

    pub pass_loop_lem :
        (rounds fuel : ℕ) {m : Links} {list : LinkedList} (xs ys : List ℕ) (cnt : ℕ)
        → IsList m list (xs ++ ys)
        → length ys < rounds
        → length ys < fuel
        → PassResult rounds fuel m list xs ys cnt
    unfolding pass_loop
    pass_loop_lem zero fuel xs ys cnt v h f = absurd (omega arith)
    pass_loop_lem (suc rounds) fuel {m} {list} xs [] cnt v h f =
        (m, 0, [], rw (==-self list.tail) (ap (λ c. some (c, m)) (omega arith)), v, IsPass-empty)
    pass_loop_lem (suc rounds) fuel {m} {list} xs (x ∷ ys) cnt v h f =
        elim (List-cases (after_run less x ys)) [
          | inl e ↦ pass_stops rounds fuel xs x ys cnt v (omega arith) e
          | inr (y, zs, e) ↦
              let w = subst (λ l. IsList m list (xs ++ l)) (sym (two_runs x ys y zs e)) v in
              let u =
                subst (λ l. IsList m list ((xs ++ (x ∷ run less x ys)) ++ (y ∷ l)))
                  (Runs.run-append-after_run less y zs)
                  (subst (λ l. IsList m list l)
                    (sym (
                      append_assoc xs (x ∷ run less x ys)
                        ((y ∷ run less y zs) ++ after_run less y zs)))
                    w) in
              let n = two_runs_length x ys y zs e in
              let k =
                inplace_merge_lem less fuel xs (x ∷ run less x ys) (y ∷ run less y zs)
                  (after_run less y zs) w (omega arith) (Runs.run-Ascends less x ys)
                  (Runs.run-Ascends less y zs) in
              let merged = merge less (x ∷ run less x ys) (y ∷ run less y zs) in
              let p =
                pass_loop_lem rounds fuel (xs ++ merged) (after_run less y zs) (cnt + 1)
                  (subst (λ l. IsList k.0 list l)
                    (sym (append_assoc xs merged (after_run less y zs))) k.2)
                  (omega arith) (omega arith) in
              (
                p.0,
                p.1 + 1,
                merged ++ p.2,
                rw
                    (
                      not-end xs ys x v,
                      find_end_of_run_lem less fuel xs x ys v (omega arith),
                      e,
                      not-end (xs ++ (x ∷ run less x ys)) zs y u,
                      find_end_of_run_lem less fuel (xs ++ (x ∷ run less x ys)) y zs u (
                          omega (
                            arith,
                            ap (length {A = ℕ}) (Runs.run-append-after_run less y zs),
                            length-append (run less y zs) (after_run less y zs),
                          )),
                      k.1,
                    )
                    (p.3 ∙ ap (λ c. some (c, p.0)) (omega arith)),
                subst (λ l. IsList p.0 list l) (append_assoc xs merged p.2) p.4,
                IsPass-merge x ys y zs p.2 p.1 e p.5,
              )
        ]

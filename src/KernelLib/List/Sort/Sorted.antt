-- ===== src/KernelLib/List/Sort/Sorted.antt =====
-- lib/kernel/list.c: list_sort ends, passes its ASSERTs and sorts.
use ee461s_projects.Common.{
  ℕ, zero, suc, ◌+◌, ◌≤◌, ◌<◌, ◌≡◌, refl, some, List, [], count, length, arith, ltb, Bool, true,
  false, subst, append-nil, ap, ◌∙◌, inl, inr, Bool-cases, sym,
}
use ee461s_projects.KernelLib.List.{Links, LinkedList}
use ee461s_projects.KernelLib.List.Chain.{first, IsList}
use ee461s_projects.KernelLib.List.Walk.{list_begin_lem}
use ee461s_projects.KernelLib.List.Sort.{is_sorted, sort_loop, list_sort}
use ee461s_projects.KernelLib.List.Sort.Runs
use ee461s_projects.KernelLib.List.Sort.Runs.{IsAscending, runs}
use ee461s_projects.KernelLib.List.Sort.Merge.{is_sorted_lem}
use ee461s_projects.KernelLib.List.Sort.Passes.{pass_loop_lem}

module _ (less : ℕ → ℕ → Bool) (asym : (x y : ℕ) → less x y ≡ true → less y x ≡ false) (fuel : ℕ)
    {list : LinkedList} where
  sort_loop_lem :
      (rounds : ℕ) {m : Links} (xs : List ℕ)
      → IsList m list xs
      → runs less xs < rounds
      → length xs < fuel
      → (m' : Links) × (zs : List ℕ) × (sort_loop less rounds fuel m list ≡ some m')
        × IsList m' list zs
        × ((e : ℕ) → count e zs ≡ count e xs)
        × (length zs ≡ length xs)
        × (runs less zs ≤ 1)
  unfolding sort_loop
  sort_loop_lem zero xs v h f = absurd (omega arith)
  sort_loop_lem (suc rounds) {m} xs v h f =
      let p = pass_loop_lem less asym fuel fuel [] xs 0 v f f in
      let q = p.5 in
      elim (Bool-cases (ltb 1 (0 + p.1))) [
        | inl more ↦
            (let r =
                sort_loop_lem rounds p.2 p.4 (ground (arith, q.below, q.halved))
                  (omega (arith, q.same_length)) in
              (
                r.0,
                r.1,
                rw (list_begin_lem xs v, p.3, more) r.2,
                r.3,
                λ e. r.4 e ∙ q.same e,
                r.5 ∙ q.same_length,
                r.6,
              ))
        | inr done ↦ (
          p.0,
          p.2,
          rw (list_begin_lem xs v, p.3, done) refl,
          p.4,
          q.same,
          q.same_length,
          ground (arith, q.below),
        )
      ]

-- With an order in which no two elements are each less than the other, and fuel above the
-- number of elements, list_sort returns: its ASSERTs hold, the list is well linked, it has the
-- elements it had before, each as often, and no element is less than the one before it.
pub list_sort_lem :
    (less : ℕ → ℕ → Bool) (asym : (x y : ℕ) → less x y ≡ true → less y x ≡ false) (fuel : ℕ)
    {m : Links} {list : LinkedList} (xs : List ℕ)
    → IsList m list xs
    → length xs < fuel
    → (m' : Links) × (zs : List ℕ) × (list_sort less fuel m list ≡ some m')
      × IsList m' list zs
      × ((e : ℕ) → count e zs ≡ count e xs)
      × IsAscending less zs
unfolding list_sort
list_sort_lem less asym fuel {m} {list} xs v f =
    let r = sort_loop_lem less asym fuel fuel xs v (omega (arith, Runs.runs-le-length less xs)) f in
    let s = Runs.runs-IsAscending less r.1 r.6 in
    let o : is_sorted less fuel r.0 (first r.1 list.tail) list.tail ≡ some true =
      ap (λ l. is_sorted less fuel r.0 (first l list.tail) list.tail) (sym (append-nil r.1))
      ∙ is_sorted_lem less fuel [] r.1 []
          (subst (λ l. IsList r.0 list l) (sym (append-nil r.1)) r.3) (omega (arith, r.5)) s in
    (r.0, r.1, rw (r.2, list_begin_lem r.1 r.3, o) refl, r.3, r.4, s)

-- ===== src/KernelLib/List/Sort/Merge.antt =====
-- lib/kernel/list.c: is_sorted, find_end_of_run and inplace_merge on the elements of a list.
use ee461s_projects.Common.{
  ℕ, zero, suc, ◌+◌, ◌<◌, ◌≡◌, refl, some, List, [], ◌∷◌, ◌++◌, count-append, length, arith, ◌==◌,
  Bool, true, false, subst, sym, append_assoc, inl, inr, Bool-cases, ==-self,
}
use ee461s_projects.KernelLib.List.{Links, LinkedList}
use ee461s_projects.KernelLib.List.Chain.{first, IsList, first-count, nodes-count}
use ee461s_projects.KernelLib.List.Walk.{list_next_lem, not-end, step-IsList}
use ee461s_projects.KernelLib.List.Sort.{
  is_sorted, sorted_loop, run_loop, find_end_of_run, merge_loop, inplace_merge,
}
use ee461s_projects.KernelLib.List.Sort.Runs.{Ascends, IsAscending, after_run, merge}
use ee461s_projects.KernelLib.List.Sort.Splice.{list_prev_lem, list_splice_lem}

-- An element is not the one that follows some later elements, nor NULL.
pub apart :
    {m : Links} {list : LinkedList} (xs : List ℕ) (e : ℕ) (ys zs : List ℕ)
    → IsList m list (xs ++ (e ∷ (ys ++ zs)))
    → (e == first zs list.tail) ≡ false
apart {m} {list} xs e ys zs v = ground (
  arith,
  v.distinct e,
  nodes-count e list.head xs (e ∷ (ys ++ zs)) list.tail,
  count-append e ys zs,
  first-count zs list.tail,
  count-append e zs (list.tail ∷ []),
)

pub place-not-null :
    {m : Links} {list : LinkedList} (xs ys : List ℕ)
    → IsList m list (xs ++ ys)
    → (first ys list.tail == 0) ≡ false
place-not-null {m} {list} xs ys v = ground (
  arith,
  v.not_null,
  nodes-count 0 list.head xs ys list.tail,
  first-count ys list.tail,
  count-append 0 ys (list.tail ∷ []),
)

at_b :
    {m : Links} {list : LinkedList} (xs : List ℕ) (a : ℕ) (as' : List ℕ) (b : ℕ) (bs : List ℕ)
    → IsList m list (xs ++ (a ∷ (as' ++ (b ∷ bs))))
    → IsList m list ((xs ++ (a ∷ as')) ++ (b ∷ bs))
at_b {m} {list} xs a as' b bs v =
    subst (λ l. IsList m list l) (sym (append_assoc xs (a ∷ as') (b ∷ bs))) v

module _ (less : ℕ → ℕ → Bool) where
  sorted_loop_lem :
      (fuel : ℕ) {m : Links} {list : LinkedList} (xs : List ℕ) (x : ℕ) (ys zs : List ℕ)
      → IsList m list (xs ++ (x ∷ (ys ++ zs)))
      → length ys < fuel
      → Ascends less x ys
      → sorted_loop less fuel m x (first zs list.tail) ≡ some true
  unfolding sorted_loop
  sorted_loop_lem zero xs x ys zs v f s = absurd (omega arith)
  sorted_loop_lem (suc fuel) {m} {list} xs x [] zs v f s =
      rw (list_next_lem xs zs x v, ==-self (first zs list.tail)) refl
  sorted_loop_lem (suc fuel) {m} {list} xs x (y ∷ ys) zs v f s =
      let w = step-IsList xs (y ∷ (ys ++ zs)) x v in
      rw
        (
          list_next_lem xs (y ∷ (ys ++ zs)) x v,
          apart (xs ++ (x ∷ [])) y ys zs w,
          list_prev_lem xs (y ∷ (ys ++ zs)) x v,
          s.0,
        )
        (sorted_loop_lem fuel (xs ++ (x ∷ [])) y ys zs w (omega arith) s.1)

  pub is_sorted_lem :
      (fuel : ℕ) {m : Links} {list : LinkedList} (xs ys zs : List ℕ)
      → IsList m list (xs ++ (ys ++ zs))
      → length ys < fuel
      → IsAscending less ys
      → is_sorted less fuel m (first (ys ++ zs) list.tail) (first zs list.tail) ≡ some true
  unfolding is_sorted
  is_sorted_lem fuel {m} {list} xs [] zs v f s = rw (==-self (first zs list.tail)) refl
  is_sorted_lem fuel {m} {list} xs (y ∷ ys) zs v f s =
      rw (apart xs y ys zs v) (sorted_loop_lem fuel xs y ys zs v (omega arith) s)

  run_loop_lem :
      (fuel : ℕ) {m : Links} {list : LinkedList} (xs : List ℕ) (x : ℕ) (ys : List ℕ)
      → IsList m list (xs ++ (x ∷ ys))
      → length ys < fuel
      → run_loop less fuel m x list.tail ≡ some (first (after_run less x ys) list.tail)
  unfolding run_loop
  run_loop_lem zero xs x ys v f = absurd (omega arith)
  run_loop_lem (suc fuel) {m} {list} xs x [] v f =
      rw (list_next_lem xs [] x v, ==-self list.tail) refl
  run_loop_lem (suc fuel) {m} {list} xs x (y ∷ ys) v f =
      let w = step-IsList xs (y ∷ ys) x v in
      rw
        (
          list_next_lem xs (y ∷ ys) x v,
          not-end (xs ++ (x ∷ [])) ys y w,
          list_prev_lem xs (y ∷ ys) x v,
        )
        (elim (Bool-cases (less y x)) [
          | inl e ↦ rw e refl
          | inr e ↦ rw e (run_loop_lem fuel (xs ++ (x ∷ [])) y ys w (omega arith))
        ])

  -- find_end_of_run gives the place after the run that starts at an element.
  pub find_end_of_run_lem :
      (fuel : ℕ) {m : Links} {list : LinkedList} (xs : List ℕ) (x : ℕ) (ys : List ℕ)
      → IsList m list (xs ++ (x ∷ ys))
      → length ys < fuel
      → find_end_of_run less fuel m x list.tail ≡ some (first (after_run less x ys) list.tail)
  unfolding find_end_of_run
  find_end_of_run_lem fuel {m} {list} xs x ys v f = ground (
    arith,
    not-end xs ys x v,
    place-not-null xs (x ∷ ys) v,
    v.not_null,
    nodes-count 0 list.head xs (x ∷ ys) list.tail,
    run_loop_lem fuel xs x ys v f,
  )

  merge_loop_lem :
      (fuel : ℕ) {m : Links} {list : LinkedList} (xs as' bs ys : List ℕ)
      → IsList m list (xs ++ (as' ++ (bs ++ ys)))
      → length as' + length bs < fuel
      → (m' : Links) × (merge_loop less fuel m
            (first (as' ++ (bs ++ ys)) list.tail)
            (first (bs ++ ys) list.tail)
            (first ys list.tail)
          ≡ some m')
        × IsList m' list (xs ++ (merge less as' bs ++ ys))
  unfolding merge_loop
  merge_loop_lem zero xs as' bs ys v f = absurd (omega arith)
  merge_loop_lem (suc fuel) {m} {list} xs [] bs ys v f =
      (m, ground (arith, ==-self (first (bs ++ ys) list.tail)), v)
  merge_loop_lem (suc fuel) {m} {list} xs (a ∷ as') [] ys v f =
      (m, ground (arith, ==-self (first ys list.tail)), v)
  merge_loop_lem (suc fuel) {m} {list} xs (a ∷ as') (b ∷ bs) ys v f = elim (Bool-cases (less b a)) [
    | inl e ↦
        (let s = list_splice_lem xs as' (bs ++ ys) a b v in
          let w = step-IsList xs (a ∷ (as' ++ (bs ++ ys))) b s.2 in
          let r = merge_loop_lem fuel (xs ++ (b ∷ [])) (a ∷ as') bs ys w (omega arith) in
          (
            r.0,
            rw
                (
                  apart xs a as' (b ∷ (bs ++ ys)) v,
                  apart (xs ++ (a ∷ as')) b bs ys (at_b xs a as' b (bs ++ ys) v),
                  e,
                  list_next_lem (xs ++ (a ∷ as')) (bs ++ ys) b (at_b xs a as' b (bs ++ ys) v),
                  list_prev_lem (xs ++ (a ∷ as')) (bs ++ ys) b (at_b xs a as' b (bs ++ ys) v),
                  s.1,
                )
                r.1,
            rw e (
                subst (λ l. IsList r.0 list l)
                  (append_assoc xs (b ∷ []) (merge less (a ∷ as') bs ++ ys)) r.2),
          ))
    | inr e ↦
        (let w = step-IsList xs (as' ++ (b ∷ (bs ++ ys))) a v in
          let r = merge_loop_lem fuel (xs ++ (a ∷ [])) as' (b ∷ bs) ys w (omega arith) in
          (
            r.0,
            rw
                (
                  apart xs a as' (b ∷ (bs ++ ys)) v,
                  apart (xs ++ (a ∷ as')) b bs ys (at_b xs a as' b (bs ++ ys) v),
                  e,
                  list_next_lem xs (as' ++ (b ∷ (bs ++ ys))) a v,
                )
                r.1,
            rw e (
                subst (λ l. IsList r.0 list l)
                  (append_assoc xs (a ∷ []) (merge less as' (b ∷ bs) ++ ys)) r.2),
          ))
  ]

  -- inplace_merge on two adjacent ascending runs passes its ASSERTs and leaves their merge.
  pub inplace_merge_lem :
      (fuel : ℕ) {m : Links} {list : LinkedList} (xs as' bs ys : List ℕ)
      → IsList m list (xs ++ (as' ++ (bs ++ ys)))
      → length as' + length bs < fuel
      → IsAscending less as'
      → IsAscending less bs
      → (m' : Links) × (inplace_merge less fuel m
            (first (as' ++ (bs ++ ys)) list.tail)
            (first (bs ++ ys) list.tail)
            (first ys list.tail)
          ≡ some m')
        × IsList m' list (xs ++ (merge less as' bs ++ ys))
  unfolding inplace_merge
  inplace_merge_lem fuel {m} {list} xs as' bs ys v f s t =
      let r = merge_loop_lem fuel xs as' bs ys v f in
      let w = subst (λ l. IsList m list l) (sym (append_assoc xs as' (bs ++ ys))) v in
      let u = subst (λ l. IsList m list l) (sym (append_assoc (xs ++ as') bs ys)) w in
      (
        r.0,
        rw
            (
              place-not-null xs (as' ++ (bs ++ ys)) v,
              place-not-null (xs ++ as') (bs ++ ys) w,
              place-not-null ((xs ++ as') ++ bs) ys u,
              is_sorted_lem fuel xs as' (bs ++ ys) v (omega arith) s,
              is_sorted_lem fuel (xs ++ as') bs ys w (omega arith) t,
            )
            r.1,
        r.2,
      )

-- ===== src/KernelLib/List/Walk.antt =====
-- lib/kernel/list.c: the loops over a list, from its first element to its tail.
use ee461s_projects.Common.{
  ℕ, zero, suc, ◌+◌, ◌<◌, ◌≡◌, ◌≢◌, some, List, [], ◌∷◌, ◌++◌, count, count-append, length, arith,
  ◌==◌, if◌then◌else◌, Bool, false, ◌>>=◌, ap, ◌∙◌, subst, append_assoc, sym, inl, inr, Bool-cases,
}
use ee461s_projects.KernelLib.List.{
  Links, LinkedList, list_next, list_begin, list_size, size_loop, list_max, max_loop, list_min,
  min_loop, ordered_loop, list_insert_ordered, list_insert,
}
use ee461s_projects.KernelLib.List.Chain.{
  first, nodes, IsList, first-count, nodes-count, first-next, next-after,
}
use ee461s_projects.KernelLib.List.Insert.{list_insert_lem}

-- list_next at an element of a list gives the one after it, or the tail.
pub list_next_lem :
    {m : Links} {list : LinkedList} (xs ys : List ℕ) (e : ℕ)
    → IsList m list (xs ++ (e ∷ ys))
    → list_next m e ≡ some (first ys list.tail)
unfolding list_next
list_next_lem {m} {list} xs ys e v = ground (
  arith,
  next-after m list.head xs ys e list.tail v.linked,
  first-count ys list.tail,
  count-append 0 ys (list.tail ∷ []),
  v.not_null,
  nodes-count 0 list.head xs (e ∷ ys) list.tail,
)

pub not-end :
    {m : Links} {list : LinkedList} (xs ys : List ℕ) (e : ℕ)
    → IsList m list (xs ++ (e ∷ ys))
    → (e == list.tail) ≡ false
not-end {m} {list} xs ys e v =
    ground (arith, v.distinct e, nodes-count e list.head xs (e ∷ ys) list.tail)

pub list_begin_lem :
    {m : Links} {list : LinkedList} (xs : List ℕ)
    → IsList m list xs
    → list_begin m list ≡ some (first xs list.tail)
unfolding list_begin
list_begin_lem {m} {list} xs v =
    ground (arith, first-next m list.head xs list.tail v.linked, v.not_null)

-- The place moves on over one element.
pub step-IsList :
    {m : Links} {list : LinkedList} (xs ys : List ℕ) (e : ℕ)
    → IsList m list (xs ++ (e ∷ ys))
    → IsList m list ((xs ++ (e ∷ [])) ++ ys)
step-IsList {m} {list} xs ys e v =
    subst (λ l. IsList m list l) (sym (append_assoc xs (e ∷ []) ys)) v

size_loop_lem :
    (fuel : ℕ) {m : Links} {list : LinkedList} (xs ys : List ℕ) (cnt : ℕ)
    → IsList m list (xs ++ ys)
    → length ys < fuel
    → size_loop fuel m list (first ys list.tail) cnt ≡ some (cnt + length ys)
unfolding size_loop
size_loop_lem zero xs ys cnt v f = absurd (omega arith)
size_loop_lem (suc fuel) {m} {list} xs [] cnt v f = ground arith
size_loop_lem (suc fuel) {m} {list} xs (e ∷ ys) cnt v f =
    rw (not-end xs ys e v, list_next_lem xs ys e v)
      (size_loop_lem fuel (xs ++ (e ∷ [])) ys (cnt + 1) (step-IsList xs ys e v) (omega arith)
        ∙ ap some (omega arith))

-- list_size ends after as many rounds as the list has elements, and returns their number.
pub list_size_lem :
    (fuel : ℕ) {m : Links} {list : LinkedList} (xs : List ℕ)
    → IsList m list xs
    → length xs < fuel
    → list_size fuel m list ≡ some (length xs)
unfolding list_size
list_size_lem fuel xs v f =
    rw (list_begin_lem xs v) (size_loop_lem fuel [] xs 0 v f ∙ ap some (omega arith))

module _ (less : ℕ → ℕ → Bool) where
  -- The earliest of the largest.
  abbrev pub largest : ℕ → List ℕ → ℕ
  largest max [] = max
  largest max (x ∷ xs) = largest (if less max x then x else max) xs

  abbrev pub smallest : ℕ → List ℕ → ℕ
  smallest min [] = min
  smallest min (x ∷ xs) = smallest (if less x min then x else min) xs

  max_loop_lem :
      (fuel : ℕ) {m : Links} {list : LinkedList} (xs ys : List ℕ) (max : ℕ)
      → IsList m list (xs ++ ys)
      → length ys < fuel
      → max_loop less fuel m list max (first ys list.tail) ≡ some (largest max ys)
  unfolding max_loop
  max_loop_lem zero xs ys max v f = absurd (omega arith)
  max_loop_lem (suc fuel) {m} {list} xs [] max v f = ground arith
  max_loop_lem (suc fuel) {m} {list} xs (e ∷ ys) max v f =
      rw (not-end xs ys e v, list_next_lem xs ys e v)
        (max_loop_lem fuel (xs ++ (e ∷ [])) ys (if less max e then e else max)
          (step-IsList xs ys e v) (omega arith))

  min_loop_lem :
      (fuel : ℕ) {m : Links} {list : LinkedList} (xs ys : List ℕ) (min : ℕ)
      → IsList m list (xs ++ ys)
      → length ys < fuel
      → min_loop less fuel m list min (first ys list.tail) ≡ some (smallest min ys)
  unfolding min_loop
  min_loop_lem zero xs ys min v f = absurd (omega arith)
  min_loop_lem (suc fuel) {m} {list} xs [] min v f = ground arith
  min_loop_lem (suc fuel) {m} {list} xs (e ∷ ys) min v f =
      rw (not-end xs ys e v, list_next_lem xs ys e v)
        (min_loop_lem fuel (xs ++ (e ∷ [])) ys (if less e min then e else min)
          (step-IsList xs ys e v) (omega arith))

  pub list_max_lem :
      (fuel : ℕ) {m : Links} {list : LinkedList} (x : ℕ) (xs : List ℕ)
      → IsList m list (x ∷ xs)
      → length xs < fuel
      → list_max less fuel m list ≡ some (largest x xs)
  unfolding list_max
  list_max_lem fuel x xs v f =
      rw (list_begin_lem (x ∷ xs) v, not-end [] xs x v, list_next_lem [] xs x v)
        (max_loop_lem fuel (x ∷ []) xs x v f)

  pub list_min_lem :
      (fuel : ℕ) {m : Links} {list : LinkedList} (x : ℕ) (xs : List ℕ)
      → IsList m list (x ∷ xs)
      → length xs < fuel
      → list_min less fuel m list ≡ some (smallest x xs)
  unfolding list_min
  list_min_lem fuel x xs v f =
      rw (list_begin_lem (x ∷ xs) v, not-end [] xs x v, list_next_lem [] xs x v)
        (min_loop_lem fuel (x ∷ []) xs x v f)

  -- Where list_insert_ordered stops: before the first element that the new one is less than.
  abbrev pub insert_sorted : ℕ → List ℕ → List ℕ
  insert_sorted elem [] = elem ∷ []
  insert_sorted elem (x ∷ xs) = if less elem x then elem ∷ (x ∷ xs) else x ∷ insert_sorted elem xs

  ordered_insert :
      (fuel : ℕ) {m : Links} {list : LinkedList} (xs ys : List ℕ) (elem : ℕ)
      → IsList m list (xs ++ ys)
      → length ys < fuel
      → elem ≢ 0
      → count elem (nodes list.head (xs ++ ys) list.tail) ≡ 0
      → (m' : Links) × ((do
        e ← ordered_loop less fuel m list elem (first ys list.tail)
        list_insert m e elem)
          ≡ some m')
        × IsList m' list (xs ++ insert_sorted elem ys)
  unfolding ordered_loop
  ordered_insert zero xs ys elem v f n c = absurd (omega arith)
  ordered_insert (suc fuel) {m} {list} xs [] elem v f n c =
      let r = list_insert_lem xs [] elem v n c in (r.0, ground (arith, r.1), r.2)
  ordered_insert (suc fuel) {m} {list} xs (e ∷ ys) elem v f n c = elim (Bool-cases (less elem e)) [
    | inl lt ↦
        rw (not-end xs ys e v, lt)
          (let r = list_insert_lem xs (e ∷ ys) elem v n c in (r.0, r.1, r.2))
    | inr ge ↦
        rw (not-end xs ys e v, ge, list_next_lem xs ys e v)
          (let r =
              ordered_insert fuel (xs ++ (e ∷ [])) ys elem (step-IsList xs ys e v) (omega arith) n (
                ap (λ l. count elem (nodes list.head l list.tail)) (append_assoc xs (e ∷ []) ys)
                ∙ c) in
            (
              r.0,
              r.1,
              subst (λ l. IsList r.0 list l) (append_assoc xs (e ∷ []) (insert_sorted elem ys)) r.2,
            ))
  ]

  pub list_insert_ordered_lem :
      (fuel : ℕ) {m : Links} {list : LinkedList} (xs : List ℕ) (elem : ℕ)
      → IsList m list xs
      → length xs < fuel
      → elem ≢ 0
      → count elem (nodes list.head xs list.tail) ≡ 0
      → (m' : Links) × (list_insert_ordered less fuel m list elem ≡ some m')
        × IsList m' list (insert_sorted elem xs)
  unfolding list_insert_ordered
  list_insert_ordered_lem fuel xs elem v f n c =
      let r = ordered_insert fuel [] xs elem v f n c in
      (r.0, ground (arith, list_begin_lem xs v, r.1), r.2)

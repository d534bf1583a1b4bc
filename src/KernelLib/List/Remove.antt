-- ===== src/KernelLib/List/Remove.antt =====
-- lib/kernel/list.c: list_remove and the pops on the elements of a list.
use ee461s_projects.Common.{
  ℕ, ◌≤◌, ◌≡◌, ◌≢◌, some, List, [], ◌∷◌, ◌++◌, count, count-append, arith, update, ap, ◌∙◌, subst,
  append-nil,
}
use ee461s_projects.KernelLib.List.{
  Links, LinkedList, list_remove, list_pop_front, list_pop_back, list_begin, list_empty, list_front,
  list_back,
}
use ee461s_projects.KernelLib.List.Chain.{
  Linked, first, nodes, IsList, Linked-frame, prev-before, first-count, nodes-count, first-next,
  next-after, last-prev, first-ne-end,
}

-- The links after list_remove.
abbrev pub removed : Links → ℕ → Links
removed m elem = record {
  prev = update m.prev (m.next elem) (m.prev elem);
  next = update m.next (m.prev elem) (m.next elem);
}

pub list_remove-runs :
    (m : Links) (elem : ℕ)
    → elem ≢ 0
    → m.prev elem ≢ 0
    → m.next elem ≢ 0
    → m.prev elem ≢ elem
    → list_remove m elem ≡ some (m.next elem, removed m elem)
unfolding list_remove
list_remove-runs m elem e p n d = ground arith

module _ (m : Links) (elem : ℕ) where
  pub removed-Linked :
      (a : ℕ) (xs ys : List ℕ) (b : ℕ)
      → Linked m a (xs ++ (elem ∷ ys)) b
      → ((e : ℕ) → count e (nodes a (xs ++ (elem ∷ ys)) b) ≤ 1)
      → Linked (removed m elem) a (xs ++ ys) b
  removed-Linked a [] [] b l d = ground arith
  removed-Linked a [] (y ∷ ys) b l d = (
    ground arith,
    ground arith,
    Linked-frame m (removed m elem) y ys b
        (λ e h. ground (arith, d e, d a, count-append e ys (b ∷ []), count-append a ys (b ∷ [])))
        (λ e h. ground (arith, d e, d y, count-append e ys (b ∷ []))) l.2.2,
  )
  removed-Linked a (x ∷ xs) ys b l d = (
    ground (
      arith,
      d a,
      prev-before m x xs (elem ∷ ys) b l.2,
      nodes-count (m.prev elem) a (x ∷ xs) (elem ∷ ys) b,
      nodes-count a a (x ∷ xs) (elem ∷ ys) b,
    ),
    ground (
      arith,
      d x,
      next-after m x xs ys elem b l.2,
      first-count ys b,
      nodes-count x a (x ∷ xs) (elem ∷ ys) b,
      count-append x ys (b ∷ []),
    ),
    removed-Linked x xs ys b l.2 (λ e. ground (arith, d e)),
  )

module _ {m : Links} {list : LinkedList} (xs ys : List ℕ) (elem : ℕ)
    (v : IsList m list (xs ++ (elem ∷ ys))) where
  elem_prev : count (m.prev elem) (list.head ∷ xs) ≢ 0
  elem_prev = prev-before m list.head xs (elem ∷ ys) list.tail v.linked

  elem_next : m.next elem ≡ first ys list.tail
  elem_next = next-after m list.head xs ys elem list.tail v.linked

  pub removed-IsList : IsList (removed m elem) list (xs ++ ys)
  removed-IsList = record {
    front_null = ground (
      arith,
      v.front_null,
      elem_next,
      v.distinct list.head,
      first-count ys list.tail,
      count-append list.head ys (list.tail ∷ []),
      nodes-count list.head list.head xs (elem ∷ ys) list.tail,
    );
    back_null = ground (
      arith,
      v.back_null,
      elem_prev,
      v.distinct list.tail,
      nodes-count list.tail list.head xs (elem ∷ ys) list.tail,
    );
    linked = removed-Linked m elem list.head xs ys list.tail v.linked v.distinct;
    distinct = λ a. ground (
      arith,
      v.distinct a,
      nodes-count a list.head xs (elem ∷ ys) list.tail,
      nodes-count a list.head xs ys list.tail,
    );
    not_null = ground (
      arith,
      v.not_null,
      nodes-count 0 list.head xs (elem ∷ ys) list.tail,
      nodes-count 0 list.head xs ys list.tail,
    );
  }

  -- list_remove takes an element of a list out of it: it returns the element that followed, or
  -- the tail, and the list keeps its other elements in their order.
  pub list_remove_lem :
      (m' : Links) × (list_remove m elem ≡ some (first ys list.tail, m'))
      × IsList m' list (xs ++ ys)
  list_remove_lem = (
    removed m elem,
    list_remove-runs m elem
          (ground (arith, v.not_null, nodes-count 0 list.head xs (elem ∷ ys) list.tail))
          (ground (arith, elem_prev, v.not_null, nodes-count 0 list.head xs (elem ∷ ys) list.tail))
          (ground (
            arith,
            elem_next,
            first-count ys list.tail,
            v.not_null,
            nodes-count 0 list.head xs (elem ∷ ys) list.tail,
            count-append 0 ys (list.tail ∷ []),
          ))
          (ground (
            arith,
            elem_prev,
            v.distinct elem,
            nodes-count elem list.head xs (elem ∷ ys) list.tail,
          ))
        ∙ ap (λ n. some (n, removed m elem)) elem_next,
    removed-IsList,
  )

-- list_pop_front on a list with elements returns the first of them and leaves the others.
pub list_pop_front_lem :
    {m : Links} {list : LinkedList} (x : ℕ) (xs : List ℕ)
    → IsList m list (x ∷ xs)
    → (m' : Links) × (list_pop_front m list ≡ some (x, m')) × IsList m' list xs
unfolding list_pop_front list_front list_empty list_begin
list_pop_front_lem {m} {list} x xs v =
    let r = list_remove_lem [] xs x v in
    (
      r.0,
      ground (
        arith,
        r.1,
        v.linked.0,
        v.not_null,
        v.distinct list.tail,
        nodes-count list.tail list.head [] (x ∷ xs) list.tail,
      ),
      r.2,
    )

-- list_pop_back on a list with elements returns the last of them and leaves the others.
pub list_pop_back_lem :
    {m : Links} {list : LinkedList} (xs : List ℕ) (x : ℕ)
    → IsList m list (xs ++ (x ∷ []))
    → (m' : Links) × (list_pop_back m list ≡ some (x, m')) × IsList m' list xs
unfolding list_pop_back list_back list_empty list_begin
list_pop_back_lem {m} {list} xs x v =
    let r = list_remove_lem xs [] x v in
    (
      r.0,
      ground (
        arith,
        r.1,
        first-next m list.head (xs ++ (x ∷ [])) list.tail v.linked,
        first-ne-end xs [] x list.tail,
        v.not_null,
        v.distinct list.tail,
        nodes-count list.tail list.head [] (xs ++ (x ∷ [])) list.tail,
        nodes-count 0 list.head [] (xs ++ (x ∷ [])) list.tail,
        last-prev m list.head xs x list.tail v.linked,
      ),
      subst (λ l. IsList r.0 list l) (append-nil xs) r.2,
    )

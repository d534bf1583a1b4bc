-- ===== src/KernelLib/List/Insert.antt =====
-- lib/kernel/list.c: list_insert and the pushes on the elements of a list.
use ee461s_projects.Common.{
  ℕ, ◌≤◌, ◌≡◌, ◌≢◌, some, List, [], ◌∷◌, ◌++◌, count, count-append, arith, update, sym, subst, ap,
  append-nil, ◌∙◌,
}
use ee461s_projects.KernelLib.List.{
  Links, LinkedList, list_insert, list_push_front, list_push_back, list_begin,
}
use ee461s_projects.KernelLib.List.Chain.{
  Linked, first, nodes, IsList, Linked-frame, prev-before, first-count, nodes-count, first-next,
}

-- The links after list_insert.
abbrev pub inserted : Links → (before elem : ℕ) → Links
inserted m before elem = record {
  prev = update (update m.prev elem (m.prev before)) before elem;
  next = update (update m.next elem before) (m.prev before) elem;
}

pub list_insert-runs :
    (m : Links) (before elem : ℕ)
    → before ≢ 0
    → m.prev before ≢ 0
    → elem ≢ 0
    → elem ≢ before
    → list_insert m before elem ≡ some (inserted m before elem)
unfolding list_insert
list_insert-runs m before elem b p e n = ground arith

module _ (m : Links) (elem : ℕ) where
  pub inserted-Linked :
      (a : ℕ) (xs ys : List ℕ) (b : ℕ)
      → Linked m a (xs ++ ys) b
      → ((e : ℕ) → count e (nodes a (xs ++ ys) b) ≤ 1)
      → count elem (nodes a (xs ++ ys) b) ≡ 0
      → Linked (inserted m (first ys b) elem) a (xs ++ (elem ∷ ys)) b
  inserted-Linked a [] [] b l d n = ground arith
  inserted-Linked a [] (y ∷ ys) b l d n = (
    ground arith,
    ground arith,
    (
      ground arith,
      ground arith,
      Linked-frame m (inserted m y elem) y ys b
          (λ e h. ground (
            arith,
            d e,
            d y,
            d elem,
            d a,
            count-append e ys (b ∷ []),
            count-append elem ys (b ∷ []),
            count-append a ys (b ∷ []),
          ))
          (λ e h. ground (arith, d e, d y, d elem, count-append e ys (b ∷ []))) l.2,
    ),
  )
  inserted-Linked a (x ∷ xs) ys b l d n = (
    ground (
      arith,
      d a,
      prev-before m x xs ys b l.2,
      count-append (m.prev (first ys b)) (xs ++ ys) (b ∷ []),
      count-append (m.prev (first ys b)) xs ys,
    ),
    ground (
      arith,
      d x,
      first-count ys b,
      count-append x (xs ++ ys) (b ∷ []),
      count-append x ys (b ∷ []),
      count-append x xs ys,
    ),
    inserted-Linked x xs ys b l.2 (λ e. ground (arith, d e)) (ground arith),
  )

module _ {m : Links} {list : LinkedList} (xs ys : List ℕ) (elem : ℕ)
    (v : IsList m list (xs ++ ys)) where
  before_prev : count (m.prev (first ys list.tail)) (list.head ∷ xs) ≢ 0
  before_prev = prev-before m list.head xs ys list.tail v.linked

  pub inserted-IsList :
      elem ≢ 0
      → count elem (nodes list.head (xs ++ ys) list.tail) ≡ 0
      → IsList (inserted m (first ys list.tail) elem) list (xs ++ (elem ∷ ys))
  inserted-IsList e n = record {
    front_null = ground (
      arith,
      v.front_null,
      v.distinct list.head,
      first-count ys list.tail,
      count-append (first ys list.tail) ys (list.tail ∷ []),
      nodes-count list.head list.head xs ys list.tail,
      nodes-count elem list.head xs ys list.tail,
      count-append list.head ys (list.tail ∷ []),
    );
    back_null = ground (
      arith,
      v.back_null,
      v.distinct list.tail,
      before_prev,
      nodes-count elem list.head xs ys list.tail,
      nodes-count list.tail list.head xs ys list.tail,
    );
    linked = inserted-Linked m elem list.head xs ys list.tail v.linked v.distinct n;
    distinct = λ a. ground (
      arith,
      v.distinct a,
      nodes-count a list.head xs (elem ∷ ys) list.tail,
      nodes-count a list.head xs ys list.tail,
    );
    not_null = ground (
      arith,
      v.not_null,
      nodes-count 0 list.head xs (elem ∷ ys) list.tail,
      nodes-count 0 list.head xs ys list.tail,
    );
  }

  -- list_insert before the first of `ys`, or before the tail, puts a new element there: it
  -- returns, and the list's elements are then `xs`, the new one and `ys`.
  pub list_insert_lem :
      elem ≢ 0
      → count elem (nodes list.head (xs ++ ys) list.tail) ≡ 0
      → (m' : Links) × (list_insert m (first ys list.tail) elem ≡ some m')
        × IsList m' list (xs ++ (elem ∷ ys))
  list_insert_lem e n = (
    inserted m (first ys list.tail) elem,
    list_insert-runs m (first ys list.tail) elem
        (ground (
          arith,
          first-count ys list.tail,
          v.not_null,
          nodes-count 0 list.head xs ys list.tail,
          count-append 0 ys (list.tail ∷ []),
        ))
        (ground (arith, before_prev, v.not_null, nodes-count 0 list.head xs ys list.tail)) e
        (ground (
          arith,
          first-count ys list.tail,
          nodes-count elem list.head xs ys list.tail,
          count-append elem ys (list.tail ∷ []),
        )),
    inserted-IsList e n,
  )

module _ {m : Links} {list : LinkedList} (xs : List ℕ) (elem : ℕ) (v : IsList m list xs) where
  pub list_push_front_lem :
      elem ≢ 0
      → count elem (nodes list.head xs list.tail) ≡ 0
      → (m' : Links) × (list_push_front m list elem ≡ some m') × IsList m' list (elem ∷ xs)
  unfolding list_push_front list_begin
  list_push_front_lem e n =
      let r = list_insert_lem [] xs elem v e n in
      (r.0, ground (arith, r.1, first-next m list.head xs list.tail v.linked, v.not_null), r.2)

  pub list_push_back_lem :
      elem ≢ 0
      → count elem (nodes list.head xs list.tail) ≡ 0
      → (m' : Links) × (list_push_back m list elem ≡ some m') × IsList m' list (xs ++ (elem ∷ []))
  unfolding list_push_back
  list_push_back_lem e n =
      list_insert_lem xs [] elem (subst (λ l. IsList m list l) (sym (append-nil xs)) v) e
        (ap (λ l. count elem (nodes list.head l list.tail)) (append-nil xs) ∙ n)

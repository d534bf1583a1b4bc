-- ===== src/KernelLib/List/Sort/Splice.antt =====
-- lib/kernel/list.c: list_splice as list_sort calls it, to move one element to the front of others.
use ee461s_projects.Common.{
  ℕ, ◌+◌, ◌≡◌, ◌≢◌, some, List, [], ◌∷◌, ◌++◌, count, count-append, arith, ◌==◌, if◌then◌else◌,
  subst, sym, append_assoc,
}
use ee461s_projects.KernelLib.List.{Links, LinkedList, list_prev}
use ee461s_projects.KernelLib.List.Chain.{
  Linked, first, nodes, IsList, prev-before, next-after, first-count, nodes-count,
}
use ee461s_projects.KernelLib.List.Insert.{inserted, inserted-IsList}
use ee461s_projects.KernelLib.List.Remove.{removed, removed-IsList}
use ee461s_projects.KernelLib.List.Sort.{list_splice}

prev-after :
    (m : Links) (a : ℕ) (xs ys : List ℕ) (e b : ℕ)
    → Linked m a (xs ++ (e ∷ ys)) b
    → m.prev (first ys b) ≡ e
prev-after m a [] [] e b l = l.2.1
prev-after m a [] (y ∷ ys) e b l = l.2.1
prev-after m a (x ∷ xs) ys e b l = prev-after m x xs ys e b l.2

-- list_prev goes back from what follows an element to the element.
pub list_prev_lem :
    {m : Links} {list : LinkedList} (xs ys : List ℕ) (e : ℕ)
    → IsList m list (xs ++ (e ∷ ys))
    → list_prev m (first ys list.tail) ≡ some e
unfolding list_prev
list_prev_lem {m} {list} xs ys e v = ground (
  arith,
  prev-after m list.head xs ys e list.tail v.linked,
  first-count ys list.tail,
  count-append 0 ys (list.tail ∷ []),
  v.not_null,
  nodes-count 0 list.head xs (e ∷ ys) list.tail,
)

splice-runs :
    (m : Links) (before e last : ℕ)
    → before ≢ 0
    → e ≢ 0
    → last ≢ 0
    → m.prev before ≢ 0
    → m.prev e ≢ 0
    → before ≢ e
    → e ≢ last
    → before ≢ last
    → m.prev e ≢ e
    → m.next e ≡ last
    → (removed m e).prev before ≢ 0
    → list_prev m last ≡ some e
    → list_splice m before e last ≡ some (inserted (removed m e) before e)
unfolding list_splice
splice-runs m before e last b n l pb pe be el bl pp ne q r = ground arith

module _ {m : Links} {list : LinkedList} (xs ys zs : List ℕ) (a e : ℕ)
    (v : IsList m list (xs ++ (a ∷ (ys ++ (e ∷ zs))))) where
  at_e : IsList m list ((xs ++ (a ∷ ys)) ++ (e ∷ zs))
  at_e = subst (λ l. IsList m list l) (sym (append_assoc xs (a ∷ ys) (e ∷ zs))) v

  node :
      (x : ℕ)
      → count x (nodes list.head (xs ++ (a ∷ (ys ++ (e ∷ zs)))) list.tail)
        ≡ (if x == list.head then 1 else 0)
          + (count x xs
              + ((if x == a then 1 else 0)
                  + (count x ys
                      + ((if x == e then 1 else 0)
                          + (count x zs + (if x == list.tail then 1 else 0))))))
  node x = ground (
    arith,
    nodes-count x list.head xs (a ∷ (ys ++ (e ∷ zs))) list.tail,
    count-append x ys (e ∷ zs),
  )

  without_e : IsList (removed m e) list (xs ++ (a ∷ (ys ++ zs)))
  without_e =
      subst (λ l. IsList (removed m e) list l) (append_assoc xs (a ∷ ys) zs)
        (removed-IsList (xs ++ (a ∷ ys)) zs e at_e)

  -- The element after `ys` moves to the place before `a`.
  pub list_splice_lem :
      (m' : Links) × (list_splice m a e (first zs list.tail) ≡ some m')
      × IsList m' list (xs ++ (e ∷ (a ∷ (ys ++ zs))))
  list_splice_lem = (
    inserted (removed m e) a e,
    splice-runs m a e (first zs list.tail) (ground (arith, v.not_null, node 0))
        (ground (arith, v.not_null, node 0))
        (ground
          (arith, v.not_null, node 0, first-count zs list.tail, count-append 0 zs (list.tail ∷ [])))
        (ground (
          arith,
          prev-before m list.head xs (a ∷ (ys ++ (e ∷ zs))) list.tail v.linked,
          v.not_null,
          node 0,
        ))
        (ground (
          arith,
          prev-before m list.head (xs ++ (a ∷ ys)) (e ∷ zs) list.tail at_e.linked,
          count-append 0 xs (a ∷ ys),
          v.not_null,
          node 0,
        ))
        (ground (arith, v.distinct e, node e))
        (ground (
          arith,
          v.distinct e,
          node e,
          first-count zs list.tail,
          count-append e zs (list.tail ∷ []),
        ))
        (ground (
          arith,
          v.distinct a,
          node a,
          first-count zs list.tail,
          count-append a zs (list.tail ∷ []),
        ))
        (ground (
          arith,
          prev-before m list.head (xs ++ (a ∷ ys)) (e ∷ zs) list.tail at_e.linked,
          count-append e xs (a ∷ ys),
          v.distinct e,
          node e,
        ))
        (next-after m list.head (xs ++ (a ∷ ys)) zs e list.tail at_e.linked)
        (ground (
          arith,
          prev-before (removed m e) list.head xs (a ∷ (ys ++ zs)) list.tail without_e.linked,
          v.not_null,
          node 0,
        ))
        (list_prev_lem (xs ++ (a ∷ ys)) zs e at_e),
    inserted-IsList xs (a ∷ (ys ++ zs)) e without_e (ground (arith, v.not_null, node 0)) (
        ground (
          arith,
          v.distinct e,
          node e,
          nodes-count e list.head xs (a ∷ (ys ++ zs)) list.tail,
          count-append e ys zs,
        )),
  )

-- ===== src/KernelLib/List/Reverse.antt =====
-- lib/kernel/list.c: list_reverse turns the order of the elements.
use ee461s_projects.Common.{
  ℕ, zero, suc, ◌+◌, ◌≤◌, ◌<◌, ◌≡◌, ◌≢◌, refl, some, List, [], ◌∷◌, count, length, arith, ◌==◌,
  if◌then◌else◌, update,
}
use ee461s_projects.KernelLib.List.{
  Links, LinkedList, list_empty, list_reverse, reverse_loop, reverse_ends,
}
use ee461s_projects.KernelLib.List.Chain.{Linked, first, nodes, IsList, nodes-count, first-next}
use ee461s_projects.KernelLib.List.Walk.{list_begin_lem, not-end}

abbrev swapped : Links → ℕ → Links
swapped m e = record { prev = update m.prev e (m.next e); next = update m.next e (m.prev e) }

abbrev swap_all : Links → List ℕ → Links
swap_all m [] = m
swap_all m (x ∷ xs) = swap_all (swapped m x) xs

-- What the loop needs: `next` leads through the elements to the end.
abbrev Leads : Links → List ℕ → ℕ → Type 0
Leads m [] b = Unit {0}
Leads m (x ∷ xs) b = (m.next x ≡ first xs b) × Leads m xs b

Leads-frame :
    (m m' : Links) (xs : List ℕ) (b : ℕ)
    → ((e : ℕ) → count e xs ≢ 0 → m'.next e ≡ m.next e)
    → Leads m xs b
    → Leads m' xs b
Leads-frame m m' [] b h l = tt
Leads-frame m m' (x ∷ xs) b h l =
    (ground (arith, h x (ground arith)), Leads-frame m m' xs b (λ e n. h e (ground arith)) l.1)

Linked-Leads : (m : Links) (a : ℕ) (xs : List ℕ) (b : ℕ) → Linked m a xs b → Leads m xs b
Linked-Leads m a [] b l = tt
Linked-Leads m a (x ∷ xs) b l = (first-next m x xs b l.2, Linked-Leads m x xs b l.2)

reverse_loop_lem :
    (fuel : ℕ) (m : Links) (list : LinkedList) (xs : List ℕ)
    → Leads m xs list.tail
    → ((e : ℕ) → count e xs ≤ 1)
    → count 0 xs ≡ 0
    → count list.tail xs ≡ 0
    → length xs < fuel
    → reverse_loop fuel m list (first xs list.tail) ≡ some (swap_all m xs)
unfolding reverse_loop
reverse_loop_lem zero m list xs l d z t f = absurd (omega arith)
reverse_loop_lem (suc fuel) m list [] l d z t f = ground arith
reverse_loop_lem (suc fuel) m list (x ∷ xs) l d z t f = ground (
  arith,
  reverse_loop_lem fuel (swapped m x) list xs
      (Leads-frame m (swapped m x) xs list.tail (λ e h. ground (arith, d e)) l.1)
      (λ e. ground (arith, d e)) (ground arith) (ground arith) (omega arith),
)

swap_all_lem :
    (m : Links) (xs : List ℕ) (e : ℕ)
    → ((a : ℕ) → count a xs ≤ 1)
    → ((swap_all m xs).next e ≡ (if count e xs == 0 then m.next e else m.prev e))
      × ((swap_all m xs).prev e ≡ (if count e xs == 0 then m.prev e else m.next e))
swap_all_lem m [] e d = (refl, refl)
swap_all_lem m (x ∷ xs) e d =
    let r = swap_all_lem (swapped m x) xs e (λ a. ground (arith, d a)) in
    (ground (arith, r.0, d e), ground (arith, r.1, d e))

-- The links lead back from the elements to `h`.
abbrev Turned : Links → ℕ → ℕ → List ℕ → Type 0
Turned m h a [] = (m.next h ≡ a) × (m.prev a ≡ h)
Turned m h a (x ∷ xs) = (m.next x ≡ a) × (m.prev a ≡ x) × Turned m h x xs

abbrev pub rev_append : List ℕ → List ℕ → List ℕ
rev_append [] acc = acc
rev_append (x ∷ xs) acc = rev_append xs (x ∷ acc)

Turned-Linked :
    (m : Links) (h a : ℕ) (xs acc : List ℕ) (b : ℕ)
    → Turned m h a xs
    → Linked m a acc b
    → Linked m h (rev_append xs (a ∷ acc)) b
Turned-Linked m h a [] acc b t l = (t.0, t.1, l)
Turned-Linked m h a (x ∷ xs) acc b t l = Turned-Linked m h x xs (a ∷ acc) b t.2 (t.0, t.1, l)

-- The last of some elements.
abbrev last : ℕ → List ℕ → ℕ
last a [] = a
last a (x ∷ xs) = last x xs

last-count : (a : ℕ) (xs : List ℕ) → count (last a xs) (a ∷ xs) ≢ 0
last-count a [] = ground arith
last-count a (x ∷ xs) = ground (arith, last-count x xs)

prev-last : (m : Links) (a : ℕ) (xs : List ℕ) (b : ℕ) → Linked m a xs b → m.prev b ≡ last a xs
prev-last m a [] b l = l.1
prev-last m a (x ∷ xs) b l = prev-last m x xs b l.2

next-last : (m : Links) (a : ℕ) (xs : List ℕ) (b : ℕ) → Linked m a xs b → m.next (last a xs) ≡ b
next-last m a [] b l = l.0
next-last m a (x ∷ xs) b l = next-last m x xs b l.2

Linked-Turned :
    (m m' : Links) (h a : ℕ) (xs : List ℕ) (b : ℕ)
    → Linked m a xs b
    → m'.next h ≡ last a xs
    → m'.prev (last a xs) ≡ h
    → ((e : ℕ) → count e xs ≢ 0 → m'.next e ≡ m.prev e)
    → ((e : ℕ) → count e (a ∷ xs) ≢ 0 → e ≢ last a xs → m'.prev e ≡ m.next e)
    → ((e : ℕ) → count e (a ∷ xs) ≤ 1)
    → Turned m' h a xs
Linked-Turned m m' h a [] b l n p f g d = (n, p)
Linked-Turned m m' h a (x ∷ xs) b l n p f g d = (
  ground (arith, f x (ground arith)),
  ground (arith, g a (ground arith) (ground (arith, d a, last-count x xs))),
  Linked-Turned m m' h x xs b l.2 n p (λ e c. f e (ground arith)) (λ e c ne. g e (ground arith) ne)
      (λ e. ground (arith, d e)),
)

count-rev_append :
    (e : ℕ) (xs acc : List ℕ) → count e (rev_append xs acc) ≡ count e xs + count e acc
count-rev_append e [] acc = omega arith
count-rev_append e (x ∷ xs) acc = ground (arith, count-rev_append e xs (x ∷ acc))

module _ (fuel : ℕ) {m : Links} {list : LinkedList} (x : ℕ) (xs : List ℕ)
    (v : IsList m list (x ∷ xs)) where
  turned : Links
  turned =
      let a = swap_all m (x ∷ xs) in
      record {
        prev = update (update a.prev list.tail x) (last x xs) list.head;
        next = update (update a.next list.head (last x xs)) x list.tail;
      }

  once : (e : ℕ) → count e (x ∷ xs) ≤ 1
  once e = ground (arith, v.distinct e, nodes-count e list.head [] (x ∷ xs) list.tail)

  at_node :
      (e : ℕ)
      → count e (nodes list.head (x ∷ xs) list.tail)
        ≡ (if e == list.head then 1 else 0)
          + ((if e == x then 1 else 0) + (count e xs + (if e == list.tail then 1 else 0)))
  at_node e = ground (arith, nodes-count e list.head (x ∷ []) xs list.tail)

  ends_lem : reverse_ends (swap_all m (x ∷ xs)) list ≡ some turned
  unfolding reverse_ends turned
  ends_lem = ground (
    arith,
    swap_all_lem m (x ∷ xs) list.head once,
    swap_all_lem m (x ∷ xs) list.tail once,
    swap_all_lem m (x ∷ xs) x once,
    swap_all_lem m (x ∷ xs) (last x xs) once,
    prev-last m x xs list.tail v.linked.2,
    next-last m x xs list.tail v.linked.2,
    v.linked.0,
    v.linked.1,
    last-count x xs,
    at_node 0,
    at_node x,
    at_node list.head,
    at_node list.tail,
    v.not_null,
    v.distinct x,
    v.distinct list.head,
    v.distinct list.tail,
  )

  turned_back : Linked turned list.head (rev_append (x ∷ xs) []) list.tail
  unfolding turned
  turned_back =
      let facts = λ (e : ℕ). swap_all_lem m (x ∷ xs) e once in
      Turned-Linked turned list.head x xs [] list.tail
        (Linked-Turned m turned list.head x xs list.tail v.linked.2
          (ground (arith, last-count x xs, at_node list.head, v.distinct list.head, at_node x))
          (ground arith) (λ e c. ground (arith, (facts e).0, at_node e, v.distinct e))
          (λ e c ne. ground (arith, (facts e).1, at_node e, v.distinct e)) once)
        (ground arith, ground (arith, last-count x xs, at_node list.tail, v.distinct list.tail))

  turned-IsList : IsList turned list (rev_append (x ∷ xs) [])
  unfolding turned
  turned-IsList = record {
    front_null = ground (
      arith,
      swap_all_lem m (x ∷ xs) list.head once,
      at_node list.head,
      v.distinct list.head,
      v.front_null,
      last-count x xs,
    );
    back_null = ground (
      arith,
      swap_all_lem m (x ∷ xs) list.tail once,
      at_node list.tail,
      v.distinct list.tail,
      v.back_null,
    );
    linked = turned_back;
    distinct = λ e. ground (
      arith,
      v.distinct e,
      at_node e,
      nodes-count e list.head [] (rev_append (x ∷ xs) []) list.tail,
      count-rev_append e xs (x ∷ []),
    );
    not_null = ground (
      arith,
      v.not_null,
      at_node 0,
      nodes-count 0 list.head [] (rev_append (x ∷ xs) []) list.tail,
      count-rev_append 0 xs (x ∷ []),
    );
  }

-- list_reverse returns, and the list's elements are then in the opposite order.
pub list_reverse_lem :
    (fuel : ℕ) {m : Links} {list : LinkedList} (xs : List ℕ)
    → IsList m list xs
    → length xs < fuel
    → (m' : Links) × (list_reverse fuel m list ≡ some m') × IsList m' list (rev_append xs [])
unfolding list_reverse list_empty
list_reverse_lem fuel {m} {list} [] v f = (m, ground (arith, list_begin_lem [] v), v)
list_reverse_lem fuel {m} {list} (x ∷ xs) v f = (
  turned fuel x xs v,
  rw
      (
        list_begin_lem (x ∷ xs) v,
        not-end [] xs x v,
        reverse_loop_lem fuel m list (x ∷ xs) (Linked-Leads m list.head (x ∷ xs) list.tail v.linked)
            (once fuel x xs v) (ground (arith, v.not_null, at_node fuel x xs v 0))
            (ground (arith, v.distinct list.tail, at_node fuel x xs v list.tail)) f,
      )
      (ends_lem fuel x xs v),
  turned-IsList fuel x xs v,
)

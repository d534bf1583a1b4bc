-- ===== src/KernelLib/List.antt =====
-- lib/kernel/list.c: doubly linked lists, as links between addresses. NULL is address 0.
mod Chain
mod Insert
mod Remove
mod Walk
mod Sort
mod Reverse
mod Unique
mod Tests
use ee461s_projects.Common.{
  ℕ, zero, suc, ◌+◌, Bool, true, false, not, ◌&&◌, ◌||◌, Option, none, some, ◌==◌, if◌then◌else◌,
  update, ◌>>=◌,
}

-- struct list_elem at every address but NULL.
pub record Links : Type 0 where
  pub prev : ℕ → ℕ
  pub next : ℕ → ℕ

-- struct list: the addresses of its two header elements.
pub record LinkedList : Type 0 where
  pub head : ℕ
  pub tail : ℕ

abbrev pub no_elem : ℕ
no_elem = 0

-- `none` is an access through NULL, a failed ASSERT, or a loop that has no fuel left.
abbrev pub get_prev : Links → ℕ → Option ℕ
get_prev m e = if e == no_elem then none else some (m.prev e)

abbrev pub get_next : Links → ℕ → Option ℕ
get_next m e = if e == no_elem then none else some (m.next e)

abbrev pub set_prev : Links → ℕ → ℕ → Option Links
set_prev m e v = if e == no_elem then none else some (record m { prev = update m.prev e v })

abbrev pub set_next : Links → ℕ → ℕ → Option Links
set_next m e v = if e == no_elem then none else some (record m { next = update m.next e v })

unfoldable pub is_head : Links → ℕ → Bool
is_head m elem = not (elem == no_elem) && (m.prev elem == no_elem && not (m.next elem == no_elem))

unfoldable pub is_interior : Links → ℕ → Bool
is_interior m elem =
    not (elem == no_elem) && (not (m.prev elem == no_elem) && not (m.next elem == no_elem))

unfoldable pub is_tail : Links → ℕ → Bool
is_tail m elem = not (elem == no_elem) && (not (m.prev elem == no_elem) && m.next elem == no_elem)

unfoldable pub list_init : Links → LinkedList → Option Links
list_init m list = do
  m1 ← set_prev m list.head no_elem
  m2 ← set_next m1 list.head list.tail
  m3 ← set_prev m2 list.tail list.head
  set_next m3 list.tail no_elem

unfoldable pub list_begin : Links → LinkedList → Option ℕ
list_begin m list = get_next m list.head

unfoldable pub list_rbegin : Links → LinkedList → Option ℕ
list_rbegin m list = get_prev m list.tail

unfoldable pub list_next : Links → ℕ → Option ℕ
unfolding is_head is_interior
list_next m elem = if is_head m elem || is_interior m elem then get_next m elem else none

unfoldable pub list_prev : Links → ℕ → Option ℕ
unfolding is_tail is_interior
list_prev m elem = if is_interior m elem || is_tail m elem then get_prev m elem else none

unfoldable pub list_insert : Links → (before elem : ℕ) → Option Links
unfolding is_tail is_interior
list_insert m before elem =
    if (is_interior m before || is_tail m before) && not (elem == no_elem)
    then (do
      p ← get_prev m before
      m1 ← set_prev m elem p
      m2 ← set_next m1 elem before
      q ← get_prev m2 before
      m3 ← set_next m2 q elem
      set_prev m3 before elem)
    else none

unfoldable pub list_push_front : Links → LinkedList → ℕ → Option Links
list_push_front m list elem = do b ← list_begin m list; list_insert m b elem

unfoldable pub list_push_back : Links → LinkedList → ℕ → Option Links
list_push_back m list elem = list_insert m list.tail elem

-- The element that followed, and the links.
unfoldable pub list_remove : Links → ℕ → Option (ℕ × Links)
unfolding is_interior
list_remove m elem =
    if is_interior m elem
    then (do
      p ← get_prev m elem
      n ← get_next m elem
      m1 ← set_next m p n
      n1 ← get_next m1 elem
      p1 ← get_prev m1 elem
      m2 ← set_prev m1 n1 p1
      r ← get_next m2 elem
      some (r, m2))
    else none

unfoldable pub list_empty : Links → LinkedList → Option Bool
list_empty m list = do b ← list_begin m list; some (b == list.tail)

unfoldable pub list_front : Links → LinkedList → Option ℕ
list_front m list = do empty ← list_empty m list; if empty then none else get_next m list.head

unfoldable pub list_back : Links → LinkedList → Option ℕ
list_back m list = do empty ← list_empty m list; if empty then none else get_prev m list.tail

unfoldable pub list_pop_front : Links → LinkedList → Option (ℕ × Links)
list_pop_front m list = do front ← list_front m list; r ← list_remove m front; some (front, r.1)

unfoldable pub list_pop_back : Links → LinkedList → Option (ℕ × Links)
list_pop_back m list = do back ← list_back m list; r ← list_remove m back; some (back, r.1)

-- The loops. `fuel` bounds the rounds.
unfoldable pub size_loop : (fuel : ℕ) → Links → LinkedList → (e cnt : ℕ) → Option ℕ
size_loop zero m list e cnt = none
size_loop (suc fuel) m list e cnt =
    let more = list_next m e >>= λ n. size_loop fuel m list n (cnt + 1) in
    if e == list.tail then some cnt else more

unfoldable pub list_size : ℕ → Links → LinkedList → Option ℕ
list_size fuel m list = do b ← list_begin m list; size_loop fuel m list b 0

-- for (e = begin; e != end; e = e->prev) swap (&e->prev, &e->next)
unfoldable pub reverse_loop : (fuel : ℕ) → Links → LinkedList → (e : ℕ) → Option Links
reverse_loop zero m list e = none
reverse_loop (suc fuel) m list e =
    let more = get_prev m e >>= λ p. get_next m e >>= λ n. set_prev m e n >>= λ m1.
    set_next m1 e p >>= λ m2. get_prev m2 e >>= λ e'. reverse_loop fuel m2 list e' in
    if e == list.tail then some m else more

-- The swaps at the two ends of list_reverse.
unfoldable pub reverse_ends : Links → LinkedList → Option Links
reverse_ends m list = do
  h ← get_next m list.head
  t ← get_prev m list.tail
  m1 ← set_next m list.head t
  m2 ← set_prev m1 list.tail h
  front ← get_next m2 list.head
  back ← get_prev m2 list.tail
  p ← get_prev m2 front
  n ← get_next m2 back
  m3 ← set_prev m2 front n
  set_next m3 back p

unfoldable pub list_reverse : ℕ → Links → LinkedList → Option Links
list_reverse fuel m list = do
  empty ← list_empty m list
  if empty
      then some m
      else (do b ← list_begin m list; m1 ← reverse_loop fuel m list b; reverse_ends m1 list)

module _ (less : ℕ → ℕ → Bool) where
  unfoldable pub ordered_loop : (fuel : ℕ) → Links → LinkedList → (elem e : ℕ) → Option ℕ
  ordered_loop zero m list elem e = none
  ordered_loop (suc fuel) m list elem e =
      let more = list_next m e >>= λ n. ordered_loop fuel m list elem n in
      if e == list.tail then some e else if less elem e then some e else more

  unfoldable pub list_insert_ordered : ℕ → Links → LinkedList → ℕ → Option Links
  list_insert_ordered fuel m list elem =
      if elem == no_elem
      then none
      else do b ← list_begin m list; e ← ordered_loop fuel m list elem b; list_insert m e elem

  unfoldable pub max_loop : (fuel : ℕ) → Links → LinkedList → (max e : ℕ) → Option ℕ
  max_loop zero m list max e = none
  max_loop (suc fuel) m list max e =
      let more = list_next m e >>= λ n. max_loop fuel m list (if less max e then e else max) n in
      if e == list.tail then some max else more

  unfoldable pub list_max : ℕ → Links → LinkedList → Option ℕ
  list_max fuel m list = do
    max ← list_begin m list
    if max == list.tail then some max else (do e ← list_next m max; max_loop fuel m list max e)

  unfoldable pub min_loop : (fuel : ℕ) → Links → LinkedList → (min e : ℕ) → Option ℕ
  min_loop zero m list min e = none
  min_loop (suc fuel) m list min e =
      let more = list_next m e >>= λ n. min_loop fuel m list (if less e min then e else min) n in
      if e == list.tail then some min else more

  unfoldable pub list_min : ℕ → Links → LinkedList → Option ℕ
  list_min fuel m list = do
    min ← list_begin m list
    if min == list.tail then some min else (do e ← list_next m min; min_loop fuel m list min e)

  unfoldable pub unique_loop :
      (fuel : ℕ) → Links → LinkedList → Option LinkedList → (elem : ℕ) → Option Links
  unique_loop zero m list duplicates elem = none
  unique_loop (suc fuel) m list duplicates elem = list_next m elem >>= λ next.
      let drop_next = list_remove m next >>= λ r.
      elim duplicates [ none ↦ some r.1 | some d ↦ list_push_back r.1 d next ] >>= λ m'.
      unique_loop fuel m' list duplicates elem in
      let keep_next = unique_loop fuel m list duplicates next in
      if next == list.tail
      then some m
      else if not (less elem next) && not (less next elem)
      then drop_next
      else keep_next

  unfoldable pub list_unique : ℕ → Links → LinkedList → Option LinkedList → Option Links
  list_unique fuel m list duplicates = do
    empty ← list_empty m list
    if empty then some m else (do elem ← list_begin m list; unique_loop fuel m list duplicates elem)

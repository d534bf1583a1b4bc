-- ===== src/KernelLib/List/Sort.antt =====
-- lib/kernel/list.c: list_splice, and the merge sort of list_sort. `less` is the caller's, its
-- auxiliary data applied. Each loop runs for at most `fuel` rounds.
pub mod Runs
mod Splice
mod Merge
mod Passes
pub mod Sorted
use ee461s_projects.Common.{
  ℕ, zero, suc, ◌+◌, Bool, true, false, not, ◌&&◌, ◌||◌, Option, none, some, ◌==◌, if◌then◌else◌,
  ltb, ◌>>=◌,
}
use ee461s_projects.KernelLib.List.{
  Links, LinkedList, no_elem, get_prev, get_next, set_prev, set_next, is_interior, is_tail,
  list_next, list_prev, list_begin,
}

unfoldable pub list_splice : Links → (before first last : ℕ) → Option Links
unfolding is_interior is_tail
list_splice m before first last =
    if is_interior m before || is_tail m before
    then (if first == last then some m else (do
      last' ← list_prev m last
      if is_interior m first && is_interior m last'
          then (do
            p ← get_prev m first
            n ← get_next m last'
            m1 ← set_next m p n
            n1 ← get_next m1 last'
            p1 ← get_prev m1 first
            m2 ← set_prev m1 n1 p1
            q ← get_prev m2 before
            m3 ← set_prev m2 first q
            m4 ← set_next m3 last' before
            q1 ← get_prev m4 before
            m5 ← set_next m4 q1 first
            set_prev m5 before last')
          else none))
    else none

module _ (less : ℕ → ℕ → Bool) where
  unfoldable pub sorted_loop : (fuel : ℕ) → Links → (a b : ℕ) → Option Bool
  sorted_loop zero m a b = none
  sorted_loop (suc fuel) m a b = list_next m a >>= λ a'.
      let more = sorted_loop fuel m a' b in
      if a' == b
      then some true
      else (list_prev m a' >>= λ p. if less a' p then some false else more)

  unfoldable pub is_sorted : ℕ → Links → (a b : ℕ) → Option Bool
  is_sorted fuel m a b = if a == b then some true else sorted_loop fuel m a b

  unfoldable pub run_loop : (fuel : ℕ) → Links → (a b : ℕ) → Option ℕ
  run_loop zero m a b = none
  run_loop (suc fuel) m a b = list_next m a >>= λ a'.
      let more = run_loop fuel m a' b in
      if a' == b then some a' else (list_prev m a' >>= λ p. if less a' p then some a' else more)

  unfoldable pub find_end_of_run : ℕ → Links → (a b : ℕ) → Option ℕ
  find_end_of_run fuel m a b =
      if a == no_elem || (b == no_elem || a == b) then none else run_loop fuel m a b

  unfoldable pub merge_loop : (fuel : ℕ) → Links → (a0 a1b0 b1 : ℕ) → Option Links
  merge_loop zero m a0 a1b0 b1 = none
  merge_loop (suc fuel) m a0 a1b0 b1 =
      let keep = list_next m a0 >>= λ a. merge_loop fuel m a a1b0 b1 in
      let move = list_next m a1b0 >>= λ n.
      list_prev m n >>= λ p. list_splice m a0 p n >>= λ m'. merge_loop fuel m' a0 n b1 in
      if not (a0 == a1b0) && not (a1b0 == b1)
      then (if not (less a1b0 a0) then keep else move)
      else some m

  unfoldable pub inplace_merge : ℕ → Links → (a0 a1b0 b1 : ℕ) → Option Links
  inplace_merge fuel m a0 a1b0 b1 =
      if a0 == no_elem || (a1b0 == no_elem || b1 == no_elem) then none else (do
        first_sorted ← is_sorted fuel m a0 a1b0
        second_sorted ← is_sorted fuel m a1b0 b1
        if first_sorted && second_sorted then merge_loop fuel m a0 a1b0 b1 else none)

  -- One pass: the number of runs that it puts out, and the links.
  unfoldable pub pass_loop :
      (rounds fuel : ℕ) → Links → LinkedList → (a0 output_run_cnt : ℕ) → Option (ℕ × Links)
  pass_loop zero fuel m list a0 output_run_cnt = none
  pass_loop (suc rounds) fuel m list a0 output_run_cnt =
      let more = λ (m' : Links) (b1 : ℕ). pass_loop rounds fuel m' list b1 (output_run_cnt + 1) in
      if a0 == list.tail then some (output_run_cnt, m) else (do
        a1b0 ← find_end_of_run fuel m a0 list.tail
        if a1b0 == list.tail then some (output_run_cnt + 1, m) else (do
          b1 ← find_end_of_run fuel m a1b0 list.tail
          m' ← inplace_merge fuel m a0 a1b0 b1
          more m' b1))

  unfoldable pub sort_loop : (rounds fuel : ℕ) → Links → LinkedList → Option Links
  sort_loop zero fuel m list = none
  sort_loop (suc rounds) fuel m list = list_begin m list >>= λ b.
      pass_loop fuel fuel m list b 0 >>= λ r.
      let more = sort_loop rounds fuel r.1 list in if ltb 1 r.0 then more else some r.1

  unfoldable pub list_sort : ℕ → Links → LinkedList → Option Links
  list_sort fuel m list = do
    m' ← sort_loop fuel fuel m list
    b ← list_begin m' list
    sorted ← is_sorted fuel m' b list.tail
    if sorted then some m' else none

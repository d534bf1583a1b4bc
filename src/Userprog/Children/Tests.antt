-- ===== src/Userprog/Children/Tests.antt =====
-- A parent at page 1, its child at page 2 and a stranger.
use ee461s_projects.Common.{
  ◌>>=◌, ℕ, ◌≡◌, ◌≢◌, refl, false, none, some, [], ◌∷◌, arith, count, if◌then◌else◌, ◌==◌, update,
}
use ee461s_projects.Userprog.Children.{
  ChildElem, Process, Machine, process_running, process_done, minus_one, returned, wait_for,
  process_wait, process_exit, thread_exit_process, add_child_to_list, find_child, find_thread,
}
use ee461s_projects.Userprog.Children.Exit.{process_exit-stale}
use ee461s_projects.Userprog.Children.Wait.{Bond, Collected, exit-wait, wait-once}

abbrev parent : Process
parent = record { tid = 7; child_list = 40 ∷ []; child_data = 0 }

abbrev child : Process
child = record { tid = 8; child_list = []; child_data = 40 }

abbrev elem : ChildElem
elem = record {
  out_of_money = false;
  pid = 8;
  parent_pid = 7;
  status = process_running;
  sema = 50;
  exit_status = 0;
  inception = 2;
}

abbrev family : Machine
family = record {
  all_list = 1 ∷ 2 ∷ [];
  processes = λ t. if t == 1 then some parent else if t == 2 then some child else none;
  elems = λ e. if e == 40 then some elem else none;
  semas = λ s. if s == 50 then some 0 else none;
}

found_lem : find_child family.elems 8 parent.child_list ≡ some 40
unfolding find_child
found_lem = refl

abbrev bond : Bond family 1 2 40 8
bond = record {
  parent = parent;
  child = child;
  elem = elem;
  value = 0;
  parent_at = refl;
  child_at = refl;
  elem_at = refl;
  sema_at = refl;
  linked = refl;
  not_null = omega arith;
  found = found_lem;
  others_left = omega arith;
  no_wrap = omega arith;
  once = λ x. omega arith;
  alive = λ x n. absurd (n refl);
  apart = λ x n. refl;
  listed = omega arith;
}

-- The child has exited and its page is freed.
abbrev bereft : Machine
bereft = record family { processes = λ t. if t == 1 then some parent else none }

-- A child that has exited and reported.
abbrev done : ChildElem
done = record elem { status = process_done; exit_status = 3 }

abbrev collectable : Machine
collectable = record bereft {
  elems = λ e. if e == 40 then some done else none;
  semas = λ s. if s == 50 then some 1 else none;
}

abbrev collected : Machine
collected = record {
  all_list = 1 ∷ 2 ∷ [];
  processes = update collectable.processes 1 (some (record parent { child_list = [] }));
  elems = update collectable.elems 40 none;
  semas = update collectable.semas 50 none;
}

-- add_child_to_list makes such a family of two unrelated threads.
abbrev strangers : Machine
strangers = record {
  all_list = 1 ∷ 2 ∷ [];
  processes = λ t.
      if t == 1
      then some (record parent { child_list = [] })
      else if t == 2
      then some (record child { child_data = 0 })
      else none;
  elems = λ e. none;
  semas = λ s. none;
}

adds_child : (add_child_to_list 40 50 0 strangers 1 8 >>= λ m. m.elems 40) ≡ some elem
unfolding add_child_to_list find_thread
adds_child = refl

no_such_child : add_child_to_list 40 50 0 strangers 1 9 ≡ none
unfolding add_child_to_list find_thread
no_such_child = refl

waits_done : wait_for collectable 1 40 ≡ some (returned 3, collected)
unfolding wait_for
waits_done = refl

exit-wait_example :
    (m' m'' : Machine) × (thread_exit_process family 2 3 ≡ some m')
    × (process_wait m' 1 8 ≡ some (returned 3, m''))
    × (wait_for m' 1 40 ≡ some (returned 3, m''))
    × Collected family 1 2 40 8 3 bond m''
exit-wait_example = exit-wait family 1 2 40 8 3 bond

listed_pid :
    (e : ℕ)
    → count e parent.child_list ≢ 0
    → (c : ChildElem) × (family.elems e ≡ some c) × (c.pid ≢ 9)
listed_pid e n = (elem, ground arith, omega arith)

only_child :
    (x : ℕ)
    → count x parent.child_list ≢ 0
    → x ≢ 40
    → (c : ChildElem) × (collectable.elems x ≡ some c) × (c.pid ≢ 8)
only_child x n ne = absurd (ground arith)

wait-once_example : process_wait collected 1 8 ≡ some (returned minus_one, collected)
wait-once_example = wait-once collectable collected 1 40 8 3 parent refl waits_done only_child

process_exit-stale_example : process_exit bereft 1 0 ≡ none
process_exit-stale_example =
    process_exit-stale bereft 1 0 40 parent elem refl (omega arith) refl refl

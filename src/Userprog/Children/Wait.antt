-- ===== src/Userprog/Children/Wait.antt =====
-- process_wait hands the exit status of a child to its parent, once, whichever of the two is first.
use ee461s_projects.Common.{
  ◌>>=◌, ℕ, ◌+◌, ◌%◌, ◌^◌, ◌<◌, ◌≡◌, ◌≢◌, refl, ap, ◌∙◌, false, Option, none, some, List, [], ◌∷◌,
  arith, ◌==◌, update, erase_all, count,
}
use ee461s_projects.Userprog.Children.{
  ChildElem, Process, Machine, process_done, null, minus_one, find_child, find_child_element,
  returned, sleeping, wait_for, process_wait, report_exit, thread_exit_process,
}
use ee461s_projects.Userprog.Children.Exit.{
  allocated_of_children, children, leave_children-Left, leave_children-total, AllLive, OnceEach,
  exit-total,
}

-- The pid that an element holds.
abbrev pid_of : (ℕ → Option ChildElem) → ℕ → Option ℕ
pid_of elems e = elems e >>= λ c. some c.pid

-- The search depends on the pids of the list alone.
find_child-congr :
    (f g : ℕ → Option ChildElem) (pid : ℕ) (list : List ℕ)
    → ((e : ℕ) → count e list ≢ 0 → pid_of f e ≡ pid_of g e)
    → find_child f pid list ≡ find_child g pid list
unfolding find_child
find_child-congr f g pid [] h = refl
find_child-congr f g pid (e ∷ list) h =
    ground (arith, h e, find_child-congr f g pid list (λ x n. h x (ground arith)))

-- What add_child_to_list sets up for the parent `t`, its child `c` and their element `e`.
pub record Bond (m : Machine) (t c e pid : ℕ) : Type 0 where
  pub parent : Process
  pub child : Process
  pub elem : ChildElem
  pub value : ℕ
  pub parent_at : m.processes t ≡ some parent
  pub child_at : m.processes c ≡ some child
  pub elem_at : m.elems e ≡ some elem
  pub sema_at : m.semas elem.sema ≡ some value
  pub linked : child.child_data ≡ e
  pub not_null : e ≢ null
  pub found : find_child m.elems pid parent.child_list ≡ some e
  pub others_left : t ≢ c
  pub no_wrap : value + 1 < 2 ^ 32
  -- The child's children are threads that live, and none of them is a child of the parent.
  pub once : OnceEach child.child_list
  pub alive : AllLive m child.child_list
  pub apart : (x : ℕ) → count x parent.child_list ≢ 0 → count x child.child_list ≡ 0
  pub listed : count e parent.child_list ≢ 0

-- What the exit of the child leaves for the parent.
record Reported (m : Machine) (t e status : ℕ) (parent : Process) (elem : ChildElem) (m' : Machine)
    : Type 0 where
  value : ℕ
  elem_at : m'.elems e ≡ some (record elem { status = process_done; exit_status = status })
  sema_at : m'.semas elem.sema ≡ some value
  positive : (value == 0) ≡ false
  list_at : children m' t ≡ some parent.child_list
  same_pids : (x : ℕ) → count x parent.child_list ≢ 0 → pid_of m'.elems x ≡ pid_of m.elems x

module _ (m : Machine) (t c e pid status : ℕ) (b : Bond m t c e pid) where
  reported : Machine
  reported = record m {
    elems =
        update m.elems e (some (record (b.elem) { status = process_done; exit_status = status }));
    semas = update m.semas b.elem.sema (some ((b.value + 1) % 2 ^ 32));
  }

  report_exit-reported : report_exit m c status ≡ some reported
  unfolding report_exit reported
  report_exit-reported =
      let set : (b.child.child_data == null) ≡ false = ground (arith, b.linked, b.not_null) in
      ground (arith, b.child_at, b.linked, set, b.elem_at, b.sema_at)

  exit-Reported :
      (m' : Machine) × (thread_exit_process m c status ≡ some m')
      × Reported m t e status b.parent b.elem m'
  unfolding reported
  exit-Reported =
      let list = b.child.child_list in
      let (m2, e2) = leave_children-total list reported b.once alive_still in
      let left = leave_children-Left list reported m2 e2 in
      let mine : children reported c ≡ some list = rw (b.child_at) in
      let (m', ok, els, ses, prs) =
        exit-total m reported m2 c status list report_exit-reported mine e2
          (left.same_lists c ∙ mine) in
      (
        m',
        ok,
        record {
          value = (b.value + 1) % 2 ^ 32;
          elem_at = els e ∙ left.others e own ∙ (ground arith);
          sema_at = ses b.elem.sema ∙ left.same_semas b.elem.sema ∙ (ground arith);
          positive = ground (arith, b.no_wrap);
          list_at =
              ap (λ r. r >>= λ p. some p.child_list) (prs t b.others_left)
              ∙ left.same_lists t
              ∙ rw (b.parent_at);
          same_pids = λ x n. ground (arith, els x, left.others x, b.apart x, b.elem_at);
        },
      )
    where
      own : count e b.child.child_list ≡ 0
      own = b.apart e b.listed

      alive_still : AllLive reported b.child.child_list
      alive_still x n = let (d, p, ed, ep) = b.alive x n in (d, p, ground (arith, own), ep)

  -- What process_wait leaves when it has returned.
  abbrev pub Collected : Machine → Type 0
  Collected m'' =
      (m''.elems e ≡ none)
      × (m''.semas b.elem.sema ≡ none)
      × (children m'' t ≡ some (erase_all e b.parent.child_list))

  wait_for-returned :
      (m' : Machine)
      → Reported m t e status b.parent b.elem m'
      → (m'' : Machine) × (wait_for m' t e ≡ some (returned status, m'')) × Collected m''
  unfolding wait_for
  wait_for-returned m' r =
      let (p, ep, lp) = allocated_of_children m' t b.parent.child_list r.list_at in
      (
        record m' {
          processes =
              update m'.processes t (some (record p { child_list = erase_all e p.child_list }));
          elems = update m'.elems e none;
          semas = update m'.semas b.elem.sema none;
        },
        rw (r.elem_at, wait_for)
            (rw (r.sema_at, wait_for) (rw (r.positive, wait_for) (rw (ep, wait_for)))),
        (ground arith, ground arith, ground (arith, lp)),
      )

  find-after :
      (m' : Machine)
      → Reported m t e status b.parent b.elem m'
      → find_child_element m' t pid ≡ some e
  unfolding find_child_element
  find-after m' r =
      let (p, ep, lp) = allocated_of_children m' t b.parent.child_list r.list_at in
      rw (ep, find_child_element)
        (ap (find_child m'.elems pid) lp
          ∙ find_child-congr m'.elems m.elems pid b.parent.child_list r.same_pids
          ∙ b.found)

  -- If `t` is the parent of the running thread `c`, by the element `e` that the search for the pid
  -- finds, the semaphore's value does not wrap around, and the children in the list of `c` are threads
  -- that still live, each once and none of them in the list of `t`, then thread_exit_process (status)
  -- in `c` passes, and in the state that it leaves
  -- process_wait (pid) in `t`, and a process_wait that slept before, both return `status`, free the
  -- element and its semaphore and take the element off the list of children.
  pub exit-wait :
      (m' m'' : Machine) × (thread_exit_process m c status ≡ some m')
      × (process_wait m' t pid ≡ some (returned status, m''))
      × (wait_for m' t e ≡ some (returned status, m''))
      × Collected m''
  unfolding process_wait
  exit-wait =
      let (m', ok, r) = exit-Reported in
      let (m'', wok, c) = wait_for-returned m' r in
      (m', m'', ok, rw (find-after m' r, process_wait) (rw (some_elem, process_wait) wok), wok, c)
    where
      some_elem : (e == null) ≡ false
      some_elem = ground (arith, b.not_null)

  -- Until the child exits, with the semaphore at 0, process_wait sleeps and changes nothing.
  pub wait-sleeps : b.value ≡ 0 → process_wait m t pid ≡ some (sleeping e, m)
  unfolding process_wait find_child_element wait_for
  wait-sleeps z = ground (arith, b.parent_at, b.found, b.not_null, b.elem_at, b.sema_at, z)

-- The search for a pid that no element has.
find_child-null :
    (elems : ℕ → Option ChildElem) (pid : ℕ) (list : List ℕ)
    → ((e : ℕ) → count e list ≢ 0 → (c : ChildElem) × (elems e ≡ some c) × (c.pid ≢ pid))
    → find_child elems pid list ≡ some null
unfolding find_child
find_child-null elems pid [] h = refl
find_child-null elems pid (e ∷ list) h =
    let (c, ec, ne) = h e (ground arith) in
    let rest = find_child-null elems pid list (λ x n. h x (ground arith)) in
    ground (arith, ec, ne, rest)

-- process_wait on a pid that no child of the caller has returns -1 at once and changes nothing.
pub wait-stranger :
    (m : Machine) (t pid : ℕ) (p : Process)
    → m.processes t ≡ some p
    → ((e : ℕ) → count e p.child_list ≢ 0 → (c : ChildElem) × (m.elems e ≡ some c) × (c.pid ≢ pid))
    → process_wait m t pid ≡ some (returned minus_one, m)
unfolding process_wait find_child_element
wait-stranger m t pid p ep h = ground (arith, ep, find_child-null m.elems pid p.child_list h)

wait_for-after :
    (m m' : Machine) (t e status : ℕ) (p : Process)
    → m.processes t ≡ some p
    → wait_for m t e ≡ some (returned status, m')
    → (m'.processes t ≡ some (record p { child_list = erase_all e p.child_list }))
      × ((x : ℕ) → x ≢ e → m'.elems x ≡ m.elems x)
unfolding wait_for
wait_for-after m m' t e status p ep h = (ground arith, λ x ne. ground arith)

-- A child is waited for once: after a process_wait that returned, another one for the same pid
-- returns -1 at once and changes nothing, if no other child in the list has this pid.
pub wait-once :
    (m m' : Machine) (t e pid status : ℕ) (p : Process)
    → m.processes t ≡ some p
    → wait_for m t e ≡ some (returned status, m')
    → ((x : ℕ)
        → count x p.child_list ≢ 0
        → x ≢ e
        → (c : ChildElem) × (m.elems x ≡ some c) × (c.pid ≢ pid))
    → process_wait m' t pid ≡ some (returned minus_one, m')
wait-once m m' t e pid status p ep h others =
    let (left, same) = wait_for-after m m' t e status p ep h in
    wait-stranger m' t pid (record p { child_list = erase_all e p.child_list }) left
      λ x n.
        let (d, ed, ne) = others x (not-erased p.child_list x n) (ne-erased p.child_list x n) in
        (d, same x (ne-erased p.child_list x n) ∙ ed, ne)
  where
    not-erased : (l : List ℕ) (x : ℕ) → count x (erase_all e l) ≢ 0 → count x l ≢ 0
    not-erased [] x n = n
    not-erased (y ∷ l) x n = ground (arith, not-erased l x)

    ne-erased : (l : List ℕ) (x : ℕ) → count x (erase_all e l) ≢ 0 → x ≢ e
    ne-erased [] x n = absurd (n refl)
    ne-erased (y ∷ l) x n = ground (arith, ne-erased l x)

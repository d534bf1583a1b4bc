-- ===== src/Userprog/Children/Exit.antt =====
-- What process_exit leaves alone, and when it passes.
use ee461s_projects.Common.{
  ◌>>=◌, ℕ, ◌≤◌, ◌≡◌, ◌≢◌, refl, Option, none, some, List, [], ◌∷◌, arith, ◌==◌, update, erase_all,
  count, Bool-cases, Option-cases, inl, inr, ap, ◌∙◌,
}
use ee461s_projects.Userprog.Children.{
  ChildElem, Process, Machine, null, report_exit, leave_children, process_exit, thread_exit_process,
}

-- A block that the code reaches.
pub >>=-some :
    {A B : Type 0} (r : Option A) (f : A → Option B) (b : B)
    → (r >>= f) ≡ some b
    → (a : A) × (r ≡ some a) × (f a ≡ some b)
>>=-some none f b e = cc
>>=-some (some a) f b e = (a, refl, e)

-- The list of children that a thread keeps, and what is left of it.
abbrev pub children : Machine → ℕ → Option (List ℕ)
children m t = m.processes t >>= λ p. some p.child_list

-- The member child_data of a thread.
abbrev pub data_of : Machine → ℕ → Option ℕ
data_of m t = m.processes t >>= λ p. some p.child_data

-- The loop of process_exit frees the elements of its list and leaves the others, and it touches no
-- semaphore and no list of children; the threads of the elements know that they have no parent.
pub record Left (list : List ℕ) (m m' : Machine) : Type 0 where
  pub others : (e : ℕ) → count e list ≡ 0 → m'.elems e ≡ m.elems e
  pub freed : (e : ℕ) → count e list ≢ 0 → m'.elems e ≡ none
  pub same_semas : (s : ℕ) → m'.semas s ≡ m.semas s
  pub same_lists : (t : ℕ) → children m' t ≡ children m t
  pub keeps_null : (t : ℕ) → data_of m t ≡ some null → data_of m' t ≡ some null
  pub orphans :
      (e : ℕ) (c : ChildElem)
      → count e list ≢ 0
      → m.elems e ≡ some c
      → data_of m' c.inception ≡ some null

pub leave_children-Left :
    (list : List ℕ) (m m' : Machine) → leave_children m list ≡ some m' → Left list m m'
unfolding leave_children
leave_children-Left [] m m' h = record {
  others = λ e n. cc;
  freed = λ e n. absurd (n refl);
  same_semas = λ s. cc;
  same_lists = λ t. cc;
  keeps_null = λ t n. ground arith;
  orphans = λ e c n ec. absurd (n refl);
}
leave_children-Left (x ∷ list) m m' h =
    let (c, ec, h1) = >>=-some (m.elems x) _ _ h in
    let (p, ep, h2) = >>=-some (m.processes c.inception) _ _ h1 in
    let ih = leave_children-Left list _ m' h2 in
    record {
      others = λ e n. ground (arith, ih.others e);
      freed = λ e n. ground (arith, ih.freed e, ih.others e);
      same_semas = λ s. ih.same_semas s;
      same_lists = λ t. ground (arith, ih.same_lists t);
      keeps_null = λ t n. ground (arith, ih.keeps_null t);
      orphans = λ e c' n e'. ground (arith, ih.orphans e c', ih.keeps_null c.inception);
    }

-- The loop passes if its elements are allocated, once each, and their threads' pages too.
abbrev pub AllLive : Machine → List ℕ → Type 0
AllLive m list =
    (e : ℕ)
    → count e list ≢ 0
    → (c : ChildElem) × (p : Process) × (m.elems e ≡ some c) × (m.processes c.inception ≡ some p)

abbrev pub OnceEach : List ℕ → Type 0
OnceEach list = (e : ℕ) → count e list ≤ 1

-- Overwriting a process keeps it allocated.
update-live :
    (f : ℕ → Option Process) (t u : ℕ) (p q : Process)
    → f u ≡ some q
    → (q' : Process) × (update f t (some p) u ≡ some q')
update-live f t u p q e = elim (Bool-cases (u == t)) [
  | inl same ↦ (p, rw same)
  | inr other ↦ (q, rw other e)
]

pub leave_children-total :
    (list : List ℕ) (m : Machine)
    → OnceEach list
    → AllLive m list
    → (m' : Machine) × (leave_children m list ≡ some m')
unfolding leave_children
leave_children-total [] m once live = (m, refl)
leave_children-total (x ∷ list) m once live =
    let (c, p, ec, ep) = live x (ground arith) in
    let m1 : Machine = record m {
      processes = update m.processes c.inception (some (record p { child_data = null }));
      elems = update m.elems x none;
    } in
    let (m', e) = leave_children-total list m1 (λ e. ground (arith, once e)) (still c p) in
    (m', rw (ec, ep, leave_children) e)
  where
    still :
        (c : ChildElem) (p : Process)
        → AllLive
            (record m {
              processes = update m.processes c.inception (some (record p { child_data = null }));
              elems = update m.elems x none;
            })
            list
    still c p e n =
        let (d, q, ed, eq) = live e (ground arith) in
        let (q', eq') =
          update-live m.processes c.inception d.inception (record p { child_data = null }) q eq in
        (d, q', ground (arith, once e, ed), eq')

-- A thread with a list of children is allocated.
pub allocated_of_children :
    (m : Machine) (t : ℕ) (list : List ℕ)
    → children m t ≡ some list
    → (p : Process) × (m.processes t ≡ some p) × (p.child_list ≡ list)
allocated_of_children m t list h = let (p, e, h') = >>=-some (m.processes t) _ list h in (p, e, cc)

process_exit-total :
    (m m1 m2 : Machine) (t status : ℕ) (list : List ℕ)
    → report_exit m t status ≡ some m1
    → children m1 t ≡ some list
    → leave_children m1 list ≡ some m2
    → children m2 t ≡ some list
    → (p : Process) × (process_exit m t status
        ≡ some
            (record m2 { processes = update m2.processes t (some (record p { child_list = [] })) }))
unfolding process_exit
process_exit-total m m1 m2 t status list e1 c1 e2 c2 =
    let (p, ep, lp) = allocated_of_children m1 t list c1 in
    let (q, eq, lq) = allocated_of_children m2 t list c2 in
    (
      q,
      rw (e1, process_exit)
          (rw (ep, process_exit) (rw (lp, e2, process_exit) (rw (eq, process_exit)))),
    )

-- thread_exit_process, by its parts.
pub exit-total :
    (m m1 m2 : Machine) (t status : ℕ) (list : List ℕ)
    → report_exit m t status ≡ some m1
    → children m1 t ≡ some list
    → leave_children m1 list ≡ some m2
    → children m2 t ≡ some list
    → (m' : Machine) × (thread_exit_process m t status ≡ some m')
      × ((e : ℕ) → m'.elems e ≡ m2.elems e)
      × ((s : ℕ) → m'.semas s ≡ m2.semas s)
      × ((u : ℕ) → u ≢ t → m'.processes u ≡ m2.processes u)
unfolding thread_exit_process
exit-total m m1 m2 t status list e1 c1 e2 c2 =
    let (p, e) = process_exit-total m m1 m2 t status list e1 c1 e2 c2 in
    (
      record m2 {
        all_list = erase_all t m2.all_list;
        processes = update (update m2.processes t (some (record p { child_list = [] }))) t none;
      },
      rw (e, thread_exit_process),
      λ e. refl,
      λ s. refl,
      λ u ne. ground arith,
    )

report_keeps :
    (m m1 : Machine) (t status e : ℕ) (c : ChildElem)
    → report_exit m t status ≡ some m1
    → m.elems e ≡ some c
    → ((u : ℕ) → m1.processes u ≡ m.processes u)
      × (d : ChildElem) × (m1.elems e ≡ some d)
      × (d.inception ≡ c.inception)
unfolding report_exit
report_keeps m m1 t status e c h ec = elim (Option-cases (m1.elems e)) [
  | inl z ↦ absurd (ground arith)
  | inr (d, ed) ↦ (λ u. ground arith, d, ed, ground arith)
]

-- The loop stops at the first element whose thread is gone.
stale_list :
    (list : List ℕ) (m : Machine) (e : ℕ) (c : ChildElem)
    → count e list ≢ 0
    → m.elems e ≡ some c
    → m.processes c.inception ≡ none
    → leave_children m list ≡ none
unfolding leave_children
stale_list [] m e c n ec stale = absurd (n refl)
stale_list (x ∷ list) m e c n ec stale = elim (Option-cases (m.elems x)) [
  | inl z ↦ rw (z, leave_children)
  | inr (d, ed) ↦ elim (Option-cases (m.processes d.inception)) [
    | inl z ↦ rw (ed, leave_children) (rw (z, leave_children))
    | inr (p, ep) ↦
        let ne : e ≢ x = ground arith in
        rw (ed, leave_children)
          (rw (ep, leave_children)
            (stale_list list _ e c (ground arith) (ground arith) (ground arith)))
  ]
]

-- If the list of children of an exiting thread still has an element whose thread has been freed,
-- because it exited and was not waited for, then process_exit writes through the element's
-- `inception` into that freed page.
pub process_exit-stale :
    (m : Machine) (t status e : ℕ) (p : Process) (c : ChildElem)
    → m.processes t ≡ some p
    → count e p.child_list ≢ 0
    → m.elems e ≡ some c
    → m.processes c.inception ≡ none
    → process_exit m t status ≡ none
unfolding process_exit
process_exit-stale m t status e p c ep n ec stale = elim (Option-cases (report_exit m t status)) [
  | inl z ↦ rw (z, process_exit)
  | inr (m1, e1) ↦
      let (same, d, ed, inc) = report_keeps m m1 t status e c e1 ec in
      rw (e1, process_exit)
        (rw (same t ∙ ep, process_exit)
          (rw (
            stale_list p.child_list m1 e d n ed (same d.inception ∙ ap m.processes inc ∙ stale),
            process_exit,
          )))
]

-- ===== src/Threads/Queues/Switch.antt =====
-- schedule finds a thread to run and keeps the lists right.
use ee461s_projects.Common.{
  ℕ, ◌≡◌, ◌≢◌, true, false, not, ◌&&◌, ◌||◌, inl, inr, none, List, [], ◌∷◌, arith, ◌==◌,
  if◌then◌else◌, Bool-cases, count, update, refl, ap,
}
use ee461s_projects.Threads.Kernel.{
  Kernel, is_running, is_ready, is_blocked, is_dying, status_of, set_status, running, null,
  thread_schedule_tail, schedule, next_thread_to_run, is_thread,
}
use ee461s_projects.Threads.Queues.Defs.{Queued, NoneRuns, IsValid, Ends, Ends-else}

-- A thread that schedule may switch to: `rest` is the run queue without it.
record IsNext (k : Kernel) (next : ℕ) (rest : List ℕ) : Type 0 where
  alive : is_dying (status_of k next) ≡ false
  idle_or_ready : is_blocked (status_of k next) && not (next == k.idle_thread) ≡ false
  rest_count :
      (t : ℕ)
      → count t rest ≡ (
          if is_ready (status_of k t) && (not (t == k.idle_thread) && not (t == next))
          then 1
          else 0)

abbrev resumed : Kernel → ℕ → List ℕ → Kernel
resumed k next rest =
    record (set_status (record k { current = next; ready_list = rest }) next running) {
      thread_ticks = 0;
    }

abbrev freed : Kernel → ℕ → Kernel
freed k t = record k { threads = update k.threads t (record (k.threads t) { live = false }) }

resumed-IsValid :
    (k : Kernel) (next : ℕ) (rest : List ℕ)
    → Queued k
    → NoneRuns k
    → IsNext k next rest
    → IsValid (resumed k next rest)
resumed-IsValid k next rest q none_runs nx = record {
  queued = record {
    ready_count = λ t. ground (arith, nx.rest_count t);
    wait_count = λ t s. ground (arith, q.wait_count t s, nx.idle_or_ready, q.idle_outside);
    live = λ t. ground (arith, q.live t, nx.alive);
    null_dead = ground (arith, q.null_dead, nx.alive);
    idle_alive = ground (arith, q.idle_alive);
    idle_outside = ground (arith, q.idle_outside);
  };
  one_runs = λ t. ground (arith, none_runs t);
}

freed-IsValid :
    (k : Kernel) (t : ℕ) → IsValid k → is_dying (status_of k t) ≡ true → IsValid (freed k t)
freed-IsValid k t v d = record {
  queued = record {
    ready_count = λ u. ground (arith, v.queued.ready_count u);
    wait_count = λ u s. ground (arith, v.queued.wait_count u s);
    live = λ u. ground (arith, v.queued.live u);
    null_dead = ground (arith, v.queued.null_dead);
    idle_alive = ground (arith, v.queued.idle_alive);
    idle_outside = ground (arith, v.queued.idle_outside);
  };
  one_runs = λ u. ground (arith, v.one_runs u);
}

tail-IsValid :
    (k : Kernel) (prev next : ℕ) (rest : List ℕ)
    → Queued k
    → NoneRuns k
    → IsNext k next rest
    → prev ≢ next
    → Ends IsValid (thread_schedule_tail prev (record k { current = next; ready_list = rest }))
unfolding thread_schedule_tail
tail-IsValid k prev next rest q none_runs nx ne =
    let r = resumed k next rest in
    let v = resumed-IsValid k next rest q none_runs nx in
    elim (Bool-cases
      (not (prev == null) && is_dying (status_of r prev) && not (prev == k.initial_thread))) [
        | inl frees ↦
            rw (frees, thread_schedule_tail)
              (Ends-else IsValid (prev == next) (freed r prev) other
                (freed-IsValid r prev v (ground arith)))
        | inr stays ↦ rw (stays, thread_schedule_tail) v
      ]
  where
    other : (prev == next) ≡ false
    other = ground arith

next-nil : (k : Kernel) → k.ready_list ≡ [] → next_thread_to_run k ≡ (k.idle_thread, k)
unfolding next_thread_to_run
next-nil k e = ground arith

next-cons :
    (k : Kernel) (t : ℕ) (rest : List ℕ)
    → k.ready_list ≡ t ∷ rest
    → next_thread_to_run k ≡ (t, record k { ready_list = rest })
unfolding next_thread_to_run
next-cons k t rest e = ground arith

IsNext-idle : (k : Kernel) → Queued k → IsNext k k.idle_thread k.ready_list
IsNext-idle k q = record {
  alive = q.idle_alive;
  idle_or_ready = ground arith;
  rest_count = λ u. ground (arith, q.ready_count u);
}

IsNext-head :
    (k : Kernel) (t : ℕ) (rest : List ℕ) → Queued k → k.ready_list ≡ t ∷ rest → IsNext k t rest
IsNext-head k t rest q e = record {
  alive = ground (arith, q.ready_count t, ap (count t) e);
  idle_or_ready = ground (arith, q.ready_count t, ap (count t) e);
  rest_count =
      λ u. ground (arith, q.ready_count u, q.ready_count t, ap (count u) e, ap (count t) e);
}

-- Between the moment when the current thread stops to run and the switch, schedule finds a next
-- thread: the head of the run queue, or the idle thread.
pub schedule-IsValid : (k : Kernel) → Queued k → NoneRuns k → Ends IsValid (schedule k)
unfolding schedule is_thread
schedule-IsValid k q none_runs = with_list k.ready_list refl
  where
    -- the switch, once the queue is known
    switch :
        (next : ℕ) (rest : List ℕ)
        → IsNext k next rest
        → Ends IsValid (
            if is_running (status_of k k.current)
              || not (not (next == null) && (k.threads next).live)
            then none
            else thread_schedule_tail
                (if k.current == next then null else k.current)
                (record k { current = next; ready_list = rest }))
    switch next rest nx =
        let passed : (is_running (status_of k k.current)
              || not (not (next == null) && (k.threads next).live))
            ≡ false =
          ground (arith, none_runs k.current, q.live next, nx.alive, q.null_dead) in
        rw passed (
          tail-IsValid k (if k.current == next then null else k.current) next rest q none_runs nx
            (ground (arith, q.null_dead, nx.alive)))

    with_list : (l : List ℕ) → k.ready_list ≡ l → Ends IsValid (schedule k)
    with_list [] e =
        rw (next-nil k e, schedule) (switch k.idle_thread k.ready_list (IsNext-idle k q))
    with_list (t ∷ rest) e =
        rw (next-cons k t rest e, schedule) (switch t rest (IsNext-head k t rest q e))

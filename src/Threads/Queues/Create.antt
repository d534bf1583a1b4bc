-- ===== src/Threads/Queues/Create.antt =====
-- thread_create keeps the queues right.
use ee461s_projects.Common.{
  ℕ, ◌≤◌, ◌+◌, ◌%◌, ◌^◌, ◌≡◌, ◌≢◌, true, false, some, [], ◌∷◌, ◌++◌, arith, ◌==◌, ℕ_discrete,
  count-append, update, leb,
}
use ee461s_projects.Threads.Kernel.{
  Kernel, outside, is_blocked, is_dying, status_of, set_status, blocked, ready, null, is_thread,
  thread_unblock, thread_create, pri_max,
}
use ee461s_projects.Threads.System.{state}
use ee461s_projects.Threads.Queues.Defs.{IsValid, Ends}

-- The new thread before it is put on the run queue, and then.
abbrev pub made : Kernel → (page priority : ℕ) → Kernel
made k page priority = record k {
  threads = update k.threads page (record {
    tid = k.next_tid;
    status = blocked;
    priority = priority;
    position = outside;
    live = true;
  });
  all_list = k.all_list ++ (page ∷ []);
  next_tid = (k.next_tid + 1) % 2 ^ 32;
}

abbrev pub queued : Kernel → ℕ → Kernel
queued k t = set_status (record k { ready_list = k.ready_list ++ (t ∷ []) }) t ready

abbrev pub created : Kernel → (page priority : ℕ) → Kernel
created k page priority = queued (made k page priority) page

pub thread_unblock-queued :
    (k : Kernel) (t : ℕ)
    → is_thread k t ≡ true
    → is_blocked (status_of k t) ≡ true
    → thread_unblock t k ≡ some (queued k t)
unfolding thread_unblock
thread_unblock-queued k t a b = rw (a, b, thread_unblock)

pub created-IsValid :
    (k : Kernel) (page priority : ℕ)
    → IsValid k
    → page ≢ null
    → (k.threads page).live ≡ false
    → IsValid (created k page priority)
created-IsValid k page priority v ne fresh = record {
  queued = record {
    ready_count = λ u. ground (
      arith,
      v.queued.ready_count u,
      count-append u k.ready_list (page ∷ []),
      dead,
      v.queued.idle_alive,
    );
    wait_count = λ u r. ground (arith, v.queued.wait_count u r, dead);
    live = λ u. ground (arith, v.queued.live u);
    null_dead = ground (arith, v.queued.null_dead);
    idle_alive = ground (arith, v.queued.idle_alive);
    idle_outside = ground (arith, v.queued.idle_outside);
  };
  one_runs = λ u. ground (arith, v.one_runs u, v.one_runs page, dead);
}
  where
    dead : is_dying (status_of k page) ≡ true
    dead = ground (arith, v.queued.live page)

pub thread_create-created :
    (k : Kernel) (page priority : ℕ)
    → page ≢ null
    → priority ≤ pri_max
    → thread_create page priority k ≡ some (k.next_tid, created k page priority)
unfolding thread_create is_thread
thread_create-created k page priority ne p =
    let e : (page == null) ≡ false = ground arith in
    let small : leb priority pri_max ≡ true = ground arith in
    rw (e, small, thread_create)
      (rw (thread_unblock-queued (made k page priority) page (is_made e) (ground arith)))
  where
    is_made : (page == null) ≡ false → is_thread (made k page priority) page ≡ true
    is_made e = ground arith

pub thread_create-IsValid :
    (k : Kernel) (page priority : ℕ)
    → IsValid k
    → priority ≤ pri_max
    → (k.threads page).live ≡ false
    → Ends IsValid (state (thread_create page priority k))
unfolding thread_create
thread_create-IsValid k page priority v p fresh = elim (ℕ_discrete page null) [
  | yes e ↦ rw (e, thread_create) v
  | no ne ↦
      rw (thread_create-created k page priority ne p) (created-IsValid k page priority v ne fresh)
]

-- ===== src/Threads/Queues/Semaphores.antt =====
-- sema_down and sema_up keep the queues right.
use ee461s_projects.Common.{
  ℕ, ◌-◌, ◌≡◌, ◌≢◌, true, false, some, List, [], ◌∷◌, ◌++◌, arith, ◌==◌, Bool-cases, inl, inr,
  count, count-append, update, refl, ap,
}
use ee461s_projects.Threads.Kernel.{
  Kernel, Position, is_blocked, status_of, set_status, ready, null, thread_unblock,
}
use ee461s_projects.Threads.Synch.{set_semaphore, set_position, sema_down_round, sema_up}
use ee461s_projects.Threads.Queues.Defs.{waits, IsValid, Ends}
use ee461s_projects.Threads.Queues.Park.{waits_one, sleep-IsValid}

-- The current thread moves on inside synch.c.
pub position-IsValid :
    (k : Kernel) (p : Position) (h : ℕ → ℕ)
    → IsValid k
    → k.current ≢ k.idle_thread
    → IsValid (set_position (record k { holders = h }) k.current p)
position-IsValid k p h v ne = record {
  queued = record {
    ready_count = λ t. ground (arith, v.queued.ready_count t);
    wait_count = λ t s. ground (arith, v.queued.wait_count t s, v.one_runs t);
    live = λ t. ground (arith, v.queued.live t);
    null_dead = ground (arith, v.queued.null_dead);
    idle_alive = ground (arith, v.queued.idle_alive);
    idle_outside = ground (arith, v.queued.idle_outside);
  };
  one_runs = λ t. ground (arith, v.one_runs t);
}

-- A semaphore's value is of no matter to the lists.
pub value-IsValid :
    (k : Kernel) (s n : ℕ)
    → IsValid k
    → IsValid (set_semaphore k s (record (k.semaphores s) { value = n }))
value-IsValid k s n v = record {
  queued = record {
    ready_count = v.queued.ready_count;
    wait_count = λ t r. ground (arith, v.queued.wait_count t r);
    live = v.queued.live;
    null_dead = v.queued.null_dead;
    idle_alive = v.queued.idle_alive;
    idle_outside = v.queued.idle_outside;
  };
  one_runs = v.one_runs;
}

pub sema_down_round-IsValid :
    (k : Kernel) (s : ℕ) (p : Position)
    → IsValid k
    → k.current ≢ k.idle_thread
    → waits (k.threads k.current).position s ≡ true
    → Ends IsValid (sema_down_round s p k)
unfolding sema_down_round
sema_down_round-IsValid k s p v ne w = elim (Bool-cases ((k.semaphores s).value == 0)) [
  | inl e ↦ rw (e, sema_down_round) (sleep-IsValid k s v ne w)
  | inr e ↦
      rw (e, sema_down_round)
        (position-IsValid _ p k.holders (value-IsValid k s ((k.semaphores s).value - 1) v) ne)
]

-- What the lists say of the first waiter.
pub waiter_lem :
    (k : Kernel) (s t : ℕ) (rest : List ℕ)
    → IsValid k
    → (k.semaphores s).waiters ≡ t ∷ rest
    → (is_blocked (status_of k t) ≡ true)
      × (waits (k.threads t).position s ≡ true)
      × ((k.threads t).live ≡ true)
      × ((t == null) ≡ false)
      × ((t == k.idle_thread) ≡ false)
waiter_lem k s t rest v e = (b, w, l, n, i)
  where
    b : is_blocked (status_of k t) ≡ true
    b = ground (arith, v.queued.wait_count t s, ap (count t) e)

    w : waits (k.threads t).position s ≡ true
    w = ground (arith, v.queued.wait_count t s, ap (count t) e)

    l : (k.threads t).live ≡ true
    l = ground (arith, b, v.queued.live t)

    n : (t == null) ≡ false
    n = ground (arith, b, v.queued.null_dead)

    i : (t == k.idle_thread) ≡ false
    i = ground (arith, w, v.queued.idle_outside)

-- The first waiter, taken off the list and put on the run queue.
abbrev pub woken : Kernel → (s t : ℕ) → List ℕ → Kernel
woken k s t rest =
    set_status
      (record k {
        ready_list = k.ready_list ++ (t ∷ []);
        semaphores = update k.semaphores s (record (k.semaphores s) { waiters = rest });
      })
      t ready

pub woken-IsValid :
    (k : Kernel) (s t : ℕ) (rest : List ℕ)
    → IsValid k
    → (k.semaphores s).waiters ≡ t ∷ rest
    → IsValid (woken k s t rest)
woken-IsValid k s t rest v e =
    let (b, w, l, n, i) = waiter_lem k s t rest v e in
    record {
      queued = record {
        ready_count =
            λ u. ground (arith, v.queued.ready_count u, count-append u k.ready_list (t ∷ []), b, i);
        wait_count = λ u r. ground (
          arith,
          v.queued.wait_count u r,
          v.queued.wait_count u s,
          ap (count u) e,
          waits_one (k.threads t).position s r w,
        );
        live = λ u. ground (arith, v.queued.live u, b);
        null_dead = ground (arith, v.queued.null_dead, n);
        idle_alive = ground (arith, v.queued.idle_alive);
        idle_outside = ground (arith, v.queued.idle_outside);
      };
      one_runs = λ u. ground (arith, v.one_runs u, b);
    }

pub thread_unblock-woken :
    (k : Kernel) (s t : ℕ) (rest : List ℕ)
    → IsValid k
    → (k.semaphores s).waiters ≡ t ∷ rest
    → thread_unblock t (set_semaphore k s (record (k.semaphores s) { waiters = rest }))
      ≡ some (woken k s t rest)
unfolding thread_unblock
thread_unblock-woken k s t rest v e =
    let (b, w, l, n, i) = waiter_lem k s t rest v e in rw (b, l, n, thread_unblock)

pub sema_up-IsValid : (k : Kernel) (s : ℕ) → IsValid k → Ends IsValid (sema_up s k)
unfolding sema_up
sema_up-IsValid k s v = with_list (k.semaphores s).waiters refl
  where
    with_list : (l : List ℕ) → (k.semaphores s).waiters ≡ l → Ends IsValid (sema_up s k)
    with_list [] e = rw (e, sema_up) (value-IsValid k s _ v)
    with_list (t ∷ rest) e =
        rw (e, sema_up)
          (rw (thread_unblock-woken k s t rest v e)
            (value-IsValid (woken k s t rest) s _ (woken-IsValid k s t rest v e)))

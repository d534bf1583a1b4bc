-- ===== src/Threads/Queues/Park.antt =====
-- The ways in which the current thread stops to run: it blocks, yields or exits.
use ee461s_projects.Common.{
  ℕ, ◌≡◌, ◌≢◌, true, false, [], ◌∷◌, ◌++◌, arith, ◌==◌, Bool-cases, inl, inr, count-append,
  erase_all,
}
use ee461s_projects.Threads.Kernel.{
  Kernel, Position, outside, in_down, acquiring, acquired, releasing, set_status, blocked, ready,
  dying, thread_block, thread_yield, thread_exit,
}
use ee461s_projects.Threads.Synch.{set_semaphore}
use ee461s_projects.Threads.Queues.Defs.{waits, Queued, IsValid, Ends}
use ee461s_projects.Threads.Queues.Switch.{schedule-IsValid}

pub waits_one : (p : Position) (s r : ℕ) → waits p s ≡ true → waits p r ≡ (r == s)
waits_one outside s r h = cc
waits_one (in_down t) s r h = ground arith
waits_one (acquiring t) s r h = ground arith
waits_one (acquired t) s r h = cc
waits_one (releasing t) s r h = cc

-- thread_yield, by any thread at any position: the timer interrupt calls it.
pub thread_yield-IsValid : (k : Kernel) → IsValid k → Ends IsValid (thread_yield k)
unfolding thread_yield
thread_yield-IsValid k v = elim (Bool-cases (k.current == k.idle_thread)) [
  | inl e ↦
      rw (e, thread_yield)
        (schedule-IsValid (set_status k k.current ready) (queued_idle e)
          (λ t. ground (arith, v.one_runs t)))
  | inr e ↦
      rw (e, thread_yield)
        (schedule-IsValid
          (set_status (record k { ready_list = k.ready_list ++ (k.current ∷ []) }) k.current ready)
          (queued_other e) (λ t. ground (arith, v.one_runs t)))
]
  where
    queued_idle : (k.current == k.idle_thread) ≡ true → Queued (set_status k k.current ready)
    queued_idle e = record {
      ready_count = λ t. ground (arith, v.queued.ready_count t, v.one_runs t);
      wait_count = λ t s. ground (arith, v.queued.wait_count t s, v.one_runs t);
      live = λ t. ground (arith, v.queued.live t, v.one_runs t);
      null_dead = ground (arith, v.queued.null_dead, v.one_runs k.current);
      idle_alive = ground (arith, v.queued.idle_alive);
      idle_outside = ground (arith, v.queued.idle_outside);
    }

    queued_other :
        (k.current == k.idle_thread) ≡ false
        → Queued (
            set_status (record k { ready_list = k.ready_list ++ (k.current ∷ []) }) k.current ready)
    queued_other e = record {
      ready_count = λ t. ground (
        arith,
        v.queued.ready_count t,
        v.one_runs t,
        count-append t k.ready_list (k.current ∷ []),
      );
      wait_count = λ t s. ground (arith, v.queued.wait_count t s, v.one_runs t);
      live = λ t. ground (arith, v.queued.live t, v.one_runs t);
      null_dead = ground (arith, v.queued.null_dead, v.one_runs k.current);
      idle_alive = ground (arith, v.queued.idle_alive);
      idle_outside = ground (arith, v.queued.idle_outside);
    }

-- sema_down's sleep: the current thread, which is not the idle thread and stands in the loop for
-- this semaphore, goes to the end of the semaphore's list and blocks.
pub sleep-IsValid :
    (k : Kernel) (s : ℕ)
    → IsValid k
    → k.current ≢ k.idle_thread
    → waits (k.threads k.current).position s ≡ true
    → Ends IsValid (
        thread_block (
          set_semaphore k s
            (record (k.semaphores s) { waiters = (k.semaphores s).waiters ++ (k.current ∷ []) })))
unfolding thread_block
sleep-IsValid k s v ne w =
    schedule-IsValid (set_status k' k.current blocked) asleep (λ t. ground (arith, v.one_runs t))
  where
    k' : Kernel
    k' =
        set_semaphore k s
          (record (k.semaphores s) { waiters = (k.semaphores s).waiters ++ (k.current ∷ []) })

    asleep : Queued (set_status k' k.current blocked)
    asleep = record {
      ready_count = λ t. ground (arith, v.queued.ready_count t, v.one_runs t);
      wait_count = λ t r. ground (
        arith,
        v.queued.wait_count t r,
        v.one_runs t,
        count-append t (k.semaphores s).waiters (k.current ∷ []),
        only r,
      );
      live = λ t. ground (arith, v.queued.live t, v.one_runs t);
      null_dead = ground (arith, v.queued.null_dead, v.one_runs k.current);
      idle_alive = ground (arith, v.queued.idle_alive);
      idle_outside = ground (arith, v.queued.idle_outside);
    }
      where
        only : (r : ℕ) → waits (k.threads k.current).position r ≡ (r == s)
        only r = waits_one (k.threads k.current).position s r w

-- The idle thread blocks without a list.
pub idle_block-IsValid :
    (k : Kernel) → IsValid k → k.current ≡ k.idle_thread → Ends IsValid (thread_block k)
unfolding thread_block
idle_block-IsValid k v e =
    schedule-IsValid (set_status k k.current blocked) asleep (λ t. ground (arith, v.one_runs t))
  where
    asleep : Queued (set_status k k.current blocked)
    asleep = record {
      ready_count = λ t. ground (arith, v.queued.ready_count t, v.one_runs t);
      wait_count =
          λ t r. ground (arith, v.queued.wait_count t r, v.one_runs t, v.queued.idle_outside);
      live = λ t. ground (arith, v.queued.live t, v.one_runs t);
      null_dead = ground (arith, v.queued.null_dead, v.one_runs k.current);
      idle_alive = ground (arith, v.queued.idle_alive);
      idle_outside = ground (arith, v.queued.idle_outside);
    }

-- thread_exit
pub thread_exit-IsValid :
    (k : Kernel) → IsValid k → k.current ≢ k.idle_thread → Ends IsValid (thread_exit k)
unfolding thread_exit
thread_exit-IsValid k v ne =
    schedule-IsValid (set_status k' k.current dying) gone (λ t. ground (arith, v.one_runs t))
  where
    k' : Kernel
    k' = record k { all_list = erase_all k.current k.all_list }

    gone : Queued (set_status k' k.current dying)
    gone = record {
      ready_count = λ t. ground (arith, v.queued.ready_count t, v.one_runs t);
      wait_count = λ t r. ground (arith, v.queued.wait_count t r, v.one_runs t);
      live = λ t. ground (arith, v.queued.live t, v.one_runs t);
      null_dead = ground (arith, v.queued.null_dead, v.one_runs k.current);
      idle_alive = ground (arith, v.queued.idle_alive);
      idle_outside = ground (arith, v.queued.idle_outside);
    }

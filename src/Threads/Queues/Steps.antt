-- ===== src/Threads/Queues/Steps.antt =====
-- Every allowed move passes the ASSERTs of the code and keeps the lists right.
use ee461s_projects.Common.{
  ℕ, ◌≡◌, ◌≢◌, Bool, true, false, arith, ◌==◌, Bool-cases, inl, inr, refl, subst, ltb,
}
use ee461s_projects.Threads.Kernel.{
  Kernel, Position, outside, in_down, acquiring, acquired, releasing,
}
use ee461s_projects.Threads.Synch.{
  sema_try_down, lock_acquire, lock_acquire_end, lock_try_acquire, lock_release,
  lock_held_by_current_thread,
}
use ee461s_projects.Threads.System.{
  Move, go_on, yield, idle_block, exit, down, up, try_down, acquire, try_acquire, release, create,
  resume, state, move, Allowed, Reach, start, next,
}
use ee461s_projects.Threads.Queues.Defs.{IsValid, Ends}
use ee461s_projects.Threads.Queues.Park.{
  thread_yield-IsValid, idle_block-IsValid, thread_exit-IsValid,
}
use ee461s_projects.Threads.Queues.Create.{thread_create-IsValid}
use ee461s_projects.Threads.Queues.Semaphores.{
  position-IsValid, value-IsValid, sema_down_round-IsValid, sema_up-IsValid,
}

sema_try_down-IsValid : (k : Kernel) (s : ℕ) → IsValid k → IsValid (sema_try_down s k).1
unfolding sema_try_down
sema_try_down-IsValid k s v = elim (Bool-cases (ltb 0 (k.semaphores s).value)) [
  | inl e ↦ rw (e, sema_try_down) (value-IsValid k s _ v)
  | inr e ↦ rw (e, sema_try_down) v
]

-- The holder of a lock is of no matter to the lists.
holders-IsValid : (k : Kernel) (h : ℕ → ℕ) → IsValid k → IsValid (record k { holders = h })
holders-IsValid k h v = record {
  queued = record {
    ready_count = v.queued.ready_count;
    wait_count = v.queued.wait_count;
    live = v.queued.live;
    null_dead = v.queued.null_dead;
    idle_alive = v.queued.idle_alive;
    idle_outside = v.queued.idle_outside;
  };
  one_runs = v.one_runs;
}

resume-IsValid :
    (k : Kernel) (p : Position)
    → IsValid k
    → k.current ≢ k.idle_thread
    → (k.threads k.current).position ≡ p
    → Ends IsValid (resume p k)
unfolding resume lock_acquire_end
resume-IsValid k outside v ne e = v
resume-IsValid k (in_down s) v ne e = sema_down_round-IsValid k s outside v ne (rw e (ground arith))
resume-IsValid k (acquiring l) v ne e =
    sema_down_round-IsValid k l (acquired l) v ne (rw e (ground arith))
resume-IsValid k (acquired l) v ne e = position-IsValid k outside _ v ne
resume-IsValid k (releasing l) v ne e =
    sema_up-IsValid _ l (position-IsValid k outside k.holders v ne)

lock_try_acquire-IsValid :
    (k : Kernel) (l : ℕ)
    → IsValid k
    → k.current ≢ k.idle_thread
    → k.holders l ≢ k.current
    → Ends IsValid (state (lock_try_acquire l k))
unfolding lock_try_acquire
lock_try_acquire-IsValid k l v ni ne =
    let e : (k.holders l == k.current) ≡ false = ground arith in
    rw (e, lock_try_acquire)
      (elim (Bool-cases (ltb 0 (k.semaphores l).value)) [
        | inl more ↦
            rw (more, lock_try_acquire)
              (position-IsValid _ (acquired l) _ (value-IsValid k l _ v) ni)
        | inr none_left ↦ rw (none_left, lock_try_acquire) v
      ])

lock_acquire-IsValid :
    (k : Kernel) (l : ℕ)
    → IsValid k
    → k.current ≢ k.idle_thread
    → k.holders l ≢ k.current
    → Ends IsValid (lock_acquire l k)
unfolding lock_acquire
lock_acquire-IsValid k l v ne free =
    let e : (k.holders l == k.current) ≡ false = ground arith in
    rw (e, lock_acquire) (position-IsValid k (acquiring l) k.holders v ne)

lock_release-IsValid :
    (k : Kernel) (l : ℕ)
    → IsValid k
    → k.current ≢ k.idle_thread
    → k.holders l ≡ k.current
    → Ends IsValid (lock_release l k)
unfolding lock_release lock_held_by_current_thread
lock_release-IsValid k l v ne held =
    let e : (k.holders l == k.current) ≡ true = ground arith in
    rw (e, lock_release) (position-IsValid k (releasing l) _ v ne)

-- From a state where just the ready threads but the idle one stand in the run queue, each once,
-- just the threads that sleep in sema_down for a semaphore stand in its list, each once, and just
-- the current thread is running, every allowed move passes all ASSERTs of thread.c and synch.c and
-- ends in such a state: no thread is linked into two lists, lost, or woken while it is not blocked.
pub move-IsValid :
    (is_lock : ℕ → Bool) (k : Kernel) (m : Move)
    → IsValid k
    → Allowed is_lock k m
    → Ends IsValid (move m k)
unfolding move
move-IsValid is_lock k go_on v a = resume-IsValid k (k.threads k.current).position v a refl
move-IsValid is_lock k yield v a = thread_yield-IsValid k v
move-IsValid is_lock k idle_block v a = idle_block-IsValid k v a
move-IsValid is_lock k exit v a = thread_exit-IsValid k v a.not_idle
move-IsValid is_lock k (down s) v a = position-IsValid k (in_down s) k.holders v a.0.not_idle
move-IsValid is_lock k (up s) v a = sema_up-IsValid k s v
move-IsValid is_lock k (try_down s) v a = sema_try_down-IsValid k s v
move-IsValid is_lock k (acquire l) v a = lock_acquire-IsValid k l v a.0.not_idle a.2
move-IsValid is_lock k (try_acquire l) v a = lock_try_acquire-IsValid k l v a.0.not_idle a.2
move-IsValid is_lock k (release l) v a = lock_release-IsValid k l v a.0.not_idle a.2
move-IsValid is_lock k (create page priority) v a = thread_create-IsValid k page priority v a.1 a.2

-- The same of every state that a run reaches.
pub Reach-IsValid :
    {is_lock : ℕ → Bool} {k k' : Kernel} → IsValid k → Reach is_lock k k' → IsValid k'
Reach-IsValid v start = v
Reach-IsValid {is_lock} v (next {k'} m r a e) =
    subst (Ends IsValid) e (move-IsValid is_lock k' m (Reach-IsValid v r) a)

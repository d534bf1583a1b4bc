-- ===== src/Threads/System.antt =====
-- What the threads of the kernel may do next: the atomic parts of thread.c and synch.c as the
-- moves of a system. A thread that is not inside synch.c calls anything; one that is goes on where
-- it stands; a timer interrupt makes the running thread yield between any two moves.
use ee461s_projects.Common.{ℕ, ◌≤◌, ◌≡◌, ◌≢◌, Bool, true, false, Option, none, some}
use ee461s_projects.Threads.Kernel.{
  Kernel, Position, outside, in_down, acquiring, acquired, releasing, pri_max, thread_block,
  thread_yield, thread_exit, thread_create,
}
use ee461s_projects.Threads.Synch.{
  set_position, sema_down_round, sema_try_down, sema_up, lock_acquire, lock_acquire_end,
  lock_try_acquire, lock_release,
}

pub data Move : Type 0 where
  go_on yield idle_block exit : Move
  down up try_down acquire try_acquire release : ℕ → Move
  create : (page priority : ℕ) → Move

-- The current thread goes on from where it stands.
unfoldable pub resume : Position → Kernel → Option Kernel
resume outside k = some k
resume (in_down s) k = sema_down_round s outside k
resume (acquiring l) k = sema_down_round l (acquired l) k
resume (acquired l) k = some (lock_acquire_end l k)
resume (releasing l) k = sema_up l (set_position k k.current outside)

abbrev pub state : {A : Type 0} → Option (A × Kernel) → Option Kernel
state none = none
state (some (a, k)) = some k

unfoldable pub move : Move → Kernel → Option Kernel
unfolding resume
move go_on k = resume (k.threads k.current).position k
move yield k = thread_yield k
move idle_block k = thread_block k
move exit k = thread_exit k
move (down s) k = some (set_position k k.current (in_down s))
move (up s) k = sema_up s k
move (try_down s) k = some (sema_try_down s k).1
move (acquire l) k = lock_acquire l k
move (try_acquire l) k = state (lock_try_acquire l k)
move (release l) k = lock_release l k
move (create page priority) k = state (thread_create page priority k)

-- The current thread runs code of its own, and is not the idle thread.
pub record IsFree (k : Kernel) : Type 0 where
  pub not_idle : k.current ≢ k.idle_thread
  pub outside_synch : (k.threads k.current).position ≡ outside

-- The rules that synch.h and thread.h put on callers: a lock is not acquired by its holder and is
-- released by it, its semaphore is left to the lock's functions (`is_lock` says which those are),
-- a page is fresh, a priority in range; only the idle thread blocks outside of synch.c.
module _ (is_lock : ℕ → Bool) where
  abbrev pub Allowed : Kernel → Move → Type 0
  Allowed k go_on = k.current ≢ k.idle_thread
  Allowed k yield = Unit
  Allowed k idle_block = k.current ≡ k.idle_thread
  Allowed k exit = IsFree k
  Allowed k (down s) = IsFree k × (is_lock s ≡ false)
  Allowed k (up s) = IsFree k × (is_lock s ≡ false)
  Allowed k (try_down s) = IsFree k × (is_lock s ≡ false)
  Allowed k (acquire l) = IsFree k × (is_lock l ≡ true) × (k.holders l ≢ k.current)
  Allowed k (try_acquire l) = IsFree k × (is_lock l ≡ true) × (k.holders l ≢ k.current)
  Allowed k (release l) = IsFree k × (is_lock l ≡ true) × (k.holders l ≡ k.current)
  Allowed k (create page priority) =
      IsFree k × (priority ≤ pri_max) × ((k.threads page).live ≡ false)

  -- The states that a run of allowed moves reaches.
  pub data Reach (k : Kernel) : Kernel → Type 0 where
    start : Reach k k
    next :
        {k' k'' : Kernel} (m : Move)
        → Reach k k'
        → Allowed k' m
        → move m k' ≡ some k''
        → Reach k k''

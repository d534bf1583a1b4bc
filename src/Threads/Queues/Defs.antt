-- ===== src/Threads/Queues/Defs.antt =====
-- thread.h says that `elem` may serve the run queue and the semaphores' wait lists, since a thread
-- on the run queue is ready and a thread on a wait list is blocked. This is that claim as an
-- invariant, with the number of times that a thread stands in each list.
use ee461s_projects.Common.{
  ℕ, ◌≡◌, Bool, true, false, not, ◌&&◌, Option, none, some, ◌==◌, if◌then◌else◌, count,
}
use ee461s_projects.Threads.Kernel.{
  Kernel, Position, outside, in_down, acquiring, acquired, releasing, is_running, is_ready,
  is_blocked, is_dying, status_of, null,
}

-- In the loop of sema_down for the semaphore `s`.
abbrev pub waits : Position → ℕ → Bool
waits outside s = false
waits (in_down s') s = s == s'
waits (acquiring l) s = s == l
waits (acquired l) s = false
waits (releasing l) s = false

-- What holds of the lists also inside the scheduler, when no thread runs.
pub record Queued (k : Kernel) : Type 0 where
  -- Just the ready threads but the idle thread stand in the run queue, once each.
  pub ready_count :
      (t : ℕ)
      → count t k.ready_list
        ≡ (if is_ready (status_of k t) && not (t == k.idle_thread) then 1 else 0)
  -- Just the threads that sleep in sema_down stand in the semaphore's list, once each.
  pub wait_count :
      (t s : ℕ)
      → count t (k.semaphores s).waiters
        ≡ (if is_blocked (status_of k t) && waits (k.threads t).position s then 1 else 0)
  pub live : (t : ℕ) → is_dying (status_of k t) ≡ false → (k.threads t).live ≡ true
  pub null_dead : is_dying (status_of k null) ≡ true
  pub idle_alive : is_dying (status_of k k.idle_thread) ≡ false
  pub idle_outside : (k.threads k.idle_thread).position ≡ outside

-- The running thread is the current one, and no other.
abbrev pub OneRuns : Kernel → Type 0
OneRuns k = (t : ℕ) → is_running (status_of k t) ≡ (t == k.current)

abbrev pub NoneRuns : Kernel → Type 0
NoneRuns k = (t : ℕ) → is_running (status_of k t) ≡ false

pub record IsValid (k : Kernel) : Type 0 where
  pub queued : Queued k
  pub one_runs : OneRuns k

-- The code passes its ASSERTs and ends in a state with the property.

abbrev pub Ends : (Kernel → Type 0) → Option Kernel → Type 0
Ends P none = ⊥
Ends P (some k) = P k

-- A passed ASSERT.
pub Ends-else :
    (P : Kernel → Type 0) (b : Bool) (k : Kernel)
    → b ≡ false
    → P k
    → Ends P (if b then none else some k)
Ends-else P b k e h = rw e h

pub Ends-mono :
    {P Q : Kernel → Type 0} (r : Option Kernel) → Ends P r → ((k : Kernel) → P k → Q k) → Ends Q r
Ends-mono none h f = h
Ends-mono (some k) h f = f k h

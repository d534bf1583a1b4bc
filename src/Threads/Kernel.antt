-- ===== src/Threads/Kernel.antt =====
-- threads/thread.c: thread states, the run queue and the switch from one thread to the next.
-- A thread is named by the address of its page, 0 for NULL. `none` is a failed ASSERT.
use ee461s_projects.Common.{
  ℕ, ◌+◌, ◌-◌, ◌%◌, ◌^◌, Bool, true, false, not, ◌&&◌, ◌||◌, Option, none, some, List, [], ◌∷◌,
  ◌++◌, leb, ◌==◌, if◌then◌else◌, update, erase_all,
}

-- enum thread_status
pub data ThreadStatus : Type 0 where
  running ready blocked dying : ThreadStatus

abbrev pub is_running : ThreadStatus → Bool
is_running running = true
is_running _ = false

abbrev pub is_ready : ThreadStatus → Bool
is_ready ready = true
is_ready _ = false

abbrev pub is_blocked : ThreadStatus → Bool
is_blocked blocked = true
is_blocked _ = false

abbrev pub is_dying : ThreadStatus → Bool
is_dying dying = true
is_dying _ = false

-- Where a thread stands in the code of synch.c when it is not running, or between two of its
-- atomic parts: outside, in the loop of sema_down for a semaphore, in that loop for a lock's
-- semaphore, behind it but before `lock->holder = thread_current ()`, and in lock_release behind
-- `lock->holder = NULL` but before its sema_up.
pub data Position : Type 0 where
  outside : Position
  in_down : ℕ → Position
  acquiring : ℕ → Position
  acquired : ℕ → Position
  releasing : ℕ → Position

-- struct thread: what the scheduler uses. `live` says that its page is allocated and that its
-- magic number is in place.
pub record Thread : Type 0 where
  pub tid : ℕ
  pub status : ThreadStatus
  pub priority : ℕ
  pub position : Position
  pub live : Bool

-- struct semaphore
pub record Semaphore : Type 0 where
  pub value : ℕ
  pub waiters : List ℕ

-- The static variables of thread.c, the threads, and the semaphores and lock holders by address.
-- A lock and the semaphore inside it have one address.
pub record Kernel : Type 0 where
  pub current : ℕ
  pub idle_thread : ℕ
  pub initial_thread : ℕ
  pub ready_list : List ℕ
  pub all_list : List ℕ
  pub threads : ℕ → Thread
  pub thread_ticks : ℕ
  pub next_tid : ℕ
  pub semaphores : ℕ → Semaphore
  pub holders : ℕ → ℕ

abbrev pub null : ℕ
null = 0

-- (tid_t) -1
abbrev pub tid_error : ℕ
tid_error = 2 ^ 32 - 1

-- PRI_MAX; PRI_MIN is 0
abbrev pub pri_max : ℕ
pri_max = 63

abbrev pub status_of : Kernel → ℕ → ThreadStatus
status_of k t = (k.threads t).status

abbrev pub set_status : Kernel → ℕ → ThreadStatus → Kernel
set_status k t s = record k { threads = update k.threads t (record (k.threads t) { status = s }) }

unfoldable pub is_thread : Kernel → ℕ → Bool
is_thread k t = not (t == null) && (k.threads t).live

unfoldable pub next_thread_to_run : Kernel → ℕ × Kernel
next_thread_to_run k = elim k.ready_list [
  | [] ↦ (k.idle_thread, k)
  | t ∷ rest ↦ (t, record k { ready_list = rest })
]

-- After the switch: the new thread runs, a new time slice starts, and the page of a thread that
-- has exited is freed. `prev` is 0 if there was no switch.
unfoldable pub thread_schedule_tail : ℕ → Kernel → Option Kernel
thread_schedule_tail prev k =
    let k' = record (set_status k k.current running) { thread_ticks = 0 } in
    if not (prev == null) && is_dying (status_of k' prev) && not (prev == k.initial_thread)
    then (if prev == k.current
        then none
        else some (record k' {
          threads = update k'.threads prev (record (k'.threads prev) { live = false });
        }))
    else some k'

unfoldable pub schedule : Kernel → Option Kernel
unfolding next_thread_to_run thread_schedule_tail is_thread
schedule k =
    let (next, k') = next_thread_to_run k in
    if is_running (status_of k k.current) || not (is_thread k' next)
    then none
    else thread_schedule_tail (if k.current == next then null else k.current)
        (record k' { current = next })

unfoldable pub thread_block : Kernel → Option Kernel
thread_block k = schedule (set_status k k.current blocked)

unfoldable pub thread_unblock : ℕ → Kernel → Option Kernel
unfolding is_thread
thread_unblock t k =
    if is_thread k t && is_blocked (status_of k t)
    then some (set_status (record k { ready_list = k.ready_list ++ (t ∷ []) }) t ready)
    else none

unfoldable pub thread_yield : Kernel → Option Kernel
thread_yield k = schedule (
    set_status
      (if k.current == k.idle_thread
        then k
        else record k { ready_list = k.ready_list ++ (k.current ∷ []) })
      k.current ready)

-- The part of thread_exit_process behind process_exit.
unfoldable pub thread_exit : Kernel → Option Kernel
thread_exit k =
    schedule (set_status (record k { all_list = erase_all k.current k.all_list }) k.current dying)

-- `page` is what palloc_get_page returns. The new thread's tid, or TID_ERROR, and the state.
unfoldable pub thread_create : (page priority : ℕ) → Kernel → Option (ℕ × Kernel)
thread_create page priority k =
    if page == null
    then some (tid_error, k)
    else if leb priority pri_max
    then elim (thread_unblock page created) [ none ↦ none | some k' ↦ some (k.next_tid, k') ]
    else none
  where
    fresh : Thread
    fresh = record {
      tid = k.next_tid;
      status = blocked;
      priority = priority;
      position = outside;
      live = true;
    }

    created : Kernel
    created = record k {
      threads = update k.threads page fresh;
      all_list = k.all_list ++ (page ∷ []);
      next_tid = (k.next_tid + 1) % 2 ^ 32;
    }

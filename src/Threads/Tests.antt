-- ===== src/Threads/Tests.antt =====
-- The idle thread at page 1, blocked, and the thread of main at page 2, running; lock 100.
use ee461s_projects.Common.{
  ℕ, ◌≡◌, refl, Bool, true, false, Option, none, some, List, [], ◌∷◌, arith, if◌then◌else◌, ◌==◌,
  update,
}
use ee461s_projects.Threads.Kernel.{
  Kernel, Thread, ThreadStatus, running, blocked, dying, outside, acquiring, schedule,
  next_thread_to_run, thread_schedule_tail, thread_unblock, thread_create, thread_block,
  thread_yield,
}
use ee461s_projects.Threads.Synch.{
  lock_acquire, lock_acquire_end, sema_down_round, sema_up, lock_release,
}
use ee461s_projects.Threads.System.{
  Move, go_on, yield, acquire, release, create, move, IsFree, start, next,
}
use ee461s_projects.Threads.Queues.Defs.{IsValid, Ends}
use ee461s_projects.Threads.Queues.Steps.{move-IsValid}
use ee461s_projects.Threads.Locks.Defs.{IsExclusive}
use ee461s_projects.Threads.Locks.Exclusion.{Reach-IsExclusive}

abbrev thread : ThreadStatus → Bool → Thread
thread s live = record { tid = 0; status = s; priority = 31; position = outside; live = live }

abbrev boot : Kernel
boot = record {
  current = 2;
  idle_thread = 1;
  initial_thread = 2;
  ready_list = [];
  all_list = 2 ∷ 1 ∷ [];
  threads = λ t.
      if t == 1
      then thread blocked true
      else if t == 2
      then thread running true
      else thread dying false;
  thread_ticks = 0;
  next_tid = 3;
  semaphores = λ s. record { value = 1; waiters = [] };
  holders = λ l. 0;
}

abbrev is_lock : ℕ → Bool
is_lock l = l == 100

boot-IsValid : IsValid boot
boot-IsValid = record {
  queued = record {
    ready_count = λ t. ground arith;
    wait_count = λ t s. ground arith;
    live = λ t. ground arith;
    null_dead = refl;
    idle_alive = refl;
    idle_outside = refl;
  };
  one_runs = λ t. ground arith;
}

boot-IsExclusive : IsExclusive is_lock boot
boot-IsExclusive = record {
  unique = λ l t u. ground arith;
  taken = λ l t. ground arith;
  no_holder = λ l t. ground arith;
  only_locks = λ l t. ground arith;
  binary = λ l. ground arith;
  acquires_locks = λ l t. ground arith;
}

boot-IsFree : IsFree boot
boot-IsFree = record { not_idle = omega arith; outside_synch = refl }

move-IsValid_example : Ends IsValid (move (create 3 31) boot)
move-IsValid_example =
    move-IsValid is_lock boot (create 3 31) boot-IsValid (boot-IsFree, omega arith, refl)

-- main acquires the lock.
abbrev entering : Kernel
entering = record boot {
  threads = update boot.threads 2 (record (boot.threads 2) { position = acquiring 100 });
}

enters : move (acquire 100) boot ≡ some entering
unfolding move lock_acquire
enters = refl

Reach-IsExclusive_example : IsExclusive is_lock entering
Reach-IsExclusive_example =
    Reach-IsExclusive is_lock boot-IsValid boot-IsExclusive
      (next (acquire 100) start (boot-IsFree, refl, omega arith) enters)

-- A second thread that wants the lock sleeps until the first one gives it back.
abbrev script : List Move
script =
    create 3 31
    ∷ acquire 100
    ∷ go_on
    ∷ go_on
    ∷ yield
    ∷ acquire 100
    ∷ go_on
    ∷ release 100
    ∷ go_on
    ∷ yield
    ∷ go_on
    ∷ go_on
    ∷ []

run : List Move → Kernel → Option Kernel
run [] k = some k
run (m ∷ ms) k = elim (move m k) [ none ↦ none | some k' ↦ run ms k' ]

abbrev holder_of : ℕ → Option Kernel → Option ℕ
holder_of l none = none
holder_of l (some k) = some (k.holders l)

handed_over : holder_of 100 (run script boot) ≡ some 3
unfolding run move lock_acquire lock_acquire_end sema_down_round sema_up lock_release thread_create
    thread_block thread_yield thread_unblock schedule next_thread_to_run thread_schedule_tail
handed_over = refl

-- ===== src/Threads/Synch.antt =====
-- threads/synch.c: semaphores and locks, by the parts that run with interrupts off or without a
-- chance to sleep. A thread that sleeps in sema_down tests `value == 0` again when it is scheduled.
use ee461s_projects.Common.{
  ℕ, ◌+◌, ◌-◌, ◌%◌, ◌^◌, Bool, true, false, Option, none, some, [], ◌∷◌, ◌++◌, ltb, ◌==◌,
  if◌then◌else◌, update,
}
use ee461s_projects.Threads.Kernel.{
  Kernel, Semaphore, Position, outside, acquiring, acquired, releasing, null, thread_block,
  thread_unblock,
}

abbrev pub set_semaphore : Kernel → ℕ → Semaphore → Kernel
set_semaphore k s v = record k { semaphores = update k.semaphores s v }

abbrev pub set_position : Kernel → ℕ → Position → Kernel
set_position k t p = record k {
  threads = update k.threads t (record (k.threads t) { position = p });
}

unfoldable pub sema_init : ℕ → ℕ → Kernel → Kernel
sema_init s value k = set_semaphore k s (record { value = value; waiters = [] })

-- One test of the loop in sema_down: the thread sleeps, or takes the semaphore and goes on to
-- `after`.
unfoldable pub sema_down_round : ℕ → Position → Kernel → Option Kernel
sema_down_round s after k =
    let sema = k.semaphores s in
    if sema.value == 0
    then thread_block
        (set_semaphore k s (record sema { waiters = sema.waiters ++ (k.current ∷ []) }))
    else some
        (set_position (set_semaphore k s (record sema { value = sema.value - 1 })) k.current after)

unfoldable pub sema_try_down : ℕ → Kernel → Bool × Kernel
sema_try_down s k =
    let sema = k.semaphores s in
    if ltb 0 sema.value
    then (true, set_semaphore k s (record sema { value = sema.value - 1 }))
    else (false, k)

-- `value` is an unsigned int.
unfoldable pub sema_up : ℕ → Kernel → Option Kernel
sema_up s k = elim (k.semaphores s).waiters [
  | [] ↦ some (raise k)
  | t ∷ rest ↦
      elim (thread_unblock t (set_semaphore k s (record (k.semaphores s) { waiters = rest }))) [
        | none ↦ none
        | some k' ↦ some (raise k')
      ]
]
  where
    raise : Kernel → Kernel
    raise k' =
        set_semaphore k' s
          (record (k'.semaphores s) { value = ((k'.semaphores s).value + 1) % 2 ^ 32 })

unfoldable pub lock_init : ℕ → Kernel → Kernel
unfolding sema_init
lock_init l k = sema_init l 1 (record k { holders = update k.holders l null })

unfoldable pub lock_held_by_current_thread : ℕ → Kernel → Bool
lock_held_by_current_thread l k = k.holders l == k.current

-- lock_acquire up to its sema_down
unfoldable pub lock_acquire : ℕ → Kernel → Option Kernel
unfolding lock_held_by_current_thread
lock_acquire l k =
    if lock_held_by_current_thread l k then none else some (set_position k k.current (acquiring l))

-- lock_acquire behind its sema_down, and lock_try_acquire behind a sema_try_down that succeeds
unfoldable pub lock_acquire_end : ℕ → Kernel → Kernel
lock_acquire_end l k =
    set_position (record k { holders = update k.holders l k.current }) k.current outside

-- lock_try_acquire up to the store of the holder, which lock_acquire_end is: interrupts are on again
-- in between, and `acquired` is where a thread that has the semaphore then stands.
unfoldable pub lock_try_acquire : ℕ → Kernel → Option (Bool × Kernel)
unfolding lock_held_by_current_thread sema_try_down
lock_try_acquire l k =
    if lock_held_by_current_thread l k
    then none
    else (let (success, k') = sema_try_down l k in
        some (success, (if success then set_position k' k'.current (acquired l) else k')))

-- lock_release up to its sema_up
unfoldable pub lock_release : ℕ → Kernel → Option Kernel
unfolding lock_held_by_current_thread
lock_release l k =
    if lock_held_by_current_thread l k
    then some
        (set_position (record k { holders = update k.holders l null }) k.current (releasing l))
    else none

-- ===== src/Threads/Locks/Exclusion.antt =====
-- Every allowed move keeps the locks exclusive, and no lock is taken from its holder.
use ee461s_projects.Common.{
  ℕ, ◌≤◌, ◌+◌, ◌-◌, ◌%◌, ◌^◌, ◌≡◌, ◌≢◌, refl, subst, Bool, true, false, ◌&&◌, Option, none, some,
  List, [], ◌∷◌, arith, ◌==◌, Bool-cases, ℕ_discrete, inl, inr, ltb,
}
use ee461s_projects.Threads.Kernel.{
  Kernel, Position, outside, in_down, acquiring, acquired, releasing, null, pri_max, thread_unblock,
  thread_create, is_thread, is_blocked, status_of,
}
use ee461s_projects.Threads.Synch.{
  set_position, set_semaphore, sema_down_round, sema_up, sema_try_down, lock_acquire,
  lock_try_acquire, lock_release,
}
use ee461s_projects.Threads.System.{
  Move, go_on, yield, idle_block, exit, down, up, try_down, acquire, try_acquire, release, create,
  resume, state, move, Allowed, Reach, start, next,
}
use ee461s_projects.Threads.Queues.Defs
use ee461s_projects.Threads.Queues.Defs.{Ends}
use ee461s_projects.Threads.Queues.Steps.{Reach-IsValid}
use ee461s_projects.Threads.Queues.Create.{made, created, thread_create-created}
use ee461s_projects.Threads.Locks.Defs.{owns, IsExclusive, Keeps, Same}
use ee461s_projects.Threads.Locks.Taking.{
  position-IsExclusive, lowered-IsExclusive, acquired-IsExclusive, lock_acquire_end-IsExclusive,
  releasing-IsExclusive, value-IsExclusive, new-IsExclusive,
}
use ee461s_projects.Threads.Locks.Moves.{
  Same-refl, Same-trans, Same-IsExclusive, thread_yield-IsExclusive, thread_block-IsExclusive,
  thread_exit-IsExclusive, sleep-IsExclusive,
}

Keeps-map :
    (P Q : Kernel → Type 0) (f : Kernel → Kernel) (r : Option Kernel)
    → ((k : Kernel) → P k → Q (f k))
    → Keeps P r
    → Keeps Q (elim r [ none ↦ none | some k ↦ some (f k) ])
Keeps-map P Q f none g h = tt
Keeps-map P Q f (some k) g h = g k h

unblock-Same : (t : ℕ) (k : Kernel) → Keeps (Same k) (thread_unblock t k)
unfolding thread_unblock
unblock-Same t k = elim (Bool-cases (is_thread k t && is_blocked (status_of k t))) [
  | inl e ↦
      rw (e, thread_unblock)
        (record { position = λ u. ground arith; value = λ s. refl; holder = λ l. refl })
  | inr e ↦ rw (e, thread_unblock) tt
]

module _ (is_lock : ℕ → Bool) where
  sema_up-IsExclusive :
      (s : ℕ) (k : Kernel)
      → IsExclusive is_lock k
      → ((t : ℕ) → is_lock s ≡ true → owns k t s ≡ true → ⊥)
      → (is_lock s ≡ true → (k.semaphores s).value ≡ 0)
      → Keeps (IsExclusive is_lock) (sema_up s k)
  unfolding sema_up
  sema_up-IsExclusive s k x free zero = with_list (k.semaphores s).waiters refl
    where
      raise : Kernel → Kernel
      raise k' =
          set_semaphore k' s
            (record (k'.semaphores s) { value = ((k'.semaphores s).value + 1) % 2 ^ 32 })

      raised : (k' : Kernel) → Same k k' → IsExclusive is_lock (raise k')
      raised k' same =
          value-IsExclusive is_lock k' (Same-IsExclusive is_lock k k' same x) s _
            (λ t l o. free t l (ground (arith, same.position t, same.holder s)))
            (λ l. ground (arith, same.value s, zero l))

      popped :
          (rest : List ℕ) → Same k (set_semaphore k s (record (k.semaphores s) { waiters = rest }))
      popped rest = record { position = λ t. refl; value = λ r. ground arith; holder = λ l. refl }

      with_list :
          (l : List ℕ) → (k.semaphores s).waiters ≡ l → Keeps (IsExclusive is_lock) (sema_up s k)
      with_list [] e = rw (e, sema_up) (raised k (Same-refl k))
      with_list (t ∷ rest) e =
          let k' = set_semaphore k s (record (k.semaphores s) { waiters = rest }) in
          rw (e, sema_up)
            (Keeps-map (Same k') (IsExclusive is_lock) raise (thread_unblock t k')
              (λ k'' same. raised k'' (Same-trans k k' k'' (popped rest) same)) (unblock-Same t k'))

  sema_down_round-IsExclusive :
      (s : ℕ) (p : Position) (k : Kernel)
      → IsExclusive is_lock k
      → (((k.semaphores s).value == 0) ≡ false
          → IsExclusive is_lock (
              set_position
                (set_semaphore k s (record (k.semaphores s) { value = (k.semaphores s).value - 1 }))
                k.current
                p))
      → Keeps (IsExclusive is_lock) (sema_down_round s p k)
  unfolding sema_down_round
  sema_down_round-IsExclusive s p k x taken = elim (Bool-cases ((k.semaphores s).value == 0)) [
    | inl e ↦ rw (e, sema_down_round) (sleep-IsExclusive is_lock k x s _)
    | inr e ↦ rw (e, sema_down_round) (taken e)
  ]

  resume-IsExclusive :
      (p : Position) (k : Kernel)
      → IsExclusive is_lock k
      → (k.threads k.current).position ≡ p
      → Keeps (IsExclusive is_lock) (resume p k)
  unfolding resume
  resume-IsExclusive outside k x e = x
  resume-IsExclusive (in_down s) k x e =
      sema_down_round-IsExclusive s outside k x (lowered-IsExclusive is_lock k x s)
  resume-IsExclusive (acquiring l) k x e =
      sema_down_round-IsExclusive l (acquired l) k x
        (acquired-IsExclusive is_lock k x l (x.acquires_locks l k.current e))
  resume-IsExclusive (acquired l) k x e = lock_acquire_end-IsExclusive is_lock k x l e
  resume-IsExclusive (releasing l) k x e =
      sema_up-IsExclusive l (set_position k k.current outside)
        (position-IsExclusive is_lock k x outside (λ m. refl) (λ m. cc))
        (λ t. ground (arith, x.unique l t k.current, x.no_holder l k.current, e))
        (ground (arith, x.taken l k.current, e))

  sema_try_down-IsExclusive :
      (s : ℕ) (k : Kernel)
      → IsExclusive is_lock k
      → is_lock s ≡ false
      → IsExclusive is_lock (sema_try_down s k).1
  unfolding sema_try_down
  sema_try_down-IsExclusive s k x e = elim (Bool-cases (ltb 0 (k.semaphores s).value)) [
    | inl more ↦
        rw (more, sema_try_down) (value-IsExclusive is_lock k x s _ (λ t l o. cc) (λ l. cc))
    | inr none_left ↦ rw (none_left, sema_try_down) x
  ]

  lock_acquire-IsExclusive :
      (l : ℕ) (k : Kernel)
      → IsExclusive is_lock k
      → is_lock l ≡ true
      → Keeps (IsExclusive is_lock) (lock_acquire l k)
  unfolding lock_acquire
  lock_acquire-IsExclusive l k x e = elim (Bool-cases (k.holders l == k.current)) [
    | inl held ↦ rw (held, lock_acquire) tt
    | inr other ↦
        rw (other, lock_acquire)
          (position-IsExclusive is_lock k x (acquiring l) (λ m. refl) (λ m q. ground arith))
  ]

  lock_try_acquire-IsExclusive :
      (l : ℕ) (k : Kernel)
      → IsExclusive is_lock k
      → is_lock l ≡ true
      → Keeps (IsExclusive is_lock) (state (lock_try_acquire l k))
  unfolding lock_try_acquire
  lock_try_acquire-IsExclusive l k x e = elim (Bool-cases (k.holders l == k.current)) [
    | inl held ↦ rw (held, lock_try_acquire) tt
    | inr other ↦
        rw (other, lock_try_acquire)
          (elim (Bool-cases (ltb 0 (k.semaphores l).value)) [
            | inl more ↦
                rw (more, lock_try_acquire) (acquired-IsExclusive is_lock k x l e (ground arith))
            | inr none_left ↦ rw (none_left, lock_try_acquire) x
          ])
  ]

  lock_release-IsExclusive :
      (l : ℕ) (k : Kernel)
      → IsExclusive is_lock k
      → is_lock l ≡ true
      → k.current ≢ null
      → Keeps (IsExclusive is_lock) (lock_release l k)
  unfolding lock_release
  lock_release-IsExclusive l k x e ne = elim (Bool-cases (k.holders l == k.current)) [
    | inl held ↦ rw (held, lock_release) (releasing-IsExclusive is_lock k x l e ne (ground arith))
    | inr other ↦ rw (other, lock_release) tt
  ]

  thread_create-IsExclusive :
      (page priority : ℕ) (k : Kernel)
      → IsExclusive is_lock k
      → priority ≤ pri_max
      → Keeps (IsExclusive is_lock) (state (thread_create page priority k))
  unfolding thread_create
  thread_create-IsExclusive page priority k x p = elim (ℕ_discrete page null) [
    | yes e ↦ rw (e, thread_create) x
    | no ne ↦ rw (thread_create-created k page priority ne p) (
        Same-IsExclusive is_lock (made k page priority) (created k page priority)
          (record { position = λ t. ground arith; value = λ s. refl; holder = λ l. refl })
          (new-IsExclusive is_lock k x page _ _ _ _ refl))
  ]

  move-IsExclusive :
      (k : Kernel) (m : Move)
      → k.current ≢ null
      → IsExclusive is_lock k
      → Allowed is_lock k m
      → Keeps (IsExclusive is_lock) (move m k)
  unfolding move
  move-IsExclusive k go_on ne x a = resume-IsExclusive (k.threads k.current).position k x refl
  move-IsExclusive k yield ne x a = thread_yield-IsExclusive is_lock k x
  move-IsExclusive k idle_block ne x a = thread_block-IsExclusive is_lock k x
  move-IsExclusive k exit ne x a = thread_exit-IsExclusive is_lock k x
  move-IsExclusive k (down s) ne x a =
      position-IsExclusive is_lock k x (in_down s) (λ m. refl) (λ m q. cc)
  move-IsExclusive k (up s) ne x a = sema_up-IsExclusive s k x (λ t l o. cc (a.1)) (λ l. cc (a.1))
  move-IsExclusive k (try_down s) ne x a = sema_try_down-IsExclusive s k x a.1
  move-IsExclusive k (acquire l) ne x a = lock_acquire-IsExclusive l k x a.1
  move-IsExclusive k (try_acquire l) ne x a = lock_try_acquire-IsExclusive l k x a.1
  move-IsExclusive k (release l) ne x a = lock_release-IsExclusive l k x a.1 ne
  move-IsExclusive k (create page priority) ne x a = thread_create-IsExclusive page priority k x a.1

-- In a valid state the current thread is a thread.
current-ne-null : {k : Kernel} → Defs.IsValid k → k.current ≢ null
current-ne-null {k} v = ground (arith, v.one_runs null, v.queued.null_dead)

-- In every state that a run of allowed moves reaches from a valid state with exclusive locks, a
-- lock is owned by one thread at most, where a thread owns it from the moment when its sema_down
-- in lock_acquire, or its sema_try_down in lock_try_acquire, passes until its sema_up in
-- lock_release, and while it is owned its semaphore is 0.
pub Reach-IsExclusive :
    (is_lock : ℕ → Bool) {k k' : Kernel}
    → Defs.IsValid k
    → IsExclusive is_lock k
    → Reach is_lock k k'
    → IsExclusive is_lock k'
Reach-IsExclusive is_lock v x start = x
Reach-IsExclusive is_lock v x (next {k'} m r a e) = subst (Keeps (IsExclusive is_lock)) e (
    move-IsExclusive is_lock k' m (current-ne-null (Reach-IsValid v r))
      (Reach-IsExclusive is_lock v x r) a)

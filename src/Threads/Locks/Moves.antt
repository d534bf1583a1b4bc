-- ===== src/Threads/Locks/Moves.antt =====
-- Every move keeps the locks exclusive.
use ee461s_projects.Common.{
  ℕ, refl, Bool, true, false, not, ◌&&◌, ◌||◌, Option, none, some, List, arith, ◌==◌, if◌then◌else◌,
  Bool-cases, inl, inr,
}
use ee461s_projects.Threads.Kernel.{
  Kernel, null, set_status, status_of, is_running, running, is_dying, thread_schedule_tail,
  next_thread_to_run, schedule, is_thread, thread_block, thread_yield, thread_exit,
}
use ee461s_projects.Threads.Synch.{set_semaphore}
use ee461s_projects.Threads.Locks.Defs.{IsExclusive, Keeps, Same}

pub Same-refl : (k : Kernel) → Same k k
Same-refl k = record { position = λ t. refl; value = λ s. refl; holder = λ l. refl }

pub Same-trans : (k k' k'' : Kernel) → Same k k' → Same k' k'' → Same k k''
Same-trans k k' k'' a b = record {
  position = λ u. ground (arith, a.position u, b.position u);
  value = λ u. ground (arith, a.value u, b.value u);
  holder = λ u. ground (arith, a.holder u, b.holder u);
}

-- An ASSERT passed or not.
Keeps-if :
    (P : Kernel → Type 0) (b : Bool) (k : Kernel) → P k → Keeps P (if b then none else some k)
Keeps-if P true k h = tt
Keeps-if P false k h = h

Keeps-guard :
    (P : Kernel → Type 0) (b : Bool) (r : Option Kernel)
    → Keeps P r
    → Keeps P (if b then none else r)
Keeps-guard P true k h = tt
Keeps-guard P false k h = h

pub Keeps-mono :
    (P Q : Kernel → Type 0) (r : Option Kernel) → ((k : Kernel) → P k → Q k) → Keeps P r → Keeps Q r
Keeps-mono P Q none f h = tt
Keeps-mono P Q (some k) f h = f k h

tail-Same : (prev : ℕ) (k : Kernel) → Keeps (Same k) (thread_schedule_tail prev k)
unfolding thread_schedule_tail
tail-Same prev k =
    elim (Bool-cases (
      not (prev == null)
      && is_dying (status_of (set_status k k.current running) prev)
      && not (prev == k.initial_thread))) [
        | inl e ↦
            rw (e, thread_schedule_tail)
              (Keeps-if (Same k) (prev == k.current) _
                (record { position = λ t. ground arith; value = λ s. refl; holder = λ l. refl }))
        | inr e ↦
            rw (e, thread_schedule_tail)
              (record { position = λ t. ground arith; value = λ s. refl; holder = λ l. refl })
      ]

schedule-Same : (k : Kernel) → Keeps (Same k) (schedule k)
unfolding schedule next_thread_to_run
schedule-Same k = with_next (next_thread_to_run k) (ground arith)
  where
    with_next :
        (n : ℕ × Kernel)
        → Same k n.1
        → Keeps (Same k) (
            if is_running (status_of k k.current) || not (is_thread n.1 n.0)
            then none
            else thread_schedule_tail
                (if k.current == n.0 then null else k.current)
                (record (n.1) { current = n.0 }))
    with_next (t, k') same =
        let prev = if k.current == t then null else k.current in
        let to = record k' { current = t } in
        Keeps-guard (Same k) (is_running (status_of k k.current) || not (is_thread k' t))
          (thread_schedule_tail prev to)
          (Keeps-mono (Same to) (Same k) (thread_schedule_tail prev to)
            (λ k'' b.
              Same-trans k to k''
                (record { position = same.position; value = same.value; holder = same.holder }) b)
            (tail-Same prev to))

pub Same-IsExclusive :
    (is_lock : ℕ → Bool) (k k' : Kernel)
    → Same k k'
    → IsExclusive is_lock k
    → IsExclusive is_lock k'
Same-IsExclusive is_lock k k' same x = record {
  unique = λ l t u. ground (arith, same.position t, same.position u, same.holder l, x.unique l t u);
  taken = λ l t. ground (arith, same.position t, same.holder l, same.value l, x.taken l t);
  no_holder = λ l t. ground (arith, same.position t, same.holder l, x.no_holder l t);
  only_locks = λ l t. ground (arith, same.position t, x.only_locks l t);
  binary = λ l. ground (arith, same.value l, x.binary l);
  acquires_locks = λ l t. ground (arith, same.position t, x.acquires_locks l t);
}

-- A move that ends in schedule, from a state that agrees with `k`.
scheduled-IsExclusive :
    (is_lock : ℕ → Bool) (k k' : Kernel)
    → Same k k'
    → IsExclusive is_lock k
    → Keeps (IsExclusive is_lock) (schedule k')
scheduled-IsExclusive is_lock k k' same x =
    Keeps-mono (Same k') (IsExclusive is_lock) (schedule k')
      (λ k'' s. Same-IsExclusive is_lock k' k'' s (Same-IsExclusive is_lock k k' same x))
      (schedule-Same k')

module _ (is_lock : ℕ → Bool) (k : Kernel) (x : IsExclusive is_lock k) where
  pub thread_yield-IsExclusive : Keeps (IsExclusive is_lock) (thread_yield k)
  unfolding thread_yield
  thread_yield-IsExclusive =
      scheduled-IsExclusive is_lock k _
        (record {
          position = λ t. ground arith;
          value = λ s. ground arith;
          holder = λ l. ground arith;
        })
        x

  pub thread_block-IsExclusive : Keeps (IsExclusive is_lock) (thread_block k)
  unfolding thread_block
  thread_block-IsExclusive =
      scheduled-IsExclusive is_lock k _
        (record { position = λ t. ground arith; value = λ s. refl; holder = λ l. refl }) x

  pub thread_exit-IsExclusive : Keeps (IsExclusive is_lock) (thread_exit k)
  unfolding thread_exit
  thread_exit-IsExclusive =
      scheduled-IsExclusive is_lock k _
        (record { position = λ t. ground arith; value = λ s. refl; holder = λ l. refl }) x

  pub sleep-IsExclusive :
      (s : ℕ) (ws : List ℕ)
      → Keeps
          (IsExclusive is_lock)
          (thread_block (set_semaphore k s (record (k.semaphores s) { waiters = ws })))
  unfolding thread_block
  sleep-IsExclusive s ws =
      scheduled-IsExclusive is_lock k _
        (record { position = λ t. ground arith; value = λ r. ground arith; holder = λ l. refl }) x

-- ===== src/Threads/Locks/Taking.antt =====
-- The moves that take and give back a lock's semaphore.
use ee461s_projects.Common.{ℕ, ◌≤◌, ◌-◌, ◌≡◌, ◌≢◌, Bool, true, false, List, arith, ◌==◌, update}
use ee461s_projects.Threads.Kernel.{
  Kernel, Thread, Position, outside, acquiring, acquired, releasing, null,
}
use ee461s_projects.Threads.Synch.{set_position, set_semaphore, lock_acquire_end}
use ee461s_projects.Threads.Locks.Defs.{handing, owns, IsExclusive}

module _ (is_lock : ℕ → Bool) (k : Kernel) (x : IsExclusive is_lock k) where
  -- The current thread moves to a position where it owns nothing by it.
  pub position-IsExclusive :
      (p : Position)
      → ((l : ℕ) → handing p l ≡ false)
      → ((l : ℕ) → p ≡ acquiring l → is_lock l ≡ true)
      → IsExclusive is_lock (set_position k k.current p)
  position-IsExclusive p h a = record {
    unique = λ l t u. ground (arith, x.unique l t u, h l);
    taken = λ l t. ground (arith, x.taken l t, h l);
    no_holder = λ l t. ground (arith, x.no_holder l t, h l);
    only_locks = λ l t. ground (arith, x.only_locks l t, h l);
    binary = λ m. ground (arith, x.binary m);
    acquires_locks = λ l t. ground (arith, x.acquires_locks l t, a l);
  }

  -- sema_down of a semaphore that is not 0.
  pub lowered-IsExclusive :
      (s : ℕ)
      → ((k.semaphores s).value == 0) ≡ false
      → IsExclusive is_lock (
          set_position
            (set_semaphore k s (record (k.semaphores s) { value = (k.semaphores s).value - 1 }))
            k.current
            outside)
  lowered-IsExclusive s e = record {
    unique = λ l t u. ground (arith, x.unique l t u);
    taken = λ l t. ground (arith, x.taken l t);
    no_holder = λ l t. ground (arith, x.no_holder l t);
    only_locks = λ l t. ground (arith, x.only_locks l t);
    binary = λ m. ground (arith, x.binary m);
    acquires_locks = λ l t. ground (arith, x.acquires_locks l t);
  }

  -- sema_down in lock_acquire, or sema_try_down in lock_try_acquire, when the semaphore is not 0:
  -- nobody owns the lock.
  pub acquired-IsExclusive :
      (l : ℕ)
      → is_lock l ≡ true
      → ((k.semaphores l).value == 0) ≡ false
      → IsExclusive is_lock (
          set_position
            (set_semaphore k l (record (k.semaphores l) { value = (k.semaphores l).value - 1 }))
            k.current
            (acquired l))
  acquired-IsExclusive l e p = record {
    unique = λ m t u. ground (arith, x.unique m t u, x.taken m t, x.taken m u);
    taken = λ m t. ground (arith, x.taken m t, x.binary m);
    no_holder = λ m t. ground (arith, x.no_holder m t, x.taken m (k.holders m));
    only_locks = λ m t. ground (arith, x.only_locks m t);
    binary = λ m. ground (arith, x.binary m);
    acquires_locks = λ m t. ground (arith, x.acquires_locks m t);
  }

  -- lock_acquire behind its sema_down.
  pub lock_acquire_end-IsExclusive :
      (l : ℕ)
      → (k.threads k.current).position ≡ acquired l
      → IsExclusive is_lock (lock_acquire_end l k)
  unfolding lock_acquire_end
  lock_acquire_end-IsExclusive l e = record {
    unique =
        λ m t u. ground (arith, x.unique m t u, x.unique m t k.current, x.unique m u k.current, e);
    taken = λ m t. ground (arith, x.taken m t, x.taken m k.current, e);
    no_holder = λ m t. ground (arith, x.no_holder m t, x.unique m t k.current, e);
    only_locks = λ m t. ground (arith, x.only_locks m t);
    binary = λ m. ground (arith, x.binary m);
    acquires_locks = λ m t. ground (arith, x.acquires_locks m t);
  }

  -- lock_release up to its sema_up.
  pub releasing-IsExclusive :
      (l : ℕ)
      → is_lock l ≡ true
      → k.current ≢ null
      → k.holders l ≡ k.current
      → IsExclusive is_lock
          (set_position (record k { holders = update k.holders l null }) k.current (releasing l))
  releasing-IsExclusive l e ne h = record {
    unique =
        λ m t u. ground (arith, x.unique m t u, x.unique m t k.current, x.unique m u k.current);
    taken = λ m t. ground (arith, x.taken m t, x.taken m k.current);
    no_holder = λ m t. ground (arith, x.no_holder m t);
    only_locks = λ m t. ground (arith, x.only_locks m t);
    binary = λ m. ground (arith, x.binary m);
    acquires_locks = λ m t. ground (arith, x.acquires_locks m t);
  }

  -- A value that nobody's lock depends on.
  pub value-IsExclusive :
      (s n : ℕ)
      → ((t : ℕ) → is_lock s ≡ true → owns k t s ≡ true → ⊥)
      → (is_lock s ≡ true → n ≤ 1)
      → IsExclusive is_lock (set_semaphore k s (record (k.semaphores s) { value = n }))
  value-IsExclusive s n free small = record {
    unique = λ m t u. ground (arith, x.unique m t u);
    taken = λ m t. ground (arith, x.taken m t, free t);
    no_holder = λ m t. ground (arith, x.no_holder m t);
    only_locks = λ m t. ground (arith, x.only_locks m t);
    binary = λ m. ground (arith, x.binary m);
    acquires_locks = λ m t. ground (arith, x.acquires_locks m t);
  }

  -- A new thread is outside of synch.c.
  pub new-IsExclusive :
      (page : ℕ) (t : Thread) (r a : List ℕ) (n : ℕ)
      → t.position ≡ outside
      → IsExclusive is_lock (record k {
        threads = update k.threads page t;
        ready_list = r;
        all_list = a;
        next_tid = n;
      })
  new-IsExclusive page th r a n e = record {
    unique = λ m t u. ground (arith, x.unique m t u);
    taken = λ m t. ground (arith, x.taken m t);
    no_holder = λ m t. ground (arith, x.no_holder m t);
    only_locks = λ m t. ground (arith, x.only_locks m t);
    binary = λ m. ground (arith, x.binary m);
    acquires_locks = λ m t. ground (arith, x.acquires_locks m t);
  }

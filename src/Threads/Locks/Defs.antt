-- ===== src/Threads/Locks/Defs.antt =====
-- Who owns a lock: its holder, a thread that has taken the lock's semaphore and is not recorded
-- as the holder yet, and one that is not recorded any more and has not given the semaphore back.
use ee461s_projects.Common.{
  ℕ, ◌≤◌, ◌≡◌, Bool, true, false, not, ◌&&◌, ◌||◌, Option, none, some, ◌==◌,
}
use ee461s_projects.Threads.Kernel.{
  Kernel, Position, outside, in_down, acquiring, acquired, releasing, null,
}

abbrev pub handing : Position → ℕ → Bool
handing outside l = false
handing (in_down s) l = false
handing (acquiring l') l = false
handing (acquired l') l = l == l'
handing (releasing l') l = l == l'

abbrev pub owns : Kernel → ℕ → ℕ → Bool
owns k t l = (k.holders l == t) && not (t == null) || handing (k.threads t).position l

-- Of the semaphores that belong to locks.
pub record IsExclusive (is_lock : ℕ → Bool) (k : Kernel) : Type 0 where
  pub unique : (l t u : ℕ) → is_lock l ≡ true → owns k t l ≡ true → owns k u l ≡ true → t ≡ u
  pub taken : (l t : ℕ) → is_lock l ≡ true → owns k t l ≡ true → (k.semaphores l).value ≡ 0
  pub no_holder :
      (l t : ℕ) → is_lock l ≡ true → handing (k.threads t).position l ≡ true → k.holders l ≡ null
  pub only_locks : (l t : ℕ) → handing (k.threads t).position l ≡ true → is_lock l ≡ true
  pub binary : (l : ℕ) → is_lock l ≡ true → (k.semaphores l).value ≤ 1
  pub acquires_locks : (l t : ℕ) → (k.threads t).position ≡ acquiring l → is_lock l ≡ true

-- If the code passes its ASSERTs, the state has the property.
abbrev pub Keeps : (Kernel → Type 0) → Option Kernel → Type 0
Keeps P none = Unit
Keeps P (some k) = P k

-- A switch of threads changes nothing that a lock is about.
pub record Same (k k' : Kernel) : Type 0 where
  pub position : (t : ℕ) → (k'.threads t).position ≡ (k.threads t).position
  pub value : (s : ℕ) → (k'.semaphores s).value ≡ (k.semaphores s).value
  pub holder : (l : ℕ) → k'.holders l ≡ k.holders l

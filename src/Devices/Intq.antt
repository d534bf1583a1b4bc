-- ===== src/Devices/Intq.antt =====
-- devices/intq.c: a circular buffer shared by threads and interrupt handlers. Interrupts are off in all
-- of it, so a round of a loop up to its thread_block is atomic. `none` is a failed ASSERT. The lock of
-- a queue lets one thread wait at a time; it is left out.
pub mod Order
mod Tests
use ee461s_projects.Common.{
  ℕ, ◌+◌, ◌-◌, ◌%◌, Bool, true, false, not, Option, none, some, ◌==◌, if◌then◌else◌, update, ◌>>=◌,
}
use ee461s_projects.Threads.Kernel.{Kernel, null, thread_block, thread_unblock}

abbrev pub intq_bufsize : ℕ
intq_bufsize = 64

-- struct intq, less its lock
pub record Intq : Type 0 where
  pub not_full : ℕ
  pub not_empty : ℕ
  pub buf : ℕ → ℕ
  pub head : ℕ
  pub tail : ℕ

-- the function next
unfoldable pub next_pos : ℕ → ℕ
next_pos pos = (pos + 1) % intq_bufsize

unfoldable pub intq_init : Intq → Intq
intq_init q = record q { not_full = null; not_empty = null; head = 0; tail = 0 }

unfoldable pub intq_empty : Intq → Bool
intq_empty q = q.head == q.tail

unfoldable pub intq_full : Intq → Bool
unfolding next_pos
intq_full q = next_pos q.head == q.tail

-- signal for the waiter of a condition, which has to hold.
unfoldable pub signal : (condition : Bool) → (waiter : ℕ) → Kernel → Option Kernel
signal condition waiter k =
    if condition then (if waiter == null then some k else thread_unblock waiter k) else none

-- A round of intq_getc or intq_putc: the thread sleeps, or the operation is done.
pub data Round (A : Type 0) : Type 0 where
  slept : Intq → Kernel → Round A
  done : A → Intq → Kernel → Round A

unfoldable pub intq_getc : Intq → Kernel → Option (Round ℕ)
intq_getc q k =
    if intq_empty q
    then (thread_block k >>= λ k'. some (slept (record q { not_empty = k.current }) k'))
    else (let q' = record q { tail = next_pos q.tail } in
        signal (not (intq_full q')) q.not_full k >>= λ k'.
        some (done (q.buf q.tail) (record q' { not_full = null }) k'))

unfoldable pub intq_putc : Intq → ℕ → Kernel → Option (Round Unit)
intq_putc q byte k =
    if intq_full q
    then (thread_block k >>= λ k'. some (slept (record q { not_full = k.current }) k'))
    else (let q' = record q { buf = update q.buf q.head byte; head = next_pos q.head } in
        signal (not (intq_empty q')) q.not_empty k >>= λ k'.
        some (done tt (record q' { not_empty = null }) k'))

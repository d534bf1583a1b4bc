-- ===== src/Devices/Intq/Order.antt =====
-- The circular buffer is a queue of at most 63 bytes, first in, first out.
use ee461s_projects.Common.{
  ℕ, suc, ◌+◌, ◌-◌, ◌%◌, ◌<◌, ◌≡◌, ◌≢◌, refl, sym, ap, ap₂, ◌∙◌, Bool, true, false, not, ◌⊎◌, inl,
  inr, none, some, List, [], ◌∷◌, ◌++◌, ◌==◌, if◌then◌else◌, update, arith, range_of,
  range_of-append, range_of-congr,
}
use ee461s_projects.Threads.Kernel.{Kernel, null, thread_unblock}
use ee461s_projects.Devices.Intq.{
  Intq, intq_bufsize, next_pos, intq_empty, intq_full, signal, done, intq_getc, intq_putc,
}

pub record IsValid (q : Intq) : Type 0 where
  pub head : q.head < intq_bufsize
  pub tail : q.tail < intq_bufsize

-- How many bytes are in the queue, and which, the oldest first.
abbrev pub size : Intq → ℕ
size q = (q.head + intq_bufsize - q.tail) % intq_bufsize

abbrev pub contents : Intq → List ℕ
contents q = range_of (λ j. q.buf ((q.tail + j) % intq_bufsize)) 0 (size q)

-- The thread that waits for a condition, if there is one, can be woken.
abbrev pub CanWake : ℕ → Kernel → Type 0
CanWake waiter k = (waiter ≡ null) ⊎ ((k' : Kernel) × (thread_unblock waiter k ≡ some k'))

signal_lem :
    (condition : Bool) (waiter : ℕ) (k : Kernel)
    → condition ≡ true
    → CanWake waiter k
    → (k' : Kernel) × (signal condition waiter k ≡ some k')
unfolding signal
signal_lem condition waiter k h (inl none_waits) = (k, ground arith)
signal_lem condition waiter k h (inr (k', e)) = go condition h (waiter == null) refl
  where
    go :
        (c : Bool)
        → c ≡ true
        → (b : Bool) → (waiter == null) ≡ b
        → (k'' : Kernel) × ((if c then (if b then some k else thread_unblock waiter k) else none)
            ≡ some k'')
    go true h true eb = (k, refl)
    go true h false eb = (k', e)
    go false h b eb = absurd (ground arith)

putc_passes :
    (q : Intq) (byte : ℕ) (k k' : Kernel)
    → intq_full q ≡ false
    → signal
        (not (intq_empty (record q { buf = update q.buf q.head byte; head = next_pos q.head })))
        q.not_empty
        k
      ≡ some k'
    → intq_putc q byte k
      ≡ some (
          done tt
            (record q { not_empty = null; buf = update q.buf q.head byte; head = next_pos q.head })
            k')
unfolding intq_putc
putc_passes q byte k k' room e = rw (room, intq_putc) (rw (e, intq_putc) refl)

not_empty_after :
    (q : Intq) (byte : ℕ)
    → IsValid q
    → intq_full q ≡ false
    → not (intq_empty (record q { buf = update q.buf q.head byte; head = next_pos q.head })) ≡ true
unfolding intq_empty intq_full next_pos
not_empty_after q byte v room = ground arith

-- The numbers of the buffer: `n` bytes from `tail` to `head`.
module _ (buf : ℕ → ℕ) (head tail byte : ℕ) (h : head < intq_bufsize)
    (t : tail < intq_bufsize) where
  held : ℕ
  held = (head + intq_bufsize - tail) % intq_bufsize

  slot : (ℕ → ℕ) → ℕ → ℕ
  slot b j = b ((tail + j) % intq_bufsize)

  put_contents :
      (head + 1) % intq_bufsize ≢ tail
      → range_of
          (slot (update buf head byte))
          0
          (((head + 1) % intq_bufsize + intq_bufsize - tail) % intq_bufsize)
        ≡ range_of (slot buf) 0 held ++ (byte ∷ [])
  unfolding held slot
  put_contents room =
      ap (range_of (slot (update buf head byte)) 0) grown
      ∙ sym (range_of-append (slot (update buf head byte)) 0 held 1)
      ∙ ap₂ (λ xs y. xs ++ (y ∷ []))
          (range_of-congr (slot (update buf head byte)) (slot buf) 0 0 held (λ j l. old j l)) new
    where
      grown : ((head + 1) % intq_bufsize + intq_bufsize - tail) % intq_bufsize ≡ held + 1
      grown = omega arith

      old : (j : ℕ) → j < held → slot (update buf head byte) (0 + j) ≡ slot buf (0 + j)
      old j l = ground arith

      new : slot (update buf head byte) (0 + held) ≡ byte
      new = ground arith

-- intq_putc on a queue that is not full, whose reader can be woken, passes and puts the byte behind
-- all others.
pub intq_putc-append :
    (q : Intq) (byte : ℕ) (k : Kernel)
    → IsValid q
    → intq_full q ≡ false
    → CanWake q.not_empty k
    → (q' : Intq) × (k' : Kernel) × (intq_putc q byte k ≡ some (done tt q' k'))
      × (contents q' ≡ contents q ++ (byte ∷ []))
      × IsValid q'
unfolding intq_full next_pos held slot
intq_putc-append q byte k v room wake =
    let (k', e) = signal_lem _ q.not_empty k (not_empty_after q byte v room) wake in
    (
      record q { not_empty = null; buf = update q.buf q.head byte; head = next_pos q.head },
      k',
      putc_passes q byte k k' room e,
      put_contents q.buf q.head q.tail byte v.head v.tail (λ z. ground arith),
      record { head = omega arith; tail = v.tail },
    )

getc_passes :
    (q : Intq) (k k' : Kernel)
    → intq_empty q ≡ false
    → signal (not (intq_full (record q { tail = next_pos q.tail }))) q.not_full k ≡ some k'
    → intq_getc q k
      ≡ some (done (q.buf q.tail) (record q { not_full = null; tail = next_pos q.tail }) k')
unfolding intq_getc
getc_passes q k k' some_bytes e = rw (some_bytes, intq_getc) (rw (e, intq_getc) refl)

not_full_after :
    (q : Intq)
    → IsValid q
    → intq_empty q ≡ false
    → not (intq_full (record q { tail = next_pos q.tail })) ≡ true
unfolding intq_empty intq_full next_pos
not_full_after q v some_bytes = ground (arith, v.head, v.tail)

get_contents :
    (buf : ℕ → ℕ) (head tail : ℕ)
    → head < intq_bufsize
    → tail < intq_bufsize
    → head ≢ tail
    → range_of
        (λ j. buf ((tail + j) % intq_bufsize))
        0
        ((head + intq_bufsize - tail) % intq_bufsize)
      ≡ buf tail
        ∷ range_of
            (λ j. buf (((tail + 1) % intq_bufsize + j) % intq_bufsize))
            0
            ((head + intq_bufsize - (tail + 1) % intq_bufsize) % intq_bufsize)
get_contents buf head tail h t ne =
    ap (range_of (λ j. buf ((tail + j) % intq_bufsize)) 0) shrunk
    ∙ ap₂ (λ x xs. x ∷ xs) (ap buf first)
        (range_of-congr (λ j. buf ((tail + j) % intq_bufsize))
          (λ j. buf (((tail + 1) % intq_bufsize + j) % intq_bufsize)) 1 0 _
          (λ j l. ap buf (later j)))
  where
    shrunk :
        (head + intq_bufsize - tail) % intq_bufsize
        ≡ suc ((head + intq_bufsize - (tail + 1) % intq_bufsize) % intq_bufsize)
    shrunk = omega arith

    first : (tail + 0) % intq_bufsize ≡ tail
    first = omega arith

    later :
        (j : ℕ)
        → (tail + (1 + j)) % intq_bufsize ≡ ((tail + 1) % intq_bufsize + (0 + j)) % intq_bufsize
    later j = omega arith

-- intq_getc on a queue that is not empty, whose writer can be woken, passes, takes the oldest byte out
-- and leaves the others in order.
pub intq_getc-first :
    (q : Intq) (k : Kernel)
    → IsValid q
    → intq_empty q ≡ false
    → CanWake q.not_full k
    → (byte : ℕ) × (q' : Intq) × (k' : Kernel) × (intq_getc q k ≡ some (done byte q' k'))
      × (contents q ≡ byte ∷ contents q')
      × IsValid q'
unfolding intq_empty next_pos
intq_getc-first q k v some_bytes wake =
    let (k', e) = signal_lem _ q.not_full k (not_full_after q v some_bytes) wake in
    (
      q.buf q.tail,
      record q { not_full = null; tail = next_pos q.tail },
      k',
      getc_passes q k k' some_bytes e,
      get_contents q.buf q.head q.tail v.head v.tail (λ z. ground arith),
      record { head = v.head; tail = omega arith },
    )

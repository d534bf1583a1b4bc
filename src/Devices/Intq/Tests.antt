-- ===== src/Devices/Intq/Tests.antt =====
-- A queue whose one byte stands at the end of the buffer, with nobody waiting.
use ee461s_projects.Common.{ℕ, ◌≡◌, refl, true, false, some, [], ◌∷◌, arith, inl}
use ee461s_projects.Threads.Kernel.{Kernel, running, outside, null}
use ee461s_projects.Devices.Intq.{Intq, intq_empty, intq_full, next_pos, done, intq_getc, intq_putc}
use ee461s_projects.Devices.Intq.Order.{IsValid, contents, intq_putc-append, intq_getc-first}

abbrev at_end : Intq
at_end = record { not_full = null; not_empty = null; buf = λ i. 65; head = 0; tail = 63 }

abbrev kernel : Kernel
kernel = record {
  current = 1;
  idle_thread = 1;
  initial_thread = 2;
  ready_list = [];
  all_list = 1 ∷ [];
  threads =
      λ t. record { tid = t; status = running; priority = 0; position = outside; live = true };
  thread_ticks = 0;
  next_tid = 3;
  semaphores = λ s. record { value = 0; waiters = [] };
  holders = λ l. 0;
}

at_end-IsValid : IsValid at_end
at_end-IsValid = record { head = omega arith; tail = omega arith }

has_room : intq_full at_end ≡ false
unfolding intq_full next_pos
has_room = refl

has_bytes : intq_empty at_end ≡ false
unfolding intq_empty
has_bytes = refl

intq_putc-append_example :
    (q' : Intq) × (k' : Kernel) × (intq_putc at_end 66 kernel ≡ some (done tt q' k'))
    × (contents q' ≡ 65 ∷ 66 ∷ [])
    × IsValid q'
intq_putc-append_example = intq_putc-append at_end 66 kernel at_end-IsValid has_room (inl refl)

intq_getc-first_example :
    (byte : ℕ) × (q' : Intq) × (k' : Kernel) × (intq_getc at_end kernel ≡ some (done byte q' k'))
    × (contents at_end ≡ byte ∷ contents q')
    × IsValid q'
intq_getc-first_example = intq_getc-first at_end kernel at_end-IsValid has_bytes (inl refl)

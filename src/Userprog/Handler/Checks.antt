-- ===== src/Userprog/Handler/Checks.antt =====
-- Which calls get past the checks of syscall_handler.
use ee461s_projects.Common.{
  ℕ, ◌+◌, ◌^◌, ◌<◌, ◌≤◌, ◌≡◌, ◌≢◌, refl, subst, ap, Bool, true, false, not, ◌&&◌, Option, none,
  some, ◌==◌, if◌then◌else◌, arith, Bool-cases, inl, inr, ◌⊎◌,
}
use ee461s_projects.Userprog.Handler.{
  Memory, Request, sys_halt, sys_exec, sys_wait, sys_filesize, sys_remove, sys_open, sys_tell,
  sys_close, sys_unknown, sys_create, sys_seek, sys_read, sys_write, Outcome, exits, calls,
  minus_one, phys_base, is_user_vaddr, not_positive, word_at, or_fault, with_word, with_user,
  handle_create, handle_name, handle_seek, handle_tell, handle_close, handle_buffer, handle_word,
  dispatch, syscall_handler,
}

-- A descriptor that is positive as an int.
abbrev pub Positive : ℕ → Type 0
Positive fd = (0 < fd) × (fd < 2 ^ 31)

abbrev pub Readable : Memory → ℕ → Type 0
Readable mem a = (b : ℕ) × (mem a ≡ some b)

-- What the handler has checked when it makes a call.
abbrev pub Checked : Memory → Request → Type 0
Checked mem sys_halt = Unit
Checked mem (sys_exec name) = Unit
Checked mem (sys_wait pid) = Unit
Checked mem (sys_filesize fd) = Unit
Checked mem (sys_remove name) = (name ≢ 0) × Readable mem name
Checked mem (sys_open name) = (name ≢ 0) × Readable mem name
Checked mem (sys_tell fd) = Positive fd
Checked mem (sys_close fd) = Positive fd
Checked mem (sys_unknown n) = 12 < n
Checked mem (sys_create name size) = name ≢ 0
Checked mem (sys_seek fd position) = Positive fd
Checked mem (sys_read fd buffer size) = (buffer < phys_base) × Readable mem buffer
Checked mem (sys_write fd buffer size) = (buffer < phys_base) × Readable mem buffer

-- A call that an outcome makes has been checked.
abbrev Passed : Memory → Outcome → Type 0
Passed mem (exits status) = Unit
Passed mem (calls r) = Checked mem r

or_fault-Passed :
    (mem : Memory) (o : Option ℕ) (next : ℕ → Outcome)
    → ((w : ℕ) → o ≡ some w → Passed mem (next w))
    → Passed mem (or_fault o next)
or_fault-Passed mem none next h = tt
or_fault-Passed mem (some w) next h = h w refl

with_word-Passed :
    (mem : Memory) (a : ℕ) (next : ℕ → Outcome)
    → ((w : ℕ) → Passed mem (next w))
    → Passed mem (with_word mem a next)
with_word-Passed mem a next h = or_fault-Passed mem (word_at mem a) next (λ w e. h w)

with_user-Passed :
    (mem : Memory) (a : ℕ) (next : Outcome)
    → (Readable mem a → Passed mem next)
    → Passed mem (with_user mem a next)
with_user-Passed mem a next h = or_fault-Passed mem (mem a) (λ b. next) (λ b e. h (b, e))

test-Passed :
    (mem : Memory) (test : Bool) (status : ℕ) (next : Outcome)
    → Passed mem next
    → Passed mem (if test then next else exits status)
test-Passed mem true status next h = h
test-Passed mem false status next h = tt

-- A test in front of an exit.
guard-Passed :
    (mem : Memory) (test : Bool) (status : ℕ) (next : Outcome)
    → (test ≡ false → Passed mem next)
    → Passed mem (if test then exits status else next)
guard-Passed mem true status next h = tt
guard-Passed mem false status next h = h refl

positive : (fd : ℕ) → not_positive fd ≡ false → Positive fd
positive fd h = (ground arith, ground arith)

create-Passed : (mem : Memory) (esp : ℕ) → Passed mem (handle_create mem esp)
unfolding handle_create
create-Passed mem esp = with_word-Passed mem (esp + 4) _ (λ name.
    guard-Passed mem (name == 0) minus_one _
      (λ t. with_word-Passed mem (esp + 8) _ (λ size. λ z. ground arith)))

seek-Passed : (mem : Memory) (esp : ℕ) → Passed mem (handle_seek mem esp)
unfolding handle_seek
seek-Passed mem esp = with_word-Passed mem (esp + 4) _ (λ fd.
    guard-Passed mem (not_positive fd) minus_one _
      (λ t. with_word-Passed mem (esp + 8) _ (λ position. positive fd t)))

tell-Passed : (mem : Memory) (esp : ℕ) → Passed mem (handle_tell mem esp)
unfolding handle_tell
tell-Passed mem esp =
    with_word-Passed mem (esp + 4) _
      (λ fd. guard-Passed mem (not_positive fd) minus_one _ (λ t. positive fd t))

close-Passed : (mem : Memory) (esp : ℕ) → Passed mem (handle_close mem esp)
unfolding handle_close
close-Passed mem esp = with_word-Passed mem (esp + 4) _ (λ fd.
    guard-Passed mem (not_positive fd) minus_one _
      (λ t. with_word-Passed mem (esp + 8) _ (λ unused. positive fd t)))

name-Passed :
    (mem : Memory) (esp : ℕ) (call : ℕ → Request)
    → ((name : ℕ) → name ≢ 0 → Readable mem name → Checked mem (call name))
    → Passed mem (handle_name mem esp call)
unfolding handle_name
name-Passed mem esp call h = with_word-Passed mem (esp + 4) _ (λ name.
    guard-Passed mem (name == 0) minus_one _
      (λ t. with_user-Passed mem name _ (λ r. h name (λ z. ground arith) r)))

buffer-Passed :
    (mem : Memory) (esp : ℕ) (call : ℕ → ℕ → ℕ → Request)
    → ((fd buffer size : ℕ)
        → buffer < phys_base
        → Readable mem buffer
        → Checked mem (call fd buffer size))
    → Passed mem (handle_buffer mem esp call)
unfolding handle_buffer
buffer-Passed mem esp call h = with_word-Passed mem (esp + 4) _ (λ fd.
    with_word-Passed mem (esp + 8) _ (λ buffer.
      guard-Passed mem (not (is_user_vaddr buffer)) minus_one _ (λ t.
        with_user-Passed mem buffer _
          (λ r. with_word-Passed mem (esp + 12) _ (λ size. h fd buffer size (ground arith) r)))))

word-Passed :
    (mem : Memory) (esp : ℕ) (call : ℕ → Request)
    → ((arg : ℕ) → Checked mem (call arg))
    → Passed mem (handle_word mem esp call)
unfolding handle_word
word-Passed mem esp call h = with_word-Passed mem (esp + 4) _ (λ arg. h arg)

choose-Passed :
    (mem : Memory) (number k : ℕ) (this next : Outcome)
    → Passed mem this
    → (number ≢ k → Passed mem next)
    → Passed mem (if number == k then this else next)
choose-Passed mem number k this next p h = elim (Bool-cases (number == k)) [
  | inl e ↦ rw e p
  | inr e ↦ rw e (h (λ z. ground arith))
]

dispatch-Passed : (mem : Memory) (esp number : ℕ) → Passed mem (dispatch mem esp number)
unfolding dispatch
dispatch-Passed mem esp n = choose-Passed mem n 0 _ _ tt (λ n0.
    choose-Passed mem n 1 _ _ (with_word-Passed mem (esp + 4) exits (λ w. tt)) (λ n1.
      choose-Passed mem n 2 _ _ (word-Passed mem esp sys_exec (λ a. tt)) (λ n2.
        choose-Passed mem n 3 _ _ (word-Passed mem esp sys_wait (λ a. tt)) (λ n3.
          choose-Passed mem n 4 _ _ (create-Passed mem esp) (λ n4.
            choose-Passed mem n 5 _ _ (name-Passed mem esp sys_remove (λ a ne r. (ne, r))) (λ n5.
              choose-Passed mem n 6 _ _ (name-Passed mem esp sys_open (λ a ne r. (ne, r))) (λ n6.
                choose-Passed mem n 7 _ _ (word-Passed mem esp sys_filesize (λ a. tt)) (λ n7.
                  choose-Passed mem n 8 _ _ (buffer-Passed mem esp sys_read (λ fd b s u r. (u, r)))
                    (λ n8.
                      choose-Passed mem n 9 _ _
                        (buffer-Passed mem esp sys_write (λ fd b s u r. (u, r)))
                        (λ n9. choose-Passed mem n 10 _ _ (seek-Passed mem esp) (λ n10.
                          choose-Passed mem n 11 _ _ (tell-Passed mem esp) (λ n11.
                            choose-Passed mem n 12 _ _ (close-Passed mem esp)
                              (λ n12. omega arith)))))))))))))

handler-Passed : (mem : Memory) (esp : ℕ) → Passed mem (syscall_handler mem esp)
unfolding syscall_handler
handler-Passed mem esp = guard-Passed mem (not (is_user_vaddr esp)) minus_one _ (λ t.
    with_user-Passed mem esp _ (λ r.
      with_word-Passed mem esp _
        (λ number. test-Passed mem _ minus_one _ (dispatch-Passed mem esp number))))

-- A call that syscall_handler makes has passed its checks: names of create, open and remove are not
-- NULL and those of open and remove are mapped, buffers of read and write begin in mapped memory
-- below PHYS_BASE, and descriptors of seek, tell and close are positive.
pub syscall_handler-Checked :
    (mem : Memory) (esp : ℕ) (r : Request) → syscall_handler mem esp ≡ calls r → Checked mem r
syscall_handler-Checked mem esp r e = subst (Passed mem) e (handler-Passed mem esp)

always-exits :
    (o : Option ℕ) (next : ℕ → Outcome)
    → ((w : ℕ) → next w ≡ exits minus_one)
    → or_fault o next ≡ exits minus_one
always-exits none next h = refl
always-exits (some w) next h = h w

fault-exits : (o : Option ℕ) (next : ℕ → Outcome) → o ≡ none → or_fault o next ≡ exits minus_one
fault-exits o next e = ap (λ o. or_fault o next) e

either-exits :
    (test : Bool) (next : Outcome)
    → next ≡ exits minus_one
    → (if test then exits minus_one else next) ≡ exits minus_one
either-exits true next h = refl
either-exits false next h = h

-- A process whose stack pointer is not mapped, or whose three argument words do not begin below
-- PHYS_BASE, exits with -1, whatever call it asks for.
pub syscall_handler-bad_stack :
    (mem : Memory) (esp : ℕ)
    → (phys_base ≤ esp + 12) ⊎ (mem esp ≡ none)
    → syscall_handler mem esp ≡ exits minus_one
unfolding syscall_handler
syscall_handler-bad_stack mem esp (inr fault) =
    either-exits (not (is_user_vaddr esp)) _ (fault-exits (mem esp) _ fault)
syscall_handler-bad_stack mem esp (inl high) = either-exits (not (is_user_vaddr esp)) _ (
    always-exits (mem esp) _ (λ b. always-exits (word_at mem esp) _ (λ number.
      ap (λ (t : Bool). if t then dispatch mem esp number else exits minus_one) outside)))
  where
    outside :
        (is_user_vaddr (esp + 4) && is_user_vaddr (esp + 8) && is_user_vaddr (esp + 12)) ≡ false
    outside = ground arith

-- ===== src/Userprog/Handler.antt =====
-- syscall_handler of userprog/syscall.c: which call a process asks for, from its stack, with the
-- checks of its pointers. Reading memory that is not mapped faults, and page_fault of
-- userprog/exception.c then ends the process with status -1, as a failed check does.
pub mod Checks
mod Tests
use ee461s_projects.Common.{
  ℕ, ◌+◌, ◌-◌, ◌*◌, ◌^◌, Bool, true, false, not, ◌&&◌, ◌||◌, Option, none, some, ltb, leb, ◌==◌,
  if◌then◌else◌, ◌>>=◌,
}

-- What the kernel may read: the byte at an address, `none` if it is not mapped.
abbrev pub Memory : Type 0
Memory = ℕ → Option ℕ

-- The calls of the handler's switch, with their arguments as it reads them. SYS_EXIT is `exits`.
pub data Request : Type 0 where
  sys_halt : Request
  sys_exec sys_wait sys_filesize sys_remove sys_open sys_tell sys_close sys_unknown : ℕ → Request
  sys_create sys_seek : ℕ → ℕ → Request
  sys_read sys_write : ℕ → ℕ → ℕ → Request

-- The process exits with a status, or the call is made.
pub data Outcome : Type 0 where
  exits : ℕ → Outcome
  calls : Request → Outcome

abbrev pub minus_one : ℕ
minus_one = 2 ^ 32 - 1

abbrev pub phys_base : ℕ
phys_base = 0xc0000000

abbrev pub is_user_vaddr : ℕ → Bool
is_user_vaddr a = ltb a phys_base

-- An int in a register: 0 or negative.
abbrev pub not_positive : ℕ → Bool
not_positive fd = (fd == 0) || leb (2 ^ 31) fd

-- A word in memory, lowest byte first.
unfoldable pub word_at : Memory → ℕ → Option ℕ
word_at mem a = do
  b0 ← mem a
  b1 ← mem (a + 1)
  b2 ← mem (a + 2)
  b3 ← mem (a + 3)
  some (b0 + 256 * b1 + 65536 * b2 + 16777216 * b3)

-- What follows a read, or the end of the process by the fault.
abbrev pub or_fault : Option ℕ → (ℕ → Outcome) → Outcome
or_fault none next = exits minus_one
or_fault (some w) next = next w

abbrev pub with_word : Memory → ℕ → (ℕ → Outcome) → Outcome
with_word mem a next = or_fault (word_at mem a) next

-- get_user on a pointer, with what happens behind it.
abbrev pub with_user : Memory → ℕ → Outcome → Outcome
with_user mem a next = or_fault (mem a) (λ b. next)

-- The cases of the switch.
unfoldable pub handle_create : Memory → ℕ → Outcome
handle_create mem esp = with_word mem (esp + 4) (λ name.
    if name == 0
    then exits minus_one
    else with_word mem (esp + 8) (λ size. calls (sys_create name size)))

-- SYS_OPEN and SYS_REMOVE
unfoldable pub handle_name : Memory → ℕ → (ℕ → Request) → Outcome
handle_name mem esp call =
    with_word mem (esp + 4)
      (λ name. if name == 0 then exits minus_one else with_user mem name (calls (call name)))

unfoldable pub handle_seek : Memory → ℕ → Outcome
handle_seek mem esp = with_word mem (esp + 4) (λ fd.
    if not_positive fd
    then exits minus_one
    else with_word mem (esp + 8) (λ position. calls (sys_seek fd position)))

unfoldable pub handle_tell : Memory → ℕ → Outcome
handle_tell mem esp =
    with_word mem (esp + 4) (λ fd. if not_positive fd then exits minus_one else calls (sys_tell fd))

unfoldable pub handle_close : Memory → ℕ → Outcome
handle_close mem esp = with_word mem (esp + 4) (λ fd.
    if not_positive fd
    then exits minus_one
    else with_word mem (esp + 8) (λ unused. calls (sys_close fd)))

-- SYS_READ and SYS_WRITE
unfoldable pub handle_buffer : Memory → ℕ → (ℕ → ℕ → ℕ → Request) → Outcome
handle_buffer mem esp call = with_word mem (esp + 4) (λ fd. with_word mem (esp + 8) (λ buffer.
    if not (is_user_vaddr buffer)
    then exits minus_one
    else with_user mem buffer (with_word mem (esp + 12) (λ size. calls (call fd buffer size)))))

-- SYS_FILESIZE, SYS_EXEC and SYS_WAIT
unfoldable pub handle_word : Memory → ℕ → (ℕ → Request) → Outcome
handle_word mem esp call = with_word mem (esp + 4) (λ arg. calls (call arg))

unfoldable pub dispatch : Memory → ℕ → ℕ → Outcome
dispatch mem esp number =
    if number == 0
    then calls sys_halt
    else if number == 1
    then with_word mem (esp + 4) exits
    else if number == 2
    then handle_word mem esp sys_exec
    else if number == 3
    then handle_word mem esp sys_wait
    else if number == 4
    then handle_create mem esp
    else if number == 5
    then handle_name mem esp sys_remove
    else if number == 6
    then handle_name mem esp sys_open
    else if number == 7
    then handle_word mem esp sys_filesize
    else if number == 8
    then handle_buffer mem esp sys_read
    else if number == 9
    then handle_buffer mem esp sys_write
    else if number == 10
    then handle_seek mem esp
    else if number == 11
    then handle_tell mem esp
    else if number == 12
    then handle_close mem esp
    else calls (sys_unknown number)

unfoldable pub syscall_handler : Memory → (esp : ℕ) → Outcome
syscall_handler mem esp =
    if not (is_user_vaddr esp)
    then exits minus_one
    else with_user mem esp (
        with_word mem esp (λ number.
          if is_user_vaddr (esp + 4) && is_user_vaddr (esp + 8) && is_user_vaddr (esp + 12)
          then dispatch mem esp number
          else exits minus_one))

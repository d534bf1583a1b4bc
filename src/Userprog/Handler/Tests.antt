-- ===== src/Userprog/Handler/Tests.antt =====
-- A process whose stack asks for seek (3, 0), and one whose stack is at the end of its memory.
use ee461s_projects.Common.{◌<◌, ◌^◌, ◌≡◌, refl, none, some, ltb, ◌==◌, if◌then◌else◌}
use ee461s_projects.Userprog.Handler.{
  Memory, sys_seek, calls, word_at, handle_seek, dispatch, syscall_handler,
}
use ee461s_projects.Userprog.Handler.Checks.{syscall_handler-Checked}

abbrev memory : Memory
memory a = if ltb a 4096 then some (if a == 1000 then 10 else if a == 1004 then 3 else 0) else none

asks_for_seek : syscall_handler memory 1000 ≡ calls (sys_seek 3 0)
unfolding syscall_handler dispatch handle_seek word_at
asks_for_seek = refl

syscall_handler-Checked_example : (0 < 3) × (3 < 2 ^ 31)
syscall_handler-Checked_example = syscall_handler-Checked memory 1000 (sys_seek 3 0) asks_for_seek

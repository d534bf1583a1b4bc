-- ===== src/Libc/Blocks/Tests.antt =====
-- Runs of memmove on overlapping blocks of a memory that holds at each address its number.
use ee461s_projects.Common.{◌≡◌, refl, some, arith}
use ee461s_projects.Libc.Blocks.{Bytes, memmove, copy_up, copy_down}
use ee461s_projects.Libc.Blocks.Copies.{moved, memmove_lem}

abbrev numbers : Bytes
numbers a = a

moved_down : copy_up numbers 4 6 5 8 ≡ 10
unfolding copy_up
moved_down = refl

moved_up : copy_down numbers 6 4 5 10 ≡ 8
unfolding copy_down
moved_up = refl

memmove_lem_example : memmove numbers 4 6 5 ≡ some (9, moved numbers 4 6 5)
memmove_lem_example = memmove_lem numbers 4 6 5 (omega arith) (omega arith)

-- ===== src/Threads/Vaddr.antt =====
-- threads/vaddr.h: addresses are numbers below 2 ^ 32. `none` is a failed ASSERT.
use ee461s_projects.Common.{ℕ, ◌+◌, ◌/◌, ◌%◌, ◌^◌, Option, none, some, ltb, if◌then◌else◌}

abbrev pub page_size : ℕ
page_size = 4096

abbrev pub phys_base : ℕ
phys_base = 0xc0000000

unfoldable pub pg_ofs : ℕ → ℕ
pg_ofs va = va % page_size

unfoldable pub pg_no : ℕ → ℕ
pg_no va = va / page_size

unfoldable pub ptov : ℕ → Option ℕ
ptov paddr = if ltb paddr phys_base then some ((paddr + phys_base) % 2 ^ 32) else none

-- ===== src/Threads/Malloc/Tests.antt =====
-- A heap with one arena of blocks of 64 bytes, of which the second is free, and 64 free pages.
use ee461s_projects.Common.{
  ℕ, ◌^◌, ◌-◌, ◌≡◌, refl, none, some, [], ◌∷◌, arith, ◌==◌, if◌then◌else◌, Option, ◌>>=◌,
}
use ee461s_projects.KernelLib.Bitmap.{
  bitmap_scan_and_flip, bitmap_scan, scan_from, bitmap_contains, contains_bit, bitmap_test,
  bitmap_set_multiple, set_bits, bitmap_set,
}
use ee461s_projects.Threads.Palloc.{Ram, palloc_get_multiple}
use ee461s_projects.Threads.Malloc.{
  Heap, malloc, malloc_pages, calloc, free, malloc_init, is_aligned,
}
use ee461s_projects.Threads.Malloc.Blocks.{Serves, IsBlock}
use ee461s_projects.Threads.Malloc.Back.{IsSame, malloc-free}

abbrev pages : Ram
pages = record {
  kernel_pool = record { used_map = record { bit_cnt = 64; bits = 1 ∷ 0 ∷ [] }; base = 0xc0101000 };
  user_pool = record { used_map = record { bit_cnt = 0; bits = [] }; base = 0xc0200000 };
  memory = λ a. 7;
}

-- sizeof (struct arena) + 64 behind the arena
abbrev second_block : ℕ
second_block = 0xc010104c

abbrev one_arena : Heap
one_arena = record {
  ram = pages;
  arenas = λ a. if a == 0xc0101000 then some (record { desc = some 2; free_cnt = 1 }) else none;
  descs = λ d.
      if d == 0
      then record { block_size = 16; blocks_per_arena = 255; free_list = [] }
      else if d == 1
      then record { block_size = 32; blocks_per_arena = 127; free_list = [] }
      else record { block_size = 64; blocks_per_arena = 63; free_list = second_block ∷ [] };
  desc_cnt = 3;
}

second-IsBlock : IsBlock one_arena 2 second_block (record { desc = some 2; free_cnt = 1 })
unfolding is_aligned
second-IsBlock = record { not_null = omega arith; arena = refl; owner = refl; aligned = refl }

second-Serves : Serves one_arena 2 50
second-Serves = record { exists = omega arith; holds = omega arith; smaller = λ e lt. ground arith }

malloc-free_example :
    (h1 : Heap) × (malloc one_arena 50 ≡ some (second_block, h1))
    × (h2 : Heap) × (free h1 second_block ≡ some h2)
    × IsSame one_arena 2 second_block h2
malloc-free_example =
    malloc-free one_arena 50 2 second_block [] (record { desc = some 2; free_cnt = 1 })
      (omega arith) second-Serves refl second-IsBlock (omega arith) (omega arith) (omega arith)

abbrev address : Option (ℕ × Heap) → Option ℕ
address r = r >>= λ p. some (p.0)

-- Seven descriptors.
sizes : (malloc_init (record one_arena { desc_cnt = 0 }) >>= λ h. some (h.desc_cnt)) ≡ some 7
unfolding malloc_init
sizes = refl

-- One page for all but one byte of the address space: the sum with the arena's size wraps around.
wraps : address (malloc one_arena (2 ^ 32 - 1)) ≡ some 0xc010200c
unfolding malloc malloc_pages palloc_get_multiple bitmap_scan_and_flip bitmap_scan scan_from
    bitmap_contains contains_bit bitmap_test bitmap_set_multiple set_bits bitmap_set
wraps = refl

-- 0x10001 times 0x10001 bytes need 33 pages: the product wraps around and is larger than both factors.
product_wraps : address (calloc one_arena 0x10001 0x10001) ≡ some 0xc010200c
unfolding calloc malloc malloc_pages palloc_get_multiple bitmap_scan_and_flip bitmap_scan scan_from
    bitmap_contains contains_bit bitmap_test bitmap_set_multiple set_bits bitmap_set
product_wraps = refl

-- ===== src/Threads/Palloc/Tests.antt =====
-- Two small pools: the kernel's has four pages, the first of which is in use, and the user's has three.
use ee461s_projects.Common.{ℕ, ◌≡◌, ◌≢◌, refl, false, none, some, [], ◌∷◌, arith, ◌⊎◌}
use ee461s_projects.KernelLib.Bitmap.{
  elem_cnt, bitmap_buf_size, bitmap_scan_and_flip, bitmap_scan, scan_from, bitmap_contains,
  contains_bit, bitmap_test, bitmap_set_multiple, set_bits, bitmap_set,
}
use ee461s_projects.Threads.Palloc.{
  Ram, has_flag, pal_assert, pal_user, palloc_get_multiple, palloc_free_multiple, palloc_init,
  init_pool,
}
use ee461s_projects.Threads.Palloc.Pools.{IsReady}
use ee461s_projects.Threads.Palloc.Get.{Given, palloc_get_multiple_lem}
use ee461s_projects.Threads.Palloc.Free.{Restored, palloc_get-free}
use ee461s_projects.Threads.Palloc.Init.{IsDivided, palloc_init-IsDivided}

abbrev small_ram : Ram
small_ram = record {
  kernel_pool = record { used_map = record { bit_cnt = 4; bits = 1 ∷ [] }; base = 0xc0101000 };
  user_pool = record { used_map = record { bit_cnt = 3; bits = 0 ∷ [] }; base = 0xc0106000 };
  memory = λ a. 7;
}

small_ram-IsReady : IsReady small_ram
unfolding elem_cnt
small_ram-IsReady = record {
  kernel = record {
    valid = record { words = refl; small = omega arith };
    aligned = refl;
    not_null = omega arith;
    below = omega arith;
  };
  user = record {
    valid = record { words = refl; small = omega arith };
    aligned = refl;
    not_null = omega arith;
    below = omega arith;
  };
  apart = omega arith;
}

no_assert : has_flag 6 pal_assert ≡ false
unfolding has_flag
no_assert = refl

palloc_get_multiple_lem_example :
    (pages : ℕ) × (s' : Ram) × (palloc_get_multiple small_ram 6 2 ≡ some (pages, s'))
    × Given small_ram (has_flag 6 pal_user) 6 2 pages s'
    × IsReady s'
palloc_get_multiple_lem_example =
    palloc_get_multiple_lem small_ram 6 2 small_ram-IsReady (omega arith) no_assert

palloc_get-free_example :
    (pages : ℕ) × (s1 : Ram) × (palloc_get_multiple small_ram 6 2 ≡ some (pages, s1))
    × (((pages ≡ 0) × (s1 ≡ small_ram))
        ⊎ ((pages ≢ 0)
            × (s2 : Ram) × (palloc_free_multiple s1 pages 2 ≡ some s2)
            × Restored small_ram pages 2 s2))
palloc_get-free_example = palloc_get-free small_ram 6 2 small_ram-IsReady (omega arith) no_assert

palloc_init-IsDivided_example :
    (s : Ram) × (palloc_init (λ a. 7) 300 1000 ≡ some s)
    × (s.memory ≡ (λ a. 7))
    × IsDivided 300 1000 s
palloc_init-IsDivided_example =
    palloc_init-IsDivided (λ a. 7) 300 1000 (omega arith) (omega arith) (omega arith)

-- The kernel's pages 1 and 2.
takes_free_pages :
    palloc_get_multiple small_ram 0 2
    ≡ some (
      0xc0102000,
      record small_ram {
        kernel_pool = record {
          used_map = record { bit_cnt = 4; bits = 7 ∷ [] };
          base = 0xc0101000;
        };
      },
    )
unfolding palloc_get_multiple bitmap_scan_and_flip bitmap_scan scan_from bitmap_contains
    contains_bit bitmap_test bitmap_set_multiple set_bits bitmap_set
takes_free_pages = refl

-- No four pages are free, and PAL_ASSERT panics.
panics : palloc_get_multiple small_ram 5 4 ≡ none
unfolding palloc_get_multiple bitmap_scan_and_flip bitmap_scan
panics = refl

-- A user page limit of 0 leaves no page for the user pool's own bitmap.
no_user_pool : init_pool (λ a. 7) 0xc0200000 0 ≡ none
unfolding init_pool bitmap_buf_size
no_user_pool = refl

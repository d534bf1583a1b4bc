-- ===== src/KernelLib/Bitmap/Tests.antt =====
-- Runs of bitmap.c on a bitmap of 40 bits in two words, with bits 0 to 2 and 33 set.
use ee461s_projects.Common.{ℕ, ◌≡◌, refl, true, false, none, some, [], ◌∷◌, arith}
use ee461s_projects.KernelLib.Bitmap.{
  Bitmap, elem_cnt, bitmap_error, scan_from, contains_bit, set_bits, bitmap_set, bitmap_test,
  bitmap_set_multiple, bitmap_contains, bitmap_scan, bitmap_scan_and_flip,
}
use ee461s_projects.KernelLib.Bitmap.Words.{IsValid}
use ee461s_projects.KernelLib.Bitmap.Scan.{Flipped, bitmap_scan_and_flip-Flipped}

abbrev two_words : Bitmap
two_words = record { bit_cnt = 40; bits = 7 ∷ 2 ∷ [] }

two_words-IsValid : IsValid two_words
unfolding elem_cnt
two_words-IsValid = record { words = refl; small = omega arith }

scan_across : bitmap_scan two_words 1 31 false ≡ some bitmap_error
unfolding bitmap_scan scan_from bitmap_contains contains_bit bitmap_test
scan_across = refl

scan_short :
    bitmap_scan_and_flip two_words 1 6 false
    ≡ some (3, record { bit_cnt = 40; bits = 511 ∷ 2 ∷ [] })
unfolding bitmap_scan_and_flip bitmap_scan scan_from bitmap_contains contains_bit bitmap_test
    bitmap_set_multiple set_bits bitmap_set
scan_short = refl

-- With a count of 0 the scan gives its start, where the comment of bitmap_scan_and_flip says 0.
scan_nothing : bitmap_scan_and_flip two_words 5 0 false ≡ some (5, two_words)
unfolding bitmap_scan_and_flip bitmap_scan scan_from bitmap_contains contains_bit bitmap_test
    bitmap_set_multiple set_bits bitmap_set
scan_nothing = refl

set_past_end : bitmap_set two_words 40 true ≡ none
unfolding bitmap_set
set_past_end = refl

bitmap_scan_and_flip-Flipped_example :
    (r : ℕ) × (b' : Bitmap) × (bitmap_scan_and_flip two_words 1 6 false ≡ some (r, b'))
    × Flipped two_words 1 6 false r b'
bitmap_scan_and_flip-Flipped_example =
    bitmap_scan_and_flip-Flipped two_words 1 6 false two_words-IsValid (omega arith) (omega arith)

-- ===== src/KernelLib/Bitmap.antt =====
-- lib/kernel/bitmap.c: an array of bits in words of 32 bits. `none` is a failed ASSERT or an access
-- outside of the words. The kernel is 32-bit, so size_t and elem_type have 32 bits.
pub mod Words
pub mod Ranges
pub mod Scan
mod Tests
use ee461s_projects.Common.{
  ℕ, zero, suc, ◌+◌, ◌-◌, ◌*◌, ◌/◌, ◌%◌, ◌^◌, Bool, true, false, not, ◌&&◌, Option, none, some,
  List, [], ◌∷◌, ltb, leb, ◌==◌, if◌then◌else◌, get_elem?, length, ◌>>=◌, bit_and, bit_or, bit_xor,
}

abbrev pub elem_bits : ℕ
elem_bits = 32

-- struct bitmap
pub record Bitmap : Type 0 where
  pub bit_cnt : ℕ
  pub bits : List ℕ

-- SIZE_MAX
abbrev pub bitmap_error : ℕ
bitmap_error = 2 ^ 32 - 1

unfoldable pub elem_idx : ℕ → ℕ
elem_idx bit_idx = bit_idx / elem_bits

unfoldable pub bit_mask : ℕ → ℕ
bit_mask bit_idx = 2 ^ (bit_idx % elem_bits)

unfoldable pub elem_cnt : ℕ → ℕ
elem_cnt bit_cnt = (bit_cnt + elem_bits - 1) / elem_bits

unfoldable pub byte_cnt : ℕ → ℕ
unfolding elem_cnt
byte_cnt bit_cnt = 4 * elem_cnt bit_cnt

unfoldable pub last_mask : Bitmap → ℕ
last_mask b =
    let last_bits = b.bit_cnt % elem_bits in
    if last_bits == 0 then 2 ^ 32 - 1 else 2 ^ last_bits - 1

abbrev pub set_elem : List ℕ → ℕ → ℕ → List ℕ
set_elem [] i w = []
set_elem (x ∷ xs) zero w = w ∷ xs
set_elem (x ∷ xs) (suc i) w = x ∷ set_elem xs i w

-- `b->bits[elem_idx (bit_idx)] = f (b->bits[elem_idx (bit_idx)])`
unfoldable pub change_elem : Bitmap → ℕ → (ℕ → ℕ) → Option Bitmap
unfolding elem_idx
change_elem b bit_idx f = do
  w ← get_elem? b.bits (elem_idx bit_idx)
  some (record b { bits = set_elem b.bits (elem_idx bit_idx) (f w) })

unfoldable pub bitmap_mark : Bitmap → ℕ → Option Bitmap
unfolding change_elem bit_mask
bitmap_mark b bit_idx = change_elem b bit_idx (λ w. bit_or w (bit_mask bit_idx))

unfoldable pub bitmap_reset : Bitmap → ℕ → Option Bitmap
unfolding change_elem bit_mask
bitmap_reset b bit_idx = change_elem b bit_idx (λ w. bit_and w (2 ^ 32 - 1 - bit_mask bit_idx))

unfoldable pub bitmap_flip : Bitmap → ℕ → Option Bitmap
unfolding change_elem bit_mask
bitmap_flip b bit_idx = change_elem b bit_idx (λ w. bit_xor w (bit_mask bit_idx))

unfoldable pub bitmap_set : Bitmap → ℕ → Bool → Option Bitmap
unfolding bitmap_mark bitmap_reset
bitmap_set b idx value =
    if ltb idx b.bit_cnt then if value then bitmap_mark b idx else bitmap_reset b idx else none

unfoldable pub bitmap_test : Bitmap → ℕ → Option Bool
unfolding elem_idx bit_mask
bitmap_test b idx =
    if ltb idx b.bit_cnt
    then (do w ← get_elem? b.bits (elem_idx idx); some (not (bit_and w (bit_mask idx) == 0)))
    else none

-- The ASSERTs of the operations on ranges; the sum is a size_t.
unfoldable pub range_ok : Bitmap → (start cnt : ℕ) → Bool
range_ok b start cnt = leb start b.bit_cnt && leb ((start + cnt) % 2 ^ 32) b.bit_cnt

-- The loops over `cnt` bits from `start` on.
unfoldable pub set_bits : ℕ → Bitmap → ℕ → Bool → Option Bitmap
set_bits zero b start value = some b
set_bits (suc cnt) b start value =
    bitmap_set b start value >>= λ b'. set_bits cnt b' (start + 1) value

unfoldable pub bitmap_set_multiple : Bitmap → (start cnt : ℕ) → Bool → Option Bitmap
unfolding range_ok
bitmap_set_multiple b start cnt value =
    if range_ok b start cnt then set_bits cnt b start value else none

unfoldable pub bitmap_set_all : Bitmap → Bool → Option Bitmap
unfolding bitmap_set_multiple
bitmap_set_all b value = bitmap_set_multiple b 0 b.bit_cnt value

-- `garbage` is what the allocated block holds; `struct_ok` and `bits_ok` are what the calls of
-- malloc give. The outer `none` is a failed ASSERT, the inner one the null pointer.
unfoldable pub bitmap_create : (struct_ok bits_ok : Bool) → List ℕ → ℕ → Option (Option Bitmap)
bitmap_create struct_ok bits_ok garbage bit_cnt =
    if struct_ok
    then if bits_ok
      then (do
        b ← bitmap_set_all (record { bit_cnt = bit_cnt; bits = garbage }) false
        some (some b))
      else if bit_cnt == 0
      then (do b ← bitmap_set_all (record { bit_cnt = bit_cnt; bits = [] }) false; some (some b))
      else some none
    else some none

unfoldable pub bitmap_buf_size : ℕ → ℕ
unfolding byte_cnt
bitmap_buf_size bit_cnt = 8 + byte_cnt bit_cnt

-- `block` are the words behind the struct in the preallocated storage.
unfoldable pub bitmap_create_in_buf : ℕ → List ℕ → (block_size : ℕ) → Option Bitmap
unfolding bitmap_buf_size
bitmap_create_in_buf bit_cnt block block_size =
    if leb (bitmap_buf_size bit_cnt) block_size
    then bitmap_set_all (record { bit_cnt = bit_cnt; bits = block }) false
    else none

same : Bool → Bool → Bool
same true v = v
same false v = not v

unfoldable pub count_bits : ℕ → Bitmap → ℕ → Bool → Option ℕ
unfolding same
count_bits zero b start value = some 0
count_bits (suc cnt) b start value = do
  v ← bitmap_test b start
  n ← count_bits cnt b (start + 1) value
  some (if same v value then n + 1 else n)

unfoldable pub bitmap_count : Bitmap → (start cnt : ℕ) → Bool → Option ℕ
unfolding range_ok
bitmap_count b start cnt value = if range_ok b start cnt then count_bits cnt b start value else none

unfoldable pub contains_bit : ℕ → Bitmap → ℕ → Bool → Option Bool
unfolding same
contains_bit zero b start value = some false
contains_bit (suc cnt) b start value =
    let rest = contains_bit cnt b (start + 1) value in
    bitmap_test b start >>= λ v. if same v value then some true else rest

unfoldable pub bitmap_contains : Bitmap → (start cnt : ℕ) → Bool → Option Bool
unfolding range_ok
bitmap_contains b start cnt value =
    if range_ok b start cnt then contains_bit cnt b start value else none

unfoldable pub bitmap_any : Bitmap → (start cnt : ℕ) → Option Bool
bitmap_any b start cnt = bitmap_contains b start cnt true

unfoldable pub bitmap_none : Bitmap → (start cnt : ℕ) → Option Bool
bitmap_none b start cnt = do r ← bitmap_contains b start cnt true; some (not r)

unfoldable pub bitmap_all : Bitmap → (start cnt : ℕ) → Option Bool
bitmap_all b start cnt = do r ← bitmap_contains b start cnt false; some (not r)

-- The loop of bitmap_scan, for the `n` indices from `i` on.
unfoldable pub scan_from : ℕ → Bitmap → (i cnt : ℕ) → Bool → Option ℕ
scan_from zero b i cnt value = some bitmap_error
scan_from (suc n) b i cnt value =
    let rest = scan_from n b (i + 1) cnt value in
    bitmap_contains b i cnt (not value) >>= λ r. if r then rest else some i

unfoldable pub bitmap_scan : Bitmap → (start cnt : ℕ) → Bool → Option ℕ
bitmap_scan b start cnt value =
    if leb start b.bit_cnt
    then if leb cnt b.bit_cnt
      then scan_from (b.bit_cnt - cnt + 1 - start) b start cnt value
      else some bitmap_error
    else none

unfoldable pub bitmap_scan_and_flip : Bitmap → (start cnt : ℕ) → Bool → Option (ℕ × Bitmap)
bitmap_scan_and_flip b start cnt value = do
  idx ← bitmap_scan b start cnt value
  if idx == bitmap_error
      then some (idx, b)
      else do b' ← bitmap_set_multiple b idx cnt (not value); some (idx, b')

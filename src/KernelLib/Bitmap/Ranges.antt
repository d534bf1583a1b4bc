-- ===== src/KernelLib/Bitmap/Ranges.antt =====
-- The operations of bitmap.c on ranges of bits.
use ee461s_projects.Common.{
  ℕ, zero, suc, ◌+◌, ◌^◌, ◌<◌, ◌≤◌, ◌≡◌, refl, ◌∙◌, Bool, true, false, not, ◌&&◌, some, List, ltb,
  leb, if◌then◌else◌, length, arith, Bool-cases, inl, inr, ◌⊎◌,
}
use ee461s_projects.KernelLib.Bitmap.{
  Bitmap, elem_cnt, range_ok, set_bits, bitmap_set_multiple, bitmap_set_all, bitmap_create,
  bitmap_buf_size, bitmap_create_in_buf, same, count_bits, bitmap_count, contains_bit,
  bitmap_contains,
}
use ee461s_projects.KernelLib.Bitmap.Words.{value_at, IsValid, bitmap_set_lem, bitmap_test_lem}

-- `b'` is `b` with the `cnt` bits from `start` on set to `value`.
pub record Filled (b : Bitmap) (start cnt : ℕ) (value : Bool) (b' : Bitmap) : Type 0 where
  pub same_cnt : b'.bit_cnt ≡ b.bit_cnt
  pub valid : IsValid b'
  pub bits :
      (j : ℕ) → value_at b' j ≡ (if leb start j && ltb j (start + cnt) then value else value_at b j)

set_bits_lem :
    (cnt : ℕ) (b : Bitmap) (start : ℕ) (value : Bool)
    → IsValid b
    → start + cnt ≤ b.bit_cnt
    → (b' : Bitmap) × (set_bits cnt b start value ≡ some b') × Filled b start cnt value b'
unfolding set_bits
set_bits_lem zero b start value v h =
    (b, refl, record { same_cnt = refl; valid = v; bits = λ j. ground arith })
set_bits_lem (suc cnt) b start value v h =
    let (b1, e1, c1) = bitmap_set_lem b start value v (omega arith) in
    let (b2, e2, f2) =
      set_bits_lem cnt b1 (start + 1) value c1.valid (omega (arith, c1.same_cnt)) in
    (
      b2,
      rw (e1, set_bits) e2,
      record {
        same_cnt = f2.same_cnt ∙ c1.same_cnt;
        valid = f2.valid;
        bits = λ j. ground (arith, f2.bits j, c1.bits j);
      },
    )

pub range_ok_lem :
    (b : Bitmap) (start cnt : ℕ) → IsValid b → start + cnt ≤ b.bit_cnt → range_ok b start cnt ≡ true
unfolding range_ok
range_ok_lem b start cnt v h = ground (arith, v.small)

-- bitmap_set_multiple passes its ASSERTs on a range inside the bitmap, sets exactly the bits of the
-- range, and keeps the bitmap well formed.
pub bitmap_set_multiple-Filled :
    (b : Bitmap) (start cnt : ℕ) (value : Bool)
    → IsValid b
    → start + cnt ≤ b.bit_cnt
    → (b' : Bitmap) × (bitmap_set_multiple b start cnt value ≡ some b')
      × Filled b start cnt value b'
unfolding bitmap_set_multiple
bitmap_set_multiple-Filled b start cnt value v h =
    let (b', e, f) = set_bits_lem cnt b start value v h in
    (b', rw (range_ok_lem b start cnt v h, bitmap_set_multiple) e, f)

-- A fresh bitmap is all false, whatever the allocated block held.
pub bitmap_create-false :
    (garbage : List ℕ) (bit_cnt : ℕ)
    → length garbage ≡ elem_cnt bit_cnt
    → bit_cnt < 2 ^ 32
    → (b : Bitmap) × (bitmap_create true true garbage bit_cnt ≡ some (some b))
      × (b.bit_cnt ≡ bit_cnt)
      × IsValid b
      × ((j : ℕ) → j < bit_cnt → value_at b j ≡ false)
unfolding bitmap_create bitmap_set_all
bitmap_create-false garbage bit_cnt l h =
    let (b', e, f) =
      bitmap_set_multiple-Filled (record { bit_cnt = bit_cnt; bits = garbage }) 0 bit_cnt false
        (record { words = l; small = h }) (omega arith) in
    (b', rw (e, bitmap_create) refl, f.same_cnt, f.valid, λ j lt. ground (arith, f.bits j))

-- All of the `cnt` bits from `start` on are `value`.
abbrev pub Group : Bitmap → ℕ → ℕ → Bool → Type 0
Group b start cnt value = (j : ℕ) → start ≤ j → j < start + cnt → value_at b j ≡ value

pub bitmap_create_in_buf_lem :
    (bit_cnt : ℕ) (block : List ℕ) (block_size : ℕ)
    → length block ≡ elem_cnt bit_cnt
    → bit_cnt < 2 ^ 32
    → bitmap_buf_size bit_cnt ≤ block_size
    → (b : Bitmap) × (bitmap_create_in_buf bit_cnt block block_size ≡ some b)
      × (b.bit_cnt ≡ bit_cnt)
      × IsValid b
      × Group b 0 bit_cnt false
unfolding bitmap_create_in_buf bitmap_set_all
bitmap_create_in_buf_lem bit_cnt block block_size l h fits =
    let room : leb (bitmap_buf_size bit_cnt) block_size ≡ true = ground arith in
    let (b, e, f) =
      bitmap_set_multiple-Filled (record { bit_cnt = bit_cnt; bits = block }) 0 bit_cnt false
        (record { words = l; small = h }) (omega arith) in
    (b, rw (room, bitmap_create_in_buf) e, f.same_cnt, f.valid, λ j p lt. ground (arith, f.bits j))

-- How many of the `cnt` bits from `start` on are `value`.
unfoldable pub number_of : Bitmap → ℕ → ℕ → Bool → ℕ
number_of b start zero value = 0
number_of b start (suc cnt) value =
    (if if value then value_at b start else not (value_at b start) then 1 else 0)
    + number_of b (start + 1) cnt value

count_bits_lem :
    (cnt : ℕ) (b : Bitmap) (start : ℕ) (value : Bool)
    → IsValid b
    → start + cnt ≤ b.bit_cnt
    → count_bits cnt b start value ≡ some (number_of b start cnt value)
unfolding count_bits number_of same
count_bits_lem zero b start value v h = refl
count_bits_lem (suc cnt) b start value v h =
    rw (bitmap_test_lem b start v (omega arith), count_bits)
      (rw (count_bits_lem cnt b (start + 1) value v (omega arith)) (ground arith))

-- bitmap_count counts the bits of a range that have the value.
pub bitmap_count_lem :
    (b : Bitmap) (start cnt : ℕ) (value : Bool)
    → IsValid b
    → start + cnt ≤ b.bit_cnt
    → bitmap_count b start cnt value ≡ some (number_of b start cnt value)
unfolding bitmap_count
bitmap_count_lem b start cnt value v h =
    rw (range_ok_lem b start cnt v h, bitmap_count) (count_bits_lem cnt b start value v h)

-- One of them is.
abbrev pub Has : Bitmap → ℕ → ℕ → Bool → Type 0
Has b start cnt value = (j : ℕ) × (start ≤ j) × (j < start + cnt) × (value_at b j ≡ value)

contains_bit_lem :
    (cnt : ℕ) (b : Bitmap) (start : ℕ) (value : Bool)
    → IsValid b
    → start + cnt ≤ b.bit_cnt
    → ((contains_bit cnt b start value ≡ some true) × Has b start cnt value)
      ⊎ ((contains_bit cnt b start value ≡ some false) × Group b start cnt (not value))
unfolding contains_bit same
contains_bit_lem zero b start value v h = inr (refl, λ j p q. absurd (omega arith))
contains_bit_lem (suc cnt) b start value v h = elim (Bool-cases (same (value_at b start) value)) [
  | inl e ↦ inl (
    rw (bitmap_test_lem b start v (omega arith), contains_bit) (rw e refl),
    (start, omega arith, omega arith, ground arith),
  )
  | inr e ↦ elim (contains_bit_lem cnt b (start + 1) value v (omega arith)) [
    | inl (e', (j, p, q, at)) ↦ inl (
      rw (bitmap_test_lem b start v (omega arith), contains_bit) (rw (e, e') refl),
      (j, omega arith, omega arith, at),
    )
    | inr (e', all) ↦ inr (
      rw (bitmap_test_lem b start v (omega arith), contains_bit) (rw (e, e') refl),
      λ j p q. ground (arith, all j),
    )
  ]
]

-- bitmap_contains says whether a range inside the bitmap has a bit of the value.
pub bitmap_contains_lem :
    (b : Bitmap) (start cnt : ℕ) (value : Bool)
    → IsValid b
    → start + cnt ≤ b.bit_cnt
    → ((bitmap_contains b start cnt value ≡ some true) × Has b start cnt value)
      ⊎ ((bitmap_contains b start cnt value ≡ some false) × Group b start cnt (not value))
unfolding bitmap_contains
bitmap_contains_lem b start cnt value v h =
    rw (range_ok_lem b start cnt v h) (contains_bit_lem cnt b start value v h)

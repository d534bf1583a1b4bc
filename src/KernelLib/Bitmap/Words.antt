-- ===== src/KernelLib/Bitmap/Words.antt =====
-- One bit of a bitmap: what bitmap_mark, bitmap_reset, bitmap_flip and bitmap_test do to the bits
-- that the words stand for.
use ee461s_projects.Common.{
  ℕ, zero, suc, ◌-◌, ◌/◌, ◌%◌, ◌^◌, ◌<◌, ◌≡◌, refl, ap, Bool, true, false, not, some, List, [], ◌∷◌,
  ◌==◌, lt→ltb, if◌then◌else◌, get_elem?, get_or, length, arith, bit, bit-or, bit-and, bit-xor,
  bit-pow, bit-complement, bit_and-pow, pow-pos, pow_lt,
}
use ee461s_projects.KernelLib.Bitmap.{
  Bitmap, elem_bits, elem_idx, bit_mask, elem_cnt, set_elem, change_elem, bitmap_mark, bitmap_reset,
  bitmap_flip, bitmap_set, bitmap_test,
}

-- Bit `i` of a bitmap.
unfoldable pub value_at : Bitmap → ℕ → Bool
unfolding elem_idx
value_at b i = bit (get_or b.bits (elem_idx i) 0) (i % elem_bits)

pub record IsValid (b : Bitmap) : Type 0 where
  pub words : length b.bits ≡ elem_cnt b.bit_cnt
  pub small : b.bit_cnt < 2 ^ 32

get_elem?-get_or : (xs : List ℕ) (i : ℕ) → i < length xs → get_elem? xs i ≡ some (get_or xs i 0)
get_elem?-get_or [] i h = absurd (omega arith)
get_elem?-get_or (x ∷ xs) zero h = refl
get_elem?-get_or (x ∷ xs) (suc i) h = get_elem?-get_or xs i (omega arith)

length-set_elem : (xs : List ℕ) (i w : ℕ) → length (set_elem xs i w) ≡ length xs
length-set_elem [] i w = refl
length-set_elem (x ∷ xs) zero w = refl
length-set_elem (x ∷ xs) (suc i) w = ap suc (length-set_elem xs i w)

get_or-set_elem :
    (xs : List ℕ) (i w j : ℕ)
    → i < length xs
    → get_or (set_elem xs i w) j 0 ≡ (if j == i then w else get_or xs j 0)
get_or-set_elem [] i w j h = absurd (omega arith)
get_or-set_elem (x ∷ xs) zero w zero h = refl
get_or-set_elem (x ∷ xs) zero w (suc j) h = ground arith
get_or-set_elem (x ∷ xs) (suc i) w zero h = ground arith
get_or-set_elem (x ∷ xs) (suc i) w (suc j) h =
    ground (arith, get_or-set_elem xs i w j (omega arith))

idx_in_range : (b : Bitmap) (i : ℕ) → IsValid b → i < b.bit_cnt → elem_idx i < length b.bits
unfolding elem_idx elem_cnt
idx_in_range b i v h = omega (arith, v.words)

-- A word operation that changes bit `i % 32` alone changes bit `i` of the bitmap alone.
pub record Changed (b : Bitmap) (i : ℕ) (value : Bool) (b' : Bitmap) : Type 0 where
  pub same_cnt : b'.bit_cnt ≡ b.bit_cnt
  pub valid : IsValid b'
  pub bits : (j : ℕ) → value_at b' j ≡ (if j == i then value else value_at b j)

change_elem_lem :
    (b : Bitmap) (i : ℕ) (f : ℕ → ℕ) (value : Bool)
    → IsValid b
    → i < b.bit_cnt
    → ((k : ℕ)
        → k < 32
        → let w = get_or b.bits (elem_idx i) 0 in
          bit (f w) k ≡ (if k == i % 32 then value else bit w k))
    → (b' : Bitmap) × (change_elem b i f ≡ some b') × Changed b i value b'
unfolding change_elem value_at elem_idx
change_elem_lem b i f value v h changes = (
  record b { bits = set_elem b.bits (i / 32) (f w) },
  rw (get_elem?-get_or b.bits (i / 32) (idx_in_range b i v h)),
  record {
    same_cnt = refl;
    valid = record { words = rw length-set_elem v.words; small = v.small };
    bits = λ j. ground (
      arith,
      get_or-set_elem b.bits (i / 32) (f w) (j / 32) (idx_in_range b i v h),
      changes (j % 32) (omega arith),
    );
  },
)
  where
    w : ℕ
    w = get_or b.bits (i / 32) 0

mask_bound : (i : ℕ) → bit_mask i < 2 ^ 32
unfolding bit_mask
mask_bound i = pow_lt (i % 32) 32 (omega arith)

pub bitmap_mark_lem :
    (b : Bitmap) (i : ℕ)
    → IsValid b
    → i < b.bit_cnt
    → (b' : Bitmap) × (bitmap_mark b i ≡ some b') × Changed b i true b'
unfolding bitmap_mark bit_mask
bitmap_mark_lem b i v h = change_elem_lem b i _ true v h (λ k l.
    ground (arith, bit-or (get_or b.bits (elem_idx i) 0) (2 ^ (i % 32)) k, bit-pow (i % 32) k))

pub bitmap_reset_lem :
    (b : Bitmap) (i : ℕ)
    → IsValid b
    → i < b.bit_cnt
    → (b' : Bitmap) × (bitmap_reset b i ≡ some b') × Changed b i false b'
unfolding bitmap_reset bit_mask
bitmap_reset_lem b i v h = change_elem_lem b i _ false v h (λ k l. ground (
  arith,
  bit-and (get_or b.bits (elem_idx i) 0) (2 ^ 32 - 1 - 2 ^ (i % 32)) k,
  bit-complement 32 (2 ^ (i % 32)) k (mask_bound i) l,
  bit-pow (i % 32) k,
))

pub bitmap_flip_lem :
    (b : Bitmap) (i : ℕ)
    → IsValid b
    → i < b.bit_cnt
    → (b' : Bitmap) × (bitmap_flip b i ≡ some b') × Changed b i (not (value_at b i)) b'
unfolding bitmap_flip bit_mask value_at
bitmap_flip_lem b i v h = change_elem_lem b i _ (not (value_at b i)) v h (λ k l.
    ground (arith, bit-xor (get_or b.bits (elem_idx i) 0) (2 ^ (i % 32)) k, bit-pow (i % 32) k))

pub bitmap_set_lem :
    (b : Bitmap) (i : ℕ) (value : Bool)
    → IsValid b
    → i < b.bit_cnt
    → (b' : Bitmap) × (bitmap_set b i value ≡ some b') × Changed b i value b'
unfolding bitmap_set
bitmap_set_lem b i true v h = rw (lt→ltb i b.bit_cnt h) (bitmap_mark_lem b i v h)
bitmap_set_lem b i false v h = rw (lt→ltb i b.bit_cnt h) (bitmap_reset_lem b i v h)

pub bitmap_test_lem :
    (b : Bitmap) (i : ℕ) → IsValid b → i < b.bit_cnt → bitmap_test b i ≡ some (value_at b i)
unfolding bitmap_test value_at bit_mask
bitmap_test_lem b i v h =
    rw (lt→ltb i b.bit_cnt h, get_elem?-get_or b.bits (elem_idx i) (idx_in_range b i v h))
      (ground (arith, bit_and-pow (get_or b.bits (elem_idx i) 0) (i % 32), pow-pos (i % 32)))

-- On bits inside the bitmap, bitmap_set, bitmap_flip and bitmap_test pass: a set bit tests as it was
-- set, a flipped one as the opposite, and all other bits test as before.
pub bitmap_test-set-flip :
    (b : Bitmap) (i j : ℕ) (value : Bool)
    → IsValid b
    → i < b.bit_cnt
    → j < b.bit_cnt
    → ((b' : Bitmap) × (bitmap_set b i value ≡ some b')
        × (bitmap_test b' j ≡ (if j == i then some value else bitmap_test b j)))
      × ((b' : Bitmap) × (bitmap_flip b i ≡ some b')
          × (bitmap_test b' j ≡ (if j == i then some (not (value_at b i)) else bitmap_test b j)))
bitmap_test-set-flip b i j value v p q =
    let (b1, e1, c1) = bitmap_set_lem b i value v p in
    let (b2, e2, c2) = bitmap_flip_lem b i v p in
    ((b1, e1, tested b1 value c1), (b2, e2, tested b2 (not (value_at b i)) c2))
  where
    tested :
        (b' : Bitmap) (w : Bool)
        → Changed b i w b'
        → bitmap_test b' j ≡ (if j == i then some w else bitmap_test b j)
    tested b' w c = ground (
      arith,
      c.same_cnt,
      bitmap_test_lem b' j c.valid (omega (arith, c.same_cnt)),
      bitmap_test_lem b j v q,
      c.bits j,
    )

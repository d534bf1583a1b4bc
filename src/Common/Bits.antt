-- ===== src/Common/Bits.antt =====
-- The binary digits of native numbers: `|`, `&`, `^`, masks and complements, digit by digit.
use Prim.Native.Nat.{
  ℕ, zero, suc, ◌+◌, ◌-◌, ◌*◌, ◌/◌, ◌%◌, ◌^◌, ◌≤◌, ◌<◌, min, max, bit_and, bit_or, bit_xor, digits,
  bitwise, differ, bit_and-bitwise, bit_or-bitwise, bit_xor-bitwise,
}
use mathlib.Core.Path.{◌≡◌, refl, ap}
use mathlib.Core.Bool.{Bool, false, not, ◌&&◌, ◌||◌}
use native.Mathlib.Omega.{arith}
use native.Mathlib.Nat.{pow-suc, one-le-pow}
use ee461s_projects.Common.Tests.{◌==◌, if◌then◌else◌}

-- Digit `k` of `w`, the lowest being digit 0.
unfoldable pub bit : ℕ → ℕ → Bool
bit w zero = w % 2 == 1
bit w (suc k) = bit (w / 2) k

-- The library's operations recurse on their first number with a fuel, which any larger one replaces.
module _ (rest : ℕ → ℕ) (op : ℕ → ℕ → ℕ) where
  no_digits : (fuel y : ℕ) → digits rest op fuel 0 y ≡ rest y
  no_digits zero y = refl
  no_digits (suc fuel) y = refl

  any_fuel :
      (x y : ℕ) (small large : ℕ)
      → x ≤ small
      → small ≤ large
      → digits rest op large x y ≡ digits rest op small x y
  any_fuel zero y small large p q = rw (no_digits small y) (no_digits large y)
  any_fuel (suc x) y zero large p q = absurd (omega arith)
  any_fuel (suc x) y (suc small) zero p q = absurd (omega arith)
  any_fuel (suc x) y (suc small) (suc large) p q =
      ap (λ t. t * 2 + op (suc x % 2) (y % 2))
        (any_fuel (suc x / 2) (y / 2) small large (omega arith) (omega arith))

  -- The lowest digit of the result, and the others.
  lowest_digit :
      (x y : ℕ)
      → 0 < x
      → bitwise rest op x y ≡ bitwise rest op (x / 2) (y / 2) * 2 + op (x % 2) (y % 2)
  lowest_digit zero y h = absurd (omega arith)
  lowest_digit (suc x) y h =
      ap (λ t. t * 2 + op (suc x % 2) (y % 2))
        (any_fuel (suc x / 2) (y / 2) (suc x / 2) x (omega arith) (omega arith))

bit_or_step : (x y : ℕ) → bit_or x y ≡ bit_or (x / 2) (y / 2) * 2 + max (x % 2) (y % 2)
bit_or_step zero y = simp bit_or-bitwise (omega arith)
bit_or_step (suc x) y = simp bit_or-bitwise (lowest_digit (λ b. b) max (suc x) y (omega arith))

bit_and_step : (x y : ℕ) → bit_and x y ≡ bit_and (x / 2) (y / 2) * 2 + min (x % 2) (y % 2)
bit_and_step zero y = simp bit_and-bitwise (omega arith)
bit_and_step (suc x) y = simp bit_and-bitwise (lowest_digit (λ b. 0) min (suc x) y (omega arith))

bit_xor_step : (x y : ℕ) → bit_xor x y ≡ bit_xor (x / 2) (y / 2) * 2 + differ (x % 2) (y % 2)
bit_xor_step zero y = simp bit_xor-bitwise (omega arith)
bit_xor_step (suc x) y = simp bit_xor-bitwise (lowest_digit (λ b. b) differ (suc x) y (omega arith))

pub bit-or : (a b k : ℕ) → bit (bit_or a b) k ≡ bit a k || bit b k
unfolding bit
bit-or a b zero = ground (arith, bit_or_step a b)
bit-or a b (suc k) = ground (arith, bit_or_step a b, bit-or (a / 2) (b / 2) k)

pub bit-and : (a b k : ℕ) → bit (bit_and a b) k ≡ bit a k && bit b k
unfolding bit
bit-and a b zero = ground (arith, bit_and_step a b)
bit-and a b (suc k) = ground (arith, bit_and_step a b, bit-and (a / 2) (b / 2) k)

differ_digits :
    (x y : ℕ) → x < 2 → y < 2 → (differ x y == 1) ≡ (if x == 1 then not (y == 1) else y == 1)
differ_digits zero y p q = ground arith
differ_digits (suc zero) zero p q = refl
differ_digits (suc zero) (suc zero) p q = refl
differ_digits (suc zero) (suc (suc y)) p q = absurd (omega arith)
differ_digits (suc (suc x)) y p q = absurd (omega arith)

differ_small : (x y : ℕ) → x < 2 → y < 2 → differ x y < 2
differ_small zero y p q = q
differ_small (suc zero) zero p q = omega arith
differ_small (suc zero) (suc zero) p q = omega arith
differ_small (suc zero) (suc (suc y)) p q = absurd (omega arith)
differ_small (suc (suc x)) y p q = absurd (omega arith)

pub bit-xor : (a b k : ℕ) → bit (bit_xor a b) k ≡ (if bit a k then not (bit b k) else bit b k)
unfolding bit
bit-xor a b zero = ground (
  arith,
  bit_xor_step a b,
  differ_digits (a % 2) (b % 2) (omega arith) (omega arith),
  differ_small (a % 2) (b % 2) (omega arith) (omega arith),
)
bit-xor a b (suc k) = ground (
  arith,
  bit_xor_step a b,
  differ_small (a % 2) (b % 2) (omega arith) (omega arith),
  bit-xor (a / 2) (b / 2) k,
)

bit_of_zero : (k : ℕ) → bit 0 k ≡ false
unfolding bit
bit_of_zero zero = refl
bit_of_zero (suc k) = bit_of_zero k

pub bit-pow : (j k : ℕ) → bit (2 ^ j) k ≡ (j == k)
unfolding bit
bit-pow zero zero = refl
bit-pow zero (suc k) = ground (arith, bit_of_zero k)
bit-pow (suc j) zero = ground (arith, pow-suc 2 j)
bit-pow (suc j) (suc k) = ground (arith, pow-suc 2 j, bit-pow j k)

pub bit-complement : (w m k : ℕ) → m < 2 ^ w → k < w → bit (2 ^ w - 1 - m) k ≡ not (bit m k)
unfolding bit
bit-complement zero m k p q = absurd (omega arith)
bit-complement (suc w) m zero p q = ground (arith, pow-suc 2 w)
bit-complement (suc w) m (suc k) p q =
    ground
      (arith, pow-suc 2 w, bit-complement w (m / 2) k (omega (arith, pow-suc 2 w)) (omega arith))

bit_and-zero : (n a : ℕ) → a ≤ n → bit_and a 0 ≡ 0
bit_and-zero n zero h = refl
bit_and-zero zero (suc a) h = absurd (omega arith)
bit_and-zero (suc n) (suc a) h =
    omega (arith, bit_and_step (suc a) 0, bit_and-zero n (suc a / 2) (omega arith))

-- A word masked with one bit is that bit or 0.
pub bit_and-pow : (w k : ℕ) → bit_and w (2 ^ k) ≡ (if bit w k then 2 ^ k else 0)
unfolding bit
bit_and-pow w zero = ground (arith, bit_and_step w 1, bit_and-zero (w / 2) (w / 2) (omega arith))
bit_and-pow w (suc k) =
    ground (arith, pow-suc 2 k, bit_and_step w (2 ^ suc k), bit_and-pow (w / 2) k)

pub pow-pos : (k : ℕ) → 0 < 2 ^ k
pow-pos k = omega (arith, one-le-pow k 2)

pub pow_lt : (a b : ℕ) → a < b → 2 ^ a < 2 ^ b
pow_lt zero zero h = absurd (omega arith)
pow_lt zero (suc b) h = omega (arith, pow-suc 2 b, pow-pos b)
pow_lt (suc a) zero h = absurd (omega arith)
pow_lt (suc a) (suc b) h = omega (arith, pow-suc 2 a, pow-suc 2 b, pow_lt a b (omega arith))

bit_and-bound : (n a b : ℕ) → b < n → bit_and a b ≤ b
bit_and-bound zero a b h = absurd (omega arith)
bit_and-bound (suc n) a zero h = ground (arith, bit_and_step a 0, bit_and-zero a a (omega arith))
bit_and-bound (suc n) a (suc b) h =
    ground (arith, bit_and_step a (suc b), bit_and-bound n (a / 2) (suc b / 2) (omega arith))

-- A mask bounds what it lets through.
pub bit_and-le : (a b : ℕ) → bit_and a b ≤ b
bit_and-le a b = bit_and-bound (suc b) a b (omega arith)

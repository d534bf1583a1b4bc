-- ===== src/Common/Bytes.antt =====
-- Byte ranges of a function on offsets, and memcpy into a byte list.
use Prim.Native.Nat.{ℕ, zero, suc, ◌+◌, ◌-◌, ◌<◌, ◌≤◌}
use mathlib.Core.Path.{◌≡◌, refl, ap, ap₂, ◌∙◌}
use mathlib.Core.Bool.{◌&&◌}
use mathlib.Core.List.{List, [], ◌∷◌, ◌++◌}
use native.Mathlib.Omega.{arith}
use ee461s_projects.Common.Tests.{ltb, leb, if◌then◌else◌}
use ee461s_projects.Common.Lists.{
  length, get_or, take, drop, length-append, length-take, length-drop, get_or-drop, get_or-take,
  get_or-append_left, get_or-append_right,
}

-- The `n` values of `f` from `o` on.
abbrev pub range_of {ℓ} : {A : Type ℓ} → (ℕ → A) → ℕ → ℕ → List A
range_of f o zero = []
range_of f o (suc n) = f o ∷ range_of f (o + 1) n

pub range_of-append {ℓ} :
    {A : Type ℓ} (f : ℕ → A) (o n m : ℕ)
    → range_of f o n ++ range_of f (o + n) m ≡ range_of f o (n + m)
range_of-append f o zero m = ap₂ (λ a b. range_of f a b) (omega arith) (omega arith)
range_of-append f o (suc n) m =
    ap (λ k. range_of f o (suc n) ++ range_of f k m) (omega arith)
    ∙ ap (λ l. f o ∷ l) (range_of-append f (o + 1) n m)
    ∙ ap (λ k. range_of f o k) suc_out
  where
    suc_out : suc (n + m) ≡ suc n + m
    suc_out = omega arith

pub range_of-congr {ℓ} :
    {A : Type ℓ} (f g : ℕ → A) (a b n : ℕ)
    → ((i : ℕ) → i < n → f (a + i) ≡ g (b + i))
    → range_of f a n ≡ range_of g b n
range_of-congr f g a b zero h = refl
range_of-congr f g a b (suc n) h =
    ap₂ ◌∷◌ (ap f (omega arith) ∙ h 0 (omega arith) ∙ ap g (omega arith)) (
      range_of-congr f g (a + 1) (b + 1) n
        (λ i l. ap f (omega arith) ∙ h (suc i) (omega arith) ∙ ap g (omega arith)))

pub take-drop-eq-range_of :
    (n o : ℕ) (xs : List ℕ)
    → o + n ≤ length xs
    → take n (drop o xs) ≡ range_of (λ i. get_or xs i 0) o n
take-drop-eq-range_of zero o xs h = refl
take-drop-eq-range_of (suc n) zero [] h = absurd (omega arith)
take-drop-eq-range_of (suc n) zero (x ∷ xs) h =
    ap (λ l. x ∷ l)
      (take-drop-eq-range_of n 0 xs (omega arith)
        ∙ range_of-congr (λ i. get_or xs i 0) (λ i. get_or (x ∷ xs) i 0) 0 1 n
            (λ i l. ground arith))
take-drop-eq-range_of (suc n) (suc o) [] h = absurd (omega arith)
take-drop-eq-range_of (suc n) (suc o) (x ∷ xs) h =
    take-drop-eq-range_of (suc n) o xs (omega arith)
    ∙ range_of-congr (λ i. get_or xs i 0) (λ i. get_or (x ∷ xs) i 0) o (suc o) (suc n)
        (λ i l. ground arith)

-- memcpy (dst + o, src, length src)
abbrev pub memcpy : List ℕ → ℕ → List ℕ → List ℕ
memcpy dst o src = take o dst ++ (src ++ drop (o + length src) dst)

pub length-memcpy :
    (dst : List ℕ) (o : ℕ) (src : List ℕ)
    → o + length src ≤ length dst
    → length (memcpy dst o src) ≡ length dst
length-memcpy dst o src h = ground (
  arith,
  length-append (take o dst) (src ++ drop (o + length src) dst),
  length-append src (drop (o + length src) dst),
  length-take o dst,
  length-drop (o + length src) dst,
)

pub get_or-memcpy :
    (dst : List ℕ) (o : ℕ) (src : List ℕ) (i : ℕ)
    → o + length src ≤ length dst
    → get_or (memcpy dst o src) i 0
      ≡ (if leb o i && ltb i (o + length src) then get_or src (i - o) 0 else get_or dst i 0)
get_or-memcpy dst o src i h = ground (
  arith,
  length-take o dst,
  get_or-append_left (take o dst) (src ++ drop (o + length src) dst) i 0,
  get_or-append_right (take o dst) (src ++ drop (o + length src) dst) i 0,
  get_or-append_left src (drop (o + length src) dst) (i - length (take o dst)) 0,
  get_or-append_right src (drop (o + length src) dst) (i - length (take o dst)) 0,
  get_or-take o i dst 0,
  get_or-drop (o + length src) (i - length (take o dst) - length src) dst 0,
)

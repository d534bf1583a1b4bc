-- ===== src/Common/Lists.antt =====
-- Lists measured and indexed by native numbers, under the library's names.
use Prim.Native.Nat.{ℕ, zero, suc, ◌+◌, ◌-◌, ◌<◌, ◌≤◌, min}
use mathlib.Core.Path.{◌≡◌, refl, ap}
use mathlib.Core.List.{List, [], ◌∷◌, ◌++◌}
use mathlib.Core.Option.{Option, none, some}
use native.Mathlib.Omega.{arith}
use mathlib.Core.Logic.{◌≢◌, inl, inr}
use ee461s_projects.Common.Tests.{◌==◌, if◌then◌else◌, Bool-cases}

module _ {ℓ} {A : Type ℓ} where
  abbrev pub length : List A → ℕ
  length [] = 0
  length (x ∷ xs) = suc (length xs)

  abbrev pub get_elem? : List A → ℕ → Option A
  get_elem? [] i = none
  get_elem? (x ∷ xs) zero = some x
  get_elem? (x ∷ xs) (suc i) = get_elem? xs i

  abbrev pub get_or : List A → ℕ → A → A
  get_or [] i d = d
  get_or (x ∷ xs) zero d = x
  get_or (x ∷ xs) (suc i) d = get_or xs i d

  abbrev pub take : ℕ → List A → List A
  take zero xs = []
  take (suc n) [] = []
  take (suc n) (x ∷ xs) = x ∷ take n xs

  abbrev pub drop : ℕ → List A → List A
  drop zero xs = xs
  drop (suc n) [] = []
  drop (suc n) (x ∷ xs) = drop n xs

  abbrev pub replicate : ℕ → A → List A
  replicate zero a = []
  replicate (suc n) a = a ∷ replicate n a

  -- The list without the element at an index.
  abbrev pub erase_idx : List A → ℕ → List A
  erase_idx [] i = []
  erase_idx (x ∷ xs) zero = xs
  erase_idx (x ∷ xs) (suc i) = x ∷ erase_idx xs i

  pub length-append : (xs ys : List A) → length (xs ++ ys) ≡ length xs + length ys
  length-append [] ys = omega arith
  length-append (x ∷ xs) ys = omega (arith, length-append xs ys)

  pub length-take : (n : ℕ) (xs : List A) → length (take n xs) ≡ min n (length xs)
  length-take zero xs = omega arith
  length-take (suc n) [] = omega arith
  length-take (suc n) (x ∷ xs) = omega (arith, length-take n xs)

  pub length-drop : (n : ℕ) (xs : List A) → length (drop n xs) ≡ length xs - n
  length-drop zero xs = omega arith
  length-drop (suc n) [] = omega arith
  length-drop (suc n) (x ∷ xs) = omega (arith, length-drop n xs)

  pub length-replicate : (n : ℕ) (a : A) → length (replicate n a) ≡ n
  length-replicate zero a = refl
  length-replicate (suc n) a = ap suc (length-replicate n a)

module _ {ℓ} {A : Type ℓ} where
  pub get_or-drop : (n i : ℕ) (xs : List A) (d : A) → get_or (drop n xs) i d ≡ get_or xs (n + i) d
  get_or-drop zero i xs d = ap (λ k. get_or xs k d) (omega arith)
  get_or-drop (suc n) i [] d = refl
  get_or-drop (suc n) i (x ∷ xs) d = ground (arith, get_or-drop n i xs d)

  pub get_or-take : (n i : ℕ) (xs : List A) (d : A) → i < n → get_or (take n xs) i d ≡ get_or xs i d
  get_or-take zero i xs d h = absurd (omega arith)
  get_or-take (suc n) i [] d h = refl
  get_or-take (suc n) zero (x ∷ xs) d h = refl
  get_or-take (suc n) (suc i) (x ∷ xs) d h = get_or-take n i xs d (omega arith)

  pub get_or-append_left :
      (xs ys : List A) (i : ℕ) (d : A) → i < length xs → get_or (xs ++ ys) i d ≡ get_or xs i d
  get_or-append_left [] ys i d h = absurd (omega arith)
  get_or-append_left (x ∷ xs) ys zero d h = refl
  get_or-append_left (x ∷ xs) ys (suc i) d h = get_or-append_left xs ys i d (omega arith)

  pub get_or-append_right :
      (xs ys : List A) (i : ℕ) (d : A)
      → length xs ≤ i
      → get_or (xs ++ ys) i d ≡ get_or ys (i - length xs) d
  get_or-append_right [] ys i d h = ap (λ k. get_or ys k d) (omega arith)
  get_or-append_right (x ∷ xs) ys zero d h = absurd (omega arith)
  get_or-append_right (x ∷ xs) ys (suc i) d h =
      ground (arith, get_or-append_right xs ys i d (omega arith))

  pub take_all : (n : ℕ) (xs : List A) → length xs ≤ n → take n xs ≡ xs
  take_all zero [] h = refl
  take_all zero (x ∷ xs) h = absurd (omega arith)
  take_all (suc n) [] h = refl
  take_all (suc n) (x ∷ xs) h = ap (λ l. x ∷ l) (take_all n xs (omega arith))

  pub get_or_past : (xs : List A) (i : ℕ) (d : A) → length xs ≤ i → get_or xs i d ≡ d
  get_or_past [] i d h = refl
  get_or_past (x ∷ xs) zero d h = absurd (omega arith)
  get_or_past (x ∷ xs) (suc i) d h = get_or_past xs i d (omega arith)

-- How often a number stands in a list.
abbrev pub count : ℕ → List ℕ → ℕ
count a [] = 0
count a (x ∷ xs) = (if a == x then 1 else 0) + count a xs

pub count-append : (a : ℕ) (xs ys : List ℕ) → count a (xs ++ ys) ≡ count a xs + count a ys
count-append a [] ys = omega arith
count-append a (x ∷ xs) ys = ground (arith, count-append a xs ys)

-- The list without a number.
abbrev pub erase_all : ℕ → List ℕ → List ℕ
erase_all a [] = []
erase_all a (x ∷ xs) = if a == x then erase_all a xs else x ∷ erase_all a xs

-- The sum of a weight over a list.
abbrev pub sum : (ℕ → ℕ) → List ℕ → ℕ
sum w [] = 0
sum w (x ∷ xs) = w x + sum w xs

pub sum-congr :
    (w w' : ℕ → ℕ) (xs : List ℕ) → ((x : ℕ) → count x xs ≢ 0 → w x ≡ w' x) → sum w xs ≡ sum w' xs
sum-congr w w' [] h = refl
sum-congr w w' (x ∷ xs) h =
    ground (arith, h x (ground arith), sum-congr w w' xs (λ y n. h y (ground arith)))

-- One weight changes.
pub sum_change :
    (w w' : ℕ → ℕ) (f : ℕ) (xs : List ℕ)
    → count f xs ≡ 1
    → ((x : ℕ) → x ≢ f → w x ≡ w' x)
    → sum w' xs + w f ≡ sum w xs + w' f
sum_change w w' f [] n h = absurd (omega arith)
sum_change w w' f (x ∷ xs) n h = elim (Bool-cases (f == x)) [
  | inl e ↦ ground (arith, sum-congr w w' xs (λ y ny. h y (ground arith)))
  | inr e ↦ ground (arith, h x (ground arith), sum_change w w' f xs (ground arith) h)
]

pub erase_all_absent : (f : ℕ) (xs : List ℕ) → count f xs ≡ 0 → erase_all f xs ≡ xs
erase_all_absent f [] n = refl
erase_all_absent f (x ∷ xs) n = ground (arith, erase_all_absent f xs)

pub sum-erase_all :
    (w : ℕ → ℕ) (f : ℕ) (xs : List ℕ) → count f xs ≡ 1 → sum w xs ≡ sum w (erase_all f xs) + w f
sum-erase_all w f [] n = absurd (omega arith)
sum-erase_all w f (x ∷ xs) n = elim (Bool-cases (f == x)) [
  | inl e ↦ ground (arith, erase_all_absent f xs)
  | inr e ↦ ground (arith, sum-erase_all w f xs)
]

pub count-erase_all :
    (f g : ℕ) (xs : List ℕ) → count g (erase_all f xs) ≡ (if g == f then 0 else count g xs)
count-erase_all f g [] = ground arith
count-erase_all f g (x ∷ xs) = ground (arith, count-erase_all f g xs)

-- ===== src/Libc/Printf/Digits.antt =====
-- lib/stdio.c: the digits that format_integer puts into its buffer.
use ee461s_projects.Common.{
  ℕ, zero, suc, ◌+◌, ◌-◌, ◌*◌, ◌/◌, ◌%◌, ◌^◌, ◌≤◌, ◌<◌, ◌≡◌, refl, min, Bool, true, false, not,
  ◌&&◌, some, List, [], ◌∷◌, ◌++◌, length, length-append, replicate, get_or, arith, ltb, ◌==◌,
  if◌then◌else◌, ap, ◌∙◌, sym, append_assoc, append-nil, inl, inr, Bool-cases,
}
use native.Mathlib.Nat.{pow-suc}
use ee461s_projects.Libc.Printf.{
  IntegerBase, base_d, base_o, base_x, base_upper_x, push, digits_loop, zeros_loop,
}

-- The number that a digit stands for.
abbrev pub digit_value : ℕ → ℕ
digit_value c = if ltb c 58 then c - 48 else if ltb c 71 then c - 55 else c - 87

-- A digit stands for its number and is no space.
abbrev pub is_digit_of : ℕ → ℕ → Bool
is_digit_of d c = digit_value c == d && not (c == 32)

-- The digits of a table stand for `d` and the numbers after it.
digits_ok : (d : ℕ) → List ℕ → Bool
digits_ok d [] = true
digits_ok d (c ∷ table) = let others = digits_ok (d + 1) table in is_digit_of d c && others

digits_ok_lem :
    (d : ℕ) (table : List ℕ) (i : ℕ)
    → digits_ok d table ≡ true
    → i < length table
    → is_digit_of (d + i) (get_or table i 0) ≡ true
unfolding digits_ok
digits_ok_lem d [] i h l = absurd (omega arith)
digits_ok_lem d (c ∷ table) zero h l = let e : d + 0 ≡ d = omega arith in rw e (ground arith)
digits_ok_lem d (c ∷ table) (suc i) h l =
    let e : d + suc i ≡ d + 1 + i = omega arith in
    rw e (digits_ok_lem (d + 1) table i (ground arith) (omega arith))

pub record IsBase (b : IntegerBase) : Type 0 where
  pub low : 8 ≤ b.base
  pub digit : (d : ℕ) → d < b.base → is_digit_of d (get_or b.digits d 0) ≡ true

table-IsBase :
    (b : IntegerBase)
    → 8 ≤ b.base
    → b.base ≡ length b.digits
    → digits_ok 0 b.digits ≡ true
    → IsBase b
table-IsBase b l n h = record {
  low = l;
  digit = λ d lt.
      let e : d ≡ 0 + d = omega arith in
      ap (λ k. is_digit_of k (get_or b.digits d 0)) e ∙ digits_ok_lem 0 b.digits d h (omega arith);
}

pub base_d-IsBase : IsBase base_d
unfolding digits_ok
base_d-IsBase = table-IsBase base_d (omega arith) refl refl

pub base_o-IsBase : IsBase base_o
unfolding digits_ok
base_o-IsBase = table-IsBase base_o (omega arith) refl refl

pub base_x-IsBase : IsBase base_x
unfolding digits_ok
base_x-IsBase = table-IsBase base_x (omega arith) refl refl

pub base_upper_x-IsBase : IsBase base_upper_x
unfolding digits_ok
base_upper_x-IsBase = table-IsBase base_upper_x (omega arith) refl refl

pub push_lem : (buf : List ℕ) (c : ℕ) → length buf < 64 → push buf c ≡ some (buf ++ (c ∷ []))
unfolding push
push_lem buf c h = ground arith

-- The digits of a value, the lowest first.
abbrev pub digits_of : ℕ → IntegerBase → ℕ → List ℕ
digits_of zero b value = []
digits_of (suc n) b value =
    let more = get_or b.digits (value % b.base) 0 ∷ digits_of n b (value / b.base) in
    if ltb 0 value then more else []

-- The number that digits stand for, the lowest first, and that all of them are digits.
abbrev pub low_value : ℕ → List ℕ → ℕ
low_value base [] = 0
low_value base (c ∷ buf) = digit_value c + base * low_value base buf

abbrev pub NoSpaces : List ℕ → Type 0
NoSpaces [] = Unit {0}
NoSpaces (c ∷ buf) = ((c == 32) ≡ false) × NoSpaces buf

-- A division by the base takes a digit off.
div_lt : (v b p : ℕ) → 8 ≤ b → v < 8 * p → v / b < p
div_lt v b p h l = grind arith

mod_lt : (v b : ℕ) → 8 ≤ b → v % b < b
mod_lt v b h = grind arith

div_mod : (v b : ℕ) → 8 ≤ b → v % b + b * (v / b) ≡ v
div_mod v b h = grind arith

module _ (b : IntegerBase) (v : IsBase b) where
  -- Without grouping the loop puts the digits behind what the buffer has.
  pub digits_loop_lem :
      (fuel value cnt : ℕ) (buf : List ℕ)
      → value < 8 ^ fuel
      → length buf + fuel ≤ 64
      → digits_loop fuel b false value cnt buf ≡ some (buf ++ digits_of fuel b value)
  unfolding digits_loop
  digits_loop_lem zero value cnt buf h l =
      let z : value ≡ 0 = omega arith in rw (z, append-nil buf) refl
  digits_loop_lem (suc fuel) value cnt buf h l = elim (Bool-cases (ltb 0 value)) [
    | inr z ↦ rw (z, append-nil buf) refl
    | inl p ↦
        (let d = get_or b.digits (value % b.base) 0 in
          rw (p, push_lem buf d (omega arith))
            (digits_loop_lem fuel (value / b.base) (cnt + 1) (buf ++ (d ∷ []))
                (div_lt value b.base (8 ^ fuel) v.low (omega (arith, pow-suc 8 fuel)))
                (omega (arith, length-append buf (d ∷ [])))
              ∙ ap some (append_assoc buf (d ∷ []) (digits_of fuel b (value / b.base)))))
  ]

  -- With grouping it puts two characters for a digit at most.
  pub digits_loop-fits :
      (fuel : ℕ) (group : Bool) (value cnt : ℕ) (buf : List ℕ)
      → value < 8 ^ fuel
      → length buf + 2 * fuel ≤ 64
      → (r : List ℕ) × (digits_loop fuel b group value cnt buf ≡ some r)
        × (length r ≤ length buf + 2 * fuel)
  unfolding digits_loop
  digits_loop-fits zero group value cnt buf h l =
      let z : value ≡ 0 = omega arith in (buf, rw z refl, omega arith)
  digits_loop-fits (suc fuel) group value cnt buf h l = elim (Bool-cases (ltb 0 value)) [
    | inr z ↦ (buf, rw z refl, omega arith)
    | inl p ↦
        (let d = get_or b.digits (value % b.base) 0 in
          let small = div_lt value b.base (8 ^ fuel) v.low (omega (arith, pow-suc 8 fuel)) in
          elim (Bool-cases (group && (ltb 0 cnt && cnt % b.group == 0))) [
            | inl g ↦
                (let buf1 = buf ++ (44 ∷ []) in
                  let n1 = length-append buf (44 ∷ []) in
                  let n2 = length-append buf1 (d ∷ []) in
                  let r =
                    digits_loop-fits fuel group (value / b.base) (cnt + 1) (buf1 ++ (d ∷ [])) small
                      (omega arith) in
                  (
                    r.0,
                    rw (p, g, push_lem buf 44 (omega arith), push_lem buf1 d (omega arith)) r.1,
                    omega (arith, r.2),
                  ))
            | inr g ↦
                (let n2 = length-append buf (d ∷ []) in
                  let r =
                    digits_loop-fits fuel group (value / b.base) (cnt + 1) (buf ++ (d ∷ [])) small
                      (omega arith) in
                  (r.0, rw (p, g, push_lem buf d (omega arith)) r.1, omega (arith, r.2)))
          ])
  ]

  pub low_value-digits_of :
      (fuel value : ℕ) → value < 8 ^ fuel → low_value b.base (digits_of fuel b value) ≡ value
  low_value-digits_of zero value h = omega arith
  low_value-digits_of (suc fuel) value h = elim (Bool-cases (ltb 0 value)) [
    | inr z ↦ rw z (ground arith)
    | inl p ↦ rw p (
        let q = v.digit (value % b.base) (mod_lt value b.base v.low) in
        let small = div_lt value b.base (8 ^ fuel) v.low (omega (arith, pow-suc 8 fuel)) in
        let e : digit_value (get_or b.digits (value % b.base) 0) ≡ value % b.base = ground arith in
        rw (e, low_value-digits_of fuel (value / b.base) small) (div_mod value b.base v.low))
  ]

  pub digits_of-NoSpaces : (fuel value : ℕ) → NoSpaces (digits_of fuel b value)
  digits_of-NoSpaces zero value = tt
  digits_of-NoSpaces (suc fuel) value = elim (Bool-cases (ltb 0 value)) [
    | inr z ↦ rw z tt
    | inl p ↦ rw p (
        let q = v.digit (value % b.base) (mod_lt value b.base v.low) in
        (ground arith, digits_of-NoSpaces fuel (value / b.base)))
  ]

-- The loop of the precision puts zeros up to it, and up to 63 characters.
pub zeros_loop_lem :
    (fuel p : ℕ) (buf : List ℕ)
    → length buf ≤ 63
    → 63 ≤ length buf + fuel
    → zeros_loop fuel p buf ≡ some (buf ++ replicate (min p 63 - length buf) 48)
unfolding zeros_loop
zeros_loop_lem zero p buf l f =
    let z : min p 63 - length buf ≡ 0 = omega arith in rw (z, append-nil buf) refl
zeros_loop_lem (suc fuel) p buf l f =
    elim (Bool-cases (ltb (length buf) p && ltb (length buf) 63)) [
      | inr s ↦ (let z : min p 63 - length buf ≡ 0 = ground arith in rw (s, z, append-nil buf) refl)
      | inl s ↦
          (let n = length-append buf (48 ∷ []) in
            let k : min p 63 - length buf ≡ suc (min p 63 - length (buf ++ (48 ∷ []))) =
              ground arith in
            rw (s, push_lem buf 48 (omega arith))
              (zeros_loop_lem fuel p (buf ++ (48 ∷ [])) (ground arith) (omega arith)
                ∙ ap some (
                    append_assoc buf (48 ∷ []) (replicate (min p 63 - length (buf ++ (48 ∷ []))) 48)
                    ∙ ap (λ j. buf ++ replicate j 48) (sym k))))
    ]

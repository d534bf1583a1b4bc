-- ===== src/Libc/Printf/Numbers.antt =====
-- lib/stdio.c: what format_integer puts out stays in its buffer, fills the width and reads back.
use ee461s_projects.Common.{
  ℕ, zero, suc, ◌+◌, ◌-◌, ◌*◌, ◌/◌, ◌^◌, ◌≤◌, ◌<◌, ◌≡◌, refl, min, Bool, true, false, not, ◌&&◌,
  some, List, [], ◌∷◌, ◌++◌, length, length-append, length-replicate, replicate, arith, ltb, ◌==◌,
  if◌then◌else◌, ap, ◌∙◌, sym, append_assoc, append-nil, inl, inr, Bool-cases,
}
use ee461s_projects.Libc.Printf.{
  IntegerBase, Conversion, push, backwards, buffer_of, no_leading_zero, format_integer, sign_of,
  rendered_precision,
}
use ee461s_projects.Libc.Printf.Digits.{
  IsBase, digit_value, low_value, NoSpaces, digits_of, digits_loop_lem, digits_loop-fits,
  low_value-digits_of, digits_of-NoSpaces, zeros_loop_lem, push_lem,
}

module _ (b : IntegerBase) (v : IsBase b) (c : Conversion) where
  -- The zero of `#` and base 8.
  last_zero :
      (buf : List ℕ)
      → length buf ≤ 63
      → (r : List ℕ) × ((if c.pound && (b.base == 8 && no_leading_zero buf)
            then push buf 48
            else some buf)
          ≡ some r)
        × (length r ≤ 64)
  last_zero buf h = elim (Bool-cases (c.pound && (b.base == 8 && no_leading_zero buf))) [
    | inl e ↦ (
      buf ++ (48 ∷ []),
      rw (e, push_lem buf 48 (omega arith)) refl,
      omega (arith, length-append buf (48 ∷ [])),
    )
    | inr e ↦ (buf, rw e refl, omega arith)
  ]

  buffer-fits :
      (value : ℕ)
      → value < 2 ^ 64
      → (buf : List ℕ) × (buffer_of value b c ≡ some buf) × (length buf ≤ 64)
  unfolding buffer_of
  buffer-fits value h =
      let d = digits_loop-fits b v 22 c.group value 0 [] (omega arith) (omega arith) in
      let zeros : List ℕ = replicate (min (rendered_precision c.precision) 63 - length d.0) 48 in
      let n = length-append d.0 zeros in
      let m : length zeros ≡ min (rendered_precision c.precision) 63 - length d.0 =
        length-replicate (min (rendered_precision c.precision) 63 - length d.0) 48 in
      let r = last_zero (d.0 ++ zeros) (omega (arith, d.2)) in
      (
        r.0,
        rw
            (
              d.1,
              zeros_loop_lem 63 (rendered_precision c.precision) d.0 (omega (arith, d.2))
                  (omega arith),
            )
            r.1,
        r.2,
      )

  length-backwards : (buf : List ℕ) → length (backwards buf) ≡ length buf
  unfolding backwards
  length-backwards [] = refl
  length-backwards (x ∷ buf) =
      omega (arith, length-append (backwards buf) (x ∷ []), length-backwards buf)

  -- The width is made up by padding on one of three places.
  padded :
      (pad n : ℕ) (sign prefix digits : List ℕ)
      → n ≤ length digits + length sign + length prefix + pad
      → n
        ≤ length (
            (if not c.minus && not c.zero_pad then replicate pad 32 else [])
            ++ (sign
                ++ (prefix
                    ++ ((if c.zero_pad then replicate pad 48 else [])
                        ++ (digits ++ (if c.minus then replicate pad 32 else []))))))
  padded pad n sign prefix digits e =
      let spaces : List ℕ = replicate pad 32 in
      let zeros : List ℕ = replicate pad 48 in
      let a = if not c.minus && not c.zero_pad then spaces else [] in
      let z = if c.zero_pad then zeros else [] in
      let w = if c.minus then spaces else [] in
      let l1 : length spaces ≡ pad = length-replicate pad 32 in
      let l2 : length zeros ≡ pad = length-replicate pad 48 in
      ground (
        arith,
        l1,
        l2,
        length-append a (sign ++ (prefix ++ (z ++ (digits ++ w)))),
        length-append sign (prefix ++ (z ++ (digits ++ w))),
        length-append prefix (z ++ (digits ++ w)),
        length-append z (digits ++ w),
        length-append digits w,
        e,
      )

  -- format_integer of a 64-bit value, whatever the conversion, does not leave its buffer of 64
  -- characters, and puts out as many characters as the width asks for, or more.
  pub format_integer-fits :
      (value : ℕ) (is_signed negative : Bool)
      → value < 2 ^ 64
      → (out : List ℕ) × (format_integer value is_signed negative b c ≡ some out)
        × (c.width ≤ length out)
  unfolding format_integer
  format_integer-fits value is_signed negative h =
      let r = buffer-fits value h in
      let sign = sign_of is_signed negative c in
      let x = if c.pound && ltb 0 value then b.x else 0 in
      let signs : List ℕ = if sign == 0 then [] else sign ∷ [] in
      let prefix : List ℕ = if x == 0 then [] else 48 ∷ (x ∷ []) in
      let pad_cnt =
        c.width - length r.0 - (if x == 0 then 0 else 2) - (if sign == 0 then 0 else 1) in
      (
        (if not c.minus && not c.zero_pad then replicate pad_cnt 32 else [])
            ++ (signs
                ++ (prefix
                    ++ ((if c.zero_pad then replicate pad_cnt 48 else [])
                        ++ (backwards r.0 ++ (if c.minus then replicate pad_cnt 32 else []))))),
        rw r.1 refl,
        padded pad_cnt c.width signs prefix (backwards r.0)
            (ground (arith, length-backwards r.0, signs_length sign, prefix_length x)),
      )
    where
      signs_length : (s : ℕ) → length (if s == 0 then [] else s ∷ []) ≡ (if s == 0 then 0 else 1)
      signs_length s = ground arith

      prefix_length :
          (s : ℕ) → length (if s == 0 then [] else 48 ∷ (s ∷ [])) ≡ (if s == 0 then 0 else 2)
      prefix_length s = ground arith

-- Reading a number from left to right, past spaces.
abbrev pub read_number : (base acc : ℕ) → List ℕ → ℕ
read_number base acc [] = acc
read_number base acc (c ∷ text) =
    read_number base (if c == 32 then acc else acc * base + digit_value c) text

read_spaces :
    (base acc n : ℕ) (text : List ℕ)
    → read_number base acc (replicate n 32 ++ text) ≡ read_number base acc text
read_spaces base acc zero text = refl
read_spaces base acc (suc n) text = read_spaces base acc n text

read_zeros :
    (base n : ℕ) (text : List ℕ)
    → read_number base 0 (replicate n 48 ++ text) ≡ read_number base 0 text
read_zeros base zero text = refl
read_zeros base (suc n) text =
    ap (λ a. read_number base a (replicate n 48 ++ text)) (ground arith) ∙ read_zeros base n text

read_backwards :
    (base : ℕ) (buf text : List ℕ)
    → NoSpaces buf
    → read_number base 0 (backwards buf ++ text) ≡ read_number base (low_value base buf) text
unfolding backwards
read_backwards base [] text n = refl
read_backwards base (c ∷ buf) text n =
    ap (read_number base 0) (append_assoc (backwards buf) (c ∷ []) text)
    ∙ read_backwards base buf (c ∷ text) n.1
    ∙ ap (λ a. read_number base a text) (rw n.0 step)
  where
    step : low_value base buf * base + digit_value c ≡ digit_value c + base * low_value base buf
    step = grind arith

low_value-zeros :
    (base k : ℕ) (buf : List ℕ) → low_value base (buf ++ replicate k 48) ≡ low_value base buf
low_value-zeros base zero [] = refl
low_value-zeros base (suc k) [] = ap (λ a. 0 + base * a) (low_value-zeros base k []) ∙ grind arith
low_value-zeros base k (c ∷ buf) = ap (λ a. digit_value c + base * a) (low_value-zeros base k buf)

NoSpaces-zeros : (k : ℕ) (buf : List ℕ) → NoSpaces buf → NoSpaces (buf ++ replicate k 48)
NoSpaces-zeros zero [] n = tt
NoSpaces-zeros (suc k) [] n = (refl, NoSpaces-zeros k [] tt)
NoSpaces-zeros k (c ∷ buf) n = (n.0, NoSpaces-zeros k buf n.1)

-- The spaces of a test are read past, and so are its zeros.
read_pad :
    (base n : ℕ) (t : Bool) (text : List ℕ)
    → read_number base 0 ((if t then replicate n 32 else []) ++ text) ≡ read_number base 0 text
read_pad base n true text = read_spaces base 0 n text
read_pad base n false text = refl

read_zero_pad :
    (base n : ℕ) (t : Bool) (text : List ℕ)
    → read_number base 0 ((if t then replicate n 48 else []) ++ text) ≡ read_number base 0 text
read_zero_pad base n true text = read_zeros base n text
read_zero_pad base n false text = refl

read_end :
    (base acc n : ℕ) (t : Bool) → read_number base acc (if t then replicate n 32 else []) ≡ acc
read_end base acc n true =
    ap (read_number base acc) (sym (append-nil (replicate n 32))) ∙ read_spaces base acc n []
read_end base acc n false = refl

module _ (b : IntegerBase) (v : IsBase b) (c : Conversion) where
  plain_buffer : ℕ → List ℕ
  plain_buffer value =
      let ds = digits_of 22 b value in
      ds ++ replicate (min (rendered_precision c.precision) 63 - length ds) 48

  length-digits_of : (fuel value : ℕ) → length (digits_of fuel b value) ≤ fuel
  length-digits_of zero value = omega arith
  length-digits_of (suc fuel) value = ground (arith, length-digits_of fuel (value / b.base))

  buffer-plain :
      (value : ℕ)
      → value < 2 ^ 64
      → c.group ≡ false
      → c.pound ≡ false
      → buffer_of value b c ≡ some (plain_buffer value)
  unfolding buffer_of plain_buffer
  buffer-plain value h g p =
      rw (g, digits_loop_lem b v 22 value 0 [] (omega arith) (omega arith))
        (rw
          (
            zeros_loop_lem 63 (rendered_precision c.precision) (digits_of 22 b value)
                (omega (arith, length-digits_of 22 value)) (omega arith),
            p,
          )
          refl)

  plain-NoSpaces : (value : ℕ) → NoSpaces (plain_buffer value)
  unfolding plain_buffer
  plain-NoSpaces value =
      let ds = digits_of 22 b value in
      NoSpaces-zeros (min (rendered_precision c.precision) 63 - length ds) ds
        (digits_of-NoSpaces b v 22 value)

  plain_value : (value : ℕ) → value < 2 ^ 64 → low_value b.base (plain_buffer value) ≡ value
  unfolding plain_buffer
  plain_value value h =
      let ds = digits_of 22 b value in
      low_value-zeros b.base (min (rendered_precision c.precision) 63 - length ds) ds
      ∙ low_value-digits_of b v 22 value (omega arith)

  -- What format_integer puts out for a 64-bit value, without grouping, `#` and a sign character, but
  -- with any width, padding and precision, reads back as the value in the base.
  pub read_number-format_integer :
      (value : ℕ) (is_signed negative : Bool)
      → value < 2 ^ 64
      → c.group ≡ false
      → c.pound ≡ false
      → sign_of is_signed negative c ≡ 0
      → (out : List ℕ) × (format_integer value is_signed negative b c ≡ some out)
        × (read_number b.base 0 out ≡ value)
  unfolding format_integer
  read_number-format_integer value is_signed negative h g p s =
      let buf = plain_buffer value in
      let pad = c.width - length buf - 0 - 0 in
      let tail = if c.minus then replicate pad 32 else [] in
      (
        (if not c.minus && not c.zero_pad then replicate pad 32 else [])
            ++ ([]
                ++ ([]
                    ++ ((if c.zero_pad then replicate pad 48 else []) ++ (backwards buf ++ tail)))),
        rw (buffer-plain value h g p, s, p) refl,
        read_pad b.base pad (not c.minus && not c.zero_pad)
              ((if c.zero_pad then replicate pad 48 else []) ++ (backwards buf ++ tail))
            ∙ read_zero_pad b.base pad c.zero_pad (backwards buf ++ tail)
            ∙ read_backwards b.base buf tail (plain-NoSpaces value)
            ∙ read_end b.base (low_value b.base buf) pad c.minus
            ∙ plain_value value h,
      )

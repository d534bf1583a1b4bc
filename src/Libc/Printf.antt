-- ===== src/Libc/Printf.antt =====
-- lib/stdio.c: the formatting of printf. What the code gives to `output` is the list of the characters;
-- a format is the list of its characters in front of the zero byte. `none` is a write past the end of
-- the buffer of digits, or a step over the format's end.
pub mod Digits
pub mod Numbers
pub mod Format
pub mod Rounds
mod Tests
use ee461s_projects.Common.{
  ℕ, zero, suc, ◌+◌, ◌-◌, ◌*◌, ◌/◌, ◌%◌, ◌^◌, Bool, true, false, not, ◌&&◌, ◌||◌, Option, none,
  some, List, [], ◌∷◌, ◌++◌, length, replicate, get_or, ltb, leb, ◌==◌, if◌then◌else◌, ◌>>=◌,
}

-- The flags, the width and the precision of struct printf_conversion; no precision is -1.
pub record Conversion : Type 0 where
  pub minus : Bool
  pub plus : Bool
  pub space : Bool
  pub pound : Bool
  pub zero_pad : Bool
  pub group : Bool
  pub width : ℕ
  pub precision : Option ℕ
  -- The number of bits of the argument's type.
  pub bits : ℕ

-- struct integer_base; `x` is 0 but for base 16.
pub record IntegerBase : Type 0 where
  pub base : ℕ
  pub digits : List ℕ
  pub x : ℕ
  pub group : ℕ

abbrev decimal_digits : List ℕ
decimal_digits = 48 ∷ 49 ∷ 50 ∷ 51 ∷ 52 ∷ 53 ∷ 54 ∷ 55 ∷ 56 ∷ 57 ∷ []

abbrev pub base_d : IntegerBase
base_d = record { base = 10; digits = decimal_digits; x = 0; group = 3 }

abbrev pub base_o : IntegerBase
base_o = record { base = 8; digits = 48 ∷ 49 ∷ 50 ∷ 51 ∷ 52 ∷ 53 ∷ 54 ∷ 55 ∷ []; x = 0; group = 3 }

abbrev pub base_x : IntegerBase
base_x = record {
  base = 16;
  digits = decimal_digits ++ (97 ∷ 98 ∷ 99 ∷ 100 ∷ 101 ∷ 102 ∷ []);
  x = 120;
  group = 4;
}

abbrev pub base_upper_x : IntegerBase
base_upper_x = record {
  base = 16;
  digits = decimal_digits ++ (65 ∷ 66 ∷ 67 ∷ 68 ∷ 69 ∷ 70 ∷ []);
  x = 88;
  group = 4;
}

-- *cp++ = c, in a buffer of 64 characters
unfoldable pub push : List ℕ → ℕ → Option (List ℕ)
push buf c = if ltb (length buf) 64 then some (buf ++ (c ∷ [])) else none

-- The loop over the digits, the lowest first. A value below 8 ^ fuel has at most `fuel` digits.
unfoldable pub digits_loop :
    (fuel : ℕ) → IntegerBase → (group : Bool) → (value digit_cnt : ℕ) → List ℕ → Option (List ℕ)
digits_loop zero b group value digit_cnt buf = if ltb 0 value then none else some buf
digits_loop (suc fuel) b group value digit_cnt buf =
    let more =
      (if group && (ltb 0 digit_cnt && digit_cnt % b.group == 0) then push buf 44 else some buf)
      >>= λ buf1. push buf1 (get_or b.digits (value % b.base) 0) >>= λ buf2.
          digits_loop fuel b group (value / b.base) (digit_cnt + 1) buf2 in
    if ltb 0 value then more else some buf

-- while (cp - buf < precision && cp < buf + sizeof buf - 1) *cp++ = '0'; 63 rounds at most.
unfoldable pub zeros_loop : (fuel : ℕ) → (precision : ℕ) → List ℕ → Option (List ℕ)
zeros_loop zero precision buf = some buf
zeros_loop (suc fuel) precision buf =
    let more = push buf 48 >>= λ buf1. zeros_loop fuel precision buf1 in
    if ltb (length buf) precision && ltb (length buf) 63 then more else some buf

-- while (cp > buf) output (*--cp);
unfoldable pub backwards : List ℕ → List ℕ
backwards [] = []
backwards (c ∷ buf) = backwards buf ++ (c ∷ [])

-- The sign character, 0 if there is none.
unfoldable pub sign_of : (is_signed negative : Bool) → Conversion → ℕ
sign_of is_signed negative c =
    if not is_signed
    then 0
    else if c.plus
    then (if negative then 45 else 43)
    else if c.space
    then (if negative then 45 else 32)
    else if negative
    then 45
    else 0

-- cp == buf || cp[-1] != '0'
unfoldable pub no_leading_zero : List ℕ → Bool
no_leading_zero buf = length buf == 0 || not (get_or buf (length buf - 1) 0 == 48)

-- precision = c->precision < 0 ? 1 : c->precision
abbrev pub rendered_precision : Option ℕ → ℕ
rendered_precision none = 1
rendered_precision (some p) = p

-- The contents of the buffer: digits, zeros up to the precision, and the zero of `#` with base 8.
unfoldable pub buffer_of : ℕ → IntegerBase → Conversion → Option (List ℕ)
buffer_of value b c = do
  digits ← digits_loop 22 b c.group value 0 []
  buf ← zeros_loop 63 (rendered_precision c.precision) digits
  if c.pound && (b.base == 8 && no_leading_zero buf) then push buf 48 else some buf

unfoldable pub format_integer :
    ℕ → (is_signed negative : Bool) → IntegerBase → Conversion → Option (List ℕ)
format_integer value is_signed negative b c = buffer_of value b c >>= λ buf.
    let sign = sign_of is_signed negative c in
    let x = if c.pound && ltb 0 value then b.x else 0 in
    let pad_cnt = c.width - length buf - (if x == 0 then 0 else 2) - (if sign == 0 then 0 else 1) in
    some (
      (if not c.minus && not c.zero_pad then replicate pad_cnt 32 else [])
      ++ ((if sign == 0 then [] else sign ∷ [])
          ++ ((if x == 0 then [] else 48 ∷ (x ∷ []))
              ++ ((if c.zero_pad then replicate pad_cnt 48 else [])
                  ++ (backwards buf ++ (if c.minus then replicate pad_cnt 32 else []))))))

unfoldable pub format_string : List ℕ → Conversion → List ℕ
format_string string c =
    (if ltb (length string) c.width && not c.minus
      then replicate (c.width - length string) 32
      else [])
    ++ (string
        ++ (if ltb (length string) c.width && c.minus
            then replicate (c.width - length string) 32
            else []))

-- ===== src/Libc/Printf/Format.antt =====
-- lib/stdio.c: parse_conversion, __vprintf and vsnprintf. The arguments are a list, each the word or the
-- string that va_arg takes; taking one of the other kind, or one that is not there, is `none`.
use ee461s_projects.Common.{
  ℕ, zero, suc, ◌+◌, ◌-◌, ◌*◌, ◌%◌, ◌^◌, Bool, true, false, not, ◌&&◌, ◌||◌, Option, none, some,
  List, [], ◌∷◌, ◌++◌, length, take, ltb, leb, ◌==◌, if◌then◌else◌, ◌>>=◌,
}
use ee461s_projects.Libc.Strings.{strnlen, put}
use ee461s_projects.Libc.Printf.{
  Conversion, IntegerBase, base_d, base_o, base_x, base_upper_x, format_integer, format_string,
}

pub data Arg : Type 0 where
  word : ℕ → Arg
  -- The bytes of a string; `none` is NULL.
  text : Option (List ℕ) → Arg

abbrev pub no_flags : Conversion
no_flags = record {
  minus = false;
  plus = false;
  space = false;
  pound = false;
  zero_pad = false;
  group = false;
  width = 0;
  precision = none;
  bits = 32;
}

unfoldable pub is_flag : ℕ → Bool
is_flag ch = ch == 45 || (ch == 43 || (ch == 32 || (ch == 35 || (ch == 48 || ch == 39))))

unfoldable pub with_flag : ℕ → Conversion → Conversion
with_flag ch c =
    if ch == 45
    then record c { minus = true }
    else if ch == 43
    then record c { plus = true }
    else if ch == 32
    then record c { space = true }
    else if ch == 35
    then record c { pound = true }
    else if ch == 48
    then record c { zero_pad = true }
    else record c { group = true }

unfoldable pub parse_flags : Conversion → List ℕ → Conversion × List ℕ
unfolding is_flag with_flag
parse_flags c [] = (c, [])
parse_flags c (ch ∷ format) =
    let more = parse_flags (with_flag ch c) format in if is_flag ch then more else (c, ch ∷ format)

-- A minus sets aside the zeros, and a plus the space.
unfoldable pub settle_flags : Conversion → Conversion
settle_flags c = record c { zero_pad = c.zero_pad && not c.minus; space = c.space && not c.plus }

-- for (; isdigit (*format); format++) n = n * 10 + *format - '0';
unfoldable pub parse_number : (n : ℕ) → List ℕ → ℕ × List ℕ
parse_number n [] = (n, [])
parse_number n (ch ∷ format) =
    let more = parse_number (n * 10 + (ch - 48)) format in
    if leb 48 ch && leb ch 57 then more else (n, ch ∷ format)

-- va_arg (args, int), as its sign and its absolute value
unfoldable pub take_int : List Arg → Option ((Bool × ℕ) × List Arg)
take_int [] = none
take_int (text s ∷ args) = none
take_int (word w ∷ args) =
    let v = w % 2 ^ 32 in some (if ltb v (2 ^ 31) then (false, v) else (true, 2 ^ 32 - v), args)

unfoldable pub starts : ℕ → List ℕ → Bool
starts ch [] = false
starts ch (d ∷ format) = d == ch

abbrev pub rest_of : List ℕ → List ℕ
rest_of [] = []
rest_of (ch ∷ format) = format

-- A state of the parser: what is found, the rest of the format, and the arguments that are left.
pub record Parsed : Type 0 where
  pub conversion : Conversion
  pub format : List ℕ
  pub args : List Arg

unfoldable pub parse_width : Parsed → Option Parsed
unfolding starts take_int parse_number
parse_width s =
    if starts 42 s.format
    then (do
      n ← take_int s.args
      some (record {
        conversion = record s.conversion { width = (n.0).1; minus = s.conversion.minus || (n.0).0 };
        format = rest_of s.format;
        args = n.1;
      }))
    else (let n = parse_number 0 s.format in
        some (record s { conversion = record s.conversion { width = n.0 }; format = n.1 }))

unfoldable pub parse_precision : Parsed → Option Parsed
unfolding starts take_int parse_number
parse_precision s =
    if not (starts 46 s.format)
    then some s
    else if starts 42 (rest_of s.format)
    then (do
      n ← take_int s.args
      some (record {
        conversion = record s.conversion {
          precision = if (n.0).0 then none else some (n.0).1;
          zero_pad = s.conversion.zero_pad && (n.0).0;
        };
        format = rest_of (rest_of s.format);
        args = n.1;
      }))
    else (let n = parse_number 0 (rest_of s.format) in
        some (record s {
          conversion = record s.conversion { precision = some n.0; zero_pad = false };
          format = n.1;
        }))

-- The letters of the argument's type, as its number of bits.
unfoldable pub parse_type : Parsed → Parsed
unfolding starts
parse_type s =
    let after = rest_of s.format in
    let typed = λ (bits : ℕ) (format : List ℕ). record s {
      conversion = record s.conversion { bits = bits };
      format = format;
    } in
    if starts 104 s.format
    then (if starts 104 after then typed 8 (rest_of after) else typed 16 after)
    else if starts 106 s.format
    then typed 64 after
    else if starts 108 s.format
    then (if starts 108 after then typed 64 (rest_of after) else typed 32 after)
    else if starts 116 s.format || starts 122 s.format
    then typed 32 after
    else s

unfoldable pub parse_conversion : List ℕ → List Arg → Option Parsed
unfolding parse_flags settle_flags parse_width parse_precision parse_type
parse_conversion format args = do
  let flags = parse_flags no_flags format
  s ← parse_width (record { conversion = settle_flags flags.0; format = flags.1; args = args })
  t ← parse_precision s
  some (parse_type t)

-- A signed conversion of the argument's low bits.
unfoldable pub convert_signed : Conversion → ℕ → Option (List ℕ)
convert_signed c w =
    let v = w % 2 ^ c.bits in
    let negative = leb (2 ^ (c.bits - 1)) v in
    format_integer (if negative then 2 ^ c.bits - v else v) true negative base_d c

unfoldable pub convert_string : Conversion → Option (List ℕ) → Option (List ℕ)
convert_string c s =
    let bytes : List ℕ = elim s [ none ↦ 40 ∷ 110 ∷ 117 ∷ 108 ∷ 108 ∷ 41 ∷ 0 ∷ [] | some b ↦ b ] in
    let limit : ℕ = elim c.precision [ none ↦ 2 ^ 32 - 1 | some p ↦ p ] in
    strnlen bytes limit >>= λ n. some (format_string (take n bytes) c)

-- The conversion of a word by its letter.
unfoldable pub convert_word : ℕ → Conversion → ℕ → Option (List ℕ)
unfolding convert_signed
convert_word letter c w =
    let unsigned = λ (b : IntegerBase). format_integer (w % 2 ^ c.bits) false false b c in
    if letter == 100 || letter == 105
    then convert_signed c w
    else if letter == 111
    then unsigned base_o
    else if letter == 117
    then unsigned base_d
    else if letter == 120
    then unsigned base_x
    else if letter == 88
    then unsigned base_upper_x
    else if letter == 99
    then some (format_string (w % 256 ∷ []) c)
    else format_integer (w % 2 ^ 32) false false base_x
        (record no_flags { pound = true; width = c.width; precision = c.precision })

-- d, i, o, u, x, X, c and p take a word.
unfoldable pub takes_word : ℕ → Bool
takes_word letter =
    letter == 100
    || (letter == 105
        || (letter == 111
            || (letter == 117
                || (letter == 120 || (letter == 88 || (letter == 99 || letter == 112))))))

-- "<<no %", the letter, and " in kernel>>" or " conversion>>"
unfoldable pub refusal : ℕ → List ℕ
refusal letter =
    60 ∷ 60 ∷ 110 ∷ 111 ∷ 32 ∷ 37 ∷ letter ∷ 32 ∷ []
    ++ (if leb 101 letter && leb letter 103 || (letter == 69 || (letter == 71 || letter == 110))
        then 105 ∷ 110 ∷ 32 ∷ 107 ∷ 101 ∷ 114 ∷ 110 ∷ 101 ∷ 108 ∷ 62 ∷ 62 ∷ []
        else 99 ∷ 111 ∷ 110 ∷ 118 ∷ 101 ∷ 114 ∷ 115 ∷ 105 ∷ 111 ∷ 110 ∷ 62 ∷ 62 ∷ [])

-- What one conversion puts out, and the arguments that are left.
unfoldable pub convert : ℕ → Conversion → List Arg → Option (List ℕ × List Arg)
unfolding takes_word convert_word convert_string refusal
convert letter c [] = if takes_word letter || letter == 115 then none else some (refusal letter, [])
convert letter c (word w ∷ args) =
    if takes_word letter
    then (convert_word letter c w >>= λ out. some (out, args))
    else if letter == 115
    then none
    else some (refusal letter, word w ∷ args)
convert letter c (text s ∷ args) =
    if letter == 115
    then (convert_string c s >>= λ out. some (out, args))
    else if takes_word letter
    then none
    else some (refusal letter, text s ∷ args)

-- What the loop of __vprintf comes to: its output, a fault (an argument that is missing or of the wrong
-- kind, or the end of the format passed), or rounds that are used up before it ends.
pub data Printed : Type 0 where
  printed : List ℕ → Printed
  fault no_rounds : Printed

-- The output of a round in front of that of the later ones.
abbrev pub put_first : List ℕ → Printed → Printed
put_first out (printed rest) = printed (out ++ rest)
put_first out fault = fault
put_first out no_rounds = no_rounds

-- Behind a `%` that ends the format the loop steps over the zero byte.
unfoldable pub vprintf_loop : (fuel : ℕ) → List ℕ → List Arg → Printed
unfolding parse_conversion convert
vprintf_loop zero format args = no_rounds
vprintf_loop (suc fuel) [] args = printed []
vprintf_loop (suc fuel) (ch ∷ format) args =
    let literal = put_first (ch ∷ []) (vprintf_loop fuel format args) in
    let percent = put_first (37 ∷ []) (vprintf_loop fuel (rest_of format) args) in
    let converted : Printed = elim (parse_conversion format args) [
      | none ↦ fault
      | some s ↦ elim s.format [
        | [] ↦ fault
        | letter ∷ rest ↦ elim (convert letter s.conversion s.args) [
          | none ↦ fault
          | some r ↦ put_first (r.0) (vprintf_loop fuel rest r.1)
        ]
      ]
    ] in
    if not (ch == 37) then literal else if starts 37 format then percent else converted

-- no_rounds does not come up: the length and one are rounds enough.
unfoldable pub vprintf : List ℕ → List Arg → Option (List ℕ)
vprintf format args = elim (vprintf_loop (suc (length format)) format args) [
  | printed out ↦ some out
  | _ ↦ none
]

-- The length that it returns, and the buffer, which must have room for `buf_size` characters.
unfoldable pub vsnprintf : List ℕ → (buf_size : ℕ) → List ℕ → List Arg → Option (ℕ × List ℕ)
vsnprintf buffer buf_size format args = do
  out ← vprintf format args
  let kept = take (buf_size - 1) out
  if ltb 0 buf_size
      then (do b1 ← put buffer 0 kept; b2 ← put b1 (length kept) (0 ∷ []); some (length out, b2))
      else some (length out, buffer)

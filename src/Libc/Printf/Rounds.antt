-- ===== src/Libc/Printf/Rounds.antt =====
-- lib/stdio.c: the loop of __vprintf has rounds enough.
use ee461s_projects.Common.{
  ℕ, ◌+◌, ◌-◌, ◌*◌, ◌≤◌, ◌≡◌, ◌≢◌, not, ◌&&◌, Option, none, some, List, [], ◌∷◌, length, arith, leb,
  ap, inl, inr, Bool-cases, Option-cases,
}
use ee461s_projects.Libc.Printf.{Conversion}
use ee461s_projects.Libc.Printf.Format.{
  Arg, Parsed, Printed, fault, no_rounds, put_first, parse_flags, parse_number, parse_width,
  parse_precision, parse_type, parse_conversion, convert, starts, take_int, rest_of, no_flags,
  settle_flags, is_flag, with_flag,
}

rest_of-le : (f : List ℕ) → length (rest_of f) ≤ length f
rest_of-le [] = omega arith
rest_of-le (ch ∷ f) = omega arith

parse_flags-le : (c : Conversion) (f : List ℕ) → length (parse_flags c f).1 ≤ length f
unfolding parse_flags
parse_flags-le c [] = omega arith
parse_flags-le c (ch ∷ f) = elim (Bool-cases (is_flag ch)) [
  | inl e ↦ rw e (omega (arith, parse_flags-le (with_flag ch c) f))
  | inr e ↦ rw e (omega arith)
]

parse_number-le : (n : ℕ) (f : List ℕ) → length (parse_number n f).1 ≤ length f
unfolding parse_number
parse_number-le n [] = omega arith
parse_number-le n (ch ∷ f) = elim (Bool-cases (leb 48 ch && leb ch 57)) [
  | inl e ↦ rw e (omega (arith, parse_number-le (n * 10 + (ch - 48)) f))
  | inr e ↦ rw e (omega arith)
]

abbrev formats : Option Parsed → ℕ
formats none = 0
formats (some t) = length t.format

parse_width-le : (s t : Parsed) → parse_width s ≡ some t → length t.format ≤ length s.format
unfolding parse_width
parse_width-le s t e = elim (Bool-cases (starts 42 s.format)) [
  | inl q ↦ elim (Option-cases (take_int s.args)) [
    | inl z ↦ cc (rw (q, z) at e)
    | inr (n, z) ↦
        ground (arith, ap (λ (o : Option Parsed). formats o) (rw (q, z) at e), rest_of-le s.format)
  ]
  | inr q ↦
      ground (arith, ap (λ (o : Option Parsed). formats o) (rw q at e), parse_number-le 0 s.format)
]

parse_precision-le : (s t : Parsed) → parse_precision s ≡ some t → length t.format ≤ length s.format
unfolding parse_precision
parse_precision-le s t e = elim (Bool-cases (not (starts 46 s.format))) [
  | inl q ↦ ground (arith, ap formats (rw q at e))
  | inr q ↦ elim (Bool-cases (starts 42 (rest_of s.format))) [
    | inl p ↦ elim (Option-cases (take_int s.args)) [
      | inl z ↦ cc (rw (q, p, z) at e)
      | inr (n, z) ↦ ground (
        arith,
        ap formats (rw (q, p, z) at e),
        rest_of-le s.format,
        rest_of-le (rest_of s.format),
      )
    ]
    | inr p ↦ ground (
      arith,
      ap formats (rw (q, p) at e),
      rest_of-le s.format,
      parse_number-le 0 (rest_of s.format),
    )
  ]
]

parse_type-le : (s : Parsed) → length (parse_type s).format ≤ length s.format
unfolding parse_type
parse_type-le s = ground (arith, rest_of-le s.format, rest_of-le (rest_of s.format))

-- parse_conversion never goes back in the format.
pub parse_conversion-le :
    (f : List ℕ) (args : List Arg) (t : Parsed)
    → parse_conversion f args ≡ some t
    → length t.format ≤ length f
unfolding parse_conversion
parse_conversion-le f args t e =
    let flags = parse_flags no_flags f in
    let s : Parsed = record { conversion = settle_flags flags.0; format = flags.1; args = args } in
    elim (Option-cases (parse_width s)) [
      | inl z ↦ cc (rw z at e)
      | inr (u, z) ↦ elim (Option-cases (parse_precision u)) [
        | inl y ↦ cc (rw (z, y) at e)
        | inr (w, y) ↦ omega (
          arith,
          ap formats (rw (z, y) at e),
          parse_flags-le no_flags f,
          parse_width-le s u z,
          parse_precision-le u w y,
          parse_type-le w,
        )
      ]
    ]

-- What a conversion puts out, and the loop over the rest of the format.
abbrev convert_then : (List ℕ → List Arg → Printed) → List ℕ → Conversion → List Arg → Printed
convert_then loop format c args = elim format [
  | [] ↦ fault
  | letter ∷ rest ↦ elim (convert letter c args) [
    | none ↦ fault
    | some r ↦ put_first (r.0) (loop rest r.1)
  ]
]

-- A loop ends by itself, and another one ends as it does.
abbrev Ends : Printed → Printed → Type 0
Ends a b = (a ≢ no_rounds) × (b ≡ a)

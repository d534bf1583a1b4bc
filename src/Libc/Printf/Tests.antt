-- ===== src/Libc/Printf/Tests.antt =====
-- Runs of printf's formatting.
use ee461s_projects.Common.{
  ℕ, ◌-◌, ◌≤◌, ◌≡◌, ◌^◌, refl, true, false, some, none, List, [], ◌∷◌, length, arith,
}
use ee461s_projects.Libc.Printf.{
  Conversion, base_d, base_x, format_integer, buffer_of, digits_loop, zeros_loop, backwards, push,
  sign_of,
}
use ee461s_projects.Libc.Printf.Digits.{base_x-IsBase}
use ee461s_projects.Libc.Printf.Numbers.{
  format_integer-fits, read_number-format_integer, read_number,
}
use ee461s_projects.Libc.Printf.Format.{word, no_flags, vprintf, vprintf_loop}

-- "%5d" of 42
abbrev wide : Conversion
wide = record no_flags { width = 5 }

wide_run : format_integer 42 true false base_d wide ≡ some (32 ∷ 32 ∷ 32 ∷ 52 ∷ 50 ∷ [])
unfolding format_integer buffer_of digits_loop zeros_loop backwards push sign_of
wide_run = refl

-- "%d" of -7 in 32 bits, between brackets
signed_run :
    vprintf (91 ∷ 37 ∷ 100 ∷ 93 ∷ []) (word (2 ^ 32 - 7) ∷ []) ≡ some (91 ∷ 45 ∷ 55 ∷ 93 ∷ [])
unfolding vprintf vprintf_loop format_integer buffer_of digits_loop zeros_loop backwards push
    sign_of
signed_run = refl

-- "%0*d" of 7 with the width -3: the negative width sets the minus after the zeros were kept, and the
-- number is padded on both sides.
padded_twice :
    vprintf (37 ∷ 48 ∷ 42 ∷ 100 ∷ []) (word (2 ^ 32 - 3) ∷ (word 7 ∷ []))
    ≡ some (48 ∷ 48 ∷ 55 ∷ 32 ∷ 32 ∷ [])
unfolding vprintf vprintf_loop format_integer buffer_of digits_loop zeros_loop backwards push
    sign_of
padded_twice = refl

-- A format that ends with a `%`.
past_the_end : vprintf (97 ∷ 37 ∷ []) [] ≡ none
unfolding vprintf vprintf_loop
past_the_end = refl

sign_run : sign_of false false wide ≡ 0
unfolding sign_of
sign_run = refl

format_integer-fits_example :
    (out : List ℕ) × (format_integer 48879 false false base_x wide ≡ some out) × (5 ≤ length out)
format_integer-fits_example =
    format_integer-fits base_x base_x-IsBase wide 48879 false false (omega arith)

read_number-format_integer_example :
    (out : List ℕ) × (format_integer 48879 false false base_x wide ≡ some out)
    × (read_number 16 0 out ≡ 48879)
read_number-format_integer_example =
    read_number-format_integer base_x base_x-IsBase wide 48879 false false (omega arith) refl refl
      sign_run

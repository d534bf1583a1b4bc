-- ===== src/Userprog/Stack/Words.antt =====
-- parse_command_string finds the words of a command line.
use ee461s_projects.Common.{
  ℕ, zero, suc, ◌<◌, ◌≤◌, ◌≡◌, ◌≢◌, refl, ap, ◌∙◌, none, some, List, [], ◌∷◌, ◌++◌, length, arith,
  length-append, append-nil,
}
use ee461s_projects.Userprog.Stack.{
  space, skip_delimiters, take_token, token_of, strtok_r, parse_loop, parse_command_string,
}

-- A word has a character and no space.
abbrev pub NoSpace : List ℕ → Type 0
NoSpace [] = Unit
NoSpace (c ∷ s) = (c ≢ space) × NoSpace s

abbrev pub IsWord : List ℕ → Type 0
IsWord w = (0 < length w) × NoSpace w

abbrev pub spaces : ℕ → List ℕ
spaces zero = []
spaces (suc n) = space ∷ spaces n

-- A word and the number of spaces in front of it, less one for all but the first.
pub record Item : Type 0 where
  pub gap : ℕ
  pub word : List ℕ

-- The command line with these words: a space at least in front of each but the first, any number of
-- spaces in front of the first and at the end.
abbrev pub line : List Item → ℕ → List ℕ
line [] last = spaces last
line (i ∷ items) last = space ∷ (spaces i.gap ++ (i.word ++ line items last))

abbrev pub command_line : List Item → ℕ → List ℕ
command_line [] last = spaces last
command_line (i ∷ items) last = spaces i.gap ++ (i.word ++ line items last)

abbrev pub words : List Item → List (List ℕ)
words [] = []
words (i ∷ items) = i.word ∷ words items

abbrev pub AllWords : List Item → Type 0
AllWords [] = Unit
AllWords (i ∷ items) = IsWord i.word × AllWords items

skip_spaces : (n : ℕ) (s : List ℕ) → skip_delimiters (spaces n ++ s) ≡ skip_delimiters s
unfolding skip_delimiters
skip_spaces zero s = refl
skip_spaces (suc n) s = skip_spaces n s

skip-word : (w s : List ℕ) → IsWord w → skip_delimiters (w ++ s) ≡ w ++ s
unfolding skip_delimiters
skip-word [] s (p, q) = absurd (omega arith)
skip-word (c ∷ w) s (p, (ne, q)) = ground arith

-- Behind a word the line ends or goes on with a space.
take_token-end : (w : List ℕ) → NoSpace w → take_token w ≡ (w, [])
unfolding take_token
take_token-end [] q = refl
take_token-end (c ∷ w) (ne, q) = ground (arith, take_token-end w q)

take_token-space : (w s : List ℕ) → NoSpace w → take_token (w ++ (space ∷ s)) ≡ (w, s)
unfolding take_token
take_token-space [] s q = refl
take_token-space (c ∷ w) s (ne, q) = ground (arith, take_token-space w s q)

strtok_r-word :
    (n : ℕ) (w s : List ℕ)
    → IsWord w
    → strtok_r (spaces n ++ (w ++ s)) ≡ (some (take_token (w ++ s)).0, (take_token (w ++ s)).1)
unfolding strtok_r token_of
strtok_r-word n [] s (p, q) = absurd (omega arith)
strtok_r-word n (c ∷ w) s h = ap token_of (skip_spaces n ((c ∷ w) ++ s) ∙ skip-word (c ∷ w) s h)

skip_all_spaces : (n : ℕ) → skip_delimiters (spaces n) ≡ []
unfolding skip_delimiters
skip_all_spaces zero = refl
skip_all_spaces (suc n) = skip_all_spaces n

strtok_r-spaces : (n : ℕ) → strtok_r (spaces n) ≡ (none, [])
unfolding strtok_r token_of
strtok_r-spaces n = ap token_of (skip_all_spaces n)

-- The spaces at the end of the line behind a word, once strtok_r has put a null byte in place of
-- the first one.
abbrev less : List Item → ℕ → ℕ
less [] zero = zero
less [] (suc n) = n
less (i ∷ items) last = last

take_token-line :
    (w : List ℕ) (items : List Item) (last : ℕ)
    → NoSpace w
    → take_token (w ++ line items last) ≡ (w, command_line items (less items last))
take_token-line w [] zero q = ap take_token (append-nil w) ∙ take_token-end w q
take_token-line w [] (suc n) q = take_token-space w (spaces n) q
take_token-line w (i ∷ items) last q = take_token-space w (command_line (i ∷ items) last) q

parse_step :
    (fuel : ℕ) (s s' token : List ℕ)
    → strtok_r s ≡ (some token, s')
    → parse_loop (suc fuel) s ≡ token ∷ parse_loop fuel s'
unfolding parse_loop
parse_step fuel s s' token e = rw (e, parse_loop) (ap (λ p. token ∷ parse_loop fuel p.1) e)

parse_words :
    (fuel : ℕ) (items : List Item) (last : ℕ)
    → length items < fuel
    → AllWords items
    → parse_loop fuel (command_line items last) ≡ words items
unfolding parse_loop
parse_words zero items last h all = absurd (omega arith)
parse_words (suc fuel) [] last h all = rw (strtok_r-spaces last, parse_loop) refl
parse_words (suc fuel) (i ∷ items) last h ((pos, q), all) =
    parse_step fuel (command_line (i ∷ items) last) (command_line items (less items last)) i.word (
      strtok_r-word i.gap i.word (line items last) (pos, q)
      ∙ ap (λ t. (some t.0, t.1)) (take_token-line i.word items last q))
    ∙ ap (λ l. i.word ∷ l) (parse_words fuel items (less items last) (omega arith) all)

-- A line has a character for each word at least.
line_long :
    (items : List Item) (last : ℕ) → AllWords items → length items ≤ length (line items last)
line_long [] last all = omega arith
line_long (i ∷ items) last (w, all) = ground (
  arith,
  length-append (spaces i.gap) (i.word ++ line items last),
  length-append i.word (line items last),
  line_long items last all,
)

command_line_long :
    (items : List Item) (last : ℕ)
    → AllWords items
    → length items ≤ length (command_line items last)
command_line_long [] last all = omega arith
command_line_long (i ∷ items) last ((pos, q), all) = ground (
  arith,
  length-append (spaces i.gap) (i.word ++ line items last),
  length-append i.word (line items last),
  line_long items last all,
)

-- parse_command_string finds exactly the words of a command line, in order, however many spaces stand
-- before, between and behind them.
pub parse_command_string-words :
    (items : List Item) (last : ℕ)
    → AllWords items
    → parse_command_string (command_line items last) ≡ words items
unfolding parse_command_string
parse_command_string-words items last all =
    parse_words (suc (length (command_line items last))) items last
      (omega (arith, command_line_long items last all)) all

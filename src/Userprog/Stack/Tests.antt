-- ===== src/Userprog/Stack/Tests.antt =====
-- The command line "ls  -l " and its stack.
use ee461s_projects.Common.{ℕ, ◌≡◌, true, some, List, [], ◌∷◌, arith}
use ee461s_projects.Userprog.Stack.{
  Stack, parse_command_string, parse_loop, strtok_r, token_of, skip_delimiters, take_token,
  setup_stack, total_length,
}
use ee461s_projects.Userprog.Stack.Words.{Item, parse_command_string-words}
use ee461s_projects.Userprog.Stack.Layout.{Laid, setup_stack-Laid}

abbrev ls : List ℕ
ls = 108 ∷ 115 ∷ []

abbrev dash_l : List ℕ
dash_l = 45 ∷ 108 ∷ []

abbrev items : List Item
items = record { gap = 0; word = ls } ∷ record { gap = 1; word = dash_l } ∷ []

parse_command_string-words_example :
    parse_command_string (108 ∷ 115 ∷ 32 ∷ 32 ∷ 45 ∷ 108 ∷ 32 ∷ []) ≡ ls ∷ dash_l ∷ []
parse_command_string-words_example = parse_command_string-words items 1 (
  (omega arith, (λ e. omega arith, (λ e. omega arith, tt))),
  ((omega arith, (λ e. omega arith, (λ e. omega arith, tt))), tt),
)

setup_stack-Laid_example :
    (st : Stack) × (setup_stack true true (108 ∷ 115 ∷ 32 ∷ 45 ∷ 108 ∷ []) ≡ some (some st))
    × Laid (ls ∷ dash_l ∷ []) st
unfolding parse_command_string parse_loop strtok_r token_of skip_delimiters take_token total_length
setup_stack-Laid_example =
    setup_stack-Laid (108 ∷ 115 ∷ 32 ∷ 45 ∷ 108 ∷ []) (omega arith) (omega arith)

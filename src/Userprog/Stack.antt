-- ===== src/Userprog/Stack.antt =====
-- parse_command_string and setup_stack of userprog/process.c, and strtok_r of lib/string.c: the words
-- of a command line, and the initial stack of a user process. A string is the list of its characters
-- up to the null byte; strtok_r's null bytes in the buffer cut it into such lists.
pub mod Words
pub mod Pushes
pub mod Layout
mod Tests
use ee461s_projects.Common.{
  ℕ, zero, suc, ◌+◌, ◌-◌, ◌*◌, ◌/◌, ◌%◌, ◌^◌, Bool, true, false, not, ◌&&◌, Option, none, some,
  List, [], ◌∷◌, ◌++◌, ltb, leb, ◌==◌, if◌then◌else◌, ◌>>=◌, get_or, length,
}
pub use ee461s_projects.Threads.Vaddr.{page_size, phys_base}

-- ' '
abbrev pub space : ℕ
space = 32

-- strtok_r for the delimiters " ": skips them, then takes what stands before the next one. The token,
-- or `none` for NULL, and what `*save_ptr` leads to.
unfoldable pub skip_delimiters : List ℕ → List ℕ
skip_delimiters [] = []
skip_delimiters (c ∷ s) = let rest = skip_delimiters s in if c == space then rest else c ∷ s

unfoldable pub take_token : List ℕ → List ℕ × List ℕ
take_token [] = ([], [])
take_token (c ∷ s) = let rest = take_token s in if c == space then ([], s) else (c ∷ rest.0, rest.1)

unfoldable pub token_of : List ℕ → Option (List ℕ) × List ℕ
token_of [] = (none, [])
token_of (c ∷ s) = (some (take_token (c ∷ s)).0, (take_token (c ∷ s)).1)

unfoldable pub strtok_r : List ℕ → Option (List ℕ) × List ℕ
strtok_r s = token_of (skip_delimiters s)

-- The loop of parse_command_string with set_first_only off, on fuel: each round takes a character at
-- least, so one more than the length is enough. The arguments before the NULL that ends argv.
unfoldable pub parse_loop : ℕ → List ℕ → List (List ℕ)
parse_loop zero s = []
parse_loop (suc fuel) s = elim (strtok_r s).0 [
  | none ↦ []
  | some token ↦ token ∷ parse_loop fuel (strtok_r s).1
]

unfoldable pub parse_command_string : List ℕ → List (List ℕ)
parse_command_string command = parse_loop (suc (length command)) command

-- The stack page by addresses of bytes, and the stack pointer.
pub record Stack : Type 0 where
  pub mem : ℕ → ℕ
  pub esp : ℕ

-- MAX_ARGS_COUNT
abbrev pub max_args_count : ℕ
max_args_count = 100

unfoldable pub write_bytes : (ℕ → ℕ) → ℕ → List ℕ → ℕ → ℕ
write_bytes mem a bytes x =
    if leb a x && ltb x (a + length bytes) then get_or bytes (x - a) 0 else mem x

-- `p_byte -= length; memcpy (p_byte, bytes, length)`. Below the page is no memory: `none`.
unfoldable pub push_bytes : List ℕ → Stack → Option Stack
push_bytes bytes st =
    if leb (phys_base - page_size + length bytes) st.esp
    then some (record {
      mem = write_bytes st.mem (st.esp - length bytes) bytes;
      esp = st.esp - length bytes;
    })
    else none

abbrev pub le32 : ℕ → List ℕ
le32 w = w % 256 ∷ w / 256 % 256 ∷ w / 65536 % 256 ∷ w / 16777216 % 256 ∷ []

-- `p_word--; *p_word = w`
unfoldable pub push_word : ℕ → Stack → Option Stack
push_word w st = push_bytes (le32 w) st

-- The loop that copies the arguments, the last one first; and their addresses, esp_arg_ptrs.
unfoldable pub push_strings : List (List ℕ) → Stack → Option (List ℕ × Stack)
push_strings [] st = some ([], st)
push_strings (arg ∷ args) st = do
  later ← push_strings args st
  st' ← push_bytes (arg ++ (0 ∷ [])) later.1
  some (st'.esp ∷ later.0, st')

-- The loop that pushes words, the last one first.
unfoldable pub push_words : List ℕ → Stack → Option Stack
push_words [] st = some st
push_words (w ∷ ws) st = push_words ws st >>= push_word w

unfoldable pub total_length : List (List ℕ) → ℕ
total_length [] = 0
total_length (arg ∷ args) = length arg + 1 + total_length args

-- The padding to whole words.
unfoldable pub pad : ℕ → Stack → Stack
pad total st =
    let remainder = total % 4 in
    if remainder == 0 then st else record st { esp = st.esp - (4 - remainder) }

-- setup_stack behind install_page, on the page of zeros that it mapped. argv and esp_arg_ptrs have
-- MAX_ARGS_COUNT elements, of which the NULL that ends argv takes one: past that is `none`.
unfoldable pub fill_stack : List ℕ → Option Stack
fill_stack file_name =
    let args = parse_command_string file_name in
    if leb (length args + 1) max_args_count
    then (do
      strings ← push_strings args (record { mem = λ a. 0; esp = phys_base })
      end_of_argv ← push_word 0 (pad (total_length args) strings.1)
      argv ← push_words strings.0 end_of_argv
      st2 ← push_word argv.esp argv
      st3 ← push_word (length args) st2
      push_word 0 st3)
    else none

-- `palloc_ok` and `install_ok` are what palloc_get_page and install_page say; the inner `none` is the
-- result false.
unfoldable pub setup_stack : (palloc_ok install_ok : Bool) → List ℕ → Option (Option Stack)
setup_stack palloc_ok install_ok file_name =
    if palloc_ok && install_ok then (do st ← fill_stack file_name; some (some st)) else some none

-- ===== src/Userprog/Stack/Layout.antt =====
-- The stack that setup_stack leaves: argc, argv, its pointers and the strings that they lead to.
use ee461s_projects.Common.{
  ℕ, ◌+◌, ◌-◌, ◌*◌, ◌%◌, ◌<◌, ◌≤◌, ◌≡◌, refl, ap, ◌∙◌, true, some, List, [], ◌∷◌, ◌++◌, leb, length,
  arith,
}
use ee461s_projects.Userprog.Stack.{
  Stack, phys_base, page_size, max_args_count, push_word, push_strings, push_words, total_length,
  pad, fill_stack, setup_stack, parse_command_string,
}
use ee461s_projects.Userprog.Stack.Pushes.{
  Strings, Strings-kept, push_strings_lem, WordsAt, push_frame,
}

-- What a user program finds from its stack pointer on: a return address of 0, argc, and argv, which
-- leads to the pointers behind it, of which the last is NULL and the others lead to the arguments, null
-- bytes included, in their order. The stack pointer is a multiple of 4 inside the page.
pub record Laid (args : List (List ℕ)) (st : Stack) : Type 0 where
  pub pointers : List ℕ
  pub frame : WordsAt st.mem st.esp (0 ∷ length args ∷ (st.esp + 12) ∷ (pointers ++ (0 ∷ [])))
  pub strings : Strings st.mem (st.esp + 12 + 4 * (length args + 1)) phys_base pointers args
  pub aligned : st.esp % 4 ≡ 0
  pub in_page : phys_base - page_size ≤ st.esp

pad_lem :
    (total : ℕ) (st : Stack)
    → st.esp + total ≡ phys_base
    → total + 4 ≤ page_size
    → ((pad total st).mem ≡ st.mem)
      × ((pad total st).esp ≤ st.esp)
      × (st.esp < (pad total st).esp + 4)
      × ((pad total st).esp % 4 ≡ 0)
unfolding pad
pad_lem total st e small = (ground arith, ground arith, ground arith, ground arith)

-- The steps of setup_stack on the page, put together.
fill_stack_parts :
    (file_name : List ℕ) (args : List (List ℕ)) (ps : List ℕ) (st st1 st2 st3 st4 st5 : Stack)
    → parse_command_string file_name ≡ args
    → length args + 1 ≤ max_args_count
    → push_strings args (record { mem = λ a. 0; esp = phys_base }) ≡ some (ps, st)
    → push_word 0 (pad (total_length args) st) ≡ some st1
    → push_words ps st1 ≡ some st2
    → push_word st2.esp st2 ≡ some st3
    → push_word (length args) st3 ≡ some st4
    → push_word 0 st4 ≡ some st5
    → fill_stack file_name ≡ some st5
unfolding fill_stack
fill_stack_parts file_name args ps st st1 st2 st3 st4 st5 ep few es e1 e2 e3 e4 e5 =
    let ok : leb (length args + 1) max_args_count ≡ true = ground arith in
    rw (ep, fill_stack)
      (rw (ok, es, fill_stack)
        (rw (e1, fill_stack) (rw (e2, fill_stack) (rw (e3, fill_stack) (rw (e4, fill_stack) e5)))))

-- setup_stack, when it gets its page and the arguments fit the page and argv, returns true and lays
-- out the words of the command line as the arguments of main.
pub setup_stack-Laid :
    (file_name : List ℕ)
    → let args = parse_command_string file_name in
      length args + 1 ≤ max_args_count
      → total_length args + 4 * length args + 20 ≤ page_size
      → (st : Stack) × (setup_stack true true file_name ≡ some (some st)) × Laid args st
unfolding setup_stack
setup_stack-Laid file_name few small =
    let args : List (List ℕ) = parse_command_string file_name in
    let start : Stack = record { mem = λ a. 0; esp = phys_base } in
    let (ps, st, es, p, strs, same) = push_strings_lem args start (omega arith) in
    let (same_mem, down, close, aligned) = pad_lem (total_length args) st p.moved (omega arith) in
    let padded : Stack = pad (total_length args) st in
    let (st1, st2, st3, st4, st5, e1, e2, e3, e4, e5, q, frame) =
      push_frame padded ps (length args) (omega (arith, p.moved, same)) in
    (
      st5,
      rw
          (
            fill_stack_parts file_name args ps st st1 st2 st3 st4 st5 refl few es e1 e2 e3 e4 e5,
            setup_stack,
          )
          refl,
      record {
        pointers = ps;
        frame = frame;
        strings =
            Strings-kept st.mem st5.mem st.esp (st5.esp + 12 + 4 * (length args + 1)) phys_base ps
              args (omega (arith, q.moved, same))
              (λ x l. q.above x (omega arith) ∙ ap (λ (f : ℕ → ℕ). f x) same_mem) strs;
        aligned = omega (arith, q.moved);
        in_page = omega (arith, q.moved, p.moved, same);
      },
    )

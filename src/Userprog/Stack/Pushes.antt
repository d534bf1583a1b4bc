-- ===== src/Userprog/Stack/Pushes.antt =====
-- What pushing bytes, words and strings does to the stack page.
use ee461s_projects.Common.{
  ℕ, suc, ◌+◌, ◌-◌, ◌*◌, ◌<◌, ◌≤◌, ◌≡◌, refl, sym, subst, ap, ◌∙◌, true, some, List, [], ◌∷◌, ◌++◌,
  leb, length, arith, length-append, get_or,
}
use ee461s_projects.Userprog.Stack.{
  Stack, phys_base, page_size, write_bytes, push_bytes, le32, push_word, push_strings, push_words,
  total_length,
}

-- These bytes stand at an address.
abbrev pub Bytes : (ℕ → ℕ) → ℕ → List ℕ → Type 0
Bytes mem a bytes = (i : ℕ) → i < length bytes → mem (a + i) ≡ get_or bytes i 0

-- Pushing moves the pointer down by `n` and leaves what stands above as it is.
pub record Pushed (st : Stack) (n : ℕ) (st' : Stack) : Type 0 where
  pub moved : st'.esp + n ≡ st.esp
  pub above : (x : ℕ) → st.esp ≤ x → st'.mem x ≡ st.mem x

abbrev pub floor : ℕ
floor = 0xc0000000 - 4096

pub push_bytes_lem :
    (bytes : List ℕ) (st : Stack)
    → floor + length bytes ≤ st.esp
    → (st' : Stack) × (push_bytes bytes st ≡ some st')
      × Pushed st (length bytes) st'
      × Bytes st'.mem st'.esp bytes
unfolding push_bytes write_bytes
push_bytes_lem bytes st h =
    let ok : leb (phys_base - page_size + length bytes) st.esp ≡ true = ground arith in
    (
      record {
        mem = write_bytes st.mem (st.esp - length bytes) bytes;
        esp = st.esp - length bytes;
      },
      rw (ok, push_bytes) refl,
      record { moved = omega arith; above = λ x l. ground arith },
      λ i l. ground (arith, ap (λ k. get_or bytes k 0) (back i)),
    )
  where
    back : (i : ℕ) → st.esp - length bytes + i - (st.esp - length bytes) ≡ i
    back i = omega arith

pub push_word_lem :
    (w : ℕ) (st : Stack)
    → floor + 4 ≤ st.esp
    → (st' : Stack) × (push_word w st ≡ some st') × Pushed st 4 st' × Bytes st'.mem st'.esp (le32 w)
unfolding push_word
push_word_lem w st h = push_bytes_lem (le32 w) st h

-- Strings with their null bytes at these addresses, all at `low` or above and below `high`.
pub data Strings (mem : ℕ → ℕ) (low high : ℕ) : List ℕ → List (List ℕ) → Type 0 where
  no_strings : Strings mem low high [] []
  string :
      (p : ℕ) (ps : List ℕ) (s : List ℕ) (ss : List (List ℕ))
      → low ≤ p
      → p + length s < high
      → Bytes mem p (s ++ (0 ∷ []))
      → Strings mem low high ps ss
      → Strings mem low high (p ∷ ps) (s ∷ ss)

-- They stay where pushing does not reach, and bounds may be widened.
pub Strings-kept :
    (mem mem' : ℕ → ℕ) (low low' high : ℕ) (ps : List ℕ) (ss : List (List ℕ))
    → low' ≤ low
    → ((x : ℕ) → low ≤ x → mem' x ≡ mem x)
    → Strings mem low high ps ss
    → Strings mem' low' high ps ss
Strings-kept mem mem' low low' high _ _ l h no_strings = no_strings
Strings-kept mem mem' low low' high _ _ l h (string p ps s ss a b bytes rest) =
    string p ps s ss (omega arith) b (λ i q. h (p + i) (omega arith) ∙ bytes i q)
      (Strings-kept mem mem' low low' high ps ss l h rest)

pub push_strings_lem :
    (args : List (List ℕ)) (st : Stack)
    → floor + total_length args ≤ st.esp
    → (ps : List ℕ) × (st' : Stack) × (push_strings args st ≡ some (ps, st'))
      × Pushed st (total_length args) st'
      × Strings st'.mem st'.esp st.esp ps args
      × (length ps ≡ length args)
unfolding push_strings total_length
push_strings_lem [] st h =
    ([], st, refl, record { moved = omega arith; above = λ x l. refl }, no_strings, refl)
push_strings_lem (arg ∷ args) st h =
    let (ps, st1, e1, p1, s1, l1) = push_strings_lem args st (omega arith) in
    let long : length (arg ++ (0 ∷ [])) ≡ length arg + 1 = length-append arg (0 ∷ []) in
    let (st2, e2, p2, b2) = push_bytes_lem (arg ++ (0 ∷ [])) st1 (omega (arith, p1.moved, long)) in
    (
      st2.esp ∷ ps,
      st2,
      rw (e1, push_strings) (rw (e2, push_strings) refl),
      record {
        moved = omega (arith, p1.moved, p2.moved, long);
        above = λ x l. p2.above x (omega (arith, p1.moved)) ∙ p1.above x l;
      },
      string st2.esp ps arg args (omega arith) (omega (arith, p1.moved, p2.moved, long)) b2 (
          Strings-kept st1.mem st2.mem st1.esp st2.esp st.esp ps args (omega (arith, p2.moved))
            p2.above s1),
      ap suc l1,
    )

-- Words one after the other from an address on.
abbrev pub WordsAt : (ℕ → ℕ) → ℕ → List ℕ → Type 0
WordsAt mem a [] = Unit
WordsAt mem a (w ∷ ws) = Bytes mem a (le32 w) × WordsAt mem (a + 4) ws

pub WordsAt-kept :
    (mem mem' : ℕ → ℕ) (a low : ℕ) (ws : List ℕ)
    → low ≤ a
    → ((x : ℕ) → low ≤ x → mem' x ≡ mem x)
    → WordsAt mem a ws
    → WordsAt mem' a ws
WordsAt-kept mem mem' a low [] l h w = tt
WordsAt-kept mem mem' a low (w ∷ ws) l h (b, rest) = (
  (λ i q. h (a + i) (omega arith) ∙ b i q),
  WordsAt-kept mem mem' (a + 4) low ws (omega arith) h rest,
)

pub push_words_lem :
    (ws : List ℕ) (st : Stack) (behind : List ℕ)
    → floor + 4 * length ws ≤ st.esp
    → WordsAt st.mem st.esp behind
    → (st' : Stack) × (push_words ws st ≡ some st')
      × Pushed st (4 * length ws) st'
      × WordsAt st'.mem st'.esp (ws ++ behind)
unfolding push_words
push_words_lem [] st behind h w = (st, refl, record { moved = omega arith; above = λ x l. refl }, w)
push_words_lem (w ∷ ws) st behind h b =
    let (st1, e1, p1, w1) = push_words_lem ws st behind (omega arith) b in
    let (st2, e2, p2, b2) = push_word_lem w st1 (omega (arith, p1.moved)) in
    (
      st2,
      rw (e1, push_words) e2,
      record {
        moved = omega (arith, p1.moved, p2.moved);
        above = λ x l. p2.above x (omega (arith, p1.moved)) ∙ p1.above x l;
      },
      (
        b2,
        subst (λ a. WordsAt st2.mem a (ws ++ behind)) (sym p2.moved)
            (WordsAt-kept st1.mem st2.mem st1.esp st1.esp (ws ++ behind) (omega arith) p2.above w1),
      ),
    )

pub Pushed-trans :
    (a b c : Stack) (n m k : ℕ) → n + m ≡ k → Pushed a n b → Pushed b m c → Pushed a k c
Pushed-trans a b c n m k e p q = record {
  moved = omega (arith, p.moved, q.moved);
  above = λ x l. q.above x (omega (arith, p.moved)) ∙ p.above x l;
}

-- The frame below the strings: the return address, argc, argv, its pointers and their NULL.
pub push_frame :
    (st : Stack) (ps : List ℕ) (argc : ℕ)
    → floor + 4 * length ps + 16 ≤ st.esp
    → (st1 st2 st3 st4 st5 : Stack) × (push_word 0 st ≡ some st1)
      × (push_words ps st1 ≡ some st2)
      × (push_word st2.esp st2 ≡ some st3)
      × (push_word argc st3 ≡ some st4)
      × (push_word 0 st4 ≡ some st5)
      × Pushed st (4 * length ps + 16) st5
      × WordsAt st5.mem st5.esp (0 ∷ argc ∷ (st5.esp + 12) ∷ (ps ++ (0 ∷ [])))
unfolding push_words
push_frame st ps argc h =
    let (st1, e1, p1, b1) = push_word_lem 0 st (omega arith) in
    let (st2, e2, p2, w2) = push_words_lem ps st1 (0 ∷ []) (omega (arith, p1.moved)) (b1, tt) in
    let (st3, e3, p3, w3) =
      push_words_lem (st2.esp ∷ []) st2 (ps ++ (0 ∷ [])) (omega (arith, p1.moved, p2.moved)) w2 in
    let (st4, e4, p4, w4) =
      push_words_lem (argc ∷ []) st3 (st2.esp ∷ (ps ++ (0 ∷ [])))
        (omega (arith, p1.moved, p2.moved, p3.moved)) w3 in
    let (st5, e5, p5, w5) =
      push_words_lem (0 ∷ []) st4 (argc ∷ st2.esp ∷ (ps ++ (0 ∷ [])))
        (omega (arith, p1.moved, p2.moved, p3.moved, p4.moved)) w4 in
    let argv : st2.esp ≡ st5.esp + 12 = omega (arith, p3.moved, p4.moved, p5.moved) in
    let n : ℕ = 4 * length ps in
    (
      st1,
      st2,
      st3,
      st4,
      st5,
      e1,
      e2,
      e3,
      e4,
      e5,
      Pushed-trans st st2 st5 (4 + n) 12 (n + 16) (omega arith)
          (Pushed-trans st st1 st2 4 n (4 + n) refl p1 p2)
          (Pushed-trans st2 st3 st5 4 8 12 refl p3 (Pushed-trans st3 st4 st5 4 4 8 refl p4 p5)),
      subst (λ a. WordsAt st5.mem st5.esp (0 ∷ argc ∷ a ∷ (ps ++ (0 ∷ [])))) argv w5,
    )

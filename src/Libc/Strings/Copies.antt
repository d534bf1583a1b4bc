-- ===== src/Libc/Strings/Copies.antt =====
-- lib/string.c: strlcpy and strlcat write a text and its zero byte within the size given.
use ee461s_projects.Common.{
  ℕ, zero, suc, ◌+◌, ◌-◌, ◌≤◌, ◌<◌, ◌≡◌, refl, min, true, Option, some, none, List, [], ◌∷◌, ◌++◌,
  length, take, drop, length-take, length-append, length-drop, arith, ltb, if◌then◌else◌, ap, ◌∙◌,
  ap₂, sym, append_assoc, ◌>>=◌,
}
use ee461s_projects.Libc.Strings.{put, strlcpy}
use ee461s_projects.Libc.Strings.Texts.{NoNul, c_string, strlen_lem}

put_lem :
    (dst : List ℕ) (o : ℕ) (bytes : List ℕ)
    → o + length bytes ≤ length dst
    → put dst o bytes ≡ some (take o dst ++ (bytes ++ drop (o + length bytes) dst))
unfolding put
put_lem dst o bytes h = ground arith

take-append_le : (n : ℕ) (t u : List ℕ) → n ≤ length t → take n (t ++ u) ≡ take n t
take-append_le zero t u h = refl
take-append_le (suc n) [] u h = absurd (omega arith)
take-append_le (suc n) (c ∷ t) u h = ap (λ l. c ∷ l) (take-append_le n t u (omega arith))

pub take_exact : (t u : List ℕ) (n : ℕ) → n ≡ length t → take n (t ++ u) ≡ t
take_exact [] u zero h = refl
take_exact [] u (suc n) h = absurd (omega arith)
take_exact (c ∷ t) u zero h = absurd (omega arith)
take_exact (c ∷ t) u (suc n) h = ap (λ l. c ∷ l) (take_exact t u n (omega arith))

drop-nil : (n : ℕ) → drop {A = ℕ} n [] ≡ []
drop-nil zero = refl
drop-nil (suc n) = refl

drop_past : (t u : List ℕ) (n k : ℕ) → k ≡ length t + n → drop k (t ++ u) ≡ drop n u
drop_past [] u n k h = ap (λ j. drop j u) (omega arith)
drop_past (c ∷ t) u n zero h = absurd (omega arith)
drop_past (c ∷ t) u n (suc k) h = drop_past t u n k (omega arith)

drop-drop : (n m k : ℕ) (l : List ℕ) → k ≡ m + n → drop n (drop m l) ≡ drop k l
drop-drop n zero k l h = ap (λ j. drop j l) (omega arith)
drop-drop n (suc m) k [] h = drop-nil n ∙ sym (drop-nil k)
drop-drop n (suc m) zero (x ∷ l) h = absurd (omega arith)
drop-drop n (suc m) (suc k) (x ∷ l) h = drop-drop n m k l (omega arith)

-- Two writes, of a text and of the zero byte behind it.
put_text :
    (dst : List ℕ) (o : ℕ) (t : List ℕ) (k : ℕ)
    → k ≡ o + length t
    → k < length dst
    → (put dst o t >>= λ d. put d k (0 ∷ [])) ≡ some (take o dst ++ (t ++ (0 ∷ drop (k + 1) dst)))
put_text dst o t k e h =
    let n = length-append (take o dst) (t ++ drop (o + length t) dst) in
    let n1 = length-append t (drop (o + length t) dst) in
    let n2 = length-take o dst in
    let n3 = length-drop (o + length t) dst in
    rw (put_lem dst o t (omega arith)) (
      put_lem (take o dst ++ (t ++ drop (o + length t) dst)) k (0 ∷ []) (omega arith)
      ∙ ap₂ (λ a b. some (a ++ (0 ∷ b))) front back
      ∙ ap some (append_assoc (take o dst) t (0 ∷ drop (k + 1) dst)))
  where
    taken : length (take o dst) ≡ o
    taken = omega (arith, length-take o dst)

    front : take k (take o dst ++ (t ++ drop (o + length t) dst)) ≡ take o dst ++ t
    front =
        ap (take k) (sym (append_assoc (take o dst) t (drop (o + length t) dst)))
        ∙ take_exact (take o dst ++ t) (drop (o + length t) dst) k
            (omega (arith, length-append (take o dst) t, taken))

    back : drop (k + 1) (take o dst ++ (t ++ drop (o + length t) dst)) ≡ drop (k + 1) dst
    back =
        drop_past (take o dst) (t ++ drop (o + length t) dst) (length t + 1) (k + 1)
          (omega (arith, taken))
        ∙ drop_past t (drop (o + length t) dst) 1 (length t + 1) (omega arith)
        ∙ drop-drop 1 (o + length t) (k + 1) dst (omega arith)

with_length :
    (n : ℕ) (m : Option (List ℕ)) (f : List ℕ → Option (List ℕ)) {d : List ℕ}
    → (m >>= f) ≡ some d
    → ◌≡◌ {A = Option (ℕ × List ℕ)} (m >>= λ x. f x >>= λ y. some (n, y)) (some (n, d))
with_length n none f e = cc
with_length n (some x) f e = rw e refl

-- strlcpy of a text into an object of at least `size` bytes, `size` not 0, returns the text's
-- length and leaves in the object the first `size - 1` characters of the text, or all, then a zero
-- byte, and the bytes behind that as they were.
pub strlcpy_lem :
    (dst t rest : List ℕ) (size : ℕ)
    → NoNul t
    → 0 < size
    → size ≤ length dst
    → let n = min (length t) (size - 1) in
      strlcpy dst (c_string t rest) size ≡ some (length t, take n t ++ (0 ∷ drop (n + 1) dst))
unfolding strlcpy
strlcpy_lem dst t rest size h p q =
    let e : ltb 0 size ≡ true = ground arith in
    rw (strlen_lem t rest h, e)
      (rw dst_len (
        rw (take-append_le (min (length t) (size - 1)) t (0 ∷ rest) (omega arith)) (
          with_length (length t) (put dst 0 (take (min (length t) (size - 1)) t))
            (λ d. put d (min (length t) (size - 1)) (0 ∷ []))
            (put_text dst 0 (take (min (length t) (size - 1)) t) (min (length t) (size - 1))
              (omega (arith, length-take (min (length t) (size - 1)) t)) (omega arith)))))
  where
    dst_len : (if ltb (length t) (size - 1) then length t else size - 1) ≡ min (length t) (size - 1)
    dst_len = ground arith

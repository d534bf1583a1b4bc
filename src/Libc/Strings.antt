-- ===== src/Libc/Strings.antt =====
-- lib/string.c: strings. A string is the list of bytes from the pointer to the end of its object, with
-- a zero byte that ends it; a pointer into it is an index, and NULL is `none` inside a result. An outer
-- `none` is a read or write past the end of the object.
pub mod Texts
pub mod Copies
mod Tests
use ee461s_projects.Common.{
  ℕ, zero, suc, ◌+◌, ◌-◌, Bool, true, false, not, ◌&&◌, Option, none, some, is_some, List, [], ◌∷◌,
  ◌++◌, length, take, drop, leb, ltb, ◌==◌, if◌then◌else◌, ◌>>=◌,
}

-- Less than, equal to or greater than zero.
pub data Sign : Type 0 where
  negative : Sign
  equal : Sign
  positive : Sign

-- The loop counts from `n` on.
unfoldable pub strlen_from : List ℕ → (n : ℕ) → Option ℕ
strlen_from [] n = none
strlen_from (c ∷ s) n = let more = strlen_from s (n + 1) in if c == 0 then some n else more

unfoldable pub strlen : List ℕ → Option ℕ
strlen string = strlen_from string 0

unfoldable pub strnlen_from : List ℕ → (maxlen n : ℕ) → Option ℕ
strnlen_from [] maxlen n = none
strnlen_from (c ∷ s) maxlen n =
    let more = strnlen_from s maxlen (n + 1) in
    if not (c == 0) && ltb n maxlen then more else some n

unfoldable pub strnlen : List ℕ → ℕ → Option ℕ
strnlen string maxlen = strnlen_from string maxlen 0

unfoldable pub strcmp : List ℕ → List ℕ → Option Sign
strcmp [] b = none
strcmp (c ∷ a) [] = none
strcmp (c ∷ a) (d ∷ b) =
    let more = strcmp a b in
    if not (c == 0) && c == d
    then more
    else some (if ltb c d then negative else if ltb d c then positive else equal)

unfoldable pub memcmp : List ℕ → List ℕ → (size : ℕ) → Option Sign
memcmp a b zero = some equal
memcmp [] b (suc size) = none
memcmp (c ∷ a) [] (suc size) = none
memcmp (c ∷ a) (d ∷ b) (suc size) =
    let more = memcmp a b size in
    if not (c == d) then some (if ltb d c then positive else negative) else more

unfoldable pub memchr_from : List ℕ → (ch size n : ℕ) → Option (Option ℕ)
memchr_from block ch zero n = some none
memchr_from [] ch (suc size) n = none
memchr_from (c ∷ block) ch (suc size) n =
    let more = memchr_from block ch size (n + 1) in if c == ch then some (some n) else more

unfoldable pub memchr : List ℕ → (ch size : ℕ) → Option (Option ℕ)
memchr block ch size = memchr_from block ch size 0

unfoldable pub strchr_from : List ℕ → (c n : ℕ) → Option (Option ℕ)
strchr_from [] c n = none
strchr_from (d ∷ s) c n =
    let more = strchr_from s c (n + 1) in
    if d == c then some (some n) else if d == 0 then some none else more

unfoldable pub strchr : List ℕ → (c : ℕ) → Option (Option ℕ)
strchr string c = strchr_from string c 0

unfoldable pub strrchr_from : List ℕ → (c n : ℕ) → Option ℕ → Option (Option ℕ)
strrchr_from [] c n p = none
strrchr_from (d ∷ s) c n p =
    let more = strrchr_from s c (n + 1) (if d == c then some n else p) in
    if d == 0 then some p else more

unfoldable pub strrchr : List ℕ → (c : ℕ) → Option (Option ℕ)
strrchr string c = strrchr_from string c 0 none

-- The loop of strcspn and strspn: it goes on while the character's being in `set` is `wanted`.
unfoldable pub span_from : Bool → List ℕ → (set : List ℕ) → (n : ℕ) → Option ℕ
span_from wanted [] set n = none
span_from wanted (c ∷ s) set n =
    let more = span_from wanted s set (n + 1) in
    if c == 0
    then some n
    else strchr set c >>= λ p.
        if is_some p then (if wanted then more else some n) else (if wanted then some n else more)

unfoldable pub strcspn : List ℕ → List ℕ → Option ℕ
strcspn string stop = span_from false string stop 0

unfoldable pub strspn : List ℕ → List ℕ → Option ℕ
strspn string skip = span_from true string skip 0

unfoldable pub strpbrk_from : List ℕ → List ℕ → (n : ℕ) → Option (Option ℕ)
strpbrk_from [] stop n = none
strpbrk_from (c ∷ s) stop n =
    let more = strpbrk_from s stop (n + 1) in
    if c == 0 then some none else strchr stop c >>= λ p. if is_some p then some (some n) else more

unfoldable pub strpbrk : List ℕ → List ℕ → Option (Option ℕ)
strpbrk string stop = strpbrk_from string stop 0

-- The loop of strstr at `i`, with `rounds` places left.
unfoldable pub strstr_from : (rounds : ℕ) → List ℕ → List ℕ → (i needle_len : ℕ) → Option (Option ℕ)
strstr_from zero haystack needle i needle_len = some none
strstr_from (suc rounds) haystack needle i needle_len =
    let more = strstr_from rounds haystack needle (i + 1) needle_len in
    memcmp (drop i haystack) needle needle_len >>= λ c. elim c [ equal ↦ some (some i) | _ ↦ more ]

unfoldable pub strstr : List ℕ → List ℕ → Option (Option ℕ)
strstr haystack needle = do
  haystack_len ← strlen haystack
  needle_len ← strlen needle
  if leb needle_len haystack_len
      then strstr_from (haystack_len - needle_len + 1) haystack needle 0 needle_len
      else some none

-- `bytes` at `o` in the object `dst`; `none` if they do not fit.
unfoldable pub put : List ℕ → (o : ℕ) → List ℕ → Option (List ℕ)
put dst o bytes =
    if leb (o + length bytes) (length dst)
    then some (take o dst ++ (bytes ++ drop (o + length bytes) dst))
    else none

-- The length that it returns, and `dst`.
unfoldable pub strlcpy : List ℕ → List ℕ → (size : ℕ) → Option (ℕ × List ℕ)
strlcpy dst src size = do
  src_len ← strlen src
  if ltb 0 size
      then (do
        let dst_len = if ltb src_len (size - 1) then src_len else size - 1
        dst1 ← put dst 0 (take dst_len src)
        dst2 ← put dst1 dst_len (0 ∷ [])
        some (src_len, dst2))
      else some (src_len, dst)

unfoldable pub strlcat : List ℕ → List ℕ → (size : ℕ) → Option (ℕ × List ℕ)
strlcat dst src size = do
  src_len ← strlen src
  dst_len ← strlen dst
  if ltb 0 size && ltb dst_len size
      then (do
        let copy_cnt = if ltb src_len (size - dst_len - 1) then src_len else size - dst_len - 1
        dst1 ← put dst dst_len (take copy_cnt src)
        dst2 ← put dst1 (dst_len + copy_cnt) (0 ∷ [])
        some (src_len + dst_len, dst2))
      else some (src_len + dst_len, dst)

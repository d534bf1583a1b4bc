-- ===== src/KernelLib/Hash/Buckets.antt =====
-- lib/kernel/hash.c: what the buckets hold after elements have moved.
use ee461s_projects.Common.{
  ℕ, zero, suc, ◌+◌, ◌-◌, ◌≤◌, ◌<◌, ◌≡◌, ◌≢◌, refl, ◌&&◌, List, [], ◌∷◌, count, length, arith, leb,
  ltb, ◌==◌, if◌then◌else◌, update, bit_and-le,
}
use ee461s_projects.KernelLib.Hash.{find_bucket, move_bucket, move_buckets}

-- How often an element stands in `n` buckets from `i` on, and how many elements they have.
abbrev pub total : ℕ → (ℕ → List ℕ) → (i n : ℕ) → ℕ
total y f i zero = 0
total y f i (suc n) = count y (f i) + total y f (i + 1) n

abbrev pub lengths : (ℕ → List ℕ) → (i n : ℕ) → ℕ
lengths f i zero = 0
lengths f i (suc n) = length (f i) + lengths f (i + 1) n

pub total_at :
    (y : ℕ) (f : ℕ → List ℕ) (k i n : ℕ)
    → ((j : ℕ) → j < i + n → j ≢ k → count y (f j) ≡ 0)
    → total y f i n ≡ (if leb i k && ltb k (i + n) then count y (f k) else 0)
total_at y f k i zero h = ground arith
total_at y f k i (suc n) h =
    ground (arith, h i (omega arith), total_at y f k (i + 1) n (λ j l. h j (omega arith)))

pub lengths_outside :
    (f : ℕ → List ℕ) (k : ℕ) (v : List ℕ) (i n : ℕ)
    → k < i
    → lengths (update f k v) i n ≡ lengths f i n
lengths_outside f k v i zero h = refl
lengths_outside f k v i (suc n) h = ground (arith, lengths_outside f k v (i + 1) n (omega arith))

pub lengths-update :
    (f : ℕ → List ℕ) (k : ℕ) (v : List ℕ) (i n : ℕ)
    → i ≤ k
    → k < i + n
    → lengths (update f k v) i n + length (f k) ≡ lengths f i n + length v
lengths-update f k v i zero h l = absurd (omega arith)
lengths-update f k v i (suc n) h l =
    ground (arith, lengths_outside f k v (i + 1) n, lengths-update f k v (i + 1) n)

module _ (hash : ℕ → ℕ) where
  pub find_bucket-lt : (c e : ℕ) → 0 < c → find_bucket hash c e < c
  unfolding find_bucket
  find_bucket-lt c e h = omega (arith, bit_and-le (hash e) (c - 1))

  pub find_bucket-congr :
      (c a b : ℕ) → hash a ≡ hash b → find_bucket hash c a ≡ find_bucket hash c b
  unfolding find_bucket
  find_bucket-congr c a b e = rw e refl

module _ (hash : ℕ → ℕ) (c : ℕ) where
  count-move_bucket :
      (y : ℕ) (new : ℕ → List ℕ) (xs : List ℕ) (j : ℕ)
      → count y (move_bucket hash c new xs j)
        ≡ count y (new j) + (if find_bucket hash c y == j then count y xs else 0)
  unfolding move_bucket
  count-move_bucket y new [] j = ground arith
  count-move_bucket y new (x ∷ xs) j =
      let k = find_bucket hash c x in
      ground (arith, count-move_bucket y (update new k (x ∷ new k)) xs j)

  pub count-move_buckets :
      (y : ℕ) (new old : ℕ → List ℕ) (i n j : ℕ)
      → count y (move_buckets hash c new old i n j)
        ≡ count y (new j) + (if find_bucket hash c y == j then total y old i n else 0)
  unfolding move_buckets
  count-move_buckets y new old i zero j = ground arith
  count-move_buckets y new old i (suc n) j = ground (
    arith,
    count-move_buckets y (move_bucket hash c new (old i)) old (i + 1) n j,
    count-move_bucket y new (old i) j,
  )

  lengths-move_bucket :
      (new : ℕ → List ℕ) (xs : List ℕ)
      → 0 < c
      → lengths (move_bucket hash c new xs) 0 c ≡ lengths new 0 c + length xs
  unfolding move_bucket
  lengths-move_bucket new [] h = omega arith
  lengths-move_bucket new (x ∷ xs) h =
      let k = find_bucket hash c x in
      omega (
        arith,
        lengths-move_bucket (update new k (x ∷ new k)) xs h,
        lengths-update new k (x ∷ new k) 0 c (omega arith)
            (omega (arith, find_bucket-lt hash c x h)),
      )

  pub lengths-move_buckets :
      (new old : ℕ → List ℕ) (i n : ℕ)
      → 0 < c
      → lengths (move_buckets hash c new old i n) 0 c ≡ lengths new 0 c + lengths old i n
  unfolding move_buckets
  lengths-move_buckets new old i zero h = omega arith
  lengths-move_buckets new old i (suc n) h = omega (
    arith,
    lengths-move_buckets (move_bucket hash c new (old i)) old (i + 1) n h,
    lengths-move_bucket new (old i) h,
  )

-- ===== src/KernelLib/Hash/Rehash.antt =====
-- lib/kernel/hash.c: a well-formed table, and that rehash keeps it and what it holds.
use ee461s_projects.Common.{
  ℕ, zero, suc, ◌+◌, ◌≤◌, ◌<◌, ◌≡◌, ◌≢◌, refl, Bool, true, not, [], count, arith, ◌==◌,
  if◌then◌else◌, ◌∙◌, inl, inr, Bool-cases,
}
use ee461s_projects.KernelLib.Hash.{
  Hash, same, find_bucket, move_buckets, rehash, ideal_bucket_cnt, is_power_of_2,
}
use ee461s_projects.KernelLib.Hash.Buckets.{
  total, lengths, total_at, count-move_buckets, lengths-move_buckets, find_bucket-lt,
}
use ee461s_projects.KernelLib.Hash.Sizes.{ideal_bucket_cnt-power, power-pos}

-- What the table's user must give: elements that are equal by `less` are so as a relation should, and
-- have one hash value.
pub record IsOrder (hash : ℕ → ℕ) (less : ℕ → ℕ → Bool) : Type 0 where
  pub self : (x : ℕ) → same less x x ≡ true
  pub turn : (x y : ℕ) → same less x y ≡ true → same less y x ≡ true
  pub chain : (x y z : ℕ) → same less x y ≡ true → same less y z ≡ true → same less x z ≡ true
  pub agree : (x y : ℕ) → same less x y ≡ true → hash x ≡ hash y

-- How often an element stands in its bucket.
abbrev pub occurs : (ℕ → ℕ) → Hash → ℕ → ℕ
occurs hash h x = count x (h.buckets (find_bucket hash h.bucket_cnt x))

pub record IsHash (hash : ℕ → ℕ) (less : ℕ → ℕ → Bool) (h : Hash) : Type 0 where
  pub some_buckets : is_power_of_2 h.bucket_cnt ≡ true
  pub home :
      (i x : ℕ) → i < h.bucket_cnt → count x (h.buckets i) ≢ 0 → find_bucket hash h.bucket_cnt x ≡ i
  pub once : (i x : ℕ) → i < h.bucket_cnt → count x (h.buckets i) ≤ 1
  pub apart : (x y : ℕ) → occurs hash h x ≢ 0 → occurs hash h y ≢ 0 → same less x y ≡ true → x ≡ y
  pub size : h.elem_cnt ≡ lengths h.buckets 0 h.bucket_cnt

lengths_empty : (i n : ℕ) → lengths (λ j. []) i n ≡ 0
lengths_empty i zero = refl
lengths_empty i (suc n) = omega (arith, lengths_empty (i + 1) n)

module _ {hash : ℕ → ℕ} {less : ℕ → ℕ → Bool} {h : Hash} (v : IsHash hash less h) where
  pub bucket_lt : (x : ℕ) → find_bucket hash h.bucket_cnt x < h.bucket_cnt
  bucket_lt x = find_bucket-lt hash h.bucket_cnt x (power-pos h.bucket_cnt v.some_buckets)

  -- All the occurrences of an element are in its bucket.
  pub total-occurs : (x : ℕ) → total x h.buckets 0 h.bucket_cnt ≡ occurs hash h x
  total-occurs x =
      let k = find_bucket hash h.bucket_cnt x in
      total_at x h.buckets k 0 h.bucket_cnt (λ j l ne. ground (arith, v.home j x (omega arith)))
      ∙ ground (arith, bucket_lt x)

  module _ (c : ℕ) (p : is_power_of_2 c ≡ true) where
    moved : Hash
    moved = record h {
      bucket_cnt = c;
      buckets = move_buckets hash c (λ i. []) h.buckets 0 h.bucket_cnt;
    }

    count-moved :
        (x j : ℕ)
        → count x (moved.buckets j) ≡ (if find_bucket hash c x == j then occurs hash h x else 0)
    unfolding moved
    count-moved x j =
        ground
          (arith, count-move_buckets hash c x (λ i. []) h.buckets 0 h.bucket_cnt j, total-occurs x)

    occurs-moved : (x : ℕ) → occurs hash moved x ≡ occurs hash h x
    unfolding moved
    occurs-moved x = ground (arith, count-moved x (find_bucket hash c x))

    moved-IsHash : IsHash hash less moved
    unfolding moved
    moved-IsHash = record {
      some_buckets = p;
      home = λ i x l n. ground (arith, count-moved x i);
      once = λ i x l.
          ground (arith, count-moved x i, v.once (find_bucket hash h.bucket_cnt x) x (bucket_lt x));
      apart = λ x y a b s.
          v.apart x y (ground (arith, occurs-moved x)) (ground (arith, occurs-moved y)) s;
      size = omega (
        arith,
        v.size,
        lengths_empty 0 c,
        lengths-move_buckets hash c (λ i. []) h.buckets 0 h.bucket_cnt (power-pos c p),
      );
    }

  pub rehash-IsHash : (memory : Bool) → IsHash hash less (rehash hash memory h)
  unfolding rehash moved
  rehash-IsHash memory = elim (Bool-cases (ideal_bucket_cnt h.elem_cnt == h.bucket_cnt)) [
    | inl e ↦ rw e v
    | inr e ↦ rw e (elim (Bool-cases (not memory)) [
      | inl f ↦ rw f v
      | inr f ↦
          rw f (moved-IsHash (ideal_bucket_cnt h.elem_cnt) (ideal_bucket_cnt-power h.elem_cnt))
    ])
  ]

  pub occurs-rehash :
      (memory : Bool) (x : ℕ) → occurs hash (rehash hash memory h) x ≡ occurs hash h x
  unfolding rehash moved
  occurs-rehash memory x = elim (Bool-cases (ideal_bucket_cnt h.elem_cnt == h.bucket_cnt)) [
    | inl e ↦ rw e refl
    | inr e ↦ rw e (elim (Bool-cases (not memory)) [
      | inl f ↦ rw f refl
      | inr f ↦
          rw f (occurs-moved (ideal_bucket_cnt h.elem_cnt) (ideal_bucket_cnt-power h.elem_cnt) x)
    ])
  ]

-- ===== src/KernelLib/Hash.antt =====
-- lib/kernel/hash.c: hash tables with chains. An element is an address, and a bucket is the list of
-- its elements from front to back. `hash` and `less` are the caller's, their auxiliary data applied;
-- `memory` says whether malloc gives room for the buckets.
pub mod Buckets
mod Sizes
pub mod Rehash
mod Finds
pub mod Operations
mod Tests
use ee461s_projects.Common.{
  ℕ, zero, suc, ◌+◌, ◌-◌, ◌*◌, ◌/◌, ◌%◌, ◌^◌, bit_and, bit_xor, Bool, true, false, not, ◌&&◌,
  Option, none, some, is_some, List, [], ◌∷◌, ltb, ◌==◌, if◌then◌else◌, update, erase_all, length,
  map, ◌++◌,
}

-- struct hash, less the functions
pub record Hash : Type 0 where
  pub elem_cnt : ℕ
  pub bucket_cnt : ℕ
  pub buckets : ℕ → List ℕ

-- FNV_32_PRIME and FNV_32_BASIS
abbrev pub fnv_prime : ℕ
fnv_prime = 16777619

abbrev pub fnv_basis : ℕ
fnv_basis = 2166136261

unfoldable pub hash_from : (h : ℕ) → List ℕ → ℕ
hash_from h [] = h
hash_from h (b ∷ buf) = hash_from (bit_xor (h * fnv_prime % 2 ^ 32) b) buf

-- The bytes of the buffer.
unfoldable pub hash_bytes : List ℕ → ℕ
hash_bytes buf = hash_from fnv_basis buf

-- The four bytes of an integer, lowest first.
unfoldable pub hash_int : ℕ → ℕ
hash_int i = hash_bytes (i % 256 ∷ i / 256 % 256 ∷ i / 65536 % 256 ∷ i / 16777216 % 256 ∷ [])

unfoldable pub turn_off_least_1bit : ℕ → ℕ
turn_off_least_1bit x = bit_and x (x - 1)

unfoldable pub is_power_of_2 : ℕ → Bool
unfolding turn_off_least_1bit
is_power_of_2 x = not (x == 0) && turn_off_least_1bit x == 0

-- while (!is_power_of_2 (n)) n = turn_off_least_1bit (n); a round makes `n` smaller.
unfoldable pub power_loop : (fuel n : ℕ) → ℕ
power_loop zero n = n
power_loop (suc fuel) n =
    let more = power_loop fuel (turn_off_least_1bit n) in if not (is_power_of_2 n) then more else n

-- What rehash computes: one bucket for about two elements, four at least.
unfoldable pub ideal_bucket_cnt : (elem_cnt : ℕ) → ℕ
ideal_bucket_cnt elem_cnt =
    let n = if ltb (elem_cnt / 2) 4 then 4 else elem_cnt / 2 in power_loop n n

-- hash_clear without a destructor, which is a call for each element.
unfoldable pub hash_clear : Hash → Hash
hash_clear h = record h {
  elem_cnt = 0;
  buckets = λ i. if ltb i h.bucket_cnt then [] else h.buckets i;
}

unfoldable pub hash_init : Bool → (ℕ → List ℕ) → Bool × Hash
hash_init memory garbage =
    let h : Hash = record { elem_cnt = 0; bucket_cnt = 4; buckets = garbage } in
    if memory then (true, hash_clear h) else (false, h)

unfoldable pub hash_size : Hash → ℕ
hash_size h = h.elem_cnt

unfoldable pub hash_empty : Hash → Bool
hash_empty h = h.elem_cnt == 0

-- The elements that hash_apply visits, in order: those of `n` buckets from `i` on.
unfoldable pub apply_from : (ℕ → List ℕ) → (i n : ℕ) → List ℕ
apply_from buckets i zero = []
apply_from buckets i (suc n) = buckets i ++ apply_from buckets (i + 1) n

unfoldable pub hash_apply : Hash → List ℕ
hash_apply h = apply_from h.buckets 0 h.bucket_cnt

-- Removes E from the list that it is in.
unfoldable pub remove_elem : Hash → ℕ → Hash
remove_elem h e = record h { elem_cnt = h.elem_cnt - 1; buckets = λ i. erase_all e (h.buckets i) }

unfoldable pub insert_elem : Hash → (bucket e : ℕ) → Hash
insert_elem h bucket e = record h {
  elem_cnt = h.elem_cnt + 1;
  buckets = update h.buckets bucket (e ∷ h.buckets bucket);
}

module _ (less : ℕ → ℕ → Bool) where
  -- Neither is less than the other.
  abbrev pub same : ℕ → ℕ → Bool
  same a b = not (less a b) && not (less b a)

  unfoldable pub find_elem : List ℕ → ℕ → Option ℕ
  find_elem [] e = none
  find_elem (x ∷ xs) e = let later = find_elem xs e in if same x e then some x else later

module _ (hash : ℕ → ℕ) where
  unfoldable pub find_bucket : (bucket_cnt e : ℕ) → ℕ
  find_bucket bucket_cnt e = bit_and (hash e) (bucket_cnt - 1)

  -- A bucket's elements go to the front of their new buckets, the first one first.
  unfoldable pub move_bucket : (bucket_cnt : ℕ) → (ℕ → List ℕ) → List ℕ → ℕ → List ℕ
  move_bucket bucket_cnt new [] = new
  move_bucket bucket_cnt new (x ∷ xs) =
      move_bucket bucket_cnt
        (update new (find_bucket bucket_cnt x) (x ∷ new (find_bucket bucket_cnt x))) xs

  -- The loop over `n` old buckets from `i` on.
  unfoldable pub move_buckets : (bucket_cnt : ℕ) → (new old : ℕ → List ℕ) → (i n : ℕ) → ℕ → List ℕ
  move_buckets bucket_cnt new old i zero = new
  move_buckets bucket_cnt new old i (suc n) =
      move_buckets bucket_cnt (move_bucket bucket_cnt new (old i)) old (i + 1) n

  unfoldable pub rehash : Bool → Hash → Hash
  rehash memory h =
      let new_bucket_cnt = ideal_bucket_cnt h.elem_cnt in
      if new_bucket_cnt == h.bucket_cnt then h else if not memory then h else record h {
        bucket_cnt = new_bucket_cnt;
        buckets = move_buckets new_bucket_cnt (λ i. []) h.buckets 0 h.bucket_cnt;
      }

module _ (hash : ℕ → ℕ) (less : ℕ → ℕ → Bool) where
  unfoldable pub hash_find : Hash → ℕ → Option ℕ
  hash_find h e = find_elem less (h.buckets (find_bucket hash h.bucket_cnt e)) e

  -- The equal element that was there already, and the table.
  unfoldable pub hash_insert : Bool → Hash → ℕ → Option ℕ × Hash
  hash_insert memory h new =
      let bucket = find_bucket hash h.bucket_cnt new in
      let old = find_elem less (h.buckets bucket) new in
      (old, rehash hash memory (if is_some old then h else insert_elem h bucket new))

  unfoldable pub hash_replace : Bool → Hash → ℕ → Option ℕ × Hash
  hash_replace memory h new =
      let bucket = find_bucket hash h.bucket_cnt new in
      let old = find_elem less (h.buckets bucket) new in
      let h' : Hash = elim old [ none ↦ h | some o ↦ remove_elem h o ] in
      (old, rehash hash memory (insert_elem h' bucket new))

  unfoldable pub hash_delete : Bool → Hash → ℕ → Option ℕ × Hash
  hash_delete memory h e =
      let found = hash_find h e in
      (found, elim found [ none ↦ h | some o ↦ rehash hash memory (remove_elem h o) ])

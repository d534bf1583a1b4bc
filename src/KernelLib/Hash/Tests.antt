-- ===== src/KernelLib/Hash/Tests.antt =====
-- Runs of hash.c on a table of four buckets with the elements 9 and 5 in one and 6 in another.
use ee461s_projects.Common.{
  ℕ, ◌≡◌, refl, true, some, none, [], ◌∷◌, arith, ltb, ◌==◌, if◌then◌else◌,
}
use ee461s_projects.KernelLib.Hash.{
  Hash, same, find_bucket, find_elem, hash_find, hash_insert, hash_delete, is_power_of_2,
  ideal_bucket_cnt, power_loop,
}
use ee461s_projects.KernelLib.Hash.Rehash.{IsOrder, IsHash}
use ee461s_projects.KernelLib.Hash.Finds.{kept}
use ee461s_projects.KernelLib.Hash.Operations.{hash_insert_lem, hash_delete_lem}

abbrev value : ℕ → ℕ
value x = x

value-IsOrder : IsOrder value ltb
value-IsOrder = record {
  self = λ x. ground arith;
  turn = λ x y h. ground arith;
  chain = λ x y z h k. ground arith;
  agree = λ x y h. ground arith;
}

abbrev table : Hash
table = record {
  elem_cnt = 3;
  bucket_cnt = 4;
  buckets = λ i. if i == 1 then 9 ∷ 5 ∷ [] else if i == 2 then 6 ∷ [] else [];
}

find_run : hash_find value ltb table 5 ≡ some 5
unfolding hash_find find_elem find_bucket
find_run = refl

size_run : ideal_bucket_cnt 27 ≡ 8
unfolding ideal_bucket_cnt power_loop is_power_of_2
size_run = refl

bucket_5 : find_bucket value 4 5 ≡ 1
unfolding find_bucket
bucket_5 = refl

bucket_9 : find_bucket value 4 9 ≡ 1
unfolding find_bucket
bucket_9 = refl

bucket_6 : find_bucket value 4 6 ≡ 2
unfolding find_bucket
bucket_6 = refl

table-IsHash : IsHash value ltb table
unfolding is_power_of_2
table-IsHash = record {
  some_buckets = refl;
  home = λ i x l n. ground (arith, bucket_5, bucket_6, bucket_9);
  once = λ i x l. ground arith;
  apart = λ x y a b s. ground arith;
  size = refl;
}

hash_insert_lem_example :
    let r = hash_insert value ltb true table 13 in
    IsHash value ltb r.1
    × ((e : ℕ)
        → hash_find value ltb r.1 e
          ≡ (if same ltb 13 e then some (kept r.0 13) else hash_find value ltb table e))
hash_insert_lem_example = hash_insert_lem value-IsOrder true 13 table-IsHash

hash_delete_lem_example :
    let r = hash_delete value ltb true table 5 in
    (r.0 ≡ hash_find value ltb table 5)
    × IsHash value ltb r.1
    × ((e : ℕ)
        → hash_find value ltb r.1 e ≡ (if same ltb 5 e then none else hash_find value ltb table e))
hash_delete_lem_example = hash_delete_lem value-IsOrder true 5 table-IsHash

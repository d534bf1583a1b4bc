-- ===== src/KernelLib/Hash/Sizes.antt =====
-- lib/kernel/hash.c: the loop of rehash that rounds down to a power of 2.
use ee461s_projects.Common.{
  ℕ, zero, suc, ◌-◌, ◌/◌, ◌≤◌, ◌<◌, ◌≡◌, ◌≢◌, true, false, arith, ltb, if◌then◌else◌, inl, inr,
  Bool-cases, bit_and-le,
}
use ee461s_projects.KernelLib.Hash.{
  turn_off_least_1bit, is_power_of_2, power_loop, ideal_bucket_cnt,
}

turn_off-le : (x : ℕ) → turn_off_least_1bit x ≤ x - 1
unfolding turn_off_least_1bit
turn_off-le x = bit_and-le x (x - 1)

turn_off-more : (n : ℕ) → n ≢ 0 → is_power_of_2 n ≡ false → turn_off_least_1bit n ≢ 0
unfolding is_power_of_2
turn_off-more n h e = ground arith

pub power_loop_lem : (fuel n : ℕ) → n ≢ 0 → n ≤ fuel → is_power_of_2 (power_loop fuel n) ≡ true
unfolding power_loop
power_loop_lem zero n h l = absurd (omega arith)
power_loop_lem (suc fuel) n h l = elim (Bool-cases (is_power_of_2 n)) [
  | inl e ↦ rw e e
  | inr e ↦ rw e (
      power_loop_lem fuel (turn_off_least_1bit n) (turn_off-more n h e)
        (omega (arith, turn_off-le n)))
]

-- The number of buckets is a power of 2.
pub ideal_bucket_cnt-power : (n : ℕ) → is_power_of_2 (ideal_bucket_cnt n) ≡ true
unfolding ideal_bucket_cnt
ideal_bucket_cnt-power n =
    let k = if ltb (n / 2) 4 then 4 else n / 2 in power_loop_lem k k (ground arith) (omega arith)

pub power-pos : (n : ℕ) → is_power_of_2 n ≡ true → 0 < n
unfolding is_power_of_2
power-pos n h = ground arith

-- ===== src/KernelLib/Bitmap/Scan.antt =====
-- bitmap_scan and bitmap_scan_and_flip find the first group of equal bits.
use ee461s_projects.Common.{
  ℕ, zero, suc, ◌+◌, ◌-◌, ◌<◌, ◌≤◌, ◌≡◌, ◌≢◌, refl, ◌∙◌, subst, leb-cases, Bool, true, false, not,
  some, leb, ◌==◌, arith, inl, inr,
}
use ee461s_projects.KernelLib.Bitmap.{
  Bitmap, bitmap_error, scan_from, bitmap_scan, bitmap_scan_and_flip,
}
use ee461s_projects.KernelLib.Bitmap.Words.{IsValid}
use ee461s_projects.KernelLib.Bitmap.Ranges.{
  Filled, Group, Has, bitmap_contains_lem, bitmap_set_multiple-Filled,
}

-- `i` is the first index from `start` on where a group begins; or there is none.
pub record First (b : Bitmap) (start cnt : ℕ) (value : Bool) (i : ℕ) : Type 0 where
  pub from_start : start ≤ i
  pub fits : i + cnt ≤ b.bit_cnt
  pub group : Group b i cnt value
  pub none_before : (j : ℕ) → start ≤ j → j < i → ¬ Group b j cnt value

pub data Scanned (b : Bitmap) (start cnt : ℕ) (value : Bool) : ℕ → Type 0 where
  found : (i : ℕ) → First b start cnt value i → Scanned b start cnt value i
  no_group :
      ((j : ℕ) → start ≤ j → j + cnt ≤ b.bit_cnt → ¬ Group b j cnt value)
      → Scanned b start cnt value bitmap_error

not-Group :
    (b : Bitmap) (i cnt : ℕ) (value : Bool) → Has b i cnt (not value) → ¬ Group b i cnt value
not-Group b i cnt true (j, p, q, at) all = ground (arith, all j)
not-Group b i cnt false (j, p, q, at) all = ground (arith, all j)

not-not : (value : Bool) → not (not value) ≡ value
not-not true = refl
not-not false = refl

split_at :
    (b : Bitmap) (i j cnt : ℕ) (value : Bool)
    → ¬ Group b i cnt value
    → Group b j cnt value
    → (j ≢ i → ⊥)
    → ⊥
split_at b i j cnt value n g rest = rest (λ e. n (subst (λ k. Group b k cnt value) e g))

-- The indices behind `i`, and `i` itself.
later :
    (b : Bitmap) (i cnt : ℕ) (value : Bool) (r : ℕ)
    → ¬ Group b i cnt value
    → Scanned b (i + 1) cnt value r
    → Scanned b i cnt value r
later b i cnt value r n (found i' f) = found i' (record {
  from_start = omega (arith, f.from_start);
  fits = f.fits;
  group = f.group;
  none_before = λ j p q g. split_at b i j cnt value n g (λ ne. f.none_before j (omega arith) q g);
})
later b i cnt value r n (no_group all) =
    no_group (λ j p q g. split_at b i j cnt value n g (λ ne. all j (omega arith) q g))

scan_from_lem :
    (n : ℕ) (b : Bitmap) (i cnt : ℕ) (value : Bool)
    → IsValid b
    → cnt ≤ b.bit_cnt
    → n ≡ b.bit_cnt - cnt + 1 - i
    → (r : ℕ) × (scan_from n b i cnt value ≡ some r) × Scanned b i cnt value r
unfolding scan_from
scan_from_lem zero b i cnt value v le e = (bitmap_error, refl, no_group (λ j p q g. omega arith))
scan_from_lem (suc n) b i cnt value v le e =
    elim (bitmap_contains_lem b i cnt (not value) v (omega arith)) [
      | inl (e1, has) ↦
          let (r, e2, s) = scan_from_lem n b (i + 1) cnt value v le (omega arith) in
          (r, rw (e1, scan_from) e2, later b i cnt value r (not-Group b i cnt value has) s)
      | inr (e1, all) ↦ (
        i,
        rw (e1, scan_from) refl,
        found i (record {
          from_start = omega arith;
          fits = omega arith;
          group = λ j p q. all j p q ∙ not-not value;
          none_before = λ j p q g. omega arith;
        }),
      )
    ]

-- bitmap_scan passes its ASSERT for a start inside the bitmap, and gives the first index at or behind
-- the start where a group of the count and value begins, or BITMAP_ERROR when no such group fits.
pub bitmap_scan-Scanned :
    (b : Bitmap) (start cnt : ℕ) (value : Bool)
    → IsValid b
    → start ≤ b.bit_cnt
    → (r : ℕ) × (bitmap_scan b start cnt value ≡ some r) × Scanned b start cnt value r
unfolding bitmap_scan
bitmap_scan-Scanned b start cnt value v h = elim (leb-cases cnt b.bit_cnt) [
  | inl (le, e) ↦
      rw (start_ok, e, bitmap_scan)
        (scan_from_lem (b.bit_cnt - cnt + 1 - start) b start cnt value v le refl)
  | inr (gt, e) ↦
      rw (start_ok, e, bitmap_scan) (bitmap_error, refl, no_group (λ j p q g. omega arith))
]
  where
    start_ok : leb start b.bit_cnt ≡ true
    start_ok = ground arith

-- What bitmap_scan_and_flip does: the first group, turned over; or nothing.
pub data Flipped (b : Bitmap) (start cnt : ℕ) (value : Bool) : ℕ → Bitmap → Type 0 where
  flipped :
      (i : ℕ) (b' : Bitmap)
      → First b start cnt value i
      → Filled b i cnt (not value) b'
      → Flipped b start cnt value i b'
  unchanged :
      ((j : ℕ) → start ≤ j → j + cnt ≤ b.bit_cnt → ¬ Group b j cnt value)
      → Flipped b start cnt value bitmap_error b

-- bitmap_scan_and_flip turns over exactly the first group at or behind the start and returns where it
-- begins; where no group fits it returns BITMAP_ERROR and changes nothing.
pub bitmap_scan_and_flip-Flipped :
    (b : Bitmap) (start cnt : ℕ) (value : Bool)
    → IsValid b
    → b.bit_cnt < bitmap_error
    → start ≤ b.bit_cnt
    → (r : ℕ) × (b' : Bitmap) × (bitmap_scan_and_flip b start cnt value ≡ some (r, b'))
      × Flipped b start cnt value r b'
unfolding bitmap_scan_and_flip
bitmap_scan_and_flip-Flipped b start cnt value v small h =
    let (r, e, s) = bitmap_scan-Scanned b start cnt value v h in go r e s
  where
    go :
        (r : ℕ)
        → bitmap_scan b start cnt value ≡ some r
        → Scanned b start cnt value r
        → (r : ℕ) × (b' : Bitmap) × (bitmap_scan_and_flip b start cnt value ≡ some (r, b'))
          × Flipped b start cnt value r b'
    go r e (found i f) =
        let (b', e', filled) = bitmap_set_multiple-Filled b i cnt (not value) v f.fits in
        let other : (i == bitmap_error) ≡ false = ground (arith, f.fits) in
        (i, b', rw (e, bitmap_scan_and_flip) (rw (other, e') refl), flipped i b' f filled)
    go r e (no_group all) = (bitmap_error, b, rw (e, bitmap_scan_and_flip) refl, unchanged all)

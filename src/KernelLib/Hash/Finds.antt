-- ===== src/KernelLib/Hash/Finds.antt =====
-- lib/kernel/hash.c: what hash_find finds after the operations that change a table.
use ee461s_projects.Common.{
  ℕ, zero, suc, ◌+◌, ◌≡◌, ◌≢◌, Bool, true, false, Option, none, some, List, [], ◌∷◌, count, length,
  arith, ◌==◌, if◌then◌else◌, erase_all, count-erase_all, ap, ◌∙◌, sym, inl, inr, Bool-cases,
  Option-cases,
}
use ee461s_projects.KernelLib.Hash.{
  Hash, same, find_bucket, find_elem, hash_find, insert_elem, remove_elem, rehash,
}
use ee461s_projects.KernelLib.Hash.Buckets.{total, lengths, lengths-update, find_bucket-congr}
use ee461s_projects.KernelLib.Hash.Rehash.{
  IsOrder, IsHash, occurs, bucket_lt, rehash-IsHash, occurs-rehash, total-occurs,
}

module _ (less : ℕ → ℕ → Bool) where
  -- What find_elem gives is in the bucket and equal.
  find_elem_sound :
      (xs : List ℕ) (e x : ℕ)
      → find_elem less xs e ≡ some x
      → (count x xs ≢ 0) × (same less x e ≡ true)
  unfolding find_elem
  find_elem_sound [] e x h = cc
  find_elem_sound (y ∷ xs) e x h = elim (Bool-cases (same less y e)) [
    | inl s ↦
        (let q : y ≡ x = cc (rw s at h) in (ground (arith, q), ap (λ k. same less k e) (sym q) ∙ s))
    | inr s ↦ (let r = find_elem_sound xs e x (rw s at h) in (ground (arith, r.0), r.1))
  ]

  find_elem-none :
      (xs : List ℕ) (e x : ℕ) → find_elem less xs e ≡ none → count x xs ≢ 0 → same less x e ≡ false
  unfolding find_elem
  find_elem-none [] e x h n = absurd (ground arith)
  find_elem-none (y ∷ xs) e x h n = elim (Bool-cases (same less y e)) [
    | inl s ↦ cc (rw s at h)
    | inr s ↦ elim (Bool-cases (x == y)) [
      | inl q ↦ (let q' : y ≡ x = ground arith in ap (λ k. same less k e) (sym q') ∙ s)
      | inr q ↦ find_elem-none xs e x (rw s at h) (ground arith)
    ]
  ]

length-erase_all : (f : ℕ) (xs : List ℕ) → length (erase_all f xs) + count f xs ≡ length xs
length-erase_all f [] = omega arith
length-erase_all f (x ∷ xs) = ground (arith, length-erase_all f xs)

erased_lengths :
    (f : ℕ) (b : ℕ → List ℕ) (i n : ℕ)
    → lengths (λ j. erase_all f (b j)) i n + total f b i n ≡ lengths b i n
erased_lengths f b i zero = omega arith
erased_lengths f b i (suc n) = omega (arith, erased_lengths f b (i + 1) n, length-erase_all f (b i))

-- An equal element that was there, or the new one.
abbrev pub kept : Option ℕ → ℕ → ℕ
kept none new = new
kept (some old) new = old

module _ {hash : ℕ → ℕ} {less : ℕ → ℕ → Bool} (o : IsOrder hash less) where
  module _ {h : Hash} (v : IsHash hash less h) where
    pub find_sound :
        (e x : ℕ)
        → hash_find hash less h e ≡ some x
        → (occurs hash h x ≢ 0) × (same less x e ≡ true)
    unfolding hash_find
    find_sound e x f =
        let r = find_elem_sound less (h.buckets (find_bucket hash h.bucket_cnt e)) e x f in
        let b = find_bucket-congr hash h.bucket_cnt x e (o.agree x e r.1) in (rw b r.0, r.1)

    pub find-none :
        (e x : ℕ) → hash_find hash less h e ≡ none → occurs hash h x ≢ 0 → same less x e ≡ false
    unfolding hash_find
    find-none e x f n = elim (Bool-cases (same less x e)) [
      | inl s ↦
          (let b = find_bucket-congr hash h.bucket_cnt x e (o.agree x e s) in
            find_elem-none less (h.buckets (find_bucket hash h.bucket_cnt e)) e x f (rw b at n))
      | inr s ↦ s
    ]

    find_complete :
        (e x : ℕ) → occurs hash h x ≢ 0 → same less x e ≡ true → hash_find hash less h e ≡ some x
    find_complete e x n s = elim (Option-cases (hash_find hash less h e)) [
      | inl f ↦ cc (find-none e x f n)
      | inr (y, f) ↦
          (let r = find_sound e y f in
            let q = v.apart y x r.0 n (o.chain y e x r.1 (o.turn x e s)) in f ∙ ap some q)
    ]

    -- Two tables that hold the same elements equal to `e` find the same.
    find-agree :
        {h' : Hash} (e : ℕ)
        → IsHash hash less h'
        → ((x : ℕ) → same less x e ≡ true → occurs hash h' x ≡ occurs hash h x)
        → ((x : ℕ)
            → hash_find hash less h' e ≡ some x
            → (occurs hash h' x ≢ 0) × (same less x e ≡ true))
        → ((x : ℕ) → hash_find hash less h' e ≡ none → occurs hash h' x ≢ 0 → same less x e ≡ false)
        → hash_find hash less h' e ≡ hash_find hash less h e
    find-agree {h'} e w p sound empty = elim (Option-cases (hash_find hash less h' e)) [
      | inr (x, f) ↦
          (let r = sound x f in f ∙ sym (find_complete e x (ground (arith, r.0, p x r.1)) r.1))
      | inl f ↦ elim (Option-cases (hash_find hash less h e)) [
        | inl g ↦ f ∙ sym g
        | inr (x, g) ↦
            (let r = find_sound e x g in cc (empty x f (ground (arith, r.0, p x r.1)), r.1))
      ]
    ]

    module _ (new : ℕ) (absent : hash_find hash less h new ≡ none) where
      new-absent : occurs hash h new ≡ 0
      new-absent = elim (Bool-cases (occurs hash h new == 0)) [
        | inl z ↦ ground arith
        | inr n ↦ cc (find-none new new absent (ground arith), o.self new)
      ]

      unfoldable pub inserted : Hash
      inserted = insert_elem h (find_bucket hash h.bucket_cnt new) new

      count-inserted :
          (x i : ℕ)
          → count x (inserted.buckets i)
            ≡ count x (h.buckets i)
              + (if i == find_bucket hash h.bucket_cnt new then (if x == new then 1 else 0) else 0)
      unfolding inserted insert_elem
      count-inserted x i = ground arith

      pub occurs-inserted :
          (x : ℕ) → occurs hash inserted x ≡ occurs hash h x + (if x == new then 1 else 0)
      unfolding inserted insert_elem
      occurs-inserted x = ground (arith, count-inserted x (find_bucket hash h.bucket_cnt x))

      pub inserted-IsHash : IsHash hash less inserted
      unfolding inserted insert_elem
      inserted-IsHash = record {
        some_buckets = v.some_buckets;
        home = λ i x l n. ground (arith, count-inserted x i, v.home i x l);
        once = λ i x l. ground (arith, count-inserted x i, v.once i x l, new-absent);
        apart = λ x y a b s. elim (Bool-cases (x == new)) [
          | inl p ↦ elim (Bool-cases (y == new)) [
            | inl q ↦ ground arith
            | inr q ↦
                (let x≡new : x ≡ new = ground arith in
                  cc (
                    find-none new y absent (ground (arith, occurs-inserted y)),
                    o.turn x y s,
                    x≡new,
                  ))
          ]
          | inr p ↦ elim (Bool-cases (y == new)) [
            | inl q ↦
                (let y≡new : y ≡ new = ground arith in
                  cc (find-none new x absent (ground (arith, occurs-inserted x)), s, y≡new))
            | inr q ↦
                v.apart x y (ground (arith, occurs-inserted x)) (ground (arith, occurs-inserted y))
                  s
          ]
        ];
        size =
            let k = find_bucket hash h.bucket_cnt new in
            omega (
              arith,
              v.size,
              lengths-update h.buckets k (new ∷ h.buckets k) 0 h.bucket_cnt (omega arith)
                  (omega (arith, bucket_lt v new)),
            );
      }

  module _ {h : Hash} (v : IsHash hash less h) (memory : Bool) (new : ℕ) where
    pub inserted_finds :
        (absent : hash_find hash less h new ≡ none) (e : ℕ)
        → hash_find hash less (rehash hash memory (inserted v new absent)) e
          ≡ (if same less new e then some new else hash_find hash less h e)
    inserted_finds absent e =
        let w = rehash-IsHash (inserted-IsHash v new absent) memory in
        let p = occurs-rehash (inserted-IsHash v new absent) memory in
        elim (Bool-cases (same less new e)) [
          | inl s ↦
              rw s
                (find_complete w e new (ground (arith, p new, occurs-inserted v new absent new)) s)
          | inr s ↦ rw s (
              find-agree v e w (λ x t. ground (arith, p x, occurs-inserted v new absent x, s, t))
                (find_sound w e) (find-none w e))
        ]

    pub kept_finds :
        (old : ℕ) (f : hash_find hash less h new ≡ some old) (e : ℕ)
        → hash_find hash less (rehash hash memory h) e
          ≡ (if same less new e then some old else hash_find hash less h e)
    kept_finds old f e =
        let w = rehash-IsHash v memory in
        let r = find_sound v new old f in
        elim (Bool-cases (same less new e)) [
          | inl s ↦ rw s (
              find_complete w e old (ground (arith, r.0, occurs-rehash v memory old))
                (o.chain old new e r.1 s))
          | inr s ↦
              rw s (
                find-agree v e w (λ x t. occurs-rehash v memory x) (find_sound w e) (find-none w e))
        ]

  module _ {h : Hash} (v : IsHash hash less h) (x : ℕ) (there : occurs hash h x ≢ 0) where
    pub occurs-removed :
        (y : ℕ) → occurs hash (remove_elem h x) y ≡ (if y == x then 0 else occurs hash h y)
    unfolding remove_elem
    occurs-removed y = count-erase_all x y (h.buckets (find_bucket hash h.bucket_cnt y))

    pub removed-IsHash : IsHash hash less (remove_elem h x)
    unfolding remove_elem
    removed-IsHash = record {
      some_buckets = v.some_buckets;
      home = λ i y l n. v.home i y l (ground (arith, count-erase_all x y (h.buckets i)));
      once = λ i y l. ground (arith, count-erase_all x y (h.buckets i), v.once i y l);
      apart = λ y z a b s.
          v.apart y z (ground (arith, occurs-removed y)) (ground (arith, occurs-removed z)) s;
      size = omega (
        arith,
        v.size,
        erased_lengths x h.buckets 0 h.bucket_cnt,
        total-occurs v x,
        v.once (find_bucket hash h.bucket_cnt x) x (bucket_lt v x),
      );
    }

  pub removed_finds :
      {h : Hash} (v : IsHash hash less h) (e old : ℕ)
      → hash_find hash less h e ≡ some old
      → {h' : Hash} → IsHash hash less h'
      → ((y : ℕ) → occurs hash h' y ≡ (if y == old then 0 else occurs hash h y))
      → (e' : ℕ)
      → hash_find hash less h' e' ≡ (if same less e e' then none else hash_find hash less h e')
  removed_finds {h} v e old f {h'} w p e' =
      let r = find_sound v e old f in
      elim (Bool-cases (same less e e')) [
        | inl s ↦ rw s (elim (Option-cases (hash_find hash less h' e')) [
          | inl g ↦ g
          | inr (y, g) ↦
              (let q = find_sound w e' y g in
                let t : same less y old ≡ true =
                  o.chain y e' old q.1 (o.turn old e' (o.chain old e e' r.1 s)) in
                let z : y ≡ old = v.apart y old (ground (arith, q.0, p y)) r.0 t in
                absurd (ground (arith, q.0, p y, z)))
        ])
        | inr s ↦ rw s (
            find-agree v e' w
              (λ y t.
                ground
                  (arith, p y, s, t, r.1, o.turn old e r.1, o.chain e old e' (o.turn old e r.1)))
              (find_sound w e') (find-none w e'))
      ]

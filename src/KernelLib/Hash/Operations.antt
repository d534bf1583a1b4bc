-- ===== src/KernelLib/Hash/Operations.antt =====
-- lib/kernel/hash.c: hash_insert, hash_delete and hash_replace by what hash_find finds.
use ee461s_projects.Common.{
  ℕ, ◌≡◌, refl, Bool, Option, none, some, arith, if◌then◌else◌, ◌∙◌, inl, inr, Bool-cases,
  Option-cases,
}
use ee461s_projects.KernelLib.Hash.{
  Hash, same, hash_find, hash_insert, hash_delete, hash_replace, remove_elem,
}
use ee461s_projects.KernelLib.Hash.Rehash.{IsOrder, IsHash, rehash-IsHash, occurs-rehash}
use ee461s_projects.KernelLib.Hash.Finds.{
  find_sound, find-none, inserted, inserted-IsHash, occurs-removed, removed-IsHash, inserted_finds,
  kept_finds, removed_finds, kept,
}

module _ {hash : ℕ → ℕ} {less : ℕ → ℕ → Bool} (o : IsOrder hash less) where
  -- hash_insert into a well-formed table, whether or not memory for more buckets is there: the table
  -- is well formed, and hash_find finds for what equals the new element the equal one that was there
  -- already or the new one, and for all else what it found before.
  pub hash_insert_lem :
      {h : Hash} (memory : Bool) (new : ℕ)
      → IsHash hash less h
      → let r = hash_insert hash less memory h new in
        IsHash hash less r.1
        × ((e : ℕ)
            → hash_find hash less r.1 e
              ≡ (if same less new e then some (kept r.0 new) else hash_find hash less h e))
  unfolding hash_insert hash_find inserted
  hash_insert_lem {h} memory new v = elim (Option-cases (hash_find hash less h new)) [
    | inl f ↦
        rw f
          (rehash-IsHash (inserted-IsHash o v new f) memory, λ e. inserted_finds o v memory new f e)
    | inr (old, f) ↦ rw f (rehash-IsHash v memory, λ e. kept_finds o v memory new old f e)
  ]

  nothing_finds :
      {h : Hash} (v : IsHash hash less h) (e : ℕ)
      → hash_find hash less h e ≡ none
      → (e' : ℕ)
      → hash_find hash less h e' ≡ (if same less e e' then none else hash_find hash less h e')
  nothing_finds {h} v e f e' = elim (Bool-cases (same less e e')) [
    | inl s ↦ rw s (elim (Option-cases (hash_find hash less h e')) [
      | inl g ↦ g
      | inr (y, g) ↦
          (let q = find_sound o v e' y g in
            cc (find-none o v e y f q.0, o.chain y e' e q.1 (o.turn e e' s)))
    ])
    | inr s ↦ rw s refl
  ]

  -- hash_delete from a well-formed table gives what hash_find found: the table is well formed, and
  -- hash_find finds nothing for what equals the argument, and for all else what it found before.
  pub hash_delete_lem :
      {h : Hash} (memory : Bool) (e : ℕ)
      → IsHash hash less h
      → let r = hash_delete hash less memory h e in
        (r.0 ≡ hash_find hash less h e)
        × IsHash hash less r.1
        × ((e' : ℕ)
            → hash_find hash less r.1 e'
              ≡ (if same less e e' then none else hash_find hash less h e'))
  unfolding hash_delete
  hash_delete_lem {h} memory e v = elim (Option-cases (hash_find hash less h e)) [
    | inl f ↦ rw (hash_delete, f) (refl, v, λ e'. nothing_finds v e f e')
    | inr (old, f) ↦
        rw (hash_delete, f)
          (
            refl,
            rehash-IsHash (removed-IsHash o v old (find_sound o v e old f).0) memory,
            let r = find_sound o v e old f in
                removed_finds o v e old f (rehash-IsHash (removed-IsHash o v old r.0) memory) (λ y.
                  occurs-rehash (removed-IsHash o v old r.0) memory y
                  ∙ occurs-removed o v old r.0 y),
          )
  ]

  replaced :
      {h : Hash} (v : IsHash hash less h) (new e : ℕ) {f : Option ℕ}
      → f ≡ (if same less new e then none else hash_find hash less h e)
      → (if same less new e then some new else f)
        ≡ (if same less new e then some new else hash_find hash less h e)
  replaced v new e p = ground (arith, p)

  -- hash_replace in a well-formed table gives what hash_find found: the table is well formed, and
  -- hash_find finds the new element for what equals it, and for all else what it found before.
  pub hash_replace_lem :
      {h : Hash} (memory : Bool) (new : ℕ)
      → IsHash hash less h
      → let r = hash_replace hash less memory h new in
        (r.0 ≡ hash_find hash less h new)
        × IsHash hash less r.1
        × ((e : ℕ)
            → hash_find hash less r.1 e
              ≡ (if same less new e then some new else hash_find hash less h e))
  unfolding hash_replace hash_find inserted remove_elem
  hash_replace_lem {h} memory new v = elim (Option-cases (hash_find hash less h new)) [
    | inl f ↦ rw f (
      refl,
      rehash-IsHash (inserted-IsHash o v new f) memory,
      λ e. inserted_finds o v memory new f e,
    )
    | inr (old, f) ↦
        (let r = find_sound o v new old f in
          let w = removed-IsHash o v old r.0 in
          let gone = removed_finds o v new old f w (occurs-removed o v old r.0) in
          let absent : hash_find hash less (remove_elem h old) new ≡ none =
            gone new ∙ rw (o.self new) refl in
          rw f (
            refl,
            rehash-IsHash (inserted-IsHash o w new absent) memory,
            λ e. inserted_finds o w memory new absent e ∙ replaced v new e (gone e),
          ))
  ]

-- ===== src/Filesys/Directory/Add.antt =====
-- filesys/directory.c: dir_add puts a name into the first free entry.
use ee461s_projects.Common.{
  ℕ, suc, ◌+◌, ◌-◌, ◌^◌, ◌≤◌, ◌<◌, ◌≡◌, ◌≢◌, refl, min, Bool, true, false, ◌||◌, Option, none, some,
  List, [], ◌∷◌, ◌++◌, length, drop, arith, ltb, ◌==◌, ap, ◌∙◌, inl, inr, Bool-cases, range_of,
  take_all, ◌>>=◌, sym, length-append, length-take, length-drop, subst, ◌⊎◌, Option-cases,
}
use ee461s_projects.Libc.Strings.{strlcpy}
use ee461s_projects.Libc.Strings.Texts.{NoNul, c_string, strlen_lem}
use ee461s_projects.Libc.Strings.Copies.{strlcpy_lem}
use ee461s_projects.Filesys.Inode.{Inode, inode_write_at}
use ee461s_projects.Filesys.Inode.Read.{byte_at}
use ee461s_projects.Filesys.Inode.Splice.{Wrote}
use ee461s_projects.Filesys.Inode.Write.{inode_write_at-Wrote}
use ee461s_projects.Filesys.Store.{FileSystem}
use ee461s_projects.Filesys.Directory.{
  Dir, entry_of, entry_name, entry_sector, lookup, dir_add, name_max,
}
use ee461s_projects.Filesys.Directory.Entries.{
  AllEntries, find, has_free, free_ofs, replace_free, find-replace_free, find-replace_free_other,
  replace_free-AllEntries,
}
use ee461s_projects.Filesys.Directory.Lookup.{
  IsOpenDir, entry_cnt, dir_entries, lookup_lem, free_loop_lem,
}
use ee461s_projects.Filesys.Directory.Slots.{
  length-range_of, free_ofs-inside, entries-write, u32-le32, new-length, new-IsEntry, new-matches,
  new-matches_other,
}

-- The end of dir_add, when the copy and the write are known.
finish :
    (m : Option (ℕ × List ℕ)) (write : List ℕ → Option (ℕ × FileSystem)) {c : ℕ × List ℕ}
    {fs' : FileSystem}
    → m ≡ some c
    → write c.1 ≡ some (20, fs')
    → ◌≡◌ {A = Option (Bool × FileSystem)}
        (m >>= λ copied. write copied.1 >>= λ w. some (w.0 == 20, w.1))
        (some (true, fs'))
finish m write e f = rw (e, f) refl

module _ {fs : FileSystem} {i : Inode} (dir : Dir) (t rest : List ℕ) (sector : ℕ) (junk : List ℕ)
    (o : IsOpenDir fs dir.inode i) (h : NoNul t) (all : AllEntries (dir_entries fs i)) where
  slot : ℕ
  slot = free_ofs (dir_entries fs i) 0

  old_name : List ℕ
  unfolding slot
  old_name = entry_name (range_of (byte_at fs.disk i) slot 20)

  added : List ℕ
  unfolding old_name
  added = entry_of sector (c_string t (drop (length t + 1) old_name)) 1

  after_add : FileSystem
  unfolding added
  after_add = record fs { disk = (inode_write_at fs.disk fs.bounce_ok i added 20 slot).1 }

  copied :
      length t ≤ 14
      → strlcpy old_name (c_string t rest) 15
        ≡ some (length t, c_string t (drop (length t + 1) old_name))
  unfolding old_name
  copied q =
      let e = range_of (byte_at fs.disk i) slot 20 in
      let n : min (length t) (15 - 1) ≡ length t = omega arith in
      strlcpy_lem old_name t rest 15 h (omega arith) (
        omega (
          arith,
          length-take 15 (drop 4 e),
          length-drop 4 e,
          length-range_of (byte_at fs.disk i) slot 20,
        ))
      ∙ rw (n, take_all (length t) t (omega arith)) refl

  added_name-length : length t ≤ 14 → length (c_string t (drop (length t + 1) old_name)) ≡ 15
  unfolding old_name
  added_name-length q =
      let e = range_of (byte_at fs.disk i) slot 20 in
      omega (
        arith,
        length-append t (0 ∷ drop (length t + 1) old_name),
        length-drop (length t + 1) old_name,
        length-take 15 (drop 4 e),
        length-drop 4 e,
        length-range_of (byte_at fs.disk i) slot 20,
      )

  module _ (p : 0 < length t) (q : length t ≤ 14) (free : has_free (dir_entries fs i) ≡ true)
      (absent : find t (dir_entries fs i) 0 ≡ none) where
    write_slot : List ℕ → Option (ℕ × FileSystem)
    write_slot name = some (
      (inode_write_at fs.disk fs.bounce_ok i (entry_of sector name 1) 20 slot).0,
      record fs {
        disk = (inode_write_at fs.disk fs.bounce_ok i (entry_of sector name 1) 20 slot).1;
      },
    )

    added-Wrote :
        ((inode_write_at fs.disk fs.bounce_ok i added 20 slot).0 ≡ 20)
        × Wrote fs.disk i added slot 20 0 (inode_write_at fs.disk fs.bounce_ok i added 20 slot).1
    unfolding added slot
    added-Wrote =
        let inside = free_ofs-inside fs.disk i 0 (entry_cnt i) free in
        let n : min 20 (i.inode_data.length - slot) ≡ 20 = omega arith in
        let l = added_name-length q in
        rw o.memory (
          let r =
            inode_write_at-Wrote fs.disk i added 20 slot o.valid o.allowed
              (omega (arith, new-length sector t (drop (length t + 1) old_name) l h)) in
          (
            r.0 ∙ n,
            subst
                (λ k.
                  Wrote fs.disk i added slot k 0 (inode_write_at fs.disk true i added 20 slot).1)
                n r.1,
          ))

    dir_add-runs : dir_add fs dir (c_string t rest) sector junk ≡ some (true, after_add)
    unfolding dir_add after_add slot old_name added write_slot
    dir_add-runs =
        let nz : (length t == 0) ≡ false = ground arith in
        let ng : ltb 14 (length t) ≡ false = ground arith in
        rw
          (
            strlen_lem t rest h,
            nz,
            ng,
            lookup_lem dir t rest o h all,
            absent,
            o.found,
            free_loop_lem o (suc i.inode_data.length) (entry_cnt i) 0 junk (omega arith)
                (omega arith) free,
          )
          (finish (strlcpy old_name (c_string t rest) 15) write_slot (copied q)
            (ap (λ n. some (n, after_add)) added-Wrote.0))

    entries-after_add : dir_entries after_add i ≡ replace_free added (dir_entries fs i)
    unfolding after_add added slot
    entries-after_add =
        entries-write added-Wrote.1 0 (entry_cnt i)
          (new-length sector t (drop (length t + 1) old_name) (added_name-length q) h) free refl

    after_add-IsOpenDir : IsOpenDir after_add dir.inode i
    unfolding after_add
    after_add-IsOpenDir = record {
      found = o.found;
      valid = added-Wrote.1.valid;
      memory = o.memory;
      allowed = o.allowed;
    }

    after_add-AllEntries : AllEntries (dir_entries after_add i)
    unfolding added
    after_add-AllEntries = subst AllEntries (sym entries-after_add) (
        replace_free-AllEntries added (dir_entries fs i)
          (new-IsEntry sector t (drop (length t + 1) old_name) (added_name-length q) h) all)

    lookup-added : lookup after_add dir (c_string t rest) ≡ some (some (added, slot))
    unfolding added slot
    lookup-added =
        lookup_lem dir t rest after_add-IsOpenDir h after_add-AllEntries
        ∙ ap (λ es. some (find t es 0)) entries-after_add
        ∙ ap some (
            find-replace_free t added (dir_entries fs i) 0
              (new-matches sector t (drop (length t + 1) old_name) (added_name-length q) h) free
              absent)

    lookup-other :
        (u rest' : List ℕ)
        → NoNul u
        → u ≢ t
        → lookup after_add dir (c_string u rest') ≡ lookup fs dir (c_string u rest')
    unfolding added
    lookup-other u rest' k ne =
        lookup_lem dir u rest' after_add-IsOpenDir k after_add-AllEntries
        ∙ ap (λ es. some (find u es 0)) entries-after_add
        ∙ ap some (
            find-replace_free_other u added (dir_entries fs i) 0 (
              new-matches_other sector t (drop (length t + 1) old_name) (added_name-length q) h u k
                ne))
        ∙ sym (lookup_lem dir u rest' o k all)

-- dir_add of a name of 1 to 14 characters that lookup does not find, in an open directory with a
-- free entry whose entries all hold a text, with writes not denied and malloc succeeding: it
-- returns true, and the directory's entries hold a text again. lookup then finds the name, with
-- the sector, and for each other name what it found before.
pub dir_add_lem :
    {fs : FileSystem} {i : Inode} (dir : Dir) (t rest : List ℕ) (sector : ℕ) (junk : List ℕ)
    → IsOpenDir fs dir.inode i
    → NoNul t
    → AllEntries (dir_entries fs i)
    → 0 < length t
    → length t ≤ name_max
    → sector < 2 ^ 32
    → has_free (dir_entries fs i) ≡ true
    → lookup fs dir (c_string t rest) ≡ some none
    → (fs' : FileSystem) × (e : List ℕ) × (ofs : ℕ) × (dir_add fs dir (c_string t rest) sector junk
        ≡ some (true, fs'))
      × IsOpenDir fs' dir.inode i
      × AllEntries (dir_entries fs' i)
      × (lookup fs' dir (c_string t rest) ≡ some (some (e, ofs)))
      × (entry_sector e ≡ sector)
      × ((u rest' : List ℕ)
          → NoNul u
          → u ≢ t
          → lookup fs' dir (c_string u rest') ≡ lookup fs dir (c_string u rest'))
unfolding added
dir_add_lem {fs} {i} dir t rest sector junk o h all p q s free absent =
    let gone : find t (dir_entries fs i) 0 ≡ none = cc (lookup_lem dir t rest o h all) in
    (
      after_add dir t rest sector junk o h all,
      added dir t rest sector junk o h all,
      slot dir t rest sector junk o h all,
      dir_add-runs dir t rest sector junk o h all p q free gone,
      after_add-IsOpenDir dir t rest sector junk o h all p q free gone,
      after_add-AllEntries dir t rest sector junk o h all p q free gone,
      lookup-added dir t rest sector junk o h all p q free gone,
      u32-le32 sector
          (c_string t (drop (length t + 1) (old_name dir t rest sector junk o h all)) ++ (1 ∷ []))
          s,
      lookup-other dir t rest sector junk o h all p q free gone,
    )

-- dir_add of an empty name, of one of more than 14 characters, or of one that is there already
-- returns false and changes nothing.
pub dir_add-refused :
    {fs : FileSystem} {i : Inode} (dir : Dir) (t rest : List ℕ) (sector : ℕ) (junk : List ℕ)
    → IsOpenDir fs dir.inode i
    → NoNul t
    → AllEntries (dir_entries fs i)
    → (length t ≡ 0) ⊎ ((name_max < length t) ⊎ (find t (dir_entries fs i) 0 ≢ none))
    → dir_add fs dir (c_string t rest) sector junk ≡ some (false, fs)
unfolding dir_add
dir_add-refused {fs} {i} dir t rest sector junk o h all (inl z) =
    ground (arith, strlen_lem t rest h)
dir_add-refused {fs} {i} dir t rest sector junk o h all (inr (inl l)) =
    ground (arith, strlen_lem t rest h)
dir_add-refused {fs} {i} dir t rest sector junk o h all (inr (inr ne)) =
    elim (Option-cases (find t (dir_entries fs i) 0)) [
      | inl e ↦ absurd (ne e)
      | inr (f, e) ↦ elim (Bool-cases (length t == 0 || ltb name_max (length t))) [
        | inl bad ↦ rw (strlen_lem t rest h, bad) refl
        | inr good ↦ rw (strlen_lem t rest h, good, lookup_lem dir t rest o h all, e) refl
      ]
    ]

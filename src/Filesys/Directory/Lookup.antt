-- ===== src/Filesys/Directory/Lookup.antt =====
-- filesys/directory.c: the loops of lookup and dir_add over the entries of a directory.
use ee461s_projects.Common.{
  ℕ, zero, suc, ◌+◌, ◌*◌, ◌-◌, ◌/◌, ◌≤◌, ◌<◌, ◌≡◌, refl, min, true, false, not, Option, none, some,
  List, [], arith, ◌==◌, if◌then◌else◌, ap, ◌∙◌, inl, inr, Bool-cases, range_of, ◌>>=◌,
}
use ee461s_projects.Libc.Strings.{Sign, negative, equal, positive, strcmp}
use ee461s_projects.Libc.Strings.Texts.{NoNul, c_string, strcmp-returns, strcmp-rest}
use ee461s_projects.Filesys.Inode.{Inode}
use ee461s_projects.Filesys.Inode.Read.{byte_at, IsDisk, inode_read_at_lem}
use ee461s_projects.Filesys.Store.{FileSystem}
use ee461s_projects.Filesys.Directory.{
  Dir, entry_name, entry_in_use, read_entry, lookup, lookup_loop, free_loop,
}
use ee461s_projects.Filesys.Directory.Entries.{
  entries, IsEntry, AllEntries, matches, is_equal, find, has_free, free_ofs,
}

-- The directory's inode is open and may be written, the disk is well formed, and memory for a bounce
-- buffer is there.
pub record IsOpenDir (fs : FileSystem) (inode : ℕ) (i : Inode) : Type 0 where
  pub found : fs.inodes inode ≡ some i
  pub valid : IsDisk fs.disk
  pub memory : fs.bounce_ok ≡ true
  pub allowed : i.deny_write_cnt ≡ 0

-- The number of whole entries in the file.
abbrev pub entry_cnt : Inode → ℕ
entry_cnt i = i.inode_data.length / 20

-- The entries of a directory.
abbrev pub dir_entries : FileSystem → Inode → List (List ℕ)
dir_entries fs i = entries fs.disk i 0 (entry_cnt i)

module _ {fs : FileSystem} {inode : ℕ} {i : Inode} (o : IsOpenDir fs inode i) where
  read_inside :
      (ofs : ℕ)
      → ofs + 20 ≤ i.inode_data.length
      → read_entry fs inode ofs ≡ some (20, range_of (byte_at fs.disk i) ofs 20)
  read_inside ofs h =
      let e : min 20 (i.inode_data.length - ofs) ≡ 20 = omega arith in
      rw (o.found, o.memory)
        (ap some (
          inode_read_at_lem fs.disk i 20 ofs o.valid
          ∙ ap (λ n. (n, range_of (byte_at fs.disk i) ofs n)) e))

  read_end :
      (ofs : ℕ)
      → i.inode_data.length < ofs + 20
      → (r : ℕ × List ℕ) × (read_entry fs inode ofs ≡ some r) × ((r.0 == 20) ≡ false)
  read_end ofs h =
      let n = min 20 (i.inode_data.length - ofs) in
      (
        (n, range_of (byte_at fs.disk i) ofs n),
        rw (o.found, o.memory) (ap some (inode_read_at_lem fs.disk i 20 ofs o.valid)),
        ground arith,
      )

  strcmp_entry :
      (t rest e : List ℕ)
      → NoNul t
      → IsEntry e
      → (r : Sign) × (strcmp (c_string t rest) (entry_name e) ≡ some r)
        × (is_equal (strcmp (c_string t []) (entry_name e)) ≡ is_equal (some r))
  strcmp_entry t rest e h (u, rest', k, q) =
      let r = strcmp-returns t u rest rest' h k in
      (
        r.0,
        rw q r.1,
        ap is_equal (ap (strcmp (c_string t [])) q ∙ strcmp-rest t u [] rest rest' rest' h k ∙ r.1),
      )

  -- One entry, when what the other entries give is known.
  lookup_round :
      (fuel : ℕ) (t rest e : List ℕ) (ofs : ℕ) (later : Option (List ℕ × ℕ)) (c : Sign)
      → strcmp (c_string t rest) (entry_name e) ≡ some c
      → is_equal (strcmp (c_string t []) (entry_name e)) ≡ is_equal (some c)
      → lookup_loop fuel fs inode (c_string t rest) (ofs + 20) ≡ some later
      → (if not (20 == 20)
          then some none
          else if entry_in_use e
          then (strcmp (c_string t rest) (entry_name e) >>= λ r. elim r [
            | equal ↦ some (some (e, ofs))
            | _ ↦ lookup_loop fuel fs inode (c_string t rest) (ofs + 20)
          ])
          else lookup_loop fuel fs inode (c_string t rest) (ofs + 20))
        ≡ some (if matches t e then some (e, ofs) else later)
  lookup_round fuel t rest e ofs later negative c m l = elim (Bool-cases (entry_in_use e)) [
    | inl u ↦ rw (u, c, m) l
    | inr z ↦ rw z l
  ]
  lookup_round fuel t rest e ofs later equal c m l = elim (Bool-cases (entry_in_use e)) [
    | inl u ↦ rw (u, c, m) refl
    | inr z ↦ rw z l
  ]
  lookup_round fuel t rest e ofs later positive c m l = elim (Bool-cases (entry_in_use e)) [
    | inl u ↦ rw (u, c, m) l
    | inr z ↦ rw z l
  ]

  lookup_loop_lem :
      (fuel n ofs : ℕ) (t rest : List ℕ)
      → NoNul t
      → ofs + n * 20 ≤ i.inode_data.length
      → i.inode_data.length < ofs + n * 20 + 20
      → n < fuel
      → AllEntries (entries fs.disk i ofs n)
      → lookup_loop fuel fs inode (c_string t rest) ofs
        ≡ some (find t (entries fs.disk i ofs n) ofs)
  unfolding lookup_loop
  lookup_loop_lem zero n ofs t rest h a b f all = absurd (omega arith)
  lookup_loop_lem (suc fuel) zero ofs t rest h a b f all =
      let r = read_end ofs (omega arith) in rw (r.1, r.2) refl
  lookup_loop_lem (suc fuel) (suc n) ofs t rest h a b f all =
      let e = range_of (byte_at fs.disk i) ofs 20 in
      let c = strcmp_entry t rest e h all.0 in
      let later =
        lookup_loop_lem fuel n (ofs + 20) t rest h (omega arith) (omega arith) (omega arith)
          all.1 in
      rw (read_inside ofs (omega arith)) (
        lookup_round fuel t rest e ofs (find t (entries fs.disk i (ofs + 20) n) (ofs + 20)) c.0 c.1
          c.2 later)

  pub free_loop_lem :
      (fuel n ofs : ℕ) (old : List ℕ)
      → ofs + n * 20 ≤ i.inode_data.length
      → n < fuel
      → has_free (entries fs.disk i ofs n) ≡ true
      → let w = free_ofs (entries fs.disk i ofs n) ofs in
        free_loop fuel fs inode old ofs ≡ some (range_of (byte_at fs.disk i) w 20, w)
  unfolding free_loop
  free_loop_lem zero n ofs old a f h = absurd (omega arith)
  free_loop_lem (suc fuel) zero ofs old a f h = cc
  free_loop_lem (suc fuel) (suc n) ofs old a f h =
      let e = range_of (byte_at fs.disk i) ofs 20 in
      rw (read_inside ofs (omega arith)) (elim (Bool-cases (entry_in_use e)) [
        | inl u ↦ rw u (free_loop_lem fuel n (ofs + 20) e (omega arith) (omega arith) (rw u at h))
        | inr z ↦ rw z refl
      ])

-- lookup finds the first entry in use with the name.
pub lookup_lem :
    {fs : FileSystem} {i : Inode} (dir : Dir) (t rest : List ℕ)
    → IsOpenDir fs dir.inode i
    → NoNul t
    → AllEntries (dir_entries fs i)
    → lookup fs dir (c_string t rest) ≡ some (find t (dir_entries fs i) 0)
unfolding lookup
lookup_lem {fs} {i} dir t rest o h all = rw o.found (
    lookup_loop_lem o (suc i.inode_data.length) (entry_cnt i) 0 t rest h (omega arith) (omega arith)
      (omega arith) all)

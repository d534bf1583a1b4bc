-- ===== src/Filesys/Inode/Splice.antt =====
-- One round of inode_write_at puts a chunk of the buffer into a sector.
use ee461s_projects.Common.{
  ℕ, ◌+◌, ◌-◌, ◌/◌, ◌%◌, ◌≤◌, ◌<◌, ◌≡◌, refl, sym, ap, ◌∙◌, subst, true, false, ◌&&◌, ◌||◌, inl,
  inr, ◌⊎◌, some, List, arith, ltb, leb, ◌==◌, Bool-cases, if◌then◌else◌, update, length, get_or,
  take, drop, memcpy, length-memcpy, get_or-memcpy, length-take, length-drop, get_or-take,
  get_or-drop, get_or_past,
}
use ee461s_projects.Filesys.Inode.{
  Disk, Inode, Chunk, block_sector_size, bytes_to_sectors, chunk_at, write_chunk,
}
use ee461s_projects.Filesys.Inode.Read.{byte_at, IsDisk, chunk_bounds}

-- `new` is the sector `old` with `n` of `bytes` put at `o`.
pub record Spliced (old new bytes : List ℕ) (o n : ℕ) : Type 0 where
  pub size : length new ≡ length old
  pub holds :
      (i : ℕ)
      → get_or new i 0
        ≡ (if leb o i && ltb i (o + n) then get_or bytes (i - o) 0 else get_or old i 0)

pub memcpy-Spliced :
    (old bytes : List ℕ) (o n : ℕ)
    → o + n ≤ length old
    → n ≤ length bytes
    → Spliced old (memcpy old o (take n bytes)) bytes o n
memcpy-Spliced old bytes o n p q = record {
  size = length-memcpy old o (take n bytes) (rw taken p);
  holds = λ i.
      ground (arith, get_or-memcpy old o (take n bytes) i, taken, get_or-take n (i - o) bytes 0);
}
  where
    taken : length (take n bytes) ≡ n
    taken = omega (arith, length-take n bytes)

-- A whole sector is such a splice too.
pub take-Spliced :
    (old bytes : List ℕ) (o n m : ℕ)
    → o ≡ 0
    → n ≡ m
    → m ≡ length old
    → m ≤ length bytes
    → Spliced old (take m bytes) bytes o n
take-Spliced old bytes o n m eo en p q = record {
  size = omega (arith, length-take m bytes);
  holds = λ i. ground (
    arith,
    get_or-take m i bytes 0,
    get_or_past (take m bytes) i 0,
    get_or_past old i 0,
    length-take m bytes,
  );
}

-- What the tests of a round say of its chunk.
pub chunk_tests :
    (c : Chunk)
    → 0 < c.chunk_size
    → c.sector_ofs + c.sector_left ≡ block_sector_size
    → c.chunk_size ≤ c.sector_left
    → (leb c.chunk_size 0 ≡ false)
      × (((c.sector_ofs == 0) && (c.chunk_size == block_sector_size)) ≡ true
          → (c.sector_ofs ≡ 0) × (c.chunk_size ≡ block_sector_size))
      × (((c.sector_ofs == 0) && (c.chunk_size == block_sector_size)) ≡ false
          → (ltb 0 c.sector_ofs || ltb c.chunk_size c.sector_left) ≡ true)
chunk_tests c p q r = (ground arith, λ h. ground arith, λ h. ground arith)

-- One round replaces one sector, by itself with the chunk put in.
pub write_chunk_lem :
    (disk : Disk) (c : Chunk) (bytes : List ℕ)
    → 0 < c.chunk_size
    → c.sector_ofs + c.sector_left ≡ block_sector_size
    → c.chunk_size ≤ c.sector_left
    → length (disk c.sector_idx) ≡ block_sector_size
    → c.chunk_size ≤ length bytes
    → (new : List ℕ) × (write_chunk disk true c bytes ≡ some (update disk c.sector_idx new))
      × Spliced (disk c.sector_idx) new bytes c.sector_ofs c.chunk_size
unfolding write_chunk
write_chunk_lem disk c bytes p q r w l =
    let (some_left, full, part) = chunk_tests c p q r in
    elim (Bool-cases ((c.sector_ofs == 0) && (c.chunk_size == block_sector_size))) [
      | inl e ↦ (
        take block_sector_size bytes,
        rw (some_left, e, write_chunk),
        take-Spliced (disk c.sector_idx) bytes c.sector_ofs c.chunk_size block_sector_size
            (full e).0 (full e).1 (sym w) (omega (arith, full e)),
      )
      | inr e ↦ (
        memcpy (disk c.sector_idx) c.sector_ofs (take c.chunk_size bytes),
        rw (some_left, e, part e, write_chunk),
        memcpy-Spliced (disk c.sector_idx) bytes c.sector_ofs c.chunk_size (omega arith) l,
      )
    ]

-- `disk'` differs from `disk` by the bytes of `buffer` from `written` on, put at `offset`.
pub record Wrote (disk : Disk) (inode : Inode) (buffer : List ℕ) (offset n written : ℕ)
    (disk' : Disk) : Type 0 where
  pub bytes :
      (pos : ℕ)
      → byte_at disk' inode pos ≡ (
          if leb offset pos && ltb pos (offset + n)
          then get_or buffer (written + (pos - offset)) 0
          else byte_at disk inode pos)
  pub others :
      (s : ℕ)
      → (s < inode.inode_data.start)
        ⊎ (inode.inode_data.start + bytes_to_sectors inode.inode_data.length ≤ s)
      → disk' s ≡ disk s
  pub valid : IsDisk disk'

pub splice-Wrote :
    (disk : Disk) (inode : Inode) (buffer : List ℕ) (offset n written idx : ℕ) (new : List ℕ)
    → IsDisk disk
    → idx ≡ inode.inode_data.start + offset / block_sector_size
    → 0 < n
    → offset % block_sector_size + n ≤ block_sector_size
    → offset + n ≤ inode.inode_data.length
    → Spliced (disk idx) new (drop written buffer) (offset % block_sector_size) n
    → Wrote disk inode buffer offset n written (update disk idx new)
unfolding bytes_to_sectors
splice-Wrote disk inode buffer offset n written idx new w e p q r spliced = record {
  bytes = λ pos.
      ground (
        arith,
        spliced.holds (pos % block_sector_size),
        get_or-drop written (pos - offset) buffer 0,
      );
  others = λ s out. ground arith;
  valid = λ s. ground (arith, spliced.size, w idx, w s);
}

pub Wrote-trans :
    (disk : Disk) (inode : Inode) (buffer : List ℕ) (offset n written m t : ℕ) (disk' disk'' : Disk)
    → n + m ≡ t
    → Wrote disk inode buffer offset n written disk'
    → Wrote disk' inode buffer (offset + n) m (written + n) disk''
    → Wrote disk inode buffer offset t written disk''
Wrote-trans disk inode buffer offset n written m t disk' disk'' e a b = record {
  bytes =
      λ pos. ground (arith, a.bytes pos, b.bytes pos, ap (λ k. get_or buffer k 0) (regroup pos));
  others = λ s out. b.others s out ∙ a.others s out;
  valid = b.valid;
}
  where
    regroup :
        (pos : ℕ)
        → written + n + (pos - (offset + n))
          ≡ (if leb (offset + n) pos then written + (pos - offset) else written + n)
    regroup pos = ground arith

pub Wrote-refl :
    (disk : Disk) (inode : Inode) (buffer : List ℕ) (offset n written : ℕ)
    → n ≡ 0
    → IsDisk disk
    → Wrote disk inode buffer offset n written disk
Wrote-refl disk inode buffer offset n written e w = record {
  bytes = λ pos. ground arith;
  others = λ s out. refl;
  valid = w;
}

pub chunk_shape :
    (inode : Inode) (size offset : ℕ)
    → let c = chunk_at inode size offset in
      (c.sector_ofs ≡ offset % block_sector_size)
      × (c.sector_left ≡ block_sector_size - offset % block_sector_size)
unfolding chunk_at
chunk_shape inode size offset = (refl, refl)

-- One round.
pub chunk-Wrote :
    (disk : Disk) (inode : Inode) (buffer : List ℕ) (size offset written : ℕ)
    → IsDisk disk
    → 0 < size
    → offset < inode.inode_data.length
    → written + size ≤ length buffer
    → let c = chunk_at inode size offset in
      (disk' : Disk) × (write_chunk disk true c (drop written buffer) ≡ some disk')
      × Wrote disk inode buffer offset c.chunk_size written disk'
chunk-Wrote disk inode buffer size offset written w p q l =
    let (pos, le_size, fits, in_sector, idx) = chunk_bounds inode size offset p q in
    let (ofs, left) = chunk_shape inode size offset in
    let c = chunk_at inode size offset in
    let (new, e, spliced) =
      write_chunk_lem disk c (drop written buffer) pos (omega arith) (omega arith) (w _)
        (omega (arith, length-drop written buffer)) in
    (
      update disk c.sector_idx new,
      e,
      splice-Wrote disk inode buffer offset c.chunk_size written c.sector_idx new w idx pos
          (rw ofs at in_sector) fits
          (subst (λ o. Spliced (disk c.sector_idx) new (drop written buffer) o c.chunk_size) ofs
            spliced),
    )

-- ===== src/Filesys/Inode/Read.antt =====
-- inode_read_at returns the bytes of the file from the offset on.
use ee461s_projects.Common.{
  ℕ, zero, suc, ◌+◌, ◌-◌, ◌/◌, ◌%◌, ◌≤◌, ◌<◌, min, ◌≡◌, refl, sym, ap, ap₂, ◌∙◌, Bool, true, false,
  ◌&&◌, inl, inr, none, some, List, [], ◌++◌, append_assoc, append-nil, arith, lt→ltb, not-lt→ltb,
  dec_lt, leb, ◌==◌, Bool-cases, length, get_or, take, drop, range_of, range_of-append,
  range_of-congr, take-drop-eq-range_of, take_all,
}
use ee461s_projects.Filesys.Inode.{
  Disk, Inode, Chunk, block_sector_size, chunk_at, read_chunk, read_loop, inode_read_at,
  byte_to_sector,
}

-- The byte of a file at an offset.
abbrev pub byte_at : Disk → Inode → ℕ → ℕ
byte_at disk inode pos =
    get_or (disk (inode.inode_data.start + pos / block_sector_size)) (pos % block_sector_size) 0

-- Every sector of the device has 512 bytes.
abbrev pub IsDisk : Disk → Type 0
IsDisk disk = (s : ℕ) → length (disk s) ≡ block_sector_size

-- What a round copies: at least one byte and none beyond the file, the request or the sector.
pub chunk_bounds :
    (inode : Inode) (size offset : ℕ)
    → 0 < size
    → offset < inode.inode_data.length
    → let c = chunk_at inode size offset in
      (0 < c.chunk_size)
      × (c.chunk_size ≤ size)
      × (offset + c.chunk_size ≤ inode.inode_data.length)
      × (c.sector_ofs + c.chunk_size ≤ block_sector_size)
      × (c.sector_idx ≡ inode.inode_data.start + offset / block_sector_size)
unfolding chunk_at byte_to_sector
chunk_bounds inode size offset p q = ground arith

pub chunk_end :
    (inode : Inode) (size offset : ℕ)
    → inode.inode_data.length ≤ offset
    → (chunk_at inode size offset).chunk_size ≡ 0
unfolding chunk_at
chunk_end inode size offset h = ground arith

-- The sectors are read at the bytes of the file.
sector_bytes :
    (disk : Disk) (inode : Inode) (offset n : ℕ)
    → IsDisk disk
    → offset % block_sector_size + n ≤ block_sector_size
    → take n (
        drop
          (offset % block_sector_size)
          (disk (inode.inode_data.start + offset / block_sector_size)))
      ≡ range_of (byte_at disk inode) offset n
sector_bytes disk inode offset n w h =
    take-drop-eq-range_of n (offset % block_sector_size)
      (disk (inode.inode_data.start + offset / block_sector_size))
      (omega (arith, w (inode.inode_data.start + offset / block_sector_size)))
    ∙ range_of-congr (λ i. get_or (disk (inode.inode_data.start + offset / block_sector_size)) i 0)
        (byte_at disk inode) (offset % block_sector_size) offset n
        (λ i l. ap₂ (λ s o. get_or (disk s) o 0) (omega arith) (omega arith))

slice_all : (o n : ℕ) (xs : List ℕ) → o ≡ 0 → length xs ≤ n → take n (drop o xs) ≡ xs
slice_all o n xs e h = rw e (take_all n xs h)

chunk_tests :
    (c : Chunk)
    → 0 < c.chunk_size
    → (leb c.chunk_size 0 ≡ false)
      × (((c.sector_ofs == 0) && (c.chunk_size == block_sector_size)) ≡ true
          → (c.sector_ofs ≡ 0) × (c.chunk_size ≡ block_sector_size))
chunk_tests c p = (ground arith, λ h. ground arith)

-- A full sector and a part of one are copied alike.
read_chunk_slice :
    (disk : Disk) (c : Chunk)
    → 0 < c.chunk_size
    → length (disk c.sector_idx) ≡ block_sector_size
    → read_chunk disk true c ≡ some (take c.chunk_size (drop c.sector_ofs (disk c.sector_idx)))
unfolding read_chunk
read_chunk_slice disk c p w =
    let (some_left, full) = chunk_tests c p in
    rw (some_left, read_chunk)
      (elim (Bool-cases ((c.sector_ofs == 0) && (c.chunk_size == block_sector_size))) [
        | inl e ↦ rw (e, read_chunk) (ap some (sym (slice_all _ _ _ (full e).0 (omega arith))))
        | inr e ↦ rw (e, read_chunk)
      ])

ofs_lem :
    (inode : Inode) (size offset : ℕ)
    → (chunk_at inode size offset).sector_ofs ≡ offset % block_sector_size
unfolding chunk_at
ofs_lem inode size offset = refl

pub chunk_none :
    (disk : Disk) (bounce_ok : Bool) (inode : Inode) (size offset : ℕ)
    → inode.inode_data.length ≤ offset
    → read_chunk disk bounce_ok (chunk_at inode size offset) ≡ none
unfolding read_chunk
chunk_none disk bounce_ok inode size offset h = ground (arith, chunk_end inode size offset h)

read_chunk_lem :
    (disk : Disk) (inode : Inode) (size offset : ℕ)
    → IsDisk disk
    → 0 < size
    → offset < inode.inode_data.length
    → read_chunk disk true (chunk_at inode size offset)
      ≡ some (range_of (byte_at disk inode) offset (chunk_at inode size offset).chunk_size)
read_chunk_lem disk inode size offset w p q =
    let (pos, le_size, fits, in_sector, idx) = chunk_bounds inode size offset p q in
    let ofs = ofs_lem inode size offset in
    read_chunk_slice disk (chunk_at inode size offset) pos (w _)
    ∙ ap some (
        rw (ofs, idx)
          (sector_bytes disk inode offset (chunk_at inode size offset).chunk_size w
            (rw ofs at in_sector)))

module _ (f : ℕ → ℕ) (done offset n : ℕ) (buffer : List ℕ) where
  stopped : n ≡ 0 → ◌≡◌ {A = ℕ × List ℕ} (done, buffer) (done + n, buffer ++ range_of f offset n)
  stopped e = rw e (ap₂ (λ a b. (a, b)) (omega arith) (sym (append-nil buffer)))

  extended :
      (c m : ℕ)
      → c + m ≡ n
      → ◌≡◌ {A = ℕ × List ℕ}
          (done + c + m, (buffer ++ range_of f offset c) ++ range_of f (offset + c) m)
          (done + n, buffer ++ range_of f offset n)
  extended c m e =
      ap₂ (λ a b. (a, b)) (omega arith)
        (append_assoc buffer (range_of f offset c) (range_of f (offset + c) m)
          ∙ ap (λ l. buffer ++ l) (range_of-append f offset c m ∙ ap (λ k. range_of f offset k) e))

-- With fuel for the request, the loop appends the bytes of the file that are left of it.
read_loop_lem :
    (fuel : ℕ) (disk : Disk) (inode : Inode) (size offset bytes_read : ℕ) (buffer : List ℕ)
    → IsDisk disk
    → size ≤ fuel
    → let n = min size (inode.inode_data.length - offset) in
      read_loop fuel disk true inode size offset bytes_read buffer
      ≡ (bytes_read + n, buffer ++ range_of (byte_at disk inode) offset n)
unfolding read_loop
read_loop_lem zero disk inode size offset bytes_read buffer w h =
    stopped (byte_at disk inode) bytes_read offset _ buffer (omega arith)
read_loop_lem (suc fuel) disk inode size offset bytes_read buffer w h = elim (dec_lt 0 size) [
  | yes more ↦
      rw (lt→ltb 0 size more, read_loop)
        (elim (dec_lt offset inode.inode_data.length) [
          | yes inside ↦
              let (pos, le_size, fits, in_sector, idx) =
                chunk_bounds inode size offset more inside in
              let c = (chunk_at inode size offset).chunk_size in
              rw (read_chunk_lem disk inode size offset w more inside, read_loop)
                (read_loop_lem fuel disk inode (size - c) (offset + c) (bytes_read + c)
                    (buffer ++ range_of (byte_at disk inode) offset c) w (omega arith)
                  ∙ extended (byte_at disk inode) bytes_read offset _ buffer c _ (omega arith))
          | no past ↦
              rw (chunk_none disk true inode size offset (omega arith), read_loop)
                (stopped (byte_at disk inode) bytes_read offset _ buffer (omega arith))
        ])
  | no done ↦
      rw (not-lt→ltb 0 size done, read_loop)
        (stopped (byte_at disk inode) bytes_read offset _ buffer (omega arith))
]

-- inode_read_at (inode, buffer, size, offset), when malloc succeeds, copies the bytes of the file
-- from `offset` on, as many as the request and the length of the file allow, and returns their
-- number.
pub inode_read_at_lem :
    (disk : Disk) (inode : Inode) (size offset : ℕ)
    → IsDisk disk
    → let n = min size (inode.inode_data.length - offset) in
      inode_read_at disk true inode size offset ≡ (n, range_of (byte_at disk inode) offset n)
unfolding inode_read_at
inode_read_at_lem disk inode size offset w =
    read_loop_lem size disk inode size offset 0 [] w (omega arith)
    ∙ ap₂ (λ a b. (a, b)) (omega arith) refl

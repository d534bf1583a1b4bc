-- ===== src/Filesys/Inode/Write.antt =====
-- inode_write_at changes exactly the bytes that it reports as written.
use ee461s_projects.Common.{
  ℕ, zero, suc, ◌+◌, ◌-◌, ◌≤◌, ◌<◌, min, ◌≡◌, sym, ap₂, ◌∙◌, Bool, true, false, ◌&&◌, none, List,
  arith, ltb, leb, lt→ltb, not-lt→ltb, dec_lt, if◌then◌else◌, length, get_or, take, drop, range_of,
  range_of-congr, take-drop-eq-range_of,
}
use ee461s_projects.Filesys.Inode.{
  Disk, Inode, chunk_at, write_chunk, write_loop, inode_write_at, inode_read_at,
}
use ee461s_projects.Filesys.Inode.Read.{byte_at, IsDisk, chunk_bounds, chunk_end, inode_read_at_lem}
use ee461s_projects.Filesys.Inode.Splice.{Wrote, Wrote-trans, Wrote-refl, chunk-Wrote}

write_chunk-none :
    (disk : Disk) (inode : Inode) (size offset : ℕ) (bytes : List ℕ)
    → inode.inode_data.length ≤ offset
    → write_chunk disk true (chunk_at inode size offset) bytes ≡ none
unfolding write_chunk
write_chunk-none disk inode size offset bytes h =
    let e : leb (chunk_at inode size offset).chunk_size 0 ≡ true =
      ground (arith, chunk_end inode size offset h) in
    rw (e, write_chunk)

-- What the loop has done when it stops.
abbrev Finished : Disk → Inode → List ℕ → (size offset written : ℕ) → ℕ × Disk → Type 0
Finished disk inode buffer size offset written (total, disk') =
    let n = min size (inode.inode_data.length - offset) in
    (total ≡ written + n) × Wrote disk inode buffer offset n written disk'

write_loop-Finished :
    (fuel : ℕ) (disk : Disk) (inode : Inode) (buffer : List ℕ) (size offset written : ℕ)
    → IsDisk disk
    → size ≤ fuel
    → written + size ≤ length buffer
    → Finished disk inode buffer size offset written
        (write_loop fuel disk true inode buffer size offset written)
unfolding write_loop
write_loop-Finished zero disk inode buffer size offset written w h l =
    (omega arith, Wrote-refl disk inode buffer offset _ written (omega arith) w)
write_loop-Finished (suc fuel) disk inode buffer size offset written w h l = elim (dec_lt 0 size) [
  | yes more ↦
      rw (lt→ltb 0 size more, write_loop)
        (elim (dec_lt offset inode.inode_data.length) [
          | yes inside ↦
              let (pos, le_size, fits, in_sector, idx) =
                chunk_bounds inode size offset more inside in
              let c = (chunk_at inode size offset).chunk_size in
              let (disk', e, wrote) =
                chunk-Wrote disk inode buffer size offset written w more inside l in
              let (total, rest) =
                write_loop-Finished fuel disk' inode buffer (size - c) (offset + c) (written + c)
                  wrote.valid (omega arith) (omega arith) in
              rw (e, write_loop)
                (
                  omega arith,
                  Wrote-trans disk inode buffer offset c written _ _ disk' _ (omega arith) wrote
                      rest,
                )
          | no past ↦
              rw
                (
                  write_chunk-none disk inode size offset (drop written buffer) (omega arith),
                  write_loop,
                )
                (omega arith, Wrote-refl disk inode buffer offset _ written (omega arith) w)
        ])
  | no done ↦
      rw (not-lt→ltb 0 size done, write_loop)
        (omega arith, Wrote-refl disk inode buffer offset _ written (omega arith) w)
]

-- With writes not denied and malloc succeeding, inode_write_at (inode, buffer, size, offset), for
-- a buffer of `size` bytes or more, writes as many bytes as the request and the length of the file
-- allow and returns their number; exactly those bytes of the file change, to the buffer's, and no
-- sector outside the file's changes.
pub inode_write_at-Wrote :
    (disk : Disk) (inode : Inode) (buffer : List ℕ) (size offset : ℕ)
    → IsDisk disk
    → inode.deny_write_cnt ≡ 0
    → size ≤ length buffer
    → let n = min size (inode.inode_data.length - offset) in
      ((inode_write_at disk true inode buffer size offset).0 ≡ n)
      × Wrote disk inode buffer offset n 0 (inode_write_at disk true inode buffer size offset).1
unfolding inode_write_at
inode_write_at-Wrote disk inode buffer size offset w allowed l =
    let e : ltb 0 inode.deny_write_cnt ≡ false = ground arith in
    let (total, wrote) =
      write_loop-Finished size disk inode buffer size offset 0 w (omega arith) (omega arith) in
    rw (e, if◌then◌else◌) (omega arith, wrote)

-- A denied write writes nothing, whatever malloc does.
pub inode_write_at-denied :
    (disk : Disk) (bounce_ok : Bool) (inode : Inode) (buffer : List ℕ) (size offset : ℕ)
    → 0 < inode.deny_write_cnt
    → inode_write_at disk bounce_ok inode buffer size offset ≡ (0, disk)
unfolding inode_write_at
inode_write_at-denied disk bounce_ok inode buffer size offset denied =
    rw (lt→ltb 0 inode.deny_write_cnt denied, if◌then◌else◌)

read_back :
    (disk disk' : Disk) (inode : Inode) (buffer : List ℕ) (offset n m k : ℕ)
    → Wrote disk inode buffer offset n 0 disk'
    → m ≡ n
    → k ≡ n
    → n ≤ length buffer
    → range_of (byte_at disk' inode) offset m ≡ take k buffer
read_back disk disk' inode buffer offset n m k wrote em ek l =
    rw (em, ek)
      (range_of-congr (byte_at disk' inode) (λ i. get_or buffer i 0) offset 0 n
          (λ i h. wrote.bytes (offset + i) ∙ first i h)
        ∙ sym (take-drop-eq-range_of n 0 buffer (omega arith)))
  where
    first :
        (i : ℕ)
        → i < n
        → (if leb offset (offset + i) && ltb (offset + i) (offset + n)
            then get_or buffer (0 + (offset + i - offset)) 0
            else byte_at disk inode (offset + i))
          ≡ get_or buffer (0 + i) 0
    first i h = ground arith

-- With writes not denied and malloc succeeding, what inode_write_at (inode, buffer, size, offset)
-- writes, for a buffer of `size` bytes or more, inode_read_at reads back: reading as
-- many bytes at the same offset gives the first bytes of the buffer.
pub read-write :
    (disk : Disk) (inode : Inode) (buffer : List ℕ) (size offset : ℕ)
    → IsDisk disk
    → inode.deny_write_cnt ≡ 0
    → size ≤ length buffer
    → let (n, disk') = inode_write_at disk true inode buffer size offset in
      inode_read_at disk' true inode n offset ≡ (n, take n buffer)
read-write disk inode buffer size offset w allowed l =
    let (e, wrote) = inode_write_at-Wrote disk inode buffer size offset w allowed l in
    let disk' = (inode_write_at disk true inode buffer size offset).1 in
    let n = (inode_write_at disk true inode buffer size offset).0 in
    inode_read_at_lem disk' inode n offset wrote.valid
    ∙ ap₂ (λ a b. (a, b)) (omega arith)
        (read_back disk disk' inode buffer offset _ _ n wrote (omega arith) e (omega arith))

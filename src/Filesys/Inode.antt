-- ===== src/Filesys/Inode.antt =====
-- filesys/inode.c: the inode, and reading and writing its data sector by sector.
-- `off_t` values are numbers below 2 ^ 31; `length - offset` stops at 0 where the source has a
-- negative number, and both end the loop at `chunk_size <= 0`.
pub mod Read
pub mod Splice
pub mod Write
mod Tests
use ee461s_projects.Common.{
  ℕ, zero, suc, ◌+◌, ◌-◌, ◌/◌, ◌%◌, ◌^◌, Bool, true, false, ◌&&◌, ◌||◌, not, Option, none, some,
  List, [], ◌++◌, ltb, leb, ◌==◌, if◌then◌else◌, update, take, drop, replicate, memcpy,
}

abbrev pub block_sector_size : ℕ
block_sector_size = 512

-- struct inode_disk, less the magic number and the unused words
pub record InodeDisk : Type 0 where
  pub start : ℕ
  pub length : ℕ

-- struct inode, less its list element
pub record Inode : Type 0 where
  pub sector : ℕ
  pub open_cnt : ℕ
  pub removed : Bool
  pub deny_write_cnt : ℕ
  -- the member `data`
  pub inode_data : InodeDisk

-- The block device: the bytes of each sector.
abbrev pub Disk : Type 0
Disk = ℕ → List ℕ

-- (block_sector_t) -1
abbrev pub no_sector : ℕ
no_sector = 2 ^ 32 - 1

unfoldable pub bytes_to_sectors : ℕ → ℕ
bytes_to_sectors size = (size + 511) / block_sector_size

unfoldable pub byte_to_sector : Inode → ℕ → ℕ
byte_to_sector inode pos =
    if ltb pos inode.inode_data.length
    then inode.inode_data.start + pos / block_sector_size
    else no_sector

-- What both loops compute for one round.
pub record Chunk : Type 0 where
  pub sector_idx : ℕ
  pub sector_ofs : ℕ
  pub sector_left : ℕ
  pub chunk_size : ℕ

pub chunk_at : Inode → (size offset : ℕ) → Chunk
unfolding byte_to_sector
chunk_at inode size offset = record {
  sector_idx = byte_to_sector inode offset;
  sector_ofs = offset % block_sector_size;
  sector_left = sector_left;
  chunk_size = if ltb size min_left then size else min_left;
}
  where
    inode_left : ℕ
    inode_left = inode.inode_data.length - offset

    sector_left : ℕ
    sector_left = block_sector_size - offset % block_sector_size

    min_left : ℕ
    min_left = if ltb inode_left sector_left then inode_left else sector_left

-- `bounce_ok` says whether `malloc (BLOCK_SECTOR_SIZE)` succeeds; it is called at most once.
-- The bytes that one round of inode_read_at copies to the buffer; `none` is its `break`.
pub read_chunk : Disk → Bool → Chunk → Option (List ℕ)
read_chunk disk bounce_ok c =
    if leb c.chunk_size 0
    then none
    else if (c.sector_ofs == 0) && (c.chunk_size == block_sector_size)
    then some (disk c.sector_idx)
    else if bounce_ok
    then some (take c.chunk_size (drop c.sector_ofs (disk c.sector_idx)))
    else none

-- The loop, on fuel: every round copies at least a byte, so `size` rounds are enough.
-- It returns `bytes_read` and the buffer's contents up to there.
pub read_loop : ℕ → Disk → Bool → Inode → (size offset bytes_read : ℕ) → List ℕ → ℕ × List ℕ
read_loop zero disk bounce_ok inode size offset bytes_read buffer = (bytes_read, buffer)
read_loop (suc fuel) disk bounce_ok inode size offset bytes_read buffer =
    let c = chunk_at inode size offset in
    elim (ltb 0 size) [
      | false ↦ (bytes_read, buffer)
      | true ↦ elim (read_chunk disk bounce_ok c) [
        | none ↦ (bytes_read, buffer)
        | some bytes ↦
            read_loop fuel disk bounce_ok inode (size - c.chunk_size) (offset + c.chunk_size)
              (bytes_read + c.chunk_size) (buffer ++ bytes)
      ]
    ]

unfoldable pub inode_read_at : Disk → Bool → Inode → (size offset : ℕ) → ℕ × List ℕ
unfolding chunk_at read_chunk read_loop
inode_read_at disk bounce_ok inode size offset =
    read_loop size disk bounce_ok inode size offset 0 []

-- One round of inode_write_at; `bytes` is what the buffer holds from `bytes_written` on.
pub write_chunk : Disk → Bool → Chunk → List ℕ → Option Disk
write_chunk disk bounce_ok c bytes =
    if leb c.chunk_size 0
    then none
    else if (c.sector_ofs == 0) && (c.chunk_size == block_sector_size)
    then some (update disk c.sector_idx (take block_sector_size bytes))
    else if bounce_ok
    then some (update disk c.sector_idx (memcpy bounce c.sector_ofs (take c.chunk_size bytes)))
    else none
  where
    bounce : List ℕ
    bounce =
        if ltb 0 c.sector_ofs || ltb c.chunk_size c.sector_left
        then disk c.sector_idx
        else replicate block_sector_size 0

pub write_loop : ℕ → Disk → Bool → Inode → List ℕ → (size offset bytes_written : ℕ) → ℕ × Disk
write_loop zero disk bounce_ok inode buffer size offset bytes_written = (bytes_written, disk)
write_loop (suc fuel) disk bounce_ok inode buffer size offset bytes_written =
    let c = chunk_at inode size offset in
    elim (ltb 0 size) [
      | false ↦ (bytes_written, disk)
      | true ↦ elim (write_chunk disk bounce_ok c (drop bytes_written buffer)) [
        | none ↦ (bytes_written, disk)
        | some disk' ↦
            write_loop fuel disk' bounce_ok inode buffer (size - c.chunk_size)
              (offset + c.chunk_size) (bytes_written + c.chunk_size)
      ]
    ]

unfoldable pub inode_write_at : Disk → Bool → Inode → List ℕ → (size offset : ℕ) → ℕ × Disk
unfolding chunk_at write_chunk write_loop
inode_write_at disk bounce_ok inode buffer size offset =
    if ltb 0 inode.deny_write_cnt
    then (0, disk)
    else write_loop size disk bounce_ok inode buffer size offset 0

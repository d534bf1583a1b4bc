-- ===== src/Filesys/Inode/Tests.antt =====
-- inode.c on a file of two sectors.
use ee461s_projects.Common.{
  ℕ, ◌≡◌, refl, true, false, List, [], ◌∷◌, arith, replicate, length-replicate, take, range_of,
}
use ee461s_projects.Filesys.Inode.{Disk, Inode, block_sector_size, inode_read_at, inode_write_at}
use ee461s_projects.Filesys.Inode.Read.{byte_at, IsDisk, inode_read_at_lem}
use ee461s_projects.Filesys.Inode.Splice.{Wrote}
use ee461s_projects.Filesys.Inode.Write.{inode_write_at-Wrote, read-write}

-- sectors of zeros
abbrev blank : Disk
blank = λ s. replicate block_sector_size 0

blank-IsDisk : IsDisk blank
blank-IsDisk s = length-replicate {A = ℕ} block_sector_size 0

abbrev small : Inode
small = record {
  sector = 5;
  open_cnt = 1;
  removed = false;
  deny_write_cnt = 0;
  inode_data = record { start = 10; length = 700 };
}

abbrev locked : Inode
locked = record small { deny_write_cnt = 1 }

abbrev word : List ℕ
word = 1 ∷ 2 ∷ 3 ∷ 4 ∷ []

-- four bytes across the end of the first sector, and past the end of the file
writes_across : (inode_write_at blank true small word 4 510).0 ≡ 4
unfolding inode_write_at
writes_across = refl

writes_to_end : (inode_write_at blank true small word 4 698).0 ≡ 2
unfolding inode_write_at
writes_to_end = refl

reads_across :
    inode_read_at (inode_write_at blank true small word 4 510).1 true small 6 509
    ≡ (6, 0 ∷ 1 ∷ 2 ∷ 3 ∷ 4 ∷ 0 ∷ [])
unfolding inode_write_at inode_read_at
reads_across = refl

inode_read_at_lem_example :
    inode_read_at blank true small 3 698 ≡ (2, range_of (byte_at blank small) 698 2)
inode_read_at_lem_example = inode_read_at_lem blank small 3 698 blank-IsDisk

inode_write_at-Wrote_example :
    ((inode_write_at blank true small word 4 510).0 ≡ 4)
    × Wrote blank small word 510 4 0 (inode_write_at blank true small word 4 510).1
inode_write_at-Wrote_example =
    inode_write_at-Wrote blank small word 4 510 blank-IsDisk refl (omega arith)

read-write_example :
    let (n, disk') = inode_write_at blank true small word 4 510 in
    inode_read_at disk' true small n 510 ≡ (n, take n word)
read-write_example = read-write blank small word 4 510 blank-IsDisk refl (omega arith)

-- ===== src/Filesys/Root/Reads.antt =====
-- bitmap_read gives back the bitmap that bitmap_write has put into a file.
use ee461s_projects.Common.{
  ℕ, zero, suc, ◌-◌, ◌*◌, ◌^◌, ◌<◌, ◌≡◌, refl, subst, ◌≤◌, sym, ap, ap₂, ◌∙◌, true, false, some,
  List, [], ◌∷◌, ◌++◌, length, ◌==◌, take, drop, take_all, append-nil, ==-self, get_or, bit_and,
  arith,
}
use ee461s_projects.KernelLib.Bitmap.{Bitmap, byte_cnt, elem_cnt, last_mask, set_elem}
use ee461s_projects.KernelLib.Bitmap.Words.{IsValid}
use ee461s_projects.Filesys.Inode.{Inode, inode_write_at, inode_read_at}
use ee461s_projects.Filesys.Inode.Read.{IsDisk}
use ee461s_projects.Filesys.Inode.Write.{read-write}
use ee461s_projects.Filesys.Store.{
  FileSystem, File, bytes_of, bitmap_write, file_write_at, file_read_at,
}
use ee461s_projects.Filesys.Root.{words_of, bitmap_read}

abbrev pub AllWords : List ℕ → Type 0
AllWords [] = Unit {0}
AllWords (w ∷ ws) = (w < 2 ^ 32) × AllWords ws

length-bytes_of : (ws : List ℕ) → length (bytes_of ws) ≡ 4 * length ws
length-bytes_of [] = refl
length-bytes_of (w ∷ ws) = omega (arith, length-bytes_of ws)

words_of-bytes_of : (ws : List ℕ) → AllWords ws → words_of (length ws) (bytes_of ws) ≡ ws
unfolding words_of
words_of-bytes_of [] all = refl
words_of-bytes_of (w ∷ ws) (small, all) =
    ap₂ (λ x xs. x ∷ xs) (omega arith) (words_of-bytes_of ws all)

set_elem_same : (ws : List ℕ) (i : ℕ) → set_elem ws i (get_or ws i 0) ≡ ws
set_elem_same [] i = refl
set_elem_same (w ∷ ws) zero = refl
set_elem_same (w ∷ ws) (suc i) = ap (λ xs. w ∷ xs) (set_elem_same ws i)

drop_all : (n : ℕ) (xs : List ℕ) → length xs ≤ n → drop n xs ≡ []
drop_all zero [] h = refl
drop_all zero (x ∷ xs) h = absurd (omega arith)
drop_all (suc n) [] h = refl
drop_all (suc n) (x ∷ xs) h = drop_all n xs (omega arith)

length-bits : (n : ℕ) (ws : List ℕ) → length ws ≡ elem_cnt n → length (bytes_of ws) ≡ byte_cnt n
unfolding byte_cnt
length-bits n ws l = length-bytes_of ws ∙ ap (λ k. 4 * k) l

-- A bitmap whose last word has no bits past the end.
abbrev pub IsTrimmed : Bitmap → Type 0
IsTrimmed b =
    bit_and (get_or b.bits (elem_cnt b.bit_cnt - 1) 0) (last_mask b)
    ≡ get_or b.bits (elem_cnt b.bit_cnt - 1) 0

words_back :
    (b : Bitmap) (rest : List ℕ)
    → IsValid b
    → AllWords b.bits
    → length (bytes_of rest) ≡ byte_cnt b.bit_cnt
    → words_of
        (elem_cnt b.bit_cnt)
        (take (byte_cnt b.bit_cnt) (bytes_of b.bits) ++ drop (byte_cnt b.bit_cnt) (bytes_of rest))
      ≡ b.bits
words_back b rest v all l =
    ap₂ words_of (sym v.words) (
      ap₂ (λ x y. x ++ y)
        (take_all (byte_cnt b.bit_cnt) (bytes_of b.bits)
          (omega (arith, length-bits b.bit_cnt b.bits v.words)))
        (drop_all (byte_cnt b.bit_cnt) (bytes_of rest) (omega (arith, l)))
      ∙ append-nil (bytes_of b.bits))
    ∙ words_of-bytes_of b.bits all

reads_bits :
    (fs : FileSystem) (file : ℕ) (b : Bitmap) (old : List ℕ)
    → 0 < b.bit_cnt
    → IsValid b
    → length (bytes_of old) ≡ byte_cnt b.bit_cnt
    → AllWords b.bits
    → IsTrimmed b
    → file_read_at fs file (byte_cnt b.bit_cnt) 0 ≡ some (byte_cnt b.bit_cnt, bytes_of b.bits)
    → bitmap_read fs (record b { bits = old }) file ≡ some (true, b)
unfolding bitmap_read last_mask
reads_bits fs file b old pos v l all trimmed r =
    let some_bits : (b.bit_cnt == 0) ≡ false = ground arith in
    rw (some_bits, bitmap_read)
      (rw (r, bitmap_read)
        (ap
            (λ ws. some (
              byte_cnt b.bit_cnt == byte_cnt b.bit_cnt,
              record b { bits = set_elem ws last (bit_and (get_or ws last 0) (last_mask b)) },
            ))
            (words_back b old v all l)
          ∙ ap₂ (λ ok bits. some (ok, record b { bits = bits })) (==-self (byte_cnt b.bit_cnt))
              (ap (set_elem b.bits last) trimmed ∙ set_elem_same b.bits last)))
  where
    last : ℕ
    last = elem_cnt b.bit_cnt - 1

-- A bitmap that bitmap_write has put into a file as a whole is what bitmap_read of the file then gives,
-- whatever the words were before, when the bits past the bitmap's end are zero.
pub bitmap_write-read :
    (fs : FileSystem) (file : ℕ) (f : File) (i : Inode) (b : Bitmap) (old : List ℕ)
    → fs.files file ≡ some f
    → fs.inodes f.inode ≡ some i
    → IsDisk fs.disk
    → fs.bounce_ok ≡ true
    → i.deny_write_cnt ≡ 0
    → 0 < b.bit_cnt
    → IsValid b
    → length old ≡ elem_cnt b.bit_cnt
    → AllWords b.bits
    → IsTrimmed b
    → (inode_write_at fs.disk true i (bytes_of b.bits) (byte_cnt b.bit_cnt) 0).0
      ≡ byte_cnt b.bit_cnt
    → (fs1 : FileSystem) × (bitmap_write fs b file ≡ some (true, fs1))
      × (bitmap_read fs1 (record b { bits = old }) file ≡ some (true, b))
unfolding bitmap_write file_write_at file_read_at
bitmap_write-read fs file f i b old ef ei disk bounce allowed pos v lo all trimmed whole =
    let w = inode_write_at fs.disk true i (bytes_of b.bits) (byte_cnt b.bit_cnt) 0 in
    let fs1 : FileSystem = record fs { disk = w.1 } in
    (
      fs1,
      rw (ef, bitmap_write)
          (rw (ei, bitmap_write) (rw (bounce, whole, ==-self (byte_cnt b.bit_cnt)) refl)),
      reads_bits fs1 file b old pos v (length-bits b.bit_cnt old lo) all trimmed
          (rw (ef, file_read_at) (rw (ei, file_read_at) (rw bounce (ap some read_again)))),
    )
  where
    fits : length (bytes_of b.bits) ≡ byte_cnt b.bit_cnt
    fits = length-bits b.bit_cnt b.bits v.words

    read_again :
        inode_read_at
          (inode_write_at fs.disk true i (bytes_of b.bits) (byte_cnt b.bit_cnt) 0).1
          true
          i
          (byte_cnt b.bit_cnt)
          0
        ≡ (byte_cnt b.bit_cnt, bytes_of b.bits)
    read_again =
        subst
          (λ n.
            inode_read_at (inode_write_at fs.disk true i (bytes_of b.bits) (byte_cnt b.bit_cnt) 0).1
              true i n 0
            ≡ (n, take n (bytes_of b.bits)))
          whole
          (read-write fs.disk i (bytes_of b.bits) (byte_cnt b.bit_cnt) 0 disk allowed
            (omega (arith, fits)))
        ∙ ap (λ xs. (byte_cnt b.bit_cnt, xs))
            (take_all (byte_cnt b.bit_cnt) (bytes_of b.bits) (omega (arith, fits)))

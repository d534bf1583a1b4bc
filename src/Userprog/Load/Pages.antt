-- ===== src/Userprog/Load/Pages.antt =====
-- The pages that load_segment maps: the file's bytes, and then zeros.
use ee461s_projects.Common.{
  ℕ, zero, suc, ◌+◌, ◌-◌, ◌*◌, ◌/◌, ◌%◌, ◌^◌, ◌<◌, ◌≤◌, min, ◌≡◌, ◌≢◌, refl, sym, ap, ap₂, ◌∙◌,
  Bool, true, false, not, ◌&&◌, ◌||◌, some, List, [], ◌∷◌, ◌++◌, ltb, ◌==◌, if◌then◌else◌, arith,
  replicate, range_of, range_of-append, range_of-congr, ==-self, Bool-cases, inl, inr,
}
use ee461s_projects.Filesys.Inode.{Inode, Disk, inode_read_at}
use ee461s_projects.Filesys.Inode.Read.{byte_at, IsDisk, inode_read_at_lem}
use ee461s_projects.Filesys.Store.{File, FileSystem, null, file_read_at}
use ee461s_projects.Filesys.File.{set_file, file_read, file_seek}
use ee461s_projects.Userprog.Load.{page_size, Segment, Page, load_loop, load_segment}

-- A file that can be read.
pub record IsFile (fs : FileSystem) (file : ℕ) (x : File) (i : Inode) : Type 0 where
  pub open_file : fs.files file ≡ some x
  pub open_inode : fs.inodes x.inode ≡ some i
  pub disk : IsDisk fs.disk
  pub memory : fs.bounce_ok ≡ true
  pub below_2gb : i.inode_data.length < 2 ^ 31

-- The pages from an address on with these contents.
abbrev pub pages_from : ℕ → (ℕ → ℕ) → ℕ → Bool → List Page
pages_from zero contents upage writable = []
pages_from (suc n) contents upage writable =
    record { upage = upage; bytes = range_of contents upage page_size; writable = writable }
    ∷ pages_from n contents (upage + page_size) writable

file_read_lem :
    (fs : FileSystem) (file : ℕ) (x : File) (i : Inode) (n : ℕ)
    → IsFile fs file x i
    → x.pos + n ≤ i.inode_data.length
    → let fs' = set_file fs file (record x { pos = (x.pos + n) % 2 ^ 32 }) in
      (file_read fs file n ≡ some ((n, range_of (byte_at fs.disk i) x.pos n), fs'))
      × IsFile fs' file (record x { pos = (x.pos + n) % 2 ^ 32 }) i
unfolding file_read file_read_at
file_read_lem fs file x i n f h =
    let fits : min n (i.inode_data.length - x.pos) ≡ n = omega arith in
    let e : inode_read_at fs.disk fs.bounce_ok i n x.pos
        ≡ (n, range_of (byte_at fs.disk i) x.pos n) =
      ap (λ b. inode_read_at fs.disk b i n x.pos) f.memory
      ∙ inode_read_at_lem fs.disk i n x.pos f.disk
      ∙ ap (λ k. (k, range_of (byte_at fs.disk i) x.pos k)) fits in
    (
      rw (f.open_file, file_read) (rw (f.open_inode, file_read) (rw (e, file_read) refl)),
      record {
        open_file = ground arith;
        open_inode = f.open_inode;
        disk = f.disk;
        memory = f.memory;
        below_2gb = f.below_2gb;
      },
    )

zeros-range_of :
    (n a : ℕ) (contents : ℕ → ℕ)
    → ((o : ℕ) → o < n → contents (a + o) ≡ 0)
    → replicate n 0 ≡ range_of contents a n
zeros-range_of zero a contents h = refl
zeros-range_of (suc n) a contents h =
    ap₂ (λ x xs. x ∷ xs) (sym (h 0 (omega arith)) ∙ ap contents (omega arith))
      (zeros-range_of n (a + 1) contents
        (λ o l. ap contents (omega arith) ∙ h (suc o) (omega arith)))

-- The contents of the memory from `upage` on: `read` bytes of the file at `pos`, and zeros.
abbrev pub Contents : (ℕ → ℕ) → (upage : ℕ) → Disk → Inode → (pos read : ℕ) → Type 0
Contents contents upage disk i pos read =
    (o : ℕ) → contents (upage + o) ≡ (if ltb o read then byte_at disk i (pos + o) else 0)

page_bytes :
    (contents : ℕ → ℕ) (upage : ℕ) (disk : Disk) (i : Inode) (pos read n : ℕ)
    → Contents contents upage disk i pos read
    → n ≡ min read page_size
    → range_of (byte_at disk i) pos n ++ replicate (page_size - n) 0
      ≡ range_of contents upage page_size
page_bytes contents upage disk i pos read n c e =
    ap₂ (λ xs ys. xs ++ ys)
      (range_of-congr (byte_at disk i) contents pos upage n (λ o l. ground (arith, c o)))
      (zeros-range_of (page_size - n) (upage + n) contents
        (λ o l. ap contents (omega arith) ∙ c (n + o) ∙ ground arith))
    ∙ range_of-append contents upage n (page_size - n)
    ∙ ap (range_of contents upage) whole
  where
    whole : n + (page_size - n) ≡ page_size
    whole = omega arith

-- One round.
load_round :
    (k : ℕ) (fs : FileSystem) (file : ℕ) (x : File) (i : Inode) (read rest_bytes upage n : ℕ)
    (writable : Bool) (fs' fs'' : FileSystem) (bytes : List ℕ) (pages : List Page)
    → n ≡ min read page_size
    → 0 < read + rest_bytes
    → file_read fs file n ≡ some ((n, bytes), fs')
    → load_loop k
        (λ a. true)
        (λ a. true)
        fs'
        file
        (read - n)
        ((rest_bytes + 2 ^ 32 - (page_size - n)) % 2 ^ 32)
        ((upage + page_size) % 2 ^ 32)
        writable
      ≡ some (true, pages, fs'')
    → load_loop (suc k) (λ a. true) (λ a. true) fs file read rest_bytes upage writable
      ≡ some (
        true,
        record { upage = upage; bytes = bytes ++ replicate (page_size - n) 0; writable = writable }
            ∷ pages,
        fs'',
      )
unfolding load_loop
load_round k fs file x i read rest_bytes upage n writable fs' fs'' bytes pages en pos e rest =
    let some_left : not (ltb 0 read || ltb 0 rest_bytes) ≡ false = ground arith in
    let chunk : (if ltb read page_size then read else page_size) ≡ n = ground arith in
    rw (some_left, chunk, load_loop)
      (rw (e, load_loop) (rw (==-self n, load_loop) (rw (rest, load_loop) refl)))

next_contents :
    (disk : Disk) (i : Inode) (pos read o : ℕ)
    → pos + read < 2 ^ 32
    → (if ltb (page_size + o) read then byte_at disk i (pos + (page_size + o)) else 0) ≡ (
        if ltb o (read - min read page_size)
        then byte_at disk i ((pos + min read page_size) % 2 ^ 32 + o)
        else 0)
next_contents disk i pos read o h = elim (Bool-cases (ltb (page_size + o) read)) [
  | inl e ↦ ground (arith, ap (byte_at disk i) (same e))
  | inr e ↦ ground arith
]
  where
    same :
        ltb (page_size + o) read ≡ true
        → pos + (page_size + o) ≡ (pos + min read page_size) % 2 ^ 32 + o
    same e = ground arith

load_loop_lem :
    (k : ℕ) (fs : FileSystem) (file : ℕ) (x : File) (i : Inode) (read rest_bytes upage : ℕ)
    (writable : Bool) (contents : ℕ → ℕ)
    → IsFile fs file x i
    → read + rest_bytes ≡ page_size * k
    → upage + page_size * k < 2 ^ 32
    → x.pos + read ≤ i.inode_data.length
    → Contents contents upage fs.disk i x.pos read
    → (fs' : FileSystem) × (load_loop k
          (λ a. true)
          (λ a. true)
          fs
          file
          read
          rest_bytes
          upage
          writable
        ≡ some (true, pages_from k contents upage writable, fs'))
unfolding load_loop
load_loop_lem zero fs file x i read rest_bytes upage writable contents f whole high fits c =
    let done : not (ltb 0 read || ltb 0 rest_bytes) ≡ true = ground arith in
    (fs, rw (done, load_loop) refl)
load_loop_lem (suc k) fs file x i read rest_bytes upage writable contents f whole high fits c =
    let n : ℕ = min read page_size in
    let (e, f') = file_read_lem fs file x i n f (omega arith) in
    let up : (upage + page_size) % 2 ^ 32 ≡ upage + page_size = omega arith in
    let pos : (x.pos + n) % 2 ^ 32 ≡ x.pos + n = omega (arith, f.below_2gb) in
    let left : (rest_bytes + 2 ^ 32 - (page_size - n)) % 2 ^ 32 ≡ rest_bytes - (page_size - n) =
      omega arith in
    let (fs'', rest) =
      load_loop_lem k (set_file fs file (record x { pos = (x.pos + n) % 2 ^ 32 })) file
        (record x { pos = (x.pos + n) % 2 ^ 32 }) i (read - n)
        ((rest_bytes + 2 ^ 32 - (page_size - n)) % 2 ^ 32) ((upage + page_size) % 2 ^ 32) writable
        contents f' (omega arith) (omega arith) (omega arith)
        (λ o.
          ap contents (omega arith)
          ∙ c (page_size + o)
          ∙ next_contents fs.disk i x.pos read o (omega (arith, f.below_2gb))) in
    (
      fs'',
      load_round k fs file x i read rest_bytes upage n writable _ fs'' _ _ refl (omega arith) e rest
          ∙ ap₂
              (λ bs a. some (
                true,
                record { upage = upage; bytes = bs; writable = writable }
                    ∷ pages_from k contents a writable,
                fs'',
              ))
              (page_bytes contents upage fs.disk i x.pos read n c refl) up,
    )

-- load_segment of a segment of whole pages below 4 GB that the file is long enough for, when all pages
-- and bounce buffers are allocated and install_page succeeds, ends after one round for each page, returns
-- true and maps its pages in order, which hold the file's bytes from its offset on and then zeros.
pub load_segment-Contents :
    (fs : FileSystem) (file : ℕ) (x : File) (i : Inode) (s : Segment) (contents : ℕ → ℕ)
    → IsFile fs file x i
    → file ≢ null
    → (s.read_bytes + s.zero_bytes) % page_size ≡ 0
    → s.mem_page % page_size ≡ 0
    → s.file_page % page_size ≡ 0
    → s.mem_page + (s.read_bytes + s.zero_bytes) < 2 ^ 32
    → s.file_page + s.read_bytes ≤ i.inode_data.length
    → Contents contents s.mem_page fs.disk i s.file_page s.read_bytes
    → (fs' : FileSystem) × (load_segment (λ a. true) (λ a. true) fs file s
        ≡ some (
          true,
          pages_from ((s.read_bytes + s.zero_bytes) / page_size) contents s.mem_page s.writable,
          fs',
        ))
unfolding load_segment file_seek
load_segment-Contents fs file x i s contents f nf whole am af high fits c =
    let x' : File = record x { pos = s.file_page } in
    let asserts : (((s.read_bytes + s.zero_bytes) % 2 ^ 32 % page_size == 0)
          && (s.mem_page % page_size == 0)
          && (s.file_page % page_size == 0))
        ≡ true =
      ground arith in
    let is_file : (file == null) ≡ false = ground arith in
    let seekable : ltb s.file_page (2 ^ 31) ≡ true = ground (arith, f.below_2gb) in
    let f' : IsFile (set_file fs file x') file x' i = record {
      open_file = ground arith;
      open_inode = f.open_inode;
      disk = f.disk;
      memory = f.memory;
      below_2gb = f.below_2gb;
    } in
    let (fs', e) =
      load_loop_lem ((s.read_bytes + s.zero_bytes) / page_size) (set_file fs file x') file x' i
        s.read_bytes s.zero_bytes s.mem_page s.writable contents f' (omega arith) (omega arith) fits
        c in
    (fs', rw (asserts, is_file, load_segment) (rw (seekable, f.open_file, load_segment) e))

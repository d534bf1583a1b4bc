-- ===== src/Userprog/Load.antt =====
-- Segments of an executable in userprog/process.c: validate_segment, what load computes from a program
-- header, and load_segment. Addresses and sizes are words of 32 bits; `& PGMASK` is the remainder by
-- the page size. `none` is a failed ASSERT or a failure of filesys/file.c.
pub mod Validate
pub mod Pages
mod Tests
use ee461s_projects.Common.{
  ℕ, zero, suc, ◌+◌, ◌-◌, ◌*◌, ◌/◌, ◌%◌, ◌^◌, Bool, true, false, not, ◌&&◌, ◌||◌, Option, none,
  some, List, [], ◌∷◌, ◌++◌, ltb, leb, ◌==◌, if◌then◌else◌, ◌>>=◌, bit_and, replicate,
}
pub use ee461s_projects.Threads.Vaddr.{page_size, phys_base}
use ee461s_projects.Filesys.Store.{FileSystem}
use ee461s_projects.Filesys.File.{file_read, file_seek}

-- struct Elf32_Phdr
pub record Phdr : Type 0 where
  pub p_offset : ℕ
  pub p_vaddr : ℕ
  pub p_filesz : ℕ
  pub p_memsz : ℕ
  pub p_flags : ℕ

abbrev pub round_up : ℕ → ℕ
round_up x = (x + page_size - 1) % 2 ^ 32 / page_size * page_size

unfoldable pub validate_segment : Phdr → (file_length : ℕ) → Bool
validate_segment p file_length =
    let end = (p.p_vaddr + p.p_memsz) % 2 ^ 32 in
    if not (p.p_offset % page_size == p.p_vaddr % page_size)
    then false
    else if ltb file_length p.p_offset
    then false
    else if ltb p.p_memsz p.p_filesz
    then false
    else if p.p_memsz == 0
    then false
    else if not (ltb p.p_vaddr phys_base)
    then false
    else if not (ltb end phys_base)
    then false
    else if ltb end p.p_vaddr
    then false
    else if ltb p.p_vaddr page_size
    then false
    else true

-- The arguments that load gives load_segment.
pub record Segment : Type 0 where
  pub file_page : ℕ
  pub mem_page : ℕ
  pub read_bytes : ℕ
  pub zero_bytes : ℕ
  pub writable : Bool

unfoldable pub segment_of : Phdr → Segment
segment_of p =
    let page_offset = p.p_vaddr % page_size in
    let read_bytes = if ltb 0 p.p_filesz then (page_offset + p.p_filesz) % 2 ^ 32 else 0 in
    record {
      file_page = p.p_offset - p.p_offset % page_size;
      mem_page = p.p_vaddr - p.p_vaddr % page_size;
      read_bytes = read_bytes;
      zero_bytes =
          if ltb 0 p.p_filesz
          then (round_up ((page_offset + p.p_memsz) % 2 ^ 32) + 2 ^ 32 - read_bytes) % 2 ^ 32
          else round_up ((page_offset + p.p_memsz) % 2 ^ 32);
      writable = not (bit_and p.p_flags 2 == 0);
    }

-- A page of user memory that install_page has mapped.
pub record Page : Type 0 where
  pub upage : ℕ
  pub bytes : List ℕ
  pub writable : Bool

-- The loop of load_segment, on fuel: every round maps a page, so as many rounds as pages are enough. A
-- loop whose test still holds when the fuel is used up is `none`.
-- `palloc_ok` and `install_ok` say what palloc_get_page and install_page give for an address.
unfoldable pub load_loop :
    ℕ
    → (palloc_ok install_ok : ℕ → Bool) → FileSystem
    → (file read_bytes zero_bytes upage : ℕ) → Bool
    → Option (Bool × List Page × FileSystem)
load_loop zero palloc_ok install_ok fs file read_bytes zero_bytes upage writable =
    if not (ltb 0 read_bytes || ltb 0 zero_bytes) then some (true, [], fs) else none
load_loop (suc fuel) palloc_ok install_ok fs file read_bytes zero_bytes upage writable =
    let page_read_bytes = if ltb read_bytes page_size then read_bytes else page_size in
    let page_zero_bytes = page_size - page_read_bytes in
    if not (ltb 0 read_bytes || ltb 0 zero_bytes)
    then some (true, [], fs)
    else if not (palloc_ok upage)
    then some (false, [], fs)
    else file_read fs file page_read_bytes >>= λ r.
        if not ((r.0).0 == page_read_bytes)
        then some (false, [], r.1)
        else if not (install_ok upage)
        then some (false, [], r.1)
        else load_loop fuel palloc_ok install_ok r.1 file (read_bytes - page_read_bytes)
            ((zero_bytes + 2 ^ 32 - page_zero_bytes) % 2 ^ 32) ((upage + page_size) % 2 ^ 32)
            writable
          >>= λ q. some (
            q.0,
            record {
              upage = upage;
              bytes = (r.0).1 ++ replicate page_zero_bytes 0;
              writable = writable;
            }
                ∷ q.1,
            q.2,
          )

unfoldable pub load_segment :
    (palloc_ok install_ok : ℕ → Bool)
    → FileSystem
    → (file : ℕ) → Segment
    → Option (Bool × List Page × FileSystem)
load_segment palloc_ok install_ok fs file s =
    if ((s.read_bytes + s.zero_bytes) % 2 ^ 32 % page_size == 0)
      && (s.mem_page % page_size == 0)
      && (s.file_page % page_size == 0)
    then (file_seek fs file s.file_page >>= λ fs'.
        load_loop ((s.read_bytes + s.zero_bytes) / page_size) palloc_ok install_ok fs' file
          s.read_bytes s.zero_bytes s.mem_page s.writable)
    else none

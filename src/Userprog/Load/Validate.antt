-- ===== src/Userprog/Load/Validate.antt =====
-- What validate_segment has to promise of the segment that load computes.
use ee461s_projects.Common.{ℕ, ◌+◌, ◌-◌, ◌%◌, ◌^◌, ◌<◌, ◌≤◌, ◌≡◌, ◌≢◌, true, arith}
use ee461s_projects.Userprog.Load.{
  Phdr, page_size, phys_base, validate_segment, Segment, segment_of,
}

-- The words of a program header.
pub record IsPhdr (p : Phdr) : Type 0 where
  pub offset : p.p_offset < 2 ^ 32
  pub vaddr : p.p_vaddr < 2 ^ 32
  pub filesz : p.p_filesz < 2 ^ 32
  pub memsz : p.p_memsz < 2 ^ 32

-- Whole pages of user memory without page 0, that hold the segment, with the file's bytes where the
-- header wants them.
pub record Loadable (p : Phdr) (s : Segment) : Type 0 where
  pub whole : (s.read_bytes + s.zero_bytes) % page_size ≡ 0
  pub aligned : (s.mem_page % page_size ≡ 0) × (s.file_page % page_size ≡ 0)
  pub seekable : s.file_page < 2 ^ 31
  pub above_page_0 : page_size ≤ s.mem_page
  pub below_kernel : s.mem_page + (s.read_bytes + s.zero_bytes) ≤ phys_base
  pub holds :
      (s.mem_page ≤ p.p_vaddr)
      × (p.p_vaddr + p.p_memsz ≤ s.mem_page + (s.read_bytes + s.zero_bytes))
  pub from_file :
      p.p_filesz ≢ 0
      → (s.mem_page + s.read_bytes ≡ p.p_vaddr + p.p_filesz)
        × (s.file_page + (p.p_vaddr - s.mem_page) ≡ p.p_offset)
  pub no_file : p.p_filesz ≡ 0 → s.read_bytes ≡ 0

record Facts (p : Phdr) (file_length : ℕ) : Type 0 where
  same_offset : p.p_offset % page_size ≡ p.p_vaddr % page_size
  in_file : p.p_offset ≤ file_length
  sizes : p.p_filesz ≤ p.p_memsz
  user : p.p_vaddr + p.p_memsz < phys_base
  not_page_0 : page_size ≤ p.p_vaddr

validate_segment-Facts :
    (p : Phdr) (file_length : ℕ)
    → IsPhdr p
    → validate_segment p file_length ≡ true
    → Facts p file_length
unfolding validate_segment
validate_segment-Facts p file_length w h = record {
  same_offset = ground arith;
  in_file = ground arith;
  sizes = ground arith;
  user = ground (arith, w.vaddr, w.memsz);
  not_page_0 = ground arith;
}

-- A segment that validate_segment lets pass, in a file below 2 GB, meets the ASSERTs of load_segment
-- and file_seek; its pages are user memory above page 0 and below PHYS_BASE without wrapping around,
-- hold the whole segment, and get the file's bytes at the addresses that the header names.
pub validate_segment-Loadable :
    (p : Phdr) (file_length : ℕ)
    → IsPhdr p
    → file_length < 2 ^ 31
    → validate_segment p file_length ≡ true
    → Loadable p (segment_of p)
unfolding segment_of
validate_segment-Loadable p file_length w l h =
    let f = validate_segment-Facts p file_length w h in
    record {
      whole = ground (arith, f.sizes, f.user);
      aligned = (omega arith, omega arith);
      seekable = omega (arith, f.in_file);
      above_page_0 = omega (arith, f.not_page_0);
      below_kernel = ground (arith, f.sizes, f.user);
      holds = (omega arith, ground (arith, f.sizes, f.user));
      from_file = λ n. (ground (arith, f.sizes, f.user), omega (arith, f.same_offset));
      no_file = λ e. ground arith;
    }

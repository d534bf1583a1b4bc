-- ===== src/Userprog/Load/Tests.antt =====
-- A program header of two pages, and a file of 700 bytes loaded into two pages.
use ee461s_projects.Common.{
  ℕ, ◌+◌, ◌-◌, ◌≡◌, refl, ap, true, false, none, some, [], ◌∷◌, ltb, ◌==◌, if◌then◌else◌, arith,
  replicate, length-replicate,
}
use ee461s_projects.Filesys.Inode.{Inode, Disk}
use ee461s_projects.Filesys.Inode.Read.{byte_at}
use ee461s_projects.Filesys.Store.{FileSystem, null}
use ee461s_projects.Userprog.Load.{Phdr, Segment, segment_of, validate_segment, load_segment}
use ee461s_projects.Userprog.Load.Validate.{Loadable, validate_segment-Loadable}
use ee461s_projects.Userprog.Load.Pages.{Contents, pages_from, load_segment-Contents}

abbrev header : Phdr
header = record { p_offset = 52; p_vaddr = 0x08048034; p_filesz = 600; p_memsz = 5000; p_flags = 6 }

valid : validate_segment header 700 ≡ true
unfolding validate_segment
valid = refl

-- A segment that ends at PHYS_BASE is refused.
at_the_end : validate_segment (record header { p_vaddr = 0xbfffe034; p_memsz = 8140 }) 700 ≡ false
unfolding validate_segment
at_the_end = refl

validate_segment-Loadable_example : Loadable header (segment_of header)
validate_segment-Loadable_example =
    validate_segment-Loadable header 700
      (record {
        offset = omega arith;
        vaddr = omega arith;
        filesz = omega arith;
        memsz = omega arith;
      })
      (omega arith) valid

abbrev program : Inode
program = record {
  sector = 5;
  open_cnt = 1;
  removed = false;
  deny_write_cnt = 0;
  inode_data = record { start = 10; length = 700 };
}

abbrev disk : Disk
disk = λ s. replicate 512 7

abbrev fs : FileSystem
fs = record {
  disk = disk;
  open_inodes = 100 ∷ [];
  inodes = λ a. if a == 100 then some program else none;
  files = λ f. if f == 1 then some (record { inode = 100; pos = 0; deny_write = false }) else none;
  free_map = record { bit_cnt = 64; bits = 3 ∷ 0 ∷ [] };
  free_map_file = null;
  bounce_ok = true;
}

abbrev segment : Segment
segment = record {
  file_page = 0;
  mem_page = 0x08048000;
  read_bytes = 652;
  zero_bytes = 7540;
  writable = true;
}

abbrev contents : ℕ → ℕ
contents a = if ltb (a - 0x08048000) 652 then byte_at disk program (0 + (a - 0x08048000)) else 0

contents-Contents : Contents contents 0x08048000 disk program 0 652
contents-Contents o = ap (λ k. if ltb k 652 then byte_at disk program (0 + k) else 0) (back o)
  where
    back : (o : ℕ) → 0x08048000 + o - 0x08048000 ≡ o
    back o = omega arith

load_segment-Contents_example :
    (fs' : FileSystem) × (load_segment (λ a. true) (λ a. true) fs 1 segment
      ≡ some (true, pages_from 2 contents 0x08048000 true, fs'))
load_segment-Contents_example =
    load_segment-Contents fs 1 (record { inode = 100; pos = 0; deny_write = false }) program segment
      contents
      (record {
        open_file = refl;
        open_inode = refl;
        disk = λ s. length-replicate {A = ℕ} 512 7;
        memory = refl;
        below_2gb = omega arith;
      })
      (λ e. omega arith) (omega arith) (omega arith) (omega arith) (omega arith) (omega arith)
      contents-Contents

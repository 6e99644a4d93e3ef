-- ===== src/Examples/Elf.antt =====
-- A file of 64 bits with one segment and two sections, of which the second has the names.
use smolforth.Base.{Gives, ℕ, ◌≡◌, refl, arith, codes, Option, none, some, Bool, same_text}
use smolforth.Memory.{Mem, get_byte, set_byte, load, store}
use smolforth.Elf.{
  Layout, File, process_section, process64l, get, put, or_flag, verify_size, last_entry, extend,
  with_names, find_section, same_name, mark_section, mark_segments, mark_segment,
}
use smolforth.Files.{bytes_at}
use smolforth.Elf.Inside.{LayoutFits, member}
use smolforth.Elf.Searched.{Returns}
use smolforth.Elf.Checked.{process64l-Returns}
use smolforth.Examples.Machines.{no_memory}

abbrev elf64 : Layout
elf64 = record {
  bits = 64;
  ehdr = 64;
  phdr = 56;
  shdr = 64;
  e_phoff = record { at = 32; size = 8 };
  e_phnum = record { at = 56; size = 2 };
  e_phentsize = record { at = 54; size = 2 };
  e_shoff = record { at = 40; size = 8 };
  e_shnum = record { at = 60; size = 2 };
  e_shentsize = record { at = 58; size = 2 };
  e_shstrndx = record { at = 62; size = 2 };
  sh_name = record { at = 0; size = 4 };
  sh_flags = record { at = 8; size = 8 };
  sh_offset = record { at = 24; size = 8 };
  sh_size = record { at = 32; size = 8 };
  p_flags = record { at = 4; size = 4 };
  p_offset = record { at = 8; size = 8 };
  p_filesz = record { at = 32; size = 8 };
  shf_write = 1;
  pf_w = 2;
}

-- The numbers of the header.
abbrev small_header : Mem
small_header =
    store 2
      (store 2
        (store 2 (store 2 (store 2 (store 8 (store 8 no_memory 32 64) 40 120) 54 56) 56 1) 58 64) 60
        2)
      62 1

abbrev small_file : File
small_file = record {
  mem = store 2 (store 8 (store 8 small_header 208 248) 216 2) 248 25185;
  size = 256;
}

elf64-LayoutFits : LayoutFits elf64
elf64-LayoutFits = (
  omega arith,
  omega arith,
  omega arith,
  omega arith,
  omega arith,
  omega arith,
  omega arith,
  omega arith,
  omega arith,
  omega arith,
  omega arith,
  omega arith,
  omega arith,
  omega arith,
  refl,
)

process64l-Returns_example :
    Gives (Returns elf64 small_file) (process64l elf64 (codes "ab") small_file)
unfolding load store get_byte set_byte
process64l-Returns_example =
    process64l-Returns elf64 (codes "ab") small_file elf64-LayoutFits (omega arith) (omega arith)
      (omega arith, omega arith, omega arith, omega arith, omega arith, omega arith)
      (omega arith, omega arith, omega arith, omega arith, omega arith, omega arith) (omega arith)
      (omega arith)

-- The first section gets its flag.
abbrev flag_of_first : Option (Bool × File) → ℕ
flag_of_first none = 0
flag_of_first (some r) = member elf64.sh_flags 120 r.1

first_section_writable : flag_of_first (process64l elf64 (codes "ab") small_file) ≡ 1
unfolding process64l process_section get put or_flag verify_size last_entry extend with_names
    find_section same_name mark_section mark_segments mark_segment load store get_byte set_byte
    same_text bytes_at
first_section_writable = refl

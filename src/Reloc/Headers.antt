-- ===== src/Reloc/Headers.antt =====
-- The section headers of the object that `save_obj` of reloc/obj.cpp writes. The numbers of <elf.h> and
-- its structures as bytes are a parameter.
use smolforth.Base.{ℕ, ◌+◌, ◌/◌, ◌%◌, ◌^◌, bit_and, bit_or, Bool, true, false, if◌then◌else◌, ◌==◌}
use smolforth.Base.{List, [], ◌∷◌, ◌++◌, length, codes}
use smolforth.Reloc.Tables.{Name, Target, width, minus}
use smolforth.Reloc.Names.{Section}
use smolforth.Reloc.Object.{Sym, Rela}

-- `ElfX_Shdr`
pub record Shdr : Type 0 where
  pub sh_name : ℕ
  pub sh_type : ℕ
  pub sh_flags : ℕ
  pub sh_addr : ℕ
  pub sh_offset : ℕ
  pub sh_size : ℕ
  pub sh_link : ℕ
  pub sh_info : ℕ
  pub sh_addralign : ℕ
  pub sh_entsize : ℕ

-- The fields of `header` that `save_obj` computes; the others are constants of the build.
pub record Ehdr : Type 0 where
  pub e_shoff : ℕ
  pub e_shnum : ℕ
  pub e_shstrndx : ℕ

pub record ElfFile : Type 0 where
  pub sht_null : ℕ
  pub sht_nobits : ℕ
  pub sht_progbits : ℕ
  pub sht_symtab : ℕ
  pub sht_rela : ℕ
  pub sht_strtab : ℕ
  pub shf_alloc : ℕ
  pub shf_write : ℕ
  pub shf_execinstr : ℕ
  pub ehdr_size : ℕ
  pub sym_size : ℕ
  pub rela_size : ℕ
  pub ehdr_bytes : Ehdr → List ℕ
  pub shdr_bytes : Shdr → List ℕ
  pub sym_bytes : Sym → List ℕ
  pub rela_bytes : Rela → List ℕ

-- The variables that grow with every section.
pub record Layout : Type 0 where
  pub sections : List Shdr
  pub sh_string_table : List ℕ
  pub next_file_pos : ℕ

abbrev pub is_set : ℕ → ℕ → Bool
is_set flags bits = if bit_and flags bits == 0 then false else true

-- `sh_size` and the steps of `next_file_pos`.
abbrev pub size_in : Target → ℕ → ℕ
size_in target n = n % 2 ^ width target

-- `sections.push_back(hdr)` with a name at the end of `.shstrtab`, and a part of the file or none.
unfoldable pub push_section : Target → Shdr → Name → Bool → Layout → Layout
push_section target hdr name in_file l =
    let named = record hdr { sh_name = length l.sh_string_table % 2 ^ 32 } in
    let placed = if in_file then record named { sh_offset = l.next_file_pos } else named in
    record {
      sections = l.sections ++ (placed ∷ []);
      sh_string_table = l.sh_string_table ++ name ++ (0 ∷ []);
      next_file_pos =
          if in_file then size_in target (l.next_file_pos + hdr.sh_size) else l.next_file_pos;
    }

abbrev pub null_shdr : ElfFile → Shdr
null_shdr elf = record {
  sh_name = 0;
  sh_type = elf.sht_null;
  sh_flags = 0;
  sh_addr = 0;
  sh_offset = 0;
  sh_size = 0;
  sh_link = 0;
  sh_info = 0;
  sh_addralign = 0;
  sh_entsize = 0;
}

abbrev pub add_flag : Bool → ℕ → ℕ → ℕ
add_flag b flag flags = if b then bit_or flags flag else flags

-- CDATA is 1, IDATA 2 and UDATA 4.
abbrev pub section_prefix : ℕ → Name
section_prefix flags =
    if is_set flags 1
    then codes ".text"
    else (if is_set flags 2 then codes ".data" else codes ".bss")

-- The header of a section, before its name and its place.
unfoldable pub section_header : Target → ElfFile → Section → Shdr
section_header target elf s = record (null_shdr elf) {
  sh_type = if is_set s.flags 3 then elf.sht_progbits else elf.sht_nobits;
  sh_flags = add_flag (is_set s.flags 1) elf.shf_execinstr (
      add_flag (is_set s.flags 2) elf.shf_write
        (add_flag (is_set s.flags 4) elf.shf_write elf.shf_alloc));
  sh_size = minus target s.end_ s.start;
  sh_addralign = width target / 8;
}

-- A header of a table of `n` bytes in the file.
abbrev pub table_header : Target → ElfFile → ℕ → ℕ → ℕ → ℕ → ℕ → ℕ → Shdr
table_header target elf type n link info align entsize = record (null_shdr elf) {
  sh_type = type;
  sh_size = size_in target n;
  sh_link = link;
  sh_info = info;
  sh_addralign = align;
  sh_entsize = entsize;
}

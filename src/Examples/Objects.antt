-- ===== src/Examples/Objects.antt =====
-- An object of one section of four bytes, with structures of a few bytes each.
use smolforth.Base.{
  ℕ, ◌+◌, ◌-◌, ◌^◌, ◌≡◌, refl, arith, some, take, List, [], ◌∷◌, ◌++◌, codes, length,
}
use smolforth.Reloc.Texts.{◌>>=◌, less_text}
use smolforth.Reloc.Main.{write_object}
use smolforth.Examples.Records.{glibc, glibc_symbols}
use smolforth.Reloc.Tables.{Name, x86_64}
use smolforth.Reloc.Names.{Section}
use smolforth.Reloc.Object
use smolforth.Reloc.Object.{Symbols}
use smolforth.Reloc.Headers.{ElfFile}
use smolforth.Reloc.Layout.{Relas, lay_out, file_bytes, file_header, bytes_of}
use smolforth.Reloc.Parts.{parts}
use smolforth.Reloc.File.{AllExact, lay_out-AllExact}

-- The numbers of <elf.h>, with short structures: only the sizes matter for where things are.
abbrev short_elf : ElfFile
short_elf = record {
  sht_null = 0;
  sht_nobits = 8;
  sht_progbits = 1;
  sht_symtab = 2;
  sht_rela = 4;
  sht_strtab = 3;
  shf_alloc = 2;
  shf_write = 1;
  shf_execinstr = 4;
  ehdr_size = 3;
  sym_size = 2;
  rela_size = 3;
  ehdr_bytes = λ h. h.e_shoff ∷ h.e_shnum ∷ h.e_shstrndx ∷ [];
  shdr_bytes = λ h. h.sh_name ∷ h.sh_offset ∷ [];
  sym_bytes = λ s. s.st_name ∷ s.st_value ∷ [];
  rela_bytes = λ r. r.r_offset ∷ r.r_info ∷ r.r_addend ∷ [];
}

abbrev four_bytes : List (ℕ × Section)
four_bytes = (0, record { flags = 1; start = 0x100; end_ = 0x104; name = codes "f" }) ∷ []

abbrev nops : Name → List ℕ
nops file = 0x90 ∷ 0x90 ∷ 0x90 ∷ 0xC3 ∷ []

abbrev one_rela : List Relas
one_rela =
    record {
      place = 1;
      name = codes "f";
      entries = (record { r_offset = 0; r_info = 1; r_addend = 0 }) ∷ [];
    }
    ∷ []

lay_out-AllExact_example :
    (let l = lay_out x86_64 short_elf four_bytes Object.no_symbols one_rela in
      let file = file_bytes short_elf nops four_bytes Object.no_symbols one_rela l in
      AllExact file l.sections
        (parts short_elf nops four_bytes Object.no_symbols one_rela l.sh_string_table)
      × (before : List ℕ) × (file ≡ before ++ bytes_of short_elf.shdr_bytes l.sections)
      × (length before ≡ (file_header l).e_shoff))
unfolding file_bytes lay_out
lay_out-AllExact_example =
    lay_out-AllExact x86_64 short_elf nops four_bytes Object.no_symbols one_rela
      ((λ h. refl), (λ s. refl), (λ r. refl), omega arith) ((λ h. refl), tt) (omega arith)

-- A section with a call of a word that another object defines.
abbrev one_call : List ℕ
one_call = codes "QUOTE f 1 SECTION 100 104 LIMIT\n100 0 7 QUOTE DUP 0 RELOC-EXECUTE\n"

-- The header, the section, two symbols, the entry at 1, and the names; then the section headers.
one_call_object :
    (write_object x86_64 glibc glibc_symbols short_elf nops one_call >>= λ o. some (take 24 o.1))
    ≡ some (
        62
        ∷ 6
        ∷ 5
        ∷ 0x90
        ∷ 0x90
        ∷ 0x90
        ∷ 0xC3
        ∷ 0
        ∷ 0
        ∷ 1
        ∷ 0
        ∷ 1
        ∷ (2 ^ 32 + 2)
        ∷ (2 ^ 64 - 4)
        ∷ 0
        ∷ 68
        ∷ 85
        ∷ 80
        ∷ 0
        ∷ 0
        ∷ 46
        ∷ 116
        ∷ 101
        ∷ 120
        ∷ [])
unfolding write_object less_text
one_call_object = refl

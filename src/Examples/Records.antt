-- ===== src/Examples/Records.antt =====
-- A few lines of out.txt for an x86-64 build, and the object that they lead to.
use smolforth.Base.{
  inr, ◌+◌, ◌-◌, ◌*◌, ◌^◌, false, ◌≡◌, refl, arith, Option, none, some, [], ◌∷◌, codes,
}
use smolforth.Reloc.Texts.{◌>>=◌, number_key}
use smolforth.Reloc.Map.{at}
use smolforth.Reloc.Tables.{x86_64, ElfTypes, Relocation, Name, add_relocation}
use smolforth.Reloc.Words.{Reader}
use smolforth.Reloc.Lines.{no_tables, read_tables, read_line, read_lines}
use smolforth.Reloc.Recorded.{Recorded, add_relocation-Recorded}
use smolforth.Reloc.Keeps.Lines.{read_lines-keeps}
use smolforth.Reloc.Names
use smolforth.Reloc.Names.{Link, Section}
use smolforth.Reloc.Object
use smolforth.Reloc.Object.{ElfSymbols, Symbols, Rela}
use smolforth.Reloc.Entries
use smolforth.Reloc.OutHeader.{out_header}
use smolforth.Reloc.Chain
use smolforth.Reloc.Chain.{
  IsSectionOf, in_any_section-IsSectionOf, Around, qualify_wordlist_name-joins, with_dollars,
}
use smolforth.Reloc.Refers.{RefersTo, make_rela-RefersTo}
use smolforth.Reloc.Binding.{IsSplit, build_symbols-IsSplit}

-- The numbers of glibc's <elf.h>.
abbrev pub glibc : ElfTypes
glibc = record {
  x86_64_64 = 1;
  x86_64_pc32 = 2;
  x86_64_gotpcrel = 9;
  riscv_32 = 1;
  riscv_64 = 2;
  riscv_call = 18;
  riscv_jal = 17;
  riscv_pcrel_hi20 = 23;
  riscv_pcrel_lo12_i = 24;
  riscv_got_hi20 = 20;
}

abbrev one_call : Name
one_call =
    codes
      "QUOTE .text 1 SECTION 400 500 LIMIT\n1A0 0 7 QUOTE DUP 0 RELOC-EXECUTE ( a call ) \\ rest"

one_call_relocations :
    (read_tables x86_64 glibc one_call >>= λ t. at 0x1A1 t.relocations)
    ≡ some (record {
      name = codes "DUP";
      addend = 18446744073709551612;
      type = 2;
      word_list = 7;
      local_ = 0;
    })
unfolding read_tables at
one_call_relocations = refl

abbrev fresh : Reader
fresh = record {
  tables = no_tables;
  wl_end = [];
  csection = [];
  wl_assocs = [];
  st = [];
  local_flag = 0;
  quoting = false;
}

abbrev reader_or_fresh : Option Reader → Reader
reader_or_fresh none = fresh
reader_or_fresh (some r) = r

abbrev call_line : Name
call_line = codes "1A0 0 7 QUOTE DUP 0 RELOC-EXECUTE"

abbrev after_call : Reader
after_call = reader_or_fresh (read_line x86_64 glibc call_line fresh)

abbrev to_dup : Relocation
to_dup = record { name = codes "DUP"; addend = 2 ^ 64 - 4; type = 2; word_list = 7; local_ = 0 }

abbrev next_line : Name
next_line = codes "1B0 0 7 QUOTE SWAP 0 RELOC-EXECUTE"

read_lines-keeps_example :
    at 0x1A1
      (reader_or_fresh (read_lines x86_64 glibc (next_line ∷ []) after_call)).tables.relocations
    ≡ some to_dup
unfolding read_lines read_line at
read_lines-keeps_example =
    read_lines-keeps x86_64 glibc (next_line ∷ []) after_call
      (reader_or_fresh (read_lines x86_64 glibc (next_line ∷ []) after_call)) 0x1A1 to_dup refl refl

-- The same place again, for another word.
other_line_fails :
    read_line x86_64 glibc (codes "1A0 0 7 QUOTE SWAP 0 RELOC-EXECUTE") after_call ≡ none
unfolding read_line
other_line_fails = refl

add_relocation-Recorded_example :
    Recorded 0x1A1 to_dup no_tables
      (add_relocation (codes "DUP") 7 (2 ^ 64 - 4) 0x1A1 2 0 no_tables)
add_relocation-Recorded_example =
    add_relocation-Recorded (codes "DUP") 7 (2 ^ 64 - 4) 0x1A1 2 0 no_tables

abbrev text_section : Section
text_section = record { flags = 1; start = 0x100; end_ = 0x200; name = codes "f" }

-- Three lists: FORTH at 1, which stands in itself, A at 2 in FORTH, and B at 3 in A; a word at 9 in B.
abbrev three_lists : Names.Lists
three_lists = record {
  assoc = (1, 1) ∷ (2, 1) ∷ (3, 2) ∷ (9, 3) ∷ [];
  names = (1, codes "FORTH") ∷ (2, codes "A") ∷ (3, codes "B") ∷ [];
  forth = 1;
}

-- What stands in A has "A$" in front.
three_lists-Around : Around three_lists 3 (codes "A" ∷ [])
unfolding at
three_lists-Around =
    Chain.inside 3 2 (codes "A") [] (refl, (λ e. omega arith), λ e. omega arith) refl
      (Chain.outermost 2 (inr (inr refl)))

three_lists_named : at 3 three_lists.names ≡ some (codes "B")
unfolding at
three_lists_named = refl

qualify_wordlist_name-joins_example :
    Names.qualify_wordlist_name three_lists 3 ≡ some (with_dollars (codes "A" ∷ []) (codes "B"))
qualify_wordlist_name-joins_example =
    qualify_wordlist_name-joins three_lists 3 (codes "A" ∷ []) (codes "B") three_lists-Around
      three_lists_named (omega arith)

-- A word at 9 in the list B, once the lists have their qualified names.
doubled_prefix :
    (Names.qualify_lists three_lists three_lists.names [] >>= λ qwl.
    Names.full_name (record three_lists { names = qwl }) 9 (codes "X"))
    ≡ some (codes "A$A$B$X")
unfolding Names.qualify_lists Names.full_name
doubled_prefix = refl

abbrev pub glibc_symbols : ElfSymbols
glibc_symbols = record {
  st_info = λ bind type. bind * 16 + type;
  r_info = λ i type. i * 2 ^ 32 + type;
  stb_local = 0;
  stb_global = 1;
  stt_func = 2;
  stt_notype = 0;
  stv_default = 0;
}

-- A section with a local word A, a hidden word B, and calls of both and of DUP.
abbrev small : Link
small = record {
  lists = three_lists;
  local_symbols = [];
  dup_symbols =
      (codes "A", record { addr = 0x110; word_addr = 7; local_ = 1 })
      ∷ (codes "B", record { addr = 0x120; word_addr = 7; local_ = 0 })
      ∷ [];
  globals = [];
  relocations = [];
  sections = (0, text_section) ∷ [];
  undefined = ((codes "DUP", 7), tt) ∷ [];
}

abbrev symbols_or_none : Option Symbols → Symbols
symbols_or_none none = Object.no_symbols
symbols_or_none (some b) = b

abbrev small_symbols : Symbols
small_symbols = symbols_or_none (Object.build_symbols x86_64 glibc_symbols small)

small_built : Object.build_symbols x86_64 glibc_symbols small ≡ some small_symbols
unfolding Object.build_symbols
small_built = refl

abbrev dup_entry : Rela
dup_entry = record { r_offset = 0xA1; r_info = 3 * 2 ^ 32 + 2; r_addend = 2 ^ 64 - 4 }

make_rela-RefersTo_example : RefersTo glibc_symbols small_symbols to_dup dup_entry
unfolding Object.build_symbols Entries.make_rela
make_rela-RefersTo_example =
    make_rela-RefersTo x86_64 glibc_symbols small small_symbols 0 0x1A1 to_dup dup_entry refl
      (omega arith) refl

build_symbols-IsSplit_example : IsSplit glibc_symbols small_symbols
build_symbols-IsSplit_example =
    build_symbols-IsSplit x86_64 glibc_symbols small small_symbols small_built

out_header_run :
    out_header ((codes "a", codes "x") ∷ (codes "b", codes "y") ∷ [])
    ≡ codes
        "#define sf_a_end a$x\nextern char a$x;\n#define sf_b_end b$y\nextern char b$y;\n#define SF_WL_EXPORT_COUNT 2\n#define SF_WL_EXPORTED &sf_a_end, &sf_b_end"
unfolding out_header
out_header_run = refl

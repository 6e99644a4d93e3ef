-- ===== src/Reloc/Layout.antt =====
-- The layout of the file that `save_obj` of reloc/obj.cpp writes, and its bytes. The files that hold
-- the sections are a parameter.
use smolforth.Base.{ℕ, zero, suc, ◌+◌, ◌-◌, ◌*◌, ◌%◌, ◌^◌, true, if◌then◌else◌}
use smolforth.Base.{Option, some, List, [], ◌∷◌, ◌++◌, length, codes}
use smolforth.Reloc.Texts.{◌>>=◌}
use smolforth.Reloc.Tables.{Name, Target, to_string}
use smolforth.Reloc.Names.{Section, Link}
use smolforth.Reloc.Object.{Rela, ElfSymbols, Symbols, build_symbols}
use smolforth.Reloc.Entries.{make_relas}
use smolforth.Reloc.Headers.{
  Shdr, Ehdr, ElfFile, Layout, is_set, push_section, section_header, section_prefix, table_header,
  null_shdr,
}

-- A section, named after what is in it.
abbrev pub section_name : Section → Name
section_name s = section_prefix s.flags ++ codes "." ++ s.name

-- One round of the loop over `section_limits`, and the loop.
unfoldable pub push_one : Target → ElfFile → Section → Layout → Layout
unfolding push_section section_header
push_one target elf s l =
    push_section target (section_header target elf s) (section_name s) (is_set s.flags 3) l

unfoldable pub push_sections : Target → ElfFile → List (ℕ × Section) → Layout → Layout
unfolding push_one
push_sections target elf [] l = l
push_sections target elf (e ∷ es) l = push_sections target elf es (push_one target elf e.1 l)

-- `section.sh_link = sections.size() + 1` of every header so far.
unfoldable pub link_all : ℕ → List Shdr → List Shdr
link_all n [] = []
link_all n (h ∷ hs) = record h { sh_link = n } ∷ link_all n hs

abbrev pub link_sections : Layout → Layout
link_sections l = record l { sections = link_all ((length l.sections + 1) % 2 ^ 32) l.sections }

-- What is known of the relocation entries of one section: its place and name, and the entries.
pub record Relas : Type 0 where
  pub place : ℕ
  pub name : Name
  pub entries : List Rela

-- `relocations_data_vector`, without the sections that have no entry.
unfoldable pub all_relas :
    Target → ElfSymbols → Link → Symbols → ℕ → List (ℕ × Section) → Option (List Relas)
unfolding make_relas
all_relas target elf link b i [] = some []
all_relas target elf link b i (e ∷ es) = do
  entries ← make_relas target elf link b.symbol_indices e.0 link.relocations
  rest ← all_relas target elf link b (i + 1) es
  some (with_entries (record { place = i + 1; name = e.1.name; entries = entries }) rest)
  where
    with_entries : Relas → List Relas → List Relas
    with_entries r rest = elim (r.entries) [ [] ↦ rest | _ ∷ _ ↦ r ∷ rest ]

-- The header of the relocation entries of a section, and those of all.
abbrev pub rela_header : Target → ElfFile → ℕ → Relas → Shdr
rela_header target elf symtab r =
    table_header target elf elf.sht_rela (length r.entries * elf.rela_size) symtab r.place 8
      elf.rela_size

unfoldable pub push_rela : Target → ElfFile → ℕ → Relas → Layout → Layout
unfolding push_section
push_rela target elf symtab r l =
    push_section target (rela_header target elf symtab r) (codes ".rela." ++ r.name) true l

unfoldable pub push_relas : Target → ElfFile → ℕ → List Relas → Layout → Layout
unfolding push_rela
push_relas target elf symtab [] l = l
push_relas target elf symtab (r ∷ rs) l =
    push_relas target elf symtab rs (push_rela target elf symtab r l)

unfoldable pub set_link : ℕ → ℕ → List Shdr → List Shdr
set_link i n [] = []
set_link zero n (h ∷ hs) = record h { sh_link = n } ∷ hs
set_link (suc i) n (h ∷ hs) = h ∷ set_link i n hs

abbrev pub start_layout : ElfFile → Layout
start_layout elf = record {
  sections = null_shdr elf ∷ [];
  sh_string_table = 0 ∷ [];
  next_file_pos = elf.ehdr_size;
}

-- The sections, all of which link to the string table.
unfoldable pub lay_sections : Target → ElfFile → List (ℕ × Section) → Layout
unfolding push_sections link_all
lay_sections target elf sections =
    link_sections (push_sections target elf sections (start_layout elf))

abbrev pub symtab_header : Target → ElfFile → Symbols → ℕ → Shdr
symtab_header target elf b symtab =
    table_header target elf elf.sht_symtab (length b.symbol_table * elf.sym_size)
      ((symtab + 1) % 2 ^ 32) ((1 + b.local_symbol_count) % 2 ^ 32) 0 elf.sym_size

-- The symbol table and the relocation entries.
unfoldable pub lay_tables : Target → ElfFile → Symbols → List Relas → Layout → Layout
unfolding push_section push_relas
lay_tables target elf b relas l =
    let symtab = length l.sections in
    push_relas target elf symtab relas
      (push_section target (symtab_header target elf b symtab) (codes ".symtab") true l)

-- A string table of `n` bytes.
abbrev pub strtab_header : Target → ElfFile → ℕ → Shdr
strtab_header target elf n = table_header target elf elf.sht_strtab n 0 0 1 0

-- `.strtab`, which the symbol table then links to.
unfoldable pub lay_strings : Target → ElfFile → ℕ → Symbols → Layout → Layout
unfolding push_section set_link
lay_strings target elf symtab b l =
    let strings =
      push_section target (strtab_header target elf (length b.string_table)) (codes ".strtab") true
        l in
    record strings {
      sections = set_link symtab ((length strings.sections - 1) % 2 ^ 32) strings.sections;
    }

-- `.shstrtab`, whose own name counts.
unfoldable pub lay_names : Target → ElfFile → Layout → Layout
unfolding push_section
lay_names target elf l =
    let size = length l.sh_string_table + length (codes ".shstrtab") + 1 in
    push_section target (strtab_header target elf size) (codes ".shstrtab") true l

unfoldable pub lay_out : Target → ElfFile → List (ℕ × Section) → Symbols → List Relas → Layout
unfolding lay_sections lay_tables lay_strings lay_names
lay_out target elf sections b relas =
    let l = lay_sections target elf sections in
    lay_names target elf
      (lay_strings target elf (length l.sections) b (lay_tables target elf b relas l))

unfoldable pub file_header : Layout → Ehdr
file_header l =
    let shnum = length l.sections % 2 ^ 16 in
    record {
      e_shoff = l.next_file_pos;
      e_shnum = shnum;
      e_shstrndx = (shnum + (2 ^ 16 - 1)) % 2 ^ 16;
    }

-- The bytes of a table, entry after entry.
unfoldable pub bytes_of {ℓ} : {A : Type ℓ} → (A → List ℕ) → List A → List ℕ
bytes_of f [] = []
bytes_of f (x ∷ xs) = f x ++ bytes_of f xs

-- What is copied from the files of the sections; `binary` is the contents of a file by its name.
unfoldable pub section_file : Section → Name
unfolding to_string
section_file s = codes "out." ++ s.name ++ codes "." ++ to_string s.flags ++ codes ".bin"

unfoldable pub section_bytes : (Name → List ℕ) → List (ℕ × Section) → List ℕ
unfolding section_file
section_bytes binary [] = []
section_bytes binary (e ∷ es) =
    let rest = section_bytes binary es in
    if is_set e.1.flags 3 then binary (section_file e.1) ++ rest else rest

-- out.o, as `fd` is written.
unfoldable pub file_bytes :
    ElfFile → (Name → List ℕ) → List (ℕ × Section) → Symbols → List Relas → Layout → List ℕ
unfolding file_header bytes_of section_bytes
file_bytes elf binary sections b relas l =
    elf.ehdr_bytes (file_header l)
    ++ section_bytes binary sections
    ++ bytes_of elf.sym_bytes b.symbol_table
    ++ bytes_of (λ r. bytes_of elf.rela_bytes r.entries) relas
    ++ b.string_table
    ++ l.sh_string_table
    ++ bytes_of elf.shdr_bytes l.sections

-- `save_obj` from its loops over the symbols on.
unfoldable pub save_obj : Target → ElfSymbols → ElfFile → (Name → List ℕ) → Link → Option (List ℕ)
unfolding build_symbols all_relas lay_out file_bytes
save_obj target symbols elf binary link = do
  b ← build_symbols target symbols link
  relas ← all_relas target symbols link b 0 link.sections
  let l = lay_out target elf link.sections b relas
  some (file_bytes elf binary link.sections b relas l)

-- ===== src/Reloc/File.antt =====
-- The file that is written agrees with its headers.
use smolforth.Base.{
  ℕ, ◌+◌, ◌%◌, ◌^◌, ◌<◌, ◌≡◌, refl, sym, ap, ◌∙◌, arith, true, none, some, List, [], ◌∷◌, ◌++◌,
  length, length-append, codes,
}
use smolforth.Reloc.Tables.{Name, Target, width}
use smolforth.Reloc.Names.{Section}
use smolforth.Reloc.Object.{Symbols}
use smolforth.Reloc.Headers.{Shdr, Layout, ElfFile, Ehdr, push_section}
use smolforth.Reloc.Layout as Laying
use smolforth.Reloc.Layout.{Relas, section_bytes, bytes_of, file_header, lay_out, file_bytes}
use smolforth.Reloc.Placed.{
  Part, IsPlaced, AllPlaced, IsLaid, AllPlaced-longer, push_section-IsLaid, link_all-AllPlaced,
  set_link-AllPlaced,
}
use smolforth.Reloc.Parts.{
  HasSizes, FilesFit, section_parts, rela_parts, parts, length-bytes_of, push_sections-IsLaid,
  push_relas-IsLaid,
}
use smolforth.Reloc.Offsets.{exact_below}
use native.Mathlib.Nat.{mod-eq_of_lt}

module _ (target : Target) (elf : ElfFile) where
  lay_sections-IsLaid :
      (binary : Name → List ℕ) (sections : List (ℕ × Section)) (header : Ehdr)
      → HasSizes target elf
      → FilesFit target binary sections
      → IsLaid target
          (elf.ehdr_bytes header ++ section_bytes binary sections)
          (Laying.lay_sections target elf sections)
          ((none ∷ []) ++ section_parts binary sections)
  unfolding Laying.lay_sections
  lay_sections-IsLaid binary sections header sizes fit =
      let start : length (elf.ehdr_bytes header) % 2 ^ width target ≡ elf.ehdr_size =
        ap (λ n. n % 2 ^ width target) (sizes.0 header) ∙ mod-eq_of_lt sizes.3 in
      let p =
        push_sections-IsLaid target elf binary sections (elf.ehdr_bytes header)
          (Laying.start_layout elf) (none ∷ []) fit ((tt, tt), start) in
      (link_all-AllPlaced (width target) _ _ _ _ p.0, p.1)

  lay_tables-IsLaid :
      (b : Symbols) (relas : List Relas) (out : List ℕ) (l : Layout) (cs : List Part)
      → HasSizes target elf
      → IsLaid target out l cs
      → IsLaid target
          (out
            ++ bytes_of elf.sym_bytes b.symbol_table
            ++ bytes_of (λ r. bytes_of elf.rela_bytes r.entries) relas)
          (Laying.lay_tables target elf b relas l)
          (cs ++ (some (bytes_of elf.sym_bytes b.symbol_table) ∷ []) ++ rela_parts elf relas)
  unfolding Laying.lay_tables
  lay_tables-IsLaid b relas out l cs sizes p =
      let syms = bytes_of elf.sym_bytes b.symbol_table in
      let size =
        ap (λ n. n % 2 ^ width target)
          (length-bytes_of elf.sym_bytes elf.sym_size b.symbol_table sizes.1) in
      let header = Laying.symtab_header target elf b (length l.sections) in
      push_relas-IsLaid target elf (length l.sections) relas (out ++ syms)
        (push_section target header (codes ".symtab") true l) (cs ++ (some syms ∷ [])) sizes.2
        (push_section-IsLaid target header (codes ".symtab") out syms l cs size p)

  lay_strings-IsLaid :
      (symtab : ℕ) (b : Symbols) (out : List ℕ) (l : Layout) (cs : List Part)
      → IsLaid target out l cs
      → IsLaid target
          (out ++ b.string_table)
          (Laying.lay_strings target elf symtab b l)
          (cs ++ (some b.string_table ∷ []))
  unfolding Laying.lay_strings
  lay_strings-IsLaid symtab b out l cs p =
      let q =
        push_section-IsLaid target (Laying.strtab_header target elf (length b.string_table))
          (codes ".strtab") out b.string_table l cs refl p in
      (set_link-AllPlaced (width target) _ symtab _ _ _ q.0, q.1)

  -- The section names at the end.
  abbrev names_of : Layout → List ℕ
  names_of l = (Laying.lay_names target elf l).sh_string_table

  lay_names-IsLaid :
      (out : List ℕ) (l : Layout) (cs : List Part)
      → IsLaid target out l cs
      → IsLaid target
          (out ++ names_of l)
          (Laying.lay_names target elf l)
          (cs ++ (some (names_of l) ∷ []))
  unfolding Laying.lay_names push_section
  lay_names-IsLaid out l cs p =
      let name = codes ".shstrtab" in
      let table = l.sh_string_table in
      let a = length-append (table ++ name) (0 ∷ []) in
      let c = length-append table name in
      let size : length (table ++ name ++ (0 ∷ [])) ≡ length table + length name + 1 =
        omega (arith, a, c) in
      let header = Laying.strtab_header target elf (length table + length name + 1) in
      push_section-IsLaid target header name out (table ++ name ++ (0 ∷ [])) l cs
        (ap (λ n. n % 2 ^ width target) size) p

  -- All parts but the header and the section headers, in one run.
  lay_out-IsLaid :
      (binary : Name → List ℕ) (sections : List (ℕ × Section)) (b : Symbols) (relas : List Relas)
      (header : Ehdr)
      → HasSizes target elf
      → FilesFit target binary sections
      → IsLaid target
          (elf.ehdr_bytes header
            ++ section_bytes binary sections
            ++ bytes_of elf.sym_bytes b.symbol_table
            ++ bytes_of (λ r. bytes_of elf.rela_bytes r.entries) relas
            ++ b.string_table
            ++ (lay_out target elf sections b relas).sh_string_table)
          (lay_out target elf sections b relas)
          (parts elf binary sections b relas (lay_out target elf sections b relas).sh_string_table)
  unfolding lay_out parts
  lay_out-IsLaid binary sections b relas header sizes fit =
      let l = Laying.lay_sections target elf sections in
      let tables = Laying.lay_tables target elf b relas l in
      let strings = Laying.lay_strings target elf (length l.sections) b tables in
      lay_names-IsLaid _ strings _ (
        lay_strings-IsLaid (length l.sections) b _ tables _ (
          lay_tables-IsLaid b relas _ l _ sizes
            (lay_sections-IsLaid binary sections header sizes fit)))

-- A header with the offset and the size of its part of the file.
abbrev pub IsExact : List ℕ → Shdr → Part → Type 0
IsExact s h none = Unit {0}
IsExact s h (some c) =
    (before : List ℕ) × (after : List ℕ) × (s ≡ before ++ c ++ after)
    × (length before ≡ h.sh_offset)
    × (length c ≡ h.sh_size)

abbrev pub AllExact : List ℕ → List Shdr → List Part → Type 0
AllExact s [] [] = Unit {0}
AllExact s (h ∷ hs) (c ∷ cs) = IsExact s h c × AllExact s hs cs
AllExact s _ _ = ⊥

IsPlaced-IsExact :
    (bits : ℕ) (s : List ℕ) (h : Shdr) (c : Part)
    → length s < 2 ^ bits
    → IsPlaced bits s h c
    → IsExact s h c
IsPlaced-IsExact bits s h none short p = tt
IsPlaced-IsExact bits s h (some c) short p =
    let at = p.0 in
    let l1 = length-append (at.0 ++ c) at.1 in
    let l2 = length-append at.0 c in
    let whole = ap length at.2 in
    let fits : length c < 2 ^ bits = omega (arith, l1, l2, whole) in
    (
      at.0,
      at.1,
      at.2,
      exact_below bits s at.0 at.1 c at.2 short at.3,
      sym (mod-eq_of_lt fits) ∙ p.1,
    )

AllPlaced-AllExact :
    (bits : ℕ) (s : List ℕ) (hs : List Shdr) (cs : List Part)
    → length s < 2 ^ bits
    → AllPlaced bits s hs cs
    → AllExact s hs cs
AllPlaced-AllExact bits s [] [] short p = tt
AllPlaced-AllExact bits s [] (c ∷ cs) short p = elim p [ ]
AllPlaced-AllExact bits s (h ∷ hs) [] short p = elim p [ ]
AllPlaced-AllExact bits s (h ∷ hs) (c ∷ cs) short p =
    (IsPlaced-IsExact bits s h c short p.0, AllPlaced-AllExact bits s hs cs short p.1)

at_end :
    (bits : ℕ) (out rest : List ℕ) {n : ℕ}
    → length (out ++ rest) < 2 ^ bits
    → length out % 2 ^ bits ≡ n
    → (before : List ℕ) × (out ++ rest ≡ before ++ rest) × (length before ≡ n)
at_end bits out rest short h =
    let l = length-append out rest in
    let fits : length out < 2 ^ bits = omega (arith, l) in (out, refl, sym (mod-eq_of_lt fits) ∙ h)

-- The file that is written agrees with its headers: every section with contents, the symbol table,
-- the relocation entries of every section, and both string tables stand at the offset and have the
-- size that their header says, and the section headers stand at `e_shoff`. This is so when the file
-- of every section is as long as the section, the structures have their sizes, and the whole file is
-- shorter than an offset can count.
pub lay_out-AllExact :
    (target : Target) (elf : ElfFile) (binary : Name → List ℕ) (sections : List (ℕ × Section))
    (b : Symbols) (relas : List Relas)
    → HasSizes target elf
    → FilesFit target binary sections
    → length (file_bytes elf binary sections b relas (lay_out target elf sections b relas))
      < 2 ^ width target
    → (let l = lay_out target elf sections b relas in
        let file = file_bytes elf binary sections b relas l in
        AllExact file l.sections (parts elf binary sections b relas l.sh_string_table)
        × (before : List ℕ) × (file ≡ before ++ bytes_of elf.shdr_bytes l.sections)
        × (length before ≡ (file_header l).e_shoff))
unfolding file_bytes file_header
lay_out-AllExact target elf binary sections b relas sizes fit short =
    let w = width target in
    let l = lay_out target elf sections b relas in
    let shdrs = bytes_of elf.shdr_bytes l.sections in
    let p = lay_out-IsLaid target elf binary sections b relas (file_header l) sizes fit in
    let last = at_end w _ shdrs short p.1 in
    (
      AllPlaced-AllExact w _ l.sections _ short (AllPlaced-longer w _ shdrs l.sections _ p.0),
      last.0,
      last.1,
      last.2,
    )

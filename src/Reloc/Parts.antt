-- ===== src/Reloc/Parts.antt =====
-- Every section header of an object says where its part of the file is, and how long.
use smolforth.Base.{
  ℕ, ◌+◌, ◌-◌, ◌*◌, ◌%◌, ◌^◌, ◌<◌, ◌≡◌, refl, sym, ap, ◌∙◌, arith, Bool, true, false, if◌then◌else◌,
  none, some, List, [], ◌∷◌, ◌++◌, length, length-append, codes,
}
use smolforth.Reloc.Tables.{Name, Target, width, minus}
use smolforth.Reloc.Names.{Section}
use smolforth.Reloc.Object.{Sym, Rela, Symbols}
use smolforth.Reloc.Headers
use smolforth.Reloc.Headers.{Shdr, Layout, ElfFile, Ehdr, is_set, push_section}
use smolforth.Reloc.Layout as Laying
use smolforth.Reloc.Layout.{Relas, section_file, section_bytes, bytes_of}
use smolforth.Reloc.Placed.{Part, IsLaid, push_section-apart, push_section-IsLaid}
use mathlib.Core.Path.{subst}
use mathlib.Core.List.{append-nil, append_assoc}
use native.Mathlib.Nat.{mod-mod, suc-mul}

-- The sizes of the structures of <elf.h> are those of their bytes.
abbrev pub HasSizes : Target → ElfFile → Type 0
HasSizes target elf =
    ((h : Ehdr) → length (elf.ehdr_bytes h) ≡ elf.ehdr_size)
    × ((s : Sym) → length (elf.sym_bytes s) ≡ elf.sym_size)
    × ((r : Rela) → length (elf.rela_bytes r) ≡ elf.rela_size)
    × (elf.ehdr_size < 2 ^ width target)

-- The file of every section that has one is as long as the section.
abbrev pub FilesFit : Target → (Name → List ℕ) → List (ℕ × Section) → Type 0
FilesFit target binary [] = Unit {0}
FilesFit target binary (e ∷ es) =
    (is_set e.1.flags 3 ≡ true
      → length (binary (section_file e.1)) ≡ minus target e.1.end_ e.1.start)
    × FilesFit target binary es

-- The parts of the file that the headers are to describe: nothing for the null header and for a
-- section without contents.
unfoldable pub section_parts : (Name → List ℕ) → List (ℕ × Section) → List Part
section_parts binary [] = []
section_parts binary (e ∷ es) =
    let rest = section_parts binary es in
    (if is_set e.1.flags 3 then some (binary (section_file e.1)) else none) ∷ rest

unfoldable pub rela_parts : ElfFile → List Relas → List Part
rela_parts elf [] = []
rela_parts elf (r ∷ rs) = some (bytes_of elf.rela_bytes r.entries) ∷ rela_parts elf rs

unfoldable pub parts :
    ElfFile → (Name → List ℕ) → List (ℕ × Section) → Symbols → List Relas → List ℕ → List Part
unfolding section_parts rela_parts
parts elf binary sections b relas names =
    (none ∷ [])
    ++ section_parts binary sections
    ++ (some (bytes_of elf.sym_bytes b.symbol_table) ∷ [])
    ++ rela_parts elf relas
    ++ (some b.string_table ∷ [])
    ++ (some names ∷ [])

pub length-bytes_of :
    {A : Type 0} (f : A → List ℕ) (n : ℕ) (xs : List A)
    → ((x : A) → length (f x) ≡ n)
    → length (bytes_of f xs) ≡ length xs * n
unfolding bytes_of
length-bytes_of f n [] h = omega arith
length-bytes_of f n (x ∷ xs) h =
    let l = length-append (f x) (bytes_of f xs) in
    let ih = length-bytes_of f n xs h in
    let s = suc-mul (length xs) n in let first = h x in omega (arith, l, ih, s, first)

abbrev data_if : Bool → List ℕ → List ℕ
data_if b piece = if b then piece else []

abbrev part_if : Bool → List ℕ → Part
part_if b piece = if b then some piece else none

push_if-IsLaid :
    (target : Target) (b : Bool) (hdr : Shdr) (name : Name) (out piece : List ℕ) (l : Layout)
    (cs : List Part)
    → (b ≡ true → length piece % 2 ^ width target ≡ hdr.sh_size)
    → IsLaid target out l cs
    → IsLaid target
        (out ++ data_if b piece)
        (push_section target hdr name b l)
        (cs ++ (part_if b piece ∷ []))
push_if-IsLaid target true hdr name out piece l cs size p =
    push_section-IsLaid target hdr name out piece l cs (size refl) p
push_if-IsLaid target false hdr name out piece l cs size p =
    subst (λ o. IsLaid target o (push_section target hdr name false l) (cs ++ (none ∷ [])))
      (sym (append-nil out)) (push_section-apart target hdr name out l cs p)

-- Bytes and parts that are added one after the other, or at once.
regroup :
    (target : Target) (b : Bool) (out piece rest : List ℕ) (l : Layout) (cs ds : List Part)
    → IsLaid target (out ++ data_if b piece ++ rest) l (cs ++ (part_if b piece ∷ []) ++ ds)
    → IsLaid target (out ++ (if b then piece ++ rest else rest)) l (cs ++ (part_if b piece ∷ ds))
regroup target true out piece rest l cs ds p =
    subst (λ o. IsLaid target o l (cs ++ (some piece ∷ ds))) (append_assoc out piece rest)
      (subst (IsLaid target (out ++ piece ++ rest) l) (append_assoc cs (some piece ∷ []) ds) p)
regroup target false out piece rest l cs ds p =
    subst (λ o. IsLaid target (o ++ rest) l (cs ++ (none ∷ ds))) (append-nil out)
      (subst (IsLaid target (out ++ [] ++ rest) l) (append_assoc cs (none ∷ []) ds) p)

pub push_sections-IsLaid :
    (target : Target) (elf : ElfFile) (binary : Name → List ℕ) (es : List (ℕ × Section))
    (out : List ℕ) (l : Layout) (cs : List Part)
    → FilesFit target binary es
    → IsLaid target out l cs
    → IsLaid target
        (out ++ section_bytes binary es)
        (Laying.push_sections target elf es l)
        (cs ++ section_parts binary es)
unfolding Laying.push_sections Laying.push_one section_bytes section_parts Headers.section_header
push_sections-IsLaid target elf binary [] out l cs fit p =
    subst (λ o. IsLaid target o l (cs ++ [])) (sym (append-nil out))
      (subst (IsLaid target out l) (sym (append-nil cs)) p)
push_sections-IsLaid target elf binary (e ∷ es) out l cs fit p =
    let w = 2 ^ width target in
    let b = is_set e.1.flags 3 in
    let next = Laying.push_one target elf e.1 l in
    let piece = binary (section_file e.1) in
    let size : b ≡ true → length piece % w ≡ minus target e.1.end_ e.1.start =
      λ h. ap (λ n. n % w) (fit.0 h) ∙ mod-mod (e.1.end_ + (w - e.1.start)) w in
    regroup target b out piece (section_bytes binary es) (Laying.push_sections target elf es next)
      cs (section_parts binary es)
      (push_sections-IsLaid target elf binary es (out ++ data_if b piece) next
        (cs ++ (part_if b piece ∷ [])) fit.1
        (push_if-IsLaid target b (Headers.section_header target elf e.1) (Laying.section_name e.1)
          out piece l cs size p))

pub push_relas-IsLaid :
    (target : Target) (elf : ElfFile) (symtab : ℕ) (rs : List Relas) (out : List ℕ) (l : Layout)
    (cs : List Part)
    → ((r : Rela) → length (elf.rela_bytes r) ≡ elf.rela_size)
    → IsLaid target out l cs
    → IsLaid target
        (out ++ bytes_of (λ r. bytes_of elf.rela_bytes r.entries) rs)
        (Laying.push_relas target elf symtab rs l)
        (cs ++ rela_parts elf rs)
unfolding Laying.push_relas Laying.push_rela bytes_of rela_parts
push_relas-IsLaid target elf symtab [] out l cs sizes p =
    subst (λ o. IsLaid target o l (cs ++ [])) (sym (append-nil out))
      (subst (IsLaid target out l) (sym (append-nil cs)) p)
push_relas-IsLaid target elf symtab (r ∷ rs) out l cs sizes p =
    let piece = bytes_of elf.rela_bytes r.entries in
    let size =
      ap (λ n. n % 2 ^ width target)
        (length-bytes_of elf.rela_bytes elf.rela_size r.entries sizes) in
    let next = Laying.push_rela target elf symtab r l in
    let rest = bytes_of (λ r. bytes_of elf.rela_bytes r.entries) rs in
    regroup target true out piece rest (Laying.push_relas target elf symtab rs next) cs
      (rela_parts elf rs)
      (push_relas-IsLaid target elf symtab rs (out ++ piece) next (cs ++ (some piece ∷ [])) sizes (
        push_section-IsLaid target (Laying.rela_header target elf symtab r)
          (codes ".rela." ++ r.name) out piece l cs size p))

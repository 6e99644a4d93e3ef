-- ===== src/Reloc/Refers.antt =====
-- Every relocation entry of an object refers to a symbol of its own name.
use smolforth.Base.{
  ℕ, suc, ◌+◌, ◌^◌, ◌<◌, ◌≤◌, ◌≡◌, refl, arith, ap, ◌∙◌, Bool, true, false, if◌then◌else◌, ◌==◌,
}
use smolforth.Base.{
  Option, none, some, List, [], ◌∷◌, ◌++◌, length, length-append, get_elem?, same_text,
  same_text-eq,
}
use smolforth.Reloc.Texts.{◌>>=◌, text_key}
use smolforth.Reloc.Map.{at}
use smolforth.Reloc.Tables
use smolforth.Reloc.Tables.{Name, Symbol, Target, Relocation}
use smolforth.Reloc.Names.{Link}
use smolforth.Reloc.Object
use smolforth.Reloc.Object.{Sym, ElfSymbols, Index, Symbols, Rela}
use smolforth.Reloc.Entries
use smolforth.Reloc.Keeps.{AllOf, bind-AllOf, bind_after-AllOf, if-AllOf}
use smolforth.Reloc.SymbolTable.{IsTable, Named-get, build_symbols-IsTable}
use smolforth.Reloc.Offsets.{StandsAt, exact_offset}
use mathlib.Core.Path.{subst}

-- Where an index called `name` is.
abbrev Finds : List Index → Name → ℕ → Type 0
Finds xs name i = (z : Index) × (get_elem? xs i ≡ some z) × (z.name ≡ name)

same_index-name : (x y : Index) → Entries.same_index x y ≡ true → x.name ≡ y.name
unfolding Entries.same_index
same_index-name x y h =
    let n : same_text x.name y.name ≡ true = ground arith in same_text-eq x.name y.name n

find_index-Finds : (xs : List Index) (x : Index) → AllOf (Finds xs x.name) (Entries.find_index xs x)
unfolding Entries.find_index
find_index-Finds [] x = tt
find_index-Finds (y ∷ ys) x = go (Entries.same_index y x) refl (find_index-Finds ys x)
  where
    go :
        (b : Bool)
        → Entries.same_index y x ≡ b
        → AllOf (Finds ys x.name) (Entries.find_index ys x)
        → AllOf
            (Finds (y ∷ ys) x.name)
            (if b then some 0 else (Entries.find_index ys x >>= λ i. some (suc i)))
    go true e ih = (y, refl, same_index-name y x e)
    go false e ih =
        bind_after-AllOf (Finds ys x.name) (Finds (y ∷ ys) x.name) (Entries.find_index ys x) _ ih
          (λ i h. h)

find_fallback-Finds :
    (xs : List Index) (globals : List (Name × Symbol)) (r : Relocation)
    → AllOf (Finds xs r.name) (Entries.find_fallback xs globals r)
unfolding Entries.find_fallback
find_fallback-Finds xs globals r =
    if-AllOf (Finds xs r.name) (r.local_ == 0) _ _
      (bind-AllOf (Finds xs r.name) (at r.name globals) _
        (λ s. find_index-Finds xs (Object.index_of r.name s.word_addr r.local_)))
      (find_index-Finds xs (Object.index_of r.name r.word_list 0))

or_else-AllOf :
    (P : ℕ → Type 0) (o p : Option ℕ) → AllOf P o → AllOf P p → AllOf P (Entries.or_else o p)
or_else-AllOf P none p h k = k
or_else-AllOf P (some i) p h k = h

find_symbol-Finds :
    (xs : List Index) (globals : List (Name × Symbol)) (r : Relocation)
    → AllOf (Finds xs r.name) (Entries.find_symbol xs globals r)
unfolding Entries.find_symbol
find_symbol-Finds xs globals r =
    or_else-AllOf (Finds xs r.name) _ _
      (find_index-Finds xs (Object.index_of r.name r.word_list r.local_))
      (find_fallback-Finds xs globals r)

-- The symbol that an entry refers to: its place in the table, and its name, with a null byte behind
-- it, at the offset `st_name` of the string table.
abbrev pub RefersTo : ElfSymbols → Symbols → Relocation → Rela → Type 0
RefersTo elf b r ra =
    (i : ℕ) × (y : Sym) × (ra.r_info ≡ elf.r_info i r.type)
    × (get_elem? b.symbol_table i ≡ some y)
    × (before : List ℕ) × (after : List ℕ) × (b.string_table
        ≡ before ++ (r.name ++ (0 ∷ [])) ++ after)
    × (length before ≡ y.st_name)

non_empty : (name : Name) → 0 < length (name ++ (0 ∷ []))
non_empty name = let l = length-append name (0 ∷ []) in omega (arith, l)

found-RefersTo :
    (target : Target) (elf : ElfSymbols) (b : Symbols) (r : Relocation) (i offset : ℕ)
    → IsTable b
    → length b.string_table ≤ 2 ^ 32
    → Finds b.symbol_indices r.name i
    → RefersTo elf b r
        (record { r_offset = offset; r_info = elf.r_info (1 + i) r.type; r_addend = r.addend })
found-RefersTo target elf b r i offset table short h =
    let g = Named-get b.string_table table.0 b.symbol_indices i h.0 table.2 h.1 in
    let stands = subst (λ n. StandsAt 32 b.string_table g.0.st_name (n ++ (0 ∷ []))) h.2 g.2 in
    let next : 1 + i ≡ suc i = omega arith in
    (
      suc i,
      g.0,
      ap (λ k. elf.r_info k r.type) next,
      ap (λ l. get_elem? l (suc i)) table.1 ∙ g.1,
      stands.0,
      stands.1,
      stands.2,
      exact_offset 32 b.string_table stands.0 stands.1 (r.name ++ (0 ∷ [])) stands.2 short
          (non_empty r.name) stands.3,
    )

all_refer :
    (target : Target) (elf : ElfSymbols) (link : Link) (b : Symbols) (section addr : ℕ)
    (r : Relocation)
    → IsTable b
    → length b.string_table ≤ 2 ^ 32
    → AllOf (RefersTo elf b r) (Entries.make_rela target elf link b.symbol_indices section addr r)
unfolding Entries.make_rela
all_refer target elf link b section addr r table short =
    bind-AllOf (RefersTo elf b r) (Object.start_of link.sections section) _ (λ start.
      bind_after-AllOf (Finds b.symbol_indices r.name) (RefersTo elf b r)
        (Entries.find_symbol b.symbol_indices link.globals r) _
        (find_symbol-Finds b.symbol_indices link.globals r)
        (λ i f. found-RefersTo target elf b r i (Tables.minus target addr start) table short f))

-- The entry that is made for a relocation: when the symbols are those of `build_symbols` and their
-- names take at most 2^32 bytes, it refers to a symbol with the name of the relocation, also where
-- the symbol is not one of the relocation's own word list.
pub make_rela-RefersTo :
    (target : Target) (elf : ElfSymbols) (link : Link) (b : Symbols) (section addr : ℕ)
    (r : Relocation) (ra : Rela)
    → Object.build_symbols target elf link ≡ some b
    → length b.string_table ≤ 2 ^ 32
    → Entries.make_rela target elf link b.symbol_indices section addr r ≡ some ra
    → RefersTo elf b r ra
make_rela-RefersTo target elf link b section addr r ra built short made =
    let table = subst (AllOf IsTable) built (build_symbols-IsTable target elf link) in
    subst (AllOf (RefersTo elf b r)) made (all_refer target elf link b section addr r table short)

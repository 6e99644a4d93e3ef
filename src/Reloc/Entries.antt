-- ===== src/Reloc/Entries.antt =====
-- The relocation entries of a section in `save_obj` of reloc/obj.cpp, each with the place of its
-- symbol in the symbol table.
use smolforth.Base.{ℕ, suc, ◌+◌, Bool, false, if◌then◌else◌, ◌==◌, ◌&&◌}
use smolforth.Base.{Option, none, some, List, [], ◌∷◌, same_text}
use smolforth.Reloc.Texts.{◌>>=◌, text_key}
use smolforth.Reloc.Map.{at}
use smolforth.Reloc.Tables.{Name, Relocation, Symbol, Target, minus}
use smolforth.Reloc.Names.{Link, in_any_section}
use smolforth.Reloc.Object.{Index, Rela, ElfSymbols, index_of, start_of}

unfoldable pub same_index : Index → Index → Bool
unfolding same_text
same_index x y = same_text x.name y.name && (x.word_list == y.word_list) && (x.local_ == y.local_)

-- `std::find` over `symbol_indices`.
unfoldable pub find_index : List Index → Index → Option ℕ
unfolding same_index
find_index [] x = none
find_index (y ∷ ys) x =
    let rest = find_index ys x >>= λ i. some (suc i) in if same_index y x then some 0 else rest

-- The search when a symbol of the relocation's own word list is not there: for a local one among
-- the others, for another by the word list of the exported symbol.
unfoldable pub find_fallback : List Index → List (Name × Symbol) → Relocation → Option ℕ
unfolding find_index at
find_fallback indices globals r =
    if r.local_ == 0
    then (at r.name globals >>= λ s. find_index indices (index_of r.name s.word_addr r.local_))
    else find_index indices (index_of r.name r.word_list 0)

abbrev pub or_else : Option ℕ → Option ℕ → Option ℕ
or_else (some i) o = some i
or_else none o = o

unfoldable pub find_symbol : List Index → List (Name × Symbol) → Relocation → Option ℕ
unfolding find_index find_fallback
find_symbol indices globals r =
    or_else (find_index indices (index_of r.name r.word_list r.local_))
      (find_fallback indices globals r)

abbrev pub is_in : Link → ℕ → ℕ → Bool
is_in link section addr = elim (in_any_section link.sections addr) [
  | none ↦ false
  | some s ↦ s == section
]

-- The assert that the symbol is there, and the entry.
unfoldable pub make_rela :
    Target → ElfSymbols → Link → List Index → ℕ → ℕ → Relocation → Option Rela
unfolding find_symbol start_of
make_rela target elf link indices section addr r = do
  start ← start_of link.sections section
  i ← find_symbol indices link.globals r
  some (record {
    r_offset = minus target addr start;
    r_info = elf.r_info (1 + i) r.type;
    r_addend = r.addend;
  })

abbrev pub cons_some : Rela → Option (List Rela) → Option (List Rela)
cons_some x o = o >>= λ xs. some (x ∷ xs)

-- `relocations_data` of a section.
unfoldable pub make_relas :
    Target → ElfSymbols → Link → List Index → ℕ → List (ℕ × Relocation) → Option (List Rela)
unfolding in_any_section make_rela
make_relas target elf link indices section [] = some []
make_relas target elf link indices section (e ∷ es) =
    let rest = make_relas target elf link indices section es in
    if is_in link section e.0
    then (make_rela target elf link indices section e.0 e.1 >>= λ x. cons_some x rest)
    else rest

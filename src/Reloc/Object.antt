-- ===== src/Reloc/Object.antt =====
-- The symbol table and the relocation entries that `save_obj` of reloc/obj.cpp builds. The constants
-- and macros of <elf.h> are a parameter.
use smolforth.Base.{ℕ, ◌+◌, ◌-◌, ◌%◌, ◌^◌, Bool, true, false, if◌then◌else◌, ◌==◌, ◌&&◌, not}
use smolforth.Base.{Option, none, some, List, [], ◌∷◌, ◌++◌, length}
use smolforth.Reloc.Texts.{◌>>=◌, text_key, number_key, pair_key}
use smolforth.Reloc.Map.{at}
use smolforth.Reloc.Tables.{Name, Symbol, Target, width, minus}
use smolforth.Reloc.Names.{Section, Link, in_any_section}

-- `ElfX_Sym` and `ElfX_Rela`.
pub record Sym : Type 0 where
  pub st_name : ℕ
  pub st_info : ℕ
  pub st_other : ℕ
  pub st_shndx : ℕ
  pub st_value : ℕ
  pub st_size : ℕ

pub record Rela : Type 0 where
  pub r_offset : ℕ
  pub r_info : ℕ
  pub r_addend : ℕ

-- What the symbols and relocations need of <elf.h>.
pub record ElfSymbols : Type 0 where
  pub st_info : ℕ → ℕ → ℕ
  pub r_info : ℕ → ℕ → ℕ
  pub stb_local : ℕ
  pub stb_global : ℕ
  pub stt_func : ℕ
  pub stt_notype : ℕ
  pub stv_default : ℕ

-- An element of `symbol_indices`.
pub record Index : Type 0 where
  pub name : Name
  pub word_list : ℕ
  pub local_ : ℕ

-- The variables that the loops over the symbols change.
pub record Symbols : Type 0 where
  pub string_table : List ℕ
  pub symbol_table : List Sym
  pub symbol_indices : List Index
  pub local_symbol_count : ℕ

-- `make_sym`
unfoldable pub make_sym : ElfSymbols → ℕ → ℕ → ℕ → ℕ → Sym
make_sym elf name info shndx value = record {
  st_name = name % 2 ^ 32;
  st_info = info;
  st_other = elf.stv_default;
  st_shndx = shndx % 2 ^ 16;
  st_value = value;
  st_size = 0;
}

-- The three `push_back`s of every loop, with the name at the end of the string table.
unfoldable pub push_symbol : ElfSymbols → Index → ℕ → ℕ → ℕ → Symbols → Symbols
unfolding make_sym
push_symbol elf index info shndx value b = record {
  string_table = b.string_table ++ index.name ++ (0 ∷ []);
  symbol_table = b.symbol_table ++ (make_sym elf (length b.string_table) info shndx value ∷ []);
  symbol_indices = b.symbol_indices ++ (index ∷ []);
  local_symbol_count = b.local_symbol_count;
}

abbrev pub count_local : Symbols → Symbols
count_local b = record b { local_symbol_count = b.local_symbol_count + 1 }

-- `std::get<1>(section_limits.at(s))`
unfoldable pub start_of : List (ℕ × Section) → ℕ → Option ℕ
unfolding at
start_of sections s = at s sections >>= λ x. some x.start

-- A symbol at an address, in the section `s` that has it.
unfoldable pub push_at :
    Target → ElfSymbols → List (ℕ × Section) → Index → ℕ → ℕ → ℕ → Symbols → Option Symbols
unfolding start_of push_symbol
push_at target elf sections index bind addr s b = start_of sections s >>= λ start.
    some (push_symbol elf index (elf.st_info bind elf.stt_func) (s + 1) (minus target addr start) b)

-- A symbol whose address has to be in a section: the assert on `s`.
unfoldable pub push_defined :
    Target → ElfSymbols → List (ℕ × Section) → Index → ℕ → ℕ → Symbols → Option Symbols
unfolding in_any_section push_at
push_defined target elf sections index bind addr b =
    in_any_section sections addr >>= λ s. push_at target elf sections index bind addr s b

-- A loop whose body may fail.
unfoldable pub for_each {ℓ} :
    {A : Type ℓ} → (A → Symbols → Option Symbols) → List A → Symbols → Option Symbols
for_each f [] b = some b
for_each f (x ∷ xs) b = f x b >>= λ b'. for_each f xs b'

-- `addr != -1`
abbrev pub has_addr : Target → Symbol → Bool
has_addr target s = not (s.addr == 2 ^ width target - 1)

abbrev pub index_of : Name → ℕ → ℕ → Index
index_of name word_list l = record { name = name; word_list = word_list; local_ = l }

module _ (target : Target) (elf : ElfSymbols) (link : Link) where
  -- The bodies of the five loops. A local label outside every section is left out.
  unfoldable pub push_label : Name × ℕ → Symbols → Option Symbols
  unfolding in_any_section push_at
  push_label e b = elim (in_any_section link.sections e.1) [
    | none ↦ some b
    | some s ↦
        push_at target elf link.sections (index_of e.0 0 1) elf.stb_local e.1 s (count_local b)
  ]

  unfoldable pub push_local : Name × Symbol → Symbols → Option Symbols
  unfolding push_defined
  push_local e b =
      if has_addr target e.1 && not (e.1.local_ == 0)
      then push_defined target elf link.sections (index_of e.0 e.1.word_addr e.1.local_)
          elf.stb_local e.1.addr (count_local b)
      else some b

  unfoldable pub push_hidden : Name × Symbol → Symbols → Option Symbols
  unfolding push_defined at
  push_hidden e b =
      let exported : Bool = elim (at e.0 link.globals) [ none ↦ false | some _ ↦ true ] in
      if has_addr target e.1 && (e.1.local_ == 0) && not exported
      then push_defined target elf link.sections (index_of e.0 e.1.word_addr e.1.local_)
          elf.stb_global e.1.addr (count_local b)
      else some b

  unfoldable pub push_global : Name × Symbol → Symbols → Option Symbols
  unfolding push_defined
  push_global e b =
      if has_addr target e.1
      then push_defined target elf link.sections (index_of e.0 e.1.word_addr 0) elf.stb_global
          e.1.addr b
      else some b

  unfoldable pub push_undefined : (Name × ℕ) × Unit {0} → Symbols → Option Symbols
  unfolding push_symbol
  push_undefined e b =
      some
        (push_symbol elf (index_of e.0.0 e.0.1 0) (elf.st_info elf.stb_global elf.stt_notype) 0 0 b)

  -- The loops that count, and the two after them.
  unfoldable pub local_loops : Symbols → Option Symbols
  unfolding for_each push_label push_local push_hidden
  local_loops b = do
    labels ← for_each push_label link.local_symbols b
    locals ← for_each push_local link.dup_symbols labels
    for_each push_hidden link.dup_symbols locals

  unfoldable pub global_loops : Symbols → Option Symbols
  unfolding for_each push_global push_undefined
  global_loops b = do
    globals ← for_each push_global link.globals b
    for_each push_undefined link.undefined globals

abbrev pub null_sym : Sym
null_sym = record {
  st_name = 0;
  st_info = 0;
  st_other = 0;
  st_shndx = 0;
  st_value = 0;
  st_size = 0;
}

-- Before the loops: the null symbol, and a null byte in front of the names.
abbrev pub no_symbols : Symbols
no_symbols = record {
  string_table = 0 ∷ [];
  symbol_table = null_sym ∷ [];
  symbol_indices = [];
  local_symbol_count = 0;
}

unfoldable pub build_symbols : Target → ElfSymbols → Link → Option Symbols
unfolding local_loops global_loops
build_symbols target elf link =
    local_loops target elf link no_symbols >>= global_loops target elf link

-- ===== src/Reloc/Binding.antt =====
-- The symbols that count as local come first, and only global ones stand behind them.
use smolforth.Base.{
  ℕ, ◌+◌, ◌≡◌, refl, arith, ap, sym, ◌∙◌, some, List, [], ◌∷◌, ◌++◌, length, length-append,
}
use smolforth.Reloc.Tables.{Target}
use smolforth.Reloc.Names.{Link}
use smolforth.Reloc.Object
use smolforth.Reloc.Object.{Sym, ElfSymbols, Index, Symbols}
use smolforth.Reloc.ObjectLoops.{local_loops-AllOf, global_loops-AllOf}
use smolforth.Reloc.Keeps.{AllOf, bind_after-AllOf}
use mathlib.Core.Path.{subst}
use mathlib.Core.List.{append-nil, append_assoc}

abbrev pub AllGlobal : ElfSymbols → List Sym → Type 0
AllGlobal elf [] = Unit {0}
AllGlobal elf (y ∷ ys) =
    ((kind : ℕ) × (y.st_info ≡ elf.st_info elf.stb_global kind)) × AllGlobal elf ys

AllGlobal-snoc :
    (elf : ElfSymbols) (ys : List Sym) (y : Sym) (kind : ℕ)
    → AllGlobal elf ys
    → y.st_info ≡ elf.st_info elf.stb_global kind
    → AllGlobal elf (ys ++ (y ∷ []))
AllGlobal-snoc elf [] y kind h e = ((kind, e), tt)
AllGlobal-snoc elf (z ∷ ys) y kind h e = (h.0, AllGlobal-snoc elf ys y kind h.1 e)

-- Every symbol so far has been counted.
abbrev IsCounted : Symbols → Type 0
IsCounted b = length b.symbol_table ≡ 1 + b.local_symbol_count

-- As many symbols as have been counted, and the null symbol, stand before global ones.
abbrev pub IsSplit : ElfSymbols → Symbols → Type 0
IsSplit elf b =
    (front : List Sym) × (back : List Sym) × (b.symbol_table ≡ front ++ back)
    × (length front ≡ 1 + b.local_symbol_count)
    × AllGlobal elf back

push_symbol-IsCounted :
    (elf : ElfSymbols) (index : Index) (info shndx value : ℕ) (b : Symbols)
    → IsCounted b
    → IsCounted (Object.push_symbol elf index info shndx value (Object.count_local b))
unfolding Object.push_symbol
push_symbol-IsCounted elf index info shndx value b h =
    let y = Object.make_sym elf (length b.string_table) info shndx value in
    let l = length-append b.symbol_table (y ∷ []) in omega (arith, l, h)

push_symbol-IsSplit :
    (elf : ElfSymbols) (index : Index) (kind shndx value : ℕ) (b : Symbols)
    → IsSplit elf b
    → IsSplit elf (Object.push_symbol elf index (elf.st_info elf.stb_global kind) shndx value b)
unfolding Object.push_symbol Object.make_sym
push_symbol-IsSplit elf index kind shndx value b h =
    let y =
      Object.make_sym elf (length b.string_table) (elf.st_info elf.stb_global kind) shndx value in
    (
      h.0,
      h.1 ++ (y ∷ []),
      ap (λ l. l ++ (y ∷ [])) h.2 ∙ append_assoc h.0 h.1 (y ∷ []),
      h.3,
      AllGlobal-snoc elf h.1 y kind h.4 refl,
    )

symbols-IsSplit :
    (target : Target) (elf : ElfSymbols) (link : Link)
    → AllOf (IsSplit elf) (Object.build_symbols target elf link)
unfolding Object.build_symbols
symbols-IsSplit target elf link =
    bind_after-AllOf IsCounted (IsSplit elf) (Object.local_loops target elf link Object.no_symbols)
      _
      (local_loops-AllOf target elf link IsCounted Object.no_symbols
        (λ bind index b p shndx value. push_symbol-IsCounted elf index _ shndx value b p)
        (omega arith))
      (λ b p.
        global_loops-AllOf target elf link (IsSplit elf) b
          (λ index b p shndx value. push_symbol-IsSplit elf index elf.stt_func shndx value b p)
          (λ index b p. push_symbol-IsSplit elf index elf.stt_notype 0 0 b p)
          (b.symbol_table, [], sym (append-nil b.symbol_table), p, tt))

-- One more than `local_symbol_count`, which becomes `sh_info` of the symbol table, is the place from
-- which on every symbol is global.
pub build_symbols-IsSplit :
    (target : Target) (elf : ElfSymbols) (link : Link) (b : Symbols)
    → Object.build_symbols target elf link ≡ some b
    → IsSplit elf b
build_symbols-IsSplit target elf link b built =
    subst (AllOf (IsSplit elf)) built (symbols-IsSplit target elf link)

-- ===== src/Reloc/SymbolTable.antt =====
-- The symbol table of an object: every symbol has its name in the string table.
use smolforth.Base.{ℕ, zero, suc, ◌≡◌, refl, sym, ap}
use smolforth.Base.{some, List, [], ◌∷◌, ◌++◌, length, get_elem?}
use mathlib.Core.Path.{subst}
use mathlib.Core.List.{append-nil, append_assoc}
use smolforth.Reloc.Tables.{Target}
use smolforth.Reloc.Names.{Link}
use smolforth.Reloc.Object
use smolforth.Reloc.Object.{Sym, ElfSymbols, Index, Symbols}
use smolforth.Reloc.Offsets.{StandsAt, StandsAt-longer}
use smolforth.Reloc.Keeps.{AllOf, bind_after-AllOf}
use smolforth.Reloc.ObjectLoops.{local_loops-AllOf, global_loops-AllOf}

-- Each symbol names what the index at its place says.
abbrev pub Named : List ℕ → List Sym → List Index → Type 0
Named s [] [] = Unit {0}
Named s (y ∷ ys) (x ∷ xs) = StandsAt 32 s y.st_name (x.name ++ (0 ∷ [])) × Named s ys xs
Named s _ _ = ⊥

-- What every loop keeps: the first symbol is null, the others are named.
abbrev pub IsTable : Symbols → Type 0
IsTable b =
    (ys : List Sym) × (b.symbol_table ≡ Object.null_sym ∷ ys)
    × Named b.string_table ys b.symbol_indices

Named-longer :
    (s u : List ℕ) (ys : List Sym) (xs : List Index) → Named s ys xs → Named (s ++ u) ys xs
Named-longer s u [] [] h = tt
Named-longer s u [] (x ∷ xs) h = elim h [ ]
Named-longer s u (y ∷ ys) [] h = elim h [ ]
Named-longer s u (y ∷ ys) (x ∷ xs) h = (StandsAt-longer 32 s _ u _ h.0, Named-longer s u ys xs h.1)

Named-snoc :
    (s : List ℕ) (ys : List Sym) (xs : List Index) (y : Sym) (x : Index)
    → Named s ys xs
    → StandsAt 32 s y.st_name (x.name ++ (0 ∷ []))
    → Named s (ys ++ (y ∷ [])) (xs ++ (x ∷ []))
Named-snoc s [] [] y x h k = (k, tt)
Named-snoc s [] (w ∷ xs) y x h k = elim h [ ]
Named-snoc s (z ∷ ys) [] y x h k = elim h [ ]
Named-snoc s (z ∷ ys) (w ∷ xs) y x h k = (h.0, Named-snoc s ys xs y x h.1 k)

push_symbol-IsTable :
    (elf : ElfSymbols) (index : Index) (info shndx value : ℕ) (b : Symbols)
    → IsTable b
    → IsTable (Object.push_symbol elf index info shndx value b)
unfolding Object.push_symbol Object.make_sym
push_symbol-IsTable elf index info shndx value b h =
    let s = b.string_table in
    let u = index.name ++ (0 ∷ []) in
    let y = Object.make_sym elf (length s) info shndx value in
    let at_end : StandsAt 32 (s ++ u) y.st_name u = (s, [], sym (append-nil (s ++ u)), refl) in
    let named =
      Named-snoc (s ++ u) h.0 b.symbol_indices y index (Named-longer s u h.0 b.symbol_indices h.2)
        at_end in
    (
      h.0 ++ (y ∷ []),
      ap (λ l. l ++ (y ∷ [])) h.1,
      subst (λ l. Named l (h.0 ++ (y ∷ [])) (b.symbol_indices ++ (index ∷ [])))
          (sym (append_assoc s index.name (0 ∷ []))) named,
    )

no_symbols-IsTable : IsTable Object.no_symbols
no_symbols-IsTable = ([], refl, tt)

pub build_symbols-IsTable :
    (target : Target) (elf : ElfSymbols) (link : Link)
    → AllOf IsTable (Object.build_symbols target elf link)
unfolding Object.build_symbols
build_symbols-IsTable target elf link =
    bind_after-AllOf IsTable IsTable (Object.local_loops target elf link Object.no_symbols) _
      (local_loops-AllOf target elf link IsTable Object.no_symbols
        (λ bind index b p shndx value.
          push_symbol-IsTable elf index _ shndx value (Object.count_local b) p)
        no_symbols-IsTable)
      (λ b p.
        global_loops-AllOf target elf link IsTable b
          (λ index b p shndx value. push_symbol-IsTable elf index _ shndx value b p)
          (λ index b p. push_symbol-IsTable elf index _ 0 0 b p) p)

-- The symbol at the place of an index has its name.
pub Named-get :
    (s : List ℕ) (ys : List Sym) (xs : List Index) (i : ℕ) (x : Index)
    → Named s ys xs
    → get_elem? xs i ≡ some x
    → (y : Sym) × (get_elem? ys i ≡ some y) × StandsAt 32 s y.st_name (x.name ++ (0 ∷ []))
Named-get s [] [] i x h e = cc
Named-get s [] (z ∷ xs) i x h e = elim h [ ]
Named-get s (y ∷ ys) [] i x h e = elim h [ ]
Named-get s (y ∷ ys) (z ∷ xs) zero x h e =
    (y, refl, subst (λ n. StandsAt 32 s y.st_name (n ++ (0 ∷ []))) (same_name e) h.0)
  where
    same_name : some z ≡ some x → z.name ≡ x.name
    same_name k = cc
Named-get s (y ∷ ys) (z ∷ xs) (suc i) x h e = Named-get s ys xs i x h.1 e

-- ===== src/Reloc/Names.antt =====
-- The first half of `save_obj` in reloc/obj.cpp: full names, global symbols, sections, and what is
-- dropped.
use smolforth.Base.{ℕ, zero, suc, ◌+◌, Bool, true, false, if◌then◌else◌, leb, ltb, ◌==◌, ◌&&◌, not}
use smolforth.Base.{Option, none, some, List, [], ◌∷◌, ◌++◌, length, codes, same_text}
use smolforth.Reloc.Texts.{◌>>=◌, text_key, number_key, pair_key}
use smolforth.Reloc.Map.{at, assign, emplace, emplace_multi, equal_range, erase_if}
use smolforth.Reloc.Tables.{Name, Relocation, Symbol, Limits, Tables}

-- `section_limits`: what is known of a section, with its name.
pub record Section : Type 0 where
  pub flags : ℕ
  pub start : ℕ
  pub end_ : ℕ
  pub name : Name

-- `in_any_section`, where -1 is `none`.
unfoldable pub in_any_section : List (ℕ × Section) → ℕ → Option ℕ
in_any_section [] addr = none
in_any_section (p ∷ ps) addr =
    let rest = in_any_section ps addr in
    if leb p.1.start addr && ltb addr p.1.end_ then some p.0 else rest

-- `forth_addr`: the last list called FORTH that stands in itself, or 0.
unfoldable pub forth_addr : List (ℕ × ℕ) → List (ℕ × Name) → ℕ → ℕ
unfolding at same_text
forth_addr assoc [] forth = forth
forth_addr assoc (e ∷ names) forth =
    let itself : Bool = elim (at e.0 assoc) [ none ↦ false | some wl ↦ wl == e.0 ] in
    forth_addr assoc names (if same_text e.1 (codes "FORTH") && itself then e.0 else forth)

-- The list that the name of `addr` is put behind, if there is one.
unfoldable pub outer : List (ℕ × ℕ) → ℕ → ℕ → Option ℕ
unfolding at
outer assoc forth addr =
    at addr assoc >>= λ wl. if not (wl == addr) && not (wl == forth) then some wl else none

abbrev pub joined : Name → Name → Name
joined a b = a ++ codes "$" ++ b

-- A name behind that of the list around it, if there is one.
unfoldable pub put_behind : (ℕ → Option Name) → Option ℕ → Option Name → Option Name
put_behind qualify none own = own
put_behind qualify (some wl) own = qualify wl >>= λ q. own >>= λ n. some (joined q n)

-- `qualify_wordlist_name`; a chain of lists that comes back to itself would not end.
unfoldable pub qualify : List (ℕ × ℕ) → List (ℕ × Name) → ℕ → ℕ → ℕ → Option Name
unfolding outer at put_behind
qualify assoc names forth zero addr = none
qualify assoc names forth (suc fuel) addr =
    put_behind (qualify assoc names forth fuel) (outer assoc forth addr) (at addr names)

-- What the naming passes read.
pub record Lists : Type 0 where
  pub assoc : List (ℕ × ℕ)
  pub names : List (ℕ × Name)
  pub forth : ℕ

-- A list has an entry for each list that it can be in, so a chain without a repetition is shorter.
unfoldable pub qualify_wordlist_name : Lists → ℕ → Option Name
unfolding qualify
qualify_wordlist_name l = qualify l.assoc l.names l.forth (suc (length l.assoc))

-- The loop that fills `qwl`.
unfoldable pub qualify_lists : Lists → List (ℕ × Name) → List (ℕ × Name) → Option (List (ℕ × Name))
unfolding qualify_wordlist_name assign
qualify_lists l [] qwl = some qwl
qualify_lists l (e ∷ es) qwl = do
  q ← qualify_wordlist_name l e.0
  qualify_lists l es (assign e.0 q qwl)

-- The name of a word at `saddr`, behind that of the list which it is in.
unfoldable pub full_name : Lists → ℕ → Name → Option Name
unfolding at qualify_wordlist_name
full_name l saddr name = elim (at saddr l.assoc) [
  | none ↦ some name
  | some wl ↦
      if saddr == wl then some name else (qualify_wordlist_name l wl >>= λ q. some (joined q name))
]

unfoldable pub qualify_symbols :
    Lists → List (Name × Symbol) → List (Name × Symbol) → Option (List (Name × Symbol))
unfolding full_name emplace_multi
qualify_symbols l [] qsymbols = some qsymbols
qualify_symbols l (e ∷ es) qsymbols = do
  q ← full_name l e.1.word_addr e.0
  qualify_symbols l es (emplace_multi q e.1 qsymbols)

unfoldable pub qualify_assoc :
    Lists → List ((Name × ℕ) × ℕ) → List ((Name × ℕ) × ℕ) → Option (List ((Name × ℕ) × ℕ))
unfolding full_name assign
qualify_assoc l [] gsym = some gsym
qualify_assoc l (e ∷ es) gsym = do
  q ← full_name l e.1 e.0.0
  qualify_assoc l es (assign (q, e.0.1) e.1 gsym)

unfoldable pub qualify_relocations :
    Lists → List (ℕ × Relocation) → List (ℕ × Relocation) → Option (List (ℕ × Relocation))
unfolding full_name assign
qualify_relocations l [] qrelocations = some qrelocations
qualify_relocations l (e ∷ es) qrelocations = do
  q ← full_name l e.1.word_list e.1.name
  qualify_relocations l es (assign e.0 (record e.1 { name = q }) qrelocations)

-- The symbols of a name whose word stands at `sym`.
unfoldable pub export_range : ℕ → List (Name × Symbol) → List (Name × Symbol) → List (Name × Symbol)
unfolding emplace
export_range sym [] globals = globals
export_range sym (e ∷ es) globals =
    export_range sym es (if e.1.word_addr == sym then emplace e.0 e.1 globals else globals)

unfoldable pub global_symbols :
    List (Name × Symbol) → List ((Name × ℕ) × ℕ) → List (Name × Symbol) → List (Name × Symbol)
unfolding export_range equal_range
global_symbols dup [] globals = globals
global_symbols dup (k ∷ ks) globals =
    global_symbols dup ks (export_range k.1 (equal_range k.0.0 dup) globals)

-- `section_limits[i++] = ...`
unfoldable pub number_sections : ℕ → List (Name × Limits) → List (ℕ × Section)
number_sections i [] = []
number_sections i (e ∷ es) =
    (i, (record { flags = e.1.flags; start = e.1.start; end_ = e.1.end_; name = e.0 }))
    ∷ number_sections (i + 1) es

abbrev pub is_void : ℕ × Section → Bool
is_void e = e.1.start == e.1.end_

abbrev pub is_outside : List (ℕ × Section) → ℕ × Relocation → Bool
is_outside sections e = elim (in_any_section sections e.0) [ none ↦ true | some n ↦ false ]

unfoldable pub undefined_symbols :
    List (Name × Symbol)
    → List (ℕ × Relocation)
    → List ((Name × ℕ) × Unit {0})
    → List ((Name × ℕ) × Unit {0})
unfolding at emplace
undefined_symbols dup [] s = s
undefined_symbols dup (e ∷ es) s =
    undefined_symbols dup es
      (elim (at e.1.name dup) [ none ↦ emplace (e.1.name, e.1.word_list) tt s | some _ ↦ s ])

-- What the second half of `save_obj` reads.
pub record Link : Type 0 where
  pub lists : Lists
  pub local_symbols : List (Name × ℕ)
  pub dup_symbols : List (Name × Symbol)
  pub globals : List (Name × Symbol)
  pub relocations : List (ℕ × Relocation)
  pub sections : List (ℕ × Section)
  pub undefined : List ((Name × ℕ) × Unit {0})

-- The passes over the tables, in their order. The names of words are put behind the names of lists
-- that the first pass has qualified.
unfoldable pub link : Tables → Option Link
unfolding forth_addr qualify_lists qualify_symbols qualify_assoc qualify_relocations global_symbols
    number_sections erase_if undefined_symbols
link t = do
  let forth = forth_addr t.wordlist_assoc t.wordlist_names 0
  let found : Lists = record { assoc = t.wordlist_assoc; names = t.wordlist_names; forth = forth }
  qwl ← qualify_lists found t.wordlist_names []
  let lists = record found { names = qwl }
  dup ← qualify_symbols lists t.dup_symbols []
  gsym ← qualify_assoc lists t.global_symbol_assoc []
  renamed ← qualify_relocations lists t.relocations []
  let sections = erase_if is_void (number_sections 0 t.section_limits0)
  let kept = erase_if (is_outside sections) renamed
  some (record {
    lists = lists;
    local_symbols = t.local_symbols;
    dup_symbols = dup;
    globals = global_symbols dup gsym [];
    relocations = kept;
    sections = sections;
    undefined = undefined_symbols dup kept [];
  })

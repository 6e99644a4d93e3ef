-- ===== src/Reloc/Keeps/Lines.antt =====
-- No line of out.txt changes a relocation that reloc/obj.cpp has recorded.
use smolforth.Base.{
  ℕ, zero, suc, ◌≡◌, refl, ap, ◌∙◌, Bool, true, false, if◌then◌else◌, ◌==◌, Option, none, some,
  List, [], ◌∷◌, length,
}
use smolforth.Reloc.Texts.{number_key}
use smolforth.Reloc.Map.{at, assign}
use smolforth.Reloc.Tables
use smolforth.Reloc.Tables.{Name, Target, ElfTypes, Relocation, Value, Tables}
use smolforth.Reloc.Records
use smolforth.Reloc.Words
use smolforth.Reloc.Words.{Reader}
use smolforth.Reloc.Lines
use smolforth.Reloc.Keeps.{
  AllOf, bind-AllOf, bind_after-AllOf, if-AllOf, Kept, Kept-refl, symbol-Kept, reloc-Kept,
  reloc_execute-Kept, reloc_addr-Kept,
}
use mathlib.Core.Path.{subst}

-- Every relocation that the first reader has is in the second.
abbrev pub KeptBy : Reader → Reader → Type 0
KeptBy r r' = Kept r.tables r'.tables

hand_over-Kept :
    (f : List Value → ℕ → Tables → Option Tables) (r : Reader)
    → AllOf (Kept r.tables) (f r.st r.local_flag r.tables)
    → AllOf (KeptBy r) (Words.hand_over f r)
unfolding Words.hand_over
hand_over-Kept f r h = bind_after-AllOf (Kept r.tables) (KeptBy r) _ _ h (λ t k. k)

associate-relocations :
    (addr : ℕ) (es : List (Name × ℕ)) (t : Tables)
    → (Words.associate addr es t).relocations ≡ t.relocations
unfolding Words.associate Words.associate_one
associate-relocations addr [] t = refl
associate-relocations addr (e ∷ es) t = associate-relocations addr es (Words.associate_one addr e t)

associate-Kept :
    (addr : ℕ) (es : List (Name × ℕ)) (t u : Tables)
    → u.relocations ≡ t.relocations
    → Kept t (Words.associate addr es u)
associate-Kept addr es t u e a r h = ap (at a) (associate-relocations addr es u ∙ e) ∙ h

export_list-Kept : (wl : Name) (r : Reader) → KeptBy r (Words.export_list wl r)
unfolding Words.export_list
export_list-Kept wl r = go (Tables.is_empty r.wl_end) _
  where
    go :
        (b : Bool) (x : List (Name × Name))
        → Kept r.tables (if b then r.tables else record r.tables { wordlist_names_export = x })
    go true x = Kept-refl r.tables
    go false x = Kept-refl r.tables

limit_section-Kept : (r : Reader) → AllOf (KeptBy r) (Words.limit_section r)
unfolding Words.limit_section Words.set_limits
limit_section-Kept r = bind-AllOf (KeptBy r) (Tables.pop_number r.st) _ (λ end_.
    bind-AllOf (KeptBy r) (Tables.pop_number end_.1) _ (λ start. go (start.0 == end_.0) _ _))
  where
    go :
        (b : Bool) (x y : List (Name × Tables.Limits))
        → Kept r.tables (
            if b
            then record r.tables { section_limits0 = x }
            else record r.tables { section_limits0 = y })
    go true x y = Kept-refl r.tables
    go false x y = Kept-refl r.tables

open_section-Kept : (r : Reader) → AllOf (KeptBy r) (Words.open_section r)
unfolding Words.open_section
open_section-Kept r =
    bind-AllOf (KeptBy r) (Tables.pop_number r.st) _
      (λ flags. bind-AllOf (KeptBy r) (Tables.pop_text flags.1) _ (λ name. Kept-refl r.tables))

add_assoc-Kept : (r : Reader) → AllOf (KeptBy r) (Words.add_assoc r)
unfolding Words.add_assoc
add_assoc-Kept r = bind-AllOf (KeptBy r) (Tables.pop_text r.st) _ (λ n.
    bind-AllOf (KeptBy r) (Tables.pop_number n.1) _
      (λ addr. bind-AllOf (KeptBy r) (Words.drop_top addr.1) _ (λ st. Kept-refl r.tables)))

close_list-Kept : (r : Reader) → AllOf (KeptBy r) (Words.close_list r)
unfolding Words.close_list
close_list-Kept r = bind-AllOf (KeptBy r) (Tables.pop_text r.st) _ (λ wl.
    bind-AllOf (KeptBy r) (Tables.pop_number wl.1) _ (λ addr.
      associate-Kept addr.0 r.wl_assocs r.tables
        (record r.tables { wordlist_names = assign addr.0 wl.0 r.tables.wordlist_names }) refl))

perform-Kept :
    (target : Target) (elf : ElfTypes) (w : Words.Word) (ss : Name) (r : Reader)
    → AllOf (KeptBy r) (Words.perform target elf w ss r)
unfolding Words.perform
perform-Kept target elf Words.quote ss r = Kept-refl r.tables
perform-Kept target elf Words.local_word ss r = Kept-refl r.tables
perform-Kept target elf Words.symbol_word ss r =
    hand_over-Kept Tables.symbol r (symbol-Kept r.st _ _)
perform-Kept target elf Words.section ss r = open_section-Kept r
perform-Kept target elf Words.limit ss r = limit_section-Kept r
perform-Kept target elf Words.wordlist ss r =
    bind-AllOf (KeptBy r) (Tables.pop_text r.st) _ (λ wl. export_list-Kept wl.0 r)
perform-Kept target elf Words.reloc_word ss r =
    hand_over-Kept (Records.reloc target elf) r (reloc-Kept target elf r.st r.local_flag r.tables)
perform-Kept target elf Words.execute_word ss r =
    hand_over-Kept (Records.reloc_execute target elf) r
      (reloc_execute-Kept target elf r.st r.local_flag r.tables)
perform-Kept target elf Words.addr_word ss r =
    hand_over-Kept (Records.reloc_addr target elf) r
      (reloc_addr-Kept target elf r.st r.local_flag r.tables)
perform-Kept target elf Words.constant_word ss r = Kept-refl r.tables
perform-Kept target elf Words.assoc_start ss r = Kept-refl r.tables
perform-Kept target elf Words.assoc_symbol ss r = add_assoc-Kept r
perform-Kept target elf Words.assoc_wordlist ss r = close_list-Kept r
perform-Kept target elf Words.wl_end_word ss r =
    bind-AllOf (KeptBy r) (Tables.pop_text r.st) _ (λ name. Kept-refl r.tables)
perform-Kept target elf Words.backslash ss r = Kept-refl r.tables
perform-Kept target elf Words.paren ss r = Kept-refl r.tables
perform-Kept target elf Words.other ss r = Kept-refl r.tables

then_Kept :
    (r u : Reader) (o : Option Reader) → KeptBy r u → AllOf (KeptBy u) o → AllOf (KeptBy r) o
then_Kept r u none k h = tt
then_Kept r u (some v) k h = λ a x e. h a x (k a x e)

on_token-Kept :
    (target : Target) (elf : ElfTypes) (loop : Name → Reader → Option Reader)
    (o : Option Lines.Token) (r : Reader)
    → ((s : Name) (r : Reader) → AllOf (KeptBy r) (loop s r))
    → AllOf (KeptBy r) (Lines.on_token target elf loop o r)
unfolding Lines.on_token
on_token-Kept target elf loop none r h = Kept-refl r.tables
on_token-Kept target elf loop (some k) r h =
    if-AllOf (KeptBy r) r.quoting _ _ (h k.rest (Lines.quoted k.ss r)) (
      bind_after-AllOf (KeptBy r) (KeptBy r) _ _
        (perform-Kept target elf (Words.word_of k.ss) k.ss r)
        (λ u kept. then_Kept r u _ kept (h _ u)))

run_tokens-Kept :
    (target : Target) (elf : ElfTypes) (fuel : ℕ) (s : Name) (r : Reader)
    → AllOf (KeptBy r) (Lines.run_tokens target elf fuel s r)
unfolding Lines.run_tokens
run_tokens-Kept target elf zero s r = tt
run_tokens-Kept target elf (suc fuel) s r =
    on_token-Kept target elf _ (Lines.next_token s) r (run_tokens-Kept target elf fuel)

lines_kept :
    (target : Target) (elf : ElfTypes) (ss : List Name) (r : Reader)
    → AllOf (KeptBy r) (Lines.read_lines target elf ss r)
unfolding Lines.read_lines Lines.read_line
lines_kept target elf [] r = Kept-refl r.tables
lines_kept target elf (s ∷ ss) r =
    bind_after-AllOf (KeptBy r) (KeptBy r) _ _
      (run_tokens-Kept target elf (suc (length s)) s (Lines.new_line r))
      (λ u kept. then_Kept r u _ kept (lines_kept target elf ss u))

of_result : (r u : Reader) (o : Option Reader) → o ≡ some u → AllOf (KeptBy r) o → KeptBy r u
of_result r u o e h = subst (AllOf (KeptBy r)) e h

-- Reading more lines, when no assert fails and nothing is taken off an empty stack, leaves every
-- relocation that was recorded before: no line overwrites or removes one.
pub read_lines-keeps :
    (target : Target) (elf : ElfTypes) (ss : List Name) (r r' : Reader) (a : ℕ) (x : Relocation)
    → Lines.read_lines target elf ss r ≡ some r'
    → at a r.tables.relocations ≡ some x
    → at a r'.tables.relocations ≡ some x
read_lines-keeps target elf ss r r' a x e h = of_result r r' _ e (lines_kept target elf ss r) a x h

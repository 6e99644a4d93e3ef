-- ===== src/Reloc/Words.antt =====
-- The variables of `main` in reloc/obj.cpp, and what each word of a line does to them.
use smolforth.Base.{
  ℕ, ◌+◌, ◌-◌, ◌*◌, ◌%◌, ◌^◌, Bool, true, if◌then◌else◌, leb, ltb, ◌==◌, ◌&&◌, ◌||◌,
}
use smolforth.Base.{Option, none, some, List, [], ◌∷◌, ◌++◌, codes, same_text}
use smolforth.Reloc.Texts.{◌>>=◌, text_key, number_key, pair_key}
use smolforth.Reloc.Map.{at, assign, erase}
use smolforth.Reloc.Tables.{
  Name, Target, width, ElfTypes, Limits, Tables, Value, number, pop_number, pop_text, symbol,
  is_empty,
}
use smolforth.Reloc.Records.{reloc, reloc_execute, reloc_addr}

-- The local variables of `main`, of which `st`, `local_flag` and `quoting` begin anew on a line.
pub record Reader : Type 0 where
  pub tables : Tables
  pub wl_end : Name
  pub csection : Name
  pub wl_assocs : List (Name × ℕ)
  pub st : List Value
  pub local_flag : ℕ
  pub quoting : Bool

-- What a token that is not quoted asks for.
pub data Word : Type 0 where
  quote local_word symbol_word section limit wordlist : Word
  reloc_word execute_word addr_word constant_word : Word
  assoc_start assoc_symbol assoc_wordlist wl_end_word : Word
  backslash paren other : Word

abbrev pub words : List (Name × Word)
words =
    (codes "QUOTE", quote)
    ∷ (codes "LOCAL", local_word)
    ∷ (codes "SYMBOL", symbol_word)
    ∷ (codes "SECTION", section)
    ∷ (codes "LIMIT", limit)
    ∷ (codes "WORDLIST", wordlist)
    ∷ (codes "RELOC", reloc_word)
    ∷ (codes "RELOC-EXECUTE", execute_word)
    ∷ (codes "RELOC-ADDR", addr_word)
    ∷ (codes "RELOC-CONSTANT", constant_word)
    ∷ (codes "WL-ASSOC:START", assoc_start)
    ∷ (codes "WL-ASSOC:SYMBOL", assoc_symbol)
    ∷ (codes "WL-ASSOC:WORDLIST", assoc_wordlist)
    ∷ (codes "WL-END", wl_end_word)
    ∷ (codes "\\", backslash)
    ∷ (codes "(", paren)
    ∷ []

unfoldable pub word_in : List (Name × Word) → Name → Word
unfolding same_text
word_in [] ss = other
word_in (w ∷ ws) ss = let rest = word_in ws ss in if same_text ss w.0 then w.1 else rest

unfoldable pub word_of : Name → Word
unfolding word_in
word_of ss = word_in words ss

abbrev pub isspace : ℕ → Bool
isspace c = (c == 32) || (leb 9 c && leb c 13)

-- The value of a hexadecimal digit.
unfoldable pub hex_digit : ℕ → Option ℕ
hex_digit c =
    if leb 48 c && leb c 57
    then some (c - 48)
    else (if leb 65 c && leb c 70
        then some (c - 55)
        else (if leb 97 c && leb c 102 then some (c - 87) else none))

-- The digits in front, from the value of those before.
unfoldable pub hex_prefix : Name → ℕ → ℕ
unfolding hex_digit
hex_prefix [] v = v
hex_prefix (c ∷ cs) v = elim (hex_digit c) [ none ↦ v | some d ↦ hex_prefix cs (v * 16 + d) ]

-- `std::from_chars` with base 16 into `v = 0`, which it leaves alone where the number is too wide.
-- That it stops before the end is only reported.
unfoldable pub from_chars : Target → Name → ℕ
unfolding hex_prefix
from_chars target ss = let v = hex_prefix ss 0 in if ltb v (2 ^ width target) then v else 0

abbrev pub set_st : List Value → Reader → Reader
set_st st r = record r { st = st }

abbrev pub set_tables : Tables → Reader → Reader
set_tables t r = record r { tables = t }

-- `f(std::move(st), local_flag)`: what is left of `st` is empty.
unfoldable pub hand_over : (List Value → ℕ → Tables → Option Tables) → Reader → Option Reader
hand_over f r = do t ← f r.st r.local_flag r.tables; some (set_st [] (set_tables t r))

unfoldable pub set_limits : Name → ℕ → ℕ → Tables → Tables
unfolding at assign
set_limits name start end_ t =
    let old = at name t.section_limits0 in
    let flags : ℕ = elim old [ none ↦ 0 | some l ↦ l.flags ] in
    record t {
      section_limits0 =
          assign name (record { flags = flags; start = start; end_ = end_ }) t.section_limits0;
    }

-- One pair of `wl_assocs` at the end of a word list.
unfoldable pub associate_one : ℕ → Name × ℕ → Tables → Tables
unfolding at assign
associate_one addr e t =
    let known = at (e.0, addr) t.global_symbol_assoc in
    record t {
      global_symbol_assoc = elim known [
        | none ↦ assign (e.0, addr) e.1 t.global_symbol_assoc
        | some _ ↦ t.global_symbol_assoc
      ];
      wordlist_assoc = assign e.1 addr t.wordlist_assoc;
    }

unfoldable pub associate : ℕ → List (Name × ℕ) → Tables → Tables
unfolding associate_one
associate addr [] t = t
associate addr (e ∷ es) t = associate addr es (associate_one addr e t)

-- `WORDLIST`, which leaves its name on the stack.
unfoldable pub export_list : Name → Reader → Reader
unfolding assign
export_list wl r =
    let t = r.tables in
    record r {
      tables =
          if is_empty r.wl_end
          then t
          else record t { wordlist_names_export = assign wl r.wl_end t.wordlist_names_export };
      wl_end = [];
    }

unfoldable pub open_section : Reader → Option Reader
unfolding pop_number pop_text assign
open_section r = do
  flags ← pop_number r.st
  name ← pop_text flags.1
  let limits : Limits = record { flags = flags.0 % 2 ^ 32; start = 0; end_ = 0 }
  some (record r {
    csection = name.0;
    st = name.1;
    tables = record r.tables { section_limits0 = assign name.0 limits r.tables.section_limits0 };
  })

unfoldable pub limit_section : Reader → Option Reader
unfolding pop_number set_limits erase
limit_section r = do
  end_ ← pop_number r.st
  start ← pop_number end_.1
  let t = r.tables
  some (record r {
    st = start.1;
    tables =
        if start.0 == end_.0
        then record t { section_limits0 = erase r.csection t.section_limits0 }
        else set_limits r.csection start.0 end_.0 t;
  })

-- One `pop` that discards: popping an empty stack has no meaning.
unfoldable pub drop_top : List Value → Option (List Value)
drop_top [] = none
drop_top (v ∷ st) = some st

unfoldable pub add_assoc : Reader → Option Reader
unfolding pop_number pop_text drop_top
add_assoc r = do
  n ← pop_text r.st
  addr ← pop_number n.1
  st ← drop_top addr.1
  some (record r { st = st; wl_assocs = r.wl_assocs ++ ((n.0, addr.0) ∷ []) })

unfoldable pub close_list : Reader → Option Reader
unfolding pop_number pop_text assign associate
close_list r = do
  wl ← pop_text r.st
  addr ← pop_number wl.1
  let named = record r.tables { wordlist_names = assign addr.0 wl.0 r.tables.wordlist_names }
  some (record r { st = addr.1; tables = associate addr.0 r.wl_assocs named; wl_assocs = [] })

-- The branches of the chain of tests in `main`, for a token `ss` that is not quoted. What follows
-- the token is for `\` and `(` to drop, and that is done where the line is read.
unfoldable pub perform : Target → ElfTypes → Word → Name → Reader → Option Reader
unfolding pop_text symbol reloc reloc_execute reloc_addr hand_over export_list open_section
    limit_section add_assoc close_list from_chars
perform target elf quote ss r = some (record r { quoting = true })
perform target elf local_word ss r = some (record r { local_flag = 1 })
perform target elf symbol_word ss r = hand_over symbol r
perform target elf section ss r = open_section r
perform target elf limit ss r = limit_section r
perform target elf wordlist ss r = do wl ← pop_text r.st; some (export_list wl.0 r)
perform target elf reloc_word ss r = hand_over (reloc target elf) r
perform target elf execute_word ss r = hand_over (reloc_execute target elf) r
perform target elf addr_word ss r = hand_over (reloc_addr target elf) r
perform target elf constant_word ss r = some r
perform target elf assoc_start ss r = some (record r { wl_assocs = [] })
perform target elf assoc_symbol ss r = add_assoc r
perform target elf assoc_wordlist ss r = close_list r
perform target elf wl_end_word ss r = do
  name ← pop_text r.st
  some (record r { wl_end = name.0; st = name.1 })
perform target elf backslash ss r = some r
perform target elf paren ss r = some r
perform target elf other ss r = some (set_st (number (from_chars target ss) ∷ r.st) r)

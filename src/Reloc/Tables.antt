-- ===== src/Reloc/Tables.antt =====
-- The tables that reloc/obj.cpp collects while it reads, and the words of a record line that add a
-- symbol or a relocation. The relocation types are constants of <elf.h>, which is a parameter.
use smolforth.Base.{
  ℕ, zero, suc, ◌+◌, ◌-◌, ◌/◌, ◌%◌, ◌^◌, Bool, true, false, if◌then◌else◌, ltb, ◌==◌, ◌&&◌,
}
use smolforth.Base.{Option, none, some, List, [], ◌∷◌, ◌++◌, codes, same_text}
use smolforth.Reloc.Texts.{◌>>=◌, ◌>>◌, assert, text_key, number_key, pair_key}
use smolforth.Reloc.Map.{at, assign, emplace_multi}

abbrev pub Name : Type 0
Name = List ℕ

-- TARGET_X86_64, TARGET_RV64 and TARGET_RV32 of the build.
pub data Target : Type 0 where
  x86_64 rv64 rv32 : Target

-- The width of `uintX_t`.
abbrev pub width : Target → ℕ
width x86_64 = 64
width rv64 = 64
width rv32 = 32

-- The relocation types of <elf.h> that the file names.
pub record ElfTypes : Type 0 where
  pub x86_64_64 : ℕ
  pub x86_64_pc32 : ℕ
  pub x86_64_gotpcrel : ℕ
  pub riscv_32 : ℕ
  pub riscv_64 : ℕ
  pub riscv_call : ℕ
  pub riscv_jal : ℕ
  pub riscv_pcrel_hi20 : ℕ
  pub riscv_pcrel_lo12_i : ℕ
  pub riscv_got_hi20 : ℕ

-- The tuple of `relocations`: name, addend, type, word list and whether it is local.
pub record Relocation : Type 0 where
  pub name : Name
  pub addend : ℕ
  pub type : ℕ
  pub word_list : ℕ
  pub local_ : ℕ

-- The tuple of `dup_symbols` and of `global_symbols`.
pub record Symbol : Type 0 where
  pub addr : ℕ
  pub word_addr : ℕ
  pub local_ : ℕ

-- The tuple of `section_limits0`; `flags` is an `int`, by its pattern.
pub record Limits : Type 0 where
  pub flags : ℕ
  pub start : ℕ
  pub end_ : ℕ

-- The maps that reading fills, with the counter `ln` of `lnext`.
pub record Tables : Type 0 where
  pub wordlist_names_export : List (Name × Name)
  pub section_limits0 : List (Name × Limits)
  pub local_symbols : List (Name × ℕ)
  pub dup_symbols : List (Name × Symbol)
  pub global_symbol_assoc : List ((Name × ℕ) × ℕ)
  pub relocations : List (ℕ × Relocation)
  pub wordlist_assoc : List (ℕ × ℕ)
  pub wordlist_names : List (ℕ × Name)
  pub ln : ℕ

-- `std::variant<uintX_t, std::string>`; a stack has its top first.
pub data Value : Type 0 where
  number : ℕ → Value
  text : Name → Value

-- `relocations.at(from) == t`
unfoldable pub same_relocation : Relocation → Relocation → Bool
unfolding same_text
same_relocation r t =
    same_text r.name t.name
    && (r.addend == t.addend)
    && (r.type == t.type)
    && (r.word_list == t.word_list)
    && (r.local_ == t.local_)

-- The assert of `add_relocation` at an entry that is there.
unfoldable pub checked_relocation : Option Relocation → Relocation → ℕ → Tables → Option Tables
unfolding same_relocation assign
checked_relocation none r from t = some (record t { relocations = assign from r t.relocations })
checked_relocation (some old) r from t = do assert (same_relocation old r); some t

unfoldable pub add_relocation : Name → ℕ → ℕ → ℕ → ℕ → ℕ → Tables → Option Tables
unfolding checked_relocation at
add_relocation name word_addr addend from type l t =
    checked_relocation (at from t.relocations)
      (record { name = name; addend = addend; type = type; word_list = word_addr; local_ = l }) from
      t

-- The digits of a number below 10 ^ n, in front of a text.
unfoldable pub digits : ℕ → ℕ → Name → Name
digits zero n s = s
digits (suc k) n s =
    let rest = digits k (n / 10) ((n % 10 + 48) ∷ s) in if ltb n 10 then (n + 48) ∷ s else rest

-- `std::to_string` of a number of at most 64 bits.
unfoldable pub to_string : ℕ → Name
unfolding digits
to_string n = digits 20 n []

-- `lnext`: the next label `.L1`, `.L2`, ... stands for an address.
unfoldable pub lnext : ℕ → Tables → Name × Tables
unfolding to_string assign
lnext addr t =
    let n = codes ".L" ++ to_string (t.ln + 1) in
    (n, record t { ln = t.ln + 1; local_symbols = assign n addr t.local_symbols })

-- `std::get<uintX_t>(st.top()); st.pop();`
unfoldable pub pop_number : List Value → Option (ℕ × List Value)
pop_number (number n ∷ st) = some (n, st)
pop_number _ = none

unfoldable pub pop_text : List Value → Option (Name × List Value)
pop_text (text n ∷ st) = some (n, st)
pop_text _ = none

abbrev pub is_empty : Name → Bool
is_empty [] = true
is_empty (c ∷ cs) = false

-- `symbol` below the name.
unfoldable pub define : Name → List Value → ℕ → Tables → Option Tables
unfolding pop_number same_text emplace_multi
define name st local_flag t = do
  word_addr ← pop_number st
  addr ← pop_number word_addr.1
  let entry : Symbol = record { addr = addr.0; word_addr = word_addr.0; local_ = local_flag }
  some (
      if same_text name (codes "UNKNOWN")
      then t
      else record t { dup_symbols = emplace_multi name entry t.dup_symbols })

unfoldable pub symbol : List Value → ℕ → Tables → Option Tables
unfolding pop_text define
symbol st local_flag t = do
  name ← pop_text st
  (if is_empty name.0 then some t else define name.0 name.1 local_flag t)

-- What the relocation words take off a stack of five below the name: word list, addend and address.
unfoldable pub pop_place : List Value → Option (ℕ × ℕ × ℕ)
unfolding pop_number
pop_place st = do
  word_addr ← pop_number st
  addend ← pop_number word_addr.1
  addr ← pop_number addend.1
  some (word_addr.0, addend.0, addr.0)

-- `v + d` and `v - d` in `uintX_t`
abbrev pub plus : Target → ℕ → ℕ → ℕ
plus target v d = (v + d) % 2 ^ width target

abbrev pub minus : Target → ℕ → ℕ → ℕ
minus target v d = (v + (2 ^ width target - d)) % 2 ^ width target

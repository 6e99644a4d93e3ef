-- ===== src/Reloc/Lines.antt =====
-- `main` of reloc/obj.cpp: the lines of out.txt and their tokens.
use smolforth.Base.{
  ℕ, zero, suc, true, false, if◌then◌else◌, ◌==◌, Option, none, some, List, [], ◌∷◌, length,
}
use smolforth.Reloc.Texts.{◌>>=◌}
use smolforth.Reloc.Tables.{Name, Target, ElfTypes, Tables, text}
use smolforth.Reloc.Words.{Reader, Word, backslash, paren, word_of, isspace, perform}

-- A token of a line, and what follows it.
pub record Token : Type 0 where
  pub ss : Name
  pub rest : Name

abbrev pub longer : ℕ → Token → Token
longer c t = record { ss = c ∷ t.ss; rest = t.rest }

-- The inner `while` over a token.
unfoldable pub to_space : Name → Token
to_space [] = record { ss = []; rest = [] }
to_space (c ∷ cs) =
    let more = to_space cs in if isspace c then record { ss = []; rest = c ∷ cs } else longer c more

-- The next token from `n` on, behind spaces.
unfoldable pub next_token : Name → Option Token
unfolding to_space
next_token [] = none
next_token (c ∷ cs) =
    let more = next_token cs in if isspace c then more else some (longer c (to_space cs))

-- `n = s.find(')', n)` and `++n`; without a `)` nothing is left of the line.
unfoldable pub after_paren : Name → Name
after_paren [] = []
after_paren (c ∷ cs) = let more = after_paren cs in if c == 41 then cs else more

-- What a token leaves of the line.
unfoldable pub left_of : Word → Name → Name
unfolding after_paren
left_of backslash rest = []
left_of paren rest = after_paren rest
left_of _ rest = rest

abbrev pub quoted : Name → Reader → Reader
quoted ss r = record r { st = text ss ∷ r.st; quoting = false }

-- One round of the loop over a line: `loop` goes on from what is left of it.
unfoldable pub on_token :
    Target → ElfTypes → (Name → Reader → Option Reader) → Option Token → Reader → Option Reader
unfolding left_of perform word_of
on_token target elf loop none r = some r
on_token target elf loop (some k) r =
    let go_on = perform target elf (word_of k.ss) k.ss r >>= loop (left_of (word_of k.ss) k.rest) in
    if r.quoting then loop k.rest (quoted k.ss r) else go_on

-- The loop over a line, from where `n` stands.
unfoldable pub run_tokens : Target → ElfTypes → ℕ → Name → Reader → Option Reader
unfolding next_token on_token
run_tokens target elf zero s r = none
run_tokens target elf (suc fuel) s r =
    on_token target elf (run_tokens target elf fuel) (next_token s) r

abbrev pub new_line : Reader → Reader
new_line r = record r { st = []; local_flag = 0; quoting = false }

unfoldable pub read_line : Target → ElfTypes → Name → Reader → Option Reader
unfolding run_tokens
read_line target elf s r = run_tokens target elf (suc (length s)) s (new_line r)

unfoldable pub read_lines : Target → ElfTypes → List Name → Reader → Option Reader
unfolding read_line
read_lines target elf [] r = some r
read_lines target elf (s ∷ ss) r = read_line target elf s r >>= λ r'. read_lines target elf ss r'

-- `std::getline` until the end: the lines of a file, of which the last may have no newline.
unfoldable pub lines_of : Name → List Name
lines_of [] = []
lines_of (c ∷ cs) = elim (c == 10) [ true ↦ [] ∷ lines_of cs | false ↦ onto c (lines_of cs) ]
  where
    onto : ℕ → List Name → List Name
    onto c [] = (c ∷ []) ∷ []
    onto c (s ∷ ss) = (c ∷ s) ∷ ss

abbrev pub no_tables : Tables
no_tables = record {
  wordlist_names_export = [];
  section_limits0 = [];
  local_symbols = [];
  dup_symbols = [];
  global_symbol_assoc = [];
  relocations = [];
  wordlist_assoc = [];
  wordlist_names = [];
  ln = 0;
}

-- The tables that `main` hands to `save_obj`, from the bytes of out.txt.
unfoldable pub read_tables : Target → ElfTypes → Name → Option Tables
unfolding read_lines lines_of
read_tables target elf file =
    read_lines target elf (lines_of file) (record {
      tables = no_tables;
      wl_end = [];
      csection = [];
      wl_assocs = [];
      st = [];
      local_flag = 0;
      quoting = false;
    })
    >>= λ r. some r.tables

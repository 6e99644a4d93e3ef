-- ===== src/Parse.antt =====
-- core/WORD.c and core/PARSE-NAME.c: taking the next token off the input line. The line lies at
-- `sf_header.line_ptr`, and `FORTH$body$PAO` (`pao`, the >IN of Forth) is the offset reached.
pub mod Scan
pub mod Name
pub mod Copy
pub mod Token
use smolforth.Base.{ℕ, zero, suc, ◌+◌, ◌-◌, ◌*◌, ◌%◌, ◌^◌, Bool, true, false, ◌||◌, not}
use smolforth.Base.{if◌then◌else◌, ◌==◌, ltb}
use smolforth.Memory.{Mem, get_byte, set_byte}
use smolforth.Machine.{Machine, M, pure, ◌>>=◌, ◌>>◌, get_mem, put_mem, get_header, put_header}
use smolforth.Stack.{on_st, pop, upush, cell_mod}

-- `isspace` of WORD.c: space, form feed, newline, carriage return, tab, vertical tab.
unfoldable pub isspace : ℕ → Bool
isspace c = (c == 32) || (c == 12) || (c == 10) || (c == 13) || (c == 9) || (c == 11)

unfoldable pub isspace_null : ℕ → Bool
unfolding isspace
isspace_null c = isspace c || (c == 0)

-- `a < b` of signed cells.
unfoldable pub cell_lt : ℕ → ℕ → Bool
cell_lt a b = ltb ((a + 2 ^ 63) % cell_mod) ((b + 2 ^ 63) % cell_mod)

-- Where a loop over the line stands: the offset, the pointer, and the bytes passed.
pub record Place : Type 0 where
  pub offset : ℕ
  pub ptr : ℕ
  pub passed : ℕ

abbrev pub step : Place → Place
step p = record { offset = (p.offset + 1) % cell_mod; ptr = p.ptr + 1; passed = p.passed + 1 }

-- The rounds that a loop up to `lsize` can take from an offset: their distance as cells.
abbrev pub rounds_to : ℕ → ℕ → ℕ
rounds_to pao lsize = (lsize + cell_mod - pao) % cell_mod

-- `while(pao < lsize) { if(!test(*lptr)) break; ++pao; ++lptr; ++i; }` on fuel.
unfoldable pub advance : (ℕ → Bool) → Mem → ℕ → ℕ → Place → Place
unfolding cell_lt
advance test mem lsize zero p = p
advance test mem lsize (suc fuel) p =
    let rest = advance test mem lsize fuel (step p) in
    if cell_lt p.offset lsize then (if test (get_byte mem p.ptr) then rest else p) else p

-- Both words begin by skipping white space and nulls.
unfoldable pub skip_space : Mem → ℕ → Place → Place
unfolding advance isspace_null
skip_space mem lsize p = advance isspace_null mem lsize (rounds_to p.offset lsize) p

unfoldable pub parse_name : M (Unit {0})
unfolding skip_space upush
parse_name = do
  h ← get_header
  mem ← get_mem
  let p : Place = record { offset = h.pao; ptr = (h.line_ptr + h.pao) % cell_mod; passed = 0 }
  let start = skip_space mem h.line_size p
  let stop =
      advance (λ c. not (isspace_null c)) mem h.line_size (rounds_to start.offset h.line_size)
        (record start { passed = 0 })
  put_header (record h { pao = (stop.offset + 1) % cell_mod })
  upush start.ptr on_st
  upush stop.passed on_st

-- What ends a token of WORD: the delimiter, and white space if the delimiter is white space.
unfoldable pub ends_token : ℕ → ℕ → Bool
unfolding isspace_null
ends_token bl c = if isspace bl then isspace_null c else bl == c

-- The loop of WORD that copies the token to `tokenpad`, from index 1 on; `passed` is `i - 1`.
unfoldable pub copy_token : ℕ → ℕ → ℕ → ℕ → Place → Mem → Place × Mem
unfolding cell_lt ends_token
copy_token tokenpad bl lsize zero p mem = (p, mem)
copy_token tokenpad bl lsize (suc fuel) p mem =
    let rest =
      copy_token tokenpad bl lsize fuel (step p)
        (set_byte mem (tokenpad + (p.passed + 1)) (get_byte mem p.ptr)) in
    if cell_lt p.offset lsize
    then (if ends_token bl (get_byte mem p.ptr) then (p, mem) else rest)
    else (p, mem)

-- `tokenpad` is the address of the array of 256 chars, which the linker chooses.
unfoldable pub word : ℕ → M (Unit {0})
unfolding skip_space copy_token pop upush
word tokenpad = do
  bl ← pop on_st
  h ← get_header
  mem ← get_mem
  let p : Place = record { offset = h.pao; ptr = (h.line_ptr + h.pao) % cell_mod; passed = 0 }
  let start = skip_space mem h.line_size p
  let r =
      copy_token tokenpad (bl % 256) h.line_size (rounds_to start.offset h.line_size)
        (record start { passed = 0 }) mem
  put_header (record h { pao = (r.0.offset + 1) % cell_mod })
  put_mem (set_byte r.1 tokenpad r.0.passed)
  upush tokenpad on_st

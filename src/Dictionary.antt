-- ===== src/Dictionary.antt =====
-- The dictionary: arch/x86_64/make_word.c (arch/riscv/make_word.c is the same text), the search of
-- core/find_impl.c, core/to_body.c, core/WL_SET.c and core/NEXT_WORD.c. A word is a cell `w` that
-- links to the word before it; its flags are the byte below it, and its name lies below those,
-- ended by a null byte at the low end.
pub mod Head
pub mod Named
pub mod Search
pub mod Does
use smolforth.Base.{ℕ, zero, suc, ◌+◌, ◌-◌, ◌*◌, ◌%◌, ◌^◌, Bool, true, false, ◌&&◌, ◌||◌, not}
use smolforth.Base.{if◌then◌else◌, ◌==◌, bit_and, bit_or, Option, none, some}
use smolforth.Memory.{Mem, get_byte, set_byte, load, store}
use smolforth.Machine.{M, ◌>>=◌, ◌>>◌, get_mem}
use smolforth.Stack.{on_st, upop, push, upush}
use smolforth.Compiler.{Compiler, set_mem, set_here, here_of}

abbrev pub w_immediate : ℕ
w_immediate = 1

abbrev pub w_exec : ℕ
w_exec = 16

abbrev pub w_runtime : ℕ
w_runtime = 32

abbrev pub w_detached : ℕ
w_detached = 64

abbrev pub w_extended : ℕ
w_extended = 128

abbrev pub section_udata : ℕ
section_udata = 4

-- `WL_SO_MAX`; the last entry is the word list that definitions go to.
abbrev pub wl_so_max : ℕ
wl_so_max = 16

-- The next multiple of 8: `here += 8 - here % 8` unless it is one.
unfoldable pub align_cell : ℕ → ℕ
align_cell p = if p % 8 == 0 then p else p + (8 - p % 8)

-- `memcpy` of `n` bytes to `to`, from the low end up.
unfoldable pub copy_bytes : ℕ → ℕ → ℕ → Mem → Mem
copy_bytes to from zero mem = mem
copy_bytes to from (suc n) mem =
    copy_bytes (to + 1) (from + 1) n (set_byte mem to (get_byte mem from))

-- `if(0 != (flags & mask)) *(w++) = v`
unfoldable pub optional_cell : ℕ → ℕ → ℕ → Mem × ℕ → Mem × ℕ
optional_cell flags mask v (mem, w) =
    if bit_and flags mask == 0 then (mem, w) else (store 8 mem w v, w + 8)

-- The section that the word goes to, and the flags with `W_DETACHED` if it is not the active one.
unfoldable pub word_section : ℕ → Compiler → ℕ × ℕ
word_section flags c =
    if not (c.wdata == 0) || ((c.section_at c.active_section).flags == section_udata)
    then (bit_or flags w_detached, if c.wdata == 0 then c.idata else c.wdata)
    else (flags, c.active_section)

-- Link, flags, name and the null byte of a word at `w`.
unfoldable pub write_head : ℕ → ℕ → ℕ → ℕ → ℕ → Mem → Mem
unfolding copy_bytes
write_head w name nlen flags latest mem =
    set_byte (copy_bytes (w - 1 - nlen) name nlen (set_byte (store 8 mem w latest) (w - 1) flags))
      (w - 2 - nlen) 0

-- `wl_search_order[WL_SO_MAX-1]`
abbrev pub current_list : Compiler → ℕ
current_list c = load 8 c.machine.mem (c.wl_search_order + 8 * (wl_so_max - 1))

unfoldable pub make_word : ℕ → ℕ → ℕ → ℕ → ℕ → Compiler → Compiler
unfolding align_cell write_head optional_cell word_section
make_word name nlen flags0 exec extended c =
    let placed = word_section flags0 c in
    let flags = placed.0 in
    let ws = placed.1 in
    let w = align_cell (here_of ws c) + align_cell (nlen + 2) in
    let aligned = set_here ws (align_cell (here_of ws c)) c in
    let mem = c.machine.mem in
    let head = write_head w name nlen flags (load 8 mem (current_list c)) mem in
    let body = optional_cell flags w_detached (here_of c.active_section aligned) (
      optional_cell flags w_extended extended
        (optional_cell flags (bit_or w_exec w_runtime) exec (head, w + 8))) in
    set_here ws body.1 (set_mem body.0 (record aligned { next_word = w }))

-- A word with a name becomes the latest of the word list; one without is returned.
unfoldable pub forward_word : Compiler → ℕ × Compiler
forward_word c =
    if get_byte c.machine.mem (c.next_word - 2) == 0
    then (c.next_word, c)
    else (0, set_mem (store 8 c.machine.mem (current_list c) c.next_word) c)

-- `while(*n == 1) --n`
unfoldable pub skip_ones : Mem → ℕ → ℕ
skip_ones mem zero = zero
skip_ones mem (suc n) =
    let rest = skip_ones mem n in if get_byte mem (suc n) == 1 then rest else suc n

-- `while(*n) { ++l; --n; }`, the length.
unfoldable pub name_length : Mem → ℕ → ℕ
name_length mem zero = zero
name_length mem (suc n) =
    let rest = name_length mem n in if get_byte mem (suc n) == 0 then zero else rest + 1

-- `memcmp(a, b, n) == 0`
unfoldable pub same_bytes : Mem → ℕ → ℕ → ℕ → Bool
same_bytes mem a b zero = true
same_bytes mem a b (suc n) = (get_byte mem a == get_byte mem b) && same_bytes mem (a + 1) (b + 1) n

unfoldable pub name_eq : Mem → ℕ → ℕ → ℕ → ℕ → Bool
unfolding same_bytes
name_eq mem a al b bl = if al == bl then same_bytes mem a b al else false

-- The test of one word, whose name ends below `w - 1`.
unfoldable pub is_named : Mem → ℕ → ℕ → ℕ → Bool
unfolding skip_ones name_length name_eq
is_named mem c wlen w =
    let n = skip_ones mem (w - 2) in let l = name_length mem n in name_eq mem (n - l + 1) l c wlen

-- `while(w) { ... w = *w; }` on fuel: the word found in one list.
unfoldable pub find_in : Mem → ℕ → ℕ → ℕ → ℕ → Option ℕ
unfolding is_named
find_in mem c wlen zero w = none
find_in mem c wlen (suc fuel) w =
    let rest = find_in mem c wlen fuel (load 8 mem w) in
    if w == 0 then none else (if is_named mem c wlen w then some w else rest)

-- The loop over the search order: `n` entries are left, the next at `at`.
unfoldable pub find_lists : Mem → ℕ → ℕ → ℕ → ℕ → ℕ → Option ℕ
unfolding find_in
find_lists mem c wlen fuel zero at = none
find_lists mem c wlen fuel (suc n) at =
    let wl = load 8 mem at in
    let rest = find_lists mem c wlen fuel n (at + 8) in
    if wl == 0
    then none
    else elim (find_in mem c wlen fuel (load 8 mem wl)) [ none ↦ rest | some w ↦ some w ]

-- What FIND pushes: the word and 1 or -1, or the counted string and 0.
unfoldable pub push_found : Option ℕ → ℕ → M (Unit {0})
unfolding push upush
push_found none c = do upush c on_st; push 0 on_st
push_found (some w) c = do
  upush w on_st
  mem ← get_mem
  push (if bit_and w_immediate (get_byte mem (w - 1)) == 0 then 2 ^ 64 - 1 else 1) on_st

unfoldable pub find : ℕ → ℕ → M (Unit {0})
unfolding upop find_lists push_found
find wl_search_order fuel = do
  c ← upop on_st
  mem ← get_mem
  let found = find_lists mem (c + 1) (get_byte mem c) fuel (wl_so_max - 1) wl_search_order
  push_found found c

unfoldable pub to_body : Mem → ℕ → ℕ
to_body mem ptr =
    let flags = get_byte mem (ptr - 1) in
    let r = ptr + 8 in
    let r1 =
      if not (bit_and flags w_exec == 0)
      then r + 8
      else (if not (bit_and flags w_runtime == 0) then r + 8 else r) in
    let r2 = if not (bit_and flags w_extended == 0) then r1 + 8 else r1 in
    if not (bit_and flags w_detached == 0) then load 8 mem r2 else r2

unfoldable pub wl_set : ℕ → M (Unit {0})
unfolding upop
wl_set wl_search_order m =
    let wl = upop on_st m in (tt, record wl.1 { mem = store 8 wl.1.mem wl_search_order wl.0 })

unfoldable pub next_word_word : Compiler → Compiler
unfolding upush
next_word_word c = record c { machine = (upush c.next_word on_st c.machine).1 }

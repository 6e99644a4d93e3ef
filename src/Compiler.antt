-- ===== src/Compiler.antt =====
-- The state that the compiling words share: the machine, and the sections of config.h that code
-- and data are appended to. Both ports use it.
use smolforth.Base.{◌-◌, ℕ, ◌+◌, ◌*◌, ◌%◌, ◌^◌, List, [], ◌∷◌, if◌then◌else◌, ◌==◌}
use smolforth.Memory.{Mem, store}
use smolforth.Machine.{Machine, Header, M, ◌>>◌}
use smolforth.Stack.{on_st, pop, upop, upush}

-- `struct sf_data_t`, without `word`, which no C code reads.
pub record Section : Type 0 where
  pub start : ℕ
  pub gate : ℕ
  pub here : ℕ
  pub end_ : ℕ
  pub flags : ℕ

-- Sections lie at addresses, since `active_section` and the others may name the same one; 0 is
-- the null pointer. `wl_search_order` is the address of the array, `next_word` of make_word.c.
pub record Compiler : Type 0 where
  pub machine : Machine
  pub section_at : ℕ → Section
  pub active_section : ℕ
  pub cdata : ℕ
  pub idata : ℕ
  pub wdata : ℕ
  pub wl_search_order : ℕ
  pub next_word : ℕ

abbrev pub set_header : Header → Compiler → Compiler
set_header h c = record c { machine = record c.machine { header = h } }

abbrev pub set_mem : Mem → Compiler → Compiler
set_mem mem c = record c { machine = record c.machine { mem = mem } }

-- `++sf_header.csri`
abbrev pub bump_csri : Compiler → Compiler
bump_csri c = set_header (record c.machine.header { csri = (c.machine.header.csri + 1) % 2 ^ 64 }) c

abbrev pub here_of : ℕ → Compiler → ℕ
here_of s c = (c.section_at s).here

unfoldable pub set_here : ℕ → ℕ → Compiler → Compiler
set_here s p c = record c {
  section_at = λ a. if a == s then record (c.section_at s) { here = p } else c.section_at a;
}

-- Words of `n` bytes, one after the other, from an address up.
unfoldable pub store_words : ℕ → List ℕ → ℕ → Mem → Mem
store_words n [] p mem = mem
store_words n (w ∷ ws) p mem = store_words n ws (p + n) (store n mem p w)

unfoldable pub count_words : List ℕ → ℕ
count_words [] = 0
count_words (w ∷ ws) = count_words ws + 1

-- Words appended to a section: each is stored at `here`, which then moves past it.
unfoldable pub emit : ℕ → List ℕ → ℕ → Compiler → Compiler
unfolding store_words count_words set_here
emit n ws s c =
    set_here s (here_of s c + n * count_words ws)
      (set_mem (store_words n ws (here_of s c) c.machine.mem) c)

-- Four cells on the data stack, the first the lowest.
unfoldable pub four_cells : ℕ → ℕ → ℕ → ℕ → M (Unit {0})
unfolding upush
four_cells a b c d = do upush a on_st; upush b on_st; upush c on_st; upush d on_st

unfoldable pub push_four : ℕ → ℕ → ℕ → ℕ → Compiler → Compiler
unfolding four_cells
push_four a b c d s = record s { machine = (four_cells a b c d s.machine).1 }

-- `st -= 3 * sizeof(ucell); addr = upop(&st)`
unfoldable pub pop_target : M ℕ
unfolding upop
pop_target m = upop on_st (record m { st = m.st - 24 })

-- `pop(&st)` for its effect alone.
unfoldable pub drop_cell : Compiler → Compiler
unfolding pop
drop_cell c = record c { machine = (pop on_st c.machine).1 }

-- ===== src/Startup.antt =====
-- Start-up, main.c of each port and `import_plt` of arch/riscv/plt.c: the area for code is mapped,
-- and the tables at its low end are filled with the addresses of the words that are linked into
-- the program. The numbers of table entries count objects in memory, so they do not wrap.
pub mod Stored
pub mod Walk
pub mod Loops
pub mod Lists
pub mod Filled
pub mod Built
pub mod Area
pub mod Ready
pub mod Session
pub mod Ended
pub mod Sources
pub mod Main
pub mod Found
pub mod Linkage
use smolforth.Base.{ℕ, zero, suc, ◌+◌, ◌*◌, ◌%◌, ◌^◌, if◌then◌else◌, ◌==◌}
use smolforth.Base.{Option, none, some, List, [], ◌∷◌}
use mathlib.Core.Option
use smolforth.Memory.{Mem, load, store}
use smolforth.Compiler.{Section, Compiler, set_mem}
use smolforth.Dictionary.{to_body}
use smolforth.RiscV.Compile.{count_words_of, count_got, import_words, import_body, import_exec}
use smolforth.RiscV.Compile as RiscVTables
use smolforth.Amd64.Compile as Amd64Tables

-- `sizeof(struct got_t)`
abbrev pub got_bytes : ℕ
got_bytes = 8

-- The bytes left for code, behind the tables.
abbrev pub code_area : ℕ
code_area = 16 * 1024 * 1024

-- `import_got_words(SF_WL_EXPORT_COUNT, SF_WL_EXPORTED)`: one list after the other.
unfoldable pub import_got_words : ℕ → List ℕ → ℕ × Mem → ℕ × Mem
unfolding import_words
import_got_words fuel [] s = s
import_got_words fuel (f ∷ fs) s = import_got_words fuel fs (import_words fuel f s)

unfoldable pub import_got_body : ℕ → List ℕ → ℕ × Mem → ℕ × Mem
unfolding import_body
import_got_body fuel [] s = s
import_got_body fuel (f ∷ fs) s = import_got_body fuel fs (import_body fuel f s)

unfoldable pub import_got_exec : ℕ → List ℕ → ℕ × Mem → ℕ × Mem
unfolding import_exec
import_got_exec fuel [] s = s
import_got_exec fuel (f ∷ fs) s = import_got_exec fuel fs (import_exec fuel f s)

-- `for(i < word_count) { code_got_start[i].addr = f; f = *f; }`, with `n` rounds left.
unfoldable pub fill_words : ℕ → ℕ → ℕ → Mem → Mem
fill_words zero at f mem = mem
fill_words (suc n) at f mem =
    let stored = store 8 mem at f in fill_words n (at + got_bytes) (load 8 stored f) stored

unfoldable pub fill_bodies : ℕ → ℕ → ℕ → Mem → Mem
unfolding to_body
fill_bodies zero at f mem = mem
fill_bodies (suc n) at f mem =
    let stored = store 8 mem at (to_body mem f) in
    fill_bodies n (at + got_bytes) (load 8 stored f) stored

-- The size of the area: the code, the one table and the other, whose entries have `plt_bytes`.
unfoldable pub area_size : ℕ → ℕ → ℕ → ℕ → ℕ
area_size code_size plt_bytes got plt = (code_size + got * got_bytes + plt * plt_bytes) % 2 ^ 64

-- `code_got_start + code_got_count * sizeof(struct got_t) + code_plt_count * sizeof(struct plt_t)`:
-- the pointer is one to entries, so the bytes that are added to it are counted in entries.
unfoldable pub first_code : ℕ → ℕ → ℕ → ℕ → ℕ
first_code start got plt plt_bytes =
    (start + (got * got_bytes + plt * plt_bytes) * got_bytes) % 2 ^ 64

-- The active section lies over the mapped area, and what is compiled goes from `here` on.
unfoldable pub map_section : ℕ → ℕ → Compiler → Compiler
map_section start here c = record c {
  section_at = λ a.
      if a == c.active_section
      then record (c.section_at c.active_section) { start = start; gate = start; here = here }
      else c.section_at a;
}

unfoldable pub set_end : ℕ → Compiler → Compiler
set_end size c =
    let section = c.section_at c.active_section in
    record c {
      section_at = λ a.
          if a == c.active_section
          then record section { end_ = (section.start + size) % 2 ^ 64 }
          else c.section_at a;
    }

abbrev pub with_end : {T : Type 0} → ℕ → Compiler × T → Compiler × T
with_end size built = (set_end size built.0, built.1)

-- The mapping at `p`, or `none` for `MAP_FAILED`, after which the program exits.
abbrev pub Mmap : Type 0
Mmap = ℕ → Mem → Option (ℕ × Mem)

-- The three parts of the table at `start`, of which the first two have `words` entries.
unfoldable pub import_lists : ℕ → List ℕ → ℕ → ℕ → Mem → Mem
unfolding import_got_words import_got_body import_got_exec
import_lists fuel lists words start mem =
    let a = import_got_words fuel lists (start, mem) in
    let b = import_got_body fuel lists (start + got_bytes * words, a.1) in
    (import_got_exec fuel lists (start + got_bytes * (2 * words), b.1)).1

unfoldable pub fill_main : ℕ → ℕ → ℕ → ℕ → Mem → Mem
unfolding fill_words fill_bodies import_exec
fill_main fuel last words start mem =
    let a = fill_words words start last mem in
    let b = fill_bodies words (start + got_bytes * words) last a in
    (import_exec fuel last (start + got_bytes * (2 * words), b)).1

-- What `import_plt` does with an area at `start`, for `words` words of which `code` have code.
unfoldable pub import_into : ℕ → List ℕ → ℕ → ℕ → ℕ → Mem → Compiler → Compiler × RiscVTables.Tables
unfolding import_lists map_section first_code RiscVTables.init_plt
import_into fuel lists words code start mem c =
    let plt = code + words in
    let got = code + 2 * words in
    let here = first_code start got plt RiscVTables.plt_bytes in
    let built =
      RiscVTables.init_plt
        (record {
          code_got_start = start;
          code_got_count = got;
          code_plt_count = plt;
          code_plt_start = 0;
        })
        (import_lists fuel lists words start mem) in
    (set_mem built.1 (map_section start here c), built.0)

-- The size of the area is returned first.
unfoldable pub import_plt :
    Mmap → ℕ → List ℕ → ℕ → Compiler → Option (ℕ × (Compiler × RiscVTables.Tables))
unfolding count_got area_size import_into
import_plt mmap fuel lists code_size c =
    let n = count_got c.machine.mem fuel lists (0, 0) in
    let got = n.1 + 2 * n.0 in
    let size = area_size code_size RiscVTables.plt_bytes got (n.1 + n.0) in
    Option.map (λ area. (size, import_into fuel lists n.0 n.1 area.0 area.1 c))
      (mmap size c.machine.mem)

-- What main of the x86-64 port does with an area at `start`.
unfoldable pub main_into : ℕ → ℕ → ℕ → ℕ → ℕ → Mem → Compiler → Compiler × Amd64Tables.Tables
unfolding fill_main map_section first_code Amd64Tables.init_plt
main_into fuel last words code start mem c =
    let plt = code + words in
    let got = code + 2 * words in
    let here = first_code start got plt Amd64Tables.plt_bytes in
    let built =
      Amd64Tables.init_plt
        (record {
          code_got_start = start;
          code_got_count = got;
          code_plt_count = plt;
          code_plt_start = 0;
        })
        (fill_main fuel last words start mem) in
    (set_mem built.1 (map_section start here c), built.0)

-- From the counting of the words to `end`, with the latest word in `last`.
unfoldable pub main_tables : Mmap → ℕ → ℕ → Compiler → Option (Compiler × Amd64Tables.Tables)
unfolding count_words_of area_size main_into set_end
main_tables mmap fuel last c =
    let n = count_words_of c.machine.mem fuel last (0, 0) in
    let got = n.1 + 2 * n.0 in
    let size = area_size code_area Amd64Tables.plt_bytes got (n.1 + n.0) in
    Option.map (λ area. with_end size (main_into fuel last n.0 n.1 area.0 area.1 c))
      (mmap size c.machine.mem)

-- The part of main of the RISC-V port that maps the area.
unfoldable pub riscv_main_tables :
    Mmap → ℕ → List ℕ → Compiler → Option (Compiler × RiscVTables.Tables)
unfolding import_plt set_end
riscv_main_tables mmap fuel lists c =
    Option.map (λ built. with_end built.0 built.1) (import_plt mmap fuel lists code_area c)

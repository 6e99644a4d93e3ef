-- ===== src/Environment.antt =====
-- ENVIRONMENT?: arch/x86_64/core/ENVIRONMENT_question.c and arch/riscv/core/ENVIRONMENT_question.c.
-- Both search a table of queries from its start; they compare a query with the string on the stack
-- in different ways. What a build includes of the table is chosen by the preprocessor, so the
-- choices are Booleans, and the lines of the generated header are a parameter.
pub mod Search
use smolforth.Base.{
  ℕ, zero, suc, ◌+◌, ◌-◌, ◌*◌, ◌/◌, ◌%◌, ◌^◌, Bool, true, false, if◌then◌else◌, ◌==◌, ◌&&◌, not,
  ltb,
}
use smolforth.Base.{Option, none, some, List, [], ◌∷◌, ◌++◌, codes, length}
use smolforth.Memory.{Mem, get_byte}
use smolforth.Machine.{Machine, M, pure, ◌>>=◌, ◌>>◌, get_mem}
use smolforth.Stack.{on_st, pop, upop, push, upush, dpush, udpush}

-- `struct query_t`: `f` chooses between a constant and a function.
pub data Answer : Type 0 where
  constant : ℕ → Answer
  call : M (Unit {0}) → Answer

pub record Query : Type 0 where
  pub q : List ℕ
  pub answer : Answer

-- What the functions read of `sf_header` and of plt.h.
pub record Sizes : Type 0 where
  pub stack_size : ℕ
  pub return_stack_size : ℕ
  pub code_got_start : ℕ
  pub code_got_count : ℕ

abbrev pub minus_one : ℕ
minus_one = 2 ^ 64 - 1

unfoldable pub max_d : M (Unit {0})
unfolding dpush
max_d = dpush (2 ^ 127 - 1) on_st

unfoldable pub max_ud : M (Unit {0})
unfolding udpush
max_ud = udpush (2 ^ 128 - 1) on_st

unfoldable pub stack_cells : Sizes → M (Unit {0})
unfolding push
stack_cells z = push z.stack_size on_st

unfoldable pub return_stack_cells : Sizes → M (Unit {0})
unfolding push
return_stack_cells z = push z.return_stack_size on_st

unfoldable pub push_got : Sizes → M (Unit {0})
unfolding upush
push_got z = do upush z.code_got_start on_st; upush z.code_got_count on_st

abbrev pub flag : List ℕ → Query
flag q = record { q = q; answer = constant minus_one }

abbrev pub number : List ℕ → ℕ → Query
number q i = record { q = q; answer = constant i }

abbrev pub calls : List ℕ → M (Unit {0}) → Query
calls q f = record { q = q; answer = call f }

abbrev pub when : Bool → List Query → List Query
when b qs = if b then qs else []

-- `SF_HAS_EMBEDDED`, `SF_WANTS_EMBEDDED`, `SF_HAS_FREESTANDING` and `OPTIM_LEVEL`.
pub record Build : Type 0 where
  pub has_embedded : Bool
  pub wants_embedded : Bool
  pub has_freestanding : Bool
  pub optim_level : ℕ

-- The entries of both tables from FLOORED to EMBEDDED.
unfoldable pub limits : Build → Sizes → List Query
unfolding max_d max_ud stack_cells return_stack_cells
limits b z =
    number (codes "FLOORED") 0
    ∷ number (codes "MAX-CHAR") 255
    ∷ calls (codes "MAX-D") max_d
    ∷ calls (codes "MAX-UD") max_ud
    ∷ number (codes "MAX-N") (2 ^ 63 - 1)
    ∷ number (codes "MAX-U") (2 ^ 64 - 1)
    ∷ (if b.has_embedded
        then flag (codes "EMBEDDED") ∷ []
        else calls (codes "STACK-CELLS") (stack_cells z)
          ∷ calls (codes "RETURN-STACK-CELLS") (return_stack_cells z)
          ∷ number (codes "WORDLISTS") 16
          ∷ when b.wants_embedded (flag (codes "EMBEDDED") ∷ []))

-- The entries up to ADDRESS-UNIT-BITS.
unfoldable pub sizes_queries : List Query
sizes_queries =
    number (codes "/COUNTED-STRING") 256
    ∷ number (codes "/HOLD") 255
    ∷ number (codes "/PAD") 84
    ∷ number (codes "ADDRESS-UNIT-BITS") 64
    ∷ []

-- `queries` of the x86-64 file; `included` is what "../environment_queries.h" holds.
unfoldable pub x86_queries : Build → Sizes → List Query → List Query
unfolding sizes_queries limits
x86_queries b z included =
    sizes_queries
    ++ (flag (codes "CORE")
        ∷ flag (codes "CORE-EXT")
        ∷ flag (codes "X86-64")
        ∷ flag (codes "EXCEPTION")
        ∷ flag (codes "EXCEPTION-EXT")
        ∷ [])
    ++ limits b z
    ++ included
    ++ (number (codes "OPTIMIZATION-LEVEL") b.optim_level ∷ [])

unfoldable pub riscv_queries : Build → Sizes → List Query → List Query
unfolding sizes_queries limits push_got
riscv_queries b z included =
    sizes_queries
    ++ (flag (codes "CORE")
        ∷ flag (codes "CORE-EXT")
        ∷ flag (codes "EXCEPTION")
        ∷ flag (codes "EXCEPTION-EXT")
        ∷ flag (codes "RISCV")
        ∷ flag (codes "RV64")
        ∷ [])
    ++ limits b z
    ++ when b.has_freestanding (flag (codes "FREESTANDING") ∷ [])
    ++ when (not b.has_embedded && not b.has_freestanding) (calls (codes "GOT") (push_got z) ∷ [])
    ++ (number (codes "OPTIMIZATION-LEVEL") b.optim_level ∷ [])
    ++ included

-- `memcmp(q, s, l) == 0` of a query and as many bytes of memory.
unfoldable pub same_as : List ℕ → Mem → ℕ → Bool
same_as [] mem s = true
same_as (c ∷ cs) mem s = (c == get_byte mem s) && same_as cs mem (s + 1)

-- An `int` as the `size_t` that it is compared with.
unfoldable pub size_of_int : ℕ → ℕ
size_of_int l = if ltb l (2 ^ 31) then l else l + (2 ^ 64 - 2 ^ 32)

-- `strlen(q->q) == l && memcmp(q->q, s, l) == 0`
unfoldable pub x86_matches : List ℕ → ℕ → Mem → ℕ → Bool
unfolding same_as size_of_int
x86_matches q l mem s = (length q == size_of_int l) && same_as q mem s

-- The inner loop of the RISC-V file: `i` is an `int` that counts down with `qp` and `sp`.
unfoldable pub riscv_matches : List ℕ → ℕ → Mem → ℕ → Bool
riscv_matches [] i mem sp = i == 0
riscv_matches (c ∷ cs) i mem sp =
    let rest = riscv_matches cs ((i + (2 ^ 32 - 1)) % 2 ^ 32) mem (sp + 1) in
    if i == 0 then false else (if c == get_byte mem sp then rest else false)

abbrev pub Matcher : Type 0
Matcher = List ℕ → ℕ → Mem → ℕ → Bool

-- The outer loop, up to the entry without a name.
unfoldable pub find_query : Matcher → List Query → ℕ → Mem → ℕ → Option Answer
find_query matches [] l mem s = none
find_query matches (q ∷ qs) l mem s =
    let rest = find_query matches qs l mem s in if matches q.q l mem s then some q.answer else rest

unfoldable pub give : Option Answer → M (Unit {0})
unfolding push
give none = push 0 on_st
give (some (constant i)) = do push i on_st; push minus_one on_st
give (some (call f)) = do f; push minus_one on_st

unfoldable pub environment_query : Matcher → List Query → M (Unit {0})
unfolding pop upop find_query give
environment_query matches queries = do
  l ← pop on_st
  s ← upop on_st
  mem ← get_mem
  give (find_query matches queries (l % 2 ^ 32) mem s)

unfoldable pub x86_environment_query : List Query → M (Unit {0})
unfolding environment_query x86_matches
x86_environment_query queries = environment_query x86_matches queries

unfoldable pub riscv_environment_query : List Query → M (Unit {0})
unfolding environment_query riscv_matches
riscv_environment_query queries = environment_query riscv_matches queries

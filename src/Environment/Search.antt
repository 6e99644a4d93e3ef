-- ===== src/Environment/Search.antt =====
-- The two ways to compare a query agree, and what ENVIRONMENT? leaves on the stack.
use smolforth.Base.{
  ℕ, zero, suc, ◌+◌, ◌-◌, ◌%◌, ◌^◌, ◌<◌, ◌≡◌, refl, arith, ap, ◌∙◌, sym, Bool, false, if◌then◌else◌,
  ◌==◌, ◌&&◌,
}
use smolforth.Base.{Option, none, some, List, [], ◌∷◌, length, same_text, Bool-cases, inl, inr}
use smolforth.Memory.{Mem, get_byte}
use smolforth.Machine.{Machine}
use smolforth.Stack.{on_st, pop, upop, push}
use smolforth.Stack.Laws.{Holds, pop-Holds, upop-Holds, push-Holds}
use smolforth.Environment
use mathlib.Core.Path.{subst}

abbrev pub IsCell : Environment.Answer → Type 0
IsCell (Environment.constant i) = i < 2 ^ 64
IsCell (Environment.call f) = Unit {0}

-- Every query has a name that an `int` can count, and every constant is a cell.
abbrev pub IsTable : List Environment.Query → Type 0
IsTable [] = Unit {0}
IsTable (q ∷ qs) = (length q.q < 2 ^ 31) × IsCell q.answer × IsTable qs

size_agrees : (n l : ℕ) → n < 2 ^ 31 → l < 2 ^ 32 → (n == Environment.size_of_int l) ≡ (n == l)
unfolding Environment.size_of_int
size_agrees n l short fits = ground arith

-- The loop counts down as it compares; it needs no length beforehand.
loop_compares :
    (q : List ℕ) (l : ℕ) (mem : Mem) (s : ℕ)
    → length q < 2 ^ 31
    → l < 2 ^ 32
    → Environment.riscv_matches q l mem s ≡ ((length q == l) && Environment.same_as q mem s)
unfolding Environment.riscv_matches Environment.same_as
loop_compares [] l mem s short fits = ground arith
loop_compares (c ∷ cs) zero mem s short fits = ground arith
loop_compares (c ∷ cs) (suc l) mem s short fits =
    let e : (suc l + (2 ^ 32 - 1)) % 2 ^ 32 ≡ l = omega arith in
    let ih = loop_compares cs l mem (s + 1) (omega arith) (omega arith) in
    rw (e, ih) (regroup (length cs) l (c == get_byte mem s) (Environment.same_as cs mem (s + 1)))
  where
    regroup :
        (n l : ℕ) (b t : Bool)
        → (if suc l == 0 then false else (if b then (n == l) && t else false))
          ≡ ((suc n == suc l) && (b && t))
    regroup n l b t = ground arith

matches_agree :
    (q : List ℕ) (l : ℕ) (mem : Mem) (s : ℕ)
    → length q < 2 ^ 31
    → l < 2 ^ 32
    → Environment.riscv_matches q l mem s ≡ Environment.x86_matches q l mem s
unfolding Environment.x86_matches
matches_agree q l mem s short fits =
    loop_compares q l mem s short fits
    ∙ ap (λ t. t && Environment.same_as q mem s) (sym (size_agrees (length q) l short fits))

find_agrees :
    (qs : List Environment.Query) (l : ℕ) (mem : Mem) (s : ℕ)
    → IsTable qs
    → l < 2 ^ 32
    → Environment.find_query Environment.riscv_matches qs l mem s
      ≡ Environment.find_query Environment.x86_matches qs l mem s
unfolding Environment.find_query
find_agrees [] l mem s short fits = refl
find_agrees (q ∷ qs) l mem s short fits =
    rw (matches_agree q.q l mem s short.0 fits, find_agrees qs l mem s short.2 fits) refl

-- Over one table of queries, none of which is longer than an `int` counts, the two ports answer
-- every query alike: the loop that compares while it counts down, and the test of the length that
-- `memcmp` follows, leave the same stack, memory and state.
pub riscv_environment_query-x86 :
    (queries : List Environment.Query) (m : Machine)
    → IsTable queries
    → Environment.riscv_environment_query queries m ≡ Environment.x86_environment_query queries m
unfolding Environment.riscv_environment_query Environment.x86_environment_query
    Environment.environment_query
riscv_environment_query-x86 queries m short =
    let l = pop on_st m in
    let s = upop on_st l.1 in
    ap (λ o. Environment.give o s.1)
      (find_agrees queries (l.0 % 2 ^ 32) s.1.mem s.0 short (omega arith))

-- The first answer in the table to a name.
unfoldable pub lookup : List ℕ → List Environment.Query → Option Environment.Answer
lookup name [] = none
lookup name (q ∷ qs) = if same_text q.q name then some q.answer else lookup name qs

-- The string on the stack is this name.
abbrev pub IsAt : Mem → ℕ → List ℕ → Type 0
IsAt mem s [] = Unit {0}
IsAt mem s (c ∷ cs) = (get_byte mem s ≡ c) × IsAt mem (s + 1) cs

compares_text :
    (q name : List ℕ) (mem : Mem) (s : ℕ)
    → IsAt mem s name
    → ((length q == length name) && Environment.same_as q mem s) ≡ same_text q name
unfolding Environment.same_as same_text
compares_text [] [] mem s h = refl
compares_text [] (y ∷ ys) mem s h = ground arith
compares_text (x ∷ xs) [] mem s h = ground arith
compares_text (x ∷ xs) (y ∷ ys) mem s h =
    let ih = compares_text xs ys mem (s + 1) h.1 in
    rw h.0 (regroup (length xs) (length ys) (x == y) _ _ ih)
  where
    regroup :
        (n l : ℕ) (b t u : Bool) → ((n == l) && t) ≡ u → ((suc n == suc l) && (b && t)) ≡ (b && u)
    regroup n l b t u e = ground arith

find_lookup :
    (qs : List Environment.Query) (name : List ℕ) (mem : Mem) (s : ℕ)
    → IsTable qs
    → IsAt mem s name
    → length name < 2 ^ 31
    → Environment.find_query Environment.riscv_matches qs (length name) mem s ≡ lookup name qs
unfolding Environment.find_query lookup
find_lookup [] name mem s table h short = refl
find_lookup (q ∷ qs) name mem s table h short =
    rw
      (
        loop_compares q.q (length name) mem s table.0 (omega arith),
        compares_text q.q name mem s h,
        find_lookup qs name mem s table.2 h short,
      )
      refl

lookup-IsCell :
    (name : List ℕ) (qs : List Environment.Query) (a : Environment.Answer)
    → IsTable qs
    → lookup name qs ≡ some a
    → IsCell a
unfolding lookup
lookup-IsCell name [] a table h = cc
lookup-IsCell name (q ∷ qs) a table h = elim (Bool-cases (same_text q.q name)) [
  | inl same ↦ subst IsCell (some_eq (rw same at h)) table.1
  | inr other ↦ lookup-IsCell name qs a table.2 (rw other at h)
]
  where
    some_eq : {x y : Environment.Answer} → some x ≡ some y → x ≡ y
    some_eq e = cc

-- The stack after ENVIRONMENT?, for each kind of answer. `m` is the machine without its string.
abbrev pub Answered : Option Environment.Answer → Machine → Machine → List ℕ → Type 0
Answered none m m' xs = Holds on_st m' (0 ∷ xs)
Answered (some (Environment.constant i)) m m' xs = Holds on_st m' (Environment.minus_one ∷ i ∷ xs)
Answered (some (Environment.call f)) m m' xs =
    (Holds on_st m xs) × (m' ≡ (push Environment.minus_one on_st (f m).1).1)

give-Answered :
    (o : Option Environment.Answer) (m : Machine) (xs : List ℕ)
    → ((a : Environment.Answer) → o ≡ some a → IsCell a)
    → Holds on_st m xs
    → Answered o m (Environment.give o m).1 xs
unfolding Environment.give
give-Answered none m xs cell h = push-Holds on_st m 0 xs (omega arith) h
give-Answered (some (Environment.constant i)) m xs cell h =
    push-Holds on_st (push i on_st m).1 Environment.minus_one (i ∷ xs) (omega arith)
      (push-Holds on_st m i xs (cell (Environment.constant i) refl) h)
give-Answered (some (Environment.call f)) m xs cell h = (h, refl)

two_pops_mem : (m : Machine) → (upop on_st (pop on_st m).1).1.mem ≡ m.mem
unfolding pop upop
two_pops_mem m = refl

-- ENVIRONMENT? takes a string off the stack. If the table has a query of that name, it answers
-- the first: a constant and -1 above it, or what the query's function does and then -1. If it has
-- none, it leaves 0 alone. The string is shorter than 2^31 bytes, and lies in memory.
pub riscv_environment_query-Answered :
    (queries : List Environment.Query) (name : List ℕ) (s : ℕ) (m : Machine) (xs : List ℕ)
    → IsTable queries
    → length name < 2 ^ 31
    → Holds on_st m (length name ∷ s ∷ xs)
    → IsAt m.mem s name
    → Answered
        (lookup name queries)
        (upop on_st (pop on_st m).1).1
        (Environment.riscv_environment_query queries m).1
        xs
unfolding Environment.riscv_environment_query Environment.environment_query
riscv_environment_query-Answered queries name s m xs table short holds h =
    let l = pop-Holds on_st m (length name) (s ∷ xs) holds in
    let rest = upop-Holds on_st (pop on_st m).1 s xs l.1 in
    let n : length name % 2 ^ 32 ≡ length name = omega arith in
    let m2 = (upop on_st (pop on_st m).1).1 in
    let at = subst (λ mem. IsAt mem s name) (sym (two_pops_mem m)) h in
    let found : Environment.find_query Environment.riscv_matches queries ((pop on_st m).0 % 2 ^ 32)
          m2.mem (upop on_st (pop on_st m).1).0
        ≡ lookup name queries =
      rw (l.0, n, rest.0) (find_lookup queries name m2.mem s table at short) in
    subst (λ o. Answered (lookup name queries) m2 (Environment.give o m2).1 xs) (sym found)
      (give-Answered (lookup name queries) m2 xs (λ a e. lookup-IsCell name queries a table e)
        rest.1)

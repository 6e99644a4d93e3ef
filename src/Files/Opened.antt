-- ===== src/Files/Opened.antt =====
-- What OPEN-FILE and CREATE-FILE leave on the stack, and what they ask of the system.
use smolforth.Base.{
  ℕ, ◌^◌, ◌<◌, ◌≡◌, refl, arith, Bool, true, false, if◌then◌else◌, Option, none, some, List, ◌∷◌,
}
use smolforth.Memory.{Mem}
use smolforth.Machine.{Machine}
use smolforth.Stack.{on_st, pop, upop, push}
use smolforth.Stack.Laws.{Holds, pop-Holds, upop-Holds, push-Holds}
use smolforth.Files.{bytes_at, not_positive, minus_one, push_two}
use smolforth.Files.Paths
use smolforth.Files.Paths.{
  OpenCall, OpenFlags, open_flags, create_flags, c_string, mode_of, open_named, push_found,
}
use mathlib.Core.Path.{subst}

-- The answer of the system on top of the stack: a number and 0, or 0 and -1.
abbrev pub found_cells : Option ℕ → List ℕ → List ℕ
found_cells none xs = minus_one ∷ 0 ∷ xs
found_cells (some n) xs = 0 ∷ n ∷ xs

-- What the words ask: nothing without a name, or without an access method.
unfoldable pub asked :
    {Os : Type 0} → OpenCall Os → Option ℕ → List ℕ → Bool → Option ℕ → Os → Option ℕ × Os
asked open_ permissions path true flags os = (none, os)
asked open_ permissions path false none os = (none, os)
asked open_ permissions path false (some flags) os = open_ path flags permissions os

-- A descriptor is a cell.
abbrev pub IsCell : Option ℕ → Type 0
IsCell none = Unit {0}
IsCell (some n) = n < 2 ^ 64

push_found-Holds :
    (o : Option ℕ) (m : Machine) (xs : List ℕ)
    → IsCell o
    → Holds on_st m xs
    → Holds on_st (push_found o m).1 (found_cells o xs)
unfolding push_found push_two
push_found-Holds none m xs cell h =
    push-Holds on_st (push 0 on_st m).1 minus_one (0 ∷ xs) (omega arith)
      (push-Holds on_st m 0 xs (omega arith) h)
push_found-Holds (some n) m xs cell h =
    push-Holds on_st (push n on_st m).1 0 (n ∷ xs) (omega arith) (push-Holds on_st m n xs cell h)

three_pops_mem : (m : Machine) → (upop on_st (pop on_st (pop on_st m).1).1).1.mem ≡ m.mem
unfolding pop upop
three_pops_mem m = refl

module _ {Os : Type 0} (open_ : OpenCall Os) where
  -- A result of the model is what was asked, on the stack.
  abbrev Answers : Option ℕ × Os → List ℕ → Machine × Os → Type 0
  Answers a xs r = Holds on_st r.0 (found_cells a.0 xs) × (r.1 ≡ a.1)

  -- The result for an access method, and the length and address of a name in memory.
  abbrev IsRight : (ℕ → Option ℕ) → Option ℕ → Os → List ℕ → Machine × Os → ℕ → ℕ → ℕ → Mem → Type 0
  IsRight flags permissions os xs r fam u addr mem =
      Answers
        (asked open_ permissions (c_string (bytes_at mem addr u)) (not_positive u)
          (flags (mode_of fam)) os)
        xs r

  path-Answers :
      (flags permissions : Option ℕ) (path : List ℕ) (none_given : Bool) (m : Machine) (xs : List ℕ)
      (os : Os)
      → ((p : List ℕ) (f : ℕ) (os : Os) → IsCell (open_ p f permissions os).0)
      → Holds on_st m xs
      → Answers (asked open_ permissions path none_given flags os) xs (
          if none_given
          then ((push_found none m).1, os)
          else Paths.open_path open_ path flags permissions m os)
  unfolding asked Paths.open_path
  path-Answers flags permissions path true m xs os cell h = (push_found-Holds none m xs tt h, refl)
  path-Answers none permissions path false m xs os cell h = (push_found-Holds none m xs tt h, refl)
  path-Answers (some f) permissions path false m xs os cell h =
      (push_found-Holds _ m xs (cell path f os) h, refl)

  -- OPEN-FILE (and CREATE-FILE, by other flags) takes the access method, the length and the address
  -- of a name. With a length below 1, or an access method without one of its three low bits, it asks
  -- the system nothing and leaves 0 and -1. Otherwise it asks it once, for the name up to its first
  -- null byte and the flags of the method, and leaves the descriptor and 0, or 0 and -1 on an error.
  pub open_named-Answers :
      (flags : ℕ → Option ℕ) (permissions : Option ℕ) (fam u addr : ℕ) (m : Machine) (xs : List ℕ)
      (os : Os)
      → ((p : List ℕ) (f : ℕ) (os : Os) → IsCell (open_ p f permissions os).0)
      → Holds on_st m (fam ∷ u ∷ addr ∷ xs)
      → (let a =
            asked open_ permissions
              (c_string (bytes_at m.mem addr u))
              (not_positive u)
              (flags (mode_of fam))
              os in
          let r = open_named open_ flags permissions m os in
          Holds on_st r.0 (found_cells a.0 xs) × (r.1 ≡ a.1))
  unfolding open_named
  open_named-Answers flags permissions fam u addr m xs os cell h =
      let m1 = pop on_st m in
      let m2 = pop on_st m1.1 in
      let m3 = upop on_st m2.1 in
      let f = pop-Holds on_st m fam (u ∷ addr ∷ xs) h in
      let n = pop-Holds on_st m1.1 u (addr ∷ xs) f.1 in
      let a = upop-Holds on_st m2.1 addr xs n.1 in
      let r = open_named open_ flags permissions m os in
      let found =
        path-Answers (flags (mode_of m1.0)) permissions (c_string (bytes_at m3.1.mem m3.0 m2.0))
          (not_positive m2.0) m3.1 xs os cell a.1 in
      subst (λ x. IsRight flags permissions os xs r x u addr m.mem) f.0
        (subst (λ x. IsRight flags permissions os xs r m1.0 x addr m.mem) n.0
          (subst (λ x. IsRight flags permissions os xs r m1.0 m2.0 x m.mem) a.0
            (subst (λ mem. IsRight flags permissions os xs r m1.0 m2.0 m3.0 mem) (three_pops_mem m)
              found)))

-- ===== src/Reloc/Chain.antt =====
-- `in_any_section` finds a section that has the address, and `qualify_wordlist_name` joins the names
-- of a list and of those around it.
use smolforth.Base.{
  ℕ, zero, suc, ◌<◌, ◌≤◌, ◌≡◌, ◌⊎◌, refl, arith, leb, ltb, ◌&&◌, Bool-cases, inl, inr,
}
use smolforth.Base.{
  Option, none, some, List, [], ◌∷◌, ◌++◌, length, length-append, codes, ◌≢◌, sym, ◌∙◌, ap, ==_iff,
  ◌==◌, Bool, false, not, if◌then◌else◌,
}
use mathlib.Core.List.{append_assoc}
use smolforth.Reloc.Texts.{number_key}
use smolforth.Reloc.Map.{at}
use smolforth.Reloc.Tables.{Name}
use smolforth.Reloc.Names
use smolforth.Reloc.Names.{Section}

-- A section has an address from its start up to its end.
abbrev pub Has : Section → ℕ → Type 0
Has s addr = (s.start ≤ addr) × (addr < s.end_)

-- The answer for an address: a section that has it, before which none does, or no section at all.
abbrev pub IsSectionOf : List (ℕ × Section) → ℕ → Option ℕ → Type 0
IsSectionOf [] addr o = o ≡ none
IsSectionOf (p ∷ ps) addr o =
    (Has p.1 addr × (o ≡ some p.0)) ⊎ ((¬ Has p.1 addr) × IsSectionOf ps addr o)

-- The answer is the number of the first section that has the address; it is -1 exactly when no
-- section has it.
pub in_any_section-IsSectionOf :
    (ps : List (ℕ × Section)) (addr : ℕ) → IsSectionOf ps addr (Names.in_any_section ps addr)
unfolding Names.in_any_section
in_any_section-IsSectionOf [] addr = refl
in_any_section-IsSectionOf (p ∷ ps) addr =
    elim (Bool-cases (leb p.1.start addr && ltb addr p.1.end_)) [
      | inl here ↦ inl (ground arith, rw here refl)
      | inr there ↦ inr ((λ h. ground arith), rw there (in_any_section-IsSectionOf ps addr))
    ]

-- The list of `addr` stands in none: it has no entry, or that of itself or of FORTH.
abbrev pub IsOutermost : Names.Lists → ℕ → Type 0
IsOutermost l addr =
    (at addr l.assoc ≡ none) ⊎ (at addr l.assoc ≡ some addr) ⊎ (at addr l.assoc ≡ some l.forth)

-- It stands in the list `wl`, another than itself and FORTH.
abbrev pub StandsIn : Names.Lists → ℕ → ℕ → Type 0
StandsIn l addr wl = (at addr l.assoc ≡ some wl) × (wl ≢ addr) × (wl ≢ l.forth)

-- What `name` is put behind: the names of the lists around the list of `addr`, the outermost first,
-- each with a `$` after it.
pub data Around (l : Names.Lists) : ℕ → List Name → Type 0 where
  outermost : (addr : ℕ) → IsOutermost l addr → Around l addr []
  inside :
      (addr wl : ℕ) (name : Name) (names : List Name)
      → StandsIn l addr wl
      → at wl l.names ≡ some name
      → Around l wl names
      → Around l addr (names ++ (name ∷ []))

-- Names with a `$` after each, and a last one.
unfoldable pub with_dollars : List Name → Name → Name
with_dollars [] last = last
with_dollars (n ∷ ns) last = n ++ (b'$' ∷ with_dollars ns last)

with_dollars-last :
    (ns : List Name) (m n : Name)
    → with_dollars (ns ++ (m ∷ [])) n ≡ Names.joined (with_dollars ns m) n
unfolding with_dollars
with_dollars-last [] m n = sym (append_assoc m (codes "$") n)
with_dollars-last (k ∷ ns) m n =
    ap (λ (t : Name). k ++ (b'$' ∷ t)) (with_dollars-last ns m n)
    ∙ sym (append_assoc k (b'$' ∷ with_dollars ns m ++ codes "$") n)
    ∙ ap (λ (t : Name). t ++ n) (sym (append_assoc k (b'$' ∷ with_dollars ns m) (codes "$")))

outer-IsOutermost :
    (l : Names.Lists) (addr : ℕ) → IsOutermost l addr → Names.outer l.assoc l.forth addr ≡ none
unfolding Names.outer
outer-IsOutermost l addr (inl missing) = rw missing refl
outer-IsOutermost l addr (inr (inl itself)) = rw (itself, (==_iff addr addr).1 refl) refl
outer-IsOutermost l addr (inr (inr forth)) =
    rw (forth, (==_iff l.forth l.forth).1 refl) (if_none (l.forth == addr))
  where
    if_none : (b : Bool) → (if not b && false then some l.forth else none) ≡ none
    if_none b = ground arith

outer-StandsIn :
    (l : Names.Lists) (addr wl : ℕ)
    → StandsIn l addr wl
    → Names.outer l.assoc l.forth addr ≡ some wl
unfolding Names.outer
outer-StandsIn l addr wl h = rw (h.0, other wl addr h.1, other wl l.forth h.2) refl
  where
    other : (a b : ℕ) → a ≢ b → (a == b) ≡ false
    other a b h = ground arith

qualify-joins :
    (l : Names.Lists) (fuel addr : ℕ) (names : List Name) (own : Name)
    → Around l addr names
    → at addr l.names ≡ some own
    → length names < fuel
    → Names.qualify l.assoc l.names l.forth fuel addr ≡ some (with_dollars names own)
unfolding Names.qualify Names.put_behind with_dollars
qualify-joins l zero addr names own around at_own enough = absurd (omega arith)
qualify-joins l (suc fuel) addr _ own (outermost _ h) at_own enough =
    rw (outer-IsOutermost l addr h) at_own
qualify-joins l (suc fuel) addr _ own (inside _ wl name names h at_name r) at_own enough =
    rw
      (
        outer-StandsIn l addr wl h,
        qualify-joins l fuel wl names name r at_name
            (omega (arith, length-append names (name ∷ []))),
        at_own,
        with_dollars-last names name own,
      )
      refl

-- The qualified name of a list is its own name behind the names of the lists around it, the
-- outermost first and a `$` after each. A list stands in the one of its entry in `wordlist_assoc`,
-- unless that is itself or FORTH; every list of the chain has a name, and there are at most as many
-- lists around as there are entries in `wordlist_assoc`.
pub qualify_wordlist_name-joins :
    (l : Names.Lists) (addr : ℕ) (names : List Name) (own : Name)
    → Around l addr names
    → at addr l.names ≡ some own
    → length names ≤ length l.assoc
    → Names.qualify_wordlist_name l addr ≡ some (with_dollars names own)
unfolding Names.qualify_wordlist_name
qualify_wordlist_name-joins l addr names own around at_own enough =
    qualify-joins l (suc (length l.assoc)) addr names own around at_own (omega arith)

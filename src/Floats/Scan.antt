-- ===== src/Floats/Scan.antt =====
-- Which texts the first loop of >FLOAT accepts, and what it finds out about them.
use smolforth.Base.{
  ℕ, ◌+◌, ◌≡◌, ◌≢◌, inl, inr, refl, sym, ◌∙◌, ap, arith, Bool, true, false, ◌&&◌, ◌||◌, not,
  if◌then◌else◌, ◌==◌, leb, Bool-cases, Option, none, some, List, [], ◌∷◌,
}
use smolforth.Floats.{Flags, is_allowed, is_exponent, is_sign, mark_char, scan_char, scan_text}

unfoldable pub all_of : (ℕ → Bool) → List ℕ → Bool
all_of p [] = true
all_of p (c ∷ cs) = p c && all_of p cs

unfoldable pub any_of : (ℕ → Bool) → List ℕ → Bool
any_of p [] = false
any_of p (c ∷ cs) = p c || any_of p cs

unfoldable pub count_of : (ℕ → Bool) → List ℕ → ℕ
count_of p [] = 0
count_of p (c ∷ cs) = (if p c then 1 else 0) + count_of p cs

-- A sign that is not the first character, where the first is at `i`.
unfoldable pub inner_sign : ℕ → List ℕ → Bool
unfolding is_sign
inner_sign i [] = false
inner_sign i (c ∷ cs) = (is_sign c && not (i == 0)) || inner_sign (i + 1) cs

-- `isspace` of ctype.h: a letter or a sign is no space.
abbrev pub IsSpace : (ℕ → Bool) → Type 0
IsSpace isspace = (c : ℕ) → (is_exponent c || is_sign c) ≡ true → isspace c ≡ false

-- One character, by the tests of it: allowed, a space, an exponent letter, a sign at a place `z`
-- that is the first.
step : (a s e g z : Bool) → Flags → Option Flags
step a s e g z f =
    let h = if s then record f { has_space = true } else record f { has_non_space = true } in
    if not a
    then none
    else (if h.has_non_space && h.has_space
        then none
        else (if s
            then some h
            else (if e
                then (if h.has_e then none else some (record h { has_e = true }))
                else some (if g && not z then record h { has_sign = true } else h))))

-- What the rest of a text adds: all allowed, a non-space, a space, exponent letters, a sign.
unfoldable pub finish : (a n s : Bool) → ℕ → Bool → Flags → Option Flags
finish a n s e g f =
    if a
      && not ((f.has_non_space || n) && (f.has_space || s))
      && leb ((if f.has_e then 1 else 0) + e) 1
    then some (record {
      has_non_space = f.has_non_space || n;
      has_space = f.has_space || s;
      has_e = f.has_e || not (e == 0);
      has_sign = f.has_sign || g;
    })
    else none

cont : Option Flags → (Flags → Option Flags) → Option Flags
cont none k = none
cont (some f) k = k f

step-finish :
    (a s e g z A N S G : Bool) (E : ℕ) (f : Flags)
    → (s ≡ true → (e || g) ≡ false)
    → cont (step a s e g z f) (finish A N S E G)
      ≡ finish
          (a && A)
          (not s || N)
          (s || S)
          ((if e then 1 else 0) + E)
          ((g && not z && not e) || G)
          f
unfolding cont step finish
step-finish a s e g z A N S G E f h = ground arith

abbrev pub NotMixed : Flags → Type 0
NotMixed f = (f.has_non_space && f.has_space) ≡ false

-- A character that is accepted leaves the two kinds apart.
step-NotMixed : (a s e g z : Bool) (f t : Flags) → step a s e g z f ≡ some t → NotMixed t
unfolding step
step-NotMixed a s e g z f t h = ground arith

scan_char-step :
    (isspace : ℕ → Bool) (i c : ℕ) (f : Flags)
    → scan_char isspace i c f
      ≡ step (is_allowed c) (isspace c) (is_exponent c) (is_sign c) (i == 0) f
unfolding scan_char mark_char step
scan_char-step isspace i c f = refl

no_more : (f : Flags) → NotMixed f → some f ≡ finish true false false 0 false f
unfolding finish
no_more f h = ground arith

inner_sign-cons :
    (i c : ℕ) (cs : List ℕ)
    → inner_sign i (c ∷ cs)
      ≡ ((is_sign c && not (i == 0) && not (is_exponent c)) || inner_sign (i + 1) cs)
unfolding inner_sign is_sign is_exponent
inner_sign-cons i c cs = ground arith

-- The loop over all characters, against tests of the whole text.
pub scan_text-finish :
    (isspace : ℕ → Bool) (i : ℕ) (cs : List ℕ) (f : Flags)
    → IsSpace isspace
    → NotMixed f
    → scan_text isspace i cs f
      ≡ finish
          (all_of is_allowed cs)
          (any_of (λ c. not (isspace c)) cs)
          (any_of isspace cs)
          (count_of is_exponent cs)
          (inner_sign i cs)
          f
unfolding scan_text all_of any_of count_of cont inner_sign
scan_text-finish isspace i [] f space kinds = no_more f kinds
scan_text-finish isspace i (c ∷ cs) f space kinds =
    taken (λ g k. scan_text-finish isspace (i + 1) cs g space k) (scan_char isspace i c f) refl
    ∙ ap (λ o. cont o rest) (scan_char-step isspace i c f)
    ∙ step-finish (is_allowed c) (isspace c) (is_exponent c) (is_sign c) (i == 0)
        (all_of is_allowed cs) (any_of (λ c. not (isspace c)) cs) (any_of isspace cs)
        (inner_sign (i + 1) cs) (count_of is_exponent cs) f no_letter
    ∙ ap
        (λ g.
          finish (all_of is_allowed (c ∷ cs)) (any_of (λ c. not (isspace c)) (c ∷ cs))
            (any_of isspace (c ∷ cs)) (count_of is_exponent (c ∷ cs)) g f)
        (sym (inner_sign-cons i c cs))
  where
    rest : Flags → Option Flags
    rest =
        finish (all_of is_allowed cs) (any_of (λ c. not (isspace c)) cs) (any_of isspace cs)
          (count_of is_exponent cs) (inner_sign (i + 1) cs)

    differ : true ≢ false
    differ e = cc

    no_letter : isspace c ≡ true → (is_exponent c || is_sign c) ≡ false
    no_letter h = elim (Bool-cases (is_exponent c || is_sign c)) [
      | inl letter ↦ absurd (differ (sym h ∙ space c letter))
      | inr other ↦ other
    ]

    taken :
        ((g : Flags) → NotMixed g → scan_text isspace (i + 1) cs g ≡ rest g)
        → (o : Option Flags) → scan_char isspace i c f ≡ o
        → (elim o [ none ↦ none | some g ↦ scan_text isspace (i + 1) cs g ]) ≡ cont o rest
    taken ih none e = refl
    taken ih (some g) e = ih g (
        step-NotMixed (is_allowed c) (isspace c) (is_exponent c) (is_sign c) (i == 0) f g
          (sym (scan_char-step isspace i c f) ∙ e))

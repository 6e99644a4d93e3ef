-- ===== src/Floats/Answers.antt =====
-- Which texts >FLOAT has C read, in what spelling, and what it then leaves.
use smolforth.Base.{
  Gives, ℕ, ◌+◌, ◌<◌, ◌≤◌, ◌≡◌, ◌⊎◌, inl, inr, refl, sym, ◌∙◌, ap, arith, true, false, not, ◌==◌,
  Option, none, some, List, [], ◌∷◌, ◌++◌,
}
use smolforth.Machine.{Machine}
use smolforth.Stack.{on_st}
use smolforth.Stack.Laws.{Holds}
use smolforth.Files.{bytes_at}
use smolforth.Floats.{Numbers, FloatStack, is_exponent, copy_char, copy_text, float_of, to_float}
use smolforth.Floats.Scan.{count_of, IsSpace}
use smolforth.Floats.Text.{inner_signs}
use smolforth.Floats.Reads.{
  IsNumberText, HasOneExponent, IsRefused, c_text, float_of-c_text, float_of-IsRefused,
}
use smolforth.Floats.Pushes.{flag_cell, FloatsAfter, to_float-Holds}
use smolforth.Floats.Spelled.{
  ReadAs, no_exponent, by_letter_e, by_letter_d, by_sign, count-NoLetters, count_of-append,
  count_one, signs-NoSigns, one_sign, char_kept, char_replaced, all_kept, copy_letter, copy_sign,
}

inner_first : (c : ℕ) (cs : List ℕ) → inner_signs 0 (c ∷ cs) ≡ inner_signs 1 cs
unfolding inner_signs
inner_first c cs = ground arith

-- With a letter nothing is inserted.
with_letter :
    (cs t : List ℕ)
    → count_of is_exponent cs ≡ 1
    → copy_text false 0 cs ≡ t
    → (c_text cs ≡ t) × HasOneExponent cs
unfolding c_text
with_letter cs t one h = (rw one h, inl one)

without_letter :
    (cs t : List ℕ)
    → count_of is_exponent cs ≡ 0
    → inner_signs 0 cs ≤ 1
    → copy_text (not (inner_signs 0 cs == 0)) 0 cs ≡ t
    → (c_text cs ≡ t) × HasOneExponent cs
unfolding c_text
without_letter cs t none_there few h = (rw none_there h, inr few)

letter_e : (l : ℕ) → (l ≡ b'e') ⊎ (l ≡ b'E') → (i : ℕ) → copy_char false i l ≡ l ∷ []
letter_e l h i = char_kept false i l (ground arith, ground arith, inl refl)

is_letter_e : (l : ℕ) → (l ≡ b'e') ⊎ (l ≡ b'E') → is_exponent l ≡ true
unfolding is_exponent
is_letter_e l h = ground arith

is_letter_d : (l : ℕ) → (l ≡ b'd') ⊎ (l ≡ b'D') → is_exponent l ≡ true
unfolding is_exponent
is_letter_d l h = ground arith

count-sign :
    (c : ℕ) (cs : List ℕ)
    → (c ≡ b'+') ⊎ (c ≡ b'-')
    → count_of is_exponent cs ≡ 0
    → count_of is_exponent (c ∷ cs) ≡ 0
unfolding count_of is_exponent
count-sign c cs h k = ground arith

ReadAs-c_text : (cs t : List ℕ) → ReadAs cs t → (c_text cs ≡ t) × HasOneExponent cs
ReadAs-c_text _ _ (no_exponent c cs hl hs) =
    let signs : inner_signs 0 (c ∷ cs) ≡ 0 = inner_first c cs ∙ signs-NoSigns 1 cs hs in
    without_letter (c ∷ cs) (c ∷ cs) (count-NoLetters (c ∷ cs) hl) (omega arith)
      (rw signs (all_kept 0 (c ∷ cs) hl))
ReadAs-c_text _ _ (by_letter_e xs l ys hx hl hy) =
    with_letter _ _ (count_one xs l ys hx (is_letter_e l hl) hy)
      (copy_letter xs l l ys hx (letter_e l hl) hy)
ReadAs-c_text _ _ (by_letter_d xs l ys hx hl hy) =
    with_letter _ _ (count_one xs l ys hx (is_letter_d l hl) hy)
      (copy_letter xs l b'E' ys hx (λ i. char_replaced false i l hl) hy)
ReadAs-c_text _ _ (by_sign c xs sign ys hx kx hs hy ky) =
    let signs : inner_signs 0 (c ∷ xs ++ sign ∷ ys) ≡ 1 =
      inner_first c (xs ++ sign ∷ ys) ∙ one_sign 1 xs sign ys (omega arith) kx hs ky in
    without_letter _ _ (count_of-append is_exponent (c ∷ xs) (sign ∷ ys) ∙ no_letter) (omega arith)
      (rw signs (copy_sign c xs sign ys hx kx hs hy ky))
  where
    no_letter : count_of is_exponent (c ∷ xs) + count_of is_exponent (sign ∷ ys) ≡ 0
    no_letter =
        omega (arith, count-NoLetters (c ∷ xs) hx, count-sign sign ys hs (count-NoLetters ys hy))

-- A text of the characters of numbers, without spaces, is handed to C as `ReadAs` says: as it stands
-- if it has no exponent, or an 'e' or 'E'; with an 'E' for a 'd' or 'D'; and if it has no letter but
-- one sign behind its first character, with an 'E' before that sign. The buffer has room for it.
-- Exponent letters and signs are no spaces.
pub float_of-ReadAs :
    {F : Type 0} (ops : Numbers F) (c : ℕ) (cs t : List ℕ)
    → IsSpace ops.isspace
    → IsNumberText ops.isspace (c ∷ cs)
    → ReadAs (c ∷ cs) t
    → float_of ops (c ∷ cs) ≡ some (ops.sscanf t)
float_of-ReadAs ops c cs t space text spelled =
    let exact = ReadAs-c_text (c ∷ cs) t spelled in
    float_of-c_text ops c cs space text exact.1 ∙ ap (λ t. some (ops.sscanf t)) exact.0

-- What >FLOAT leaves for a text: a number that C reads from the text it is handed, which it may not
-- find, or none for a text that is refused.
abbrev pub IsAnswer : {F : Type 0} → Numbers F → List ℕ → Option F → Type 0
IsAnswer ops cs o =
    (IsRefused ops.isspace cs × (o ≡ none))
    ⊎ (IsNumberText ops.isspace cs × (t : List ℕ) × ReadAs cs t × (o ≡ ops.sscanf t))

-- >FLOAT takes the length and the address of a text that is not empty and, as long as the float
-- stack has room for one more number, answers as follows. A refused text leaves false and the float
-- stack as it was. A text of a number, in the spelling of `ReadAs`, leaves true and on top of the
-- float stack the number that C reads from the text with its exponent marked by an 'E', or false if
-- C reads none. Nothing else on either stack changes, and exponent letters and signs are no spaces.
pub to_float-IsAnswer :
    {F : Type 0} (ops : Numbers F) (m : Machine) (s : FloatStack F) (l addr : ℕ) (xs : List ℕ)
    (c : ℕ) (cs : List ℕ) (o : Option F)
    → IsSpace ops.isspace
    → Holds on_st m (l ∷ addr ∷ xs)
    → bytes_at m.mem addr l ≡ c ∷ cs
    → IsAnswer ops (c ∷ cs) o
    → s.fps < 8
    → Gives (λ r. Holds on_st r.0 (flag_cell o ∷ xs) × FloatsAfter o s r.1) (to_float ops (m, s))
to_float-IsAnswer ops m s l addr xs c cs o space h text answer room =
    to_float-Holds ops m s l addr xs o h (ap (float_of ops) text ∙ number) room
  where
    number : float_of ops (c ∷ cs) ≡ some o
    number = elim answer [
      | inl bad ↦ float_of-IsRefused ops c cs space bad.0 ∙ ap some (sym bad.1)
      | inr good ↦ float_of-ReadAs ops c cs good.1 space good.0 good.2 ∙ ap some (sym good.3)
    ]

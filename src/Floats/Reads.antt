-- ===== src/Floats/Reads.antt =====
-- Which number >FLOAT reads from a text, and which texts it refuses.
use smolforth.Base.{
  ℕ, ◌+◌, ◌<◌, ◌≤◌, ◌≡◌, ◌⊎◌, inl, inr, refl, ◌∙◌, ap, arith, Bool, true, false, ◌&&◌, not,
  if◌then◌else◌, ◌==◌, leb, Option, none, some, List, ◌∷◌,
}
use smolforth.Floats.{
  Numbers, Flags, no_flags, is_allowed, is_exponent, scan_text, inserts, copy_text, buffer_text,
  float_of, read_scanned, read_buffer,
}
use smolforth.Floats.Scan.{all_of, any_of, count_of, inner_sign, IsSpace, finish, scan_text-finish}
use smolforth.Floats.Text.{inner_signs, inner_sign-inner_signs, buffer_text-bounds}

-- A text that is accepted and has something but spaces: characters of a number, no space, at most
-- one exponent letter.
abbrev pub IsNumberText : (ℕ → Bool) → List ℕ → Type 0
IsNumberText isspace cs =
    (all_of is_allowed cs ≡ true) × (any_of isspace cs ≡ false) × (count_of is_exponent cs ≤ 1)

-- The exponent letter or at most one inner sign, which then begins the exponent.
abbrev pub HasOneExponent : List ℕ → Type 0
HasOneExponent cs = (count_of is_exponent cs ≡ 1) ⊎ (inner_signs 0 cs ≤ 1)

-- The text as C reads numbers: 'E' for the letter of an exponent, and before an inner sign if there
-- is no letter.
unfoldable pub c_text : List ℕ → List ℕ
unfolding copy_text
c_text cs = copy_text ((count_of is_exponent cs == 0) && not (inner_signs 0 cs == 0)) 0 cs

no_space-non_space :
    (isspace : ℕ → Bool) (c : ℕ) (cs : List ℕ)
    → any_of isspace (c ∷ cs) ≡ false
    → any_of (λ c. not (isspace c)) (c ∷ cs) ≡ true
unfolding any_of
no_space-non_space isspace c cs h = ground arith

-- The flags of such a text.
flags_of : List ℕ → Flags
flags_of cs = record {
  has_non_space = true;
  has_space = false;
  has_e = not (count_of is_exponent cs == 0);
  has_sign = not (inner_signs 0 cs == 0);
}

few : (n : ℕ) (x : Option Flags) → n ≤ 1 → (if leb (0 + n) 1 then x else none) ≡ x
few n x h = ground arith

number-flags :
    (isspace : ℕ → Bool) (c : ℕ) (cs : List ℕ)
    → IsSpace isspace
    → IsNumberText isspace (c ∷ cs)
    → scan_text isspace 0 (c ∷ cs) no_flags ≡ some (flags_of (c ∷ cs))
unfolding finish flags_of
number-flags isspace c cs space text =
    scan_text-finish isspace 0 (c ∷ cs) no_flags space refl
    ∙ rw (text.0, text.1, no_space-non_space isspace c cs text.1, inner_sign-inner_signs 0 (c ∷ cs))
        (few (count_of is_exponent (c ∷ cs)) (some (flags_of (c ∷ cs))) text.2)

-- Such a text does not leave the buffer, and is wholly in it.
number-buffer :
    (cs : List ℕ) → HasOneExponent cs → buffer_text (inserts (flags_of cs)) cs ≡ some (c_text cs)
unfolding flags_of c_text
number-buffer cs one = elim (which (count_of is_exponent cs) (inner_signs 0 cs) one) [
  | inl plain ↦
      rw (swapped (count_of is_exponent cs) (inner_signs 0 cs), plain) (buffer_text-bounds cs).0
  | inr insert ↦
      rw (swapped (count_of is_exponent cs) (inner_signs 0 cs), insert.0)
        ((buffer_text-bounds cs).1 insert.1)
]
  where
    swapped : (n s : ℕ) → (not (s == 0) && not (not (n == 0))) ≡ ((n == 0) && not (s == 0))
    swapped n s = ground arith

    which :
        (n s : ℕ)
        → (n ≡ 1) ⊎ (s ≤ 1)
        → (((n == 0) && not (s == 0)) ≡ false) ⊎ ((((n == 0) && not (s == 0)) ≡ true) × (s ≡ 1))
    which n s h = ground arith

-- A text of the characters of numbers, without spaces, with at most one exponent letter and, where
-- it has none, at most one sign behind its first character, is read by C as it stands, but with an
-- 'E' for the letter or before the sign; the buffer has room for it.
pub float_of-c_text :
    {F : Type 0} (ops : Numbers F) (c : ℕ) (cs : List ℕ)
    → IsSpace ops.isspace
    → IsNumberText ops.isspace (c ∷ cs)
    → HasOneExponent (c ∷ cs)
    → float_of ops (c ∷ cs) ≡ some (ops.sscanf (c_text (c ∷ cs)))
unfolding float_of read_scanned read_buffer flags_of
float_of-c_text ops c cs space text one =
    ap (read_scanned ops (c ∷ cs)) (number-flags ops.isspace c cs space text)
    ∙ ap (read_buffer ops) (number-buffer (c ∷ cs) one)

-- A text with another character, with a space among other characters, or with two exponent letters.
abbrev pub IsRefused : (ℕ → Bool) → List ℕ → Type 0
IsRefused isspace cs =
    (all_of is_allowed cs ≡ false)
    ⊎ ((any_of (λ c. not (isspace c)) cs && any_of isspace cs) ≡ true)
    ⊎ (1 < count_of is_exponent cs)

refused :
    (a n s : Bool) (e : ℕ) (g : Bool)
    → (a ≡ false) ⊎ ((n && s) ≡ true) ⊎ (1 < e)
    → finish a n s e g no_flags ≡ none
unfolding finish
refused a n s e g h = ground arith

-- A text that is not empty leaves no number, without leaving the buffer, if it has a character that is
-- not one of numbers, if it has a space among other characters, or if it has two exponent letters or
-- more; exponent letters and signs are no spaces.
pub float_of-IsRefused :
    {F : Type 0} (ops : Numbers F) (c : ℕ) (cs : List ℕ)
    → IsSpace ops.isspace
    → IsRefused ops.isspace (c ∷ cs)
    → float_of ops (c ∷ cs) ≡ some none
unfolding float_of read_scanned
float_of-IsRefused ops c cs space bad = ap (read_scanned ops (c ∷ cs)) (
    scan_text-finish ops.isspace 0 (c ∷ cs) no_flags space refl
    ∙ refused (all_of is_allowed (c ∷ cs)) (any_of (λ c. not (ops.isspace c)) (c ∷ cs))
        (any_of ops.isspace (c ∷ cs)) (count_of is_exponent (c ∷ cs)) (inner_sign 0 (c ∷ cs)) bad)

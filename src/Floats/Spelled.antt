-- ===== src/Floats/Spelled.antt =====
-- The text that C is to read for >FLOAT, told without the loop that writes it, and what that loop
-- makes of its parts.
use smolforth.Base.{
  ℕ, ◌+◌, ◌<◌, ◌≡◌, ◌≢◌, ◌⊎◌, inl, inr, refl, ◌∙◌, ap, arith, Bool, true, false, List, [], ◌∷◌,
  ◌++◌,
}
use smolforth.Floats.{is_exponent, is_sign, copy_char, copy_text}
use smolforth.Floats.Scan.{count_of}
use smolforth.Floats.Text.{inner_signs}
use smolforth.Floats.Reads.{}

-- No character is one of the letters that begin an exponent.
abbrev pub NoLetters : List ℕ → Type 0
NoLetters [] = Unit
NoLetters (c ∷ cs) = (c ≢ b'e') × (c ≢ b'E') × (c ≢ b'd') × (c ≢ b'D') × NoLetters cs

abbrev pub NoSigns : List ℕ → Type 0
NoSigns [] = Unit
NoSigns (c ∷ cs) = (c ≢ b'+') × (c ≢ b'-') × NoSigns cs

-- A text, and how C is to read it: as it stands, if it has no exponent or one that begins with an
-- 'e' or 'E'; with an 'E' in place of a 'd' or 'D'; and with an 'E' put before the sign of an exponent
-- that has no letter, which is the only sign behind the first character.
pub data ReadAs : List ℕ → List ℕ → Type 0 where
  no_exponent : (c : ℕ) (cs : List ℕ) → NoLetters (c ∷ cs) → NoSigns cs → ReadAs (c ∷ cs) (c ∷ cs)
  by_letter_e :
      (xs : List ℕ) (l : ℕ) (ys : List ℕ)
      → NoLetters xs
      → (l ≡ b'e') ⊎ (l ≡ b'E')
      → NoLetters ys
      → ReadAs (xs ++ l ∷ ys) (xs ++ l ∷ ys)
  by_letter_d :
      (xs : List ℕ) (l : ℕ) (ys : List ℕ)
      → NoLetters xs
      → (l ≡ b'd') ⊎ (l ≡ b'D')
      → NoLetters ys
      → ReadAs (xs ++ l ∷ ys) (xs ++ b'E' ∷ ys)
  by_sign :
      (c : ℕ) (xs : List ℕ) (sign : ℕ) (ys : List ℕ)
      → NoLetters (c ∷ xs)
      → NoSigns xs
      → (sign ≡ b'+') ⊎ (sign ≡ b'-')
      → NoLetters ys
      → NoSigns ys
      → ReadAs (c ∷ xs ++ sign ∷ ys) (c ∷ xs ++ b'E' ∷ sign ∷ ys)

pub count-NoLetters : (xs : List ℕ) → NoLetters xs → count_of is_exponent xs ≡ 0
unfolding count_of is_exponent
count-NoLetters [] h = refl
count-NoLetters (c ∷ cs) h = let ih = count-NoLetters cs h.4 in ground arith

pub count_of-append :
    (p : ℕ → Bool) (xs ys : List ℕ) → count_of p (xs ++ ys) ≡ count_of p xs + count_of p ys
unfolding count_of
count_of-append p [] ys = omega arith
count_of-append p (x ∷ xs) ys = omega (arith, count_of-append p xs ys)

-- One letter between texts without any.
pub count_one :
    (xs : List ℕ) (l : ℕ) (ys : List ℕ)
    → NoLetters xs
    → is_exponent l ≡ true
    → NoLetters ys
    → count_of is_exponent (xs ++ l ∷ ys) ≡ 1
unfolding count_of
count_one xs l ys hx hl hy =
    count_of-append is_exponent xs (l ∷ ys)
    ∙ rw (hl, count-NoLetters xs hx, count-NoLetters ys hy) refl

pub signs-NoSigns : (i : ℕ) (xs : List ℕ) → NoSigns xs → inner_signs i xs ≡ 0
unfolding inner_signs is_sign
signs-NoSigns i [] h = refl
signs-NoSigns i (c ∷ cs) h = let ih = signs-NoSigns (i + 1) cs h.2 in ground arith

pub one_sign :
    (i : ℕ) (xs : List ℕ) (sign : ℕ) (ys : List ℕ)
    → 0 < i
    → NoSigns xs
    → (sign ≡ b'+') ⊎ (sign ≡ b'-')
    → NoSigns ys
    → inner_signs i (xs ++ sign ∷ ys) ≡ 1
unfolding inner_signs is_sign
one_sign i [] sign ys pos hx hs hy = let rest = signs-NoSigns (i + 1) ys hy in ground arith
one_sign i (x ∷ xs) sign ys pos hx hs hy =
    let rest = one_sign (i + 1) xs sign ys (omega arith) hx.2 hs hy in ground arith

-- A character that is not replaced.
pub char_kept :
    (b : Bool) (i c : ℕ)
    → (c ≢ b'd') × (c ≢ b'D') × ((b ≡ false) ⊎ ((c ≢ b'+') × (c ≢ b'-')) ⊎ (i ≡ 0))
    → copy_char b i c ≡ c ∷ []
unfolding copy_char is_sign
char_kept b i c h = ground arith

pub char_replaced : (b : Bool) (i l : ℕ) → (l ≡ b'd') ⊎ (l ≡ b'D') → copy_char b i l ≡ b'E' ∷ []
unfolding copy_char
char_replaced b i l h = ground arith

char_marked : (i c : ℕ) → 0 < i → (c ≡ b'+') ⊎ (c ≡ b'-') → copy_char true i c ≡ b'E' ∷ c ∷ []
unfolding copy_char is_sign
char_marked i c pos h = ground arith

-- Nothing is put in front of a text where nothing is inserted.
copy-NoLetters :
    (i : ℕ) (xs ys : List ℕ)
    → NoLetters xs
    → (j : ℕ) × (copy_text false i (xs ++ ys) ≡ xs ++ copy_text false j ys)
unfolding copy_text
copy-NoLetters i [] ys h = (i, refl)
copy-NoLetters i (x ∷ xs) ys h =
    let rest = copy-NoLetters (i + 1) xs ys h.4 in
    (rest.0, rw (char_kept false i x (h.2, h.3, inl refl)) (ap (λ (t : List ℕ). x ∷ t) rest.1))

-- Nor in front of one without signs.
copy-NoSigns :
    (i : ℕ) (xs ys : List ℕ)
    → 0 < i
    → NoLetters xs
    → NoSigns xs
    → (j : ℕ) × (0 < j) × (copy_text true i (xs ++ ys) ≡ xs ++ copy_text true j ys)
unfolding copy_text
copy-NoSigns i [] ys pos h k = (i, pos, refl)
copy-NoSigns i (x ∷ xs) ys pos h k =
    let rest = copy-NoSigns (i + 1) xs ys (omega arith) h.4 k.2 in
    (
      rest.0,
      rest.1,
      rw (char_kept true i x (h.2, h.3, inr (inl (k.0, k.1)))) (ap (λ (t : List ℕ). x ∷ t) rest.2),
    )

pub all_kept : (i : ℕ) (xs : List ℕ) → NoLetters xs → copy_text false i xs ≡ xs
unfolding copy_text
all_kept i [] h = refl
all_kept i (x ∷ xs) h = rw (char_kept false i x (h.2, h.3, inl refl), all_kept (i + 1) xs h.4) refl

unsigned_kept : (i : ℕ) (xs : List ℕ) → 0 < i → NoLetters xs → NoSigns xs → copy_text true i xs ≡ xs
unfolding copy_text
unsigned_kept i [] pos h k = refl
unsigned_kept i (x ∷ xs) pos h k =
    rw
      (
        char_kept true i x (h.2, h.3, inr (inl (k.0, k.1))),
        unsigned_kept (i + 1) xs (omega arith) h.4 k.2,
      )
      refl

pub copy_letter :
    (xs : List ℕ) (l m : ℕ) (ys : List ℕ)
    → NoLetters xs
    → ((i : ℕ) → copy_char false i l ≡ m ∷ [])
    → NoLetters ys
    → copy_text false 0 (xs ++ l ∷ ys) ≡ xs ++ m ∷ ys
unfolding copy_text
copy_letter xs l m ys hx hl hy =
    let front = copy-NoLetters 0 xs (l ∷ ys) hx in
    front.1 ∙ ap (λ t. xs ++ t) (rw (hl front.0, all_kept (front.0 + 1) ys hy) refl)

pub copy_sign :
    (c : ℕ) (xs : List ℕ) (sign : ℕ) (ys : List ℕ)
    → NoLetters (c ∷ xs)
    → NoSigns xs
    → (sign ≡ b'+') ⊎ (sign ≡ b'-')
    → NoLetters ys
    → NoSigns ys
    → copy_text true 0 (c ∷ xs ++ sign ∷ ys) ≡ c ∷ xs ++ b'E' ∷ sign ∷ ys
unfolding copy_text
copy_sign c xs sign ys hx kx hs hy ky =
    let front = copy-NoSigns 1 xs (sign ∷ ys) (omega arith) hx.4 kx in
    let behind : copy_text true front.0 (sign ∷ ys) ≡ b'E' ∷ sign ∷ ys =
      rw (char_marked front.0 sign front.1 hs, unsigned_kept (front.0 + 1) ys (omega arith) hy ky)
        refl in
    rw (char_kept true 0 c (hx.2, hx.3, inr (inr refl)))
      (ap (λ (t : List ℕ). c ∷ t) (front.2 ∙ ap (λ t. xs ++ t) behind))

-- ===== src/Floats/Text.antt =====
-- What the second loop of >FLOAT writes into its buffer, whether it stays inside, and so which number
-- a text gives.
use smolforth.Base.{
  ℕ, ◌+◌, ◌-◌, ◌<◌, ◌≤◌, ◌≡◌, refl, ◌∙◌, ap, arith, Bool, true, false, ◌&&◌, not, if◌then◌else◌,
  ◌==◌, ltb, le→not-ltb, lt→ltb, Option, none, some, List, [], ◌∷◌, length, length-append, take,
}
use smolforth.Floats.{is_sign, copy_char, copy_text, buffer_size, buffer_text}
use smolforth.Floats.Scan.{inner_sign}

-- The signs that are not the first character, where the first is at `i`.
unfoldable pub inner_signs : ℕ → List ℕ → ℕ
unfolding is_sign
inner_signs i [] = 0
inner_signs i (c ∷ cs) = (if is_sign c && not (i == 0) then 1 else 0) + inner_signs (i + 1) cs

pub inner_sign-inner_signs : (i : ℕ) (cs : List ℕ) → inner_sign i cs ≡ not (inner_signs i cs == 0)
unfolding inner_sign inner_signs
inner_sign-inner_signs i [] = refl
inner_sign-inner_signs i (c ∷ cs) = rw (inner_sign-inner_signs (i + 1) cs) (ground arith)

length-copy_char :
    (insert : Bool) (i c : ℕ)
    → length (copy_char insert i c)
      ≡ 1 + (if insert then (if is_sign c && not (i == 0) then 1 else 0) else 0)
unfolding copy_char is_sign
length-copy_char insert i c = ground arith

-- One byte for each character, and one more for each sign that an 'E' is put before.
pub length-copy_text :
    (insert : Bool) (i : ℕ) (cs : List ℕ)
    → length (copy_text insert i cs) ≡ length cs + (if insert then inner_signs i cs else 0)
unfolding copy_text inner_signs
length-copy_text true i [] = omega arith
length-copy_text false i [] = omega arith
length-copy_text true i (c ∷ cs) = omega (
  arith,
  length-append (copy_char true i c) (copy_text true (i + 1) cs),
  length-copy_char true i c,
  length-copy_text true (i + 1) cs,
)
length-copy_text false i (c ∷ cs) = omega (
  arith,
  length-append (copy_char false i c) (copy_text false (i + 1) cs),
  length-copy_char false i c,
  length-copy_text false (i + 1) cs,
)

take_all : (xs : List ℕ) → take (length xs) xs ≡ xs
take_all [] = refl
take_all (x ∷ xs) = ap (λ r. x ∷ r) (take_all xs)

-- What is written to a buffer of `k` bytes, of which the last is then set to 0.
in_buffer : ℕ → List ℕ → Option (List ℕ)
in_buffer k xs = if ltb k (length xs) then none else some (take (k - 1) xs)

fits : (k n : ℕ) (xs : List ℕ) → length xs ≤ k → k - 1 ≡ n → in_buffer k xs ≡ some (take n xs)
unfolding in_buffer
fits k n xs h e = rw (le→not-ltb k (length xs) h, e) refl

overflows : (k : ℕ) (xs : List ℕ) → k < length xs → in_buffer k xs ≡ none
unfolding in_buffer
overflows k xs h = rw (lt→ltb k (length xs) h) refl

all_fits : (k : ℕ) (xs : List ℕ) → k ≡ length xs + 1 → in_buffer k xs ≡ some xs
all_fits k xs h = fits k (length xs) xs (omega arith) (omega arith) ∙ ap some (take_all xs)

-- The buffer of >FLOAT is left just when an 'E' is to be put before more than two signs; if before
-- two, the last character is lost; and else the buffer has the whole of what the loop writes.
pub buffer_text-bounds :
    (cs : List ℕ)
    → (buffer_text false cs ≡ some (copy_text false 0 cs))
      × (inner_signs 0 cs ≡ 1 → buffer_text true cs ≡ some (copy_text true 0 cs))
      × (inner_signs 0 cs ≡ 2
          → buffer_text true cs
            ≡ some (take (length (copy_text true 0 cs) - 1) (copy_text true 0 cs)))
      × (2 < inner_signs 0 cs → buffer_text true cs ≡ none)
unfolding buffer_text buffer_size in_buffer
buffer_text-bounds cs = (
  all_fits (l + 1 + 0) (copy_text false 0 cs) (omega (arith, length-copy_text false 0 cs)),
  λ one. all_fits (l + 1 + 1) (copy_text true 0 cs) (omega (arith, length-copy_text true 0 cs)),
  λ two.
      fits (l + 1 + 1) (length (copy_text true 0 cs) - 1) (copy_text true 0 cs)
        (omega (arith, length-copy_text true 0 cs)) (omega (arith, length-copy_text true 0 cs)),
  λ more. overflows (l + 1 + 1) (copy_text true 0 cs) (omega (arith, length-copy_text true 0 cs)),
)
  where
    l : ℕ
    l = length cs

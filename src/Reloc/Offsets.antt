-- ===== src/Reloc/Offsets.antt =====
-- Texts at offsets in a longer text, where the offset is kept in so many bits.
use smolforth.Base.{
  ℕ, ◌%◌, ◌^◌, ◌<◌, ◌≤◌, ◌≡◌, arith, sym, ap, ◌∙◌, List, ◌++◌, length, length-append,
}
use mathlib.Core.List.{append_assoc}
use native.Mathlib.Nat.{mod-eq_of_lt}

-- A text stands in another at an offset, counted modulo 2 ^ bits.
abbrev pub StandsAt : ℕ → List ℕ → ℕ → List ℕ → Type 0
StandsAt bits s n t =
    (before : List ℕ) × (after : List ℕ) × (s ≡ before ++ t ++ after)
    × (length before % 2 ^ bits ≡ n)

pub StandsAt-longer :
    (bits : ℕ) (s t u : List ℕ) (n : ℕ) → StandsAt bits s n t → StandsAt bits (s ++ u) n t
StandsAt-longer bits s t u n h =
    (h.0, h.1 ++ u, ap (λ l. l ++ u) h.2 ∙ append_assoc (h.0 ++ t) h.1 u, h.3)

-- In a text that fits the bits, what is not empty stands exactly there.
pub exact_offset :
    (bits : ℕ) (s before after t : List ℕ) {n : ℕ}
    → s ≡ before ++ t ++ after
    → length s ≤ 2 ^ bits
    → 0 < length t
    → length before % 2 ^ bits ≡ n
    → length before ≡ n
exact_offset bits s before after t e short some_text h =
    let l1 = length-append (before ++ t) after in
    let l2 = length-append before t in
    let whole = ap length e in
    let fits : length before < 2 ^ bits = omega (arith, l1, l2, whole) in
    sym (mod-eq_of_lt fits) ∙ h

-- In a text that is shorter than the bits count, everything stands exactly there.
pub exact_below :
    (bits : ℕ) (s before after t : List ℕ) {n : ℕ}
    → s ≡ before ++ t ++ after
    → length s < 2 ^ bits
    → length before % 2 ^ bits ≡ n
    → length before ≡ n
exact_below bits s before after t e short h =
    let l1 = length-append (before ++ t) after in
    let l2 = length-append before t in
    let whole = ap length e in
    let fits : length before < 2 ^ bits = omega (arith, l1, l2, whole) in
    sym (mod-eq_of_lt fits) ∙ h

-- ===== src/Floats/Digits.antt =====
-- The digits that REPRESENT writes, read back.
use smolforth.Base.{
  ℕ, zero, suc, ◌+◌, ◌-◌, ◌*◌, ◌/◌, ◌%◌, ◌^◌, ◌≤◌, ◌<◌, ◌≡◌, ◌⊎◌, inl, inr, refl, ◌∙◌, ap, arith,
}
use smolforth.Memory.{Mem, get_byte, set_byte, get_byte-set_byte}
use smolforth.Floats.Represent.{write_digits}
use native.Mathlib.Nat.{
  pow-suc, mul_comm, mul_assoc, mod-eq-sub-mul-div, div-div-eq-div-mul, mul-div-le,
}

-- The number that `n` decimal digits at an address stand for.
unfoldable pub decimal : Mem → ℕ → ℕ → ℕ
decimal mem addr zero = 0
decimal mem addr (suc n) = 10 * decimal mem addr n + (get_byte mem (addr + n) - 48)

pub get_byte-write_digits :
    (l sigi addr : ℕ) (mem : Mem) (x : ℕ)
    → (x < addr) ⊎ (addr + l ≤ x)
    → get_byte (write_digits l sigi addr mem) x ≡ get_byte mem x
unfolding write_digits
get_byte-write_digits zero sigi addr mem x o = refl
get_byte-write_digits (suc l) sigi addr mem x o =
    get_byte-write_digits l (sigi / 10) addr (set_byte mem (addr + l) (48 + sigi % 10)) x
      (omega arith)
    ∙ ground (arith, get_byte-set_byte mem (addr + l) (48 + sigi % 10) x)

last_digit :
    (l sigi addr : ℕ) (mem : Mem)
    → get_byte
        (write_digits l (sigi / 10) addr (set_byte mem (addr + l) (48 + sigi % 10)))
        (addr + l)
      ≡ 48 + sigi % 10
last_digit l sigi addr mem =
    get_byte-write_digits l (sigi / 10) addr (set_byte mem (addr + l) (48 + sigi % 10)) (addr + l)
      (inr (omega arith))
    ∙ ground (arith, get_byte-set_byte mem (addr + l) (48 + sigi % 10) (addr + l))

-- The last digits of a number are those of its tenth, and its last.
last_and_others : (n l : ℕ) → n % 10 ^ suc l ≡ 10 * (n / 10 % 10 ^ l) + n % 10
last_and_others n l = omega (
  arith,
  ap (λ k. n % k) (pow-suc 10 l ∙ mul_comm (10 ^ l) 10),
  mod-eq-sub-mul-div n (10 * 10 ^ l),
  mod-eq-sub-mul-div (n / 10) (10 ^ l),
  ap (λ d. 10 * 10 ^ l * d) (div-div-eq-div-mul n 10 (10 ^ l)),
  mul_assoc 10 (10 ^ l) (n / 10 / 10 ^ l),
  mul-div-le (n / 10) (10 ^ l),
)

-- The `l` bytes that the loop of REPRESENT writes are decimal digits, and stand for the last `l`
-- digits of the number it is given: 10^l itself, to which a significand may be rounded, is written
-- as zeros. No other byte is written.
pub decimal-write_digits :
    (l sigi addr : ℕ) (mem : Mem)
    → (decimal (write_digits l sigi addr mem) addr l ≡ sigi % 10 ^ l)
      × ((i : ℕ)
          → i < l
          → (48 ≤ get_byte (write_digits l sigi addr mem) (addr + i))
            × (get_byte (write_digits l sigi addr mem) (addr + i) ≤ 57))
      × ((x : ℕ)
          → (x < addr) ⊎ (addr + l ≤ x)
          → get_byte (write_digits l sigi addr mem) x ≡ get_byte mem x)
unfolding write_digits decimal
decimal-write_digits zero sigi addr mem = (omega arith, (λ i h. absurd (omega arith)), λ x o. refl)
decimal-write_digits (suc l) sigi addr mem =
    let mem' = set_byte mem (addr + l) (48 + sigi % 10) in
    let rest = decimal-write_digits l (sigi / 10) addr mem' in
    let last = last_digit l sigi addr mem in
    (
      omega (arith, last_and_others sigi l, rest.0, last),
      λ i h. elim (place i l h) [
        | inl before ↦ rest.1 i before
        | inr here ↦ rw here (omega (arith, last), omega (arith, last))
      ],
      get_byte-write_digits (suc l) sigi addr mem,
    )
  where
    place : (i l : ℕ) → i < suc l → (i < l) ⊎ (i ≡ l)
    place i l h = omega arith

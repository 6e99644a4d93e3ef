-- ===== src/Base/Bits.antt =====
-- Bit operations at variables, as arithmetic: on the lowest digit, under a shift, and on fields.
use Prim.Native.Nat.{ℕ, zero, suc, ◌+◌, ◌-◌, ◌*◌, ◌/◌, ◌%◌, ◌^◌, ◌≤◌, ◌<◌, min, max}
use Prim.Native.Nat.{bit_and, bit_or, bit_xor, digits, bitwise, differ}
use Prim.Native.Nat.{bit_and-bitwise, bit_or-bitwise, bit_xor-bitwise}
use mathlib.Core.Path.{◌≡◌, refl, ap, sym, ◌∙◌, ap₂}
use native.Mathlib.Omega.{arith}
use native.Mathlib.Nat.{pow-suc, one-le-pow, div-div-eq-div-mul, mul_comm, div-one}

-- An operation on digits: `z` on what is left of the second number when the first has run out.
module _ (z : ℕ → ℕ) (f : ℕ → ℕ → ℕ) where
  one_more : (a b fuel : ℕ) → a ≤ fuel → digits z f (suc fuel) a b ≡ digits z f fuel a b
  one_more zero b zero fits = refl
  one_more zero b (suc fuel) fits = refl
  one_more (suc a) b zero fits = absurd (omega arith)
  one_more (suc a) b (suc fuel) fits =
      ap (λ (t : ℕ). t * 2 + f (suc a % 2) (b % 2))
        (one_more (suc a / 2) (b / 2) fuel (omega arith))

  spare : (d a b fuel : ℕ) → a ≤ fuel → digits z f (d + fuel) a b ≡ digits z f fuel a b
  spare zero a b fuel fits = ap (λ (t : ℕ). digits z f t a b) (omega arith)
  spare (suc d) a b fuel fits =
      ap (λ (t : ℕ). digits z f t a b) suc_outside
      ∙ one_more a b (d + fuel) (omega arith)
      ∙ spare d a b fuel fits
    where
      suc_outside : suc d + fuel ≡ suc (d + fuel)
      suc_outside = omega arith

  lowest :
      ((b : ℕ) → z b ≡ z (b / 2) * 2 + f 0 (b % 2))
      → (a b : ℕ) → bitwise z f a b ≡ bitwise z f (a / 2) (b / 2) * 2 + f (a % 2) (b % 2)
  lowest rest zero b = rest b
  lowest rest (suc a) b =
      let half = suc a / 2 in
      let all : (a - half) + half ≡ a = omega arith in
      ap (λ (t : ℕ). t * 2 + f (suc a % 2) (b % 2))
        (ap (λ (t : ℕ). digits z f t half (b / 2)) (sym all)
          ∙ spare (a - half) half (b / 2) half (omega arith))

pub bit_or_digit : (a b : ℕ) → bit_or a b ≡ bit_or (a / 2) (b / 2) * 2 + max (a % 2) (b % 2)
bit_or_digit a b = simp bit_or-bitwise (lowest (λ y. y) max (λ y. omega arith) a b)

pub bit_and_digit : (a b : ℕ) → bit_and a b ≡ bit_and (a / 2) (b / 2) * 2 + min (a % 2) (b % 2)
bit_and_digit a b = simp bit_and-bitwise (lowest (λ y. 0) min (λ y. omega arith) a b)

differ_zero : (y : ℕ) → differ 0 y ≡ y
differ_zero zero = refl
differ_zero (suc y) = refl

pub bit_xor_digit : (a b : ℕ) → bit_xor a b ≡ bit_xor (a / 2) (b / 2) * 2 + differ (a % 2) (b % 2)
bit_xor_digit a b =
    simp bit_xor-bitwise (lowest (λ y. y) differ (λ y. omega (arith, differ_zero (y % 2))) a b)

-- The exclusive or of two digits is a digit.
differ_bound : (x y : ℕ) → x ≤ 1 → y ≤ 1 → differ x y ≤ 1
differ_bound zero y p q = q
differ_bound (suc x) zero p q = p
differ_bound (suc x) (suc y) p q = differ_bound x y (omega arith) (omega arith)

halve_twice : (a k : ℕ) → a / 2 / 2 ^ k ≡ a / 2 ^ suc k
halve_twice a k =
    div-div-eq-div-mul a 2 (2 ^ k) ∙ ap (λ (t : ℕ). a / t) (mul_comm 2 (2 ^ k) ∙ sym (pow-suc 2 k))

-- An operation that a halving goes through, a shift to the right goes through.
module _ (op : ℕ → ℕ → ℕ) (halves : (a b : ℕ) → op a b / 2 ≡ op (a / 2) (b / 2)) where
  shift_right : (k a b : ℕ) → op a b / 2 ^ k ≡ op (a / 2 ^ k) (b / 2 ^ k)
  shift_right zero a b = simp div-one
  shift_right (suc k) a b =
      sym (halve_twice (op a b) k)
      ∙ ap (λ (t : ℕ). t / 2 ^ k) (halves a b)
      ∙ shift_right k (a / 2) (b / 2)
      ∙ ap₂ op (halve_twice a k) (halve_twice b k)

pub bit_xor_shift : (k a b : ℕ) → bit_xor a b / 2 ^ k ≡ bit_xor (a / 2 ^ k) (b / 2 ^ k)
bit_xor_shift = shift_right bit_xor (λ a b.
    omega (arith, bit_xor_digit a b, differ_bound (a % 2) (b % 2) (omega arith) (omega arith)))

pub bit_and_shift : (k a b : ℕ) → bit_and a b / 2 ^ k ≡ bit_and (a / 2 ^ k) (b / 2 ^ k)
bit_and_shift = shift_right bit_and (λ a b. omega (arith, bit_and_digit a b))

double_pow : (q k : ℕ) → q * 2 ^ suc k ≡ 2 * (q * 2 ^ k)
double_pow q k = omega (arith, ap (λ (t : ℕ). q * t) (pow-suc 2 k))

-- The second number is 0: any bound on the first serves the induction.
bit_or_nothing : (bound a : ℕ) → a ≤ bound → bit_or a 0 ≡ a
bit_or_nothing zero a small = omega (arith, ap (λ (t : ℕ). bit_or t 0) (zero_only a small))
  where
    zero_only : (a : ℕ) → a ≤ 0 → a ≡ 0
    zero_only a small = omega arith
bit_or_nothing (suc bound) a small = ground (arith, bit_or_digit a 0, bit_or_nothing bound (a / 2))

bit_and_nothing : (bound a : ℕ) → a ≤ bound → bit_and a 0 ≡ 0
bit_and_nothing zero a small = ap (λ (t : ℕ). bit_and t 0) (zero_only a small)
  where
    zero_only : (a : ℕ) → a ≤ 0 → a ≡ 0
    zero_only a small = omega arith
bit_and_nothing (suc bound) a small =
    ground (arith, bit_and_digit a 0, bit_and_nothing bound (a / 2))

-- Or of a number shifted by `k` and one that fits `k` bits is their sum.
pub bit_or_sum : (k q r : ℕ) → r < 2 ^ k → bit_or (q * 2 ^ k) r ≡ q * 2 ^ k + r
bit_or_sum zero q r fits = ground (arith, bit_or_nothing q q)
bit_or_sum (suc k) q r fits =
    ground
      (arith, bit_or_digit (q * 2 ^ suc k) r, double_pow q k, pow-suc 2 k, bit_or_sum k q (r / 2))

mask_split : (k q r : ℕ) → r < 2 ^ k → bit_and (q * 2 ^ k + r) (2 ^ k - 1) ≡ r
mask_split zero q r fits = omega (arith, bit_and_nothing (q * 1 + r) (q * 1 + r) (omega arith))
mask_split (suc k) q r fits = ground (
  arith,
  bit_and_digit (q * 2 ^ suc k + r) (2 ^ suc k - 1),
  double_pow q k,
  pow-suc 2 k,
  one-le-pow k 2,
  mask_split k q (r / 2),
)

-- And with a mask of `k` ones is the remainder by `2 ^ k`.
pub bit_and_mask : (k a : ℕ) → bit_and a (2 ^ k - 1) ≡ a % 2 ^ k
bit_and_mask k a = ground (arith, one-le-pow k 2, mask_split k (a / 2 ^ k) (a % 2 ^ k))

bit_or-zero_left : (q : ℕ) → bit_or 0 q ≡ q
bit_or-zero_left q = simp bit_or-bitwise refl

-- The same with the shifted number on the right.
pub bit_or_sum_right : (k q r : ℕ) → r < 2 ^ k → bit_or r (q * 2 ^ k) ≡ q * 2 ^ k + r
bit_or_sum_right zero q zero fits = omega (arith, bit_or-zero_left (q * 1))
bit_or_sum_right zero q (suc r) fits = absurd (omega arith)
bit_or_sum_right (suc k) q r fits = ground (
  arith,
  bit_or_digit r (q * 2 ^ suc k),
  double_pow q k,
  pow-suc 2 k,
  bit_or_sum_right k q (r / 2),
)

-- ===== src/Arithmetic/Pictured.antt =====
-- The `#` of pictured numbers (math.c): it takes the last digit off a double cell.
use smolforth.Base.{ℕ, ◌+◌, ◌-◌, ◌*◌, ◌/◌, ◌%◌, ◌^◌, ◌≤◌, ◌<◌, ◌≡◌, refl, arith}
use smolforth.Base.{false, if◌then◌else◌, ◌==◌, leb, ◌&&◌, List, ◌∷◌, some}
use smolforth.Base.Int.{signed, wrap}
use smolforth.Machine.{Machine}
use smolforth.Stack
use smolforth.Stack.{on_st}
use smolforth.Stack.Laws.{Holds, Holds-lt, pop-Holds, udpop-Holds, push-Holds, udpush-Holds}
use smolforth.Arithmetic.{number_sign, digit_char}

-- How a reader of numbers takes a digit of a base up to 36: '0' to '9' are the first ten, 'A' to 'Z'
-- the others, and any other character is a digit of none of these bases.
unfoldable pub digit_value : ℕ → ℕ
digit_value c =
    if leb b'0' c && leb c b'9'
    then c - b'0'
    else (if leb b'A' c && leb c b'Z' then c - b'A' + 10 else 36)

pub digit_value-digit_char : (r : ℕ) → r < 36 → digit_value (digit_char r) ≡ r
unfolding digit_value digit_char
digit_value-digit_char r h = ground arith

digit_char-lt : (r : ℕ) → digit_char r < 2 ^ 64
unfolding digit_char
digit_char-lt r = ground arith

pub header-udpop : (m : Machine) → (Stack.udpop on_st m).1.header ≡ m.header
unfolding Stack.udpop
header-udpop m = refl

small_base : (b : ℕ) → b ≤ 36 → wrap 128 (signed 64 b) ≡ b
small_base b h = ground arith

quotient-lt : (v b : ℕ) → v < 2 ^ 128 → v / b < 2 ^ 128
quotient-lt v b h = grind arith

split : (v b : ℕ) → 0 < b → v ≡ v / b * b + v % b
split v b h = grind arith

-- In a base from 2 to 36, `#` always runs. It leaves the quotient by the base below a character,
-- which is one of '0' to '9' or 'A' to 'Z' whose value is below the base; that digit behind the
-- quotient is the number again.
pub number_sign_digit :
    (m : Machine) (hi lo : ℕ) (xs : List ℕ)
    → Holds on_st m (hi ∷ lo ∷ xs)
    → 2 ≤ m.header.base
    → m.header.base ≤ 36
    → (m' : Machine) × (number_sign m ≡ some m')
      × (q c : ℕ) × Holds on_st m' (c ∷ q / 2 ^ 64 ∷ q % 2 ^ 64 ∷ xs)
      × (digit_value c < m.header.base)
      × (hi * 2 ^ 64 + lo ≡ q * m.header.base + digit_value c)
unfolding number_sign
number_sign_digit m hi lo xs h low high =
    let p = udpop-Holds on_st m hi lo xs h in
    let v = hi * 2 ^ 64 + lo in
    let b = m.header.base in
    let m1 = (Stack.udpop on_st m).1 in
    let r = v % b % 2 ^ 64 in
    let hi_lt = Holds-lt on_st m hi (lo ∷ xs) h in
    let lo_lt = Holds-lt on_st (Stack.pop on_st m).1 lo xs (pop-Holds on_st m hi (lo ∷ xs) h).1 in
    let nonzero : (b == 0) ≡ false = ground arith in
    let r_lt : v % b < b = omega arith in
    let r_is : r ≡ v % b = omega arith in
    let back = digit_value-digit_char r (omega arith) in
    let c_is : digit_char r % 2 ^ 64 ≡ digit_char r = omega (arith, digit_char-lt r) in
    (
      (Stack.push (digit_char r) on_st (Stack.udpush (v / b) on_st m1).1).1,
      rw (p.0, header-udpop m, small_base b high, nonzero, c_is),
      v / b,
      digit_char r,
      push-Holds on_st _ (digit_char r) (v / b / 2 ^ 64 ∷ v / b % 2 ^ 64 ∷ xs) (digit_char-lt r)
          (udpush-Holds on_st m1 (v / b) xs (quotient-lt v b (omega (arith, hi_lt, lo_lt))) p.1),
      omega arith,
      omega (arith, back, r_is, split v b (omega arith)),
    )

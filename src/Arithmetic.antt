-- ===== src/Arithmetic.antt =====
-- The arithmetic words that C implements: UM/MOD, SM/REM, FM/MOD, */ and */MOD (core/*.c of both
-- ports, whose texts agree) and the `#` of pictured numbers (math.c). A division that C leaves
-- undefined, by zero or of the least double cell by -1, gives `none`.
pub mod Division
pub mod Words
pub mod Pictured
use smolforth.Base.{
  ℕ, ◌+◌, ◌-◌, ◌*◌, ◌/◌, ◌%◌, ◌^◌, Bool, true, false, ◌&&◌, not, Option, none, some,
}
use smolforth.Base.{if◌then◌else◌, ◌==◌, ltb}
use smolforth.Base.Int.{ℤ, pos, negsuc, ◌*ℤ◌, signed, wrap, is_negative, magnitude, minus}
use smolforth.Machine.{Machine, M, pure, ◌>>=◌, ◌>>◌}
use smolforth.Stack.{on_st, pop, upop, push, upush, dpop, udpop, udpush, cell_mod}

abbrev pub xor_bool : Bool → Bool → Bool
xor_bool true b = not b
xor_bool false b = b

-- C's `/` and `%` on integers: the quotient is cut towards zero, the remainder has the sign of the
-- dividend.
unfoldable pub c_div : ℤ → ℤ → ℤ
c_div a b =
    if xor_bool (is_negative a) (is_negative b)
    then minus (magnitude a / magnitude b)
    else pos (magnitude a / magnitude b)

unfoldable pub c_rem : ℤ → ℤ → ℤ
c_rem a b =
    if is_negative a then minus (magnitude a % magnitude b) else pos (magnitude a % magnitude b)

abbrev pub below_top : ℤ → Bool
below_top (pos n) = ltb n (2 ^ 127)
below_top (negsuc n) = true

-- Whether C defines the division of a double cell: not by zero, and the quotient is below 2^127.
unfoldable pub divides : ℤ → ℤ → Bool
unfolding c_div
divides a b = not (magnitude b == 0) && below_top (c_div a b)

-- The two pushes at the end: the remainder, then the quotient.
unfoldable pub leave : ℕ → ℕ → M (Unit {0})
leave r q = do push r on_st; push q on_st

unfoldable pub um_slash_mod : Machine → Option Machine
um_slash_mod m =
    let (n, m') = upop on_st m in
    let (d, m'') = udpop on_st m' in
    if n == 0 then none else some (leave (d % n % cell_mod) (d / n % cell_mod) m'').1

unfoldable pub sm_slash_rem : Machine → Option Machine
sm_slash_rem m =
    let (n', m') = pop on_st m in
    let (d', m'') = dpop on_st m' in
    let n = signed 64 n' in
    let d = signed 128 d' in
    if divides d n then some (leave (wrap 64 (c_rem d n)) (wrap 64 (c_div d n)) m'').1 else none

-- `if (r != 0 && ((d < 0) ^ (n < 0))) { --q; r += (cell) n; }` on the cells `r` and `q`.
unfoldable pub floor_cells : ℤ → ℤ → ℕ → ℕ → ℕ → ℕ × ℕ
floor_cells d n n' r q =
    if not (r == 0) && xor_bool (is_negative d) (is_negative n)
    then ((r + n') % cell_mod, (q + cell_mod - 1) % cell_mod)
    else (r, q)

unfoldable pub fm_slash_mod : Machine → Option Machine
fm_slash_mod m =
    let (n', m') = pop on_st m in
    let (d', m'') = dpop on_st m' in
    let n = signed 64 n' in
    let d = signed 128 d' in
    let (r, q) = floor_cells d n n' (wrap 64 (c_rem d n)) (wrap 64 (c_div d n)) in
    if divides d n then some (leave r q m'').1 else none

-- The product of two cells is exact as a double cell.
unfoldable pub star_slash : Machine → Option Machine
star_slash m =
    let (n3, m1) = pop on_st m in
    let (n2, m2) = pop on_st m1 in
    let (n1, m3) = pop on_st m2 in
    let p = signed 64 n1 *ℤ signed 64 n2 in
    if divides p (signed 64 n3)
    then some (push (wrap 64 (c_div p (signed 64 n3))) on_st m3).1
    else none

unfoldable pub star_slash_mod : Machine → Option Machine
star_slash_mod m =
    let (n3, m1) = pop on_st m in
    let (n2, m2) = pop on_st m1 in
    let (n1, m3) = pop on_st m2 in
    let p = signed 64 n1 *ℤ signed 64 n2 in
    if divides p (signed 64 n3)
    then some (leave (wrap 64 (c_rem p (signed 64 n3))) (wrap 64 (c_div p (signed 64 n3))) m3).1
    else none

-- The character of a digit: '0' to '9', then letters; '#' for a digit of 37 or more.
unfoldable pub digit_char : ℕ → ℕ
digit_char r = if ltb r 10 then b'0' + r else (if ltb r 37 then b'A' + (r - 10) else b'#')

-- `number_sign_impl_c`: `BASE` is a signed cell, converted to an unsigned double cell.
unfoldable pub number_sign : Machine → Option Machine
number_sign m =
    let (v, m') = udpop on_st m in
    let b = wrap 128 (signed 64 m'.header.base) in
    let r = v % b % cell_mod in
    if b == 0
    then none
    else some ((do udpush (v / b) on_st; push (digit_char r % cell_mod) on_st) m').1

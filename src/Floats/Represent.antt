-- ===== src/Floats/Represent.antt =====
-- float/REPRESENT.c. A write of more bytes than the buffer has, by a size that wraps around, is
-- `none`; so is a loop that does not end.
use smolforth.Base.{
  ℕ, zero, suc, ◌+◌, ◌-◌, ◌/◌, ◌%◌, ◌^◌, Bool, ◌||◌, ◌&&◌, not, if◌then◌else◌, ◌==◌, ltb, Option,
  none, some, List, [], ◌∷◌, length, take,
}
use smolforth.Memory.{Mem, set_byte}
use smolforth.Machine.{Machine}
use smolforth.Stack.{on_st, upop, push}
use smolforth.Floats.{FloatStack, fpop}
use smolforth.Reloc.Texts.{◌>>=◌}

-- The operations of C and math.h on numbers: the tests against 0, 0.1 and 1.0, the factors of ten,
-- `floor(log10(v))` as an `int`, `round(v * pow(10, l))` as a cell, and the text that "%F" prints.
pub record FloatMath (F : Type 0) : Type 0 where
  pub fabs : F → F
  pub is_zero : F → Bool
  pub is_negative : F → Bool
  pub below_tenth : F → Bool
  pub at_least_one : F → Bool
  pub same : F → F → Bool
  pub div_ten : F → F
  pub mul_ten : F → F
  pub floor_log : F → ℕ
  pub round_scaled : F → ℕ → ℕ
  pub is_nan : F → Bool
  pub is_inf : F → Bool
  pub format : F → List ℕ

-- The exponent, an `int`.
unfoldable pub first_exp : {F : Type 0} → FloatMath F → F → ℕ
first_exp ops v =
    let i = ops.floor_log (ops.fabs v) in
    let signed = if ops.is_negative v then (2 ^ 32 - i) % 2 ^ 32 else i in
    if ops.is_zero v then 0 else (signed + 1) % 2 ^ 32

-- `*exp > 0`
unfoldable pub is_positive : ℕ → Bool
is_positive exp = not (exp == 0) && ltb exp (2 ^ 31)

-- The loop of `f10exp`, on fuel.
unfoldable pub into_range : {F : Type 0} → FloatMath F → ℕ → ℕ → F → Option F
unfolding is_positive
into_range ops exp zero v = none
into_range ops exp (suc fuel) v =
    let next = if is_positive exp then ops.div_ten v else ops.mul_ten v in
    let rest = into_range ops exp fuel next in
    if ops.below_tenth v || ops.at_least_one v
    then (if ops.same v next then some next else rest)
    else some v

-- `while(i) { --i; ... addr[i] = '0' + d; }`
unfoldable pub write_digits : ℕ → ℕ → ℕ → Mem → Mem
write_digits zero sigi addr mem = mem
write_digits (suc i) sigi addr mem =
    write_digits i (sigi / 10) addr (set_byte mem (addr + i) (48 + sigi % 10))

unfoldable pub write_bytes : ℕ → List ℕ → Mem → Mem
write_bytes p [] mem = mem
write_bytes p (b ∷ bs) mem = write_bytes (p + 1) bs (set_byte mem p b)

unfoldable pub fill_bytes : ℕ → ℕ → ℕ → Mem → Mem
fill_bytes p b zero mem = mem
fill_bytes p b (suc n) mem = fill_bytes (p + 1) b n (set_byte mem p b)

-- `snprintf` of at most `l` bytes with the null byte, and `memset` of the rest.
unfoldable pub write_text : List ℕ → ℕ → ℕ → Mem → Option Mem
unfolding write_bytes fill_bytes
write_text text addr l mem =
    let z = length text in
    let n = if ltb z l then z else l - 1 in
    let printed = set_byte (write_bytes addr (take n text) mem) (addr + n) 0 in
    if ltb l z
    then none
    else some (fill_bytes (addr + z) 32 (l - z) (if l == 0 then mem else printed))

-- An `int` on the stack.
unfoldable pub push_int : ℕ → Machine → Machine
unfolding push
push_int v m = (push (if ltb v (2 ^ 31) then v else v + 2 ^ 64 - 2 ^ 32) on_st m).1

abbrev pub push_flags : ℕ → ℕ → Machine → Machine
push_flags a b m = (push b on_st (push a on_st m).1).1

-- What follows the exponent.
unfoldable pub represent_digits :
    {F : Type 0} → FloatMath F → F → F → ℕ → ℕ → Machine → Option Machine
unfolding write_text write_digits push
represent_digits ops v sig l addr m =
    if ops.is_nan v || ops.is_inf v
    then write_text (ops.format v) addr l m.mem
      >>= (λ mem. some (push_flags 0 0 (record m { mem = mem })))
    else (if l == 0
        then some (push_flags 0 0 m)
        else some (
            push_flags (if ops.is_negative v then 2 ^ 64 - 1 else 0) (2 ^ 64 - 1)
              (record m { mem = write_digits l (ops.round_scaled (ops.fabs sig) l) addr m.mem })))

unfoldable pub represent :
    {F : Type 0} → FloatMath F → ℕ → Machine × FloatStack F → Option (Machine × FloatStack F)
unfolding upop fpop into_range first_exp push_int represent_digits
represent ops fuel (m, s) = do
  let l = upop on_st m
  let addr = upop on_st l.1
  v ← fpop s
  let exp = first_exp ops (ops.fabs v.0)
  sig ← into_range ops exp fuel (ops.fabs v.0)
  done ← represent_digits ops v.0 sig l.0 addr.0 (push_int exp addr.1)
  some (done, v.1)

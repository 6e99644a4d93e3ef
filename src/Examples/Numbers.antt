-- ===== src/Examples/Numbers.antt =====
use smolforth.Base.{ℕ, ◌+◌, ◌-◌, ◌*◌, ◌<◌, ◌≡◌, ◌^◌, ◌/◌, ◌%◌, inr, refl, arith, [], ◌∷◌, some}
use smolforth.Base.Int.{signed, ◌*ℤ◌}
use smolforth.Memory.{load, store, get_byte, set_byte}
use smolforth.Machine.{Machine}
use smolforth.Stack.{on_st}
use smolforth.Stack.Laws.{Holds}
use smolforth.Arithmetic.{fm_slash_mod, star_slash_mod, number_sign}
use smolforth.Arithmetic.Division.{Floored}
use smolforth.Arithmetic.Words.{Leaves, Symmetric, fm_slash_mod-Leaves, star_slash_mod-Leaves}
use smolforth.Arithmetic.Pictured.{number_sign_digit, digit_value}
use smolforth.Examples.Machines.{two_up}

-- The double cell -7 below the cell 2.
abbrev minus_seven : Machine
minus_seven = two_up 2 (2 ^ 64 - 1) (2 ^ 64 - 7) 0 0 0

minus_seven-Holds : Holds on_st minus_seven (2 ∷ (2 ^ 64 - 1) ∷ (2 ^ 64 - 7) ∷ [])
unfolding load store get_byte set_byte
minus_seven-Holds = (omega arith, refl, (omega arith, refl, (omega arith, refl, tt)))

fm_slash_mod-Leaves_example :
    Leaves
      (fm_slash_mod minus_seven)
      []
      (Floored (signed 128 ((2 ^ 64 - 1) * 2 ^ 64 + (2 ^ 64 - 7))) (signed 64 2))
fm_slash_mod-Leaves_example =
    fm_slash_mod-Leaves minus_seven [] 2 (2 ^ 64 - 1) (2 ^ 64 - 7) minus_seven-Holds (omega arith)
      (inr (omega arith))

star_slash_mod-Leaves_example :
    Leaves
      (star_slash_mod minus_seven)
      []
      (Symmetric (signed 64 (2 ^ 64 - 7) *ℤ signed 64 (2 ^ 64 - 1)) (signed 64 2))
star_slash_mod-Leaves_example =
    star_slash_mod-Leaves minus_seven [] 2 (2 ^ 64 - 1) (2 ^ 64 - 7) minus_seven-Holds (omega arith)

number_sign_digit_example :
    (m' : Machine) × (number_sign (two_up 0 300 1 0 0 0) ≡ some m')
    × (q c : ℕ) × Holds on_st m' (c ∷ q / 2 ^ 64 ∷ q % 2 ^ 64 ∷ 1 ∷ [])
    × (digit_value c < 16)
    × (0 * 2 ^ 64 + 300 ≡ q * 16 + digit_value c)
unfolding load store get_byte set_byte
number_sign_digit_example =
    number_sign_digit (two_up 0 300 1 0 0 0) 0 300 (1 ∷ [])
      (omega arith, refl, (omega arith, refl, (omega arith, refl, tt))) (omega arith) (omega arith)

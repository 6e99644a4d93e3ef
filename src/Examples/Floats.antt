-- ===== src/Examples/Floats.antt =====
-- >FLOAT with texts for numbers: what `sscanf` is given is what is read.
use smolforth.Base.{
  Gives, ℕ, ◌+◌, ◌%◌, ◌^◌, ◌≤◌, ◌⊎◌, ◌-◌, ◌<◌, ◌≡◌, refl, arith, inl, inr, true, false, ◌==◌, List,
  [], ◌∷◌, none, some, codes, length, take,
}
use smolforth.Memory.{get_byte, set_byte, load, store}
use smolforth.Machine.{Machine}
use smolforth.Stack.{on_st}
use smolforth.Stack.Laws.{Holds}
use smolforth.Files.{bytes_at}
use smolforth.Floats.{
  Numbers, FloatStack, is_exponent, is_sign, is_allowed, is_digit, copy_text, copy_char,
  buffer_text, buffer_size, float_of, to_float, scan_text, scan_char, mark_char, read_scanned,
  read_buffer,
}
use smolforth.Floats.Scan.{IsSpace, all_of, any_of, count_of}
use smolforth.Floats.Text.{inner_signs, buffer_text-bounds}
use smolforth.Floats.Reads.{IsNumberText, HasOneExponent, float_of-IsRefused}
use smolforth.Floats.Pushes.{flag_cell, FloatsAfter}
use smolforth.Floats.Spelled.{ReadAs, by_sign, no_exponent}
use smolforth.Floats.Answers.{float_of-ReadAs, to_float-IsAnswer}
use smolforth.Floats.Represent.{write_digits}
use smolforth.Floats.Digits.{decimal, decimal-write_digits}
use smolforth.Examples.Machines.{two_up, no_memory}

abbrev texts : Numbers (List ℕ)
texts = record {
  of_zero = codes "0";
  of_dcell = λ d. d ∷ [];
  to_dcell = λ x. 0;
  isspace = λ c. c == 32;
  sscanf = λ t. some t;
}

texts-IsSpace : IsSpace texts.isspace
unfolding is_exponent is_sign
texts-IsSpace c h = ground arith

-- "1.5+3" is read as "1.5E+3".
number-IsNumberText : IsNumberText texts.isspace (codes "1.5+3")
unfolding all_of any_of count_of is_allowed is_digit is_exponent is_sign
number-IsNumberText = (refl, refl, omega arith)

number-HasOneExponent : HasOneExponent (codes "1.5+3")
unfolding inner_signs is_sign
number-HasOneExponent = inr (omega arith)

number_spelled : ReadAs (codes "1.5+3") (codes "1.5E+3")
number_spelled =
    by_sign 49 (codes ".5") 43 (codes "3") (ground arith) (ground arith) (inl refl) (ground arith)
      (ground arith)

float_of-ReadAs_example : float_of texts (codes "1.5+3") ≡ some (some (codes "1.5E+3"))
float_of-ReadAs_example =
    float_of-ReadAs texts 49 (codes ".5+3") (codes "1.5E+3") texts-IsSpace number-IsNumberText
      number_spelled

float_of-IsRefused_example : float_of texts (codes "1e2e3") ≡ some none
unfolding count_of is_exponent
float_of-IsRefused_example =
    float_of-IsRefused texts 49 (codes "e2e3") texts-IsSpace (inr (inr (omega arith)))

buffer_text-bounds_example :
    (buffer_text false (codes "1+2-3+4") ≡ some (copy_text false 0 (codes "1+2-3+4")))
    × (inner_signs 0 (codes "1+2-3+4") ≡ 1
        → buffer_text true (codes "1+2-3+4") ≡ some (copy_text true 0 (codes "1+2-3+4")))
    × (inner_signs 0 (codes "1+2-3+4") ≡ 2
        → buffer_text true (codes "1+2-3+4")
          ≡ some (
              take
                (length (copy_text true 0 (codes "1+2-3+4")) - 1)
                (copy_text true 0 (codes "1+2-3+4"))))
    × (2 < inner_signs 0 (codes "1+2-3+4") → buffer_text true (codes "1+2-3+4") ≡ none)
buffer_text-bounds_example = buffer_text-bounds (codes "1+2-3+4")

-- Two signs lose the last character, and three leave the buffer.
two_signs : float_of texts (codes "1+2-3") ≡ some (some (codes "1E+2E-"))
unfolding float_of scan_text scan_char mark_char read_scanned read_buffer buffer_text buffer_size
    copy_text copy_char is_allowed is_digit is_exponent is_sign
two_signs = refl

three_signs : float_of texts (codes "1+2-3+4") ≡ none
unfolding float_of scan_text scan_char mark_char read_scanned read_buffer buffer_text buffer_size
    copy_text copy_char is_allowed is_digit is_exponent is_sign
three_signs = refl

abbrev no_floats : FloatStack (List ℕ)
no_floats = record { float_stack = λ i. []; fps = 0 }

-- "7" lies at 500.
abbrev one_digit : Machine
one_digit = let m = two_up 1 500 9 0 0 0 in record m { mem = set_byte m.mem 500 55 }

one_digit-Holds : Holds on_st one_digit (1 ∷ 500 ∷ 9 ∷ [])
unfolding load store get_byte set_byte
one_digit-Holds = (omega arith, refl, (omega arith, refl, (omega arith, refl, tt)))

one_digit_text : bytes_at one_digit.mem 500 1 ≡ codes "7"
unfolding bytes_at load store get_byte set_byte
one_digit_text = refl

one_digit-IsNumberText : IsNumberText texts.isspace (codes "7")
unfolding all_of any_of count_of is_allowed is_digit is_exponent is_sign
one_digit-IsNumberText = (refl, refl, omega arith)

to_float-IsAnswer_example :
    Gives
      (λ r.
        Holds on_st r.0 (flag_cell (some (codes "7")) ∷ 9 ∷ [])
        × FloatsAfter (some (codes "7")) no_floats r.1)
      (to_float texts (one_digit, no_floats))
to_float-IsAnswer_example =
    to_float-IsAnswer texts one_digit no_floats 1 500 (9 ∷ []) 55 [] (some (codes "7"))
      texts-IsSpace one_digit-Holds one_digit_text
      (inr (one_digit-IsNumberText, codes "7", no_exponent 55 [] (ground arith) tt, refl))
      (omega arith)

decimal-write_digits_example :
    (decimal (write_digits 3 1234 500 no_memory) 500 3 ≡ 1234 % 10 ^ 3)
    × ((i : ℕ)
        → i < 3
        → (48 ≤ get_byte (write_digits 3 1234 500 no_memory) (500 + i))
          × (get_byte (write_digits 3 1234 500 no_memory) (500 + i) ≤ 57))
    × ((x : ℕ)
        → (x < 500) ⊎ (500 + 3 ≤ x)
        → get_byte (write_digits 3 1234 500 no_memory) x ≡ get_byte no_memory x)
decimal-write_digits_example = decimal-write_digits 3 1234 500 no_memory

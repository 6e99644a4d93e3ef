-- ===== src/Control/Loop/Crossing.antt =====
-- The sign test of +LOOP decides, without overflow, whether the index crosses the boundary between
-- the limit minus one and the limit.
use smolforth.Base.{ℕ, zero, suc, ◌+◌, ◌/◌, ◌%◌, ◌^◌, ◌≤◌, ◌<◌, ◌≡◌, refl, arith}
use smolforth.Base.{Bool, true, false, not, ltb, leb, bit_and, bit_xor, ◌∙◌}
use mathlib.Core.Path.{ap₂}
use smolforth.Base.Bits.{bit_xor_shift, bit_and_shift}
use smolforth.Base.Int.{ℤ, ◌+ℤ◌, is_negative, signed}
use smolforth.Control.Loop.{plus_loop_ends}

differs : Bool → Bool → Bool
differs true b = not b
differs false b = b

-- From `old` the step `s` leads from the negative to the other side of zero, or back, in the
-- integers: `old` is the index less the limit, so zero is the limit.
unfoldable pub crosses : ℤ → ℤ → Bool
unfolding differs
crosses old s = differs (is_negative old) (is_negative (old +ℤ s))

-- The top bit of the tested cell, from the top bits of the three cells.
test_top_bit :
    (a b c : ℕ)
    → bit_and (bit_xor a b) (bit_xor a c) / 2 ^ 63
      ≡ bit_and (bit_xor (a / 2 ^ 63) (b / 2 ^ 63)) (bit_xor (a / 2 ^ 63) (c / 2 ^ 63))
test_top_bit a b c =
    bit_and_shift 63 (bit_xor a b) (bit_xor a c)
    ∙ ap₂ bit_and (bit_xor_shift 63 a b) (bit_xor_shift 63 a c)

leb-div : (x : ℕ) → leb (2 ^ 63) x ≡ ltb 0 (x / 2 ^ 63)
leb-div x = ground arith

module _ (old s : ℕ) (ho : old < 2 ^ 64) (hs : s < 2 ^ 64) where
  -- The signs of the three cells fix both sides.
  signs :
      (a b c : ℕ)
      → old / 2 ^ 63 ≡ a
      → (old + s) % 2 ^ 64 / 2 ^ 63 ≡ b
      → s / 2 ^ 63 ≡ c
      → a ≤ 1
      → b ≤ 1
      → c ≤ 1
      → ltb 0 (bit_and (bit_xor a b) (bit_xor a c)) ≡ crosses (signed 64 old) (signed 64 s)
  unfolding crosses ◌+ℤ◌
  signs zero zero zero p q r x y z = ground arith
  signs zero zero (suc zero) p q r x y z = ground arith
  signs zero (suc zero) zero p q r x y z = ground arith
  signs zero (suc zero) (suc zero) p q r x y z = ground arith
  signs (suc zero) zero zero p q r x y z = ground arith
  signs (suc zero) zero (suc zero) p q r x y z = ground arith
  signs (suc zero) (suc zero) zero p q r x y z = ground arith
  signs (suc zero) (suc zero) (suc zero) p q r x y z = ground arith
  signs (suc (suc a)) b c p q r x y z = absurd (omega arith)
  signs zero (suc (suc b)) c p q r x y z = absurd (omega arith)
  signs (suc zero) (suc (suc b)) c p q r x y z = absurd (omega arith)
  signs zero zero (suc (suc c)) p q r x y z = absurd (omega arith)
  signs zero (suc zero) (suc (suc c)) p q r x y z = absurd (omega arith)
  signs (suc zero) zero (suc (suc c)) p q r x y z = absurd (omega arith)
  signs (suc zero) (suc zero) (suc (suc c)) p q r x y z = absurd (omega arith)

-- The test of +LOOP holds exactly when adding the increment to the distance of the index from the
-- limit, as integers and with no wrap-around, leads from one side of zero to the other.
pub plus_loop_ends-crosses :
    (old s : ℕ)
    → old < 2 ^ 64
    → s < 2 ^ 64
    → plus_loop_ends old s ≡ crosses (signed 64 old) (signed 64 s)
unfolding plus_loop_ends
plus_loop_ends-crosses old s ho hs =
    rw (leb-div, test_top_bit)
      (signs old s ho hs (old / 2 ^ 63) ((old + s) % 2 ^ 64 / 2 ^ 63) (s / 2 ^ 63) refl refl refl
        (omega arith) (omega arith) (omega arith))

-- ===== src/Arithmetic/Division.antt =====
-- Division of integers: what the words promise, and that C's division with the correction of
-- FM/MOD keeps it.
use smolforth.Base.{
  ℕ, zero, suc, ◌+◌, ◌-◌, ◌*◌, ◌%◌, ◌^◌, ◌≤◌, ◌<◌, ◌≡◌, ◌⊎◌, inl, inr, refl, arith, sym, ap, ◌∙◌,
  Bool-cases,
}
use smolforth.Base.{Bool, true, not, ◌&&◌, ltb, ◌==◌}
use smolforth.Base.Int.{
  ℤ, pos, negsuc, pos_part, neg_part, ◌+ℤ◌, ◌*ℤ◌, +ℤ_parts, *ℤ_parts, eq_of_parts, is_negative,
  magnitude, signed, wrap,
}
use smolforth.Arithmetic.{c_div, c_rem, xor_bool, floor_cells}

-- Symmetric division: the remainder is smaller than the divisor, and not of the sign opposite to
-- the dividend's.
pub record IsSymmetric (d n q r : ℤ) : Type 0 where
  pub splits : d ≡ q *ℤ n +ℤ r
  pub small : magnitude r < magnitude n
  pub same_sign : (magnitude r ≡ 0) ⊎ (is_negative r ≡ is_negative d)

-- Floored division: the remainder has the divisor's sign.
pub record IsFloored (d n q r : ℤ) : Type 0 where
  pub splits : d ≡ q *ℤ n +ℤ r
  pub small : magnitude r < magnitude n
  pub same_sign : (magnitude r ≡ 0) ⊎ (is_negative r ≡ is_negative n)

pub c_div-IsSymmetric : (d n : ℤ) → 0 < magnitude n → IsSymmetric d n (c_div d n) (c_rem d n)
unfolding c_div c_rem ◌+ℤ◌ ◌*ℤ◌
c_div-IsSymmetric (pos a) (pos b) h = record {
  splits = ground arith;
  small = ground arith;
  same_sign = ground arith;
}
c_div-IsSymmetric (pos a) (negsuc b) h = record {
  splits = ground arith;
  small = ground arith;
  same_sign = ground arith;
}
c_div-IsSymmetric (negsuc a) (pos b) h = record {
  splits = ground arith;
  small = ground arith;
  same_sign = ground arith;
}
c_div-IsSymmetric (negsuc a) (negsuc b) h = record {
  splits = ground arith;
  small = ground arith;
  same_sign = ground arith;
}

-- A remainder that is smaller than a cell's number is read back from its cell.
pub signed-wrap : (r : ℤ) → magnitude r < 2 ^ 63 → signed 64 (wrap 64 r) ≡ r
signed-wrap (pos a) h = ground arith
signed-wrap (negsuc a) h = ground arith

pub magnitude-signed-le : (x : ℕ) → x < 2 ^ 64 → magnitude (signed 64 x) ≤ 2 ^ 63
magnitude-signed-le x h = ground arith

wrap-pred : (q : ℤ) → wrap 64 (q +ℤ negsuc 0) ≡ (wrap 64 q + 2 ^ 64 - 1) % 2 ^ 64
unfolding ◌+ℤ◌
wrap-pred (pos zero) = refl
wrap-pred (pos (suc a)) = ground arith
wrap-pred (negsuc a) = ground arith

pub wrap-lt : (z : ℤ) → wrap 64 z < 2 ^ 64
wrap-lt (pos n) = omega arith
wrap-lt (negsuc n) = omega arith

pub floor_cells-lt :
    (d n : ℤ) (n' : ℕ) (r q : ℤ)
    → let c = floor_cells d n n' (wrap 64 r) (wrap 64 q) in (c.0 < 2 ^ 64) × (c.1 < 2 ^ 64)
unfolding floor_cells
floor_cells-lt d n n' r q = ground (arith, wrap-lt r, wrap-lt q)

-- One less in the quotient and one divisor more in the remainder is the same dividend.
move_one : (q n r : ℤ) → (q +ℤ negsuc 0) *ℤ n +ℤ (r +ℤ n) ≡ q *ℤ n +ℤ r
move_one q n r =
    let q' = q +ℤ negsuc 0 in
    eq_of_parts _ _ (
      omega (
        arith,
        +ℤ_parts (q' *ℤ n) (r +ℤ n),
        +ℤ_parts r n,
        +ℤ_parts (q *ℤ n) r,
        *ℤ_parts q' n,
        *ℤ_parts q n,
        ap (λ (t : ℕ). t * pos_part n) (+ℤ_parts q (negsuc 0)),
        ap (λ (t : ℕ). t * neg_part n) (+ℤ_parts q (negsuc 0)),
      ))

-- A remainder and a divisor of the other sign add up without overflow, to a number of the
-- divisor's sign or to zero.
pub add_opposite :
    (r : ℤ) (n' : ℕ)
    → n' < 2 ^ 64
    → magnitude r < magnitude (signed 64 n')
    → xor_bool (is_negative r) (is_negative (signed 64 n')) ≡ true
    → signed 64 ((wrap 64 r + n') % 2 ^ 64) ≡ r +ℤ signed 64 n'
unfolding ◌+ℤ◌
add_opposite (pos a) n' hn s o = ground arith
add_opposite (negsuc a) n' hn s o = ground arith

add_opposite_sign :
    (r n : ℤ)
    → magnitude r < magnitude n
    → 0 < magnitude r
    → xor_bool (is_negative r) (is_negative n) ≡ true
    → (magnitude (r +ℤ n) < magnitude n) × (is_negative (r +ℤ n) ≡ is_negative n)
unfolding ◌+ℤ◌
add_opposite_sign (pos a) (pos b) s z o = ground arith
add_opposite_sign (pos a) (negsuc b) s z o = ground arith
add_opposite_sign (negsuc a) (pos b) s z o = ground arith
add_opposite_sign (negsuc a) (negsuc b) s z o = ground arith

wrap_ne_zero : (r : ℤ) → magnitude r < 2 ^ 63 → not (wrap 64 r == 0) ≡ ltb 0 (magnitude r)
wrap_ne_zero (pos a) h = ground arith
wrap_ne_zero (negsuc a) h = ground arith

-- The quotient and remainder that the word leaves, on integers.
pub record Floored (d n : ℤ) (r q : ℕ) : Type 0 where
  pub quotient : ℤ
  pub floored : IsFloored d n quotient (signed 64 r)
  pub quotient_cell : q ≡ wrap 64 quotient

module _ (d : ℤ) (n' : ℕ) (hn : n' < 2 ^ 64) (q r : ℤ) (h : IsSymmetric d (signed 64 n') q r) where
  small_r : magnitude r < 2 ^ 63
  small_r = omega (arith, magnitude-signed-le n' hn, h.small)

  kept :
      (magnitude r ≡ 0) ⊎ (is_negative r ≡ is_negative (signed 64 n'))
      → Floored d (signed 64 n') (wrap 64 r) (wrap 64 q)
  kept same = record {
    quotient = q;
    floored =
        rw (signed-wrap r small_r)
          (record { splits = h.splits; small = h.small; same_sign = same });
    quotient_cell = refl;
  }

  moved :
      0 < magnitude r
      → xor_bool (is_negative r) (is_negative (signed 64 n')) ≡ true
      → Floored d (signed 64 n') ((wrap 64 r + n') % 2 ^ 64) ((wrap 64 q + 2 ^ 64 - 1) % 2 ^ 64)
  moved z o = record {
    quotient = q +ℤ negsuc 0;
    floored = rw (add_opposite r n' hn h.small o) (record {
      splits = h.splits ∙ sym (move_one q (signed 64 n') r);
      small = (add_opposite_sign r (signed 64 n') h.small z o).0;
      same_sign = inr (add_opposite_sign r (signed 64 n') h.small z o).1;
    });
    quotient_cell = sym (wrap-pred q);
  }

  -- The correction of FM/MOD turns symmetric division into floored division.
  pub floor_cells-Floored :
      let c = floor_cells d (signed 64 n') n' (wrap 64 r) (wrap 64 q) in
      Floored d (signed 64 n') c.0 c.1
  unfolding floor_cells
  floor_cells-Floored = elim (Bool-cases test) [
    | inl e ↦
        rw e
          (moved (ground (arith, wrap_ne_zero r small_r)) (ground (arith, wrap_ne_zero r small_r)))
    | inr e ↦ rw e (kept (ground (arith, wrap_ne_zero r small_r)))
  ]
    where
      test : Bool
      test = not (wrap 64 r == 0) && xor_bool (is_negative d) (is_negative (signed 64 n'))

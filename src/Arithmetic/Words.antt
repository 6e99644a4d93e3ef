-- ===== src/Arithmetic/Words.antt =====
-- The stack effects of UM/MOD, SM/REM, FM/MOD, */ and */MOD.
use smolforth.Base.{
  ℕ, suc, ◌+◌, ◌-◌, ◌*◌, ◌/◌, ◌%◌, ◌^◌, ◌≤◌, ◌<◌, ◌≡◌, ◌≢◌, ◌⊎◌, inl, inr, refl, arith,
}
use smolforth.Base.{true, false, ◌==◌, List, ◌∷◌, Option, some}
use smolforth.Base.Int.{ℤ, pos, negsuc, ◌*ℤ◌, magnitude, signed, wrap}
use smolforth.Machine.{Machine}
use smolforth.Stack
use smolforth.Stack.{on_st}
use smolforth.Stack.Laws.{
  Holds, Holds-lt, pop-Holds, upop-Holds, push-Holds, dpop-Holds, udpop-Holds,
}
use smolforth.Arithmetic
use smolforth.Arithmetic.{c_div, c_rem, divides, leave, floor_cells}
use smolforth.Arithmetic.Division.{
  IsSymmetric, Floored, c_div-IsSymmetric, floor_cells-Floored, floor_cells-lt, wrap-lt,
  signed-wrap, magnitude-signed-le,
}

pub leave-Holds :
    (r q : ℕ) (m : Machine) (xs : List ℕ)
    → r < 2 ^ 64
    → q < 2 ^ 64
    → Holds on_st m xs
    → Holds on_st (leave r q m).1 (q ∷ r ∷ xs)
unfolding leave
leave-Holds r q m xs hr hq h = push-Holds on_st _ q (r ∷ xs) hq (push-Holds on_st m r xs hr h)

divides→nonzero : (a b : ℤ) → divides a b ≡ true → 0 < magnitude b
unfolding divides
divides→nonzero a b h = ground arith

quotient-lt : (a b : ℕ) → 0 < b → a ≤ 2 ^ 127 → (a < 2 ^ 127) ⊎ (1 < b) → a / b < 2 ^ 127
quotient-lt a b z h (inl s) = grind arith
quotient-lt a b z h (inr s) = grind arith

-- C defines the division of a double cell by any cell but zero, the least double cell by -1 apart.
pub divides_defined :
    (d n : ℕ)
    → d < 2 ^ 128
    → n < 2 ^ 64
    → n ≢ 0
    → (d ≢ 2 ^ 127) ⊎ (n ≢ 2 ^ 64 - 1)
    → divides (signed 128 d) (signed 64 n) ≡ true
unfolding divides
divides_defined d n hd hn z o =
    ground (arith, quotient-lt (magnitude (signed 128 d)) (magnitude (signed 64 n)))

product-le : (a b : ℕ) → a ≤ 2 ^ 63 → b ≤ 2 ^ 63 → a * b ≤ 2 ^ 126
product-le a b h k = grind arith

magnitude-*ℤ : (a b : ℤ) → magnitude (a *ℤ b) ≡ magnitude a * magnitude b
unfolding ◌*ℤ◌
magnitude-*ℤ (pos a) (pos b) = ground arith
magnitude-*ℤ (pos a) (negsuc b) = ground arith
magnitude-*ℤ (negsuc a) (pos b) = ground arith
magnitude-*ℤ (negsuc a) (negsuc b) = ground arith

divides_small : (a b : ℤ) → magnitude a ≤ 2 ^ 126 → 0 < magnitude b → divides a b ≡ true
unfolding divides
divides_small (pos a) (pos b) h z = ground (arith, quotient-lt a b)
divides_small (pos a) (negsuc b) h z = ground (arith, quotient-lt a (suc b))
divides_small (negsuc a) (pos b) h z = ground (arith, quotient-lt (suc a) b)
divides_small (negsuc a) (negsuc b) h z = ground (arith, quotient-lt (suc a) (suc b))

-- The product of two cells divided by a third is defined unless that is zero.
divides_product :
    (a b c : ℕ)
    → a < 2 ^ 64
    → b < 2 ^ 64
    → c < 2 ^ 64
    → c ≢ 0
    → divides (signed 64 a *ℤ signed 64 b) (signed 64 c) ≡ true
divides_product a b c ha hb hc z =
    divides_small (signed 64 a *ℤ signed 64 b) (signed 64 c)
      (rw magnitude-*ℤ (product-le _ _ (magnitude-signed-le a ha) (magnitude-signed-le b hb)))
      (ground arith)

-- A word runs, and leaves a quotient and a remainder related to its operands by `P`.
pub record Leaves (o : Option Machine) (xs : List ℕ) (P : ℕ → ℕ → Type 0) : Type 0 where
  pub after : Machine
  pub runs : o ≡ some after
  pub r : ℕ
  pub q : ℕ
  pub stack : Holds on_st after (q ∷ r ∷ xs)
  pub related : P r q

-- The cells of symmetric division, quotient cut to a cell and remainder exact.
pub record Symmetric (d n : ℤ) (r q : ℕ) : Type 0 where
  pub quotient : ℤ
  pub symmetric : IsSymmetric d n quotient (signed 64 r)
  pub quotient_cell : q ≡ wrap 64 quotient

Symmetric-cells :
    (d : ℤ) (n : ℕ)
    → n < 2 ^ 64
    → 0 < magnitude (signed 64 n)
    → Symmetric d (signed 64 n) (wrap 64 (c_rem d (signed 64 n))) (wrap 64 (c_div d (signed 64 n)))
Symmetric-cells d n hn z =
    let sy = c_div-IsSymmetric d (signed 64 n) z in
    let small : magnitude (c_rem d (signed 64 n)) < 2 ^ 63 =
      omega (arith, magnitude-signed-le n hn, sy.small) in
    record {
      quotient = c_div d (signed 64 n);
      symmetric = rw (signed-wrap (c_rem d (signed 64 n)) small) sy;
      quotient_cell = refl;
    }

module _ (m : Machine) (xs : List ℕ) where
  -- UM/MOD divides an unsigned double cell by an unsigned cell, if that is not zero: the remainder
  -- is exact, and the quotient is cut to a cell.
  pub um_slash_mod-Leaves :
      (n hi lo : ℕ)
      → Holds on_st m (n ∷ hi ∷ lo ∷ xs)
      → n ≢ 0
      → Leaves
          (Arithmetic.um_slash_mod m)
          xs
          (λ r q. (r < n) × (k : ℕ) × (hi * 2 ^ 64 + lo ≡ k * n + r) × (q ≡ k % 2 ^ 64))
  unfolding Arithmetic.um_slash_mod
  um_slash_mod-Leaves n hi lo h z =
      let p = upop-Holds on_st m n (hi ∷ lo ∷ xs) h in
      let s = udpop-Holds on_st (Stack.upop on_st m).1 hi lo xs p.1 in
      let d = hi * 2 ^ 64 + lo in
      let nonzero : (n == 0) ≡ false = ground arith in
      let small = Holds-lt on_st m n (hi ∷ lo ∷ xs) h in
      let below : d % n < n = omega arith in
      let e : d % n % 2 ^ 64 ≡ d % n = omega arith in
      record {
        after =
            (leave (d % n % 2 ^ 64) (d / n % 2 ^ 64)
              (Stack.udpop on_st (Stack.upop on_st m).1).1).1;
        runs = rw (p.0, s.0, nonzero);
        r = d % n % 2 ^ 64;
        q = d / n % 2 ^ 64;
        stack = leave-Holds _ _ _ xs (omega arith) (omega arith) s.1;
        related = rw e (below, d / n, grind arith, refl);
      }

  module _ (n hi lo : ℕ) (h : Holds on_st m (n ∷ hi ∷ lo ∷ xs)) (z : n ≢ 0)
      (o : (hi * 2 ^ 64 + lo ≢ 2 ^ 127) ⊎ (n ≢ 2 ^ 64 - 1)) where
    double_ok : divides (signed 128 (hi * 2 ^ 64 + lo)) (signed 64 n) ≡ true
    double_ok =
        let p = pop-Holds on_st m n (hi ∷ lo ∷ xs) h in
        let a = Holds-lt on_st (Stack.pop on_st m).1 hi (lo ∷ xs) p.1 in
        let b =
          Holds-lt on_st (Stack.pop on_st (Stack.pop on_st m).1).1 lo xs
            (pop-Holds on_st (Stack.pop on_st m).1 hi (lo ∷ xs) p.1).1 in
        divides_defined (hi * 2 ^ 64 + lo) n (omega arith) (Holds-lt on_st m n (hi ∷ lo ∷ xs) h) z o

    -- SM/REM divides them symmetrically, in the same cases.
    pub sm_slash_rem-Leaves :
        Leaves
          (Arithmetic.sm_slash_rem m)
          xs
          (Symmetric (signed 128 (hi * 2 ^ 64 + lo)) (signed 64 n))
    unfolding Arithmetic.sm_slash_rem
    sm_slash_rem-Leaves =
        let p = pop-Holds on_st m n (hi ∷ lo ∷ xs) h in
        let s = dpop-Holds on_st (Stack.pop on_st m).1 hi lo xs p.1 in
        let d = signed 128 (hi * 2 ^ 64 + lo) in
        record {
          after =
              (leave (wrap 64 (c_rem d (signed 64 n))) (wrap 64 (c_div d (signed 64 n)))
                (Stack.dpop on_st (Stack.pop on_st m).1).1).1;
          runs = rw (p.0, s.0, double_ok);
          r = wrap 64 (c_rem d (signed 64 n));
          q = wrap 64 (c_div d (signed 64 n));
          stack = leave-Holds _ _ _ xs (wrap-lt _) (wrap-lt _) s.1;
          related =
              Symmetric-cells d n (Holds-lt on_st m n (hi ∷ lo ∷ xs) h)
                (divides→nonzero d (signed 64 n) double_ok);
        }

    -- FM/MOD divides a signed double cell by a signed cell that is not zero, with the floor as the
    -- quotient, which is cut to a cell, and an exact remainder; the smallest double cell is not divided
    -- by -1.
    pub fm_slash_mod-Leaves :
        Leaves
          (Arithmetic.fm_slash_mod m)
          xs
          (Floored (signed 128 (hi * 2 ^ 64 + lo)) (signed 64 n))
    unfolding Arithmetic.fm_slash_mod
    fm_slash_mod-Leaves =
        let p = pop-Holds on_st m n (hi ∷ lo ∷ xs) h in
        let s = dpop-Holds on_st (Stack.pop on_st m).1 hi lo xs p.1 in
        let d = signed 128 (hi * 2 ^ 64 + lo) in
        let small = Holds-lt on_st m n (hi ∷ lo ∷ xs) h in
        let c =
          floor_cells d (signed 64 n) n (wrap 64 (c_rem d (signed 64 n)))
            (wrap 64 (c_div d (signed 64 n))) in
        let cells =
          floor_cells-lt d (signed 64 n) n (c_rem d (signed 64 n)) (c_div d (signed 64 n)) in
        record {
          after = (leave c.0 c.1 (Stack.dpop on_st (Stack.pop on_st m).1).1).1;
          runs = rw (p.0, s.0, double_ok);
          r = c.0;
          q = c.1;
          stack = leave-Holds _ _ _ xs cells.0 cells.1 s.1;
          related =
              floor_cells-Floored d n small (c_div d (signed 64 n)) (c_rem d (signed 64 n))
                (c_div-IsSymmetric d (signed 64 n) (divides→nonzero d (signed 64 n) double_ok));
        }

  module _ (n3 n2 n1 : ℕ) (h : Holds on_st m (n3 ∷ n2 ∷ n1 ∷ xs)) (z : n3 ≢ 0) where
    three_ok : divides (signed 64 n1 *ℤ signed 64 n2) (signed 64 n3) ≡ true
    three_ok =
        let p = pop-Holds on_st m n3 (n2 ∷ n1 ∷ xs) h in
        let s = pop-Holds on_st (Stack.pop on_st m).1 n2 (n1 ∷ xs) p.1 in
        divides_product n1 n2 n3
          (Holds-lt on_st (Stack.pop on_st (Stack.pop on_st m).1).1 n1 xs s.1)
          (Holds-lt on_st (Stack.pop on_st m).1 n2 (n1 ∷ xs) p.1)
          (Holds-lt on_st m n3 (n2 ∷ n1 ∷ xs) h) z

    -- */MOD divides the product of two cells by a third that is not zero, symmetrically. The
    -- product is exact, as it does not overflow in between; the quotient is cut to a cell.
    pub star_slash_mod-Leaves :
        Leaves
          (Arithmetic.star_slash_mod m)
          xs
          (Symmetric (signed 64 n1 *ℤ signed 64 n2) (signed 64 n3))
    unfolding Arithmetic.star_slash_mod
    star_slash_mod-Leaves =
        let p = pop-Holds on_st m n3 (n2 ∷ n1 ∷ xs) h in
        let s = pop-Holds on_st (Stack.pop on_st m).1 n2 (n1 ∷ xs) p.1 in
        let t = pop-Holds on_st (Stack.pop on_st (Stack.pop on_st m).1).1 n1 xs s.1 in
        let d = signed 64 n1 *ℤ signed 64 n2 in
        record {
          after =
              (leave (wrap 64 (c_rem d (signed 64 n3))) (wrap 64 (c_div d (signed 64 n3)))
                (Stack.pop on_st (Stack.pop on_st (Stack.pop on_st m).1).1).1).1;
          runs = rw (p.0, s.0, t.0, three_ok);
          r = wrap 64 (c_rem d (signed 64 n3));
          q = wrap 64 (c_div d (signed 64 n3));
          stack = leave-Holds _ _ _ xs (wrap-lt _) (wrap-lt _) t.1;
          related =
              Symmetric-cells d n3 (Holds-lt on_st m n3 (n2 ∷ n1 ∷ xs) h)
                (divides→nonzero d (signed 64 n3) three_ok);
        }

    -- */ leaves the quotient of the same division alone.
    pub star_slash_quotient :
        (m' : Machine) × (Arithmetic.star_slash m ≡ some m')
        × (r q : ℕ) × Holds on_st m' (q ∷ xs)
        × Symmetric (signed 64 n1 *ℤ signed 64 n2) (signed 64 n3) r q
    unfolding Arithmetic.star_slash
    star_slash_quotient =
        let p = pop-Holds on_st m n3 (n2 ∷ n1 ∷ xs) h in
        let s = pop-Holds on_st (Stack.pop on_st m).1 n2 (n1 ∷ xs) p.1 in
        let t = pop-Holds on_st (Stack.pop on_st (Stack.pop on_st m).1).1 n1 xs s.1 in
        let d = signed 64 n1 *ℤ signed 64 n2 in
        (
          (Stack.push (wrap 64 (c_div d (signed 64 n3))) on_st
              (Stack.pop on_st (Stack.pop on_st (Stack.pop on_st m).1).1).1).1,
          rw (p.0, s.0, t.0, three_ok),
          wrap 64 (c_rem d (signed 64 n3)),
          wrap 64 (c_div d (signed 64 n3)),
          push-Holds on_st _ _ xs (wrap-lt _) t.1,
          Symmetric-cells d n3 (Holds-lt on_st m n3 (n2 ∷ n1 ∷ xs) h)
              (divides→nonzero d (signed 64 n3) three_ok),
        )

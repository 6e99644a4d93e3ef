-- ===== src/Parse/Copy.antt =====
-- The loop of WORD that copies a token, byte by byte.
use smolforth.Base.{ℕ, zero, suc, ◌+◌, ◌^◌, ◌≤◌, ◌<◌, ◌≡◌, ◌⊎◌, inl, inr, refl, arith}
use smolforth.Base.{true, false, ltb, Bool-cases, ◌∙◌}
use smolforth.Memory.{Mem, get_byte, set_byte, get_byte-set_byte, get_byte-lt}
use smolforth.Parse.{Place, step, ends_token, copy_token}
use smolforth.Parse.Scan.{cell_lt-small}

-- What the copying loop leaves: the bytes of the run from index `p.passed + 1` of the pad on.
pub record Copied (tokenpad bl lsize : ℕ) (p : Place) (mem : Mem) (r : Place × Mem) : Type 0 where
  pub n : ℕ
  pub offset : r.0.offset ≡ p.offset + n
  pub passed : r.0.passed ≡ p.passed + n
  pub within : p.offset + n ≤ lsize
  pub solid : (j : ℕ) → j < n → ends_token bl (get_byte mem (p.ptr + j)) ≡ false
  pub delimited : p.offset + n < lsize → ends_token bl (get_byte mem (p.ptr + n)) ≡ true
  pub copied :
      (j : ℕ) → j < n → get_byte r.1 (tokenpad + 1 + p.passed + j) ≡ get_byte mem (p.ptr + j)
  pub kept :
      (x : ℕ)
      → (x < tokenpad + 1 + p.passed) ⊎ (tokenpad + 1 + p.passed + n ≤ x)
      → get_byte r.1 x ≡ get_byte mem x

module _ (tokenpad bl lsize : ℕ) (short : lsize < 2 ^ 63) where
  copy_stopped :
      (p : Place) (mem : Mem)
      → p.offset ≤ lsize
      → (p.offset < lsize → ends_token bl (get_byte mem p.ptr) ≡ true)
      → Copied tokenpad bl lsize p mem (p, mem)
  copy_stopped p mem h e = record {
    n = 0;
    offset = omega arith;
    passed = omega arith;
    within = omega arith;
    solid = λ j b. elim b [ ];
    delimited = λ b. let z : p.ptr + 0 ≡ p.ptr = omega arith in rw z (e (omega arith));
    copied = λ j b. elim b [ ];
    kept = λ x out. refl;
  }

  module _ (p : Place) (mem : Mem) (fuel : ℕ) (r : Place × Mem) (b : p.offset + suc fuel ≡ lsize)
      (apart : (p.ptr + suc fuel ≤ tokenpad) ⊎ (tokenpad + 1 + p.passed + suc fuel ≤ p.ptr))
      (t : ends_token bl (get_byte mem p.ptr) ≡ false) where
    mem1 : Mem
    mem1 = set_byte mem (tokenpad + (p.passed + 1)) (get_byte mem p.ptr)

    -- The byte written is not one of those still to be read.
    unread : (j : ℕ) → j ≤ suc fuel → get_byte mem1 (p.ptr + j) ≡ get_byte mem (p.ptr + j)
    unfolding mem1
    unread j h =
        ground (
          arith,
          get_byte-set_byte mem (tokenpad + (p.passed + 1)) (get_byte mem p.ptr) (p.ptr + j),
        )

    -- The bytes after the first, as the rest of the loop sees them.
    tail_byte : (j : ℕ) → j ≤ fuel → get_byte mem1 (p.ptr + 1 + j) ≡ get_byte mem (p.ptr + suc j)
    tail_byte j h =
        let e : p.ptr + 1 + j ≡ p.ptr + suc j = omega arith in rw e (unread (suc j) (omega arith))

    set_elsewhere :
        (x : ℕ)
        → (x < tokenpad + 1 + p.passed) ⊎ (tokenpad + 1 + p.passed < x)
        → get_byte mem1 x ≡ get_byte mem x
    unfolding mem1
    set_elsewhere x h =
        ground (arith, get_byte-set_byte mem (tokenpad + (p.passed + 1)) (get_byte mem p.ptr) x)

    set_here : (x : ℕ) → x ≡ tokenpad + 1 + p.passed → get_byte mem1 x ≡ get_byte mem p.ptr
    unfolding mem1
    set_here x h = ground (
      arith,
      get_byte-set_byte mem (tokenpad + (p.passed + 1)) (get_byte mem p.ptr) x,
      get_byte-lt mem p.ptr,
    )

    module _ (c : Copied tokenpad bl lsize (step p) mem1 r) where
      solid' : (j : ℕ) → j < suc c.n → ends_token bl (get_byte mem (p.ptr + j)) ≡ false
      solid' zero h = let z : p.ptr + 0 ≡ p.ptr = omega arith in rw z t
      solid' (suc j) h = rw (← tail_byte j (omega (arith, c.within))) (c.solid j (omega arith))

      copied' :
          (j : ℕ)
          → j < suc c.n
          → get_byte r.1 (tokenpad + 1 + p.passed + j) ≡ get_byte mem (p.ptr + j)
      copied' zero h =
          let z : p.ptr + 0 ≡ p.ptr = omega arith in
          rw z (
            c.kept (tokenpad + 1 + p.passed + 0) (inl (omega arith))
            ∙ set_here (tokenpad + 1 + p.passed + 0) (omega arith))
      copied' (suc j) h =
          let e : tokenpad + 1 + p.passed + suc j ≡ tokenpad + 1 + (p.passed + 1) + j =
            omega arith in
          rw e (c.copied j (omega arith) ∙ tail_byte j (omega (arith, c.within)))

      kept' :
          (x : ℕ)
          → (x < tokenpad + 1 + p.passed) ⊎ (tokenpad + 1 + p.passed + suc c.n ≤ x)
          → get_byte r.1 x ≡ get_byte mem x
      kept' x h = c.kept x (omega arith) ∙ set_elsewhere x (omega arith)

      copy_more : Copied tokenpad bl lsize p mem r
      copy_more = record {
        n = suc c.n;
        offset = omega (arith, c.offset);
        passed = omega (arith, c.passed);
        within = omega (arith, c.within);
        solid = solid';
        delimited = λ h. rw (← tail_byte c.n (omega (arith, c.within))) (c.delimited (omega arith));
        copied = copied';
        kept = kept';
      }

  -- With fuel for the rest of the line, and a pad apart from it, the loop copies the longest run.
  pub copy_token-Copied :
      (fuel : ℕ) (p : Place) (mem : Mem)
      → p.offset + fuel ≡ lsize
      → (p.ptr + fuel ≤ tokenpad) ⊎ (tokenpad + 1 + p.passed + fuel ≤ p.ptr)
      → Copied tokenpad bl lsize p mem (copy_token tokenpad bl lsize fuel p mem)
  unfolding copy_token mem1
  copy_token-Copied zero p mem e apart =
      copy_stopped p mem (omega arith) (λ b. absurd (omega arith))
  copy_token-Copied (suc fuel) p mem e apart =
      let lt : ltb p.offset lsize ≡ true = ground arith in
      rw (cell_lt-small p.offset lsize (omega arith) short, lt)
        (elim (Bool-cases (ends_token bl (get_byte mem p.ptr))) [
          | inl t ↦ rw t (copy_stopped p mem (omega arith) (λ b. t))
          | inr f ↦ rw f (
              copy_more p mem fuel _ e apart f
                (copy_token-Copied fuel (step p) _ (omega arith) (omega arith)))
        ])

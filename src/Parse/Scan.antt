-- ===== src/Parse/Scan.antt =====
-- What a loop over the line finds: the longest run of bytes that pass its test.
use smolforth.Base.{ℕ, zero, suc, ◌+◌, ◌^◌, ◌≤◌, ◌<◌, ◌≡◌, arith}
use smolforth.Base.{Bool, true, false, ltb, Bool-cases, inl, inr}
use smolforth.Memory.{Mem, get_byte}
use smolforth.Parse.{cell_lt, Place, step, advance}

pub cell_lt-small : (a b : ℕ) → a < 2 ^ 63 → b < 2 ^ 63 → cell_lt a b ≡ ltb a b
unfolding cell_lt
cell_lt-small a b ha hb = ground arith

-- From place `p`, the loop stopped at `q` having passed `n` bytes, all that pass the test up to
-- the first that does not, or to the end of the line.
pub record Run (test : ℕ → Bool) (mem : Mem) (lsize : ℕ) (p q : Place) : Type 0 where
  pub n : ℕ
  pub offset : q.offset ≡ p.offset + n
  pub ptr : q.ptr ≡ p.ptr + n
  pub passed : q.passed ≡ p.passed + n
  pub within : p.offset + n ≤ lsize
  pub all : (j : ℕ) → j < n → test (get_byte mem (p.ptr + j)) ≡ true
  pub longest : p.offset + n < lsize → test (get_byte mem (p.ptr + n)) ≡ false

module _ (test : ℕ → Bool) (mem : Mem) (lsize : ℕ) (short : lsize < 2 ^ 63) where
  stopped :
      (p : Place)
      → p.offset ≤ lsize
      → (p.offset < lsize → test (get_byte mem p.ptr) ≡ false)
      → Run test mem lsize p p
  stopped p h e = record {
    n = 0;
    offset = omega arith;
    ptr = omega arith;
    passed = omega arith;
    within = omega arith;
    all = λ j b. elim b [ ];
    longest = λ b. let z : p.ptr + 0 ≡ p.ptr = omega arith in rw z (e (omega arith));
  }

  longer :
      (p q : Place)
      → p.offset < lsize
      → test (get_byte mem p.ptr) ≡ true
      → Run test mem lsize (step p) q
      → Run test mem lsize p q
  longer p q b t r = record {
    n = suc r.n;
    offset = omega (arith, r.offset);
    ptr = omega (arith, r.ptr);
    passed = omega (arith, r.passed);
    within = omega (arith, r.within);
    all = all';
    longest = λ c.
        let e : p.ptr + suc r.n ≡ p.ptr + 1 + r.n = omega arith in rw e (r.longest (omega arith));
  }
    where
      all' : (j : ℕ) → j < suc r.n → test (get_byte mem (p.ptr + j)) ≡ true
      all' zero c = let z : p.ptr + 0 ≡ p.ptr = omega arith in rw z t
      all' (suc j) c =
          let e : p.ptr + suc j ≡ p.ptr + 1 + j = omega arith in rw e (r.all j (omega arith))

  -- With fuel for the rest of the line, the loop takes the longest run.
  pub advance-Run :
      (fuel : ℕ) (p : Place)
      → p.offset + fuel ≡ lsize
      → Run test mem lsize p (advance test mem lsize fuel p)
  unfolding advance
  advance-Run zero p e = stopped p (omega arith) (λ b. absurd (omega arith))
  advance-Run (suc fuel) p e =
      let lt : ltb p.offset lsize ≡ true = ground arith in
      rw (cell_lt-small p.offset lsize (omega arith) short, lt)
        (elim (Bool-cases (test (get_byte mem p.ptr))) [
          | inl t ↦ rw t (longer p _ (omega arith) t (advance-Run fuel (step p) (omega arith)))
          | inr f ↦ rw f (stopped p (omega arith) (λ b. f))
        ])

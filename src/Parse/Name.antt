-- ===== src/Parse/Name.antt =====
-- PARSE-NAME finds the next token of the line.
use smolforth.Base.{ℕ, zero, suc, ◌+◌, ◌%◌, ◌^◌, ◌≤◌, ◌<◌, ◌≡◌, refl, arith}
use smolforth.Base.{Bool, true, false, not, List, ◌∷◌, ap}
use smolforth.Memory.{Mem, get_byte}
use smolforth.Machine.{Machine}
use smolforth.Stack.{on_st}
use smolforth.Stack.View.{UpStack-cons}
use smolforth.Stack.Laws.{Holds}
use smolforth.Parse.{Place, isspace_null, skip_space, advance, rounds_to, parse_name}
use smolforth.Parse.Scan.{Run, advance-Run}

-- From offset `pao` of the line, the next token starts at offset `s` and has `n` bytes: before it
-- stand only white space and nulls, in it none, and behind it one or the end of the line. It is
-- empty only at the end of the line.
pub record IsNextName (mem : Mem) (line pao lsize s n : ℕ) : Type 0 where
  pub from : pao ≤ s
  pub within : s + n ≤ lsize
  pub skipped : (j : ℕ) → pao + j < s → isspace_null (get_byte mem (line + pao + j)) ≡ true
  pub solid : (j : ℕ) → j < n → isspace_null (get_byte mem (line + s + j)) ≡ false
  pub delimited : s + n < lsize → isspace_null (get_byte mem (line + s + n)) ≡ true
  pub nonempty : s < lsize → 0 < n

eq_false_of_not : (b : Bool) → not b ≡ true → b ≡ false
eq_false_of_not b h = ground arith

eq_true_of_not : (b : Bool) → not b ≡ false → b ≡ true
eq_true_of_not b h = ground arith

module _ (mem : Mem) (lsize : ℕ) (short : lsize < 2 ^ 63) where
  pub skip_space-Run :
      (p : Place) → p.offset ≤ lsize → Run isspace_null mem lsize p (skip_space mem lsize p)
  unfolding skip_space
  skip_space-Run p h =
      advance-Run isspace_null mem lsize short (rounds_to p.offset lsize) p (omega arith)

  -- The two loops of PARSE-NAME, one after the other.
  two_runs :
      (line : ℕ) (p q r : Place)
      → p.ptr ≡ line + p.offset
      → Run isspace_null mem lsize p q
      → Run (λ c. not (isspace_null c)) mem lsize (record q { passed = 0 }) r
      → IsNextName mem line p.offset lsize q.offset r.passed
  two_runs line p q r e a b =
      let start : q.ptr ≡ line + q.offset = omega (arith, a.offset, a.ptr) in
      let count : r.passed ≡ b.n = omega (arith, b.passed) in
      record {
        from = omega (arith, a.offset);
        within = omega (arith, b.within, b.passed);
        skipped = λ j h. rw e at (a.all j (omega (arith, a.offset)));
        solid = λ j h. eq_false_of_not _ (rw start at (b.all j (omega arith)));
        delimited = λ h. rw count (eq_true_of_not _ (rw start at (b.longest (omega arith))));
        nonempty = λ h. omega (arith, count, nonempty h b.n refl);
      }
    where
      nonempty : q.offset < lsize → (n : ℕ) → b.n ≡ n → 0 < n
      nonempty h zero e' =
          let here : q.ptr + b.n ≡ q.ptr = omega arith in
          let solid : isspace_null (get_byte mem q.ptr) ≡ false =
            rw a.ptr (a.longest (omega (arith, a.offset))) in
          cc (solid, eq_true_of_not _ (rw here at (b.longest (omega arith))))
      nonempty h (suc n) e' = omega arith

module _ (m : Machine) (xs : List ℕ) where
  -- PARSE-NAME pushes the address and the length of the next name of the line, and moves the
  -- offset past it and past the delimiter. The rest of the stack stays.
  pub parse_name-IsNextName :
      Holds on_st m xs
      → m.header.pao ≤ m.header.line_size
      → m.header.line_size < 2 ^ 31
      → m.header.line_ptr + m.header.line_size < 2 ^ 64
      → let m' = (parse_name m).1 in
        (s n : ℕ) × IsNextName m.mem m.header.line_ptr m.header.pao m.header.line_size s n
        × Holds on_st m' (n ∷ (m.header.line_ptr + s) ∷ xs)
        × (m'.header ≡ record (m.header) { pao = s + n + 1 })
  unfolding parse_name
  parse_name-IsNextName h inside short fits =
      let p : Place = record {
        offset = m.header.pao;
        ptr = (m.header.line_ptr + m.header.pao) % 2 ^ 64;
        passed = 0;
      } in
      let lsize = m.header.line_size in
      let q = skip_space m.mem lsize p in
      let a = skip_space-Run m.mem lsize (omega arith) p inside in
      let r =
        advance (λ c. not (isspace_null c)) m.mem lsize (rounds_to q.offset lsize)
          (record q { passed = 0 }) in
      let b =
        advance-Run (λ c. not (isspace_null c)) m.mem lsize (omega arith) (rounds_to q.offset lsize)
          (record q { passed = 0 }) (omega (arith, a.offset, a.within)) in
      let t = two_runs m.mem lsize (omega arith) m.header.line_ptr p q r (omega arith) a b in
      let pao' : (r.offset + 1) % 2 ^ 64 ≡ q.offset + r.passed + 1 =
        omega (arith, b.offset, b.passed, b.within) in
      let start : q.ptr ≡ m.header.line_ptr + q.offset = omega (arith, a.offset, a.ptr) in
      (
        q.offset,
        r.passed,
        t,
        UpStack-cons _ (m.st + 8) _ r.passed ((m.header.line_ptr + q.offset) ∷ xs) refl
            (omega (arith, b.passed, b.within))
            (UpStack-cons m.mem m.st _ (m.header.line_ptr + q.offset) xs start
              (omega (arith, a.offset, a.within)) h),
        ap (λ (x : ℕ). record (m.header) { pao = x }) pao',
      )

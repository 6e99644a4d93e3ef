-- ===== src/Control/Loop/Rounds.antt =====
-- How often the body of DO ... LOOP runs.
use smolforth.Base.{ℕ, zero, suc, ◌+◌, ◌-◌, ◌%◌, ◌^◌, ◌≤◌, ◌<◌, ◌≡◌, arith}
use smolforth.Base.{true, false, ◌==◌, List, ◌∷◌}
use smolforth.Machine.{Machine, M, pure, ◌>>=◌, ◌>>◌}
use smolforth.Stack
use smolforth.Control.Stacks.{Stacks}
use smolforth.Control.Loop.{sys_loop}
use smolforth.Control.Loop.Once.{Ended, Continues, sys_loop-Both}

module _ (k : Stacks) where
  -- `n` times: LOOP, and the branch back to the body, which pops the flag.
  unfoldable pub rounds : ℕ → M (Unit {0})
  rounds zero = pure tt
  rounds (suc n) = do rounds n; sys_loop k; _ ← Stack.pop Stack.on_st; pure tt

  -- The rounds that LOOP goes back for, from an index and a limit.
  abbrev pub gap : ℕ → ℕ → ℕ
  gap index limit = (limit + 2 ^ 64 - index - 1) % 2 ^ 64

  rounds-Both :
      (n d r a limit index : ℕ) (m : Machine) (xs ys : List ℕ)
      → a < 2 ^ 64
      → limit < 2 ^ 64
      → index < 2 ^ 64
      → k.Both (suc d) r m xs (a ∷ limit ∷ index ∷ ys)
      → n ≤ gap index limit
      → k.Both (suc d) r (rounds n m).1 xs (a ∷ limit ∷ (index + n) % 2 ^ 64 ∷ ys)
  unfolding rounds
  rounds-Both zero d r a limit index m xs ys ha hl hi h b =
      let e : (index + 0) % 2 ^ 64 ≡ index = omega arith in rw e h
  rounds-Both (suc n) d r a limit index m xs ys ha hl hi h b =
      let before = rounds-Both n d r a limit index m xs ys ha hl hi h (omega arith) in
      let once = sys_loop-Both k d r a limit ((index + n) % 2 ^ 64) _ xs ys ha hl before in
      let more : (((index + n) % 2 ^ 64 + 1) % 2 ^ 64 == limit) ≡ false = ground arith in
      let e : ((index + n) % 2 ^ 64 + 1) % 2 ^ 64 ≡ (index + suc n) % 2 ^ 64 = omega arith in
      rw e at (k.pop_law d r 0 _ xs _ (rw more at once)).1

  -- LOOP leaves a 0, with which the branch goes back, `(limit - index - 1) mod 2^64` times,
  -- advancing the index by one each time; the time after that it leaves the flag that ends the loop
  -- and takes the three cells off the return stack. The body runs once more than LOOP goes back, which
  -- is 2^64 times if the two are equal at the start.
  pub loop_rounds :
      (d r a limit index : ℕ) (m : Machine) (xs ys : List ℕ)
      → a < 2 ^ 64
      → limit < 2 ^ 64
      → index < 2 ^ 64
      → k.Both (suc d) r m xs (a ∷ limit ∷ index ∷ ys)
      → ((n : ℕ)
          → n ≤ gap index limit
          → k.Both (suc d) r (rounds n m).1 xs (a ∷ limit ∷ (index + n) % 2 ^ 64 ∷ ys))
        × ((n : ℕ)
            → n < gap index limit
            → Continues k d r
                (sys_loop k (rounds n m).1).1
                xs
                ys
                a
                ((index + suc n) % 2 ^ 64)
                limit)
        × Ended k d r (sys_loop k (rounds (gap index limit) m).1).1 xs ys a
  loop_rounds d r a limit index m xs ys ha hl hi h =
      let all =
        λ (n : ℕ) (b : n ≤ gap index limit). rounds-Both n d r a limit index m xs ys ha hl hi h b in
      let last = all (gap index limit) (omega arith) in
      let once =
        sys_loop-Both k d r a limit ((index + gap index limit) % 2 ^ 64) _ xs ys ha hl last in
      let ends : (((index + gap index limit) % 2 ^ 64 + 1) % 2 ^ 64 == limit) ≡ true =
        ground arith in
      (all, λ n b. goes_back n b (all n (omega arith)), rw ends at once)
    where
      goes_back :
          (n : ℕ)
          → n < gap index limit
          → k.Both (suc d) r (rounds n m).1 xs (a ∷ limit ∷ (index + n) % 2 ^ 64 ∷ ys)
          → Continues k d r (sys_loop k (rounds n m).1).1 xs ys a ((index + suc n) % 2 ^ 64) limit
      goes_back n b before =
          let once = sys_loop-Both k d r a limit ((index + n) % 2 ^ 64) _ xs ys ha hl before in
          let more : (((index + n) % 2 ^ 64 + 1) % 2 ^ 64 == limit) ≡ false = ground arith in
          let e : ((index + n) % 2 ^ 64 + 1) % 2 ^ 64 ≡ (index + suc n) % 2 ^ 64 = omega arith in
          rw e at (rw more at once)

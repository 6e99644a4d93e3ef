-- ===== src/Control/Loop/Once.antt =====
-- One execution of LOOP, +LOOP and LEAVE, on either port.
use smolforth.Base.{ℕ, suc, ◌+◌, ◌-◌, ◌%◌, ◌^◌, ◌<◌, refl, arith}
use smolforth.Base.{Bool, true, false, if◌then◌else◌, ◌==◌, List, ◌∷◌}
use smolforth.Machine.{Machine}
use smolforth.Control.Stacks.{Stacks}
use smolforth.Control.Loop.{sys_loop, sys_plus_loop, sys_leave, plus_loop_ends, loop_outcome}

module _ (k : Stacks) where
  -- What stands on the two stacks when a loop word has decided to end the loop or to go on.
  abbrev pub Ended : ℕ → ℕ → Machine → List ℕ → List ℕ → ℕ → Type 0
  Ended d r m xs ys a = k.Both d (suc (suc r)) m ((2 ^ 64 - 1) ∷ xs) (a ∷ ys)

  abbrev pub Continues : ℕ → ℕ → Machine → List ℕ → List ℕ → ℕ → ℕ → ℕ → Type 0
  Continues d r m xs ys a index limit = k.Both d r m (0 ∷ xs) (a ∷ limit ∷ index ∷ ys)

  -- The end that LOOP and +LOOP share: the flag, the parameters, and the return address.
  finish :
      (b : Bool) (d r a index limit : ℕ) (m : Machine) (xs ys : List ℕ)
      → a < 2 ^ 64
      → index < 2 ^ 64
      → limit < 2 ^ 64
      → k.Both (suc d) (suc (suc (suc r))) m xs ys
      → let m' = (k.rpush a (loop_outcome k b index limit m).1).1 in
        if b then Ended d r m' xs ys a else Continues d r m' xs ys a index limit
  unfolding loop_outcome
  finish true d r a index limit m xs ys ha hi hl h =
      k.rpush_law d (suc (suc r)) a a _ _ ys refl ha
        (k.push_law d (suc (suc (suc r))) _ (2 ^ 64 - 1) m xs ys refl (omega arith) h)
  finish false d r a index limit m xs ys ha hi hl h =
      k.rpush_law d r a a _ _ (limit ∷ index ∷ ys) refl ha (
        k.rpush_law d (suc r) limit limit _ _ (index ∷ ys) refl hl (
          k.rpush_law d (suc (suc r)) index index _ _ ys refl hi
            (k.push_law d (suc (suc (suc r))) 0 0 m xs ys refl (omega arith) h)))

  -- LOOP adds one to the index, with wrap-around. If that gives the limit it pushes -1 and drops
  -- the loop's parameters; if not it pushes 0 and leaves the new index. The return address and all
  -- else on the two stacks stay.
  pub sys_loop-Both :
      (d r a limit index : ℕ) (m : Machine) (xs ys : List ℕ)
      → a < 2 ^ 64
      → limit < 2 ^ 64
      → k.Both (suc d) r m xs (a ∷ limit ∷ index ∷ ys)
      → (if (index + 1) % 2 ^ 64 == limit
          then Ended d r (sys_loop k m).1 xs ys a
          else Continues d r (sys_loop k m).1 xs ys a ((index + 1) % 2 ^ 64) limit)
  unfolding sys_loop
  sys_loop-Both d r a limit index m xs ys ha hl h =
      let p = k.rpop_law (suc d) r a m xs (limit ∷ index ∷ ys) h in
      let q = k.rpop_law (suc d) (suc r) limit _ xs (index ∷ ys) p.1 in
      let s = k.rpop_law (suc d) (suc (suc r)) index _ xs ys q.1 in
      rw (p.0, q.0, s.0)
        (finish ((index + 1) % 2 ^ 64 == limit) d r a ((index + 1) % 2 ^ 64) limit _ xs ys ha
          (omega arith) hl s.1)

  -- +LOOP ends the loop by its sign test; the index is advanced with wrap-around.
  pub sys_plus_loop-Both :
      (d r a limit index increment : ℕ) (m : Machine) (xs ys : List ℕ)
      → a < 2 ^ 64
      → limit < 2 ^ 64
      → k.Both d r m (increment ∷ xs) (a ∷ limit ∷ index ∷ ys)
      → (if plus_loop_ends ((index + 2 ^ 64 - limit) % 2 ^ 64) increment
          then Ended d r (sys_plus_loop k m).1 xs ys a
          else Continues d r (sys_plus_loop k m).1 xs ys a ((index + increment) % 2 ^ 64) limit)
  unfolding sys_plus_loop
  sys_plus_loop-Both d r a limit index increment m xs ys ha hl h =
      let p = k.rpop_law d r a m (increment ∷ xs) (limit ∷ index ∷ ys) h in
      let t = k.pop_law d (suc r) increment _ xs (limit ∷ index ∷ ys) p.1 in
      let q = k.rpop_law (suc d) (suc r) limit _ xs (index ∷ ys) t.1 in
      let s = k.rpop_law (suc d) (suc (suc r)) index _ xs ys q.1 in
      rw (p.0, t.0, q.0, s.0)
        (finish (plus_loop_ends ((index + 2 ^ 64 - limit) % 2 ^ 64) increment) d r a
          ((index + increment) % 2 ^ 64) limit _ xs ys ha (omega arith) hl s.1)

  -- LEAVE drops the limit and the index below the return address, and nothing else.
  pub sys_leave-Both :
      (d r a limit index : ℕ) (m : Machine) (xs ys : List ℕ)
      → a < 2 ^ 64
      → k.Both d r m xs (a ∷ limit ∷ index ∷ ys)
      → k.Both d (suc (suc r)) (sys_leave k m).1 xs (a ∷ ys)
  unfolding sys_leave
  sys_leave-Both d r a limit index m xs ys ha h =
      let p = k.rpop_law d r a m xs (limit ∷ index ∷ ys) h in
      rw p.0 (
        k.rpush_law d (suc (suc r)) a a _ xs ys refl ha
          (k.rdrop_law d (suc r) limit index _ xs ys p.1))

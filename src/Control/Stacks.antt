-- ===== src/Control/Stacks.antt =====
-- The two stacks of a running word behind one interface: what `cs.c` needs of them, in both ports.
use smolforth.Base.{ℕ, suc, ◌^◌, ◌<◌, ◌≡◌, List, ◌∷◌}
use smolforth.Machine.{Machine, M}
use smolforth.Stack

-- `Both d r m xs ys`: the data stack of `m` holds `xs` and has room for `d` more cells, the return
-- stack holds `ys` and has room for `r` more, and the two do not meet.
pub record Stacks : Type 1 where
  pub rpop : M ℕ
  pub rpush : ℕ → M (Unit {0})
  pub rdrop : M (Unit {0})
  pub Both : ℕ → ℕ → Machine → List ℕ → List ℕ → Type 0
  pub pop_law :
      (d r x : ℕ) (m : Machine) (xs ys : List ℕ)
      → Both d r m (x ∷ xs) ys
      → ((Stack.pop Stack.on_st m).0 ≡ x) × Both (suc d) r (Stack.pop Stack.on_st m).1 xs ys
  pub push_law :
      (d r v x : ℕ) (m : Machine) (xs ys : List ℕ)
      → v ≡ x
      → x < 2 ^ 64
      → Both (suc d) r m xs ys
      → Both d r (Stack.push v Stack.on_st m).1 (x ∷ xs) ys
  pub rpop_law :
      (d r y : ℕ) (m : Machine) (xs ys : List ℕ)
      → Both d r m xs (y ∷ ys)
      → ((rpop m).0 ≡ y) × Both d (suc r) (rpop m).1 xs ys
  pub rpush_law :
      (d r v y : ℕ) (m : Machine) (xs ys : List ℕ)
      → v ≡ y
      → y < 2 ^ 64
      → Both d (suc r) m xs ys
      → Both d r (rpush v m).1 xs (y ∷ ys)
  -- Two cells are dropped by moving the pointer.
  pub rdrop_law :
      (d r y z : ℕ) (m : Machine) (xs ys : List ℕ)
      → Both d r m xs (y ∷ z ∷ ys)
      → Both d (suc (suc r)) (rdrop m).1 xs ys

-- ===== src/Control/RiscV.antt =====
-- The stacks of the RISC-V port: both grow upwards, and `rst` is reached by `push` and `pop`.
use smolforth.Base.{ℕ, suc, ◌+◌, ◌-◌, ◌*◌, ◌≤◌, ◌<◌, ◌^◌, ◌≡◌, ◌⊎◌, arith}
use smolforth.Base.{List, ◌∷◌, length}
use smolforth.Machine.{Machine, M}
use smolforth.Stack.View.{UpStack, UpStack-store, UpStack-cons}
use smolforth.Stack
use smolforth.Control.Stacks.{Stacks}

abbrev pub RiscVBoth : ℕ → ℕ → Machine → List ℕ → List ℕ → Type 0
RiscVBoth d r m xs ys =
    UpStack m.mem m.st xs
    × UpStack m.mem m.rst ys
    × ((m.st + 8 * d + 8 * length ys ≤ m.rst) ⊎ (m.rst + 8 * r + 8 * length xs ≤ m.st))

-- `rst -= 2 * sizeof(cell)`
pub riscv_rdrop : M (Unit {0})
riscv_rdrop m = (tt, record m { rst = m.rst - 16 })

module _ (d r : ℕ) where
  pub riscv_pop_law :
      (x : ℕ) (m : Machine) (xs ys : List ℕ)
      → RiscVBoth d r m (x ∷ xs) ys
      → ((Stack.pop Stack.on_st m).0 ≡ x) × RiscVBoth (suc d) r (Stack.pop Stack.on_st m).1 xs ys
  unfolding Stack.pop
  riscv_pop_law x m xs ys h = (h.0.1, (h.0.2, h.1, omega arith))

  pub riscv_push_law :
      (v x : ℕ) (m : Machine) (xs ys : List ℕ)
      → v ≡ x
      → x < 2 ^ 64
      → RiscVBoth (suc d) r m xs ys
      → RiscVBoth d r (Stack.push v Stack.on_st m).1 (x ∷ xs) ys
  unfolding Stack.push
  riscv_push_law v x m xs ys e b h = (
    UpStack-cons m.mem m.st v x xs e b h.0,
    UpStack-store m.mem m.rst m.st 8 v ys (omega arith) h.1,
    omega arith,
  )

  pub riscv_rpop_law :
      (y : ℕ) (m : Machine) (xs ys : List ℕ)
      → RiscVBoth d r m xs (y ∷ ys)
      → ((Stack.pop Stack.on_rst m).0 ≡ y) × RiscVBoth d (suc r) (Stack.pop Stack.on_rst m).1 xs ys
  unfolding Stack.pop
  riscv_rpop_law y m xs ys h = (h.1.1, (h.0, h.1.2, omega arith))

  pub riscv_rpush_law :
      (v y : ℕ) (m : Machine) (xs ys : List ℕ)
      → v ≡ y
      → y < 2 ^ 64
      → RiscVBoth d (suc r) m xs ys
      → RiscVBoth d r (Stack.push v Stack.on_rst m).1 xs (y ∷ ys)
  unfolding Stack.push
  riscv_rpush_law v y m xs ys e b h = (
    UpStack-store m.mem m.st m.rst 8 v xs (omega arith) h.0,
    UpStack-cons m.mem m.rst v y ys e b h.1,
    omega arith,
  )

  pub riscv_rdrop_law :
      (y z : ℕ) (m : Machine) (xs ys : List ℕ)
      → RiscVBoth d r m xs (y ∷ z ∷ ys)
      → RiscVBoth d (suc (suc r)) (riscv_rdrop m).1 xs ys
  unfolding riscv_rdrop
  riscv_rdrop_law y z m xs ys h =
      let e : m.rst - 16 ≡ m.rst - 8 - 8 = omega arith in (h.0, rw e h.1.2.2, omega arith)

abbrev pub riscv_stacks : Stacks
riscv_stacks = record {
  rpop = Stack.pop Stack.on_rst;
  rpush = λ v. Stack.push v Stack.on_rst;
  rdrop = riscv_rdrop;
  Both = RiscVBoth;
  pop_law = λ d r. riscv_pop_law d r;
  push_law = λ d r. riscv_push_law d r;
  rpop_law = λ d r. riscv_rpop_law d r;
  rpush_law = λ d r. riscv_rpush_law d r;
  rdrop_law = λ d r. riscv_rdrop_law d r;
}

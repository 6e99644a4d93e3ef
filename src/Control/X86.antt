-- ===== src/Control/X86.antt =====
-- The stacks of the x86-64 port: `rst` grows downwards, by `bpush` and `bpop`.
use smolforth.Base.{ℕ, suc, ◌+◌, ◌-◌, ◌*◌, ◌≤◌, ◌<◌, ◌^◌, ◌≡◌, ◌⊎◌, arith}
use smolforth.Base.{List, ◌∷◌, length}
use smolforth.Machine.{Machine, M}
use smolforth.Stack.View.{
  UpStack, UpStack-store, UpStack-cons, DownStack, DownStack-store, DownStack-cons,
}
use smolforth.Stack
use smolforth.Control.Stacks.{Stacks}

abbrev pub X86Both : ℕ → ℕ → Machine → List ℕ → List ℕ → Type 0
X86Both d r m xs ys =
    UpStack m.mem m.st xs
    × DownStack m.mem m.rst ys
    × (8 * r ≤ m.rst)
    × ((m.st + 8 * d + 8 * r ≤ m.rst) ⊎ (m.rst + 8 * length ys + 8 * length xs ≤ m.st))

-- `rst += 2 * sizeof(cell)`
pub x86_rdrop : M (Unit {0})
x86_rdrop m = (tt, record m { rst = m.rst + 16 })

module _ (d r : ℕ) where
  pub x86_pop_law :
      (x : ℕ) (m : Machine) (xs ys : List ℕ)
      → X86Both d r m (x ∷ xs) ys
      → ((Stack.pop Stack.on_st m).0 ≡ x) × X86Both (suc d) r (Stack.pop Stack.on_st m).1 xs ys
  unfolding Stack.pop
  x86_pop_law x m xs ys h = (h.0.1, (h.0.2, h.1, h.2, omega arith))

  pub x86_push_law :
      (v x : ℕ) (m : Machine) (xs ys : List ℕ)
      → v ≡ x
      → x < 2 ^ 64
      → X86Both (suc d) r m xs ys
      → X86Both d r (Stack.push v Stack.on_st m).1 (x ∷ xs) ys
  unfolding Stack.push
  x86_push_law v x m xs ys e b h = (
    UpStack-cons m.mem m.st v x xs e b h.0,
    DownStack-store m.mem m.rst m.st 8 v ys (omega arith) h.1,
    h.2,
    omega arith,
  )

  pub x86_rpop_law :
      (y : ℕ) (m : Machine) (xs ys : List ℕ)
      → X86Both d r m xs (y ∷ ys)
      → ((Stack.bpop Stack.on_rst m).0 ≡ y) × X86Both d (suc r) (Stack.bpop Stack.on_rst m).1 xs ys
  unfolding Stack.bpop
  x86_rpop_law y m xs ys h =
      let e : m.rst + 8 - 8 ≡ m.rst = omega arith in
      (rw e h.1.0, (h.0, h.1.1, omega arith, omega arith))

  pub x86_rpush_law :
      (v y : ℕ) (m : Machine) (xs ys : List ℕ)
      → v ≡ y
      → y < 2 ^ 64
      → X86Both d (suc r) m xs ys
      → X86Both d r (Stack.bpush v Stack.on_rst m).1 xs (y ∷ ys)
  unfolding Stack.bpush
  x86_rpush_law v y m xs ys e b h = (
    UpStack-store m.mem m.st (m.rst - 8) 8 v xs (omega arith) h.0,
    DownStack-cons m.mem m.rst v y ys (omega arith) e b h.1,
    omega arith,
    omega arith,
  )

  pub x86_rdrop_law :
      (y z : ℕ) (m : Machine) (xs ys : List ℕ)
      → X86Both d r m xs (y ∷ z ∷ ys)
      → X86Both d (suc (suc r)) (x86_rdrop m).1 xs ys
  unfolding x86_rdrop
  x86_rdrop_law y z m xs ys h =
      let e : m.rst + 16 ≡ m.rst + 8 + 8 = omega arith in
      (h.0, rw e h.1.1.1, omega arith, omega arith)

abbrev pub x86_stacks : Stacks
x86_stacks = record {
  rpop = Stack.bpop Stack.on_rst;
  rpush = λ v. Stack.bpush v Stack.on_rst;
  rdrop = x86_rdrop;
  Both = X86Both;
  pop_law = λ d r. x86_pop_law d r;
  push_law = λ d r. x86_push_law d r;
  rpop_law = λ d r. x86_rpop_law d r;
  rpush_law = λ d r. x86_rpush_law d r;
  rdrop_law = λ d r. x86_rdrop_law d r;
}

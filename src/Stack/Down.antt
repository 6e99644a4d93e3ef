-- ===== src/Stack/Down.antt =====
-- The downward stack of x86-64: what `bpush`, `bpop` and their double forms do.
use smolforth.Base.{ℕ, ◌+◌, ◌-◌, ◌*◌, ◌/◌, ◌%◌, ◌^◌, ◌≤◌, ◌<◌, ◌≡◌, arith}
use smolforth.Base.{List, ◌∷◌}
use smolforth.Machine.{Machine}
use smolforth.Stack.View.{DownStack, DownStack-cons}
use smolforth.Stack.Laws.{join_cells, low_cell, load_cell-lt}
use smolforth.Stack

-- The stack `s`, growing downwards, holds the cells `xs`, top first.
abbrev pub HoldsDown : Stack.StackRef → Machine → List ℕ → Type 0
HoldsDown s m xs = DownStack m.mem (Stack.get_ptr s m) xs

pub bdpush-HoldsDown :
    (s : Stack.StackRef) (m : Machine) (v : ℕ) (xs : List ℕ)
    → v < 2 ^ 128
    → 16 ≤ Stack.get_ptr s m
    → HoldsDown s m xs
    → HoldsDown s (Stack.bdpush v s m).1 (v / 2 ^ 64 ∷ v % 2 ^ 64 ∷ xs)
unfolding Stack.bdpush
bdpush-HoldsDown Stack.on_st m v xs h b k =
    DownStack-cons _ (m.st - 8) _ (v / 2 ^ 64) (v % 2 ^ 64 ∷ xs) (omega arith) (omega arith)
      (omega arith)
      (DownStack-cons m.mem m.st _ (v % 2 ^ 64) xs (omega arith) (low_cell v) (omega arith) k)
bdpush-HoldsDown Stack.on_rst m v xs h b k =
    DownStack-cons _ (m.rst - 8) _ (v / 2 ^ 64) (v % 2 ^ 64 ∷ xs) (omega arith) (omega arith)
      (omega arith)
      (DownStack-cons m.mem m.rst _ (v % 2 ^ 64) xs (omega arith) (low_cell v) (omega arith) k)

pub bdpop-HoldsDown :
    (s : Stack.StackRef) (m : Machine) (hi lo : ℕ) (xs : List ℕ)
    → HoldsDown s m (hi ∷ lo ∷ xs)
    → ((Stack.bdpop s m).0 ≡ hi * 2 ^ 64 + lo) × HoldsDown s (Stack.bdpop s m).1 xs
unfolding Stack.bdpop
bdpop-HoldsDown Stack.on_st m hi lo xs h =
    let e : m.st + 8 - 8 ≡ m.st = omega arith in
    let e' : m.st + 8 + 8 - 8 ≡ m.st + 8 = omega arith in
    (
      rw (e, e', h.0, h.1.0)
          (join_cells hi lo (rw h.0 at (load_cell-lt m.mem m.st))
            (rw h.1.0 at (load_cell-lt m.mem (m.st + 8)))),
      h.1.1,
    )
bdpop-HoldsDown Stack.on_rst m hi lo xs h =
    let e : m.rst + 8 - 8 ≡ m.rst = omega arith in
    let e' : m.rst + 8 + 8 - 8 ≡ m.rst + 8 = omega arith in
    (
      rw (e, e', h.0, h.1.0)
          (join_cells hi lo (rw h.0 at (load_cell-lt m.mem m.rst))
            (rw h.1.0 at (load_cell-lt m.mem (m.rst + 8)))),
      h.1.1,
    )

ptr-bdpop-bdpush :
    (s : Stack.StackRef) (m : Machine) (v : ℕ)
    → 16 ≤ Stack.get_ptr s m
    → Stack.get_ptr s (Stack.bdpop s (Stack.bdpush v s m).1).1 ≡ Stack.get_ptr s m
unfolding Stack.bdpop Stack.bdpush
ptr-bdpop-bdpush Stack.on_st m v b = omega arith
ptr-bdpop-bdpush Stack.on_rst m v b = omega arith

-- On a stack that grows downwards too, a double cell that is pushed comes back when it is popped,
-- the cells below it stay, and the pointer returns to where it was.
pub bdpop-bdpush :
    (s : Stack.StackRef) (m : Machine) (v : ℕ) (xs : List ℕ)
    → v < 2 ^ 128
    → 16 ≤ Stack.get_ptr s m
    → HoldsDown s m xs
    → let r = Stack.bdpop s (Stack.bdpush v s m).1 in
      (r.0 ≡ v) × HoldsDown s r.1 xs × (Stack.get_ptr s r.1 ≡ Stack.get_ptr s m)
bdpop-bdpush s m v xs h b k =
    let popped =
      bdpop-HoldsDown s (Stack.bdpush v s m).1 (v / 2 ^ 64) (v % 2 ^ 64) xs
        (bdpush-HoldsDown s m v xs h b k) in
    (omega arith, popped.1, ptr-bdpop-bdpush s m v b)

-- ===== src/Stack/Laws.antt =====
-- What pushes and pops do to a stack seen as a list, and the round trips of double cells.
use smolforth.Base.{ℕ, ◌+◌, ◌-◌, ◌*◌, ◌/◌, ◌%◌, ◌^◌, ◌≤◌, ◌<◌, ◌≡◌, ◌⊎◌, refl, arith}
use smolforth.Base.{List, [], ◌∷◌, bit_or, bit_and, ◌∙◌}
use smolforth.Base.Bits.{bit_or_sum, bit_and_mask}
use smolforth.Memory.{Mem, get_byte, load, store, load-lt, get_byte-store}
use smolforth.Machine.{Machine}
use smolforth.Stack.View.{UpStack, UpStack-cons}
use smolforth.Stack

-- A cell read from memory fits 64 bits.
pub load_cell-lt : (mem : Mem) (p : ℕ) → load 8 mem p < 2 ^ 64
load_cell-lt mem p = load-lt 8 mem p

-- The double cell that `dpop` puts together.
pub join_cells :
    (hi lo : ℕ) → hi < 2 ^ 64 → lo < 2 ^ 64 → bit_or (hi * 2 ^ 64 % 2 ^ 128) lo ≡ hi * 2 ^ 64 + lo
join_cells hi lo h l =
    let e : hi * 2 ^ 64 % 2 ^ 128 ≡ hi * 2 ^ 64 = omega arith in rw e (bit_or_sum 64 hi lo l)

-- The low half that `dpush` takes with a mask.
pub low_cell : (v : ℕ) → bit_and v (2 ^ 64 - 1) % 2 ^ 64 ≡ v % 2 ^ 64
low_cell v = omega (arith, bit_and_mask 64 v)

-- The machine's stack `s` holds the cells `xs`, top first, and perhaps more below.
abbrev pub Holds : Stack.StackRef → Machine → List ℕ → Type 0
Holds s m xs = UpStack m.mem (Stack.get_ptr s m) xs

pub pop-Holds :
    (s : Stack.StackRef) (m : Machine) (x : ℕ) (xs : List ℕ)
    → Holds s m (x ∷ xs)
    → ((Stack.pop s m).0 ≡ x) × Holds s (Stack.pop s m).1 xs
unfolding Stack.pop
pop-Holds Stack.on_st m x xs h = (h.1, h.2)
pop-Holds Stack.on_rst m x xs h = (h.1, h.2)

pub push-Holds :
    (s : Stack.StackRef) (m : Machine) (v : ℕ) (xs : List ℕ)
    → v < 2 ^ 64
    → Holds s m xs
    → Holds s (Stack.push v s m).1 (v ∷ xs)
unfolding Stack.push
push-Holds Stack.on_st m v xs h k = UpStack-cons m.mem m.st v v xs refl h k
push-Holds Stack.on_rst m v xs h k = UpStack-cons m.mem m.rst v v xs refl h k

pub dpush-Holds :
    (s : Stack.StackRef) (m : Machine) (v : ℕ) (xs : List ℕ)
    → v < 2 ^ 128
    → Holds s m xs
    → Holds s (Stack.dpush v s m).1 (v / 2 ^ 64 ∷ v % 2 ^ 64 ∷ xs)
unfolding Stack.dpush
dpush-Holds Stack.on_st m v xs h k =
    UpStack-cons _ (m.st + 8) _ (v / 2 ^ 64) (v % 2 ^ 64 ∷ xs) (omega arith) (omega arith)
      (UpStack-cons m.mem m.st _ (v % 2 ^ 64) xs (low_cell v) (omega arith) k)
dpush-Holds Stack.on_rst m v xs h k =
    UpStack-cons _ (m.rst + 8) _ (v / 2 ^ 64) (v % 2 ^ 64 ∷ xs) (omega arith) (omega arith)
      (UpStack-cons m.mem m.rst _ (v % 2 ^ 64) xs (low_cell v) (omega arith) k)

-- Two cells popped as a double cell: the top one is the high half.
pub dpop-Holds :
    (s : Stack.StackRef) (m : Machine) (hi lo : ℕ) (xs : List ℕ)
    → Holds s m (hi ∷ lo ∷ xs)
    → ((Stack.dpop s m).0 ≡ hi * 2 ^ 64 + lo) × Holds s (Stack.dpop s m).1 xs
unfolding Stack.dpop
dpop-Holds Stack.on_st m hi lo xs h = (
  rw (h.1, h.2.1)
      (join_cells hi lo (rw h.1 at (load_cell-lt m.mem (m.st - 8)))
        (rw h.2.1 at (load_cell-lt m.mem (m.st - 8 - 8)))),
  h.2.2,
)
dpop-Holds Stack.on_rst m hi lo xs h = (
  rw (h.1, h.2.1)
      (join_cells hi lo (rw h.1 at (load_cell-lt m.mem (m.rst - 8)))
        (rw h.2.1 at (load_cell-lt m.mem (m.rst - 8 - 8)))),
  h.2.2,
)

-- The unsigned forms are the same on bit patterns.
pub udpop-Holds :
    (s : Stack.StackRef) (m : Machine) (hi lo : ℕ) (xs : List ℕ)
    → Holds s m (hi ∷ lo ∷ xs)
    → ((Stack.udpop s m).0 ≡ hi * 2 ^ 64 + lo) × Holds s (Stack.udpop s m).1 xs
unfolding Stack.udpop Stack.dpop
udpop-Holds s m hi lo xs h = dpop-Holds s m hi lo xs h

pub upop-Holds :
    (s : Stack.StackRef) (m : Machine) (x : ℕ) (xs : List ℕ)
    → Holds s m (x ∷ xs)
    → ((Stack.upop s m).0 ≡ x) × Holds s (Stack.upop s m).1 xs
unfolding Stack.pop Stack.upop
upop-Holds s m x xs h = pop-Holds s m x xs h

pub udpush-Holds :
    (s : Stack.StackRef) (m : Machine) (v : ℕ) (xs : List ℕ)
    → v < 2 ^ 128
    → Holds s m xs
    → Holds s (Stack.udpush v s m).1 (v / 2 ^ 64 ∷ v % 2 ^ 64 ∷ xs)
unfolding Stack.udpush Stack.dpush
udpush-Holds s m v xs h k = dpush-Holds s m v xs h k

-- A cell on a stack fits 64 bits, for it was read from memory.
pub Holds-lt :
    (s : Stack.StackRef) (m : Machine) (x : ℕ) (xs : List ℕ) → Holds s m (x ∷ xs) → x < 2 ^ 64
Holds-lt s m x xs h = omega (arith, load_cell-lt m.mem (Stack.get_ptr s m - 8))

-- Two cells stored side by side change only their sixteen bytes.
two_stores :
    (mem : Mem) (p a b x : ℕ)
    → (x < p) ⊎ (p + 16 ≤ x)
    → get_byte (store 8 (store 8 mem p a) (p + 8) b) x ≡ get_byte mem x
two_stores mem p a b x h =
    get_byte-store 8 (store 8 mem p a) (p + 8) b x (omega arith)
    ∙ get_byte-store 8 mem p a x (omega arith)

-- Pushing a double cell and popping it gives it back, restores the pointer, and changes no byte
-- outside the sixteen above the pointer. The flavours without a `u` and with one are alike.
pub dpop-dpush :
    (s : Stack.StackRef) (m : Machine) (v : ℕ)
    → v < 2 ^ 128
    → ((Stack.dpop s (Stack.dpush v s m).1).0 ≡ v)
      × (Stack.get_ptr s (Stack.dpop s (Stack.dpush v s m).1).1 ≡ Stack.get_ptr s m)
      × ((x : ℕ)
          → (x < Stack.get_ptr s m) ⊎ (Stack.get_ptr s m + 16 ≤ x)
          → get_byte (Stack.dpop s (Stack.dpush v s m).1).1.mem x ≡ get_byte m.mem x)
unfolding Stack.dpop Stack.dpush
dpop-dpush Stack.on_st m v h = (
  omega (arith, (dpop-Holds Stack.on_st _ _ _ [] (dpush-Holds Stack.on_st m v [] h tt)).0),
  omega arith,
  λ x out. two_stores m.mem m.st _ _ x out,
)
dpop-dpush Stack.on_rst m v h = (
  omega (arith, (dpop-Holds Stack.on_rst _ _ _ [] (dpush-Holds Stack.on_rst m v [] h tt)).0),
  omega arith,
  λ x out. two_stores m.mem m.rst _ _ x out,
)

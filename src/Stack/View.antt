-- ===== src/Stack/View.antt =====
-- The cells of a stack in memory as a list, top first: what the words promise is stated on it.
use smolforth.Base.{ℕ, ◌+◌, ◌-◌, ◌*◌, ◌^◌, ◌≤◌, ◌<◌, ◌≡◌, ◌⊎◌, inl, arith, ◌∙◌}
use smolforth.Base.{List, [], ◌∷◌, length}
use smolforth.Memory.{Mem, get_byte, load_ext, load, store, load-store, load-store_ne}

-- A stack that grows upwards: its top cell ends where the pointer `p` stands.
abbrev pub UpStack : Mem → ℕ → List ℕ → Type 0
UpStack mem p [] = Unit {0}
UpStack mem p (x ∷ xs) = (8 ≤ p) × (load 8 mem (p - 8) ≡ x) × UpStack mem (p - 8) xs

-- A stack that grows downwards: its top cell begins where the pointer stands.
abbrev pub DownStack : Mem → ℕ → List ℕ → Type 0
DownStack mem p [] = Unit {0}
DownStack mem p (x ∷ xs) = (load 8 mem p ≡ x) × DownStack mem (p + 8) xs

-- A word stored above the top, or below the last cell, leaves the stack as it was.
pub UpStack-store :
    (mem : Mem) (p a n v : ℕ) (xs : List ℕ)
    → (p ≤ a) ⊎ (a + n + 8 * length xs ≤ p)
    → UpStack mem p xs
    → UpStack (store n mem a v) p xs
UpStack-store mem p a n v [] h s = tt
UpStack-store mem p a n v (x ∷ xs) h s = (
  s.0,
  omega (arith, load-store_ne 8 n mem a v (p - 8) (omega arith), s.1),
  UpStack-store mem (p - 8) a n v xs (omega arith) s.2,
)

pub DownStack-store :
    (mem : Mem) (p a n v : ℕ) (xs : List ℕ)
    → (a + n ≤ p) ⊎ (p + 8 * length xs ≤ a)
    → DownStack mem p xs
    → DownStack (store n mem a v) p xs
DownStack-store mem p a n v [] h s = tt
DownStack-store mem p a n v (x ∷ xs) h s = (
  omega (arith, load-store_ne 8 n mem a v p (omega arith), s.0),
  DownStack-store mem (p + 8) a n v xs (omega arith) s.1,
)

-- Storing a cell where the pointer stands and raising it puts the cell on top.
pub UpStack-cons :
    (mem : Mem) (p v x : ℕ) (xs : List ℕ)
    → v ≡ x
    → x < 2 ^ 64
    → UpStack mem p xs
    → UpStack (store 8 mem p v) (p + 8) (x ∷ xs)
UpStack-cons mem p v x xs q h s =
    let e : p + 8 - 8 ≡ p = omega arith in
    let small : v < 2 ^ 64 = omega arith in
    rw e (
      omega arith,
      load-store 8 mem p v small ∙ q,
      UpStack-store mem p p 8 v xs (inl (omega arith)) s,
    )

-- Lowering the pointer and storing a cell there puts the cell on top.
pub DownStack-cons :
    (mem : Mem) (p v x : ℕ) (xs : List ℕ)
    → 8 ≤ p
    → v ≡ x
    → x < 2 ^ 64
    → DownStack mem p xs
    → DownStack (store 8 mem (p - 8) v) (p - 8) (x ∷ xs)
DownStack-cons mem p v x xs b q h s =
    let e : p - 8 + 8 ≡ p = omega arith in
    let small : v < 2 ^ 64 = omega arith in
    (
      load-store 8 mem (p - 8) v small ∙ q,
      rw e (DownStack-store mem p (p - 8) 8 v xs (inl (omega arith)) s),
    )

-- A stack depends only on the bytes of its cells.
pub UpStack-ext :
    (mem mem' : Mem) (p : ℕ) (xs : List ℕ)
    → ((x : ℕ) → x < p → p ≤ x + 8 * length xs → get_byte mem' x ≡ get_byte mem x)
    → UpStack mem p xs
    → UpStack mem' p xs
UpStack-ext mem mem' p [] h s = tt
UpStack-ext mem mem' p (x ∷ xs) h s = (
  s.0,
  load_ext 8 mem' mem (p - 8) (λ y a b. h y (omega (arith, s.0)) (omega (arith, s.0))) ∙ s.1,
  UpStack-ext mem mem' (p - 8) xs (λ y a b. h y (omega (arith, s.0)) (omega (arith, s.0))) s.2,
)

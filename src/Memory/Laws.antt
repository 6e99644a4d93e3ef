-- ===== src/Memory/Laws.antt =====
-- What a store changes and what a load gives back.
use smolforth.Base.{ℕ, zero, suc, ◌+◌, ◌/◌, ◌%◌, ◌^◌, ◌≤◌, ◌<◌, ◌≡◌, ◌⊎◌, inl}
use smolforth.Base.{refl, arith, ◌==◌, if◌then◌else◌}
use smolforth.Memory.Defs.{Mem, get_byte, set_byte, load, store}
use native.Mathlib.Nat.{pow-suc}

pub get_byte-lt : (m : Mem) (a : ℕ) → get_byte m a < 256
unfolding get_byte
get_byte-lt m a = omega arith

pub get_byte-set_byte :
    (m : Mem) (a v x : ℕ) → get_byte (set_byte m a v) x ≡ (if x == a then v % 256 else get_byte m x)
unfolding get_byte set_byte
get_byte-set_byte m a v x = ground arith

-- A store leaves the bytes below and above its word alone.
pub get_byte-store :
    (n : ℕ) (m : Mem) (a v x : ℕ)
    → (x < a) ⊎ (a + n ≤ x)
    → get_byte (store n m a v) x ≡ get_byte m x
unfolding store
get_byte-store zero m a v x h = refl
get_byte-store (suc n) m a v x h = ground (
  arith,
  get_byte-store n (set_byte m a (v % 256)) (a + 1) (v / 256) x,
  get_byte-set_byte m a (v % 256) x,
)

-- A load reads only the bytes of its word.
pub load_ext :
    (n : ℕ) (m m' : Mem) (a : ℕ)
    → ((x : ℕ) → a ≤ x → x < a + n → get_byte m x ≡ get_byte m' x)
    → load n m a ≡ load n m' a
unfolding load
load_ext zero m m' a h = refl
load_ext (suc n) m m' a h = omega (
  arith,
  h a (omega arith) (omega arith),
  load_ext n m m' (a + 1) (λ x p q. h x (omega arith) (omega arith)),
)

-- A load from a place apart from the word stored gives what stood there before.
pub load-store_ne :
    (k n : ℕ) (m : Mem) (a v b : ℕ)
    → (b + k ≤ a) ⊎ (a + n ≤ b)
    → load k (store n m a v) b ≡ load k m b
load-store_ne k n m a v b h =
    load_ext k (store n m a v) m b (λ x p q. get_byte-store n m a v x (omega arith))

-- A load of a word that has just been stored gives it back.
pub load-store : (n : ℕ) (m : Mem) (a v : ℕ) → v < 256 ^ n → load n (store n m a v) a ≡ v
unfolding load store
load-store zero m a v h = omega arith
load-store (suc n) m a v h = omega (
  arith,
  pow-suc 256 n,
  get_byte-store n (set_byte m a (v % 256)) (a + 1) (v / 256) a (inl (omega arith)),
  head,
  load-store n (set_byte m a (v % 256)) (a + 1) (v / 256) (omega (arith, pow-suc 256 n)),
)
  where
    head : get_byte (set_byte m a (v % 256)) a ≡ v % 256
    head = ground (arith, get_byte-set_byte m a (v % 256) a)

pub load-lt : (n : ℕ) (m : Mem) (a : ℕ) → load n m a < 256 ^ n
unfolding load
load-lt zero m a = omega arith
load-lt (suc n) m a = omega (arith, pow-suc 256 n, load-lt n m (a + 1), get_byte-lt m a)

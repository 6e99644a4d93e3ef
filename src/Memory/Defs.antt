-- ===== src/Memory/Defs.antt =====
-- Bytes and little-endian words of `n` bytes.
use smolforth.Base.{ℕ, zero, suc, ◌+◌, ◌*◌, ◌/◌, ◌%◌, if◌then◌else◌, ◌==◌}

-- A byte holds the remainder by 256 of what is stored, so any function is a memory.
abbrev pub Mem : Type 0
Mem = ℕ → ℕ

unfoldable pub get_byte : Mem → ℕ → ℕ
get_byte m a = m a % 256

unfoldable pub set_byte : Mem → ℕ → ℕ → Mem
set_byte m a v x = if x == a then v else m x

-- The word of `n` bytes at `a`.
unfoldable pub load : ℕ → Mem → ℕ → ℕ
load zero m a = 0
load (suc n) m a = get_byte m a + 256 * load n m (a + 1)

-- `v` as a word of `n` bytes at `a`; higher bytes of `v` are dropped.
unfoldable pub store : ℕ → Mem → ℕ → ℕ → Mem
store zero m a v = m
store (suc n) m a v = store n (set_byte m a (v % 256)) (a + 1) (v / 256)

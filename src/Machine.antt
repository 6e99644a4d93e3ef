-- ===== src/Machine.antt =====
-- The state that the words written in C share: memory, the two stack pointers that every word is
-- given and returns, and the fields of `sf_header` (config.h) that they read and write. A word is
-- a state-passing function; `do` composes it from the C statements.
use smolforth.Base.{ℕ}
use smolforth.Memory.{Mem}

-- `struct sf_header_t`: the scalars. `pao` is the cell `FORTH$body$PAO` (>IN).
pub record Header : Type 0 where
  pub state : ℕ
  pub errno : ℕ
  pub compiler_status : ℕ
  pub base : ℕ
  pub csri : ℕ
  pub line_ptr : ℕ
  pub line_size : ℕ
  pub pao : ℕ

-- `st` and `rst` are the two pointers a word receives and hands back by `RETURN`.
pub record Machine : Type 0 where
  pub mem : Mem
  pub st : ℕ
  pub rst : ℕ
  pub header : Header

abbrev pub M : Type 0 → Type 0
M A = Machine → A × Machine

abbrev pub pure : {A : Type 0} → A → M A
pure a m = (a, m)

infixl 5 ◌>>=◌ ◌>>◌
abbrev pub ◌>>=◌ : {A B : Type 0} → M A → (A → M B) → M B
◌>>=◌ x f m = let r = x m in f r.0 r.1

abbrev pub ◌>>◌ : {B : Type 0} → M (Unit {0}) → M B → M B
x >> y = x >>= λ _. y

abbrev pub get_header : M Header
get_header m = (m.header, m)

abbrev pub put_header : Header → M (Unit {0})
put_header h m = (tt, record m { header = h })

abbrev pub get_mem : M Mem
get_mem m = (m.mem, m)

abbrev pub put_mem : Mem → M (Unit {0})
put_mem x m = (tt, record m { mem = x })

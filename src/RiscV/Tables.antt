-- ===== src/RiscV/Tables.antt =====
-- What the search of the global offset table answers.
use smolforth.Base.{true, false, ℕ, zero, suc, ◌+◌, ◌*◌, ◌<◌, ◌≡◌, ◌≢◌, ◌⊎◌, inl, inr, refl, arith}
use smolforth.Base.{none, some, ◌==◌, ◌∙◌, ap}
use smolforth.Memory.{Mem, load}
use smolforth.RiscV.Compile.{Tables, find_got, scan_got, found_or}

-- The first of `n` entries from `at` on that holds `addr` is entry `i`.
abbrev pub FirstAt : Mem → ℕ → ℕ → ℕ → ℕ → Type 0
FirstAt mem addr n at i =
    (i < n) × (load 8 mem (at + 8 * i) ≡ addr) × ((j : ℕ) → j < i → load 8 mem (at + 8 * j) ≢ addr)

abbrev pub NotIn : Mem → ℕ → ℕ → ℕ → Type 0
NotIn mem addr n at = (j : ℕ) → j < n → load 8 mem (at + 8 * j) ≢ addr

entry : (mem : Mem) (x y : ℕ) → x ≡ y → load 8 mem x ≡ load 8 mem y
entry mem x y e = ap (load 8 mem) e

-- No entry before the first `k + 1` holds the address, if the one at `at` and the next `k` do not.
earlier :
    (mem : Mem) (addr k at : ℕ)
    → load 8 mem at ≢ addr
    → ((j : ℕ) → j < k → load 8 mem (at + 8 + 8 * j) ≢ addr)
    → (j : ℕ) → j < suc k
    → load 8 mem (at + 8 * j) ≢ addr
earlier mem addr k at h rest zero lt e = h (entry mem at (at + 8 * zero) (omega arith) ∙ e)
earlier mem addr k at h rest (suc j) lt e =
    rest j (omega arith) (entry mem (at + 8 + 8 * j) (at + 8 * suc j) (omega arith) ∙ e)

scan_cases :
    (mem : Mem) (addr n at : ℕ)
    → ((i : ℕ) × (scan_got mem addr n at ≡ some (at + 8 * i)) × FirstAt mem addr n at i)
      ⊎ ((scan_got mem addr n at ≡ none) × NotIn mem addr n at)
unfolding scan_got
scan_cases mem addr zero at = inr (refl, λ j lt e. absurd (omega arith))
scan_cases mem addr (suc n) at = elim (compare_cases (load 8 mem at) addr) [
  | inl same ↦ inl (
    0,
    rw same.0 (ap some (omega arith)),
    (omega arith, entry mem (at + 0) at (omega arith) ∙ same.1, λ j lt e. absurd (omega arith)),
  )
  | inr other ↦ elim (scan_cases mem addr n (at + 8)) [
    | inl found ↦ inl (
      suc found.0,
      rw other.0 (found.1 ∙ ap some (omega arith)),
      (
        omega (arith, found.2.0),
        entry mem (at + 8 * suc found.0) (at + 8 + 8 * found.0) (omega arith) ∙ found.2.1,
        earlier mem addr found.0 at other.1 found.2.2,
      ),
    )
    | inr missing ↦ inr (rw other.0 missing.0, earlier mem addr n at other.1 missing.1)
  ]
]
  where
    compare_cases : (x y : ℕ) → (((x == y) ≡ true) × (x ≡ y)) ⊎ (((x == y) ≡ false) × (x ≢ y))
    compare_cases x y = ground arith

-- `find_got` answers the address of the first entry of the table that holds the address asked for,
-- and if no entry holds it, that address itself.
pub find_got-FirstAt :
    (t : Tables) (mem : Mem) (addr : ℕ)
    → ((i : ℕ) × (find_got t mem addr ≡ t.code_got_start + 8 * i)
        × FirstAt mem addr t.code_got_count t.code_got_start i)
      ⊎ ((find_got t mem addr ≡ addr) × NotIn mem addr t.code_got_count t.code_got_start)
unfolding find_got found_or
find_got-FirstAt t mem addr = elim (scan_cases mem addr t.code_got_count t.code_got_start) [
  | inl found ↦ inl (found.0, rw found.1 refl, found.2)
  | inr missing ↦ inr (rw missing.0 refl, missing.1)
]

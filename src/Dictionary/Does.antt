-- ===== src/Dictionary/Does.antt =====
-- `does_do_impl_c` of arch/x86_64/DOES_to.c and arch/riscv/DOES_to.c: what DOES> does when it runs.
-- `list` is `wl_search_order[WL_SO_MAX-1]`, and `ra` the return address of the call.
use smolforth.Base.{
  ℕ, zero, suc, ◌+◌, ◌*◌, ◌^◌, ◌≤◌, ◌<◌, ◌≡◌, ◌≢◌, ◌⊎◌, refl, ap, ◌∙◌, arith, false, ==_iff,
  if◌then◌else◌, ◌==◌, Option, none, some,
}
use native.Mathlib.Nat.{mul-suc}
use smolforth.Memory.{Mem, get_byte, load, store, load-store, get_byte-store}

-- `while(*ra != code) ++ra` over instruction words of `n` bytes.
unfoldable pub scan_code : ℕ → ℕ → ℕ → Mem → ℕ → Option ℕ
scan_code n code zero mem ra = none
scan_code n code (suc fuel) mem ra =
    let rest = scan_code n code fuel mem (ra + n) in if load n mem ra == code then some ra else rest

-- The code cell of the latest word gets the address behind what was found.
unfoldable pub enter_behind : ℕ → ℕ → Option ℕ → Mem → Option Mem
enter_behind n list none mem = none
enter_behind n list (some at) mem = some (store 8 mem (load 8 mem list + 8) (at + n))

pub data Port : Type 0 where
  x86_64 riscv : Port

-- `unsigned char` and `uint32_t`.
abbrev pub code_size : Port → ℕ
code_size x86_64 = 1
code_size riscv = 4

-- RET, and `jalr x0, 0(ra)`.
abbrev pub return_code : Port → ℕ
return_code x86_64 = 0xC3
return_code riscv = 0x8067

-- The RISC-V port begins one instruction further on.
abbrev pub scan_start : Port → ℕ → ℕ
scan_start x86_64 ra = ra
scan_start riscv ra = ra + 4

unfoldable pub does_do : Port → ℕ → ℕ → ℕ → Mem → Option Mem
unfolding scan_code enter_behind
does_do port fuel list ra mem =
    enter_behind (code_size port) list
      (scan_code (code_size port) (return_code port) fuel mem (scan_start port ra)) mem

-- The first of the instruction words from `from` on that is `code` is the one after `k` others.
abbrev pub IsFirst : ℕ → ℕ → Mem → ℕ → ℕ → Type 0
IsFirst n code mem from zero = load n mem from ≡ code
IsFirst n code mem from (suc k) = (load n mem from ≢ code) × IsFirst n code mem (from + n) k

scan_code-first :
    (n code fuel : ℕ) (mem : Mem) (from k : ℕ)
    → IsFirst n code mem from k
    → k < fuel
    → scan_code n code fuel mem from ≡ some (from + n * k)
unfolding scan_code
scan_code-first n code zero mem from k h enough = absurd (omega arith)
scan_code-first n code (suc fuel) mem from zero h enough =
    let there : from + n * 0 ≡ from = omega arith in rw ((==_iff _ code).1 h, there) refl
scan_code-first n code (suc fuel) mem from (suc k) h enough =
    let next = scan_code-first n code fuel mem (from + n) k h.1 (omega arith) in
    let there : from + n + n * k ≡ from + n * suc k = let e = mul-suc n k in omega (arith, e) in
    rw (other (load n mem from) h.0) (next ∙ ap some there)
  where
    other : (x : ℕ) → x ≢ code → (x == code) ≡ false
    other x h = ground arith

-- DOES> at run time: when the first return instruction behind the call is the one after `k` others,
-- the code cell of the latest word of the list gets the address behind that instruction, and no
-- other byte changes. One round more than the instructions that are passed over is enough.
pub does_do-enters :
    (port : Port) (fuel list ra k : ℕ) (mem : Mem)
    → IsFirst (code_size port) (return_code port) mem (scan_start port ra) k
    → k < fuel
    → scan_start port ra + code_size port * k + code_size port < 2 ^ 64
    → (mem' : Mem) × (does_do port fuel list ra mem ≡ some mem')
      × (load 8 mem' (load 8 mem list + 8)
          ≡ scan_start port ra + code_size port * k + code_size port)
      × ((x : ℕ)
          → (x < load 8 mem list + 8) ⊎ (load 8 mem list + 8 + 8 ≤ x)
          → get_byte mem' x ≡ get_byte mem x)
unfolding does_do enter_behind
does_do-enters port fuel list ra k mem h enough fits =
    let n = code_size port in
    let cell = load 8 mem list + 8 in
    let target = scan_start port ra + n * k + n in
    let found = scan_code-first n (return_code port) fuel mem (scan_start port ra) k h enough in
    (
      store 8 mem cell target,
      ap (λ o. enter_behind n list o mem) found,
      load-store 8 mem cell target fits,
      get_byte-store 8 mem cell target,
    )

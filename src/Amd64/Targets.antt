-- ===== src/Amd64/Targets.antt =====
-- Where the calls, jumps and addresses that are relative to the code lead to.
use smolforth.Base.{ℕ, zero, suc, ◌+◌, ◌-◌, ◌*◌, ◌/◌, ◌%◌, ◌^◌, ◌≤◌, ◌<◌, ◌≡◌, ◌⊎◌, arith}
use smolforth.Base.{List, [], ◌∷◌, Option, none, some, if◌then◌else◌, ltb, ◌==◌, ap}
use native.Mathlib.Nat.{pow-suc}
use smolforth.Amd64.Assembler.{bytes_of, relative, asmgen_call_rel32, asmgen_jmp_rel32}

-- The number that bytes stand for, the lowest first.
unfoldable pub number_of : List ℕ → ℕ
number_of [] = 0
number_of (b ∷ bs) = b + 256 * number_of bs

number_of-bytes_of : (n v : ℕ) → v < 256 ^ n → number_of (bytes_of n v) ≡ v
unfolding number_of bytes_of
number_of-bytes_of zero v h = omega arith
number_of-bytes_of (suc n) v h =
    omega (arith, pow-suc 256 n, number_of-bytes_of n (v / 256) (omega (arith, pow-suc 256 n)))

-- What the processor makes of E8 and E9: the four bytes after the opcode are a signed offset from
-- the address of the next instruction.
unfoldable pub rel32_target : ℕ → List ℕ → ℕ → Option ℕ
unfolding number_of
rel32_target opcode [] pc = none
rel32_target opcode (b ∷ bs) pc =
    let d = number_of bs in
    if b == opcode
    then some ((pc + 5 + (if ltb d (2 ^ 31) then d else (d + (2 ^ 64 - 2 ^ 32)))) % 2 ^ 64)
    else none

-- The distance of the target fits 32 bits with a sign, counted from the end of the instruction.
abbrev pub WithinReach : ℕ → ℕ → Type 0
WithinReach v here = ((here ≤ v) × (v < here + 2 ^ 31)) ⊎ ((v < here) × (here + 5 ≤ v + 2 ^ 31))

offset_reaches :
    (v here : ℕ)
    → v < 2 ^ 64
    → here < 2 ^ 64
    → WithinReach v here
    → (let d = (relative v here + (2 ^ 32 - 5)) % 2 ^ 32 in
        (here + 5 + (if ltb d (2 ^ 31) then d else (d + (2 ^ 64 - 2 ^ 32)))) % 2 ^ 64 ≡ v)
unfolding relative
offset_reaches v here fv fh near = ground arith

-- A call compiled at `here` with the distance to a target within reach of 31 bits leads to that
-- target, and a jump does too.
pub rel32_target-asmgen :
    (v here : ℕ)
    → v < 2 ^ 64
    → here < 2 ^ 64
    → WithinReach v here
    → (rel32_target 0xe8 (asmgen_call_rel32 (relative v here)) here ≡ some v)
      × (rel32_target 0xe9 (asmgen_jmp_rel32 (relative v here)) here ≡ some v)
unfolding rel32_target asmgen_call_rel32 asmgen_jmp_rel32
rel32_target-asmgen v here fv fh near =
    let d = (relative v here + (2 ^ 32 - 5)) % 2 ^ 32 in
    let e : number_of (bytes_of 4 d) ≡ d = number_of-bytes_of 4 d (omega arith) in
    (
      rw e (ap some (offset_reaches v here fv fh near)),
      rw e (ap some (offset_reaches v here fv fh near)),
    )

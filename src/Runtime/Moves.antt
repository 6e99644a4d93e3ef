-- ===== src/Runtime/Moves.antt =====
-- `memmove` moves a block of bytes wherever its two places overlap.
use smolforth.Base.{ℕ, zero, suc, ◌+◌, ◌≤◌, ◌<◌, ◌≡◌, ◌⊎◌, refl, arith, ◌∙◌}
use smolforth.Base.{Bool-cases, inl, inr, ltb, ltb→lt, not-ltb→le}
use smolforth.Memory.{Mem, get_byte, set_byte}
use smolforth.Dictionary.Head.{set_other, set_copied, at}
use smolforth.Runtime

-- The block of `n` bytes at `dest` is that which was at `src`, and all else stays.
abbrev pub Moved : ℕ → ℕ → ℕ → Mem → Mem → Type 0
Moved dest src n mem mem' =
    ((i : ℕ) → i < n → get_byte mem' (dest + i) ≡ get_byte mem (src + i))
    × ((x : ℕ) → (x < dest) ⊎ (dest + n ≤ x) → get_byte mem' x ≡ get_byte mem x)

memcpy-Moved :
    (dest src n : ℕ) (mem : Mem) → dest < src → Moved dest src n mem (Runtime.memcpy dest src n mem)
unfolding Runtime.memcpy
memcpy-Moved dest src zero mem below = ((λ i lt. absurd (omega arith)), λ x out. refl)
memcpy-Moved dest src (suc n) mem below =
    let m1 = set_byte mem dest (get_byte mem src) in
    let rest = memcpy-Moved (dest + 1) (src + 1) n m1 (omega arith) in
    let after = Runtime.memcpy (dest + 1) (src + 1) n m1 in
    (
      byte rest.0 rest.1,
      λ x out. rest.1 x (omega arith) ∙ set_other mem dest _ x (λ e. omega arith),
    )
  where
    byte :
        ((i : ℕ)
          → i < n
          → get_byte
              (Runtime.memcpy (dest + 1) (src + 1) n (set_byte mem dest (get_byte mem src)))
              (dest + 1 + i)
            ≡ get_byte (set_byte mem dest (get_byte mem src)) (src + 1 + i))
        → ((x : ℕ)
            → (x < dest + 1) ⊎ (dest + 1 + n ≤ x)
            → get_byte
                (Runtime.memcpy (dest + 1) (src + 1) n (set_byte mem dest (get_byte mem src)))
                x
              ≡ get_byte (set_byte mem dest (get_byte mem src)) x)
        → (i : ℕ) → i < suc n
        → get_byte
            (Runtime.memcpy (dest + 1) (src + 1) n (set_byte mem dest (get_byte mem src)))
            (dest + i)
          ≡ get_byte mem (src + i)
    byte inside outside zero lt =
        at _ (dest + zero) dest (omega arith)
        ∙ outside dest (omega arith)
        ∙ set_copied mem dest src
        ∙ at mem src (src + zero) (omega arith)
    byte inside outside (suc i) lt =
        at _ (dest + suc i) (dest + 1 + i) (omega arith)
        ∙ inside i (omega arith)
        ∙ set_other mem dest _ (src + 1 + i) (λ e. omega arith)
        ∙ at mem (src + 1 + i) (src + suc i) (omega arith)

memcpy_r-Moved :
    (dest src n : ℕ) (mem : Mem)
    → src ≤ dest
    → Moved dest src n mem (Runtime.memcpy_r dest src n mem)
unfolding Runtime.memcpy_r
memcpy_r-Moved dest src zero mem above = ((λ i lt. absurd (omega arith)), λ x out. refl)
memcpy_r-Moved dest src (suc n) mem above =
    let m1 = set_byte mem (dest + n) (get_byte mem (src + n)) in
    let rest = memcpy_r-Moved dest src n m1 above in
    (
      λ i lt. elim (last_or_before i n lt) [
        | inl e ↦
            at _ (dest + i) (dest + n) (omega arith)
            ∙ rest.1 (dest + n) (omega arith)
            ∙ set_copied mem (dest + n) (src + n)
            ∙ at mem (src + n) (src + i) (omega arith)
        | inr before ↦ rest.0 i before ∙ set_other mem (dest + n) _ (src + i) (λ e. omega arith)
      ],
      λ x out. rest.1 x (omega arith) ∙ set_other mem (dest + n) _ x (λ e. omega arith),
    )
  where
    last_or_before : (i n : ℕ) → i < suc n → (i ≡ n) ⊎ (i < n)
    last_or_before i n lt = omega arith

-- `memmove` leaves at `dest` the bytes that were at `src`, whatever the two blocks share, and
-- changes no byte outside the block at `dest`.
pub memmove-Moved :
    (dest src n : ℕ) (mem : Mem) → Moved dest src n mem (Runtime.memmove dest src n mem)
unfolding Runtime.memmove
memmove-Moved dest src n mem = elim (Bool-cases (ltb dest src)) [
  | inl below ↦ rw below (memcpy-Moved dest src n mem (ltb→lt dest src below))
  | inr above ↦ rw above (memcpy_r-Moved dest src n mem (not-ltb→le dest src above))
]

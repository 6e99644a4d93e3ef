-- ===== src/Examples/Bytes.antt =====
-- Moving bytes that overlap, and a file that takes one byte at a time.
use smolforth.Base.{
  refl, ℕ, zero, suc, ◌≡◌, arith, some, none, Option, [], ◌∷◌, ◌+◌, ◌<◌, ◌≤◌, ◌⊎◌, false,
  if◌then◌else◌, ◌==◌,
}
use smolforth.Base.{Bool, true, ap}
use smolforth.Memory.{get_byte}
use smolforth.Files
use smolforth.Files.Written.{Progresses, Wrote, write_loop-Wrote}
use smolforth.Runtime
use smolforth.Runtime.Moves.{Moved, memmove-Moved}
use smolforth.Examples.Words.{name_at}

memmove-Moved_example : Moved 501 500 2 name_at (Runtime.memmove 501 500 2 name_at)
memmove-Moved_example = memmove-Moved 501 500 2 name_at

-- A file is its bytes by their positions and the file offset, and takes one byte at a time.
abbrev OneFile : Type 0
OneFile = (ℕ → ℕ) × ℕ

unfoldable one_byte : Files.WriteCall OneFile
one_byte fid [] os = (none, os)
one_byte fid (b ∷ bs) os = (some 1, ((λ i. if i == os.1 then b else os.0 i), os.1 + 1))

abbrev byte_of : ℕ → OneFile → ℕ → ℕ
byte_of fid os = os.0

abbrev offset_of : ℕ → OneFile → ℕ
offset_of fid os = os.1

one_byte-Progresses : Progresses one_byte byte_of offset_of
unfolding one_byte Files.bytes_at
one_byte-Progresses fid zero mem addr os r h e = absurd (omega arith)
one_byte-Progresses fid (suc u) mem addr os r h e =
    let one : 1 ≡ r = ap (taken 0) e in
    (
      omega arith,
      omega arith,
      (omega arith, λ i lt. written i r (omega arith) lt, λ i o. others i r (omega arith) o),
    )
  where
    taken : ℕ → Option ℕ → ℕ
    taken n none = n
    taken n (some r) = r

    b : ℕ
    b = get_byte mem addr

    written :
        (i r : ℕ)
        → r ≡ 1
        → i < r
        → (if os.1 + i == os.1 then b else os.0 (os.1 + i)) ≡ get_byte mem (addr + i)
    written i r one lt =
        let first : i ≡ 0 = omega arith in
        let same : (os.1 + i == os.1) ≡ true = ground arith in
        rw same (ap (get_byte mem) (omega arith))

    others :
        (i r : ℕ) → r ≡ 1 → (i < os.1) ⊎ (os.1 + r ≤ i) → (if i == os.1 then b else os.0 i) ≡ os.0 i
    others i r one o = let other : (i == os.1) ≡ false = ground arith in rw other refl

-- Written over two bytes in the middle of a file.
abbrev a_file : OneFile
a_file = ((λ i. i), 7)

write_loop-Wrote_example :
    (all : Bool) × (os' : OneFile) × (Files.write_loop one_byte 3 2 name_at 500 2 a_file
      ≡ some (all, os'))
    × (all ≡ true → Wrote one_byte byte_of offset_of 3 2 name_at 500 a_file os')
write_loop-Wrote_example =
    write_loop-Wrote one_byte byte_of offset_of one_byte-Progresses 3 2 2 name_at 500 a_file
      (omega arith)

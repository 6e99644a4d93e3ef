-- ===== src/Files/Asked.antt =====
-- OPEN-FILE and CREATE-FILE on the stack: the request to the system, told by the access method and
-- the bytes of the name.
use smolforth.Base.{
  ℕ, ◌*◌, ◌%◌, ◌^◌, ◌<◌, ◌≤◌, ◌≡◌, ◌≢◌, ◌⊎◌, inl, inr, refl, ◌∙◌, arith, ap, bit_or, Bool, true,
  false, if◌then◌else◌, ◌==◌, Option, none, some, List, [], ◌∷◌, ◌++◌,
}
use smolforth.Base.Bits.{bit_and_mask}
use smolforth.Machine.{Machine}
use smolforth.Stack.{on_st}
use smolforth.Stack.Laws.{Holds}
use smolforth.Files.{bytes_at, not_positive}
use smolforth.Files.Paths.{
  OpenCall, OpenFlags, open_flags, create_flags, c_string, mode_of, open_named, open_file,
  create_file,
}
use smolforth.Files.Opened.{IsCell, found_cells, asked, open_named-Answers}
use mathlib.Core.Path.{subst}

-- The flags for the three low bits of an access method that are not all zero: R/O is 4, W/O is 2.
unfoldable pub access : OpenFlags → ℕ → ℕ
access o bits = if bits == 4 then o.o_rdonly else (if bits == 2 then o.o_wronly else o.o_rdwr)

-- CREATE-FILE makes the file, and empties it if it is only written.
unfoldable pub create_access : OpenFlags → ℕ → ℕ
unfolding access
create_access o bits =
    if bits == 2
    then bit_or o.o_creat (bit_or o.o_wronly o.o_trunc)
    else bit_or o.o_creat (access o bits)

abbrev pub NoNulls : List ℕ → Type 0
NoNulls [] = Unit
NoNulls (b ∷ bs) = (b ≢ 0) × NoNulls bs

-- The bytes of a name in memory: all of them, or those before the first null byte.
abbrev pub IsPath : List ℕ → List ℕ → Type 0
IsPath path bytes = NoNulls path × ((bytes ≡ path) ⊎ ((rest : List ℕ) × (bytes ≡ path ++ 0 ∷ rest)))

all_bytes : (path : List ℕ) → NoNulls path → c_string path ≡ path
unfolding c_string
all_bytes [] h = refl
all_bytes (b ∷ bs) h =
    let nonzero : (b == 0) ≡ false = ground arith in rw (nonzero, all_bytes bs h.1) refl

cut_bytes : (path rest : List ℕ) → NoNulls path → c_string (path ++ 0 ∷ rest) ≡ path
unfolding c_string
cut_bytes [] rest h = refl
cut_bytes (b ∷ bs) rest h =
    let nonzero : (b == 0) ≡ false = ground arith in rw (nonzero, cut_bytes bs rest h.1) refl

c_string-IsPath : (path bytes : List ℕ) → IsPath path bytes → c_string bytes ≡ path
c_string-IsPath path bytes (clean, inl e) = ap c_string e ∙ all_bytes path clean
c_string-IsPath path bytes (clean, inr (rest, e)) = ap c_string e ∙ cut_bytes path rest clean

mode_is : (fam : ℕ) → mode_of fam ≡ fam % 8 * 64
mode_is fam = ap (λ n. n * 64) (bit_and_mask 3 fam)

-- The flags of a mode, none if the bits are all zero.
abbrev IsAccess : (ℕ → Option ℕ) → (ℕ → ℕ) → ℕ → Type 0
IsAccess flags of_bits bits = flags (bits * 64) ≡ (if bits == 0 then none else some (of_bits bits))

open_flags-IsAccess : (o : OpenFlags) (bits : ℕ) → IsAccess (open_flags o) (access o) bits
unfolding open_flags access
open_flags-IsAccess o bits = ground arith

create_flags-IsAccess :
    (o : OpenFlags) (bits : ℕ) → IsAccess (create_flags o) (create_access o) bits
unfolding create_flags create_access access
create_flags-IsAccess o bits = ground arith

module _ {Os : Type 0} (open_ : OpenCall Os) where
  -- The answer of the system, on the stack, and the state that it left.
  abbrev pub Answered : Option ℕ × Os → List ℕ → Machine × Os → Type 0
  Answered a xs r = Holds on_st r.0 (found_cells a.0 xs) × (r.1 ≡ a.1)

  not_asked :
      (permissions : Option ℕ) (path : List ℕ) (none_given : Bool) (flags : Option ℕ) (os : Os)
      → (none_given ≡ true) ⊎ (flags ≡ none)
      → asked open_ permissions path none_given flags os ≡ (none, os)
  unfolding asked
  not_asked permissions path true flags os h = refl
  not_asked permissions path false none os h = refl
  not_asked permissions path false (some f) os h = absurd (ground arith)

  asked_once :
      (permissions : Option ℕ) (path bytes : List ℕ) (u f : ℕ) (flags : Option ℕ) (os : Os)
      → IsPath path bytes
      → not_positive u ≡ false
      → flags ≡ some f
      → asked open_ permissions (c_string bytes) (not_positive u) flags os
        ≡ open_ path f permissions os
  unfolding asked
  asked_once permissions path bytes u f flags os name given e =
      rw (given, e, c_string-IsPath path bytes name) refl

  refuses : (u : ℕ) → (u ≡ 0) ⊎ (2 ^ 63 ≤ u) → not_positive u ≡ true
  unfolding not_positive
  refuses u h = ground arith

  accepts : (u : ℕ) → 0 < u → u < 2 ^ 63 → not_positive u ≡ false
  unfolding not_positive
  accepts u h k = ground arith

  of_method :
      (flags : ℕ → Option ℕ) (of_bits : ℕ → ℕ) (fam : ℕ)
      → IsAccess flags of_bits (fam % 8)
      → flags (mode_of fam) ≡ (if fam % 8 == 0 then none else some (of_bits (fam % 8)))
  of_method flags of_bits fam h = ap flags (mode_is fam) ∙ h

  named-Answered :
      (flags : ℕ → Option ℕ) (of_bits : ℕ → ℕ) (permissions : Option ℕ) (fam u addr : ℕ)
      (m : Machine) (xs : List ℕ) (os : Os)
      → ((p : List ℕ) (f : ℕ) (os : Os) → IsCell (open_ p f permissions os).0)
      → Holds on_st m (fam ∷ u ∷ addr ∷ xs)
      → IsAccess flags of_bits (fam % 8)
      → ((u ≡ 0) ⊎ (2 ^ 63 ≤ u) ⊎ (fam % 8 ≡ 0)
          → Answered (none, os) xs (open_named open_ flags permissions m os))
        × ((path : List ℕ)
            → IsPath path (bytes_at m.mem addr u)
            → 0 < u
            → u < 2 ^ 63
            → fam % 8 ≢ 0
            → Answered
                (open_ path (of_bits (fam % 8)) permissions os)
                xs
                (open_named open_ flags permissions m os))
  named-Answered flags of_bits permissions fam u addr m xs os cell h is_access =
      let base = open_named-Answers open_ flags permissions fam u addr m xs os cell h in
      (
        λ bad. subst answer (not_asked permissions _ (not_positive u) _ os (why bad)) base,
        λ path name low high bits.
            subst answer
              (asked_once permissions path (bytes_at m.mem addr u) u (of_bits (fam % 8))
                (flags (mode_of fam)) os name (accepts u low high) (given bits))
              base,
      )
    where
      answer : Option ℕ × Os → Type 0
      answer a = Answered a xs (open_named open_ flags permissions m os)

      why :
          (u ≡ 0) ⊎ (2 ^ 63 ≤ u) ⊎ (fam % 8 ≡ 0)
          → (not_positive u ≡ true) ⊎ (flags (mode_of fam) ≡ none)
      why (inl zero_bytes) = inl (refuses u (inl zero_bytes))
      why (inr (inl negative)) = inl (refuses u (inr negative))
      why (inr (inr no_bits)) =
          let zero_bits : (fam % 8 == 0) ≡ true = ground arith in
          inr (of_method flags of_bits fam is_access ∙ rw zero_bits refl)

      given : fam % 8 ≢ 0 → flags (mode_of fam) ≡ some (of_bits (fam % 8))
      given bits =
          let some_bits : (fam % 8 == 0) ≡ false = ground arith in
          of_method flags of_bits fam is_access ∙ rw some_bits refl

  -- OPEN-FILE takes the access method, the length and the address of a name, over answers of the
  -- system that are cells. With a length that is 0 or negative, or an access method whose three low
  -- bits are all zero, it asks the system nothing and leaves 0 and -1. Otherwise it asks once, without
  -- permissions, for the bytes of the name that are before the first null byte, with O_RDONLY for
  -- R/O, O_WRONLY for W/O and else O_RDWR, and leaves the descriptor and 0, or 0 and -1 on an error.
  pub open_file-Answered :
      (o : OpenFlags) (fam u addr : ℕ) (m : Machine) (xs : List ℕ) (os : Os)
      → ((p : List ℕ) (f : ℕ) (os : Os) → IsCell (open_ p f none os).0)
      → Holds on_st m (fam ∷ u ∷ addr ∷ xs)
      → ((u ≡ 0) ⊎ (2 ^ 63 ≤ u) ⊎ (fam % 8 ≡ 0) → Answered (none, os) xs (open_file open_ o m os))
        × ((path : List ℕ)
            → IsPath path (bytes_at m.mem addr u)
            → 0 < u
            → u < 2 ^ 63
            → fam % 8 ≢ 0
            → Answered (open_ path (access o (fam % 8)) none os) xs (open_file open_ o m os))
  unfolding open_file
  open_file-Answered o fam u addr m xs os cell h =
      named-Answered (open_flags o) (access o) none fam u addr m xs os cell h
        (open_flags-IsAccess o (fam % 8))

  -- CREATE-FILE does the same with the permissions 0600, and asks with O_CREAT as well, and with
  -- O_TRUNC for W/O.
  pub create_file-Answered :
      (o : OpenFlags) (fam u addr : ℕ) (m : Machine) (xs : List ℕ) (os : Os)
      → ((p : List ℕ) (f : ℕ) (os : Os) → IsCell (open_ p f (some 384) os).0)
      → Holds on_st m (fam ∷ u ∷ addr ∷ xs)
      → ((u ≡ 0) ⊎ (2 ^ 63 ≤ u) ⊎ (fam % 8 ≡ 0) → Answered (none, os) xs (create_file open_ o m os))
        × ((path : List ℕ)
            → IsPath path (bytes_at m.mem addr u)
            → 0 < u
            → u < 2 ^ 63
            → fam % 8 ≢ 0
            → Answered
                (open_ path (create_access o (fam % 8)) (some 384) os)
                xs
                (create_file open_ o m os))
  unfolding create_file
  create_file-Answered o fam u addr m xs os cell h =
      named-Answered (create_flags o) (create_access o) (some 384) fam u addr m xs os cell h
        (create_flags-IsAccess o (fam % 8))

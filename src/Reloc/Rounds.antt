-- ===== src/Reloc/Rounds.antt =====
-- A line of out.txt is read to its end: each round of the loop over it takes a character or more.
use smolforth.Base.{
  ℕ, zero, suc, ◌≤◌, ◌<◌, ◌≡◌, refl, arith, Bool, true, false, if◌then◌else◌, Option, none, some,
  [], ◌∷◌, length,
}
use smolforth.Reloc.Texts.{◌>>=◌}
use smolforth.Reloc.Tables.{Name, Target, ElfTypes}
use smolforth.Reloc.Words
use smolforth.Reloc.Words.{Reader}
use smolforth.Reloc.Lines
use smolforth.Reloc.Keeps.{AllOf}

if_shorter :
    (b : Bool) (x y : Lines.Token) (n : ℕ)
    → length x.rest ≤ n
    → length y.rest ≤ n
    → length (if b then x else y).rest ≤ n
if_shorter true x y n p q = p
if_shorter false x y n p q = q

to_space_shorter : (s : Name) → length (Lines.to_space s).rest ≤ length s
unfolding Lines.to_space
to_space_shorter [] = omega arith
to_space_shorter (c ∷ cs) =
    let ih = to_space_shorter cs in
    if_shorter (Words.isspace c) _ _ (suc (length cs)) (omega arith) (omega arith)

-- A token leaves less of the line than there was.
abbrev Leaves : ℕ → Option Lines.Token → Type 0
Leaves n = AllOf (λ k. length k.rest < n)

if_leaves :
    (b : Bool) (x y : Option Lines.Token) (n : ℕ)
    → Leaves n x
    → Leaves (suc n) y
    → Leaves (suc n) (if b then x else y)
if_leaves true none y n p q = tt
if_leaves true (some k) y n p q = omega arith
if_leaves false x y n p q = q

next_token_shorter : (s : Name) → Leaves (length s) (Lines.next_token s)
unfolding Lines.next_token
next_token_shorter [] = tt
next_token_shorter (c ∷ cs) =
    let behind = to_space_shorter cs in
    if_leaves (Words.isspace c) (Lines.next_token cs) _ (length cs) (next_token_shorter cs)
      (omega arith)

after_paren_shorter : (s : Name) → length (Lines.after_paren s) ≤ length s
unfolding Lines.after_paren
after_paren_shorter [] = omega arith
after_paren_shorter (c ∷ cs) = let ih = after_paren_shorter cs in ground arith

left_of_shorter : (w : Words.Word) (s : Name) → length (Lines.left_of w s) ≤ length s
unfolding Lines.left_of
left_of_shorter Words.quote s = omega arith
left_of_shorter Words.backslash s = omega arith
left_of_shorter Words.paren s = after_paren_shorter s
left_of_shorter _ s = omega arith

-- How a line is read from where `n` stands, without a bound on the rounds.
pub data Reads (target : Target) (elf : ElfTypes) : Name → Reader → Option Reader → Type 0 where
  at_end : (s : Name) (r : Reader) → Lines.next_token s ≡ none → Reads target elf s r (some r)
  in_quotes :
      (s : Name) (r : Reader) (k : Lines.Token) (o : Option Reader)
      → Lines.next_token s ≡ some k
      → r.quoting ≡ true
      → Reads target elf k.rest (Lines.quoted k.ss r) o
      → Reads target elf s r o
  fails :
      (s : Name) (r : Reader) (k : Lines.Token)
      → Lines.next_token s ≡ some k
      → r.quoting ≡ false
      → Words.perform target elf (Words.word_of k.ss) k.ss r ≡ none
      → Reads target elf s r none
  does :
      (s : Name) (r r' : Reader) (k : Lines.Token) (o : Option Reader)
      → Lines.next_token s ≡ some k
      → r.quoting ≡ false
      → Words.perform target elf (Words.word_of k.ss) k.ss r ≡ some r'
      → Reads target elf (Lines.left_of (Words.word_of k.ss) k.rest) r' o
      → Reads target elf s r o

module _ (target : Target) (elf : ElfTypes) where
  -- A round that does not end the line, once the loop reads what is left of it.
  token-Reads :
      (s : Name) (r : Reader) (k : Lines.Token) (loop : Name → Reader → Option Reader)
      → Lines.next_token s ≡ some k
      → ((s' : Name) (r' : Reader) → length s' < length s → Reads target elf s' r' (loop s' r'))
      → length k.rest < length s
      → Reads target elf s r (Lines.on_token target elf loop (some k) r)
  unfolding Lines.on_token
  token-Reads s r k loop e h shorter = go r.quoting _ refl refl
    where
      w : Words.Word
      w = Words.word_of k.ss

      go :
          (b : Bool) (o : Option Reader)
          → r.quoting ≡ b
          → Words.perform target elf w k.ss r ≡ o
          → Reads target elf s r (
              if b
              then loop k.rest (Lines.quoted k.ss r)
              else (o >>= loop (Lines.left_of w k.rest)))
      go true o q p = in_quotes s r k _ e q (h k.rest (Lines.quoted k.ss r) shorter)
      go false none q p = fails s r k e q p
      go false (some r') q p =
          let left = left_of_shorter w k.rest in
          does s r r' k _ e q p (h (Lines.left_of w k.rest) r' (omega arith))

  round-Reads :
      (s : Name) (r : Reader) (o : Option Lines.Token) (loop : Name → Reader → Option Reader)
      → Lines.next_token s ≡ o
      → ((s' : Name) (r' : Reader) → length s' < length s → Reads target elf s' r' (loop s' r'))
      → Leaves (length s) o
      → Reads target elf s r (Lines.on_token target elf loop o r)
  unfolding Lines.on_token
  round-Reads s r none loop e h shorter = at_end s r e
  round-Reads s r (some k) loop e h shorter = token-Reads s r k loop e h shorter

  run_tokens-Reads :
      (fuel : ℕ) (s : Name) (r : Reader)
      → length s < fuel
      → Reads target elf s r (Lines.run_tokens target elf fuel s r)
  unfolding Lines.run_tokens
  run_tokens-Reads zero s r enough = absurd (omega arith)
  run_tokens-Reads (suc fuel) s r enough =
      round-Reads s r (Lines.next_token s) (Lines.run_tokens target elf fuel) refl
        (λ s' r' less. run_tokens-Reads fuel s' r' (omega arith)) (next_token_shorter s)

-- Reading a line ends: with one round more than there are characters, the result is that of the
-- rounds that `Reads` describes, one after the other, as many as there are.
pub read_line-Reads :
    (target : Target) (elf : ElfTypes) (s : Name) (r : Reader)
    → Reads target elf s (Lines.new_line r) (Lines.read_line target elf s r)
unfolding Lines.read_line
read_line-Reads target elf s r =
    run_tokens-Reads target elf (suc (length s)) s (Lines.new_line r) (omega arith)

-- ===== src/Dictionary/Search.antt =====
-- The walk of FIND along a list of linked words, against a search of a list.
use smolforth.Base.{
  ℕ, zero, suc, ◌+◌, ◌<◌, ◌≡◌, ◌≢◌, refl, arith, List, [], ◌∷◌, Option, none, some,
}
use smolforth.Base.{if◌then◌else◌, ◌==◌, Bool}
use smolforth.Memory.{Mem, load}
use smolforth.Dictionary

-- From `w` on, the link cells lead through these words to the null pointer.
abbrev pub Linked : Mem → ℕ → List ℕ → Type 0
Linked mem w [] = w ≡ 0
Linked mem w (x ∷ xs) = (w ≡ x) × (x ≢ 0) × Linked mem (load 8 mem x) xs

unfoldable pub count : List ℕ → ℕ
count [] = 0
count (x ∷ xs) = count xs + 1

-- The first of a list that passes a test.
unfoldable pub first : (ℕ → Bool) → List ℕ → Option ℕ
first test [] = none
first test (x ∷ xs) = if test x then some x else first test xs

-- The walk of FIND along a word list, which needs one unit of fuel more than there are words,
-- gives the first of the words, from the latest back, that passes the test of the name, and none
-- if no word does. The list is linked by the cells of memory and ends at the null pointer.
pub find_in-first :
    (mem : Mem) (c wlen fuel w : ℕ) (ws : List ℕ)
    → Linked mem w ws
    → count ws < fuel
    → Dictionary.find_in mem c wlen fuel w ≡ first (Dictionary.is_named mem c wlen) ws
unfolding Dictionary.find_in first count
find_in-first mem c wlen zero w ws h enough = absurd (omega arith)
find_in-first mem c wlen (suc fuel) w [] h enough = rw h refl
find_in-first mem c wlen (suc fuel) w (x ∷ xs) h enough =
    let rest = find_in-first mem c wlen fuel (load 8 mem x) xs h.2 (omega arith) in
    rw (h.0, rest) (test_false x _ _ h.1)
  where
    test_false : (b : ℕ) (p q : Option ℕ) → b ≢ 0 → (if b == 0 then p else q) ≡ q
    test_false b p q k = ground arith

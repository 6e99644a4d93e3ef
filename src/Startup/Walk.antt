-- ===== src/Startup/Walk.antt =====
-- A walk along a list of words that stores, for each word, the cells read from it: what the three
-- loops that fill the table have in common.
use smolforth.Base.{
  ℕ, zero, suc, ◌+◌, ◌*◌, ◌≤◌, ◌<◌, ◌≡◌, ◌≢◌, ◌⊎◌, refl, sym, ◌∙◌, ap, arith, List, [], ◌∷◌, ◌++◌,
  length, length-append, if◌then◌else◌, ◌==◌,
}
use mathlib.Core.Path.{subst}
use smolforth.Memory.{Mem, load}
use smolforth.Compiler.{store_words}
use smolforth.Dictionary.Search.{Linked, count}
use smolforth.Startup.Stored.{
  SameOutside, store_words-SameOutside, load-SameOutside, store_words-append,
}

-- The link, the flags and the cells of a word lie outside an area.
abbrev pub WordOutside : ℕ → ℕ → ℕ → Type 0
WordOutside lo hi w = (w + 32 ≤ lo) ⊎ (hi < w)

abbrev pub WordsOutside : ℕ → ℕ → List ℕ → Type 0
WordsOutside lo hi [] = Unit
WordsOutside lo hi (w ∷ ws) = WordOutside lo hi w × WordsOutside lo hi ws

-- The cells read from a word depend on the word alone.
abbrev pub ReadsWord : (Mem → ℕ → List ℕ) → Type 0
ReadsWord g =
    (lo hi : ℕ) (mem mem' : Mem) (w : ℕ)
    → SameOutside lo hi mem mem'
    → WordOutside lo hi w
    → g mem w ≡ g mem' w

unfoldable pub gather : (ℕ → List ℕ) → List ℕ → List ℕ
gather g [] = []
gather g (w ∷ ws) = g w ++ gather g ws

pub length-gather_append :
    (g : ℕ → List ℕ) (xs ys : List ℕ)
    → length (gather g (xs ++ ys)) ≡ length (gather g xs) + length (gather g ys)
unfolding gather
length-gather_append g [] ys = omega arith
length-gather_append g (x ∷ xs) ys = omega (
  arith,
  length-append (g x) (gather g (xs ++ ys)),
  length-append (g x) (gather g xs),
  length-gather_append g xs ys,
)

unfoldable pub walk : (Mem → ℕ → List ℕ) → ℕ → ℕ → ℕ × Mem → ℕ × Mem
unfolding store_words
walk g zero f s = s
walk g (suc fuel) f (at, mem) =
    let stored = store_words 8 (g mem f) at mem in
    let rest = walk g fuel (load 8 stored f) (at + 8 * length (g mem f), stored) in
    if f == 0 then (at, mem) else rest

-- `n` rounds of the same, which do not look for the end of the list.
unfoldable pub rounds : (Mem → ℕ → List ℕ) → ℕ → ℕ → ℕ → Mem → Mem
unfolding store_words
rounds g zero at f mem = mem
rounds g (suc n) at f mem =
    let stored = store_words 8 (g mem f) at mem in
    rounds g n (at + 8 * length (g mem f)) (load 8 stored f) stored

-- The cells `vs` at `at`, and behind them those that follow.
abbrev pub stores : List ℕ → ℕ → Mem → ℕ × Mem
stores vs at mem = (at + 8 * length vs, store_words 8 vs at mem)

pub stores-append :
    (xs ys : List ℕ) (at : ℕ) (mem : Mem)
    → stores ys (at + 8 * length xs) (store_words 8 xs at mem) ≡ stores (xs ++ ys) at mem
stores-append xs ys at mem = (λ i. (place i, sym (store_words-append 8 xs ys at mem) i))
  where
    place : at + 8 * length xs + 8 * length ys ≡ at + 8 * length (xs ++ ys)
    place = omega (arith, length-append xs ys)

not_last : (x at : ℕ) (p : ℕ × Mem) (mem : Mem) → x ≢ 0 → (if x == 0 then (at, mem) else p) ≡ p
not_last x at p mem h = ground arith

module _ (g : Mem → ℕ → List ℕ) (reads : ReadsWord g) (lo hi : ℕ) (mem0 : Mem) where
  -- The memory after the cells of one word are stored.
  after : ℕ → ℕ → Mem → Mem
  after x at mem = store_words 8 (g mem0 x) at mem

  -- Storing the cells of one word leaves the links alone, and room for those of the others.
  one_word :
      (x at : ℕ) (mem : Mem) (others : List ℕ)
      → WordOutside lo hi x
      → SameOutside lo hi mem mem0
      → lo ≤ at
      → at + 8 * length (g mem0 x ++ others) ≤ hi
      → SameOutside lo hi (after x at mem) mem0
        × (load 8 mem0 x ≡ load 8 (after x at mem) x)
        × (at + 8 * length (g mem0 x) + 8 * length others ≤ hi)
  unfolding after
  one_word x at mem others out same l h =
      (kept, sym (load-SameOutside lo hi (after x at mem) mem0 x kept (omega arith)), room)
    where
      room : at + 8 * length (g mem0 x) + 8 * length others ≤ hi
      room = omega (arith, length-append (g mem0 x) others)

      kept : SameOutside lo hi (after x at mem) mem0
      kept = store_words-SameOutside 8 (g mem0 x) at lo hi mem mem0 l (omega (arith, room)) same

  -- The walk along a list outside the area, into the area, stores what is gathered from the words.
  pub walk-stores :
      (fuel f at : ℕ) (mem : Mem) (ws : List ℕ)
      → Linked mem0 f ws
      → WordsOutside lo hi ws
      → SameOutside lo hi mem mem0
      → lo ≤ at
      → at + 8 * length (gather (g mem0) ws) ≤ hi
      → count ws < fuel
      → walk g fuel f (at, mem) ≡ stores (gather (g mem0) ws) at mem
  unfolding walk gather count store_words after
  walk-stores zero f at mem ws linked out same l h enough = absurd (omega arith)
  walk-stores (suc fuel) f at mem [] linked out same l h enough = rw linked (λ i. (place i, mem))
    where
      place : at ≡ at + 0
      place = omega arith
  walk-stores (suc fuel) f at mem (x ∷ xs) linked out same l h enough =
      let one = one_word x at mem (gather (g mem0) xs) out.0 same l h in
      ap (λ a. walk g (suc fuel) a (at, mem)) linked.0
      ∙ not_last x at (resumed (g mem x)) mem linked.1
      ∙ ap resumed (reads lo hi mem mem0 x same out.0)
      ∙ walk-stores fuel (load 8 (after x at mem) x) (at + 8 * length (g mem0 x)) (after x at mem)
          xs (subst (λ a. Linked mem0 a xs) one.1 linked.2) out.1 one.0 (omega arith) one.2
          (omega arith)
      ∙ stores-append (g mem0 x) (gather (g mem0) xs) at mem
    where
      resumed : List ℕ → ℕ × Mem
      resumed us =
          walk g fuel (load 8 (store_words 8 us at mem) x)
            (at + 8 * length us, store_words 8 us at mem)

  -- As many rounds as there are words do the same.
  pub rounds-stores :
      (f at : ℕ) (mem : Mem) (ws : List ℕ)
      → Linked mem0 f ws
      → WordsOutside lo hi ws
      → SameOutside lo hi mem mem0
      → lo ≤ at
      → at + 8 * length (gather (g mem0) ws) ≤ hi
      → rounds g (length ws) at f mem ≡ store_words 8 (gather (g mem0) ws) at mem
  unfolding rounds gather store_words after
  rounds-stores f at mem [] linked out same l h = refl
  rounds-stores f at mem (x ∷ xs) linked out same l h =
      let one = one_word x at mem (gather (g mem0) xs) out.0 same l h in
      ap (λ a. rounds g (suc (length xs)) at a mem) linked.0
      ∙ ap resumed (reads lo hi mem mem0 x same out.0)
      ∙ rounds-stores (load 8 (after x at mem) x) (at + 8 * length (g mem0 x)) (after x at mem) xs
          (subst (λ a. Linked mem0 a xs) one.1 linked.2) out.1 one.0 (omega arith) one.2
      ∙ sym (store_words-append 8 (g mem0 x) (gather (g mem0) xs) at mem)
    where
      resumed : List ℕ → Mem
      resumed us =
          rounds g (length xs) (at + 8 * length us) (load 8 (store_words 8 us at mem) x)
            (store_words 8 us at mem)

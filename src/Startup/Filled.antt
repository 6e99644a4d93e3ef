-- ===== src/Startup/Filled.antt =====
-- The table that start-up fills, by either port: its three parts stand one behind the other.
use smolforth.Base.{
  ℕ, suc, ◌+◌, ◌*◌, ◌≤◌, ◌<◌, ◌≡◌, refl, sym, ◌∙◌, ap, arith, List, [], ◌∷◌, ◌++◌, length,
  length-append, map,
}
use mathlib.Core.List.{append_assoc}
use smolforth.Memory.{Mem}
use smolforth.Compiler.{store_words}
use smolforth.Dictionary.{to_body}
use smolforth.Dictionary.Search.{Linked, count}
use smolforth.Startup.{
  import_got_words, import_got_body, import_got_exec, import_lists, fill_main, fill_words,
  fill_bodies,
}
use smolforth.RiscV.Compile.{import_exec}
use smolforth.Startup.Stored.{SameOutside, store_words-SameOutside, store_words-append}
use smolforth.Startup.Walk.{WordsOutside, ReadsWord, stores, gather, walk-stores, rounds-stores}
use smolforth.Startup.Loops.{
  the_word, the_body, the_code, the_word-ReadsWord, the_body-ReadsWord, the_code-ReadsWord,
  import_exec-walk, fill_words-rounds, fill_bodies-rounds,
}
use smolforth.Startup.Lists.{
  LinkedAll, AllShorter, joined, entries, gather_each, walk_lists, walk_lists-stores, words-walk,
  bodies-walk, codes-walk,
}

same_words : (ws : List ℕ) → gather (λ w. w ∷ []) ws ≡ ws
unfolding gather
same_words [] = refl
same_words (w ∷ ws) = ap (λ r. w ∷ r) (same_words ws)

length-map : (h : ℕ → ℕ) (ws : List ℕ) → length (map h ws) ≡ length ws
length-map h [] = refl
length-map h (w ∷ ws) = ap suc (length-map h ws)

pub length-entries :
    (mem : Mem) (ws : List ℕ)
    → length (entries mem ws) ≡ 2 * length ws + length (gather (the_code mem) ws)
unfolding entries
length-entries mem ws = omega (
  arith,
  length-append ws (map (to_body mem) ws ++ gather (the_code mem) ws),
  length-append (map (to_body mem) ws) (gather (the_code mem) ws),
  length-map (to_body mem) ws,
)

-- Three lists of cells, each stored behind the one before it.
three_parts :
    (xs ys zs : List ℕ) (n start : ℕ) (mem : Mem)
    → length xs ≡ n
    → length ys ≡ n
    → store_words 8 zs
        (start + 8 * (2 * n))
        (store_words 8 ys (start + 8 * n) (store_words 8 xs start mem))
      ≡ store_words 8 (xs ++ (ys ++ zs)) start mem
three_parts xs ys zs n start mem x y =
    ap (store_words 8 zs (start + 8 * (2 * n))) (
      ap (λ p. store_words 8 ys p (store_words 8 xs start mem)) second
      ∙ sym (store_words-append 8 xs ys start mem))
    ∙ ap (λ p. store_words 8 zs p (store_words 8 (xs ++ ys) start mem)) third
    ∙ sym (store_words-append 8 (xs ++ ys) zs start mem)
    ∙ ap (λ vs. store_words 8 vs start mem) (append_assoc xs ys zs)
  where
    second : start + 8 * n ≡ start + 8 * length xs
    second = omega arith

    third : start + 8 * (2 * n) ≡ start + 8 * length (xs ++ ys)
    third = omega (arith, length-append xs ys)

module _ (mem : Mem) (start hi : ℕ) (ws : List ℕ) (out : WordsOutside start hi ws)
    (room : start + 8 * length (entries mem ws) ≤ hi) where
  words : ℕ
  words = length ws

  -- The memory when the first part is filled, and when the second is.
  with_words : Mem
  with_words = store_words 8 ws start mem

  with_bodies : Mem
  with_bodies = store_words 8 (map (to_body mem) ws) (start + 8 * words) with_words

  room_parts :
      (start + 8 * length ws ≤ hi)
      × (start + 8 * words + 8 * length (map (to_body mem) ws) ≤ hi)
      × (start + 8 * (2 * words) + 8 * length (gather (the_code mem) ws) ≤ hi)
  unfolding words
  room_parts = (
    omega (arith, room, length-entries mem ws),
    omega (arith, room, length-entries mem ws, length-map (to_body mem) ws),
    omega (arith, room, length-entries mem ws),
  )

  words_same : SameOutside start hi with_words mem
  unfolding with_words
  words_same =
      store_words-SameOutside 8 ws start start hi mem mem (omega arith) room_parts.0 (λ x o. refl)

  bodies_same : SameOutside start hi with_bodies mem
  unfolding with_bodies words
  bodies_same =
      store_words-SameOutside 8 (map (to_body mem) ws) (start + 8 * length ws) start hi with_words
        mem (omega arith) room_parts.1 words_same

  entries_stored :
      store_words 8 (gather (the_code mem) ws) (start + 8 * (2 * words)) with_bodies
      ≡ store_words 8 (entries mem ws) start mem
  unfolding with_words with_bodies words entries
  entries_stored =
      three_parts ws (map (to_body mem) ws) (gather (the_code mem) ws) (length ws) start mem refl
        (length-map (to_body mem) ws)

  -- Three steps that store the parts, one after the other.
  in_turn :
      (step1 step2 step3 : Mem → Mem)
      → step1 mem ≡ with_words
      → step2 with_words ≡ with_bodies
      → step3 with_bodies
        ≡ store_words 8 (gather (the_code mem) ws) (start + 8 * (2 * words)) with_bodies
      → step3 (step2 (step1 mem)) ≡ store_words 8 (entries mem ws) start mem
  in_turn step1 step2 step3 a b c = ap (λ m. step3 (step2 m)) a ∙ ap step3 b ∙ c ∙ entries_stored

-- A part of the table that a walk along all lists stores at `at`.
lists_part :
    (g : Mem → ℕ → List ℕ)
    → ReadsWord g
    → (mem : Mem) (start hi fuel : ℕ) (fs : List ℕ) (wss : List (List ℕ)) → LinkedAll mem fs wss
    → AllShorter wss fuel
    → WordsOutside start hi (joined wss)
    → (loops : ℕ × Mem → ℕ × Mem) → ((s : ℕ × Mem) → loops s ≡ walk_lists g fuel fs s)
    → (vs : List ℕ) → gather (g mem) (joined wss) ≡ vs
    → (at : ℕ) (m : Mem) → SameOutside start hi m mem
    → start ≤ at
    → at + 8 * length vs ≤ hi
    → (loops (at, m)).1 ≡ store_words 8 vs at m
lists_part g reads mem start hi fuel fs wss linked enough out loops e vs v at m same l h =
    ap (λ s. s.1)
      (e (at, m)
        ∙ walk_lists-stores g reads start hi mem fuel fs wss at m linked enough out same l (rw v h)
        ∙ ap (λ us. stores us at m) v)

-- The loops of `import_plt` fill the table with the words, their bodies and their code.
pub import_lists-entries :
    (mem : Mem) (start hi fuel : ℕ) (fs : List ℕ) (wss : List (List ℕ))
    → WordsOutside start hi (joined wss)
    → start + 8 * length (entries mem (joined wss)) ≤ hi
    → LinkedAll mem fs wss
    → AllShorter wss fuel
    → import_lists fuel fs (length (joined wss)) start mem
      ≡ store_words 8 (entries mem (joined wss)) start mem
unfolding import_lists with_words with_bodies words
import_lists-entries mem start hi fuel fs wss out room linked enough =
    let ws = joined wss in
    let parts = room_parts mem start hi ws out room in
    let stored1 = with_words mem start hi ws out room in
    let stored2 = with_bodies mem start hi ws out room in
    in_turn mem start hi ws out room (λ m. (import_got_words fuel fs (start, m)).1)
      (λ m. (import_got_body fuel fs (start + 8 * length ws, m)).1)
      (λ m. (import_got_exec fuel fs (start + 8 * (2 * length ws), m)).1)
      (lists_part the_word the_word-ReadsWord mem start hi fuel fs wss linked enough out
        (import_got_words fuel fs) (words-walk fuel fs) ws (same_words ws) start mem (λ x o. refl)
        (omega arith) parts.0)
      (lists_part the_body the_body-ReadsWord mem start hi fuel fs wss linked enough out
        (import_got_body fuel fs) (bodies-walk fuel fs) (map (to_body mem) ws)
        (gather_each (to_body mem) ws) (start + 8 * length ws) stored1
        (words_same mem start hi ws out room) (omega arith) parts.1)
      (lists_part the_code the_code-ReadsWord mem start hi fuel fs wss linked enough out
        (import_got_exec fuel fs) (codes-walk fuel fs) (gather (the_code mem) ws) refl
        (start + 8 * (2 * length ws)) stored2 (bodies_same mem start hi ws out room) (omega arith)
        parts.2)

-- The loops of main of the x86-64 port do the same.
pub fill_main-entries :
    (mem : Mem) (start hi fuel last : ℕ) (ws : List ℕ)
    → WordsOutside start hi ws
    → start + 8 * length (entries mem ws) ≤ hi
    → Linked mem last ws
    → count ws < fuel
    → fill_main fuel last (length ws) start mem ≡ store_words 8 (entries mem ws) start mem
unfolding fill_main with_words with_bodies words
fill_main-entries mem start hi fuel last ws out room linked enough =
    let n = length ws in
    let parts = room_parts mem start hi ws out room in
    let stored1 = with_words mem start hi ws out room in
    let stored2 = with_bodies mem start hi ws out room in
    in_turn mem start hi ws out room (fill_words n start last) (fill_bodies n (start + 8 * n) last)
      (λ m. (import_exec fuel last (start + 8 * (2 * n), m)).1)
      (fill_words-rounds n start last mem
        ∙ rounds-stores the_word the_word-ReadsWord start hi mem last start mem ws linked out
            (λ x o. refl) (omega arith) (rw (same_words ws) parts.0)
        ∙ ap (λ vs. store_words 8 vs start mem) (same_words ws))
      (fill_bodies-rounds n (start + 8 * n) last stored1
        ∙ rounds-stores the_body the_body-ReadsWord start hi mem last (start + 8 * n) stored1 ws
            linked out (words_same mem start hi ws out room) (omega arith)
            (rw (gather_each (to_body mem) ws) parts.1)
        ∙ ap (λ vs. store_words 8 vs (start + 8 * n) stored1) (gather_each (to_body mem) ws))
      (ap (λ s. s.1)
        (import_exec-walk fuel last (start + 8 * (2 * n), stored2)
          ∙ walk-stores the_code the_code-ReadsWord start hi mem fuel last (start + 8 * (2 * n))
              stored2 ws linked out (bodies_same mem start hi ws out room) (omega arith) parts.2
              enough))

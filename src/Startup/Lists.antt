-- ===== src/Startup/Lists.antt =====
-- The loops over several lists of words, one after the other, that fill the parts of the table.
use smolforth.Base.{
  ℕ, ◌+◌, ◌*◌, ◌≤◌, ◌<◌, ◌≡◌, refl, sym, ◌∙◌, ap, arith, List, [], ◌∷◌, ◌++◌, length, length-append,
  map,
}
use mathlib.Core.List.{append_assoc}
use smolforth.Memory.{Mem}
use smolforth.Compiler.{store_words}
use smolforth.Dictionary.{to_body}
use smolforth.Dictionary.Search.{Linked, count}
use smolforth.RiscV.Compile.{count_got}
use smolforth.Startup.{import_got_words, import_got_body, import_got_exec}
use smolforth.Startup.Stored.{SameOutside, store_words-SameOutside}
use smolforth.Startup.Walk.{
  WordsOutside, ReadsWord, gather, length-gather_append, walk, walk-stores, stores, stores-append,
}
use smolforth.Startup.Loops.{
  the_word, the_body, the_code, import_words-walk, import_body-walk, import_exec-walk,
  count_words_of-length,
}

-- Each pointer leads through one of the lists.
abbrev pub LinkedAll : Mem → List ℕ → List (List ℕ) → Type 0
LinkedAll mem [] [] = Unit
LinkedAll mem [] (ws ∷ wss) = ⊥
LinkedAll mem (f ∷ fs) [] = ⊥
LinkedAll mem (f ∷ fs) (ws ∷ wss) = Linked mem f ws × LinkedAll mem fs wss

abbrev pub AllShorter : List (List ℕ) → ℕ → Type 0
AllShorter [] fuel = Unit
AllShorter (ws ∷ wss) fuel = (count ws < fuel) × AllShorter wss fuel

unfoldable pub joined : List (List ℕ) → List ℕ
joined [] = []
joined (ws ∷ wss) = ws ++ joined wss

-- What the table holds: the words, their bodies, and the code of those that have some.
unfoldable pub entries : Mem → List ℕ → List ℕ
unfolding gather
entries mem ws = ws ++ (map (to_body mem) ws ++ gather (the_code mem) ws)

pub gather_each : (h : ℕ → ℕ) (ws : List ℕ) → gather (λ w. h w ∷ []) ws ≡ map h ws
unfolding gather
gather_each h [] = refl
gather_each h (w ∷ ws) = ap (λ r. h w ∷ r) (gather_each h ws)

gather-append : (g : ℕ → List ℕ) (xs ys : List ℕ) → gather g (xs ++ ys) ≡ gather g xs ++ gather g ys
unfolding gather
gather-append g [] ys = refl
gather-append g (x ∷ xs) ys =
    ap (λ r. g x ++ r) (gather-append g xs ys)
    ∙ sym (append_assoc (g x) (gather g xs) (gather g ys))

unfoldable pub walk_lists : (Mem → ℕ → List ℕ) → ℕ → List ℕ → ℕ × Mem → ℕ × Mem
walk_lists g fuel [] s = s
walk_lists g fuel (f ∷ fs) s = walk_lists g fuel fs (walk g fuel f s)

pub WordsOutside-append :
    (lo hi : ℕ) (xs ys : List ℕ)
    → WordsOutside lo hi (xs ++ ys)
    → WordsOutside lo hi xs × WordsOutside lo hi ys
WordsOutside-append lo hi [] ys h = (tt, h)
WordsOutside-append lo hi (x ∷ xs) ys h =
    let rest = WordsOutside-append lo hi xs ys h.1 in ((h.0, rest.0), rest.1)

module _ (g : Mem → ℕ → List ℕ) (reads : ReadsWord g) (lo hi : ℕ) (mem0 : Mem) where
  pub walk_lists-stores :
      (fuel : ℕ) (fs : List ℕ) (wss : List (List ℕ)) (at : ℕ) (mem : Mem)
      → LinkedAll mem0 fs wss
      → AllShorter wss fuel
      → WordsOutside lo hi (joined wss)
      → SameOutside lo hi mem mem0
      → lo ≤ at
      → at + 8 * length (gather (g mem0) (joined wss)) ≤ hi
      → walk_lists g fuel fs (at, mem) ≡ stores (gather (g mem0) (joined wss)) at mem
  unfolding walk_lists joined gather store_words
  walk_lists-stores fuel [] [] at mem linked enough out same l h = (λ i. (here i, mem))
    where
      here : at ≡ at + 0
      here = omega arith
  walk_lists-stores fuel [] (ws ∷ wss) at mem linked enough out same l h = absurd linked
  walk_lists-stores fuel (f ∷ fs) [] at mem linked enough out same l h = absurd linked
  walk_lists-stores fuel (f ∷ fs) (ws ∷ wss) at mem linked enough out same l h =
      ap (walk_lists g fuel fs) (
        walk-stores g reads lo hi mem0 fuel f at mem ws linked.0 parts.0 same l
          (omega (arith, room)) enough.0)
      ∙ walk_lists-stores fuel fs wss (at + 8 * length (here)) (store_words 8 here at mem) linked.1
          enough.1 parts.1
          (store_words-SameOutside 8 here at lo hi mem mem0 l (omega (arith, room)) same)
          (omega arith) room
      ∙ stores-append here (gather (g mem0) (joined wss)) at mem
      ∙ ap (λ vs. stores vs at mem) (sym (gather-append (g mem0) ws (joined wss)))
    where
      here : List ℕ
      here = gather (g mem0) ws

      parts : WordsOutside lo hi ws × WordsOutside lo hi (joined wss)
      parts = WordsOutside-append lo hi ws (joined wss) out

      room : at + 8 * length here + 8 * length (gather (g mem0) (joined wss)) ≤ hi
      room = omega (arith, length-gather_append (g mem0) ws (joined wss))

pub words-walk :
    (fuel : ℕ) (fs : List ℕ) (s : ℕ × Mem)
    → import_got_words fuel fs s ≡ walk_lists the_word fuel fs s
unfolding import_got_words walk_lists
words-walk fuel [] s = refl
words-walk fuel (f ∷ fs) s =
    ap (import_got_words fuel fs) (import_words-walk fuel f s) ∙ words-walk fuel fs _

pub bodies-walk :
    (fuel : ℕ) (fs : List ℕ) (s : ℕ × Mem)
    → import_got_body fuel fs s ≡ walk_lists the_body fuel fs s
unfolding import_got_body walk_lists
bodies-walk fuel [] s = refl
bodies-walk fuel (f ∷ fs) s =
    ap (import_got_body fuel fs) (import_body-walk fuel f s) ∙ bodies-walk fuel fs _

pub codes-walk :
    (fuel : ℕ) (fs : List ℕ) (s : ℕ × Mem)
    → import_got_exec fuel fs s ≡ walk_lists the_code fuel fs s
unfolding import_got_exec walk_lists
codes-walk fuel [] s = refl
codes-walk fuel (f ∷ fs) s =
    ap (import_got_exec fuel fs) (import_exec-walk fuel f s) ∙ codes-walk fuel fs _

-- The counts over all lists.
pub count_got-length :
    (mem : Mem) (fuel : ℕ) (fs : List ℕ) (wss : List (List ℕ)) (words code : ℕ)
    → LinkedAll mem fs wss
    → AllShorter wss fuel
    → count_got mem fuel fs (words, code)
      ≡ (words + length (joined wss), code + length (gather (the_code mem) (joined wss)))
unfolding count_got joined gather
count_got-length mem fuel [] [] words code linked enough = λ i. (right words i, right code i)
  where
    right : (n : ℕ) → n ≡ n + 0
    right n = omega arith
count_got-length mem fuel [] (ws ∷ wss) words code linked enough = absurd linked
count_got-length mem fuel (f ∷ fs) [] words code linked enough = absurd linked
count_got-length mem fuel (f ∷ fs) (ws ∷ wss) words code linked enough =
    ap (count_got mem fuel fs) (count_words_of-length mem fuel f words code ws linked.0 enough.0)
    ∙ count_got-length mem fuel fs wss (words + length ws)
        (code + length (gather (the_code mem) ws)) linked.1 enough.1
    ∙ (λ i. (all_words i, all_code i))
  where
    all_words : words + length ws + length (joined wss) ≡ words + length (ws ++ joined wss)
    all_words = omega (arith, length-append ws (joined wss))

    all_code :
        code + length (gather (the_code mem) ws) + length (gather (the_code mem) (joined wss))
        ≡ code + length (gather (the_code mem) (ws ++ joined wss))
    all_code = omega (arith, length-gather_append (the_code mem) ws (joined wss))

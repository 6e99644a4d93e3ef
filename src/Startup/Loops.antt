-- ===== src/Startup/Loops.antt =====
-- The loops of main.c and plt.c that count the words and fill the table are walks.
use smolforth.Base.{
  ℕ, zero, suc, ◌+◌, ◌-◌, ◌*◌, ◌<◌, ◌≡◌, ◌≢◌, refl, ◌∙◌, ap, arith, List, [], ◌∷◌, ◌++◌, length,
  if◌then◌else◌, ◌==◌, Bool, true, false, not, bit_and,
}
use smolforth.Memory.{Mem, get_byte, load, store}
use smolforth.Compiler.{store_words}
use smolforth.Dictionary.{to_body}
use smolforth.Dictionary.Search.{Linked, count}
use smolforth.RiscV.Compile.{has_code, count_words_of, import_words, import_body, import_exec}
use smolforth.Startup.{fill_words, fill_bodies}
use smolforth.Startup.Stored.{load-SameOutside}
use smolforth.Startup.Walk.{ReadsWord, gather, walk, rounds}

abbrev pub the_word : Mem → ℕ → List ℕ
the_word mem w = w ∷ []

abbrev pub the_body : Mem → ℕ → List ℕ
the_body mem w = to_body mem w ∷ []

abbrev pub the_code : Mem → ℕ → List ℕ
the_code mem w = if has_code mem w then load 8 mem (w + 8) ∷ [] else []

pub the_word-ReadsWord : ReadsWord the_word
the_word-ReadsWord lo hi mem mem' w same out = refl

-- The cell in front of the body, behind the optional ones.
body_cell : Bool → Bool → Bool → ℕ → ℕ
body_cell exec runtime extended w =
    let r1 = if exec then w + 8 + 8 else (if runtime then w + 8 + 8 else w + 8) in
    if extended then r1 + 8 else r1

body_cell_bounds :
    (exec runtime extended : Bool) (w : ℕ)
    → (w < body_cell exec runtime extended w) × (body_cell exec runtime extended w < w + 25)
unfolding body_cell
body_cell_bounds exec runtime extended w = ground arith

pub the_body-ReadsWord : ReadsWord the_body
unfolding to_body body_cell
the_body-ReadsWord lo hi mem mem' w same out = rw (same (w - 1) (omega arith)) (
    ap (λ v. (if not (flag 64) then v else cell) ∷ [])
      (load-SameOutside lo hi mem mem' cell same
        (omega (arith, body_cell_bounds (not (flag 16)) (not (flag 32)) (not (flag 128)) w))))
  where
    flag : ℕ → Bool
    flag mask = bit_and (get_byte mem' (w - 1)) mask == 0

    cell : ℕ
    cell = body_cell (not (flag 16)) (not (flag 32)) (not (flag 128)) w

pub the_code-ReadsWord : ReadsWord the_code
unfolding has_code
the_code-ReadsWord lo hi mem mem' w same out =
    rw (same (w - 1) (omega arith), load-SameOutside lo hi mem mem' (w + 8) same (omega arith)) refl

pub import_words-walk : (fuel f : ℕ) (s : ℕ × Mem) → import_words fuel f s ≡ walk the_word fuel f s
unfolding import_words walk store_words
import_words-walk zero f s = refl
import_words-walk (suc fuel) f (at, mem) = rw (import_words-walk fuel) refl

pub import_body-walk : (fuel f : ℕ) (s : ℕ × Mem) → import_body fuel f s ≡ walk the_body fuel f s
unfolding import_body walk store_words
import_body-walk zero f s = refl
import_body-walk (suc fuel) f (at, mem) = rw (import_body-walk fuel) refl

pub import_exec-walk : (fuel f : ℕ) (s : ℕ × Mem) → import_exec fuel f s ≡ walk the_code fuel f s
unfolding import_exec walk store_words
import_exec-walk zero f s = refl
import_exec-walk (suc fuel) f (at, mem) =
    ap (λ s. if f == 0 then (at, mem) else s)
      (import_exec-walk fuel (load 8 (next (has_code mem f)).1 f) (next (has_code mem f))
        ∙ one (has_code mem f))
  where
    next : Bool → ℕ × Mem
    next b = if b then (at + 8, store 8 mem at (load 8 mem (f + 8))) else (at, mem)

    cells : Bool → List ℕ
    cells b = if b then load 8 mem (f + 8) ∷ [] else []

    here : at ≡ at + 0
    here = omega arith

    one :
        (b : Bool)
        → walk the_code fuel (load 8 (next b).1 f) (next b)
          ≡ walk the_code fuel
              (load 8 (store_words 8 (cells b) at mem) f)
              (at + 8 * length (cells b), store_words 8 (cells b) at mem)
    one true = refl
    one false = ap (λ p. walk the_code fuel (load 8 mem f) (p, mem)) here

pub fill_words-rounds :
    (n at f : ℕ) (mem : Mem) → fill_words n at f mem ≡ rounds the_word n at f mem
unfolding fill_words rounds store_words
fill_words-rounds zero at f mem = refl
fill_words-rounds (suc n) at f mem = fill_words-rounds n _ _ _

pub fill_bodies-rounds :
    (n at f : ℕ) (mem : Mem) → fill_bodies n at f mem ≡ rounds the_body n at f mem
unfolding fill_bodies rounds store_words
fill_bodies-rounds zero at f mem = refl
fill_bodies-rounds (suc n) at f mem = fill_bodies-rounds n _ _ _

-- The counting loop adds the number of words and of words with code.
pub count_words_of-length :
    (mem : Mem) (fuel f words code : ℕ) (ws : List ℕ)
    → Linked mem f ws
    → count ws < fuel
    → count_words_of mem fuel f (words, code)
      ≡ (words + length ws, code + length (gather (the_code mem) ws))
unfolding count_words_of gather count
count_words_of-length mem zero f words code ws linked enough = absurd (omega arith)
count_words_of-length mem (suc fuel) f words code [] linked enough =
    rw linked (λ i. (right words i, right code i))
  where
    right : (n : ℕ) → n ≡ n + 0
    right n = omega arith
count_words_of-length mem (suc fuel) f words code (x ∷ xs) linked enough =
    ap (λ a. count_words_of mem (suc fuel) a (words, code)) linked.0
    ∙ not_last x (words, code) _ linked.1
    ∙ count_words_of-length mem fuel (load 8 mem x) (words + 1)
        (if has_code mem x then code + 1 else code) xs linked.2 (omega arith)
    ∙ (λ i. (one_more i, coded (has_code mem x) i))
  where
    not_last : (x : ℕ) (p q : ℕ × ℕ) → x ≢ 0 → (if x == 0 then p else q) ≡ q
    not_last x p q h = ground arith

    one_more : words + 1 + length xs ≡ words + suc (length xs)
    one_more = omega arith

    coded :
        (b : Bool)
        → (if b then code + 1 else code) + length (gather (the_code mem) xs)
          ≡ code + length ((if b then load 8 mem (x + 8) ∷ [] else []) ++ gather (the_code mem) xs)
    coded true = omega arith
    coded false = refl

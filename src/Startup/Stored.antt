-- ===== src/Startup/Stored.antt =====
-- Cells stored one after the other by `store_words`: what they hold, and what they leave alone.
use smolforth.Base.{
  ℕ, zero, suc, ◌+◌, ◌*◌, ◌^◌, ◌≤◌, ◌<◌, ◌≡◌, ◌⊎◌, inl, refl, ◌∙◌, ap, arith, List, [], ◌∷◌, ◌++◌,
  some, get_elem?, length,
}
use smolforth.Memory.{Mem, get_byte, load, store, get_byte-store, load-store, load_ext}
use smolforth.Compiler.{store_words, count_words}

abbrev pub Outside : ℕ → ℕ → ℕ → Type 0
Outside lo hi x = (x < lo) ⊎ (hi ≤ x)

-- The bytes outside an area are the same in both memories.
abbrev pub SameOutside : ℕ → ℕ → Mem → Mem → Type 0
SameOutside lo hi mem mem' = (x : ℕ) → Outside lo hi x → get_byte mem x ≡ get_byte mem' x

pub length-count_words : (ws : List ℕ) → count_words ws ≡ length ws
unfolding count_words
length-count_words [] = refl
length-count_words (w ∷ ws) = omega (arith, length-count_words ws)

pub get_byte-store_words :
    (n : ℕ) (ws : List ℕ) (p : ℕ) (mem : Mem)
    → SameOutside p (p + n * length ws) (store_words n ws p mem) mem
unfolding store_words
get_byte-store_words n [] p mem x h = refl
get_byte-store_words n (w ∷ ws) p mem x h =
    get_byte-store_words n ws (p + n) (store n mem p w) x (omega arith)
    ∙ get_byte-store n mem p w x (omega arith)

-- Cells stored inside an area change nothing outside it.
pub store_words-SameOutside :
    (n : ℕ) (ws : List ℕ) (p lo hi : ℕ) (mem mem' : Mem)
    → lo ≤ p
    → p + n * length ws ≤ hi
    → SameOutside lo hi mem mem'
    → SameOutside lo hi (store_words n ws p mem) mem'
store_words-SameOutside n ws p lo hi mem mem' l h same x o =
    get_byte-store_words n ws p mem x (omega arith) ∙ same x o

pub load-SameOutside :
    (lo hi : ℕ) (mem mem' : Mem) (a : ℕ)
    → SameOutside lo hi mem mem'
    → (a + 8 ≤ lo) ⊎ (hi ≤ a)
    → load 8 mem a ≡ load 8 mem' a
load-SameOutside lo hi mem mem' a same o = load_ext 8 mem mem' a (λ x l h. same x (omega arith))

pub store_words-append :
    (n : ℕ) (xs ys : List ℕ) (p : ℕ) (mem : Mem)
    → store_words n (xs ++ ys) p mem ≡ store_words n ys (p + n * length xs) (store_words n xs p mem)
unfolding store_words
store_words-append n [] ys p mem = ap (λ q. store_words n ys q mem) (omega arith)
store_words-append n (x ∷ xs) ys p mem =
    store_words-append n xs ys (p + n) (store n mem p x)
    ∙ ap (λ q. store_words n ys q (store_words n xs (p + n) (store n mem p x))) (omega arith)

abbrev pub AreCells : List ℕ → Type 0
AreCells [] = Unit
AreCells (x ∷ xs) = (x < 2 ^ 64) × AreCells xs

-- Every cell can be loaded back.
pub load-store_words :
    (vs : List ℕ) (p : ℕ) (mem : Mem) (i v : ℕ)
    → AreCells vs
    → get_elem? vs i ≡ some v
    → load 8 (store_words 8 vs p mem) (p + 8 * i) ≡ v
unfolding store_words
load-store_words [] p mem i v h e = cc
load-store_words (x ∷ xs) p mem zero v h e =
    ap (load 8 (store_words 8 xs (p + 8) (store 8 mem p x))) at_first
    ∙ load_ext 8 (store_words 8 xs (p + 8) (store 8 mem p x)) (store 8 mem p x) p
        (λ y l u. get_byte-store_words 8 xs (p + 8) (store 8 mem p x) y (inl (omega arith)))
    ∙ load-store 8 mem p x (omega (arith, h.0))
    ∙ same_cell
  where
    at_first : p + 8 * zero ≡ p
    at_first = omega arith

    same_cell : x ≡ v
    same_cell = cc
load-store_words (x ∷ xs) p mem (suc i) v h e =
    ap (load 8 (store_words 8 xs (p + 8) (store 8 mem p x))) along
    ∙ load-store_words xs (p + 8) (store 8 mem p x) i v h.1 e
  where
    along : p + 8 * suc i ≡ p + 8 + 8 * i
    along = omega arith

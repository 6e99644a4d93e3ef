-- ===== src/Dictionary/Head.antt =====
-- The head that make_word writes is what FIND reads.
use smolforth.Base.{ℕ, zero, suc, ◌+◌, ◌-◌, ◌%◌, ◌≤◌, ◌<◌, ◌≡◌, ◌≢◌, ◌⊎◌, refl, arith}
use smolforth.Base.{if◌then◌else◌, ◌==◌, true, Bool, ◌&&◌, ◌∙◌, ap}
use smolforth.Memory.{Mem, get_byte, set_byte}
use smolforth.Dictionary

pub set_copied :
    (mem : Mem) (a b : ℕ) → get_byte (set_byte mem a (get_byte mem b)) a ≡ get_byte mem b
unfolding set_byte get_byte
set_copied mem a b = ground arith

pub set_same : (mem : Mem) (a v : ℕ) → get_byte (set_byte mem a v) a ≡ v % 256
unfolding set_byte get_byte
set_same mem a v = ground arith

pub set_other : (mem : Mem) (a v x : ℕ) → x ≢ a → get_byte (set_byte mem a v) x ≡ get_byte mem x
unfolding set_byte get_byte
set_other mem a v x h = ground arith

pub at : (mem : Mem) (x y : ℕ) → x ≡ y → get_byte mem x ≡ get_byte mem y
at mem x y e = ap (get_byte mem) e

pub copy_bytes_out :
    (to from n : ℕ) (mem : Mem) (x : ℕ)
    → (x < to) ⊎ (to + n ≤ x)
    → get_byte (Dictionary.copy_bytes to from n mem) x ≡ get_byte mem x
unfolding Dictionary.copy_bytes
copy_bytes_out to from zero mem x h = refl
copy_bytes_out to from (suc n) mem x h =
    copy_bytes_out (to + 1) (from + 1) n (set_byte mem to (get_byte mem from)) x (omega arith)
    ∙ set_other mem to (get_byte mem from) x (λ e. omega arith)

pub copy_bytes_in :
    (to from n : ℕ) (mem : Mem) (i : ℕ)
    → i < n
    → (from + n ≤ to) ⊎ (to + n ≤ from)
    → get_byte (Dictionary.copy_bytes to from n mem) (to + i) ≡ get_byte mem (from + i)
unfolding Dictionary.copy_bytes
copy_bytes_in to from zero mem i h apart = absurd (omega arith)
copy_bytes_in to from (suc n) mem zero h apart =
    let m1 = set_byte mem to (get_byte mem from) in
    copy_bytes_out (to + 1) (from + 1) n m1 (to + 0) (omega arith)
    ∙ at m1 (to + 0) to (omega arith)
    ∙ set_copied mem to from
    ∙ at mem from (from + 0) (omega arith)
copy_bytes_in to from (suc n) mem (suc i) h apart =
    let m1 = set_byte mem to (get_byte mem from) in
    at (Dictionary.copy_bytes (to + 1) (from + 1) n m1) (to + suc i) (to + 1 + i) (omega arith)
    ∙ copy_bytes_in (to + 1) (from + 1) n m1 i (omega arith) (omega arith)
    ∙ set_other mem to (get_byte mem from) (from + 1 + i) (λ e. omega arith)
    ∙ at mem (from + 1 + i) (from + suc i) (omega arith)

-- The length of a name of `l` bytes that ends at `n`, with a null byte below it.
pub name_length_counts :
    (mem : Mem) (l n : ℕ)
    → l < n
    → ((i : ℕ) → i < l → get_byte mem (n - i) ≢ 0)
    → get_byte mem (n - l) ≡ 0
    → Dictionary.name_length mem n ≡ l
unfolding Dictionary.name_length
name_length_counts mem l zero h bytes end = absurd (omega arith)
name_length_counts mem zero (suc n) h bytes end = ground (arith, at mem (suc n - 0) (suc n))
name_length_counts mem (suc l) (suc n) h bytes end =
    let rest =
      name_length_counts mem l n (omega arith)
        (λ i lt e. bytes (suc i) (omega arith) (at mem (suc n - suc i) (n - i) (omega arith) ∙ e))
        (at mem (n - l) (suc n - suc l) (omega arith) ∙ end) in
    test_false (get_byte mem (suc n)) _ _
      (λ e. bytes 0 (omega arith) (at mem (suc n - 0) (suc n) (omega arith) ∙ e))
    ∙ omega arith
  where
    test_false : (b x y : ℕ) → b ≢ 0 → (if b == 0 then x else y) ≡ y
    test_false b x y h = ground arith

pub skip_ones_none : (mem : Mem) (n : ℕ) → get_byte mem n ≢ 1 → Dictionary.skip_ones mem n ≡ n
unfolding Dictionary.skip_ones
skip_ones_none mem zero h = refl
skip_ones_none mem (suc n) h = test_false (get_byte mem (suc n)) _ _ h
  where
    test_false : (b x y : ℕ) → b ≢ 1 → (if b == 1 then x else y) ≡ y
    test_false b x y h = ground arith

pub same_bytes_all :
    (mem : Mem) (a b n : ℕ)
    → ((i : ℕ) → i < n → get_byte mem (a + i) ≡ get_byte mem (b + i))
    → Dictionary.same_bytes mem a b n ≡ true
unfolding Dictionary.same_bytes
same_bytes_all mem a b zero h = refl
same_bytes_all mem a b (suc n) h =
    both _ _ (at mem a (a + 0) (omega arith) ∙ h 0 (omega arith) ∙ at mem (b + 0) b (omega arith)) (
      same_bytes_all mem (a + 1) (b + 1) n (λ i lt.
        at mem (a + 1 + i) (a + suc i) (omega arith)
        ∙ h (suc i) (omega arith)
        ∙ at mem (b + suc i) (b + 1 + i) (omega arith)))
  where
    both : {q : Bool} (x y : ℕ) → x ≡ y → q ≡ true → (x == y) && q ≡ true
    both x y e f = ground arith

-- ===== src/Reloc/Texts.antt =====
-- Strings of reloc/obj.cpp: their order, numbers as text, and results that may be missing.
use smolforth.Base.{
  ℕ, ◌≡◌, ◌↔◌, refl, arith, Bool, true, false, if◌then◌else◌, ltb, ◌==◌, ◌&&◌, ◌||◌, not,
}
use smolforth.Base.{Option, none, some, List, [], ◌∷◌}

-- A failed assert, an exception that nothing catches, and the top of an empty stack are `none`.
infixl 5 ◌>>=◌ ◌>>◌
abbrev pub ◌>>=◌ {ℓ κ} : {A : Type ℓ} {B : Type κ} → Option A → (A → Option B) → Option B
none >>= f = none
some a >>= f = f a

abbrev pub ◌>>◌ {ℓ} : {B : Type ℓ} → Option (Unit {0}) → Option B → Option B
m >> k = m >>= λ _. k

abbrev pub assert : Bool → Option (Unit {0})
assert b = if b then some tt else none

-- `operator<` of `std::string`.
unfoldable pub less_text : List ℕ → List ℕ → Bool
less_text [] [] = false
less_text [] (y ∷ ys) = true
less_text (x ∷ xs) [] = false
less_text (x ∷ xs) (y ∷ ys) = ltb x y || ((x == y) && less_text xs ys)

-- A key of a `std::map`: two keys are the same when neither is less.
abbrev pub neither {ℓ} : {K : Type ℓ} → (K → K → Bool) → K → K → Bool
neither less a b = not (less a b) && not (less b a)

pub record Key {ℓ} (K : Type ℓ) : Type ℓ where
  pub less : K → K → Bool
  pub same_iff : (a b : K) → (neither less a b ≡ true) ↔ (a ≡ b)

pub neither_text-eq : (xs ys : List ℕ) → neither less_text xs ys ≡ true → xs ≡ ys
unfolding less_text
neither_text-eq [] [] h = refl
neither_text-eq [] (y ∷ ys) h = cc
neither_text-eq (x ∷ xs) [] h = cc
neither_text-eq (x ∷ xs) (y ∷ ys) h =
    let both : (x ≡ y) × (neither less_text xs ys ≡ true) = ground arith in
    rw (both.0, neither_text-eq xs ys both.1) refl

pub less_text_refl : (xs : List ℕ) → less_text xs xs ≡ false
unfolding less_text
less_text_refl [] = refl
less_text_refl (x ∷ xs) = let ih = less_text_refl xs in ground arith

instance abbrev pub text_key : Key (List ℕ)
text_key = record {
  less = less_text;
  same_iff = λ a b. (neither_text-eq a b, λ e. rw (e, less_text_refl b) refl);
}

pub neither_number : (a b : ℕ) → (neither ltb a b ≡ true) ↔ (a ≡ b)
neither_number a b = ground arith

instance abbrev pub number_key : Key ℕ
number_key = record { less = ltb; same_iff = neither_number }

unfoldable pub less_pair : List ℕ × ℕ → List ℕ × ℕ → Bool
unfolding less_text
less_pair p q = less_text p.0 q.0 || (not (less_text q.0 p.0) && ltb p.1 q.1)

pub neither_pair : (p q : List ℕ × ℕ) → (neither less_pair p q ≡ true) ↔ (p ≡ q)
unfolding less_pair
neither_pair p q = (equal, λ e. rw e reflexive)
  where
    equal : neither less_pair p q ≡ true → p ≡ q
    equal h =
        let parts : (neither less_text p.0 q.0 ≡ true) × (p.1 ≡ q.1) = ground arith in
        let e = neither_text-eq p.0 q.0 parts.0 in cc

    reflexive : neither less_pair q q ≡ true
    reflexive = let r = less_text_refl q.0 in ground arith

instance abbrev pub pair_key : Key (List ℕ × ℕ)
pair_key = record { less = less_pair; same_iff = neither_pair }

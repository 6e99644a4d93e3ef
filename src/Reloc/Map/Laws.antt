-- ===== src/Reloc/Map/Laws.antt =====
-- What an assignment to a map changes.
use smolforth.Base.{
  ◌≡◌, ◌≢◌, ◌⊎◌, refl, sym, true, false, some, List, [], ◌∷◌, Bool-cases, inl, inr, ◌∙◌,
}
use smolforth.Reloc.Texts.{Key}
use smolforth.Reloc.Map

module _ {K : Type 0} ⦃key : Key K⦄ where
  pub same_refl : (a : K) → Map.same a a ≡ true
  same_refl a = (key.same_iff a a).1 refl

  pub same_ne : (a b : K) → a ≢ b → Map.same a b ≡ false
  same_ne a b n = elim (Bool-cases (Map.same a b)) [
    | inl s ↦ absurd (n ((key.same_iff a b).0 s))
    | inr d ↦ d
  ]

  -- Where a key goes: before another, after it, or in its place.
  pub order_cases :
      (a b : K)
      → (key.less a b ≡ true)
        ⊎ (((key.less a b ≡ false) × (key.less b a ≡ true) × (Map.same a b ≡ false))
            ⊎ ((key.less a b ≡ false) × (key.less b a ≡ false) × (a ≡ b)))
  order_cases a b = elim (Bool-cases (key.less a b)) [
    | inl l ↦ inl l
    | inr n ↦ elim (Bool-cases (key.less b a)) [
      | inl g ↦ inr (inl (n, g, (rw (n, g) refl)))
      | inr m ↦ inr (inr (n, m, (key.same_iff a b).0 (rw (n, m) refl)))
    ]
  ]

module _ {K V : Type 0} ⦃key : Key K⦄ where
  pub at-assign : (k : K) (v : V) (m : List (K × V)) → Map.at k (Map.assign k v m) ≡ some v
  unfolding Map.at Map.assign
  at-assign k v [] = rw (same_refl k) refl
  at-assign k v (e ∷ m) = elim (order_cases k e.0) [
    | inl l ↦ rw (l, same_refl k) refl
    | inr (inl g) ↦ rw (g.0, g.1, g.2) (at-assign k v m)
    | inr (inr s) ↦ rw (s.0, s.1, (key.same_iff k e.0).1 s.2) refl
  ]

  pub at-assign_other :
      (k j : K) (v : V) (m : List (K × V)) → j ≢ k → Map.at j (Map.assign k v m) ≡ Map.at j m
  unfolding Map.at Map.assign
  at-assign_other k j v [] n = rw (same_ne j k n) refl
  at-assign_other k j v (e ∷ m) n = elim (order_cases k e.0) [
    | inl l ↦ rw (l, same_ne j k n) refl
    | inr (inl g) ↦ rw (g.0, g.1, at-assign_other k j v m n) refl
    | inr (inr s) ↦ rw (s.0, s.1, same_ne j e.0 (λ x. n (x ∙ sym s.2))) refl
  ]

-- ===== src/Reloc/Recorded.antt =====
-- What `add_relocation` of reloc/obj.cpp records, and when its assert fails.
use smolforth.Base.{
  ℕ, ◌≡◌, ◌≢◌, ◌⊎◌, inl, inr, refl, sym, arith, ap, Bool, true, false, Option, none, some,
}
use smolforth.Base.{◌∙◌, same_text, same_text-eq, same_text_refl}
use smolforth.Reloc.Texts.{number_key, ◌>>=◌, assert}
use smolforth.Reloc.Map.{at}
use smolforth.Reloc.Map.Laws.{at-assign, at-assign_other}
use smolforth.Reloc.Tables
use smolforth.Reloc.Tables.{Name, Relocation, add_relocation}

same_relocation-eq : (r s : Relocation) → Tables.same_relocation r s ≡ true → r ≡ s
unfolding Tables.same_relocation
same_relocation-eq r s h =
    let b : (same_text r.name s.name ≡ true)
        × (r.addend ≡ s.addend)
        × (r.type ≡ s.type)
        × (r.word_list ≡ s.word_list)
        × (r.local_ ≡ s.local_) =
      ground arith in
    let n = same_text-eq r.name s.name b.0 in cc

same_relocation_refl : (r : Relocation) → Tables.same_relocation r r ≡ true
unfolding Tables.same_relocation
same_relocation_refl r = let n = same_text_refl r.name in ground arith

-- The outcome of recording `new` at `from`.
abbrev pub Recorded : ℕ → Relocation → Tables.Tables → Option Tables.Tables → Type 0
Recorded from new t none = (old : Relocation) × (at from t.relocations ≡ some old) × (old ≢ new)
Recorded from new t (some t') =
    ((at from t.relocations ≡ none) ⊎ (at from t.relocations ≡ some new))
    × (at from t'.relocations ≡ some new)
    × ((j : ℕ) → j ≢ from → at j t'.relocations ≡ at j t.relocations)
    × (t' ≡ record t { relocations = t'.relocations })

checked-Recorded :
    (old : Option Relocation) (new : Relocation) (from : ℕ) (t : Tables.Tables)
    → at from t.relocations ≡ old
    → Recorded from new t (Tables.checked_relocation old new from t)
unfolding Tables.checked_relocation
checked-Recorded none new from t e = (
  inl e,
  at-assign from new t.relocations,
  (λ j n. at-assign_other from j new t.relocations n),
  refl,
)
checked-Recorded (some old) new from t e = go (Tables.same_relocation old new) refl
  where
    differ : true ≢ false
    differ e = cc

    go :
        (b : Bool)
        → Tables.same_relocation old new ≡ b
        → Recorded from new t (assert b >>= λ _. some t)
    go true s =
        let k = e ∙ ap some (same_relocation-eq old new s) in (inr k, k, (λ j n. refl), refl)
    go false s = (
      old,
      e,
      λ x.
          differ
            (sym (same_relocation_refl new) ∙ ap (λ r. Tables.same_relocation r new) (sym x) ∙ s),
    )

-- Recording a relocation at an address where there is another one fails the assert; in every
-- other case the new one is found there afterwards, and no other entry and no other table changes.
pub add_relocation-Recorded :
    (name : Name) (word_addr addend from type l : ℕ) (t : Tables.Tables)
    → Recorded from
        (record { name = name; addend = addend; type = type; word_list = word_addr; local_ = l })
        t
        (add_relocation name word_addr addend from type l t)
unfolding add_relocation
add_relocation-Recorded name word_addr addend from type l t =
    checked-Recorded (at from t.relocations) _ from t refl

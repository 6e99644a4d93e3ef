-- ===== src/Reloc/Map.antt =====
-- `std::map`, `std::multimap` and `std::set` as lists in the order of their keys.
pub mod Laws
use smolforth.Base.{Bool, if◌then◌else◌, not, ◌&&◌, Option, none, some, List, [], ◌∷◌}
use smolforth.Reloc.Texts.{Key, neither}

abbrev pub same : {K : Type 0} ⦃key : Key K⦄ → K → K → Bool
same ⦃key⦄ = neither key.less

module _ {K V : Type 0} ⦃key : Key K⦄ where
  -- `m.at(k)`, where the key is absent `none`.
  unfoldable pub at : K → List (K × V) → Option V
  at k [] = none
  at k (e ∷ m) = let rest = at k m in if same k e.0 then some e.1 else rest

  -- `m[k] = v`
  unfoldable pub assign : K → V → List (K × V) → List (K × V)
  assign k v [] = (k, v) ∷ []
  assign k v (e ∷ m) =
      let rest = assign k v m in
      if key.less k e.0 then (k, v) ∷ e ∷ m else (if key.less e.0 k then e ∷ rest else (e.0, v) ∷ m)

  -- `m.emplace(k, v)` of a map: a key that is there keeps its value.
  unfoldable pub emplace : K → V → List (K × V) → List (K × V)
  emplace k v [] = (k, v) ∷ []
  emplace k v (e ∷ m) =
      let rest = emplace k v m in
      if key.less k e.0 then (k, v) ∷ e ∷ m else (if key.less e.0 k then e ∷ rest else e ∷ m)

  -- `m.emplace(k, v)` of a multimap: after the entries of the same key.
  unfoldable pub emplace_multi : K → V → List (K × V) → List (K × V)
  emplace_multi k v [] = (k, v) ∷ []
  emplace_multi k v (e ∷ m) =
      let rest = emplace_multi k v m in if key.less k e.0 then (k, v) ∷ e ∷ m else e ∷ rest

  -- `m.erase(k)`
  unfoldable pub erase : K → List (K × V) → List (K × V)
  erase k [] = []
  erase k (e ∷ m) = let rest = erase k m in if same k e.0 then rest else e ∷ rest

  -- The entries from `m.equal_range(k).first` to its second.
  unfoldable pub equal_range : K → List (K × V) → List (K × V)
  equal_range k [] = []
  equal_range k (e ∷ m) = let rest = equal_range k m in if same k e.0 then e ∷ rest else rest

-- `std::erase_if(m, p)`
unfoldable pub erase_if {ℓ} : {A : Type ℓ} → (A → Bool) → List A → List A
erase_if p [] = []
erase_if p (e ∷ m) = let rest = erase_if p m in if p e then rest else e ∷ rest

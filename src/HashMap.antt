-- ===== src/HashMap.antt =====
-- `std::collections::HashMap`: the entries in an iteration order, which the source never relies on.
pub mod Laws
pub mod Oldest
use marlinspike_dpi.Prelude.{
  ◌≡◌, Bool, true, false, Option, none, some, List, [], ◌∷◌, if◌then◌else◌, PartialEq, ◌==◌,
  is_some, keep, ℕ, leb,
}

abbrev pub Map {ℓ κ} : Type ℓ → Type κ → Type (ℓ ⊔ κ)
Map K V = List (K × V)

module _ {ℓ κ} {K : Type ℓ} {V : Type κ} ⦃e : PartialEq K⦄ where
  unfoldable pub lookup : K → Map K V → Option V
  lookup key [] = none
  lookup key ((other, value) ∷ rest) = if other == key then some value else lookup key rest

  unfoldable pub insert : K → V → Map K V → Map K V
  insert key value [] = (key, value) ∷ []
  insert key value ((other, old) ∷ rest) =
      if other == key then (key, value) ∷ rest else (other, old) ∷ insert key value rest

  unfoldable pub remove : K → Map K V → Map K V
  remove k [] = []
  remove k ((j, w) ∷ m) = if j == k then m else (j, w) ∷ remove k m

  abbrev pub contains_key : K → Map K V → Bool
  contains_key k m = is_some (lookup k m)

  -- `m.retain(|_, v| p(v))`
  unfoldable pub retain : (V → Bool) → Map K V → Map K V
  retain p m = keep (λ x. p x.1) m

  -- `m.iter().min_by_key(|(_, v)| f(v))`: of equal ones the first.
  abbrev pub least : (V → ℕ) → K × V → Option (K × V) → K × V
  least f entry none = entry
  least f entry (some next) = if leb (f entry.1) (f next.1) then entry else next

  unfoldable pub min_by_key : (V → ℕ) → Map K V → Option (K × V)
  min_by_key f [] = none
  min_by_key f (entry ∷ rest) = some (least f entry (min_by_key f rest))

  -- The removal of that entry, if there is one.
  abbrev pub remove_entry : Option (K × V) → Map K V → Map K V
  remove_entry none m = m
  remove_entry (some victim) m = remove victim.0 m

  unfoldable pub remove_oldest : (V → ℕ) → Map K V → Map K V
  remove_oldest f m = remove_entry (min_by_key f m) m

  -- No key stands twice.
  abbrev pub Distinct : Map K V → Type (ℓ ⊔ κ)
  Distinct [] = Unit {ℓ ⊔ κ}
  Distinct ((k, v) ∷ m) = (lookup k m ≡ none) × Distinct m

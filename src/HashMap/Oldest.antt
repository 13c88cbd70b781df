-- ===== src/HashMap/Oldest.antt =====
-- The entry with the least stamp: what `min_by_key` returns, and the room its removal makes.
use marlinspike_dpi.Prelude.{
  ℕ, ◌≤◌, ◌≡◌, refl, none, some, [], ◌∷◌, arith, Option-cases, Bool-cases, ◌⊎◌, ◌-◌, ◌==◌, inl, inr,
  PartialEq, length,
}
use marlinspike_dpi.HashMap.{Map, lookup, Distinct, min_by_key, remove_oldest}
use marlinspike_dpi.HashMap.Laws.{length-remove, remove-Distinct, lookup-remove, lookup-remove-none}

module _ {ℓ κ} {K : Type ℓ} {V : Type κ} ⦃e : PartialEq K⦄ where
  pub lookup-min_by_key :
      (f : V → ℕ) (m : Map K V) (k : K) (v : V)
      → Distinct m
      → min_by_key f m ≡ some (k, v)
      → lookup k m ≡ some v
  unfolding lookup min_by_key
  lookup-min_by_key f [] k v d h = ground arith
  lookup-min_by_key f ((i, w) ∷ rest) k v (fresh, d) h = elim (Option-cases (min_by_key f rest)) [
    | inl q ↦ ground (arith, e.equal_iff i k)
    | inr ((j, u), q) ↦ ground (arith, e.equal_iff i k, lookup-min_by_key f rest j u d q)
  ]

  pub min_by_key-none : (f : V → ℕ) (m : Map K V) → min_by_key f m ≡ none → m ≡ []
  unfolding min_by_key
  min_by_key-none f [] h = refl
  min_by_key-none f (x ∷ m) h = ground arith

  pub min_by_key-le :
      (f : V → ℕ) (m : Map K V) (k j : K) (v w : V)
      → min_by_key f m ≡ some (k, v)
      → lookup j m ≡ some w
      → f v ≤ f w
  unfolding lookup min_by_key
  min_by_key-le f [] k j v w h q = ground arith
  min_by_key-le f ((i, u) ∷ rest) k j v w h q = elim (Option-cases (min_by_key f rest)) [
    | inl n ↦ ground (arith, min_by_key-none f rest n, e.equal_iff i j)
    | inr ((x, y), n) ↦ ground (arith, e.equal_iff i j, min_by_key-le f rest x j y w n)
  ]

  pub length-remove_oldest :
      (f : V → ℕ) (m : Map K V) → Distinct m → length (remove_oldest f m) ≡ length m - 1
  unfolding remove_oldest
  length-remove_oldest f m d = elim (Option-cases (min_by_key f m)) [
    | inl n ↦ ground (arith, min_by_key-none f m n)
    | inr ((k, v), q) ↦ ground (arith, length-remove k m v (lookup-min_by_key f m k v d q))
  ]

  pub remove_oldest-Distinct : (f : V → ℕ) (m : Map K V) → Distinct m → Distinct (remove_oldest f m)
  unfolding remove_oldest
  remove_oldest-Distinct f m d = elim (Option-cases (min_by_key f m)) [
    | inl n ↦ ground arith
    | inr ((k, v), q) ↦ ground (arith, remove-Distinct k m d)
  ]

  pub lookup-remove_oldest-none :
      (f : V → ℕ) (k : K) (m : Map K V) → lookup k m ≡ none → lookup k (remove_oldest f m) ≡ none
  unfolding remove_oldest
  lookup-remove_oldest-none f k m h = elim (Option-cases (min_by_key f m)) [
    | inl n ↦ ground arith
    | inr ((j, v), q) ↦ ground (arith, lookup-remove-none j k m h)
  ]

  -- An entry stays, or it was the one with the least stamp.
  pub lookup-remove_oldest :
      (f : V → ℕ) (k : K) (m : Map K V) (v : V)
      → Distinct m
      → lookup k m ≡ some v
      → (lookup k (remove_oldest f m) ≡ some v)
        ⊎ ((lookup k (remove_oldest f m) ≡ none)
            × ((j : K) (w : V) → lookup j m ≡ some w → f v ≤ f w))
  unfolding remove_oldest
  lookup-remove_oldest f k m v d h = elim (Option-cases (min_by_key f m)) [
    | inl n ↦ ground (arith, min_by_key-none f m n)
    | inr ((i, u), q) ↦ elim (Bool-cases (i == k)) [
      | inr other ↦ inl (rw q (ground (arith, lookup-remove i k m d)))
      | inl same ↦ inr (
        (rw q (ground (arith, lookup-remove i k m d))),
        λ j w p.
            ground (
              arith,
              min_by_key-le f m i j u w q p,
              lookup-min_by_key f m i u d q,
              e.equal_iff i k,
            ),
      )
    ]
  ]

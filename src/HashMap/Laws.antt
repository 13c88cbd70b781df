-- ===== src/HashMap/Laws.antt =====
-- The laws by which the other modules use `HashMap`.
use marlinspike_dpi.Prelude.{
  suc, ◌≤◌, ◌≡◌, ◌≢◌, refl, Bool, true, none, some, [], ◌∷◌, arith, if◌then◌else◌, PartialEq, ◌==◌,
  length, filter_option, All,
}
use marlinspike_dpi.HashMap.{Map, lookup, insert, remove, retain, Distinct, contains_key}

module _ {ℓ κ} {K : Type ℓ} {V : Type κ} ⦃e : PartialEq K⦄ where
  pub lookup-insert :
      (key wanted : K) (value : V) (m : Map K V)
      → lookup wanted (insert key value m) ≡ (if key == wanted then some value else lookup wanted m)
  unfolding lookup insert
  lookup-insert key wanted value [] = refl
  lookup-insert key wanted value ((other, old) ∷ rest) = ground (
    arith,
    lookup-insert key wanted value rest,
    e.equal_iff key wanted,
    e.equal_iff other key,
    e.equal_iff other wanted,
  )

  pub lookup-insert_self :
      (key : K) (value : V) (m : Map K V) → lookup key (insert key value m) ≡ some value
  lookup-insert_self key value m =
      ground (arith, lookup-insert key key value m, e.equal_iff key key)

  pub lookup-insert_ne :
      (k j : K) (v : V) (m : Map K V) → k ≢ j → lookup j (insert k v m) ≡ lookup j m
  lookup-insert_ne k j v m h = ground (arith, lookup-insert k j v m, e.equal_iff k j)

  pub lookup-remove :
      (k j : K) (m : Map K V)
      → Distinct m
      → lookup j (remove k m) ≡ (if k == j then none else lookup j m)
  unfolding lookup remove
  lookup-remove k j [] d = ground arith
  lookup-remove k j ((i, w) ∷ m) d =
      ground (arith, e.equal_iff k j, e.equal_iff i k, e.equal_iff i j, lookup-remove k j m d.1)

  lookup-retain-none :
      (p : V → Bool) (k : K) (m : Map K V) → lookup k m ≡ none → lookup k (retain p m) ≡ none
  unfolding lookup retain
  lookup-retain-none p k [] h = refl
  lookup-retain-none p k ((i, w) ∷ m) h = ground (arith, lookup-retain-none p k m)

  -- What is left under a key after `retain` is what stood there, if it passes.
  pub lookup-retain :
      (p : V → Bool) (k : K) (m : Map K V)
      → Distinct m
      → lookup k (retain p m) ≡ filter_option p (lookup k m)
  unfolding lookup retain
  lookup-retain p k [] d = refl
  lookup-retain p k ((i, w) ∷ m) d =
      ground (arith, e.equal_iff i k, lookup-retain p k m d.1, lookup-retain-none p k m)

  pub insert-Distinct : (k : K) (v : V) (m : Map K V) → Distinct m → Distinct (insert k v m)
  unfolding lookup insert
  insert-Distinct k v [] d = ground arith
  insert-Distinct k v ((i, w) ∷ m) d =
      ground
        (arith, e.equal_iff i k, lookup-insert k i v m, e.equal_iff k i, insert-Distinct k v m d.1)

  pub lookup-remove-none :
      (k j : K) (m : Map K V) → lookup j m ≡ none → lookup j (remove k m) ≡ none
  unfolding lookup remove
  lookup-remove-none k j [] h = refl
  lookup-remove-none k j ((i, w) ∷ m) h = ground (arith, lookup-remove-none k j m)

  pub remove-Distinct : (k : K) (m : Map K V) → Distinct m → Distinct (remove k m)
  unfolding lookup remove
  remove-Distinct k [] d = d
  remove-Distinct k ((i, w) ∷ m) d =
      ground (arith, lookup-remove-none k i m, remove-Distinct k m d.1)

  pub retain-Distinct : (p : V → Bool) (m : Map K V) → Distinct m → Distinct (retain p m)
  unfolding lookup retain
  retain-Distinct p [] d = d
  retain-Distinct p ((i, w) ∷ m) d =
      ground (arith, lookup-retain-none p i m, retain-Distinct p m d.1)

  pub length-insert :
      (k : K) (v : V) (m : Map K V)
      → length (insert k v m) ≡ (if contains_key k m then length m else suc (length m))
  unfolding lookup insert
  length-insert k v [] = refl
  length-insert k v ((i, w) ∷ m) = ground (arith, length-insert k v m)

  pub length-remove :
      (k : K) (m : Map K V) (v : V) → lookup k m ≡ some v → suc (length (remove k m)) ≡ length m
  unfolding lookup remove
  length-remove k [] v h = ground arith
  length-remove k ((i, w) ∷ m) v h = ground (arith, length-remove k m v)

  pub remove_absent : (k : K) (m : Map K V) → lookup k m ≡ none → remove k m ≡ m
  unfolding lookup remove
  remove_absent k [] h = refl
  remove_absent k ((i, w) ∷ m) h = ground (arith, remove_absent k m)

  pub length-remove-le : (k : K) (m : Map K V) → length (remove k m) ≤ length m
  unfolding remove
  length-remove-le k [] = ground arith
  length-remove-le k ((i, w) ∷ m) = ground (arith, length-remove-le k m)

  pub length-retain-le : (p : V → Bool) (m : Map K V) → length (retain p m) ≤ length m
  unfolding retain
  length-retain-le p [] = ground arith
  length-retain-le p ((i, w) ∷ m) = ground (arith, length-retain-le p m)

module _ {ℓ κ} {K : Type ℓ} {V : Type κ} ⦃e : PartialEq K⦄ where
  -- A property of every value.
  abbrev pub Values {μ} : (V → Type μ) → Map K V → Type μ
  Values P m = All (λ x. P x.1) m

  pub Values-lookup {μ} :
      (P : V → Type μ) (k : K) (m : Map K V) {v : V} → Values P m → lookup k m ≡ some v → P v
  unfolding lookup
  Values-lookup P k [] h q = ground arith
  Values-lookup P k ((i, w) ∷ m) {v} (hw, hs) q = ground (arith, Values-lookup P k m {v = v} hs)

  pub Values-insert {μ} :
      (P : V → Type μ) (k : K) (v : V) (m : Map K V) → Values P m → P v → Values P (insert k v m)
  unfolding insert
  Values-insert P k v [] h q = ground arith
  Values-insert P k v ((i, w) ∷ m) (hw, hs) q = ground (arith, Values-insert P k v m hs q)

  pub retain_all : (p : V → Bool) (m : Map K V) → Values (λ v. p v ≡ true) m → retain p m ≡ m
  unfolding retain
  retain_all p [] h = refl
  retain_all p ((i, w) ∷ m) (hw, hs) = ground (arith, retain_all p m hs)

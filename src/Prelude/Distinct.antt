-- ===== src/Prelude/Distinct.antt =====
-- Collecting the distinct elements of a list, in order of appearance.
use mathlib.Core.Path.{◌≡◌, refl}
use mathlib.Core.Logic.{inl, inr}
use mathlib.Core.Bool.{Bool, true, false, ◌||◌}
use mathlib.Core.List.{List, [], ◌∷◌, ◌++◌}
use native.Mathlib.Omega.{arith}
use marlinspike_dpi.Prelude.Tests.{if◌then◌else◌, Bool-cases}
use marlinspike_dpi.Prelude.Lists.{any}
use marlinspike_dpi.Prelude.Equality.{PartialEq, ◌==◌}

module _ {ℓ} {A : Type ℓ} ⦃e : PartialEq A⦄ where
  -- The element stands in the list: `xs.contains(&a)`.
  abbrev pub has : A → List A → Bool
  has a xs = any (λ x. x == a) xs

  -- No element stands twice.
  abbrev pub NoRepeat : List A → Type 0
  NoRepeat [] = Unit {0}
  NoRepeat (x ∷ xs) = (has x xs ≡ false) × NoRepeat xs

  pub has-snoc : (a b : A) (xs : List A) → has a (xs ++ (b ∷ [])) ≡ (has a xs || b == a)
  has-snoc a b [] = ground arith
  has-snoc a b (x ∷ xs) = ground (arith, has-snoc a b xs)

  NoRepeat-snoc : (a : A) (xs : List A) → NoRepeat xs → has a xs ≡ false → NoRepeat (xs ++ (a ∷ []))
  NoRepeat-snoc a [] h n = (refl, tt)
  NoRepeat-snoc a (x ∷ xs) (hx, hs) n = (
    ground (arith, has-snoc x a xs, e.equal_iff x a, e.equal_iff a x),
    NoRepeat-snoc a xs hs (ground arith),
  )

  -- The loop `if !seen.contains(&x) { seen.push(x) }`.
  abbrev pub collect : List A → List A → List A
  collect [] seen = seen
  collect (x ∷ xs) seen = collect xs (if has x seen then seen else seen ++ (x ∷ []))

  pub collect-NoRepeat : (xs seen : List A) → NoRepeat seen → NoRepeat (collect xs seen)
  collect-NoRepeat [] seen h = h
  collect-NoRepeat (x ∷ xs) seen h = elim (Bool-cases (has x seen)) [
    | inl q ↦ rw q (collect-NoRepeat xs seen h)
    | inr q ↦ rw q (collect-NoRepeat xs (seen ++ (x ∷ [])) (NoRepeat-snoc x seen h q))
  ]

  has_eq : (a b : A) (xs : List A) → (b == a) ≡ true → has b xs ≡ has a xs
  has_eq a b xs h = rw ((e.equal_iff b a).0 h)

  pub has-collect : (a : A) (xs seen : List A) → has a (collect xs seen) ≡ (has a seen || has a xs)
  has-collect a [] seen = ground arith
  has-collect a (x ∷ xs) seen = elim (Bool-cases (has x seen)) [
    | inl q ↦ rw q (ground (arith, has-collect a xs seen, has_eq a x seen))
    | inr q ↦ rw q (ground (arith, has-collect a xs (seen ++ (x ∷ [])), has-snoc a x seen))
  ]

-- ===== src/Prelude/Equality.antt =====
-- `PartialEq` of the source: a Boolean equality that decides the path, as an instance.
use Prim.Native.Nat.{ℕ}
use mathlib.Core.Path.{◌≡◌, refl}
use mathlib.Core.Logic.{◌↔◌, ◌≢◌}
use mathlib.Core.Bool.{Bool, true, false, ◌&&◌}
use mathlib.Core.List.{List, [], ◌∷◌}
use mathlib.Core.Option.{Option, none, some}
use native.Mathlib.Omega.{arith}
use marlinspike_dpi.Prelude.Tests.{eqb, eqb_iff}

pub record PartialEq {ℓ} (A : Type ℓ) : Type ℓ where
  pub equal : A → A → Bool
  pub equal_iff : (a b : A) → (equal a b ≡ true) ↔ (a ≡ b)

infix 50 ◌==◌
abbrev pub ◌==◌ {ℓ} : {A : Type ℓ} ⦃e : PartialEq A⦄ → A → A → Bool
◌==◌ ⦃e⦄ = e.equal

module _ {ℓ} {A : Type ℓ} ⦃e : PartialEq A⦄ where
  pub ==_refl : (a : A) → (a == a) ≡ true
  ==_refl a = (e.equal_iff a a).1 refl

  pub ==→eq : (a b : A) → (a == b) ≡ true → a ≡ b
  ==→eq a b = (e.equal_iff a b).0

  pub ne→== : (a b : A) → a ≢ b → (a == b) ≡ false
  ne→== a b h = ground (arith, e.equal_iff a b)

  abbrev pub list_equal : List A → List A → Bool
  list_equal [] [] = true
  list_equal [] (y ∷ ys) = false
  list_equal (x ∷ xs) [] = false
  list_equal (x ∷ xs) (y ∷ ys) = x == y && list_equal xs ys

  pub list_equal_iff : (xs ys : List A) → (list_equal xs ys ≡ true) ↔ (xs ≡ ys)
  list_equal_iff [] [] = ground arith
  list_equal_iff [] (y ∷ ys) = ground arith
  list_equal_iff (x ∷ xs) [] = ground arith
  list_equal_iff (x ∷ xs) (y ∷ ys) = ground (arith, e.equal_iff x y, list_equal_iff xs ys)

  instance abbrev pub list_eq : PartialEq (List A)
  list_eq = record { equal = list_equal; equal_iff = list_equal_iff }

  abbrev pub option_equal : Option A → Option A → Bool
  option_equal none none = true
  option_equal none (some y) = false
  option_equal (some x) none = false
  option_equal (some x) (some y) = x == y

  pub option_equal_iff : (x y : Option A) → (option_equal x y ≡ true) ↔ (x ≡ y)
  option_equal_iff none none = ground arith
  option_equal_iff none (some y) = ground arith
  option_equal_iff (some x) none = ground arith
  option_equal_iff (some x) (some y) = ground (arith, e.equal_iff x y)

  instance abbrev pub option_eq : PartialEq (Option A)
  option_eq = record { equal = option_equal; equal_iff = option_equal_iff }

instance abbrev pub nat_eq : PartialEq ℕ
nat_eq = record { equal = eqb; equal_iff = eqb_iff }

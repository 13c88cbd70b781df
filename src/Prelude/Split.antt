-- ===== src/Prelude/Split.antt =====
-- `str::split` on one byte.
use Prim.Native.Nat.{ℕ}
use mathlib.Core.Path.{◌≡◌, refl, ap, ◌∙◌}
use mathlib.Core.Logic.{inl, inr}
use mathlib.Core.Bool.{Bool, true, false, not, ◌&&◌}
use mathlib.Core.List.{List, [], ◌∷◌, ◌++◌, append_assoc, append-nil}
use native.Mathlib.Omega.{arith}
use marlinspike_dpi.Prelude.Tests.{eqb, Bool-cases}
use marlinspike_dpi.Prelude.Lists.{any}
use marlinspike_dpi.Prelude.Text.{Text}

-- The pieces of a text whose first piece has begun with `piece`.
unfoldable pub split_from : ℕ → Text → Text → List Text
split_from sep piece [] = piece ∷ []
split_from sep piece (c ∷ cs) = elim (eqb c sep) [
  | true ↦ piece ∷ split_from sep [] cs
  | false ↦ split_from sep (piece ++ (c ∷ [])) cs
]

abbrev pub split : ℕ → Text → List Text
split sep s = split_from sep [] s

-- The separator does not occur.
abbrev pub is_free : ℕ → Text → Bool
is_free sep s = not (any (λ c. eqb c sep) s)

pub split-piece :
    (sep : ℕ) (piece s rest : Text)
    → is_free sep s ≡ true
    → split_from sep piece (s ++ (sep ∷ rest)) ≡ (piece ++ s) ∷ split_from sep [] rest
unfolding split_from
split-piece sep piece [] rest h = rw (append-nil piece) ground arith
split-piece sep piece (c ∷ cs) rest h =
    ground (arith, split-piece sep (piece ++ (c ∷ [])) cs rest, append_assoc piece (c ∷ []) cs)

pub split-last :
    (sep : ℕ) (piece s : Text) → is_free sep s ≡ true → split_from sep piece s ≡ (piece ++ s) ∷ []
unfolding split_from
split-last sep piece [] h = rw (append-nil piece) refl
split-last sep piece (c ∷ cs) h =
    ground (arith, split-last sep (piece ++ (c ∷ [])) cs, append_assoc piece (c ∷ []) cs)

-- The pieces with the separator between them.
abbrev pub join : ℕ → List Text → Text
join sep [] = []
join sep (s ∷ []) = s
join sep (s ∷ (next ∷ rest)) = s ++ (sep ∷ join sep (next ∷ rest))

abbrev pub all_free : ℕ → List Text → Bool
all_free sep [] = true
all_free sep (s ∷ rest) = is_free sep s && all_free sep rest

pub split-join :
    (sep : ℕ) (s : Text) (rest : List Text)
    → all_free sep (s ∷ rest) ≡ true
    → split sep (join sep (s ∷ rest)) ≡ s ∷ rest
split-join sep s [] h = split-last sep [] s (ground arith)
split-join sep s (next ∷ rest) h =
    split-piece sep [] s (join sep (next ∷ rest)) (ground arith)
    ∙ ap (◌∷◌ s) (split-join sep next rest (ground arith))

is_free-append :
    (sep : ℕ) (s u : Text)
    → is_free sep s ≡ true
    → is_free sep u ≡ true
    → is_free sep (s ++ u) ≡ true
is_free-append sep [] u h k = k
is_free-append sep (c ∷ cs) u h k = ground (arith, is_free-append sep cs u)

split_from_cons :
    (sep : ℕ) (piece s : Text)
    → (first : Text) × (rest : List Text) × (split_from sep piece s ≡ first ∷ rest)
unfolding split_from
split_from_cons sep piece [] = (piece, [], refl)
split_from_cons sep piece (c ∷ cs) = elim (Bool-cases (eqb c sep)) [
  | inl q ↦ (piece, split_from sep [] cs, rw (q, split_from) refl)
  | inr q ↦ (
    (split_from_cons sep (piece ++ (c ∷ [])) cs).0,
    (split_from_cons sep (piece ++ (c ∷ [])) cs).1,
    rw (q, split_from) ((split_from_cons sep (piece ++ (c ∷ [])) cs).2),
  )
]

join-split_from : (sep : ℕ) (piece s : Text) → join sep (split_from sep piece s) ≡ piece ++ s
unfolding split_from
join-split_from sep piece [] = rw (append-nil piece) refl
join-split_from sep piece (c ∷ cs) = elim (Bool-cases (eqb c sep)) [
  | inl q ↦ ground (arith, split_from_cons sep [] cs, join-split_from sep [] cs)
  | inr q ↦
      ground (arith, join-split_from sep (piece ++ (c ∷ [])) cs, append_assoc piece (c ∷ []) cs)
]

split_from-all_free :
    (sep : ℕ) (piece s : Text)
    → is_free sep piece ≡ true
    → all_free sep (split_from sep piece s) ≡ true
unfolding split_from
split_from-all_free sep piece [] h = ground arith
split_from-all_free sep piece (c ∷ cs) h = elim (Bool-cases (eqb c sep)) [
  | inl q ↦ ground (arith, split_from-all_free sep [] cs)
  | inr q ↦
      ground
        (arith, split_from-all_free sep (piece ++ (c ∷ [])) cs, is_free-append sep piece (c ∷ []) h)
]

pub join-split : (sep : ℕ) (s : Text) → join sep (split sep s) ≡ s
join-split sep s = join-split_from sep [] s

pub split-all_free : (sep : ℕ) (s : Text) → all_free sep (split sep s) ≡ true
split-all_free sep s = split_from-all_free sep [] s refl

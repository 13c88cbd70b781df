-- ===== src/Bilgepump/State/Prune.antt =====
-- Popping the stale front of a queue in time order leaves exactly the entries in the window.
use marlinspike_dpi.Prelude.{
  ◌≡◌, refl, ap, ◌∙◌, Bool, true, false, List, [], ◌∷◌, ◌++◌, arith, keep, All, not, Bool-cases,
  inl, inr, keep-append,
}
use marlinspike_dpi.Prelude.Clock.{Clock, IsClock, before, NotAfter}
use marlinspike_dpi.Bilgepump.State.{pop_front_while}

pub keep-All {ℓ} :
    {A : Type ℓ} (p : A → Bool) (xs : List A) → All (λ x. p x ≡ true) xs → keep p xs ≡ xs
keep-All p [] h = refl
keep-All p (x ∷ xs) (hx, hs) = rw hx (ap (◌∷◌ x) (keep-All p xs hs))

pub All-keep {ℓ κ} :
    {A : Type ℓ} (P : A → Type κ) (p : A → Bool) (xs : List A) → All P xs → All P (keep p xs)
All-keep P p [] h = h
All-keep P p (x ∷ xs) (hx, hs) = ground (arith, All-keep P p xs hs)

module _ {ℓ} {A : Type ℓ} {Time : Type 0} ⦃clock : Clock Time⦄ where
  -- At `cutoff` or later.
  abbrev pub since : (A → Time) → Time → A → Bool
  since f cutoff x = not (before (f x) cutoff)

  -- In time order.
  abbrev pub Sorted : (A → Time) → List A → Type 0
  Sorted f [] = Unit {0}
  Sorted f (x ∷ xs) = All (λ y. NotAfter (f x) (f y)) xs × Sorted f xs

  -- Every entry is at `now` or earlier.
  abbrev pub UpTo : (A → Time) → Time → List A → Type 0
  UpTo f now = All (λ y. NotAfter (f y) now)

module _ {ℓ} {A : Type ℓ} {Time : Type 0} ⦃clock : Clock Time⦄ (f : A → Time) where
  pub keep-Sorted : (p : A → Bool) (xs : List A) → Sorted f xs → Sorted f (keep p xs)
  keep-Sorted p [] h = h
  keep-Sorted p (x ∷ xs) (hx, hs) = elim (Bool-cases (p x)) [
    | inl e ↦ rw e (All-keep (λ y. NotAfter (f x) (f y)) p xs hx, keep-Sorted p xs hs)
    | inr e ↦ rw e (keep-Sorted p xs hs)
  ]

  pub Sorted-snoc :
      (x : A) (xs : List A) → Sorted f xs → UpTo f (f x) xs → Sorted f (xs ++ (x ∷ []))
  Sorted-snoc x [] h u = (tt, tt)
  Sorted-snoc x (y ∷ ys) (hy, hs) (uy, us) = (All-snoc y ys hy uy, Sorted-snoc x ys hs us)
    where
      All-snoc :
          (y : A) (ys : List A)
          → All (λ z. NotAfter (f y) (f z)) ys
          → NotAfter (f y) (f x)
          → All (λ z. NotAfter (f y) (f z)) (ys ++ (x ∷ []))
      All-snoc y [] h u = (u, tt)
      All-snoc y (z ∷ zs) (hz, hs) u = (hz, All-snoc y zs hs u)

module _ {ℓ} {A : Type ℓ} {Time : Type 0} ⦃clock : Clock Time⦄ (laws : IsClock clock)
    (f : A → Time) where
  pub UpTo-mono : (a b : Time) (xs : List A) → NotAfter a b → UpTo f a xs → UpTo f b xs
  UpTo-mono a b [] h u = tt
  UpTo-mono a b (x ∷ xs) h (ux, us) = (laws.trans (f x) a b ux h, UpTo-mono a b xs h us)

  pub UpTo-snoc : (x : A) (xs : List A) → UpTo f (f x) xs → UpTo f (f x) (xs ++ (x ∷ []))
  UpTo-snoc x xs h = go xs h
    where
      go : (xs : List A) → UpTo f (f x) xs → UpTo f (f x) (xs ++ (x ∷ []))
      go [] h = (laws.irrefl (f x), tt)
      go (y ∷ ys) (hy, hs) = (hy, go ys hs)

  since_later :
      (cutoff : Time) (x : A) (xs : List A)
      → before (f x) cutoff ≡ false
      → All (λ y. NotAfter (f x) (f y)) xs
      → All (λ y. since f cutoff y ≡ true) xs
  since_later cutoff x [] h a = tt
  since_later cutoff x (y ∷ ys) h (ay, as_) =
      (rw (laws.trans cutoff (f x) (f y) h ay) refl, since_later cutoff x ys h as_)

  pub pop_front_while-keep :
      (cutoff : Time) (xs : List A)
      → Sorted f xs
      → pop_front_while (λ x. before (f x) cutoff) xs ≡ keep (since f cutoff) xs
  unfolding pop_front_while
  pop_front_while-keep cutoff [] h = refl
  pop_front_while-keep cutoff (x ∷ xs) (hx, hs) = elim (Bool-cases (before (f x) cutoff)) [
    | inl e ↦ rw e (pop_front_while-keep cutoff xs hs)
    | inr e ↦
        rw e (ap (◌∷◌ x) (rw (keep-All (since f cutoff) xs (since_later cutoff x xs e hx)) refl))
  ]

  -- What an earlier cutoff dropped, a later one drops too.
  pub keep-keep_later :
      (a b : Time) (xs : List A)
      → NotAfter a b
      → keep (since f b) (keep (since f a) xs) ≡ keep (since f b) xs
  keep-keep_later a b [] h = refl
  keep-keep_later a b (x ∷ xs) h = ground (arith, keep-keep_later a b xs h, laws.trans a b (f x) h)

  -- One round of a window: push at the back, pop the stale front.
  pub pop_front_while-push :
      (a b : Time) (x : A) (held h : List A)
      → NotAfter a b
      → Sorted f h
      → UpTo f (f x) h
      → held ≡ keep (since f a) h
      → pop_front_while (λ y. before (f y) b) (held ++ (x ∷ [])) ≡ keep (since f b) (h ++ (x ∷ []))
  pop_front_while-push a b x held h le s u e =
      let kept = keep (since f a) h in
      let s' : Sorted f (kept ++ (x ∷ [])) =
        Sorted-snoc f x kept (keep-Sorted f (since f a) h s)
          (All-keep (λ y. NotAfter (f y) (f x)) (since f a) h u) in
      rw e (
        pop_front_while-keep b (kept ++ (x ∷ [])) s'
        ∙ rw
            (
              keep-append (since f b) kept (x ∷ []),
              keep-append (since f b) h (x ∷ []),
              keep-keep_later a b h le,
            )
            refl)

-- ===== src/OpcUa/Reader/Counts.antt =====
-- How far a read moves the cursor when it succeeds.
use marlinspike_dpi.Prelude.{
  ℕ, ◌⊎◌, ◌+◌, ◌≤◌, ◌≡◌, refl, sym, ap, ◌∙◌, Bool, true, false, some, none, Option, [], ◌∷◌, arith,
  length, Option-cases, inl, inr, get_elem?, suc, zero,
}
use marlinspike_dpi.OpcUa.Reader.{
  Reader, ReaderError, out_of_bounds, Result, ok, err, Read, continue, ◌>>=◌, read_u8, pure, fail,
  repeat, elements,
}
use marlinspike_dpi.OpcUa.Reader.Follows.{IsSafe}

abbrev pub ok_or : {A : Type 0} → A → Result A → A
ok_or d (ok a) = a
ok_or d (err e) = d

abbrev pub is_ok : {A : Type 0} → Result A → Bool
is_ok (ok a) = true
is_ok (err e) = false

pub Result-cases :
    {A : Type 0} (o : Result A) → ((a : A) × (o ≡ ok a)) ⊎ ((e : ReaderError) × (o ≡ err e))
Result-cases (ok a) = inl (a, refl)
Result-cases (err e) = inr (e, refl)

pub ok_injective : {A : Type 0} (a b : A) → ok a ≡ ok b → a ≡ b
ok_injective a b h = ap (ok_or a) h

pub err_ne_ok {ℓ} : {A : Type 0} {C : Type ℓ} (e : ReaderError) (a : A) → err e ≡ ok a → C
err_ne_ok e a h = absurd (let q : false ≡ true = ap is_ok h in ground arith)

continue_inversion :
    {A B : Type 0} (o : Result A) (r : Reader) (f : A → Read B) (b : B)
    → (continue o r f).0 ≡ ok b
    → (a : A) × (o ≡ ok a) × ((f a r).0 ≡ ok b) × ((continue o r f).1 ≡ (f a r).1)
continue_inversion (ok a) r f b h = (a, refl, h, refl)
continue_inversion (err e) r f b h = err_ne_ok e b h

-- A chain that succeeds is two steps that succeed.
pub bind_inversion :
    {A B : Type 0} (m : Read A) (f : A → Read B) (r : Reader) (b : B)
    → ((m >>= f) r).0 ≡ ok b
    → (a : A) × ((m r).0 ≡ ok a) × ((f a (m r).1).0 ≡ ok b) × (((m >>= f) r).1 ≡ (f a (m r).1).1)
bind_inversion m f r b h = continue_inversion (m r).0 (m r).1 f b h

-- From inside the message, a successful read of `a` moves the cursor over `size a` bytes at least.
abbrev pub Counts : {A : Type 0} → (A → ℕ) → Read A → Type 0
Counts size m =
    (r : Reader) (a : _)
    → r.position ≤ length r.bytes
    → (m r).0 ≡ ok a
    → r.position + size a ≤ (m r).1.position

module _ {A : Type 0} where
  pub pure-Counts : (size : A → ℕ) (a : A) → size a ≡ 0 → Counts size (pure a)
  pure-Counts size a z r b h q = omega (arith, z, ap size (ok_injective a b q))

  fail-Counts : (size : A → ℕ) (e : ReaderError) → Counts size (fail e)
  fail-Counts size e r b h q = err_ne_ok e b q

module _ {A B : Type 0} where
  pub bind-Counts :
      (size : B → ℕ) (m : Read A) (f : A → Read B)
      → IsSafe m
      → ((a : A) → Counts size (f a))
      → Counts size (m >>= f)
  bind-Counts size m f s c r b h q =
      let (a, first, second, ends) = bind_inversion m f r b q in
      let step = s r h in
      omega (
        arith,
        step.forward,
        c a (m r).1 b step.inside second,
        ap (λ (x : Reader). x.position) ends,
      )

  pub map-Counts :
      (size : A → ℕ) (wrapped : B → ℕ) (m : Read A) (f : A → B)
      → ((a : A) → wrapped (f a) ≡ size a)
      → Counts size m
      → Counts wrapped (m >>= (λ a. pure (f a)))
  map-Counts size wrapped m f e c r b h q =
      let (a, first, second, ends) = bind_inversion m (λ x. pure (f x)) r b q in
      omega (
        arith,
        c r a h first,
        e a,
        ap wrapped (ok_injective (f a) b second),
        ap (λ (x : Reader). x.position) ends,
      )

  -- The first step alone moves it far enough.
  pub bind-Counts_first :
      (k : ℕ) (m : Read A) (f : A → Read B)
      → IsSafe m
      → Counts (λ a. k) m
      → ((a : A) → IsSafe (f a))
      → Counts (λ b. k) (m >>= f)
  bind-Counts_first k m f s c g r b h q =
      let (a, first, second, ends) = bind_inversion m f r b q in
      let later = g a (m r).1 (s r h).inside in
      omega (arith, c r a h first, later.forward, ap (λ (x : Reader). x.position) ends)

module _ {A : Type 0} where
  -- Every element of an array takes a byte.
  pub repeat-Counts :
      (m : Read A) → IsSafe m → Counts (λ a. 1) m → (n : ℕ) → Counts length (repeat n m)
  unfolding repeat
  repeat-Counts m s c zero r xs h q = pure-Counts length [] refl r xs h q
  repeat-Counts m s c (suc n) r xs h q =
      let (a, first, second, ends) =
        bind_inversion m (λ x. repeat n m >>= (λ l. pure (x ∷ l))) r xs q in
      let (later, first_later, second_later, ends_later) =
        bind_inversion (repeat n m) (λ l. pure (a ∷ l)) (m r).1 xs second in
      omega (
        arith,
        c r a h first,
        repeat-Counts m s c n (m r).1 later (s r h).inside first_later,
        ap length (ok_injective (a ∷ later) xs second_later),
        ap (λ (x : Reader). x.position) ends,
        ap (λ (x : Reader). x.position) ends_later,
      )

  pub elements-Counts :
      (m : Read A)
      → IsSafe m
      → Counts (λ a. 1) m
      → (len : Option ℕ) → Counts length (elements m len)
  unfolding elements
  elements-Counts m s c none = pure-Counts length [] refl
  elements-Counts m s c (some n) = repeat-Counts m s c n

pub read_u8-end :
    (r : Reader) → get_elem? r.bytes r.position ≡ none → (read_u8 r).0 ≡ err out_of_bounds
unfolding read_u8
read_u8-end r h = rw (h, read_u8) refl

pub read_u8-Counts : Counts (λ a. 1) read_u8
unfolding read_u8
read_u8-Counts r a h q = elim (Option-cases (get_elem? r.bytes r.position)) [
  | inl gone ↦ err_ne_ok out_of_bounds a (sym (read_u8-end r gone) ∙ q)
  | inr (v, there) ↦ rw (there, read_u8) (omega arith)
]

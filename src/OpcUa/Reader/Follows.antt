-- ===== src/OpcUa/Reader/Follows.antt =====
-- No read moves the cursor out of the message or changes the message.
use marlinspike_dpi.Prelude.{
  ℕ, ◌+◌, ◌≤◌, ◌≡◌, refl, ◌∙◌, Bool, true, false, some, none, Option, List, [], ◌∷◌, arith, length,
  ltb, Bool-cases, Option-cases, inl, inr, if◌then◌else◌, get_elem?, suc, zero,
}
use marlinspike_dpi.Prelude.Bytes.{is_utf8}
use marlinspike_dpi.Prelude.Int.{ℤ, pos, negsuc}
use marlinspike_dpi.OpcUa.Reader.{
  Reader, Result, ok, err, Read, continue, ◌>>=◌, read_u8, read_u16, read_u32, read_u64, read_i32,
  read_i64, read_bytes, read_byte_string, bytes_of_length, checked_utf8, read_bool, read_i8,
  read_i16, read_f32, read_f64, pure, fail, read_string, read_array_length, optional, repeat,
  elements,
}

-- The later cursor is over the same message and inside it, not before the earlier one.
pub record Follows (earlier later : Reader) : Type 0 where
  pub same : later.bytes ≡ earlier.bytes
  pub inside : later.position ≤ length later.bytes
  pub forward : earlier.position ≤ later.position

abbrev pub IsSafe : {A : Type 0} → Read A → Type 0
IsSafe m = (r : Reader) → r.position ≤ length r.bytes → Follows r (m r).1

-- What `pure` and `fail` do.
pub stays : (r : Reader) → r.position ≤ length r.bytes → Follows r r
stays r h = record { same = refl; inside = h; forward = omega arith }

pub Follows-trans : (a b c : Reader) → Follows a b → Follows b c → Follows a c
Follows-trans a b c f g = record {
  same = g.same ∙ f.same;
  inside = g.inside;
  forward = omega (arith, f.forward, g.forward);
}

continue-Follows :
    {A B : Type 0} (o : Result A) (earlier r : Reader) (f : A → Read B)
    → Follows earlier r
    → ((a : A) → IsSafe (f a))
    → Follows earlier (continue o r f).1
continue-Follows (ok a) earlier r f h g = Follows-trans earlier r _ h (g a r h.inside)
continue-Follows (err e) earlier r f h g = h

pub bind-IsSafe :
    {A B : Type 0} (m : Read A) (f : A → Read B)
    → IsSafe m
    → ((a : A) → IsSafe (f a))
    → IsSafe (m >>= f)
bind-IsSafe m f h g r q = continue-Follows (m r).0 r (m r).1 f (h r q) g

pub read_bytes-IsSafe : (n : ℕ) → IsSafe (read_bytes n)
unfolding read_bytes
read_bytes-IsSafe n r h = elim (Bool-cases (ltb (length r.bytes) (r.position + n))) [
  | inl q ↦ rw q (record { same = refl; inside = h; forward = omega arith })
  | inr q ↦ rw q (record { same = refl; inside = ground arith; forward = omega arith })
]

get_elem?_below : (xs : List ℕ) (i v : ℕ) → get_elem? xs i ≡ some v → suc i ≤ length xs
get_elem?_below [] i v h = ground arith
get_elem?_below (x ∷ xs) zero v h = omega arith
get_elem?_below (x ∷ xs) (suc i) v h = omega (arith, get_elem?_below xs i v h)

pub read_u8-IsSafe : IsSafe read_u8
unfolding read_u8
read_u8-IsSafe r h = elim (Option-cases (get_elem? r.bytes r.position)) [
  | inl q ↦ rw (q, read_u8) (record { same = refl; inside = h; forward = omega arith })
  | inr (v, q) ↦
      rw (q, read_u8)
        (record {
          same = refl;
          inside = omega (arith, get_elem?_below r.bytes r.position v q);
          forward = omega arith;
        })
]

pub read_u16-IsSafe : IsSafe read_u16
unfolding read_u16
read_u16-IsSafe = bind-IsSafe (read_bytes 2) _ (read_bytes-IsSafe 2) (λ b. stays)

pub read_u32-IsSafe : IsSafe read_u32
unfolding read_u32
read_u32-IsSafe = bind-IsSafe (read_bytes 4) _ (read_bytes-IsSafe 4) (λ b. stays)

pub read_u64-IsSafe : IsSafe read_u64
unfolding read_u64
read_u64-IsSafe = bind-IsSafe (read_bytes 8) _ (read_bytes-IsSafe 8) (λ b. stays)

pub read_i32-IsSafe : IsSafe read_i32
unfolding read_i32
read_i32-IsSafe = bind-IsSafe read_u32 _ read_u32-IsSafe (λ v. stays)

pub bytes_of_length-IsSafe : (z : ℤ) → IsSafe (bytes_of_length z)
bytes_of_length-IsSafe (pos n) = bind-IsSafe (read_bytes n) _ (read_bytes-IsSafe n) (λ b. stays)
bytes_of_length-IsSafe (negsuc n) = stays

pub read_byte_string-IsSafe : IsSafe read_byte_string
unfolding read_byte_string
read_byte_string-IsSafe = bind-IsSafe read_i32 _ read_i32-IsSafe bytes_of_length-IsSafe

pub if-IsSafe :
    {A : Type 0} (b : Bool) (m n : Read A) → IsSafe m → IsSafe n → IsSafe (if b then m else n)
if-IsSafe true m n h k = h
if-IsSafe false m n h k = k

checked_utf8-IsSafe : (o : Option (List ℕ)) → IsSafe (checked_utf8 o)
checked_utf8-IsSafe none = stays
checked_utf8-IsSafe (some bytes) = if-IsSafe (is_utf8 bytes) (pure _) (fail _) stays stays

pub read_string-IsSafe : IsSafe read_string
unfolding read_string
read_string-IsSafe = bind-IsSafe read_byte_string _ read_byte_string-IsSafe checked_utf8-IsSafe

pub read_i64-IsSafe : IsSafe read_i64
unfolding read_i64
read_i64-IsSafe = bind-IsSafe read_u64 _ read_u64-IsSafe (λ v. stays)

pub read_array_length-IsSafe : IsSafe read_array_length
unfolding read_array_length
read_array_length-IsSafe = bind-IsSafe read_i32 _ read_i32-IsSafe (λ len. stays)

pub optional-IsSafe : {A : Type 0} (b : Bool) (m : Read A) → IsSafe m → IsSafe (optional b m)
unfolding optional
optional-IsSafe false m h = stays
optional-IsSafe true m h = bind-IsSafe m _ h (λ a. stays)

-- A part under a flag, then the others.
pub part-IsSafe :
    {A B : Type 0} (b : Bool) (m : Read A) (f : Option A → Read B)
    → IsSafe m
    → ((o : Option A) → IsSafe (f o))
    → IsSafe (optional b m >>= f)
part-IsSafe b m f h g = bind-IsSafe (optional b m) f (optional-IsSafe b m h) g

pub repeat-IsSafe : {A : Type 0} (n : ℕ) (m : Read A) → IsSafe m → IsSafe (repeat n m)
unfolding repeat
repeat-IsSafe zero m h = stays
repeat-IsSafe (suc n) m h =
    bind-IsSafe m _ h (λ a. bind-IsSafe (repeat n m) _ (repeat-IsSafe n m h) (λ later. stays))

pub elements-IsSafe :
    {A : Type 0} (m : Read A) (len : Option ℕ) → IsSafe m → IsSafe (elements m len)
unfolding elements
elements-IsSafe m none h = stays
elements-IsSafe m (some n) h = repeat-IsSafe n m h

-- A read whose result is only wrapped.
pub map-IsSafe :
    {A B : Type 0} (m : Read A) (f : A → B) → IsSafe m → IsSafe (m >>= (λ a. pure (f a)))
map-IsSafe m f h = bind-IsSafe m _ h (λ a. stays)

pub read_bool-IsSafe : IsSafe read_bool
unfolding read_bool
read_bool-IsSafe = map-IsSafe read_u8 _ read_u8-IsSafe

pub read_i8-IsSafe : IsSafe read_i8
unfolding read_i8
read_i8-IsSafe = map-IsSafe read_u8 _ read_u8-IsSafe

pub read_i16-IsSafe : IsSafe read_i16
unfolding read_i16
read_i16-IsSafe = map-IsSafe read_u16 _ read_u16-IsSafe

pub read_f32-IsSafe : IsSafe read_f32
unfolding read_f32
read_f32-IsSafe = map-IsSafe (read_bytes 4) _ (read_bytes-IsSafe 4)

pub read_f64-IsSafe : IsSafe read_f64
unfolding read_f64
read_f64-IsSafe = map-IsSafe (read_bytes 8) _ (read_bytes-IsSafe 8)

-- ===== src/OpcUa/Reader/Extends.antt =====
-- A read that succeeds gives the same on every longer message.
use marlinspike_dpi.Prelude.{
  ℕ, zero, suc, ◌+◌, ◌≤◌, ◌<◌, ltb→lt, ltb→le, ◌≡◌, refl, sym, ap, ◌∙◌, Bool, true, false, Option,
  none, some, List, [], ◌∷◌, ◌++◌, arith, length, length-append, ltb, take, drop, get_elem?, inl,
  inr, Bool-cases, Option-cases, if◌then◌else◌,
}
use marlinspike_dpi.Prelude.Bytes.{is_utf8}
use marlinspike_dpi.Prelude.Int.{ℤ, pos, negsuc}
use marlinspike_dpi.OpcUa.Reader.{
  Reader, ReaderError, ok, err, out_of_bounds, Read, ◌>>=◌, pure, fail, read_u8, read_bytes,
  read_bool, read_i8, read_u16, read_i16, read_u32, read_i32, read_u64, read_i64, read_f32,
  read_f64, read_byte_string, bytes_of_length, checked_utf8, read_string, read_array_length,
  optional, repeat, elements,
}
use marlinspike_dpi.OpcUa.Reader.Follows.{
  IsSafe, read_u8-IsSafe, read_bytes-IsSafe, read_u16-IsSafe, read_u32-IsSafe, read_u64-IsSafe,
  read_i32-IsSafe, read_byte_string-IsSafe, repeat-IsSafe,
}
use marlinspike_dpi.OpcUa.Reader.Counts.{bind_inversion, err_ne_ok, ok_injective, read_u8-end}

abbrev pub extend : List ℕ → Reader → Reader
extend more r = record r { bytes = r.bytes ++ more }

abbrev pub Extends : {A : Type 0} → Read A → Type 0
Extends {A} m =
    (r : Reader) (more : List ℕ) (a : A)
    → r.position ≤ length r.bytes
    → (m r).0 ≡ ok a
    → m (extend more r) ≡ (ok a, extend more (m r).1)

pub pure-Extends : {A : Type 0} (a : A) → Extends (pure a)
pure-Extends a r more b h q = ap (λ x. (x, extend more r)) q

pub fail-Extends : {A : Type 0} (e : ReaderError) → Extends {A = A} (fail e)
fail-Extends e r more b h q = err_ne_ok e b q

pub bind-Extends :
    {A B : Type 0} (m : Read A) (f : A → Read B)
    → IsSafe m
    → Extends m
    → ((a : A) → Extends (f a))
    → Extends (m >>= f)
bind-Extends m f s x g r more b h q =
    let (a, first, second, ends) = bind_inversion m f r b q in
    rw (x r more a h first, ends) (g a (m r).1 more b (s r h).inside second)

pub map-Extends :
    {A B : Type 0} (m : Read A) (f : A → B)
    → IsSafe m
    → Extends m
    → Extends (m >>= (λ a. pure (f a)))
map-Extends m f s x = bind-Extends m _ s x (λ a. pure-Extends (f a))

pub if-Extends :
    {A : Type 0} (b : Bool) (m n : Read A) → Extends m → Extends n → Extends (if b then m else n)
if-Extends true m n x y = x
if-Extends false m n x y = y

pub optional-Extends :
    {A : Type 0} (b : Bool) (m : Read A) → IsSafe m → Extends m → Extends (optional b m)
unfolding optional
optional-Extends false m s x = pure-Extends none
optional-Extends true m s x = map-Extends m _ s x

pub repeat-Extends : {A : Type 0} (n : ℕ) (m : Read A) → IsSafe m → Extends m → Extends (repeat n m)
unfolding repeat
repeat-Extends zero m s x = pure-Extends []
repeat-Extends (suc n) m s x =
    bind-Extends m _ s x
      (λ a. map-Extends (repeat n m) _ (repeat-IsSafe n m s) (repeat-Extends n m s x))

pub elements-Extends :
    {A : Type 0} (m : Read A) (len : Option ℕ) → IsSafe m → Extends m → Extends (elements m len)
unfolding elements
elements-Extends m none s x = pure-Extends []
elements-Extends m (some n) s x = repeat-Extends n m s x

get_elem?_extended :
    (xs ys : List ℕ) (i v : ℕ) → get_elem? xs i ≡ some v → get_elem? (xs ++ ys) i ≡ some v
get_elem?_extended [] ys i v h = ground arith
get_elem?_extended (x ∷ xs) ys zero v h = h
get_elem?_extended (x ∷ xs) ys (suc i) v h = get_elem?_extended xs ys i v h

take_extended : (n : ℕ) (xs ys : List ℕ) → n ≤ length xs → take n (xs ++ ys) ≡ take n xs
take_extended zero xs ys h = refl
take_extended (suc n) [] ys h = absurd (omega (arith, h))
take_extended (suc n) (x ∷ xs) ys h = ap (◌∷◌ x) (take_extended n xs ys (omega (arith, h)))

slice_extended :
    (i n : ℕ) (xs ys : List ℕ) → i + n ≤ length xs → take n (drop i (xs ++ ys)) ≡ take n (drop i xs)
slice_extended zero n xs ys h = take_extended n xs ys (omega (arith, h))
slice_extended (suc i) n [] ys h = absurd (omega (arith, h))
slice_extended (suc i) n (x ∷ xs) ys h = slice_extended i n xs ys (omega (arith, h))

-- What the two primitive reads give, by what the message holds.
read_u8-some :
    (r : Reader) (v : ℕ)
    → get_elem? r.bytes r.position ≡ some v
    → read_u8 r ≡ (ok v, record r { position = r.position + 1 })
unfolding read_u8
read_u8-some r v h = rw (h, read_u8) refl

read_bytes_inside :
    (n : ℕ) (r : Reader)
    → r.position + n ≤ length r.bytes
    → read_bytes n r
      ≡ (ok (take n (drop r.position r.bytes)), record r { position = r.position + n })
unfolding read_bytes
read_bytes_inside n r h =
    let fits : ltb (length r.bytes) (r.position + n) ≡ false = ground (arith, h) in rw fits refl

read_bytes_outside :
    (n : ℕ) (r : Reader) → length r.bytes < r.position + n → (read_bytes n r).0 ≡ err out_of_bounds
unfolding read_bytes
read_bytes_outside n r h =
    let long : ltb (length r.bytes) (r.position + n) ≡ true = ground (arith, h) in rw long refl

-- A read that gives one thing here gives it on the longer message.
settled :
    {A : Type 0} (m : Read A) (r after : Reader) (more : List ℕ) (v a : A)
    → m r ≡ (ok v, after)
    → m (extend more r) ≡ (ok v, extend more after)
    → (m r).0 ≡ ok a
    → m (extend more r) ≡ (ok a, extend more (m r).1)
settled m r after more v a here there q =
    let same = ok_injective v a (sym (ap (λ x. x.0) here) ∙ q) in
    there
    ∙ (ap (λ x. (ok x, extend more after)) same
        ∙ ap (λ x. (ok a, extend more x)) (sym (ap (λ x. x.1) here)))

pub read_bytes-Extends : (n : ℕ) → Extends (read_bytes n)
read_bytes-Extends n r more a h q = elim (Bool-cases (ltb (length r.bytes) (r.position + n))) [
  | inl long ↦ err_ne_ok out_of_bounds a (sym (read_bytes_outside n r (ltb→lt _ _ long)) ∙ q)
  | inr fits ↦
      let room = ltb→le _ _ fits in
      settled (read_bytes n) r _ more _ a (read_bytes_inside n r room)
        (read_bytes_inside n (extend more r) (omega (arith, room, length-append r.bytes more))
          ∙ ap (λ b. (ok b, extend more (record r { position = r.position + n })))
              (slice_extended r.position n r.bytes more room))
        q
]

pub read_u8-Extends : Extends read_u8
read_u8-Extends r more a h q = elim (Option-cases (get_elem? r.bytes r.position)) [
  | inl gone ↦ err_ne_ok out_of_bounds a (sym (read_u8-end r gone) ∙ q)
  | inr (v, there) ↦
      settled read_u8 r _ more v a (read_u8-some r v there)
        (read_u8-some (extend more r) v (get_elem?_extended r.bytes more r.position v there)) q
]

pub read_bool-Extends : Extends read_bool
unfolding read_bool
read_bool-Extends = map-Extends read_u8 _ read_u8-IsSafe read_u8-Extends

pub read_i8-Extends : Extends read_i8
unfolding read_i8
read_i8-Extends = map-Extends read_u8 _ read_u8-IsSafe read_u8-Extends

pub read_u16-Extends : Extends read_u16
unfolding read_u16
read_u16-Extends = map-Extends (read_bytes 2) _ (read_bytes-IsSafe 2) (read_bytes-Extends 2)

pub read_u32-Extends : Extends read_u32
unfolding read_u32
read_u32-Extends = map-Extends (read_bytes 4) _ (read_bytes-IsSafe 4) (read_bytes-Extends 4)

pub read_u64-Extends : Extends read_u64
unfolding read_u64
read_u64-Extends = map-Extends (read_bytes 8) _ (read_bytes-IsSafe 8) (read_bytes-Extends 8)

pub read_f32-Extends : Extends read_f32
unfolding read_f32
read_f32-Extends = map-Extends (read_bytes 4) _ (read_bytes-IsSafe 4) (read_bytes-Extends 4)

pub read_f64-Extends : Extends read_f64
unfolding read_f64
read_f64-Extends = map-Extends (read_bytes 8) _ (read_bytes-IsSafe 8) (read_bytes-Extends 8)

pub read_i16-Extends : Extends read_i16
unfolding read_i16
read_i16-Extends = map-Extends read_u16 _ read_u16-IsSafe read_u16-Extends

pub read_i32-Extends : Extends read_i32
unfolding read_i32
read_i32-Extends = map-Extends read_u32 _ read_u32-IsSafe read_u32-Extends

pub read_i64-Extends : Extends read_i64
unfolding read_i64
read_i64-Extends = map-Extends read_u64 _ read_u64-IsSafe read_u64-Extends

pub read_array_length-Extends : Extends read_array_length
unfolding read_array_length
read_array_length-Extends = map-Extends read_i32 _ read_i32-IsSafe read_i32-Extends

bytes_of_length-Extends : (z : ℤ) → Extends (bytes_of_length z)
bytes_of_length-Extends (pos n) =
    map-Extends (read_bytes n) _ (read_bytes-IsSafe n) (read_bytes-Extends n)
bytes_of_length-Extends (negsuc n) = pure-Extends none

pub read_byte_string-Extends : Extends read_byte_string
unfolding read_byte_string
read_byte_string-Extends =
    bind-Extends read_i32 _ read_i32-IsSafe read_i32-Extends bytes_of_length-Extends

checked_utf8-Extends : (o : Option (List ℕ)) → Extends (checked_utf8 o)
checked_utf8-Extends none = pure-Extends none
checked_utf8-Extends (some bytes) =
    if-Extends (is_utf8 bytes) (pure _) (fail _) (pure-Extends _) (fail-Extends _)

pub read_string-Extends : Extends read_string
unfolding read_string
read_string-Extends =
    bind-Extends read_byte_string _ read_byte_string-IsSafe read_byte_string-Extends
      checked_utf8-Extends

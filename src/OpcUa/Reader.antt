-- ===== src/OpcUa/Reader.antt =====
-- `src/opc_ua/reader.rs`: the bounded little-endian cursor.
pub mod Cursor
pub mod Follows
pub mod Counts
pub mod Extends
use marlinspike_dpi.Prelude.{
  ℕ, zero, suc, ◌+◌, ◌-◌, ◌/◌, ◌%◌, Bool, true, false, not, Option, none, some, List, [], ◌∷◌,
  if◌then◌else◌, eqb, leb, ltb, length, take, drop, get_elem?,
}
use marlinspike_dpi.Prelude.Bytes.{from_le, is_utf8}
use marlinspike_dpi.Prelude.Int.{ℤ, pos, negsuc, as_signed}

pub record Reader : Type 0 where
  pub bytes : List ℕ
  pub position : ℕ

pub data ReaderError : Type 0 where
  out_of_bounds : ReaderError
  invalid_utf8 : ReaderError
  invalid_length : ReaderError

pub data Result (A : Type 0) : Type 0 where
  ok : A → Result A
  err : ReaderError → Result A

-- A method on `&mut self`: its result, and the cursor after it, which an error may have moved.
abbrev pub Read : Type 0 → Type 0
Read A = Reader → Result A × Reader

abbrev pub pure : {A : Type 0} → A → Read A
pure a r = (ok a, r)

abbrev pub fail : {A : Type 0} → ReaderError → Read A
fail e r = (err e, r)

abbrev pub continue : {A B : Type 0} → Result A → Reader → (A → Read B) → Result B × Reader
continue (ok a) r f = f a r
continue (err e) r f = (err e, r)

-- The `?` operator.
infixl 5 ◌>>=◌
abbrev pub ◌>>=◌ : {A B : Type 0} → Read A → (A → Read B) → Read B
m >>= f = λ r. continue (m r).0 (m r).1 f

abbrev pub new : List ℕ → Reader
new bytes = record { bytes = bytes; position = 0 }

abbrev pub remaining : Reader → ℕ
remaining r = length r.bytes - r.position

unfoldable pub skip : ℕ → Read (Unit {0})
skip n r =
    if ltb (length r.bytes) (r.position + n)
    then (err out_of_bounds, r)
    else (ok tt, record r { position = r.position + n })

-- `read_array` and `read_bytes` differ in the type of their result only.
unfoldable pub read_bytes : ℕ → Read (List ℕ)
read_bytes n r =
    if ltb (length r.bytes) (r.position + n)
    then (err out_of_bounds, r)
    else (ok (take n (drop r.position r.bytes)), record r { position = r.position + n })

unfoldable pub read_u8 : Read ℕ
read_u8 r = elim (get_elem? r.bytes r.position) [
  | none ↦ (err out_of_bounds, r)
  | some v ↦ (ok v, record r { position = r.position + 1 })
]

unfoldable pub read_bool : Read Bool
read_bool = read_u8 >>= (λ v. pure (not (eqb v 0)))

unfoldable pub read_i8 : Read ℤ
read_i8 = read_u8 >>= (λ v. pure (as_signed 8 v))

unfoldable pub read_u16 : Read ℕ
read_u16 = read_bytes 2 >>= (λ bytes. pure (from_le bytes))

unfoldable pub read_i16 : Read ℤ
read_i16 = read_u16 >>= (λ v. pure (as_signed 16 v))

unfoldable pub read_u32 : Read ℕ
read_u32 = read_bytes 4 >>= (λ bytes. pure (from_le bytes))

unfoldable pub read_u64 : Read ℕ
read_u64 = read_bytes 8 >>= (λ bytes. pure (from_le bytes))

unfoldable pub read_i32 : Read ℤ
read_i32 = read_u32 >>= (λ v. pure (as_signed 32 v))

unfoldable pub read_i64 : Read ℤ
read_i64 = read_u64 >>= (λ v. pure (as_signed 64 v))

-- A negative length is the null string.
abbrev pub bytes_of_length : ℤ → Read (Option (List ℕ))
bytes_of_length (pos n) = read_bytes n >>= (λ bytes. pure (some bytes))
bytes_of_length (negsuc n) = pure none

unfoldable pub read_byte_string : Read (Option (List ℕ))
read_byte_string = read_i32 >>= bytes_of_length

abbrev pub checked_utf8 : Option (List ℕ) → Read (Option (List ℕ))
checked_utf8 none = pure none
checked_utf8 (some bytes) = if is_utf8 bytes then pure (some bytes) else fail invalid_utf8

unfoldable pub read_string : Read (Option (List ℕ))
read_string = read_byte_string >>= checked_utf8

-- A floating-point number is its bits.
unfoldable pub read_f32 : Read ℕ
read_f32 = read_bytes 4 >>= (λ bytes. pure (from_le bytes))

unfoldable pub read_f64 : Read ℕ
read_f64 = read_bytes 8 >>= (λ bytes. pure (from_le bytes))

abbrev pub array_length : ℤ → Option ℕ
array_length (pos n) = some n
array_length (negsuc n) = none

unfoldable pub read_array_length : Read (Option ℕ)
read_array_length = read_i32 >>= (λ len. pure (array_length len))

-- `if mask & bit != 0`, for a `bit` that is a power of two.
abbrev pub flag : ℕ → ℕ → Bool
flag mask bit = eqb (mask / bit % 2) 1

-- A part that is only read under a test.
unfoldable pub optional : {A : Type 0} → Bool → Read A → Read (Option A)
optional false m = pure none
optional true m = m >>= (λ a. pure (some a))

-- `for _ in 0..n` with the `?` operator in its body.
unfoldable pub repeat : {A : Type 0} → ℕ → Read A → Read (List A)
repeat zero m = pure []
repeat (suc n) m = m >>= (λ a. repeat n m >>= (λ later. pure (a ∷ later)))

-- An array, where a negative length stands for no elements.
unfoldable pub elements : {A : Type 0} → Read A → Option ℕ → Read (List A)
elements m none = pure []
elements m (some n) = repeat n m

-- ===== src/OpcUa/Value/RoundTrip.antt =====
-- Every scalar variant is read back from its wire form.
use marlinspike_dpi.Prelude.{
  ℕ, ◌+◌, ◌*◌, ◌%◌, ◌^◌, ◌<◌, ◌≡◌, refl, sym, ap, Bool, true, false, some, List, [], ◌∷◌, ◌++◌,
  length, arith,
}
use mathlib.Core.List.{append_assoc, append-nil}
use marlinspike_dpi.Prelude.Bytes.{le_bytes, is_utf8}
use marlinspike_dpi.Prelude.Int.{pos, IsWithin, to_wire, to_wire-lt, as_signed8, as_signed16}
use marlinspike_dpi.Bronze.{
  PointValue, null, bool, int8, int16, int32, int64, uint8, uint16, uint32, uint64, float, double,
  text, bytes, date_time,
}
use marlinspike_dpi.OpcUa.Reader.{ok, read_bool, read_i8, read_i16, read_string, flag}
use marlinspike_dpi.OpcUa.Reader.Cursor.{
  at, read_u8-at, read_u16-at, read_u32-at, read_u64-at, read_i32_signed-at, read_f32-at,
  read_f64-at, read_i64_signed-at, read_byte_string-at,
}
use marlinspike_dpi.OpcUa.Value.{
  read_wide, ticks_1601_to_1970, opcua_datetime_to_unix_us, read_scalar, read_variant,
}

-- The kind and the bytes of a value.
abbrev pub kind_of : PointValue → ℕ
kind_of null = 0
kind_of (bool b) = 1
kind_of (int8 z) = 2
kind_of (uint8 n) = 3
kind_of (int16 z) = 4
kind_of (uint16 n) = 5
kind_of (int32 z) = 6
kind_of (uint32 n) = 7
kind_of (int64 z) = 8
kind_of (uint64 n) = 9
kind_of (float f) = 10
kind_of (double d) = 11
kind_of (text s) = 12
kind_of (date_time us) = 13
kind_of (bytes b) = 15

abbrev pub ticks : ℕ → ℕ
ticks us = us * 10 + ticks_1601_to_1970

abbrev pub bool_byte : Bool → ℕ
bool_byte true = 1
bool_byte false = 0

abbrev pub payload : PointValue → List ℕ
payload null = []
payload (bool b) = bool_byte b ∷ []
payload (int8 z) = to_wire 0x100 z ∷ []
payload (uint8 n) = n ∷ []
payload (int16 z) = le_bytes 2 (to_wire 0x10000 z)
payload (uint16 n) = le_bytes 2 n
payload (int32 z) = le_bytes 4 (to_wire 0x100000000 z)
payload (uint32 n) = le_bytes 4 n
payload (int64 z) = le_bytes 8 (to_wire 0x10000000000000000 z)
payload (uint64 n) = le_bytes 8 n
payload (float f) = le_bytes 4 f
payload (double d) = le_bytes 8 d
payload (text s) = le_bytes 4 (length s) ++ s
payload (date_time us) = le_bytes 8 (ticks us)
payload (bytes b) = le_bytes 4 (length b) ++ b

-- The value fits its field.
abbrev pub IsWire : PointValue → Type 0
IsWire (int8 z) = IsWithin 0x80 z
IsWire (uint16 n) = n < 256 ^ 2
IsWire (int16 z) = IsWithin 0x8000 z
IsWire (int32 z) = IsWithin 0x80000000 z
IsWire (uint32 n) = n < 256 ^ 4
IsWire (int64 z) = IsWithin 0x8000000000000000 z
IsWire (uint64 n) = n < 256 ^ 8
IsWire (float f) = f < 256 ^ 4
IsWire (double d) = d < 256 ^ 8
IsWire (text s) = (length s < 0x80000000) × (is_utf8 s ≡ true)
IsWire (date_time us) = ticks us < 0x8000000000000000
IsWire (bytes b) = length b < 0x80000000
IsWire _ = Unit

pub opcua_datetime_to_unix_us-ticks :
    (us : ℕ) → opcua_datetime_to_unix_us (pos (ticks us)) ≡ some us
unfolding opcua_datetime_to_unix_us
opcua_datetime_to_unix_us-ticks us = ground arith

read_scalar-payload :
    (v : PointValue) (before rest : List ℕ)
    → IsWire v
    → read_scalar (kind_of v) (at before (payload v ++ rest))
      ≡ (ok v, at (before ++ payload v) rest)
unfolding read_scalar read_wide read_bool read_i8 read_i16 read_string
read_scalar-payload null before rest h = ap (λ b. (ok null, at b rest)) (sym (append-nil before))
read_scalar-payload (bool true) before rest h = rw (read_u8-at before rest 1) refl
read_scalar-payload (bool false) before rest h = rw (read_u8-at before rest 0) refl
read_scalar-payload (int8 z) before rest h =
    rw (read_u8-at before rest (to_wire 0x100 z), as_signed8 z h) refl
read_scalar-payload (uint8 n) before rest h = rw (read_u8-at before rest n) refl
read_scalar-payload (int16 z) before rest h =
    rw (read_u16-at (to_wire 0x10000 z) before rest (to_wire-lt 0x8000 z h), as_signed16 z h) refl
read_scalar-payload (uint16 n) before rest h = rw (read_u16-at n before rest h) refl
read_scalar-payload (int32 z) before rest h = rw (read_i32_signed-at z before rest h) refl
read_scalar-payload (uint32 n) before rest h = rw (read_u32-at n before rest h) refl
read_scalar-payload (int64 z) before rest h = rw (read_i64_signed-at z before rest h) refl
read_scalar-payload (uint64 n) before rest h = rw (read_u64-at n before rest h) refl
read_scalar-payload (float f) before rest h = rw (read_f32-at f before rest h) refl
read_scalar-payload (double d) before rest h = rw (read_f64-at d before rest h) refl
read_scalar-payload (text s) before rest (h, u) = rw (read_byte_string-at s before rest h, u) refl
read_scalar-payload (date_time us) before rest h =
    rw (read_i64_signed-at (pos (ticks us)) before rest h, opcua_datetime_to_unix_us-ticks us) refl
read_scalar-payload (bytes b) before rest h = rw (read_byte_string-at b before rest h) refl

kind_of-lt : (v : PointValue) → kind_of v < 16
kind_of-lt null = omega arith
kind_of-lt (bool b) = omega arith
kind_of-lt (int8 z) = omega arith
kind_of-lt (uint8 n) = omega arith
kind_of-lt (int16 z) = omega arith
kind_of-lt (uint16 n) = omega arith
kind_of-lt (int32 z) = omega arith
kind_of-lt (uint32 n) = omega arith
kind_of-lt (int64 z) = omega arith
kind_of-lt (uint64 n) = omega arith
kind_of-lt (float f) = omega arith
kind_of-lt (double d) = omega arith
kind_of-lt (text s) = omega arith
kind_of-lt (date_time us) = omega arith
kind_of-lt (bytes b) = omega arith

kind_of-low : (v : PointValue) → (flag (kind_of v) 0x80 ≡ false) × (kind_of v % 64 ≡ kind_of v)
kind_of-low v = ground (arith, kind_of-lt v)

-- A scalar variant: its kind, then its bytes.
abbrev pub variant_bytes : PointValue → List ℕ
variant_bytes v = kind_of v ∷ payload v

pub read_variant-bytes :
    (v : PointValue) (before rest : List ℕ)
    → IsWire v
    → read_variant (at before (variant_bytes v ++ rest))
      ≡ (ok v, at (before ++ variant_bytes v) rest)
unfolding read_variant
read_variant-bytes v before rest h =
    rw
      (
        read_u8-at before (payload v ++ rest) (kind_of v),
        (kind_of-low v).0,
        (kind_of-low v).1,
        read_scalar-payload v (before ++ (kind_of v ∷ [])) rest h,
        append_assoc before (kind_of v ∷ []) (payload v),
      )
      refl

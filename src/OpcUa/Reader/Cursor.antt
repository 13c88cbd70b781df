-- ===== src/OpcUa/Reader/Cursor.antt =====
-- Where the cursor stands, and what it reads back.
use marlinspike_dpi.Prelude.{
  ℕ, ◌+◌, ◌^◌, ◌<◌, ◌≡◌, refl, sym, ap, ◌∙◌, false, some, List, [], ◌∷◌, ◌++◌, arith, length,
  length-append, take-append, drop-append, get_elem?, ltb,
}
use mathlib.Core.List.{append_assoc}
use marlinspike_dpi.Prelude.Bytes.{le_bytes, from_le-le_bytes, length-le_bytes}
use marlinspike_dpi.Prelude.Int.{ℤ, pos, IsWithin, to_wire, to_wire-lt, as_signed32, as_signed64}
use marlinspike_dpi.OpcUa.Reader.{
  Reader, ok, read_bytes, read_u8, read_u16, read_u32, read_i32, read_u64, read_i64,
  read_byte_string, read_f32, read_f64,
}

-- The cursor between what was read and what is left.
abbrev pub at : List ℕ → List ℕ → Reader
at before rest = record { bytes = before ++ rest; position = length before }

get_elem?-append :
    (before rest : List ℕ) (b : ℕ) → get_elem? (before ++ (b ∷ rest)) (length before) ≡ some b
get_elem?-append [] rest b = refl
get_elem?-append (x ∷ before) rest b = get_elem?-append before rest b

at_step :
    (before piece rest : List ℕ)
    → record { bytes = before ++ (piece ++ rest); position = length before + length piece }
      ≡ at (before ++ piece) rest
at_step before piece rest i = record {
  bytes = sym (append_assoc before piece rest) i;
  position = sym (length-append before piece) i;
}

pub read_bytes-at :
    (before piece rest : List ℕ)
    → read_bytes (length piece) (at before (piece ++ rest)) ≡ (ok piece, at (before ++ piece) rest)
unfolding read_bytes
read_bytes-at before piece rest =
    rw (enough, drop-append before (piece ++ rest), take-append piece rest)
      (ap (λ r. (ok piece, r)) (at_step before piece rest))
  where
    enough : ltb (length (before ++ (piece ++ rest))) (length before + length piece) ≡ false
    enough = ground (arith, length-append before (piece ++ rest), length-append piece rest)

pub read_u8-at :
    (before rest : List ℕ) (b : ℕ)
    → read_u8 (at before (b ∷ rest)) ≡ (ok b, at (before ++ (b ∷ [])) rest)
unfolding read_u8
read_u8-at before rest b =
    rw (get_elem?-append before rest b, read_u8)
      (ap (λ r. (ok b, r)) (at_step before (b ∷ []) rest))

read_word-at :
    (n v : ℕ) (before rest : List ℕ)
    → read_bytes n (at before (le_bytes n v ++ rest))
      ≡ (ok (le_bytes n v), at (before ++ le_bytes n v) rest)
read_word-at n v before rest =
    ap (λ k. read_bytes k (at before (le_bytes n v ++ rest))) (sym (length-le_bytes n v))
    ∙ read_bytes-at before (le_bytes n v) rest

pub read_u16-at :
    (v : ℕ) (before rest : List ℕ)
    → v < 256 ^ 2
    → read_u16 (at before (le_bytes 2 v ++ rest)) ≡ (ok v, at (before ++ le_bytes 2 v) rest)
unfolding read_u16
read_u16-at v before rest h =
    rw (read_word-at 2 v before rest)
      (ap (λ x. (ok x, at (before ++ le_bytes 2 v) rest)) (from_le-le_bytes 2 v h))

pub read_u32-at :
    (v : ℕ) (before rest : List ℕ)
    → v < 256 ^ 4
    → read_u32 (at before (le_bytes 4 v ++ rest)) ≡ (ok v, at (before ++ le_bytes 4 v) rest)
unfolding read_u32
read_u32-at v before rest h =
    rw (read_word-at 4 v before rest)
      (ap (λ x. (ok x, at (before ++ le_bytes 4 v) rest)) (from_le-le_bytes 4 v h))

pub read_u64-at :
    (v : ℕ) (before rest : List ℕ)
    → v < 256 ^ 8
    → read_u64 (at before (le_bytes 8 v ++ rest)) ≡ (ok v, at (before ++ le_bytes 8 v) rest)
unfolding read_u64
read_u64-at v before rest h =
    rw (read_word-at 8 v before rest)
      (ap (λ x. (ok x, at (before ++ le_bytes 8 v) rest)) (from_le-le_bytes 8 v h))

pub read_f32-at :
    (v : ℕ) (before rest : List ℕ)
    → v < 256 ^ 4
    → read_f32 (at before (le_bytes 4 v ++ rest)) ≡ (ok v, at (before ++ le_bytes 4 v) rest)
unfolding read_f32
read_f32-at v before rest h =
    rw (read_word-at 4 v before rest)
      (ap (λ x. (ok x, at (before ++ le_bytes 4 v) rest)) (from_le-le_bytes 4 v h))

pub read_f64-at :
    (v : ℕ) (before rest : List ℕ)
    → v < 256 ^ 8
    → read_f64 (at before (le_bytes 8 v ++ rest)) ≡ (ok v, at (before ++ le_bytes 8 v) rest)
unfolding read_f64
read_f64-at v before rest h =
    rw (read_word-at 8 v before rest)
      (ap (λ x. (ok x, at (before ++ le_bytes 8 v) rest)) (from_le-le_bytes 8 v h))

-- A signed word in its wire form.
pub read_i32_signed-at :
    (z : ℤ) (before rest : List ℕ)
    → IsWithin 0x80000000 z
    → read_i32 (at before (le_bytes 4 (to_wire 0x100000000 z) ++ rest))
      ≡ (ok z, at (before ++ le_bytes 4 (to_wire 0x100000000 z)) rest)
unfolding read_i32
read_i32_signed-at z before rest h =
    rw (read_u32-at (to_wire 0x100000000 z) before rest (to_wire-lt 0x80000000 z h))
      (ap (λ x. (ok x, at (before ++ le_bytes 4 (to_wire 0x100000000 z)) rest)) (as_signed32 z h))

pub read_i64_signed-at :
    (z : ℤ) (before rest : List ℕ)
    → IsWithin 0x8000000000000000 z
    → read_i64 (at before (le_bytes 8 (to_wire 0x10000000000000000 z) ++ rest))
      ≡ (ok z, at (before ++ le_bytes 8 (to_wire 0x10000000000000000 z)) rest)
unfolding read_i64
read_i64_signed-at z before rest h =
    rw (read_u64-at (to_wire 0x10000000000000000 z) before rest (to_wire-lt 0x8000000000000000 z h))
      (ap (λ x. (ok x, at (before ++ le_bytes 8 (to_wire 0x10000000000000000 z)) rest))
        (as_signed64 z h))

pub read_i32-at :
    (n : ℕ) (before rest : List ℕ)
    → n < 0x80000000
    → read_i32 (at before (le_bytes 4 n ++ rest)) ≡ (ok (pos n), at (before ++ le_bytes 4 n) rest)
read_i32-at n before rest h = read_i32_signed-at (pos n) before rest h

-- A byte string with its length before it.
pub read_byte_string-at :
    (s before rest : List ℕ)
    → length s < 0x80000000
    → read_byte_string (at before ((le_bytes 4 (length s) ++ s) ++ rest))
      ≡ (ok (some s), at (before ++ (le_bytes 4 (length s) ++ s)) rest)
unfolding read_byte_string
read_byte_string-at s before rest h =
    rw
      (
        append_assoc (le_bytes 4 (length s)) s rest,
        read_i32-at (length s) before (s ++ rest) h,
        read_bytes-at (before ++ le_bytes 4 (length s)) s rest,
        append_assoc before (le_bytes 4 (length s)) s,
      )
      refl

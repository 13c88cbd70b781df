-- ===== src/OpcUa/Value/Stamped.antt =====
-- Every data value is read back from its wire form, whichever of its parts are there.
use marlinspike_dpi.Prelude.{
  ℕ, ◌+◌, ◌*◌, ◌/◌, ◌%◌, ◌^◌, ◌<◌, ◌≤◌, ◌≡◌, refl, sym, ap, ◌∙◌, Option, none, some, List, [], ◌∷◌,
  ◌++◌, arith, is_some, unwrap_or,
}
use mathlib.Core.List.{append_assoc, append-nil}
use marlinspike_dpi.Prelude.Bytes.{le_bytes}
use marlinspike_dpi.Prelude.Int.{pos}
use marlinspike_dpi.Bronze.{PointValue, null, opc_ua_status_code}
use marlinspike_dpi.OpcUa.Reader.{Read, ok, read_u16, read_u32, read_i64, flag, optional}
use marlinspike_dpi.OpcUa.Reader.Cursor.{
  at, read_u8-at, read_u16-at, read_u32-at, read_i64_signed-at,
}
use marlinspike_dpi.OpcUa.Value.{
  DecodedDataValue, read_variant, time_stamp, read_masked, read_data_value,
}
use marlinspike_dpi.OpcUa.Value.RoundTrip.{
  IsWire, ticks, variant_bytes, read_variant-bytes, opcua_datetime_to_unix_us-ticks,
}

-- What a server puts into a data value; the time stamps are in microseconds since 1970.
pub record Parts : Type 0 where
  pub value : Option PointValue
  pub status : Option ℕ
  pub source : Option ℕ
  pub source_pico : Option ℕ
  pub server : Option ℕ
  pub server_pico : Option ℕ

abbrev pub part : {A : Type 0} → (A → List ℕ) → Option A → List ℕ
part bytes none = []
part bytes (some a) = bytes a

abbrev pub bit : {A : Type 0} → Option A → ℕ
bit none = 0
bit (some a) = 1

abbrev pub mask_of : Parts → ℕ
mask_of p =
    bit p.value
    + 2 * bit p.status
    + 4 * bit p.source
    + 8 * bit p.server
    + 16 * bit p.source_pico
    + 32 * bit p.server_pico

abbrev pub stamp_bytes : ℕ → List ℕ
stamp_bytes us = le_bytes 8 (ticks us)

-- The parts in the order of the wire, and what follows them.
abbrev pub parts_bytes : Parts → List ℕ → List ℕ
parts_bytes p rest =
    part variant_bytes p.value
    ++ (part (le_bytes 4) p.status
        ++ (part stamp_bytes p.source
            ++ (part (le_bytes 2) p.source_pico
                ++ (part stamp_bytes p.server ++ (part (le_bytes 2) p.server_pico ++ rest)))))

unfoldable pub data_value_bytes : Parts → List ℕ
data_value_bytes p = mask_of p ∷ parts_bytes p []

abbrev pub decoded : Parts → DecodedDataValue
decoded p = record {
  value = unwrap_or p.value null;
  quality = opc_ua_status_code (unwrap_or p.status 0);
  source_ts = p.source;
  server_ts = p.server;
}

abbrev pub Holds : {A : Type 0} → (A → Type 0) → Option A → Type 0
Holds P none = Unit
Holds P (some a) = P a

abbrev pub IsStamp : ℕ → Type 0
IsStamp us = ticks us < 0x8000000000000000

abbrev pub IsPico : ℕ → Type 0
IsPico n = n < 256 ^ 2

-- Every part fits its field.
pub record IsSent (p : Parts) : Type 0 where
  pub value : Holds IsWire p.value
  pub status : Holds (λ n. n < 256 ^ 4) p.status
  pub source : Holds IsStamp p.source
  pub source_pico : Holds IsPico p.source_pico
  pub server : Holds IsStamp p.server
  pub server_pico : Holds IsPico p.server_pico

bit-flag : {A : Type 0} (o : Option A) (mask w : ℕ) → mask / w % 2 ≡ bit o → flag mask w ≡ is_some o
bit-flag none mask w h = ground (arith, h)
bit-flag (some a) mask w h = ground (arith, h)

bit-le : {A : Type 0} (o : Option A) → bit o ≤ 1
bit-le none = omega arith
bit-le (some a) = omega arith

-- The flags of the mask say which parts are there.
mask_of-flags :
    (p : Parts)
    → (flag (mask_of p) 0x01 ≡ is_some p.value)
      × (flag (mask_of p) 0x02 ≡ is_some p.status)
      × (flag (mask_of p) 0x04 ≡ is_some p.source)
      × (flag (mask_of p) 0x08 ≡ is_some p.server)
      × (flag (mask_of p) 0x10 ≡ is_some p.source_pico)
      × (flag (mask_of p) 0x20 ≡ is_some p.server_pico)
mask_of-flags p =
    let a = bit-le p.value in
    let b = bit-le p.status in
    let c = bit-le p.source in
    let d = bit-le p.server in
    let e = bit-le p.source_pico in
    let f = bit-le p.server_pico in
    (
      bit-flag p.value (mask_of p) 0x01 (omega (arith, a, b, c, d, e, f)),
      bit-flag p.status (mask_of p) 0x02 (omega (arith, a, b, c, d, e, f)),
      bit-flag p.source (mask_of p) 0x04 (omega (arith, a, b, c, d, e, f)),
      bit-flag p.server (mask_of p) 0x08 (omega (arith, a, b, c, d, e, f)),
      bit-flag p.source_pico (mask_of p) 0x10 (omega (arith, a, b, c, d, e, f)),
      bit-flag p.server_pico (mask_of p) 0x20 (omega (arith, a, b, c, d, e, f)),
    )

abbrev mapped : {A B : Type 0} → (A → B) → Option A → Option B
mapped f none = none
mapped f (some a) = some (f a)

-- One part that is read back.
optional-part :
    {A B : Type 0} (m : Read B) (bytes : A → List ℕ) (f : A → B) (P : A → Type 0)
    → ((a : A) (before rest : List ℕ)
        → P a
        → m (at before (bytes a ++ rest)) ≡ (ok (f a), at (before ++ bytes a) rest))
    → (o : Option A) (before rest : List ℕ) → Holds P o
    → optional (is_some o) m (at before (part bytes o ++ rest))
      ≡ (ok (mapped f o), at (before ++ part bytes o) rest)
unfolding optional
optional-part m bytes f P reads none before rest h =
    ap (λ b. (ok none, at b rest)) (sym (append-nil before))
optional-part m bytes f P reads (some a) before rest h = rw (reads a before rest h) refl

stamp-part :
    (o : Option ℕ) (before rest : List ℕ)
    → Holds IsStamp o
    → optional (is_some o) read_i64 (at before (part stamp_bytes o ++ rest))
      ≡ (ok (mapped (λ us. pos (ticks us)) o), at (before ++ part stamp_bytes o) rest)
stamp-part o before rest h =
    optional-part read_i64 stamp_bytes (λ us. pos (ticks us)) IsStamp
      (λ us x y k. read_i64_signed-at (pos (ticks us)) x y k) o before rest h

time_stamp-mapped : (o : Option ℕ) → time_stamp (mapped (λ us. pos (ticks us)) o) ≡ o
time_stamp-mapped none = refl
time_stamp-mapped (some us) = opcua_datetime_to_unix_us-ticks us

mapped_same : {A : Type 0} (o : Option A) → mapped (λ a. a) o ≡ o
mapped_same none = refl
mapped_same (some a) = refl

plain-part :
    {A : Type 0} (m : Read A) (bytes : A → List ℕ) (P : A → Type 0)
    → ((a : A) (before rest : List ℕ)
        → P a
        → m (at before (bytes a ++ rest)) ≡ (ok a, at (before ++ bytes a) rest))
    → (o : Option A) (before rest : List ℕ) → Holds P o
    → optional (is_some o) m (at before (part bytes o ++ rest))
      ≡ (ok o, at (before ++ part bytes o) rest)
plain-part m bytes P reads o before rest h =
    optional-part m bytes (λ a. a) P reads o before rest h
    ∙ ap (λ x. (ok x, at (before ++ part bytes o) rest)) (mapped_same o)

-- The bytes that were read, piece by piece.
abbrev read_so_far : Parts → List ℕ → List ℕ
read_so_far p before =
    (((((before ++ part variant_bytes p.value) ++ part (le_bytes 4) p.status)
          ++ part stamp_bytes p.source)
        ++ part (le_bytes 2) p.source_pico)
      ++ part stamp_bytes p.server)
    ++ part (le_bytes 2) p.server_pico

read_masked-parts :
    (p : Parts) (before rest : List ℕ)
    → IsSent p
    → read_masked (mask_of p) (at before (parts_bytes p rest))
      ≡ (ok (decoded p), at (read_so_far p before) rest)
unfolding read_masked
read_masked-parts p before rest h =
    let f = mask_of-flags p in
    let b1 = before ++ part variant_bytes p.value in
    let b2 = b1 ++ part (le_bytes 4) p.status in
    let b3 = b2 ++ part stamp_bytes p.source in
    let b4 = b3 ++ part (le_bytes 2) p.source_pico in
    let b5 = b4 ++ part stamp_bytes p.server in
    let r5 = part (le_bytes 2) p.server_pico ++ rest in
    let r4 = part stamp_bytes p.server ++ r5 in
    let r3 = part (le_bytes 2) p.source_pico ++ r4 in
    let r2 = part stamp_bytes p.source ++ r3 in
    let r1 = part (le_bytes 4) p.status ++ r2 in
    rw
      (
        f.0,
        f.1,
        f.2,
        f.3,
        f.4,
        f.5,
        plain-part read_variant variant_bytes IsWire read_variant-bytes p.value before r1 h.value,
        plain-part read_u32 (le_bytes 4) (λ n. n < 256 ^ 4) read_u32-at p.status b1 r2 h.status,
        stamp-part p.source b2 r3 h.source,
        plain-part read_u16 (le_bytes 2) IsPico read_u16-at p.source_pico b3 r4 h.source_pico,
        stamp-part p.server b4 r5 h.server,
        plain-part read_u16 (le_bytes 2) IsPico read_u16-at p.server_pico b5 rest h.server_pico,
        time_stamp-mapped p.source,
        time_stamp-mapped p.server,
      )
      refl

parts_bytes-rest : (p : Parts) (rest : List ℕ) → parts_bytes p [] ++ rest ≡ parts_bytes p rest
parts_bytes-rest p rest = simp (append_assoc, append-nil)

read_so_far-parts :
    (p : Parts) (before : List ℕ)
    → read_so_far p (before ++ (mask_of p ∷ [])) ≡ before ++ data_value_bytes p
unfolding data_value_bytes
read_so_far-parts p before = simp (append_assoc, append-nil)

-- A data value that was sent with any of its six parts, wherever it stands in a message and
-- whatever follows it, is read as the value it carries, or null, with its status code, or 0, and
-- the two time stamps in microseconds where they were sent; and the cursor then stands right
-- behind it. The value is a scalar that fits its field, the time stamps fit a signed word of 64
-- bits.
pub read_data_value-bytes :
    (p : Parts) (before rest : List ℕ)
    → IsSent p
    → read_data_value (at before (data_value_bytes p ++ rest))
      ≡ (ok (decoded p), at (before ++ data_value_bytes p) rest)
unfolding read_data_value data_value_bytes
read_data_value-bytes p before rest h =
    rw
      (
        parts_bytes-rest p rest,
        read_u8-at before (parts_bytes p rest) (mask_of p),
        read_masked-parts p (before ++ (mask_of p ∷ [])) rest h,
      )
      (ap (λ b. (ok (decoded p), at b rest)) (read_so_far-parts p before))

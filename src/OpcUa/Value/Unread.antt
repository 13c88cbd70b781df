-- ===== src/OpcUa/Value/Unread.antt =====
-- The kinds of value that are not known: their bytes stay in the message.
use marlinspike_dpi.Prelude.{
  ℕ, zero, suc, ◌+◌, ◌^◌, ◌%◌, ◌<◌, ◌≤◌, ◌≡◌, refl, false, true, none, List, [], ◌∷◌, ◌++◌, arith,
}
use marlinspike_dpi.Prelude.Bytes.{le_bytes}
use marlinspike_dpi.Bronze.{PointValue, null, opc_ua_status_code}
use marlinspike_dpi.OpcUa.Reader.{Reader, ok, flag, optional, repeat, elements, read_array_length}
use marlinspike_dpi.OpcUa.Reader.Cursor.{at, read_u8-at, read_u32-at, read_i32-at}
use marlinspike_dpi.OpcUa.Value.{
  read_wide, read_scalar, consume_array, read_variant, read_masked, read_data_value,
}

read_scalar-unread : (kind : ℕ) (r : Reader) → 16 ≤ kind → read_scalar kind r ≡ (ok null, r)
unfolding read_scalar read_wide
read_scalar-unread kind r h = ground arith

abbrev nulls : ℕ → List PointValue
nulls zero = []
nulls (suc n) = null ∷ nulls n

repeat-unread :
    (kind n : ℕ) (r : Reader) → 16 ≤ kind → repeat n (read_scalar kind) r ≡ (ok (nulls n), r)
unfolding repeat
repeat-unread kind zero r h = refl
repeat-unread kind (suc n) r h = rw (read_scalar-unread kind r h, repeat-unread kind n r h) refl

consume_array-unread :
    (kind n : ℕ) (before rest : List ℕ)
    → 16 ≤ kind
    → n < 0x80000000
    → consume_array kind (at before (le_bytes 4 n ++ rest))
      ≡ (ok (nulls n), at (before ++ le_bytes 4 n) rest)
unfolding consume_array read_array_length elements
consume_array-unread kind n before rest h k =
    rw (read_i32-at n before rest k, repeat-unread kind n (at (before ++ le_bytes 4 n) rest) h) refl

scalar_mask : (kind : ℕ) → kind < 64 → (flag kind 0x80 ≡ false) × (kind % 64 ≡ kind)
scalar_mask kind h = ground (arith, h)

array_mask :
    (kind : ℕ)
    → kind < 64
    → (flag (kind + 0x80) 0x80 ≡ true)
      × (flag (kind + 0x80) 0x40 ≡ false)
      × ((kind + 0x80) % 64 ≡ kind)
array_mask kind h = ground (arith, h)

read_variant-unread :
    (kind : ℕ) (before rest : List ℕ)
    → 16 ≤ kind
    → kind < 64
    → read_variant (at before (kind ∷ rest)) ≡ (ok null, at (before ++ (kind ∷ [])) rest)
unfolding read_variant
read_variant-unread kind before rest h k =
    rw
      (
        read_u8-at before rest kind,
        (scalar_mask kind k).0,
        (scalar_mask kind k).1,
        read_scalar-unread kind (at (before ++ (kind ∷ [])) rest) h,
      )
      refl

read_array-unread :
    (kind n : ℕ) (before rest : List ℕ)
    → 16 ≤ kind
    → kind < 64
    → n < 0x80000000
    → read_variant (at before ((kind + 0x80) ∷ (le_bytes 4 n ++ rest)))
      ≡ (ok null, at ((before ++ ((kind + 0x80) ∷ [])) ++ le_bytes 4 n) rest)
unfolding read_variant optional
read_array-unread kind n before rest h k small =
    rw
      (
        read_u8-at before (le_bytes 4 n ++ rest) (kind + 0x80),
        (array_mask kind k).0,
        (array_mask kind k).1,
        (array_mask kind k).2,
        consume_array-unread kind n (before ++ ((kind + 0x80) ∷ [])) rest h small,
      )
      refl

read_data_value-unread :
    (kind status : ℕ) (before rest : List ℕ)
    → 16 ≤ kind
    → kind < 64
    → status < 256 ^ 4
    → (read_data_value (at before (3 ∷ kind ∷ (le_bytes 4 status ++ rest)))).0
      ≡ ok (record {
        value = null;
        quality = opc_ua_status_code status;
        source_ts = none;
        server_ts = none;
      })
unfolding read_data_value read_masked optional
read_data_value-unread kind status before rest h k fits =
    rw
      (
        read_u8-at before (kind ∷ (le_bytes 4 status ++ rest)) 3,
        read_variant-unread kind (before ++ (3 ∷ [])) (le_bytes 4 status ++ rest) h k,
        read_u32-at status ((before ++ (3 ∷ [])) ++ (kind ∷ [])) rest fits,
      )
      refl

-- For the sixteenth kind of value and every later one, an array reads its length and nothing of
-- its elements, however many it announces; and behind a single value the first four of its own
-- bytes are read as the status code of the data value that holds it.
pub unread_kind :
    (kind n status : ℕ) (before rest : List ℕ)
    → 16 ≤ kind
    → kind < 64
    → n < 0x80000000
    → status < 256 ^ 4
    → (read_variant (at before ((kind + 0x80) ∷ (le_bytes 4 n ++ rest)))
        ≡ (ok null, at ((before ++ ((kind + 0x80) ∷ [])) ++ le_bytes 4 n) rest))
      × ((read_data_value (at before (3 ∷ kind ∷ (le_bytes 4 status ++ rest)))).0
          ≡ ok (record {
            value = null;
            quality = opc_ua_status_code status;
            source_ts = none;
            server_ts = none;
          }))
unread_kind kind n status before rest h k small fits = (
  read_array-unread kind n before rest h k small,
  read_data_value-unread kind status before rest h k fits,
)

-- ===== src/OpcUa/NodeId/RoundTrip.antt =====
-- Every node identifier is read back from its wire form.
use marlinspike_dpi.Prelude.{
  ℕ, ◌^◌, ◌<◌, ◌%◌, ◌≡◌, refl, sym, ap, ◌∙◌, true, false, List, [], ◌∷◌, ◌++◌, length,
}
use mathlib.Core.List.{append_assoc}
use marlinspike_dpi.Prelude.Bytes.{le_bytes, is_utf8}
use marlinspike_dpi.OpcUa.Reader.{ok, read_bytes, read_byte_string}
use marlinspike_dpi.OpcUa.Reader.Cursor.{
  at, read_u8-at, read_u16-at, read_u32-at, read_i32-at, read_bytes-at,
}
use marlinspike_dpi.OpcUa.NodeId.{
  OpcUaNodeId, numeric, string, string_raw, guid, opaque, DecodedNodeId, node, decode_node_id,
  read_node_id,
}

-- The encoding byte, and the bytes behind the namespace.
abbrev pub kind_byte : OpcUaNodeId → ℕ
kind_byte (numeric id) = 2
kind_byte (string s) = 3
kind_byte (string_raw s) = 3
kind_byte (guid g) = 4
kind_byte (opaque o) = 5

abbrev pub body : OpcUaNodeId → List ℕ
body (numeric id) = le_bytes 4 id
body (string s) = le_bytes 4 (length s) ++ s
body (string_raw s) = le_bytes 4 (length s) ++ s
body (guid g) = g
body (opaque o) = le_bytes 4 (length o) ++ o

unfoldable pub encode : DecodedNodeId → List ℕ
encode n = kind_byte n.identifier ∷ (le_bytes 2 n.namespace_index ++ body n.identifier)

-- The numbers fit their fields, texts are marked rightly, and a GUID has sixteen bytes.
abbrev pub IsIdentifier : OpcUaNodeId → Type 0
IsIdentifier (numeric id) = id < 256 ^ 4
IsIdentifier (string s) = (length s < 0x80000000) × (is_utf8 s ≡ true)
IsIdentifier (string_raw s) = (length s < 0x80000000) × (is_utf8 s ≡ false)
IsIdentifier (guid g) = length g ≡ 16
IsIdentifier (opaque o) = length o < 0x80000000

decode_node_id-body :
    (ns : ℕ) (identifier : OpcUaNodeId) (before rest : List ℕ)
    → ns < 256 ^ 2
    → IsIdentifier identifier
    → decode_node_id (kind_byte identifier) (at before (le_bytes 2 ns ++ (body identifier ++ rest)))
      ≡ (ok (node ns identifier), at ((before ++ le_bytes 2 ns) ++ body identifier) rest)
unfolding decode_node_id read_byte_string
decode_node_id-body ns (numeric id) before rest h k =
    rw
      (
        read_u16-at ns before (le_bytes 4 id ++ rest) h,
        read_u32-at id (before ++ le_bytes 2 ns) rest k,
      )
      refl
decode_node_id-body ns (string s) before rest h (k, u) =
    rw
      (
        read_u16-at ns before (le_bytes 4 (length s) ++ (s ++ rest)) h,
        read_i32-at (length s) (before ++ le_bytes 2 ns) (s ++ rest) k,
        read_bytes-at ((before ++ le_bytes 2 ns) ++ le_bytes 4 (length s)) s rest,
        u,
      )
      (ap (λ b. (ok (node ns (string s)), at b rest))
        (append_assoc (before ++ le_bytes 2 ns) (le_bytes 4 (length s)) s))
decode_node_id-body ns (string_raw s) before rest h (k, u) =
    rw
      (
        read_u16-at ns before (le_bytes 4 (length s) ++ (s ++ rest)) h,
        read_i32-at (length s) (before ++ le_bytes 2 ns) (s ++ rest) k,
        read_bytes-at ((before ++ le_bytes 2 ns) ++ le_bytes 4 (length s)) s rest,
        u,
      )
      (ap (λ b. (ok (node ns (string_raw s)), at b rest))
        (append_assoc (before ++ le_bytes 2 ns) (le_bytes 4 (length s)) s))
decode_node_id-body ns (guid g) before rest h k =
    rw
      (
        read_u16-at ns before (g ++ rest) h,
        sym (ap (λ n. read_bytes n (at (before ++ le_bytes 2 ns) (g ++ rest))) k)
            ∙ read_bytes-at (before ++ le_bytes 2 ns) g rest,
      )
      refl
decode_node_id-body ns (opaque o) before rest h k =
    rw
      (
        read_u16-at ns before (le_bytes 4 (length o) ++ (o ++ rest)) h,
        read_i32-at (length o) (before ++ le_bytes 2 ns) (o ++ rest) k,
        read_bytes-at ((before ++ le_bytes 2 ns) ++ le_bytes 4 (length o)) o rest,
      )
      (ap (λ b. (ok (node ns (opaque o)), at b rest))
        (append_assoc (before ++ le_bytes 2 ns) (le_bytes 4 (length o)) o))

kind_byte-low : (identifier : OpcUaNodeId) → kind_byte identifier % 64 ≡ kind_byte identifier
kind_byte-low (numeric id) = refl
kind_byte-low (string s) = refl
kind_byte-low (string_raw s) = refl
kind_byte-low (guid g) = refl
kind_byte-low (opaque o) = refl

-- The wire form of a node identifier, wherever it stands in a message and whatever follows it, is
-- read back as that identifier, and the cursor then stands right behind it: for a namespace of 16
-- bits, a number of 32 bits, bytes shorter than 2^31, and a text that is marked as raw exactly
-- when it is not UTF-8.
pub read_node_id-encode :
    (n : DecodedNodeId) (before rest : List ℕ)
    → n.namespace_index < 256 ^ 2
    → IsIdentifier n.identifier
    → read_node_id (at before (encode n ++ rest)) ≡ (ok n, at (before ++ encode n) rest)
unfolding read_node_id encode
read_node_id-encode n before rest h k =
    let kind = kind_byte n.identifier in
    let ns = le_bytes 2 n.namespace_index in
    rw (read_u8-at before (ns ++ (body n.identifier ++ rest)) kind, kind_byte-low n.identifier)
      (decode_node_id-body n.namespace_index n.identifier (before ++ (kind ∷ [])) rest h k
        ∙ ap (λ b. (ok n, at b rest))
            (append_assoc (before ++ (kind ∷ [])) ns (body n.identifier)
              ∙ append_assoc before (kind ∷ []) (ns ++ body n.identifier)))

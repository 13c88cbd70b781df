-- ===== src/OpcUa/NodeId.antt =====
-- `src/opc_ua/node_id.rs`: node identifiers.
pub mod RoundTrip
pub mod Safety
use marlinspike_dpi.Prelude.{
  ℕ, ◌%◌, ◌/◌, Bool, true, false, not, Option, none, some, List, [], ◌∷◌, if◌then◌else◌, eqb,
  unwrap_or,
}
use marlinspike_dpi.Prelude.Bytes.{is_utf8}
use marlinspike_dpi.Prelude.Int.{ℤ, pos, negsuc}
use marlinspike_dpi.OpcUa.Reader.{
  Reader, Read, Result, ok, err, pure, fail, invalid_length, ◌>>=◌, read_u8, read_u16, read_u32,
  read_i32, read_bytes, read_byte_string,
}

pub data OpcUaNodeId : Type 0 where
  numeric : ℕ → OpcUaNodeId
  string : List ℕ → OpcUaNodeId
  string_raw : List ℕ → OpcUaNodeId
  guid : List ℕ → OpcUaNodeId
  opaque : List ℕ → OpcUaNodeId

pub record DecodedNodeId : Type 0 where
  pub namespace_index : ℕ
  pub identifier : OpcUaNodeId

abbrev pub node : ℕ → OpcUaNodeId → DecodedNodeId
node ns identifier = record { namespace_index = ns; identifier = identifier }

-- A text keeps its bytes, marked as raw where they are not UTF-8.
abbrev pub text_identifier : List ℕ → OpcUaNodeId
text_identifier bytes = if is_utf8 bytes then string bytes else string_raw bytes

abbrev pub read_text : ℕ → ℤ → Read DecodedNodeId
read_text ns (pos len) = read_bytes len >>= (λ bytes. pure (node ns (text_identifier bytes)))
read_text ns (negsuc n) = pure (node ns (string []))

abbrev pub read_two_byte : Read DecodedNodeId
read_two_byte = read_u8 >>= (λ id. pure (node 0 (numeric id)))

abbrev pub read_four_byte : Read DecodedNodeId
read_four_byte = read_u8 >>= (λ ns. read_u16 >>= (λ id. pure (node ns (numeric id))))

abbrev pub read_numeric : Read DecodedNodeId
read_numeric = read_u16 >>= (λ ns. read_u32 >>= (λ id. pure (node ns (numeric id))))

abbrev pub read_string : Read DecodedNodeId
read_string = read_u16 >>= (λ ns. read_i32 >>= read_text ns)

abbrev pub read_guid : Read DecodedNodeId
read_guid = read_u16 >>= (λ ns. read_bytes 16 >>= (λ bytes. pure (node ns (guid bytes))))

abbrev pub read_opaque : Read DecodedNodeId
read_opaque =
    read_u16
    >>= (λ ns. read_byte_string >>= (λ bytes. pure (node ns (opaque (unwrap_or bytes [])))))

unfoldable pub decode_node_id : ℕ → Read DecodedNodeId
decode_node_id enc =
    if eqb enc 0x00
    then read_two_byte
    else if eqb enc 0x01
    then read_four_byte
    else if eqb enc 0x02
    then read_numeric
    else if eqb enc 0x03
    then read_string
    else if eqb enc 0x04
    then read_guid
    else if eqb enc 0x05
    then read_opaque
    else fail invalid_length

-- The low six bits of the encoding byte.
unfoldable pub read_node_id : Read DecodedNodeId
read_node_id = read_u8 >>= (λ enc. decode_node_id (enc % 64))

-- The two high bits announce a namespace text and a server index, which are read past.
abbrev pub skip_uri : Bool → Read (Unit {0})
skip_uri false = pure tt
skip_uri true = read_byte_string >>= (λ uri. pure tt)

abbrev pub skip_server : Bool → Read (Unit {0})
skip_server false = pure tt
skip_server true = read_u32 >>= (λ index. pure tt)

unfoldable pub read_expanded_node_id : Read DecodedNodeId
read_expanded_node_id = read_u8 >>= (λ enc. decode_node_id (enc % 64) >>= (λ inner.
    skip_uri (eqb (enc / 128 % 2) 1)
    >>= (λ uri. skip_server (eqb (enc / 64 % 2) 1) >>= (λ server. pure inner))))

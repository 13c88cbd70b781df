-- ===== src/OpcUa/Services.antt =====
-- `src/opc_ua/services.rs`: the bodies of the Read service.
pub mod Termination
pub mod Bounds
use marlinspike_dpi.Prelude.{
  ℕ, zero, suc, ◌%◌, Bool, true, false, Option, none, some, List, if◌then◌else◌, eqb, ◌||◌,
}
use marlinspike_dpi.Prelude.Int.{ℤ}
use marlinspike_dpi.OpcUa.Reader.{
  Read, pure, fail, invalid_length, out_of_bounds, ◌>>=◌, remaining, read_u8, read_u16, read_i32,
  read_u32, read_i64, read_f64, read_string, read_byte_string, read_array_length, flag, optional,
  elements,
}
use marlinspike_dpi.OpcUa.NodeId.{OpcUaNodeId, numeric, DecodedNodeId, read_node_id}
use marlinspike_dpi.OpcUa.Value.{DecodedDataValue, read_data_value}

abbrev pub read_request_type_id : ℕ
read_request_type_id = 631

abbrev pub read_response_type_id : ℕ
read_response_type_id = 634

abbrev pub service_number : ℕ → OpcUaNodeId → Read ℕ
service_number ns (numeric n) = if eqb ns 0 then pure n else fail invalid_length
service_number ns _ = fail invalid_length

unfoldable pub read_service_type_id : Read ℕ
read_service_type_id =
    read_node_id >>= (λ node. service_number node.namespace_index node.identifier)

-- The parts of a DiagnosticInfo before the one it may hold inside.
unfoldable pub skip_diagnostic_fields : ℕ → Read (Unit {0})
skip_diagnostic_fields mask = optional (flag mask 0x01) read_i32 >>= (λ symbolic_id.
    optional (flag mask 0x02) read_i32 >>= (λ namespace.
      optional (flag mask 0x04) read_i32 >>= (λ locale.
        optional (flag mask 0x08) read_i32 >>= (λ localized_text.
          optional (flag mask 0x10) read_byte_string >>= (λ additional_info.
            optional (flag mask 0x20) read_u32 >>= (λ inner_status. pure tt))))))

-- The recursion of the source, on fuel.
unfoldable pub skip_diagnostic_within : ℕ → Read (Unit {0})
skip_diagnostic_within zero = fail out_of_bounds
skip_diagnostic_within (suc fuel) = read_u8 >>= (λ mask.
    skip_diagnostic_fields mask
    >>= (λ skipped. if flag mask 0x40 then skip_diagnostic_within fuel else pure tt))

-- Every level reads a byte, so that the bytes that are left bound the depth.
unfoldable pub skip_diagnostic_info : Read (Unit {0})
skip_diagnostic_info r = skip_diagnostic_within (suc (remaining r)) r

unfoldable pub skip_string_array : Read (List (Option (List ℕ)))
skip_string_array = read_array_length >>= elements read_byte_string

unfoldable pub skip_diagnostic_info_array : Read (List (Unit {0}))
skip_diagnostic_info_array = read_array_length >>= elements skip_diagnostic_info

abbrev pub skip_body : ℕ → Read (Unit {0})
skip_body encoding =
    if eqb encoding 0
    then pure tt
    else if eqb encoding 1 || eqb encoding 2
    then read_byte_string >>= (λ body. pure tt)
    else fail invalid_length

unfoldable pub skip_extension_object : Read (Unit {0})
skip_extension_object = read_node_id >>= (λ type_id. read_u8 >>= skip_body)

unfoldable pub skip_request_header : Read ℕ
skip_request_header = read_node_id >>= (λ auth_token. read_i64 >>= (λ timestamp.
    read_u32 >>= (λ request_handle. read_u32 >>= (λ return_diagnostics.
      read_string >>= (λ audit_entry_id.
        read_u32
        >>= (λ timeout_hint. skip_extension_object >>= (λ header. pure request_handle)))))))

-- The request handle and the service result.
unfoldable pub skip_response_header : Read (ℕ × ℕ)
skip_response_header = read_i64 >>= (λ timestamp. read_u32 >>= (λ request_handle.
    read_u32 >>= (λ service_result. skip_diagnostic_info >>= (λ diagnostics.
      skip_string_array >>= (λ strings.
        skip_extension_object >>= (λ header. pure (request_handle, service_result)))))))

-- One element of `nodesToRead`.
abbrev pub read_attribute : DecodedNodeId → Read DecodedNodeId
read_attribute node_id = read_u32 >>= (λ attribute_id.
    read_string
    >>= (λ index_range. read_u16 >>= (λ qname_ns. read_string >>= (λ qname_name. pure node_id))))

unfoldable pub read_value_id : Read DecodedNodeId
read_value_id = read_node_id >>= read_attribute

unfoldable pub parse_read_request_body : Read (List DecodedNodeId)
parse_read_request_body = skip_request_header >>= (λ request_handle. read_f64 >>= (λ max_age.
    read_u32 >>= (λ timestamps_to_return. read_array_length >>= elements read_value_id)))

pub record ReadResponseBody : Type 0 where
  pub request_handle : ℕ
  pub service_result : ℕ
  pub results : List DecodedDataValue

unfoldable pub parse_read_response_body : Read ReadResponseBody
parse_read_response_body = skip_response_header >>= (λ header. read_array_length >>= (λ len.
    elements read_data_value len >>= (λ results.
      pure (record { request_handle = header.0; service_result = header.1; results = results }))))

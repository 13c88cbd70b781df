-- ===== src/OpcUa/Services/Bounds.antt =====
-- The bodies of the Read service are read inside the message, and give no more than it holds.
use marlinspike_dpi.Prelude.{ℕ, zero, suc, ◌≤◌, inl, inr, refl, ap, eqb, ◌||◌, arith, length}
use marlinspike_dpi.OpcUa.Reader.{
  Reader, Result, ok, err, Read, read_u8, read_u16, read_u32, read_i64, read_f64, read_string,
  read_byte_string, read_array_length, elements, flag, remaining,
}
use marlinspike_dpi.OpcUa.Reader.Follows.{
  Follows, IsSafe, stays, bind-IsSafe, if-IsSafe, map-IsSafe, elements-IsSafe, read_u8-IsSafe,
  read_u16-IsSafe, read_u32-IsSafe, read_i64-IsSafe, read_f64-IsSafe, read_string-IsSafe,
  read_byte_string-IsSafe, read_array_length-IsSafe,
}
use marlinspike_dpi.OpcUa.Reader.Counts.{
  Counts, Result-cases, bind-Counts, bind-Counts_first, map-Counts, elements-Counts,
}
use marlinspike_dpi.OpcUa.NodeId.{read_node_id, DecodedNodeId}
use marlinspike_dpi.OpcUa.NodeId.Safety.{read_node_id-IsSafe, read_node_id-Counts}
use marlinspike_dpi.OpcUa.Value.{read_data_value}
use marlinspike_dpi.OpcUa.Value.Safety.{read_data_value-IsSafe, read_data_value-Counts}
use marlinspike_dpi.OpcUa.Services.{
  ReadResponseBody, skip_diagnostic_fields, skip_diagnostic_within, skip_diagnostic_info,
  skip_string_array, skip_body, skip_extension_object, skip_request_header, skip_response_header,
  read_attribute, read_value_id, parse_read_request_body, parse_read_response_body,
}
use marlinspike_dpi.OpcUa.Services.Termination.{skip_diagnostic_fields-IsSafe}

skip_diagnostic_within-IsSafe : (fuel : ℕ) → IsSafe (skip_diagnostic_within fuel)
unfolding skip_diagnostic_within
skip_diagnostic_within-IsSafe zero = stays
skip_diagnostic_within-IsSafe (suc fuel) = bind-IsSafe read_u8 _ read_u8-IsSafe (λ mask.
    bind-IsSafe (skip_diagnostic_fields mask) _ (skip_diagnostic_fields-IsSafe mask)
      (λ skipped. if-IsSafe (flag mask 0x40) _ _ (skip_diagnostic_within-IsSafe fuel) stays))

skip_diagnostic_info-IsSafe : IsSafe skip_diagnostic_info
unfolding skip_diagnostic_info
skip_diagnostic_info-IsSafe r = skip_diagnostic_within-IsSafe (suc (remaining r)) r

skip_string_array-IsSafe : IsSafe skip_string_array
unfolding skip_string_array
skip_string_array-IsSafe =
    bind-IsSafe read_array_length _ read_array_length-IsSafe
      (λ len. elements-IsSafe read_byte_string len read_byte_string-IsSafe)

skip_body-IsSafe : (encoding : ℕ) → IsSafe (skip_body encoding)
skip_body-IsSafe encoding = if-IsSafe (eqb encoding 0) _ _ stays (
    if-IsSafe (eqb encoding 1 || eqb encoding 2) _ _
      (map-IsSafe read_byte_string _ read_byte_string-IsSafe) stays)

skip_extension_object-IsSafe : IsSafe skip_extension_object
unfolding skip_extension_object
skip_extension_object-IsSafe =
    bind-IsSafe read_node_id _ read_node_id-IsSafe
      (λ type_id. bind-IsSafe read_u8 _ read_u8-IsSafe skip_body-IsSafe)

skip_request_header-IsSafe : IsSafe skip_request_header
unfolding skip_request_header
skip_request_header-IsSafe = bind-IsSafe read_node_id _ read_node_id-IsSafe (λ auth_token.
    bind-IsSafe read_i64 _ read_i64-IsSafe (λ timestamp.
      bind-IsSafe read_u32 _ read_u32-IsSafe (λ request_handle.
        bind-IsSafe read_u32 _ read_u32-IsSafe (λ return_diagnostics.
          bind-IsSafe read_string _ read_string-IsSafe (λ audit_entry_id.
            bind-IsSafe read_u32 _ read_u32-IsSafe
              (λ timeout_hint. map-IsSafe skip_extension_object _ skip_extension_object-IsSafe))))))

skip_response_header-IsSafe : IsSafe skip_response_header
unfolding skip_response_header
skip_response_header-IsSafe = bind-IsSafe read_i64 _ read_i64-IsSafe (λ timestamp.
    bind-IsSafe read_u32 _ read_u32-IsSafe (λ request_handle.
      bind-IsSafe read_u32 _ read_u32-IsSafe (λ service_result.
        bind-IsSafe skip_diagnostic_info _ skip_diagnostic_info-IsSafe (λ diagnostics.
          bind-IsSafe skip_string_array _ skip_string_array-IsSafe
            (λ strings. map-IsSafe skip_extension_object _ skip_extension_object-IsSafe)))))

after_node-IsSafe : (node_id : DecodedNodeId) → IsSafe (read_attribute node_id)
after_node-IsSafe node_id = bind-IsSafe read_u32 _ read_u32-IsSafe (λ attribute_id.
    bind-IsSafe read_string _ read_string-IsSafe (λ index_range.
      bind-IsSafe read_u16 _ read_u16-IsSafe
        (λ qname_ns. map-IsSafe read_string _ read_string-IsSafe)))

read_value_id-IsSafe : IsSafe read_value_id
unfolding read_value_id
read_value_id-IsSafe = bind-IsSafe read_node_id _ read_node_id-IsSafe after_node-IsSafe

read_value_id-Counts : Counts (λ n. 1) read_value_id
unfolding read_value_id
read_value_id-Counts =
    bind-Counts_first 1 read_node_id _ read_node_id-IsSafe read_node_id-Counts after_node-IsSafe

request-IsSafe : IsSafe parse_read_request_body
unfolding parse_read_request_body
request-IsSafe = bind-IsSafe skip_request_header _ skip_request_header-IsSafe (λ request_handle.
    bind-IsSafe read_f64 _ read_f64-IsSafe (λ max_age.
      bind-IsSafe read_u32 _ read_u32-IsSafe (λ timestamps.
        bind-IsSafe read_array_length _ read_array_length-IsSafe
          (λ len. elements-IsSafe read_value_id len read_value_id-IsSafe))))

request-Counts : Counts length parse_read_request_body
unfolding parse_read_request_body
request-Counts =
    bind-Counts length skip_request_header _ skip_request_header-IsSafe (λ request_handle.
      bind-Counts length read_f64 _ read_f64-IsSafe (λ max_age.
        bind-Counts length read_u32 _ read_u32-IsSafe (λ timestamps.
          bind-Counts length read_array_length _ read_array_length-IsSafe
            (elements-Counts read_value_id read_value_id-IsSafe read_value_id-Counts))))

response-IsSafe : IsSafe parse_read_response_body
unfolding parse_read_response_body
response-IsSafe = bind-IsSafe skip_response_header _ skip_response_header-IsSafe (λ header.
    bind-IsSafe read_array_length _ read_array_length-IsSafe (λ len.
      map-IsSafe (elements read_data_value len) _
        (elements-IsSafe read_data_value len read_data_value-IsSafe)))

abbrev pub result_count : ReadResponseBody → ℕ
result_count b = length b.results

response-Counts : Counts result_count parse_read_response_body
unfolding parse_read_response_body
response-Counts =
    bind-Counts result_count skip_response_header _ skip_response_header-IsSafe (λ header.
      bind-Counts result_count read_array_length _ read_array_length-IsSafe (λ len.
        map-Counts length result_count (elements read_data_value len) _ (λ results. refl)
          (elements-Counts read_data_value read_data_value-IsSafe read_data_value-Counts len)))

-- What a reading gives, measured; an error gives nothing.
abbrev pub yield_of : {A : Type 0} → (A → ℕ) → Result A → ℕ
yield_of size (ok a) = size a
yield_of size (err e) = 0

yield_of-le :
    {A : Type 0} (size : A → ℕ) (m : Read A) (r : Reader)
    → r.position ≤ length r.bytes
    → IsSafe m
    → Counts size m
    → yield_of size (m r).0 ≤ remaining r
yield_of-le size m r h s c = elim (Result-cases (m r).0) [
  | inl (a, q) ↦ rw q (let f = s r h in omega (arith, c r a h q, f.inside, ap length f.same))
  | inr (e, q) ↦ rw q (omega arith)
]

-- On every message, well formed or not, and from every cursor inside it, the readings of both
-- bodies leave the message as it is and the cursor inside it and not before where it stood,
-- whether they succeed or fail; and the nodes of the request or the results of the response that
-- they give are at most as many as the bytes that were left, whatever length the message
-- announces.
pub parse_body_bounds :
    (r : Reader)
    → r.position ≤ length r.bytes
    → Follows r (parse_read_request_body r).1
      × Follows r (parse_read_response_body r).1
      × (yield_of length (parse_read_request_body r).0 ≤ remaining r)
      × (yield_of result_count (parse_read_response_body r).0 ≤ remaining r)
parse_body_bounds r h = (
  request-IsSafe r h,
  response-IsSafe r h,
  yield_of-le length parse_read_request_body r h request-IsSafe request-Counts,
  yield_of-le result_count parse_read_response_body r h response-IsSafe response-Counts,
)

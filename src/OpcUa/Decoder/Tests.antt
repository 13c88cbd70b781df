-- ===== src/OpcUa/Decoder/Tests.antt =====
-- Runs of the decoder on messages of the source's tests, and the properties at concrete inputs.
use marlinspike_dpi.Prelude.{
  ℕ, suc, ◌≡◌, refl, false, none, some, List, [], ◌∷◌, ◌++◌, map, take, length, arith, ◌≤◌,
  if◌then◌else◌,
}
use marlinspike_dpi.Prelude.Bytes.{le_bytes, utf8_from}
use marlinspike_dpi.Prelude.Int.{negsuc, pos}
use marlinspike_dpi.Prelude.Text.{codes}
use marlinspike_dpi.Bronze.{null, int32, opc_ua_status_code}
use marlinspike_dpi.HashMap.{lookup, insert, remove}
use marlinspike_dpi.OpcUa.Reader.{
  Reader, ok, new, read_u8, read_bytes, read_u16, read_u32, read_u64, read_i32, read_i64, read_f64,
  read_byte_string, read_string, read_array_length, optional, repeat, elements, ◌>>=◌, flag, pure,
}
use marlinspike_dpi.OpcUa.Reader.Cursor.{at}
use marlinspike_dpi.OpcUa.Reader.Counts.{is_ok}
use marlinspike_dpi.OpcUa.Reader.Follows.{Follows}
use marlinspike_dpi.OpcUa.NodeId.{node, numeric, decode_node_id, read_node_id}
use marlinspike_dpi.OpcUa.Value.{
  DecodedDataValue, read_scalar, read_wide, read_variant, read_masked, read_data_value,
}
use marlinspike_dpi.OpcUa.Value.Stamped.{
  Parts, IsSent, decoded, data_value_bytes, read_data_value-bytes,
}
use marlinspike_dpi.OpcUa.Value.Truncated.{truncated_refused}
use marlinspike_dpi.OpcUa.Value.Unread.{unread_kind}
use marlinspike_dpi.OpcUa.State.{default_config, make_room, insert_read, take_read, with_config}
use marlinspike_dpi.OpcUa.State.Pairing.{open_request}
use marlinspike_dpi.OpcUa.Services.{
  read_service_type_id, skip_diagnostic_fields, skip_diagnostic_within, skip_diagnostic_info,
  skip_string_array, skip_extension_object, skip_request_header, skip_response_header,
  read_value_id, parse_read_request_body, parse_read_response_body,
}
use marlinspike_dpi.OpcUa.Services.Termination.{skip_diagnostic_info_lem}
use marlinspike_dpi.OpcUa.Services.Bounds.{yield_of, result_count, parse_body_bounds}
use marlinspike_dpi.OpcUa.Decoder.{Context, make_reading, emit, handle_msg_body}
use marlinspike_dpi.OpcUa.Decoder.Messages.{request, response, other, classify, ops_of, decode_all}
use marlinspike_dpi.OpcUa.Decoder.Correlation.{
  readings, reading_of, drawn, id_of, handle_msg_body-answered,
}

program : Unit {0}
unfolding lookup insert remove read_u8 read_bytes read_u16 read_u32 read_u64 read_i32 read_i64
    read_f64 read_byte_string read_string read_array_length optional repeat elements decode_node_id
    read_node_id read_scalar read_wide read_variant read_masked read_data_value make_room
    insert_read take_read open_request read_service_type_id skip_diagnostic_fields
    skip_diagnostic_within skip_diagnostic_info skip_string_array skip_extension_object
    skip_request_header skip_response_header read_value_id parse_read_request_body
    parse_read_response_body make_reading emit handle_msg_body classify ops_of decode_all readings
    drawn utf8_from
program = tt

abbrev minus_one : List ℕ
minus_one = 0xFF ∷ 0xFF ∷ 0xFF ∷ 0xFF ∷ []

-- `build_read_request_msg_body` for the node 1234 of namespace 2
abbrev read_request : List ℕ
read_request =
    (1 ∷ 0 ∷ 0x77 ∷ 2 ∷ [])
    ++ ((0 ∷ 0 ∷ [])
        ++ (le_bytes 8 0
            ++ (le_bytes 4 1
                ++ (le_bytes 4 0
                    ++ (minus_one
                        ++ (le_bytes 4 0
                            ++ ((0 ∷ 0 ∷ 0 ∷ [])
                                ++ (le_bytes 8 0
                                    ++ (le_bytes 4 0
                                        ++ (le_bytes 4 1
                                            ++ ((1 ∷ 2 ∷ 0xD2 ∷ 4 ∷ [])
                                                ++ (le_bytes 4 13
                                                    ++ (minus_one
                                                        ++ (le_bytes 2 0 ++ minus_one))))))))))))))

-- `build_read_response_msg_body` for two numbers of 32 bits
abbrev read_response : List ℕ
read_response =
    (1 ∷ 0 ∷ 0x7A ∷ 2 ∷ [])
    ++ (le_bytes 8 0
        ++ (le_bytes 4 1
            ++ (le_bytes 4 0
                ++ ((0 ∷ [])
                    ++ (minus_one
                        ++ ((0 ∷ 0 ∷ 0 ∷ [])
                            ++ (le_bytes 4 2
                                ++ ((1 ∷ 6 ∷ [])
                                    ++ (le_bytes 4 50 ++ ((1 ∷ 6 ∷ []) ++ minus_one))))))))))

abbrev context : ℕ → Context ℕ
context now_us = record {
  secure_channel_id = 1;
  request_id = 7;
  envelope = 9;
  now_us = now_us;
  capture_id = codes "cap";
}

-- Names are counted from the state on.
abbrev count_up : ℕ → ℕ × ℕ
count_up n = (suc n, suc n)

abbrev results : List DecodedDataValue
results =
    record {
      value = int32 (pos 50);
      quality = opc_ua_status_code 0;
      source_ts = none;
      server_ts = none;
    }
    ∷ record {
      value = int32 (negsuc 0);
      quality = opc_ua_status_code 0;
      source_ts = none;
      server_ts = none;
    }
    ∷ []

asked : classify read_request ≡ request (node 2 (numeric 1234) ∷ [])
unfolding program
asked = refl

answered : classify read_response ≡ response results
unfolding program
answered = refl

-- `unrelated_service_type_id_is_ignored`
ignored : classify (1 ∷ 0 ∷ 0x9F ∷ 2 ∷ le_bytes 8 0) ≡ other
unfolding program
ignored = refl

-- The response after its request, and once more: it finds nothing to take.
handle_msg_body-answered_example :
    (map reading_of
        (handle_msg_body count_up read_response
          (context 200)
          5
          (decode_all count_up
            ((read_request, context 100) ∷ [])
            5
            (with_config default_config)).1).0
      ≡ readings 200 (node 2 (numeric 1234) ∷ []) 0 results)
    × (map id_of
          (handle_msg_body count_up read_response
            (context 200)
            5
            (decode_all count_up
              ((read_request, context 100) ∷ [])
              5
              (with_config default_config)).1).0
        ≡ 6 ∷ 7 ∷ [])
unfolding decode_all handle_msg_body drawn program
handle_msg_body-answered_example =
    handle_msg_body-answered count_up [] 5 default_config read_request (context 100)
      (node 2 (numeric 1234) ∷ []) read_response (context 200) results asked answered refl

-- A DiagnosticInfo inside another, on fuel that is more than enough.
abbrev nested_info : Reader
nested_info = new (0x41 ∷ 5 ∷ 0 ∷ 0 ∷ 0 ∷ 0 ∷ [])

skip_diagnostic_info_lem_example :
    (skip_diagnostic_within 9 nested_info ≡ skip_diagnostic_info nested_info)
    × (skip_diagnostic_info nested_info
        ≡ (read_u8 >>= (λ mask.
              skip_diagnostic_fields mask
              >>= (λ skipped. if flag mask 0x40 then skip_diagnostic_info else pure tt)))
            nested_info)
skip_diagnostic_info_lem_example =
    skip_diagnostic_info_lem nested_info 9 (omega arith) (omega arith)

-- A response that announces 2^31 - 1 results and holds none.
abbrev huge : Reader
huge = new (
    le_bytes 8 0
    ++ (le_bytes 8 0 ++ ((0 ∷ []) ++ (minus_one ++ (0 ∷ 0 ∷ 0 ∷ 0xFF ∷ 0xFF ∷ 0xFF ∷ 0x7F ∷ [])))))

parse_body_bounds_example :
    Follows huge (parse_read_request_body huge).1
    × Follows huge (parse_read_response_body huge).1
    × (yield_of length (parse_read_request_body huge).0 ≤ 28)
    × (yield_of result_count (parse_read_response_body huge).0 ≤ 28)
parse_body_bounds_example = parse_body_bounds huge (omega arith)

-- A value with a status and one of the two time stamps.
abbrev stamped : Parts
stamped = record {
  value = some (int32 (negsuc 0));
  status = some 0x80000000;
  source = some 1_000_000;
  source_pico = none;
  server = none;
  server_pico = some 3;
}

stamped-IsSent : IsSent stamped
stamped-IsSent = record {
  value = omega arith;
  status = omega arith;
  source = omega arith;
  source_pico = tt;
  server = tt;
  server_pico = omega arith;
}

read_data_value-bytes_example :
    read_data_value (at (9 ∷ []) (data_value_bytes stamped ++ (7 ∷ [])))
    ≡ (ok (decoded stamped), at ((9 ∷ []) ++ data_value_bytes stamped) (7 ∷ []))
read_data_value-bytes_example = read_data_value-bytes stamped (9 ∷ []) (7 ∷ []) stamped-IsSent

truncated_refused_example :
    is_ok (read_data_value (new (take 19 (data_value_bytes stamped)))).0 ≡ false
unfolding data_value_bytes
truncated_refused_example = truncated_refused stamped 19 stamped-IsSent (omega arith)

-- An extension object, whose kind is 22.
unread_kind_example :
    (read_variant (at [] (0x96 ∷ (le_bytes 4 0x7FFFFFFF ++ [])))
      ≡ (ok null, at ((0x96 ∷ []) ++ le_bytes 4 0x7FFFFFFF) []))
    × ((read_data_value (at [] (3 ∷ 22 ∷ (le_bytes 4 0x01020304 ++ [])))).0
        ≡ ok (record {
          value = null;
          quality = opc_ua_status_code 0x01020304;
          source_ts = none;
          server_ts = none;
        }))
unread_kind_example =
    unread_kind 22 0x7FFFFFFF 0x01020304 [] [] (omega arith) (omega arith) (omega arith)
      (omega arith)

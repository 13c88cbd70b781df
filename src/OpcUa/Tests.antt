-- ===== src/OpcUa/Tests.antt =====
-- Runs of the table of pending reads and of the cursor, and the properties at concrete inputs.
use marlinspike_dpi.Prelude.Bytes.{utf8_from}
use marlinspike_dpi.Prelude.Text.{codes}
use marlinspike_dpi.OpcUa.NodeId.RoundTrip.{encode, read_node_id-encode}
use marlinspike_dpi.OpcUa.NodeId.{
  DecodedNodeId, node, string, string_raw, numeric, read_node_id, decode_node_id,
}
use marlinspike_dpi.OpcUa.Reader.Cursor.{at}
use marlinspike_dpi.OpcUa.Reader.{
  ok, err, out_of_bounds, invalid_length, new, read_u8, read_u16, read_u32, read_i32, read_bytes,
}
use marlinspike_dpi.Prelude.{ℕ, ◌≡◌, refl, ◌⊎◌, none, some, List, [], ◌∷◌, arith, ◌++◌}
use marlinspike_dpi.HashMap.{lookup, insert, retain, remove, min_by_key, remove_oldest}
use marlinspike_dpi.OpcUa.State.{
  PendingKey, PendingConfig, with_config, insert_read, take_read, evict_expired, make_room,
  evict_lru_one,
}
use marlinspike_dpi.OpcUa.State.Pending.{
  Op, requested, answered, swept, step, after, IsValid, after-IsValid,
}
use marlinspike_dpi.OpcUa.State.Pairing.{open_request, take_read-open_request}

program : Unit {0}
unfolding lookup insert retain remove min_by_key remove_oldest insert_read take_read evict_expired
    make_room evict_lru_one step after open_request
program = tt

abbrev request : ℕ → PendingKey
request n = record { secure_channel_id = 1; request_id = n }

abbrev two_reads : PendingConfig
two_reads = record { ttl_us = 1_000_000; max_pending = 2 }

-- Three requests in turn, the latest first.
abbrev history : List (Op ℕ)
history =
    requested (request 3) (30 ∷ []) 300
    ∷ requested (request 2) (20 ∷ 21 ∷ []) 200
    ∷ requested (request 1) (10 ∷ []) 100
    ∷ []

-- `lru_evicts_oldest_under_pressure`
oldest_evicted :
    ((take_read (request 1) (after history (with_config two_reads))).0 ≡ none)
    × ((take_read (request 2) (after history (with_config two_reads))).0 ≡ some (20 ∷ 21 ∷ []))
    × ((take_read (request 3) (after (swept 1_000_200 ∷ history) (with_config two_reads))).0
        ≡ some (30 ∷ []))
    × ((take_read (request 2) (after (swept 1_000_200 ∷ history) (with_config two_reads))).0 ≡ none)
unfolding program
oldest_evicted = (refl, refl, refl, refl)

after-IsValid_example : IsValid (after history (with_config two_reads))
after-IsValid_example =
    after-IsValid history (with_config two_reads) (record { distinct = tt; capped = omega arith })

take_read-open_request_example :
    (((take_read (request 2) (after history (with_config two_reads))).0 ≡ none)
      ⊎ ((take_read (request 2) (after history (with_config two_reads))).0
          ≡ open_request (request 2) history))
    × ((take_read (request 2) (after (answered (request 2) ∷ history) (with_config two_reads))).0
        ≡ none)
    × ((take_read
          (request 2)
          (after (requested (request 2) (22 ∷ []) 400 ∷ history) (with_config two_reads))).0
        ≡ some (22 ∷ []))
take_read-open_request_example = take_read-open_request (request 2) history two_reads (22 ∷ []) 400

-- A text node in namespace 5 behind one byte of the message and before another.
abbrev named : DecodedNodeId
named = node 5 (string (codes "Tank1"))

read_node_id-encode_example :
    read_node_id (at (9 ∷ []) (encode named ++ (7 ∷ [])))
    ≡ (ok named, at ((9 ∷ []) ++ encode named) (7 ∷ []))
unfolding utf8_from
read_node_id-encode_example =
    read_node_id-encode named (9 ∷ []) (7 ∷ []) (omega arith) (omega arith, refl)

-- `numeric_full_encoding`, and what is not UTF-8
node_ids :
    ((read_node_id (new (2 ∷ 5 ∷ 0 ∷ 0xBE ∷ 0xBA ∷ 0xFE ∷ 0xCA ∷ []))).0
      ≡ ok (node 5 (numeric 0xCAFEBABE)))
    × ((read_node_id (new (3 ∷ 0 ∷ 0 ∷ 2 ∷ 0 ∷ 0 ∷ 0 ∷ 0xC3 ∷ 0x28 ∷ []))).0
        ≡ ok (node 0 (string_raw (0xC3 ∷ 0x28 ∷ []))))
    × ((read_node_id (new (3 ∷ 0 ∷ 0 ∷ 2 ∷ 0 ∷ 0 ∷ 0 ∷ 0xC3 ∷ []))).0 ≡ err out_of_bounds)
    × ((read_node_id (new (6 ∷ []))).0 ≡ err invalid_length)
unfolding read_node_id decode_node_id read_u8 read_u16 read_u32 read_i32 read_bytes utf8_from
node_ids = (refl, refl, refl, refl)

-- ===== src/Engine/Streaming/L4.antt =====
-- `src/engine/streaming.rs`: the payload of a TCP or UDP packet behind its IP headers.
use marlinspike_dpi.Prelude.{
  ℕ, zero, suc, ◌+◌, ◌*◌, ◌/◌, ◌%◌, Bool, ◌||◌, not, Option, none, some, List, [], ◌∷◌,
  if◌then◌else◌, eqb, ltb, length, drop, get_or, ◌^◌,
}
use marlinspike_dpi.Prelude.Bytes.{from_be16}

pub record L4Payload : Type 0 where
  pub payload : List ℕ
  pub src_port : ℕ
  pub dst_port : ℕ

-- The bytes behind a header, and the ports at its start.
abbrev pub behind_ports : List ℕ → ℕ → Option L4Payload
behind_ports l4 header_len = some (record {
  payload = drop header_len l4;
  src_port = from_be16 (get_or l4 0 0) (get_or l4 1 0);
  dst_port = from_be16 (get_or l4 2 0) (get_or l4 3 0);
})

unfoldable pub parse_l4_ports : List ℕ → ℕ → Option L4Payload
parse_l4_ports l4 proto =
    let data_off = get_or l4 12 0 / 16 * 4 in
    if eqb proto 6
    then (if ltb (length l4) 20
        then none
        else if ltb data_off 20 || ltb (length l4) data_off
        then none
        else behind_ports l4 data_off)
    else if eqb proto 17
    then (if ltb (length l4) 8 then none else behind_ports l4 8)
    else none

unfoldable pub extract_l4_payload_v4 : List ℕ → Option L4Payload
extract_l4_payload_v4 pkt =
    let ihl = get_or pkt 0 0 % 16 * 4 in
    let frag = from_be16 (get_or pkt 6 0) (get_or pkt 7 0) in
    if ltb (length pkt) 20
    then none
    else if ltb ihl 20 || ltb (length pkt) ihl
    then none
    else if not (eqb (frag % 2 ^ 13) 0)
    then none
    else parse_l4_ports (drop ihl pkt) (get_or pkt 9 0)

-- Hop-by-hop, routing and destination options share a length format.
abbrev pub is_extension : ℕ → Bool
is_extension next_hdr = eqb next_hdr 0 || eqb next_hdr 43 || eqb next_hdr 60

-- The loop over extension headers, for the rounds that are left.
unfoldable pub walk_extensions : ℕ → List ℕ → ℕ → ℕ → Option L4Payload
walk_extensions zero pkt next_hdr offset = none
walk_extensions (suc rounds) pkt next_hdr offset =
    let behind = offset + (get_or pkt (offset + 1) 0 + 1) * 8 in
    let rest = walk_extensions rounds pkt (get_or pkt offset 0) behind in
    if is_extension next_hdr
    then (if ltb (length pkt) (offset + 2)
        then none
        else if ltb (length pkt) behind
        then none
        else rest)
    else if eqb next_hdr 6 || eqb next_hdr 17
    then parse_l4_ports (drop offset pkt) next_hdr
    else none

unfoldable pub extract_l4_payload_v6 : List ℕ → Option L4Payload
extract_l4_payload_v6 pkt =
    if ltb (length pkt) 40 then none else walk_extensions 8 pkt (get_or pkt 6 0) 40

abbrev pub by_version : List ℕ → ℕ → Option L4Payload
by_version ip_packet version =
    if eqb version 4
    then extract_l4_payload_v4 ip_packet
    else if eqb version 6
    then extract_l4_payload_v6 ip_packet
    else none

unfoldable pub extract_l4_payload : List ℕ → Option L4Payload
extract_l4_payload [] = none
extract_l4_payload (b ∷ bytes) = by_version (b ∷ bytes) (b / 16)

-- ===== src/Engine/Link.antt =====
-- `src/engine/mod.rs`: link types and the stripping of link-layer headers.
pub mod Laws
use marlinspike_dpi.Prelude.{
  ℕ, ◌/◌, Bool, true, false, ◌&&◌, Option, none, some, List, [], ◌∷◌, if◌then◌else◌, eqb, leb, ltb,
  length, drop, take, get_elem?, get_or, ◌==◌, list_eq, nat_eq,
}
use marlinspike_dpi.Prelude.Bytes.{from_be16}

pub data LinkType : Type 0 where
  ethernet : LinkType
  raw_ip : LinkType
  linux_sll : LinkType
  linux_sll2 : LinkType

unfoldable pub from_dlt : ℕ → Option LinkType
from_dlt dlt =
    if eqb dlt 1
    then some ethernet
    else if eqb dlt 101
    then some raw_ip
    else if eqb dlt 113
    then some linux_sll
    else if eqb dlt 276
    then some linux_sll2
    else none

unfoldable pub dlt : LinkType → ℕ
dlt ethernet = 1
dlt raw_ip = 101
dlt linux_sll = 113
dlt linux_sll2 = 276

-- The EtherType and the bytes of the network layer.
pub record Layer3 : Type 0 where
  pub ethertype : ℕ
  pub payload : List ℕ

abbrev pub no_payload : Layer3
no_payload = record { ethertype = 0; payload = [] }

abbrev pub by_version : List ℕ → ℕ → Layer3
by_version pkt_data version =
    if eqb version 4
    then record { ethertype = 0x0800; payload = pkt_data }
    else if eqb version 6
    then record { ethertype = 0x86DD; payload = pkt_data }
    else no_payload

unfoldable pub decode_raw_ip : List ℕ → Layer3
decode_raw_ip [] = no_payload
decode_raw_ip (b ∷ bytes) = by_version (b ∷ bytes) (b / 16)

unfoldable pub decode_linux_sll : List ℕ → Layer3
decode_linux_sll pkt_data = if ltb (length pkt_data) 16 then no_payload else record {
  ethertype = from_be16 (get_or pkt_data 14 0) (get_or pkt_data 15 0);
  payload = drop 16 pkt_data;
}

unfoldable pub decode_linux_sll2 : List ℕ → Layer3
decode_linux_sll2 pkt_data = if ltb (length pkt_data) 20 then no_payload else record {
  ethertype = from_be16 (get_or pkt_data 0 0) (get_or pkt_data 1 0);
  payload = drop 20 pkt_data;
}

-- The bytes behind a prefix of the given length, where they look like IPv4 or ARP.
abbrev pub behind_prefix : ℕ → List ℕ → Option Layer3
behind_prefix offset pkt_data =
    let payload = drop offset pkt_data in
    if ltb (length pkt_data) offset
    then none
    else if leb 20 (length payload) && eqb (get_or payload 0 0 / 16) 4
    then some (record { ethertype = 0x0800; payload = payload })
    else if leb 8 (length payload)
        && take 6 payload == (0x00 ∷ 0x01 ∷ 0x08 ∷ 0x00 ∷ 0x06 ∷ 0x04 ∷ [])
    then some (record { ethertype = 0x0806; payload = payload })
    else none

abbrev pub or_else : Option Layer3 → Option Layer3 → Option Layer3
or_else none other = other
or_else (some l) other = some l

unfoldable pub detect_prefixed_l3_payload : List ℕ → Option Layer3
detect_prefixed_l3_payload pkt_data = or_else (behind_prefix 6 pkt_data) (behind_prefix 4 pkt_data)

-- ===== src/Stovetop/Padding.antt =====
-- `src/stovetop/padding.rs`: the padding behind the payload of a frame.
pub mod Laws
use marlinspike_dpi.Prelude.{
  ℕ, ◌+◌, ◌-◌, Bool, ◌&&◌, not, Option, none, some, List, if◌then◌else◌, eqb, leb, ltb, length,
  take, drop, get_or, min, any,
}
use marlinspike_dpi.Prelude.Bytes.{from_be16}

-- An offset behind the frame's start, and the padding there.
pub record Region : Type 0 where
  pub offset : ℕ
  pub padding : List ℕ

-- The total length of an IPv4 packet, or the length field of IEEE 802.3.
abbrev pub real_payload_len : ℕ → List ℕ → Option ℕ
real_payload_len ethertype l2_payload =
    if eqb ethertype 0x0800 && leb 4 (length l2_payload)
    then some (from_be16 (get_or l2_payload 2 0) (get_or l2_payload 3 0))
    else if leb ethertype 1500
    then some ethertype
    else none

abbrev pub min_payload : ℕ
min_payload = 46

unfoldable pub padding_behind : ℕ → ℕ → List ℕ → Option Region
padding_behind ethernet_header_len real l2_payload =
    let actual = length l2_payload in
    let padding_end = min actual min_payload in
    if ltb real actual && ltb real min_payload
    then if ltb real padding_end
      then some (record {
        offset = ethernet_header_len + real;
        padding = take (padding_end - real) (drop real l2_payload);
      })
      else none
    else if ltb real actual
    then some (record { offset = ethernet_header_len + real; padding = drop real l2_payload })
    else none

abbrev pub padding_of : ℕ → Option ℕ → List ℕ → Option Region
padding_of ethernet_header_len none l2_payload = none
padding_of ethernet_header_len (some real) l2_payload =
    padding_behind ethernet_header_len real l2_payload

unfoldable pub extract_padding : ℕ → List ℕ → ℕ → Option Region
extract_padding ethertype l2_payload ethernet_header_len =
    padding_of ethernet_header_len (real_payload_len ethertype l2_payload) l2_payload

unfoldable pub has_nonzero_padding : List ℕ → Bool
has_nonzero_padding padding = any (λ b. not (eqb b 0)) padding

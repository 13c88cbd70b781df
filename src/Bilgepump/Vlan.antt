-- ===== src/Bilgepump/Vlan.antt =====
-- src/bilgepump/detectors/vlan.rs: double-tagged frames.
pub mod Laws
use Prim.Native.Nat.{bit_and}
use marlinspike_dpi.Prelude.{
  ℕ, Bool, true, false, List, [], ◌∷◌, if◌then◌else◌, eqb, leb, ltb, not, ◌&&◌, ◌||◌, length,
  get_or,
}
use marlinspike_dpi.Prelude.Bytes.{from_be16}
use marlinspike_dpi.Bilgepump.Config.{BilgepumpConfig}
use marlinspike_dpi.Bilgepump.Alerts.{BilgepumpAlert, AlertKind, AlertSeverity}

-- `matches!(ethertype, 0x8100 | 0x88A8 | 0x9100)`
pub is_vlan_tag : ℕ → Bool
is_vlan_tag ethertype = eqb ethertype 0x8100 || eqb ethertype 0x88A8 || eqb ethertype 0x9100

-- `u16::from_be_bytes([frame[i], frame[i + 1]])`, at offsets that the length check allows.
abbrev pub be16_at : List ℕ → ℕ → ℕ → ℕ
be16_at frame i j = from_be16 (get_or frame i 0) (get_or frame j 0)

pub inspect_vlan_tags : List ℕ → BilgepumpConfig → List BilgepumpAlert
inspect_vlan_tags raw_frame config =
    if not config.check_vlan_hopping || ltb (length raw_frame) 22
    then []
    else if not (is_vlan_tag (be16_at raw_frame 12 13))
    then []
    else let outer_vlan = bit_and (be16_at raw_frame 14 15) 0x0FFF in
      let inner_vlan = bit_and (be16_at raw_frame 18 19) 0x0FFF in
      if is_vlan_tag (be16_at raw_frame 16 17)
        && leb 22 (length raw_frame)
        && not (eqb outer_vlan inner_vlan)
      then record {
        kind = AlertKind.vlan_hopping outer_vlan inner_vlan;
        severity = AlertSeverity.critical;
        decoder = "bilgepump:vlan_hop";
      }
        ∷ []
      else []

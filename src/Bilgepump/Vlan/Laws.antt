-- ===== src/Bilgepump/Vlan/Laws.antt =====
-- Which tagged frames are reported.
use Prim.Native.Nat.{bit_and}
use marlinspike_dpi.Prelude.{
  ℕ, ◌<◌, ◌≡◌, List, [], ◌∷◌, not, ◌&&◌, if◌then◌else◌, arith, length, eqb, leb,
}
use marlinspike_dpi.Prelude.Bytes.{from_be16}
use marlinspike_dpi.Bilgepump.Config.{BilgepumpConfig}
use marlinspike_dpi.Bilgepump.Alerts.{AlertKind, AlertSeverity}
use marlinspike_dpi.Bilgepump.Vlan.{inspect_vlan_tags, is_vlan_tag}

-- The two addresses of an Ethernet header.
pub record Header : Type 0 where
  pub d0 : ℕ
  pub d1 : ℕ
  pub d2 : ℕ
  pub d3 : ℕ
  pub d4 : ℕ
  pub d5 : ℕ
  pub s0 : ℕ
  pub s1 : ℕ
  pub s2 : ℕ
  pub s3 : ℕ
  pub s4 : ℕ
  pub s5 : ℕ

-- An EtherType or a tag's control information, as two bytes.
pub record Word : Type 0 where
  pub hi : ℕ
  pub lo : ℕ

abbrev pub value : Word → ℕ
value w = from_be16 w.hi w.lo

-- The VLAN identifier of a tag: its low twelve bits.
abbrev pub vlan_of : Word → ℕ
vlan_of w = bit_and (value w) 0x0FFF

-- A frame with room for two tags: the addresses, then `type1 tci1 type2 tci2`, then the rest.
abbrev pub frame : Header → Word → Word → Word → Word → List ℕ → List ℕ
frame h type1 tci1 type2 tci2 rest =
    h.d0 ∷ h.d1 ∷ h.d2 ∷ h.d3 ∷ h.d4 ∷ h.d5 ∷ h.s0 ∷ h.s1 ∷ h.s2 ∷ h.s3 ∷ h.s4 ∷ h.s5 ∷ type1.hi
    ∷ type1.lo ∷ tci1.hi ∷ tci1.lo ∷ type2.hi ∷ type2.lo ∷ tci2.hi ∷ tci2.lo ∷ rest

-- A frame is reported exactly when the check is on, at least two bytes follow the tags, both types
-- are tag types and the two VLAN identifiers differ, and the report names both identifiers.
inspect_vlan_tags-frame :
    (config : BilgepumpConfig) (h : Header) (type1 tci1 type2 tci2 : Word) (rest : List ℕ)
    → inspect_vlan_tags (frame h type1 tci1 type2 tci2 rest) config ≡ (
        if config.check_vlan_hopping
          && leb 2 (length rest)
          && is_vlan_tag (value type1)
          && is_vlan_tag (value type2)
          && not (eqb (vlan_of tci1) (vlan_of tci2))
        then record {
          kind = AlertKind.vlan_hopping (vlan_of tci1) (vlan_of tci2);
          severity = AlertSeverity.critical;
          decoder = "bilgepump:vlan_hop";
        }
          ∷ []
        else [])
unfolding inspect_vlan_tags
inspect_vlan_tags-frame config h type1 tci1 type2 tci2 rest = ground arith

-- A frame of fewer than 22 bytes is never reported.
pub inspect_vlan_tags_short :
    (config : BilgepumpConfig) (raw_frame : List ℕ)
    → length raw_frame < 22
    → inspect_vlan_tags raw_frame config ≡ []
unfolding inspect_vlan_tags
inspect_vlan_tags_short config raw_frame h = ground arith

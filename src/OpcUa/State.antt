-- ===== src/OpcUa/State.antt =====
-- `src/opc_ua/state.rs`: pending reads by channel and request.
pub mod Pending
pub mod Pairing
use marlinspike_dpi.Prelude.{
  ℕ, ◌-◌, Bool, true, false, ◌&&◌, not, Option, none, some, List, [], if◌then◌else◌, eqb, leb, ltb,
  length, ◌↔◌, ◌≡◌, arith, PartialEq,
}
use marlinspike_dpi.HashMap.{Map, lookup, insert, remove, retain, contains_key, remove_oldest}

abbrev pub default_pending_ttl_us : ℕ
default_pending_ttl_us = 60_000_000

abbrev pub default_max_pending : ℕ
default_max_pending = 4096

pub record PendingConfig : Type 0 where
  pub ttl_us : ℕ
  pub max_pending : ℕ

abbrev pub default_config : PendingConfig
default_config = record { ttl_us = default_pending_ttl_us; max_pending = default_max_pending }

pub record PendingKey : Type 0 where
  pub secure_channel_id : ℕ
  pub request_id : ℕ

abbrev pub pending_equal : PendingKey → PendingKey → Bool
pending_equal a b = eqb a.secure_channel_id b.secure_channel_id && eqb a.request_id b.request_id

pub pending_equal_iff : (a b : PendingKey) → (pending_equal a b ≡ true) ↔ (a ≡ b)
pending_equal_iff a b = ground arith

instance abbrev pub pending_eq : PartialEq PendingKey
pending_eq = record { equal = pending_equal; equal_iff = pending_equal_iff }

-- The table never looks into the nodes, so their type is a parameter here.
pub record PendingEntry (Node : Type 0) : Type 0 where
  pub nodes : List Node
  pub inserted_us : ℕ

pub record PendingReads (Node : Type 0) : Type 0 where
  pub entries : Map PendingKey (PendingEntry Node)
  pub config : PendingConfig

module _ {Node : Type 0} where
  abbrev pub with_config : PendingConfig → PendingReads Node
  with_config config = record { entries = []; config = config }

  unfoldable pub evict_lru_one : PendingReads Node → PendingReads Node
  evict_lru_one p = record p {
    entries = remove_oldest (λ (e : PendingEntry Node). e.inserted_us) p.entries;
  }

  -- A full table gives up one entry for a new key.
  unfoldable pub make_room : PendingKey → PendingReads Node → PendingReads Node
  make_room key p =
      if leb p.config.max_pending (length p.entries) && not (contains_key key p.entries)
      then evict_lru_one p
      else p

  unfoldable pub insert_read : PendingKey → List Node → ℕ → PendingReads Node → PendingReads Node
  insert_read key nodes now_us p =
      let roomy = make_room key p in
      record roomy {
        entries = insert key (record { nodes = nodes; inserted_us = now_us }) roomy.entries;
      }

  abbrev pub nodes_of : Option (PendingEntry Node) → Option (List Node)
  nodes_of none = none
  nodes_of (some e) = some e.nodes

  unfoldable pub take_read : PendingKey → PendingReads Node → Option (List Node) × PendingReads Node
  take_read key p = (nodes_of (lookup key p.entries), record p { entries = remove key p.entries })

  abbrev pub is_live : ℕ → PendingConfig → PendingEntry Node → Bool
  is_live now_us config e = ltb (now_us - e.inserted_us) config.ttl_us

  unfoldable pub evict_expired : ℕ → PendingReads Node → ℕ × PendingReads Node
  evict_expired now_us p =
      let kept = retain (is_live now_us p.config) p.entries in
      (length p.entries - length kept, record p { entries = kept })

-- ===== src/Engine/Streaming.antt =====
-- `src/engine/streaming.rs`: the session of an inline consumer, packet by packet.
pub mod L4
pub mod Flow
pub mod Runs
pub mod Settling
mod Tests
use marlinspike_dpi.Prelude.{
  ℕ, ◌+◌, ◌%◌, ◌^◌, ◌-◌, Bool, true, false, ◌&&◌, not, Option, none, some, List, [], ◌∷◌,
  if◌then◌else◌, leb, length, min, unwrap_or, PartialEq,
}
use marlinspike_dpi.HashMap.{Map, lookup, insert, contains_key, remove_oldest}
use marlinspike_dpi.Engine.Streaming.L4.{L4Payload, extract_l4_payload}

pub data Classification (Tag : Type 0) : Type 0 where
  need_more : Classification Tag
  classified : Tag → Classification Tag
  unknown : Classification Tag

pub record DpiSessionConfig : Type 0 where
  pub max_classify_attempts : ℕ
  pub max_flows : ℕ

abbrev pub default_config : DpiSessionConfig
default_config = record { max_classify_attempts = 16; max_flows = 65536 }

pub record FlowState (Tag : Type 0) : Type 0 where
  pub attempts : ℕ
  pub classification : Option Tag
  pub last_seen : ℕ

-- Of a flow key only its equality is used; the registry is a parameter of the operations.
pub record DpiSession (FlowKey Tag : Type 0) : Type 0 where
  pub flows : Map FlowKey (FlowState Tag)
  pub config : DpiSessionConfig
  pub tick : ℕ

-- `saturating_add` of a `u32`
abbrev pub saturating_add : ℕ → ℕ → ℕ
saturating_add a b = min (a + b) (2 ^ 32 - 1)

module _ {Tag : Type 0} where
  abbrev pub fresh : ℕ → FlowState Tag
  fresh tick = record { attempts = 0; classification = none; last_seen = tick }

  -- A packet that names no protocol is one more attempt.
  abbrev pub missed : FlowState Tag → FlowState Tag
  missed state = record state { attempts = saturating_add state.attempts 1 }

module _ {FlowKey Tag : Type 0} ⦃e : PartialEq FlowKey⦄ where
  unfoldable pub with_config : DpiSessionConfig → DpiSession FlowKey Tag
  with_config config = record { flows = []; config = config; tick = 0 }

  unfoldable pub flow_count : DpiSession FlowKey Tag → ℕ
  flow_count session = length session.flows

  unfoldable pub evict_lru : DpiSession FlowKey Tag → DpiSession FlowKey Tag
  evict_lru session = record session { flows = remove_oldest (λ s. s.last_seen) session.flows }

  -- What the caller changes through the reference to an entry.
  unfoldable pub write : FlowKey → FlowState Tag → DpiSession FlowKey Tag → DpiSession FlowKey Tag
  write flow state session = record session { flows = insert flow state session.flows }

  unfoldable pub make_room : FlowKey → DpiSession FlowKey Tag → DpiSession FlowKey Tag
  make_room flow session =
      if not (contains_key flow session.flows)
        && leb session.config.max_flows (length session.flows)
      then evict_lru session
      else session

  -- The entry of the flow, and the session that holds it.
  unfoldable pub touch_flow :
      FlowKey → ℕ → DpiSession FlowKey Tag → FlowState Tag × DpiSession FlowKey Tag
  touch_flow flow tick session =
      let roomy = make_room flow session in
      let state = record (unwrap_or (lookup flow roomy.flows) (fresh tick)) { last_seen = tick } in
      (state, write flow state roomy)

  abbrev pub out_of_attempts : DpiSession FlowKey Tag → FlowState Tag → Bool
  out_of_attempts session state = leb session.config.max_classify_attempts state.attempts

  -- `classify_name` of the registry
  module _ (classify_name : List ℕ → ℕ → ℕ → Option Tag) where
    unfoldable pub attempt :
        FlowKey → List ℕ → ℕ → DpiSession FlowKey Tag → Classification Tag × DpiSession FlowKey Tag
    attempt flow ip_packet tick session =
        let touched = touch_flow flow tick session in
        let state = missed touched.0 in
        elim (extract_l4_payload ip_packet) [
          | none ↦ (need_more, write flow state touched.1)
          | some l4 ↦ elim (classify_name l4.payload l4.src_port l4.dst_port) [
            | some name ↦ (
              classified name,
              write flow (record (touched.0) { classification = some name }) touched.1,
            )
            | none ↦ (
              if out_of_attempts session state then unknown else need_more,
              write flow state touched.1,
            )
          ]
        ]

    unfoldable pub feed :
        FlowKey → List ℕ → DpiSession FlowKey Tag → Classification Tag × DpiSession FlowKey Tag
    feed flow ip_packet session =
        let tick = (session.tick + 1) % 2 ^ 64 in
        let ticked = record session { tick = tick } in
        elim (lookup flow session.flows) [
          | none ↦ attempt flow ip_packet tick ticked
          | some state ↦
              let seen = write flow (record state { last_seen = tick }) ticked in
              elim state.classification [
                | some tag ↦ (classified tag, seen)
                | none ↦
                    if out_of_attempts session state
                    then (unknown, seen)
                    else attempt flow ip_packet tick seen
              ]
        ]

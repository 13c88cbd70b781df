-- ===== src/Engine/Streaming/Flow.antt =====
-- One flow of the streaming session by itself, without the table of flows.
use marlinspike_dpi.Prelude.{
  ℕ, ◌+◌, ◌^◌, ◌%◌, ◌≡◌, refl, false, ◌&&◌, not, Option, none, some, List, [], ◌∷◌, if◌then◌else◌,
  leb, length, unwrap_or, PartialEq, Option-cases, Bool-cases, inl, inr,
}
use marlinspike_dpi.HashMap.{lookup, insert, contains_key}
use marlinspike_dpi.HashMap.Laws.{lookup-insert_self}
use marlinspike_dpi.Engine.Streaming.{
  Classification, need_more, classified, unknown, FlowState, DpiSession, saturating_add, make_room,
  touch_flow, write, fresh, missed, out_of_attempts, attempt, feed,
}
use marlinspike_dpi.Engine.Streaming.L4.{extract_l4_payload}

-- What is known of a flow: its attempts and its protocol.
pub record View (Tag : Type 0) : Type 0 where
  pub attempts : ℕ
  pub classification : Option Tag

module _ {Tag : Type 0} (classify_name : List ℕ → ℕ → ℕ → Option Tag) where
  -- One attempt at a flow that had so many.
  abbrev pub attempt_alone : ℕ → ℕ → List ℕ → Classification Tag × View Tag
  attempt_alone limit attempts ip_packet =
      let more : View Tag = record {
        attempts = saturating_add attempts 1;
        classification = none;
      } in
      elim (extract_l4_payload ip_packet) [
        | none ↦ (need_more, more)
        | some l4 ↦ elim (classify_name l4.payload l4.src_port l4.dst_port) [
          | some name ↦
              (classified name, record { attempts = attempts; classification = some name })
          | none ↦ (if leb limit (saturating_add attempts 1) then unknown else need_more, more)
        ]
      ]

  unfoldable pub alone : ℕ → List ℕ → Option (View Tag) → Classification Tag × View Tag
  alone limit ip_packet none = attempt_alone limit 0 ip_packet
  alone limit ip_packet (some v) = elim v.classification [
    | some tag ↦ (classified tag, v)
    | none ↦ if leb limit v.attempts then (unknown, v) else attempt_alone limit v.attempts ip_packet
  ]

  -- What is known of a flow by itself after the packets.
  unfoldable pub alone_run : ℕ → List (List ℕ) → Option (View Tag) → Option (View Tag)
  alone_run limit [] v = v
  alone_run limit (packet ∷ packets) v = alone_run limit packets (some (alone limit packet v).1)

module _ {Tag : Type 0} where
  abbrev pub view_of : FlowState Tag → View Tag
  view_of state = record { attempts = state.attempts; classification = state.classification }

  abbrev pub viewed : Option (FlowState Tag) → Option (View Tag)
  viewed none = none
  viewed (some state) = some (view_of state)

module _ {FlowKey Tag : Type 0} ⦃e : PartialEq FlowKey⦄ where
  abbrev pub view : FlowKey → DpiSession FlowKey Tag → Option (View Tag)
  view flow session = viewed (lookup flow session.flows)

  -- There is room for the flow.
  abbrev pub HasRoom : FlowKey → DpiSession FlowKey Tag → Type 0
  HasRoom flow session =
      not (contains_key flow session.flows) && leb session.config.max_flows (length session.flows)
      ≡ false

  abbrev found : FlowKey → ℕ → DpiSession FlowKey Tag → FlowState Tag
  found flow tick session = unwrap_or (lookup flow session.flows) (fresh tick)

  touch_flow-HasRoom :
      (flow : FlowKey) (tick : ℕ) (old : FlowState Tag) (session : DpiSession FlowKey Tag)
      → HasRoom flow session
      → found flow tick session ≡ old
      → touch_flow flow tick session
        ≡ (record old { last_seen = tick }, write flow (record old { last_seen = tick }) session)
  unfolding touch_flow make_room
  touch_flow-HasRoom flow tick old session h k = rw (h, k) refl

  module _ (classify_name : List ℕ → ℕ → ℕ → Option Tag) where
    -- The answer is that of the flow alone, and so is what is known of the flow then.
    abbrev pub Agrees :
        FlowKey
        → Classification Tag × DpiSession FlowKey Tag
        → Classification Tag × View Tag
        → Type 0
    Agrees flow here there = (here.0 ≡ there.0) × (view flow here.1 ≡ some there.1)

    attempt-alone :
        (flow : FlowKey) (ip_packet : List ℕ) (tick : ℕ) (old : FlowState Tag)
        (session : DpiSession FlowKey Tag)
        → HasRoom flow session
        → found flow tick session ≡ old
        → old.classification ≡ none
        → Agrees flow (attempt classify_name flow ip_packet tick session) (
            attempt_alone classify_name session.config.max_classify_attempts old.attempts ip_packet)
    unfolding attempt write
    attempt-alone flow ip_packet tick old session h k u =
        let state = record old { last_seen = tick } in
        let room = touch_flow-HasRoom flow tick old session h k in
        let held = insert flow state session.flows in
        let more = lookup-insert_self flow (missed state) held in
        elim (Option-cases (extract_l4_payload ip_packet)) [
          | inl q ↦ (
            rw (q, attempt, attempt_alone) refl,
            rw (q, room, more, u, attempt, attempt_alone) refl,
          )
          | inr (l4, q) ↦ elim (Option-cases (classify_name l4.payload l4.src_port l4.dst_port)) [
            | inl c ↦ (
              rw (q, c, room, attempt, attempt_alone) refl,
              rw (q, c, room, more, u, attempt, attempt_alone) refl,
            )
            | inr (name, c) ↦
                let named =
                  lookup-insert_self flow (record state { classification = some name }) held in
                (
                  rw (q, c, attempt, attempt_alone) refl,
                  rw (q, c, room, named, attempt, attempt_alone) refl,
                )
          ]
        ]

    pub feed-alone :
        (flow : FlowKey) (ip_packet : List ℕ) (session : DpiSession FlowKey Tag)
        → HasRoom flow session
        → Agrees flow
            (feed classify_name flow ip_packet session)
            (alone classify_name session.config.max_classify_attempts ip_packet (view flow session))
    unfolding feed alone write
    feed-alone flow ip_packet session h =
        let tick = (session.tick + 1) % 2 ^ 64 in
        let ticked = record session { tick = tick } in
        elim (Option-cases (lookup flow session.flows)) [
          | inl q ↦
              rw (q, feed, alone)
                (attempt-alone flow ip_packet tick (fresh tick) ticked h (rw q refl) refl)
          | inr (state, q) ↦
              let seen = record state { last_seen = tick } in
              let kept = lookup-insert_self flow seen session.flows in
              elim (Option-cases state.classification) [
                | inr (tag, c) ↦ (rw (q, c, feed, alone) refl, rw (q, c, kept, feed, alone) refl)
                | inl c ↦ elim (Bool-cases (out_of_attempts session state)) [
                  | inl b ↦ (rw (q, c, b, feed, alone) refl, rw (q, c, b, kept, feed, alone) refl)
                  | inr b ↦
                      rw (q, c, b, feed, alone)
                        (attempt-alone flow ip_packet tick seen (write flow seen ticked)
                          (rw kept refl) (rw kept refl) c)
                ]
              ]
        ]

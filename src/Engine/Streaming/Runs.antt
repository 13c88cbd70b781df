-- ===== src/Engine/Streaming/Runs.antt =====
-- Runs of the streaming session over packets of many flows, while the table has room.
use marlinspike_dpi.Prelude.{
  ℕ, suc, ◌+◌, ◌^◌, ◌%◌, ◌<◌, ◌≤◌, ◌≡◌, ◌≢◌, refl, ap, ◌∙◌, Bool, Option, none, some, List, [], ◌∷◌,
  arith, if◌then◌else◌, length, PartialEq, ◌==◌, Option-cases, Bool-cases, inl, inr,
}
use marlinspike_dpi.HashMap.{lookup, contains_key}
use marlinspike_dpi.HashMap.Laws.{lookup-insert_self, lookup-insert_ne, length-insert}
use marlinspike_dpi.Engine.Streaming.{
  DpiSessionConfig, FlowState, DpiSession, with_config, make_room, touch_flow, write,
  out_of_attempts, attempt, feed,
}
use marlinspike_dpi.Engine.Streaming.L4.{extract_l4_payload}
use marlinspike_dpi.Engine.Streaming.Flow.{alone, alone_run, view, viewed, HasRoom, feed-alone}

module _ {FlowKey : Type 0} ⦃e : PartialEq FlowKey⦄ where
  -- The packets of one flow, in order.
  unfoldable pub packets_of : FlowKey → List (FlowKey × List ℕ) → List (List ℕ)
  packets_of flow [] = []
  packets_of flow (call ∷ calls) =
      let rest = packets_of flow calls in if call.0 == flow then call.1 ∷ rest else rest

module _ {FlowKey Tag : Type 0} ⦃e : PartialEq FlowKey⦄ where
  -- Only the entry of the flow changes, and the table grows by one at most.
  record Only (flow : FlowKey) (before after : DpiSession FlowKey Tag) : Type 0 where
    others : (other : FlowKey) → flow ≢ other → lookup other after.flows ≡ lookup other before.flows
    config : after.config ≡ before.config
    size :
        length after.flows + (if contains_key flow after.flows then 0 else 1)
        ≤ length before.flows + 1

  Only-refl : (flow : FlowKey) (session : DpiSession FlowKey Tag) → Only flow session session
  Only-refl flow session = record { others = λ other h. refl; config = refl; size = ground arith }

  write-Only :
      (flow : FlowKey) (state : FlowState Tag) (before after : DpiSession FlowKey Tag)
      → Only flow before after
      → Only flow before (write flow state after)
  unfolding write
  write-Only flow state before after h = record {
    others = λ other ne. lookup-insert_ne flow other state after.flows ne ∙ h.others other ne;
    config = h.config;
    size =
        rw (lookup-insert_self flow state after.flows)
          (ground (arith, h.size, length-insert flow state after.flows));
  }

  touch_flow-Only :
      (flow : FlowKey) (tick : ℕ) (before after : DpiSession FlowKey Tag)
      → HasRoom flow after
      → Only flow before after
      → Only flow before (touch_flow flow tick after).1
  unfolding touch_flow make_room
  touch_flow-Only flow tick before after room h = rw room (write-Only flow _ before after h)

  module _ (classify_name : List ℕ → ℕ → ℕ → Option Tag) where
    attempt-Only :
        (flow : FlowKey) (ip_packet : List ℕ) (tick : ℕ) (before after : DpiSession FlowKey Tag)
        → HasRoom flow after
        → Only flow before after
        → Only flow before (attempt classify_name flow ip_packet tick after).1
    unfolding attempt
    attempt-Only flow ip_packet tick before after room h =
        let touched = touch_flow flow tick after in
        let kept = touch_flow-Only flow tick before after room h in
        elim (Option-cases (extract_l4_payload ip_packet)) [
          | inl q ↦ rw (q, attempt) (write-Only flow _ before touched.1 kept)
          | inr (l4, q) ↦ elim (Option-cases (classify_name l4.payload l4.src_port l4.dst_port)) [
            | inl c ↦ rw (q, c, attempt) (write-Only flow _ before touched.1 kept)
            | inr (name, c) ↦ rw (q, c, attempt) (write-Only flow _ before touched.1 kept)
          ]
        ]

    feed-Only :
        (flow : FlowKey) (ip_packet : List ℕ) (session : DpiSession FlowKey Tag)
        → HasRoom flow session
        → Only flow session (feed classify_name flow ip_packet session).1
    unfolding feed write
    feed-Only flow ip_packet session room =
        let tick = (session.tick + 1) % 2 ^ 64 in
        let ticked = record session { tick = tick } in
        let same : Only flow session ticked = record {
          others = λ other h. refl;
          config = refl;
          size = ground arith;
        } in
        elim (Option-cases (lookup flow session.flows)) [
          | inl q ↦ rw (q, feed) (attempt-Only flow ip_packet tick session ticked room same)
          | inr (state, q) ↦
              let seen = record state { last_seen = tick } in
              let held = write-Only flow seen session ticked same in
              let here : HasRoom flow (write flow seen ticked) =
                rw (lookup-insert_self flow seen session.flows) refl in
              elim (Option-cases state.classification) [
                | inr (tag, c) ↦ rw (q, c, feed) held
                | inl c ↦ elim (Bool-cases (out_of_attempts session state)) [
                  | inl b ↦ rw (q, c, b, feed) held
                  | inr b ↦
                      rw (q, c, b, feed)
                        (attempt-Only flow ip_packet tick session (write flow seen ticked) here
                          held)
                ]
              ]
        ]

    unfoldable pub after : List (FlowKey × List ℕ) → DpiSession FlowKey Tag → DpiSession FlowKey Tag
    after [] session = session
    after (call ∷ calls) session = after calls (feed classify_name call.0 call.1 session).1

  module _ (classify_name : List ℕ → ℕ → ℕ → Option Tag) where
    room_left :
        (flow : FlowKey) (session : DpiSession FlowKey Tag)
        → length session.flows < session.config.max_flows
        → HasRoom flow session
    room_left flow session h = ground (arith, h)

    feed-view :
        (flow other : FlowKey) (packet : List ℕ) (session : DpiSession FlowKey Tag)
        → length session.flows < session.config.max_flows
        → view flow (feed classify_name other packet session).1 ≡ (
            if other == flow
            then some
                (alone classify_name session.config.max_classify_attempts packet
                  (view flow session)).1
            else view flow session)
    feed-view flow other packet session h = elim (Bool-cases (other == flow)) [
      | inl q ↦
          let same : other ≡ flow = (e.equal_iff other flow).0 q in
          rw (q, ← same)
            (feed-alone classify_name other packet session (room_left other session h)).1
      | inr q ↦
          let apart : other ≢ flow = ground (arith, q, e.equal_iff other flow) in
          let only = feed-Only classify_name other packet session (room_left other session h) in
          rw q (ap viewed (only.others flow apart))
    ]

    after-view :
        (flow : FlowKey) (calls : List (FlowKey × List ℕ)) (session : DpiSession FlowKey Tag)
        → length session.flows + length calls ≤ session.config.max_flows
        → (view flow (after classify_name calls session)
            ≡ alone_run classify_name session.config.max_classify_attempts
                (packets_of flow calls)
                (view flow session))
          × ((after classify_name calls session).config ≡ session.config)
          × (length (after classify_name calls session).flows ≤ length session.flows + length calls)
    unfolding after alone_run packets_of
    after-view flow [] session h = (refl, refl, omega arith)
    after-view flow (call ∷ calls) session h =
        let next = (feed classify_name call.0 call.1 session).1 in
        let only =
          feed-Only classify_name call.0 call.1 session
            (room_left call.0 session (omega (arith, h))) in
        let grown : length next.flows ≤ length session.flows + 1 = ground (arith, only.size) in
        let rest =
          after-view flow calls next (omega (arith, h, grown, ap (λ c. c.max_flows) only.config)) in
        let here = feed-view flow call.0 call.1 session (omega (arith, h)) in
        let limit = session.config.max_classify_attempts in
        let packets = packets_of flow calls in
        let known = some (alone classify_name limit call.1 (view flow session)).1 in
        let chain =
          rest.0
          ∙ (ap (λ c. alone_run classify_name c.max_classify_attempts packets (view flow next))
                only.config
              ∙ ap (alone_run classify_name limit packets) here) in
        let chosen = λ (b : Bool).
          alone_run classify_name limit packets (if b then known else view flow session) in
        let config = rest.1 ∙ only.config in
        let size : length (after classify_name calls next).flows
            ≤ length session.flows + suc (length calls) =
          omega (arith, rest.2, grown) in
        elim (Bool-cases (call.0 == flow)) [
          | inl q ↦ (rw q (chain ∙ ap chosen q), config, size)
          | inr q ↦ (rw q (chain ∙ ap chosen q), config, size)
        ]

    -- A session that tracks at most its allowed number of flows answers for each flow what the flow
    -- would be answered by itself: the answer depends on the packets of that flow alone, in their
    -- order, and not on the packets of other flows, the ticks or the order of the table, whatever
    -- the registry recognises. The condition is that there were fewer packets than the table has
    -- places.
    pub feed-after :
        (config : DpiSessionConfig) (calls : List (FlowKey × List ℕ)) (flow : FlowKey)
        (packet : List ℕ)
        → length calls < config.max_flows
        → (feed classify_name flow packet (after classify_name calls (with_config config))).0
          ≡ (alone classify_name config.max_classify_attempts packet
              (alone_run classify_name config.max_classify_attempts (packets_of flow calls) none)).0
    unfolding with_config lookup
    feed-after config calls flow packet h =
        let session = after classify_name calls (with_config config) in
        let run = after-view flow calls (with_config config) (omega (arith, h)) in
        let room : length session.flows < session.config.max_flows =
          omega (arith, run.2, h, ap (λ c. c.max_flows) run.1) in
        (feed-alone classify_name flow packet session (room_left flow session room)).0
        ∙ (ap (λ c. (alone classify_name c.max_classify_attempts packet (view flow session)).0)
              run.1
            ∙ ap (λ v. (alone classify_name config.max_classify_attempts packet v).0) run.0)

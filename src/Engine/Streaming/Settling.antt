-- ===== src/Engine/Streaming/Settling.antt =====
-- The streaming session does not ask for packets of a flow for ever.
use marlinspike_dpi.Prelude.{
  ℕ, suc, ◌+◌, ◌^◌, ◌<◌, ◌≤◌, ◌≡◌, ◌≢◌, refl, sym, ap, ◌∙◌, Bool, true, false, Option, none, some,
  List, [], ◌∷◌, arith, leb, length, min, PartialEq, Option-cases, Bool-cases, inl, inr, is_some,
  ◌⊎◌,
}
use marlinspike_dpi.Engine.Streaming.{
  Classification, need_more, classified, unknown, DpiSessionConfig, with_config, feed,
}
use marlinspike_dpi.Engine.Streaming.L4.{extract_l4_payload}
use marlinspike_dpi.Engine.Streaming.Flow.{View, alone, attempt_alone, alone_run}
use marlinspike_dpi.Engine.Streaming.Runs.{packets_of, after, feed-after}

module _ {Tag : Type 0} where
  -- The flow is classified, or its attempts count its packets up to the limit.
  abbrev Advanced : ℕ → ℕ → Option (View Tag) → Type 0
  Advanced limit n none = n ≡ 0
  Advanced limit n (some v) = (is_some v.classification ≡ true) ⊎ (min n limit ≤ v.attempts)

  counted : {P : Type 0} (o : Option Tag) → o ≡ none → (is_some o ≡ true) ⊎ P → P
  counted none c (inl s) = absurd (ground (arith, s))
  counted (some tag) c (inl s) = absurd (ground (arith, c))
  counted o c (inr p) = p

  asks_more : Classification Tag → Bool
  asks_more need_more = true
  asks_more (classified tag) = false
  asks_more unknown = false

  need_more_ne : (c : Classification Tag) → asks_more c ≡ false → c ≢ need_more
  unfolding asks_more
  need_more_ne c h q = let bad : true ≡ false = sym (ap asks_more q) ∙ h in ground (arith, bad)

  module _ (classify_name : List ℕ → ℕ → ℕ → Option Tag) where
    attempt_alone-Advanced :
        (limit n attempts : ℕ) (packet : List ℕ)
        → limit < 2 ^ 32
        → min n limit ≤ attempts
        → Advanced limit (suc n) (some (attempt_alone classify_name limit attempts packet).1)
    attempt_alone-Advanced limit n attempts packet h k =
        elim (Option-cases (extract_l4_payload packet)) [
          | inl q ↦ rw (q, attempt_alone) (inr (omega (arith, h, k)))
          | inr (l4, q) ↦ elim (Option-cases (classify_name l4.payload l4.src_port l4.dst_port)) [
            | inl c ↦ rw (q, c, attempt_alone) (inr (omega (arith, h, k)))
            | inr (name, c) ↦ rw (q, c, attempt_alone) (inl refl)
          ]
        ]

    alone-Advanced :
        (limit n : ℕ) (packet : List ℕ) (v : Option (View Tag))
        → limit < 2 ^ 32
        → Advanced limit n v
        → Advanced limit (suc n) (some (alone classify_name limit packet v).1)
    unfolding alone
    alone-Advanced limit n packet none h k =
        attempt_alone-Advanced limit n 0 packet h (omega (arith, k))
    alone-Advanced limit n packet (some v) h k = elim (Option-cases v.classification) [
      | inr (tag, c) ↦ rw (c, alone) (inl (rw c refl))
      | inl c ↦ elim (Bool-cases (leb limit v.attempts)) [
        | inl b ↦ rw (c, b, alone) (inr (ground (arith, b)))
        | inr b ↦
            rw (c, b, alone)
              (attempt_alone-Advanced limit n v.attempts packet h (counted v.classification c k))
      ]
    ]

    alone_run-Advanced :
        (limit n m : ℕ) (packets : List (List ℕ)) (v : Option (View Tag))
        → limit < 2 ^ 32
        → n + length packets ≡ m
        → Advanced limit n v
        → Advanced limit m (alone_run classify_name limit packets v)
    unfolding alone_run
    alone_run-Advanced limit n m [] v h q k = let same : n ≡ m = omega (arith, q) in rw (← same) k
    alone_run-Advanced limit n m (packet ∷ packets) v h q k =
        alone_run-Advanced limit (suc n) m packets (some (alone classify_name limit packet v).1) h
          (omega (arith, q)) (alone-Advanced limit n packet v h k)

    Advanced-settled :
        (limit n : ℕ) (packet : List ℕ) (v : Option (View Tag))
        → 0 < n
        → limit ≤ n
        → Advanced limit n v
        → asks_more (alone classify_name limit packet v).0 ≡ false
    unfolding alone asks_more
    Advanced-settled limit n packet none some_packet k h = absurd (omega (arith, some_packet, h))
    Advanced-settled limit n packet (some v) some_packet k h =
        elim (Option-cases v.classification) [
          | inr (tag, c) ↦ rw (c, alone) refl
          | inl c ↦
              let full : leb limit v.attempts ≡ true =
                ground (arith, counted v.classification c h, k) in
              rw (c, full, alone) refl
        ]

module _ {FlowKey Tag : Type 0} ⦃e : PartialEq FlowKey⦄
    (classify_name : List ℕ → ℕ → ℕ → Option Tag) where
  -- A flow of which the session has seen a packet, and as many as it may examine, is settled: the
  -- next packet of the flow is answered with a protocol or as unknown and never with the wish for
  -- more packets, whatever the packets hold, whatever the registry recognises, and whichever
  -- packets of other flows came between. The conditions are that there were fewer packets than the
  -- table has places, and that the limit is a 32-bit number.
  pub feed_settled :
      (config : DpiSessionConfig) (calls : List (FlowKey × List ℕ)) (flow : FlowKey)
      (packet : List ℕ)
      → length calls < config.max_flows
      → config.max_classify_attempts < 2 ^ 32
      → 0 < length (packets_of flow calls)
      → config.max_classify_attempts ≤ length (packets_of flow calls)
      → (feed classify_name flow packet (after classify_name calls (with_config config))).0
        ≢ need_more
  feed_settled config calls flow packet h small some_packet full q =
      let limit = config.max_classify_attempts in
      let packets = packets_of flow calls in
      let known =
        alone_run-Advanced classify_name limit 0 (length packets) packets none small (omega arith)
          refl in
      let settled =
        Advanced-settled classify_name limit (length packets) packet
          (alone_run classify_name limit packets none) some_packet full known in
      let answer = feed-after classify_name config calls flow packet h in
      need_more_ne _ settled (sym answer ∙ q)

-- ===== src/OpcUa/Decoder/Correlation.antt =====
-- Which node a reading is about, over every sequence of messages.
use marlinspike_dpi.Prelude.Text.{codes}
use marlinspike_dpi.Prelude.{
  ℕ, suc, zero, ◌≡◌, refl, ap, ◌∙◌, ◌⊎◌, inl, inr, some, List, [], ◌∷◌, map, unwrap_or, length,
  drop, get_elem?, ◌%◌, ◌^◌, none,
}
use marlinspike_dpi.OpcUa.NodeId.{DecodedNodeId, node, numeric}
use marlinspike_dpi.OpcUa.Value.{DecodedDataValue}
use marlinspike_dpi.OpcUa.State.{PendingReads, PendingConfig, take_read, with_config}
use marlinspike_dpi.OpcUa.State.Pending.{after}
use marlinspike_dpi.OpcUa.State.Pairing.{take_read-open_request}
use marlinspike_dpi.OpcUa.Decoder.{
  ProcessReading, BronzeEvent, Context, key_of, make_reading, emit, handle_msg_body,
}
use marlinspike_dpi.OpcUa.Decoder.Messages.{
  request, response, classify, ops_of, with_op, act, handle_msg_body-act, decode_all,
  decode_all-pending,
}

-- A result under a node.
abbrev pub placed : ℕ → DecodedNodeId → DecodedDataValue → ProcessReading
placed now_us point dv = record {
  source_protocol = codes "opc_ua";
  point_id = point;
  value = dv.value;
  quality = dv.quality;
  source_ts = dv.source_ts;
  observed_ts = now_us;
}

-- The results and the nodes side by side; where the nodes end, a result stands under its place.
unfoldable pub readings : ℕ → List DecodedNodeId → ℕ → List DecodedDataValue → List ProcessReading
readings now_us nodes i [] = []
readings now_us [] i (dv ∷ results) =
    placed now_us (node 0 (numeric (i % 2 ^ 32))) dv ∷ readings now_us [] (suc i) results
readings now_us (n ∷ nodes) i (dv ∷ results) =
    placed now_us n dv ∷ readings now_us nodes (suc i) results

-- The node at a place, and the nodes from there on.
drop_split :
    (nodes : List DecodedNodeId) (i : ℕ)
    → ((drop i nodes ≡ []) × (get_elem? nodes i ≡ none) × (drop (suc i) nodes ≡ []))
      ⊎ ((n : DecodedNodeId) × (drop i nodes ≡ n ∷ drop (suc i) nodes)
          × (get_elem? nodes i ≡ some n))
drop_split [] zero = inl (refl, refl, refl)
drop_split [] (suc i) = inl (refl, refl, refl)
drop_split (x ∷ nodes) zero = inr (x, refl, refl)
drop_split (x ∷ nodes) (suc i) = drop_split nodes i

abbrev pub reading_of : {Envelope Name : Type 0} → BronzeEvent Envelope Name → ProcessReading
reading_of e = e.reading

abbrev pub id_of : {Envelope Name : Type 0} → BronzeEvent Envelope Name → Name
id_of e = e.event_id

module _ {Name Ids : Type 0} (next_event_id : Ids → Name × Ids) where
  -- So many names drawn from the caller, in order.
  unfoldable pub drawn : ℕ → Ids → List Name
  drawn zero ids = []
  drawn (suc n) ids = (next_event_id ids).0 ∷ drawn n (next_event_id ids).1

module _ {Envelope Name Ids : Type 0} (next_event_id : Ids → Name × Ids) where
  emit-readings :
      (ctx : Context Envelope) (nodes : List DecodedNodeId) (i : ℕ)
      (results : List DecodedDataValue) (ids : Ids)
      → map reading_of (emit next_event_id ctx nodes i results ids).0
        ≡ readings ctx.now_us (drop i nodes) i results
  unfolding emit readings make_reading
  emit-readings ctx nodes i [] ids = refl
  emit-readings ctx nodes i (dv ∷ results) ids =
      let later = emit-readings ctx nodes (suc i) results (next_event_id ids).1 in
      elim (drop_split nodes i) [
        | inl (ends, none_there, still) ↦
            rw (ends, none_there)
              (ap (◌∷◌ (placed ctx.now_us (node 0 (numeric (i % 2 ^ 32))) dv))
                (later ∙ ap (λ d. readings ctx.now_us d (suc i) results) still))
        | inr (n, starts, there) ↦ rw (starts, there) (ap (◌∷◌ (placed ctx.now_us n dv)) later)
      ]

  response-readings :
      (body : List ℕ) (ctx : Context Envelope) (ids : Ids) (pending : PendingReads DecodedNodeId)
      (results : List DecodedDataValue)
      → classify body ≡ response results
      → map reading_of (handle_msg_body next_event_id body ctx ids pending).0
        ≡ readings ctx.now_us (unwrap_or (take_read (key_of ctx) pending).0 []) 0 results
  response-readings body ctx ids pending results h =
      ap (λ o. map reading_of o.0) (handle_msg_body-act next_event_id body ctx ids pending)
      ∙ (ap (λ m. map reading_of (act next_event_id m ctx ids pending).0) h
          ∙ emit-readings ctx (unwrap_or (take_read (key_of ctx) pending).0 []) 0 results ids)

  emit-drawn :
      (ctx : Context Envelope) (nodes : List DecodedNodeId) (i : ℕ)
      (results : List DecodedDataValue) (ids : Ids)
      → map id_of (emit next_event_id ctx nodes i results ids).0
        ≡ drawn next_event_id (length results) ids
  unfolding emit drawn
  emit-drawn ctx nodes i [] ids = refl
  emit-drawn ctx nodes i (dv ∷ results) ids =
      ap (◌∷◌ (next_event_id ids).0) (emit-drawn ctx nodes (suc i) results (next_event_id ids).1)

  -- A request draws no name, and its nodes are there to take.
  after_request :
      (history : List (List ℕ × Context Envelope)) (ids : Ids) (config : PendingConfig)
      (body : List ℕ) (ctx : Context Envelope) (nodes : List DecodedNodeId)
      → classify body ≡ request nodes
      → ((decode_all next_event_id ((body, ctx) ∷ history) ids (with_config config)).0
          ≡ (decode_all next_event_id history ids (with_config config)).0)
        × ((take_read
              (key_of ctx)
              (decode_all next_event_id ((body, ctx) ∷ history) ids (with_config config)).1).0
            ≡ some nodes)
  unfolding decode_all ops_of
  after_request history ids config body ctx nodes h =
      let before = decode_all next_event_id history ids (with_config config) in
      (
        ap (λ o. o.1) (handle_msg_body-act next_event_id body ctx before.0 before.1)
            ∙ ap (λ m. (act next_event_id m ctx before.0 before.1).1) h,
        ap (λ p. (take_read (key_of ctx) p).0)
              (decode_all-pending next_event_id ((body, ctx) ∷ history) ids config
                ∙ ap (λ m. after (with_op m ctx (ops_of history)) (with_config config)) h)
            ∙ (take_read-open_request (key_of ctx) (ops_of history) config nodes ctx.now_us).2,
      )

  -- After every history, a response that follows right upon the request with its channel and
  -- number gives one event for each result, in order: their names are the next ones that the
  -- caller hands out, none of which the request took, and each reading stands under the node at
  -- its place in the request, or under that place where the request has fewer nodes.
  pub handle_msg_body-answered :
      (history : List (List ℕ × Context Envelope)) (ids : Ids) (config : PendingConfig)
      (asked : List ℕ) (asking : Context Envelope) (nodes : List DecodedNodeId) (body : List ℕ)
      (ctx : Context Envelope) (results : List DecodedDataValue)
      → classify asked ≡ request nodes
      → classify body ≡ response results
      → key_of ctx ≡ key_of asking
      → let before =
          decode_all next_event_id ((asked, asking) ∷ history) ids (with_config config) in
        let events = (handle_msg_body next_event_id body ctx before.0 before.1).0 in
        (map reading_of events ≡ readings ctx.now_us nodes 0 results)
        × (map id_of events
            ≡ drawn next_event_id
                (length results)
                (decode_all next_event_id history ids (with_config config)).0)
  handle_msg_body-answered history ids config asked asking nodes body ctx results h k e =
      let before = decode_all next_event_id ((asked, asking) ∷ history) ids (with_config config) in
      let start = after_request history ids config asked asking nodes h in
      (
        response-readings body ctx before.0 before.1 results k
            ∙ ap (λ o. readings ctx.now_us (unwrap_or o []) 0 results)
                (ap (λ key. (take_read key before.1).0) e ∙ start.1),
        ap (λ o. map id_of o.0) (handle_msg_body-act next_event_id body ctx before.0 before.1)
            ∙ (ap (λ m. map id_of (act next_event_id m ctx before.0 before.1).0) k
                ∙ (emit-drawn ctx (unwrap_or (take_read (key_of ctx) before.1).0 []) 0 results
                      before.0
                    ∙ ap (drawn next_event_id (length results)) start.0)),
      )

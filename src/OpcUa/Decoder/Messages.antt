-- ===== src/OpcUa/Decoder/Messages.antt =====
-- What the messages are, and the table of pending reads after a history of them.
use marlinspike_dpi.Prelude.{
  ℕ, ◌≡◌, refl, ap, ◌∙◌, inl, inr, List, [], ◌∷◌, if◌then◌else◌, eqb, unwrap_or, Bool-cases,
}
use marlinspike_dpi.OpcUa.Reader.{Reader, Result, ok, err, new}
use marlinspike_dpi.OpcUa.NodeId.{DecodedNodeId}
use marlinspike_dpi.OpcUa.Value.{DecodedDataValue}
use marlinspike_dpi.OpcUa.State.{PendingReads, PendingConfig, take_read, insert_read, with_config}
use marlinspike_dpi.OpcUa.State.Pending.{Op, requested, answered, step, after}
use marlinspike_dpi.OpcUa.Services.{
  ReadResponseBody, read_request_type_id, read_response_type_id, read_service_type_id,
  parse_read_request_body, parse_read_response_body,
}
use marlinspike_dpi.OpcUa.Decoder.{
  Context, key_of, emit, Outcome, on_request, on_response, on_service, handle_msg_body,
}

-- What a message is: a request with its nodes, a response with its results, or neither.
pub data Message : Type 0 where
  request : List DecodedNodeId → Message
  response : List DecodedDataValue → Message
  other : Message

abbrev request_of : Result (List DecodedNodeId) → Message
request_of (ok nodes) = request nodes
request_of (err e) = other

abbrev response_of : Result ReadResponseBody → Message
response_of (ok b) = response b.results
response_of (err e) = other

abbrev service_of : Result ℕ → Reader → Message
service_of (ok type_id) r =
    if eqb type_id read_request_type_id
    then request_of (parse_read_request_body r).0
    else if eqb type_id read_response_type_id
    then response_of (parse_read_response_body r).0
    else other
service_of (err e) r = other

unfoldable pub classify : List ℕ → Message
classify body = let type_id = read_service_type_id (new body) in service_of type_id.0 type_id.1

-- The calls on the table of pending reads that a message makes, before the earlier ones.
abbrev pub with_op :
    {Envelope : Type 0}
    → Message
    → Context Envelope
    → List (Op DecodedNodeId)
    → List (Op DecodedNodeId)
with_op (request nodes) ctx ops = requested (key_of ctx) nodes ctx.now_us ∷ ops
with_op (response results) ctx ops = answered (key_of ctx) ∷ ops
with_op other ctx ops = ops

-- A history of bodies, the latest first.
unfoldable pub ops_of :
    {Envelope : Type 0} → List (List ℕ × Context Envelope) → List (Op DecodedNodeId)
ops_of [] = []
ops_of ((body, ctx) ∷ earlier) = with_op (classify body) ctx (ops_of earlier)

module _ {Envelope Name Ids : Type 0} (next_event_id : Ids → Name × Ids) where
  abbrev pub act :
      Message → Context Envelope → Ids → PendingReads DecodedNodeId → Outcome Envelope Name Ids
  act (request nodes) ctx ids pending = ([], ids, insert_read (key_of ctx) nodes ctx.now_us pending)
  act (response results) ctx ids pending =
      let taken = take_read (key_of ctx) pending in
      let out = emit next_event_id ctx (unwrap_or taken.0 []) 0 results ids in
      (out.0, out.1, taken.1)
  act other ctx ids pending = ([], ids, pending)

  request_of-act :
      (o : Result (List DecodedNodeId)) (ctx : Context Envelope) (ids : Ids)
      (pending : PendingReads DecodedNodeId)
      → on_request next_event_id ctx o ids pending ≡ act (request_of o) ctx ids pending
  request_of-act (ok nodes) ctx ids pending = refl
  request_of-act (err e) ctx ids pending = refl

  response_of-act :
      (o : Result ReadResponseBody) (ctx : Context Envelope) (ids : Ids)
      (pending : PendingReads DecodedNodeId)
      → on_response next_event_id ctx o ids pending ≡ act (response_of o) ctx ids pending
  response_of-act (ok b) ctx ids pending = refl
  response_of-act (err e) ctx ids pending = refl

  service_of-act :
      (o : Result ℕ) (r : Reader) (ctx : Context Envelope) (ids : Ids)
      (pending : PendingReads DecodedNodeId)
      → on_service next_event_id ctx o r ids pending ≡ act (service_of o r) ctx ids pending
  service_of-act (err e) r ctx ids pending = refl
  service_of-act (ok type_id) r ctx ids pending = elim (Bool-cases (eqb type_id 631)) [
    | inl q ↦ rw q (request_of-act (parse_read_request_body r).0 ctx ids pending)
    | inr q ↦ elim (Bool-cases (eqb type_id 634)) [
      | inl p ↦ rw (q, p) (response_of-act (parse_read_response_body r).0 ctx ids pending)
      | inr p ↦ rw (q, p) refl
    ]
  ]

  pub handle_msg_body-act :
      (body : List ℕ) (ctx : Context Envelope) (ids : Ids) (pending : PendingReads DecodedNodeId)
      → handle_msg_body next_event_id body ctx ids pending ≡ act (classify body) ctx ids pending
  unfolding handle_msg_body classify
  handle_msg_body-act body ctx ids pending =
      service_of-act (read_service_type_id (new body)).0 (read_service_type_id (new body)).1 ctx ids
        pending

  -- The caller's state and the table after a history.
  unfoldable pub decode_all :
      List (List ℕ × Context Envelope)
      → Ids
      → PendingReads DecodedNodeId
      → Ids × PendingReads DecodedNodeId
  decode_all [] ids pending = (ids, pending)
  decode_all ((body, ctx) ∷ earlier) ids pending =
      let before = decode_all earlier ids pending in
      let out = handle_msg_body next_event_id body ctx before.0 before.1 in (out.1, out.2)

  act-pending :
      (m : Message) (ctx : Context Envelope) (ids : Ids) (ops : List (Op DecodedNodeId))
      (config : PendingConfig)
      → (act m ctx ids (after ops (with_config config))).2
        ≡ after (with_op m ctx ops) (with_config config)
  unfolding after step
  act-pending (request nodes) ctx ids ops config = refl
  act-pending (response results) ctx ids ops config = refl
  act-pending other ctx ids ops config = refl

  -- The table of the decoder is the table after the calls that the messages stand for.
  pub decode_all-pending :
      (history : List (List ℕ × Context Envelope)) (ids : Ids) (config : PendingConfig)
      → (decode_all history ids (with_config config)).1
        ≡ after (ops_of history) (with_config config)
  unfolding decode_all ops_of after
  decode_all-pending [] ids config = refl
  decode_all-pending ((body, ctx) ∷ earlier) ids config =
      let before = decode_all earlier ids (with_config config) in
      ap (λ o. o.2) (handle_msg_body-act body ctx before.0 before.1)
      ∙ (ap (λ p. (act (classify body) ctx before.0 p).2) (decode_all-pending earlier ids config)
          ∙ act-pending (classify body) ctx before.0 (ops_of earlier) config)

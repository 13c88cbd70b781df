-- ===== src/OpcUa/Decoder.antt =====
-- `src/opc_ua/decoder.rs`: Read responses paired with the requests they answer.
pub mod Messages
pub mod Correlation
mod Tests
use marlinspike_dpi.Prelude.{
  ℕ, suc, ◌%◌, ◌^◌, Option, none, some, List, [], ◌∷◌, if◌then◌else◌, eqb, get_elem?, unwrap_or,
}
use marlinspike_dpi.Prelude.Text.{Text, codes}
use marlinspike_dpi.Bronze.{PointValue, RawQuality}
use marlinspike_dpi.OpcUa.Reader.{Reader, Result, ok, err, new}
use marlinspike_dpi.OpcUa.NodeId.{DecodedNodeId, node, numeric}
use marlinspike_dpi.OpcUa.Value.{DecodedDataValue}
use marlinspike_dpi.OpcUa.State.{PendingKey, PendingReads, insert_read, take_read}
use marlinspike_dpi.OpcUa.Services.{
  ReadResponseBody, read_request_type_id, read_response_type_id, read_service_type_id,
  parse_read_request_body, parse_read_response_body,
}

abbrev pub source_protocol : Text
source_protocol = codes "opc_ua"

abbrev pub bronze_schema_version : Text
bronze_schema_version = codes "v2"

-- The point is `PointIdentifier::OpcUaNode`, with the fields of a decoded node.
pub record ProcessReading : Type 0 where
  pub source_protocol : Text
  pub point_id : DecodedNodeId
  pub value : PointValue
  pub quality : RawQuality
  pub source_ts : Option ℕ
  pub observed_ts : ℕ

-- The envelope is copied from the caller's.
pub record BronzeEvent (Envelope Name : Type 0) : Type 0 where
  pub event_id : Name
  pub capture_id : Text
  pub schema_version : Text
  pub envelope : Envelope
  pub reading : ProcessReading

-- A result without a node stands under its place in the response.
abbrev pub point_at : List DecodedNodeId → ℕ → DecodedNodeId
point_at nodes i = unwrap_or (get_elem? nodes i) (node 0 (numeric (i % 2 ^ 32)))

unfoldable pub make_reading : ℕ → List DecodedNodeId → ℕ → DecodedDataValue → ProcessReading
make_reading now_us nodes i dv = record {
  source_protocol = source_protocol;
  point_id = point_at nodes i;
  value = dv.value;
  quality = dv.quality;
  source_ts = dv.source_ts;
  observed_ts = now_us;
}

-- What the caller passes beside the body; `next_event_id` is a step on a state of the caller's.
pub record Context (Envelope : Type 0) : Type 0 where
  pub secure_channel_id : ℕ
  pub request_id : ℕ
  pub envelope : Envelope
  pub now_us : ℕ
  pub capture_id : Text

abbrev pub key_of : {Envelope : Type 0} → Context Envelope → PendingKey
key_of ctx = record { secure_channel_id = ctx.secure_channel_id; request_id = ctx.request_id }

-- The events, the caller's state, and the table of pending reads.
abbrev pub Outcome : Type 0 → Type 0 → Type 0 → Type 0
Outcome Envelope Name Ids = List (BronzeEvent Envelope Name) × Ids × PendingReads DecodedNodeId

module _ {Envelope Name Ids : Type 0} (next_event_id : Ids → Name × Ids) where
  -- One event for each result, in order, from the given place on.
  unfoldable pub emit :
      Context Envelope
      → List DecodedNodeId
      → ℕ
      → List DecodedDataValue
      → Ids
      → List (BronzeEvent Envelope Name) × Ids
  emit ctx nodes i [] ids = ([], ids)
  emit ctx nodes i (dv ∷ results) ids =
      let named = next_event_id ids in
      let rest = emit ctx nodes (suc i) results named.1 in
      (
        record {
          event_id = named.0;
          capture_id = ctx.capture_id;
          schema_version = bronze_schema_version;
          envelope = ctx.envelope;
          reading = make_reading ctx.now_us nodes i dv;
        }
            ∷ rest.0,
        rest.1,
      )

  abbrev pub on_request :
      Context Envelope
      → Result (List DecodedNodeId)
      → Ids
      → PendingReads DecodedNodeId
      → Outcome Envelope Name Ids
  on_request ctx (ok nodes) ids pending =
      ([], ids, insert_read (key_of ctx) nodes ctx.now_us pending)
  on_request ctx (err e) ids pending = ([], ids, pending)

  abbrev pub on_response :
      Context Envelope
      → Result ReadResponseBody
      → Ids
      → PendingReads DecodedNodeId
      → Outcome Envelope Name Ids
  on_response ctx (ok response) ids pending =
      let taken = take_read (key_of ctx) pending in
      let out = emit ctx (unwrap_or taken.0 []) 0 response.results ids in (out.0, out.1, taken.1)
  on_response ctx (err e) ids pending = ([], ids, pending)

  abbrev pub on_service :
      Context Envelope
      → Result ℕ
      → Reader
      → Ids
      → PendingReads DecodedNodeId
      → Outcome Envelope Name Ids
  on_service ctx (ok type_id) r ids pending =
      if eqb type_id read_request_type_id
      then on_request ctx (parse_read_request_body r).0 ids pending
      else if eqb type_id read_response_type_id
      then on_response ctx (parse_read_response_body r).0 ids pending
      else ([], ids, pending)
  on_service ctx (err e) r ids pending = ([], ids, pending)

  -- The decoder is its table of pending reads.
  unfoldable pub handle_msg_body :
      List ℕ → Context Envelope → Ids → PendingReads DecodedNodeId → Outcome Envelope Name Ids
  handle_msg_body body ctx ids pending =
      let type_id = read_service_type_id (new body) in
      on_service ctx type_id.0 type_id.1 ids pending

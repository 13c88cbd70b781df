-- ===== src/Sparkplug/Decoder/Runs.antt =====
-- The session store and the event numbers over every sequence of publishes.
use marlinspike_dpi.Prelude.{
  ℕ, Option, none, some, List, [], ◌∷◌, ◌++◌, Bool-cases, Option-cases, inl, inr, any,
}
use marlinspike_dpi.Prelude.Text.{Text}
use marlinspike_dpi.Sparkplug.Topic.{
  MessageType, n_birth, n_death, n_data, n_cmd, d_birth, d_death, d_data, d_cmd, state,
  SparkplugTopic, parse_topic,
}
use marlinspike_dpi.Sparkplug.State.{
  SessionKey, SessionStore, entry_mut, should_sweep, note_gap_anomaly_if_first,
}
use marlinspike_dpi.Sparkplug.State.Store.{IsValid, entry_mut-IsValid}
use marlinspike_dpi.Sparkplug.State.Operations.{
  update-IsValid, evict_expired-IsValid, should_sweep-IsValid,
}
use marlinspike_dpi.Sparkplug.Value.{Metric}
use marlinspike_dpi.Sparkplug.Decoder.{
  MqttPublishContext, Payload, SparkplugBDecoder, session_key, make_event, SparkplugBronzeFields,
  BronzeEvent,
}
use marlinspike_dpi.Sparkplug.Decoder.Readings.{
  resolve_name, build_reading, emit_metrics, emit_transaction, session_tx_event,
}
use marlinspike_dpi.Sparkplug.Decoder.Handlers.{
  handle_birth, handle_data, handle_death, handle_cmd, handle_state, dispatch, sweep,
  decode_payload, try_decode, signal_gap, is_unresolvable,
}
use marlinspike_dpi.Sparkplug.Decoder.Epochs.{accepts, handle_birth_accept, handle_birth_refuse}

resolve_name-IsValid :
    (key : SessionKey) (now_us : ℕ) (name : Option Text) (alias : Option ℕ) (store : SessionStore)
    → IsValid store
    → IsValid ((resolve_name key now_us name alias store).1)
unfolding resolve_name
resolve_name-IsValid key now_us none none store v = v
resolve_name-IsValid key now_us none (some b) store v = v
resolve_name-IsValid key now_us (some n) none store v = v
resolve_name-IsValid key now_us (some n) (some b) store v = update-IsValid key now_us _ store v

emit_metrics-IsValid :
    (ctx : MqttPublishContext) (topic : SparkplugTopic) (payload : Payload) (metrics : List Metric)
    (d : SparkplugBDecoder)
    → IsValid d.sessions
    → IsValid ((emit_metrics ctx topic payload metrics d).1.sessions)
unfolding emit_metrics build_reading make_event
emit_metrics-IsValid ctx topic payload [] d v = v
emit_metrics-IsValid ctx topic payload (m ∷ metrics) d v =
    emit_metrics-IsValid ctx topic payload metrics _
      (resolve_name-IsValid (session_key ctx topic) ctx.packet_ts_us m.name m.alias d.sessions v)

emit_transaction-IsValid :
    (ctx : MqttPublishContext) (topic : SparkplugTopic) (payload : Payload)
    (fields : SparkplugBronzeFields) (d : SparkplugBDecoder)
    → IsValid d.sessions
    → IsValid ((emit_transaction ctx topic payload fields d).1.sessions)
unfolding emit_transaction make_event
emit_transaction-IsValid ctx topic payload fields d v =
    emit_metrics-IsValid ctx topic payload payload.metrics _ v

handle_birth-IsValid :
    (ctx : MqttPublishContext) (topic : SparkplugTopic) (payload : Payload) (d : SparkplugBDecoder)
    → IsValid d.sessions
    → IsValid ((handle_birth ctx topic payload d).1.sessions)
handle_birth-IsValid ctx topic payload d v = elim (Bool-cases (accepts ctx topic payload d)) [
  | inl q ↦ rw ((handle_birth_accept ctx topic payload d q).4) (
      emit_transaction-IsValid ctx topic payload _ _
        (update-IsValid (session_key ctx topic) ctx.packet_ts_us _ d.sessions v))
  | inr q ↦
      rw (handle_birth_refuse ctx topic payload d q)
        (update-IsValid (session_key ctx topic) ctx.packet_ts_us _ d.sessions v)
]

signal_gap-IsValid :
    (ctx : MqttPublishContext) (topic : SparkplugTopic) (d : SparkplugBDecoder)
    → IsValid d.sessions
    → IsValid ((signal_gap ctx topic d).1.sessions)
unfolding signal_gap make_event
signal_gap-IsValid ctx topic d v =
    elim (Bool-cases
      (note_gap_anomaly_if_first
        ((entry_mut (session_key ctx topic) ctx.packet_ts_us d.sessions).0)).0) [
          | inl q ↦ rw q (update-IsValid (session_key ctx topic) ctx.packet_ts_us _ d.sessions v)
          | inr q ↦ rw q (update-IsValid (session_key ctx topic) ctx.packet_ts_us _ d.sessions v)
        ]

handle_data-IsValid :
    (ctx : MqttPublishContext) (topic : SparkplugTopic) (payload : Payload) (d : SparkplugBDecoder)
    → IsValid d.sessions
    → IsValid ((handle_data ctx topic payload d).1.sessions)
unfolding handle_data
handle_data-IsValid ctx topic payload d v =
    let entry = entry_mut (session_key ctx topic) ctx.packet_ts_us d.sessions in
    let roomy = entry_mut-IsValid (session_key ctx topic) ctx.packet_ts_us d.sessions v in
    emit_transaction-IsValid ctx topic payload _ _
      (elim (Bool-cases (any (is_unresolvable entry.0) payload.metrics)) [
        | inl q ↦ rw q (signal_gap-IsValid ctx topic _ roomy)
        | inr q ↦ rw q roomy
      ])

dispatch-IsValid :
    (kind : MessageType) (ctx : MqttPublishContext) (topic : SparkplugTopic) (payload : Payload)
    (d : SparkplugBDecoder)
    → IsValid d.sessions
    → IsValid ((dispatch kind ctx topic payload d).1.sessions)
unfolding dispatch handle_death handle_cmd handle_state session_tx_event make_event
dispatch-IsValid n_birth ctx topic payload d v = handle_birth-IsValid ctx topic payload d v
dispatch-IsValid d_birth ctx topic payload d v = handle_birth-IsValid ctx topic payload d v
dispatch-IsValid n_data ctx topic payload d v = handle_data-IsValid ctx topic payload d v
dispatch-IsValid d_data ctx topic payload d v = handle_data-IsValid ctx topic payload d v
dispatch-IsValid n_death ctx topic payload d v =
    update-IsValid (session_key ctx topic) ctx.packet_ts_us _ d.sessions v
dispatch-IsValid d_death ctx topic payload d v =
    update-IsValid (session_key ctx topic) ctx.packet_ts_us _ d.sessions v
dispatch-IsValid n_cmd ctx topic payload d v = v
dispatch-IsValid d_cmd ctx topic payload d v = v
dispatch-IsValid state ctx topic payload d v = v

sweep-IsValid : (now_us : ℕ) (store : SessionStore) → IsValid store → IsValid (sweep now_us store)
unfolding sweep
sweep-IsValid now_us store v = elim (Bool-cases (should_sweep store).0) [
  | inl q ↦ rw q (evict_expired-IsValid now_us _ (should_sweep-IsValid store v))
  | inr q ↦ rw q (should_sweep-IsValid store v)
]

module _ (decode : List ℕ → Option Payload) where
  decode_payload-IsValid :
      (ctx : MqttPublishContext) (topic : SparkplugTopic) (d : SparkplugBDecoder)
      → IsValid d.sessions
      → IsValid ((decode_payload decode ctx topic d).1.sessions)
  unfolding decode_payload make_event
  decode_payload-IsValid ctx topic d v = elim (Option-cases (decode ctx.payload)) [
    | inl q ↦ rw (q, decode_payload) v
    | inr (payload, q) ↦
        rw (q, decode_payload) (dispatch-IsValid topic.message_type ctx topic payload d v)
  ]

  try_decode-IsValid :
      (ctx : MqttPublishContext) (d : SparkplugBDecoder)
      → IsValid d.sessions
      → IsValid ((try_decode decode ctx d).1.sessions)
  unfolding try_decode
  try_decode-IsValid ctx d v = elim (Option-cases (parse_topic ctx.topic)) [
    | inl q ↦ rw (q, try_decode) v
    | inr (topic, q) ↦
        rw (q, try_decode)
          (decode_payload-IsValid ctx topic _ (sweep-IsValid ctx.packet_ts_us d.sessions v))
  ]

  -- The events and the state of a sequence of publishes.
  unfoldable pub decode_all :
      List MqttPublishContext → SparkplugBDecoder → List BronzeEvent × SparkplugBDecoder
  decode_all [] d = ([], d)
  decode_all (ctx ∷ rest) d =
      let first = try_decode decode ctx d in
      let later = decode_all rest first.1 in (first.0 ++ later.0, later.1)

  -- Over every sequence of publishes, whatever the payloads decode to, from a store with distinct
  -- keys within its cap, the keys stay distinct and the number of sessions within the cap, where a
  -- cap of 0 counts as one of 1: it lets one session live.
  pub decode_all-IsValid :
      (publishes : List MqttPublishContext) (d : SparkplugBDecoder)
      → IsValid d.sessions
      → IsValid ((decode_all publishes d).1.sessions)
  unfolding decode_all
  decode_all-IsValid [] d v = v
  decode_all-IsValid (ctx ∷ rest) d v = decode_all-IsValid rest _ (try_decode-IsValid ctx d v)

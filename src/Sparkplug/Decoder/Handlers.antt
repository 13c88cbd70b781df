-- ===== src/Sparkplug/Decoder/Handlers.antt =====
-- `src/sparkplug/decoder.rs`: one handler per message, and `try_decode`.
use marlinspike_dpi.Prelude.{
  ℕ, ◌%◌, ◌^◌, Bool, ◌&&◌, not, Option, none, some, List, [], ◌∷◌, ◌++◌, if◌then◌else◌, any,
  is_some, length, ◌>>=◌,
}
use marlinspike_dpi.Prelude.Text.{Text, codes}
use marlinspike_dpi.Sparkplug.Topic.{
  MessageType, n_birth, n_death, n_data, n_cmd, d_birth, d_death, d_data, d_cmd, state,
  SparkplugTopic, parse_topic,
}
use marlinspike_dpi.Sparkplug.State.{
  SessionState, SessionStore, resolve, bind, record_birth, clear_aliases, record_death,
  note_gap_anomaly_if_first, entry_mut, write, should_sweep, evict_expired,
}
use marlinspike_dpi.Sparkplug.Value.{Metric}
use marlinspike_dpi.Sparkplug.Decoder.{
  MqttPublishContext, Payload, gap_anomaly, decode_anomaly, BronzeEvent, SparkplugBDecoder,
  session_key, make_event, extract_bd_seq, build_sparkplug_fields,
}
use marlinspike_dpi.Sparkplug.Decoder.Readings.{emit_transaction, session_tx_event}

-- Each metric with a name and an alias binds it, in the order of the payload.
abbrev pub bind_metric : Option Text → Option ℕ → SessionState → SessionState
bind_metric (some name) (some alias) session = bind alias name session
bind_metric _ _ session = session

unfoldable pub bind_all : List Metric → SessionState → SessionState
bind_all [] session = session
bind_all (m ∷ metrics) session = bind_all metrics (bind_metric m.name m.alias session)

unfoldable pub handle_birth :
    MqttPublishContext
    → SparkplugTopic
    → Payload
    → SparkplugBDecoder
    → List BronzeEvent × SparkplugBDecoder
handle_birth ctx topic payload d =
    let key = session_key ctx topic in
    let entry = entry_mut key ctx.packet_ts_us d.sessions in
    let bd_seq = extract_bd_seq payload.metrics in
    let birth = record_birth bd_seq entry.0 in
    if not birth.0
    then ([], record d { sessions = write key birth.1 entry.1 })
    else let session = bind_all payload.metrics (clear_aliases birth.1) in
      let metric_count = length payload.metrics % 2 ^ 32 in
      let fields = build_sparkplug_fields topic payload bd_seq (some metric_count) (codes "n/a") in
      emit_transaction ctx topic payload fields (record d { sessions = write key session entry.1 })

-- A metric that carries only an alias which the session does not know.
abbrev pub is_unresolvable : SessionState → Metric → Bool
is_unresolvable session m =
    not (is_some m.name) && is_some m.alias && not (is_some (m.alias >>= (λ a. resolve a session)))

-- The gap signal, at most once per epoch.
unfoldable pub signal_gap :
    MqttPublishContext → SparkplugTopic → SparkplugBDecoder → List BronzeEvent × SparkplugBDecoder
signal_gap ctx topic d =
    let key = session_key ctx topic in
    let entry = entry_mut key ctx.packet_ts_us d.sessions in
    let first = note_gap_anomaly_if_first entry.0 in
    let d' : SparkplugBDecoder = record d { sessions = write key first.1 entry.1 } in
    let event = make_event ctx (gap_anomaly topic) d' in
    if first.0 then (event.0 ∷ [], event.1) else ([], d')

unfoldable pub handle_data :
    MqttPublishContext
    → SparkplugTopic
    → Payload
    → SparkplugBDecoder
    → List BronzeEvent × SparkplugBDecoder
handle_data ctx topic payload d =
    let entry = entry_mut (session_key ctx topic) ctx.packet_ts_us d.sessions in
    let any_unresolvable = any (is_unresolvable entry.0) payload.metrics in
    let touched : SparkplugBDecoder = record d { sessions = entry.1 } in
    let gap = if any_unresolvable then signal_gap ctx topic touched else ([], touched) in
    let alias_state = if any_unresolvable then codes "unresolved_no_birth" else codes "resolved" in
    let metric_count = length payload.metrics % 2 ^ 32 in
    let fields = build_sparkplug_fields topic payload none (some metric_count) alias_state in
    let rest = emit_transaction ctx topic payload fields gap.1 in (gap.0 ++ rest.0, rest.1)

unfoldable pub handle_death :
    MqttPublishContext
    → SparkplugTopic
    → Payload
    → SparkplugBDecoder
    → List BronzeEvent × SparkplugBDecoder
handle_death ctx topic payload d =
    let key = session_key ctx topic in
    let entry = entry_mut key ctx.packet_ts_us d.sessions in
    let bd_seq = extract_bd_seq payload.metrics in
    session_tx_event ctx (build_sparkplug_fields topic payload bd_seq none (codes "n/a")) 0
      (record d { sessions = write key (record_death entry.0) entry.1 })

unfoldable pub handle_cmd :
    MqttPublishContext
    → SparkplugTopic
    → Payload
    → SparkplugBDecoder
    → List BronzeEvent × SparkplugBDecoder
handle_cmd ctx topic payload d =
    let metric_count = length payload.metrics % 2 ^ 32 in
    session_tx_event ctx
      (build_sparkplug_fields topic payload none (some metric_count) (codes "n/a")) metric_count d

unfoldable pub handle_state :
    MqttPublishContext
    → SparkplugTopic
    → Payload
    → SparkplugBDecoder
    → List BronzeEvent × SparkplugBDecoder
handle_state ctx topic payload d =
    session_tx_event ctx (build_sparkplug_fields topic payload none none (codes "n/a")) 0 d

unfoldable pub dispatch :
    MessageType
    → MqttPublishContext
    → SparkplugTopic
    → Payload
    → SparkplugBDecoder
    → List BronzeEvent × SparkplugBDecoder
dispatch n_birth ctx topic payload d = handle_birth ctx topic payload d
dispatch d_birth ctx topic payload d = handle_birth ctx topic payload d
dispatch n_data ctx topic payload d = handle_data ctx topic payload d
dispatch d_data ctx topic payload d = handle_data ctx topic payload d
dispatch n_death ctx topic payload d = handle_death ctx topic payload d
dispatch d_death ctx topic payload d = handle_death ctx topic payload d
dispatch n_cmd ctx topic payload d = handle_cmd ctx topic payload d
dispatch d_cmd ctx topic payload d = handle_cmd ctx topic payload d
dispatch state ctx topic payload d = handle_state ctx topic payload d

-- The amortised sweep of every publish.
unfoldable pub sweep : ℕ → SessionStore → SessionStore
sweep now_us store =
    let due = should_sweep store in if due.0 then (evict_expired now_us due.1).1 else due.1

-- `decode` is the protobuf decoder, generated from the schema.
module _ (decode : List ℕ → Option Payload) where
  unfoldable pub decode_payload :
      MqttPublishContext → SparkplugTopic → SparkplugBDecoder → List BronzeEvent × SparkplugBDecoder
  decode_payload ctx topic d = elim (decode ctx.payload) [
    | none ↦ let event = make_event ctx decode_anomaly d in (event.0 ∷ [], event.1)
    | some payload ↦ dispatch topic.message_type ctx topic payload d
  ]

  unfoldable pub try_decode :
      MqttPublishContext → SparkplugBDecoder → List BronzeEvent × SparkplugBDecoder
  try_decode ctx d = elim (parse_topic ctx.topic) [
    | none ↦ ([], d)
    | some topic ↦
        decode_payload ctx topic (record d { sessions = sweep ctx.packet_ts_us d.sessions })
  ]

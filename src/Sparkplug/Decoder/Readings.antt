-- ===== src/Sparkplug/Decoder/Readings.antt =====
-- `src/sparkplug/decoder.rs`: the readings of a payload, and the events that carry them.
use marlinspike_dpi.Prelude.{
  ℕ, ◌*◌, ◌%◌, ◌^◌, ◌-◌, min, Bool, true, ◌&&◌, ◌||◌, not, Option, none, some, List, [], ◌∷◌, eqb,
  leb, filter_option, length, ◌>>=◌,
}
use marlinspike_dpi.Prelude.Text.{Text}
use marlinspike_dpi.Sparkplug.Topic.{SparkplugTopic}
use marlinspike_dpi.Sparkplug.State.{SessionKey, SessionStore, resolve, bind, entry_mut, write, get}
use marlinspike_dpi.Sparkplug.Value.{Metric, metric_to_point_value, metric_to_raw_quality}
use marlinspike_dpi.Sparkplug.Decoder.{
  MqttPublishContext, Payload, SparkplugBronzeFields, ProcessReading, protocol_transaction,
  process_reading, BronzeEvent, SparkplugBDecoder, session_key, make_event,
}

abbrev pub is_ascii_clean : Text → Bool
is_ascii_clean [] = true
is_ascii_clean (b ∷ bs) = ((leb 0x20 b && leb b 0x7E) || eqb b 9) && is_ascii_clean bs

-- The name and the alias of a reading: a named metric with an alias teaches the session its name.
unfoldable pub resolve_name :
    SessionKey → ℕ → Option Text → Option ℕ → SessionStore → (Option Text × Option ℕ) × SessionStore
resolve_name key now_us (some name) (some alias) store =
    let entry = entry_mut key now_us store in
    ((some name, some alias), write key (bind alias name entry.0) entry.1)
resolve_name key now_us (some name) none store = ((some name, none), store)
resolve_name key now_us none (some alias) store =
    ((get key store >>= resolve alias, some alias), store)
resolve_name key now_us none none store = ((none, none), store)

-- The metric's own time stamp first, then the payload's, in microseconds.
abbrev pub micros : Option ℕ → Option ℕ
micros none = none
micros (some ms) = some (min (ms * 1_000) (2 ^ 64 - 1))

abbrev pub or_else : Option ℕ → Option ℕ → Option ℕ
or_else (some a) b = some a
or_else none b = b

unfoldable pub build_reading :
    MqttPublishContext
    → SparkplugTopic
    → Payload
    → Metric
    → SparkplugBDecoder
    → ProcessReading × SparkplugBDecoder
build_reading ctx topic payload metric d =
    let resolved =
      resolve_name (session_key ctx topic) ctx.packet_ts_us metric.name metric.alias d.sessions in
    (
      record {
        point_id = record {
          group_id = topic.group_id;
          edge_node_id = topic.edge_node_id;
          device_id = topic.device_id;
          metric_name = resolved.0.0;
          metric_name_raw = filter_option (λ s. not (is_ascii_clean s)) resolved.0.0;
          alias = resolved.0.1;
        };
        value = metric_to_point_value metric;
        quality = metric_to_raw_quality metric;
        source_ts = micros (or_else metric.timestamp payload.timestamp);
        observed_ts = ctx.packet_ts_us;
      },
      record d { sessions = resolved.1 },
    )

unfoldable pub emit_metrics :
    MqttPublishContext
    → SparkplugTopic
    → Payload
    → List Metric
    → SparkplugBDecoder
    → List BronzeEvent × SparkplugBDecoder
emit_metrics ctx topic payload [] d = ([], d)
emit_metrics ctx topic payload (metric ∷ metrics) d =
    let reading = build_reading ctx topic payload metric d in
    let event = make_event ctx (process_reading reading.0) reading.1 in
    let rest = emit_metrics ctx topic payload metrics event.1 in (event.0 ∷ rest.0, rest.1)

-- The session's own event, then the readings.
unfoldable pub emit_transaction :
    MqttPublishContext
    → SparkplugTopic
    → Payload
    → SparkplugBronzeFields
    → SparkplugBDecoder
    → List BronzeEvent × SparkplugBDecoder
emit_transaction ctx topic payload fields d =
    let metric_count = length payload.metrics % 2 ^ 32 in
    let event = make_event ctx (protocol_transaction fields metric_count) d in
    let readings = emit_metrics ctx topic payload payload.metrics event.1 in
    (event.0 ∷ readings.0, readings.1)

-- `session_tx_event` alone.
unfoldable pub session_tx_event :
    MqttPublishContext
    → SparkplugBronzeFields
    → ℕ
    → SparkplugBDecoder
    → List BronzeEvent × SparkplugBDecoder
session_tx_event ctx fields metric_count d =
    let event = make_event ctx (protocol_transaction fields metric_count) d in
    (event.0 ∷ [], event.1)

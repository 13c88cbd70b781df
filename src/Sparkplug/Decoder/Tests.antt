-- ===== src/Sparkplug/Decoder/Tests.antt =====
-- A birth, data and a run at concrete inputs.
use marlinspike_dpi.Prelude.Int.{negsuc}
use marlinspike_dpi.Sparkplug.Value.Narrowing.{w8, metric_to_point_value-carried}
use marlinspike_dpi.Prelude.{
  ℕ, ◌≡◌, refl, true, false, Option, none, some, List, [], ◌∷◌, arith, if◌then◌else◌, not, is_empty,
  zero, suc,
}
use marlinspike_dpi.Prelude.Text.{Text, codes}
use marlinspike_dpi.Prelude.Split.{split_from}
use marlinspike_dpi.HashMap.{lookup, insert, retain, remove, min_by_key, remove_oldest}
use marlinspike_dpi.Sparkplug.Topic.{
  SparkplugTopic, n_birth, n_data, parse, parse_topic, parse_segments, take_segments,
}
use marlinspike_dpi.Sparkplug.Topic.RoundTrip.{message_type_name}
use marlinspike_dpi.Sparkplug.State.{
  SocketAddr, v4, entry_mut, get, touch, make_room, evict_lru_one, evict_expired, should_sweep,
  record_birth, supersedes, bind, resolve, write, clear_aliases, record_death,
  note_gap_anomaly_if_first,
}
use marlinspike_dpi.Sparkplug.State.Store.{IsValid}
use marlinspike_dpi.Sparkplug.Value.{
  Metric, MetricValue, double_value, long_value, metric_to_point_value, metric_to_raw_quality,
  data_type, int_point, long_point, value_point, extract_quality_property, int_value,
}
use marlinspike_dpi.Bronze.{int8}
use marlinspike_dpi.Sparkplug.Decoder.{
  MqttPublishContext, Payload, new, session_key, make_event, extract_bd_seq, build_sparkplug_fields,
}
use marlinspike_dpi.Sparkplug.Decoder.Readings.{
  resolve_name, build_reading, emit_metrics, emit_transaction, session_tx_event,
}
use marlinspike_dpi.Sparkplug.Decoder.Handlers.{
  bind_all, handle_birth, handle_data, handle_death, signal_gap, dispatch, sweep, decode_payload,
  try_decode,
}
use marlinspike_dpi.Sparkplug.Decoder.Resolution.{known, gap_raised, binding}
use marlinspike_dpi.Sparkplug.Decoder.Epochs.{accepts, handle_birth_lem}
use marlinspike_dpi.Sparkplug.Decoder.Names.{reading_names, has_gap, names_spec}
use marlinspike_dpi.Sparkplug.Decoder.Runs.{decode_all, decode_all-IsValid}

program : Unit {0}
unfolding lookup insert retain remove min_by_key remove_oldest split_from parse parse_topic
    parse_segments take_segments message_type_name entry_mut get touch make_room evict_lru_one
    evict_expired should_sweep record_birth supersedes bind resolve write clear_aliases record_death
    note_gap_anomaly_if_first metric_to_point_value metric_to_raw_quality data_type int_point
    long_point value_point extract_quality_property session_key make_event extract_bd_seq
    build_sparkplug_fields resolve_name build_reading emit_metrics emit_transaction session_tx_event
    bind_all handle_birth handle_data handle_death signal_gap dispatch sweep decode_payload
    try_decode known gap_raised binding accepts reading_names has_gap names_spec decode_all
program = tt

abbrev metric : Option Text → Option ℕ → MetricValue → Metric
metric name alias value = record {
  name = name;
  alias = alias;
  timestamp = none;
  datatype = none;
  is_historical = none;
  is_transient = none;
  is_null = none;
  properties = none;
  value = some value;
}

abbrev birth_payload : Payload
birth_payload = record {
  timestamp = some 1_000;
  seq = some 0;
  metrics =
      metric (some (codes "bdSeq")) none (long_value 3)
      ∷ metric (some (codes "Temp")) (some 7) (double_value 0)
      ∷ metric (some (codes "Flow")) (some 8) (double_value 0)
      ∷ [];
}

abbrev data_payload : Payload
data_payload = record {
  timestamp = some 2_000;
  seq = some 1;
  metrics = metric none (some 8) (double_value 1) ∷ metric none (some 9) (double_value 2) ∷ [];
}

abbrev endpoint : ℕ → SocketAddr
endpoint port = v4 (record { o0 = 10; o1 = 0; o2 = 0; o3 = 1 }) port

abbrev publish_at : ℕ → Text → List ℕ → MqttPublishContext
publish_at now topic payload = record {
  broker_endpoint = endpoint 1883;
  flow_5tuple = record { src = endpoint 50_000; dst = endpoint 1883; transport = 6 };
  client_id = none;
  topic = topic;
  payload = payload;
  retain = false;
  qos = 0;
  packet_ts_us = now;
  vlan_id = none;
  publisher_mac = record { o0 = 0; o1 = 1; o2 = 2; o3 = 3; o4 = 4; o5 = 5 };
}

abbrev birth_topic : SparkplugTopic
birth_topic = record {
  group_id = codes "Plant1";
  message_type = n_birth;
  edge_node_id = codes "PLC-A";
  device_id = none;
}

abbrev data_topic : SparkplugTopic
data_topic = record birth_topic { message_type = n_data }

abbrev birth_ctx : MqttPublishContext
birth_ctx = publish_at 100 (codes "spBv1.0/Plant1/NBIRTH/PLC-A") (0 ∷ [])

abbrev data_ctx : MqttPublishContext
data_ctx = publish_at 200 (codes "spBv1.0/Plant1/NDATA/PLC-A") (1 ∷ [])

birth_names :
    names_spec (λ a. binding a birth_payload.metrics) data_payload.metrics
    ≡ some (codes "Flow") ∷ none ∷ []
unfolding program
birth_names = refl

handle_birth_lem_example :
    (known
        (session_key birth_ctx birth_topic)
        7
        ((handle_birth birth_ctx birth_topic birth_payload new).1.sessions)
      ≡ (if accepts birth_ctx birth_topic birth_payload new
          then binding 7 birth_payload.metrics
          else known (session_key birth_ctx birth_topic) 7 new.sessions))
    × (gap_raised
          (session_key birth_ctx birth_topic)
          ((handle_birth birth_ctx birth_topic birth_payload new).1.sessions)
        ≡ (if accepts birth_ctx birth_topic birth_payload new
            then false
            else gap_raised (session_key birth_ctx birth_topic) new.sessions))
    × (is_empty ((handle_birth birth_ctx birth_topic birth_payload new).0)
        ≡ not (accepts birth_ctx birth_topic birth_payload new))
handle_birth_lem_example = handle_birth_lem birth_ctx birth_topic birth_payload new 7

data_without_birth : has_gap ((handle_data data_ctx data_topic data_payload new).0) ≡ true
unfolding program
data_without_birth = refl

-- Payload 0 decodes to the birth, 1 to the data, and any other not at all.
abbrev decode : List ℕ → Option Payload
decode (zero ∷ []) = some birth_payload
decode (suc zero ∷ []) = some data_payload
decode _ = none

abbrev publishes : List MqttPublishContext
publishes = birth_ctx ∷ data_ctx ∷ publish_at 300 (codes "spBv1.0/Plant1/NDATA/PLC-B") (2 ∷ []) ∷ []

decode_all-IsValid_example : IsValid ((decode_all decode publishes new).1.sessions)
decode_all-IsValid_example =
    decode_all-IsValid decode publishes new (record { distinct = tt; capped = omega arith })

decoded_names :
    reading_names ((decode_all decode publishes new).0)
    ≡ some (codes "bdSeq")
      ∷ some (codes "Temp")
      ∷ some (codes "Flow")
      ∷ some (codes "Flow")
      ∷ none
      ∷ []
unfolding program
decoded_names = refl

abbrev minus_two : Metric
minus_two = record (metric (some (codes "Level")) none (int_value 0xFFFFFFFE)) { datatype = some 1 }

metric_to_point_value-carried_example : metric_to_point_value minus_two ≡ int8 (negsuc 1)
metric_to_point_value-carried_example =
    metric_to_point_value-carried w8 (negsuc 1) minus_two (omega arith) refl refl refl

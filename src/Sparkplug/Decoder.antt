-- ===== src/Sparkplug/Decoder.antt =====
-- `src/sparkplug/decoder.rs`: the handlers of each message over the session store.
pub mod Readings
pub mod Handlers
pub mod Resolution
pub mod Epochs
pub mod Names
pub mod Correlation
pub mod Runs
mod Tests
use marlinspike_dpi.Prelude.{
  ℕ, ◌+◌, ◌*◌, ◌%◌, ◌^◌, ◌-◌, min, Bool, true, false, ◌&&◌, ◌||◌, not, Option, none, some, List, [],
  ◌∷◌, ◌++◌, if◌then◌else◌, eqb, leb, any, is_some, is_some_and, filter_option, ◌==◌, nat_eq,
  list_eq, option_eq, length, ◌>>=◌,
}
use marlinspike_dpi.Prelude.Text.{Text, Mac, codes}
use marlinspike_dpi.Sparkplug.Topic.{
  MessageType, n_birth, n_death, n_data, n_cmd, d_birth, d_death, d_data, d_cmd, state,
  SparkplugTopic, parse_topic, is_birth, is_death,
}
use marlinspike_dpi.Sparkplug.Topic.RoundTrip.{message_type_name}
use marlinspike_dpi.Sparkplug.State.{
  SocketAddr, SessionKey, SessionState, SessionStore, resolve, bind, record_birth, clear_aliases,
  record_death, note_gap_anomaly_if_first, entry_mut, write, get, should_sweep, evict_expired,
  with_config, default_eviction,
}
use marlinspike_dpi.Sparkplug.Value.{
  Metric, MetricValue, int_value, long_value, metric_to_point_value, metric_to_raw_quality,
}
use marlinspike_dpi.Bronze.{PointValue, RawQuality}

pub record FlowFiveTuple : Type 0 where
  pub src : SocketAddr
  pub dst : SocketAddr
  pub transport : ℕ

pub record MqttPublishContext : Type 0 where
  pub broker_endpoint : SocketAddr
  pub flow_5tuple : FlowFiveTuple
  pub client_id : Option Text
  pub topic : Text
  pub payload : List ℕ
  pub retain : Bool
  pub qos : ℕ
  pub packet_ts_us : ℕ
  pub vlan_id : Option ℕ
  pub publisher_mac : Mac

-- The fields of a protobuf payload that the program reads.
pub record Payload : Type 0 where
  pub timestamp : Option ℕ
  pub metrics : List Metric
  pub seq : Option ℕ

pub record SparkplugBronzeFields : Type 0 where
  pub message_type : Text
  pub group_id : Text
  pub edge_node_id : Text
  pub device_id : Option Text
  pub bdseq : Option ℕ
  pub seq : Option ℕ
  pub payload_timestamp : Option ℕ
  pub metric_count : Option ℕ
  pub alias_resolution_state : Text
  pub is_birth : Bool
  pub is_death : Bool
  pub is_command : Bool

-- `PointIdentifier::SparkplugMetric`
pub record SparkplugMetric : Type 0 where
  pub group_id : Text
  pub edge_node_id : Text
  pub device_id : Option Text
  pub metric_name : Option Text
  pub metric_name_raw : Option Text
  pub alias : Option ℕ

-- The protocol's name is the same in every reading.
pub record ProcessReading : Type 0 where
  pub point_id : SparkplugMetric
  pub value : PointValue
  pub quality : RawQuality
  pub source_ts : Option ℕ
  pub observed_ts : ℕ

-- The families that the decoder emits; a transaction comes with the metric count of its summary,
-- and the texts of the anomalies follow from the topic and the payload.
pub data BronzeEventFamily : Type 0 where
  protocol_transaction : SparkplugBronzeFields → ℕ → BronzeEventFamily
  gap_anomaly : SparkplugTopic → BronzeEventFamily
  decode_anomaly : BronzeEventFamily
  process_reading : ProcessReading → BronzeEventFamily

-- The envelope is a function of the publish context, which stands here for it, and the event's
-- name is its number behind `sparkplug-`.
pub record BronzeEvent : Type 0 where
  pub event_id : ℕ
  pub context : MqttPublishContext
  pub family : BronzeEventFamily

pub record SparkplugBDecoder : Type 0 where
  pub sessions : SessionStore
  pub event_id_counter : ℕ

abbrev pub new : SparkplugBDecoder
new = record { sessions = with_config default_eviction; event_id_counter = 0 }

unfoldable pub session_key : MqttPublishContext → SparkplugTopic → SessionKey
session_key ctx topic = record {
  broker_endpoint = ctx.broker_endpoint;
  group_id = topic.group_id;
  edge_node_id = topic.edge_node_id;
  device_id = topic.device_id;
}

-- The counter wraps.
unfoldable pub make_event :
    MqttPublishContext → BronzeEventFamily → SparkplugBDecoder → BronzeEvent × SparkplugBDecoder
make_event ctx family d =
    let id = (d.event_id_counter + 1) % 2 ^ 64 in
    (record { event_id = id; context = ctx; family = family }, record d { event_id_counter = id })

-- A metric named `bdSeq` with a whole number for its value; another kind of value is passed over.
abbrev pub bd_seq_value : Option MetricValue → Option ℕ
bd_seq_value (some (long_value v)) = some v
bd_seq_value (some (int_value v)) = some v
bd_seq_value _ = none

unfoldable pub extract_bd_seq : List Metric → Option ℕ
extract_bd_seq [] = none
extract_bd_seq (m ∷ metrics) =
    let rest = extract_bd_seq metrics in
    if m.name == some (codes "bdSeq") && is_some (bd_seq_value m.value)
    then bd_seq_value m.value
    else rest

abbrev pub is_command : MessageType → Bool
is_command n_cmd = true
is_command d_cmd = true
is_command _ = false

unfoldable pub build_sparkplug_fields :
    SparkplugTopic → Payload → Option ℕ → Option ℕ → Text → SparkplugBronzeFields
build_sparkplug_fields topic payload bd_seq metric_count alias_resolution_state = record {
  message_type = message_type_name topic.message_type;
  group_id = topic.group_id;
  edge_node_id = topic.edge_node_id;
  device_id = topic.device_id;
  bdseq = bd_seq;
  seq = payload.seq;
  payload_timestamp = payload.timestamp;
  metric_count = metric_count;
  alias_resolution_state = alias_resolution_state;
  is_birth = is_birth topic.message_type;
  is_death = is_death topic.message_type;
  is_command = is_command topic.message_type;
}

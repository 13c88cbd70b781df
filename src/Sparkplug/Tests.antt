-- ===== src/Sparkplug/Tests.antt =====
-- Runs of the Sparkplug model, and each property at a concrete input.
use marlinspike_dpi.Prelude.{
  ℕ, ◌+◌, ◌/◌, ◌%◌, ◌≡◌, refl, ◌↔◌, true, false, none, some, List, [], ◌∷◌, arith,
}
use marlinspike_dpi.Prelude.Text.{Text, codes}
use marlinspike_dpi.HashMap.{lookup, insert, retain, remove, min_by_key, remove_oldest}
use marlinspike_dpi.Prelude.Split.{split_from}
use marlinspike_dpi.Sparkplug.Topic.{
  SparkplugTopic, d_birth, parse, parse_topic, parse_segments, take_segments,
}
use marlinspike_dpi.Sparkplug.Topic.RoundTrip.{
  topic_text, is_topic, parse_topic-topic_text, message_type_name, topic_segments,
}
use marlinspike_dpi.Sparkplug.State.{
  SessionKey, SessionState, SessionStore, v4, with_config, default_session, entry_mut, get, touch,
  make_room, evict_lru_one, evict_expired, should_sweep, record_birth, supersedes,
  note_gap_anomaly_if_first, record_death, clear_aliases, bind, key_eq,
}
use marlinspike_dpi.Sparkplug.State.Sweep.{publish, publish_lem}
use marlinspike_dpi.Sparkplug.State.Births.{
  births, births_spec, births-births_spec, birth, bound, death, gap, signals, SessionEvent,
}
use marlinspike_dpi.Sparkplug.State.Store.{IsValid}
use marlinspike_dpi.Sparkplug.State.Operations.{perform, perform_all}

program : Unit {0}
unfolding lookup insert retain remove min_by_key remove_oldest split_from parse parse_topic
    parse_segments take_segments message_type_name topic_segments topic_text is_topic entry_mut get
    touch make_room evict_lru_one evict_expired note_gap_anomaly_if_first record_death clear_aliases
    should_sweep record_birth supersedes bind births births_spec signals publish perform perform_all
program = tt

abbrev device_birth : SparkplugTopic
device_birth = record {
  group_id = codes "Plant1";
  message_type = d_birth;
  edge_node_id = codes "PLC-A";
  device_id = none;
}

-- A device birth without a device is accepted.
parse_topic-topic_text_example :
    (parse_topic (codes "spBv1.0/Plant1/DBIRTH/PLC-A") ≡ some device_birth) ↔ (
      (codes "spBv1.0/Plant1/DBIRTH/PLC-A" ≡ topic_text device_birth)
      × (is_topic device_birth ≡ true))
parse_topic-topic_text_example =
    parse_topic-topic_text (codes "spBv1.0/Plant1/DBIRTH/PLC-A") device_birth

device_birth_parsed : parse_topic (codes "spBv1.0/Plant1/DBIRTH/PLC-A") ≡ some device_birth
unfolding program
device_birth_parsed = refl

abbrev edge_key : Text → SessionKey
edge_key edge = record {
  broker_endpoint = v4 (record { o0 = 10; o1 = 0; o2 = 0; o3 = 1 }) 1883;
  group_id = codes "Plant1";
  edge_node_id = edge;
  device_id = none;
}

abbrev key_a : SessionKey
key_a = edge_key (codes "A")

abbrev key_b : SessionKey
key_b = edge_key (codes "B")

abbrev key_c : SessionKey
key_c = edge_key (codes "C")

abbrev small : SessionStore
small = with_config (record { ttl_us = 1000; max_sessions = 2 })

abbrev touched_at : ℕ → SessionState
touched_at t = record {
  aliases = [];
  bd_seq = none;
  gap_anomaly_emitted = false;
  last_touched_us = t;
}

-- Two sessions fill the store.
abbrev full_store : SessionStore
full_store = record small { sessions = (key_a, touched_at 100) ∷ (key_b, touched_at 200) ∷ [] }

entries : (entry_mut key_b 200 (entry_mut key_a 100 small).1).1 ≡ full_store
unfolding program
entries = refl

full_store-IsValid : IsValid full_store
unfolding program
full_store-IsValid = record { distinct = (refl, (refl, tt)); capped = omega arith }

victim : get key_a ((entry_mut key_c 300 full_store).1) ≡ none
unfolding program
victim = refl

expired :
    evict_expired 1100 full_store
    ≡ (1, record full_store { sessions = (key_b, touched_at 200) ∷ [] })
unfolding program
expired = refl

publish_lem_example :
    ((publish 3000 small).0 ≡ (0 + 3000) / 1024)
    × ((publish 3000 small).1.publishes_since_sweep ≡ (0 + 3000) % 1024)
publish_lem_example = publish_lem 3000 small (omega arith)

births-births_spec_example :
    births (5 ∷ 6 ∷ 6 ∷ 4 ∷ 7 ∷ []) default_session ≡ births_spec [] (5 ∷ 6 ∷ 6 ∷ 4 ∷ 7 ∷ [])
births-births_spec_example = births-births_spec (5 ∷ 6 ∷ 6 ∷ 4 ∷ 7 ∷ [])

births_run :
    births (5 ∷ 6 ∷ 6 ∷ 4 ∷ 7 ∷ []) default_session ≡ true ∷ true ∷ true ∷ false ∷ true ∷ []
unfolding program
births_run = refl

abbrev session_events : List SessionEvent
session_events = gap ∷ gap ∷ birth (some 1) ∷ bound 3 (codes "Temp") ∷ gap ∷ death ∷ gap ∷ []

signals_run : signals session_events default_session ≡ (2, 1)
unfolding program
signals_run = refl

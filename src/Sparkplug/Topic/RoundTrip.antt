-- ===== src/Sparkplug/Topic/RoundTrip.antt =====
-- The parser accepts exactly the texts that a topic is written as.
use marlinspike_dpi.Prelude.{
  ◌≡◌, refl, sym, ◌∙◌, ap, Bool, true, ◌&&◌, not, Option, none, some, List, [], ◌∷◌, nat_eq,
  list_eq, list_equal_iff, is_empty, arith, ◌↔◌, Option-cases, inl, inr,
}
use marlinspike_dpi.Prelude.Text.{Text, codes}
use marlinspike_dpi.Prelude.Split.{
  split, is_free, all_free, join, split-join, join-split, split-all_free,
}
use marlinspike_dpi.Sparkplug.Topic.{
  MessageType, n_birth, n_death, n_data, n_cmd, d_birth, d_death, d_data, d_cmd, state, parse,
  SparkplugTopic, parse_segments, take_segments, parse_topic,
}

-- The name of a message type, as the decoder writes it.
unfoldable pub message_type_name : MessageType → Text
message_type_name n_birth = codes "NBIRTH"
message_type_name n_death = codes "NDEATH"
message_type_name n_data = codes "NDATA"
message_type_name n_cmd = codes "NCMD"
message_type_name d_birth = codes "DBIRTH"
message_type_name d_death = codes "DDEATH"
message_type_name d_data = codes "DDATA"
message_type_name d_cmd = codes "DCMD"
message_type_name state = codes "STATE"

abbrev device_segments : Option Text → List Text
device_segments none = []
device_segments (some d) = d ∷ []

unfoldable pub topic_segments : SparkplugTopic → List Text
topic_segments t =
    codes "spBv1.0"
    ∷ t.group_id
    ∷ message_type_name t.message_type
    ∷ t.edge_node_id
    ∷ device_segments t.device_id

unfoldable pub topic_text : SparkplugTopic → Text
topic_text t = join b'/' (topic_segments t)

abbrev pub is_segment : Text → Bool
is_segment s = not (is_empty s) && is_free b'/' s

abbrev pub is_optional_segment : Option Text → Bool
is_optional_segment none = true
is_optional_segment (some s) = is_segment s

-- The parts are non-empty and hold no slash.
unfoldable pub is_topic : SparkplugTopic → Bool
is_topic t = is_segment t.group_id && is_segment t.edge_node_id && is_optional_segment t.device_id

parse-message_type_name : (mt : MessageType) → parse (message_type_name mt) ≡ some mt
unfolding parse message_type_name
parse-message_type_name n_birth = refl
parse-message_type_name n_death = refl
parse-message_type_name n_data = refl
parse-message_type_name n_cmd = refl
parse-message_type_name d_birth = refl
parse-message_type_name d_death = refl
parse-message_type_name d_data = refl
parse-message_type_name d_cmd = refl
parse-message_type_name state = refl

message_type_name-free : (mt : MessageType) → is_free b'/' (message_type_name mt) ≡ true
unfolding message_type_name
message_type_name-free n_birth = refl
message_type_name-free n_death = refl
message_type_name-free n_data = refl
message_type_name-free n_cmd = refl
message_type_name-free d_birth = refl
message_type_name-free d_death = refl
message_type_name-free d_data = refl
message_type_name-free d_cmd = refl
message_type_name-free state = refl

parse_sound : (s : Text) (mt : MessageType) → parse s ≡ some mt → s ≡ message_type_name mt
unfolding parse message_type_name
parse_sound s mt h = ground (
  arith,
  list_equal_iff s (codes "NBIRTH"),
  list_equal_iff s (codes "NDEATH"),
  list_equal_iff s (codes "NDATA"),
  list_equal_iff s (codes "NCMD"),
  list_equal_iff s (codes "DBIRTH"),
  list_equal_iff s (codes "DDEATH"),
  list_equal_iff s (codes "DDATA"),
  list_equal_iff s (codes "DCMD"),
  list_equal_iff s (codes "STATE"),
)

parse_segments_lem :
    (version group kind edge : Text) (device : Option Text) (t : SparkplugTopic)
    → parse_segments version group kind edge device ≡ some t
    → (version ∷ group ∷ kind ∷ edge ∷ device_segments device) ≡ topic_segments t
unfolding parse_segments topic_segments
parse_segments_lem version group kind edge device t h = elim (Option-cases (parse kind)) [
  | inl q ↦ ground arith
  | inr (mt, q) ↦ ground (arith, list_equal_iff version (codes "spBv1.0"), parse_sound kind mt q)
]

parse_segments-is_topic :
    (version group kind edge : Text) (device : Option Text) (t : SparkplugTopic)
    → all_free b'/' (version ∷ group ∷ kind ∷ edge ∷ device_segments device) ≡ true
    → parse_segments version group kind edge device ≡ some t
    → is_topic t ≡ true
unfolding parse_segments is_topic
parse_segments-is_topic version group kind edge none t f h = ground arith
parse_segments-is_topic version group kind edge (some d) t f h = ground arith

take_segments_sound :
    (segments : List Text) (t : SparkplugTopic)
    → all_free b'/' segments ≡ true
    → take_segments segments ≡ some t
    → (segments ≡ topic_segments t) × (is_topic t ≡ true)
unfolding take_segments
take_segments_sound [] t f h = ground arith
take_segments_sound (a ∷ []) t f h = ground arith
take_segments_sound (a ∷ b ∷ []) t f h = ground arith
take_segments_sound (a ∷ b ∷ c ∷ []) t f h = ground arith
take_segments_sound (a ∷ b ∷ c ∷ d ∷ []) t f h =
    (parse_segments_lem a b c d none t h, parse_segments-is_topic a b c d none t f h)
take_segments_sound (a ∷ b ∷ c ∷ d ∷ x ∷ []) t f h =
    (parse_segments_lem a b c d (some x) t h, parse_segments-is_topic a b c d (some x) t f h)
take_segments_sound (a ∷ b ∷ c ∷ d ∷ x ∷ y ∷ rest) t f h = ground arith

take_segments_lem :
    (group edge : Text) (mt : MessageType) (device : Option Text)
    → (is_segment group && is_segment edge && is_optional_segment device) ≡ true
    → take_segments (codes "spBv1.0" ∷ group ∷ message_type_name mt ∷ edge ∷ device_segments device)
      ≡ some
          (record { group_id = group; message_type = mt; edge_node_id = edge; device_id = device })
unfolding take_segments parse_segments
take_segments_lem group edge mt none h = rw (parse-message_type_name mt) (ground arith)
take_segments_lem group edge mt (some d) h = rw (parse-message_type_name mt) (ground arith)

take_segments-topic_segments :
    (t : SparkplugTopic) → is_topic t ≡ true → take_segments (topic_segments t) ≡ some t
unfolding topic_segments is_topic
take_segments-topic_segments t h =
    take_segments_lem t.group_id t.edge_node_id t.message_type t.device_id h

topic_segments-all_free :
    (t : SparkplugTopic) → is_topic t ≡ true → all_free b'/' (topic_segments t) ≡ true
unfolding topic_segments is_topic
topic_segments-all_free t h = elim (Option-cases t.device_id) [
  | inl q ↦ ground (arith, message_type_name-free t.message_type)
  | inr (d, q) ↦ ground (arith, message_type_name-free t.message_type)
]

split-topic_text :
    (t : SparkplugTopic) → is_topic t ≡ true → split b'/' (topic_text t) ≡ topic_segments t
unfolding topic_text topic_segments
split-topic_text t h = split-join b'/' _ _ (topic_segments-all_free t h)

-- A text is accepted as a topic exactly when it is the written form of that topic and the topic's
-- group, edge node and device, where it has one, are non-empty and free of slashes; the message
-- type puts no condition on the device.
pub parse_topic-topic_text :
    (s : Text) (t : SparkplugTopic)
    → (parse_topic s ≡ some t) ↔ ((s ≡ topic_text t) × (is_topic t ≡ true))
unfolding parse_topic topic_text
parse_topic-topic_text s t = (
  (λ h.
      let found = take_segments_sound (split b'/' s) t (split-all_free b'/' s) h in
      (sym (join-split b'/' s) ∙ ap (join b'/') found.0, found.1)),
  (λ (q, h).
      ap (λ x. take_segments (split b'/' x)) q
      ∙ ap take_segments (split-topic_text t h)
      ∙ take_segments-topic_segments t h),
)

-- ===== src/Sparkplug/Topic.antt =====
-- `src/sparkplug/topic.rs`: message types and the topic parser.
pub mod RoundTrip
use marlinspike_dpi.Prelude.{
  Bool, true, false, ◌||◌, Option, none, some, List, [], ◌∷◌, if◌then◌else◌, ◌==◌, nat_eq, list_eq,
  is_empty, is_some_and, not, ◌>>=◌,
}
use marlinspike_dpi.Prelude.Text.{Text, codes}
use marlinspike_dpi.Prelude.Split.{split}

pub data MessageType : Type 0 where
  n_birth : MessageType
  n_death : MessageType
  n_data : MessageType
  n_cmd : MessageType
  d_birth : MessageType
  d_death : MessageType
  d_data : MessageType
  d_cmd : MessageType
  state : MessageType

unfoldable pub parse : Text → Option MessageType
parse s =
    if s == codes "NBIRTH"
    then some n_birth
    else if s == codes "NDEATH"
    then some n_death
    else if s == codes "NDATA"
    then some n_data
    else if s == codes "NCMD"
    then some n_cmd
    else if s == codes "DBIRTH"
    then some d_birth
    else if s == codes "DDEATH"
    then some d_death
    else if s == codes "DDATA"
    then some d_data
    else if s == codes "DCMD"
    then some d_cmd
    else if s == codes "STATE"
    then some state
    else none

abbrev pub carries_metrics : MessageType → Bool
carries_metrics n_birth = true
carries_metrics n_data = true
carries_metrics d_birth = true
carries_metrics d_data = true
carries_metrics _ = false

abbrev pub is_birth : MessageType → Bool
is_birth n_birth = true
is_birth d_birth = true
is_birth _ = false

abbrev pub is_death : MessageType → Bool
is_death n_death = true
is_death d_death = true
is_death _ = false

pub record SparkplugTopic : Type 0 where
  pub group_id : Text
  pub message_type : MessageType
  pub edge_node_id : Text
  pub device_id : Option Text

-- The checks once the segments are taken.
unfoldable pub parse_segments : Text → Text → Text → Text → Option Text → Option SparkplugTopic
parse_segments version group_id msg_type_str edge_node_id device_id =
    if not (version == codes "spBv1.0")
    then none
    else (parse msg_type_str >>= (λ message_type.
        if is_empty group_id || is_empty edge_node_id
        then none
        else if is_some_and device_id is_empty
        then none
        else some (record {
          group_id = group_id;
          message_type = message_type;
          edge_node_id = edge_node_id;
          device_id = device_id;
        })))

-- Four segments, or five with the device; any other number is refused.
unfoldable pub take_segments : List Text → Option SparkplugTopic
take_segments (version ∷ group ∷ kind ∷ edge ∷ []) = parse_segments version group kind edge none
take_segments (version ∷ group ∷ kind ∷ edge ∷ device ∷ []) =
    parse_segments version group kind edge (some device)
take_segments _ = none

unfoldable pub parse_topic : Text → Option SparkplugTopic
parse_topic topic = take_segments (split b'/' topic)

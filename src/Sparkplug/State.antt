-- ===== src/Sparkplug/State.antt =====
-- `src/sparkplug/state.rs`: alias tables per session, and the store with its eviction.
pub mod Store
pub mod Operations
pub mod Births
pub mod Sweep
use marlinspike_dpi.Prelude.{
  ℕ, ◌+◌, ◌-◌, ◌*◌, ◌^◌, Bool, true, false, ◌&&◌, not, Option, none, some, [], if◌then◌else◌, ◌==◌,
  nat_eq, list_eq, option_eq, PartialEq, length, leb, ltb, min, unwrap_or, ◌↔◌, ◌≡◌, arith, eqb,
  list_equal_iff, option_equal_iff,
}
use marlinspike_dpi.Prelude.Text.{Text, Ipv4, ipv4_eq, ipv4_equal_iff}
use marlinspike_dpi.HashMap.{Map, lookup, insert, retain, contains_key, remove_oldest}

abbrev pub default_session_ttl_us : ℕ
default_session_ttl_us = 24 * 60 * 60 * 1_000_000

abbrev pub default_max_sessions : ℕ
default_max_sessions = 4096

abbrev pub ttl_sweep_every_n_publishes : ℕ
ttl_sweep_every_n_publishes = 1024

pub record EvictionConfig : Type 0 where
  pub ttl_us : ℕ
  pub max_sessions : ℕ

abbrev pub default_eviction : EvictionConfig
default_eviction = record { ttl_us = default_session_ttl_us; max_sessions = default_max_sessions }

-- `std::net::SocketAddr`
pub data SocketAddr : Type 0 where
  v4 : Ipv4 → ℕ → SocketAddr
  v6 : Text → ℕ → ℕ → ℕ → SocketAddr

abbrev pub addr_equal : SocketAddr → SocketAddr → Bool
addr_equal (v4 a p) (v4 b q) = a == b && eqb p q
addr_equal (v6 a p f s) (v6 b q g t) = a == b && eqb p q && eqb f g && eqb s t
addr_equal _ _ = false

pub addr_equal_iff : (a b : SocketAddr) → (addr_equal a b ≡ true) ↔ (a ≡ b)
addr_equal_iff (v4 a p) (v4 b q) = ground (arith, ipv4_equal_iff a b)
addr_equal_iff (v4 a p) (v6 b q g t) = ground arith
addr_equal_iff (v6 a p f s) (v4 b q) = ground arith
addr_equal_iff (v6 a p f s) (v6 b q g t) = ground (arith, list_equal_iff a b)

instance abbrev pub addr_eq : PartialEq SocketAddr
addr_eq = record { equal = addr_equal; equal_iff = addr_equal_iff }

pub record SessionKey : Type 0 where
  pub broker_endpoint : SocketAddr
  pub group_id : Text
  pub edge_node_id : Text
  pub device_id : Option Text

abbrev pub key_equal : SessionKey → SessionKey → Bool
key_equal a b =
    a.broker_endpoint == b.broker_endpoint
    && a.group_id == b.group_id
    && a.edge_node_id == b.edge_node_id
    && a.device_id == b.device_id

pub key_equal_iff : (a b : SessionKey) → (key_equal a b ≡ true) ↔ (a ≡ b)
key_equal_iff a b = ground (
  arith,
  addr_equal_iff a.broker_endpoint b.broker_endpoint,
  list_equal_iff a.group_id b.group_id,
  list_equal_iff a.edge_node_id b.edge_node_id,
  option_equal_iff a.device_id b.device_id,
)

instance abbrev pub key_eq : PartialEq SessionKey
key_eq = record { equal = key_equal; equal_iff = key_equal_iff }

pub record SessionState : Type 0 where
  pub aliases : Map ℕ Text
  pub bd_seq : Option ℕ
  pub gap_anomaly_emitted : Bool
  pub last_touched_us : ℕ

-- `SessionState::default()`
abbrev pub default_session : SessionState
default_session = record {
  aliases = [];
  bd_seq = none;
  gap_anomaly_emitted = false;
  last_touched_us = 0;
}

unfoldable pub resolve : ℕ → SessionState → Option Text
resolve alias s = lookup alias s.aliases

unfoldable pub bind : ℕ → Text → SessionState → SessionState
bind alias name s = record s { aliases = insert alias name s.aliases }

unfoldable pub supersedes : Option ℕ → Option ℕ → Bool
supersedes none _ = true
supersedes (some prev) none = true
supersedes (some prev) (some new) = leb prev new

unfoldable pub record_birth : Option ℕ → SessionState → Bool × SessionState
record_birth bd_seq s =
    if supersedes s.bd_seq bd_seq
    then (true, record s { bd_seq = bd_seq; gap_anomaly_emitted = false })
    else (false, s)

unfoldable pub clear_aliases : SessionState → SessionState
clear_aliases s = record s { aliases = [] }

unfoldable pub record_death : SessionState → SessionState
record_death s = record s { aliases = [] }

unfoldable pub note_gap_anomaly_if_first : SessionState → Bool × SessionState
note_gap_anomaly_if_first s =
    if s.gap_anomaly_emitted then (false, s) else (true, record s { gap_anomaly_emitted = true })

unfoldable pub alias_count : SessionState → ℕ
alias_count s = length s.aliases

unfoldable pub touch : ℕ → SessionState → SessionState
touch now_us s = record s { last_touched_us = now_us }

pub record SessionStore : Type 0 where
  pub sessions : Map SessionKey SessionState
  pub config : EvictionConfig
  pub publishes_since_sweep : ℕ

abbrev pub with_config : EvictionConfig → SessionStore
with_config config = record { sessions = []; config = config; publishes_since_sweep = 0 }

unfoldable pub evict_lru_one : SessionStore → SessionStore
evict_lru_one store = record store {
  sessions = remove_oldest (λ s. s.last_touched_us) store.sessions;
}

-- The room that a new session needs, made if the store is full.
unfoldable pub make_room : SessionKey → SessionStore → SessionStore
make_room key store =
    if not (contains_key key store.sessions)
      && leb store.config.max_sessions (length store.sessions)
    then evict_lru_one store
    else store

-- The session under the key, touched, and the store that holds it.
unfoldable pub entry_mut : SessionKey → ℕ → SessionStore → SessionState × SessionStore
entry_mut key now_us store =
    let roomy = make_room key store in
    let entry = touch now_us (unwrap_or (lookup key roomy.sessions) default_session) in
    (entry, record roomy { sessions = insert key entry roomy.sessions })

-- What the caller writes through the reference that `entry_mut` returns.
unfoldable pub write : SessionKey → SessionState → SessionStore → SessionStore
write key session store = record store { sessions = insert key session store.sessions }

unfoldable pub get : SessionKey → SessionStore → Option SessionState
get key store = lookup key store.sessions

-- `saturating_add` of a `u64`
abbrev pub saturating_add : ℕ → ℕ → ℕ
saturating_add a b = min (a + b) (2 ^ 64 - 1)

unfoldable pub should_sweep : SessionStore → Bool × SessionStore
should_sweep store =
    let publishes = saturating_add store.publishes_since_sweep 1 in
    if leb ttl_sweep_every_n_publishes publishes
    then (true, record store { publishes_since_sweep = 0 })
    else (false, record store { publishes_since_sweep = publishes })

-- A session stays while its age is below the time limit.
abbrev pub is_live : ℕ → EvictionConfig → SessionState → Bool
is_live now_us config s = ltb (now_us - s.last_touched_us) config.ttl_us

unfoldable pub evict_expired : ℕ → SessionStore → ℕ × SessionStore
evict_expired now_us store =
    let kept = retain (is_live now_us store.config) store.sessions in
    (length store.sessions - length kept, record store { sessions = kept })

-- ===== src/Sparkplug/Decoder/Resolution.antt =====
-- What a session knows of aliases, and the names that readings get from it.
use marlinspike_dpi.Prelude.{
  ℕ, ◌≡◌, refl, sym, ap, ◌∙◌, Bool, Option, none, some, List, [], ◌∷◌, arith, if◌then◌else◌,
  Option-cases, inl, inr, unwrap_or, nat_eq, ◌>>=◌, eqb,
}
use marlinspike_dpi.Prelude.Text.{Text}
use marlinspike_dpi.HashMap.{lookup}
use marlinspike_dpi.HashMap.Laws.{lookup-insert, lookup-insert_self}
use marlinspike_dpi.Sparkplug.Topic.{SparkplugTopic}
use marlinspike_dpi.Sparkplug.State.{
  SessionKey, SessionState, SessionStore, default_session, resolve, bind, entry_mut, write, get,
  touch, key_eq,
}
use marlinspike_dpi.Sparkplug.State.Store.{get-entry_mut, entry_mut-touch}
use marlinspike_dpi.Sparkplug.Value.{Metric}
use marlinspike_dpi.Sparkplug.Decoder.{
  MqttPublishContext, Payload, process_reading, SparkplugBDecoder, session_key, make_event,
  SparkplugBronzeFields,
}
use marlinspike_dpi.Sparkplug.Decoder.Readings.{
  resolve_name, build_reading, emit_metrics, emit_transaction,
}
use marlinspike_dpi.Sparkplug.Decoder.Handlers.{bind_all, bind_metric}

abbrev pub first_of : Option Text → Option Text → Option Text
first_of (some a) b = some a
first_of none b = b

-- The name that a metric gives to an alias.
abbrev pub own : ℕ → Option Text → Option ℕ → Option Text
own a (some name) (some b) = if eqb b a then some name else none
own a _ _ = none

-- The last name that the metrics give to an alias.
unfoldable pub binding : ℕ → List Metric → Option Text
binding a [] = none
binding a (m ∷ metrics) = first_of (binding a metrics) (own a m.name m.alias)

-- The name that the session under the key knows for an alias.
unfoldable pub known : SessionKey → ℕ → SessionStore → Option Text
known key a store = get key store >>= resolve a

-- The session under the key has raised its gap signal.
unfoldable pub gap_raised : SessionKey → SessionStore → Bool
gap_raised key store = (unwrap_or (get key store) default_session).gap_anomaly_emitted

bind_metric-resolve :
    (a : ℕ) (name : Option Text) (alias : Option ℕ) (s : SessionState)
    → resolve a (bind_metric name alias s) ≡ first_of (own a name alias) (resolve a s)
unfolding resolve bind
bind_metric-resolve a none alias s = refl
bind_metric-resolve a (some n) none s = refl
bind_metric-resolve a (some n) (some b) s = ground (arith, lookup-insert b a n s.aliases)

pub resolve-bind_all :
    (a : ℕ) (metrics : List Metric) (s : SessionState)
    → resolve a (bind_all metrics s) ≡ first_of (binding a metrics) (resolve a s)
unfolding bind_all binding
resolve-bind_all a [] s = refl
resolve-bind_all a (m ∷ metrics) s = ground (
  arith,
  resolve-bind_all a metrics (bind_metric m.name m.alias s),
  bind_metric-resolve a m.name m.alias s,
)

pub get-write :
    (key : SessionKey) (s : SessionState) (store : SessionStore)
    → get key (write key s store) ≡ some s
unfolding get write
get-write key s store = lookup-insert_self key s store.sessions

pub known-write :
    (key : SessionKey) (a : ℕ) (s : SessionState) (store : SessionStore)
    → known key a (write key s store) ≡ resolve a s
unfolding known
known-write key a s store = rw (get-write key s store) refl

-- A touched session, new or old, knows what the store knew.
pub resolve-entry_mut :
    (key : SessionKey) (now_us a : ℕ) (store : SessionStore)
    → resolve a ((entry_mut key now_us store).0) ≡ known key a store
unfolding known resolve touch
resolve-entry_mut key now_us a store =
    rw (entry_mut-touch key now_us store) (elim (Option-cases (get key store)) [
      | inl q ↦ rw q (unfold lookup in refl)
      | inr (s, q) ↦ rw q refl
    ])

pub known-entry_mut :
    (key : SessionKey) (now_us a : ℕ) (store : SessionStore)
    → known key a ((entry_mut key now_us store).1) ≡ known key a store
unfolding known
known-entry_mut key now_us a store =
    ap (λ s. s >>= resolve a) (get-entry_mut key now_us store)
    ∙ ap (resolve a) (sym (entry_mut-touch key now_us store))
    ∙ resolve-entry_mut key now_us a store

-- A metric teaches the session the name that it gives.
pub known-resolve_name :
    (key : SessionKey) (now_us a : ℕ) (name : Option Text) (alias : Option ℕ) (store : SessionStore)
    → known key a ((resolve_name key now_us name alias store).1)
      ≡ first_of (own a name alias) (known key a store)
unfolding resolve_name
known-resolve_name key now_us a none none store = refl
known-resolve_name key now_us a none (some b) store = refl
known-resolve_name key now_us a (some n) none store = refl
known-resolve_name key now_us a (some n) (some b) store =
    known-write key a _ _
    ∙ bind_metric-resolve a (some n) (some b) ((entry_mut key now_us store).0)
    ∙ ap (first_of (own a (some n) (some b))) (resolve-entry_mut key now_us a store)

pub known-emit_metrics :
    (ctx : MqttPublishContext) (topic : SparkplugTopic) (payload : Payload) (a : ℕ)
    (metrics : List Metric) (d : SparkplugBDecoder)
    → known (session_key ctx topic) a ((emit_metrics ctx topic payload metrics d).1.sessions)
      ≡ first_of (binding a metrics) (known (session_key ctx topic) a d.sessions)
unfolding emit_metrics build_reading make_event binding
known-emit_metrics ctx topic payload a [] d = refl
known-emit_metrics ctx topic payload a (m ∷ metrics) d = ground (
  arith,
  known-emit_metrics ctx topic payload a metrics
      (make_event ctx (process_reading (build_reading ctx topic payload m d).0)
        (build_reading ctx topic payload m d).1).1,
  known-resolve_name (session_key ctx topic) ctx.packet_ts_us a m.name m.alias d.sessions,
)

pub known-emit_transaction :
    (ctx : MqttPublishContext) (topic : SparkplugTopic) (payload : Payload)
    (fields : SparkplugBronzeFields) (a : ℕ) (d : SparkplugBDecoder)
    → known (session_key ctx topic) a ((emit_transaction ctx topic payload fields d).1.sessions)
      ≡ first_of (binding a payload.metrics) (known (session_key ctx topic) a d.sessions)
unfolding emit_transaction make_event
known-emit_transaction ctx topic payload fields a d =
    known-emit_metrics ctx topic payload a payload.metrics _

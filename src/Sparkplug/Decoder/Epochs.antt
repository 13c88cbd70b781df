-- ===== src/Sparkplug/Decoder/Epochs.antt =====
-- The gap signal of a session across messages.
use marlinspike_dpi.Prelude.{
  ℕ, ◌≡◌, refl, ap, ◌∙◌, Bool, true, false, Option, none, some, List, [], ◌∷◌, unwrap_or,
  if◌then◌else◌, not, is_empty, length, ◌%◌, ◌^◌, Bool-cases, inl, inr,
}
use marlinspike_dpi.Prelude.Text.{Text, codes}
use marlinspike_dpi.HashMap.{lookup}
use marlinspike_dpi.Sparkplug.Topic.{SparkplugTopic}
use marlinspike_dpi.Sparkplug.State.{
  SessionKey, SessionState, SessionStore, default_session, bind, entry_mut, write, get, touch,
  supersedes, resolve, clear_aliases,
}
use marlinspike_dpi.Sparkplug.State.Births.{record_birth_accept, record_birth_refuse}
use marlinspike_dpi.Sparkplug.State.Store.{get-entry_mut, entry_mut-touch}
use marlinspike_dpi.Sparkplug.Value.{Metric}
use marlinspike_dpi.Sparkplug.Decoder.{
  MqttPublishContext, Payload, SparkplugBDecoder, session_key, make_event, SparkplugBronzeFields,
  extract_bd_seq, build_sparkplug_fields,
}
use marlinspike_dpi.Sparkplug.Decoder.Readings.{
  resolve_name, build_reading, emit_metrics, emit_transaction,
}
use marlinspike_dpi.Sparkplug.Decoder.Handlers.{bind_all, bind_metric, handle_birth}
use marlinspike_dpi.Sparkplug.Decoder.Resolution.{
  gap_raised, known, binding, first_of, get-write, known-write, resolve-bind_all,
  known-emit_transaction, resolve-entry_mut,
}

-- The session under the key, or the one that it starts with.
abbrev pub session_of : SessionKey → SessionStore → SessionState
session_of key store = unwrap_or (get key store) default_session

pub gap-entry_mut_entry :
    (key : SessionKey) (now_us : ℕ) (store : SessionStore)
    → (entry_mut key now_us store).0.gap_anomaly_emitted ≡ gap_raised key store
unfolding gap_raised touch
gap-entry_mut_entry key now_us store = rw (entry_mut-touch key now_us store) refl

pub gap-entry_mut :
    (key : SessionKey) (now_us : ℕ) (store : SessionStore)
    → gap_raised key ((entry_mut key now_us store).1) ≡ gap_raised key store
unfolding gap_raised touch
gap-entry_mut key now_us store =
    ap (λ o. (unwrap_or o default_session).gap_anomaly_emitted) (get-entry_mut key now_us store)

pub gap-write :
    (key : SessionKey) (s : SessionState) (store : SessionStore)
    → gap_raised key (write key s store) ≡ s.gap_anomaly_emitted
unfolding gap_raised
gap-write key s store =
    ap (λ o. (unwrap_or o default_session).gap_anomaly_emitted) (get-write key s store)

gap-resolve_name :
    (key : SessionKey) (now_us : ℕ) (name : Option Text) (alias : Option ℕ) (store : SessionStore)
    → gap_raised key ((resolve_name key now_us name alias store).1) ≡ gap_raised key store
unfolding resolve_name bind
gap-resolve_name key now_us none none store = refl
gap-resolve_name key now_us none (some b) store = refl
gap-resolve_name key now_us (some n) none store = refl
gap-resolve_name key now_us (some n) (some b) store =
    gap-write key _ _ ∙ gap-entry_mut_entry key now_us store

gap-emit_metrics :
    (ctx : MqttPublishContext) (topic : SparkplugTopic) (payload : Payload) (metrics : List Metric)
    (d : SparkplugBDecoder)
    → gap_raised (session_key ctx topic) ((emit_metrics ctx topic payload metrics d).1.sessions)
      ≡ gap_raised (session_key ctx topic) d.sessions
unfolding emit_metrics build_reading make_event
gap-emit_metrics ctx topic payload [] d = refl
gap-emit_metrics ctx topic payload (m ∷ metrics) d =
    gap-emit_metrics ctx topic payload metrics _
    ∙ gap-resolve_name (session_key ctx topic) ctx.packet_ts_us m.name m.alias d.sessions

pub gap-emit_transaction :
    (ctx : MqttPublishContext) (topic : SparkplugTopic) (payload : Payload)
    (fields : SparkplugBronzeFields) (d : SparkplugBDecoder)
    → gap_raised (session_key ctx topic) ((emit_transaction ctx topic payload fields d).1.sessions)
      ≡ gap_raised (session_key ctx topic) d.sessions
unfolding emit_transaction make_event
gap-emit_transaction ctx topic payload fields d =
    gap-emit_metrics ctx topic payload payload.metrics _

-- The birth's number is not below the session's.
unfoldable pub accepts : MqttPublishContext → SparkplugTopic → Payload → SparkplugBDecoder → Bool
accepts ctx topic payload d =
    supersedes (session_of (session_key ctx topic) d.sessions).bd_seq
      (extract_bd_seq payload.metrics)

bd_seq-entry_mut :
    (key : SessionKey) (now_us : ℕ) (store : SessionStore)
    → (entry_mut key now_us store).0.bd_seq ≡ (session_of key store).bd_seq
unfolding touch
bd_seq-entry_mut key now_us store = rw (entry_mut-touch key now_us store) refl

gap-bind_all :
    (metrics : List Metric) (s : SessionState)
    → (bind_all metrics s).gap_anomaly_emitted ≡ s.gap_anomaly_emitted
unfolding bind_all bind
gap-bind_all [] s = refl
gap-bind_all (m ∷ metrics) s =
    gap-bind_all metrics (bind_metric m.name m.alias s) ∙ step m.name m.alias
  where
    step :
        (name : Option Text) (alias : Option ℕ)
        → (bind_metric name alias s).gap_anomaly_emitted ≡ s.gap_anomaly_emitted
    step none alias = refl
    step (some n) none = refl
    step (some n) (some b) = refl

-- What an accepted birth does, and a refused one.
pub handle_birth_accept :
    (ctx : MqttPublishContext) (topic : SparkplugTopic) (payload : Payload) (d : SparkplugBDecoder)
    → accepts ctx topic payload d ≡ true
    → (fields : SparkplugBronzeFields) × (s : SessionState) × (s.gap_anomaly_emitted ≡ false)
      × ((a : ℕ) → resolve a s ≡ none)
      × (handle_birth ctx topic payload d
          ≡ emit_transaction ctx topic payload fields (record d {
            sessions =
                write
                  (session_key ctx topic)
                  (bind_all payload.metrics s)
                  (entry_mut (session_key ctx topic) ctx.packet_ts_us d.sessions).1;
          }))
unfolding handle_birth accepts clear_aliases resolve lookup
handle_birth_accept ctx topic payload d h =
    let key = session_key ctx topic in
    let entry = entry_mut key ctx.packet_ts_us d.sessions in
    let bd_seq = extract_bd_seq payload.metrics in
    (
      build_sparkplug_fields topic payload bd_seq (some (length payload.metrics % 2 ^ 32))
          (codes "n/a"),
      record entry.0 { aliases = []; bd_seq = bd_seq; gap_anomaly_emitted = false },
      refl,
      (λ a. refl),
      rw
          (record_birth_accept bd_seq entry.0
            (ap (λ n. supersedes n bd_seq) (bd_seq-entry_mut key ctx.packet_ts_us d.sessions) ∙ h))
          refl,
    )

pub handle_birth_refuse :
    (ctx : MqttPublishContext) (topic : SparkplugTopic) (payload : Payload) (d : SparkplugBDecoder)
    → accepts ctx topic payload d ≡ false
    → handle_birth ctx topic payload d ≡ (
      [],
      record d {
        sessions =
            write
              (session_key ctx topic)
              (entry_mut (session_key ctx topic) ctx.packet_ts_us d.sessions).0
              (entry_mut (session_key ctx topic) ctx.packet_ts_us d.sessions).1;
      },
    )
unfolding handle_birth accepts
handle_birth_refuse ctx topic payload d h =
    let key = session_key ctx topic in
    let entry = entry_mut key ctx.packet_ts_us d.sessions in
    let bd_seq = extract_bd_seq payload.metrics in
    rw
      (record_birth_refuse bd_seq entry.0
        (ap (λ n. supersedes n bd_seq) (bd_seq-entry_mut key ctx.packet_ts_us d.sessions) ∙ h))
      refl

first_of_again : (o : Option Text) → first_of o (first_of o none) ≡ o
first_of_again none = refl
first_of_again (some a) = refl

emit_transaction_nonempty :
    (ctx : MqttPublishContext) (topic : SparkplugTopic) (payload : Payload)
    (fields : SparkplugBronzeFields) (d : SparkplugBDecoder)
    → is_empty ((emit_transaction ctx topic payload fields d).0) ≡ false
unfolding emit_transaction
emit_transaction_nonempty ctx topic payload fields d = refl

-- The state and the events after an accepted birth.
pub handle_birth_accepted :
    (ctx : MqttPublishContext) (topic : SparkplugTopic) (payload : Payload) (d : SparkplugBDecoder)
    (a : ℕ)
    → accepts ctx topic payload d ≡ true
    → (known (session_key ctx topic) a ((handle_birth ctx topic payload d).1.sessions)
        ≡ binding a payload.metrics)
      × (gap_raised (session_key ctx topic) ((handle_birth ctx topic payload d).1.sessions) ≡ false)
      × (is_empty ((handle_birth ctx topic payload d).0) ≡ false)
handle_birth_accepted ctx topic payload d a h =
    let found = handle_birth_accept ctx topic payload d h in
    let key = session_key ctx topic in
    rw found.4 (
      known-emit_transaction ctx topic payload found.0 a _
          ∙ ap (first_of (binding a payload.metrics)) (
              known-write key a _ _
              ∙ resolve-bind_all a payload.metrics found.1
              ∙ ap (first_of (binding a payload.metrics)) (found.3 a))
          ∙ first_of_again (binding a payload.metrics),
      gap-emit_transaction ctx topic payload found.0 _
          ∙ gap-write key _ _
          ∙ gap-bind_all payload.metrics found.1
          ∙ found.2,
      emit_transaction_nonempty ctx topic payload found.0 _,
    )

-- After an accepted birth the session knows exactly the names that the birth's metrics give, the
-- last one for an alias that is given twice, and its gap signal is armed again; after a refused
-- one it knows what it knew, no event is emitted, and the signal is as it was.
pub handle_birth_lem :
    (ctx : MqttPublishContext) (topic : SparkplugTopic) (payload : Payload) (d : SparkplugBDecoder)
    (a : ℕ)
    → (known (session_key ctx topic) a ((handle_birth ctx topic payload d).1.sessions) ≡ (
        if accepts ctx topic payload d
        then binding a payload.metrics
        else known (session_key ctx topic) a d.sessions))
      × (gap_raised (session_key ctx topic) ((handle_birth ctx topic payload d).1.sessions) ≡ (
          if accepts ctx topic payload d
          then false
          else gap_raised (session_key ctx topic) d.sessions))
      × (is_empty ((handle_birth ctx topic payload d).0) ≡ not (accepts ctx topic payload d))
handle_birth_lem ctx topic payload d a = elim (Bool-cases (accepts ctx topic payload d)) [
  | inl q ↦ rw q (handle_birth_accepted ctx topic payload d a q)
  | inr q ↦
      rw (q, handle_birth_refuse ctx topic payload d q)
        (
          known-write key a entry.0 entry.1 ∙ resolve-entry_mut key ctx.packet_ts_us a d.sessions,
          gap-write key entry.0 entry.1 ∙ gap-entry_mut_entry key ctx.packet_ts_us d.sessions,
          refl,
        )
]
  where
    key : SessionKey
    key = session_key ctx topic

    entry : SessionState × SessionStore
    entry = entry_mut key ctx.packet_ts_us d.sessions

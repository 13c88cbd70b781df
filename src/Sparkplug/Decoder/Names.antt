-- ===== src/Sparkplug/Decoder/Names.antt =====
-- The names of the readings that a data message gives, and its gap signal.
use mathlib.Core.List.{append_assoc}
use marlinspike_dpi.Sparkplug.State.Births.{note_gap_first, note_gap_again}
use marlinspike_dpi.Prelude.{
  ℕ, ◌≡◌, refl, sym, ap, ◌∙◌, Bool, true, false, ◌&&◌, ◌||◌, not, Option, none, some, List, [], ◌∷◌,
  ◌++◌, arith, is_some, if◌then◌else◌, Bool-cases, inl, inr, ◌>>=◌,
}
use marlinspike_dpi.Prelude.Text.{Text}
use marlinspike_dpi.Sparkplug.Topic.{SparkplugTopic}
use marlinspike_dpi.Sparkplug.State.{SessionKey, SessionStore, resolve, entry_mut}
use marlinspike_dpi.Sparkplug.Value.{Metric}
use marlinspike_dpi.Sparkplug.Decoder.{
  MqttPublishContext, Payload, SparkplugBDecoder, session_key, make_event, SparkplugBronzeFields,
  BronzeEvent, BronzeEventFamily, gap_anomaly, process_reading,
}
use marlinspike_dpi.Sparkplug.Decoder.Readings.{
  resolve_name, build_reading, emit_metrics, emit_transaction,
}
use marlinspike_dpi.Sparkplug.Decoder.Handlers.{signal_gap}
use marlinspike_dpi.Sparkplug.Decoder.Resolution.{
  known, gap_raised, own, first_of, known-write, known-resolve_name, resolve-entry_mut,
}
use marlinspike_dpi.Sparkplug.Decoder.Epochs.{gap-write, gap-entry_mut_entry}

abbrev name_of : BronzeEventFamily → List (Option Text)
name_of (process_reading r) = r.point_id.metric_name ∷ []
name_of _ = []

-- The names of the readings among the events, in order.
unfoldable pub reading_names : List BronzeEvent → List (Option Text)
reading_names [] = []
reading_names (e ∷ es) = name_of e.family ++ reading_names es

abbrev is_gap : BronzeEventFamily → Bool
is_gap (gap_anomaly t) = true
is_gap _ = false

unfoldable pub has_gap : List BronzeEvent → Bool
has_gap [] = false
has_gap (e ∷ es) = is_gap e.family || has_gap es

-- A metric's own name, or what the table has for its alias; a named metric teaches the table.
unfoldable pub names_spec : (ℕ → Option Text) → List Metric → List (Option Text)
names_spec table [] = []
names_spec table (m ∷ metrics) =
    first_of m.name (m.alias >>= table)
    ∷ names_spec (λ a. first_of (own a m.name m.alias) (table a)) metrics

abbrev pub is_unknown : (ℕ → Option Text) → Metric → Bool
is_unknown table m = not (is_some m.name) && is_some m.alias && not (is_some (m.alias >>= table))

resolve_name_lem :
    (key : SessionKey) (now_us : ℕ) (name : Option Text) (alias : Option ℕ) (store : SessionStore)
    → (resolve_name key now_us name alias store).0.0
      ≡ first_of name (alias >>= (λ a. known key a store))
unfolding resolve_name known
resolve_name_lem key now_us none none store = refl
resolve_name_lem key now_us none (some b) store = refl
resolve_name_lem key now_us (some n) none store = refl
resolve_name_lem key now_us (some n) (some b) store = refl

names-emit_metrics :
    (ctx : MqttPublishContext) (topic : SparkplugTopic) (payload : Payload) (metrics : List Metric)
    (d : SparkplugBDecoder)
    → reading_names ((emit_metrics ctx topic payload metrics d).0)
      ≡ names_spec (λ a. known (session_key ctx topic) a d.sessions) metrics
unfolding emit_metrics build_reading make_event names_spec reading_names
names-emit_metrics ctx topic payload [] d = refl
names-emit_metrics ctx topic payload (m ∷ metrics) d =
    let key = session_key ctx topic in
    let after = (resolve_name key ctx.packet_ts_us m.name m.alias d.sessions).1 in
    rw (resolve_name_lem key ctx.packet_ts_us m.name m.alias d.sessions) (
      ap (◌∷◌ (first_of m.name (m.alias >>= (λ a. known key a d.sessions)))) (
        names-emit_metrics ctx topic payload metrics _
        ∙ ap (λ (table : ℕ → Option Text). names_spec table metrics)
            (λ i a. known-resolve_name key ctx.packet_ts_us a m.name m.alias d.sessions i)))

gap-emit_metrics :
    (ctx : MqttPublishContext) (topic : SparkplugTopic) (payload : Payload) (metrics : List Metric)
    (d : SparkplugBDecoder)
    → has_gap ((emit_metrics ctx topic payload metrics d).0) ≡ false
unfolding emit_metrics make_event has_gap
gap-emit_metrics ctx topic payload [] d = refl
gap-emit_metrics ctx topic payload (m ∷ metrics) d = gap-emit_metrics ctx topic payload metrics _

pub emit_transaction_lem :
    (ctx : MqttPublishContext) (topic : SparkplugTopic) (payload : Payload)
    (fields : SparkplugBronzeFields) (d : SparkplugBDecoder)
    → (reading_names ((emit_transaction ctx topic payload fields d).0)
        ≡ names_spec (λ a. known (session_key ctx topic) a d.sessions) payload.metrics)
      × (has_gap ((emit_transaction ctx topic payload fields d).0) ≡ false)
unfolding emit_transaction make_event reading_names has_gap
emit_transaction_lem ctx topic payload fields d = (
  names-emit_metrics ctx topic payload payload.metrics _,
  gap-emit_metrics ctx topic payload payload.metrics _,
)

-- The signal is raised unless it was raised before, and what the session knows stays.
signal_gap_lem :
    (ctx : MqttPublishContext) (topic : SparkplugTopic) (d : SparkplugBDecoder)
    → (reading_names ((signal_gap ctx topic d).0) ≡ [])
      × (has_gap ((signal_gap ctx topic d).0) ≡ not (gap_raised (session_key ctx topic) d.sessions))
      × (gap_raised (session_key ctx topic) ((signal_gap ctx topic d).1.sessions) ≡ true)
      × ((a : ℕ)
          → known (session_key ctx topic) a ((signal_gap ctx topic d).1.sessions)
            ≡ known (session_key ctx topic) a d.sessions)
unfolding signal_gap make_event reading_names has_gap
signal_gap_lem ctx topic d =
    let key = session_key ctx topic in
    let now = ctx.packet_ts_us in
    let entry = entry_mut key now d.sessions in
    let raised = gap-entry_mut_entry key now d.sessions in
    elim (Bool-cases (gap_raised key d.sessions)) [
      | inl q ↦
          rw (note_gap_again entry.0 (raised ∙ q), q)
            (
              refl,
              refl,
              gap-write key _ _ ∙ raised ∙ q,
              (λ a. known-write key a _ _ ∙ resolve-entry_mut key now a d.sessions),
            )
      | inr q ↦
          rw (note_gap_first entry.0 (raised ∙ q), q)
            (
              refl,
              refl,
              gap-write key _ _,
              (λ a.
                  known-write key a _ _
                  ∙ (unfold resolve in resolve-entry_mut key now a d.sessions)),
            )
    ]

pub or_false : (b : Bool) → (b || false) ≡ b
or_false true = refl
or_false false = refl

pub and_true : (b : Bool) → (b && true) ≡ b
and_true true = refl
and_true false = refl

-- The gap step of a data message.
abbrev pub gap_step :
    Bool
    → MqttPublishContext
    → SparkplugTopic
    → SparkplugBDecoder
    → List BronzeEvent × SparkplugBDecoder
gap_step b ctx topic d = if b then signal_gap ctx topic d else ([], d)

pub gap_step_lem :
    (b : Bool) (ctx : MqttPublishContext) (topic : SparkplugTopic) (d : SparkplugBDecoder)
    → (reading_names ((gap_step b ctx topic d).0) ≡ [])
      × (has_gap ((gap_step b ctx topic d).0)
          ≡ (b && not (gap_raised (session_key ctx topic) d.sessions)))
      × (gap_raised (session_key ctx topic) ((gap_step b ctx topic d).1.sessions)
          ≡ (b || gap_raised (session_key ctx topic) d.sessions))
      × ((a : ℕ)
          → known (session_key ctx topic) a ((gap_step b ctx topic d).1.sessions)
            ≡ known (session_key ctx topic) a d.sessions)
unfolding reading_names has_gap
gap_step_lem true ctx topic d = signal_gap_lem ctx topic d
gap_step_lem false ctx topic d = (refl, refl, refl, (λ a. refl))

pub reading_names-append :
    (es fs : List BronzeEvent) → reading_names (es ++ fs) ≡ reading_names es ++ reading_names fs
unfolding reading_names
reading_names-append [] fs = refl
reading_names-append (e ∷ es) fs =
    ap (λ names. name_of e.family ++ names) (reading_names-append es fs)
    ∙ sym (append_assoc (name_of e.family) (reading_names es) (reading_names fs))

pub has_gap-append : (es fs : List BronzeEvent) → has_gap (es ++ fs) ≡ (has_gap es || has_gap fs)
unfolding has_gap
has_gap-append [] fs = refl
has_gap-append (e ∷ es) fs = ground (arith, has_gap-append es fs)

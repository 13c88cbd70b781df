-- ===== src/Sparkplug/State/Births.antt =====
-- Birth sequence numbers and the gap signal of one session.
use marlinspike_dpi.Prelude.{
  ℕ, suc, ◌+◌, ◌≤◌, ◌≡◌, refl, ap, sym, ◌∙◌, Bool, true, false, ◌&&◌, Option, none, some, List, [],
  ◌∷◌, arith, if◌then◌else◌, leb, Bool-cases, inl, inr,
}
use marlinspike_dpi.Prelude.Text.{Text}
use marlinspike_dpi.Sparkplug.State.{
  SessionState, default_session, record_birth, supersedes, note_gap_anomaly_if_first, record_death,
  bind, clear_aliases,
}

-- The answers to a sequence of births that all carry a number.
unfoldable pub births : List ℕ → SessionState → List Bool
births [] s = []
births (n ∷ ns) s = let first = record_birth (some n) s in first.0 ∷ births ns first.1

-- Every number of the history is at most `n`.
abbrev pub all_le : ℕ → List ℕ → Bool
all_le n [] = true
all_le n (m ∷ ms) = leb m n && all_le n ms

-- A birth is accepted when no birth of the whole history, refused ones included, had a larger
-- number.
unfoldable pub births_spec : List ℕ → List ℕ → List Bool
births_spec history [] = []
births_spec history (n ∷ ns) = all_le n history ∷ births_spec (n ∷ history) ns

-- The number of a session is the largest of its history.
abbrev Largest : Option ℕ → List ℕ → Type 0
Largest bd_seq history = (n : ℕ) → supersedes bd_seq (some n) ≡ all_le n history

pub record_birth_accept :
    (n : Option ℕ) (s : SessionState)
    → supersedes s.bd_seq n ≡ true
    → record_birth n s ≡ (true, record s { bd_seq = n; gap_anomaly_emitted = false })
unfolding record_birth
record_birth_accept n s h = rw h refl

pub record_birth_refuse :
    (n : Option ℕ) (s : SessionState)
    → supersedes s.bd_seq n ≡ false
    → record_birth n s ≡ (false, s)
unfolding record_birth
record_birth_refuse n s h = rw h refl

pub note_gap_first :
    (s : SessionState)
    → s.gap_anomaly_emitted ≡ false
    → note_gap_anomaly_if_first s ≡ (true, record s { gap_anomaly_emitted = true })
unfolding note_gap_anomaly_if_first
note_gap_first s h =
    ap (λ (b : Bool). if b then (false, s) else (true, record s { gap_anomaly_emitted = true })) h

pub note_gap_again :
    (s : SessionState) → s.gap_anomaly_emitted ≡ true → note_gap_anomaly_if_first s ≡ (false, s)
unfolding note_gap_anomaly_if_first
note_gap_again s h =
    ap (λ (b : Bool). if b then (false, s) else (true, record s { gap_anomaly_emitted = true })) h

all_le_mono :
    (m n : ℕ) (history : List ℕ) → m ≤ n → all_le m history ≡ true → all_le n history ≡ true
all_le_mono m n [] h k = refl
all_le_mono m n (x ∷ xs) h k = ground (arith, all_le_mono m n xs)

-- An accepted number is the largest, and a refused one changes nothing.
Largest-accept :
    (n : ℕ) (history : List ℕ) → all_le n history ≡ true → Largest (some n) (n ∷ history)
unfolding supersedes
Largest-accept n history h m = ground (arith, all_le_mono n m history)

Largest-refuse :
    (bd_seq : Option ℕ) (n : ℕ) (history : List ℕ)
    → Largest bd_seq history
    → supersedes bd_seq (some n) ≡ false
    → Largest bd_seq (n ∷ history)
unfolding supersedes
Largest-refuse none n history h q m = ground arith
Largest-refuse (some p) n history h q m = ground (arith, h m, h n)

births_from :
    (ns history : List ℕ) (s : SessionState)
    → Largest s.bd_seq history
    → births ns s ≡ births_spec history ns
unfolding births births_spec
births_from [] history s h = refl
births_from (n ∷ ns) history s h = elim (Bool-cases (supersedes s.bd_seq (some n))) [
  | inl q ↦
      rw (record_birth_accept (some n) s q, sym (h n), q)
        (ap (◌∷◌ true) (births_from ns (n ∷ history) _ (Largest-accept n history (sym (h n) ∙ q))))
  | inr q ↦
      rw (record_birth_refuse (some n) s q, sym (h n), q)
        (ap (◌∷◌ false) (births_from ns (n ∷ history) s (Largest-refuse s.bd_seq n history h q)))
]

-- From a new session, a birth that carries a number is accepted exactly when no earlier birth
-- carried a larger one, where every birth carries a number; an equal number is accepted.
pub births-births_spec : (ns : List ℕ) → births ns default_session ≡ births_spec [] ns
births-births_spec ns = births_from ns [] default_session (unfold supersedes in λ n. refl)

-- What happens to a session between two touches.
pub data SessionEvent : Type 0 where
  birth : Option ℕ → SessionEvent
  bound : ℕ → Text → SessionEvent
  death : SessionEvent
  gap : SessionEvent

-- The gap signals and the accepted births of a run.
unfoldable pub signals : List SessionEvent → SessionState → ℕ × ℕ
signals [] s = (0, 0)
signals (birth n ∷ events) s =
    let first = record_birth n s in
    let rest = signals events (if first.0 then clear_aliases first.1 else first.1) in
    (rest.0, (if first.0 then suc rest.1 else rest.1))
signals (bound alias name ∷ events) s = signals events (bind alias name s)
signals (death ∷ events) s = signals events (record_death s)
signals (gap ∷ events) s =
    let first = note_gap_anomaly_if_first s in
    let rest = signals events first.1 in ((if first.0 then suc rest.0 else rest.0), rest.1)

signals_from :
    (events : List SessionEvent) (s : SessionState)
    → (signals events s).0 + (if s.gap_anomaly_emitted then 1 else 0) ≤ suc ((signals events s).1)
unfolding signals record_birth note_gap_anomaly_if_first bind record_death clear_aliases
signals_from [] s = ground arith
signals_from (birth n ∷ events) s = elim (Bool-cases (supersedes s.bd_seq n)) [
  | inl q ↦ rw q (
      ground (
        arith,
        signals_from events (record s { aliases = []; bd_seq = n; gap_anomaly_emitted = false }),
      ))
  | inr q ↦ rw q (ground (arith, signals_from events s))
]
signals_from (bound alias name ∷ events) s = unfold bind in signals_from events (bind alias name s)
signals_from (death ∷ events) s = unfold record_death in signals_from events (record_death s)
signals_from (gap ∷ events) s = elim (Bool-cases s.gap_anomaly_emitted) [
  | inl q ↦ ground (arith, signals_from events s)
  | inr q ↦ ground (arith, signals_from events (record s { gap_anomaly_emitted = true }))
]

-- In every run of a session the gap signal is raised at most once before the first accepted birth
-- and once after each: there are at most one more signals than accepted births.
signals-le :
    (events : List SessionEvent) (s : SessionState)
    → (signals events s).0 ≤ suc ((signals events s).1)
signals-le events s = ground (arith, signals_from events s)

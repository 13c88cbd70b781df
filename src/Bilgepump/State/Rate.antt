-- ===== src/Bilgepump/State/Rate.antt =====
-- `RateCounter` against the whole history of events.
use marlinspike_dpi.Prelude.{ℕ, ◌≤◌, ◌≡◌, refl, ap, false, List, [], ◌∷◌, ◌++◌, arith, keep, length}
use marlinspike_dpi.Prelude.Clock.{Clock, IsClock, before, minus_secs, NotAfter, max_secs}
use marlinspike_dpi.Bilgepump.State.{RateCounter, pop_front_while, record_event, empty_counter}
use marlinspike_dpi.Bilgepump.State.Prune.{
  since, Sorted, UpTo, Sorted-snoc, UpTo-mono, UpTo-snoc, pop_front_while-push,
}

abbrev own : {Time : Type 0} → Time → Time
own t = t

module _ {Time : Type 0} ⦃clock : Clock Time⦄ where
  -- Times do not go back, from `last` on.
  abbrev pub Ordered : Time → List Time → Type 0
  Ordered last [] = Unit {0}
  Ordered last (t ∷ ts) = NotAfter last t × Ordered t ts

  -- The counts that a counter reports for a sequence of events.
  unfoldable pub counts : ℕ → List Time → RateCounter Time → List ℕ
  counts secs [] c = []
  counts secs (t ∷ ts) c = let r = record_event t secs c in r.1 ∷ counts secs ts r.0

  -- The number of events of the whole history inside the window that ends at each event.
  unfoldable pub counts_spec : ℕ → List Time → List Time → List ℕ
  counts_spec secs [] h = []
  counts_spec secs (t ∷ ts) h =
      let h' = h ++ (t ∷ []) in
      length (keep (since own (minus_secs t secs)) h') ∷ counts_spec secs ts h'

  -- The counter holds the events of the history that the last window reaches.
  pub record Holds (secs : ℕ) (last : Time) (c : RateCounter Time) (h : List Time) : Type 0 where
    pub sorted : Sorted own h
    pub past : UpTo own last h
    pub held : c.timestamps ≡ keep (since own (minus_secs last secs)) h

module _ {Time : Type 0} ⦃clock : Clock Time⦄ (laws : IsClock clock) where
  pop_front_while-last :
      (cutoff t : Time) (xs : List Time)
      → before t cutoff ≡ false
      → 1 ≤ length (pop_front_while (λ u. before u cutoff) (xs ++ (t ∷ [])))
  unfolding pop_front_while
  pop_front_while-last cutoff t [] h = ground arith
  pop_front_while-last cutoff t (x ∷ xs) h = ground (arith, pop_front_while-last cutoff t xs)

  -- The event just recorded is always counted: no counter is ever left empty.
  pub record_event_pos :
      (now : Time) (secs : ℕ) (c : RateCounter Time)
      → secs ≤ max_secs
      → 1 ≤ (record_event now secs c).1
  unfolding record_event
  record_event_pos now secs c h =
      pop_front_while-last (minus_secs now secs) now c.timestamps (laws.minus-le now secs h)

  record_event-Holds :
      (secs : ℕ) (last now : Time) (c : RateCounter Time) (h : List Time)
      → NotAfter last now
      → Holds secs last c h
      → Holds secs now (record_event now secs c).0 (h ++ (now ∷ []))
  unfolding record_event
  record_event-Holds secs last now c h le k =
      let up = UpTo-mono laws own last now h le k.past in
      record {
        sorted = Sorted-snoc own now h k.sorted up;
        past = UpTo-snoc laws own now h up;
        held =
            pop_front_while-push laws own (minus_secs last secs) (minus_secs now secs) now
              c.timestamps h (laws.minus_mono last now secs le) k.sorted up k.held;
      }

  record_event-count :
      (secs : ℕ) (last now : Time) (c : RateCounter Time) (h : List Time)
      → NotAfter last now
      → Holds secs last c h
      → (record_event now secs c).1
        ≡ length (keep (since own (minus_secs now secs)) (h ++ (now ∷ [])))
  unfolding record_event
  record_event-count secs last now c h le k =
      ap length (record_event-Holds secs last now c h le k).held

  counts-Holds :
      (secs : ℕ) (ts : List Time) (last : Time) (c : RateCounter Time) (h : List Time)
      → Ordered last ts
      → Holds secs last c h
      → counts secs ts c ≡ counts_spec secs ts h
  unfolding counts counts_spec
  counts-Holds secs [] last c h o k = refl
  counts-Holds secs (t ∷ ts) last c h (le, o) k = rw (record_event-count secs last t c h le k) (
      ap (◌∷◌ (length (keep (since own (minus_secs t secs)) (h ++ (t ∷ []))))) (
        counts-Holds secs ts t (record_event t secs c).0 (h ++ (t ∷ [])) o
          (record_event-Holds secs last t c h le k)))

  -- For events in time order, a counter that forgets what left the window reports at each event
  -- the number of events of the whole history inside the window that ends there.
  pub counts-counts_spec :
      (secs : ℕ) (start : Time) (ts : List Time)
      → Ordered start ts
      → counts secs ts empty_counter ≡ counts_spec secs ts []
  counts-counts_spec secs start ts o =
      counts-Holds secs ts start empty_counter [] o (record { sorted = tt; past = tt; held = refl })

-- ===== src/Dedup/History.antt =====
-- The filter against a history that forgets nothing.
use marlinspike_dpi.Prelude.{
  ℕ, ◌-◌, ◌≤◌, ◌≡◌, refl, Bool, Option, none, some, List, [], ◌∷◌, if◌then◌else◌, leb, PartialEq,
  arith, is_some_and, filter_option, Option-cases, ◌==◌, inl, inr, ◌∙◌, any, ◌&&◌, ap,
}
use marlinspike_dpi.HashMap.{lookup, Distinct}
use marlinspike_dpi.HashMap.Laws.{
  lookup-insert, lookup-retain, insert-Distinct, retain-Distinct, Values-lookup,
}
use marlinspike_dpi.Dedup.{DedupEngine, Call, evict, note, hash_input, compute_hash, is_duplicate}
use marlinspike_dpi.Dedup.Window.{IsFresh, evict-IsFresh}

-- The digests and times of the records let through so far, the newest first.
abbrev pub History {ℓ} : Type ℓ → Type ℓ
History Digest = List (Digest × ℕ)

-- Timestamps do not go back, from `now` on.
abbrev pub Ordered : ℕ → List Call → Type 0
Ordered now [] = Unit {0}
Ordered now (c ∷ cs) = (now ≤ c.timestamp_ns) × Ordered c.timestamp_ns cs

filter-is_some_and :
    (o : Option ℕ) (cutoff from : ℕ)
    → cutoff ≤ from
    → is_some_and (filter_option (λ ts. leb cutoff ts) o) (λ ts. leb from ts)
      ≡ is_some_and o (λ ts. leb from ts)
filter-is_some_and none cutoff from h = refl
filter-is_some_and (some ts) cutoff from h = ground arith

module _ {ℓ} {Digest : Type ℓ} ⦃e : PartialEq Digest⦄ where
  -- Whether the history has the digest at `from` or later.
  abbrev pub seen_since : Digest → ℕ → History Digest → Bool
  seen_since hash from h = any (λ a. a.0 == hash && leb from a.1) h

  -- From `now - window` on, the table and the history answer alike.
  pub record Tracks (now : ℕ) (d : DedupEngine Digest) (h : History Digest) : Type ℓ where
    pub distinct : Distinct d.seen
    pub agrees :
        (hash : Digest) (from : ℕ)
        → now - d.window_ns ≤ from
        → is_some_and (lookup hash d.seen) (λ ts. leb from ts) ≡ seen_since hash from h

  evict-Tracks :
      (old now : ℕ) (d : DedupEngine Digest) (h : History Digest)
      → old ≤ now
      → Tracks old d h
      → Tracks now (evict now d) h
  unfolding evict
  evict-Tracks old now d h le t = record {
    distinct = retain-Distinct (λ ts. leb (now - d.window_ns) ts) d.seen t.distinct;
    agrees = λ hash from le'.
        rw (lookup-retain (λ ts. leb (now - d.window_ns) ts) hash d.seen t.distinct) (
          filter-is_some_and (lookup hash d.seen) (now - d.window_ns) from le'
          ∙ t.agrees hash from (omega arith));
  }

  note-Tracks :
      (hash : Digest) (now : ℕ) (d : DedupEngine Digest) (h : History Digest)
      → IsFresh now d
      → Tracks now d h
      → ((note hash now d).1 ≡ seen_since hash (now - d.window_ns) h)
        × Tracks now (note hash now d).0 (if (note hash now d).1 then h else (hash, now) ∷ h)
  unfolding note
  note-Tracks hash now d h f t = elim (Option-cases (lookup hash d.seen)) [
    | inl q ↦ (
      rw (q, note) (ground (arith, t.agrees hash (now - d.window_ns) (omega arith))),
      rw (q, note)
          (record {
            distinct = insert-Distinct hash now d.seen t.distinct;
            agrees = λ j from le.
                ground
                  (arith, lookup-insert hash j now d.seen, e.equal_iff hash j, t.agrees j from le);
          }),
    )
    | inr (ts, q) ↦ (
      rw (q, note)
          (ground (
            arith,
            t.agrees hash (now - d.window_ns) (omega arith),
            Values-lookup (λ (ts : ℕ). now - d.window_ns ≤ ts) hash d.seen f.recent q,
          )),
      rw (q, note) t,
    )
  ]

module _ {ℓ} {Digest : Type ℓ} ⦃e : PartialEq Digest⦄ (sha256 : List ℕ → Digest) where
  -- The answers of the engine to a sequence of records.
  unfoldable pub run : List Call → DedupEngine Digest → List Bool
  run [] d = []
  run (c ∷ cs) d = let r = is_duplicate sha256 c d in r.1 ∷ run cs r.0

  -- The answers that the whole history gives.
  unfoldable pub run_spec : ℕ → ℕ → List Call → History Digest → List Bool
  run_spec window bucket [] h = []
  run_spec window bucket (c ∷ cs) h =
      let hash = sha256 (hash_input bucket c) in
      let dup = seen_since hash (c.timestamp_ns - window) h in
      dup ∷ run_spec window bucket cs (if dup then h else (hash, c.timestamp_ns) ∷ h)

  is_duplicate-Tracks :
      (old : ℕ) (c : Call) (d : DedupEngine Digest) (h : History Digest)
      → old ≤ c.timestamp_ns
      → Tracks old d h
      → ((is_duplicate sha256 c d).1
          ≡ seen_since (compute_hash sha256 d c) (c.timestamp_ns - d.window_ns) h)
        × Tracks c.timestamp_ns (is_duplicate sha256 c d).0 (
            if (is_duplicate sha256 c d).1
            then h
            else (compute_hash sha256 d c, c.timestamp_ns) ∷ h)
  unfolding is_duplicate
  is_duplicate-Tracks old c d h le t =
      note-Tracks (compute_hash sha256 d c) c.timestamp_ns (evict c.timestamp_ns d) h
        (evict-IsFresh c.timestamp_ns d t.distinct) (evict-Tracks old c.timestamp_ns d h le t)

  is_duplicate_config :
      (c : Call) (d : DedupEngine Digest)
      → ((is_duplicate sha256 c d).0.window_ns ≡ d.window_ns)
        × ((is_duplicate sha256 c d).0.bucket_ns ≡ d.bucket_ns)
  unfolding is_duplicate
  is_duplicate_config c d = ground arith

  -- On records whose timestamps do not go back, the bounded table gives the answers of the full
  -- history: a record is dropped exactly when one with its digest was let through within the
  -- window.
  pub run-run_spec :
      (cs : List Call) (now : ℕ) (d : DedupEngine Digest) (h : History Digest)
      → Ordered now cs
      → Tracks now d h
      → run cs d ≡ run_spec d.window_ns d.bucket_ns cs h
  unfolding run run_spec compute_hash
  run-run_spec [] now d h o t = refl
  run-run_spec (c ∷ cs) now d h (le, o) t =
      let d' = (is_duplicate sha256 c d).0 in
      let (same, t') = is_duplicate-Tracks now c d h le t in
      let (w, b) = is_duplicate_config c d in
      let rest = rw (w, b) at (run-run_spec cs c.timestamp_ns d' _ o t') in
      rw (← same) (ap (◌∷◌ (is_duplicate sha256 c d).1) rest)

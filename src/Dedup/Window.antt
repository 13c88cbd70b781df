-- ===== src/Dedup/Window.antt =====
-- What one call of `is_duplicate` answers, and what it remembers.
use marlinspike_dpi.Prelude.{
  ℕ, ◌-◌, ◌≤◌, ◌≡◌, true, false, some, List, leb, PartialEq, arith, is_some_and, Option-cases, inl,
  inr, ◌∙◌,
}
use marlinspike_dpi.HashMap.{Map, lookup, retain, Distinct}
use marlinspike_dpi.HashMap.Laws.{
  lookup-insert_self, lookup-retain, insert-Distinct, retain-Distinct, Values, Values-insert,
}
use marlinspike_dpi.Dedup.{DedupEngine, Call, evict, note, compute_hash, is_duplicate}

-- Every remembered time is inside the window that ends at `now`.
pub record IsFresh {ℓ} {Digest : Type ℓ} ⦃e : PartialEq Digest⦄ (now : ℕ) (d : DedupEngine Digest)
    : Type ℓ where
  pub distinct : Distinct d.seen
  pub recent : Values (λ ts. now - d.window_ns ≤ ts) d.seen

module _ {ℓ} {Digest : Type ℓ} ⦃e : PartialEq Digest⦄ where
  pub retain-recent :
      (cutoff : ℕ) (m : Map Digest ℕ) → Values (λ ts. cutoff ≤ ts) (retain (λ ts. leb cutoff ts) m)
  unfolding retain
  retain-recent cutoff List.[] = tt
  retain-recent cutoff (List.◌∷◌ (k, ts) m) = ground (arith, retain-recent cutoff m)

  pub evict-IsFresh :
      (now : ℕ) (d : DedupEngine Digest) → Distinct d.seen → IsFresh now (evict now d)
  unfolding evict
  evict-IsFresh now d h = record {
    distinct = retain-Distinct (λ ts. leb (now - d.window_ns) ts) d.seen h;
    recent = retain-recent (now - d.window_ns) d.seen;
  }

  pub note-IsFresh :
      (hash : Digest) (now : ℕ) (d : DedupEngine Digest)
      → IsFresh now d
      → IsFresh now (note hash now d).0
  unfolding note
  note-IsFresh hash now d f = elim (Option-cases (lookup hash d.seen)) [
    | inl q ↦
        rw (q, note)
          (record {
            distinct = insert-Distinct hash now d.seen f.distinct;
            recent =
                Values-insert (λ ts. now - d.window_ns ≤ ts) hash now d.seen f.recent (omega arith);
          })
    | inr (ts, q) ↦ rw (q, note) f
  ]

  -- After a record was let through, its digest is remembered at its own time.
  pub lookup-note :
      (hash : Digest) (now : ℕ) (d : DedupEngine Digest)
      → (note hash now d).1 ≡ false
      → (lookup hash (note hash now d).0.seen ≡ some now)
        × ((note hash now d).0.window_ns ≡ d.window_ns)
        × ((note hash now d).0.bucket_ns ≡ d.bucket_ns)
  unfolding note
  lookup-note hash now d h = ground (arith, lookup-insert_self hash now d.seen)

  module _ (sha256 : List ℕ → Digest) (c : Call) (d : DedupEngine Digest) where
    -- A record is a duplicate exactly when its digest is remembered with a first-seen time that is
    -- not older than the window, whatever the rest of the table holds.
    is_duplicate_iff :
        Distinct d.seen
        → (is_duplicate sha256 c d).1
          ≡ is_some_and
              (lookup (compute_hash sha256 d c) d.seen)
              (λ ts. leb (c.timestamp_ns - d.window_ns) ts)
    unfolding is_duplicate
    is_duplicate_iff h = ground (
      arith,
      lookup-retain (λ ts. leb (c.timestamp_ns - d.window_ns) ts) (compute_hash sha256 d c) d.seen
          h,
    )

    -- After a call every remembered entry is inside the window and no digest stands twice.
    is_duplicate-IsFresh : Distinct d.seen → IsFresh c.timestamp_ns (is_duplicate sha256 c d).0
    unfolding is_duplicate
    is_duplicate-IsFresh h = note-IsFresh _ c.timestamp_ns _ (evict-IsFresh c.timestamp_ns d h)

    -- The state that a let-through record leaves behind.
    is_duplicate_accepted :
        (is_duplicate sha256 c d).1 ≡ false
        → (lookup (compute_hash sha256 d c) (is_duplicate sha256 c d).0.seen ≡ some c.timestamp_ns)
          × ((is_duplicate sha256 c d).0.window_ns ≡ d.window_ns)
          × ((is_duplicate sha256 c d).0.bucket_ns ≡ d.bucket_ns)
    unfolding is_duplicate
    is_duplicate_accepted h =
        lookup-note (compute_hash sha256 d c) c.timestamp_ns (evict c.timestamp_ns d) h

module _ {ℓ} {Digest : Type ℓ} ⦃e : PartialEq Digest⦄ (sha256 : List ℕ → Digest) where
  -- A record that was let through suppresses every later record with its digest whose window
  -- still reaches back to it.
  is_duplicate_again :
      (c c' : Call) (d : DedupEngine Digest)
      → Distinct d.seen
      → (is_duplicate sha256 c d).1 ≡ false
      → compute_hash sha256 d c' ≡ compute_hash sha256 d c
      → c'.timestamp_ns - d.window_ns ≤ c.timestamp_ns
      → (is_duplicate sha256 c' (is_duplicate sha256 c d).0).1 ≡ true
  is_duplicate_again c c' d h first same near =
      let d' = (is_duplicate sha256 c d).0 in
      let (found, w, b) = is_duplicate_accepted sha256 c d first in
      let hash : compute_hash sha256 d' c' ≡ compute_hash sha256 d c =
        unfold compute_hash in rw b same in
      is_duplicate_iff sha256 c' d' (is_duplicate-IsFresh sha256 c d h).distinct
      ∙ rw (hash, found, w) (ground arith)

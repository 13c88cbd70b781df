-- ===== src/OpcUa/State/Pending.antt =====
-- The cap of the table and its keys over every sequence of calls.
use marlinspike_dpi.Prelude.{
  ℕ, ◌≤◌, ◌≡◌, ◌&&◌, not, none, List, [], ◌∷◌, arith, if◌then◌else◌, leb, Option-cases, inl, inr,
  max, length,
}
use marlinspike_dpi.HashMap.{lookup, insert, contains_key, remove_oldest, Distinct}
use marlinspike_dpi.HashMap.Laws.{
  insert-Distinct, remove-Distinct, retain-Distinct, length-insert, length-remove-le,
  length-retain-le,
}
use marlinspike_dpi.HashMap.Oldest.{
  length-remove_oldest, remove_oldest-Distinct, lookup-remove_oldest-none,
}
use marlinspike_dpi.OpcUa.State.{
  PendingKey, PendingEntry, PendingReads, make_room, evict_lru_one, insert_read, take_read,
  evict_expired, is_live, pending_eq,
}

-- The calls that the decoder makes.
pub data Op (Node : Type 0) : Type 0 where
  requested : PendingKey → List Node → ℕ → Op Node
  answered : PendingKey → Op Node
  swept : ℕ → Op Node

module _ {Node : Type 0} where
  unfoldable pub step : Op Node → PendingReads Node → PendingReads Node
  step (requested key nodes now_us) p = insert_read key nodes now_us p
  step (answered key) p = (take_read key p).1
  step (swept now_us) p = (evict_expired now_us p).1

  -- The table after a history, the latest call first.
  unfoldable pub after : List (Op Node) → PendingReads Node → PendingReads Node
  after [] p = p
  after (op ∷ earlier) p = step op (after earlier p)

  -- A cap of 0 lets one entry live.
  pub record IsValid (p : PendingReads Node) : Type 0 where
    pub distinct : Distinct p.entries
    pub capped : length p.entries ≤ max 1 p.config.max_pending

  pub make_room-entries :
      (key : PendingKey) (p : PendingReads Node)
      → (make_room key p).entries ≡ (
          if leb p.config.max_pending (length p.entries) && not (contains_key key p.entries)
          then remove_oldest (λ (e : PendingEntry Node). e.inserted_us) p.entries
          else p.entries)
  unfolding make_room evict_lru_one
  make_room-entries key p = ground arith

  make_room-config :
      (key : PendingKey) (p : PendingReads Node) → (make_room key p).config ≡ p.config
  unfolding make_room evict_lru_one
  make_room-config key p = ground arith

  make_room-absent :
      (key : PendingKey) (p : PendingReads Node)
      → lookup key p.entries ≡ none
      → lookup key (make_room key p).entries ≡ none
  make_room-absent key p h = ground (
    arith,
    make_room-entries key p,
    lookup-remove_oldest-none (λ (e : PendingEntry Node). e.inserted_us) key p.entries h,
  )

  insert_read-length :
      (key : PendingKey) (nodes : List Node) (now_us : ℕ) (p : PendingReads Node)
      → IsValid p
      → length
          (insert key (record { nodes = nodes; inserted_us = now_us }) (make_room key p).entries)
        ≤ max 1 (make_room key p).config.max_pending
  insert_read-length key nodes now_us p v = elim (Option-cases (lookup key p.entries)) [
    | inl q ↦ ground (
      arith,
      make_room-entries key p,
      make_room-absent key p q,
      make_room-config key p,
      v.capped,
      length-insert key (record { nodes = nodes; inserted_us = now_us }) (make_room key p).entries,
      length-remove_oldest (λ (e : PendingEntry Node). e.inserted_us) p.entries v.distinct,
    )
    | inr (e, q) ↦ ground (
      arith,
      make_room-entries key p,
      make_room-config key p,
      v.capped,
      length-insert key (record { nodes = nodes; inserted_us = now_us }) (make_room key p).entries,
    )
  ]

  insert_read-IsValid :
      (key : PendingKey) (nodes : List Node) (now_us : ℕ) (p : PendingReads Node)
      → IsValid p
      → IsValid (insert_read key nodes now_us p)
  unfolding insert_read
  insert_read-IsValid key nodes now_us p v = record {
    distinct = insert-Distinct key _ _ (
        ground (
          arith,
          make_room-entries key p,
          v.distinct,
          remove_oldest-Distinct (λ (e : PendingEntry Node). e.inserted_us) p.entries v.distinct,
        ));
    capped = insert_read-length key nodes now_us p v;
  }

  step-IsValid : (op : Op Node) (p : PendingReads Node) → IsValid p → IsValid (step op p)
  unfolding step take_read evict_expired
  step-IsValid (requested key nodes now_us) p v = insert_read-IsValid key nodes now_us p v
  step-IsValid (answered key) p v = record {
    distinct = remove-Distinct key p.entries v.distinct;
    capped = omega (arith, length-remove-le key p.entries, v.capped);
  }
  step-IsValid (swept now_us) p v = record {
    distinct = retain-Distinct (is_live now_us p.config) p.entries v.distinct;
    capped = omega (arith, length-retain-le (is_live now_us p.config) p.entries, v.capped);
  }

  -- Over every history the keys stay distinct and the number of pending reads at most the cap, or
  -- at most one where the cap is 0.
  pub after-IsValid :
      (ops : List (Op Node)) (p : PendingReads Node) → IsValid p → IsValid (after ops p)
  unfolding after
  after-IsValid [] p v = v
  after-IsValid (op ∷ earlier) p v = step-IsValid op (after earlier p) (after-IsValid earlier p v)

-- ===== src/OpcUa/State/Pairing.antt =====
-- A response is paired with the nodes of its own request.
use marlinspike_dpi.Prelude.{
  ℕ, ◌≡◌, refl, sym, ap, ◌∙◌, Bool, false, Option, none, some, List, [], ◌∷◌, arith, if◌then◌else◌,
  Option-cases, Bool-cases, inl, inr, ◌⊎◌, ◌==◌, filter_option, ◌&&◌, not, leb, length,
}
use marlinspike_dpi.HashMap.{lookup, contains_key, Distinct}
use marlinspike_dpi.HashMap.Laws.{lookup-insert, lookup-remove, lookup-retain, lookup-insert_self}
use marlinspike_dpi.HashMap.Oldest.{lookup-remove_oldest, lookup-remove_oldest-none}
use marlinspike_dpi.OpcUa.State.{
  PendingKey, PendingEntry, PendingReads, make_room, insert_read, take_read, evict_expired, is_live,
  pending_eq, pending_equal_iff, nodes_of, with_config, PendingConfig,
}
use marlinspike_dpi.OpcUa.State.Pending.{
  Op, requested, answered, swept, step, after, IsValid, after-IsValid, make_room-entries,
}

module _ {Node : Type 0} where
  -- The nodes of the latest request under the key that was not answered since.
  unfoldable pub open_request : PendingKey → List (Op Node) → Option (List Node)
  open_request key [] = none
  open_request key (requested k nodes now_us ∷ earlier) =
      let before = open_request key earlier in if k == key then some nodes else before
  open_request key (answered k ∷ earlier) =
      let before = open_request key earlier in if k == key then none else before
  open_request key (swept now_us ∷ earlier) = open_request key earlier

  -- What the table holds is the pending request, or nothing.
  abbrev Agrees : PendingKey → Option (List Node) → PendingReads Node → Type 0
  Agrees key pending p =
      (nodes_of (lookup key p.entries) ≡ none) ⊎ (nodes_of (lookup key p.entries) ≡ pending)

  make_room-lookup :
      (k key : PendingKey) (p : PendingReads Node)
      → Distinct p.entries
      → (lookup key (make_room k p).entries ≡ none)
        ⊎ (lookup key (make_room k p).entries ≡ lookup key p.entries)
  make_room-lookup k key p d =
      elim (Bool-cases
        (leb p.config.max_pending (length p.entries) && not (contains_key k p.entries))) [
          | inr q ↦ inr (rw (make_room-entries k p, q) refl)
          | inl q ↦ elim (Option-cases (lookup key p.entries)) [
            | inl n ↦ inl (
                rw (make_room-entries k p, q)
                  (lookup-remove_oldest-none (λ (e : PendingEntry Node). e.inserted_us) key
                    p.entries n))
            | inr (e, n) ↦
                elim (lookup-remove_oldest (λ (x : PendingEntry Node). x.inserted_us) key p.entries
                  e d n) [
                    | inl kept ↦ inr (rw (make_room-entries k p, q) (kept ∙ sym n))
                    | inr gone ↦ inl (rw (make_room-entries k p, q) gone.0)
                  ]
          ]
        ]

  -- A table that lost entries, or none, still agrees.
  shrink-Agrees :
      (key : PendingKey) (pending : Option (List Node)) (p q : PendingReads Node)
      → (lookup key q.entries ≡ none) ⊎ (lookup key q.entries ≡ lookup key p.entries)
      → Agrees key pending p
      → Agrees key pending q
  shrink-Agrees key pending p q (inl gone) h = inl (ap nodes_of gone)
  shrink-Agrees key pending p q (inr same) (inl n) = inl (ap nodes_of same ∙ n)
  shrink-Agrees key pending p q (inr same) (inr n) = inr (ap nodes_of same ∙ n)

  lookup-insert_read_ne :
      (k key : PendingKey) (nodes : List Node) (now_us : ℕ) (p : PendingReads Node)
      → (k == key) ≡ false
      → Distinct p.entries
      → (lookup key (insert_read k nodes now_us p).entries ≡ none)
        ⊎ (lookup key (insert_read k nodes now_us p).entries ≡ lookup key p.entries)
  unfolding insert_read
  lookup-insert_read_ne k key nodes now_us p q d =
      let e : PendingEntry Node = record { nodes = nodes; inserted_us = now_us } in
      let other =
        lookup-insert k key e (make_room k p).entries
        ∙ ap (λ (b : Bool). if b then some e else lookup key (make_room k p).entries) q in
      elim (make_room-lookup k key p d) [
        | inl gone ↦ inl (other ∙ gone)
        | inr same ↦ inr (other ∙ same)
      ]

  lookup-take_read_ne :
      (k key : PendingKey) (p : PendingReads Node)
      → (k == key) ≡ false
      → Distinct p.entries
      → (lookup key (take_read k p).1.entries ≡ none)
        ⊎ (lookup key (take_read k p).1.entries ≡ lookup key p.entries)
  unfolding take_read
  lookup-take_read_ne k key p q d = inr (
      lookup-remove k key p.entries d
      ∙ ap (λ (b : Bool). if b then none else lookup key p.entries) q)

  filter_option-cases :
      (t : PendingEntry Node → Bool) (o : Option (PendingEntry Node))
      → (filter_option t o ≡ none) ⊎ (filter_option t o ≡ o)
  filter_option-cases t none = inl refl
  filter_option-cases t (some e) = elim (Bool-cases (t e)) [
    | inl q ↦ inr (rw q refl)
    | inr q ↦ inl (rw q refl)
  ]

  lookup-evict_expired :
      (now_us : ℕ) (key : PendingKey) (p : PendingReads Node)
      → Distinct p.entries
      → (lookup key (evict_expired now_us p).1.entries ≡ none)
        ⊎ (lookup key (evict_expired now_us p).1.entries ≡ lookup key p.entries)
  unfolding evict_expired
  lookup-evict_expired now_us key p d =
      rw (lookup-retain (is_live now_us p.config) key p.entries d)
        (filter_option-cases (is_live now_us p.config) (lookup key p.entries))

  take_read_again :
      (key : PendingKey) (p : PendingReads Node)
      → Distinct p.entries
      → lookup key (take_read key p).1.entries ≡ none
  unfolding take_read
  take_read_again key p d =
      lookup-remove key key p.entries d
      ∙ ap (λ (b : Bool). if b then none else lookup key p.entries)
          ((pending_equal_iff key key).1 refl)

  lookup-insert_read :
      (key : PendingKey) (nodes : List Node) (now_us : ℕ) (p : PendingReads Node)
      → lookup key (insert_read key nodes now_us p).entries
        ≡ some (record { nodes = nodes; inserted_us = now_us })
  unfolding insert_read
  lookup-insert_read key nodes now_us p =
      lookup-insert_self key (record { nodes = nodes; inserted_us = now_us })
        (make_room key p).entries

  step-Agrees :
      (key : PendingKey) (op : Op Node) (earlier : List (Op Node)) (p : PendingReads Node)
      → Distinct p.entries
      → Agrees key (open_request key earlier) p
      → Agrees key (open_request key (op ∷ earlier)) (step op p)
  unfolding step open_request
  step-Agrees key (requested k nodes now_us) earlier p d h = elim (Bool-cases (k == key)) [
    | inl q ↦ inr (
        rw q (
          ap (λ x. nodes_of (lookup x (insert_read k nodes now_us p).entries))
            (sym ((pending_equal_iff k key).0 q))
          ∙ ap nodes_of (lookup-insert_read k nodes now_us p)))
    | inr q ↦ rw q (
        shrink-Agrees key (open_request key earlier) p (insert_read k nodes now_us p)
          (lookup-insert_read_ne k key nodes now_us p q d) h)
  ]
  step-Agrees key (answered k) earlier p d h = elim (Bool-cases (k == key)) [
    | inl q ↦ inl (
        ap (λ x. nodes_of (lookup x (take_read k p).1.entries))
          (sym ((pending_equal_iff k key).0 q))
        ∙ ap nodes_of (take_read_again k p d))
    | inr q ↦ rw q (
        shrink-Agrees key (open_request key earlier) p ((take_read k p).1)
          (lookup-take_read_ne k key p q d) h)
  ]
  step-Agrees key (swept now_us) earlier p d h =
      shrink-Agrees key (open_request key earlier) p ((evict_expired now_us p).1)
        (lookup-evict_expired now_us key p d) h

  fresh-IsValid :
      (ops : List (Op Node)) (config : PendingConfig) → IsValid (after ops (with_config config))
  fresh-IsValid ops config =
      after-IsValid ops (with_config config) (record { distinct = tt; capped = omega arith })

  after-Agrees :
      (key : PendingKey) (ops : List (Op Node)) (config : PendingConfig)
      → Agrees key (open_request key ops) (after ops (with_config config))
  unfolding after open_request lookup
  after-Agrees key [] config = inl refl
  after-Agrees key (op ∷ earlier) config =
      step-Agrees key op earlier _ (fresh-IsValid earlier config).distinct
        (after-Agrees key earlier config)

  -- Over every history from the empty table, a response takes nothing or exactly the nodes of the
  -- latest request with its channel and number that was not answered since, and the same response
  -- once more takes nothing; the request that was entered last is always there to take.
  pub take_read-open_request :
      (key : PendingKey) (ops : List (Op Node)) (config : PendingConfig) (nodes : List Node)
      (now_us : ℕ)
      → (((take_read key (after ops (with_config config))).0 ≡ none)
          ⊎ ((take_read key (after ops (with_config config))).0 ≡ open_request key ops))
        × ((take_read key (after (answered key ∷ ops) (with_config config))).0 ≡ none)
        × ((take_read key (after (requested key nodes now_us ∷ ops) (with_config config))).0
            ≡ some nodes)
  unfolding take_read after step
  take_read-open_request key ops config nodes now_us = (
    after-Agrees key ops config,
    ap nodes_of
        (take_read_again key (after ops (with_config config)) (fresh-IsValid ops config).distinct),
    ap nodes_of (lookup-insert_read key nodes now_us (after ops (with_config config))),
  )

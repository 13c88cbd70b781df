-- ===== src/Sparkplug/State/Store.antt =====
-- The store of sessions: its bound, which session is given up, and what a sweep removes.
use marlinspike_dpi.Prelude.{
  ℕ, suc, ◌≤◌, ◌≡◌, refl, ◌&&◌, not, none, some, arith, if◌then◌else◌, leb, Option-cases, inl, inr,
  max, length, unwrap_or,
}
use marlinspike_dpi.HashMap.{lookup, contains_key, remove_oldest, Distinct}
use marlinspike_dpi.HashMap.Laws.{lookup-insert_self, insert-Distinct, length-insert}
use marlinspike_dpi.HashMap.Oldest.{
  length-remove_oldest, remove_oldest-Distinct, lookup-remove_oldest-none,
}
use marlinspike_dpi.Sparkplug.State.{
  SessionKey, SessionState, SessionStore, default_session, evict_lru_one, make_room, entry_mut, get,
  touch, key_eq,
}

-- No key stands twice, and the cap is kept; a cap of 0 lets one session live.
pub record IsValid (store : SessionStore) : Type 0 where
  pub distinct : Distinct store.sessions
  pub capped : length store.sessions ≤ max 1 store.config.max_sessions

make_room-sessions :
    (key : SessionKey) (store : SessionStore)
    → (make_room key store).sessions ≡ (
        if not (contains_key key store.sessions)
          && leb store.config.max_sessions (length store.sessions)
        then remove_oldest (λ s. s.last_touched_us) store.sessions
        else store.sessions)
unfolding make_room evict_lru_one
make_room-sessions key store = ground arith

make_room-config :
    (key : SessionKey) (store : SessionStore) → (make_room key store).config ≡ store.config
unfolding make_room evict_lru_one
make_room-config key store = ground arith

make_room-absent :
    (key : SessionKey) (store : SessionStore)
    → get key store ≡ none
    → get key (make_room key store) ≡ none
unfolding get
make_room-absent key store h = ground (
  arith,
  make_room-sessions key store,
  lookup-remove_oldest-none (λ s. s.last_touched_us) key store.sessions h,
)

make_room-present :
    (key : SessionKey) (store : SessionStore) (s : SessionState)
    → get key store ≡ some s
    → make_room key store ≡ store
unfolding make_room get
make_room-present key store s h = ground arith

-- The room is there for a new session.
make_room-length :
    (key : SessionKey) (store : SessionStore)
    → IsValid store
    → (if contains_key key (make_room key store).sessions
        then length (make_room key store).sessions
        else suc (length (make_room key store).sessions))
      ≤ max 1 store.config.max_sessions
unfolding get
make_room-length key store v = elim (Option-cases (lookup key store.sessions)) [
  | inl q ↦ ground (
    arith,
    make_room-sessions key store,
    make_room-absent key store q,
    v.capped,
    length-remove_oldest (λ s. s.last_touched_us) store.sessions v.distinct,
  )
  | inr (s, q) ↦ ground (arith, make_room-present key store s q, v.capped)
]

make_room-Distinct :
    (key : SessionKey) (store : SessionStore)
    → Distinct store.sessions
    → Distinct (make_room key store).sessions
make_room-Distinct key store d = ground (
  arith,
  make_room-sessions key store,
  d,
  remove_oldest-Distinct (λ s. s.last_touched_us) store.sessions d,
)

pub entry_mut-IsValid :
    (key : SessionKey) (now_us : ℕ) (store : SessionStore)
    → IsValid store
    → IsValid ((entry_mut key now_us store).1)
entry_mut-IsValid key now_us store v = record {
  distinct = unfold entry_mut in insert-Distinct key _ _ (make_room-Distinct key store v.distinct);
  capped =
      unfold entry_mut in
      ground (
        arith,
        length-insert key (entry_mut key now_us store).0 (make_room key store).sessions,
        make_room-length key store v,
        make_room-config key store,
      );
}

pub entry_mut-touch :
    (key : SessionKey) (now_us : ℕ) (store : SessionStore)
    → (entry_mut key now_us store).0 ≡ touch now_us (unwrap_or (get key store) default_session)
unfolding get entry_mut
entry_mut-touch key now_us store = elim (Option-cases (get key store)) [
  | inl q ↦ rw (make_room-absent key store q, q) refl
  | inr (s, q) ↦ rw (make_room-present key store s q) refl
]

pub get-entry_mut :
    (key : SessionKey) (now_us : ℕ) (store : SessionStore)
    → get key ((entry_mut key now_us store).1)
      ≡ some (touch now_us (unwrap_or (get key store) default_session))
unfolding get entry_mut
get-entry_mut key now_us store = elim (Option-cases (get key store)) [
  | inl q ↦
      rw
        (
          lookup-insert_self key
              (touch now_us (unwrap_or (get key (make_room key store)) default_session))
              (make_room key store).sessions,
          make_room-absent key store q,
          q,
        )
        refl
  | inr (s, q) ↦ rw (make_room-present key store s q) (
      lookup-insert_self key (touch now_us (unwrap_or (get key store) default_session))
        store.sessions)
]

-- The session is the victim of an eviction that the new key causes.
pub record IsVictim (key : SessionKey) (s : SessionState) (store : SessionStore) : Type 0 where
  pub absent : get key store ≡ none
  pub full : store.config.max_sessions ≤ length store.sessions
  pub oldest :
      (j : SessionKey) (t : SessionState)
      → get j store ≡ some t
      → s.last_touched_us ≤ t.last_touched_us

-- ===== src/Sparkplug/State/Operations.antt =====
-- The calls that change the store of sessions, one by one and in sequence.
use marlinspike_dpi.Prelude.{
  ℕ, ◌+◌, ◌≡◌, some, List, [], ◌∷◌, arith, leb, Bool-cases, inl, inr, length, filter_option,
}
use marlinspike_dpi.HashMap.{Distinct}
use marlinspike_dpi.HashMap.Laws.{
  insert-Distinct, retain-Distinct, length-insert, lookup-retain, length-retain-le,
}
use marlinspike_dpi.Sparkplug.State.{
  SessionKey, SessionState, SessionStore, entry_mut, write, get, should_sweep, evict_expired,
  is_live, key_eq, saturating_add, ttl_sweep_every_n_publishes,
}
use marlinspike_dpi.Sparkplug.State.Store.{IsValid, entry_mut-IsValid, get-entry_mut}

-- The calls that change the store, with what the caller writes through `entry_mut`.
pub data Op : Type 0 where
  entered : SessionKey → ℕ → (SessionState → SessionState) → Op
  published : Op
  swept : ℕ → Op

unfoldable pub perform : Op → SessionStore → SessionStore
perform (entered key now_us f) store =
    let entry = entry_mut key now_us store in write key (f entry.0) entry.1
perform published store = (should_sweep store).1
perform (swept now_us) store = (evict_expired now_us store).1

unfoldable pub perform_all : List Op → SessionStore → SessionStore
perform_all [] store = store
perform_all (op ∷ ops) store = perform_all ops (perform op store)

write-IsValid :
    (key : SessionKey) (s t : SessionState) (store : SessionStore)
    → IsValid store
    → get key store ≡ some t
    → IsValid (write key s store)
unfolding write get
write-IsValid key s t store v h = record {
  distinct = insert-Distinct key s store.sessions v.distinct;
  capped = ground (arith, length-insert key s store.sessions, v.capped);
}

-- A use of `entry_mut` and what is written through it.
pub update-IsValid :
    (key : SessionKey) (now_us : ℕ) (s : SessionState) (store : SessionStore)
    → IsValid store
    → IsValid (write key s ((entry_mut key now_us store).1))
update-IsValid key now_us s store v =
    write-IsValid key s _ ((entry_mut key now_us store).1) (entry_mut-IsValid key now_us store v)
      (get-entry_mut key now_us store)

pub evict_expired-IsValid :
    (now_us : ℕ) (store : SessionStore) → IsValid store → IsValid ((evict_expired now_us store).1)
unfolding evict_expired
evict_expired-IsValid now_us store v = record {
  distinct = retain-Distinct (is_live now_us store.config) store.sessions v.distinct;
  capped = omega (arith, length-retain-le (is_live now_us store.config) store.sessions, v.capped);
}

pub should_sweep-IsValid : (store : SessionStore) → IsValid store → IsValid ((should_sweep store).1)
unfolding should_sweep
should_sweep-IsValid store v =
    elim (Bool-cases
      (leb ttl_sweep_every_n_publishes (saturating_add store.publishes_since_sweep 1))) [
        | inl q ↦ rw q (record { distinct = v.distinct; capped = v.capped })
        | inr q ↦ rw q (record { distinct = v.distinct; capped = v.capped })
      ]

perform-IsValid : (op : Op) (store : SessionStore) → IsValid store → IsValid (perform op store)
unfolding perform
perform-IsValid (entered key now_us f) store v = update-IsValid key now_us _ store v
perform-IsValid published store v = should_sweep-IsValid store v
perform-IsValid (swept now_us) store v = evict_expired-IsValid now_us store v

-- Over every sequence of calls from a store that keeps them, the keys stay distinct and the
-- number of sessions stays at the cap, or at one where the cap is 0.
perform_all-IsValid :
    (ops : List Op) (store : SessionStore) → IsValid store → IsValid (perform_all ops store)
unfolding perform_all
perform_all-IsValid [] store v = v
perform_all-IsValid (op ∷ ops) store v =
    perform_all-IsValid ops (perform op store) (perform-IsValid op store v)

-- A sweep removes exactly the sessions whose age has reached the time limit, and returns their
-- number.
evict_expired_lem :
    (now_us : ℕ) (key : SessionKey) (store : SessionStore)
    → Distinct store.sessions
    → (get key ((evict_expired now_us store).1)
        ≡ filter_option (is_live now_us store.config) (get key store))
      × ((evict_expired now_us store).0 + length ((evict_expired now_us store).1.sessions)
          ≡ length store.sessions)
unfolding evict_expired get
evict_expired_lem now_us key store d = (
  lookup-retain (is_live now_us store.config) key store.sessions d,
  omega (arith, length-retain-le (is_live now_us store.config) store.sessions),
)

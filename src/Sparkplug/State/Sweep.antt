-- ===== src/Sparkplug/State/Sweep.antt =====
-- How often `should_sweep` asks for a sweep.
use marlinspike_dpi.Prelude.{
  ℕ, zero, suc, ◌+◌, ◌/◌, ◌%◌, ◌<◌, ◌≡◌, arith, if◌then◌else◌, Bool-cases, inl, inr, leb,
}
use marlinspike_dpi.Sparkplug.State.{SessionStore, should_sweep, saturating_add}

-- The number of sweeps that `n` publishes ask for, and the store after them.
unfoldable pub publish : ℕ → SessionStore → ℕ × SessionStore
publish zero store = (0, store)
publish (suc n) store =
    let first = should_sweep store in
    let rest = publish n first.1 in ((if first.0 then suc rest.0 else rest.0), rest.1)

-- Over any number of publishes a sweep is asked for exactly at every 1024th, counted from where
-- the counter stands below 1024, and the counter never reaches 1024.
pub publish_lem :
    (n : ℕ) (store : SessionStore)
    → store.publishes_since_sweep < 1024
    → ((publish n store).0 ≡ (store.publishes_since_sweep + n) / 1024)
      × ((publish n store).1.publishes_since_sweep ≡ (store.publishes_since_sweep + n) % 1024)
unfolding publish should_sweep
publish_lem zero store h = (omega arith, omega arith)
publish_lem (suc n) store h =
    elim (Bool-cases (leb 1024 (saturating_add store.publishes_since_sweep 1))) [
      | inl q ↦ rw q (ground (arith, publish_lem n (record store { publishes_since_sweep = 0 })))
      | inr q ↦ rw q (
          ground (
            arith,
            publish_lem n (record store {
              publishes_since_sweep = saturating_add store.publishes_since_sweep 1;
            }),
          ))
    ]

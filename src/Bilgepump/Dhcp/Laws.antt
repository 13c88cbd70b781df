-- ===== src/Bilgepump/Dhcp/Laws.antt =====
-- The servers that the detector counts.
use marlinspike_dpi.Prelude.{
  ℕ, suc, ◌+◌, ◌≡◌, refl, Bool, true, Option, none, some, List, [], ◌∷◌, ◌&&◌, if◌then◌else◌, arith,
  ◌==◌, list_eq, nat_eq, option_eq, list_equal_iff,
}
use marlinspike_dpi.Prelude.Text.{Text, Mac}
use marlinspike_dpi.Prelude.Clock.{Clock}
use marlinspike_dpi.HashMap.{Map, lookup}
use marlinspike_dpi.HashMap.Laws.{lookup-insert}
use marlinspike_dpi.Bilgepump.State.{DhcpServerRecord}
use marlinspike_dpi.Bilgepump.Config.{BilgepumpConfig}
use marlinspike_dpi.Bilgepump.Dhcp.{
  DhcpDetector, DhcpFields, observe, server_step, tracked_server, is_server_message,
}

-- A message with the time and the source address of its frame.
pub record Message (Time : Type 0) : Type 0 where
  pub fields : DhcpFields
  pub src_mac : Mac
  pub now : Time

-- The messages that count for a server: Offers and Acks that carry its identifier.
abbrev pub counts_for : {Time : Type 0} → Text → Message Time → Bool
counts_for server m = is_server_message m.fields && m.fields.server_id == some server

abbrev pub offers : {Time : Type 0} → Text → DhcpDetector Time → ℕ
offers server det = elim (lookup server det.servers) [ none ↦ 0 | some r ↦ r.offer_count ]

abbrev count_of : {Time : Type 0} → Text → Map Text (DhcpServerRecord Time) → ℕ
count_of server servers = elim (lookup server servers) [ none ↦ 0 | some r ↦ r.offer_count ]

server_step-count :
    {Time : Type 0} (server : Text) (fields : DhcpFields) (src_mac : Mac) (config : BilgepumpConfig)
    (now : Time) (servers : Map Text (DhcpServerRecord Time)) (o : Option Text)
    → count_of server (server_step fields src_mac config now servers o).0
      ≡ (if o == some server then suc (count_of server servers) else count_of server servers)
unfolding server_step tracked_server
server_step-count server fields src_mac config now servers none = refl
server_step-count server fields src_mac config now servers (some s) = ground (
  arith,
  lookup-insert s server (tracked_server s src_mac now (lookup s servers)) servers,
  list_equal_iff s server,
)

unfoldable pub matching : {Time : Type 0} → Text → List (Message Time) → ℕ
matching server [] = 0
matching server (m ∷ ms) =
    if counts_for server m then suc (matching server ms) else matching server ms

module _ {Time : Type 0} ⦃clock : Clock Time⦄ (config : BilgepumpConfig) where
  unfoldable pub observe_all : List (Message Time) → DhcpDetector Time → DhcpDetector Time
  observe_all [] det = det
  observe_all (m ∷ ms) det = observe_all ms (observe m.fields m.src_mac config m.now det).0

  observe-offers :
      (server : Text) (m : Message Time) (det : DhcpDetector Time)
      → config.check_dhcp_abuse ≡ true
      → offers server (observe m.fields m.src_mac config m.now det).0
        ≡ (if counts_for server m then suc (offers server det) else offers server det)
  unfolding observe
  observe-offers server m det on = ground (
    arith,
    server_step-count server m.fields m.src_mac config m.now det.servers m.fields.server_id,
  )

  -- With the check on, over every sequence of messages the count of a server grows by exactly the
  -- number of Offers and Acks that carry its identifier.
  observe_all-offers :
      (server : Text) (ms : List (Message Time)) (det : DhcpDetector Time)
      → config.check_dhcp_abuse ≡ true
      → offers server (observe_all ms det) ≡ offers server det + matching server ms
  unfolding observe_all matching
  observe_all-offers server [] det on = omega arith
  observe_all-offers server (m ∷ ms) det on = ground (
    arith,
    observe_all-offers server ms (observe m.fields m.src_mac config m.now det).0 on,
    observe-offers server m det on,
  )

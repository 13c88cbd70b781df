-- ===== src/Engine/Capture/PcapLoop.antt =====
-- The loop over the packets of a classic pcap file: what the callback gets, and how the file ends.
use marlinspike_dpi.Prelude.{
  ℕ, zero, suc, ◌<◌, ◌≡◌, refl, Option, none, some, List, [], ◌∷◌, arith, length, Option-cases, inl,
  inr, All,
}
use marlinspike_dpi.Engine.Link.{LinkType}
use marlinspike_dpi.Engine.Capture.{CaptureError, Reading, eof, failed, PcapFlavor}
use marlinspike_dpi.Engine.Capture.Readers.{PacketRecord, Outcome, read_pcap_packet, pcap_loop}
use marlinspike_dpi.Engine.Capture.Pcap.{
  Sent, IsSent, packets_bytes, record_of, read_pcap_packet-sent,
}

module _ {Time : Type 0} (timestamp_opt : ℕ → ℕ → Option Time) (now : Time) where
  module _ {S : Type 0} (on_packet : PacketRecord Time → S → Outcome S) where
    -- The callback on every packet in turn, until it fails; then the file ends as it does.
    unfoldable pub handed : Option CaptureError → LinkType → List (Sent Time) → S → Outcome S
    handed ending linktype [] s = record { state = s; failure = ending }
    handed ending linktype (p ∷ packets) s = elim (on_packet (record_of linktype p) s).failure [
      | none ↦ handed ending linktype packets (on_packet (record_of linktype p) s).state
      | some e ↦ on_packet (record_of linktype p) s
    ]

    abbrev pub ended : Option CaptureError → Reading (PacketRecord Time)
    ended none = eof
    ended (some e) = failed e

    pcap_loop-end :
        (ending : Option CaptureError) (fuel : ℕ) (flavor : PcapFlavor) (linktype : LinkType)
        (tail : List ℕ) (s : S)
        → read_pcap_packet timestamp_opt now flavor linktype tail ≡ ended ending
        → pcap_loop timestamp_opt now on_packet (suc fuel) flavor linktype tail s
          ≡ record { state = s; failure = ending }
    unfolding pcap_loop
    pcap_loop-end none fuel flavor linktype tail s h = rw (h, pcap_loop) refl
    pcap_loop-end (some e) fuel flavor linktype tail s h = rw (h, pcap_loop) refl

    pub pcap_loop-sent :
        (packets : List (Sent Time)) (fuel : ℕ) (flavor : PcapFlavor) (linktype : LinkType)
        (tail : List ℕ) (ending : Option CaptureError) (s : S)
        → All (IsSent timestamp_opt now flavor) packets
        → read_pcap_packet timestamp_opt now flavor linktype tail ≡ ended ending
        → length packets < fuel
        → pcap_loop timestamp_opt now on_packet fuel flavor linktype
            (packets_bytes flavor packets tail)
            s
          ≡ handed ending linktype packets s
    unfolding pcap_loop packets_bytes handed
    pcap_loop-sent packets zero flavor linktype tail ending s h t k = absurd (omega (arith, k))
    pcap_loop-sent [] (suc fuel) flavor linktype tail ending s h t k =
        pcap_loop-end ending fuel flavor linktype tail s t
    pcap_loop-sent (p ∷ packets) (suc fuel) flavor linktype tail ending s (h, hs) t k =
        let first =
          read_pcap_packet-sent timestamp_opt now flavor linktype p
            (packets_bytes flavor packets tail) h in
        elim (Option-cases (on_packet (record_of linktype p) s).failure) [
          | inl q ↦
              rw (first, pcap_loop, handed, q)
                (pcap_loop-sent packets fuel flavor linktype tail ending
                  (on_packet (record_of linktype p) s).state hs t (omega (arith, k)))
          | inr (e, q) ↦ rw (first, pcap_loop, handed, q) refl
        ]

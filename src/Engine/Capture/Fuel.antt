-- ===== src/Engine/Capture/Fuel.antt =====
-- The loops of `read_capture_packets` end: each round takes bytes off the file.
use mathlib.Core.Path.{subst}
use marlinspike_dpi.Prelude.{
  ℕ, zero, suc, ◌+◌, ◌-◌, ◌*◌, ◌/◌, ◌%◌, ◌^◌, ◌<◌, ◌≤◌, ◌≡◌, refl, true, Option, none, some, List,
  [], ◌∷◌, ◌++◌, arith, length, length-drop, ltb, leb, Bool-cases, Option-cases, inl, inr, ◌⊎◌,
}
use marlinspike_dpi.Engine.Link.{LinkType}
use marlinspike_dpi.Engine.Capture.{
  CaptureError, Reading, got, eof, failed, and_then, PcapFlavor, read_exact_or_eof, read_exact,
  read_u32, is_little_endian, timestamp_unit_nanos,
}
use marlinspike_dpi.Engine.Capture.Readers.{
  PacketRecord, Outcome, packet_of, read_pcap_packet, read_pcapng_block, pcapng_interface_linktype,
  pcapng_packet_record, pcap_loop, pcapng_loop,
}

module _ {A : Type 0} where
  -- What is left behind a reading is at least `n` bytes shorter.
  abbrev Takes : ℕ → List ℕ → Reading A → Type 0
  Takes n bytes (got a rest) = length rest + n ≤ length bytes
  Takes n bytes eof = Unit
  Takes n bytes (failed e) = Unit

module _ {A : Type 0} where
  Reading-cases :
      (r : Reading A)
      → (r ≡ eof)
        ⊎ (((e : CaptureError) × (r ≡ failed e)) ⊎ ((a : A) × (rest : List ℕ) × (r ≡ got a rest)))
  Reading-cases eof = inl refl
  Reading-cases (failed e) = inr (inl (e, refl))
  Reading-cases (got a rest) = inr (inr (a, rest, refl))

  Takes-shorter :
      (n : ℕ) (bytes rest : List ℕ) (a : A) (r : Reading A)
      → r ≡ got a rest
      → Takes n bytes r
      → length rest + n ≤ length bytes
  Takes-shorter n bytes rest a r q t = subst (Takes n bytes) q t

module _ {A B : Type 0} where
  and_then-Takes :
      (n : ℕ) (bytes : List ℕ) (r : Reading A) (f : A → List ℕ → Reading B)
      → Takes n bytes r
      → ((a : A) (rest : List ℕ) → Takes 0 rest (f a rest))
      → Takes n bytes (and_then r f)
  and_then-Takes n bytes eof f h k = tt
  and_then-Takes n bytes (failed e) f h k = tt
  and_then-Takes n bytes (got a rest) f h k = weaken (f a rest) (k a rest)
    where
      weaken : (r : Reading B) → Takes 0 rest r → Takes n bytes r
      weaken eof t = tt
      weaken (failed e) t = tt
      weaken (got b left) t = omega (arith, t, h)

read_exact-Takes : (n : ℕ) (bytes : List ℕ) → Takes 0 bytes (read_exact n bytes)
unfolding read_exact
read_exact-Takes n bytes = elim (Bool-cases (ltb (length bytes) n)) [
  | inl q ↦ rw q tt
  | inr q ↦ rw q (omega (arith, length-drop n bytes))
]

read_exact_or_eof-Takes :
    (n : ℕ) (b : ℕ) (bytes : List ℕ) → Takes n (b ∷ bytes) (read_exact_or_eof n (b ∷ bytes))
unfolding read_exact_or_eof
read_exact_or_eof-Takes n b bytes = elim (Bool-cases (ltb (length (b ∷ bytes)) n)) [
  | inl q ↦ rw q tt
  | inr q ↦
      let enough : n ≤ length (b ∷ bytes) = ground (arith, q) in
      rw q (omega (arith, length-drop n (b ∷ bytes), enough))
]

read_pcapng_block-Takes : (bytes : List ℕ) → Takes 8 bytes (read_pcapng_block bytes)
unfolding read_pcapng_block read_exact_or_eof
read_pcapng_block-Takes [] = tt
read_pcapng_block-Takes (b ∷ bytes) =
    and_then-Takes 8 (b ∷ bytes) (read_exact_or_eof 8 (b ∷ bytes)) _
      (read_exact_or_eof-Takes 8 b bytes)
      (λ header rest. elim (Bool-cases (ltb (read_u32 true header 4) 12)) [
        | inl q ↦ rw q tt
        | inr q ↦ rw q (
            and_then-Takes 0 rest (read_exact (read_u32 true header 4 - 8) rest) _
              (read_exact-Takes (read_u32 true header 4 - 8) rest) (λ body left. omega arith))
      ])

module _ {Time : Type 0} (timestamp_opt : ℕ → ℕ → Option Time) (now : Time) where
  packet_of-Takes :
      (flavor : PcapFlavor) (linktype : LinkType) (header rest : List ℕ)
      → Takes 0 rest (packet_of timestamp_opt now flavor linktype header rest)
  unfolding packet_of
  packet_of-Takes flavor linktype header rest =
      let words = read_u32 (is_little_endian flavor) header in
      let total = words 4 * timestamp_unit_nanos flavor in
      elim (Bool-cases (leb (2 ^ 64) total)) [
        | inl q ↦ rw q tt
        | inr q ↦
            elim (Option-cases
              (timestamp_opt (words 0 + total / 1_000_000_000) (total % 1_000_000_000))) [
                | inl t ↦ rw (q, t) tt
                | inr (time, t) ↦
                    rw (q, t)
                      (and_then-Takes 0 rest (read_exact (words 8) rest) _
                        (read_exact-Takes (words 8) rest) (λ body left. omega arith))
              ]
      ]

  read_pcap_packet-Takes :
      (flavor : PcapFlavor) (linktype : LinkType) (bytes : List ℕ)
      → Takes 16 bytes (read_pcap_packet timestamp_opt now flavor linktype bytes)
  unfolding read_pcap_packet read_exact_or_eof
  read_pcap_packet-Takes flavor linktype [] = tt
  read_pcap_packet-Takes flavor linktype (b ∷ bytes) =
      and_then-Takes 16 (b ∷ bytes) (read_exact_or_eof 16 (b ∷ bytes)) _
        (read_exact_or_eof-Takes 16 b bytes) (packet_of-Takes flavor linktype)

  module _ {S : Type 0} (on_packet : PacketRecord Time → S → Outcome S) where
    pcapng_loop-enough :
        (fuel other : ℕ) (interfaces : List LinkType) (bytes : List ℕ) (s : S)
        → length bytes < fuel
        → length bytes < other
        → pcapng_loop timestamp_opt now on_packet fuel interfaces bytes s
          ≡ pcapng_loop timestamp_opt now on_packet other interfaces bytes s
    unfolding pcapng_loop
    pcapng_loop-enough zero other interfaces bytes s h k = absurd (omega (arith, h))
    pcapng_loop-enough (suc fuel) zero interfaces bytes s h k = absurd (omega (arith, k))
    pcapng_loop-enough (suc fuel) (suc other) interfaces bytes s h k =
        elim (Reading-cases (read_pcapng_block bytes)) [
          | inl q ↦ rw (q, pcapng_loop) refl
          | inr (inl (e, q)) ↦ rw (q, pcapng_loop) refl
          | inr (inr (block, rest, q)) ↦
              let shorter =
                Takes-shorter 8 bytes rest block (read_pcapng_block bytes) q
                  (read_pcapng_block-Takes bytes) in
              let same = λ (seen : List LinkType) (state : S).
                pcapng_loop-enough fuel other seen rest state (omega (arith, h, shorter))
                  (omega (arith, k, shorter)) in
              elim (Option-cases (pcapng_interface_linktype block)) [
                | inr (linktype, i) ↦
                    rw (q, i, pcapng_loop) (same (interfaces ++ (linktype ∷ [])) s)
                | inl i ↦
                    elim (Reading-cases (pcapng_packet_record timestamp_opt now block interfaces)) [
                      | inl r ↦ rw (q, i, r, pcapng_loop) refl
                      | inr (inl (e, r)) ↦ rw (q, i, r, pcapng_loop) refl
                      | inr (inr (none, left, r)) ↦ rw (q, i, r, pcapng_loop) (same interfaces s)
                      | inr (inr (some packet, left, r)) ↦
                          let after = on_packet packet s in
                          elim (Option-cases after.failure) [
                            | inl f ↦ rw (q, i, r, f, pcapng_loop) (same interfaces after.state)
                            | inr (e, f) ↦ rw (q, i, r, f, pcapng_loop) refl
                          ]
                    ]
              ]
        ]

    pcap_loop-enough :
        (fuel other : ℕ) (flavor : PcapFlavor) (linktype : LinkType) (bytes : List ℕ) (s : S)
        → length bytes < fuel
        → length bytes < other
        → pcap_loop timestamp_opt now on_packet fuel flavor linktype bytes s
          ≡ pcap_loop timestamp_opt now on_packet other flavor linktype bytes s
    unfolding pcap_loop
    pcap_loop-enough zero other flavor linktype bytes s h k = absurd (omega (arith, h))
    pcap_loop-enough (suc fuel) zero flavor linktype bytes s h k = absurd (omega (arith, k))
    pcap_loop-enough (suc fuel) (suc other) flavor linktype bytes s h k =
        elim (Reading-cases (read_pcap_packet timestamp_opt now flavor linktype bytes)) [
          | inl q ↦ rw (q, pcap_loop) refl
          | inr (inl (e, q)) ↦ rw (q, pcap_loop) refl
          | inr (inr (packet, rest, q)) ↦
              let shorter =
                Takes-shorter 16 bytes rest packet _ q
                  (read_pcap_packet-Takes flavor linktype bytes) in
              let after = on_packet packet s in
              elim (Option-cases after.failure) [
                | inl f ↦
                    rw (q, f, pcap_loop)
                      (pcap_loop-enough fuel other flavor linktype rest after.state
                        (omega (arith, h, shorter)) (omega (arith, k, shorter)))
                | inr (e, f) ↦ rw (q, f, pcap_loop) refl
              ]
        ]

    -- Both loops over a capture file end for every file: with more rounds than the file has bytes,
    -- and so with the rounds that `read_capture_packets` gives them, the number of rounds does not
    -- change the outcome, whatever the callback does.
    pub loops_enough :
        (fuel other : ℕ) (interfaces : List LinkType) (flavor : PcapFlavor) (linktype : LinkType)
        (bytes : List ℕ) (s : S)
        → length bytes < fuel
        → length bytes < other
        → (pcapng_loop timestamp_opt now on_packet fuel interfaces bytes s
            ≡ pcapng_loop timestamp_opt now on_packet other interfaces bytes s)
          × (pcap_loop timestamp_opt now on_packet fuel flavor linktype bytes s
              ≡ pcap_loop timestamp_opt now on_packet other flavor linktype bytes s)
    loops_enough fuel other interfaces flavor linktype bytes s h k = (
      pcapng_loop-enough fuel other interfaces bytes s h k,
      pcap_loop-enough fuel other flavor linktype bytes s h k,
    )

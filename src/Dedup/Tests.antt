-- ===== src/Dedup/Tests.antt =====
-- The source's tests, and the theorems at concrete inputs. The digest is the hashed bytes.
use marlinspike_dpi.Prelude.{ℕ, ◌≡◌, refl, true, false, List, [], ◌∷◌, arith, list_eq, nat_eq, ◌++◌}
use marlinspike_dpi.Prelude.Text.{codes}
use marlinspike_dpi.HashMap.{lookup, insert, retain}
use marlinspike_dpi.Dedup.{DedupEngine, Call, new, hash_input, is_duplicate}
use marlinspike_dpi.Dedup.Keys.{hash_input_ambiguous}
use marlinspike_dpi.Dedup.History.{Tracks, run, run_spec, run-run_spec}

program : Unit {0}
unfolding new is_duplicate hash_input run run_spec lookup insert retain
program = tt

abbrev second : ℕ
second = 1_000_000_000

abbrev sha256 : List ℕ → List ℕ
sha256 bytes = bytes

abbrev record_at : ℕ → ℕ → Call
record_at ts port = record {
  timestamp_ns = ts;
  src_ip = codes "10.0.0.1";
  dst_ip = codes "10.0.0.2";
  src_port = port;
  dst_port = 502;
  protocol = codes "modbus";
}

abbrev engine : DedupEngine (List ℕ)
engine = record { seen = []; window_ns = 5_000_000_000; bucket_ns = 1_000_000_000 }

new-engine : new {Digest = List ℕ} (5_000_000_000) second ≡ engine
unfolding program
new-engine = refl

abbrev calls : List Call
calls =
    record_at 1_000_000_000 12345
    ∷ record_at 1_000_000_500 12345
    ∷ record_at 1_000_000_500 12346
    ∷ record_at 9_000_000_000 12345
    ∷ []

calls-run : run sha256 calls engine ≡ false ∷ true ∷ false ∷ false ∷ []
unfolding program
calls-run = refl

empty-Tracks : Tracks 0 engine []
unfolding program
empty-Tracks = record { distinct = tt; agrees = λ hash from h. refl }

run-run_spec_example : run sha256 calls engine ≡ run_spec sha256 5_000_000_000 second calls []
run-run_spec_example = run-run_spec sha256 calls 0 engine [] (omega arith) empty-Tracks

hash_input_ambiguous_example :
    hash_input second
      (record (record_at 0 1) { src_ip = codes "1.1.1.1" ++ codes "2"; dst_ip = codes "2.3.4.5" })
    ≡ hash_input second
        (record (record_at 0 1) { src_ip = codes "1.1.1.1"; dst_ip = codes "2" ++ codes "2.3.4.5" })
hash_input_ambiguous_example =
    hash_input_ambiguous second (record_at 0 1) (codes "1.1.1.1") (codes "2") (codes "2.3.4.5")

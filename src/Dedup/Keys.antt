-- ===== src/Dedup/Keys.antt =====
-- Which records share a key.
use marlinspike_dpi.Prelude.{ℕ, ◌≡◌, refl, ◌++◌}
use mathlib.Core.List.{append_assoc}
use marlinspike_dpi.Prelude.Text.{Text}
use marlinspike_dpi.Dedup.{Call, hash_input}

-- The boundary between the two addresses is not hashed: a piece of text moved from the end of the
-- source address to the front of the destination address leaves the hashed bytes as they were.
pub hash_input_ambiguous :
    (bucket_ns : ℕ) (c : Call) (src piece dst : Text)
    → hash_input bucket_ns (record c { src_ip = src ++ piece; dst_ip = dst })
      ≡ hash_input bucket_ns (record c { src_ip = src; dst_ip = piece ++ dst })
unfolding hash_input
hash_input_ambiguous bucket_ns c src piece dst = rw (append_assoc, append_assoc) refl

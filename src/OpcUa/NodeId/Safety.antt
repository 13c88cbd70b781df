-- ===== src/OpcUa/NodeId/Safety.antt =====
-- No reading of an identifier moves the cursor out of the message or changes the message.
use marlinspike_dpi.Prelude.{ℕ, ◌≤◌, ◌%◌, ◌/◌, Bool, true, false, length, eqb}
use marlinspike_dpi.Prelude.Int.{ℤ, pos, negsuc}
use marlinspike_dpi.OpcUa.Reader.{
  Reader, Read, ◌>>=◌, read_u8, read_u16, read_u32, read_i32, read_bytes, read_byte_string,
}
use marlinspike_dpi.OpcUa.NodeId.{
  DecodedNodeId, read_text, decode_node_id, read_node_id, read_expanded_node_id, skip_uri,
  skip_server,
}
use marlinspike_dpi.OpcUa.Reader.Counts.{Counts, bind-Counts_first, read_u8-Counts}
use marlinspike_dpi.OpcUa.Reader.Follows.{
  Follows, IsSafe, stays, bind-IsSafe, if-IsSafe, read_bytes-IsSafe, read_u8-IsSafe,
  read_u16-IsSafe, read_u32-IsSafe, read_i32-IsSafe, read_byte_string-IsSafe,
}

read_text-IsSafe : (ns : ℕ) (z : ℤ) → IsSafe (read_text ns z)
read_text-IsSafe ns (pos n) = bind-IsSafe (read_bytes n) _ (read_bytes-IsSafe n) (λ b. stays)
read_text-IsSafe ns (negsuc n) = stays

-- After the namespace, a part that is safe whatever the namespace is.
namespace-IsSafe :
    (f : ℕ → Read DecodedNodeId) → ((ns : ℕ) → IsSafe (f ns)) → IsSafe (read_u16 >>= f)
namespace-IsSafe f h = bind-IsSafe read_u16 f read_u16-IsSafe h

decode_node_id-IsSafe : (enc : ℕ) → IsSafe (decode_node_id enc)
unfolding decode_node_id
decode_node_id-IsSafe enc =
    if-IsSafe (eqb enc 0) _ _ (bind-IsSafe read_u8 _ read_u8-IsSafe (λ id. stays)) (
      if-IsSafe (eqb enc 1) _ _
        (bind-IsSafe read_u8 _ read_u8-IsSafe
          (λ ns. bind-IsSafe read_u16 _ read_u16-IsSafe (λ id. stays)))
        (if-IsSafe (eqb enc 2) _ _
          (namespace-IsSafe _ (λ ns. bind-IsSafe read_u32 _ read_u32-IsSafe (λ id. stays)))
          (if-IsSafe (eqb enc 3) _ _
            (namespace-IsSafe _
              (λ ns. bind-IsSafe read_i32 _ read_i32-IsSafe (read_text-IsSafe ns)))
            (if-IsSafe (eqb enc 4) _ _
              (namespace-IsSafe _
                (λ ns. bind-IsSafe (read_bytes 16) _ (read_bytes-IsSafe 16) (λ b. stays)))
              (if-IsSafe (eqb enc 5) _ _
                (namespace-IsSafe _
                  (λ ns. bind-IsSafe read_byte_string _ read_byte_string-IsSafe (λ b. stays)))
                stays)))))

skip_uri-IsSafe : (b : Bool) → IsSafe (skip_uri b)
skip_uri-IsSafe false = stays
skip_uri-IsSafe true = bind-IsSafe read_byte_string _ read_byte_string-IsSafe (λ u. stays)

skip_server-IsSafe : (b : Bool) → IsSafe (skip_server b)
skip_server-IsSafe false = stays
skip_server-IsSafe true = bind-IsSafe read_u32 _ read_u32-IsSafe (λ i. stays)

-- On every message, well formed or not, and from every cursor inside it, the reading of an
-- expanded node identifier leaves the message as it is and the cursor inside it and not before
-- where it stood, whether it succeeds or fails.
read_expanded_node_id-Follows :
    (r : Reader) → r.position ≤ length r.bytes → Follows r (read_expanded_node_id r).1
unfolding read_expanded_node_id
read_expanded_node_id-Follows = bind-IsSafe read_u8 _ read_u8-IsSafe (λ enc.
    bind-IsSafe (decode_node_id (enc % 64)) _ (decode_node_id-IsSafe (enc % 64)) (λ inner.
      bind-IsSafe (skip_uri (eqb (enc / 128 % 2) 1)) _ (skip_uri-IsSafe (eqb (enc / 128 % 2) 1))
        (λ u.
          bind-IsSafe (skip_server (eqb (enc / 64 % 2) 1)) _
            (skip_server-IsSafe (eqb (enc / 64 % 2) 1)) (λ s. stays))))

pub read_node_id-IsSafe : IsSafe read_node_id
unfolding read_node_id
read_node_id-IsSafe = bind-IsSafe read_u8 _ read_u8-IsSafe (λ enc. decode_node_id-IsSafe (enc % 64))

-- Its encoding takes a byte.
pub read_node_id-Counts : Counts (λ n. 1) read_node_id
unfolding read_node_id
read_node_id-Counts =
    bind-Counts_first 1 read_u8 _ read_u8-IsSafe read_u8-Counts
      (λ enc. decode_node_id-IsSafe (enc % 64))

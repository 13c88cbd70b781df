-- ===== src/Dedup.antt =====
-- src/dedup.rs: the sliding-window filter in front of every emitted event.
-- SHA-256 (crate sha2) is the parameter `sha256`, from the hashed bytes to a digest.
pub mod Keys
pub mod Window
pub mod History
mod Tests
use marlinspike_dpi.Prelude.{
  ℕ, ◌+◌, ◌-◌, ◌*◌, ◌/◌, ◌%◌, ◌^◌, Bool, true, false, Option, none, some, List, ◌++◌, if◌then◌else◌,
  ltb, leb, PartialEq,
}
use marlinspike_dpi.Prelude.Text.{Text}
use marlinspike_dpi.Prelude.Bytes.{be_bytes}
use marlinspike_dpi.HashMap.{Map, lookup, insert, retain}

pub record DedupEngine {ℓ} (Digest : Type ℓ) : Type ℓ where
  pub seen : Map Digest ℕ
  pub window_ns : ℕ
  pub bucket_ns : ℕ

-- The arguments of `is_duplicate`.
pub record Call : Type 0 where
  pub timestamp_ns : ℕ
  pub src_ip : Text
  pub dst_ip : Text
  pub src_port : ℕ
  pub dst_port : ℕ
  pub protocol : Text

-- A `Duration` is given in nanoseconds, and `as u64` wraps.
pub new {ℓ} : {Digest : Type ℓ} → ℕ → ℕ → DedupEngine Digest
new window bucket = record {
  seen = List.[];
  window_ns = window % 2 ^ 64;
  bucket_ns = bucket % 2 ^ 64;
}

pub bucket_of : ℕ → ℕ → ℕ
bucket_of bucket_ns timestamp_ns =
    if ltb 0 bucket_ns then timestamp_ns / bucket_ns else timestamp_ns

-- What `compute_hash` feeds to the hasher, in order.
pub hash_input : ℕ → Call → List ℕ
unfolding bucket_of
hash_input bucket_ns c =
    be_bytes 8 (bucket_of bucket_ns c.timestamp_ns)
    ++ (c.src_ip ++ (c.dst_ip ++ (be_bytes 2 c.src_port ++ (be_bytes 2 c.dst_port ++ c.protocol))))

module _ {ℓ} {Digest : Type ℓ} ⦃e : PartialEq Digest⦄ where
  pub evict : ℕ → DedupEngine Digest → DedupEngine Digest
  evict now_ns d =
      let cutoff = now_ns - d.window_ns in record d { seen = retain (λ ts. leb cutoff ts) d.seen }

  -- The `Entry::Vacant` branch and its `else`.
  pub note : Digest → ℕ → DedupEngine Digest → DedupEngine Digest × Bool
  note hash timestamp_ns d = elim (lookup hash d.seen) [
    | none ↦ (record d { seen = insert hash timestamp_ns d.seen }, false)
    | some _ ↦ (d, true)
  ]

  module _ (sha256 : List ℕ → Digest) where
    pub compute_hash : DedupEngine Digest → Call → Digest
    compute_hash d c = sha256 (hash_input d.bucket_ns c)

    pub is_duplicate : Call → DedupEngine Digest → DedupEngine Digest × Bool
    unfolding evict compute_hash note
    is_duplicate c d = let d' = evict c.timestamp_ns d in note (compute_hash d' c) c.timestamp_ns d'

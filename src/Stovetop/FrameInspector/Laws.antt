-- ===== src/Stovetop/FrameInspector/Laws.antt =====
-- What the inspection of a frame finds, by what is wrong with the frame.
use mathlib.Core.List.{append-nil}
use marlinspike_dpi.Prelude.{
  ℕ, ◌+◌, ◌<◌, ◌≤◌, ◌≡◌, ◌≢◌, refl, ap, ◌∙◌, Bool, false, List, [], ◌∷◌, ◌++◌, ltb, length, arith,
  All, length-append,
}
use marlinspike_dpi.Prelude.Text.{Text}
use marlinspike_dpi.Prelude.Bytes.{IsByte}
use marlinspike_dpi.Stovetop.Findings.{high, fcs_invalid, FrameFinding}
use marlinspike_dpi.Stovetop.Config.{default_config}
use marlinspike_dpi.Stovetop.Integrity.{ethernet_crc32}
use marlinspike_dpi.Stovetop.Integrity.Fcs.{
  sealed_with, validate_ethernet_fcs_lem, length-sealed_with,
}
use marlinspike_dpi.Stovetop.FrameInspector.{
  Frame, check_runt, check_oversized, check_truncation, check_padding, fcs_findings, check_fcs,
  inspect_frame,
}

-- What the engine parses from the bytes of a frame.
pub record Parts : Type 0 where
  pub ethertype : ℕ
  pub l2_payload : List ℕ
  pub ethernet_header_len : ℕ

-- A frame that was captured whole.
abbrev pub whole_frame : (List ℕ → Parts) → List ℕ → Frame
whole_frame parse bytes = record {
  raw_frame = bytes;
  captured_len = length bytes;
  orig_len = length bytes;
  ethertype = (parse bytes).ethertype;
  l2_payload = (parse bytes).l2_payload;
  ethernet_header_len = (parse bytes).ethernet_header_len;
}

module _ {Float : Type 0} (above : Float → Float → Bool) (shannon_entropy : List ℕ → Float)
    (hex_encode : List ℕ → Text) where
  -- A whole frame of a regular length: only its padding and its checksum are left.
  inspect_frame-checksum :
      (half : Float) (f : Frame)
      → 60 ≤ f.orig_len
      → f.orig_len ≤ 1514
      → f.orig_len ≤ f.captured_len
      → inspect_frame above shannon_entropy hex_encode (default_config half) f
        ≡ check_padding above shannon_entropy hex_encode (default_config half) f
          ++ check_fcs above shannon_entropy hex_encode f
  unfolding inspect_frame check_runt check_oversized check_truncation
  inspect_frame-checksum half f long short whole =
      let no_runt : ltb f.orig_len 60 ≡ false = ground (arith, long) in
      let no_giant : ltb 1514 f.orig_len ≡ false = ground (arith, short) in
      let no_cut : ltb f.captured_len f.orig_len ≡ false = ground (arith, whole) in
      rw (no_runt, no_giant, no_cut) refl

  -- With the default configuration, a frame of a regular length that was captured whole and ends in
  -- the checksum of its bytes gives the findings on its padding and no other. The same frame with
  -- one byte changed, wherever it stands before the checksum, gives the findings on its padding as
  -- it then is and exactly one more: that the checksum is invalid, of high severity and with both
  -- checksums. The payload and the type of the frame are whatever is parsed from its bytes, so they
  -- change with the byte.
  pub inspect_frame-one_byte :
      (half : Float) (a b : ℕ) (before after : List ℕ) (parse : List ℕ → Parts)
      → All IsByte before
      → a < 256
      → b < 256
      → All IsByte after
      → a ≢ b
      → 59 ≤ length before + length after
      → length before + length after ≤ 1509
      → let sent = before ++ (a ∷ after) in
        let changed = before ++ (b ∷ after) in
        let fcs = ethernet_crc32 sent in
        let received : List ℕ → Frame = λ bytes. whole_frame parse (sealed_with fcs bytes) in
        (inspect_frame above shannon_entropy hex_encode (default_config half) (received sent)
          ≡ check_padding above shannon_entropy hex_encode (default_config half) (received sent))
        × (inspect_frame above shannon_entropy hex_encode (default_config half) (received changed)
            ≡ check_padding above shannon_entropy hex_encode
                (default_config half)
                (received changed)
              ++ (record {
                kind = fcs_invalid (ethernet_crc32 changed) fcs;
                severity = high;
                decoder = "stovetop:fcs";
              }
                  ∷ []))
  unfolding check_fcs
  inspect_frame-one_byte half a b before after parse ks ka kb js differ big small =
      let sent = before ++ (a ∷ after) in
      let changed = before ++ (b ∷ after) in
      let good = sealed_with (ethernet_crc32 sent) sent in
      let bad = sealed_with (ethernet_crc32 sent) changed in
      let padding : List ℕ → List (FrameFinding Float) = λ bytes.
        check_padding above shannon_entropy hex_encode (default_config half)
          (whole_frame parse bytes) in
      let check = λ (bytes : List ℕ).
        validate_ethernet_fcs_lem a b (length bytes) (length bytes) before after ks ka kb js differ
          big (omega arith) in
      let size : length good ≡ length before + length after + 5 =
        omega (
          arith,
          length-sealed_with (ethernet_crc32 sent) sent,
          length-append before (a ∷ after),
        ) in
      let size' : length bad ≡ length before + length after + 5 = omega (
        arith,
        length-sealed_with (ethernet_crc32 sent) changed,
        length-append before (b ∷ after),
      ) in
      (
        inspect_frame-checksum half (whole_frame parse good) (omega (arith, size, big))
              (omega (arith, size, small)) (omega arith)
            ∙ (ap (λ o. padding good ++ fcs_findings above shannon_entropy hex_encode o)
                  (check good).0
                ∙ append-nil (padding good)),
        inspect_frame-checksum half (whole_frame parse bad) (omega (arith, size', big))
              (omega (arith, size', small)) (omega arith)
            ∙ ap (λ o. padding bad ++ fcs_findings above shannon_entropy hex_encode o)
                (check bad).1,
      )

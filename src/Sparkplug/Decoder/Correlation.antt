-- ===== src/Sparkplug/Decoder/Correlation.antt =====
-- What a data message emits, alone and after a birth.
use marlinspike_dpi.Prelude.Text.{Text}

-- ===== src/Sparkplug.antt =====
-- Sparkplug B over MQTT (src/sparkplug): topics, sessions and the decoder's session handling.
pub mod Topic
pub mod State
pub mod Value
pub mod Decoder
mod Tests

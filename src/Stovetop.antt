-- ===== src/Stovetop.antt =====
-- Frame inspection (src/stovetop): the checks of frames and checksums and the findings they raise.
pub mod Findings
pub mod Config
pub mod Crc
pub mod Integrity
pub mod Padding
pub mod FrameInspector
mod Tests

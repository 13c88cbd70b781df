-- ===== src/Engine.antt =====
-- The lowest layers of the engine (src/engine): link types, capture files and the streaming session.
pub mod Link
pub mod Capture
pub mod Streaming

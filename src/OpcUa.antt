-- ===== src/OpcUa.antt =====
-- OPC UA (src/opc_ua): the reads that wait for their responses, the cursor and the identifiers.
pub mod State
pub mod Reader
pub mod NodeId
pub mod Value
pub mod Services
pub mod Decoder
mod Tests

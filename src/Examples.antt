-- ===== src/Examples.antt =====
-- Runs of the code, and its theorems at concrete inputs.
pub mod Data
pub mod Payload
pub mod Pending
pub mod Reassembly
pub mod Chunk
pub mod Peer
pub mod Ack
pub mod Control
pub mod Association
pub mod Stream
pub mod Timer

-- ===== src/Sctp/Chunk.antt =====
-- client/src/webrtc/crates/sctp/chunk: the chunk types and their wire formats.
pub mod Header
pub mod PayloadData
pub mod Framed
pub mod GapAck
pub mod SelectiveAck
pub mod ForwardTsn
pub mod Control

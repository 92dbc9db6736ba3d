-- ===== src/Sctp/Queue.antt =====
-- client/src/webrtc/crates/sctp/queue: the queues of DATA chunks.
pub mod Payload
pub mod Pending
pub mod ChunkSet
pub mod Reassembly

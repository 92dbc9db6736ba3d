-- ===== src/Sctp.antt =====
-- client/src/webrtc/crates/sctp: the SCTP association of a data channel.
pub mod Error
pub mod Shared
pub mod Timer
pub mod Stream
pub mod Sna
pub mod Chunk
pub mod Queue
pub mod Packet
pub mod Association

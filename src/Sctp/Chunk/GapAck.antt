-- ===== src/Sctp/Chunk/GapAck.antt =====
-- client/src/webrtc/crates/sctp/chunk/chunk_selective_ack.rs: one gap ack block.
use webrtc_unreliable_client.Prelude.{ℕ}

-- `start` and `end` are `u16` offsets from the cumulative TSN.
pub record GapAckBlock : Type 0 where
  pub start : ℕ
  pub end : ℕ

-- ===== src/Sctp/Stream/Interleaved.antt =====
-- Two tasks that write to streams of one association: stream/mod.rs holds no lock between the pushes
-- of a message.
use webrtc_unreliable_client.Prelude.{◌≡◌, Bool, List, All}
use webrtc_unreliable_client.Sctp.Shared.{Shared}
use webrtc_unreliable_client.Sctp.Chunk.PayloadData.{ChunkPayloadData}
use webrtc_unreliable_client.Sctp.Stream.{Stream}

-- Pushes of chunks of one kind go behind the queue of that kind, all of them.
abbrev AreOf : Bool → List ChunkPayloadData → Type 0
AreOf u cs = All (λ (c : ChunkPayloadData). c.unordered ≡ u) cs

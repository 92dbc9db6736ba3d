-- ===== src/Sctp/Association/Receipt.antt =====
-- A DATA chunk that reaches an association, in association_internal.rs.
use webrtc_unreliable_client.Prelude.{
  ℕ, ◌≡◌, ◌⊎◌, Bool, true, false, ◌||◌, ◌==◌, Option, none, some, if◌then◌else◌, ltb,
}
use webrtc_unreliable_client.Prelude.Map.{is_some}
use webrtc_unreliable_client.Sctp.Sna.{sna32lt, sna32lte}
use webrtc_unreliable_client.Sctp.Chunk.PayloadData.{ChunkPayloadData}
use webrtc_unreliable_client.Sctp.Stream.{Stream}
use webrtc_unreliable_client.Sctp.Queue.Payload
use webrtc_unreliable_client.Sctp.Queue.Payload.{get}
use webrtc_unreliable_client.Sctp.Association.{Association}
use webrtc_unreliable_client.Sctp.Association.Streams.{
  get_my_receiver_window_credit, get_or_create_stream,
}
use webrtc_unreliable_client.Sctp.Association.Advance.{HasPassed}

-- The chunk is neither in the queue nor at or before the cumulative TSN.
abbrev pub IsNovel : Association → ChunkPayloadData → Type 0
IsNovel a d = (get a.payload_queue d.tsn ≡ none) × (sna32lte d.tsn a.peer_last_tsn ≡ false)

-- The receive window is open, or the chunk fills a gap before the last one received.
abbrev pub has_space : Association → ChunkPayloadData → Bool
has_space a d =
    ltb 0 (get_my_receiver_window_credit a)
    || (elim (Payload.get_last_tsn_received a.payload_queue) [
      | some last_tsn ↦ sna32lt d.tsn last_tsn
      | none ↦ false
    ])

-- What was received once `d` is.
abbrev pub with_chunk : Association → ChunkPayloadData → ℕ → Option ChunkPayloadData
with_chunk a d t = if d.tsn == t then some d else get a.payload_queue t

-- What becomes of a chunk `d` that takes the association from `a` to `b`.
pub data IsReceipt (a : Association) (d : ChunkPayloadData) (b : Association) : Type 0 where
  duplicate :
      (is_some (get a.payload_queue d.tsn) ≡ true) ⊎ (sna32lte d.tsn a.peer_last_tsn ≡ true)
      → HasPassed (get a.payload_queue) a.peer_last_tsn b
      → IsReceipt a d b
  discarded :
      IsNovel a d
      → (get_or_create_stream a d.stream_identifier).1 ≡ none
      → b.payload_queue ≡ a.payload_queue
      → b.peer_last_tsn ≡ a.peer_last_tsn
      → IsReceipt a d b
  taken :
      IsNovel a d
      → has_space (get_or_create_stream a d.stream_identifier).0 d ≡ true
      → HasPassed (with_chunk a d) a.peer_last_tsn b
      → IsReceipt a d b
  refused :
      IsNovel a d
      → has_space (get_or_create_stream a d.stream_identifier).0 d ≡ false
      → HasPassed (get a.payload_queue) a.peer_last_tsn b
      → IsReceipt a d b

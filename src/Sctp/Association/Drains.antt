-- ===== src/Sctp/Association/Drains.antt =====
-- The loop of `pop_pending_data_chunks_to_send` of association_internal.rs ends on its fuel.
use webrtc_unreliable_client.Prelude.{ℕ, ◌≡◌, false}
use webrtc_unreliable_client.Sctp.Queue.Pending.{peek}
use webrtc_unreliable_client.Sctp.Association.{Association}
use webrtc_unreliable_client.Sctp.Association.Send.{Popped, peek_round}

-- There is no further round.
abbrev pub IsStopped : ℕ → Popped → Type 0
IsStopped now s = (peek_round s now (peek s.0.shared.pending_queue)).1 ≡ false

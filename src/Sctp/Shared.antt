-- ===== src/Sctp/Shared.antt =====
-- client/src/webrtc/crates/sctp/association/mod.rs: the association's states, and what an
-- association shares with its streams (fields of association_internal.rs and stream/mod.rs that are
-- an `Arc`).
use webrtc_unreliable_client.Prelude.{ℕ, ◌+◌, Bool, true, false, if◌then◌else◌, ◌==◌, ◌≡◌, refl}
use webrtc_unreliable_client.Sctp.Chunk.PayloadData.{Flags, FlagRef, store}
use webrtc_unreliable_client.Sctp.Queue.Pending.{PendingQueue}

pub data AssociationState : Type 0 where
  closed cookie_wait cookie_echoed established : AssociationState
  shutdown_ack_sent shutdown_pending shutdown_received shutdown_sent : AssociationState

-- `as u8`
unfoldable pub state_as_u8 : AssociationState → ℕ
state_as_u8 closed = 0
state_as_u8 cookie_wait = 1
state_as_u8 cookie_echoed = 2
state_as_u8 established = 3
state_as_u8 shutdown_ack_sent = 4
state_as_u8 shutdown_pending = 5
state_as_u8 shutdown_received = 6
state_as_u8 shutdown_sent = 7

-- `From<u8>`
unfoldable pub state_from : ℕ → AssociationState
state_from v =
    if v == 1
    then cookie_wait
    else if v == 2
    then cookie_echoed
    else if v == 3
    then established
    else if v == 4
    then shutdown_ack_sent
    else if v == 5
    then shutdown_pending
    else if v == 6
    then shutdown_received
    else if v == 7
    then shutdown_sent
    else closed

-- The derived `PartialEq`
unfoldable pub state_eq : AssociationState → AssociationState → Bool
unfolding state_as_u8
state_eq a b = state_as_u8 a == state_as_u8 b

-- Reading the atomic cell gives the state that was stored in it, so a cell is its state below.
pub state_from-as_u8 : (s : AssociationState) → state_from (state_as_u8 s) ≡ s
unfolding state_from state_as_u8
state_from-as_u8 closed = refl
state_from-as_u8 cookie_wait = refl
state_from-as_u8 cookie_echoed = refl
state_from-as_u8 established = refl
state_from-as_u8 shutdown_ack_sent = refl
state_from-as_u8 shutdown_pending = refl
state_from-as_u8 shutdown_received = refl
state_from-as_u8 shutdown_sent = refl

-- `awakened` says that the write loop has a wake-up to read. `flags` holds the atomic cells of all
-- chunks, and `next_flag` is the first address that is not in use.
pub record Shared : Type 0 where
  pub state : AssociationState
  pub max_message_size : ℕ
  pub awakened : Bool
  pub pending_queue : PendingQueue
  pub flags : Flags
  pub next_flag : FlagRef

unfoldable pub awake_write_loop : Shared → Shared
awake_write_loop h = record h { awakened = true }

unfoldable pub set_state : Shared → AssociationState → Shared
set_state h s = record h { state = s }

-- `Arc::new(AtomicBool::new(false))`
unfoldable pub new_flag : Shared → Shared × FlagRef
new_flag h =
    (record h { flags = store h.flags h.next_flag false; next_flag = h.next_flag + 1 }, h.next_flag)

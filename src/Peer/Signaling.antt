-- ===== src/Peer/Signaling.antt =====
-- client/src/webrtc/peer_connection/signaling_state.rs and sdp/sdp_type.rs: the signaling states.
pub mod Transitions
use webrtc_unreliable_client.Prelude.{ℕ, Bool, ◌&&◌, if◌then◌else◌, ◌==◌}
use webrtc_unreliable_client.Wire.{Outcome, ok, err}

-- `RTCSdpType`
pub data SdpType : Type 0 where
  unspecified offer pranswer answer rollback : SdpType

pub data StateChangeOp : Type 0 where
  set_local set_remote : StateChangeOp

-- `RTCSignalingState`
pub data SignalingState : Type 0 where
  unspecified stable have_local_offer have_remote_offer have_local_pranswer : SignalingState
  have_remote_pranswer closed : SignalingState

-- The errors of `error.rs` that the exchange returns.
pub data Error : Type 0 where
  connection_closed sdp_type_invalid_value sdp_does_not_match_offer : Error
  sdp_does_not_match_answer state_change_invalid cannot_rollback : Error
  proposed_transition_invalid : Error

-- `as u8`, and `From<u8>`
unfoldable pub state_as_u8 : SignalingState → ℕ
state_as_u8 unspecified = 0
state_as_u8 stable = 1
state_as_u8 have_local_offer = 2
state_as_u8 have_remote_offer = 3
state_as_u8 have_local_pranswer = 4
state_as_u8 have_remote_pranswer = 5
state_as_u8 closed = 6

unfoldable pub state_from : ℕ → SignalingState
state_from v =
    if v == 1
    then stable
    else if v == 2
    then have_local_offer
    else if v == 3
    then have_remote_offer
    else if v == 4
    then have_local_pranswer
    else if v == 5
    then have_remote_pranswer
    else if v == 6
    then closed
    else unspecified

-- `==` on states and on types of descriptions
unfoldable pub state_eq : SignalingState → SignalingState → Bool
unfolding state_as_u8
state_eq a b = state_as_u8 a == state_as_u8 b

unfoldable pub sdp_type_as_u8 : SdpType → ℕ
sdp_type_as_u8 unspecified = 0
sdp_type_as_u8 offer = 1
sdp_type_as_u8 pranswer = 2
sdp_type_as_u8 answer = 3
sdp_type_as_u8 rollback = 4

unfoldable pub sdp_type_eq : SdpType → SdpType → Bool
unfolding sdp_type_as_u8
sdp_type_eq a b = sdp_type_as_u8 a == sdp_type_as_u8 b

-- `next`, if it is the state `to`.
unfoldable pub go_to : SignalingState → SignalingState → Outcome Error SignalingState
unfolding state_eq
go_to to next = if state_eq next to then ok next else err proposed_transition_invalid

-- `match cur`
unfoldable pub valid_transition :
    SignalingState → SignalingState → StateChangeOp → SdpType → Outcome Error SignalingState
unfolding go_to
valid_transition stable next set_local offer = go_to have_local_offer next
valid_transition stable next set_remote offer = go_to have_remote_offer next
valid_transition have_local_offer next set_remote answer = go_to stable next
valid_transition have_local_offer next set_remote pranswer = go_to have_remote_pranswer next
valid_transition have_remote_pranswer next set_remote answer = go_to stable next
valid_transition have_remote_offer next set_local answer = go_to stable next
valid_transition have_remote_offer next set_local pranswer = go_to have_local_pranswer next
valid_transition have_local_pranswer next set_local answer = go_to stable next
valid_transition cur next op sdp_type = err proposed_transition_invalid

unfoldable pub check_next_signaling_state :
    SignalingState → SignalingState → StateChangeOp → SdpType → Outcome Error SignalingState
unfolding state_eq sdp_type_eq valid_transition
check_next_signaling_state cur next op sdp_type =
    if sdp_type_eq sdp_type rollback && state_eq cur stable
    then err cannot_rollback
    else valid_transition cur next op sdp_type

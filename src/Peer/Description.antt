-- ===== src/Peer/Description.antt =====
-- client/src/webrtc/peer_connection/mod.rs: how a description is set. A call of `set_description` is
-- one step: the peer connection's operations run one after the other.
pub mod Negotiated
pub mod Refused
use webrtc_unreliable_client.Prelude.{
  ℕ, Bool, true, false, not, ◌&&◌, List, [], ◌∷◌, ◌++◌, Option, none, some, if◌then◌else◌, ◌==◌,
}
use webrtc_unreliable_client.Wire.{Outcome, ok, err, panic}
use webrtc_unreliable_client.Peer.Signaling.{
  SdpType, unspecified, offer, pranswer, answer, rollback, StateChangeOp, set_local, set_remote,
  SignalingState, stable, have_local_offer, have_remote_offer, have_local_pranswer,
  have_remote_pranswer, Error, state_as_u8, state_from, check_next_signaling_state, sdp_type_eq,
  connection_closed, sdp_type_invalid_value, sdp_does_not_match_offer, sdp_does_not_match_answer,
  state_change_invalid,
}

-- `RTCSessionDescription`, less `parsed`, which nothing here reads. A string is its bytes.
pub record SessionDescription : Type 0 where
  pub sdp_type : SdpType
  pub sdp : List ℕ

-- The fields of `PeerConnectionInternal` that the exchange reads and writes, and the states that the
-- handler of state changes was called with.
pub record PeerConnection : Type 0 where
  pub last_offer : List ℕ
  pub last_answer : List ℕ
  pub is_closed : Bool
  pub signaling_state : ℕ
  pub current_local : Option SessionDescription
  pub current_remote : Option SessionDescription
  pub pending_local : Option SessionDescription
  pub pending_remote : Option SessionDescription
  pub changes : List SignalingState

unfoldable pub new : PeerConnection
unfolding state_as_u8
new = record {
  last_offer = [];
  last_answer = [];
  is_closed = false;
  signaling_state = state_as_u8 stable;
  current_local = none;
  current_remote = none;
  pending_local = none;
  pending_remote = none;
  changes = [];
}

-- `==` on strings
unfoldable pub sdp_eq : List ℕ → List ℕ → Bool
sdp_eq [] [] = true
sdp_eq (a ∷ xs) (b ∷ ys) = a == b && sdp_eq xs ys
sdp_eq [] (b ∷ ys) = false
sdp_eq (a ∷ xs) [] = false

abbrev pub Step : Type 0
Step = PeerConnection × Outcome Error SignalingState

-- `if next_state.is_ok() { ... }`, then `next_state`
unfoldable pub if_ok : Outcome Error SignalingState → PeerConnection → PeerConnection → Step
if_ok (ok s) changed pc = (changed, ok s)
if_ok (err e) changed pc = (pc, err e)
if_ok panic changed pc = (pc, panic)

-- The arms of `match sd.sdp_type` under `SetLocal`
unfoldable pub set_local_by_type :
    PeerConnection → SignalingState → SessionDescription → SdpType → Step
unfolding if_ok sdp_eq check_next_signaling_state
set_local_by_type pc cur sd offer =
    if not (sdp_eq sd.sdp pc.last_offer)
    then (pc, err sdp_does_not_match_offer)
    else if_ok (check_next_signaling_state cur have_local_offer set_local offer)
        (record pc { pending_local = some sd }) pc
set_local_by_type pc cur sd answer =
    if not (sdp_eq sd.sdp pc.last_answer)
    then (pc, err sdp_does_not_match_answer)
    else if_ok (check_next_signaling_state cur stable set_local answer)
        (record pc {
          pending_remote = none;
          pending_local = none;
          current_local = some sd;
          current_remote = pc.pending_remote;
        })
        pc
set_local_by_type pc cur sd rollback =
    if_ok (check_next_signaling_state cur stable set_local rollback)
      (record pc { pending_local = none }) pc
set_local_by_type pc cur sd pranswer =
    if not (sdp_eq sd.sdp pc.last_answer)
    then (pc, err sdp_does_not_match_answer)
    else if_ok (check_next_signaling_state cur have_local_pranswer set_local pranswer)
        (record pc { pending_local = some sd }) pc
set_local_by_type pc cur sd unspecified = (pc, err state_change_invalid)

-- The arms under `SetRemote`
unfoldable pub set_remote_by_type :
    PeerConnection → SignalingState → SessionDescription → SdpType → Step
unfolding if_ok check_next_signaling_state
set_remote_by_type pc cur sd offer =
    if_ok (check_next_signaling_state cur have_remote_offer set_remote offer)
      (record pc { pending_remote = some sd }) pc
set_remote_by_type pc cur sd answer =
    if_ok (check_next_signaling_state cur stable set_remote answer)
      (record pc {
        pending_local = none;
        pending_remote = none;
        current_remote = some sd;
        current_local = pc.pending_local;
      })
      pc
set_remote_by_type pc cur sd rollback =
    if_ok (check_next_signaling_state cur stable set_remote rollback)
      (record pc { pending_remote = none }) pc
set_remote_by_type pc cur sd pranswer =
    if_ok (check_next_signaling_state cur have_remote_pranswer set_remote pranswer)
      (record pc { pending_remote = some sd }) pc
set_remote_by_type pc cur sd unspecified = (pc, err state_change_invalid)

-- The arms of `match op`
unfoldable pub next_state :
    PeerConnection → SignalingState → SessionDescription → StateChangeOp → Step
unfolding set_local_by_type set_remote_by_type
next_state pc cur sd set_local = set_local_by_type pc cur sd sd.sdp_type
next_state pc cur sd set_remote = set_remote_by_type pc cur sd sd.sdp_type

-- `match next_state`: the state is stored, and the handler called.
unfoldable pub store_state : Step → PeerConnection × Outcome Error (Unit {0})
unfolding state_as_u8
store_state (pc, ok s) =
    (record pc { signaling_state = state_as_u8 s; changes = pc.changes ++ (s ∷ []) }, ok tt)
store_state (pc, err e) = (pc, err e)
store_state (pc, panic) = (pc, panic)

unfoldable pub set_description :
    PeerConnection → SessionDescription → StateChangeOp → PeerConnection × Outcome Error (Unit {0})
unfolding next_state store_state sdp_type_eq state_from
set_description pc sd op =
    if pc.is_closed
    then (pc, err connection_closed)
    else if sdp_type_eq sd.sdp_type unspecified
    then (pc, err sdp_type_invalid_value)
    else store_state (next_state pc (state_from pc.signaling_state) sd op)

-- ===== src/Peer/Description/Refused.antt =====
-- What `set_description` of peer_connection/mod.rs does with a description that it refuses.
use webrtc_unreliable_client.Prelude.{◌≡◌, refl, arith, inl, inr, Bool-cases}
use webrtc_unreliable_client.Wire.{Outcome, ok, err, panic}
use webrtc_unreliable_client.Peer.Signaling.{
  SdpType, unspecified, offer, pranswer, answer, rollback, StateChangeOp, set_local, set_remote,
  SignalingState, stable, have_local_offer, have_remote_offer, have_local_pranswer,
  have_remote_pranswer, Error, state_from, check_next_signaling_state,
}
use webrtc_unreliable_client.Peer.Description.{
  SessionDescription, PeerConnection, Step, sdp_eq, if_ok, set_local_by_type, set_remote_by_type,
  next_state, store_state, set_description,
}

Keeps : PeerConnection → Step → Type 0
Keeps pc (pc', ok s) = Unit {0}
Keeps pc (pc', err e) = pc' ≡ pc
Keeps pc (pc', panic) = pc' ≡ pc

if_ok-Keeps :
    (r : Outcome Error SignalingState) (changed pc : PeerConnection) → Keeps pc (if_ok r changed pc)
unfolding if_ok Keeps
if_ok-Keeps (ok s) changed pc = tt
if_ok-Keeps (err e) changed pc = refl
if_ok-Keeps panic changed pc = refl

local-Keeps :
    (pc : PeerConnection) (cur : SignalingState) (sd : SessionDescription) (t : SdpType)
    → Keeps pc (set_local_by_type pc cur sd t)
unfolding set_local_by_type Keeps
local-Keeps pc cur sd unspecified = refl
local-Keeps pc cur sd rollback =
    if_ok-Keeps (check_next_signaling_state cur stable set_local rollback) _ pc
local-Keeps pc cur sd offer = elim (Bool-cases (sdp_eq sd.sdp pc.last_offer)) [
  | inl same ↦
      rw same (if_ok-Keeps (check_next_signaling_state cur have_local_offer set_local offer) _ pc)
  | inr other ↦ rw other refl
]
local-Keeps pc cur sd pranswer = elim (Bool-cases (sdp_eq sd.sdp pc.last_answer)) [
  | inl same ↦
      rw same
        (if_ok-Keeps (check_next_signaling_state cur have_local_pranswer set_local pranswer) _ pc)
  | inr other ↦ rw other refl
]
local-Keeps pc cur sd answer = elim (Bool-cases (sdp_eq sd.sdp pc.last_answer)) [
  | inl same ↦ rw same (if_ok-Keeps (check_next_signaling_state cur stable set_local answer) _ pc)
  | inr other ↦ rw other refl
]

remote-Keeps :
    (pc : PeerConnection) (cur : SignalingState) (sd : SessionDescription) (t : SdpType)
    → Keeps pc (set_remote_by_type pc cur sd t)
unfolding set_remote_by_type Keeps
remote-Keeps pc cur sd unspecified = refl
remote-Keeps pc cur sd rollback =
    if_ok-Keeps (check_next_signaling_state cur stable set_remote rollback) _ pc
remote-Keeps pc cur sd offer =
    if_ok-Keeps (check_next_signaling_state cur have_remote_offer set_remote offer) _ pc
remote-Keeps pc cur sd pranswer =
    if_ok-Keeps (check_next_signaling_state cur have_remote_pranswer set_remote pranswer) _ pc
remote-Keeps pc cur sd answer =
    if_ok-Keeps (check_next_signaling_state cur stable set_remote answer) _ pc

next_state-Keeps :
    (pc : PeerConnection) (cur : SignalingState) (sd : SessionDescription) (op : StateChangeOp)
    → Keeps pc (next_state pc cur sd op)
unfolding next_state
next_state-Keeps pc cur sd set_local = local-Keeps pc cur sd sd.sdp_type
next_state-Keeps pc cur sd set_remote = remote-Keeps pc cur sd sd.sdp_type

store_state-err :
    (pc : PeerConnection) (step : Step) (e : Error)
    → Keeps pc step
    → (store_state step).1 ≡ err e
    → (store_state step).0 ≡ pc
unfolding store_state Keeps
store_state-err pc (pc', ok s) e k h = cc
store_state-err pc (pc', err e') e k h = k
store_state-err pc (pc', panic) e k h = k

-- A description that is refused, for whatever reason, changes nothing at all.
pub set_description_refused :
    (pc : PeerConnection) (sd : SessionDescription) (op : StateChangeOp) (e : Error)
    → (set_description pc sd op).1 ≡ err e
    → (set_description pc sd op).0 ≡ pc
unfolding set_description
set_description_refused pc sd op e = ground (
  arith,
  store_state-err pc (next_state pc (state_from pc.signaling_state) sd op) e
      (next_state-Keeps pc (state_from pc.signaling_state) sd op),
)

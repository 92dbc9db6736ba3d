-- ===== src/Peer/Description/Negotiated.antt =====
-- What the descriptions of a peer connection are in each signaling state.
use webrtc_unreliable_client.Prelude.{
  ◌≡◌, ◌⊎◌, refl, sym, subst, Bool, true, false, Option, none, some, inl, inr, Bool-cases,
  if◌then◌else◌,
}
use webrtc_unreliable_client.Wire.{Outcome, ok, err, panic}
use webrtc_unreliable_client.Peer.Signaling.{
  SdpType, unspecified, offer, pranswer, answer, rollback, StateChangeOp, set_local, set_remote,
  SignalingState, stable, have_local_offer, have_remote_offer, have_local_pranswer,
  have_remote_pranswer, closed, Error, state_from, check_next_signaling_state, sdp_type_eq,
  connection_closed, sdp_type_invalid_value,
}
use webrtc_unreliable_client.Peer.Signaling.Transitions.{
  Change, local_offer, remote_offer, remote_answer, remote_pranswer, remote_final_answer,
  local_answer, local_pranswer, local_final_answer, state_from-state_as_u8, check-Change,
  no_rollback,
}
use webrtc_unreliable_client.Peer.Description.{
  SessionDescription, PeerConnection, Step, sdp_eq, if_ok, set_local_by_type, set_remote_by_type,
  next_state, store_state, set_description,
}

abbrev pub Holds : Option SessionDescription → SdpType → Type 0
Holds none t = ⊥
Holds (some sd) t = sd.sdp_type ≡ t

-- Nothing is agreed, or an offer of one side and an answer of the other.
abbrev pub IsAgreed : Option SessionDescription → Option SessionDescription → Type 0
IsAgreed none none = Unit {0}
IsAgreed (some l) (some r) =
    (l.sdp_type ≡ offer) × (r.sdp_type ≡ answer) ⊎ (l.sdp_type ≡ answer) × (r.sdp_type ≡ offer)
IsAgreed none (some r) = ⊥
IsAgreed (some l) none = ⊥

-- The pending descriptions of each state, the local and the remote one.
abbrev pub ArePending :
    SignalingState → Option SessionDescription → Option SessionDescription → Type 0
ArePending stable l r = (l ≡ none) × (r ≡ none)
ArePending have_local_offer l r = Holds l offer × (r ≡ none)
ArePending have_remote_offer l r = (l ≡ none) × Holds r offer
ArePending have_local_pranswer l r = Holds l pranswer × Holds r offer
ArePending have_remote_pranswer l r = Holds l offer × Holds r pranswer
ArePending unspecified l r = ⊥
ArePending closed l r = ⊥

abbrev IsAt : SignalingState → PeerConnection → Type 0
IsAt s pc =
    IsAgreed pc.current_local pc.current_remote × ArePending s pc.pending_local pc.pending_remote

abbrev pub IsInStep : PeerConnection → Type 0
IsInStep pc =
    IsAgreed pc.current_local pc.current_remote
    × ArePending (state_from pc.signaling_state) pc.pending_local pc.pending_remote

-- A step that passes leaves what its new state asks for, and one that is refused nothing new.
abbrev Arrives : Step → Type 0
Arrives (pc, ok s) = IsAt s pc
Arrives (pc, err e) = IsInStep pc
Arrives (pc, panic) = IsInStep pc

if_ok-Arrives :
    (cur next : SignalingState) (op : StateChangeOp) (t : SdpType) (changed pc : PeerConnection)
    → IsInStep pc
    → (Change cur op t next → IsAt next changed)
    → Arrives (if_ok (check_next_signaling_state cur next op t) changed pc)
unfolding if_ok
if_ok-Arrives cur next op t changed pc h f = go (check_next_signaling_state cur next op t) refl
  where
    go :
        (r : Outcome Error SignalingState)
        → check_next_signaling_state cur next op t ≡ r
        → Arrives (if_ok r changed pc)
    go (ok s) e =
        let (same, step) = (check-Change cur next s op t).0 e in
        subst (λ x. IsAt x changed) (sym same) (f step)
    go (err e) _ = h
    go panic _ = h

answered_locally :
    (sd : SessionDescription) (r : Option SessionDescription)
    → sd.sdp_type ≡ answer
    → Holds r offer
    → IsAgreed (some sd) r
answered_locally sd none e h = h
answered_locally sd (some r) e h = inr (e, h)

answered_remotely :
    (sd : SessionDescription) (l : Option SessionDescription)
    → sd.sdp_type ≡ answer
    → Holds l offer
    → IsAgreed l (some sd)
answered_remotely sd none e h = h
answered_remotely sd (some l) e h = inl (h, e)

-- The edges, with the descriptions that they change.
local_offer-IsAt :
    {cur : SignalingState} (pc : PeerConnection) (sd : SessionDescription)
    → sd.sdp_type ≡ offer
    → Change cur set_local offer have_local_offer
    → IsAt cur pc
    → IsAt have_local_offer (record pc { pending_local = some sd })
local_offer-IsAt pc sd e local_offer (a, (l, r)) = (a, (e, r))

remote_offer-IsAt :
    {cur : SignalingState} (pc : PeerConnection) (sd : SessionDescription)
    → sd.sdp_type ≡ offer
    → Change cur set_remote offer have_remote_offer
    → IsAt cur pc
    → IsAt have_remote_offer (record pc { pending_remote = some sd })
remote_offer-IsAt pc sd e remote_offer (a, (l, r)) = (a, (l, e))

local_pranswer-IsAt :
    {cur : SignalingState} (pc : PeerConnection) (sd : SessionDescription)
    → sd.sdp_type ≡ pranswer
    → Change cur set_local pranswer have_local_pranswer
    → IsAt cur pc
    → IsAt have_local_pranswer (record pc { pending_local = some sd })
local_pranswer-IsAt pc sd e local_pranswer (a, (l, r)) = (a, (e, r))

remote_pranswer-IsAt :
    {cur : SignalingState} (pc : PeerConnection) (sd : SessionDescription)
    → sd.sdp_type ≡ pranswer
    → Change cur set_remote pranswer have_remote_pranswer
    → IsAt cur pc
    → IsAt have_remote_pranswer (record pc { pending_remote = some sd })
remote_pranswer-IsAt pc sd e remote_pranswer (a, (l, r)) = (a, (l, e))

local_answer-IsAt :
    {cur : SignalingState} (pc : PeerConnection) (sd : SessionDescription)
    → sd.sdp_type ≡ answer
    → Change cur set_local answer stable
    → IsAt cur pc
    → IsAt stable (record pc {
      pending_remote = none;
      pending_local = none;
      current_local = some sd;
      current_remote = pc.pending_remote;
    })
local_answer-IsAt pc sd e local_answer (a, (l, r)) =
    (answered_locally sd pc.pending_remote e r, (refl, refl))
local_answer-IsAt pc sd e local_final_answer (a, (l, r)) =
    (answered_locally sd pc.pending_remote e r, (refl, refl))

remote_answer-IsAt :
    {cur : SignalingState} (pc : PeerConnection) (sd : SessionDescription)
    → sd.sdp_type ≡ answer
    → Change cur set_remote answer stable
    → IsAt cur pc
    → IsAt stable (record pc {
      pending_local = none;
      pending_remote = none;
      current_remote = some sd;
      current_local = pc.pending_local;
    })
remote_answer-IsAt pc sd e remote_answer (a, (l, r)) =
    (answered_remotely sd pc.pending_local e l, (refl, refl))
remote_answer-IsAt pc sd e remote_final_answer (a, (l, r)) =
    (answered_remotely sd pc.pending_local e l, (refl, refl))

rollback-IsAt :
    {cur : SignalingState} {op : StateChangeOp} (pc : PeerConnection)
    → Change cur op rollback stable
    → IsAt stable pc
rollback-IsAt pc step = absurd (no_rollback step refl)

module _ (pc : PeerConnection) (cur : SignalingState) (sd : SessionDescription) (i : IsInStep pc)
    (h : IsAt cur pc) where
  set_local_by_type-Arrives :
      (t : SdpType) → sd.sdp_type ≡ t → Arrives (set_local_by_type pc cur sd t)
  unfolding set_local_by_type
  set_local_by_type-Arrives unspecified e = i
  set_local_by_type-Arrives offer e = elim (Bool-cases (sdp_eq sd.sdp pc.last_offer)) [
    | inl same ↦ rw same (
        if_ok-Arrives cur have_local_offer set_local offer (record pc { pending_local = some sd })
          pc i (λ t. local_offer-IsAt pc sd e t h))
    | inr other ↦ rw other i
  ]
  set_local_by_type-Arrives pranswer e = elim (Bool-cases (sdp_eq sd.sdp pc.last_answer)) [
    | inl same ↦ rw same (
        if_ok-Arrives cur have_local_pranswer set_local pranswer
          (record pc { pending_local = some sd }) pc i (λ t. local_pranswer-IsAt pc sd e t h))
    | inr other ↦ rw other i
  ]
  set_local_by_type-Arrives answer e = elim (Bool-cases (sdp_eq sd.sdp pc.last_answer)) [
    | inl same ↦ rw same (
        if_ok-Arrives cur stable set_local answer
          (record pc {
            pending_remote = none;
            pending_local = none;
            current_local = some sd;
            current_remote = pc.pending_remote;
          })
          pc i (λ t. local_answer-IsAt pc sd e t h))
    | inr other ↦ rw other i
  ]
  set_local_by_type-Arrives rollback e =
      let pc' : PeerConnection = record pc { pending_local = none } in
      if_ok-Arrives cur stable set_local rollback pc' pc i (rollback-IsAt pc')

  set_remote_by_type-Arrives :
      (t : SdpType) → sd.sdp_type ≡ t → Arrives (set_remote_by_type pc cur sd t)
  unfolding set_remote_by_type
  set_remote_by_type-Arrives unspecified e = i
  set_remote_by_type-Arrives offer e =
      if_ok-Arrives cur have_remote_offer set_remote offer (record pc { pending_remote = some sd })
        pc i (λ t. remote_offer-IsAt pc sd e t h)
  set_remote_by_type-Arrives pranswer e =
      if_ok-Arrives cur have_remote_pranswer set_remote pranswer
        (record pc { pending_remote = some sd }) pc i (λ t. remote_pranswer-IsAt pc sd e t h)
  set_remote_by_type-Arrives answer e =
      if_ok-Arrives cur stable set_remote answer
        (record pc {
          pending_local = none;
          pending_remote = none;
          current_remote = some sd;
          current_local = pc.pending_local;
        })
        pc i (λ t. remote_answer-IsAt pc sd e t h)
  set_remote_by_type-Arrives rollback e =
      let pc' : PeerConnection = record pc { pending_remote = none } in
      if_ok-Arrives cur stable set_remote rollback pc' pc i (rollback-IsAt pc')

  next_state-Arrives : (op : StateChangeOp) → Arrives (next_state pc cur sd op)
  unfolding next_state
  next_state-Arrives set_local = set_local_by_type-Arrives sd.sdp_type refl
  next_state-Arrives set_remote = set_remote_by_type-Arrives sd.sdp_type refl

store_state-IsInStep : (step : Step) → Arrives step → IsInStep (store_state step).0
unfolding store_state
store_state-IsInStep (pc, ok s) (a, p) = (
  a,
  subst (λ x. ArePending x pc.pending_local pc.pending_remote) (sym (state_from-state_as_u8 s)) p,
)
store_state-IsInStep (pc, err e) i = i
store_state-IsInStep (pc, panic) i = i

-- The early returns.
guards-IsInStep :
    (pc : PeerConnection) (a b : Error) (rest : PeerConnection × Outcome Error (Unit {0}))
    (shut absent : Bool)
    → IsInStep pc
    → IsInStep rest.0
    → IsInStep (if shut then (pc, err a) else if absent then (pc, err b) else rest).0
guards-IsInStep pc a b rest true absent i k = i
guards-IsInStep pc a b rest false true i k = i
guards-IsInStep pc a b rest false false i k = k

-- Whatever description is set on either side, and whether or not it is refused, the descriptions stay
-- in step with the signaling state: the pending ones are those that the state names, and the current
-- ones are none or an offer of one side and an answer of the other.
pub set_description-IsInStep :
    (pc : PeerConnection) (sd : SessionDescription) (op : StateChangeOp)
    → IsInStep pc
    → IsInStep (set_description pc sd op).0
unfolding set_description
set_description-IsInStep pc sd op i =
    guards-IsInStep pc connection_closed sdp_type_invalid_value
      (store_state (next_state pc (state_from pc.signaling_state) sd op)) pc.is_closed
      (sdp_type_eq sd.sdp_type unspecified) i
      (store_state-IsInStep (next_state pc (state_from pc.signaling_state) sd op)
        (next_state-Arrives pc (state_from pc.signaling_state) sd i i op))

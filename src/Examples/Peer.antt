-- ===== src/Examples/Peer.antt =====
-- The offer/answer exchange at concrete inputs.
use webrtc_unreliable_client.Prelude.{◌≢◌, ◌≡◌, ◌↔◌, refl, [], ◌∷◌, some, none, false}
use webrtc_unreliable_client.Wire.{ok}
use webrtc_unreliable_client.Peer.Signaling.{
  offer, answer, rollback, set_local, set_remote, stable, have_local_offer, state_as_u8, state_from,
  state_eq, sdp_type_eq, go_to, valid_transition, check_next_signaling_state,
  proposed_transition_invalid,
}
use webrtc_unreliable_client.Peer.Signaling.Transitions.{
  Transition, check_next_signaling_state-Transition,
}
use webrtc_unreliable_client.Peer.Description.{
  SessionDescription, PeerConnection, sdp_eq, if_ok, set_local_by_type, next_state, store_state,
  set_description,
}
use webrtc_unreliable_client.Peer.Description.Negotiated.{IsInStep, set_description-IsInStep}
use webrtc_unreliable_client.Peer.Description.Refused.{set_description_refused}

abbrev our_offer : SessionDescription
our_offer = record { sdp_type = offer; sdp = 1 ∷ 2 ∷ [] }

abbrev their_answer : SessionDescription
their_answer = record { sdp_type = answer; sdp = 3 ∷ [] }

-- The offer is out.
abbrev offering : PeerConnection
offering = record {
  last_offer = 1 ∷ 2 ∷ [];
  last_answer = [];
  is_closed = false;
  signaling_state = 2;
  current_local = none;
  current_remote = none;
  pending_local = some our_offer;
  pending_remote = none;
  changes = have_local_offer ∷ [];
}

offering_reached :
    set_description
      (record offering { signaling_state = 1; pending_local = none; changes = [] })
      our_offer
      set_local
    ≡ (offering, ok tt)
unfolding set_description next_state store_state set_local_by_type sdp_eq if_ok
    check_next_signaling_state valid_transition go_to state_eq sdp_type_eq state_from state_as_u8
offering_reached = refl

offering-IsInStep : IsInStep offering
unfolding state_from
offering-IsInStep = (tt, (refl, refl))

set_description-IsInStep_example : IsInStep (set_description offering their_answer set_remote).0
set_description-IsInStep_example =
    set_description-IsInStep offering their_answer set_remote offering-IsInStep

set_description_refused_example : (set_description offering their_answer set_local).0 ≡ offering
unfolding set_description next_state store_state set_local_by_type sdp_eq sdp_type_eq
set_description_refused_example =
    set_description_refused offering their_answer set_local
      webrtc_unreliable_client.Peer.Signaling.sdp_does_not_match_answer refl

check_next_signaling_state-Transition_example :
    (check_next_signaling_state have_local_offer stable set_remote answer ≡ ok stable) ↔ (
      (stable ≡ stable)
      × Transition have_local_offer set_remote answer stable
      × (have_local_offer ≢ stable))
check_next_signaling_state-Transition_example =
    check_next_signaling_state-Transition have_local_offer stable stable set_remote answer

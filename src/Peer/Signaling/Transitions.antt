-- ===== src/Peer/Signaling/Transitions.antt =====
-- The transitions that signaling_state.rs allows, as a step relation.
use webrtc_unreliable_client.Prelude.{◌≡◌, ◌≢◌, ◌↔◌, refl, ap, sym, ◌∙◌, true, arith}
use webrtc_unreliable_client.Wire.{ok}
use webrtc_unreliable_client.Peer.Signaling.{
  SdpType, unspecified, offer, pranswer, answer, rollback, StateChangeOp, set_local, set_remote,
  SignalingState, stable, have_local_offer, have_remote_offer, have_local_pranswer,
  have_remote_pranswer, state_as_u8, state_from, state_eq, go_to, valid_transition,
  check_next_signaling_state, sdp_type_eq,
}

-- The changes of state that the check lets pass.
pub data Change : SignalingState → StateChangeOp → SdpType → SignalingState → Type 0 where
  local_offer : Change stable set_local offer have_local_offer
  remote_offer : Change stable set_remote offer have_remote_offer
  remote_answer : Change have_local_offer set_remote answer stable
  remote_pranswer : Change have_local_offer set_remote pranswer have_remote_pranswer
  remote_final_answer : Change have_remote_pranswer set_remote answer stable
  local_answer : Change have_remote_offer set_local answer stable
  local_pranswer : Change have_remote_offer set_local pranswer have_local_pranswer
  local_final_answer : Change have_local_pranswer set_local answer stable

-- A state is stored as a number and read back.
pub state_from-state_as_u8 : (s : SignalingState) → state_from (state_as_u8 s) ≡ s
unfolding state_from state_as_u8
state_from-state_as_u8 unspecified = refl
state_from-state_as_u8 s = refl

state_eq_refl : (a b : SignalingState) → state_eq a b ≡ true → a ≡ b
unfolding state_eq
state_eq_refl a b e =
    let h : state_as_u8 a ≡ state_as_u8 b = ground arith in
    sym (state_from-state_as_u8 a) ∙ ap state_from h ∙ state_from-state_as_u8 b

go_to-ok : (to next s : SignalingState) → go_to to next ≡ ok s → (s ≡ next) × (next ≡ to)
unfolding go_to
go_to-ok to next s e = ground (arith, state_eq_refl next to)

go_to_refl : (s : SignalingState) → go_to s s ≡ ok s
unfolding go_to
go_to_refl s = unfold state_eq in ground arith

valid_transition-Change :
    (cur next : SignalingState) (op : StateChangeOp) (t : SdpType) (s : SignalingState)
    → valid_transition cur next op t ≡ ok s
    → (s ≡ next) × Change cur op t next
unfolding valid_transition
valid_transition-Change stable next set_local offer s e =
    let (a, b) = go_to-ok have_local_offer next s e in (a, rw b local_offer)
valid_transition-Change stable next set_remote offer s e =
    let (a, b) = go_to-ok have_remote_offer next s e in (a, rw b remote_offer)
valid_transition-Change have_local_offer next set_remote answer s e =
    let (a, b) = go_to-ok stable next s e in (a, rw b remote_answer)
valid_transition-Change have_local_offer next set_remote pranswer s e =
    let (a, b) = go_to-ok have_remote_pranswer next s e in (a, rw b remote_pranswer)
valid_transition-Change have_remote_pranswer next set_remote answer s e =
    let (a, b) = go_to-ok stable next s e in (a, rw b remote_final_answer)
valid_transition-Change have_remote_offer next set_local answer s e =
    let (a, b) = go_to-ok stable next s e in (a, rw b local_answer)
valid_transition-Change have_remote_offer next set_local pranswer s e =
    let (a, b) = go_to-ok have_local_pranswer next s e in (a, rw b local_pranswer)
valid_transition-Change have_local_pranswer next set_local answer s e =
    let (a, b) = go_to-ok stable next s e in (a, rw b local_final_answer)
valid_transition-Change cur next op t s e = cc

check-valid_transition :
    (cur next : SignalingState) (op : StateChangeOp) (t : SdpType) (s : SignalingState)
    → check_next_signaling_state cur next op t ≡ ok s
    → valid_transition cur next op t ≡ ok s
unfolding check_next_signaling_state
check-valid_transition cur next op t s e = ground arith

-- Every edge passes the check.
Change-check :
    {cur next : SignalingState} {op : StateChangeOp} {t : SdpType}
    → Change cur op t next
    → check_next_signaling_state cur next op t ≡ ok next
unfolding check_next_signaling_state valid_transition sdp_type_eq state_eq go_to
Change-check local_offer = refl
Change-check remote_offer = refl
Change-check remote_answer = refl
Change-check remote_pranswer = refl
Change-check remote_final_answer = refl
Change-check local_answer = refl
Change-check local_pranswer = refl
Change-check local_final_answer = refl

-- The edges of the state diagram of the W3C's WebRTC 1.0, section 4.3.1, without its rollbacks: an offer
-- or a provisional answer can also be updated, which leaves the state as it is.
pub data Transition : SignalingState → StateChangeOp → SdpType → SignalingState → Type 0 where
  local_offer : Transition stable set_local offer have_local_offer
  local_offer_again : Transition have_local_offer set_local offer have_local_offer
  remote_offer : Transition stable set_remote offer have_remote_offer
  remote_offer_again : Transition have_remote_offer set_remote offer have_remote_offer
  remote_answer : Transition have_local_offer set_remote answer stable
  remote_pranswer : Transition have_local_offer set_remote pranswer have_remote_pranswer
  remote_pranswer_again : Transition have_remote_pranswer set_remote pranswer have_remote_pranswer
  remote_final_answer : Transition have_remote_pranswer set_remote answer stable
  local_answer : Transition have_remote_offer set_local answer stable
  local_pranswer : Transition have_remote_offer set_local pranswer have_local_pranswer
  local_pranswer_again : Transition have_local_pranswer set_local pranswer have_local_pranswer
  local_final_answer : Transition have_local_pranswer set_local answer stable

Change-Transition :
    {cur next : SignalingState} {op : StateChangeOp} {t : SdpType}
    → Change cur op t next
    → Transition cur op t next × (cur ≢ next)
Change-Transition Change.local_offer = (Transition.local_offer, λ e. cc)
Change-Transition Change.remote_offer = (Transition.remote_offer, λ e. cc)
Change-Transition Change.remote_answer = (Transition.remote_answer, λ e. cc)
Change-Transition Change.remote_pranswer = (Transition.remote_pranswer, λ e. cc)
Change-Transition Change.remote_final_answer = (Transition.remote_final_answer, λ e. cc)
Change-Transition Change.local_answer = (Transition.local_answer, λ e. cc)
Change-Transition Change.local_pranswer = (Transition.local_pranswer, λ e. cc)
Change-Transition Change.local_final_answer = (Transition.local_final_answer, λ e. cc)

Transition-Change :
    {cur next : SignalingState} {op : StateChangeOp} {t : SdpType}
    → Transition cur op t next
    → cur ≢ next
    → Change cur op t next
Transition-Change Transition.local_offer ne = Change.local_offer
Transition-Change Transition.local_offer_again ne = absurd (ne refl)
Transition-Change Transition.remote_offer ne = Change.remote_offer
Transition-Change Transition.remote_offer_again ne = absurd (ne refl)
Transition-Change Transition.remote_answer ne = Change.remote_answer
Transition-Change Transition.remote_pranswer ne = Change.remote_pranswer
Transition-Change Transition.remote_pranswer_again ne = absurd (ne refl)
Transition-Change Transition.remote_final_answer ne = Change.remote_final_answer
Transition-Change Transition.local_answer ne = Change.local_answer
Transition-Change Transition.local_pranswer ne = Change.local_pranswer
Transition-Change Transition.local_pranswer_again ne = absurd (ne refl)
Transition-Change Transition.local_final_answer ne = Change.local_final_answer

pub check-Change :
    (cur next s : SignalingState) (op : StateChangeOp) (t : SdpType)
    → (check_next_signaling_state cur next op t ≡ ok s) ↔ ((s ≡ next) × Change cur op t next)
check-Change cur next s op t = (
  λ e. valid_transition-Change cur next op t s (check-valid_transition cur next op t s e),
  λ (a, step). rw a (Change-check step),
)

-- Of the state diagram without rollbacks, the check passes exactly the edges that change the state, and
-- its result is then the state that was asked for. An update of an offer, or of a provisional answer
-- that was sent before, leaves the state as it is, and is refused.
pub check_next_signaling_state-Transition :
    (cur next s : SignalingState) (op : StateChangeOp) (t : SdpType)
    → (check_next_signaling_state cur next op t ≡ ok s)
      ↔ ((s ≡ next) × Transition cur op t next × (cur ≢ next))
check_next_signaling_state-Transition cur next s op t = (
  λ e.
      let (a, step) = (check-Change cur next s op t).0 e in
      let (edge, ne) = Change-Transition step in (a, edge, ne),
  λ (a, step, ne). (check-Change cur next s op t).1 (a, Transition-Change step ne),
)

pub no_rollback :
    {cur next : SignalingState} {op : StateChangeOp} {t : SdpType}
    → Change cur op t next
    → t ≢ rollback
no_rollback local_offer e = cc
no_rollback remote_offer e = cc
no_rollback remote_answer e = cc
no_rollback remote_pranswer e = cc
no_rollback remote_final_answer e = cc
no_rollback local_answer e = cc
no_rollback local_pranswer e = cc
no_rollback local_final_answer e = cc

-- A rollback passes the check in no state, toward no state.
pub check_rollback :
    (cur next s : SignalingState) (op : StateChangeOp)
    → check_next_signaling_state cur next op rollback ≢ ok s
check_rollback cur next s op e = no_rollback ((check-Change cur next s op rollback).0 e).1 refl

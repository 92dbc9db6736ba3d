-- ===== src/Sctp/Association/States.antt =====
-- The state machine of association_internal.rs: which states an inbound packet can lead to.
use webrtc_unreliable_client.Prelude.{
  ◌≡◌, refl, ap, sym, ◌∙◌, subst, Bool, true, false, arith, if◌then◌else◌,
}
use webrtc_unreliable_client.Sctp.Shared.{
  AssociationState, closed, cookie_wait, cookie_echoed, established, shutdown_ack_sent,
  shutdown_pending, shutdown_received, shutdown_sent, state_eq, state_as_u8, state_from,
  state_from-as_u8,
}
use webrtc_unreliable_client.Sctp.Chunk.Control.{ChunkCookieEcho, ChunkShutdown}
use webrtc_unreliable_client.Sctp.Chunk.SelectiveAck.{ChunkSelectiveAck}
use webrtc_unreliable_client.Sctp.Packet.{
  Chunk, ChunkInit, init, cookie_echo, cookie_ack, shutdown, selective_ack, shutdown_complete,
}
use webrtc_unreliable_client.Sctp.Association.{Association, get_state}

-- The edges of the state machine, each with the chunk that takes it. A chunk may also leave the
-- state as it is.
pub data Step : AssociationState → Chunk → AssociationState → Type 0 where
  stay : {c : Chunk} (s : AssociationState) → Step s c s
  init_acked : {i : ChunkInit} → i.is_ack ≡ true → Step cookie_wait (init i) cookie_echoed
  cookie_accepted : {c : ChunkCookieEcho} → Step closed (cookie_echo c) established
  cookies_crossed : {c : ChunkCookieEcho} → Step cookie_wait (cookie_echo c) established
  echoes_crossed : {c : ChunkCookieEcho} → Step cookie_echoed (cookie_echo c) established
  cookie_acked : Step cookie_echoed cookie_ack established
  peer_shuts_down : {d : ChunkShutdown} → Step established (shutdown d) shutdown_received
  peer_shuts_down_idle : {d : ChunkShutdown} → Step established (shutdown d) shutdown_ack_sent
  shutdowns_crossed : {d : ChunkShutdown} → Step shutdown_sent (shutdown d) shutdown_ack_sent
  all_acked : {d : ChunkSelectiveAck} → Step shutdown_pending (selective_ack d) shutdown_sent
  all_acked_of_peer :
      {d : ChunkSelectiveAck} → Step shutdown_received (selective_ack d) shutdown_ack_sent
  completed : Step shutdown_ack_sent shutdown_complete closed

abbrev pub Takes : Association → Chunk → Association → Type 0
Takes a c b = Step (get_state a) c (get_state b)

-- A step from the state that is tested.
pub step_at : {c : Chunk} {s t u : AssociationState} → u ≡ s → Step s c t → Step u c t
step_at {c} {t = t} e h = subst (λ x. Step x c t) (sym e) h

pub if-Takes :
    (b : Bool) (a : Association) {c : Chunk} {A : Type 0} (x y : Association × A)
    → (b ≡ true → Takes a c x.0)
    → (b ≡ false → Takes a c y.0)
    → Takes a c (if b then x else y).0
if-Takes true a x y h k = h refl
if-Takes false a x y h k = k refl

pub state_eq-eq : (s t : AssociationState) → state_eq s t ≡ true → s ≡ t
unfolding state_eq
state_eq-eq s t h =
    let e : state_as_u8 s ≡ state_as_u8 t = ground arith in
    sym (state_from-as_u8 s) ∙ (ap state_from e ∙ state_from-as_u8 t)

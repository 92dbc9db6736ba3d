-- ===== src/Sctp/Association/Inbound.antt =====
-- An inbound packet takes the state machine of association_internal.rs along its edges.
use webrtc_unreliable_client.Prelude.{
  ℕ, ◌≡◌, refl, sym, subst, ◌∙◌, Bool, true, false, not, List, ◌∷◌, if◌then◌else◌, ◌&&◌,
}
use webrtc_unreliable_client.Prelude.Map.{total_map}
use webrtc_unreliable_client.Wire.{ok, err, panic}
use webrtc_unreliable_client.Sctp.Error.{Error}
use webrtc_unreliable_client.Sctp.Sna.{sna32gt, sna32lt}
use webrtc_unreliable_client.Sctp.Shared
use webrtc_unreliable_client.Sctp.Shared.{
  AssociationState, closed, cookie_wait, cookie_echoed, established, shutdown_ack_sent,
  shutdown_pending, shutdown_received, shutdown_sent, state_eq, state_as_u8,
}
use webrtc_unreliable_client.Sctp.Chunk.SelectiveAck.{ChunkSelectiveAck}
use webrtc_unreliable_client.Sctp.Packet.{
  Packet, Chunk, init, abort, error, heartbeat, heartbeat_ack, cookie_echo, cookie_ack,
  payload_data, selective_ack, reconfig, forward_tsn, shutdown, shutdown_ack, shutdown_complete,
}
use webrtc_unreliable_client.Sctp.Queue.Payload.{is_empty}
use webrtc_unreliable_client.Sctp.Association.{
  Association, Handled, and_then, get_state, set_state, awake_write_loop, start,
}
use webrtc_unreliable_client.Sctp.Association.Sack.{Acked, process_selective_ack}
use webrtc_unreliable_client.Sctp.Association.Congestion.{
  handle_sack, apply_sack, postprocess_sack, forward_ack_point, process_fast_retransmission,
  on_cumulative_tsn_ack_point_advanced, update_rwnd, release_buffers,
}
use webrtc_unreliable_client.Sctp.Association.Dispatch.{dispatch}
use webrtc_unreliable_client.Sctp.Association.Still.{IsStill, handle_data-IsStill}
use webrtc_unreliable_client.Sctp.Association.SackStill.{
  process_selective_ack-IsStill, process_fast_retransmission-IsStill, forward_ack_point-IsStill,
  on_cumulative_tsn_ack_point_advanced-IsStill,
}
use webrtc_unreliable_client.Sctp.Association.States.{
  Step, stay, all_acked, all_acked_of_peer, Takes, step_at, if-Takes, state_eq-eq,
}
use webrtc_unreliable_client.Sctp.Association.Reaches.{
  handle_init-Takes, handle_init_ack-Takes, handle_cookie_echo-Takes, handle_cookie_ack-Takes,
  handle_shutdown-Takes, handle_shutdown_ack-Takes,
}
use webrtc_unreliable_client.Sctp.Association.Others.{
  handle_shutdown_complete-Takes, handle_heartbeat-IsStill, handle_reconfig-IsStill,
  handle_forward_tsn-IsStill,
}

awake_if-IsStill : (b : Bool) (a : Association) → IsStill a (if b then awake_write_loop a else a)
unfolding awake_write_loop Shared.awake_write_loop
awake_if-IsStill true a = refl
awake_if-IsStill false a = refl

step_to : {c : Chunk} {s t : AssociationState} → t ≡ s → Step s c t
step_to {c} {s = s} e = subst (λ x. Step s c x) (sym e) (stay s)

if-Step :
    {c : Chunk} {s : AssociationState} (b : Bool) (x y : Association)
    → (b ≡ true → Step s c (get_state x))
    → (b ≡ false → Step s c (get_state y))
    → Step s c (get_state (if b then x else y))
if-Step true x y h k = h refl
if-Step false x y h k = k refl

-- The step at the end of a SACK, from the state at its start.
postprocess_sack-Step :
    (a : Association) (s : AssociationState) (awake : Bool) {d : ChunkSelectiveAck}
    → get_state a ≡ s
    → Step s (selective_ack d) (get_state (postprocess_sack a s awake))
unfolding postprocess_sack awake_write_loop set_state Shared.awake_write_loop Shared.set_state
postprocess_sack-Step a s awake e =
    if-Step (not (is_empty a.inflight_queue)) _ _
      (λ f. step_to (awake_if-IsStill awake (record a { t3rtx = start a.t3rtx }) ∙ e))
      (λ f.
        if-Step (state_eq s shutdown_pending) _ _
          (λ g. step_at (state_eq-eq s shutdown_pending g) all_acked)
          (λ g.
            if-Step (state_eq s shutdown_received) _ _
              (λ h. step_at (state_eq-eq s shutdown_received h) all_acked_of_peer)
              (λ h. step_to (awake_if-IsStill awake a ∙ e))))

and_then-Step :
    {c : Chunk} {A B : Type 0} (s : AssociationState) (r : Handled A)
    (f : Association → A → Handled B)
    → get_state r.0 ≡ s
    → ((b : Association) (x : A) → get_state b ≡ s → Step s c (get_state (f b x).0))
    → Step s c (get_state (and_then r f).0)
and_then-Step s (b, ok x) f h k = k b x h
and_then-Step s (b, err e) f h k = step_to h
and_then-Step s (b, panic) f h k = step_to h

choose :
    (b : Bool) (x y : Association) (s : AssociationState)
    → get_state x ≡ s
    → get_state y ≡ s
    → get_state (if b then x else y) ≡ s
choose true x y s h k = h
choose false x y s h k = k

apply_sack-Step :
    (s : AssociationState) (a : Association) (d : ChunkSelectiveAck) (x : Acked)
    → get_state a ≡ s
    → Step s (selective_ack d) (get_state (apply_sack s a d x).0)
unfolding apply_sack update_rwnd
apply_sack-Step s a d x e =
    let total : ℕ = total_map (λ j n. n) x.bytes_acked_per_stream in
    let advanced : Bool = sna32lt a.cumulative_tsn_ack_point d.cumulative_tsn_ack in
    let moved : Association = record a { cumulative_tsn_ack_point = d.cumulative_tsn_ack } in
    let b : Association =
      if advanced then on_cumulative_tsn_ack_point_advanced moved total else a in
    let same : get_state b ≡ s =
      choose advanced (on_cumulative_tsn_ack_point_advanced moved total) a s
        (on_cumulative_tsn_ack_point_advanced-IsStill moved total ∙ e) e in
    let c : Association =
      update_rwnd (record b { streams = release_buffers x.bytes_acked_per_stream b.streams })
        d.advertised_receiver_window_credit in
    and_then-Step s (process_fast_retransmission c d.cumulative_tsn_ack x.htna advanced) _
      (process_fast_retransmission-IsStill c d.cumulative_tsn_ack x.htna advanced ∙ same)
      (λ f y h.
        postprocess_sack-Step (forward_ack_point f) s advanced (forward_ack_point-IsStill f ∙ h))

handle_sack-Takes :
    (a : Association) (now : ℕ) (d : ChunkSelectiveAck)
    → Takes a (selective_ack d) (handle_sack a now d).0
unfolding handle_sack
handle_sack-Takes a now d =
    if-Takes
      (not (state_eq (get_state a) established)
        && not (state_eq (get_state a) shutdown_pending)
        && not (state_eq (get_state a) shutdown_received))
      a _ _ (λ e. stay (get_state a))
      (λ e.
        if-Takes (sna32gt a.cumulative_tsn_ack_point d.cumulative_tsn_ack) a _ _
          (λ f. stay (get_state a))
          (λ f.
            and_then-Step (get_state a) (process_selective_ack a now d) _
              (process_selective_ack-IsStill a now d)
              (λ b x h. apply_sack-Step (get_state a) b d x h)))

-- Every handler takes an edge of the state machine, or stays.
pub dispatch-Takes :
    (a : Association) (r : List ℕ) (now : ℕ) (p : Packet) (c : Chunk)
    → Takes a c (dispatch a r now p c).0
unfolding dispatch
dispatch-Takes a r now p (init i) =
    if-Takes i.is_ack a _ _ (λ e. handle_init_ack-Takes a p i e) (λ e. handle_init-Takes a r p i)
dispatch-Takes a r now p abort = stay (get_state a)
dispatch-Takes a r now p error = stay (get_state a)
dispatch-Takes a r now p (heartbeat ps) = step_to (handle_heartbeat-IsStill a ps)
dispatch-Takes a r now p (heartbeat_ack ps) = stay (get_state a)
dispatch-Takes a r now p (cookie_echo c) = handle_cookie_echo-Takes a c
dispatch-Takes a r now p cookie_ack = handle_cookie_ack-Takes a
dispatch-Takes a r now p (payload_data d) = step_to (handle_data-IsStill a d)
dispatch-Takes a r now p (selective_ack d) = handle_sack-Takes a now d
dispatch-Takes a r now p (reconfig c) = step_to (handle_reconfig-IsStill a c)
dispatch-Takes a r now p (forward_tsn c) = step_to (handle_forward_tsn-IsStill a c)
dispatch-Takes a r now p (shutdown c) = handle_shutdown-Takes a c
dispatch-Takes a r now p shutdown_ack = handle_shutdown_ack-Takes a
dispatch-Takes a r now p shutdown_complete = handle_shutdown_complete-Takes a

-- A run along a list of chunks: each chunk takes its own edge, in order, until the last one is handled
-- or an error leaves out the rest.
pub data Reaches : AssociationState → List Chunk → AssociationState → Type 0 where
  here : {cs : List Chunk} (s : AssociationState) → Reaches s cs s
  steps :
      {c : Chunk} {cs : List Chunk} {s t u : AssociationState}
      → Step s c t
      → Reaches t cs u
      → Reaches s (c ∷ cs) u

-- ===== src/Sctp/Association/Others.antt =====
-- SHUTDOWN COMPLETE, and the chunks of association_internal.rs that leave the state alone.
use webrtc_unreliable_client.Prelude.{
  ℕ, ◌+◌, ◌-◌, ◌%◌, ◌^◌, ◌≡◌, refl, ap, ◌∙◌, Bool, true, false, not, List, [], ◌∷◌, Option, none,
  some, arith,
}
use webrtc_unreliable_client.Prelude.Map.{map_values, insert}
use webrtc_unreliable_client.Sctp.Sna.{sna32lte}
use webrtc_unreliable_client.Sctp.Shared
use webrtc_unreliable_client.Sctp.Shared.{
  AssociationState, closed, cookie_wait, cookie_echoed, established, shutdown_ack_sent,
  shutdown_pending, shutdown_received, shutdown_sent, state_eq, state_as_u8,
}
use webrtc_unreliable_client.Sctp.Stream
use webrtc_unreliable_client.Sctp.Timer.{stop_rtx}
use webrtc_unreliable_client.Sctp.Chunk.ForwardTsn.{ChunkForwardTsn}
use webrtc_unreliable_client.Sctp.Packet.{
  shutdown_complete, Param, ChunkReconfig, state_cookie, supported_extensions,
  forward_tsn_supported, heartbeat_info, outgoing_reset_request, reconfig_response, other_param,
}
use webrtc_unreliable_client.Sctp.Association.{Association, get_state, set_state, awake_write_loop}
use webrtc_unreliable_client.Sctp.Association.Cookies.{handle_heartbeat}
use webrtc_unreliable_client.Sctp.Association.Shutdown.{
  handle_shutdown_complete, close, close_all_timers, keys,
}
use webrtc_unreliable_client.Sctp.Association.Frames.{
  unregister_all-IsRestreamed, reset_streams_if_any-IsRestreamed,
}
use webrtc_unreliable_client.Sctp.Association.Streams.{
  handle_reconfig, handle_reconfig_param, handle_optional_param, stop_if_answered,
}
use webrtc_unreliable_client.Sctp.Association.Receive.{handle_forward_tsn, skip_to}
use webrtc_unreliable_client.Sctp.Association.Still.{
  IsStill, and_then-IsStill, if-IsStill, acknowledge-IsStill, skip_to-IsStill,
}
use webrtc_unreliable_client.Sctp.Association.States.{
  stay, completed, Takes, step_at, if-Takes, state_eq-eq,
}

close-closed : (a : Association) → get_state (close a) ≡ closed
unfolding close close_all_timers set_state Shared.set_state
close-closed a = go (state_eq (get_state a) closed) refl
  where
    b : Association
    b = record (close_all_timers (set_state a closed)) { close_loop_ch = false }

    go : (c : Bool) → state_eq (get_state a) closed ≡ c → get_state (close a) ≡ closed
    go true e = rw e (state_eq-eq (get_state a) closed e)
    go false e = rw e (ap get_state (unregister_all-IsRestreamed (keys a.streams) b).same)

pub handle_shutdown_complete-Takes :
    (a : Association) → Takes a shutdown_complete (handle_shutdown_complete a).0
unfolding handle_shutdown_complete
handle_shutdown_complete-Takes a =
    if-Takes (state_eq (get_state a) shutdown_ack_sent) a _ _
      (λ e.
        let b : Association = record a { t2shutdown = stop_rtx a.t2shutdown } in
        rw (close-closed b) (step_at (state_eq-eq (get_state a) shutdown_ack_sent e) completed))
      (λ e. stay (get_state a))

pub handle_heartbeat-IsStill :
    (a : Association) (ps : List Param) → IsStill a (handle_heartbeat a ps).0
unfolding handle_heartbeat
handle_heartbeat-IsStill a [] = refl
handle_heartbeat-IsStill a (heartbeat_info bs ∷ ps) = refl
handle_heartbeat-IsStill a (state_cookie c ∷ ps) = refl
handle_heartbeat-IsStill a (supported_extensions t ∷ ps) = refl
handle_heartbeat-IsStill a (forward_tsn_supported ∷ ps) = refl
handle_heartbeat-IsStill a (outgoing_reset_request p ∷ ps) = refl
handle_heartbeat-IsStill a (reconfig_response p ∷ ps) = refl
handle_heartbeat-IsStill a (other_param ∷ ps) = refl

handle_reconfig_param-IsStill :
    (a : Association) (p : Param) → IsStill a (handle_reconfig_param a p).0
unfolding handle_reconfig_param stop_if_answered
handle_reconfig_param-IsStill a (outgoing_reset_request p) =
    ap get_state
      (reset_streams_if_any-IsRestreamed
        (record a {
          reconfig_requests = insert p.reconfig_request_sequence_number p a.reconfig_requests;
        })
        p).same
handle_reconfig_param-IsStill a (reconfig_response p) = ground arith
handle_reconfig_param-IsStill a (state_cookie c) = refl
handle_reconfig_param-IsStill a (supported_extensions t) = refl
handle_reconfig_param-IsStill a forward_tsn_supported = refl
handle_reconfig_param-IsStill a (heartbeat_info p) = refl
handle_reconfig_param-IsStill a other_param = refl

handle_optional_param-IsStill :
    (a : Association) (o : Option Param) → IsStill a (handle_optional_param a o).0
unfolding handle_optional_param
handle_optional_param-IsStill a none = refl
handle_optional_param-IsStill a (some p) = handle_reconfig_param-IsStill a p

pub handle_reconfig-IsStill :
    (a : Association) (c : ChunkReconfig) → IsStill a (handle_reconfig a c).0
unfolding handle_reconfig
handle_reconfig-IsStill a c =
    and_then-IsStill a (handle_optional_param a c.param_a) _
      (handle_optional_param-IsStill a c.param_a)
      (λ b x.
        and_then-IsStill b (handle_optional_param b c.param_b) _
          (handle_optional_param-IsStill b c.param_b) (λ d y. refl))

pub handle_forward_tsn-IsStill :
    (a : Association) (c : ChunkForwardTsn) → IsStill a (handle_forward_tsn a c).0
unfolding handle_forward_tsn awake_write_loop Shared.awake_write_loop
handle_forward_tsn-IsStill a c =
    let t : ℕ = c.new_cumulative_tsn in
    let b : Association = skip_to ((t + 2 ^ 32 - a.peer_last_tsn) % 2 ^ 32) a t in
    let d : Association = record b {
      streams = map_values (λ s. Stream.handle_forward_tsn_for_unordered s t) b.streams;
    } in
    if-IsStill (not a.use_forward_tsn) a _ _ refl (
      if-IsStill (sna32lte t a.peer_last_tsn) a _ _ refl (
        acknowledge-IsStill d false
        ∙ skip_to-IsStill ((t + 2 ^ 32 - a.peer_last_tsn) % 2 ^ 32) a t))

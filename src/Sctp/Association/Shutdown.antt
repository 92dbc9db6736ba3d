-- ===== src/Sctp/Association/Shutdown.antt =====
-- client/src/webrtc/crates/sctp/association/association_internal.rs: taking an association down.
use webrtc_unreliable_client.Prelude.{
  ℕ, true, false, not, ◌||◌, List, [], ◌∷◌, ◌++◌, none, some, map, if◌then◌else◌,
}
use webrtc_unreliable_client.Prelude.Map.{Map, lookup, remove}
use webrtc_unreliable_client.Wire.{ok}
use webrtc_unreliable_client.Sctp.Shared.{
  closed, established, shutdown_ack_sent, shutdown_received, shutdown_sent, state_eq,
}
use webrtc_unreliable_client.Sctp.Timer.{stop_rtx, stop_ack}
use webrtc_unreliable_client.Sctp.Queue.Payload.{is_empty}
use webrtc_unreliable_client.Sctp.Stream.{mark_closed}
use webrtc_unreliable_client.Sctp.Packet.{Packet}
use webrtc_unreliable_client.Sctp.Association.{
  Association, Handled, get_state, set_state, awake_write_loop,
}

unfoldable pub close_all_timers : Association → Association
close_all_timers a = record a {
  t1init = stop_rtx a.t1init;
  t1cookie = stop_rtx a.t1cookie;
  t2shutdown = stop_rtx a.t2shutdown;
  t3rtx = stop_rtx a.t3rtx;
  treconfig = stop_rtx a.treconfig;
  ack_timer = stop_ack a.ack_timer;
}

unfoldable pub unregister_stream : Association → ℕ → Association
unregister_stream a stream_identifier = elim (lookup stream_identifier a.streams) [
  | none ↦ a
  | some s ↦ record a {
    streams = remove stream_identifier a.streams;
    unregistered = a.unregistered ++ (mark_closed s ∷ []);
  }
]

unfoldable pub unregister_all : Association → List ℕ → Association
unfolding unregister_stream
unregister_all a [] = a
unregister_all a (si ∷ sis) = unregister_all (unregister_stream a si) sis

abbrev pub keys {ℓ} : {V : Type ℓ} → Map V → List ℕ
keys m = map (λ e. e.0) m

unfoldable pub close : Association → Association
unfolding state_eq close_all_timers unregister_all
close a =
    if state_eq (get_state a) closed
    then a
    else unregister_all (record (close_all_timers (set_state a closed)) { close_loop_ch = false })
        (keys a.streams)

abbrev pub send_shutdown_ack : Association → Association
send_shutdown_ack a =
    awake_write_loop (set_state (record a { will_send_shutdown_ack = true }) shutdown_ack_sent)

unfoldable pub handle_shutdown : Association → Handled (List Packet)
unfolding state_eq is_empty
handle_shutdown a =
    if state_eq (get_state a) established
    then (if not (is_empty a.inflight_queue)
        then (set_state a shutdown_received, ok [])
        else (send_shutdown_ack a, ok []))
    else if state_eq (get_state a) shutdown_sent
    then (send_shutdown_ack a, ok [])
    else (a, ok [])

unfoldable pub handle_shutdown_ack : Association → Handled (List Packet)
unfolding state_eq
handle_shutdown_ack a =
    if state_eq (get_state a) shutdown_sent || state_eq (get_state a) shutdown_ack_sent
    then (
      awake_write_loop
          (record a { t2shutdown = stop_rtx a.t2shutdown; will_send_shutdown_complete = true }),
      ok [],
    )
    else (a, ok [])

unfoldable pub handle_shutdown_complete : Association → Handled (List Packet)
unfolding state_eq close
handle_shutdown_complete a =
    if state_eq (get_state a) shutdown_ack_sent
    then (close (record a { t2shutdown = stop_rtx a.t2shutdown }), ok [])
    else (a, ok [])

-- ===== src/Sctp/Association/Reaches.antt =====
-- Every handler of association_internal.rs takes an edge of the state machine.
use webrtc_unreliable_client.Prelude.{
  ℕ, ◌≡◌, refl, Bool, true, false, not, List, Option, none, some, ◌==◌, ◌&&◌, ◌||◌,
}
use webrtc_unreliable_client.Sctp.Shared
use webrtc_unreliable_client.Sctp.Shared.{
  AssociationState, closed, cookie_wait, cookie_echoed, established, shutdown_ack_sent,
  shutdown_pending, shutdown_received, shutdown_sent, state_eq, state_as_u8,
}
use webrtc_unreliable_client.Sctp.Chunk.Control.{ChunkCookieEcho, ChunkShutdown}
use webrtc_unreliable_client.Sctp.Packet.{
  Packet, ChunkInit, init, cookie_echo, cookie_ack, shutdown, shutdown_ack,
}
use webrtc_unreliable_client.Sctp.Queue.Payload.{is_empty}
use webrtc_unreliable_client.Sctp.Association.{Association, get_state, set_state, awake_write_loop}
use webrtc_unreliable_client.Sctp.Association.Handshake.{
  handle_init, answer_init, note_peer, handle_init_ack, accept_init_ack, echo_cookie,
  send_cookie_echo, push_control, last_cookie,
}
use webrtc_unreliable_client.Sctp.Association.Cookies.{
  handle_cookie_echo, echo_in, accept_cookie, complete_handshake, handle_cookie_ack, holds_cookie,
}
use webrtc_unreliable_client.Sctp.Association.Shutdown.{handle_shutdown, handle_shutdown_ack}
use webrtc_unreliable_client.Sctp.Association.States.{
  stay, init_acked, cookie_accepted, cookies_crossed, echoes_crossed, cookie_acked, peer_shuts_down,
  peer_shuts_down_idle, shutdowns_crossed, Takes, step_at, if-Takes, state_eq-eq,
}

not-false : (b : Bool) → not b ≡ false → b ≡ true
not-false true h = refl
not-false false h = cc

pub handle_init-Takes :
    (a : Association) (r : List ℕ) (p : Packet) (i : ChunkInit)
    → Takes a (init i) (handle_init a r p i).0
unfolding handle_init answer_init note_peer
handle_init-Takes a r p i =
    if-Takes
      (not (state_eq (get_state a) closed)
        && not (state_eq (get_state a) cookie_wait)
        && not (state_eq (get_state a) cookie_echoed))
      a _ _ (λ e. stay (get_state a)) (λ e. stay (get_state a))

echo_cookie-Takes :
    (b : Association) (o : Option (List ℕ))
    → get_state b ≡ cookie_wait
    → {i : ChunkInit} → i.is_ack ≡ true
    → Takes b (init i) (echo_cookie b o).0
unfolding echo_cookie send_cookie_echo push_control awake_write_loop set_state
    Shared.awake_write_loop Shared.set_state
echo_cookie-Takes b none e k = stay (get_state b)
echo_cookie-Takes b (some c) e k = step_at e (init_acked k)

pub handle_init_ack-Takes :
    (a : Association) (p : Packet) (i : ChunkInit)
    → i.is_ack ≡ true
    → Takes a (init i) (handle_init_ack a p i).0
unfolding handle_init_ack note_peer accept_init_ack
handle_init_ack-Takes a p i k =
    if-Takes (not (state_eq (get_state a) cookie_wait)) a _ _ (λ e. stay (get_state a))
      (λ e.
        if-Takes
          (not (a.source_port == p.destination_port) || not (a.destination_port == p.source_port)) a
          _ _ (λ f. stay (get_state a))
          (λ f.
            echo_cookie-Takes _ (last_cookie i.params none)
              (state_eq-eq (get_state a) cookie_wait
                (not-false (state_eq (get_state a) cookie_wait) e))
              k))

echo_in-Takes :
    (s : AssociationState) (a : Association) {c : ChunkCookieEcho}
    → get_state a ≡ s
    → Takes a (cookie_echo c) (echo_in s a).0
unfolding echo_in accept_cookie complete_handshake set_state Shared.set_state
echo_in-Takes established a e = stay (get_state a)
echo_in-Takes closed a e = step_at e cookie_accepted
echo_in-Takes cookie_wait a e = step_at e cookies_crossed
echo_in-Takes cookie_echoed a e = step_at e echoes_crossed
echo_in-Takes shutdown_ack_sent a e = stay (get_state a)
echo_in-Takes shutdown_pending a e = stay (get_state a)
echo_in-Takes shutdown_received a e = stay (get_state a)
echo_in-Takes shutdown_sent a e = stay (get_state a)

pub handle_cookie_echo-Takes :
    (a : Association) (c : ChunkCookieEcho) → Takes a (cookie_echo c) (handle_cookie_echo a c).0
unfolding handle_cookie_echo
handle_cookie_echo-Takes a c =
    if-Takes (holds_cookie a.my_cookie c.cookie) a _ _ (λ e. echo_in-Takes (get_state a) a refl)
      (λ e. stay (get_state a))

pub handle_cookie_ack-Takes : (a : Association) → Takes a cookie_ack (handle_cookie_ack a).0
unfolding handle_cookie_ack complete_handshake set_state Shared.set_state
handle_cookie_ack-Takes a =
    if-Takes (not (state_eq (get_state a) cookie_echoed)) a _ _ (λ e. stay (get_state a))
      (λ e.
        step_at
          (state_eq-eq (get_state a) cookie_echoed
            (not-false (state_eq (get_state a) cookie_echoed) e))
          cookie_acked)

pub handle_shutdown-Takes :
    (a : Association) (d : ChunkShutdown) → Takes a (shutdown d) (handle_shutdown a).0
unfolding handle_shutdown set_state Shared.set_state awake_write_loop Shared.awake_write_loop
handle_shutdown-Takes a d =
    if-Takes (state_eq (get_state a) established) a _ _
      (λ e.
        if-Takes (not (is_empty a.inflight_queue)) a _ _
          (λ f. step_at (state_eq-eq (get_state a) established e) peer_shuts_down)
          (λ f. step_at (state_eq-eq (get_state a) established e) peer_shuts_down_idle))
      (λ e.
        if-Takes (state_eq (get_state a) shutdown_sent) a _ _
          (λ f. step_at (state_eq-eq (get_state a) shutdown_sent f) shutdowns_crossed)
          (λ f. stay (get_state a)))

pub handle_shutdown_ack-Takes : (a : Association) → Takes a shutdown_ack (handle_shutdown_ack a).0
unfolding handle_shutdown_ack awake_write_loop Shared.awake_write_loop
handle_shutdown_ack-Takes a =
    if-Takes (state_eq (get_state a) shutdown_sent || state_eq (get_state a) shutdown_ack_sent) a _
      _ (λ e. stay (get_state a)) (λ e. stay (get_state a))

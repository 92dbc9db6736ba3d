-- ===== src/Sctp/Association/Timeouts.antt =====
-- client/src/webrtc/crates/sctp/association/association_internal.rs: what the timers tell an
-- association.
use webrtc_unreliable_client.Prelude.{
  ℕ, zero, suc, ◌*◌, ◌/◌, true, [], ◌∷◌, ◌++◌, none, some, length, if◌then◌else◌, max,
}
use webrtc_unreliable_client.Prelude.Words.{add32}
use webrtc_unreliable_client.Sctp.Sna.{sna32gt}
use webrtc_unreliable_client.Sctp.Error.{handshake_init_ack, handshake_cookie_echo}
use webrtc_unreliable_client.Sctp.Shared.{shutdown_ack_sent, shutdown_sent}
use webrtc_unreliable_client.Sctp.Chunk.PayloadData.{is_abandoned}
use webrtc_unreliable_client.Sctp.Queue.Payload.{get, mark_all_to_retransmit}
use webrtc_unreliable_client.Sctp.Association.{
  Association, RtxTimerId, t1_init, t1_cookie, t2_shutdown, t3_rtx, reconfig_timer, get_state,
  awake_write_loop, immediate,
}
use webrtc_unreliable_client.Sctp.Association.Handshake.{send_init, send_cookie_echo}

-- `while let Some(c) = self.inflight_queue.get(i)`, on fuel: the acknowledgement point passes the
-- abandoned chunks behind it.
unfoldable pub pass_abandoned : Association → ℕ → ℕ → Association
pass_abandoned a zero i = a
pass_abandoned a (suc n) i =
    let rest = pass_abandoned (record a { advanced_peer_tsn_ack_point = i }) n (add32 i 1) in
    elim (get a.inflight_queue i) [
      | none ↦ a
      | some c ↦ if is_abandoned a.shared.flags c then rest else a
    ]

-- The last rules of RFC 3758 3.5, as `handle_sack` and the T3 timeout run them. A chunk in flight is passed
-- once, so the number of them is fuel enough.
unfoldable pub advance_peer_ack_point : Association → Association
unfolding pass_abandoned
advance_peer_ack_point a =
    let b =
      pass_abandoned a (length a.inflight_queue.chunk_map)
        (add32 a.advanced_peer_tsn_ack_point 1) in
    if sna32gt b.advanced_peer_tsn_ack_point b.cumulative_tsn_ack_point
    then record b { will_send_forward_tsn = true }
    else b

unfoldable pub t3_timeout : Association → Association
unfolding advance_peer_ack_point mark_all_to_retransmit
t3_timeout a =
    let b = record a { ssthresh = max (a.cwnd / 2) (4 * a.mtu); cwnd = a.mtu } in
    let c = if b.use_forward_tsn then advance_peer_ack_point b else b in
    awake_write_loop
      (record c { inflight_queue = mark_all_to_retransmit c.shared.flags c.inflight_queue })

unfoldable pub on_retransmission_timeout : Association → RtxTimerId → Association
unfolding t3_timeout
on_retransmission_timeout a t1_init = (send_init a).0
on_retransmission_timeout a t1_cookie = (send_cookie_echo a).0
on_retransmission_timeout a t2_shutdown = elim (get_state a) [
  | shutdown_sent ↦ awake_write_loop (record a { will_send_shutdown = true })
  | shutdown_ack_sent ↦ awake_write_loop (record a { will_send_shutdown_ack = true })
  | _ ↦ a
]
on_retransmission_timeout a t3_rtx = t3_timeout a
on_retransmission_timeout a reconfig_timer =
    awake_write_loop (record a { will_retransmit_reconfig = true })

unfoldable pub on_retransmission_failure : Association → RtxTimerId → Association
on_retransmission_failure a t1_init = record a {
  handshake_completed = a.handshake_completed ++ (some handshake_init_ack ∷ []);
}
on_retransmission_failure a t1_cookie = record a {
  handshake_completed = a.handshake_completed ++ (some handshake_cookie_echo ∷ []);
}
on_retransmission_failure a id = a

unfoldable pub on_ack_timeout : Association → Association
on_ack_timeout a = awake_write_loop (record a { ack_state = immediate })

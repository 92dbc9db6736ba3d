-- ===== src/Sctp/Association/Dispatch.antt =====
-- client/src/webrtc/crates/sctp/association/association_internal.rs: an inbound packet goes to the
-- handlers of its chunks, and `gather_outbound` collects what is to be sent. A packet that comes in
-- has been read by `Packet::unmarshal`, and one that goes out is not serialised here.
use webrtc_unreliable_client.Prelude.{
  ℕ, ◌-◌, ◌+◌, ◌^◌, ◌%◌, Bool, true, false, not, ◌||◌, List, [], ◌∷◌, ◌++◌, some, none, map,
  if◌then◌else◌,
}
use webrtc_unreliable_client.Prelude.Map.{insert}
use webrtc_unreliable_client.Wire.{Outcome, ok, err}
use webrtc_unreliable_client.Sctp.Error.{Error, err_chunk, chunk_type_unhandled}
use webrtc_unreliable_client.Sctp.Sna.{sna32gt}
use webrtc_unreliable_client.Sctp.Shared.{
  established, shutdown_pending, shutdown_sent, shutdown_received, shutdown_ack_sent,
}
use webrtc_unreliable_client.Sctp.Packet.{
  Packet, Chunk, ChunkReconfig, init, abort, error, heartbeat, heartbeat_ack, cookie_echo,
  cookie_ack, payload_data, selective_ack, reconfig, forward_tsn, shutdown, shutdown_ack,
  shutdown_complete, outgoing_reset_request, check, check_packet,
}
use webrtc_unreliable_client.Sctp.Association.{
  Association, Handled, and_then, get_state, awake_write_loop, create_packet, generate_next_rsn,
  start, idle,
}
use webrtc_unreliable_client.Sctp.Association.Handshake.{handle_init, handle_init_ack}
use webrtc_unreliable_client.Sctp.Association.Cookies.{
  handle_heartbeat, handle_cookie_echo, handle_cookie_ack,
}
use webrtc_unreliable_client.Sctp.Association.Shutdown.{
  handle_shutdown, handle_shutdown_ack, handle_shutdown_complete,
}
use webrtc_unreliable_client.Sctp.Association.Streams.{handle_reconfig}
use webrtc_unreliable_client.Sctp.Association.Receive.{
  handle_data, handle_forward_tsn, handle_chunk_start, handle_chunk_end, create_selective_ack_chunk,
  is_immediate, values,
}
use webrtc_unreliable_client.Sctp.Association.Send.{
  Popped, pop_pending_data_chunks_to_send, bundle_data_chunks_into_packets, has_none,
}
use webrtc_unreliable_client.Sctp.Association.Resend.{
  get_data_packets_to_retransmit, gather_outbound_fast_retransmission_packets, create_forward_tsn,
}
use webrtc_unreliable_client.Sctp.Association.Congestion.{handle_sack}

-- The handler of a chunk, with fresh bytes for a cookie and the time.
unfoldable pub dispatch : Association → List ℕ → ℕ → Packet → Chunk → Handled (List Packet)
unfolding handle_init handle_init_ack handle_heartbeat handle_cookie_echo handle_cookie_ack
    handle_data handle_sack handle_reconfig handle_forward_tsn handle_shutdown handle_shutdown_ack
    handle_shutdown_complete
dispatch a random_cookie now p (init i) =
    if i.is_ack then handle_init_ack a p i else handle_init a random_cookie p i
dispatch a random_cookie now p abort = (a, err err_chunk)
dispatch a random_cookie now p error = (a, err err_chunk)
dispatch a random_cookie now p (heartbeat ps) = handle_heartbeat a ps
dispatch a random_cookie now p (cookie_echo c) = handle_cookie_echo a c
dispatch a random_cookie now p cookie_ack = handle_cookie_ack a
dispatch a random_cookie now p (payload_data d) = handle_data a d
dispatch a random_cookie now p (selective_ack d) = handle_sack a now d
dispatch a random_cookie now p (reconfig c) = handle_reconfig a c
dispatch a random_cookie now p (forward_tsn c) = handle_forward_tsn a c
dispatch a random_cookie now p (shutdown c) = handle_shutdown a
dispatch a random_cookie now p shutdown_ack = handle_shutdown_ack a
dispatch a random_cookie now p shutdown_complete = handle_shutdown_complete a
dispatch a random_cookie now p (heartbeat_ack ps) = (a, err chunk_type_unhandled)

-- The replies join the control queue.
unfoldable pub queue_replies : Association → List Packet → Association
queue_replies a [] = a
queue_replies a (p ∷ ps) =
    awake_write_loop (record a { control_queue = a.control_queue ++ (p ∷ ps) })

unfoldable pub handle_chunk : Association → List ℕ → ℕ → Packet → Chunk → Handled (Unit {0})
unfolding check dispatch queue_replies
handle_chunk a random_cookie now p c =
    and_then (a, check c)
      (λ b _.
        and_then (dispatch b random_cookie now p c) (λ d replies. (queue_replies d replies, ok tt)))

unfoldable pub handle_chunks : Association → List ℕ → ℕ → Packet → List Chunk → Handled (Unit {0})
unfolding handle_chunk
handle_chunks a random_cookie now p [] = (a, ok tt)
handle_chunks a random_cookie now p (c ∷ cs) =
    and_then (handle_chunk a random_cookie now p c) (λ b _. handle_chunks b random_cookie now p cs)

abbrev pub handle_checked :
    Outcome Error (Unit {0}) → Association → List ℕ → ℕ → Packet → Handled (Unit {0})
handle_checked (ok _) a random_cookie now p =
    and_then (handle_chunks (handle_chunk_start a) random_cookie now p p.chunks)
      (λ b _. (handle_chunk_end b, ok tt))
handle_checked r a random_cookie now p = (a, ok tt)

-- `handle_inbound` behind `Packet::unmarshal`: a packet that fails its checks is dropped.
unfoldable pub handle_inbound : Association → List ℕ → ℕ → Packet → Handled (Unit {0})
unfolding check_packet handle_chunks handle_chunk_start handle_chunk_end
handle_inbound a random_cookie now p = handle_checked (check_packet p) a random_cookie now p

abbrev pub Gathered : Type 0
Gathered = Association × List Packet

unfoldable pub gather_data_packets_to_retransmit : Gathered → Gathered
unfolding get_data_packets_to_retransmit
gather_data_packets_to_retransmit (a, raw) =
    let (b, packets) = get_data_packets_to_retransmit a in (b, raw ++ packets)

unfoldable pub gather_retransmitted_reconfigs : Gathered → Gathered
unfolding create_packet
gather_retransmitted_reconfigs (a, raw) =
    if a.will_retransmit_reconfig
    then (
      record a { will_retransmit_reconfig = false },
      raw ++ map (λ c. create_packet a (reconfig c ∷ [])) (values a.reconfigs),
    )
    else (a, raw)

unfoldable pub gather_reset : Gathered → List ℕ → Gathered
unfolding generate_next_rsn create_packet
gather_reset (a, raw) [] = (a, raw)
gather_reset (a, raw) (si ∷ sis) =
    let (b, rsn) = generate_next_rsn a in
    let c : ChunkReconfig = record {
      param_a = some (
          outgoing_reset_request (record {
            reconfig_request_sequence_number = rsn;
            sender_last_tsn = (a.my_next_tsn + 2 ^ 32 - 1) % 2 ^ 32;
            stream_identifiers = si ∷ sis;
          }));
      param_b = none;
    } in
    let d = record b { reconfigs = insert rsn c b.reconfigs } in
    (d, raw ++ (create_packet d (reconfig c ∷ []) ∷ []))

unfoldable pub start_if_asked : Gathered → Gathered
start_if_asked (a, raw) = elim a.reconfigs [
  | [] ↦ (a, raw)
  | _ ∷ _ ↦ (record a { treconfig = start a.treconfig }, raw)
]

abbrev is_nil : List ℕ → Bool
is_nil [] = true
is_nil (n ∷ ns) = false

-- The DATA packets, then the requests to reset streams.
unfoldable pub gather_popped : Popped → List Packet → Gathered
unfolding gather_retransmitted_reconfigs gather_reset start_if_asked has_none
    bundle_data_chunks_into_packets
gather_popped (a, chunks, sis) raw =
    let sent =
      if has_none chunks
      then (a, raw)
      else (record a { t3rtx = start a.t3rtx }, raw ++ bundle_data_chunks_into_packets a chunks) in
    if not (is_nil sis) || sent.0.will_retransmit_reconfig
    then start_if_asked (gather_reset (gather_retransmitted_reconfigs sent) sis)
    else sent

unfoldable pub gather_outbound_data_and_reconfig_packets : ℕ → Gathered → Gathered
unfolding gather_popped pop_pending_data_chunks_to_send
gather_outbound_data_and_reconfig_packets now (a, raw) =
    gather_popped (pop_pending_data_chunks_to_send a now) raw

unfoldable pub gather_fast : Gathered → Gathered
unfolding gather_outbound_fast_retransmission_packets
gather_fast (a, raw) = gather_outbound_fast_retransmission_packets a raw

unfoldable pub gather_outbound_sack_packets : Gathered → Gathered
unfolding is_immediate create_selective_ack_chunk create_packet
gather_outbound_sack_packets (a, raw) =
    let (b, sack) = create_selective_ack_chunk (record a { ack_state = idle }) in
    if is_immediate a.ack_state
    then (b, raw ++ (create_packet b (selective_ack sack ∷ []) ∷ []))
    else (a, raw)

unfoldable pub gather_outbound_forward_tsn_packets : Gathered → Gathered
unfolding create_forward_tsn create_packet
gather_outbound_forward_tsn_packets (a, raw) =
    let b = record a { will_send_forward_tsn = false } in
    if not a.will_send_forward_tsn
    then (a, raw)
    else if sna32gt a.advanced_peer_tsn_ack_point a.cumulative_tsn_ack_point
    then (b, raw ++ (create_packet b (forward_tsn (create_forward_tsn b) ∷ []) ∷ []))
    else (b, raw)

-- The Boolean is false if the association ends after the packets.
unfoldable pub gather_outbound_shutdown_packets : Gathered → Gathered × Bool
unfolding create_packet
gather_outbound_shutdown_packets (a, raw) =
    if a.will_send_shutdown
    then (
      (
        record a { will_send_shutdown = false; t2shutdown = start a.t2shutdown },
        raw
            ++ (create_packet a
                  (shutdown (record { cumulative_tsn_ack = a.cumulative_tsn_ack_point }) ∷ [])
                ∷ []),
      ),
      true,
    )
    else if a.will_send_shutdown_ack
    then (
      (
        record a { will_send_shutdown_ack = false; t2shutdown = start a.t2shutdown },
        raw ++ (create_packet a (shutdown_ack ∷ []) ∷ []),
      ),
      true,
    )
    else if a.will_send_shutdown_complete
    then (
      (
        record a { will_send_shutdown_complete = false },
        raw ++ (create_packet a (shutdown_complete ∷ []) ∷ []),
      ),
      false,
    )
    else ((a, raw), true)

unfoldable pub gather_outbound : Association → ℕ → Gathered × Bool
unfolding gather_data_packets_to_retransmit gather_outbound_data_and_reconfig_packets gather_fast
    gather_outbound_sack_packets gather_outbound_forward_tsn_packets
    gather_outbound_shutdown_packets
gather_outbound a now =
    let drained : Gathered = (record a { control_queue = [] }, a.control_queue) in
    let closing =
      gather_outbound_shutdown_packets
        (gather_outbound_sack_packets (gather_fast (gather_data_packets_to_retransmit drained))) in
    elim (get_state a) [
      | established ↦ (
        gather_outbound_forward_tsn_packets (
            gather_outbound_sack_packets (
              gather_fast (
                gather_outbound_data_and_reconfig_packets now
                  (gather_data_packets_to_retransmit drained)))),
        true,
      )
      | shutdown_pending ↦ closing
      | shutdown_sent ↦ closing
      | shutdown_received ↦ closing
      | shutdown_ack_sent ↦ gather_outbound_shutdown_packets drained
      | _ ↦ (drained, true)
    ]

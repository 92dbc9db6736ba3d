-- ===== src/Sctp/Association/Receive.antt =====
-- client/src/webrtc/crates/sctp/association/association_internal.rs: DATA and FORWARD TSN, and the
-- acknowledgement of what arrived.
use webrtc_unreliable_client.Prelude.{
  ℕ, zero, suc, ◌+◌, ◌-◌, ◌%◌, ◌^◌, Bool, true, false, not, ◌&&◌, ◌||◌, List, [], ◌∷◌, ◌++◌, Option,
  none, some, length, map, if◌then◌else◌, ltb,
}
use webrtc_unreliable_client.Prelude.Words.{add32}
use webrtc_unreliable_client.Prelude.Map.{Map, update, map_values}
use webrtc_unreliable_client.Wire.{ok}
use webrtc_unreliable_client.Sctp.Sna.{sna32lt, sna32lte}
use webrtc_unreliable_client.Sctp.Stream.{Stream}
use webrtc_unreliable_client.Sctp.Stream
use webrtc_unreliable_client.Sctp.Timer.{start_ack, stop_ack}
use webrtc_unreliable_client.Sctp.Chunk.PayloadData.{ChunkPayloadData}
use webrtc_unreliable_client.Sctp.Chunk.SelectiveAck.{ChunkSelectiveAck}
use webrtc_unreliable_client.Sctp.Chunk.ForwardTsn.{ChunkForwardTsn}
use webrtc_unreliable_client.Sctp.Queue.Payload.{PayloadQueue, is_empty}
use webrtc_unreliable_client.Sctp.Queue.Payload
use webrtc_unreliable_client.Sctp.Packet.{Packet, ParamOutgoingResetRequest, error}
use webrtc_unreliable_client.Sctp.Association.{
  Association, Handled, AckState, AckMode, idle, immediate, delay, normal, always_delay,
  create_packet, awake_write_loop,
}
use webrtc_unreliable_client.Sctp.Association.Streams.{
  get_my_receiver_window_credit, get_or_create_stream, reset_streams_if_any,
}

abbrev pub values {ℓ} : {V : Type ℓ} → Map V → List V
values m = map (λ e. e.1) m

-- The pending requests are tried again, with the replies behind those before.
unfoldable pub retry_resets :
    Association → List Packet → List ParamOutgoingResetRequest → Association × List Packet
unfolding reset_streams_if_any
retry_resets a reply [] = (a, reply)
retry_resets a reply (p ∷ ps) =
    let (b, resp) = reset_streams_if_any a p in retry_resets b (reply ++ (resp ∷ [])) ps

-- The body of the loop, after the next chunk left the queue.
unfoldable pub advance_once : Association → List Packet → PayloadQueue → Association × List Packet
unfolding retry_resets
advance_once a reply q =
    let b = record a { payload_queue = q; peer_last_tsn = add32 a.peer_last_tsn 1 } in
    retry_resets b reply (values b.reconfig_requests)

-- A round of the loop, with the result of `pop(self.peer_last_tsn + 1)`: whether there is another.
unfoldable pub advance_popped :
    Association
    → List Packet
    → PayloadQueue × Option ChunkPayloadData
    → Association × List Packet × Bool
unfolding advance_once
advance_popped a reply (q, none) = (record a { payload_queue = q }, reply, false)
advance_popped a reply (q, some c) = let (b, reply') = advance_once a reply q in (b, reply', true)

-- `while self.payload_queue.pop(self.peer_last_tsn + 1).is_some()`, on fuel.
unfoldable pub advance_peer_last_tsn : ℕ → Association → List Packet → Association × List Packet
unfolding advance_popped
advance_peer_last_tsn zero a reply = (a, reply)
advance_peer_last_tsn (suc n) a reply =
    let (b, reply', more) =
      advance_popped a reply (Payload.pop a.payload_queue (add32 a.peer_last_tsn 1)) in
    let rest = advance_peer_last_tsn n b reply' in if more then rest else (b, reply')

unfoldable pub is_normal : AckMode → Bool
is_normal normal = true
is_normal always_delay = false

unfoldable pub is_immediate : AckState → Bool
is_immediate immediate = true
is_immediate s = false

unfoldable pub is_idle : AckState → Bool
is_idle idle = true
is_idle s = false

-- Whether an acknowledgement goes out at once or is delayed.
unfoldable pub trigger_ack : Association → Bool → Association
unfolding is_empty is_normal is_immediate is_idle
trigger_ack a sack_immediately =
    let has_packet_loss = not (is_empty a.payload_queue) in
    if (not (is_immediate a.ack_state)
        && not sack_immediately
        && not has_packet_loss
        && is_normal a.ack_mode)
      || not (is_normal a.ack_mode)
    then (if is_idle a.ack_state
        then record a { delayed_ack_triggered = true }
        else record a { immediate_ack_triggered = true })
    else record a { immediate_ack_triggered = true }

-- Every chunk that is popped leaves `sorted`, so its length is fuel enough.
unfoldable pub handle_peer_last_tsn_and_acknowledgement : Association → Bool → Handled (List Packet)
unfolding advance_peer_last_tsn trigger_ack
handle_peer_last_tsn_and_acknowledgement a sack_immediately =
    let (b, reply) = advance_peer_last_tsn (length a.payload_queue.sorted) a [] in
    (trigger_ack b sack_immediately, ok reply)

-- The chunk joins the received ones and goes to its stream.
unfoldable pub accept_data : Association → ChunkPayloadData → Association
accept_data a d = record a {
  payload_queue = (Payload.push a.payload_queue d a.peer_last_tsn).0;
  streams = update d.stream_identifier (λ s. Stream.handle_data s d) a.streams;
}

-- With no room left, a chunk is still taken in front of the last one received.
unfoldable pub receive_data : Association → ChunkPayloadData → Association
unfolding accept_data get_my_receiver_window_credit
receive_data a d =
    if ltb 0 (get_my_receiver_window_credit a)
    then accept_data a d
    else elim (Payload.get_last_tsn_received a.payload_queue) [
      | some last_tsn ↦ if sna32lt d.tsn last_tsn then accept_data a d else a
      | none ↦ a
    ]

-- `handle_data` behind `get_or_create_stream`: without a stream the chunk is discarded.
unfoldable pub data_of_stream :
    ChunkPayloadData → Association × Option Stream → Handled (List Packet)
unfolding receive_data handle_peer_last_tsn_and_acknowledgement
data_of_stream d (a, none) = (a, ok [])
data_of_stream d (a, some s) =
    handle_peer_last_tsn_and_acknowledgement (receive_data a d) d.immediate_sack

unfoldable pub handle_data : Association → ChunkPayloadData → Handled (List Packet)
unfolding data_of_stream get_or_create_stream handle_peer_last_tsn_and_acknowledgement
handle_data a d =
    if Payload.can_push a.payload_queue d a.peer_last_tsn
    then data_of_stream d (get_or_create_stream a d.stream_identifier)
    else handle_peer_last_tsn_and_acknowledgement a d.immediate_sack

-- `while sna32lt(self.peer_last_tsn, c.new_cumulative_tsn)`, on fuel.
unfoldable pub skip_to : ℕ → Association → ℕ → Association
skip_to zero a new_cumulative_tsn = a
skip_to (suc n) a new_cumulative_tsn =
    let next = add32 a.peer_last_tsn 1 in
    let rest =
      skip_to n
        (record a { payload_queue = (Payload.pop a.payload_queue next).0; peer_last_tsn = next })
        new_cumulative_tsn in
    if sna32lt a.peer_last_tsn new_cumulative_tsn then rest else a

abbrev acknowledge_now : Association → Association
acknowledge_now a =
    awake_write_loop (record a { ack_state = immediate; ack_timer = stop_ack a.ack_timer })

-- The skip takes as many rounds as the new point lies ahead.
unfoldable pub handle_forward_tsn : Association → ChunkForwardTsn → Handled (List Packet)
unfolding skip_to handle_peer_last_tsn_and_acknowledgement create_packet
handle_forward_tsn a c =
    if not a.use_forward_tsn
    then (a, ok (create_packet a (error ∷ []) ∷ []))
    else if sna32lte c.new_cumulative_tsn a.peer_last_tsn
    then (acknowledge_now a, ok [])
    else (let b =
          skip_to ((c.new_cumulative_tsn + 2 ^ 32 - a.peer_last_tsn) % 2 ^ 32) a
            c.new_cumulative_tsn in
        handle_peer_last_tsn_and_acknowledgement
          (record b {
            streams =
                map_values (λ s. Stream.handle_forward_tsn_for_unordered s c.new_cumulative_tsn)
                  b.streams;
          })
          false)

unfoldable pub create_selective_ack_chunk : Association → Association × ChunkSelectiveAck
unfolding get_my_receiver_window_credit
create_selective_ack_chunk a =
    let (q, duplicates) = Payload.pop_duplicates a.payload_queue in
    (
      record a { payload_queue = q },
      record {
        cumulative_tsn_ack = a.peer_last_tsn;
        advertised_receiver_window_credit = get_my_receiver_window_credit a;
        gap_ack_blocks = Payload.get_gap_ack_blocks a.payload_queue a.peer_last_tsn;
        duplicate_tsn = duplicates;
      },
    )

unfoldable pub handle_chunk_start : Association → Association
handle_chunk_start a = record a { delayed_ack_triggered = false; immediate_ack_triggered = false }

unfoldable pub handle_chunk_end : Association → Association
handle_chunk_end a =
    if a.immediate_ack_triggered
    then acknowledge_now a
    else if a.delayed_ack_triggered
    then record a { ack_state = delay; ack_timer = (start_ack a.ack_timer).0 }
    else a

-- ===== src/Sctp/Association/Send.antt =====
-- client/src/webrtc/crates/sctp/association/association_internal.rs: new DATA chunks, from the pending
-- queue to packets.
use webrtc_unreliable_client.Prelude.{
  ℕ, zero, suc, ◌+◌, ◌-◌, Bool, true, false, not, List, [], ◌∷◌, ◌++◌, Option, none, some, length,
  map, if◌then◌else◌, ◌==◌, ltb, ◌&&◌,
}
use webrtc_unreliable_client.Prelude.Words.{add_size, add32}
use webrtc_unreliable_client.Prelude.Map.{contains_key}
use webrtc_unreliable_client.Sctp.Chunk.PayloadData.{
  ChunkPayloadData, ppi_as_u32, dcep, Flags, set_abandoned, set_all_inflight,
}
use webrtc_unreliable_client.Sctp.Queue.Pending.{PendingQueue}
use webrtc_unreliable_client.Sctp.Queue.Pending
use webrtc_unreliable_client.Sctp.Queue.Payload.{push_no_check, is_empty, get_num_bytes}
use webrtc_unreliable_client.Sctp.Packet.{Packet, payload_data}
use webrtc_unreliable_client.Sctp.Association.{
  Association, create_packet, generate_next_tsn, common_header_size, data_chunk_header_size,
}

abbrev pub with_flags : Association → Flags → Association
with_flags a flags = record a { shared = record a.shared { flags = flags } }

abbrev pub with_pending : Association → PendingQueue → Association
with_pending a q = record a { shared = record a.shared { pending_queue = q } }

unfoldable pub check_partial_reliability_status : Association → ChunkPayloadData → Association
unfolding ppi_as_u32 set_abandoned
check_partial_reliability_status a c =
    if not a.use_forward_tsn
    then a
    else if ppi_as_u32 c.payload_type == ppi_as_u32 dcep
    then a
    else if contains_key c.stream_identifier a.streams
    then with_flags a (set_abandoned a.shared.flags c true)
    else a

-- What happens to the chunk that was popped, at the time `now`.
unfoldable pub send_chunk : Association → ℕ → ChunkPayloadData → Association × ChunkPayloadData
unfolding set_all_inflight generate_next_tsn check_partial_reliability_status push_no_check
send_chunk a now c =
    let flags = if c.ending_fragment then set_all_inflight a.shared.flags c else a.shared.flags in
    let (b, tsn) = generate_next_tsn (with_flags a flags) in
    let c' = record c { tsn = tsn; since = now; nsent = 1 } in
    let d = check_partial_reliability_status b c' in
    (record d { inflight_queue = push_no_check d.inflight_queue c' }, c')

unfoldable pub send_popped :
    Association → ℕ → PendingQueue × Option ChunkPayloadData → Association × List ChunkPayloadData
unfolding send_chunk
send_popped a now (q, none) = (with_pending a q, [])
send_popped a now (q, some c) = let (b, c') = send_chunk (with_pending a q) now c in (b, c' ∷ [])

-- The chunk that is moved, as a list of at most one.
unfoldable pub move_pending_data_chunk_to_inflight_queue :
    Association → ℕ → Bool → Bool → Association × List ChunkPayloadData
unfolding send_popped
move_pending_data_chunk_to_inflight_queue a now beginning_fragment unordered =
    send_popped a now (Pending.pop a.shared.pending_queue beginning_fragment unordered)

-- The association, the chunks to send and the streams to reset.
abbrev pub Popped : Type 0
Popped = Association × List ChunkPayloadData × List ℕ

unfoldable pub move_front : Popped → ℕ → ChunkPayloadData → Popped
unfolding move_pending_data_chunk_to_inflight_queue
move_front (a, chunks, sis) now c =
    let (b, moved) =
      move_pending_data_chunk_to_inflight_queue a now c.beginning_fragment c.unordered in
    (b, chunks ++ moved, sis)

-- A round of the loop with the chunk that `peek` shows: whether there is another.
unfoldable pub pop_round : Popped → ℕ → ChunkPayloadData → Popped × Bool
unfolding move_front get_num_bytes
pop_round (a, chunks, sis) now c =
    if length c.user_data == 0
    then (
      (
        with_pending a (Pending.pop a.shared.pending_queue c.beginning_fragment c.unordered).0,
        chunks,
        sis ++ (c.stream_identifier ∷ []),
      ),
      true,
    )
    else if ltb a.cwnd (add_size (get_num_bytes a.inflight_queue) (length c.user_data))
    then ((a, chunks, sis), false)
    else if ltb a.rwnd (length c.user_data)
    then ((a, chunks, sis), false)
    else (move_front (record a { rwnd = a.rwnd - length c.user_data }, chunks, sis) now c, true)

unfoldable pub peek_round : Popped → ℕ → Option ChunkPayloadData → Popped × Bool
unfolding pop_round
peek_round s now none = (s, false)
peek_round s now (some c) = pop_round s now c

-- `while let Some(c) = self.pending_queue.peek()`, on fuel.
unfoldable pub pop_loop : ℕ → ℕ → Popped → Popped
unfolding peek_round
pop_loop zero now s = s
pop_loop (suc n) now s =
    let (s', more) = peek_round s now (Pending.peek s.0.shared.pending_queue) in
    let rest = pop_loop n now s' in if more then rest else s'

-- The probe of a window that is closed: one chunk, if none is in flight.
unfoldable pub probe : Popped → ℕ → Option ChunkPayloadData → Popped
unfolding move_front
probe s now none = s
probe s now (some c) = move_front s now c

unfoldable pub has_none : List ChunkPayloadData → Bool
has_none [] = true
has_none (c ∷ cs) = false

unfoldable pub probe_if_idle : Popped → ℕ → Popped
unfolding probe has_none is_empty
probe_if_idle s now =
    if has_none s.1 && is_empty s.0.inflight_queue
    then probe s now (Pending.peek s.0.shared.pending_queue)
    else s

-- Every round but the last takes a chunk off the pending queue.
unfoldable pub pop_pending_data_chunks_to_send : Association → ℕ → Popped
unfolding pop_loop probe_if_idle
pop_pending_data_chunks_to_send a now =
    if Pending.len a.shared.pending_queue == 0
    then (a, [], [])
    else probe_if_idle (pop_loop (Pending.len a.shared.pending_queue) now (a, [], [])) now

-- The loop of `bundle_data_chunks_into_packets`, with the chunks of the open packet and its size.
unfoldable pub bundle :
    Association → List ChunkPayloadData → ℕ → List ChunkPayloadData → List (List ChunkPayloadData)
bundle a chunks_to_send bytes_in_packet [] =
    if has_none chunks_to_send then [] else chunks_to_send ∷ []
bundle a chunks_to_send bytes_in_packet (c ∷ cs) =
    let full = ltb a.mtu (add32 bytes_in_packet (length c.user_data)) in
    let rest =
      bundle a (if full then c ∷ [] else chunks_to_send ++ (c ∷ []))
        (add32 (if full then common_header_size else bytes_in_packet)
          (data_chunk_header_size + length c.user_data))
        cs in
    if full then chunks_to_send ∷ rest else rest

unfoldable pub bundle_data_chunks_into_packets : Association → List ChunkPayloadData → List Packet
unfolding bundle create_packet
bundle_data_chunks_into_packets a chunks =
    map (λ cs. create_packet a (map payload_data cs)) (bundle a [] common_header_size chunks)

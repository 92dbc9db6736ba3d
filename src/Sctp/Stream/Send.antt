-- ===== src/Sctp/Stream/Send.antt =====
-- client/src/webrtc/crates/sctp/stream/mod.rs: the sending side of a stream. The `Arc`s it shares
-- with the association are the argument `h`; the clock's reading is `now`.
use webrtc_unreliable_client.Prelude.{
  ℕ, zero, suc, ◌+◌, ◌-◌, Bool, true, false, not, List, [], ◌∷◌, length, if◌then◌else◌, ◌==◌, ltb,
  min, take, drop,
}
use webrtc_unreliable_client.Prelude.Words.{add16, add_size}
use webrtc_unreliable_client.Wire.{Outcome, ok, err}
use webrtc_unreliable_client.Sctp.Error.{
  Error, outbound_packet_too_large, stream_closed, payload_data_state_not_exist,
  reset_packet_in_state_not_exist,
}
use webrtc_unreliable_client.Sctp.Shared.{
  Shared, AssociationState, shutdown_sent, shutdown_ack_sent, shutdown_pending, shutdown_received,
  established, state_eq, awake_write_loop, new_flag,
}
use webrtc_unreliable_client.Sctp.Chunk.PayloadData.{
  ChunkPayloadData, PayloadProtocolIdentifier, ppi_as_u32, dcep, default_chunk, FlagRef,
}
use webrtc_unreliable_client.Sctp.Queue.Pending
use webrtc_unreliable_client.Sctp.Stream.{Stream, mark_closed}

-- The `while` loop of `packetize`, on fuel: a round for each fragment.
unfoldable pub fragments :
    Stream
    → PayloadProtocolIdentifier
    → ℕ
    → FlagRef
    → FlagRef
    → List ℕ
    → ℕ
    → ℕ
    → ℕ
    → List ChunkPayloadData
unfolding default_chunk ppi_as_u32
fragments s ppi now head_abandoned head_all_inflight raw zero i remaining = []
fragments s ppi now head_abandoned head_all_inflight raw (suc n) i remaining =
    let fragment_size = min s.max_payload_size remaining in
    let rest =
      fragments s ppi now head_abandoned head_all_inflight raw n (i + fragment_size)
        (remaining - fragment_size) in
    if remaining == 0
    then []
    else (record (default_chunk now head_abandoned head_all_inflight) {
      stream_identifier = s.stream_identifier;
      user_data = take fragment_size (drop i raw);
      unordered = not (ppi_as_u32 ppi == ppi_as_u32 dcep);
      beginning_fragment = i == 0;
      ending_fragment = remaining - fragment_size == 0;
      immediate_sack = false;
      payload_type = ppi;
      stream_sequence_number = s.sequence_number;
    }
        ∷ rest)

-- The counters at the end of `packetize`.
unfoldable pub count_message : PayloadProtocolIdentifier → List ℕ → Stream → Stream
unfolding ppi_as_u32
count_message ppi raw s = record s {
  sequence_number =
      if ppi_as_u32 ppi == ppi_as_u32 dcep then add16 s.sequence_number 1 else s.sequence_number;
  buffered_amount = add_size s.buffered_amount (length raw);
}

unfoldable pub packetize :
    Stream
    → Shared
    → ℕ
    → List ℕ
    → PayloadProtocolIdentifier
    → Stream × Shared × List ChunkPayloadData
unfolding fragments count_message new_flag
packetize s h now raw ppi =
    let (h1, head_abandoned) = new_flag h in
    let (h2, head_all_inflight) = new_flag h1 in
    (
      count_message ppi raw s,
      h2,
      fragments s ppi now head_abandoned head_all_inflight raw (length raw) 0 (length raw),
    )

unfoldable pub push_all : Pending.PendingQueue → List ChunkPayloadData → Pending.PendingQueue
push_all q [] = q
push_all q (c ∷ cs) = push_all (Pending.push q c) cs

-- The pushes of a write. No lock is held from one to the next: `among` is what other tasks push in
-- front of the first chunk, of the second, and so on, and nothing where it ends.
unfoldable pub push_among :
    Pending.PendingQueue
    → List ChunkPayloadData
    → List (List ChunkPayloadData)
    → Pending.PendingQueue
unfolding push_all
push_among q [] among = q
push_among q (c ∷ cs) [] = push_among (Pending.push q c) cs []
push_among q (c ∷ cs) (others ∷ among) = push_among (Pending.push (push_all q others) c) cs among

unfoldable pub send_payload_data :
    Shared
    → List ChunkPayloadData
    → List (List ChunkPayloadData)
    → Shared × Outcome Error (Unit {0})
unfolding push_among state_eq awake_write_loop
send_payload_data h chunks among =
    if not (state_eq h.state established) then (h, err payload_data_state_not_exist) else (
      awake_write_loop (record h { pending_queue = push_among h.pending_queue chunks among }),
      ok tt,
    )

-- What `write_sctp` returns after `send_payload_data`.
unfoldable pub written :
    Stream → ℕ → Shared × Outcome Error (Unit {0}) → Stream × Shared × Outcome Error ℕ
written s n (h, ok _) = (s, h, ok n)
written s n (h, err e) = (s, h, err e)
written s n (h, Outcome.panic) = (s, h, Outcome.panic)

unfoldable pub send_message :
    List ℕ
    → Stream × Shared × List ChunkPayloadData
    → List (List ChunkPayloadData)
    → Stream × Shared × Outcome Error ℕ
unfolding written send_payload_data
send_message p (s, h, chunks) among = written s (length p) (send_payload_data h chunks among)

unfoldable pub is_shutting_down : AssociationState → Bool
is_shutting_down shutdown_sent = true
is_shutting_down shutdown_ack_sent = true
is_shutting_down shutdown_pending = true
is_shutting_down shutdown_received = true
is_shutting_down s = false

unfoldable pub write_sctp :
    Stream
    → Shared
    → ℕ
    → List ℕ
    → PayloadProtocolIdentifier
    → List (List ChunkPayloadData)
    → Stream × Shared × Outcome Error ℕ
unfolding is_shutting_down send_message packetize
write_sctp s h now p ppi among =
    if ltb h.max_message_size (length p)
    then (s, h, err outbound_packet_too_large)
    else if is_shutting_down h.state
    then (s, h, err stream_closed)
    else send_message p (packetize s h now p ppi) among

unfoldable pub send_reset_request : Shared → ℕ → ℕ → Shared × Outcome Error (Unit {0})
unfolding state_eq awake_write_loop default_chunk new_flag
send_reset_request h now stream_identifier =
    if not (state_eq h.state established)
    then (h, err reset_packet_in_state_not_exist)
    else (let (h1, a) = new_flag h in
        let (h2, b) = new_flag h1 in
        let c = record (default_chunk now a b) {
          stream_identifier = stream_identifier;
          beginning_fragment = true;
          ending_fragment = true;
        } in
        (awake_write_loop (record h2 { pending_queue = Pending.push h2.pending_queue c }), ok tt))

unfoldable pub closed_after :
    Stream → Shared × Outcome Error (Unit {0}) → Stream × Shared × Outcome Error (Unit {0})
closed_after s (h, ok _) = (mark_closed s, h, ok tt)
closed_after s (h, err e) = (s, h, err e)
closed_after s (h, Outcome.panic) = (s, h, Outcome.panic)

unfoldable pub close : Stream → Shared → ℕ → Stream × Shared × Outcome Error (Unit {0})
unfolding closed_after send_reset_request
close s h now =
    if s.closed
    then (mark_closed s, h, ok tt)
    else closed_after s (send_reset_request h now s.stream_identifier)

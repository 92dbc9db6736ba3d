-- ===== src/Sctp/Association/Resend.antt =====
-- client/src/webrtc/crates/sctp/association/association_internal.rs: chunks that are sent again, and
-- what `gather_outbound` puts together. Packets are not serialised here.
use webrtc_unreliable_client.Prelude.{
  ℕ, zero, suc, Bool, true, false, not, ◌||◌, ◌&&◌, List, [], ◌∷◌, ◌++◌, Option, none, some, length,
  map, if◌then◌else◌, ◌==◌, ltb, min,
}
use webrtc_unreliable_client.Prelude.Words.{add32, add_size}
use webrtc_unreliable_client.Prelude.Map.{Map, lookup, insert, update}
use webrtc_unreliable_client.Sctp.Sna.{sna32lte, sna16lt}
use webrtc_unreliable_client.Sctp.Chunk.PayloadData.{ChunkPayloadData, is_abandoned}
use webrtc_unreliable_client.Sctp.Chunk.ForwardTsn.{ChunkForwardTsn}
use webrtc_unreliable_client.Sctp.Queue.Payload.{PayloadQueue, get}
use webrtc_unreliable_client.Sctp.Packet.{Packet, payload_data}
use webrtc_unreliable_client.Sctp.Association.{
  Association, create_packet, common_header_size, data_chunk_header_size,
}
use webrtc_unreliable_client.Sctp.Association.Send.{
  bundle_data_chunks_into_packets, check_partial_reliability_status, has_none,
}

-- `get_mut` and writes through it
abbrev pub modify : PayloadQueue → ℕ → (ChunkPayloadData → ChunkPayloadData) → PayloadQueue
modify q tsn f = record q { chunk_map = update tsn f q.chunk_map }

-- Sends the chunk again: it is written, read again and put behind the others.
abbrev again :
    Association → ℕ → (ChunkPayloadData → ChunkPayloadData) → ChunkPayloadData → Association
again a tsn f c =
    check_partial_reliability_status (record a { inflight_queue = modify a.inflight_queue tsn f })
      (f c)

abbrev resent : ChunkPayloadData → ChunkPayloadData
resent c = record c { retransmit = false; nsent = add32 c.nsent 1 }

-- The state of the loop: the chunks so far, their bytes, and the position.
pub record Resending : Type 0 where
  pub association : Association
  pub chunks : List ChunkPayloadData
  pub bytes_to_send : ℕ
  pub i : ℕ

abbrev resend : Resending → ℕ → ChunkPayloadData → Resending
resend s tsn c = record {
  association = again s.association tsn resent c;
  chunks = s.chunks ++ (resent c ∷ []);
  bytes_to_send = add_size s.bytes_to_send (length c.user_data);
  i = add32 s.i 1;
}

-- A round of `get_data_packets_to_retransmit` with the chunk at the position: whether there is
-- another. The first chunk in flight is sent into a window that is closed.
unfoldable pub retransmit_round : ℕ → Resending → ℕ → Option ChunkPayloadData → Resending × Bool
unfolding check_partial_reliability_status
retransmit_round awnd s tsn none = (s, false)
retransmit_round awnd s tsn (some c) =
    if not c.retransmit
    then (record s { i = add32 s.i 1 }, true)
    else if s.i == 0 && ltb s.association.rwnd (length c.user_data)
    then (resend s tsn c, false)
    else if ltb awnd (add_size s.bytes_to_send (length c.user_data))
    then (s, false)
    else (resend s tsn c, true)

abbrev tsn_at : Association → ℕ → ℕ
tsn_at a i = add32 (add32 a.cumulative_tsn_ack_point i) 1

unfoldable pub retransmit_loop : ℕ → ℕ → Resending → Resending
unfolding retransmit_round
retransmit_loop zero awnd s = s
retransmit_loop (suc n) awnd s =
    let tsn = tsn_at s.association s.i in
    let (s', more) = retransmit_round awnd s tsn (get s.association.inflight_queue tsn) in
    let rest = retransmit_loop n awnd s' in if more then rest else s'

-- A TSN is visited once, and the loop ends at the first that is not in flight: the number of chunks
-- in flight, and a round to see the end, are fuel enough.
unfoldable pub get_data_packets_to_retransmit : Association → Association × List Packet
unfolding retransmit_loop bundle_data_chunks_into_packets
get_data_packets_to_retransmit a =
    let s =
      retransmit_loop (suc (length a.inflight_queue.chunk_map)) (min a.cwnd a.rwnd)
        (record { association = a; chunks = []; bytes_to_send = 0; i = 0 }) in
    (s.association, bundle_data_chunks_into_packets s.association s.chunks)

abbrev sent_once_more : ChunkPayloadData → ChunkPayloadData
sent_once_more c = record c { nsent = add32 c.nsent 1 }

-- A round of `gather_outbound_fast_retransmission_packets`; `bytes_to_send` is the packet's size.
unfoldable pub fast_round : Resending → ℕ → Option ChunkPayloadData → Resending × Bool
unfolding is_abandoned check_partial_reliability_status
fast_round s tsn none = (s, false)
fast_round s tsn (some c) =
    let size = add32 data_chunk_header_size (length c.user_data) in
    if c.acked
      || is_abandoned s.association.shared.flags c
      || ltb 1 c.nsent
      || ltb c.miss_indicator 3
    then (record s { i = add32 s.i 1 }, true)
    else if ltb s.association.mtu (add32 s.bytes_to_send size)
    then (s, false)
    else (
      record {
        association = again s.association tsn sent_once_more c;
        chunks = s.chunks ++ (sent_once_more c ∷ []);
        bytes_to_send = add32 s.bytes_to_send size;
        i = add32 s.i 1;
      },
      true,
    )

unfoldable pub fast_loop : ℕ → Resending → Resending
unfolding fast_round
fast_loop zero s = s
fast_loop (suc n) s =
    let tsn = tsn_at s.association s.i in
    let (s', more) = fast_round s tsn (get s.association.inflight_queue tsn) in
    let rest = fast_loop n s' in if more then rest else s'

unfoldable pub gather_outbound_fast_retransmission_packets :
    Association → List Packet → Association × List Packet
unfolding fast_loop has_none create_packet
gather_outbound_fast_retransmission_packets a packets =
    let s = fast_loop (suc (length a.inflight_queue.chunk_map)) (record {
      association = record a { will_retransmit_fast = false };
      chunks = [];
      bytes_to_send = common_header_size;
      i = 0;
    }) in
    if not a.will_retransmit_fast
    then (a, packets)
    else if has_none s.chunks
    then (s.association, packets)
    else (s.association, packets ++ (create_packet s.association (map payload_data s.chunks) ∷ []))

-- The streams of the chunks that are skipped, each with its greatest sequence number.
unfoldable pub report_stream : Map ℕ → ChunkPayloadData → Map ℕ
report_stream m c = elim (lookup c.stream_identifier m) [
  | none ↦ insert c.stream_identifier c.stream_sequence_number m
  | some ssn ↦
      if sna16lt ssn c.stream_sequence_number
      then insert c.stream_identifier c.stream_sequence_number m
      else m
]

unfoldable pub report_loop : ℕ → Association → Map ℕ → ℕ → Map ℕ
unfolding report_stream
report_loop zero a m i = m
report_loop (suc n) a m i = elim (get a.inflight_queue i) [
  | none ↦ m
  | some c ↦
      let rest = report_loop n a (report_stream m c) (add32 i 1) in
      if sna32lte i a.advanced_peer_tsn_ack_point then rest else m
]

unfoldable pub create_forward_tsn : Association → ChunkForwardTsn
unfolding report_loop
create_forward_tsn a = record {
  new_cumulative_tsn = a.advanced_peer_tsn_ack_point;
  streams =
      map (λ e. record { identifier = e.0; sequence = e.1 })
        (report_loop (suc (length a.inflight_queue.chunk_map)) a []
          (add32 a.cumulative_tsn_ack_point 1));
}

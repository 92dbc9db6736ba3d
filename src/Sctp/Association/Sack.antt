-- ===== src/Sctp/Association/Sack.antt =====
-- client/src/webrtc/crates/sctp/association/association_internal.rs: what a SACK acknowledges.
use webrtc_unreliable_client.Prelude.{
  ℕ, zero, suc, ◌+◌, ◌-◌, ◌%◌, ◌^◌, Bool, false, ◌&&◌, List, [], ◌∷◌, Option, none, some, length,
  if◌then◌else◌, ◌==◌, ltb,
}
use webrtc_unreliable_client.Prelude.Words.{add32}
use webrtc_unreliable_client.Prelude.Map.{Map, lookup, insert}
use webrtc_unreliable_client.Wire.{ok, err}
use webrtc_unreliable_client.Sctp.Error.{
  inflight_queue_tsn_pop, tsn_request_not_exist, invalid_system_time,
}
use webrtc_unreliable_client.Sctp.Sna.{sna32lt, sna32lte, sna32gte}
use webrtc_unreliable_client.Sctp.Timer.{stop_rtx}
use webrtc_unreliable_client.Sctp.Chunk.PayloadData.{ChunkPayloadData}
use webrtc_unreliable_client.Sctp.Chunk.GapAck.{GapAckBlock}
use webrtc_unreliable_client.Sctp.Chunk.SelectiveAck.{ChunkSelectiveAck}
use webrtc_unreliable_client.Sctp.Queue.Payload.{PayloadQueue, get, mark_as_acked}
use webrtc_unreliable_client.Sctp.Queue.Payload
use webrtc_unreliable_client.Sctp.Association.{Association, Handled, and_then}

-- `get_mut` and an addition, or an insertion
unfoldable pub add_bytes : Map ℕ → ℕ → ℕ → Map ℕ
add_bytes m stream_identifier n = elim (lookup stream_identifier m) [
  | some amount ↦ insert stream_identifier (amount + n) m
  | none ↦ insert stream_identifier n m
]

-- A round trip is measured with a chunk that was sent once; a clock that went back is an error.
unfoldable pub measure_rtt : Association → ℕ → ChunkPayloadData → Handled (Unit {0})
measure_rtt a now c =
    let b = record a { min_tsn2measure_rtt = a.my_next_tsn } in
    if ltb now c.since
    then (b, err invalid_system_time)
    else (record b { rto_mgr = (now - c.since) ∷ b.rto_mgr }, ok tt)

unfoldable pub measure_if : Bool → Association → ℕ → ChunkPayloadData → Handled (Unit {0})
unfolding measure_rtt
measure_if b a now c = if b then measure_rtt a now c else (a, ok tt)

unfoldable pub leave_fast_recovery : Association → ChunkPayloadData → Association
leave_fast_recovery a c =
    if a.in_fast_recovery && c.tsn == a.fast_recover_exit_point
    then record a { in_fast_recovery = false }
    else a

-- The body of the first loop, for the chunk that was popped at `i`.
unfoldable pub ack_chunk : Association → ℕ → ℕ → Map ℕ → ChunkPayloadData → Handled (Map ℕ)
unfolding measure_if leave_fast_recovery add_bytes
ack_chunk a now i m c =
    if c.acked
    then (leave_fast_recovery a c, ok m)
    else (let b =
          if i == add32 a.cumulative_tsn_ack_point 1
          then record a { t3rtx = stop_rtx a.t3rtx }
          else a in
        and_then (measure_if (c.nsent == 1 && sna32gte c.tsn b.min_tsn2measure_rtt) b now c) (λ d _.
          (leave_fast_recovery d c, ok (add_bytes m c.stream_identifier (length c.user_data)))))

-- A round of the first loop, with the result of `self.inflight_queue.pop(i)`.
unfoldable pub ack_popped :
    Association → ℕ → ℕ → Map ℕ → PayloadQueue × Option ChunkPayloadData → Handled (Map ℕ)
unfolding ack_chunk
ack_popped a now i m (q, none) = (record a { inflight_queue = q }, err inflight_queue_tsn_pop)
ack_popped a now i m (q, some c) = ack_chunk (record a { inflight_queue = q }) now i m c

-- `while sna32lte(i, d.cumulative_tsn_ack)`, on fuel.
unfoldable pub ack_loop : ℕ → Association → ℕ → ℕ → Map ℕ → ℕ → Handled (Map ℕ)
unfolding ack_popped
ack_loop zero a now i m cumulative_tsn_ack = (a, ok m)
ack_loop (suc n) a now i m cumulative_tsn_ack =
    let next =
      and_then (ack_popped a now i m (Payload.pop a.inflight_queue i))
        (λ b m'. ack_loop n b now (add32 i 1) m' cumulative_tsn_ack) in
    if sna32lte i cumulative_tsn_ack then next else (a, ok m)

-- What both loops gather: the bytes acknowledged per stream, and the highest TSN newly acknowledged.
pub record Acked : Type 0 where
  pub bytes_acked_per_stream : Map ℕ
  pub htna : ℕ

-- A TSN that a gap ack block names, with the chunk in flight.
unfoldable pub ack_gap : Association → ℕ → ℕ → Acked → Option ChunkPayloadData → Handled Acked
unfolding measure_if add_bytes
ack_gap a now tsn s none = (a, err tsn_request_not_exist)
ack_gap a now tsn s (some c) =
    if c.acked
    then (a, ok s)
    else (let (q, n_bytes_acked) = mark_as_acked a.inflight_queue tsn in
        and_then (measure_if (c.nsent == 1) (record a { inflight_queue = q }) now c) (λ b _. (
          b,
          ok (record {
            bytes_acked_per_stream =
                add_bytes s.bytes_acked_per_stream c.stream_identifier n_bytes_acked;
            htna = if sna32lt s.htna tsn then tsn else s.htna;
          }),
        )))

-- `count` offsets from `i` on.
unfoldable pub ack_range : ℕ → Association → ℕ → ℕ → ℕ → Acked → Handled Acked
unfolding ack_gap
ack_range zero a now cum i s = (a, ok s)
ack_range (suc count) a now cum i s =
    and_then (ack_gap a now (add32 cum i) s (get a.inflight_queue (add32 cum i)))
      (λ b s'. ack_range count b now cum (i + 1) s')

-- `g.start..=g.end` of each block; it is empty if the end is below the start.
unfoldable pub ack_blocks : List GapAckBlock → Association → ℕ → ℕ → Acked → Handled Acked
unfolding ack_range
ack_blocks [] a now cum s = (a, ok s)
ack_blocks (g ∷ gs) a now cum s =
    and_then (ack_range (g.end + 1 - g.start) a now cum g.start s)
      (λ b s'. ack_blocks gs b now cum s')

-- The first loop takes a round for every TSN that the new point lies ahead.
unfoldable pub process_selective_ack : Association → ℕ → ChunkSelectiveAck → Handled Acked
unfolding ack_loop ack_blocks
process_selective_ack a now d =
    and_then
      (ack_loop ((d.cumulative_tsn_ack + 2 ^ 32 - a.cumulative_tsn_ack_point) % 2 ^ 32) a now
        (add32 a.cumulative_tsn_ack_point 1) [] d.cumulative_tsn_ack)
      (λ b m.
        ack_blocks d.gap_ack_blocks b now d.cumulative_tsn_ack
          (record { bytes_acked_per_stream = m; htna = d.cumulative_tsn_ack }))

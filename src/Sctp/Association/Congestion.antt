-- ===== src/Sctp/Association/Congestion.antt =====
-- client/src/webrtc/crates/sctp/association/association_internal.rs: congestion control, and the
-- handling of a SACK.
use webrtc_unreliable_client.Prelude.{
  ℕ, zero, suc, ◌+◌, ◌-◌, ◌*◌, ◌/◌, ◌%◌, ◌^◌, Bool, true, not, ◌&&◌, ◌||◌, List, [], ◌∷◌, none,
  some, length, if◌then◌else◌, ◌==◌, ltb, leb, min, max,
}
use webrtc_unreliable_client.Prelude.Words.{add32}
use webrtc_unreliable_client.Prelude.Map.{Map, update, total_map}
use webrtc_unreliable_client.Wire.{ok, err}
use webrtc_unreliable_client.Sctp.Error.{tsn_request_not_exist}
use webrtc_unreliable_client.Sctp.Sna.{sna32lt, sna32gt}
use webrtc_unreliable_client.Sctp.Timer.{stop_rtx}
use webrtc_unreliable_client.Sctp.Shared.{
  AssociationState, established, shutdown_pending, shutdown_received, shutdown_sent,
  shutdown_ack_sent, state_eq,
}
use webrtc_unreliable_client.Sctp.Stream
use webrtc_unreliable_client.Sctp.Stream.{Stream}
use webrtc_unreliable_client.Sctp.Chunk.PayloadData.{ChunkPayloadData, is_abandoned}
use webrtc_unreliable_client.Sctp.Chunk.SelectiveAck.{ChunkSelectiveAck}
use webrtc_unreliable_client.Sctp.Queue.Pending
use webrtc_unreliable_client.Sctp.Queue.Payload.{get, is_empty, get_num_bytes}
use webrtc_unreliable_client.Sctp.Packet.{Packet}
use webrtc_unreliable_client.Sctp.Association.{
  Association, Handled, and_then, get_state, set_state, awake_write_loop, start,
}
use webrtc_unreliable_client.Sctp.Association.Timeouts.{advance_peer_ack_point}
use webrtc_unreliable_client.Sctp.Association.Resend.{modify}
use webrtc_unreliable_client.Sctp.Association.Sack.{Acked, process_selective_ack}

-- The congestion window after a SACK that moves the acknowledgement point.
unfoldable pub grow_cwnd : Association → ℕ → Association
grow_cwnd a total_bytes_acked =
    let has_pending = ltb 0 (Pending.len a.shared.pending_queue) in
    let acked = add32 a.partial_bytes_acked (total_bytes_acked % 2 ^ 32) in
    if leb a.cwnd a.ssthresh
    then (if not a.in_fast_recovery && has_pending
        then record a { cwnd = add32 a.cwnd (min (total_bytes_acked % 2 ^ 32) a.cwnd) }
        else a)
    else if leb a.cwnd acked && has_pending
    then record a { partial_bytes_acked = acked - a.cwnd; cwnd = add32 a.cwnd a.mtu }
    else record a { partial_bytes_acked = acked }

unfoldable pub on_cumulative_tsn_ack_point_advanced : Association → ℕ → Association
unfolding is_empty grow_cwnd
on_cumulative_tsn_ack_point_advanced a total_bytes_acked =
    grow_cwnd
      (record a { t3rtx = if is_empty a.inflight_queue then stop_rtx a.t3rtx else start a.t3rtx })
      total_bytes_acked

abbrev missed : ChunkPayloadData → ChunkPayloadData
missed c = record c { miss_indicator = add32 c.miss_indicator 1 }

unfoldable pub enter_fast_recovery : Association → ℕ → Association
enter_fast_recovery a htna =
    let half = max (a.cwnd / 2) (4 * a.mtu) in
    record a {
      in_fast_recovery = true;
      fast_recover_exit_point = htna;
      ssthresh = half;
      cwnd = half;
      partial_bytes_acked = 0;
      will_retransmit_fast = true;
    }

-- A chunk that the SACK reports missing.
unfoldable pub miss_chunk : Association → ℕ → ℕ → ChunkPayloadData → Association
unfolding is_abandoned enter_fast_recovery
miss_chunk a htna tsn c =
    let b = record a { inflight_queue = modify a.inflight_queue tsn missed } in
    if not c.acked && not (is_abandoned a.shared.flags c) && ltb c.miss_indicator 3
    then (if c.miss_indicator + 1 == 3 && not a.in_fast_recovery
        then enter_fast_recovery b htna
        else b)
    else a

-- `while sna32lt(tsn, max_tsn)`, on fuel.
unfoldable pub miss_loop : ℕ → Association → ℕ → ℕ → ℕ → Handled (Unit {0})
unfolding miss_chunk
miss_loop zero a htna tsn max_tsn = (a, ok tt)
miss_loop (suc n) a htna tsn max_tsn =
    if not (sna32lt tsn max_tsn) then (a, ok tt) else elim (get a.inflight_queue tsn) [
      | none ↦ (a, err tsn_request_not_exist)
      | some c ↦ miss_loop n (miss_chunk a htna tsn c) htna (add32 tsn 1) max_tsn
    ]

-- The loop takes a round for every TSN up to the greatest.
unfoldable pub process_fast_retransmission : Association → ℕ → ℕ → Bool → Handled (Unit {0})
unfolding miss_loop
process_fast_retransmission a cum_tsn_ack_point htna advanced =
    let max_tsn =
      if not a.in_fast_recovery
      then htna
      else add32 (add32 cum_tsn_ack_point (length a.inflight_queue.chunk_map)) 1 in
    and_then
      (if not a.in_fast_recovery || advanced
        then miss_loop ((max_tsn + 2 ^ 32 - cum_tsn_ack_point) % 2 ^ 32) a htna
            (add32 cum_tsn_ack_point 1) max_tsn
        else (a, ok tt))
      (λ b _. (
        if b.in_fast_recovery && advanced then record b { will_retransmit_fast = true } else b,
        ok tt,
      ))

unfoldable pub postprocess_sack : Association → AssociationState → Bool → Association
unfolding is_empty state_eq
postprocess_sack a state should_awake_write_loop =
    let awake : Association → Association =
      λ b. if should_awake_write_loop then awake_write_loop b else b in
    if not (is_empty a.inflight_queue)
    then awake (record a { t3rtx = start a.t3rtx })
    else if state_eq state shutdown_pending
    then awake_write_loop (set_state (record a { will_send_shutdown = true }) shutdown_sent)
    else if state_eq state shutdown_received
    then awake_write_loop (set_state (record a { will_send_shutdown_ack = true }) shutdown_ack_sent)
    else awake a

-- `self.streams.get_mut(si)` and `on_buffer_released`, for each stream with acknowledged bytes.
unfoldable pub release_buffers : Map ℕ → Map Stream → Map Stream
release_buffers [] streams = streams
release_buffers ((si, n) ∷ m) streams =
    release_buffers m (update si (λ s. Stream.on_buffer_released s n) streams)

-- The receive window of the peer, less what is still in flight.
unfoldable pub update_rwnd : Association → ℕ → Association
unfolding get_num_bytes
update_rwnd a credit =
    let bytes_outstanding = get_num_bytes a.inflight_queue % 2 ^ 32 in
    record a { rwnd = if leb credit bytes_outstanding then 0 else credit - bytes_outstanding }

-- The rules of RFC 3758 3.5 that follow a SACK.
unfoldable pub forward_ack_point : Association → Association
unfolding advance_peer_ack_point
forward_ack_point a =
    if a.use_forward_tsn
    then awake_write_loop (
        advance_peer_ack_point (
          if sna32lt a.advanced_peer_tsn_ack_point a.cumulative_tsn_ack_point
          then record a { advanced_peer_tsn_ack_point = a.cumulative_tsn_ack_point }
          else a))
    else a

-- `handle_sack` behind `process_selective_ack`.
unfoldable pub apply_sack :
    AssociationState → Association → ChunkSelectiveAck → Acked → Handled (List Packet)
unfolding on_cumulative_tsn_ack_point_advanced update_rwnd process_fast_retransmission
    forward_ack_point postprocess_sack release_buffers
apply_sack state a d s =
    let total_bytes_acked = total_map (λ _ n. n) s.bytes_acked_per_stream in
    let advanced = sna32lt a.cumulative_tsn_ack_point d.cumulative_tsn_ack in
    let b =
      if advanced
      then on_cumulative_tsn_ack_point_advanced
          (record a { cumulative_tsn_ack_point = d.cumulative_tsn_ack }) total_bytes_acked
      else a in
    let c =
      update_rwnd (record b { streams = release_buffers s.bytes_acked_per_stream b.streams })
        d.advertised_receiver_window_credit in
    and_then (process_fast_retransmission c d.cumulative_tsn_ack s.htna advanced)
      (λ e _. (postprocess_sack (forward_ack_point e) state advanced, ok []))

unfoldable pub handle_sack : Association → ℕ → ChunkSelectiveAck → Handled (List Packet)
unfolding state_eq process_selective_ack apply_sack
handle_sack a now d =
    let state = get_state a in
    if not (state_eq state established)
      && not (state_eq state shutdown_pending)
      && not (state_eq state shutdown_received)
    then (a, ok [])
    else if sna32gt a.cumulative_tsn_ack_point d.cumulative_tsn_ack
    then (a, ok [])
    else and_then (process_selective_ack a now d) (λ b s. apply_sack state b d s)

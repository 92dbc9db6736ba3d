-- ===== src/Sctp/Stream.antt =====
-- client/src/webrtc/crates/sctp/stream/mod.rs: a stream of an association and its receiving side. `read_sctp` is one round of
-- its loop, which waits for `read_notifier` where the round gives nothing.
pub mod Send
pub mod Packets
pub mod Writes
pub mod Interleaved
use webrtc_unreliable_client.Prelude.{
  ℕ, zero, suc, ◌+◌, ◌-◌, Bool, true, false, not, ◌&&◌, List, [], ◌∷◌, Option, none, some, length,
  if◌then◌else◌, ◌==◌, leb, ltb, min, take, drop,
}
use webrtc_unreliable_client.Prelude.Words.{add16, add_size}
use webrtc_unreliable_client.Wire.{Outcome, ok, err}
use webrtc_unreliable_client.Sctp.Error.{
  Error, outbound_packet_too_large, stream_closed, payload_data_state_not_exist,
  reset_packet_in_state_not_exist,
}
use webrtc_unreliable_client.Sctp.Shared.{
  Shared, AssociationState, shutdown_sent, shutdown_ack_sent, shutdown_pending, shutdown_received,
  established, state_eq, awake_write_loop, new_flag,
}
use webrtc_unreliable_client.Sctp.Chunk.PayloadData.{
  ChunkPayloadData, PayloadProtocolIdentifier, ppi_as_u32, dcep, default_chunk, FlagRef,
}
use webrtc_unreliable_client.Sctp.Queue.Pending
use webrtc_unreliable_client.Sctp.Queue.Reassembly
use webrtc_unreliable_client.Sctp.Queue.Reassembly.{
  ReassemblyQueue, is_readable, ReadResult, short_buffer, try_again,
}

-- `read_notifier` says that a wake-up is stored for the reader, `on_buffered_amount_low` that a
-- handler is set, and `low_calls` counts the calls of it.
pub record Stream : Type 0 where
  pub max_payload_size : ℕ
  pub stream_identifier : ℕ
  pub reassembly_queue : ReassemblyQueue
  pub sequence_number : ℕ
  pub read_notifier : Bool
  pub closed : Bool
  pub buffered_amount : ℕ
  pub buffered_amount_low : ℕ
  pub on_buffered_amount_low : Bool
  pub low_calls : ℕ

unfoldable pub new : ℕ → ℕ → Stream
unfolding Reassembly.new
new stream_identifier max_payload_size = record {
  max_payload_size = max_payload_size;
  stream_identifier = stream_identifier;
  reassembly_queue = Reassembly.new stream_identifier;
  sequence_number = 0;
  read_notifier = false;
  closed = false;
  buffered_amount = 0;
  buffered_amount_low = 0;
  on_buffered_amount_low = false;
  low_calls = 0;
}

unfoldable pub notify_if : Bool → Stream → Stream
notify_if readable s = if readable then record s { read_notifier = true } else s

-- What follows the push: the reader is told if the push completed a message that can be read.
unfoldable pub after_push : Stream → ReassemblyQueue × Bool → Stream
unfolding notify_if is_readable
after_push s (q, complete) =
    notify_if (complete && is_readable q) (record s { reassembly_queue = q })

unfoldable pub handle_data : Stream → ChunkPayloadData → Stream
unfolding after_push
handle_data s pd = after_push s (Reassembly.push s.reassembly_queue pd)

unfoldable pub handle_forward_tsn_for_unordered : Stream → ℕ → Stream
unfolding notify_if is_readable
handle_forward_tsn_for_unordered s new_cumulative_tsn =
    let q = Reassembly.forward_tsn_for_unordered s.reassembly_queue new_cumulative_tsn in
    notify_if (is_readable q) (record s { reassembly_queue = q })

unfoldable pub get_num_bytes_in_reassembly_queue : Stream → ℕ
unfolding Reassembly.get_num_bytes
get_num_bytes_in_reassembly_queue s = Reassembly.get_num_bytes s.reassembly_queue

unfoldable pub set_buffered_amount_low_threshold : Stream → ℕ → Stream
set_buffered_amount_low_threshold s th = record s { buffered_amount_low = th }

-- The handler is called when the amount falls to the threshold.
unfoldable pub call_if_low : ℕ → Stream → Stream
call_if_low from_amount s =
    if ltb s.buffered_amount_low from_amount
      && leb s.buffered_amount s.buffered_amount_low
      && s.on_buffered_amount_low
    then record s { low_calls = s.low_calls + 1 }
    else s

unfoldable pub on_buffer_released : Stream → ℕ → Stream
unfolding call_if_low
on_buffer_released s n_bytes_released =
    if n_bytes_released == 0
    then s
    else call_if_low s.buffered_amount (record s {
      buffered_amount =
          if ltb s.buffered_amount n_bytes_released
          then 0
          else s.buffered_amount - n_bytes_released;
    })

-- `notify_waiters` wakes the readers that wait, and stores nothing.
abbrev pub mark_closed : Stream → Stream
mark_closed s = record s { closed = true }

-- What a round of `read_sctp` does: it returns, or it waits.
pub data ReadRound : Type 0 where
  returned : ReadResult → ReadRound
  stream_is_closed : ReadRound
  waits : ReadRound

unfoldable pub round_of : ReadResult → ReadRound
round_of (ReadResult.ok n ppi) = returned (ReadResult.ok n ppi)
round_of (ReadResult.err short_buffer) = returned (ReadResult.err short_buffer)
round_of (ReadResult.err try_again) = waits

unfoldable pub finish_round :
    Stream → ReassemblyQueue × List ℕ × ReadResult → Stream × List ℕ × ReadRound
unfolding round_of
finish_round s (q, p, r) = (record s { reassembly_queue = q }, p, round_of r)

unfoldable pub read_sctp : Stream → List ℕ → Stream × List ℕ × ReadRound
unfolding finish_round
read_sctp s p =
    if s.closed
    then (s, p, stream_is_closed)
    else finish_round s (Reassembly.read s.reassembly_queue p)

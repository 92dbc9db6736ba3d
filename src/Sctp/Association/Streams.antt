-- ===== src/Sctp/Association/Streams.antt =====
-- client/src/webrtc/crates/sctp/association/association_internal.rs: the streams of an association,
-- its receive window, and the requests to reset streams.
use webrtc_unreliable_client.Prelude.{
  ℕ, ◌-◌, ◌%◌, ◌^◌, Bool, true, false, ◌&&◌, List, [], ◌∷◌, ◌++◌, Option, none, some, length,
  if◌then◌else◌, leb, ltb,
}
use webrtc_unreliable_client.Prelude.Words.{add32}
use webrtc_unreliable_client.Prelude.Map.{Map, lookup, contains_key, insert, remove}
use webrtc_unreliable_client.Wire.{Outcome, ok, err}
use webrtc_unreliable_client.Sctp.Error.{Error, stream_already_exist, paramter_type}
use webrtc_unreliable_client.Sctp.Sna.{sna32lte}
use webrtc_unreliable_client.Sctp.Stream.{Stream, get_num_bytes_in_reassembly_queue}
use webrtc_unreliable_client.Sctp.Stream
use webrtc_unreliable_client.Sctp.Timer.{stop_rtx}
use webrtc_unreliable_client.Sctp.Packet.{
  Packet, Param, ParamOutgoingResetRequest, outgoing_reset_request, reconfig_response, reconfig,
  success_performed, in_progress, ChunkReconfig,
}
use webrtc_unreliable_client.Sctp.Association.{
  Association, Handled, and_then, create_packet, accept_ch_size,
}
use webrtc_unreliable_client.Sctp.Association.Shutdown.{unregister_all}

-- The sum of `get_my_receiver_window_credit`, a `u32`.
unfoldable pub bytes_queued : Map Stream → ℕ
unfolding get_num_bytes_in_reassembly_queue
bytes_queued [] = 0
bytes_queued ((si, s) ∷ m) = add32 (bytes_queued m) (get_num_bytes_in_reassembly_queue s % 2 ^ 32)

unfoldable pub get_my_receiver_window_credit : Association → ℕ
unfolding bytes_queued
get_my_receiver_window_credit a =
    let n = bytes_queued a.streams in
    if leb a.max_receive_buffer_size n then 0 else a.max_receive_buffer_size - n

abbrev add_stream : Association → ℕ → Stream → Association × Option Stream
add_stream a stream_identifier s =
    (record a { streams = insert stream_identifier s a.streams }, some s)

-- `accept_ch.try_send` fails if the receiver is gone or the channel is full.
unfoldable pub create_stream : Association → ℕ → Bool → Association × Option Stream
unfolding Stream.new
create_stream a stream_identifier false =
    add_stream a stream_identifier (Stream.new stream_identifier a.max_payload_size)
create_stream a stream_identifier true =
    if a.accept_ch.receiver && ltb (length a.accept_ch.waiting) accept_ch_size
    then add_stream
        (record a {
          accept_ch = record a.accept_ch {
            waiting = a.accept_ch.waiting ++ (stream_identifier ∷ []);
          };
        })
        stream_identifier (Stream.new stream_identifier a.max_payload_size)
    else (a, none)

-- A stream that is not accepted is always created.
unfoldable pub open_stream : Association → ℕ → Association × Outcome Error Stream
unfolding create_stream
open_stream a stream_identifier =
    if contains_key stream_identifier a.streams
    then (a, err stream_already_exist)
    else (let s = Stream.new stream_identifier a.max_payload_size in
        (record a { streams = insert stream_identifier s a.streams }, ok s))

unfoldable pub get_or_create_stream : Association → ℕ → Association × Option Stream
unfolding create_stream
get_or_create_stream a stream_identifier =
    if contains_key stream_identifier a.streams
    then (a, lookup stream_identifier a.streams)
    else create_stream a stream_identifier true

unfoldable pub reset_streams_if_any : Association → ParamOutgoingResetRequest → Association × Packet
unfolding unregister_all create_packet
reset_streams_if_any a p =
    let performed = sna32lte p.sender_last_tsn a.peer_last_tsn in
    let response : ChunkReconfig = record {
      param_a = some (
          reconfig_response (record {
            reconfig_response_sequence_number = p.reconfig_request_sequence_number;
            result = if performed then success_performed else in_progress;
          }));
      param_b = none;
    } in
    let reset = unregister_all a p.stream_identifiers in
    (
      if performed
          then record reset {
            reconfig_requests = remove p.reconfig_request_sequence_number reset.reconfig_requests;
          }
          else a,
      create_packet a (reconfig response ∷ []),
    )

-- `self.treconfig.stop()` once no request of ours waits for its response.
unfoldable pub stop_if_answered : Association → Association
stop_if_answered a = elim a.reconfigs [
  | [] ↦ record a { treconfig = stop_rtx a.treconfig }
  | _ ∷ _ ↦ a
]

unfoldable pub handle_reconfig_param : Association → Param → Handled (List Packet)
unfolding reset_streams_if_any stop_if_answered
handle_reconfig_param a (outgoing_reset_request p) =
    let b = record a {
      reconfig_requests = insert p.reconfig_request_sequence_number p a.reconfig_requests;
    } in
    let (c, reply) = reset_streams_if_any b p in (c, ok (reply ∷ []))
handle_reconfig_param a (reconfig_response p) = (
  stop_if_answered
      (record a { reconfigs = remove p.reconfig_response_sequence_number a.reconfigs }),
  ok [],
)
handle_reconfig_param a p = (a, err paramter_type)

unfoldable pub handle_optional_param : Association → Option Param → Handled (List Packet)
unfolding handle_reconfig_param
handle_optional_param a none = (a, ok [])
handle_optional_param a (some p) = handle_reconfig_param a p

unfoldable pub handle_reconfig : Association → ChunkReconfig → Handled (List Packet)
unfolding handle_optional_param
handle_reconfig a c = and_then (handle_optional_param a c.param_a) (λ b replies_a.
    and_then (handle_optional_param b c.param_b) (λ d replies_b. (d, ok (replies_a ++ replies_b))))

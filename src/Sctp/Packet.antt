-- ===== src/Sctp/Packet.antt =====
-- client/src/webrtc/crates/sctp: packet.rs, and what the association reads of the chunks of
-- chunk_init.rs, chunk_reconfig.rs and chunk_heartbeat.rs and of the parameters of param/.
use webrtc_unreliable_client.Sctp.Sna.{get_padding_size}
use webrtc_unreliable_client.Sctp.Chunk.Header.{chunk_header_size}
use webrtc_unreliable_client.Sctp.Chunk.PayloadData.Codec.{value_length}
use webrtc_unreliable_client.Prelude.{
  ◌+◌, ℕ, Bool, not, ◌&&◌, List, [], ◌∷◌, ◌++◌, Option, length, ◌==◌, ltb,
}
use webrtc_unreliable_client.Wire.{Outcome, ok, ◌>>◌, fail_if}
use webrtc_unreliable_client.Sctp.Error.{
  Error, chunk_type_init_initate_tag_zero, init_inbound_stream_request_zero,
  init_outbound_stream_request_zero, init_advertised_receiver_1500, sctp_packet_source_port_zero,
  sctp_packet_destination_port_zero, init_chunk_bundled, init_chunk_verify_tag_not_zero,
}
use webrtc_unreliable_client.Sctp.Chunk.PayloadData.{ChunkPayloadData}
use webrtc_unreliable_client.Sctp.Chunk.SelectiveAck.{ChunkSelectiveAck}
use webrtc_unreliable_client.Sctp.Chunk.ForwardTsn.{ChunkForwardTsn}
use webrtc_unreliable_client.Sctp.Chunk.Control.{ChunkCookieEcho, ChunkShutdown}

-- The sequence number of the response is not read.
pub record ParamOutgoingResetRequest : Type 0 where
  pub reconfig_request_sequence_number : ℕ
  pub sender_last_tsn : ℕ
  pub stream_identifiers : List ℕ

pub data ReconfigResult : Type 0 where
  success_nop success_performed denied error_wrong_ssn : ReconfigResult
  error_request_already_in_progress error_bad_sequence_number : ReconfigResult
  in_progress unknown_result : ReconfigResult

pub record ParamReconfigResponse : Type 0 where
  pub reconfig_response_sequence_number : ℕ
  pub result : ReconfigResult

-- `other_param` is a parameter that no handler looks for.
pub data Param : Type 0 where
  state_cookie : List ℕ → Param
  supported_extensions : List ℕ → Param
  forward_tsn_supported : Param
  heartbeat_info : List ℕ → Param
  outgoing_reset_request : ParamOutgoingResetRequest → Param
  reconfig_response : ParamReconfigResponse → Param
  other_param : Param

pub record ChunkInit : Type 0 where
  pub is_ack : Bool
  pub initiate_tag : ℕ
  pub advertised_receiver_window_credit : ℕ
  pub num_outbound_streams : ℕ
  pub num_inbound_streams : ℕ
  pub initial_tsn : ℕ
  pub params : List Param

unfoldable pub set_forward_tsn_supported : ChunkInit → ChunkInit
set_forward_tsn_supported i = record i { params = i.params ++ (forward_tsn_supported ∷ []) }

pub record ChunkReconfig : Type 0 where
  pub param_a : Option Param
  pub param_b : Option Param

pub data Chunk : Type 0 where
  init : ChunkInit → Chunk
  abort error : Chunk
  heartbeat : List Param → Chunk
  heartbeat_ack : List Param → Chunk
  cookie_echo : ChunkCookieEcho → Chunk
  cookie_ack : Chunk
  payload_data : ChunkPayloadData → Chunk
  selective_ack : ChunkSelectiveAck → Chunk
  reconfig : ChunkReconfig → Chunk
  forward_tsn : ChunkForwardTsn → Chunk
  shutdown : ChunkShutdown → Chunk
  shutdown_ack shutdown_complete : Chunk

pub record Packet : Type 0 where
  pub source_port : ℕ
  pub destination_port : ℕ
  pub verification_tag : ℕ
  pub chunks : List Chunk

abbrev pub packet_header_size : ℕ
packet_header_size = 12

-- The loop of `Packet::marshal_to`, by the bytes that `raw` holds: each DATA chunk with its header, and
-- padding up to a multiple of 4.
unfoldable pub marshalled_length : ℕ → List ChunkPayloadData → ℕ
unfolding get_padding_size value_length
marshalled_length n [] = n
marshalled_length n (c ∷ cs) =
    let raw_len = n + (chunk_header_size + value_length c) in
    marshalled_length (raw_len + get_padding_size raw_len) cs

-- The bytes that `Packet::marshal_to` writes for a packet of these DATA chunks.
unfoldable pub packet_size : List ChunkPayloadData → ℕ
unfolding marshalled_length
packet_size cs = packet_header_size + marshalled_length 0 cs

-- `ChunkInit::check`
unfoldable pub check_init : ChunkInit → Outcome Error (Unit {0})
check_init i =
    fail_if (i.initiate_tag == 0) chunk_type_init_initate_tag_zero
    >> fail_if (i.num_inbound_streams == 0) init_inbound_stream_request_zero
    >> fail_if (i.num_outbound_streams == 0) init_outbound_stream_request_zero
    >> fail_if (ltb i.advertised_receiver_window_credit 1500) init_advertised_receiver_1500

-- `Chunk::check`: every other chunk passes.
unfoldable pub check : Chunk → Outcome Error (Unit {0})
unfolding check_init
check (init i) = check_init i
check c = ok tt

unfoldable pub check_chunks : Packet → List Chunk → Outcome Error (Unit {0})
check_chunks p [] = ok tt
check_chunks p (init i ∷ cs) =
    fail_if (not i.is_ack && not (length p.chunks == 1)) init_chunk_bundled
    >> fail_if (not i.is_ack && not (p.verification_tag == 0)) init_chunk_verify_tag_not_zero
    >> check_chunks p cs
check_chunks p (c ∷ cs) = check_chunks p cs

unfoldable pub check_packet : Packet → Outcome Error (Unit {0})
unfolding check_chunks
check_packet p =
    fail_if (p.source_port == 0) sctp_packet_source_port_zero
    >> fail_if (p.destination_port == 0) sctp_packet_destination_port_zero
    >> check_chunks p p.chunks

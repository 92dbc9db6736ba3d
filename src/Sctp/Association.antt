-- ===== src/Sctp/Association.antt =====
-- client/src/webrtc/crates/sctp/association: the state of an association (`AssociationInternal` of
-- association_internal.rs) and the steps that its handlers share. Each handler runs under the
-- association's lock, so it is a function from state to state.
pub mod Handshake
pub mod Cookies
pub mod Shutdown
pub mod Timeouts
pub mod Streams
pub mod Receive
pub mod Send
pub mod Resend
pub mod Sack
pub mod Congestion
pub mod Dispatch
pub mod Meets
pub mod Frames
pub mod Advance
pub mod Receipt
pub mod Bundles
pub mod Window
pub mod Progress
pub mod Drains
pub mod Still
pub mod SackStill
pub mod States
pub mod Reaches
pub mod Others
pub mod Inbound
pub mod Behaviour
use webrtc_unreliable_client.Prelude.{
  ℕ, ◌+◌, ◌-◌, Bool, true, false, List, [], ◌∷◌, ◌++◌, Option, none, some, length, if◌then◌else◌,
  ◌==◌, ltb, min, max,
}
use webrtc_unreliable_client.Prelude.Map.{Map}
use webrtc_unreliable_client.Prelude.Words.{add32}
use webrtc_unreliable_client.Wire.{Outcome, ok, err, panic}
use webrtc_unreliable_client.Sctp.Error.{Error}
use webrtc_unreliable_client.Sctp.Shared.{Shared, AssociationState}
use webrtc_unreliable_client.Sctp.Shared
use webrtc_unreliable_client.Sctp.Stream.{Stream}
use webrtc_unreliable_client.Sctp.Timer.{
  RtxTimer, AckTimer, start_rtx, stop_rtx, start_ack, stop_ack,
}
use webrtc_unreliable_client.Sctp.Queue.Payload.{PayloadQueue}
use webrtc_unreliable_client.Sctp.Chunk.Control.{ChunkCookieEcho}
use webrtc_unreliable_client.Sctp.Packet.{
  Packet, Chunk, ChunkInit, ChunkReconfig, ParamOutgoingResetRequest,
}

-- `INITIAL_MTU`, `INITIAL_RECV_BUF_SIZE`, `COMMON_HEADER_SIZE`, `DATA_CHUNK_HEADER_SIZE`,
-- `DEFAULT_MAX_MESSAGE_SIZE` and `ACCEPT_CH_SIZE`
abbrev pub initial_mtu : ℕ
initial_mtu = 1228

abbrev pub initial_recv_buf_size : ℕ
initial_recv_buf_size = 1048576

abbrev pub common_header_size : ℕ
common_header_size = 12

abbrev pub data_chunk_header_size : ℕ
data_chunk_header_size = 16

abbrev pub default_max_message_size : ℕ
default_max_message_size = 65536

abbrev pub accept_ch_size : ℕ
accept_ch_size = 16

pub data RtxTimerId : Type 0 where
  t1_init t1_cookie t2_shutdown t3_rtx reconfig_timer : RtxTimerId

pub data AckMode : Type 0 where
  normal always_delay : AckMode

pub data AckState : Type 0 where
  idle immediate delay : AckState

-- The sender's half of the channel of accepted streams: the identifiers that wait in it, and whether
-- its receiver still exists.
pub record AcceptCh : Type 0 where
  pub receiver : Bool
  pub waiting : List ℕ

-- `Association::new` sets all the timers. `rto_mgr` is the round trip times that the manager was
-- given, the latest first, `unregistered` the streams that were closed and left the map, and
-- `handshake_completed` what was sent to the channel of that name.
pub record Association : Type 0 where
  pub shared : Shared
  pub will_send_shutdown : Bool
  pub peer_verification_tag : ℕ
  pub my_verification_tag : ℕ
  pub my_next_tsn : ℕ
  pub peer_last_tsn : ℕ
  pub min_tsn2measure_rtt : ℕ
  pub will_send_forward_tsn : Bool
  pub will_retransmit_fast : Bool
  pub will_retransmit_reconfig : Bool
  pub will_send_shutdown_ack : Bool
  pub will_send_shutdown_complete : Bool
  pub my_next_rsn : ℕ
  pub reconfigs : Map ChunkReconfig
  pub reconfig_requests : Map ParamOutgoingResetRequest
  pub source_port : ℕ
  pub destination_port : ℕ
  pub my_max_num_inbound_streams : ℕ
  pub my_max_num_outbound_streams : ℕ
  pub my_cookie : Option (List ℕ)
  pub payload_queue : PayloadQueue
  pub inflight_queue : PayloadQueue
  pub control_queue : List Packet
  pub mtu : ℕ
  pub max_payload_size : ℕ
  pub cumulative_tsn_ack_point : ℕ
  pub advanced_peer_tsn_ack_point : ℕ
  pub use_forward_tsn : Bool
  pub max_receive_buffer_size : ℕ
  pub cwnd : ℕ
  pub rwnd : ℕ
  pub ssthresh : ℕ
  pub partial_bytes_acked : ℕ
  pub in_fast_recovery : Bool
  pub fast_recover_exit_point : ℕ
  pub rto_mgr : List ℕ
  pub t1init : RtxTimer
  pub t1cookie : RtxTimer
  pub t2shutdown : RtxTimer
  pub t3rtx : RtxTimer
  pub treconfig : RtxTimer
  pub ack_timer : AckTimer
  pub stored_init : Option ChunkInit
  pub stored_cookie_echo : Option ChunkCookieEcho
  pub streams : Map Stream
  pub unregistered : List Stream
  pub close_loop_ch : Bool
  pub accept_ch : AcceptCh
  pub handshake_completed : List (Option Error)
  pub delayed_ack_triggered : Bool
  pub immediate_ack_triggered : Bool
  pub ack_state : AckState
  pub ack_mode : AckMode

-- What a handler does: the new state, and its reply or its error.
abbrev pub Handled : Type 0 → Type 0
Handled A = Association × Outcome Error A

-- `?` behind a call.
abbrev pub and_then : {A B : Type 0} → Handled A → (Association → A → Handled B) → Handled B
and_then (a, ok x) f = f a x
and_then (a, err e) f = (a, err e)
and_then (a, panic) f = (a, panic)

abbrev pub get_state : Association → AssociationState
get_state a = a.shared.state

unfoldable pub set_state : Association → AssociationState → Association
unfolding Shared.set_state
set_state a s = record a { shared = Shared.set_state a.shared s }

unfoldable pub awake_write_loop : Association → Association
unfolding Shared.awake_write_loop
awake_write_loop a = record a { shared = Shared.awake_write_loop a.shared }

unfoldable pub create_packet : Association → List Chunk → Packet
create_packet a chunks = record {
  verification_tag = a.peer_verification_tag;
  source_port = a.source_port;
  destination_port = a.destination_port;
  chunks = chunks;
}

unfoldable pub generate_next_tsn : Association → Association × ℕ
generate_next_tsn a = (record a { my_next_tsn = add32 a.my_next_tsn 1 }, a.my_next_tsn)

unfoldable pub generate_next_rsn : Association → Association × ℕ
generate_next_rsn a = (record a { my_next_rsn = add32 a.my_next_rsn 1 }, a.my_next_rsn)

-- `if let Some(..) = &self.t3rtx { t3rtx.start(..) }`, and the like of the others
abbrev pub start : RtxTimer → RtxTimer
start t = (start_rtx t).0

-- ===== src/Examples/Association.antt =====
-- association_internal.rs at concrete inputs.
use webrtc_unreliable_client.Prelude.{
  length, ◌*◌, ◌+◌, ◌≤◌, ◌≡◌, refl, true, false, List, [], ◌∷◌, arith, All, map,
}
use webrtc_unreliable_client.Sctp.Stream
use webrtc_unreliable_client.Wire.{err}
use webrtc_unreliable_client.Sctp.Error.{init_not_stored_to_send}
use webrtc_unreliable_client.Sctp.Chunk.PayloadData.{ChunkPayloadData}
use webrtc_unreliable_client.Sctp.Queue.Payload
use webrtc_unreliable_client.Sctp.Queue.Pending
use webrtc_unreliable_client.Sctp.Packet.{
  Packet, packet_size, payload_data, cookie_echo, shutdown_ack,
}
use webrtc_unreliable_client.Sctp.Association.{
  Association, t1_init, create_packet, data_chunk_header_size,
}
use webrtc_unreliable_client.Sctp.Association.Handshake.{new, connect, send_init}
use webrtc_unreliable_client.Sctp.Association.Timeouts.{on_retransmission_timeout}
use webrtc_unreliable_client.Sctp.Association.Receive.{skip_to}
use webrtc_unreliable_client.Sctp.Association.Send.{
  pop_pending_data_chunks_to_send, bundle_data_chunks_into_packets,
}
use webrtc_unreliable_client.Sctp.Association.Meets.{handshake, IsMet, handshake-IsMet}
use webrtc_unreliable_client.Sctp.Association.Progress.{
  IsSent, pop_pending_data_chunks_to_send-IsSent,
}
use webrtc_unreliable_client.Sctp.Association.Bundles.{
  flatten, bundle_data_chunks_into_packets_lem, bundle_two,
}
use webrtc_unreliable_client.Sctp.Association.Behaviour.{
  init_timeout_sends_nothing, skip_to_reaches,
}
use webrtc_unreliable_client.Examples.Data.{single}
use webrtc_unreliable_client.Examples.Payload.{three}
use webrtc_unreliable_client.Examples.Pending.{halfway, halfway-IsFramed}

-- A server, and a client that has sent its INIT.
abbrev server : Association
server = new 0 0 0 9

abbrev client : Association
client = (connect (new 0 0 4294967295 7)).0

handshake-IsMet_example :
    let (c, s) = handshake client server (1 ∷ 2 ∷ []) 40 in
    IsMet c s × IsMet s c × (c.use_forward_tsn ≡ true) × (s.use_forward_tsn ≡ false)
handshake-IsMet_example =
    handshake-IsMet 4294967295 7 0 9 (1 ∷ 2 ∷ []) 40 (omega arith) (omega arith) refl refl

-- A packet with two chunks of control.
abbrev two_chunks : Packet
two_chunks = record {
  source_port = 5000;
  destination_port = 5000;
  verification_tag = 7;
  chunks = cookie_echo (record { cookie = 1 ∷ [] }) ∷ shutdown_ack ∷ [];
}

-- The TSNs 11 to 13 came on the stream 3 while 10 is the last one in order.
abbrev receiving : Association
receiving = record server {
  peer_last_tsn = 10;
  payload_queue = three;
  streams = (3, Stream.new 3 1200) ∷ [];
}

-- Two chunks of 1 and 2 bytes are pending, and the windows take them.
abbrev sending : Association
sending = record server { rwnd = 100; shared = record server.shared { pending_queue = halfway } }

pop_pending_data_chunks_to_send-IsSent_example :
    IsSent sending (pop_pending_data_chunks_to_send sending 40)
unfolding new
pop_pending_data_chunks_to_send-IsSent_example =
    pop_pending_data_chunks_to_send-IsSent sending 40 (omega arith) (omega arith) (omega arith)
      halfway-IsFramed

-- The two chunks fit, and the bundle with them.
bundle_data_chunks_into_packets_lem_example :
    (css : List (List ChunkPayloadData)) × (bundle_data_chunks_into_packets server
        (single 1 ∷ single 2 ∷ [])
      ≡ map (λ cs. create_packet server (map payload_data cs)) css)
    × (flatten css ≡ single 1 ∷ single 2 ∷ [])
    × All (λ cs. packet_size cs ≤ server.mtu + data_chunk_header_size + 3 * length cs) css
unfolding new
bundle_data_chunks_into_packets_lem_example =
    bundle_data_chunks_into_packets_lem server (single 1 ∷ single 2 ∷ []) (omega arith)
      (omega arith, (omega arith, tt))

-- With an MTU of 33 bytes, two chunks of 2 bytes make a packet of 48.
abbrev tiny : Association
tiny = record server { mtu = 33 }

bundle_two_example :
    bundle_data_chunks_into_packets tiny (single 1 ∷ single 2 ∷ [])
    ≡ create_packet tiny (payload_data (single 1) ∷ payload_data (single 2) ∷ []) ∷ []
bundle_two_example = bundle_two tiny (single 1) (single 2) (omega arith) (omega arith)

init_timeout_sends_nothing_example :
    let b = (send_init client).0 in
    (on_retransmission_timeout b t1_init ≡ b) × ((send_init b).1 ≡ err init_not_stored_to_send)
init_timeout_sends_nothing_example = init_timeout_sends_nothing client

skip_to_reaches_example : (skip_to 4 receiving 14).peer_last_tsn ≡ 14
skip_to_reaches_example =
    skip_to_reaches 4 receiving 14 (omega arith) (omega arith) refl (omega arith)

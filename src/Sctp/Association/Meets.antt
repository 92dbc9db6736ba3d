-- ===== src/Sctp/Association/Meets.antt =====
-- Two associations of association_internal.rs that exchange their packets without loss.
use webrtc_unreliable_client.Prelude.{
  ℕ, ◌-◌, ◌^◌, ◌≡◌, refl, ap, ◌∙◌, Bool, true, false, List, [], ◌∷◌, none, ◌==◌, arith,
  if◌then◌else◌,
}
use webrtc_unreliable_client.Prelude.Words.{add32, IsU32}
use webrtc_unreliable_client.Sctp.Shared.{established, state_eq, state_as_u8}
use webrtc_unreliable_client.Sctp.Shared
use webrtc_unreliable_client.Sctp.Packet.{
  Packet, ChunkInit, init, state_cookie, cookie_ack, check, check_packet, check_init, check_chunks,
  set_forward_tsn_supported,
}
use webrtc_unreliable_client.Sctp.Association.{
  Association, Handled, and_then, initial_recv_buf_size, get_state, set_state, awake_write_loop,
  create_packet,
}
use webrtc_unreliable_client.Sctp.Association.Handshake.{
  new, connect, first_init, send_init, push_control, handle_init, answer_init, note_peer,
  init_supports, handle_init_ack, accept_init_ack, echo_cookie, send_cookie_echo, init_ack_supports,
  last_cookie,
}
use webrtc_unreliable_client.Sctp.Association.Cookies.{
  bytes_eq, handle_cookie_echo, echo_in, holds_cookie, accept_cookie, complete_handshake,
  handle_cookie_ack,
}
use webrtc_unreliable_client.Sctp.Association.Receive.{
  handle_chunk_start, handle_chunk_end, is_immediate,
}
use webrtc_unreliable_client.Wire.{ok}
use webrtc_unreliable_client.Sctp.Timer.{start_rtx, stop_rtx, new_rtx}
use webrtc_unreliable_client.Sctp.Association.Dispatch.{
  gather_outbound, handle_inbound, Gathered, handle_chunk, handle_chunks, dispatch, queue_replies,
  gather_data_packets_to_retransmit, gather_outbound_data_and_reconfig_packets, gather_fast,
  gather_outbound_sack_packets, gather_outbound_forward_tsn_packets, gather_popped,
}
use webrtc_unreliable_client.Sctp.Association.Send.{
  pop_pending_data_chunks_to_send, bundle_data_chunks_into_packets, bundle, has_none,
}
use webrtc_unreliable_client.Sctp.Association.Resend.{
  get_data_packets_to_retransmit, gather_outbound_fast_retransmission_packets, retransmit_loop,
  retransmit_round, fast_loop, fast_round,
}
use webrtc_unreliable_client.Sctp.Queue.Payload.{get}
use webrtc_unreliable_client.Sctp.Queue.Pending.{len}
use webrtc_unreliable_client.Prelude.Map.{lookup}

-- All packets are handled in order.
unfoldable pub deliver : Association → List ℕ → ℕ → List Packet → Association
unfolding handle_inbound
deliver a random_cookie now [] = a
deliver a random_cookie now (p ∷ ps) =
    deliver (handle_inbound a random_cookie now p).0 random_cookie now ps

unfoldable pub receive : Association → List ℕ → ℕ → Gathered × Bool → Association × Association
unfolding deliver
receive b random_cookie now ((a, packets), more) = (a, deliver b random_cookie now packets)

-- What the first association has to send reaches the second.
unfoldable pub transmit : Association → Association → List ℕ → ℕ → Association × Association
unfolding receive gather_outbound
transmit a b random_cookie now = receive b random_cookie now (gather_outbound a now)

-- What the first association has to send reaches the second, and the second has its turn.
unfoldable pub turn : List ℕ → ℕ → Association × Association → Association × Association
unfolding transmit
turn random_cookie now (a, b) = let (a', b') = transmit a b random_cookie now in (b', a')

-- INIT, INIT ACK, COOKIE ECHO and COOKIE ACK between a client and a server.
unfoldable pub handshake : Association → Association → List ℕ → ℕ → Association × Association
unfolding turn
handshake client server random_cookie now =
    let t = turn random_cookie now in t (t (t (t (client, server))))

bytes_eq_refl : (bs : List ℕ) → bytes_eq bs bs ≡ true
unfolding bytes_eq
bytes_eq_refl [] = refl
bytes_eq_refl (b ∷ bs) = ground (arith, bytes_eq_refl bs)

-- What an endpoint knows of its peer once the handshake is complete.
pub record IsMet (a peer : Association) : Type 0 where
  pub state : get_state a ≡ established
  pub tag : a.peer_verification_tag ≡ peer.my_verification_tag
  pub tsn : add32 a.peer_last_tsn 1 ≡ peer.my_next_tsn
  pub completed : a.handshake_completed ≡ none ∷ []
  pub sent : a.control_queue ≡ []

next_tsn : (t : ℕ) → IsU32 t → add32 (if t == 0 then 2 ^ 32 - 1 else t - 1) 1 ≡ t
next_tsn t h = ground arith

first_tsn-IsU32 : (t : ℕ) → IsU32 t → IsU32 (if t == 0 then 1 else t)
first_tsn-IsU32 t h = ground arith

-- The state behind a handler, its replies queued.
abbrev replied : Handled (List Packet) → Association
replied (a, ok ps) = queue_replies a ps
replied (a, r) = a

abbrev drained : Association → Association
drained a = record a { control_queue = [] }

-- What `handle_inbound` does behind the handler of the packet's only chunk.
abbrev finished : Handled (List Packet) → Association
finished r =
    (and_then
      (and_then (and_then r (λ d replies. (queue_replies d replies, ok tt))) (λ b _. (b, ok tt)))
      (λ b _. (handle_chunk_end b, ok tt))).0

module _ (tsn tag tsn' tag' : ℕ) (cookie : List ℕ) (now : ℕ) where
  abbrev client : Association
  client = (connect (new 0 0 tsn tag)).0

  abbrev server : Association
  server = new 0 0 tsn' tag'

  abbrev packet_of : ChunkInit → ℕ → Packet
  packet_of i t = record {
    source_port = 5000;
    destination_port = 5000;
    verification_tag = t;
    chunks = init i ∷ [];
  }

  abbrev init1 : ChunkInit
  init1 = first_init (new 0 0 tsn tag)

  abbrev server1 : Association
  server1 = replied (answer_init server cookie (packet_of init1 0) init1)

  turn1 : (tag == 0) ≡ false → turn cookie now (client, server) ≡ (server1, drained client)
  unfolding turn transmit receive deliver connect new handle_inbound gather_outbound first_init
      send_init push_control awake_write_loop set_state create_packet set_forward_tsn_supported
      check check_init check_chunks check_packet handle_chunk handle_chunks dispatch handle_init
      answer_init note_peer init_supports queue_replies handle_chunk_start handle_chunk_end state_eq
      state_as_u8 handle_init_ack accept_init_ack echo_cookie send_cookie_echo init_ack_supports
      last_cookie handle_cookie_echo echo_in holds_cookie accept_cookie complete_handshake
      handle_cookie_ack start_rtx stop_rtx new_rtx Shared.set_state Shared.awake_write_loop
  turn1 h = ap (λ (s : Association). (s, drained client)) (rw h refl)

  abbrev init2 : ChunkInit
  init2 = set_forward_tsn_supported (record {
    is_ack = true;
    initial_tsn = server.my_next_tsn;
    num_outbound_streams = 65535;
    num_inbound_streams = 65535;
    initiate_tag = tag';
    advertised_receiver_window_credit = initial_recv_buf_size;
    params = state_cookie cookie ∷ [];
  })

  abbrev client2 : Association
  client2 = replied (accept_init_ack (note_peer (drained client) init2) init2)

  turn2 :
      (tag' == 0) ≡ false → turn cookie now (server1, drained client) ≡ (client2, drained server1)
  unfolding turn transmit receive deliver connect new handle_inbound gather_outbound first_init
      send_init push_control awake_write_loop set_state create_packet set_forward_tsn_supported
      check check_init check_chunks check_packet handle_chunk handle_chunks dispatch handle_init
      answer_init note_peer init_supports queue_replies handle_chunk_start handle_chunk_end state_eq
      state_as_u8 handle_init_ack accept_init_ack echo_cookie send_cookie_echo init_ack_supports
      last_cookie handle_cookie_echo echo_in holds_cookie accept_cookie complete_handshake
      handle_cookie_ack start_rtx stop_rtx new_rtx Shared.set_state Shared.awake_write_loop
  turn2 h = ap (λ (s : Association). (s, drained server1)) (rw h refl)

  abbrev server3 : Association
  server3 =
      replied (accept_cookie (drained server1), ok (create_packet server1 (cookie_ack ∷ []) ∷ []))

  echoed :
      handle_cookie_echo (drained server1) (record { cookie = cookie })
      ≡ (accept_cookie (drained server1), ok (create_packet server1 (cookie_ack ∷ []) ∷ []))
  unfolding handle_cookie_echo echo_in holds_cookie set_state create_packet new answer_init
      note_peer queue_replies awake_write_loop Shared.awake_write_loop
  echoed = rw (bytes_eq_refl cookie) refl

  turn3 : turn cookie now (client2, drained server1) ≡ (server3, drained client2)
  unfolding turn transmit receive deliver connect new handle_inbound gather_outbound first_init
      send_init push_control awake_write_loop set_state create_packet set_forward_tsn_supported
      check check_init check_chunks check_packet handle_chunk handle_chunks dispatch handle_init
      answer_init note_peer init_supports queue_replies handle_chunk_start handle_chunk_end state_eq
      state_as_u8 handle_init_ack accept_init_ack echo_cookie send_cookie_echo init_ack_supports
      last_cookie handle_cookie_ack start_rtx stop_rtx new_rtx Shared.set_state
      Shared.awake_write_loop
  turn3 = ap (λ (r : Handled (List Packet)). (finished r, drained client2)) echoed

  abbrev client4 : Association
  client4 =
      complete_handshake (record (drained client2) {
        t1cookie = stop_rtx client2.t1cookie;
        stored_cookie_echo = none;
      })

  turn4 : turn cookie now (server3, drained client2) ≡ (client4, drained server3)
  unfolding turn transmit receive deliver connect new handle_inbound gather_outbound first_init
      send_init push_control awake_write_loop set_state create_packet set_forward_tsn_supported
      check check_init check_chunks check_packet handle_chunk handle_chunks dispatch handle_init
      answer_init note_peer init_supports queue_replies handle_chunk_start handle_chunk_end state_eq
      state_as_u8 handle_init_ack accept_init_ack echo_cookie send_cookie_echo init_ack_supports
      last_cookie handle_cookie_echo echo_in holds_cookie accept_cookie complete_handshake
      handle_cookie_ack start_rtx stop_rtx new_rtx Shared.set_state Shared.awake_write_loop
      gather_data_packets_to_retransmit gather_outbound_data_and_reconfig_packets gather_fast
      gather_outbound_sack_packets gather_outbound_forward_tsn_packets gather_popped
      pop_pending_data_chunks_to_send get_data_packets_to_retransmit
      gather_outbound_fast_retransmission_packets retransmit_loop retransmit_round fast_loop
      fast_round bundle_data_chunks_into_packets bundle has_none is_immediate get len lookup
  turn4 = refl

  exchanged :
      (tag == 0) ≡ false
      → (tag' == 0) ≡ false
      → handshake client server cookie now ≡ (client4, drained server3)
  unfolding handshake
  exchanged h h' =
      let t : Association × Association → Association × Association = turn cookie now in
      ap (λ p. t (t (t p))) (turn1 h) ∙ ap (λ p. t (t p)) (turn2 h') ∙ ap t turn3 ∙ turn4

-- A client and a server with any random numbers, the tags positive, are both established after
-- four transmissions without loss, each with the tag and the initial TSN of the other; both report it
-- once and have nothing left to send. The client then uses FORWARD TSN; the server, whose peer
-- supports it too, does not.
pub handshake-IsMet :
    (tsn tag tsn' tag' : ℕ) (cookie : List ℕ) (now : ℕ)
    → IsU32 tsn
    → IsU32 tsn'
    → (tag == 0) ≡ false
    → (tag' == 0) ≡ false
    → let (c, s) = handshake (connect (new 0 0 tsn tag)).0 (new 0 0 tsn' tag') cookie now in
      IsMet c s × IsMet s c × (c.use_forward_tsn ≡ true) × (s.use_forward_tsn ≡ false)
unfolding connect new first_init send_init push_control awake_write_loop set_state create_packet
    set_forward_tsn_supported answer_init note_peer init_supports queue_replies accept_init_ack
    echo_cookie send_cookie_echo init_ack_supports last_cookie accept_cookie complete_handshake
    Shared.set_state Shared.awake_write_loop
handshake-IsMet tsn tag tsn' tag' cookie now h h' t t' =
    rw (exchanged tsn tag tsn' tag' cookie now t t') (
      record {
        state = refl;
        tag = refl;
        tsn = next_tsn (if tsn' == 0 then 1 else tsn') (first_tsn-IsU32 tsn' h');
        completed = refl;
        sent = refl;
      },
      record {
        state = refl;
        tag = refl;
        tsn = next_tsn (if tsn == 0 then 1 else tsn) (first_tsn-IsU32 tsn h);
        completed = refl;
        sent = refl;
      },
      refl,
      refl,
    )

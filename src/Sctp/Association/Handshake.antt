-- ===== src/Sctp/Association/Handshake.antt =====
-- client/src/webrtc/crates/sctp/association: setting an association up. INIT, INIT ACK, COOKIE ECHO
-- and COOKIE ACK of association_internal.rs, and the construction in mod.rs. The random numbers are
-- arguments.
use webrtc_unreliable_client.Prelude.{
  ℕ, ◌+◌, ◌-◌, ◌*◌, ◌^◌, Bool, true, false, not, ◌&&◌, ◌||◌, List, [], ◌∷◌, ◌++◌, Option, none,
  some, if◌then◌else◌, ◌==◌, min, max,
}
use webrtc_unreliable_client.Wire.{ok, err}
use webrtc_unreliable_client.Sctp.Error.{
  init_not_stored_to_send, cookie_echo_not_stored_to_send, handle_init_state, init_ack_no_cookie,
}
use webrtc_unreliable_client.Sctp.Shared.{closed, cookie_wait, cookie_echoed, state_eq}
use webrtc_unreliable_client.Sctp.Timer.{stop_rtx, new_rtx, new_ack, max_init_retrans}
use webrtc_unreliable_client.Sctp.Queue.Payload
use webrtc_unreliable_client.Sctp.Queue.Pending
use webrtc_unreliable_client.Sctp.Chunk.ForwardTsn.{ct_forward_tsn}
use webrtc_unreliable_client.Sctp.Packet.{
  Packet, ChunkInit, Param, state_cookie, supported_extensions, forward_tsn_supported, init,
  cookie_echo, set_forward_tsn_supported,
}
use webrtc_unreliable_client.Sctp.Association.{
  Association, Handled, and_then, get_state, set_state, awake_write_loop, create_packet, start,
  initial_mtu, initial_recv_buf_size, common_header_size, data_chunk_header_size,
  default_max_message_size, idle, normal,
}

-- `AssociationInternal::new`, with the random TSN and tag, and the timers and the end of the channel
-- of accepted streams that `Association::new` gives it: its receiver is dropped there.
unfoldable pub new : ℕ → ℕ → ℕ → ℕ → Association
new max_receive_buffer_size max_message_size random_tsn tag =
    let tsn = if random_tsn == 0 then 1 else random_tsn in
    let buffer =
      if max_receive_buffer_size == 0 then initial_recv_buf_size else max_receive_buffer_size in
    record {
      shared = record {
        state = closed;
        max_message_size =
            if max_message_size == 0 then default_max_message_size else max_message_size;
        awakened = false;
        pending_queue = Pending.new;
        flags = λ _. false;
        next_flag = 0;
      };
      will_send_shutdown = false;
      peer_verification_tag = 0;
      my_verification_tag = tag;
      my_next_tsn = tsn;
      peer_last_tsn = 0;
      min_tsn2measure_rtt = tsn;
      will_send_forward_tsn = false;
      will_retransmit_fast = false;
      will_retransmit_reconfig = false;
      will_send_shutdown_ack = false;
      will_send_shutdown_complete = false;
      my_next_rsn = tsn;
      reconfigs = [];
      reconfig_requests = [];
      source_port = 0;
      destination_port = 0;
      my_max_num_inbound_streams = 65535;
      my_max_num_outbound_streams = 65535;
      my_cookie = none;
      payload_queue = Payload.new;
      inflight_queue = Payload.new;
      control_queue = [];
      mtu = initial_mtu;
      max_payload_size = initial_mtu - (common_header_size + data_chunk_header_size);
      cumulative_tsn_ack_point = tsn - 1;
      advanced_peer_tsn_ack_point = tsn - 1;
      use_forward_tsn = false;
      max_receive_buffer_size = buffer;
      cwnd = min (4 * initial_mtu) (max (2 * initial_mtu) 4380);
      rwnd = 0;
      ssthresh = 0;
      partial_bytes_acked = 0;
      in_fast_recovery = false;
      fast_recover_exit_point = 0;
      rto_mgr = [];
      t1init = new_rtx max_init_retrans;
      t1cookie = new_rtx max_init_retrans;
      t2shutdown = new_rtx 0;
      t3rtx = new_rtx 0;
      treconfig = new_rtx 0;
      ack_timer = new_ack;
      stored_init = none;
      stored_cookie_echo = none;
      streams = [];
      unregistered = [];
      close_loop_ch = true;
      accept_ch = record { receiver = false; waiting = [] };
      handshake_completed = [];
      delayed_ack_triggered = false;
      immediate_ack_triggered = false;
      ack_state = idle;
      ack_mode = normal;
    }

unfoldable pub push_control : Association → Packet → Association
unfolding awake_write_loop
push_control a p = awake_write_loop (record a { control_queue = a.control_queue ++ (p ∷ []) })

unfoldable pub send_init : Association → Handled (Unit {0})
unfolding push_control create_packet
send_init a = elim a.stored_init [
  | none ↦ (a, err init_not_stored_to_send)
  | some i ↦
      let a' = record a { stored_init = none; source_port = 5000; destination_port = 5000 } in
      (push_control a' (create_packet a' (init i ∷ [])), ok tt)
]

unfoldable pub send_cookie_echo : Association → Handled (Unit {0})
unfolding push_control create_packet
send_cookie_echo a = elim a.stored_cookie_echo [
  | none ↦ (a, err cookie_echo_not_stored_to_send)
  | some c ↦ (push_control a (create_packet a (cookie_echo c ∷ [])), ok tt)
]

-- The INIT that `Association::new` builds.
unfoldable pub first_init : Association → ChunkInit
unfolding set_forward_tsn_supported
first_init a = set_forward_tsn_supported (record {
  is_ack = false;
  initial_tsn = a.my_next_tsn;
  num_outbound_streams = a.my_max_num_outbound_streams;
  num_inbound_streams = a.my_max_num_inbound_streams;
  initiate_tag = a.my_verification_tag;
  advertised_receiver_window_credit = a.max_receive_buffer_size;
  params = [];
})

-- What `Association::new` does for a client.
unfoldable pub connect : Association → Handled (Unit {0})
unfolding first_init send_init
connect a =
    and_then (send_init (set_state (record a { stored_init = some (first_init a) }) cookie_wait))
      (λ b _. (record b { t1init = start b.t1init }, ok tt))

unfoldable pub lists_forward_tsn : List ℕ → Bool
lists_forward_tsn [] = false
lists_forward_tsn (t ∷ ts) = t == ct_forward_tsn || lists_forward_tsn ts

-- The loop of `handle_init` over the parameters.
unfoldable pub init_supports : List Param → Bool
unfolding lists_forward_tsn
init_supports [] = false
init_supports (supported_extensions ts ∷ ps) = lists_forward_tsn ts || init_supports ps
init_supports (p ∷ ps) = init_supports ps

-- The loop of `handle_init_ack`, which also knows the parameter of its own, and its last cookie.
unfoldable pub init_ack_supports : List Param → Bool
unfolding lists_forward_tsn
init_ack_supports [] = false
init_ack_supports (supported_extensions ts ∷ ps) = lists_forward_tsn ts || init_ack_supports ps
init_ack_supports (forward_tsn_supported ∷ ps) = true
init_ack_supports (p ∷ ps) = init_ack_supports ps

unfoldable pub last_cookie : List Param → Option (List ℕ) → Option (List ℕ)
last_cookie [] found = found
last_cookie (state_cookie c ∷ ps) found = last_cookie ps (some c)
last_cookie (p ∷ ps) found = last_cookie ps found

-- What both handlers first take from the peer's chunk.
unfoldable pub note_peer : Association → ChunkInit → Association
note_peer a i = record a {
  my_max_num_inbound_streams = min i.num_inbound_streams a.my_max_num_inbound_streams;
  my_max_num_outbound_streams = min i.num_outbound_streams a.my_max_num_outbound_streams;
  peer_verification_tag = i.initiate_tag;
  peer_last_tsn = if i.initial_tsn == 0 then 2 ^ 32 - 1 else i.initial_tsn - 1;
}

abbrev pub cookie_or : Option (List ℕ) → List ℕ → List ℕ
cookie_or none d = d
cookie_or (some c) d = c

-- `handle_init` behind its guard.
unfoldable pub answer_init : Association → List ℕ → Packet → ChunkInit → Handled (List Packet)
unfolding note_peer init_supports set_forward_tsn_supported create_packet
answer_init a random_cookie p i =
    let cookie = cookie_or a.my_cookie random_cookie in
    let b = record (note_peer a i) {
      source_port = p.destination_port;
      destination_port = p.source_port;
      use_forward_tsn = a.use_forward_tsn || init_supports i.params;
      my_cookie = some cookie;
    } in
    let init_ack : ChunkInit = record {
      is_ack = true;
      initial_tsn = b.my_next_tsn;
      num_outbound_streams = b.my_max_num_outbound_streams;
      num_inbound_streams = b.my_max_num_inbound_streams;
      initiate_tag = b.my_verification_tag;
      advertised_receiver_window_credit = b.max_receive_buffer_size;
      params = state_cookie cookie ∷ [];
    } in
    (b, ok (create_packet b (init (set_forward_tsn_supported init_ack) ∷ []) ∷ []))

unfoldable pub handle_init : Association → List ℕ → Packet → ChunkInit → Handled (List Packet)
unfolding state_eq answer_init
handle_init a random_cookie p i =
    if not (state_eq (get_state a) closed)
      && not (state_eq (get_state a) cookie_wait)
      && not (state_eq (get_state a) cookie_echoed)
    then (a, err handle_init_state)
    else answer_init a random_cookie p i

-- The end of `handle_init_ack`, with the cookie that it found.
unfoldable pub echo_cookie : Association → Option (List ℕ) → Handled (List Packet)
unfolding send_cookie_echo
echo_cookie a none = (a, err init_ack_no_cookie)
echo_cookie a (some c) =
    and_then (send_cookie_echo (record a { stored_cookie_echo = some (record { cookie = c }) }))
      (λ b _. (set_state (record b { t1cookie = start b.t1cookie }) cookie_echoed, ok []))

-- `handle_init_ack` behind the check of the ports.
unfoldable pub accept_init_ack : Association → ChunkInit → Handled (List Packet)
unfolding echo_cookie init_ack_supports last_cookie
accept_init_ack a i =
    let b = record a {
      rwnd = i.advertised_receiver_window_credit;
      ssthresh = i.advertised_receiver_window_credit;
      t1init = stop_rtx a.t1init;
      stored_init = none;
      use_forward_tsn = a.use_forward_tsn || init_ack_supports i.params;
    } in
    echo_cookie b (last_cookie i.params none)

unfoldable pub handle_init_ack : Association → Packet → ChunkInit → Handled (List Packet)
unfolding state_eq note_peer accept_init_ack
handle_init_ack a p i =
    if not (state_eq (get_state a) cookie_wait)
    then (a, ok [])
    else if not (a.source_port == p.destination_port) || not (a.destination_port == p.source_port)
    then (note_peer a i, ok [])
    else accept_init_ack (note_peer a i) i

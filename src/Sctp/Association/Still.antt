-- ===== src/Sctp/Association/Still.antt =====
-- The routines of association_internal.rs that leave the association's state as it is.
use webrtc_unreliable_client.Prelude.{
  ℕ, zero, suc, ◌≡◌, refl, ap, ◌∙◌, Bool, true, false, List, [], Option, none, some, length, arith,
  if◌then◌else◌,
}
use webrtc_unreliable_client.Prelude.Words.{add32}
use webrtc_unreliable_client.Wire.{ok, err, panic}
use webrtc_unreliable_client.Sctp.Stream.{Stream}
use webrtc_unreliable_client.Sctp.Chunk.PayloadData.{ChunkPayloadData}
use webrtc_unreliable_client.Sctp.Queue.Payload.{PayloadQueue, pop, can_push}
use webrtc_unreliable_client.Sctp.Packet.{Packet}
use webrtc_unreliable_client.Sctp.Association.{Association, Handled, and_then, get_state}
use webrtc_unreliable_client.Sctp.Association.Streams.{get_or_create_stream, create_stream}
use webrtc_unreliable_client.Sctp.Association.Receive.{
  advance_peer_last_tsn, advance_popped, advance_once, values, trigger_ack, receive_data,
  accept_data, data_of_stream, handle_data, skip_to, handle_peer_last_tsn_and_acknowledgement,
}
use webrtc_unreliable_client.Sctp.Association.Frames.{retry_resets-IsRestreamed}

-- The state is the same.
abbrev pub IsStill : Association → Association → Type 0
IsStill a b = get_state b ≡ get_state a

pub and_then-IsStill :
    {A B : Type 0} (a : Association) (r : Handled A) (f : Association → A → Handled B)
    → IsStill a r.0
    → ((b : Association) (x : A) → IsStill b (f b x).0)
    → IsStill a (and_then r f).0
and_then-IsStill a (b, ok x) f h k = k b x ∙ h
and_then-IsStill a (b, err e) f h k = h
and_then-IsStill a (b, panic) f h k = h

advance_popped-IsStill :
    (a : Association) (reply : List Packet) (r : PayloadQueue × Option ChunkPayloadData)
    → IsStill a (advance_popped a reply r).0
unfolding advance_popped advance_once
advance_popped-IsStill a reply (q, none) = refl
advance_popped-IsStill a reply (q, some c) =
    let b : Association = record a { payload_queue = q; peer_last_tsn = add32 a.peer_last_tsn 1 } in
    ap get_state (retry_resets-IsRestreamed (values b.reconfig_requests) b reply).same

pub if-IsStill :
    (b : Bool) (a : Association) {A : Type 0} (x y : Association × A)
    → IsStill a x.0
    → IsStill a y.0
    → IsStill a (if b then x else y).0
if-IsStill true a x y h k = h
if-IsStill false a x y h k = k

advance_peer_last_tsn-IsStill :
    (n : ℕ) (a : Association) (reply : List Packet) → IsStill a (advance_peer_last_tsn n a reply).0
unfolding advance_peer_last_tsn
advance_peer_last_tsn-IsStill zero a reply = refl
advance_peer_last_tsn-IsStill (suc n) a reply =
    let r = pop a.payload_queue (add32 a.peer_last_tsn 1) in
    let (b, reply', more) = advance_popped a reply r in
    let h : IsStill a b = advance_popped-IsStill a reply r in
    if-IsStill more a (advance_peer_last_tsn n b reply') (b, reply')
      (advance_peer_last_tsn-IsStill n b reply' ∙ h) h

trigger_ack-IsStill : (a : Association) (s : Bool) → IsStill a (trigger_ack a s)
unfolding trigger_ack
trigger_ack-IsStill a s = ground arith

pub acknowledge-IsStill :
    (a : Association) (s : Bool) → IsStill a (handle_peer_last_tsn_and_acknowledgement a s).0
unfolding handle_peer_last_tsn_and_acknowledgement
acknowledge-IsStill a s =
    let n : ℕ = length a.payload_queue.sorted in
    trigger_ack-IsStill (advance_peer_last_tsn n a []).0 s ∙ advance_peer_last_tsn-IsStill n a []

receive_data-IsStill : (a : Association) (d : ChunkPayloadData) → IsStill a (receive_data a d)
unfolding receive_data accept_data
receive_data-IsStill a d = ground arith

get_or_create_stream-IsStill : (a : Association) (si : ℕ) → IsStill a (get_or_create_stream a si).0
unfolding get_or_create_stream create_stream
get_or_create_stream-IsStill a si = ground arith

data_of_stream-IsStill :
    (a : Association) (d : ChunkPayloadData) (r : Association × Option Stream)
    → IsStill a r.0
    → IsStill a (data_of_stream d r).0
unfolding data_of_stream
data_of_stream-IsStill a d (b, none) h = h
data_of_stream-IsStill a d (b, some s) h =
    acknowledge-IsStill (receive_data b d) d.immediate_sack ∙ (receive_data-IsStill b d ∙ h)

pub handle_data-IsStill : (a : Association) (d : ChunkPayloadData) → IsStill a (handle_data a d).0
unfolding handle_data
handle_data-IsStill a d =
    if-IsStill (can_push a.payload_queue d a.peer_last_tsn) a _ _
      (data_of_stream-IsStill a d (get_or_create_stream a d.stream_identifier)
        (get_or_create_stream-IsStill a d.stream_identifier))
      (acknowledge-IsStill a d.immediate_sack)

pub skip_to-IsStill : (n : ℕ) (a : Association) (t : ℕ) → IsStill a (skip_to n a t)
unfolding skip_to
skip_to-IsStill zero a t = refl
skip_to-IsStill (suc n) a t =
    let next : ℕ = add32 a.peer_last_tsn 1 in
    let b : Association = record a {
      payload_queue = (pop a.payload_queue next).0;
      peer_last_tsn = next;
    } in
    let h : IsStill b (skip_to n b t) = skip_to-IsStill n b t in ground (arith, h)

-- ===== src/Sctp/Association/Behaviour.antt =====
-- How single routines of association_internal.rs behave.
use webrtc_unreliable_client.Prelude.{
  ℕ, zero, suc, ◌^◌, ◌<◌, ◌≡◌, refl, ap, true, Option, none, arith,
}
use webrtc_unreliable_client.Prelude.Words.{IsU32, add32}
use webrtc_unreliable_client.Wire.{err}
use webrtc_unreliable_client.Sctp.Error.{init_not_stored_to_send}
use webrtc_unreliable_client.Sctp.Sna.{sna32lt}
use webrtc_unreliable_client.Sctp.Sna.Order.{distance32, sna32lt_lem}
use webrtc_unreliable_client.Sctp.Packet.{ChunkInit}
use webrtc_unreliable_client.Sctp.Queue.Payload.{pop}
use webrtc_unreliable_client.Sctp.Association.{Association, Handled, t1_init, awake_write_loop}
use webrtc_unreliable_client.Sctp.Association.Handshake.{send_init, push_control}
use webrtc_unreliable_client.Sctp.Association.Timeouts.{on_retransmission_timeout}
use webrtc_unreliable_client.Sctp.Association.Receive.{skip_to}

sent_init :
    (a : Association) (o : Option ChunkInit)
    → a.stored_init ≡ o
    → (send_init a).0.stored_init ≡ none
unfolding send_init push_control awake_write_loop
sent_init a o e = ground (arith, e)

nothing_stored :
    (a : Association) → a.stored_init ≡ none → send_init a ≡ (a, err init_not_stored_to_send)
unfolding send_init
nothing_stored a e = ground (arith, e)

-- Sending the INIT uses it up: a timeout of its timer afterwards changes nothing and sends nothing.
pub init_timeout_sends_nothing :
    (a : Association)
    → let b = (send_init a).0 in
      (on_retransmission_timeout b t1_init ≡ b) × ((send_init b).1 ≡ err init_not_stored_to_send)
unfolding on_retransmission_timeout
init_timeout_sends_nothing a =
    let b : Association = (send_init a).0 in
    let e : send_init b ≡ (b, err init_not_stored_to_send) =
      nothing_stored b (sent_init a a.stored_init refl) in
    (ap (λ (r : Handled (Unit {0})). r.0) e, ap (λ (r : Handled (Unit {0})). r.1) e)

-- The loop that skips to the new cumulative TSN of a FORWARD TSN chunk ends there, on the fuel that
-- `handle_forward_tsn` gives it, if both are `u32` and the new one is ahead by less than 2 ^ 31.
pub skip_to_reaches :
    (n : ℕ) (a : Association) (t : ℕ)
    → IsU32 a.peer_last_tsn
    → IsU32 t
    → distance32 a.peer_last_tsn t ≡ n
    → n < 2 ^ 31
    → (skip_to n a t).peer_last_tsn ≡ t
unfolding skip_to
skip_to_reaches zero a t h k e l = omega arith
skip_to_reaches (suc n) a t h k e l =
    let next : ℕ = add32 a.peer_last_tsn 1 in
    let b : Association = record a {
      payload_queue = (pop a.payload_queue next).0;
      peer_last_tsn = next;
    } in
    let lt : sna32lt a.peer_last_tsn t ≡ true =
      (sna32lt_lem a.peer_last_tsn t h k).1 (omega arith, omega arith) in
    rw lt (skip_to_reaches n b t (omega arith) k (omega arith) (omega arith))

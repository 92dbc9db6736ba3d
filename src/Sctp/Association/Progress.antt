-- ===== src/Sctp/Association/Progress.antt =====
-- What `pop_pending_data_chunks_to_send` of association_internal.rs sends.
use webrtc_unreliable_client.Prelude.{
  ℕ, ◌^◌, ◌<◌, ◌≡◌, ◌⊎◌, refl, ap, ◌∙◌, Bool, true, false, ◌&&◌, List, [], ◌∷◌, ◌++◌, Option, none,
  some, length, arith, ◌==◌, if◌then◌else◌, Bool-cases, inl, inr,
}
use webrtc_unreliable_client.Prelude.Words.{IsU32}
use webrtc_unreliable_client.Sctp.Chunk.PayloadData.{ChunkPayloadData}
use webrtc_unreliable_client.Sctp.Queue.Pending.{PendingQueue, peek, pop, len}
use webrtc_unreliable_client.Sctp.Queue.Pending.Framing.{IsFramed, pop-peek}
use webrtc_unreliable_client.Sctp.Queue.Payload.{is_empty}
use webrtc_unreliable_client.Sctp.Association.{Association}
use webrtc_unreliable_client.Sctp.Association.Send.{
  Popped, pop_loop, move_front, probe, probe_if_idle, has_none, send_chunk, with_pending,
  pop_pending_data_chunks_to_send,
}
use webrtc_unreliable_client.Sctp.Association.Window.{IsSending, pop_loop-IsSending, move_front-lem}

none_left : (cs : List ChunkPayloadData) → has_none cs ≡ true → cs ≡ []
unfolding has_none
none_left [] h = refl
none_left (c ∷ cs) h = cc

-- What is sent: within both windows, or one chunk as a probe while none is in flight.
abbrev pub IsSent : Association → Popped → Type 0
IsSent a s = IsSending a s ⊎ ((is_empty a.inflight_queue ≡ true) × (length s.1 ≡ 1))

probe-IsSent :
    (a : Association) (s : Popped) (now : ℕ) (o : Option ChunkPayloadData)
    → peek s.0.shared.pending_queue ≡ o
    → s.1 ≡ []
    → is_empty s.0.inflight_queue ≡ true
    → IsSending a s
    → IsSent a (probe s now o)
unfolding probe
probe-IsSent a s now none e f h i = inl i
probe-IsSent a (b, chunks, sis) now (some c) e f h i =
    let (found, framed, after, kind) = pop-peek c i.framed e in
    let q : PendingQueue = (pop b.shared.pending_queue c.beginning_fragment c.unordered).0 in
    let (d, c') = send_chunk (with_pending b q) now c in
    let sent : move_front (b, chunks, sis) now c ≡ (d, chunks ++ (c' ∷ []), sis) =
      move_front-lem b chunks sis now c q (ap (λ x. (q, x)) found) in
    inr (rw (i.unsent f) at h, ap (λ (x : Popped). length x.1) sent ∙ rw f refl)

if-IsSent :
    (b : Bool) (a : Association) (s t : Popped)
    → IsSent a s
    → IsSent a t
    → IsSent a (if b then s else t)
if-IsSent true a s t h k = h
if-IsSent false a s t h k = k

and_left : (b c : Bool) → (b && c) ≡ true → b ≡ true
and_left b c h = ground arith

and_right : (b c : Bool) → (b && c) ≡ true → c ≡ true
and_right b c h = ground arith

probe_if_idle-IsSent :
    (a : Association) (s : Popped) (now : ℕ) → IsSending a s → IsSent a (probe_if_idle s now)
unfolding probe_if_idle
probe_if_idle-IsSent a s now i = elim (Bool-cases (has_none s.1 && is_empty s.0.inflight_queue)) [
  | inl e ↦
      let f : s.1 ≡ [] = none_left s.1 (and_left (has_none s.1) (is_empty s.0.inflight_queue) e) in
      let h : is_empty s.0.inflight_queue ≡ true =
        and_right (has_none s.1) (is_empty s.0.inflight_queue) e in
      rw e (probe-IsSent a s now (peek s.0.shared.pending_queue) refl f h i)
  | inr e ↦ rw e (inl i)
]

pub nothing_sent : (a : Association) → IsFramed a.shared.pending_queue → IsSending a (a, [], [])
nothing_sent a f = record {
  framed = f;
  cwnd_kept = refl;
  window = omega arith;
  inflight = omega arith;
  below = inl refl;
  unsent = λ e. refl;
}

-- From a framed pending queue, the chunks that are popped for sending are taken off the peer's receive
-- window and added to the bytes in flight, which then stay within the congestion window if there is
-- any such chunk; or nothing was in flight, and one chunk goes out as a probe. The windows are `u32`
-- and the bytes in flight below 2 ^ 62.
pub pop_pending_data_chunks_to_send-IsSent :
    (a : Association) (now : ℕ)
    → IsU32 a.cwnd
    → IsU32 a.rwnd
    → a.inflight_queue.n_bytes < 2 ^ 62
    → IsFramed a.shared.pending_queue
    → IsSent a (pop_pending_data_chunks_to_send a now)
unfolding pop_pending_data_chunks_to_send
pop_pending_data_chunks_to_send-IsSent a now hc hr hn f =
    let n : ℕ = len a.shared.pending_queue in
    let s : Popped = pop_loop n now (a, [], []) in
    if-IsSent (n == 0) a (a, [], []) (probe_if_idle s now) (inl (nothing_sent a f))
      (probe_if_idle-IsSent a s now
        (pop_loop-IsSending n now a (a, [], []) hc hr hn (nothing_sent a f)))

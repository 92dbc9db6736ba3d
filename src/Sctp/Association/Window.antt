-- ===== src/Sctp/Association/Window.antt =====
-- The congestion window and the peer's receive window in `pop_pending_data_chunks_to_send` of
-- association_internal.rs.
use webrtc_unreliable_client.Prelude.{
  ℕ, zero, suc, ◌+◌, ◌-◌, ◌^◌, ◌<◌, ◌≤◌, ◌≡◌, ◌≢◌, ◌⊎◌, refl, ap, ◌∙◌, Bool, true, false, List, [],
  ◌∷◌, ◌++◌, Option, none, some, length, total-append, arith, ltb, ◌==◌, if◌then◌else◌, Bool-cases,
  inl, inr,
}
use webrtc_unreliable_client.Prelude.Words.{IsU32, add_size}
use webrtc_unreliable_client.Sctp.Chunk.PayloadData.{ChunkPayloadData, Flags, set_all_inflight}
use webrtc_unreliable_client.Sctp.Queue.Pending.{PendingQueue, peek, pop}
use webrtc_unreliable_client.Sctp.Queue.Pending.Count.{data_bytes}
use webrtc_unreliable_client.Sctp.Queue.Pending.Framing.{IsFramed, pop-peek}
use webrtc_unreliable_client.Sctp.Queue.Payload.{PayloadQueue, get_num_bytes, push_no_check}
use webrtc_unreliable_client.Sctp.Association.{Association, generate_next_tsn}
use webrtc_unreliable_client.Sctp.Association.Send.{
  Popped, with_pending, with_flags, send_chunk, check_partial_reliability_status, send_popped,
  move_front, move_pending_data_chunk_to_inflight_queue, pop_round, peek_round, pop_loop,
}

-- How the state of the loop, begun at `a`, accounts for the chunks that it has taken.
pub record IsSending (a : Association) (s : Popped) : Type 0 where
  pub framed : IsFramed s.0.shared.pending_queue
  pub cwnd_kept : s.0.cwnd ≡ a.cwnd
  pub window : s.0.rwnd + data_bytes s.1 ≡ a.rwnd
  pub inflight : s.0.inflight_queue.n_bytes ≡ a.inflight_queue.n_bytes + data_bytes s.1
  pub below : (s.1 ≡ []) ⊎ (s.0.inflight_queue.n_bytes ≤ a.cwnd)
  pub unsent : s.1 ≡ [] → s.0.inflight_queue ≡ a.inflight_queue

check_partial_reliability_status-frame :
    (a : Association) (c : ChunkPayloadData)
    → let b = check_partial_reliability_status a c in
      (b.shared.pending_queue ≡ a.shared.pending_queue)
      × (b.cwnd ≡ a.cwnd)
      × (b.rwnd ≡ a.rwnd)
      × (b.inflight_queue ≡ a.inflight_queue)
unfolding check_partial_reliability_status
check_partial_reliability_status-frame a c =
    (ground arith, ground arith, ground arith, ground arith)

pub send_chunk-frame :
    (a : Association) (now : ℕ) (c : ChunkPayloadData)
    → let (b, c') = send_chunk a now c in
      (b.shared.pending_queue ≡ a.shared.pending_queue)
      × (b.cwnd ≡ a.cwnd)
      × (b.rwnd ≡ a.rwnd)
      × (c'.user_data ≡ c.user_data)
      × (b.inflight_queue ≡ push_no_check a.inflight_queue c')
unfolding send_chunk generate_next_tsn
send_chunk-frame a now c =
    let flags : Flags =
      if c.ending_fragment then set_all_inflight a.shared.flags c else a.shared.flags in
    let b : Association = (generate_next_tsn (with_flags a flags)).0 in
    let c' : ChunkPayloadData = record c { tsn = a.my_next_tsn; since = now; nsent = 1 } in
    let (p, w, r, q) = check_partial_reliability_status-frame b c' in
    (p, w, r, refl, ap (λ x. push_no_check x c') q)

pub move_front-lem :
    (a : Association) (chunks : List ChunkPayloadData) (sis : List ℕ) (now : ℕ)
    (c : ChunkPayloadData)
    → (q : PendingQueue) → pop a.shared.pending_queue c.beginning_fragment c.unordered ≡ (q, some c)
    → let (b, c') = send_chunk (with_pending a q) now c in
      move_front (a, chunks, sis) now c ≡ (b, chunks ++ (c' ∷ []), sis)
unfolding move_front move_pending_data_chunk_to_inflight_queue send_popped
move_front-lem a chunks sis now c q e = rw e refl

data_bytes-snoc :
    (cs : List ChunkPayloadData) (c : ChunkPayloadData)
    → data_bytes (cs ++ (c ∷ [])) ≡ data_bytes cs + length c.user_data
data_bytes-snoc cs c =
    omega (arith, total-append (λ (x : ChunkPayloadData). length x.user_data) cs (c ∷ []))

pub snoc_nil : (cs : List ChunkPayloadData) (c : ChunkPayloadData) → cs ++ (c ∷ []) ≢ []
snoc_nil [] c e = cc
snoc_nil (d ∷ cs) c e = cc

no_less : (m n : ℕ) → ltb m n ≡ false → n ≤ m
no_less m n h = ground arith

-- The chunk at the front is sent, if both windows have room for it.
send_front-IsSending :
    (a b : Association) (chunks : List ChunkPayloadData) (sis : List ℕ) (now : ℕ)
    (c : ChunkPayloadData)
    → IsU32 a.cwnd
    → IsU32 a.rwnd
    → b.inflight_queue.n_bytes < 2 ^ 63
    → peek b.shared.pending_queue ≡ some c
    → ltb b.cwnd (add_size b.inflight_queue.n_bytes (length c.user_data)) ≡ false
    → ltb b.rwnd (length c.user_data) ≡ false
    → IsSending a (b, chunks, sis)
    → IsSending a (move_front (record b { rwnd = b.rwnd - length c.user_data }, chunks, sis) now c)
unfolding push_no_check
send_front-IsSending a b chunks sis now c hc hr hn e fits_c fits_r s =
    let n : ℕ = length c.user_data in
    let d : Association = record b { rwnd = b.rwnd - n } in
    let (found, framed, after, kind) = pop-peek c s.framed e in
    let q : PendingQueue = (pop b.shared.pending_queue c.beginning_fragment c.unordered).0 in
    let (p, w, r, u, i) = send_chunk-frame (with_pending d q) now c in
    let (b', c') = send_chunk (with_pending d q) now c in
    let same : length c'.user_data ≡ n = ap length u in
    let held : b'.inflight_queue.n_bytes ≡ add_size b.inflight_queue.n_bytes (length c'.user_data) =
      ap (λ (x : PayloadQueue). x.n_bytes) i in
    let room : n ≤ b.rwnd = no_less b.rwnd n fits_r in
    let below : add_size b.inflight_queue.n_bytes n ≤ b.cwnd =
      no_less b.cwnd (add_size b.inflight_queue.n_bytes n) fits_c in
    let all : data_bytes (chunks ++ (c' ∷ [])) ≡ data_bytes chunks + length c'.user_data =
      data_bytes-snoc chunks c' in
    let rwnd : b'.rwnd ≡ b.rwnd - n = r in
    rw (move_front-lem d chunks sis now c q (ap (λ x. (q, x)) found)) (record {
      framed = rw p framed;
      cwnd_kept = w ∙ s.cwnd_kept;
      window = omega (arith, rwnd, all, same, room, s.window);
      inflight = omega (arith, held, all, same, s.inflight, hn, room, s.window);
      below = inr (omega (arith, held, same, below, s.cwnd_kept));
      unsent = λ empty. absurd (snoc_nil chunks c' empty);
    })

-- A round keeps the account.
pop_round-IsSending :
    (a b : Association) (chunks : List ChunkPayloadData) (sis : List ℕ) (now : ℕ)
    (c : ChunkPayloadData)
    → IsU32 a.cwnd
    → IsU32 a.rwnd
    → a.inflight_queue.n_bytes < 2 ^ 62
    → peek b.shared.pending_queue ≡ some c
    → IsSending a (b, chunks, sis)
    → IsSending a (pop_round (b, chunks, sis) now c).0
unfolding pop_round get_num_bytes
pop_round-IsSending a b chunks sis now c hc hr hn e s =
    let (found, framed, after, kind) = pop-peek c s.framed e in
    let reset : IsSending a (
      with_pending b (pop b.shared.pending_queue c.beginning_fragment c.unordered).0,
      chunks,
      sis ++ (c.stream_identifier ∷ []),
    ) =
      record {
        framed = framed;
        cwnd_kept = s.cwnd_kept;
        window = s.window;
        inflight = s.inflight;
        below = s.below;
        unsent = s.unsent;
      } in
    elim (Bool-cases (length c.user_data == 0)) [
      | inl z ↦ rw z reset
      | inr z ↦
          elim (Bool-cases (ltb b.cwnd (add_size b.inflight_queue.n_bytes (length c.user_data)))) [
            | inl over ↦ rw (z, over) s
            | inr fits_c ↦ elim (Bool-cases (ltb b.rwnd (length c.user_data))) [
              | inl over ↦ rw (z, fits_c, over) s
              | inr fits_r ↦
                  rw (z, fits_c, fits_r)
                    (send_front-IsSending a b chunks sis now c hc hr
                      (omega (arith, s.inflight, s.window)) e fits_c fits_r s)
            ]
          ]
    ]

pub peek_round-IsSending :
    (a : Association) (s : Popped) (now : ℕ) (o : Option ChunkPayloadData)
    → IsU32 a.cwnd
    → IsU32 a.rwnd
    → a.inflight_queue.n_bytes < 2 ^ 62
    → peek s.0.shared.pending_queue ≡ o
    → IsSending a s
    → IsSending a (peek_round s now o).0
unfolding peek_round
peek_round-IsSending a s now none hc hr hn e i = i
peek_round-IsSending a (b, chunks, sis) now (some c) hc hr hn e i =
    pop_round-IsSending a b chunks sis now c hc hr hn e i

if-IsSending :
    (b : Bool) (a : Association) (s t : Popped)
    → IsSending a s
    → IsSending a t
    → IsSending a (if b then s else t)
if-IsSending true a s t h k = h
if-IsSending false a s t h k = k

pub pop_loop-IsSending :
    (n now : ℕ) (a : Association) (s : Popped)
    → IsU32 a.cwnd
    → IsU32 a.rwnd
    → a.inflight_queue.n_bytes < 2 ^ 62
    → IsSending a s
    → IsSending a (pop_loop n now s)
unfolding pop_loop
pop_loop-IsSending zero now a s hc hr hn i = i
pop_loop-IsSending (suc n) now a s hc hr hn i =
    let o : Option ChunkPayloadData = peek s.0.shared.pending_queue in
    let (s', more) = peek_round s now o in
    let i' : IsSending a s' = peek_round-IsSending a s now o hc hr hn refl i in
    if-IsSending more a (pop_loop n now s') s' (pop_loop-IsSending n now a s' hc hr hn i') i'

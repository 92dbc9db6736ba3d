-- ===== src/Sctp/Association/Advance.antt =====
-- The cumulative TSN of association_internal.rs: `peer_last_tsn` and the queue of received chunks.
use webrtc_unreliable_client.Prelude.{
  ℕ, zero, suc, ◌+◌, ◌%◌, ◌^◌, ◌<◌, ◌≤◌, ◌≡◌, refl, ap, sym, ◌∙◌, Bool, true, List, [], Option,
  none, some, length, arith, inl, inr, false, ◌==◌,
}
use webrtc_unreliable_client.Prelude.Words.{add32, IsU32}
use webrtc_unreliable_client.Prelude.Map.{is_some}
use webrtc_unreliable_client.Sctp.Chunk.PayloadData.{ChunkPayloadData}
use webrtc_unreliable_client.Sctp.Queue.Payload.{PayloadQueue, get, pop}
use webrtc_unreliable_client.Sctp.Queue.Payload.Count.{IsValid, pop-IsValid}
use webrtc_unreliable_client.Sctp.Queue.Payload.Order.{IsOrdered, pop-get}
use webrtc_unreliable_client.Sctp.Queue.Payload.Pops.{
  pop-shorter, pop-get_before, pop-get_other, pop_empty,
}
use webrtc_unreliable_client.Sctp.Packet.{Packet}
use webrtc_unreliable_client.Sctp.Association.{Association}
use webrtc_unreliable_client.Sctp.Association.Receive.{
  advance_peer_last_tsn, advance_popped, advance_once, values, trigger_ack,
  handle_peer_last_tsn_and_acknowledgement,
}
use webrtc_unreliable_client.Sctp.Association.Frames.{retry_resets-IsRestreamed}

-- Where the cumulative TSN stands in `b` after it advanced from `from`, with the chunks `had` received
-- before: it passed a row of TSNs that all were received; the queue still holds all the others as
-- they were, and the one behind the new cumulative TSN is not among them.
pub record HasPassed (had : ℕ → Option ChunkPayloadData) (from : ℕ) (b : Association) : Type 0 where
  pub steps : ℕ
  pub point : b.peer_last_tsn ≡ (from + steps) % 2 ^ 32
  pub received : (k : ℕ) → k < steps → is_some (had ((from + k + 1) % 2 ^ 32)) ≡ true
  pub kept :
      (t : ℕ)
      → ((k : ℕ) → k < steps → ((from + k + 1) % 2 ^ 32 == t) ≡ false)
      → get b.payload_queue t ≡ had t
  pub stopped : get b.payload_queue (add32 b.peer_last_tsn 1) ≡ none
  pub valid : IsValid b.payload_queue
  pub ordered : IsOrdered b.peer_last_tsn b.payload_queue

-- The cumulative TSN advanced from `a` to `b`, over chunks of the queue.
abbrev pub IsAdvanced : Association → Association → Type 0
IsAdvanced a b = HasPassed (get a.payload_queue) a.peer_last_tsn b

-- The queue is in order behind the cumulative TSN.
pub record IsInOrder (a : Association) : Type 0 where
  pub fits : IsU32 a.peer_last_tsn
  pub valid : IsValid a.payload_queue
  pub ordered : IsOrdered a.peer_last_tsn a.payload_queue

abbrev next_pop : Association → PayloadQueue × Option ChunkPayloadData
next_pop a = pop a.payload_queue (add32 a.peer_last_tsn 1)

advance_none :
    (n : ℕ) (a : Association) (reply : List Packet) (q : PayloadQueue)
    → next_pop a ≡ (q, none)
    → advance_peer_last_tsn (suc n) a reply ≡ (record a { payload_queue = q }, reply)
unfolding advance_peer_last_tsn advance_popped
advance_none n a reply q e = rw e refl

advance_some :
    (n : ℕ) (a : Association) (reply : List Packet) (q : PayloadQueue) (c : ChunkPayloadData)
    → next_pop a ≡ (q, some c)
    → advance_peer_last_tsn (suc n) a reply
      ≡ advance_peer_last_tsn n (advance_once a reply q).0 (advance_once a reply q).1
unfolding advance_peer_last_tsn advance_popped
advance_some n a reply q c e = rw e refl

-- The body of the loop moves the point by one and keeps what `pop` left.
advance_once-lem :
    (a : Association) (reply : List Packet) (q : PayloadQueue)
    → let b = (advance_once a reply q).0 in
      (b.payload_queue ≡ q) × (b.peer_last_tsn ≡ add32 a.peer_last_tsn 1)
unfolding advance_once
advance_once-lem a reply q =
    let b : Association = record a { payload_queue = q; peer_last_tsn = add32 a.peer_last_tsn 1 } in
    let f = retry_resets-IsRestreamed (values b.reconfig_requests) b reply in
    (
      ap (λ (x : Association). x.payload_queue) f.same,
      ap (λ (x : Association). x.peer_last_tsn) f.same,
    )

stops :
    (a : Association)
    → (next_pop a).1 ≡ none
    → (next_pop a).0 ≡ a.payload_queue
    → IsInOrder a
    → IsAdvanced a (record a { payload_queue = (next_pop a).0 })
stops a e f i =
    let (same, rest) = pop-get a.peer_last_tsn i.fits i.valid i.ordered in
    record {
      steps = 0;
      point = omega (arith, i.fits);
      received = λ k h. absurd (omega arith);
      kept = λ t h. rw f refl;
      stopped = rw f (sym same ∙ e);
      valid = rw f i.valid;
      ordered = rw f i.ordered;
    }

goes_on :
    (a b c : Association)
    → b.peer_last_tsn ≡ add32 a.peer_last_tsn 1
    → b.payload_queue ≡ (next_pop a).0
    → is_some (next_pop a).1 ≡ true
    → IsInOrder a
    → IsAdvanced b c
    → IsAdvanced a c
goes_on a b c p q found i r = record {
  steps = r.steps + 1;
  point = omega (arith, r.point, p);
  received = passed;
  kept = others;
  stopped = r.stopped;
  valid = r.valid;
  ordered = r.ordered;
}
  where
    at : ℕ → Type 0
    at t = is_some (get a.payload_queue t) ≡ true

    first : at (add32 a.peer_last_tsn 1)
    first = let (same, rest) = pop-get a.peer_last_tsn i.fits i.valid i.ordered in rw same at found

    passed : (k : ℕ) → k < r.steps + 1 → at ((a.peer_last_tsn + k + 1) % 2 ^ 32)
    passed zero h =
        let e : (a.peer_last_tsn + zero + 1) % 2 ^ 32 ≡ add32 a.peer_last_tsn 1 = omega arith in
        rw e first
    passed (suc k) h =
        let e : (a.peer_last_tsn + suc k + 1) % 2 ^ 32 ≡ (b.peer_last_tsn + k + 1) % 2 ^ 32 =
          omega (arith, p) in
        let t : ℕ = (b.peer_last_tsn + k + 1) % 2 ^ 32 in
        let later : is_some (get b.payload_queue t) ≡ true = r.received k (omega arith) in
        rw e (pop-get_before a.payload_queue (add32 a.peer_last_tsn 1) t (rw q at later))

    others :
        (t : ℕ)
        → ((k : ℕ) → k < r.steps + 1 → ((a.peer_last_tsn + k + 1) % 2 ^ 32 == t) ≡ false)
        → get c.payload_queue t ≡ get a.payload_queue t
    others t h =
        let e : (a.peer_last_tsn + 0 + 1) % 2 ^ 32 ≡ add32 a.peer_last_tsn 1 = omega arith in
        let ne : (add32 a.peer_last_tsn 1 == t) ≡ false = rw e at (h 0 (omega arith)) in
        let shift : (k : ℕ)
            → (b.peer_last_tsn + k + 1) % 2 ^ 32 ≡ (a.peer_last_tsn + (k + 1) + 1) % 2 ^ 32 =
          λ k. omega (arith, p) in
        r.kept t (λ k l. rw (shift k) (h (k + 1) (omega arith)))
        ∙ (ap (λ x. get x t) q ∙ pop-get_other a.payload_queue (add32 a.peer_last_tsn 1) t ne)

-- The loop ends on this fuel where the queue is in order and no longer than it.
abbrev EndsOn : ℕ → Type 0
EndsOn n =
    (a : Association) (reply : List Packet)
    → IsInOrder a
    → length a.payload_queue.sorted ≤ n
    → IsAdvanced a (advance_peer_last_tsn n a reply).0

advance_round :
    (n : ℕ) (a : Association) (reply : List Packet) (c : ChunkPayloadData)
    → EndsOn n
    → IsInOrder a
    → length a.payload_queue.sorted ≤ suc n
    → (next_pop a).1 ≡ some c
    → c.tsn ≡ add32 a.peer_last_tsn 1
    → IsOrdered c.tsn (next_pop a).0
    → IsAdvanced a (advance_peer_last_tsn (suc n) a reply).0
advance_round n a reply c more i h e t o =
    let next : ℕ = add32 a.peer_last_tsn 1 in
    let q : PayloadQueue = (next_pop a).0 in
    let (b, reply') = advance_once a reply q in
    let (kept, moved) = advance_once-lem a reply q in
    let i' : IsInOrder b = record {
      fits = rw moved (omega arith);
      valid = rw kept (pop-IsValid next i.valid);
      ordered = rw (kept, moved) (rw t at o);
    } in
    let shorter : length q.sorted ≤ n = omega (arith, pop-shorter a.payload_queue next c e) in
    rw (advance_some n a reply q c (ap (λ x. (q, x)) e)) (
      goes_on a b (advance_peer_last_tsn n b reply').0 moved kept (rw e refl) i
        (more b reply' i' (rw kept shorter)))

advance-EndsOn : (n : ℕ) → EndsOn n
unfolding advance_peer_last_tsn
advance-EndsOn zero a reply i h =
    let (e, f) = pop_empty a.payload_queue (add32 a.peer_last_tsn 1) h in rw f at (stops a e f i)
advance-EndsOn (suc n) a reply i h =
    let (same, rest) = pop-get a.peer_last_tsn i.fits i.valid i.ordered in
    elim rest [
      | inl (e, f) ↦
          rw (advance_none n a reply (next_pop a).0 (ap (λ x. ((next_pop a).0, x)) e))
            (stops a e f i)
      | inr (c, e, t, o) ↦ advance_round n a reply c (advance-EndsOn n) i h e t o
    ]

IsAdvanced-same :
    (a b c : Association)
    → c.payload_queue ≡ b.payload_queue
    → c.peer_last_tsn ≡ b.peer_last_tsn
    → IsAdvanced a b
    → IsAdvanced a c
IsAdvanced-same a b c q p r = record {
  steps = r.steps;
  point = p ∙ r.point;
  received = r.received;
  kept = λ t h. ap (λ x. get x t) q ∙ r.kept t h;
  stopped = rw (q, p) r.stopped;
  valid = rw q r.valid;
  ordered = rw (q, p) r.ordered;
}

trigger_ack-payload_queue :
    (a : Association) (s : Bool) → (trigger_ack a s).payload_queue ≡ a.payload_queue
unfolding trigger_ack
trigger_ack-payload_queue a s = ground arith

trigger_ack-peer_last_tsn :
    (a : Association) (s : Bool) → (trigger_ack a s).peer_last_tsn ≡ a.peer_last_tsn
unfolding trigger_ack
trigger_ack-peer_last_tsn a s = ground arith

-- If the queue of received chunks is valid and in order behind the cumulative TSN, the cumulative TSN
-- advances over exactly the TSNs behind it that were received without a gap: it passes only TSNs of
-- received chunks, the chunk behind it is missing, and the queue stays valid and in order.
pub acknowledge-IsAdvanced :
    (a : Association) (sack_immediately : Bool)
    → IsInOrder a
    → IsAdvanced a (handle_peer_last_tsn_and_acknowledgement a sack_immediately).0
unfolding handle_peer_last_tsn_and_acknowledgement
acknowledge-IsAdvanced a sack i =
    let b : Association = (advance_peer_last_tsn (length a.payload_queue.sorted) a []).0 in
    IsAdvanced-same a b (trigger_ack b sack) (trigger_ack-payload_queue b sack)
      (trigger_ack-peer_last_tsn b sack)
      (advance-EndsOn (length a.payload_queue.sorted) a [] i (omega arith))

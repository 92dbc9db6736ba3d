-- ===== src/Sctp/Stream/Writes.antt =====
-- Writing to a stream: stream/mod.rs with the pending queue of pending_queue.rs.
use webrtc_unreliable_client.Prelude.{
  sym, All, ℕ, ◌<◌, ◌≤◌, ◌≡◌, refl, ap, ◌∙◌, Bool, true, false, not, ◌&&◌, List, [], ◌∷◌, ◌++◌,
  length, ◌==◌, arith, ltb,
}
use webrtc_unreliable_client.Prelude.Words.{add_size}
use webrtc_unreliable_client.Wire.{ok, err}
use webrtc_unreliable_client.Sctp.Error.{payload_data_state_not_exist}
use webrtc_unreliable_client.Sctp.Shared.{Shared, new_flag, established, state_eq, awake_write_loop}
use webrtc_unreliable_client.Sctp.Chunk.PayloadData.{
  ChunkPayloadData, PayloadProtocolIdentifier, ppi_as_u32, dcep,
}
use webrtc_unreliable_client.Sctp.Queue.Pending.{PendingQueue, push}
use webrtc_unreliable_client.Sctp.Queue.Pending.Framing.{AreMessages, ends_inside, IsFramed}
use webrtc_unreliable_client.Sctp.Stream.{Stream}
use webrtc_unreliable_client.Sctp.Stream.Send.{
  packetize, push_all, push_among, write_sctp, send_message, send_payload_data, written,
  is_shutting_down, count_message,
}
use webrtc_unreliable_client.Sctp.Stream.Packets.{joined, IsFragment, IsWhole, packetize-joined}

-- The queue of the unordered chunks, or that of the ordered ones, and whether it is in the middle of a
-- message already.
abbrev pub queue_of : Bool → PendingQueue → List ChunkPayloadData
queue_of true q = q.unordered_queue
queue_of false q = q.ordered_queue

abbrev pub is_inside : Bool → PendingQueue → Bool
is_inside true q = q.selected && q.unordered_is_selected
is_inside false q = q.selected && not q.unordered_is_selected

-- The queue of this kind is a row of messages.
abbrev pub IsRow : Bool → PendingQueue → Type 0
IsRow u q = AreMessages u (is_inside u q) (queue_of u q)

pub framed-IsRow : (u : Bool) {q : PendingQueue} → IsFramed q → IsRow u q
framed-IsRow true f = f.unordered_framed
framed-IsRow false f = f.ordered_framed

-- Whether the message that was pushed last to the queue of this kind lacks fragments.
abbrev pub lacks_fragments : Bool → PendingQueue → Bool
lacks_fragments u q = ends_inside (is_inside u q) (queue_of u q)

abbrev pub is_unordered : PayloadProtocolIdentifier → Bool
is_unordered ppi = not (ppi_as_u32 ppi == ppi_as_u32 dcep)

pub ++-assoc : (xs ys zs : List ChunkPayloadData) → (xs ++ ys) ++ zs ≡ xs ++ (ys ++ zs)
++-assoc [] ys zs = refl
++-assoc (x ∷ xs) ys zs = ap (λ l. x ∷ l) (++-assoc xs ys zs)

pub ++-nil : (xs : List ChunkPayloadData) → xs ++ [] ≡ xs
++-nil [] = refl
++-nil (x ∷ xs) = ap (λ l. x ∷ l) (++-nil xs)

AreMessages-join :
    (u i : Bool) (xs ys : List ChunkPayloadData)
    → AreMessages u i xs
    → AreMessages u (ends_inside i xs) ys
    → AreMessages u i (xs ++ ys)
AreMessages-join u i [] ys m n = n
AreMessages-join u i (x ∷ xs) ys (k, b, m) n =
    (k, b, AreMessages-join u (not x.ending_fragment) xs ys m n)

pub AreMessages-split :
    (u i : Bool) (xs ys : List ChunkPayloadData)
    → AreMessages u i (xs ++ ys)
    → AreMessages u (ends_inside i xs) ys
AreMessages-split u i [] ys m = m
AreMessages-split u i (x ∷ xs) ys (k, b, m) = AreMessages-split u (not x.ending_fragment) xs ys m

ends_inside-join :
    (i : Bool) (xs ys : List ChunkPayloadData)
    → ends_inside i (xs ++ ys) ≡ ends_inside (ends_inside i xs) ys
ends_inside-join i [] ys = refl
ends_inside-join i (x ∷ xs) ys = ends_inside-join (not x.ending_fragment) xs ys

-- A push goes behind the queue of the chunk's kind, and what was begun stays begun.
pub push-queue_of :
    (u : Bool) (q : PendingQueue) (c : ChunkPayloadData)
    → c.unordered ≡ u
    → queue_of u (push q c) ≡ queue_of u q ++ (c ∷ [])
unfolding push
push-queue_of true q c e = ground (arith, e)
push-queue_of false q c e = ground (arith, e)

push-other :
    (u : Bool) (q : PendingQueue) (c : ChunkPayloadData)
    → c.unordered ≡ not u
    → queue_of u (push q c) ≡ queue_of u q
unfolding push
push-other true q c e = ground (arith, e)
push-other false q c e = ground (arith, e)

pub push-is_inside :
    (u : Bool) (q : PendingQueue) (c : ChunkPayloadData) → is_inside u (push q c) ≡ is_inside u q
unfolding push
push-is_inside true q c = ground arith
push-is_inside false q c = ground arith

push_all-other :
    (u : Bool) (q : PendingQueue) (cs : List ChunkPayloadData)
    → All (λ (c : ChunkPayloadData). c.unordered ≡ not u) cs
    → queue_of u (push_all q cs) ≡ queue_of u q
unfolding push_all
push_all-other u q [] o = refl
push_all-other u q (c ∷ cs) (e, o) = push_all-other u (push q c) cs o ∙ push-other u q c e

pub push_all-is_inside :
    (u : Bool) (q : PendingQueue) (cs : List ChunkPayloadData)
    → is_inside u (push_all q cs) ≡ is_inside u q
unfolding push_all
push_all-is_inside u q [] = refl
push_all-is_inside u q (c ∷ cs) = push_all-is_inside u (push q c) cs ∙ push-is_inside u q c

pub push_among-is_inside :
    (u : Bool) (q : PendingQueue) (cs : List ChunkPayloadData)
    (among : List (List ChunkPayloadData))
    → is_inside u (push_among q cs among) ≡ is_inside u q
unfolding push_among
push_among-is_inside u q [] among = refl
push_among-is_inside u q (c ∷ cs) [] =
    push_among-is_inside u (push q c) cs [] ∙ push-is_inside u q c
push_among-is_inside u q (c ∷ cs) (o ∷ among) =
    push_among-is_inside u (push (push_all q o) c) cs among
    ∙ (push-is_inside u (push_all q o) c ∙ push_all-is_inside u q o)

-- What others push, all of the other kind.
abbrev pub AreOthers : Bool → List (List ChunkPayloadData) → Type 0
AreOthers u among = All (λ o. All (λ (c : ChunkPayloadData). c.unordered ≡ not u) o) among

push_among-queue_of :
    (u first : Bool) (q : PendingQueue) (cs : List ChunkPayloadData)
    (among : List (List ChunkPayloadData))
    → IsWhole u first cs
    → AreOthers u among
    → queue_of u (push_among q cs among) ≡ queue_of u q ++ cs
unfolding push_among
push_among-queue_of u first q [] among w o = sym (++-nil (queue_of u q))
push_among-queue_of u first q (c ∷ cs) [] (k, b, e, w) o =
    push_among-queue_of u false (push q c) cs [] w tt
    ∙ (ap (λ l. l ++ cs) (push-queue_of u q c k) ∙ ++-assoc (queue_of u q) (c ∷ []) cs)
push_among-queue_of u first q (c ∷ cs) (x ∷ among) (k, b, e, w) (o, os) =
    let q' : PendingQueue = push_all q x in
    push_among-queue_of u false (push q' c) cs among w os
    ∙ (ap (λ l. l ++ cs) (push-queue_of u q' c k ∙ ap (λ l. l ++ (c ∷ [])) (push_all-other u q x o))
        ∙ ++-assoc (queue_of u q) (c ∷ []) cs)

-- If the payload size is positive, the association is established, the message fits and no other task
-- pushes chunks of its kind meanwhile, a write returns the message's length, and its kind's queue is
-- then what it was and, behind that, fragments that are the whole message: its bytes in order, a
-- beginning fragment, and an ending one only at the end. If the queue was a row of messages, the
-- last one complete, it stays one.
pub write_sctp-IsFramed :
    (s : Stream) (h : Shared) (now : ℕ) (p : List ℕ) (ppi : PayloadProtocolIdentifier)
    (among : List (List ChunkPayloadData))
    → 0 < s.max_payload_size
    → h.state ≡ established
    → length p ≤ h.max_message_size
    → AreOthers (is_unordered ppi) among
    → IsRow (is_unordered ppi) h.pending_queue
    → lacks_fragments (is_unordered ppi) h.pending_queue ≡ false
    → let (s', h', result) = write_sctp s h now p ppi among in
      (chunks : List ChunkPayloadData) × (joined chunks ≡ p)
      × All (IsFragment s ppi) chunks
      × IsWhole (is_unordered ppi) true chunks
      × (queue_of (is_unordered ppi) h'.pending_queue
          ≡ queue_of (is_unordered ppi) h.pending_queue ++ chunks)
      × (result ≡ ok (length p))
      × IsRow (is_unordered ppi) h'.pending_queue
      × (lacks_fragments (is_unordered ppi) h'.pending_queue ≡ false)
unfolding write_sctp send_message send_payload_data written is_shutting_down state_eq packetize
    new_flag awake_write_loop
write_sctp-IsFramed s h now p ppi among pos st fits o f l =
    let (joins, parts, w, m, ends) = packetize-joined s h now p ppi pos in
    let u : Bool = is_unordered ppi in
    let q : PendingQueue = h.pending_queue in
    let cs : List ChunkPayloadData = (packetize s h now p ppi).2 in
    let fit : ltb h.max_message_size (length p) ≡ false = ground arith in
    let queued = push_among-queue_of u true q cs among w o in
    let begun = push_among-is_inside u q cs among in
    rw (fit, st)
      (
        cs,
        joins,
        parts,
        w,
        queued,
        refl,
        rw (queued, begun) (AreMessages-join u (is_inside u q) (queue_of u q) cs f (rw l m)),
        rw (queued, begun) (ends_inside-join (is_inside u q) (queue_of u q) cs ∙ rw l ends),
      )

-- A write before the association is established fails and queues nothing, whatever others do, and still counts the
-- message as buffered and as a message of the stream.
pub write_sctp_early :
    (s : Stream) (h : Shared) (now : ℕ) (p : List ℕ) (ppi : PayloadProtocolIdentifier)
    (among : List (List ChunkPayloadData))
    → state_eq h.state established ≡ false
    → is_shutting_down h.state ≡ false
    → length p ≤ h.max_message_size
    → let (s', h', result) = write_sctp s h now p ppi among in
      (result ≡ err payload_data_state_not_exist)
      × (h'.pending_queue ≡ h.pending_queue)
      × (s'.buffered_amount ≡ add_size s.buffered_amount (length p))
      × (s' ≡ count_message ppi p s)
unfolding write_sctp send_message send_payload_data written packetize new_flag count_message
write_sctp_early s h now p ppi among ne up fits =
    let fit : ltb h.max_message_size (length p) ≡ false = ground arith in
    rw (fit, up, ne) (refl, refl, refl, refl)

-- ===== src/Sctp/Queue/Pending/Framing.antt =====
-- The fragments of a message leave pending_queue.rs one after the other: what `peek` shows is what
-- the following `pop` takes, and a message that was begun is finished first.
use webrtc_unreliable_client.Prelude.{
  ◌≡◌, ◌⊎◌, Bool, true, false, not, ◌&&◌, List, [], ◌∷◌, ◌++◌, some, arith, if◌then◌else◌,
}
use webrtc_unreliable_client.Sctp.Chunk.PayloadData.{ChunkPayloadData}
use webrtc_unreliable_client.Sctp.Queue.Pending.{PendingQueue, push, peek, pop}

-- `cs` is a row of messages of one kind, each from its beginning to its ending fragment, the last
-- one perhaps cut. `inside` says that the first message has begun before.
abbrev pub AreMessages : Bool → Bool → List ChunkPayloadData → Type 0
AreMessages u inside [] = Unit {0}
AreMessages u inside (c ∷ cs) =
    (c.unordered ≡ u)
    × (c.beginning_fragment ≡ not inside)
    × AreMessages u (not c.ending_fragment) cs

pub record IsFramed (q : PendingQueue) : Type 0 where
  pub unordered_framed : AreMessages true (q.selected && q.unordered_is_selected) q.unordered_queue
  pub ordered_framed : AreMessages false (q.selected && not q.unordered_is_selected) q.ordered_queue

-- The state after the last chunk of a row.
abbrev pub ends_inside : Bool → List ChunkPayloadData → Bool
ends_inside inside [] = inside
ends_inside inside (c ∷ cs) = ends_inside (not c.ending_fragment) cs

AreMessages-append :
    (u inside : Bool) (cs : List ChunkPayloadData) (c : ChunkPayloadData)
    → c.unordered ≡ u
    → c.beginning_fragment ≡ not (ends_inside inside cs)
    → AreMessages u inside cs
    → AreMessages u inside (cs ++ (c ∷ []))
AreMessages-append u inside [] c e b h = (e, b, tt)
AreMessages-append u inside (d ∷ cs) c e b (x, y, h) =
    (x, y, AreMessages-append u (not d.ending_fragment) cs c e b h)

-- Whether the message that was pushed last to the queue of `c`'s kind still lacks fragments.
abbrev pub is_open : PendingQueue → ChunkPayloadData → Bool
is_open q c =
    if c.unordered
    then ends_inside (q.selected && q.unordered_is_selected) q.unordered_queue
    else ends_inside (q.selected && not q.unordered_is_selected) q.ordered_queue

-- A push keeps both queues rows of messages, if the chunk begins a message exactly when the last
-- message pushed to its queue is finished.
pub push-IsFramed :
    {q : PendingQueue} (c : ChunkPayloadData)
    → c.beginning_fragment ≡ not (is_open q c)
    → IsFramed q
    → IsFramed (push q c)
unfolding push
push-IsFramed {q} c b v = ground (
  arith,
  AreMessages-append true (q.selected && q.unordered_is_selected) q.unordered_queue c,
  AreMessages-append false (q.selected && not q.unordered_is_selected) q.ordered_queue c,
)

-- Where both queues are rows of messages, a pop that is asked for the chunk that `peek` showed
-- takes that chunk and leaves rows of messages. A queue stays selected exactly if the chunk was
-- not the last of its message, and it is then the queue of that chunk.
pub pop-peek :
    {q : PendingQueue} (c : ChunkPayloadData)
    → IsFramed q
    → peek q ≡ some c
    → let (q', popped) = pop q c.beginning_fragment c.unordered in
      (popped ≡ some c)
      × IsFramed q'
      × (q'.selected ≡ not c.ending_fragment)
      × ((q'.selected ≡ false) ⊎ (q'.unordered_is_selected ≡ c.unordered))
unfolding peek pop
pop-peek {q} c v h = ground arith

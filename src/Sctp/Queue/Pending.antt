-- ===== src/Sctp/Queue/Pending.antt =====
-- client/src/webrtc/crates/sctp/queue/pending_queue.rs: chunks that wait to be sent, in one queue for
-- unordered messages and one for ordered ones. Each method runs as one step: it locks the queue
-- that it changes. The association pops and peeks under its own lock; a stream pushes without it, so
-- that pushes of several tasks come in any order.
pub mod Framing
pub mod Count
use webrtc_unreliable_client.Prelude.{
  ℕ, Bool, true, false, not, List, [], ◌∷◌, ◌++◌, Option, none, some, length, if◌then◌else◌,
}
use webrtc_unreliable_client.Prelude.Words.{add_size, sub_size}
use webrtc_unreliable_client.Sctp.Chunk.PayloadData.{ChunkPayloadData}

pub record PendingQueue : Type 0 where
  pub unordered_queue : List ChunkPayloadData
  pub ordered_queue : List ChunkPayloadData
  pub queue_len : ℕ
  pub n_bytes : ℕ
  pub selected : Bool
  pub unordered_is_selected : Bool

abbrev pub new : PendingQueue
new = record {
  unordered_queue = [];
  ordered_queue = [];
  queue_len = 0;
  n_bytes = 0;
  selected = false;
  unordered_is_selected = false;
}

unfoldable pub push : PendingQueue → ChunkPayloadData → PendingQueue
push q c =
    let q' = record q {
      n_bytes = add_size q.n_bytes (length c.user_data);
      queue_len = add_size q.queue_len 1;
    } in
    if c.unordered
    then record q' { unordered_queue = q.unordered_queue ++ (c ∷ []) }
    else record q' { ordered_queue = q.ordered_queue ++ (c ∷ []) }

abbrev pub front : List ChunkPayloadData → Option ChunkPayloadData
front [] = none
front (c ∷ cs) = some c

unfoldable pub peek : PendingQueue → Option ChunkPayloadData
peek q =
    if q.selected
    then (if q.unordered_is_selected then front q.unordered_queue else front q.ordered_queue)
    else elim (front q.unordered_queue) [ none ↦ front q.ordered_queue | some c ↦ some c ]

-- The selection after a chunk of the selected queue, and after the first chunk of a message.
unfoldable pub after_selected : ChunkPayloadData → PendingQueue → PendingQueue
after_selected c q = if c.ending_fragment then record q { selected = false } else q

unfoldable pub after_first : Bool → ChunkPayloadData → PendingQueue → PendingQueue
after_first u c q =
    if c.ending_fragment then q else record q { selected = true; unordered_is_selected = u }

-- The counters at the end of `pop`.
unfoldable pub uncount : ChunkPayloadData → PendingQueue → PendingQueue
uncount c q = record q {
  n_bytes = sub_size q.n_bytes (length c.user_data);
  queue_len = sub_size q.queue_len 1;
}

-- `pop_front` of the unordered or the ordered queue, then the selection and the counters.
unfoldable pub pop_from :
    Bool
    → (ChunkPayloadData → PendingQueue → PendingQueue)
    → PendingQueue
    → PendingQueue × Option ChunkPayloadData
unfolding uncount
pop_from true select q = elim q.unordered_queue [
  | [] ↦ (q, none)
  | c ∷ cs ↦ (uncount c (select c (record q { unordered_queue = cs })), some c)
]
pop_from false select q = elim q.ordered_queue [
  | [] ↦ (q, none)
  | c ∷ cs ↦ (uncount c (select c (record q { ordered_queue = cs })), some c)
]

unfoldable pub pop : PendingQueue → Bool → Bool → PendingQueue × Option ChunkPayloadData
unfolding pop_from after_selected after_first
pop q beginning_fragment unordered =
    if q.selected
    then pop_from q.unordered_is_selected after_selected q
    else if not beginning_fragment
    then (q, none)
    else pop_from unordered (after_first unordered) q

unfoldable pub len : PendingQueue → ℕ
len q = q.queue_len

-- ===== src/Sctp/Queue/Pending/Count.antt =====
-- The counters of pending_queue.rs: the number of chunks and of bytes in both queues.
use webrtc_unreliable_client.Prelude.{
  ℕ, ◌+◌, ◌≤◌, ◌≡◌, none, Bool, List, [], ◌∷◌, length, length-append, total, total-append, arith,
}
use webrtc_unreliable_client.Prelude.Words.{IsU64}
use webrtc_unreliable_client.Sctp.Chunk.PayloadData.{ChunkPayloadData}
use webrtc_unreliable_client.Sctp.Queue.Pending.{PendingQueue, push, pop, peek}

abbrev pub data_bytes : List ChunkPayloadData → ℕ
data_bytes cs = total (λ c. length c.user_data) cs

pub record IsCounted (q : PendingQueue) : Type 0 where
  pub chunks : q.queue_len ≡ length q.unordered_queue + length q.ordered_queue
  pub bytes : q.n_bytes ≡ data_bytes q.unordered_queue + data_bytes q.ordered_queue
  pub chunks_fit : IsU64 q.queue_len
  pub bytes_fit : IsU64 q.n_bytes

-- A push keeps the counters right, if they have room for one more chunk.
pub push-IsCounted :
    {q : PendingQueue} (c : ChunkPayloadData)
    → IsU64 (q.queue_len + 1)
    → IsU64 (q.n_bytes + length c.user_data)
    → IsCounted q
    → IsCounted (push q c)
unfolding push
push-IsCounted {q} c a b v = ground (
  arith,
  length-append q.unordered_queue (c ∷ []),
  length-append q.ordered_queue (c ∷ []),
  total-append (λ (d : ChunkPayloadData). length d.user_data) q.unordered_queue (c ∷ []),
  total-append (λ (d : ChunkPayloadData). length d.user_data) q.ordered_queue (c ∷ []),
)

-- A pop keeps the counters right, whatever it is asked for.
pub pop-IsCounted :
    {q : PendingQueue} (beginning_fragment unordered : Bool)
    → IsCounted q
    → IsCounted (pop q beginning_fragment unordered).0
unfolding pop
pop-IsCounted beginning_fragment unordered v = ground arith

abbrev pub pending_count : PendingQueue → ℕ
pending_count q = length q.unordered_queue + length q.ordered_queue

pub peek_empty : (q : PendingQueue) → pending_count q ≤ 0 → peek q ≡ none
unfolding peek
peek_empty q h = ground arith

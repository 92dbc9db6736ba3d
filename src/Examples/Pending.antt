-- ===== src/Examples/Pending.antt =====
-- pending_queue.rs at concrete inputs.
use webrtc_unreliable_client.Prelude.{◌≡◌, ◌⊎◌, refl, true, false, [], ◌∷◌, some, arith}
use webrtc_unreliable_client.Sctp.Chunk.PayloadData.{ChunkPayloadData}
use webrtc_unreliable_client.Sctp.Queue.Pending.{PendingQueue, peek, pop}
use webrtc_unreliable_client.Sctp.Queue.Pending.Count.{IsCounted}
use webrtc_unreliable_client.Sctp.Queue.Pending.Framing.{IsFramed, pop-peek}
use webrtc_unreliable_client.Examples.Data.{fragment, single}

-- The first of two fragments of an ordered message.
abbrev first_half : ChunkPayloadData
first_half = fragment 20 5 false true false (1 ∷ 2 ∷ [])

abbrev second_half : ChunkPayloadData
second_half = fragment 21 5 false false true (3 ∷ [])

-- The first half is out, the second waits, and so does an unordered message.
abbrev pub halfway : PendingQueue
halfway = record {
  unordered_queue = single 30 ∷ [];
  ordered_queue = second_half ∷ [];
  queue_len = 2;
  n_bytes = 3;
  selected = true;
  unordered_is_selected = false;
}

pub halfway-IsCounted : IsCounted halfway
halfway-IsCounted = record {
  chunks = refl;
  bytes = refl;
  chunks_fit = omega arith;
  bytes_fit = omega arith;
}

pub halfway-IsFramed : IsFramed halfway
halfway-IsFramed = record { unordered_framed = (refl, refl, tt); ordered_framed = (refl, refl, tt) }

-- The message that was begun goes on, although an unordered one waits.
pop-peek_example :
    let (q', popped) = pop halfway false false in
    (popped ≡ some second_half)
    × IsFramed q'
    × (q'.selected ≡ false)
    × ((q'.selected ≡ false) ⊎ (q'.unordered_is_selected ≡ false))
unfolding peek
pop-peek_example = pop-peek second_half halfway-IsFramed refl

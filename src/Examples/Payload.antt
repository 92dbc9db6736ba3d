-- ===== src/Examples/Payload.antt =====
-- payload_queue.rs at concrete inputs.
use webrtc_unreliable_client.Prelude.{ℕ, ◌+◌, ◌<◌, ◌≤◌, ◌≡◌, ◌↔◌, refl, [], ◌∷◌, arith}
use webrtc_unreliable_client.Prelude.Words.{add32}
use webrtc_unreliable_client.Prelude.Sort.{insert, insert_all, sort_by}
use webrtc_unreliable_client.Prelude.Map
use webrtc_unreliable_client.Sctp.Sna.{sna32lt, sna32lte}
use webrtc_unreliable_client.Sctp.Queue.Payload.{
  PayloadQueue, new, update_sorted_keys, push, pop, gap_offset, get_gap_ack_blocks, mark_as_acked,
}
use webrtc_unreliable_client.Sctp.Queue.Payload.Count.{IsValid, HasRoom, push-IsValid}
use webrtc_unreliable_client.Sctp.Queue.Payload.Acked.{mark_as_acked-IsValid}
use webrtc_unreliable_client.Sctp.Queue.Payload.Order.{IsOrdered, PopsNext, push-IsOrdered, pop-get}
use webrtc_unreliable_client.Sctp.Queue.Payload.Gaps.{
  Covers, get_gap_ack_blocks-Covers, gap_offset-eq-distance32,
}
use webrtc_unreliable_client.Examples.Data.{single}

abbrev one : PayloadQueue
one = record {
  length = 1;
  chunk_map = (11, single 11) ∷ [];
  sorted = 11 ∷ [];
  dup_tsn = [];
  n_bytes = 2;
}

abbrev pub three : PayloadQueue
three = record {
  length = 3;
  chunk_map = (11, single 11) ∷ (13, single 13) ∷ (12, single 12) ∷ [];
  sorted = 11 ∷ 12 ∷ 13 ∷ [];
  dup_tsn = [];
  n_bytes = 6;
}

new-IsValid : IsValid new
unfolding Map.lookup
new-IsValid = record {
  keys = λ t. refl;
  once = λ t. omega arith;
  tagged = λ t c h. cc;
  counted = refl;
  bytes = refl;
  len_fits = omega arith;
  bytes_fit = omega arith;
}

room : (q : PayloadQueue) → q.length < 9 → q.n_bytes < 99 → (tsn : ℕ) → HasRoom q (single tsn)
room q a b tsn = record { len_room = omega arith; bytes_room = omega arith }

pub three-IsValid : IsValid three
unfolding push update_sorted_keys sort_by insert_all insert sna32lt sna32lte Map.contains_key
    Map.lookup Map.insert
three-IsValid =
    push-IsValid (single 12) 10
      (push-IsValid (single 13) 10
        (push-IsValid (single 11) 10 new-IsValid (room new (omega arith) (omega arith) 11))
        (room one (omega arith) (omega arith) 13))
      (room (push one (single 13) 10).0 (omega arith) (omega arith) 12)

pub three-IsOrdered : IsOrdered 10 three
three-IsOrdered = omega arith

push-IsValid_example : IsValid (push three (single 20) 10).0
push-IsValid_example =
    push-IsValid (single 20) 10 three-IsValid (room three (omega arith) (omega arith) 20)

push-IsOrdered_example : IsOrdered 10 (push three (single 20) 10).0
push-IsOrdered_example =
    push-IsOrdered (single 20) 10 (omega arith) (omega arith) three-IsValid three-IsOrdered

pop-get_example : PopsNext 10 three (pop three (add32 10 1))
pop-get_example = pop-get 10 (omega arith) three-IsValid three-IsOrdered

mark_as_acked-IsValid_example :
    let (q, freed) = mark_as_acked three 12 in IsValid q × (q.n_bytes + freed ≡ 6)
mark_as_acked-IsValid_example = mark_as_acked-IsValid 12 three-IsValid

get_gap_ack_blocks-Covers_example : Covers 10 (11 ∷ 12 ∷ 13 ∷ []) (get_gap_ack_blocks three 10)
get_gap_ack_blocks-Covers_example =
    get_gap_ack_blocks-Covers 10 (omega arith) three-IsValid three-IsOrdered (omega arith)

gap_offset-eq-distance32_example : (gap_offset 4294967290 4 ≡ 10) ↔ (4294967290 ≤ 4)
gap_offset-eq-distance32_example =
    gap_offset-eq-distance32 4294967290 4 (omega arith) (omega arith) (omega arith) (omega arith)

-- Past the wrap of the TSNs, the offset is 0.
gap_offset_wrap : gap_offset 4294967290 4 ≡ 0
unfolding gap_offset
gap_offset_wrap = refl

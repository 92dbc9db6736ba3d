-- ===== src/Sctp/Queue/Payload.antt =====
-- client/src/webrtc/crates/sctp/queue/payload_queue.rs: chunks by TSN, with the TSNs in serial
-- order. The association keeps two: received chunks and chunks in flight.
pub mod Count
pub mod Acked
pub mod Order
pub mod Gaps
pub mod Pops
use webrtc_unreliable_client.Prelude.{
  ℕ, zero, suc, ◌+◌, ◌-◌, ◌%◌, ◌^◌, Bool, true, false, not, ◌||◌, List, [], ◌∷◌, ◌++◌, Option, none,
  some, length, last?, if◌then◌else◌, ◌==◌, leb,
}
use webrtc_unreliable_client.Prelude.Words.{add_size, sub_size, add16}
use webrtc_unreliable_client.Prelude.Sort.{sort_by}
use webrtc_unreliable_client.Prelude.Map.{
  Map, lookup, contains_key, insert, remove, update, map_values,
}
use webrtc_unreliable_client.Sctp.Sna.{sna32lt, sna32lte}
use webrtc_unreliable_client.Sctp.Chunk.PayloadData.{ChunkPayloadData, Flags, is_abandoned}
use webrtc_unreliable_client.Sctp.Chunk.GapAck.{GapAckBlock}

-- `length` is a shared counter that only the queue writes.
pub record PayloadQueue : Type 0 where
  pub length : ℕ
  pub chunk_map : Map ChunkPayloadData
  pub sorted : List ℕ
  pub dup_tsn : List ℕ
  pub n_bytes : ℕ

abbrev pub new : PayloadQueue
new = record { length = 0; chunk_map = []; sorted = []; dup_tsn = []; n_bytes = 0 }

unfoldable pub update_sorted_keys : List ℕ → List ℕ
update_sorted_keys sorted = sort_by sna32lt sorted

unfoldable pub can_push : PayloadQueue → ChunkPayloadData → ℕ → Bool
can_push q p cumulative_tsn = not (contains_key p.tsn q.chunk_map || sna32lte p.tsn cumulative_tsn)

unfoldable pub push_no_check : PayloadQueue → ChunkPayloadData → PayloadQueue
push_no_check q p = record q {
  n_bytes = add_size q.n_bytes (length p.user_data);
  sorted = update_sorted_keys (q.sorted ++ (p.tsn ∷ []));
  chunk_map = insert p.tsn p q.chunk_map;
  length = add_size q.length 1;
}

unfoldable pub push : PayloadQueue → ChunkPayloadData → ℕ → PayloadQueue × Bool
push q p cumulative_tsn =
    if contains_key p.tsn q.chunk_map || sna32lte p.tsn cumulative_tsn
    then (record q { dup_tsn = q.dup_tsn ++ (p.tsn ∷ []) }, false)
    else (
      record q {
        n_bytes = add_size q.n_bytes (length p.user_data);
        sorted = update_sorted_keys (q.sorted ++ (p.tsn ∷ []));
        chunk_map = insert p.tsn p q.chunk_map;
        length = add_size q.length 1;
      },
      true,
    )

-- What `pop` does once `tsn` is off the front of `sorted`.
unfoldable pub pop_front : PayloadQueue → ℕ → List ℕ → PayloadQueue × Option ChunkPayloadData
pop_front q tsn rest = elim (lookup tsn q.chunk_map) [
  | none ↦ (record q { sorted = rest }, none)
  | some c ↦ (
    record q {
      sorted = rest;
      chunk_map = remove tsn q.chunk_map;
      length = sub_size q.length 1;
      n_bytes = sub_size q.n_bytes (length c.user_data);
    },
    some c,
  )
]

unfoldable pub pop : PayloadQueue → ℕ → PayloadQueue × Option ChunkPayloadData
unfolding pop_front
pop q tsn = elim q.sorted [
  | [] ↦ (q, none)
  | t ∷ rest ↦ if tsn == t then pop_front q tsn rest else (q, none)
]

unfoldable pub get : PayloadQueue → ℕ → Option ChunkPayloadData
get q tsn = lookup tsn q.chunk_map

unfoldable pub pop_duplicates : PayloadQueue → PayloadQueue × List ℕ
pop_duplicates q = (record q { dup_tsn = [] }, q.dup_tsn)

-- `(*tsn - cumulative_tsn) as u16`, or 0 for a smaller number
unfoldable pub gap_offset : ℕ → ℕ → ℕ
gap_offset cumulative_tsn tsn =
    if leb cumulative_tsn tsn then (tsn - cumulative_tsn) % 2 ^ 16 else 0

-- The loop behind its first round, with the open block and the closed ones. In every round but the
-- first the index is above 0.
unfoldable pub gap_loop : ℕ → GapAckBlock → List GapAckBlock → List ℕ → List GapAckBlock
unfolding gap_offset
gap_loop cumulative_tsn b blocks [] = blocks ++ (b ∷ [])
gap_loop cumulative_tsn b blocks (tsn ∷ rest) =
    let diff = gap_offset cumulative_tsn tsn in
    let joins = add16 b.end 1 == diff in
    gap_loop cumulative_tsn
      (if joins then record b { end = add16 b.end 1 } else record { start = diff; end = diff })
      (if joins then blocks else blocks ++ (b ∷ [])) rest

unfoldable pub gap_blocks : ℕ → List ℕ → List GapAckBlock
unfolding gap_loop
gap_blocks cumulative_tsn [] = record { start = 0; end = 0 } ∷ []
gap_blocks cumulative_tsn (tsn ∷ rest) =
    let diff = gap_offset cumulative_tsn tsn in
    gap_loop cumulative_tsn (record { start = diff; end = diff }) [] rest

unfoldable pub get_gap_ack_blocks : PayloadQueue → ℕ → List GapAckBlock
unfolding gap_blocks
get_gap_ack_blocks q cumulative_tsn = elim q.chunk_map [
  | [] ↦ []
  | _ ∷ _ ↦ gap_blocks cumulative_tsn q.sorted
]

unfoldable pub acked_chunk : ChunkPayloadData → ChunkPayloadData
acked_chunk c = record c { acked = true; retransmit = false; user_data = [] }

unfoldable pub mark_as_acked : PayloadQueue → ℕ → PayloadQueue × ℕ
unfolding acked_chunk
mark_as_acked q tsn = elim (lookup tsn q.chunk_map) [
  | none ↦ (q, 0)
  | some c ↦ (
    record q {
      chunk_map = update tsn acked_chunk q.chunk_map;
      n_bytes = sub_size q.n_bytes (length c.user_data);
    },
    length c.user_data,
  )
]

unfoldable pub get_last_tsn_received : PayloadQueue → Option ℕ
get_last_tsn_received q = last? q.sorted

unfoldable pub to_retransmit : Flags → ChunkPayloadData → ChunkPayloadData
to_retransmit s c = if c.acked || is_abandoned s c then c else record c { retransmit = true }

unfoldable pub mark_all_to_retransmit : Flags → PayloadQueue → PayloadQueue
unfolding to_retransmit
mark_all_to_retransmit s q = record q { chunk_map = map_values (to_retransmit s) q.chunk_map }

unfoldable pub get_num_bytes : PayloadQueue → ℕ
get_num_bytes q = q.n_bytes

-- `len()`; `none` is the failed assertion.
unfoldable pub len : PayloadQueue → Option ℕ
len q = if length q.chunk_map == q.length then some (length q.chunk_map) else none

-- `is_empty()`, where the assertion of `len()` holds, as it does of every valid queue.
unfoldable pub is_empty : PayloadQueue → Bool
is_empty q = length q.chunk_map == 0

-- ===== src/Examples/Reassembly.antt =====
-- reassembly_queue.rs at concrete inputs.
use webrtc_unreliable_client.Prelude.{
  ◌+◌, ◌≡◌, ◌≢◌, ◌↔◌, refl, true, false, List, [], ◌∷◌, ◌++◌, some, none, arith,
}
use webrtc_unreliable_client.Sctp.Sna.{sna16lt, sna16gt}
use webrtc_unreliable_client.Sctp.Chunk.PayloadData.{ChunkPayloadData, binary}
use webrtc_unreliable_client.Sctp.Queue.ChunkSet.{
  ChunkSet, is_contiguous, are_complete, is_complete, holds_tsn, scan_step, scan,
}
use webrtc_unreliable_client.Sctp.Queue.ChunkSet.Complete.{IsMessage, is_complete-IsMessage}
use webrtc_unreliable_client.Sctp.Queue.ChunkSet.Found.{IsFound, scan_sound}
use webrtc_unreliable_client.Sctp.Queue.ChunkSet.Finds.{scan_complete}
use webrtc_unreliable_client.Sctp.Queue.Reassembly.{
  ReassemblyQueue, ok, take_set, push, read, forward_tsn_for_unordered,
}
use webrtc_unreliable_client.Sctp.Queue.Reassembly.Bytes.{IsExact, stored, push-IsExact}
use webrtc_unreliable_client.Sctp.Queue.Reassembly.Read.{read_delivers}
use webrtc_unreliable_client.Sctp.Queue.Reassembly.Forward.{
  newer, forward_tsn_for_unordered_lem, push_copy,
}
use webrtc_unreliable_client.Examples.Data.{fragment}

-- A message of two fragments over the wrap of the TSNs.
abbrev head_fragment : ChunkPayloadData
head_fragment = fragment 4294967295 0 false true false (1 ∷ 2 ∷ [])

abbrev tail_fragment : ChunkPayloadData
tail_fragment = fragment 0 0 false false true (3 ∷ [])

abbrev message : ChunkSet
message = record { ssn = 0; ppi = binary; chunks = head_fragment ∷ tail_fragment ∷ [] }

abbrev loose : List ChunkPayloadData
loose =
    fragment 40 0 true false true (4 ∷ [])
    ∷ fragment 42 0 true true false (5 ∷ [])
    ∷ fragment 44 0 true true false (6 ∷ [])
    ∷ []

abbrev queue : ReassemblyQueue
queue = record {
  si = 3;
  next_ssn = 0;
  ordered = message ∷ [];
  unordered = [];
  unordered_chunks = loose;
  n_bytes = 6;
}

abbrev rest : ReassemblyQueue
rest = record queue { next_ssn = 1; ordered = [] }

queue_takes : take_set queue ≡ (rest, some message)
unfolding take_set is_complete are_complete is_contiguous sna16gt
queue_takes = refl

read_delivers_example :
    read queue (9 ∷ 9 ∷ 9 ∷ 9 ∷ []) ≡ (record rest { n_bytes = 3 }, 1 ∷ 2 ∷ 3 ∷ 9 ∷ [], ok 3 binary)
read_delivers_example =
    read_delivers queue rest message (9 ∷ 9 ∷ 9 ∷ 9 ∷ []) queue_takes (omega arith)

push-IsExact_example : IsExact (push queue (fragment 43 0 true false true (8 ∷ []))).0
unfolding holds_tsn
push-IsExact_example =
    push-IsExact queue (fragment 43 0 true false true (8 ∷ [])) (omega arith) (refl, tt) refl

push_copy_example :
    let r' = (push queue tail_fragment).0 in
    (stored r' ≡ stored queue) × (r'.n_bytes ≡ stored r' + 1)
unfolding sna16lt holds_tsn
push_copy_example =
    push_copy queue tail_fragment message [] (omega arith) refl refl refl refl refl refl refl

-- The fragments 40 and 42 go, and 44 stays.
forward_tsn_for_unordered_lem_example :
    let r' = forward_tsn_for_unordered queue 43 in
    (r' ≡ record queue { unordered_chunks = newer 43 loose; n_bytes = r'.n_bytes }) × IsExact r'
forward_tsn_for_unordered_lem_example =
    forward_tsn_for_unordered_lem 30 43 queue (omega arith) (omega arith) (omega arith)
      (omega arith) refl

is_complete-IsMessage_example : (is_complete message ≡ true) ↔ IsMessage message.chunks
is_complete-IsMessage_example = is_complete-IsMessage message

abbrev scattered : List ChunkPayloadData
scattered = fragment 40 0 true true false (4 ∷ []) ∷ head_fragment ∷ tail_fragment ∷ loose

scattered_found : scan 0 none 0 0 scattered ≡ some (1, 2)
unfolding scan scan_step
scattered_found = refl

scan_sound_example : IsFound scattered 1 2
scan_sound_example = scan_sound scattered 1 2 scattered_found

scan_complete_example :
    scan 0 none 0 0 (loose ++ ((head_fragment ∷ tail_fragment ∷ []) ++ [])) ≢ none
scan_complete_example =
    scan_complete loose (head_fragment ∷ tail_fragment ∷ []) [] 0 none 0 0
      (refl, refl, (refl, refl, refl))

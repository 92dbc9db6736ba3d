-- ===== src/Examples/Data.antt =====
-- Chunks for the examples.
use webrtc_unreliable_client.Prelude.{ℕ, Bool, true, false, List, [], ◌∷◌}
use webrtc_unreliable_client.Sctp.Chunk.PayloadData.{ChunkPayloadData, binary}

-- A received fragment of the stream 3, by its TSN, its SSN and its flags.
abbrev pub fragment : ℕ → ℕ → Bool → Bool → Bool → List ℕ → ChunkPayloadData
fragment tsn ssn unordered beginning ending user_data = record {
  unordered = unordered;
  beginning_fragment = beginning;
  ending_fragment = ending;
  immediate_sack = false;
  tsn = tsn;
  stream_identifier = 3;
  stream_sequence_number = ssn;
  payload_type = binary;
  user_data = user_data;
  acked = false;
  miss_indicator = 0;
  since = 0;
  nsent = 0;
  abandoned = 1;
  all_inflight = 2;
  retransmit = false;
}

-- A message of one fragment.
abbrev pub single : ℕ → ChunkPayloadData
single tsn = fragment tsn 0 true true true (7 ∷ 8 ∷ [])

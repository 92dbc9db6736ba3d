-- ===== src/Sctp/Queue/ChunkSet.antt =====
-- client/src/webrtc/crates/sctp/queue/reassembly_queue.rs: a set of fragments of one message, and the
-- search for such a set among unordered fragments.
pub mod Complete
pub mod Rounds
pub mod Found
pub mod Finds
use webrtc_unreliable_client.Prelude.{
  ℕ, ◌+◌, Bool, true, false, not, ◌||◌, List, [], ◌∷◌, ◌++◌, Option, none, some, if◌then◌else◌,
  ◌==◌,
}
use webrtc_unreliable_client.Prelude.Words.{add32}
use webrtc_unreliable_client.Prelude.Sort.{sort_by}
use webrtc_unreliable_client.Sctp.Sna.{sna32lt, sna16lt}
use webrtc_unreliable_client.Sctp.Chunk.PayloadData.{ChunkPayloadData, PayloadProtocolIdentifier}

pub record ChunkSet : Type 0 where
  pub ssn : ℕ
  pub ppi : PayloadProtocolIdentifier
  pub chunks : List ChunkPayloadData

unfoldable pub sort_chunks_by_tsn : List ChunkPayloadData → List ChunkPayloadData
sort_chunks_by_tsn c = sort_by (λ a b. sna32lt a.tsn b.tsn) c

unfoldable pub sort_chunks_by_ssn : List ChunkSet → List ChunkSet
sort_chunks_by_ssn c = sort_by (λ a b. sna16lt a.ssn b.ssn) c

-- Condition 3 of `is_complete`, behind a chunk with the TSN `last_tsn`.
unfoldable pub is_contiguous : ℕ → List ChunkPayloadData → Bool
is_contiguous last_tsn [] = true
is_contiguous last_tsn (c ∷ cs) =
    if not (c.tsn == add32 last_tsn 1) then false else is_contiguous c.tsn cs

abbrev pub last_chunk : ChunkPayloadData → List ChunkPayloadData → ChunkPayloadData
last_chunk c [] = c
last_chunk c (d ∷ ds) = last_chunk d ds

unfoldable pub are_complete : List ChunkPayloadData → Bool
unfolding is_contiguous
are_complete [] = false
are_complete (c ∷ cs) =
    if not c.beginning_fragment
    then false
    else if not (last_chunk c cs).ending_fragment
    then false
    else is_contiguous c.tsn cs

unfoldable pub is_complete : ChunkSet → Bool
unfolding are_complete
is_complete s = are_complete s.chunks

unfoldable pub holds_tsn : ℕ → List ChunkPayloadData → Bool
holds_tsn tsn [] = false
holds_tsn tsn (c ∷ cs) = c.tsn == tsn || holds_tsn tsn cs

-- `ChunkSet::push`
unfoldable pub push_chunk : ChunkSet → ChunkPayloadData → ChunkSet × Bool
unfolding is_complete holds_tsn
push_chunk s chunk =
    if holds_tsn chunk.tsn s.chunks
    then (s, false)
    else let s' = record s { chunks = sort_chunks_by_tsn (s.chunks ++ (chunk ∷ [])) } in
      (s', is_complete s')

-- One round of the loop of `find_complete_unordered_chunk_set`: the next `start_idx` (`none` for
-- -1), `n_chunks` and `last_tsn`, or the range that was found.
pub data Scan : Type 0 where
  next : Option ℕ → ℕ → ℕ → Scan
  found : ℕ → ℕ → Scan

unfoldable pub scan_step : ℕ → Option ℕ → ℕ → ℕ → ChunkPayloadData → Scan
scan_step i start_idx n_chunks last_tsn c =
    if c.beginning_fragment
    then (if c.ending_fragment then found i 1 else next (some i) 1 c.tsn)
    else elim start_idx [
      | none ↦ next none n_chunks last_tsn
      | some s ↦
          if not (c.tsn == add32 last_tsn 1)
          then next none n_chunks last_tsn
          else if c.ending_fragment
          then found s (n_chunks + 1)
          else next (some s) (n_chunks + 1) c.tsn
    ]

unfoldable pub scan : ℕ → Option ℕ → ℕ → ℕ → List ChunkPayloadData → Option (ℕ × ℕ)
unfolding scan_step
scan i start_idx n_chunks last_tsn [] = none
scan i start_idx n_chunks last_tsn (c ∷ cs) = elim (scan_step i start_idx n_chunks last_tsn c) [
  | next s n t ↦ scan (i + 1) s n t cs
  | found s n ↦ some (s, n)
]

-- ===== src/Sctp/Queue/Reassembly.antt =====
-- client/src/webrtc/crates/sctp/queue/reassembly_queue.rs: the fragments of a stream's messages, put
-- together again. Ordered messages are kept by stream sequence number (SSN), unordered ones as soon
-- as they are complete.
pub mod Bytes
pub mod Copy
pub mod Read
pub mod Forward
use webrtc_unreliable_client.Prelude.{
  ℕ, ◌+◌, ◌-◌, Bool, true, false, not, ◌&&◌, ◌||◌, List, [], ◌∷◌, ◌++◌, Option, none, some, length,
  if◌then◌else◌, ◌==◌, leb, ltb, min, take, drop,
}
use webrtc_unreliable_client.Prelude.Words.{add_size, add16}
use webrtc_unreliable_client.Sctp.Sna.{sna32gt, sna16lt, sna16lte, sna16gt}
use webrtc_unreliable_client.Sctp.Chunk.PayloadData.{
  ChunkPayloadData, PayloadProtocolIdentifier, unknown,
}
use webrtc_unreliable_client.Sctp.Queue.ChunkSet.{
  ChunkSet, sort_chunks_by_tsn, sort_chunks_by_ssn, is_complete, push_chunk, scan,
}

pub data Error : Type 0 where
  try_again short_buffer : Error

pub record ReassemblyQueue : Type 0 where
  pub si : ℕ
  pub next_ssn : ℕ
  pub ordered : List ChunkSet
  pub unordered : List ChunkSet
  pub unordered_chunks : List ChunkPayloadData
  pub n_bytes : ℕ

unfoldable pub new : ℕ → ReassemblyQueue
new si = record {
  si = si;
  next_ssn = 0;
  ordered = [];
  unordered = [];
  unordered_chunks = [];
  n_bytes = 0;
}

abbrev pub first_ppi : List ChunkPayloadData → PayloadProtocolIdentifier → PayloadProtocolIdentifier
first_ppi [] d = d
first_ppi (c ∷ cs) d = c.payload_type

-- The range is taken out. It holds a chunk, so the default is not read.
unfoldable pub extract : ReassemblyQueue → ℕ → ℕ → ReassemblyQueue × ChunkSet
extract r start n =
    let chunks = take n (drop start r.unordered_chunks) in
    (
      record r {
        unordered_chunks = take start r.unordered_chunks ++ drop (start + n) r.unordered_chunks;
      },
      record { ssn = 0; ppi = first_ppi chunks unknown; chunks = chunks },
    )

unfoldable pub find_complete_unordered_chunk_set :
    ReassemblyQueue → ReassemblyQueue × Option ChunkSet
unfolding scan extract
find_complete_unordered_chunk_set r = elim (scan 0 none 0 0 r.unordered_chunks) [
  | none ↦ (r, none)
  | some (start, n) ↦ let (r', s) = extract r start n in (r', some s)
]

-- `for s in &mut self.ordered`: the first set with the SSN takes the chunk.
unfoldable pub push_existing : List ChunkSet → ChunkPayloadData → Option (List ChunkSet × Bool)
unfolding push_chunk
push_existing [] chunk = none
push_existing (s ∷ sets) chunk =
    let rest = push_existing sets chunk in
    if s.ssn == chunk.stream_sequence_number
    then (let (s', ok) = push_chunk s chunk in some (s' ∷ sets, ok))
    else elim rest [ none ↦ none | some (sets', ok) ↦ some (s ∷ sets', ok) ]

-- The set that was found joins the readable ones.
unfoldable pub keep_found : ReassemblyQueue × Option ChunkSet → ReassemblyQueue × Bool
keep_found (r, none) = (r, false)
keep_found (r, some s) = (record r { unordered = r.unordered ++ (s ∷ []) }, true)

unfoldable pub push_unordered : ReassemblyQueue → ChunkPayloadData → ReassemblyQueue × Bool
push_unordered r chunk = keep_found (
    find_complete_unordered_chunk_set (record r {
      n_bytes = add_size r.n_bytes (length chunk.user_data);
      unordered_chunks = sort_chunks_by_tsn (r.unordered_chunks ++ (chunk ∷ []));
    }))

-- The chunk joined a set, or it begins one. It is not unordered, so the new list is sorted.
unfoldable pub place_ordered :
    ReassemblyQueue → ChunkPayloadData → Option (List ChunkSet × Bool) → ReassemblyQueue × Bool
place_ordered r chunk (some (sets, ok)) = (record r { ordered = sets }, ok)
place_ordered r chunk none =
    let (cset, ok) =
      push_chunk
        (record { ssn = chunk.stream_sequence_number; ppi = chunk.payload_type; chunks = [] })
        chunk in
    (record r { ordered = sort_chunks_by_ssn (r.ordered ++ (cset ∷ [])) }, ok)

unfoldable pub push_ordered : ReassemblyQueue → ChunkPayloadData → ReassemblyQueue × Bool
push_ordered r chunk =
    if sna16lt chunk.stream_sequence_number r.next_ssn
    then (r, false)
    else place_ordered (record r { n_bytes = add_size r.n_bytes (length chunk.user_data) }) chunk
        (push_existing r.ordered chunk)

unfoldable pub push : ReassemblyQueue → ChunkPayloadData → ReassemblyQueue × Bool
push r chunk =
    if not (chunk.stream_identifier == r.si)
    then (r, false)
    else if chunk.unordered
    then push_unordered r chunk
    else push_ordered r chunk

unfoldable pub is_readable : ReassemblyQueue → Bool
is_readable r = elim r.unordered [
  | _ ∷ _ ↦ true
  | [] ↦ elim r.ordered [ [] ↦ false | cset ∷ _ ↦ is_complete cset && sna16lte cset.ssn r.next_ssn ]
]

unfoldable pub subtract_num_bytes : ReassemblyQueue → ℕ → ReassemblyQueue
subtract_num_bytes r n =
    if leb n r.n_bytes then record r { n_bytes = r.n_bytes - n } else record r { n_bytes = 0 }

-- The set that `read` takes out of the queue, if there is one.
unfoldable pub take_set : ReassemblyQueue → ReassemblyQueue × Option ChunkSet
take_set r = elim r.unordered [
  | cset ∷ sets ↦ (record r { unordered = sets }, some cset)
  | [] ↦ elim r.ordered [
    | [] ↦ (r, none)
    | cset ∷ sets ↦
        if not (is_complete cset)
        then (r, none)
        else if sna16gt cset.ssn r.next_ssn
        then (r, none)
        else (
          record r {
            next_ssn = if cset.ssn == r.next_ssn then add16 r.next_ssn 1 else r.next_ssn;
            ordered = sets;
          },
          some cset,
        )
  ]
]

-- `buf[i..i + data.len()].copy_from_slice(data)`
unfoldable pub write_at : List ℕ → ℕ → List ℕ → List ℕ
write_at buf i bytes = take i buf ++ (bytes ++ drop (i + length bytes) buf)

-- The copying loop: the queue, `n_written`, whether `err` is set, and the buffer.
unfoldable pub copy_chunks :
    ReassemblyQueue
    → ℕ
    → Bool
    → List ℕ
    → List ChunkPayloadData
    → ReassemblyQueue × ℕ × Bool × List ℕ
unfolding subtract_num_bytes write_at
copy_chunks r n_written failed buf [] = (r, n_written, failed, buf)
copy_chunks r n_written failed buf (c ∷ cs) =
    let to_copy = length c.user_data in
    let n = min to_copy (length buf - n_written) in
    copy_chunks (subtract_num_bytes r to_copy) (if failed then n_written else n_written + n)
      (failed || ltb n to_copy)
      (if failed then buf else write_at buf n_written (take n c.user_data)) cs

pub data ReadResult : Type 0 where
  ok : ℕ → PayloadProtocolIdentifier → ReadResult
  err : Error → ReadResult

unfoldable pub report :
    PayloadProtocolIdentifier
    → ReassemblyQueue × ℕ × Bool × List ℕ
    → ReassemblyQueue × List ℕ × ReadResult
report ppi (r, n_written, failed, buf) =
    (r, buf, if failed then err short_buffer else ok n_written ppi)

unfoldable pub read_set :
    ReassemblyQueue × Option ChunkSet → List ℕ → ReassemblyQueue × List ℕ × ReadResult
unfolding report
read_set (r, none) buf = (r, buf, err try_again)
read_set (r, some s) buf = report s.ppi (copy_chunks r 0 false buf s.chunks)

unfoldable pub read : ReassemblyQueue → List ℕ → ReassemblyQueue × List ℕ × ReadResult
unfolding read_set
read r buf = read_set (take_set r) buf

-- `last_idx + 1`: how many chunks stand in front of the first that is newer.
unfoldable pub older_count : ℕ → List ChunkPayloadData → ℕ
older_count new_cumulative_tsn [] = 0
older_count new_cumulative_tsn (c ∷ cs) =
    let more = older_count new_cumulative_tsn cs + 1 in
    if sna32gt c.tsn new_cumulative_tsn then 0 else more

unfoldable pub subtract_chunks : ReassemblyQueue → List ChunkPayloadData → ReassemblyQueue
unfolding subtract_num_bytes
subtract_chunks r [] = r
subtract_chunks r (c ∷ cs) = subtract_chunks (subtract_num_bytes r (length c.user_data)) cs

unfoldable pub forward_tsn_for_unordered : ReassemblyQueue → ℕ → ReassemblyQueue
forward_tsn_for_unordered r new_cumulative_tsn =
    let n = older_count new_cumulative_tsn r.unordered_chunks in
    let r' = subtract_chunks r (take n r.unordered_chunks) in
    record r' { unordered_chunks = drop n r.unordered_chunks }

unfoldable pub get_num_bytes : ReassemblyQueue → ℕ
get_num_bytes r = r.n_bytes

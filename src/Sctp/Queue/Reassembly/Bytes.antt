-- ===== src/Sctp/Queue/Reassembly/Bytes.antt =====
-- The byte counter of reassembly_queue.rs against the bytes that the queue holds.
use webrtc_unreliable_client.Prelude.{
  ℕ, ◌+◌, ◌≡◌, refl, ap, Bool, false, ◌&&◌, List, [], ◌∷◌, ◌++◌, Option, none, some, length, total,
  total-append, total-cut, take, drop, arith, Bool-cases, inl, inr, if◌then◌else◌, ◌==◌,
}
use webrtc_unreliable_client.Prelude.Words.{IsU64, add_size}
use webrtc_unreliable_client.Prelude.Sort.{total-sort_by}
use webrtc_unreliable_client.Sctp.Sna.{sna32lt, sna16lt}
use webrtc_unreliable_client.Sctp.Chunk.PayloadData.{ChunkPayloadData}
use webrtc_unreliable_client.Sctp.Queue.ChunkSet.{
  ChunkSet, sort_chunks_by_tsn, sort_chunks_by_ssn, holds_tsn, push_chunk, scan,
}
use webrtc_unreliable_client.Sctp.Queue.Reassembly.{
  ReassemblyQueue, extract, find_complete_unordered_chunk_set, keep_found, push_existing,
  place_ordered, push_unordered, push_ordered, push,
}

abbrev pub data_length : ChunkPayloadData → ℕ
data_length c = length c.user_data

abbrev pub data_bytes : List ChunkPayloadData → ℕ
data_bytes cs = total data_length cs

abbrev pub set_bytes : List ChunkSet → ℕ
set_bytes sets = total (λ s. data_bytes s.chunks) sets

-- The bytes of all fragments in the queue.
abbrev pub stored : ReassemblyQueue → ℕ
stored r = set_bytes r.ordered + set_bytes r.unordered + data_bytes r.unordered_chunks

abbrev pub IsExact : ReassemblyQueue → Type 0
IsExact r = r.n_bytes ≡ stored r

-- No set with the chunk's SSN holds its TSN.
abbrev pub IsNew : ChunkPayloadData → List ChunkSet → Type 0
IsNew c [] = Unit {0}
IsNew c (s ∷ sets) =
    ((s.ssn == c.stream_sequence_number) && holds_tsn c.tsn s.chunks ≡ false) × IsNew c sets

sorted_bytes :
    (cs : List ChunkPayloadData) (c : ChunkPayloadData)
    → data_bytes (sort_chunks_by_tsn (cs ++ (c ∷ []))) ≡ data_bytes cs + length c.user_data
unfolding sort_chunks_by_tsn
sorted_bytes cs c = omega (
  arith,
  total-sort_by (λ (a b : ChunkPayloadData). sna32lt a.tsn b.tsn) data_length (cs ++ (c ∷ [])),
  total-append data_length cs (c ∷ []),
)

push_chunk-data_bytes :
    (s : ChunkSet) (c : ChunkPayloadData)
    → data_bytes (push_chunk s c).0.chunks
      ≡ data_bytes s.chunks + (if holds_tsn c.tsn s.chunks then 0 else length c.user_data)
unfolding push_chunk
push_chunk-data_bytes s c = ground (arith, sorted_bytes s.chunks c)

sorted_sets :
    (sets : List ChunkSet) (s : ChunkSet)
    → set_bytes (sort_chunks_by_ssn (sets ++ (s ∷ []))) ≡ set_bytes sets + data_bytes s.chunks
unfolding sort_chunks_by_ssn
sorted_sets sets s =
    let f : ChunkSet → ℕ = λ t. data_bytes t.chunks in
    omega (
      arith,
      total-sort_by (λ (a b : ChunkSet). sna16lt a.ssn b.ssn) f (sets ++ (s ∷ [])),
      total-append f sets (s ∷ []),
    )

-- A push into a set that is there adds the chunk's bytes.
abbrev AddsBytes : List ChunkSet → ChunkPayloadData → Option (List ChunkSet × Bool) → Type 0
AddsBytes sets c none = Unit {0}
AddsBytes sets c (some (sets', ok)) = set_bytes sets' ≡ set_bytes sets + length c.user_data

push_existing-AddsBytes :
    (sets : List ChunkSet) (c : ChunkPayloadData)
    → IsNew c sets
    → AddsBytes sets c (push_existing sets c)
unfolding push_existing
push_existing-AddsBytes [] c h = tt
push_existing-AddsBytes (s ∷ sets) c (new, h) =
    elim (Bool-cases (s.ssn == c.stream_sequence_number)) [
      | inl e ↦ rw (e, push_existing) (ground (arith, push_chunk-data_bytes s c))
      | inr e ↦ rw (e, push_existing) (go (push_existing sets c) (push_existing-AddsBytes sets c h))
    ]
  where
    go :
        (o : Option (List ChunkSet × Bool))
        → AddsBytes sets c o
        → AddsBytes (s ∷ sets) c (elim o [ none ↦ none | some (sets', ok) ↦ some (s ∷ sets', ok) ])
    go none a = tt
    go (some (sets', ok)) a = omega arith

abbrev found_bytes : Option ChunkSet → ℕ
found_bytes none = 0
found_bytes (some s) = data_bytes s.chunks

-- What is taken out of the unordered fragments is what they lose.
find-data_bytes :
    (r : ReassemblyQueue)
    → let (r', cset) = find_complete_unordered_chunk_set r in
      (data_bytes r'.unordered_chunks + found_bytes cset ≡ data_bytes r.unordered_chunks)
      × (r'.ordered ≡ r.ordered)
      × (r'.unordered ≡ r.unordered)
      × (r'.n_bytes ≡ r.n_bytes)
unfolding find_complete_unordered_chunk_set extract
find-data_bytes r = go (scan 0 none 0 0 r.unordered_chunks) refl
  where
    go :
        (o : Option (ℕ × ℕ))
        → scan 0 none 0 0 r.unordered_chunks ≡ o
        → let (r', cset) = find_complete_unordered_chunk_set r in
          (data_bytes r'.unordered_chunks + found_bytes cset ≡ data_bytes r.unordered_chunks)
          × (r'.ordered ≡ r.ordered)
          × (r'.unordered ≡ r.unordered)
          × (r'.n_bytes ≡ r.n_bytes)
    go none e = rw (e, find_complete_unordered_chunk_set) (omega arith, refl, refl, refl)
    go (some (s, n)) e =
        rw (e, find_complete_unordered_chunk_set)
          (
            omega (
              arith,
              total-cut data_length s n r.unordered_chunks,
              total-append data_length (take s r.unordered_chunks)
                  (drop (s + n) r.unordered_chunks),
            ),
            refl,
            refl,
            refl,
          )

keep_found-stored :
    (f : ReassemblyQueue × Option ChunkSet)
    → (stored (keep_found f).0 ≡ stored f.0 + found_bytes f.1)
      × ((keep_found f).0.n_bytes ≡ f.0.n_bytes)
unfolding keep_found
keep_found-stored (r, none) = omega arith
keep_found-stored (r, some s) =
    omega (arith, total-append (λ (t : ChunkSet). data_bytes t.chunks) r.unordered (s ∷ []))

push_unordered-IsExact :
    (r : ReassemblyQueue) (c : ChunkPayloadData)
    → IsU64 (r.n_bytes + length c.user_data)
    → IsExact r
    → IsExact (push_unordered r c).0
unfolding push_unordered
push_unordered-IsExact r c room x =
    let r' : ReassemblyQueue = record r {
      n_bytes = add_size r.n_bytes (length c.user_data);
      unordered_chunks = sort_chunks_by_tsn (r.unordered_chunks ++ (c ∷ []));
    } in
    let f : ReassemblyQueue × Option ChunkSet = find_complete_unordered_chunk_set r' in
    let (d, o, u, n) = find-data_bytes r' in
    omega (
      arith,
      keep_found-stored f,
      d,
      n,
      ap set_bytes o,
      ap set_bytes u,
      sorted_bytes r.unordered_chunks c,
    )

place_ordered-stored :
    (r : ReassemblyQueue) (c : ChunkPayloadData) (o : Option (List ChunkSet × Bool))
    → AddsBytes r.ordered c o
    → (stored (place_ordered r c o).0 ≡ stored r + length c.user_data)
      × ((place_ordered r c o).0.n_bytes ≡ r.n_bytes)
unfolding place_ordered holds_tsn
place_ordered-stored r c (some (sets, ok)) a = omega arith
place_ordered-stored r c none a =
    let s : ChunkSet = record {
      ssn = c.stream_sequence_number;
      ppi = c.payload_type;
      chunks = [];
    } in
    let s' : ChunkSet = (push_chunk s c).0 in
    omega (arith, push_chunk-data_bytes s c, sorted_sets r.ordered s')

push_ordered-IsExact :
    (r : ReassemblyQueue) (c : ChunkPayloadData)
    → IsU64 (r.n_bytes + length c.user_data)
    → IsNew c r.ordered
    → IsExact r
    → IsExact (push_ordered r c).0
unfolding push_ordered
push_ordered-IsExact r c room new x =
    let r' : ReassemblyQueue = record r { n_bytes = add_size r.n_bytes (length c.user_data) } in
    ground (
      arith,
      place_ordered-stored r' c (push_existing r.ordered c)
          (push_existing-AddsBytes r.ordered c new),
    )

-- A push keeps the byte count exact, if the count has room for the chunk and no set with the
-- chunk's SSN holds its TSN.
pub push-IsExact :
    (r : ReassemblyQueue) (c : ChunkPayloadData)
    → IsU64 (r.n_bytes + length c.user_data)
    → IsNew c r.ordered
    → IsExact r
    → IsExact (push r c).0
unfolding push
push-IsExact r c room new x =
    ground (arith, push_unordered-IsExact r c room x, push_ordered-IsExact r c room new x)

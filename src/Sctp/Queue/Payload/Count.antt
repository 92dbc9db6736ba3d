-- ===== src/Sctp/Queue/Payload/Count.antt =====
-- The bookkeeping of payload_queue.rs: counters, keys and the sorted TSNs agree after every
-- operation, and no counter wraps.
use webrtc_unreliable_client.Prelude.{
  ℕ, ◌+◌, ◌<◌, ◌≤◌, ◌≡◌, refl, ap, length, total-append, some, none, true, arith, ◌++◌, ◌∷◌, [],
  List, Option-cases, Bool-cases, ◌==◌, inl, inr, false, if◌then◌else◌, ◌≢◌,
}
use webrtc_unreliable_client.Prelude.Words.{IsU64}
use webrtc_unreliable_client.Prelude.Sort.{total-sort_by}
use webrtc_unreliable_client.Prelude.Map.{
  Map, count, hit, count_key, total_map, lookup, contains_key, remove, total_map-insert,
  total_map-remove, count_key-lookup, lookup-count_key, length-insert, length-remove, lookup-insert,
  lookup-remove_ne,
}
use webrtc_unreliable_client.Sctp.Chunk.PayloadData.{ChunkPayloadData}
use webrtc_unreliable_client.Sctp.Sna.{sna32lt}
use webrtc_unreliable_client.Sctp.Queue.Payload.{
  PayloadQueue, can_push, push, push_no_check, pop, pop_front, update_sorted_keys,
}

-- The bytes that the chunks of the map hold.
abbrev pub chunk_bytes : Map ChunkPayloadData → ℕ
chunk_bytes m = total_map (λ t (c : ChunkPayloadData). length c.user_data) m

pub record IsValid (q : PayloadQueue) : Type 0 where
  pub keys : (t : ℕ) → count t q.sorted ≡ count_key t q.chunk_map
  pub once : (t : ℕ) → count t q.sorted ≤ 1
  pub tagged : (t : ℕ) (c : ChunkPayloadData) → lookup t q.chunk_map ≡ some c → c.tsn ≡ t
  pub counted : q.length ≡ length q.chunk_map
  pub bytes : q.n_bytes ≡ chunk_bytes q.chunk_map
  pub len_fits : IsU64 q.length
  pub bytes_fit : IsU64 q.n_bytes

-- There is room for one more chunk in the counters of the machine.
pub record HasRoom (q : PayloadQueue) (p : ChunkPayloadData) : Type 0 where
  pub len_room : IsU64 (q.length + 1)
  pub bytes_room : IsU64 (q.n_bytes + length p.user_data)

count-update_sorted_keys :
    (t x : ℕ) (xs : List ℕ) → count t (update_sorted_keys (xs ++ (x ∷ []))) ≡ count t xs + hit t x
unfolding update_sorted_keys
count-update_sorted_keys t x xs =
    omega (arith, total-sort_by sna32lt (hit t) (xs ++ (x ∷ [])), total-append (hit t) xs (x ∷ []))

push_no_check-IsValid :
    {q : PayloadQueue} (p : ChunkPayloadData)
    → IsValid q
    → HasRoom q p
    → lookup p.tsn q.chunk_map ≡ none
    → IsValid (push_no_check q p)
unfolding push_no_check
push_no_check-IsValid {q} p v r e = record {
  keys = λ t. omega (
    arith,
    v.keys t,
    count-update_sorted_keys t p.tsn q.sorted,
    total_map-insert (λ j w. hit t j) p.tsn p q.chunk_map e,
  );
  once = λ t. ground (
    arith,
    v.keys t,
    v.once t,
    v.keys p.tsn,
    count-update_sorted_keys t p.tsn q.sorted,
    count_key-lookup p.tsn q.chunk_map e,
  );
  tagged = λ t c h. ground (arith, v.tagged t c, lookup-insert t p.tsn p q.chunk_map);
  counted = omega (arith, v.counted, r.len_room, length-insert p.tsn p q.chunk_map e);
  bytes = omega (
    arith,
    v.bytes,
    r.bytes_room,
    total_map-insert (λ t (c : ChunkPayloadData). length c.user_data) p.tsn p q.chunk_map e,
  );
  len_fits = omega (arith, r.len_room);
  bytes_fit = omega (arith, r.bytes_room);
}

pub push-can_push :
    (q : PayloadQueue) (p : ChunkPayloadData) (cumulative_tsn : ℕ)
    → push q p cumulative_tsn ≡ (
        if can_push q p cumulative_tsn
        then (push_no_check q p, true)
        else (record q { dup_tsn = q.dup_tsn ++ (p.tsn ∷ []) }, false))
unfolding push can_push push_no_check
push-can_push q p cumulative_tsn = ground arith

can_push-lookup :
    (q : PayloadQueue) (p : ChunkPayloadData) (cumulative_tsn : ℕ)
    → can_push q p cumulative_tsn ≡ true
    → lookup p.tsn q.chunk_map ≡ none
unfolding can_push contains_key
can_push-lookup q p cumulative_tsn h = ground arith

-- A push keeps a valid queue valid, whether the chunk is taken or noted as a duplicate, if the
-- counters have room for one more chunk.
pub push-IsValid :
    {q : PayloadQueue} (p : ChunkPayloadData) (cumulative_tsn : ℕ)
    → IsValid q
    → HasRoom q p
    → IsValid (push q p cumulative_tsn).0
push-IsValid {q} p cumulative_tsn v r =
    rw push-can_push (elim (Bool-cases (can_push q p cumulative_tsn)) [
      | inl e ↦ rw e (push_no_check-IsValid p v r (can_push-lookup q p cumulative_tsn e))
      | inr e ↦ rw e (record {
        keys = v.keys;
        once = v.once;
        tagged = v.tagged;
        counted = v.counted;
        bytes = v.bytes;
        len_fits = v.len_fits;
        bytes_fit = v.bytes_fit;
      })
    ])

lookup-hit : (t : ℕ) (m : Map ChunkPayloadData) → 0 < count_key t m → lookup t m ≢ none
lookup-hit t m h e = omega (arith, count_key-lookup t m e)

-- What `pop` does at the front TSN of a valid queue.
pub pop-found :
    {q : PayloadQueue} (tsn : ℕ) (rest : List ℕ)
    → IsValid q
    → q.sorted ≡ tsn ∷ rest
    → (c : ChunkPayloadData) × (lookup tsn q.chunk_map ≡ some c)
pop-found {q} tsn rest v e = elim (Option-cases (lookup tsn q.chunk_map)) [
  | inl n ↦ absurd (
      lookup-hit tsn q.chunk_map (ground (arith, v.keys tsn, ap (λ (l : List ℕ). count tsn l) e)) n)
  | inr found ↦ found
]

pop_front-IsValid :
    {q : PayloadQueue} (tsn : ℕ) (rest : List ℕ) (c : ChunkPayloadData)
    → IsValid q
    → q.sorted ≡ tsn ∷ rest
    → lookup tsn q.chunk_map ≡ some c
    → IsValid (pop_front q tsn rest).0
unfolding pop_front
pop_front-IsValid {q} tsn rest c v e f =
    rw (f, pop_front)
      (record {
        keys = λ t. omega (arith, v.keys t, front t, removed t);
        once = λ t. omega (arith, v.once t, front t);
        tagged = λ t d h. v.tagged t d (still t d h);
        counted = omega (arith, v.counted, v.len_fits, length-remove tsn q.chunk_map f);
        bytes = omega (arith, v.bytes, v.bytes_fit, freed);
        len_fits = omega arith;
        bytes_fit = omega arith;
      })
  where
    front : (t : ℕ) → count t q.sorted ≡ hit t tsn + count t rest
    front t = ap (λ l. count t l) e

    removed : (t : ℕ) → count_key t q.chunk_map ≡ hit t tsn + count_key t (remove tsn q.chunk_map)
    removed t = total_map-remove (λ j w. hit t j) tsn q.chunk_map f

    freed : chunk_bytes q.chunk_map ≡ length c.user_data + chunk_bytes (remove tsn q.chunk_map)
    freed = total_map-remove (λ t (d : ChunkPayloadData). length d.user_data) tsn q.chunk_map f

    still :
        (t : ℕ) (d : ChunkPayloadData)
        → lookup t (remove tsn q.chunk_map) ≡ some d
        → lookup t q.chunk_map ≡ some d
    still t d h = ground (
      arith,
      h,
      v.once tsn,
      v.keys tsn,
      removed tsn,
      lookup-remove_ne t tsn q.chunk_map,
      lookup-count_key t (remove tsn q.chunk_map),
    )

-- A pop keeps a valid queue valid, at any TSN.
pub pop-IsValid : {q : PayloadQueue} (tsn : ℕ) → IsValid q → IsValid (pop q tsn).0
unfolding pop
pop-IsValid {q} tsn v = go q.sorted refl
  where
    go : (l : List ℕ) → q.sorted ≡ l → IsValid (pop q tsn).0
    go [] e = rw (e, pop) v
    go (t ∷ rest) e = elim (Bool-cases (tsn == t)) [
      | inl same ↦
          let h : t ≡ tsn = ground arith in
          let e' : q.sorted ≡ tsn ∷ rest = rw (← h) e in
          let (c, f) = pop-found tsn rest v e' in
          rw (e, pop, same) (pop_front-IsValid tsn rest c v e' f)
      | inr other ↦ rw (e, pop, other) v
    ]

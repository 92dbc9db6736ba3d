-- ===== src/Sctp/Queue/Payload/Acked.antt =====
-- payload_queue.rs: what the marks on chunks in flight change, and what they keep.
use webrtc_unreliable_client.Prelude.{
  ℕ, ◌+◌, ◌≡◌, refl, length, some, none, arith, ◌∷◌, [], List, Option-cases, inl, inr,
}
use webrtc_unreliable_client.Prelude.Words.{sub_size}
use webrtc_unreliable_client.Prelude.Map.{
  Map, hit, total_map, lookup, update, total_map-update, length-update, lookup-update,
  count_key-update, length-map_values, map_values,
}
use webrtc_unreliable_client.Sctp.Chunk.PayloadData.{ChunkPayloadData, Flags}
use webrtc_unreliable_client.Sctp.Queue.Payload.{
  PayloadQueue, acked_chunk, mark_as_acked, mark_all_to_retransmit, to_retransmit, len,
}
use webrtc_unreliable_client.Sctp.Queue.Payload.Count.{IsValid, chunk_bytes}

-- Marking any TSN as acknowledged keeps a valid queue valid, and the number of bytes that it
-- returns is what the byte count loses.
pub mark_as_acked-IsValid :
    {q : PayloadQueue} (tsn : ℕ)
    → IsValid q
    → let (q', freed) = mark_as_acked q tsn in IsValid q' × (q'.n_bytes + freed ≡ q.n_bytes)
unfolding mark_as_acked
mark_as_acked-IsValid {q} tsn v = elim (Option-cases (lookup tsn q.chunk_map)) [
  | inl e ↦ rw (e, mark_as_acked) (v, omega arith)
  | inr (c, e) ↦ rw (e, mark_as_acked) (acked c e, omega (arith, v.bytes, v.bytes_fit, freed c e))
]
  where
    freed :
        (c : ChunkPayloadData)
        → lookup tsn q.chunk_map ≡ some c
        → chunk_bytes (update tsn acked_chunk q.chunk_map) + length c.user_data
          ≡ chunk_bytes q.chunk_map
    freed c e = omega (
      arith,
      total_map-update (λ t (d : ChunkPayloadData). length d.user_data) tsn acked_chunk q.chunk_map
          e,
    )

    acked :
        (c : ChunkPayloadData)
        → lookup tsn q.chunk_map ≡ some c
        → IsValid (record q {
          chunk_map = update tsn acked_chunk q.chunk_map;
          n_bytes = sub_size q.n_bytes (length c.user_data);
        })
    acked c e = record {
      keys = λ t. omega (arith, v.keys t, count_key-update t tsn acked_chunk q.chunk_map);
      once = v.once;
      tagged = λ t d h.
          ground
            (arith, v.tagged t c, v.tagged t d, h, lookup-update t tsn acked_chunk q.chunk_map, e);
      counted = omega (arith, v.counted, length-update tsn acked_chunk q.chunk_map);
      bytes = omega (arith, v.bytes, v.bytes_fit, freed c e);
      len_fits = v.len_fits;
      bytes_fit = omega arith;
    }

-- Marking for retransmission changes no key and no data.
total_map-map_values :
    (s : Flags) (f : ℕ → List ℕ → ℕ) (m : Map ChunkPayloadData)
    → total_map (λ t c. f t c.user_data) (map_values (to_retransmit s) m)
      ≡ total_map (λ t c. f t c.user_data) m
unfolding map_values to_retransmit
total_map-map_values s f [] = refl
total_map-map_values s f ((k, c) ∷ m) = ground (arith, total_map-map_values s f m)

lookup-map_values :
    (s : Flags) (t : ℕ) (m : Map ChunkPayloadData)
    → lookup t (map_values (to_retransmit s) m)
      ≡ elim (lookup t m) [ none ↦ none | some c ↦ some (to_retransmit s c) ]
unfolding map_values lookup
lookup-map_values s t [] = refl
lookup-map_values s t ((k, c) ∷ m) = ground (arith, lookup-map_values s t m)

-- Marking all chunks for retransmission keeps a valid queue valid.
pub mark_all_to_retransmit-IsValid :
    {q : PayloadQueue} (s : Flags) → IsValid q → IsValid (mark_all_to_retransmit s q)
unfolding mark_all_to_retransmit
mark_all_to_retransmit-IsValid {q} s v = record {
  keys = λ t. omega (arith, v.keys t, total_map-map_values s (λ j d. hit t j) q.chunk_map);
  once = v.once;
  tagged =
      λ t c h. unfold to_retransmit in grind (arith, v.tagged, lookup-map_values s t q.chunk_map);
  counted = omega (arith, v.counted, length-map_values (to_retransmit s) q.chunk_map);
  bytes = omega (arith, v.bytes, total_map-map_values s (λ j d. length d) q.chunk_map);
  len_fits = v.len_fits;
  bytes_fit = v.bytes_fit;
}

-- In a valid queue the assertion of `len` holds, and `len` returns the shared counter.
pub len_lem : {q : PayloadQueue} → IsValid q → len q ≡ some q.length
unfolding len
len_lem {q} v = ground (arith, v.counted)

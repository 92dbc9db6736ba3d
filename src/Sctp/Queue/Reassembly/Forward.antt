-- ===== src/Sctp/Queue/Reassembly/Forward.antt =====
-- `forward_tsn_for_unordered` of reassembly_queue.rs: which fragments it drops.
use webrtc_unreliable_client.Prelude.{
  ℕ, suc, ◌+◌, ◌-◌, ◌≤◌, ◌<◌, ◌≡◌, ◌^◌, refl, ap, ◌∙◌, true, false, List, [], ◌∷◌, length, take,
  drop, total-take-drop, arith, Bool-cases, inl, inr, if◌then◌else◌, ltb, sym, some,
}
use webrtc_unreliable_client.Prelude.Words.{IsU32, IsU64}
use webrtc_unreliable_client.Sctp.Sna.{sna32gt, sna16lt}
use webrtc_unreliable_client.Sctp.Sna.Order.{distance32}
use webrtc_unreliable_client.Sctp.Chunk.PayloadData.{ChunkPayloadData}
use webrtc_unreliable_client.Sctp.Queue.ChunkSet.{ChunkSet, holds_tsn, push_chunk}
use webrtc_unreliable_client.Sctp.Queue.Reassembly.{
  ReassemblyQueue, older_count, subtract_num_bytes, subtract_chunks, forward_tsn_for_unordered,
  push, push_ordered, push_existing, place_ordered,
}
use webrtc_unreliable_client.Sctp.Queue.Reassembly.Bytes.{data_bytes, data_length, stored, IsExact}

-- The TSNs run upwards within half the circle above `base`.
abbrev pub Rises : ℕ → ℕ → List ChunkPayloadData → Type 0
Rises base lo [] = Unit {0}
Rises base lo (c ∷ cs) =
    IsU32 c.tsn
    × (lo ≤ distance32 base c.tsn)
    × (distance32 base c.tsn < 2 ^ 31)
    × Rises base (distance32 base c.tsn) cs

-- The chunks that are newer than `cum`.
abbrev pub newer : ℕ → List ChunkPayloadData → List ChunkPayloadData
newer cum [] = []
newer cum (c ∷ cs) = if sna32gt c.tsn cum then c ∷ newer cum cs else newer cum cs

sna32gt_above :
    (base s t : ℕ)
    → IsU32 base
    → IsU32 s
    → IsU32 t
    → distance32 base s < 2 ^ 31
    → distance32 base t < 2 ^ 31
    → sna32gt s t ≡ ltb (distance32 base t) (distance32 base s)
unfolding sna32gt
sna32gt_above base s t hb hs ht a b = ground arith

newer_all :
    (base lo cum : ℕ) (cs : List ChunkPayloadData)
    → IsU32 base
    → IsU32 cum
    → distance32 base cum < lo
    → Rises base lo cs
    → newer cum cs ≡ cs
newer_all base lo cum [] hb hc l h = refl
newer_all base lo cum (c ∷ cs) hb hc l (hx, a, b, h) = ground (
  arith,
  sna32gt_above base c.tsn cum,
  newer_all base (distance32 base c.tsn) cum cs hb hc (omega arith) h,
)

drop-older_count :
    (base lo cum : ℕ) (cs : List ChunkPayloadData)
    → IsU32 base
    → IsU32 cum
    → distance32 base cum < 2 ^ 31
    → Rises base lo cs
    → drop (older_count cum cs) cs ≡ newer cum cs
unfolding older_count
drop-older_count base lo cum [] hb hc l h = refl
drop-older_count base lo cum (c ∷ cs) hb hc l (hx, a, b, h) =
    elim (Bool-cases (sna32gt c.tsn cum)) [
      | inl e ↦
          let above : distance32 base cum < distance32 base c.tsn =
            ground (arith, sna32gt_above base c.tsn cum) in
          rw e (ap (λ l. c ∷ l) (sym (newer_all base (distance32 base c.tsn) cum cs hb hc above h)))
      | inr e ↦
          let next : older_count cum cs + 1 ≡ suc (older_count cum cs) = omega arith in
          rw e (rw next (drop-older_count base (distance32 base c.tsn) cum cs hb hc l h))
    ]

subtract_num_bytes_lem :
    (r : ReassemblyQueue) (n : ℕ) → subtract_num_bytes r n ≡ record r { n_bytes = r.n_bytes - n }
unfolding subtract_num_bytes
subtract_num_bytes_lem r n = ground arith

subtract_chunks_lem :
    (r : ReassemblyQueue) (cs : List ChunkPayloadData)
    → subtract_chunks r cs ≡ record r { n_bytes = r.n_bytes - data_bytes cs }
unfolding subtract_chunks
subtract_chunks_lem r [] = ground arith
subtract_chunks_lem r (c ∷ cs) =
    let n : ℕ = length c.user_data in
    let e : r.n_bytes - n - data_bytes cs ≡ r.n_bytes - (n + data_bytes cs) = omega arith in
    rw (subtract_num_bytes_lem r n) (
      subtract_chunks_lem (record r { n_bytes = r.n_bytes - n }) cs
      ∙ (λ i. record r { n_bytes = e i }))

-- The unordered fragments rise from `base` within half the circle, which holds the new cumulative
-- TSN too, and the byte count is exact: then exactly the fragments newer than that TSN stay,
-- nothing but the byte count changes beside, and the count is exact again.
pub forward_tsn_for_unordered_lem :
    (base cum : ℕ) (r : ReassemblyQueue)
    → IsU32 base
    → IsU32 cum
    → distance32 base cum < 2 ^ 31
    → Rises base 0 r.unordered_chunks
    → IsExact r
    → let r' = forward_tsn_for_unordered r cum in
      (r' ≡ record r { unordered_chunks = newer cum r.unordered_chunks; n_bytes = r'.n_bytes })
      × IsExact r'
unfolding forward_tsn_for_unordered
forward_tsn_for_unordered_lem base cum r hb hc l h x =
    let n : ℕ = older_count cum r.unordered_chunks in
    ground (
      arith,
      subtract_chunks_lem r (take n r.unordered_chunks),
      drop-older_count base 0 cum r.unordered_chunks hb hc l h,
      total-take-drop data_length n r.unordered_chunks,
    )

push_existing_copy :
    (c : ChunkPayloadData) (s : ChunkSet) (sets : List ChunkSet)
    → s.ssn ≡ c.stream_sequence_number
    → holds_tsn c.tsn s.chunks ≡ true
    → push_existing (s ∷ sets) c ≡ some (s ∷ sets, false)
unfolding push_existing push_chunk
push_existing_copy c s sets e h = ground (arith, h)

-- If the count is exact and has room, and the first ordered set has the SSN of an ordered chunk
-- that is not old and holds its TSN, a push stores nothing, and the count is then too high by the
-- chunk's bytes.
pub push_copy :
    (r : ReassemblyQueue) (c : ChunkPayloadData) (s : ChunkSet) (sets : List ChunkSet)
    → IsU64 (r.n_bytes + length c.user_data)
    → c.stream_identifier ≡ r.si
    → c.unordered ≡ false
    → sna16lt c.stream_sequence_number r.next_ssn ≡ false
    → r.ordered ≡ s ∷ sets
    → s.ssn ≡ c.stream_sequence_number
    → holds_tsn c.tsn s.chunks ≡ true
    → IsExact r
    → let r' = (push r c).0 in
      (stored r' ≡ stored r) × (r'.n_bytes ≡ stored r' + length c.user_data)
unfolding push push_ordered place_ordered
push_copy r c s sets room si o ssn e f h x = ground (arith, push_existing_copy c s sets f h)

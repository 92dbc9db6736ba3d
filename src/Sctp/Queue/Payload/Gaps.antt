-- ===== src/Sctp/Queue/Payload/Gaps.antt =====
-- The gap ack blocks of payload_queue.rs against the TSNs that they stand for.
use webrtc_unreliable_client.Prelude.{
  ℕ, zero, suc, ◌+◌, ◌-◌, ◌^◌, ◌<◌, ◌≤◌, ◌≡◌, ◌↔◌, refl, ap, subst, ◌∙◌, List, [], ◌∷◌, ◌++◌, map,
  All, arith, if◌then◌else◌, ◌==◌, Bool-cases, inl, inr,
}
use mathlib.Core.List.{append_assoc}
use webrtc_unreliable_client.Prelude.Words.{IsU32, add16}
use webrtc_unreliable_client.Sctp.Sna.Order.{distance32}
use webrtc_unreliable_client.Sctp.Chunk.GapAck.{GapAckBlock}
use webrtc_unreliable_client.Sctp.Queue.Payload.{
  PayloadQueue, gap_offset, gap_loop, gap_blocks, get_gap_ack_blocks,
}
use webrtc_unreliable_client.Prelude.Map.{Map, count, count_key}
use webrtc_unreliable_client.Sctp.Chunk.PayloadData.{ChunkPayloadData}
use webrtc_unreliable_client.Sctp.Queue.Payload.Count.{IsValid}
use webrtc_unreliable_client.Sctp.Queue.Payload.Order.{Ascending, IsOrdered}

-- `s`, `s + 1`, and so on, `n` numbers.
abbrev pub run : ℕ → ℕ → List ℕ
run s zero = []
run s (suc n) = s ∷ run (s + 1) n

-- The offsets that a block acknowledges, both ends included.
abbrev pub offsets : GapAckBlock → List ℕ
offsets b = run b.start (b.end + 1 - b.start)

abbrev pub all_offsets : List GapAckBlock → List ℕ
all_offsets [] = []
all_offsets (b ∷ bs) = offsets b ++ all_offsets bs

-- The blocks run upwards from above `lo`, none is empty, and no two touch.
abbrev pub AreSeparate : ℕ → List GapAckBlock → Type 0
AreSeparate lo [] = Unit {0}
AreSeparate lo (b ∷ bs) = (lo < b.start) × (b.start ≤ b.end) × AreSeparate (b.end + 1) bs

-- No TSN is numerically below `cum` or `2 ^ 16` above it.
abbrev pub AreNear : ℕ → List ℕ → Type 0
AreNear cum ts = All (λ t. (cum ≤ t) × (t < cum + 2 ^ 16)) ts

-- The loop with the closed blocks in front of the rest.
gap_tail : ℕ → GapAckBlock → List ℕ → List GapAckBlock
gap_tail cum b [] = b ∷ []
gap_tail cum b (t ∷ rest) =
    let diff = gap_offset cum t in
    let widened = gap_tail cum (record b { end = add16 b.end 1 }) rest in
    let fresh = gap_tail cum (record { start = diff; end = diff }) rest in
    if add16 b.end 1 == diff then widened else b ∷ fresh

gap_loop-gap_tail :
    (cum : ℕ) (b : GapAckBlock) (blocks : List GapAckBlock) (ts : List ℕ)
    → gap_loop cum b blocks ts ≡ blocks ++ gap_tail cum b ts
unfolding gap_loop gap_tail
gap_loop-gap_tail cum b blocks [] = refl
gap_loop-gap_tail cum b blocks (t ∷ rest) = elim (Bool-cases (add16 b.end 1 == gap_offset cum t)) [
  | inl e ↦ rw e (gap_loop-gap_tail cum (record b { end = add16 b.end 1 }) blocks rest)
  | inr e ↦ rw e (
      gap_loop-gap_tail cum (record { start = gap_offset cum t; end = gap_offset cum t })
        (blocks ++ (b ∷ [])) rest
      ∙ append_assoc blocks (b ∷ []) _)
]

run-snoc : (s n : ℕ) → run s (suc n) ≡ run s n ++ ((s + n) ∷ [])
run-snoc s zero = ap (λ k. k ∷ []) (omega arith)
run-snoc s (suc n) =
    ap (λ l. s ∷ l) (run-snoc (s + 1) n ∙ ap (λ k. run (s + 1) n ++ (k ∷ [])) (omega arith))

offsets_widen : (s e : ℕ) → s ≤ e → run s (e + 1 + 1 - s) ≡ run s (e + 1 - s) ++ ((e + 1) ∷ [])
offsets_widen s e h =
    let more : e + 1 + 1 - s ≡ suc (e + 1 - s) = omega arith in
    let top : s + (e + 1 - s) ≡ e + 1 = omega arith in
    rw more (run-snoc s (e + 1 - s) ∙ ap (λ k. run s (e + 1 - s) ++ (k ∷ [])) top)

offsets_one : (d : ℕ) → run d (d + 1 - d) ≡ d ∷ []
offsets_one d = let one : d + 1 - d ≡ 1 = omega arith in rw one

-- What one round of the loop tests, and what it writes, without wrapping.
gap_offset_near : (cum t : ℕ) → cum ≤ t → t < cum + 2 ^ 16 → gap_offset cum t ≡ t - cum
unfolding gap_offset
gap_offset_near cum t a b = ground arith

module _ (cum : ℕ) (hc : IsU32 cum) where
  gap_tail-all_offsets :
      (b : GapAckBlock) (ts : List ℕ)
      → b.start ≤ b.end
      → b.end < 2 ^ 16
      → AreNear cum ts
      → Ascending cum b.end ts
      → all_offsets (gap_tail cum b ts) ≡ offsets b ++ map (λ t. t - cum) ts
  unfolding gap_tail
  gap_tail-all_offsets b [] o f near asc = refl
  gap_tail-all_offsets b (t ∷ rest) o f ((le, lt), near) (ht, above, half, asc) =
      elim (Bool-cases (add16 b.end 1 == gap_offset cum t)) [
        | inl e ↦
            let same : add16 b.end 1 ≡ b.end + 1 = ground (arith, gap_offset_near cum t le lt) in
            let next : t - cum ≡ b.end + 1 = ground (arith, gap_offset_near cum t le lt) in
            rw e (
              rw same (
                rw next (
                  gap_tail-all_offsets (record b { end = b.end + 1 }) rest (omega arith)
                    (omega arith) near (subst (λ d. Ascending cum d rest) (omega arith) asc)
                  ∙ rw (offsets_widen b.start b.end o)
                      (append_assoc (offsets b) ((b.end + 1) ∷ []) (map (λ t. t - cum) rest)))))
        | inr e ↦ rw e (
            rw (gap_offset_near cum t le lt) (
              ap (λ l. offsets b ++ l)
                (gap_tail-all_offsets (record { start = t - cum; end = t - cum }) rest (omega arith)
                    (omega arith) near (subst (λ d. Ascending cum d rest) (omega arith) asc)
                  ∙ rw (offsets_one (t - cum)))))
      ]

  gap_tail-AreSeparate :
      (lo : ℕ) (b : GapAckBlock) (ts : List ℕ)
      → lo < b.start
      → b.start ≤ b.end
      → b.end < 2 ^ 16
      → AreNear cum ts
      → Ascending cum b.end ts
      → AreSeparate lo (gap_tail cum b ts)
  unfolding gap_tail
  gap_tail-AreSeparate lo b [] l o f near asc = (l, o, tt)
  gap_tail-AreSeparate lo b (t ∷ rest) l o f ((le, lt), near) (ht, above, half, asc) =
      elim (Bool-cases (add16 b.end 1 == gap_offset cum t)) [
        | inl e ↦
            let same : add16 b.end 1 ≡ b.end + 1 = ground (arith, gap_offset_near cum t le lt) in
            rw e (
              rw same (
                gap_tail-AreSeparate lo (record b { end = b.end + 1 }) rest l (omega arith)
                  (ground (arith, gap_offset_near cum t le lt)) near
                  (subst (λ d. Ascending cum d rest) (ground (arith, gap_offset_near cum t le lt))
                    asc)))
        | inr e ↦ rw e (
            rw (gap_offset_near cum t le lt) (
              l,
              o,
              gap_tail-AreSeparate (b.end + 1) (record { start = t - cum; end = t - cum }) rest
                  (ground (arith, gap_offset_near cum t le lt)) (omega arith) (omega arith) near
                  (subst (λ d. Ascending cum d rest) (omega arith) asc),
            ))
      ]

-- The blocks stand for the TSNs `ts`, and are as few as can be.
abbrev pub Covers : ℕ → List ℕ → List GapAckBlock → Type 0
Covers cum ts blocks = (all_offsets blocks ≡ map (λ t. t - cum) ts) × AreSeparate 0 blocks

gap_blocks-Covers :
    (cum t : ℕ) (rest : List ℕ)
    → IsU32 cum
    → AreNear cum (t ∷ rest)
    → Ascending cum 0 (t ∷ rest)
    → Covers cum (t ∷ rest) (gap_blocks cum (t ∷ rest))
unfolding gap_blocks
gap_blocks-Covers cum t rest hc ((le, lt), near) (ht, above, half, asc) =
    let asc' : Ascending cum (t - cum) rest = subst (λ d. Ascending cum d rest) (omega arith) asc in
    let b : GapAckBlock = record { start = t - cum; end = t - cum } in
    rw (gap_offset_near cum t le lt) (
      rw (gap_loop-gap_tail cum b [] rest) (
        gap_tail-all_offsets cum hc b rest (omega arith) (omega arith) near asc'
            ∙ rw (offsets_one (t - cum)),
        gap_tail-AreSeparate cum hc 0 b rest (omega arith) (omega arith) (omega arith) near asc',
      ))

-- If a valid queue is ordered above the cumulative TSN, and each of its TSNs is numerically at or
-- above that and less than `2 ^ 16` above it, then the gap ack blocks stand for exactly the TSNs
-- of the queue, in order, none is empty, and no two of them touch.
pub get_gap_ack_blocks-Covers :
    {q : PayloadQueue} (cum : ℕ)
    → IsU32 cum
    → IsValid q
    → IsOrdered cum q
    → AreNear cum q.sorted
    → Covers cum q.sorted (get_gap_ack_blocks q cum)
unfolding get_gap_ack_blocks
get_gap_ack_blocks-Covers {q} cum hc v o near = go q.chunk_map q.sorted refl refl o near
  where
    go :
        (m : Map ChunkPayloadData) (l : List ℕ)
        → q.chunk_map ≡ m
        → q.sorted ≡ l
        → Ascending cum 0 l
        → AreNear cum l
        → Covers cum l (get_gap_ack_blocks q cum)
    go [] [] e f asc n = rw (e, get_gap_ack_blocks) (refl, tt)
    go [] (t ∷ rest) e f asc n =
        absurd (ground (arith, v.keys t, ap (λ ts. count t ts) f, ap (λ m. count_key t m) e))
    go (x ∷ m) [] e f asc n =
        absurd (ground (arith, v.keys x.0, ap (λ ts. count x.0 ts) f, ap (λ m. count_key x.0 m) e))
    go (x ∷ m) (t ∷ rest) e f asc n =
        rw (e, get_gap_ack_blocks) (rw f (gap_blocks-Covers cum t rest hc n asc))

-- For a TSN less than `2 ^ 16` above the cumulative TSN in serial order, the offset in the gap ack
-- blocks is their distance exactly if the TSN is not numerically below the cumulative one.
pub gap_offset-eq-distance32 :
    (cum t : ℕ)
    → IsU32 cum
    → IsU32 t
    → 0 < distance32 cum t
    → distance32 cum t < 2 ^ 16
    → (gap_offset cum t ≡ distance32 cum t) ↔ (cum ≤ t)
unfolding gap_offset
gap_offset-eq-distance32 cum t hc ht a b = ground arith

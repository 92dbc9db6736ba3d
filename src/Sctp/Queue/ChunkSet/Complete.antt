-- ===== src/Sctp/Queue/ChunkSet/Complete.antt =====
-- When a set of fragments is complete.
use webrtc_unreliable_client.Prelude.{
  ℕ, ◌≡◌, ◌↔◌, refl, true, List, [], ◌∷◌, arith, Bool-cases, inl, inr, ◌==◌,
}
use webrtc_unreliable_client.Prelude.Words.{add32}
use webrtc_unreliable_client.Sctp.Chunk.PayloadData.{ChunkPayloadData}
use webrtc_unreliable_client.Sctp.Queue.ChunkSet.{
  ChunkSet, is_contiguous, last_chunk, are_complete, is_complete,
}

-- The TSNs count up from `tsn`, modulo 2 ^ 32.
abbrev pub CountsFrom : ℕ → List ChunkPayloadData → Type 0
CountsFrom tsn [] = Unit {0}
CountsFrom tsn (c ∷ cs) = (c.tsn ≡ tsn) × CountsFrom (add32 tsn 1) cs

-- A whole message: consecutive TSNs from a beginning to an ending fragment.
abbrev pub IsMessage : List ChunkPayloadData → Type 0
IsMessage [] = ⊥
IsMessage (c ∷ cs) =
    (c.beginning_fragment ≡ true)
    × ((last_chunk c cs).ending_fragment ≡ true)
    × CountsFrom (add32 c.tsn 1) cs

is_contiguous_lem :
    (tsn : ℕ) (cs : List ChunkPayloadData)
    → (is_contiguous tsn cs ≡ true) ↔ CountsFrom (add32 tsn 1) cs
unfolding is_contiguous
is_contiguous_lem tsn [] = (λ h. tt, λ h. refl)
is_contiguous_lem tsn (c ∷ cs) = elim (Bool-cases (c.tsn == add32 tsn 1)) [
  | inl e ↦
      let same : c.tsn ≡ add32 tsn 1 = ground arith in
      rw e (
        λ h. (same, rw (← same) ((is_contiguous_lem c.tsn cs).0 h)),
        λ h. (is_contiguous_lem c.tsn cs).1 (rw same h.1),
      )
  | inr e ↦ rw e (λ h. cc, λ h. absurd (ground (arith, h.0)))
]

-- A set is complete exactly if its fragments are a whole message: the first begins one, the last
-- ends one, and the TSNs count up by one, modulo `2 ^ 32`.
pub is_complete-IsMessage : (s : ChunkSet) → (is_complete s ≡ true) ↔ IsMessage s.chunks
unfolding is_complete
is_complete-IsMessage s = go s.chunks
  where
    go : (cs : List ChunkPayloadData) → (are_complete cs ≡ true) ↔ IsMessage cs
    go [] = (λ h. cc, λ h. absurd h)
    go (c ∷ cs) =
        let (to, from) = is_contiguous_lem c.tsn cs in
        (λ h. (ground arith, ground arith, to (ground arith)), λ (b, e, p). ground (arith, from p))

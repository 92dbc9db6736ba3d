-- ===== src/Sctp/Queue/ChunkSet/Finds.antt =====
-- The search of reassembly_queue.rs finds a message wherever the fragments of one stand in the list.
use webrtc_unreliable_client.Prelude.{
  ℕ, ◌+◌, ◌≡◌, ◌≢◌, refl, sym, ◌∙◌, true, false, List, [], ◌∷◌, ◌++◌, Option, none, some,
}
use webrtc_unreliable_client.Prelude.Words.{add32}
use webrtc_unreliable_client.Sctp.Chunk.PayloadData.{ChunkPayloadData}
use webrtc_unreliable_client.Sctp.Queue.ChunkSet.{Scan, next, found, scan_step, scan}
use webrtc_unreliable_client.Sctp.Queue.ChunkSet.Rounds.{
  Chunks, step_single, step_first, step_close, step_more, scan-next, scan-found,
}

-- Fragments that follow the first of a message: none begins one, and the last alone ends it.
abbrev pub IsTail : ℕ → Chunks → Type 0
IsTail tsn [] = ⊥
IsTail tsn (c ∷ []) =
    (c.beginning_fragment ≡ false) × (c.tsn ≡ add32 tsn 1) × (c.ending_fragment ≡ true)
IsTail tsn (c ∷ d ∷ cs) =
    (c.beginning_fragment ≡ false)
    × (c.tsn ≡ add32 tsn 1)
    × (c.ending_fragment ≡ false)
    × IsTail c.tsn (d ∷ cs)

-- The fragments of one message, as a sender cuts it.
abbrev pub IsFragmented : Chunks → Type 0
IsFragmented [] = ⊥
IsFragmented (c ∷ []) = (c.beginning_fragment ≡ true) × (c.ending_fragment ≡ true)
IsFragmented (c ∷ d ∷ cs) =
    (c.beginning_fragment ≡ true) × (c.ending_fragment ≡ false) × IsTail c.tsn (d ∷ cs)

scan-tail :
    (i s n last : ℕ) (ms rest : Chunks)
    → IsTail last ms
    → scan i (some s) n last (ms ++ rest) ≢ none
scan-tail i s n last [] rest h e = h
scan-tail i s n last (c ∷ []) rest (b, t, end) e =
    cc (scan-found i (some s) n last c rest s (n + 1) (step_close i n last c s b t end))
scan-tail i s n last (c ∷ d ∷ ms) rest (b, t, end, h) e =
    scan-tail (i + 1) s (n + 1) c.tsn (d ∷ ms) rest h (
      sym (
        scan-next i (some s) n last c (d ∷ (ms ++ rest)) (some s) (n + 1) c.tsn
          (step_more i n last c s b t end))
      ∙ e)

scan-message :
    (i : ℕ) (st : Option ℕ) (n last : ℕ) (ms rest : Chunks)
    → IsFragmented ms
    → scan i st n last (ms ++ rest) ≢ none
scan-message i st n last [] rest h e = h
scan-message i st n last (c ∷ []) rest (b, end) e =
    cc (scan-found i st n last c rest i 1 (step_single i n last c st b end))
scan-message i st n last (c ∷ d ∷ ms) rest (b, end, h) e =
    scan-tail (i + 1) i 1 c.tsn (d ∷ ms) rest h (
      sym (
        scan-next i st n last c (d ∷ (ms ++ rest)) (some i) 1 c.tsn
          (step_first i n last c st b end))
      ∙ e)

-- Wherever the fragments of one message stand side by side in the list, and in whatever state the
-- search is when it begins, it returns a range.
pub scan_complete :
    (before ms rest : List ChunkPayloadData) (i : ℕ) (st : Option ℕ) (n last : ℕ)
    → IsFragmented ms
    → scan i st n last (before ++ (ms ++ rest)) ≢ none
scan_complete [] ms rest i st n last h e = scan-message i st n last ms rest h e
scan_complete (c ∷ before) ms rest i st n last h e =
    go (λ st' n' last'. scan_complete before ms rest (i + 1) st' n' last' h)
      (scan_step i st n last c) refl
  where
    go :
        ((st' : Option ℕ) (n' last' : ℕ)
          → scan (i + 1) st' n' last' (before ++ (ms ++ rest)) ≢ none)
        → (w : Scan) → scan_step i st n last c ≡ w
        → ⊥
    go ih (next st' n' last') w =
        ih st' n' last' (sym (scan-next i st n last c (before ++ (ms ++ rest)) st' n' last' w) ∙ e)
    go ih (found s k) w = cc (scan-found i st n last c (before ++ (ms ++ rest)) s k w)

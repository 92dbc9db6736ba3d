-- ===== src/Sctp/Queue/ChunkSet/Rounds.antt =====
-- The rounds of the loop of `find_complete_unordered_chunk_set` in reassembly_queue.rs.
use webrtc_unreliable_client.Prelude.{
  ℕ, ◌+◌, ◌≡◌, refl, true, false, List, ◌∷◌, Option, none, some, arith, ◌==◌,
}
use webrtc_unreliable_client.Prelude.Words.{add32}
use webrtc_unreliable_client.Sctp.Chunk.PayloadData.{ChunkPayloadData}
use webrtc_unreliable_client.Sctp.Queue.ChunkSet.{Scan, next, found, scan_step, scan}

abbrev pub Chunks : Type 0
Chunks = List ChunkPayloadData

-- The rounds of the loop, by what they see.
module _ (i n last : ℕ) (c : ChunkPayloadData) where
  pub step_single :
      (st : Option ℕ)
      → c.beginning_fragment ≡ true
      → c.ending_fragment ≡ true
      → scan_step i st n last c ≡ found i 1
  unfolding scan_step
  step_single st b e = ground arith

  pub step_first :
      (st : Option ℕ)
      → c.beginning_fragment ≡ true
      → c.ending_fragment ≡ false
      → scan_step i st n last c ≡ next (some i) 1 c.tsn
  unfolding scan_step
  step_first st b e = ground arith

  pub step_seek : c.beginning_fragment ≡ false → scan_step i none n last c ≡ next none n last
  unfolding scan_step
  step_seek b = ground arith

  pub step_break :
      (s : ℕ)
      → c.beginning_fragment ≡ false
      → (c.tsn == add32 last 1) ≡ false
      → scan_step i (some s) n last c ≡ next none n last
  unfolding scan_step
  step_break s b t = ground arith

  pub step_close :
      (s : ℕ)
      → c.beginning_fragment ≡ false
      → c.tsn ≡ add32 last 1
      → c.ending_fragment ≡ true
      → scan_step i (some s) n last c ≡ found s (n + 1)
  unfolding scan_step
  step_close s b t e = ground arith

  pub step_more :
      (s : ℕ)
      → c.beginning_fragment ≡ false
      → c.tsn ≡ add32 last 1
      → c.ending_fragment ≡ false
      → scan_step i (some s) n last c ≡ next (some s) (n + 1) c.tsn
  unfolding scan_step
  step_more s b t e = ground arith

-- The call of `scan` behind one round.
unfoldable pub scan_after : ℕ → Scan → Chunks → Option (ℕ × ℕ)
scan_after i (next st n last) cs = scan i st n last cs
scan_after i (found s n) cs = some (s, n)

pub scan-cons :
    (i : ℕ) (st : Option ℕ) (n last : ℕ) (c : ChunkPayloadData) (cs : Chunks)
    → scan i st n last (c ∷ cs) ≡ scan_after (i + 1) (scan_step i st n last c) cs
unfolding scan scan_after
scan-cons i st n last c cs = go (scan_step i st n last c) refl
  where
    go :
        (w : Scan)
        → scan_step i st n last c ≡ w
        → scan i st n last (c ∷ cs) ≡ scan_after (i + 1) w cs
    go (next st' n' last') e = rw (e, scan)
    go (found s k) e = rw (e, scan)

module _ (i : ℕ) (st : Option ℕ) (n last : ℕ) (c : ChunkPayloadData) (cs : Chunks) where
  pub scan-next :
      (st' : Option ℕ) (n' last' : ℕ)
      → scan_step i st n last c ≡ next st' n' last'
      → scan i st n last (c ∷ cs) ≡ scan (i + 1) st' n' last' cs
  unfolding scan_after
  scan-next st' n' last' e = cc (scan-cons i st n last c cs)

  pub scan-found :
      (s k : ℕ) → scan_step i st n last c ≡ found s k → scan i st n last (c ∷ cs) ≡ some (s, k)
  unfolding scan_after
  scan-found s k e = cc (scan-cons i st n last c cs)

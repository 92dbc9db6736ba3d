-- ===== src/Sctp/Queue/ChunkSet/Found.antt =====
-- The search of reassembly_queue.rs for a complete set among unordered fragments: what it finds is a
-- whole message.
use mathlib.Core.List.{append_assoc}
use webrtc_unreliable_client.Prelude.{
  ℕ, ◌+◌, ◌≡◌, refl, ap, sym, subst, ◌∙◌, true, false, List, [], ◌∷◌, ◌++◌, Option, none, some,
  length, length-append, arith, Bool-cases, inl, inr, ◌==◌,
}
use webrtc_unreliable_client.Prelude.Words.{add32}
use webrtc_unreliable_client.Sctp.Chunk.PayloadData.{ChunkPayloadData}
use webrtc_unreliable_client.Sctp.Queue.ChunkSet.{Scan, next, found, scan_step, scan, last_chunk}
use webrtc_unreliable_client.Sctp.Queue.ChunkSet.Rounds.{
  Chunks, step_single, step_first, step_seek, step_break, step_close, step_more, scan_after,
  scan-cons,
}
use webrtc_unreliable_client.Sctp.Queue.ChunkSet.Complete.{CountsFrom, IsMessage}

CountsFrom-snoc :
    (b : ChunkPayloadData) (row : Chunks) (c : ChunkPayloadData)
    → c.tsn ≡ add32 (last_chunk b row).tsn 1
    → CountsFrom (add32 b.tsn 1) row
    → CountsFrom (add32 b.tsn 1) (row ++ (c ∷ []))
CountsFrom-snoc b [] c e h = (e, tt)
CountsFrom-snoc b (d ∷ row) c e (same, h) = (
  same,
  subst (λ t. CountsFrom (add32 t 1) (row ++ (c ∷ []))) same
      (CountsFrom-snoc d row c e (subst (λ t. CountsFrom (add32 t 1) row) (sym same) h)),
)

last_chunk-snoc :
    (b : ChunkPayloadData) (row : Chunks) (c : ChunkPayloadData)
    → last_chunk b (row ++ (c ∷ [])) ≡ c
last_chunk-snoc b [] c = refl
last_chunk-snoc b (d ∷ row) c = last_chunk-snoc d row c

-- `pre` ends in an open row of `n` chunks from index `s` on: a beginning fragment, and consecutive
-- TSNs up to `last`.
record IsOpenRow (pre : Chunks) (s n last : ℕ) : Type 0 where
  before : Chunks
  first : ChunkPayloadData
  row : Chunks
  split : pre ≡ before ++ (first ∷ row)
  starts : length before ≡ s
  counts : length row + 1 ≡ n
  begins : first.beginning_fragment ≡ true
  counts_up : CountsFrom (add32 first.tsn 1) row
  ends_at : (last_chunk first row).tsn ≡ last

abbrev Opened : Chunks → Option ℕ → ℕ → ℕ → Type 0
Opened pre none n last = Unit {0}
Opened pre (some s) n last = IsOpenRow pre s n last

-- A whole message of `n` chunks stands at index `s`.
pub record IsFound (cs : Chunks) (s n : ℕ) : Type 0 where
  pub before : Chunks
  pub message : Chunks
  pub after : Chunks
  pub split : cs ≡ before ++ (message ++ after)
  pub starts : length before ≡ s
  pub counts : length message ≡ n
  pub whole : IsMessage message

open_first :
    (pre : Chunks) (c : ChunkPayloadData)
    → c.beginning_fragment ≡ true
    → IsOpenRow (pre ++ (c ∷ [])) (length pre) 1 c.tsn
open_first pre c b = record {
  before = pre;
  first = c;
  row = [];
  split = refl;
  starts = refl;
  counts = omega arith;
  begins = b;
  counts_up = tt;
  ends_at = refl;
}

open_more :
    {pre : Chunks} {s n last : ℕ} (c : ChunkPayloadData)
    → c.tsn ≡ add32 last 1
    → IsOpenRow pre s n last
    → IsOpenRow (pre ++ (c ∷ [])) s (n + 1) c.tsn
open_more c e r = record {
  before = r.before;
  first = r.first;
  row = r.row ++ (c ∷ []);
  split = ap (λ l. l ++ (c ∷ [])) r.split ∙ append_assoc r.before (r.first ∷ r.row) (c ∷ []);
  starts = r.starts;
  counts = omega (arith, r.counts, length-append r.row (c ∷ []));
  begins = r.begins;
  counts_up = CountsFrom-snoc r.first r.row c (rw r.ends_at e) r.counts_up;
  ends_at = ap (λ (d : ChunkPayloadData). d.tsn) (last_chunk-snoc r.first r.row c);
}

close :
    {pre : Chunks} {s n last : ℕ} (rest : Chunks) (r : IsOpenRow pre s n last)
    → (last_chunk r.first r.row).ending_fragment ≡ true
    → IsFound (pre ++ rest) s n
close rest r e = record {
  before = r.before;
  message = r.first ∷ r.row;
  after = rest;
  split = ap (λ l. l ++ rest) r.split ∙ append_assoc r.before (r.first ∷ r.row) rest;
  starts = r.starts;
  counts = omega (arith, r.counts);
  whole = (r.begins, e, r.counts_up);
}

ends_more :
    {pre : Chunks} {s n last : ℕ} (c : ChunkPayloadData) (e : c.tsn ≡ add32 last 1)
    (r : IsOpenRow pre s n last)
    → c.ending_fragment ≡ true
    → let r' = open_more c e r in (last_chunk r'.first r'.row).ending_fragment ≡ true
unfolding open_more
ends_more c e r end =
    ap (λ (d : ChunkPayloadData). d.ending_fragment) (last_chunk-snoc r.first r.row c) ∙ end

-- What one round of the loop makes of the open row.
abbrev StepKeeps : Chunks → ChunkPayloadData → Scan → Type 0
StepKeeps pre c (next st n last) = Opened (pre ++ (c ∷ [])) st n last
StepKeeps pre c (found s n) = (rest : Chunks) → IsFound ((pre ++ (c ∷ [])) ++ rest) s n

module _ (pre : Chunks) (n last : ℕ) (c : ChunkPayloadData) where
  keeps_first :
      (st : Option ℕ)
      → c.beginning_fragment ≡ true
      → StepKeeps pre c (scan_step (length pre) st n last c)
  unfolding open_first
  keeps_first st b = elim (Bool-cases c.ending_fragment) [
    | inl e ↦
        rw (step_single (length pre) n last c st b e) (λ rest. close rest (open_first pre c b) e)
    | inr e ↦ rw (step_first (length pre) n last c st b e) (open_first pre c b)
  ]

  keeps_row :
      (s : ℕ)
      → c.beginning_fragment ≡ false
      → c.tsn ≡ add32 last 1
      → IsOpenRow pre s n last
      → StepKeeps pre c (scan_step (length pre) (some s) n last c)
  keeps_row s b t o = elim (Bool-cases c.ending_fragment) [
    | inl e ↦
        rw (step_close (length pre) n last c s b t e)
          (λ rest. close rest (open_more c t o) (ends_more c t o e))
    | inr e ↦ rw (step_more (length pre) n last c s b t e) (open_more c t o)
  ]

  keeps_inner :
      (st : Option ℕ)
      → c.beginning_fragment ≡ false
      → Opened pre st n last
      → StepKeeps pre c (scan_step (length pre) st n last c)
  keeps_inner none b o = rw (step_seek (length pre) n last c b) tt
  keeps_inner (some s) b o = elim (Bool-cases (c.tsn == add32 last 1)) [
    | inl t ↦ keeps_row s b (ground arith) o
    | inr t ↦ rw (step_break (length pre) n last c s b t) tt
  ]

  scan_step-StepKeeps :
      (st : Option ℕ) → Opened pre st n last → StepKeeps pre c (scan_step (length pre) st n last c)
  scan_step-StepKeeps st o = elim (Bool-cases c.beginning_fragment) [
    | inl b ↦ keeps_first st b
    | inr b ↦ keeps_inner st b o
  ]

snoc-append :
    (pre : Chunks) (c : ChunkPayloadData) (cs : Chunks) → (pre ++ (c ∷ [])) ++ cs ≡ pre ++ (c ∷ cs)
snoc-append pre c cs = append_assoc pre (c ∷ []) cs

scan-IsFound :
    (pre cs : Chunks) (st : Option ℕ) (n last s k : ℕ)
    → Opened pre st n last
    → scan (length pre) st n last cs ≡ some (s, k)
    → IsFound (pre ++ cs) s k
unfolding scan_after scan
scan-IsFound pre [] st n last s k o e = cc
scan-IsFound pre (c ∷ cs) st n last s k o e =
    subst (λ l. IsFound l s k) (snoc-append pre c cs)
      (go (λ st' n' last' o' e'. scan-IsFound (pre ++ (c ∷ [])) cs st' n' last' s k o' e')
        (scan_step (length pre) st n last c) (scan_step-StepKeeps pre n last c st o)
        (sym (scan-cons (length pre) st n last c cs) ∙ e))
  where
    len : length pre + 1 ≡ length (pre ++ (c ∷ []))
    len = omega (arith, length-append pre (c ∷ []))

    go :
        ((st' : Option ℕ) (n' last' : ℕ)
          → Opened (pre ++ (c ∷ [])) st' n' last'
          → scan (length (pre ++ (c ∷ []))) st' n' last' cs ≡ some (s, k)
          → IsFound ((pre ++ (c ∷ [])) ++ cs) s k)
        → (w : Scan) → StepKeeps pre c w
        → scan_after (length pre + 1) w cs ≡ some (s, k)
        → IsFound ((pre ++ (c ∷ [])) ++ cs) s k
    go ih (next st' n' last') o' e' = ih st' n' last' o' (rw len at e')
    go ih (found s' k') f e' =
        let same : s' ≡ s = cc in let same' : k' ≡ k = cc in rw (← same, ← same') (f cs)

-- A range that the search over the unordered fragments returns lies in the list and holds a whole
-- message: it begins and ends one, and its TSNs are consecutive.
pub scan_sound :
    (cs : List ChunkPayloadData) (s k : ℕ) → scan 0 none 0 0 cs ≡ some (s, k) → IsFound cs s k
scan_sound cs s k e = scan-IsFound [] cs none 0 0 s k tt e

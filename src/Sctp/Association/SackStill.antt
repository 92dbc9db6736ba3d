-- ===== src/Sctp/Association/SackStill.antt =====
-- How the handling of a SACK in association_internal.rs moves the association's state.
use webrtc_unreliable_client.Prelude.{
  ℕ, zero, suc, ◌+◌, ◌-◌, ◌%◌, ◌^◌, refl, ◌∙◌, Bool, true, false, not, List, [], ◌∷◌, Option, none,
  some, arith, if◌then◌else◌, ◌==◌, ◌&&◌, length, ◌||◌,
}
use webrtc_unreliable_client.Prelude.Words.{add32}
use webrtc_unreliable_client.Prelude.Map.{Map}
use webrtc_unreliable_client.Wire.{err}
use webrtc_unreliable_client.Sctp.Error.{tsn_request_not_exist}
use webrtc_unreliable_client.Sctp.Sna.{sna32lt, sna32lte, sna32gte}
use webrtc_unreliable_client.Sctp.Chunk.PayloadData.{ChunkPayloadData, is_abandoned}
use webrtc_unreliable_client.Sctp.Chunk.GapAck.{GapAckBlock}
use webrtc_unreliable_client.Sctp.Chunk.SelectiveAck.{ChunkSelectiveAck}
use webrtc_unreliable_client.Sctp.Queue.Payload.{PayloadQueue, get, pop, mark_as_acked}
use webrtc_unreliable_client.Sctp.Timer.{stop_rtx}
use webrtc_unreliable_client.Sctp.Association.{Association, Handled, awake_write_loop}
use webrtc_unreliable_client.Sctp.Association.Sack.{
  measure_if, measure_rtt, leave_fast_recovery, ack_chunk, ack_popped, ack_loop, Acked, ack_gap,
  ack_range, ack_blocks, process_selective_ack,
}
use webrtc_unreliable_client.Sctp.Association.Congestion.{
  miss_chunk, miss_loop, enter_fast_recovery, process_fast_retransmission, grow_cwnd,
  on_cumulative_tsn_ack_point_advanced, forward_ack_point,
}
use webrtc_unreliable_client.Sctp.Association.Timeouts.{pass_abandoned, advance_peer_ack_point}
use webrtc_unreliable_client.Sctp.Association.Still.{IsStill, and_then-IsStill, if-IsStill}
use webrtc_unreliable_client.Sctp.Shared

measure_if-IsStill :
    (b : Bool) (a : Association) (now : ℕ) (c : ChunkPayloadData)
    → IsStill a (measure_if b a now c).0
unfolding measure_if measure_rtt
measure_if-IsStill b a now c = ground arith

leave_fast_recovery-IsStill :
    (a : Association) (c : ChunkPayloadData) → IsStill a (leave_fast_recovery a c)
unfolding leave_fast_recovery
leave_fast_recovery-IsStill a c = ground arith

ack_chunk-IsStill :
    (a : Association) (now i : ℕ) (m : Map ℕ) (c : ChunkPayloadData)
    → IsStill a (ack_chunk a now i m c).0
unfolding ack_chunk
ack_chunk-IsStill a now i m c = if-IsStill c.acked a _ _ (leave_fast_recovery-IsStill a c) (
    let b : Association =
      if i == add32 a.cumulative_tsn_ack_point 1
      then record a { t3rtx = stop_rtx a.t3rtx }
      else a in
    let same : IsStill a b = ground arith in
    and_then-IsStill a (measure_if (c.nsent == 1 && sna32gte c.tsn b.min_tsn2measure_rtt) b now c) _
      (measure_if-IsStill (c.nsent == 1 && sna32gte c.tsn b.min_tsn2measure_rtt) b now c ∙ same)
      (λ d x. leave_fast_recovery-IsStill d c))

ack_popped-IsStill :
    (a : Association) (now i : ℕ) (m : Map ℕ) (r : PayloadQueue × Option ChunkPayloadData)
    → IsStill a (ack_popped a now i m r).0
unfolding ack_popped
ack_popped-IsStill a now i m (q, none) = refl
ack_popped-IsStill a now i m (q, some c) =
    ack_chunk-IsStill (record a { inflight_queue = q }) now i m c

ack_loop-IsStill :
    (n : ℕ) (a : Association) (now i : ℕ) (m : Map ℕ) (t : ℕ) → IsStill a (ack_loop n a now i m t).0
unfolding ack_loop
ack_loop-IsStill zero a now i m t = refl
ack_loop-IsStill (suc n) a now i m t =
    if-IsStill (sna32lte i t) a _ _
      (and_then-IsStill a (ack_popped a now i m (pop a.inflight_queue i)) _
        (ack_popped-IsStill a now i m (pop a.inflight_queue i))
        (λ b m'. ack_loop-IsStill n b now (add32 i 1) m' t))
      refl

ack_gap-IsStill :
    (a : Association) (now tsn : ℕ) (s : Acked) (o : Option ChunkPayloadData)
    → IsStill a (ack_gap a now tsn s o).0
unfolding ack_gap
ack_gap-IsStill a now tsn s none = refl
ack_gap-IsStill a now tsn s (some c) =
    let b : Association = record a { inflight_queue = (mark_as_acked a.inflight_queue tsn).0 } in
    if-IsStill c.acked a _ _ refl (
      and_then-IsStill a (measure_if (c.nsent == 1) b now c) _
        (measure_if-IsStill (c.nsent == 1) b now c) (λ d x. refl))

ack_range-IsStill :
    (n : ℕ) (a : Association) (now cum i : ℕ) (s : Acked) → IsStill a (ack_range n a now cum i s).0
unfolding ack_range
ack_range-IsStill zero a now cum i s = refl
ack_range-IsStill (suc n) a now cum i s =
    let t : ℕ = add32 cum i in
    and_then-IsStill a (ack_gap a now t s (get a.inflight_queue t)) _
      (ack_gap-IsStill a now t s (get a.inflight_queue t))
      (λ b s'. ack_range-IsStill n b now cum (i + 1) s')

ack_blocks-IsStill :
    (gs : List GapAckBlock) (a : Association) (now cum : ℕ) (s : Acked)
    → IsStill a (ack_blocks gs a now cum s).0
unfolding ack_blocks
ack_blocks-IsStill [] a now cum s = refl
ack_blocks-IsStill (g ∷ gs) a now cum s =
    and_then-IsStill a (ack_range (g.end + 1 - g.start) a now cum g.start s) _
      (ack_range-IsStill (g.end + 1 - g.start) a now cum g.start s)
      (λ b s'. ack_blocks-IsStill gs b now cum s')

pub process_selective_ack-IsStill :
    (a : Association) (now : ℕ) (d : ChunkSelectiveAck)
    → IsStill a (process_selective_ack a now d).0
unfolding process_selective_ack
process_selective_ack-IsStill a now d =
    let n : ℕ = (d.cumulative_tsn_ack + 2 ^ 32 - a.cumulative_tsn_ack_point) % 2 ^ 32 in
    let i : ℕ = add32 a.cumulative_tsn_ack_point 1 in
    and_then-IsStill a (ack_loop n a now i [] d.cumulative_tsn_ack) _
      (ack_loop-IsStill n a now i [] d.cumulative_tsn_ack)
      (λ b m. ack_blocks-IsStill d.gap_ack_blocks b now d.cumulative_tsn_ack _)

miss_chunk-IsStill :
    (a : Association) (htna tsn : ℕ) (c : ChunkPayloadData) → IsStill a (miss_chunk a htna tsn c)
unfolding miss_chunk enter_fast_recovery
miss_chunk-IsStill a htna tsn c = ground arith

miss_loop-IsStill :
    (n : ℕ) (a : Association) (htna tsn max_tsn : ℕ) → IsStill a (miss_loop n a htna tsn max_tsn).0
unfolding miss_loop
miss_loop-IsStill zero a htna tsn max_tsn = refl
miss_loop-IsStill (suc n) a htna tsn max_tsn = if-IsStill (not (sna32lt tsn max_tsn)) a _ _ refl (
    found (get a.inflight_queue tsn) (λ c.
      miss_loop-IsStill n (miss_chunk a htna tsn c) htna (add32 tsn 1) max_tsn
      ∙ miss_chunk-IsStill a htna tsn c))
  where
    reached : Option ChunkPayloadData → Handled (Unit {0})
    reached none = (a, err tsn_request_not_exist)
    reached (some c) = miss_loop n (miss_chunk a htna tsn c) htna (add32 tsn 1) max_tsn

    found :
        (o : Option ChunkPayloadData)
        → ((c : ChunkPayloadData) → IsStill a (reached (some c)).0)
        → IsStill a (reached o).0
    found none h = refl
    found (some c) h = h c

advance_if-IsStill :
    (b : Bool) (a : Association)
    → IsStill a (if b then record a { will_retransmit_fast = true } else a)
advance_if-IsStill true a = refl
advance_if-IsStill false a = refl

pub process_fast_retransmission-IsStill :
    (a : Association) (cum htna : ℕ) (advanced : Bool)
    → IsStill a (process_fast_retransmission a cum htna advanced).0
unfolding process_fast_retransmission
process_fast_retransmission-IsStill a cum htna advanced =
    and_then-IsStill a _ _
      (if-IsStill (not a.in_fast_recovery || advanced) a _ _ (miss_loop-IsStill _ a htna _ _) refl)
      (λ b x. advance_if-IsStill (b.in_fast_recovery && advanced) b)

pass_abandoned-IsStill : (n : ℕ) (a : Association) (i : ℕ) → IsStill a (pass_abandoned a n i)
unfolding pass_abandoned
pass_abandoned-IsStill zero a i = refl
pass_abandoned-IsStill (suc n) a i =
    passed (get a.inflight_queue i)
      (pass_abandoned-IsStill n (record a { advanced_peer_tsn_ack_point = i }) (add32 i 1))
  where
    rest : Association
    rest = pass_abandoned (record a { advanced_peer_tsn_ack_point = i }) n (add32 i 1)

    passed :
        (o : Option ChunkPayloadData)
        → IsStill a rest
        → IsStill a
            (elim o [ none ↦ a | some c ↦ if is_abandoned a.shared.flags c then rest else a ])
    passed none h = refl
    passed (some c) h = ground (arith, h)

pub advance_peer_ack_point-IsStill : (a : Association) → IsStill a (advance_peer_ack_point a)
unfolding advance_peer_ack_point
advance_peer_ack_point-IsStill a =
    let h =
      pass_abandoned-IsStill (length a.inflight_queue.chunk_map) a
        (add32 a.advanced_peer_tsn_ack_point 1) in
    ground (arith, h)

pub forward_ack_point-IsStill : (a : Association) → IsStill a (forward_ack_point a)
unfolding forward_ack_point awake_write_loop Shared.awake_write_loop
forward_ack_point-IsStill a =
    let c = record a { advanced_peer_tsn_ack_point = a.cumulative_tsn_ack_point } in
    let h = advance_peer_ack_point-IsStill a in
    let k = advance_peer_ack_point-IsStill c in ground (arith, h, k)

pub on_cumulative_tsn_ack_point_advanced-IsStill :
    (a : Association) (n : ℕ) → IsStill a (on_cumulative_tsn_ack_point_advanced a n)
unfolding on_cumulative_tsn_ack_point_advanced grow_cwnd
on_cumulative_tsn_ack_point_advanced-IsStill a n = ground arith

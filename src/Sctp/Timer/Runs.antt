-- ===== src/Sctp/Timer/Runs.antt =====
-- The runs of the timers of rtx_timer.rs and ack_timer.rs, from a start to the last expiry.
use webrtc_unreliable_client.Prelude.{
  ℕ, zero, suc, ◌+◌, ◌<◌, ◌≤◌, ◌≡◌, refl, ap, sym, ◌∙◌, true, false, some, Option, arith, ◌||◌,
  ◌==◌, leb, ◌⊎◌, inl, inr,
}
use webrtc_unreliable_client.Sctp.Timer.{
  RtxTimer, new_rtx, start_rtx, expire_rtx, on_retransmission_timeout, on_retransmission_failure,
  Expiry, AckTimer, start_ack, stop_ack, expire_ack,
}

-- The timer after a number of expiries.
abbrev pub expire_times : ℕ → RtxTimer → RtxTimer
expire_times zero t = t
expire_times (suc n) t = (expire_rtx (expire_times n t)).0

abbrev pub counting : ℕ → ℕ → RtxTimer
counting max_retrans n = record { max_retrans = max_retrans; close_tx = true; task = some n }

abbrev pub MayRetransmit : ℕ → ℕ → Type 0
MayRetransmit max_retrans n = (max_retrans ≡ 0) ⊎ (n ≤ max_retrans)

may : (m n : ℕ) → MayRetransmit m n → (m == 0 || leb n m) ≡ true
may m n (inl h) = ground arith
may m n (inr h) = ground arith

expire_counting :
    (m n : ℕ)
    → MayRetransmit m (n + 1)
    → expire_rtx (counting m n) ≡ (counting m (n + 1), some (on_retransmission_timeout (n + 1)))
unfolding expire_rtx
expire_counting m n h = rw (may m (n + 1) h) refl

one_more : (n : ℕ) → suc n ≡ n + 1
one_more n = omega arith

smaller : (m n : ℕ) → MayRetransmit m (suc n) → MayRetransmit m n
smaller m n (inl h) = inl h
smaller m n (inr h) = inr (omega arith)

expire_times-counting : (m n : ℕ) → MayRetransmit m n → expire_times n (counting m 0) ≡ counting m n
expire_times-counting m zero h = refl
expire_times-counting m (suc n) h =
    ap (λ t. (expire_rtx t).0) (expire_times-counting m n (smaller m n h))
    ∙ ap (λ (p : RtxTimer × Option Expiry). p.0) (expire_counting m n (rw (← one_more n) h))
    ∙ ap (counting m) (sym (one_more n))

fails : (m : ℕ) → 0 < m → (m == 0 || leb (m + 1) m) ≡ false
fails m h = ground arith

expire_last :
    (m : ℕ) → 0 < m → expire_rtx (counting m m) ≡ (new_rtx m, some on_retransmission_failure)
unfolding expire_rtx new_rtx
expire_last m h = rw (fails m h) refl

tells :
    (m n : ℕ)
    → MayRetransmit m (n + 1)
    → (expire_rtx (expire_times n (counting m 0))).1 ≡ some (on_retransmission_timeout (n + 1))
tells m n h =
    rw (expire_times-counting m n (smaller m n (rw (← one_more n) at h)), expire_counting m n h)
      refl

-- A started retransmission timer with a maximum tells its observer of that many timeouts, each with
-- its count, reports the failure at the next expiry, and can then be started again. With the maximum
-- 0 it never fails.
pub rtx_run :
    (m n : ℕ)
    → n < m
    → let t = (start_rtx (new_rtx m)).0 in
      let forever = (start_rtx (new_rtx 0)).0 in
      ((expire_rtx (expire_times n t)).1 ≡ some (on_retransmission_timeout (n + 1)))
      × (expire_rtx (expire_times m t) ≡ (new_rtx m, some on_retransmission_failure))
      × ((expire_rtx (expire_times n forever)).1 ≡ some (on_retransmission_timeout (n + 1)))
unfolding start_rtx new_rtx
rtx_run m n h = (
  tells m n (inr (omega arith)),
  rw (expire_times-counting m m (inr (omega arith))) (expire_last m (omega arith)),
  tells 0 n (inl refl),
)

-- Once a sleeping acknowledgement timer has expired, no start wakes it and no expiry follows, until
-- it is stopped. A start after the stop does start it, although the comment on `stop` says that the
-- timer is no longer usable then.
pub ack_start_after_expiry :
    (t : AckTimer)
    → t.close_tx ≡ true
    → t.sleeping ≡ true
    → let (t', called) = expire_ack t in
      (called ≡ true)
      × (start_ack t' ≡ (t', false))
      × (expire_ack t' ≡ (t', false))
      × (start_ack (stop_ack t') ≡ (record { close_tx = true; sleeping = true }, true))
unfolding expire_ack start_ack stop_ack
ack_start_after_expiry t c w = ground (arith, c, w)

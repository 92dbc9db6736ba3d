-- ===== src/Examples/Timer.antt =====
-- rtx_timer.rs and ack_timer.rs at concrete inputs.
use webrtc_unreliable_client.Prelude.{
  ℕ, ◌+◌, ◌*◌, ◌/◌, ◌≤◌, ◌≡◌, refl, true, false, [], ◌∷◌, some, arith,
}
use webrtc_unreliable_client.Sctp.Timer.{
  Float, new, rto_min, rto_max, calculate_next_timeout, new_rtx, start_rtx, expire_rtx,
  on_retransmission_timeout, on_retransmission_failure, AckTimer, start_ack, stop_ack, expire_ack,
}
use webrtc_unreliable_client.Sctp.Timer.Bounds.{measure_all, timeout-IsBounded}
use webrtc_unreliable_client.Sctp.Timer.Runs.{expire_times, rtx_run, ack_start_after_expiry}

-- A machine that rounds everything down to whole numbers.
abbrev whole : Float
whole = record {
  F = ℕ;
  from_u64 = λ n. n;
  add = λ x y. x + y;
  mul = λ x y. x * y;
  div = λ x y. x / y;
  as_u64 = λ x. x;
}

abbrev measured : ℕ
measured = (measure_all whole (new whole) (120 ∷ 4000 ∷ 90000 ∷ [])).rto

timeout-IsBounded_example :
    (rto_min ≤ measured)
    × (measured ≤ rto_max)
    × (measured ≤ calculate_next_timeout measured 3)
    × (calculate_next_timeout measured 3 ≤ rto_max)
timeout-IsBounded_example = timeout-IsBounded whole (120 ∷ 4000 ∷ 90000 ∷ []) 3

rtx_run_example :
    let t = (start_rtx (new_rtx 8)).0 in
    let forever = (start_rtx (new_rtx 0)).0 in
    ((expire_rtx (expire_times 5 t)).1 ≡ some (on_retransmission_timeout 6))
    × (expire_rtx (expire_times 8 t) ≡ (new_rtx 8, some on_retransmission_failure))
    × ((expire_rtx (expire_times 5 forever)).1 ≡ some (on_retransmission_timeout 6))
rtx_run_example = rtx_run 8 5 (omega arith)

abbrev asleep : AckTimer
asleep = record { close_tx = true; sleeping = true }

ack_start_after_expiry_example :
    let (t', called) = expire_ack asleep in
    (called ≡ true)
    × (start_ack t' ≡ (t', false))
    × (expire_ack t' ≡ (t', false))
    × (start_ack (stop_ack t') ≡ (asleep, true))
ack_start_after_expiry_example = ack_start_after_expiry asleep refl refl

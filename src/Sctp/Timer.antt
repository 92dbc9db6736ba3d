-- ===== src/Sctp/Timer.antt =====
-- client/src/webrtc/crates/sctp/timer: rtx_timer.rs and ack_timer.rs. A timer's task is a value: the
-- task that sleeps is `some` of its count, and `expire` is what it does when its sleep is over.
pub mod Bounds
pub mod Runs
use webrtc_unreliable_client.Prelude.{
  ℕ, ◌+◌, ◌-◌, ◌*◌, ◌/◌, ◌%◌, ◌^◌, Bool, true, false, ◌||◌, Option, none, some, if◌then◌else◌, ◌==◌,
  leb, ltb, min, max,
}

-- Milliseconds: `RTO_INITIAL`, `RTO_MIN` and `RTO_MAX`.
abbrev pub rto_initial : ℕ
rto_initial = 3000

abbrev pub rto_min : ℕ
rto_min = 1000

abbrev pub rto_max : ℕ
rto_max = 60000

-- `RTO_ALPHA`, `RTO_BETA`, `RTO_BASE` and `MAX_INIT_RETRANS`
abbrev pub rto_alpha : ℕ
rto_alpha = 1

abbrev pub rto_beta : ℕ
rto_beta = 2

abbrev pub rto_base : ℕ
rto_base = 8

abbrev pub max_init_retrans : ℕ
max_init_retrans = 8

-- `f64`: the conversions and the operations that the code uses. `as_u64` saturates.
pub record Float : Type 1 where
  pub F : Type 0
  pub from_u64 : ℕ → F
  pub add : F → F → F
  pub mul : F → F → F
  pub div : F → F → F
  pub as_u64 : F → ℕ

unfoldable pub calculate_next_timeout : ℕ → ℕ → ℕ
calculate_next_timeout rto n_rtos =
    if ltb n_rtos 31 then min ((rto * 2 ^ n_rtos) % 2 ^ 64) rto_max else rto_max

-- `(a as i64 - b as i64).abs()`, of round trip times in milliseconds, which are below 2 ^ 63
unfoldable pub abs_diff : ℕ → ℕ → ℕ
abs_diff a b = if leb b a then a - b else b - a

module _ (f : Float) where
  open f use {F, from_u64, add, mul, div, as_u64}

  pub record RtoManager : Type 0 where
    pub srtt : ℕ
    pub rttvar : F
    pub rto : ℕ
    pub no_update : Bool

  unfoldable pub new : RtoManager
  new = record { srtt = 0; rttvar = from_u64 0; rto = rto_initial; no_update = false }

  unfoldable pub smooth : RtoManager → ℕ → RtoManager
  unfolding abs_diff
  smooth m rtt =
      if m.srtt == 0
      then record m { srtt = rtt; rttvar = div (from_u64 rtt) (from_u64 2) }
      else record m {
        rttvar =
            div
              (add (mul (from_u64 (rto_base - rto_beta)) m.rttvar)
                (mul (from_u64 rto_beta) (from_u64 (abs_diff m.srtt rtt))))
              (from_u64 rto_base);
        srtt = ((rto_base - rto_alpha) * m.srtt + rto_alpha * rtt) % 2 ^ 64 / rto_base;
      }

  unfoldable pub set_rto : RtoManager → RtoManager
  set_rto m = record m {
    rto = min (max ((m.srtt + as_u64 (mul (from_u64 4) m.rttvar)) % 2 ^ 64) rto_min) rto_max;
  }

  unfoldable pub set_new_rtt : RtoManager → ℕ → RtoManager
  unfolding smooth set_rto
  set_new_rtt m rtt = if m.no_update then m else set_rto (smooth m rtt)

-- `task` is the sleeping task with its count of expiries.
pub record RtxTimer : Type 0 where
  pub max_retrans : ℕ
  pub close_tx : Bool
  pub task : Option ℕ

-- What the observer is told: a timeout with its count, or the failure.
pub data Expiry : Type 0 where
  on_retransmission_timeout : ℕ → Expiry
  on_retransmission_failure : Expiry

unfoldable pub new_rtx : ℕ → RtxTimer
new_rtx max_retrans = record { max_retrans = max_retrans; close_tx = false; task = none }

unfoldable pub start_rtx : RtxTimer → RtxTimer × Bool
start_rtx t = if t.close_tx then (t, false) else (record t { close_tx = true; task = some 0 }, true)

-- The task also ends, since its channel is closed.
unfoldable pub stop_rtx : RtxTimer → RtxTimer
stop_rtx t = record t { close_tx = false; task = none }

unfoldable pub expire_rtx : RtxTimer → RtxTimer × Option Expiry
expire_rtx t = elim t.task [
  | none ↦ (t, none)
  | some n ↦
      if t.max_retrans == 0 || leb (n + 1) t.max_retrans
      then (record t { task = some (n + 1) }, some (on_retransmission_timeout (n + 1)))
      else (record t { close_tx = false; task = none }, some on_retransmission_failure)
]

pub record AckTimer : Type 0 where
  pub close_tx : Bool
  pub sleeping : Bool

abbrev pub new_ack : AckTimer
new_ack = record { close_tx = false; sleeping = false }

unfoldable pub start_ack : AckTimer → AckTimer × Bool
start_ack t = if t.close_tx then (t, false) else (record { close_tx = true; sleeping = true }, true)

unfoldable pub stop_ack : AckTimer → AckTimer
stop_ack t = if t.close_tx then record { close_tx = false; sleeping = false } else t

-- Whether the observer's `on_ack_timeout` is called.
unfoldable pub expire_ack : AckTimer → AckTimer × Bool
expire_ack t = if t.sleeping then (record t { sleeping = false }, true) else (t, false)

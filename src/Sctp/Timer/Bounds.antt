-- ===== src/Sctp/Timer/Bounds.antt =====
-- The bounds of the timeouts of rtx_timer.rs.
use native.Mathlib.Nat.{pow-le-pow_right, one-le-pow, mul-le-mul}
use webrtc_unreliable_client.Prelude.{
  ℕ, ◌*◌, ◌^◌, ◌<◌, ◌≤◌, ◌≡◌, List, [], ◌∷◌, arith, ltb, min, if◌then◌else◌, Bool-cases, inl, inr,
  Bool, true, false,
}
use webrtc_unreliable_client.Sctp.Timer.{
  rto_min, rto_max, calculate_next_timeout, Float, RtoManager, new, set_new_rtt, set_rto, smooth,
}

small : (rto p : ℕ) → rto ≤ rto_max → p ≤ 2 ^ 30 → rto * p < 2 ^ 64
small rto p h k = let l : rto * p ≤ rto_max * 2 ^ 30 = mul-le-mul h k in omega arith

large : (rto p : ℕ) → 0 < rto → 2 ^ 31 ≤ p → rto_max ≤ rto * p
large rto p h k = let l : 1 * 2 ^ 31 ≤ rto * p = mul-le-mul {n₁ = 1} (omega arith) k in omega arith

ltb→le_30 : (n : ℕ) → ltb n 31 ≡ true → n ≤ 30
ltb→le_30 n h = ground arith

ltb→ge_31 : (n : ℕ) → ltb n 31 ≡ false → 31 ≤ n
ltb→ge_31 n h = ground arith

-- The back-off doubles the timeout at every expiry until it reaches the greatest timeout, and no
-- shift overflows, if the timeout is positive and at most the greatest.
pub calculate_next_timeout_lem :
    (rto n_rtos : ℕ)
    → 0 < rto
    → rto ≤ rto_max
    → calculate_next_timeout rto n_rtos ≡ min (rto * 2 ^ n_rtos) rto_max
unfolding calculate_next_timeout
calculate_next_timeout_lem rto n_rtos p q = elim (Bool-cases (ltb n_rtos 31)) [
  | inl e ↦
      let l : rto * 2 ^ n_rtos < 2 ^ 64 =
        small rto (2 ^ n_rtos) q (pow-le-pow_right {n = 2} (omega arith) (ltb→le_30 n_rtos e)) in
      rw e (omega arith)
  | inr e ↦
      let l : rto_max ≤ rto * 2 ^ n_rtos =
        large rto (2 ^ n_rtos) p (pow-le-pow_right {n = 2} (omega arith) (ltb→ge_31 n_rtos e)) in
      rw e (omega arith)
]

-- All timeouts lie between the least and the greatest.
abbrev pub IsBounded : (f : Float) → RtoManager f → Type 0
IsBounded f m = (rto_min ≤ m.rto) × (m.rto ≤ rto_max)

abbrev pub measure_all : (f : Float) → RtoManager f → List ℕ → RtoManager f
measure_all f m [] = m
measure_all f m (rtt ∷ rtts) = measure_all f (set_new_rtt f m rtt) rtts

set_rto-IsBounded : (f : Float) (m : RtoManager f) → IsBounded f (set_rto f m)
unfolding set_rto
set_rto-IsBounded f m = (omega arith, omega arith)

if-IsBounded :
    (f : Float) (b : Bool) (m n : RtoManager f)
    → IsBounded f m
    → IsBounded f n
    → IsBounded f (if b then m else n)
if-IsBounded f true m n h k = h
if-IsBounded f false m n h k = k

set_new_rtt-IsBounded :
    (f : Float) (m : RtoManager f) (rtt : ℕ) → IsBounded f m → IsBounded f (set_new_rtt f m rtt)
unfolding set_new_rtt
set_new_rtt-IsBounded f m rtt b =
    if-IsBounded f m.no_update m (set_rto f (smooth f m rtt)) b
      (set_rto-IsBounded f (smooth f m rtt))

measure_all-IsBounded :
    (f : Float) (rtts : List ℕ) (m : RtoManager f)
    → IsBounded f m
    → IsBounded f (measure_all f m rtts)
measure_all-IsBounded f [] m b = b
measure_all-IsBounded f (rtt ∷ rtts) m b =
    measure_all-IsBounded f rtts (set_new_rtt f m rtt) (set_new_rtt-IsBounded f m rtt b)

-- Whatever round trip times are measured, and however the machine rounds, the retransmission timeout
-- of a new manager stays between the least and the greatest timeout, and so does every timeout that
-- the back-off makes of it.
pub timeout-IsBounded :
    (f : Float) (rtts : List ℕ) (n_rtos : ℕ)
    → let rto = (measure_all f (new f) rtts).rto in
      (rto_min ≤ rto)
      × (rto ≤ rto_max)
      × (rto ≤ calculate_next_timeout rto n_rtos)
      × (calculate_next_timeout rto n_rtos ≤ rto_max)
unfolding new
timeout-IsBounded f rtts n_rtos =
    let rto : ℕ = (measure_all f (new f) rtts).rto in
    let (lo, hi) = measure_all-IsBounded f rtts (new f) (omega arith, omega arith) in
    let e : calculate_next_timeout rto n_rtos ≡ min (rto * 2 ^ n_rtos) rto_max =
      calculate_next_timeout_lem rto n_rtos (omega arith) hi in
    let g : rto * 1 ≤ rto * 2 ^ n_rtos =
      mul-le-mul (omega arith) (one-le-pow n_rtos 2 (omega arith)) in
    (lo, hi, omega arith, omega arith)

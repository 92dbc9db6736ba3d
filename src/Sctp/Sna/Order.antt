-- ===== src/Sctp/Sna/Order.antt =====
-- The serial number comparisons of util.rs against distances on the circle of residues.
use webrtc_unreliable_client.Prelude.{ℕ, ◌+◌, ◌-◌, ◌%◌, ◌^◌, ◌<◌, ◌≡◌, ◌↔◌, true, not, ltb, arith}
use webrtc_unreliable_client.Prelude.Words.{IsU32, IsU16, add32}
use webrtc_unreliable_client.Sctp.Sna.{sna32lt, sna32lte, sna32gt, sna16lt, sna16lte, sna16gt}

-- The way from `a` up to `b` on the circle of `u32` values, and on that of `u16` values.
abbrev pub distance32 : ℕ → ℕ → ℕ
distance32 a b = (b + 2 ^ 32 - a) % 2 ^ 32

abbrev pub distance16 : ℕ → ℕ → ℕ
distance16 a b = (b + 2 ^ 16 - a) % 2 ^ 16

-- Of two `u32` values, the first is less in serial order exactly if the way from it up to the
-- second is positive and shorter than half the circle.
pub sna32lt_lem :
    (a b : ℕ)
    → IsU32 a
    → IsU32 b
    → (sna32lt a b ≡ true) ↔ ((0 < distance32 a b) × (distance32 a b < 2 ^ 31))
unfolding sna32lt
sna32lt_lem a b ha hb = ground arith

-- Of two `u16` values, the first is less in serial order exactly if the way from it up to the
-- second is positive and shorter than half the circle.
pub sna16lt_lem :
    (a b : ℕ)
    → IsU16 a
    → IsU16 b
    → (sna16lt a b ≡ true) ↔ ((0 < distance16 a b) × (distance16 a b < 2 ^ 15))
unfolding sna16lt
sna16lt_lem a b ha hb = ground arith

pub sna32gt-not_lte : (a b : ℕ) → sna32gt a b ≡ not (sna32lte a b)
unfolding sna32gt sna32lte
sna32gt-not_lte a b = ground arith

pub sna16gt-not_lte : (a b : ℕ) → sna16gt a b ≡ not (sna16lte a b)
unfolding sna16gt sna16lte
sna16gt-not_lte a b = ground arith

-- Within half the circle above any `u32` value, across the wrap as well, serial order is the order
-- of the offsets.
pub sna32lt_window :
    (base d e : ℕ)
    → IsU32 base
    → d < 2 ^ 31
    → e < 2 ^ 31
    → sna32lt (add32 base d) (add32 base e) ≡ ltb d e
unfolding sna32lt
sna32lt_window base d e hb hd he = ground arith

-- ===== src/Sctp/Sna.antt =====
-- client/src/webrtc/crates/sctp/util.rs: serial number arithmetic on `u32` and `u16`, and padding.
pub mod Order
use webrtc_unreliable_client.Prelude.{ℕ, ◌-◌, ◌%◌, ◌^◌, Bool, ◌&&◌, ◌||◌, ltb, leb, ◌==◌}

-- `PADDING_MULTIPLE`
abbrev pub padding_multiple : ℕ
padding_multiple = 4

unfoldable pub get_padding_size : ℕ → ℕ
get_padding_size len = (padding_multiple - len % padding_multiple) % padding_multiple

unfoldable pub sna32lt : ℕ → ℕ → Bool
sna32lt i1 i2 = (ltb i1 i2 && ltb (i2 - i1) (2 ^ 31)) || (ltb i2 i1 && ltb (2 ^ 31) (i1 - i2))

unfoldable pub sna32lte : ℕ → ℕ → Bool
unfolding sna32lt
sna32lte i1 i2 = i1 == i2 || sna32lt i1 i2

unfoldable pub sna32gt : ℕ → ℕ → Bool
sna32gt i1 i2 = (ltb i1 i2 && leb (2 ^ 31) (i2 - i1)) || (ltb i2 i1 && leb (i1 - i2) (2 ^ 31))

unfoldable pub sna32gte : ℕ → ℕ → Bool
unfolding sna32gt
sna32gte i1 i2 = i1 == i2 || sna32gt i1 i2

unfoldable pub sna16lt : ℕ → ℕ → Bool
sna16lt i1 i2 = (ltb i1 i2 && ltb (i2 - i1) (2 ^ 15)) || (ltb i2 i1 && ltb (2 ^ 15) (i1 - i2))

unfoldable pub sna16lte : ℕ → ℕ → Bool
unfolding sna16lt
sna16lte i1 i2 = i1 == i2 || sna16lt i1 i2

unfoldable pub sna16gt : ℕ → ℕ → Bool
sna16gt i1 i2 = (ltb i1 i2 && leb (2 ^ 15) (i2 - i1)) || (ltb i2 i1 && leb (i1 - i2) (2 ^ 15))

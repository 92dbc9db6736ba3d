-- ===== src/Sctp/Chunk/SelectiveAck/Short.antt =====
-- What becomes of a SACK chunk that claims more gap ack blocks than its value holds.
use webrtc_unreliable_client.Prelude.{
  ℕ, zero, suc, ◌+◌, ◌*◌, ◌<◌, ◌≤◌, ◌≡◌, List, [], ◌∷◌, ◌++◌, length, some, arith,
}
use webrtc_unreliable_client.Prelude.Words.{IsU16, IsU32}
use webrtc_unreliable_client.Wire.{Buf, ok, panic}
use webrtc_unreliable_client.Wire.Laws.{get_u16-put_u16, get_u32-put_u32}
use webrtc_unreliable_client.Sctp.Chunk.Header
use webrtc_unreliable_client.Sctp.Chunk.Header.{ChunkHeader}
use webrtc_unreliable_client.Sctp.Chunk.SelectiveAck.{get_blocks, unmarshal_value, unmarshal}

module _ (w : Buf) where
  open w use {put_u16, put_u32, get_u16, get_u32, slice}

  get_blocks_short : (n : ℕ) (r : List ℕ) → length r < 4 * n → get_blocks w n r ≡ panic
  unfolding get_blocks
  get_blocks_short zero r h = absurd (omega arith)
  get_blocks_short (suc n) [] h = ground (arith, w.get_u16_short [])
  get_blocks_short (suc n) (a ∷ []) h = ground (arith, w.get_u16_short (a ∷ []))
  get_blocks_short (suc n) (a ∷ b ∷ []) h = ground (arith, w.get_u16_lem a b [], w.get_u16_short [])
  get_blocks_short (suc n) (a ∷ b ∷ c ∷ []) h =
      ground (arith, w.get_u16_lem a b (c ∷ []), w.get_u16_short (c ∷ []))
  get_blocks_short (suc n) (a ∷ b ∷ c ∷ d ∷ r) h = ground (
    arith,
    w.get_u16_lem a b (c ∷ d ∷ r),
    w.get_u16_lem c d r,
    get_blocks_short n r (omega arith),
  )

  value_panics :
      (raw_len : ℕ) (reader r1 r2 r3 r4 : List ℕ) (c a n d : ℕ)
      → get_u32 reader ≡ some (c, r1)
      → get_u32 r1 ≡ some (a, r2)
      → get_u16 r2 ≡ some (n, r3)
      → get_u16 r3 ≡ some (d, r4)
      → 16 + (4 * n + 4 * d) ≤ raw_len
      → get_blocks w n r4 ≡ panic
      → unmarshal_value w raw_len reader ≡ panic
  unfolding unmarshal_value
  value_panics raw_len reader r1 r2 r3 r4 c a n d e1 e2 e3 e4 l e5 =
      ground (arith, e1, e2, e3, e4, e5)

  -- If a SACK chunk claims `n` gap ack blocks and its value holds fewer, and the packet goes on for as
  -- many bytes behind it as the chunk claims, reading the chunk panics.
  pub sack_panics :
      (raw r : List ℕ) (h : ChunkHeader) (c a n d : ℕ)
      → Header.unmarshal w raw ≡ ok h
      → h.typ ≡ 3
      → slice raw 4 (4 + h.value_length)
        ≡ some (put_u32 c ++ (put_u32 a ++ (put_u16 n ++ (put_u16 d ++ r))))
      → IsU32 c
      → IsU32 a
      → IsU16 n
      → IsU16 d
      → length r < 4 * n
      → 16 + (4 * n + 4 * d) ≤ length raw
      → unmarshal w raw ≡ panic
  unfolding unmarshal
  sack_panics raw r h c a n d eh et es fc fa fn fd short long =
      let value : List ℕ = put_u32 c ++ (put_u32 a ++ (put_u16 n ++ (put_u16 d ++ r))) in
      let p : unmarshal_value w (length raw) value ≡ panic =
        value_panics (length raw) value (put_u32 a ++ (put_u16 n ++ (put_u16 d ++ r)))
          (put_u16 n ++ (put_u16 d ++ r)) (put_u16 d ++ r) r c a n d (get_u32-put_u32 w c _ fc)
          (get_u32-put_u32 w a _ fa) (get_u16-put_u16 w n _ fn) (get_u16-put_u16 w d r fd) long
          (get_blocks_short n r short) in
      ground (arith, eh, et, es, p)

-- ===== src/Sctp/Chunk/SelectiveAck/RoundTrip.antt =====
-- A SACK chunk is read back from what was written.
use webrtc_unreliable_client.Prelude.{
  ℕ, ◌+◌, ◌*◌, ◌%◌, ◌^◌, ◌<◌, ◌≤◌, ◌≡◌, refl, ap, sym, ◌∙◌, List, [], ◌∷◌, ◌++◌, length,
  length-append, All, some, arith,
}
use mathlib.Core.List.{append_assoc, append-nil}
use webrtc_unreliable_client.Prelude.Words.{IsU16, IsU32}
use webrtc_unreliable_client.Wire.{Buf, ok}
use webrtc_unreliable_client.Wire.Laws.{
  get_u16-put_u16, get_u32-put_u32, length-put_u16, length-put_u32,
}
use webrtc_unreliable_client.Sctp.Chunk.Framed.{
  framed, IsFramed, framed-unmarshal, framed-slice, length-framed,
}
use webrtc_unreliable_client.Sctp.Chunk.GapAck.{GapAckBlock}
use webrtc_unreliable_client.Sctp.Chunk.Header
use webrtc_unreliable_client.Sctp.Chunk.Header.{ChunkHeader}
use webrtc_unreliable_client.Sctp.Chunk.Header.RoundTrip.{IsTrailer}
use webrtc_unreliable_client.Sctp.Chunk.SelectiveAck.{
  ChunkSelectiveAck, value_length, header, get_blocks, get_tsns, unmarshal_value, unmarshal,
  put_blocks, put_tsns, marshal_value, marshal,
}

-- The chunk's fields fit their places on the wire.
pub record IsWireSack (c : ChunkSelectiveAck) : Type 0 where
  pub cumulative : IsU32 c.cumulative_tsn_ack
  pub credit : IsU32 c.advertised_receiver_window_credit
  pub blocks : All (λ (g : GapAckBlock). IsU16 g.start × IsU16 g.end) c.gap_ack_blocks
  pub tsns : All (λ t. IsU32 t) c.duplicate_tsn
  pub fits : length c.gap_ack_blocks * 4 + length c.duplicate_tsn * 4 + 16 < 2 ^ 16

module _ (w : Buf) where
  open w use {put_u16, put_u32, get_u16, get_u32, slice}

  length-put_blocks : (gs : List GapAckBlock) → length (put_blocks w gs) ≡ length gs * 4
  unfolding put_blocks
  length-put_blocks [] = refl
  length-put_blocks (g ∷ gs) = omega (
    arith,
    length-append (put_u16 g.start) (put_u16 g.end ++ put_blocks w gs),
    length-append (put_u16 g.end) (put_blocks w gs),
    length-put_u16 w g.start,
    length-put_u16 w g.end,
    length-put_blocks gs,
  )

  length-put_tsns : (ts : List ℕ) → length (put_tsns w ts) ≡ length ts * 4
  unfolding put_tsns
  length-put_tsns [] = refl
  length-put_tsns (t ∷ ts) =
      omega
        (arith, length-append (put_u32 t) (put_tsns w ts), length-put_u32 w t, length-put_tsns ts)

  get_blocks-put_blocks :
      (gs : List GapAckBlock) (rest : List ℕ)
      → All (λ (g : GapAckBlock). IsU16 g.start × IsU16 g.end) gs
      → get_blocks w (length gs) (put_blocks w gs ++ rest) ≡ ok (gs, rest)
  unfolding get_blocks put_blocks
  get_blocks-put_blocks [] rest h = refl
  get_blocks-put_blocks (g ∷ gs) rest ((hs, he), h) =
      let tail : List ℕ = put_blocks w gs ++ rest in
      ground (
        arith,
        append_assoc (put_u16 g.start) (put_u16 g.end ++ put_blocks w gs) rest,
        append_assoc (put_u16 g.end) (put_blocks w gs) rest,
        get_u16-put_u16 w g.start (put_u16 g.end ++ tail) hs,
        get_u16-put_u16 w g.end tail he,
        get_blocks-put_blocks gs rest h,
      )

  get_tsns-put_tsns :
      (ts : List ℕ) (rest : List ℕ)
      → All (λ t. IsU32 t) ts
      → get_tsns w (length ts) (put_tsns w ts ++ rest) ≡ ok (ts, rest)
  unfolding get_tsns put_tsns
  get_tsns-put_tsns [] rest h = refl
  get_tsns-put_tsns (t ∷ ts) rest (ht, h) = ground (
    arith,
    append_assoc (put_u32 t) (put_tsns w ts) rest,
    get_u32-put_u32 w t (put_tsns w ts ++ rest) ht,
    get_tsns-put_tsns ts rest h,
  )

  length-marshal_value :
      (c : ChunkSelectiveAck)
      → length (marshal_value w c) ≡ 12 + length c.gap_ack_blocks * 4 + length c.duplicate_tsn * 4
  unfolding marshal_value
  length-marshal_value c =
      let b : List ℕ = put_blocks w c.gap_ack_blocks in
      let t : List ℕ = put_tsns w c.duplicate_tsn in
      let n : ℕ = length c.gap_ack_blocks % 2 ^ 16 in
      let d : ℕ = length c.duplicate_tsn % 2 ^ 16 in
      omega (
        arith,
        length-append (put_u32 c.cumulative_tsn_ack)
            (put_u32 c.advertised_receiver_window_credit ++ (put_u16 n ++ (put_u16 d ++ (b ++ t)))),
        length-append (put_u32 c.advertised_receiver_window_credit)
            (put_u16 n ++ (put_u16 d ++ (b ++ t))),
        length-append (put_u16 n) (put_u16 d ++ (b ++ t)),
        length-append (put_u16 d) (b ++ t),
        length-append b t,
        length-put_u32 w c.cumulative_tsn_ack,
        length-put_u32 w c.advertised_receiver_window_credit,
        length-put_u16 w n,
        length-put_u16 w d,
        length-put_blocks c.gap_ack_blocks,
        length-put_tsns c.duplicate_tsn,
      )

  -- A value that is read, with nothing to object to.
  value_reads :
      (raw_len : ℕ) (reader r1 r2 r3 r4 r5 r6 : List ℕ) (c a n d : ℕ) (gs : List GapAckBlock)
      (ts : List ℕ)
      → get_u32 reader ≡ some (c, r1)
      → get_u32 r1 ≡ some (a, r2)
      → get_u16 r2 ≡ some (n, r3)
      → get_u16 r3 ≡ some (d, r4)
      → 16 + (4 * n + 4 * d) ≤ raw_len
      → get_blocks w n r4 ≡ ok (gs, r5)
      → get_tsns w d r5 ≡ ok (ts, r6)
      → unmarshal_value w raw_len reader
        ≡ ok (record {
          cumulative_tsn_ack = c;
          advertised_receiver_window_credit = a;
          gap_ack_blocks = gs;
          duplicate_tsn = ts;
        })
  unfolding unmarshal_value
  value_reads raw_len reader r1 r2 r3 r4 r5 r6 c a n d gs ts e1 e2 e3 e4 l e5 e6 =
      ground (arith, e1, e2, e3, e4, e5, e6)

  unmarshal_value-marshal_value :
      (c : ChunkSelectiveAck) (raw_len : ℕ)
      → IsWireSack c
      → 16 + (4 * length c.gap_ack_blocks + 4 * length c.duplicate_tsn) ≤ raw_len
      → unmarshal_value w raw_len (marshal_value w c) ≡ ok c
  unfolding marshal_value
  unmarshal_value-marshal_value c raw_len f l =
      let b : List ℕ = put_blocks w c.gap_ack_blocks in
      let t : List ℕ = put_tsns w c.duplicate_tsn in
      let n : ℕ = length c.gap_ack_blocks in
      let d : ℕ = length c.duplicate_tsn in
      let en : n % 2 ^ 16 ≡ n = omega (arith, f.fits) in
      let ed : d % 2 ^ 16 ≡ d = omega (arith, f.fits) in
      rw en (
        rw ed (
          value_reads raw_len
            (put_u32 c.cumulative_tsn_ack
              ++ (put_u32 c.advertised_receiver_window_credit
                  ++ (put_u16 n ++ (put_u16 d ++ (b ++ t)))))
            (put_u32 c.advertised_receiver_window_credit ++ (put_u16 n ++ (put_u16 d ++ (b ++ t))))
            (put_u16 n ++ (put_u16 d ++ (b ++ t))) (put_u16 d ++ (b ++ t)) (b ++ t) t []
            c.cumulative_tsn_ack c.advertised_receiver_window_credit n d c.gap_ack_blocks
            c.duplicate_tsn (get_u32-put_u32 w c.cumulative_tsn_ack _ f.cumulative)
            (get_u32-put_u32 w c.advertised_receiver_window_credit _ f.credit)
            (get_u16-put_u16 w n _ (omega (arith, f.fits)))
            (get_u16-put_u16 w d _ (omega (arith, f.fits))) l
            (get_blocks-put_blocks c.gap_ack_blocks t f.blocks)
            (ap (get_tsns w d) (sym (append-nil t)) ∙ get_tsns-put_tsns c.duplicate_tsn [] f.tsns)))

  -- A SACK chunk that is framed, with its value to be read.
  unmarshal_framed :
      (raw reader : List ℕ) (h : ChunkHeader)
      → Header.unmarshal w raw ≡ ok h
      → h.typ ≡ 3
      → 16 ≤ length raw
      → slice raw 4 (4 + h.value_length) ≡ some reader
      → unmarshal w raw ≡ unmarshal_value w (length raw) reader
  unfolding unmarshal
  unmarshal_framed raw reader h eh et l es = ground (arith, eh, et, es)

  sack-IsFramed :
      (c : ChunkSelectiveAck) (trailer : List ℕ)
      → IsWireSack c
      → IsTrailer trailer
      → IsFramed w (header c) (marshal_value w c) trailer
  unfolding header value_length
  sack-IsFramed c trailer f t = record {
    wire = record { typ = omega arith; flags = omega arith; fits = omega (arith, f.fits) };
    fills = omega (arith, length-marshal_value c, f.fits);
    follows = t;
  }

  header_length :
      (c : ChunkSelectiveAck)
      → IsWireSack c
      → (header c).value_length ≡ 12 + length c.gap_ack_blocks * 4 + length c.duplicate_tsn * 4
  unfolding header value_length
  header_length c f = omega (arith, f.fits)

  -- A SACK chunk whose fields fit the wire is read back from its bytes, if zero padding or four bytes
  -- and more of anything follow it.
  pub sack_unmarshal-marshal :
      (c : ChunkSelectiveAck) (trailer : List ℕ)
      → IsWireSack c
      → IsTrailer trailer
      → unmarshal w (marshal w c ++ trailer) ≡ ok c
  unfolding marshal header
  sack_unmarshal-marshal c trailer f t =
      let fr : IsFramed w (header c) (marshal_value w c) trailer = sack-IsFramed c trailer f t in
      let raw : List ℕ = framed w (header c) (marshal_value w c) trailer in
      let size : 16 + (length c.gap_ack_blocks * 4 + length c.duplicate_tsn * 4) ≤ length raw =
        omega (arith, length-framed w fr, header_length c f) in
      ap (unmarshal w) (append_assoc (Header.marshal w (header c)) (marshal_value w c) trailer)
      ∙ unmarshal_framed raw (marshal_value w c) (header c) (framed-unmarshal w fr) refl
          (omega arith) (framed-slice w fr)
      ∙ unmarshal_value-marshal_value c (length raw) f (omega arith)

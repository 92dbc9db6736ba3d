-- ===== src/Sctp/Chunk/SelectiveAck.antt =====
-- client/src/webrtc/crates/sctp/chunk/chunk_selective_ack.rs: the SACK chunk.
pub mod RoundTrip
pub mod Short
use webrtc_unreliable_client.Prelude.{
  ℕ, zero, suc, ◌+◌, ◌*◌, ◌%◌, ◌^◌, not, List, [], ◌∷◌, ◌++◌, length, ltb, ◌==◌,
}
use webrtc_unreliable_client.Wire.{Buf, Outcome, ok, err, ◌>>=◌, ◌>>◌, or_panic, fail_if}
use webrtc_unreliable_client.Sctp.Error.{
  Error, chunk_type_not_sack, sack_size_not_large_enough_info,
}
use webrtc_unreliable_client.Sctp.Chunk.GapAck.{GapAckBlock}
use webrtc_unreliable_client.Sctp.Chunk.Header
use webrtc_unreliable_client.Sctp.Chunk.Header.{ChunkHeader, chunk_header_size}

pub record ChunkSelectiveAck : Type 0 where
  pub cumulative_tsn_ack : ℕ
  pub advertised_receiver_window_credit : ℕ
  pub gap_ack_blocks : List GapAckBlock
  pub duplicate_tsn : List ℕ

-- `CT_SACK`
abbrev pub ct_sack : ℕ
ct_sack = 3

-- `SELECTIVE_ACK_HEADER_SIZE`
abbrev pub selective_ack_header_size : ℕ
selective_ack_header_size = 12

unfoldable pub value_length : ChunkSelectiveAck → ℕ
value_length c =
    selective_ack_header_size + length c.gap_ack_blocks * 4 + length c.duplicate_tsn * 4

unfoldable pub header : ChunkSelectiveAck → ChunkHeader
unfolding value_length
header c = record { typ = ct_sack; flags = 0; value_length = value_length c % 2 ^ 16 }

module _ (w : Buf) where
  open w use {put_u16, put_u32, get_u16, get_u32, slice}

  -- `for _ in 0..gap_ack_blocks_len`
  unfoldable pub get_blocks : ℕ → List ℕ → Outcome Error (List GapAckBlock × List ℕ)
  get_blocks zero r = ok ([], r)
  get_blocks (suc n) r = do
    (start, r1) ← or_panic (get_u16 r)
    (end, r2) ← or_panic (get_u16 r1)
    (blocks, r3) ← get_blocks n r2
    ok (record { start = start; end = end } ∷ blocks, r3)

  -- `for _ in 0..duplicate_tsn_len`
  unfoldable pub get_tsns : ℕ → List ℕ → Outcome Error (List ℕ × List ℕ)
  get_tsns zero r = ok ([], r)
  get_tsns (suc n) r = do (t, r1) ← or_panic (get_u32 r); (ts, r2) ← get_tsns n r1; ok (t ∷ ts, r2)

  -- The part that reads the value, given the number of bytes of the whole buffer.
  unfoldable pub unmarshal_value : ℕ → List ℕ → Outcome Error ChunkSelectiveAck
  unfolding get_blocks get_tsns
  unmarshal_value raw_len reader = do
    (cumulative_tsn_ack, r1) ← or_panic (get_u32 reader)
    (credit, r2) ← or_panic (get_u32 r1)
    (gap_ack_blocks_len, r3) ← or_panic (get_u16 r2)
    (duplicate_tsn_len, r4) ← or_panic (get_u16 r3)
    fail_if
        (ltb raw_len (
          chunk_header_size
          + selective_ack_header_size
          + (4 * gap_ack_blocks_len + 4 * duplicate_tsn_len)))
        sack_size_not_large_enough_info
    (gap_ack_blocks, r5) ← get_blocks gap_ack_blocks_len r4
    (duplicate_tsn, r6) ← get_tsns duplicate_tsn_len r5
    ok (record {
      cumulative_tsn_ack = cumulative_tsn_ack;
      advertised_receiver_window_credit = credit;
      gap_ack_blocks = gap_ack_blocks;
      duplicate_tsn = duplicate_tsn;
    })

  unfoldable pub unmarshal : List ℕ → Outcome Error ChunkSelectiveAck
  unfolding unmarshal_value
  unmarshal raw = do
    h ← Header.unmarshal w raw
    fail_if (not (h.typ == ct_sack)) chunk_type_not_sack
    fail_if (ltb (length raw) (chunk_header_size + selective_ack_header_size))
        sack_size_not_large_enough_info
    reader ← or_panic (slice raw chunk_header_size (chunk_header_size + h.value_length))
    unmarshal_value (length raw) reader

  -- `for g in &self.gap_ack_blocks`
  unfoldable pub put_blocks : List GapAckBlock → List ℕ
  put_blocks [] = []
  put_blocks (g ∷ gs) = put_u16 g.start ++ (put_u16 g.end ++ put_blocks gs)

  -- `for t in &self.duplicate_tsn`
  unfoldable pub put_tsns : List ℕ → List ℕ
  put_tsns [] = []
  put_tsns (t ∷ ts) = put_u32 t ++ put_tsns ts

  unfoldable pub marshal_value : ChunkSelectiveAck → List ℕ
  unfolding put_blocks put_tsns
  marshal_value c =
      put_u32 c.cumulative_tsn_ack
      ++ (put_u32 c.advertised_receiver_window_credit
          ++ (put_u16 (length c.gap_ack_blocks % 2 ^ 16)
              ++ (put_u16 (length c.duplicate_tsn % 2 ^ 16)
                  ++ (put_blocks c.gap_ack_blocks ++ put_tsns c.duplicate_tsn))))

  unfoldable pub marshal : ChunkSelectiveAck → List ℕ
  unfolding header marshal_value
  marshal c = Header.marshal w (header c) ++ marshal_value c

-- ===== src/Sctp/Chunk/ForwardTsn.antt =====
-- client/src/webrtc/crates/sctp/chunk/chunk_forward_tsn.rs: the FORWARD-TSN chunk.
pub mod RoundTrip
pub mod Fuel
use webrtc_unreliable_client.Prelude.{
  ℕ, zero, suc, ◌+◌, ◌-◌, ◌*◌, ◌%◌, ◌^◌, not, List, [], ◌∷◌, ◌++◌, length, ltb, ◌==◌, if◌then◌else◌,
}
use webrtc_unreliable_client.Prelude.Words.{sub_size}
use webrtc_unreliable_client.Wire.{Buf, Outcome, ok, err, panic, ◌>>=◌, ◌>>◌, or_panic, fail_if}
use webrtc_unreliable_client.Sctp.Error.{Error, chunk_type_not_forward_tsn, chunk_too_short}
use webrtc_unreliable_client.Sctp.Chunk.Header
use webrtc_unreliable_client.Sctp.Chunk.Header.{ChunkHeader, chunk_header_size}

pub record ChunkForwardTsnStream : Type 0 where
  pub identifier : ℕ
  pub sequence : ℕ

pub record ChunkForwardTsn : Type 0 where
  pub new_cumulative_tsn : ℕ
  pub streams : List ChunkForwardTsnStream

-- `CT_FORWARD_TSN`
abbrev pub ct_forward_tsn : ℕ
ct_forward_tsn = 192

-- `NEW_CUMULATIVE_TSN_LENGTH`, `FORWARD_TSN_STREAM_LENGTH`
abbrev pub new_cumulative_tsn_length : ℕ
new_cumulative_tsn_length = 4

abbrev pub forward_tsn_stream_length : ℕ
forward_tsn_stream_length = 4

unfoldable pub value_length : ChunkForwardTsn → ℕ
value_length c = new_cumulative_tsn_length + forward_tsn_stream_length * length c.streams

unfoldable pub header : ChunkForwardTsn → ChunkHeader
unfolding value_length
header c = record { typ = ct_forward_tsn; flags = 0; value_length = value_length c % 2 ^ 16 }

module _ (w : Buf) where
  open w use {put_u16, put_u32, get_u16, get_u32, slice}

  -- `ChunkForwardTsnStream::unmarshal`
  unfoldable pub unmarshal_stream : List ℕ → Outcome Error ChunkForwardTsnStream
  unmarshal_stream buf = do
    fail_if (ltb (length buf) forward_tsn_stream_length) chunk_too_short
    (identifier, r1) ← or_panic (get_u16 buf)
    (sequence, r2) ← or_panic (get_u16 r1)
    ok (record { identifier = identifier; sequence = sequence })

  -- The body of the loop, with the rest of it.
  unfoldable pub stream_then :
      Outcome Error ChunkForwardTsnStream
      → Outcome Error (List ChunkForwardTsnStream)
      → Outcome Error (List ChunkForwardTsnStream)
  stream_then s rest = do s' ← s; ss ← rest; ok (s' ∷ ss)

  -- `while remaining > 0`. Every round takes 4 from `remaining`, so as much fuel as `remaining`
  -- suffices: out of fuel, `remaining` is 0 or the last round has failed.
  unfoldable pub read_streams : ℕ → List ℕ → ℕ → ℕ → ℕ → Outcome Error (List ChunkForwardTsnStream)
  unfolding unmarshal_stream stream_then
  read_streams zero buf end offset remaining = ok []
  read_streams (suc fuel) buf end offset remaining =
      let rest =
        read_streams fuel buf end (offset + forward_tsn_stream_length)
          (sub_size remaining forward_tsn_stream_length) in
      if remaining == 0
      then ok []
      else stream_then (or_panic (slice buf offset end) >>= unmarshal_stream) rest

  unfoldable pub unmarshal : List ℕ → Outcome Error ChunkForwardTsn
  unfolding read_streams
  unmarshal buf = do
    h ← Header.unmarshal w buf
    fail_if (not (h.typ == ct_forward_tsn)) chunk_type_not_forward_tsn
    fail_if (ltb (length buf) (chunk_header_size + new_cumulative_tsn_length)) chunk_too_short
    reader ← or_panic (slice buf chunk_header_size (chunk_header_size + h.value_length))
    (new_cumulative_tsn, r1) ← or_panic (get_u32 reader)
    streams ←
        read_streams (length buf) buf (chunk_header_size + h.value_length)
          (chunk_header_size + new_cumulative_tsn_length)
          (length buf - (chunk_header_size + new_cumulative_tsn_length))
    ok (record { new_cumulative_tsn = new_cumulative_tsn; streams = streams })

  -- `s.marshal()` for each stream
  unfoldable pub put_streams : List ChunkForwardTsnStream → List ℕ
  put_streams [] = []
  put_streams (s ∷ ss) = put_u16 s.identifier ++ (put_u16 s.sequence ++ put_streams ss)

  unfoldable pub marshal_value : ChunkForwardTsn → List ℕ
  unfolding put_streams
  marshal_value c = put_u32 c.new_cumulative_tsn ++ put_streams c.streams

  unfoldable pub marshal : ChunkForwardTsn → List ℕ
  unfolding header marshal_value
  marshal c = Header.marshal w (header c) ++ marshal_value c

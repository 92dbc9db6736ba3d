-- ===== src/Sctp/Chunk/PayloadData/Codec.antt =====
-- client/src/webrtc/crates/sctp/chunk/chunk_payload_data.rs: the wire format of the DATA chunk.
use webrtc_unreliable_client.Prelude.{
  ℕ, ◌+◌, ◌%◌, ◌^◌, Bool, false, not, List, ◌++◌, length, bit_and, bit_or, if◌then◌else◌, ◌==◌, ltb,
}
use webrtc_unreliable_client.Wire.{Buf, Outcome, ok, ◌>>=◌, ◌>>◌, or_panic, fail_if}
use webrtc_unreliable_client.Sctp.Error.{Error, chunk_type_not_payload_data, chunk_payload_small}
use webrtc_unreliable_client.Sctp.Chunk.Header
use webrtc_unreliable_client.Sctp.Chunk.Header.{ChunkHeader, chunk_header_size}
use webrtc_unreliable_client.Sctp.Chunk.PayloadData.{
  ChunkPayloadData, FlagRef, ppi_from, ppi_as_u32,
}

-- `CT_PAYLOAD_DATA`
abbrev pub ct_payload_data : ℕ
ct_payload_data = 0

-- `PAYLOAD_DATA_HEADER_SIZE`
abbrev pub payload_data_header_size : ℕ
payload_data_header_size = 12

-- The bit masks of the flags
abbrev pub ending_fragment_bitmask : ℕ
ending_fragment_bitmask = 1

abbrev pub beginning_fragment_bitmask : ℕ
beginning_fragment_bitmask = 2

abbrev pub unordered_bitmask : ℕ
unordered_bitmask = 4

abbrev pub immediate_sack_bitmask : ℕ
immediate_sack_bitmask = 8

unfoldable pub value_length : ChunkPayloadData → ℕ
value_length c = payload_data_header_size + length c.user_data

-- The flags of `header`, from the four booleans of a chunk.
unfoldable pub flags_of : Bool → Bool → Bool → Bool → ℕ
flags_of ending beginning unordered immediate =
    let f1 : ℕ = if ending then 1 else 0 in
    let f2 = if beginning then bit_or f1 2 else f1 in
    let f3 = if unordered then bit_or f2 4 else f2 in if immediate then bit_or f3 8 else f3

unfoldable pub header : ChunkPayloadData → ChunkHeader
unfolding flags_of value_length
header c = record {
  typ = ct_payload_data;
  flags = flags_of c.ending_fragment c.beginning_fragment c.unordered c.immediate_sack;
  value_length = value_length c % 2 ^ 16;
}

unfoldable pub has_flag : ℕ → ℕ → Bool
has_flag flags mask = not (bit_and flags mask == 0)

module _ (w : Buf) where
  open w use {put_u16, put_u32, get_u16, get_u32, slice}

  -- Given the clock and two fresh cells.
  unfoldable pub unmarshal : ℕ → FlagRef → FlagRef → List ℕ → Outcome Error ChunkPayloadData
  unfolding has_flag
  unmarshal now a b raw = do
    h ← Header.unmarshal w raw
    fail_if (not (h.typ == ct_payload_data)) chunk_type_not_payload_data
    fail_if (ltb (length raw) payload_data_header_size) chunk_payload_small
    reader ← or_panic (slice raw chunk_header_size (chunk_header_size + h.value_length))
    (tsn, r1) ← or_panic (get_u32 reader)
    (stream_identifier, r2) ← or_panic (get_u16 r1)
    (stream_sequence_number, r3) ← or_panic (get_u16 r2)
    (ppi, r4) ← or_panic (get_u32 r3)
    user_data ← or_panic (
        slice raw (chunk_header_size + payload_data_header_size)
          (chunk_header_size + h.value_length))
    ok (record {
      unordered = has_flag h.flags unordered_bitmask;
      beginning_fragment = has_flag h.flags beginning_fragment_bitmask;
      ending_fragment = has_flag h.flags ending_fragment_bitmask;
      immediate_sack = has_flag h.flags immediate_sack_bitmask;
      tsn = tsn;
      stream_identifier = stream_identifier;
      stream_sequence_number = stream_sequence_number;
      payload_type = ppi_from ppi;
      user_data = user_data;
      acked = false;
      miss_indicator = 0;
      since = now;
      nsent = 0;
      abandoned = a;
      all_inflight = b;
      retransmit = false;
    })

  -- The value behind the header.
  unfoldable pub marshal_value : ChunkPayloadData → List ℕ
  marshal_value c =
      put_u32 c.tsn
      ++ (put_u16 c.stream_identifier
          ++ (put_u16 c.stream_sequence_number
              ++ (put_u32 (ppi_as_u32 c.payload_type) ++ c.user_data)))

  unfoldable pub marshal : ChunkPayloadData → List ℕ
  marshal c = Header.marshal w (header c) ++ marshal_value c

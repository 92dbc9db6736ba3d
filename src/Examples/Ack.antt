-- ===== src/Examples/Ack.antt =====
-- The SACK and FORWARD-TSN chunks at concrete inputs.
use webrtc_unreliable_client.Prelude.{ℕ, ◌≡◌, refl, List, [], ◌∷◌, ◌++◌, some, arith, inr}
use webrtc_unreliable_client.Wire.{big_endian, ok, err, panic}
use webrtc_unreliable_client.Sctp.Error.{chunk_too_short}
use webrtc_unreliable_client.Sctp.Chunk.Header
use webrtc_unreliable_client.Sctp.Chunk.Header.{ChunkHeader}
use webrtc_unreliable_client.Sctp.Chunk.SelectiveAck
use webrtc_unreliable_client.Sctp.Chunk.SelectiveAck.{ChunkSelectiveAck}
use webrtc_unreliable_client.Sctp.Chunk.SelectiveAck.RoundTrip.{IsWireSack, sack_unmarshal-marshal}
use webrtc_unreliable_client.Sctp.Chunk.SelectiveAck.Short.{sack_panics}
use webrtc_unreliable_client.Sctp.Chunk.ForwardTsn
use webrtc_unreliable_client.Sctp.Chunk.ForwardTsn.{ChunkForwardTsn}
use webrtc_unreliable_client.Sctp.Chunk.ForwardTsn.RoundTrip.{
  IsWireForwardTsn, forward_tsn_unmarshal-marshal,
}

abbrev sack : ChunkSelectiveAck
sack = record {
  cumulative_tsn_ack = 4294967295;
  advertised_receiver_window_credit = 1000;
  gap_ack_blocks = record { start = 2; end = 3 } ∷ [];
  duplicate_tsn = 7 ∷ 8 ∷ [];
}

sack-IsWireSack : IsWireSack sack
sack-IsWireSack = record {
  cumulative = omega arith;
  credit = omega arith;
  blocks = omega arith;
  tsns = omega arith;
  fits = omega arith;
}

sack_unmarshal-marshal_example :
    SelectiveAck.unmarshal big_endian (SelectiveAck.marshal big_endian sack ++ (0 ∷ 4 ∷ 0 ∷ 4 ∷ []))
    ≡ ok sack
sack_unmarshal-marshal_example =
    sack_unmarshal-marshal big_endian sack (0 ∷ 4 ∷ 0 ∷ 4 ∷ []) sack-IsWireSack (inr (omega arith))

-- A SACK that claims one block and has none, in front of an empty chunk of four bytes.
abbrev greedy : List ℕ
greedy = 3 ∷ 0 ∷ 0 ∷ 16 ∷ 0 ∷ 0 ∷ 0 ∷ 9 ∷ 0 ∷ 0 ∷ 0 ∷ 0 ∷ 0 ∷ 1 ∷ 0 ∷ 0 ∷ 11 ∷ 0 ∷ 0 ∷ 4 ∷ []

abbrev greedy_header : ChunkHeader
greedy_header = record { typ = 3; flags = 0; value_length = 12 }

greedy_reads :
    (Header.unmarshal big_endian greedy ≡ ok greedy_header)
    × (big_endian.slice greedy 4 16
        ≡ some (
            big_endian.put_u32 9
            ++ (big_endian.put_u32 0 ++ (big_endian.put_u16 1 ++ (big_endian.put_u16 0 ++ [])))))
unfolding Header.unmarshal big_endian
greedy_reads = (refl, refl)

sack_panics_example : SelectiveAck.unmarshal big_endian greedy ≡ panic
sack_panics_example =
    sack_panics big_endian greedy [] greedy_header 9 0 1 0 greedy_reads.0 refl greedy_reads.1
      (omega arith) (omega arith) (omega arith) (omega arith) (omega arith) (omega arith)

abbrev forward : ChunkForwardTsn
forward = record { new_cumulative_tsn = 12; streams = record { identifier = 1; sequence = 5 } ∷ [] }

forward-IsWireForwardTsn : IsWireForwardTsn forward
forward-IsWireForwardTsn = record {
  cumulative = omega arith;
  numbers = omega arith;
  fits = omega arith;
}

-- An empty chunk of four bytes follows.
forward_tsn_unmarshal-marshal_example :
    ForwardTsn.unmarshal big_endian (ForwardTsn.marshal big_endian forward ++ (11 ∷ 0 ∷ 0 ∷ 4 ∷ []))
    ≡ err chunk_too_short
forward_tsn_unmarshal-marshal_example =
    forward_tsn_unmarshal-marshal big_endian forward (11 ∷ 0 ∷ 0 ∷ 4 ∷ []) forward-IsWireForwardTsn
      (inr (omega arith)) (omega arith)

-- Two streams behind the header and the TSN, read on nine units of fuel or on eight.
abbrev two_streams : List ℕ
two_streams = 192 ∷ 0 ∷ 0 ∷ 16 ∷ 0 ∷ 0 ∷ 0 ∷ 12 ∷ 0 ∷ 1 ∷ 0 ∷ 5 ∷ 0 ∷ 2 ∷ 0 ∷ 6 ∷ []

-- ===== src/Examples/Chunk.antt =====
-- The wire formats and the serial numbers at concrete inputs.
use webrtc_unreliable_client.Prelude.{ℕ, ◌≡◌, refl, List, [], ◌∷◌, ◌++◌, arith, inl}
use webrtc_unreliable_client.Wire.{big_endian, ok, panic}
use webrtc_unreliable_client.Sctp.Chunk.Header
use webrtc_unreliable_client.Sctp.Chunk.Header.{ChunkHeader}
use webrtc_unreliable_client.Sctp.Chunk.Header.RoundTrip.{IsWire}
use webrtc_unreliable_client.Sctp.Chunk.PayloadData.Codec.{unmarshal, marshal}
use webrtc_unreliable_client.Sctp.Chunk.PayloadData.RoundTrip.{
  IsWireData, received, data_unmarshal-marshal, unmarshal_panics,
}
use webrtc_unreliable_client.Examples.Data.{single}

abbrev shut_header : ChunkHeader
shut_header = record { typ = 7; flags = 0; value_length = 2 }

shut_header-IsWire : IsWire shut_header
shut_header-IsWire = record { typ = omega arith; flags = omega arith; fits = omega arith }

single-IsWireData : IsWireData (single 9)
single-IsWireData = record {
  tsn = omega arith;
  si = omega arith;
  ssn = omega arith;
  data_fits = omega arith;
}

data_unmarshal-marshal_example :
    unmarshal big_endian 77 4 5 (marshal big_endian (single 9) ++ (0 ∷ 0 ∷ []))
    ≡ ok (received 77 4 5 (single 9))
data_unmarshal-marshal_example =
    data_unmarshal-marshal big_endian 77 4 5 (single 9) (0 ∷ 0 ∷ []) single-IsWireData
      (inl (refl, (refl, tt)))

-- A DATA chunk with the length 8, and an empty chunk of another kind behind it.
abbrev cut_short : List ℕ
cut_short = 0 ∷ 3 ∷ 0 ∷ 8 ∷ 0 ∷ 0 ∷ 0 ∷ 1 ∷ 11 ∷ 0 ∷ 0 ∷ 4 ∷ []

abbrev cut_header : ChunkHeader
cut_header = record { typ = 0; flags = 3; value_length = 4 }

cut_short_header : Header.unmarshal big_endian cut_short ≡ ok cut_header
unfolding Header.unmarshal big_endian
cut_short_header = refl

unmarshal_panics_example : unmarshal big_endian 77 4 5 cut_short ≡ panic
unmarshal_panics_example =
    unmarshal_panics big_endian 77 4 5 cut_short cut_header cut_short_header refl (omega arith)
      (omega arith)

-- ===== src/Sctp/Chunk/Framed.antt =====
-- A chunk's bytes are its header, its value and what follows: what a reader of sctp/chunk finds there.
use webrtc_unreliable_client.Prelude.{ℕ, ◌+◌, ◌≡◌, List, ◌++◌, length, length-append, some, arith}
use webrtc_unreliable_client.Wire.{Buf, ok}
use webrtc_unreliable_client.Wire.Laws.{slice_middle}
use webrtc_unreliable_client.Sctp.Chunk.Header
use webrtc_unreliable_client.Sctp.Chunk.Header.{ChunkHeader}
use webrtc_unreliable_client.Sctp.Chunk.Header.RoundTrip.{
  IsTrailer, IsWire, length-marshal, unmarshal-marshal,
}

module _ (w : Buf) where
  abbrev pub framed : ChunkHeader → List ℕ → List ℕ → List ℕ
  framed h value trailer = Header.marshal w h ++ (value ++ trailer)

  pub record IsFramed (h : ChunkHeader) (value trailer : List ℕ) : Type 0 where
    pub wire : IsWire h
    pub fills : length value ≡ h.value_length
    pub follows : IsTrailer trailer

  module _ {h : ChunkHeader} {value trailer : List ℕ} (f : IsFramed h value trailer) where
    pub framed-unmarshal : Header.unmarshal w (framed h value trailer) ≡ ok h
    framed-unmarshal = unmarshal-marshal w h value trailer f.wire f.fills f.follows

    pub framed-slice : w.slice (framed h value trailer) 4 (4 + h.value_length) ≡ some value
    framed-slice =
        slice_middle w (Header.marshal w h) value trailer 4 (4 + h.value_length)
          (length-marshal w h) (omega (arith, f.fills))

    pub length-framed : length (framed h value trailer) ≡ 4 + h.value_length + length trailer
    length-framed = omega (
      arith,
      f.fills,
      length-append (Header.marshal w h) (value ++ trailer),
      length-append value trailer,
      length-marshal w h,
    )

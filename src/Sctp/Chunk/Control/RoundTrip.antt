-- ===== src/Sctp/Chunk/Control/RoundTrip.antt =====
-- The cookie and shutdown chunks are read back from what was written.
use webrtc_unreliable_client.Prelude.{
  ℕ, ◌+◌, ◌<◌, ◌≡◌, ◌^◌, refl, ap, sym, ◌∙◌, List, [], ◌∷◌, ◌++◌, length, arith,
}
use mathlib.Core.List.{append_assoc}
use webrtc_unreliable_client.Wire.{Buf, Outcome, ok, err}
use webrtc_unreliable_client.Sctp.Error.{Error, invalid_chunk_size}
use webrtc_unreliable_client.Sctp.Chunk.Framed.{IsFramed, framed-unmarshal, framed-slice}
use webrtc_unreliable_client.Sctp.Chunk.Header
use webrtc_unreliable_client.Sctp.Chunk.Header.{ChunkHeader}
use webrtc_unreliable_client.Sctp.Chunk.Header.RoundTrip.{IsTrailer, unmarshal-marshal}
use webrtc_unreliable_client.Sctp.Chunk.Control.{
  ChunkCookieEcho, ChunkShutdown, cookie_echo_header, cookie_ack_header, shutdown_ack_header,
  shutdown_complete_header, cookie_echo_unmarshal, cookie_echo_marshal, cookie_ack_unmarshal,
  cookie_ack_marshal, shutdown_ack_unmarshal, shutdown_ack_marshal, shutdown_complete_unmarshal,
  shutdown_complete_marshal,
}

-- A shutdown is read only if its eight bytes are all there is.
abbrev pub shutdown_alone : ChunkShutdown → List ℕ → Outcome Error ChunkShutdown
shutdown_alone c [] = ok c
shutdown_alone c (b ∷ bs) = err invalid_chunk_size

module _ (w : Buf) where
  open w use {put_u32, get_u32, slice}

  -- A cookie that fits a chunk is read back, if zero padding or four bytes and more of anything follow
  -- the chunk.
  pub cookie_echo_unmarshal-marshal :
      (c : ChunkCookieEcho) (trailer : List ℕ)
      → length c.cookie + 4 < 2 ^ 16
      → IsTrailer trailer
      → cookie_echo_unmarshal w (cookie_echo_marshal w c ++ trailer) ≡ ok c
  unfolding cookie_echo_unmarshal cookie_echo_marshal cookie_echo_header
  cookie_echo_unmarshal-marshal c trailer small t =
      let h : ChunkHeader = cookie_echo_header c in
      let f : IsFramed w h c.cookie trailer = record {
        wire = record { typ = omega arith; flags = omega arith; fits = omega arith };
        fills = omega arith;
        follows = t;
      } in
      ap (cookie_echo_unmarshal w) (append_assoc (Header.marshal w h) c.cookie trailer)
      ∙ rw (framed-unmarshal w f) (rw (framed-slice w f) refl)

  bare :
      (h : ChunkHeader) (trailer : List ℕ)
      → h.typ < 256
      → h.flags ≡ 0
      → h.value_length ≡ 0
      → IsTrailer trailer
      → Header.unmarshal w (Header.marshal w h ++ trailer) ≡ ok h
  bare h trailer a b c t =
      unmarshal-marshal w h [] trailer
        (record { typ = omega arith; flags = omega arith; fits = omega arith }) (sym c) t

  -- The three chunks without a value are read back, whatever may follow a chunk.
  pub bare_unmarshal-marshal :
      (trailer : List ℕ)
      → IsTrailer trailer
      → (cookie_ack_unmarshal w (cookie_ack_marshal w ++ trailer) ≡ ok tt)
        × (shutdown_ack_unmarshal w (shutdown_ack_marshal w ++ trailer) ≡ ok tt)
        × (shutdown_complete_unmarshal w (shutdown_complete_marshal w ++ trailer) ≡ ok tt)
  unfolding cookie_ack_unmarshal cookie_ack_marshal shutdown_ack_unmarshal shutdown_ack_marshal
      shutdown_complete_unmarshal shutdown_complete_marshal
  bare_unmarshal-marshal trailer t = (
    rw (bare cookie_ack_header trailer (omega arith) refl refl t) refl,
    rw (bare shutdown_ack_header trailer (omega arith) refl refl t) refl,
    rw (bare shutdown_complete_header trailer (omega arith) refl refl t) refl,
  )

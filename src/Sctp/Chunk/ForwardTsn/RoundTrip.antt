-- ===== src/Sctp/Chunk/ForwardTsn/RoundTrip.antt =====
-- When a FORWARD-TSN chunk is read back from what was written.
use webrtc_unreliable_client.Prelude.{
  ℕ, zero, suc, ◌+◌, ◌-◌, ◌*◌, ◌^◌, ◌<◌, ◌≤◌, ◌≡◌, refl, ap, sym, ◌∙◌, List, [], ◌∷◌, ◌++◌, length,
  length-append, All, some, arith,
}
use mathlib.Core.List.{append_assoc}
use webrtc_unreliable_client.Prelude.Words.{IsU16, IsU32, sub_size}
use webrtc_unreliable_client.Wire.{Buf, Outcome, ok, err, ◌>>=◌}
use webrtc_unreliable_client.Wire.Laws.{
  get_u16-put_u16, get_u32-put_u32, length-put_u16, length-put_u32, slice_middle,
}
use webrtc_unreliable_client.Sctp.Error.{Error, chunk_too_short}
use webrtc_unreliable_client.Sctp.Chunk.Framed.{
  framed, IsFramed, framed-unmarshal, framed-slice, length-framed,
}
use webrtc_unreliable_client.Sctp.Chunk.Header
use webrtc_unreliable_client.Sctp.Chunk.Header.{ChunkHeader}
use webrtc_unreliable_client.Sctp.Chunk.Header.RoundTrip.{IsTrailer, length-marshal}
use webrtc_unreliable_client.Sctp.Chunk.ForwardTsn.{
  ChunkForwardTsnStream, ChunkForwardTsn, value_length, header, unmarshal_stream, stream_then,
  read_streams, unmarshal, put_streams, marshal_value, marshal,
}

-- The chunk's fields fit their places on the wire.
pub record IsWireForwardTsn (c : ChunkForwardTsn) : Type 0 where
  pub cumulative : IsU32 c.new_cumulative_tsn
  pub numbers : All (λ (s : ChunkForwardTsnStream). IsU16 s.identifier × IsU16 s.sequence) c.streams
  pub fits : 4 * length c.streams + 8 < 2 ^ 16

-- What reading makes of the streams, by the bytes that follow the chunk.
abbrev pub last_chunk_only : {A : Type 0} → A → List ℕ → Outcome Error A
last_chunk_only a [] = ok a
last_chunk_only a (b ∷ bs) = err chunk_too_short

module _ (w : Buf) where
  open w use {put_u16, put_u32, get_u16, get_u32, slice}

  length-put_streams : (ss : List ChunkForwardTsnStream) → length (put_streams w ss) ≡ 4 * length ss
  unfolding put_streams
  length-put_streams [] = refl
  length-put_streams (s ∷ ss) = omega (
    arith,
    length-append (put_u16 s.identifier) (put_u16 s.sequence ++ put_streams w ss),
    length-append (put_u16 s.sequence) (put_streams w ss),
    length-put_u16 w s.identifier,
    length-put_u16 w s.sequence,
    length-put_streams ss,
  )

  unmarshal_stream-put_streams :
      (s : ChunkForwardTsnStream) (ss : List ChunkForwardTsnStream)
      → IsU16 s.identifier
      → IsU16 s.sequence
      → unmarshal_stream w (put_streams w (s ∷ ss)) ≡ ok s
  unfolding unmarshal_stream put_streams
  unmarshal_stream-put_streams s ss a b = ground (
    arith,
    length-append (put_u16 s.identifier) (put_u16 s.sequence ++ put_streams w ss),
    length-append (put_u16 s.sequence) (put_streams w ss),
    length-put_u16 w s.identifier,
    length-put_u16 w s.sequence,
    get_u16-put_u16 w s.identifier (put_u16 s.sequence ++ put_streams w ss) a,
    get_u16-put_u16 w s.sequence (put_streams w ss) b,
  )

  -- One round of the loop, with what it reads.
  round :
      (fuel end offset remaining : ℕ) (buf part : List ℕ)
      → 0 < remaining
      → slice buf offset end ≡ some part
      → read_streams w (suc fuel) buf end offset remaining
        ≡ stream_then w
            (unmarshal_stream w part)
            (read_streams w fuel buf end (offset + 4) (sub_size remaining 4))
  unfolding read_streams
  round fuel end offset remaining buf part h e = ground (arith, e)

  unmarshal_stream-nil : unmarshal_stream w [] ≡ err chunk_too_short
  unfolding unmarshal_stream
  unmarshal_stream-nil = refl

  then_last :
      (s : ChunkForwardTsnStream) (ss : List ChunkForwardTsnStream) (trailer : List ℕ)
      → stream_then w (ok s) (last_chunk_only ss trailer) ≡ last_chunk_only (s ∷ ss) trailer
  unfolding stream_then
  then_last s ss [] = refl
  then_last s ss (x ∷ xs) = refl

  -- The loop at the streams `ss` behind `front`.
  streams_read :
      (ss : List ChunkForwardTsnStream) (front trailer : List ℕ) (fuel remaining : ℕ)
      → All (λ (s : ChunkForwardTsnStream). IsU16 s.identifier × IsU16 s.sequence) ss
      → length ss < fuel
      → remaining ≡ 4 * length ss + length trailer
      → remaining < 2 ^ 64
      → read_streams w fuel
          (front ++ (put_streams w ss ++ trailer))
          (length front + 4 * length ss)
          (length front)
          remaining
        ≡ last_chunk_only ss trailer
  streams_read ss front trailer zero remaining h lt e fits = absurd (omega arith)
  streams_read [] front [] (suc fuel) remaining h lt e fits = unfold read_streams in ground arith
  streams_read [] front (b ∷ bs) (suc fuel) remaining h lt e fits =
      round fuel (length front + 0) (length front) remaining
        (front ++ (put_streams w [] ++ (b ∷ bs))) [] (omega arith)
        (unfold put_streams in
          slice_middle w front [] (b ∷ bs) (length front) (length front + 0) refl (omega arith))
      ∙ unfold stream_then in rw unmarshal_stream-nil refl
  streams_read (s ∷ ss) front trailer (suc fuel) remaining ((a, b), h) lt e fits =
      let one : List ℕ = put_u16 s.identifier ++ put_u16 s.sequence in
      let front' : List ℕ = front ++ one in
      let size : length front' ≡ length front + 4 = omega (
        arith,
        length-append front one,
        length-append (put_u16 s.identifier) (put_u16 s.sequence),
        length-put_u16 w s.identifier,
        length-put_u16 w s.sequence,
      ) in
      let cut : front ++ (put_streams w (s ∷ ss) ++ trailer)
          ≡ front' ++ (put_streams w ss ++ trailer) =
        unfold put_streams in
        ap (λ l. front ++ (l ++ trailer))
          (sym (append_assoc (put_u16 s.identifier) (put_u16 s.sequence) (put_streams w ss)))
        ∙ ap (λ l. front ++ l) (append_assoc one (put_streams w ss) trailer)
        ∙ sym (append_assoc front one (put_streams w ss ++ trailer)) in
      let end : length front + 4 * suc (length ss) ≡ length front' + 4 * length ss =
        omega (arith, size) in
      let left : sub_size remaining 4 ≡ 4 * length ss + length trailer = omega arith in
      round fuel (length front + 4 * suc (length ss)) (length front) remaining
        (front ++ (put_streams w (s ∷ ss) ++ trailer)) (put_streams w (s ∷ ss)) (omega arith)
        (slice_middle w front (put_streams w (s ∷ ss)) trailer (length front)
          (length front + 4 * suc (length ss)) refl (omega (arith, length-put_streams (s ∷ ss))))
      ∙ rw (unmarshal_stream-put_streams s ss a b) (
          rw cut (
            rw end (
              rw (sym size) (
                rw
                  (streams_read ss front' trailer fuel (sub_size remaining 4) h (omega arith) left
                    (omega arith))
                  (then_last s ss trailer)))))

  -- A chunk that is framed, with its streams to be read.
  unmarshal_framed :
      (buf reader r : List ℕ) (h : ChunkHeader) (t : ℕ)
      → Header.unmarshal w buf ≡ ok h
      → h.typ ≡ 192
      → 8 ≤ length buf
      → slice buf 4 (4 + h.value_length) ≡ some reader
      → get_u32 reader ≡ some (t, r)
      → unmarshal w buf ≡ (
          read_streams w (length buf) buf (4 + h.value_length) 8 (length buf - 8) >>= λ ss.
          ok (record { new_cumulative_tsn = t; streams = ss }))
  unfolding unmarshal
  unmarshal_framed buf reader r h t eh et l es e1 = ground (arith, eh, et, es, e1)

  forward_tsn-IsFramed :
      (c : ChunkForwardTsn) (trailer : List ℕ)
      → IsWireForwardTsn c
      → IsTrailer trailer
      → IsFramed w (header c) (marshal_value w c) trailer
  unfolding header value_length marshal_value
  forward_tsn-IsFramed c trailer f t = record {
    wire = record { typ = omega arith; flags = omega arith; fits = omega (arith, f.fits) };
    fills = omega (
      arith,
      f.fits,
      length-append (put_u32 c.new_cumulative_tsn) (put_streams w c.streams),
      length-put_u32 w c.new_cumulative_tsn,
      length-put_streams c.streams,
    );
    follows = t;
  }

  header_length :
      (c : ChunkForwardTsn)
      → IsWireForwardTsn c
      → (header c).value_length ≡ 4 + 4 * length c.streams
  unfolding header value_length
  header_length c f = omega (arith, f.fits)

  then_chunk :
      (c : ChunkForwardTsn) (trailer : List ℕ)
      → (last_chunk_only c.streams trailer >>= λ ss.
          ok (record { new_cumulative_tsn = c.new_cumulative_tsn; streams = ss }))
        ≡ last_chunk_only c trailer
  then_chunk c [] = refl
  then_chunk c (b ∷ bs) = refl

  -- The loop of `unmarshal` at a chunk that was written.
  loop_read :
      (c : ChunkForwardTsn) (trailer : List ℕ)
      → IsWireForwardTsn c
      → length trailer < 2 ^ 32
      → length (framed w (header c) (marshal_value w c) trailer)
        ≡ 4 + (header c).value_length + length trailer
      → let buf = framed w (header c) (marshal_value w c) trailer in
        read_streams w (length buf) buf (4 + (header c).value_length) 8 (length buf - 8)
        ≡ last_chunk_only c.streams trailer
  unfolding marshal_value
  loop_read c trailer f small size =
      let hd : List ℕ = Header.marshal w (header c) in
      let t : List ℕ = put_u32 c.new_cumulative_tsn in
      let front : List ℕ = hd ++ t in
      let buf : List ℕ = hd ++ ((t ++ put_streams w c.streams) ++ trailer) in
      let eight : length front ≡ 8 = omega (
        arith,
        length-append hd t,
        length-marshal w (header c),
        length-put_u32 w c.new_cumulative_tsn,
      ) in
      let cut : front ++ (put_streams w c.streams ++ trailer) ≡ buf =
        append_assoc hd t (put_streams w c.streams ++ trailer)
        ∙ ap (λ l. hd ++ l) (sym (append_assoc t (put_streams w c.streams) trailer)) in
      let end : length front + 4 * length c.streams ≡ 4 + (header c).value_length =
        omega (arith, eight, header_length c f) in
      sym (λ i. read_streams w (length buf) (cut i) (end i) (eight i) (length buf - 8))
      ∙ streams_read c.streams front trailer (length buf) (length buf - 8) f.numbers
          (omega (arith, size, header_length c f)) (omega (arith, size, header_length c f))
          (omega (arith, size, header_length c f, f.fits))

  -- A FORWARD-TSN chunk whose fields fit the wire is read back from its bytes if it is the last chunk
  -- of the packet. If another chunk follows it, reading it fails as too short.
  pub forward_tsn_unmarshal-marshal :
      (c : ChunkForwardTsn) (trailer : List ℕ)
      → IsWireForwardTsn c
      → IsTrailer trailer
      → length trailer < 2 ^ 32
      → unmarshal w (marshal w c ++ trailer) ≡ last_chunk_only c trailer
  unfolding marshal
  forward_tsn_unmarshal-marshal c trailer f t small =
      let fr : IsFramed w (header c) (marshal_value w c) trailer =
        forward_tsn-IsFramed c trailer f t in
      let buf : List ℕ = framed w (header c) (marshal_value w c) trailer in
      ap (unmarshal w) (append_assoc (Header.marshal w (header c)) (marshal_value w c) trailer)
      ∙ unmarshal_framed buf (marshal_value w c) (put_streams w c.streams) (header c)
          c.new_cumulative_tsn (framed-unmarshal w fr) (unfold header in refl)
          (omega (arith, length-framed w fr, header_length c f)) (framed-slice w fr)
          (unfold marshal_value in
            get_u32-put_u32 w c.new_cumulative_tsn (put_streams w c.streams) f.cumulative)
      ∙ ap
          (λ o. o >>= λ ss. ok (record { new_cumulative_tsn = c.new_cumulative_tsn; streams = ss }))
          (loop_read c trailer f small (length-framed w fr))
      ∙ then_chunk c trailer

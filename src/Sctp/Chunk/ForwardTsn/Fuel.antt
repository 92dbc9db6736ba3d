-- ===== src/Sctp/Chunk/ForwardTsn/Fuel.antt =====
-- The loop of chunk_forward_tsn.rs over the streams comes to its end on the fuel that it is given.
use webrtc_unreliable_client.Prelude.{
  ℕ, zero, suc, ◌+◌, ◌-◌, ◌^◌, ◌<◌, ◌≤◌, ◌≡◌, refl, ap, sym, ◌∙◌, List, [], length, length-take,
  length-drop, take, drop, arith, Bool-cases, inl, inr, ltb, false,
}
use webrtc_unreliable_client.Prelude.Words.{sub_size}
use webrtc_unreliable_client.Wire.{Buf, Outcome, ok, err, or_panic, ◌>>=◌}
use webrtc_unreliable_client.Sctp.Error.{Error, chunk_too_short}
use webrtc_unreliable_client.Sctp.Chunk.ForwardTsn.{
  ChunkForwardTsnStream, unmarshal_stream, stream_then, read_streams,
}

module _ (w : Buf) where
  open w use {slice}

  -- What one round reads.
  entry : List ℕ → ℕ → ℕ → Outcome Error ChunkForwardTsnStream
  entry buf end offset = or_panic (slice buf offset end) >>= unmarshal_stream w

  unmarshal_stream_short :
      (part : List ℕ) → length part < 4 → unmarshal_stream w part ≡ err chunk_too_short
  unfolding unmarshal_stream
  unmarshal_stream_short part h = ground arith

  -- With fewer than four bytes left, the round fails, whatever the rest of the loop would do.
  entry_short :
      (buf : List ℕ) (end offset : ℕ) (a b : Outcome Error (List ChunkForwardTsnStream))
      → end ≤ length buf
      → length buf < offset + 4
      → stream_then w (entry buf end offset) a ≡ stream_then w (entry buf end offset) b
  unfolding entry stream_then
  entry_short buf end offset a b h k = elim (Bool-cases (ltb end offset)) [
    | inl back ↦ rw (w.slice_reversed buf offset end (ground arith)) refl
    | inr forth ↦
        let part : List ℕ = take (end - offset) (drop offset buf) in
        let size : length part < 4 =
          ground (arith, length-take (end - offset) (drop offset buf), length-drop offset buf) in
        rw (w.slice_lem buf offset end (ground arith) h)
          (rw (unmarshal_stream_short part size) refl)
  ]

  next_round :
      (fuel : ℕ) (buf : List ℕ) (end offset remaining : ℕ)
      → 0 < remaining
      → read_streams w (suc fuel) buf end offset remaining
        ≡ stream_then w
            (entry buf end offset)
            (read_streams w fuel buf end (offset + 4) (sub_size remaining 4))
  unfolding read_streams entry
  next_round fuel buf end offset remaining h = ground arith

  at_end : (fuel : ℕ) (buf : List ℕ) (end offset : ℕ) → read_streams w fuel buf end offset 0 ≡ ok []
  unfolding read_streams
  at_end zero buf end offset = refl
  at_end (suc fuel) buf end offset = refl

  -- Where the loop has `remaining` bytes of the packet before it, as much fuel as that suffices: more
  -- fuel changes nothing.
  pub read_streams_fuel :
      (fuel more : ℕ) (buf : List ℕ) (end offset remaining : ℕ)
      → remaining ≤ fuel
      → offset + remaining ≡ length buf
      → end ≤ length buf
      → remaining < 2 ^ 64
      → read_streams w (fuel + more) buf end offset remaining
        ≡ read_streams w fuel buf end offset remaining
  read_streams_fuel fuel more buf end offset zero h e l s =
      at_end (fuel + more) buf end offset ∙ sym (at_end fuel buf end offset)
  read_streams_fuel zero more buf end offset (suc n) h e l s = absurd (omega arith)
  read_streams_fuel (suc fuel) more buf end offset (suc n) h e l s =
      let m : ℕ = fuel + more in
      let more_fuel : suc fuel + more ≡ suc (fuel + more) = omega arith in
      let rest : ℕ → Outcome Error (List ChunkForwardTsnStream) =
        λ k. read_streams w k buf end (offset + 4) (sub_size (suc n) 4) in
      ap (λ k. read_streams w k buf end offset (suc n)) more_fuel
      ∙ next_round m buf end offset (suc n) (omega arith)
      ∙ elim (Bool-cases (ltb (suc n) 4)) [
        | inl short ↦ entry_short buf end offset (rest m) (rest fuel) l (ground arith)
        | inr long ↦
            let left : ltb (suc n) 4 ≡ false → sub_size (suc n) 4 ≤ fuel = λ x. ground arith in
            ap (stream_then w (entry buf end offset)) (
              read_streams_fuel fuel more buf end (offset + 4) (sub_size (suc n) 4) (left long)
                (ground arith) l (ground arith))
      ]
      ∙ sym (next_round fuel buf end offset (suc n) (omega arith))

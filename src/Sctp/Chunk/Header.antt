-- ===== src/Sctp/Chunk/Header.antt =====
-- client/src/webrtc/crates/sctp/chunk/chunk_header.rs: the header that every chunk begins with.
pub mod RoundTrip
use webrtc_unreliable_client.Prelude.{
  ℕ, zero, suc, ◌+◌, ◌-◌, ◌%◌, ◌^◌, Bool, true, false, not, List, [], ◌∷◌, ◌++◌, length, get_elem?,
  if◌then◌else◌, ◌==◌, ltb, none, some,
}
use webrtc_unreliable_client.Prelude.Words.{add16}
use webrtc_unreliable_client.Wire.{Buf, Outcome, ok, err, panic, ◌>>=◌, ◌>>◌, or_panic, fail_if}
use webrtc_unreliable_client.Sctp.Error.{
  Error, chunk_header_too_small, chunk_header_invalid_length, chunk_header_not_enough_space,
  chunk_header_padding_non_zero,
}

-- `typ` is the number of a `ChunkType`.
pub record ChunkHeader : Type 0 where
  pub typ : ℕ
  pub flags : ℕ
  pub value_length : ℕ

-- `CHUNK_HEADER_SIZE`
abbrev pub chunk_header_size : ℕ
chunk_header_size = 4

-- `for i in (1..=n).rev()` over the padding behind `offset`.
unfoldable pub check_padding : List ℕ → ℕ → ℕ → Outcome Error (Unit {0})
check_padding raw offset zero = ok tt
check_padding raw offset (suc i) =
    let rest = check_padding raw offset i in
    elim (get_elem? raw (offset + i)) [
      | none ↦ panic
      | some b ↦ if not (b == 0) then err chunk_header_padding_non_zero else rest
    ]

module _ (w : Buf) where
  open w use {put_u8, put_u16, get_u8, get_u16}

  unfoldable pub unmarshal : List ℕ → Outcome Error ChunkHeader
  unfolding check_padding
  unmarshal raw = do
    fail_if (ltb (length raw) chunk_header_size) chunk_header_too_small
    (typ, r1) ← or_panic (get_u8 raw)
    (flags, r2) ← or_panic (get_u8 r1)
    (len, r3) ← or_panic (get_u16 r2)
    fail_if (ltb len chunk_header_size) chunk_header_invalid_length
    fail_if (ltb (length raw) len) chunk_header_not_enough_space
    let after = length raw - len
    if ltb after 4 then check_padding raw (chunk_header_size + (len - 4)) after else ok tt
    ok (record { typ = typ; flags = flags; value_length = len - 4 })

  unfoldable pub marshal : ChunkHeader → List ℕ
  marshal h = put_u8 h.typ ++ (put_u8 h.flags ++ put_u16 (add16 h.value_length chunk_header_size))

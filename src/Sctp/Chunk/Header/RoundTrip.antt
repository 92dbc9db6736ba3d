-- ===== src/Sctp/Chunk/Header/RoundTrip.antt =====
-- A chunk header is read back from what was written, whatever follows the chunk.
use webrtc_unreliable_client.Prelude.{
  ℕ, zero, suc, ◌+◌, ◌-◌, ◌≤◌, ◌<◌, ◌≡◌, ◌⊎◌, refl, ap, subst, ◌∙◌, List, [], ◌∷◌, ◌++◌, length,
  length-append, get_elem?, get_elem?-append, All, some, arith, ltb, if◌then◌else◌, inl, inr,
}
use mathlib.Core.List.{append_assoc}
use webrtc_unreliable_client.Prelude.Words.{IsU8, IsU16, add16}
use webrtc_unreliable_client.Wire.{Buf, ok}
use webrtc_unreliable_client.Wire.Laws.{
  get_u8-put_u8, get_u16-put_u16, length-put_u8, length-put_u16,
}
use webrtc_unreliable_client.Sctp.Chunk.Header.{ChunkHeader, check_padding, unmarshal, marshal}

-- What may follow a chunk's value: padding of zero bytes, or four bytes and more of other chunks.
abbrev pub IsTrailer : List ℕ → Type 0
IsTrailer bs = All (λ b. b ≡ 0) bs ⊎ (4 ≤ length bs)

-- The header's fields fit their places on the wire.
pub record IsWire (h : ChunkHeader) : Type 0 where
  pub typ : IsU8 h.typ
  pub flags : IsU8 h.flags
  pub fits : IsU16 (h.value_length + 4)

get_zero :
    (tail : List ℕ) (n : ℕ) → n < length tail → All (λ b. b ≡ 0) tail → get_elem? tail n ≡ some 0
get_zero [] n h z = absurd (omega arith)
get_zero (b ∷ tail) zero h (e, z) = ap some e
get_zero (b ∷ tail) (suc n) h (e, z) = get_zero tail n (omega arith) z

check_padding-ok :
    (front tail : List ℕ) (n : ℕ)
    → n ≤ length tail
    → All (λ b. b ≡ 0) tail
    → check_padding (front ++ tail) (length front) n ≡ ok tt
unfolding check_padding
check_padding-ok front tail zero h z = refl
check_padding-ok front tail (suc n) h z = ground (
  arith,
  get_elem?-append front tail n,
  get_zero tail n h z,
  check_padding-ok front tail n (omega arith) z,
)

module _ (w : Buf) where
  open w use {put_u8, put_u16, get_u8, get_u16}

  pub length-marshal : (h : ChunkHeader) → length (marshal w h) ≡ 4
  unfolding marshal
  length-marshal h =
      let len : ℕ = add16 h.value_length 4 in
      omega (
        arith,
        length-append (put_u8 h.typ) (put_u8 h.flags ++ put_u16 len),
        length-append (put_u8 h.flags) (put_u16 len),
        length-put_u8 w h.typ,
        length-put_u8 w h.flags,
        length-put_u16 w len,
      )

  -- The padding test, or the leave to skip it.
  trailer_passes :
      (front trailer : List ℕ)
      → IsTrailer trailer
      → (if ltb (length trailer) 4
          then check_padding (front ++ trailer) (length front) (length trailer)
          else ok tt)
        ≡ ok tt
  trailer_passes front trailer (inl z) =
      ground (arith, check_padding-ok front trailer (length trailer) (omega arith) z)
  trailer_passes front trailer (inr long) = ground arith

  -- A header that is read, with nothing to object to.
  unmarshal_reads :
      (raw r1 r2 r3 : List ℕ) (typ flags len : ℕ)
      → 4 ≤ len
      → len ≤ length raw
      → get_u8 raw ≡ some (typ, r1)
      → get_u8 r1 ≡ some (flags, r2)
      → get_u16 r2 ≡ some (len, r3)
      → (if ltb (length raw - len) 4
          then check_padding raw (4 + (len - 4)) (length raw - len)
          else ok tt)
        ≡ ok tt
      → unmarshal w raw ≡ ok (record { typ = typ; flags = flags; value_length = len - 4 })
  unfolding unmarshal
  unmarshal_reads raw r1 r2 r3 typ flags len lo hi e1 e2 e3 pad = ground (arith, e1, e2, e3, pad)

  marshal-split :
      (h : ChunkHeader) (body : List ℕ)
      → marshal w h ++ body
        ≡ put_u8 h.typ ++ (put_u8 h.flags ++ (put_u16 (add16 h.value_length 4) ++ body))
  unfolding marshal
  marshal-split h body =
      let len : List ℕ = put_u16 (add16 h.value_length 4) in
      append_assoc (put_u8 h.typ) (put_u8 h.flags ++ len) body
      ∙ ap (λ l. put_u8 h.typ ++ l) (append_assoc (put_u8 h.flags) len body)

  -- A header whose fields fit the wire is read back from its bytes, if its value follows, and
  -- behind that zero padding or four bytes and more of anything.
  pub unmarshal-marshal :
      (h : ChunkHeader) (value trailer : List ℕ)
      → IsWire h
      → length value ≡ h.value_length
      → IsTrailer trailer
      → unmarshal w (marshal w h ++ (value ++ trailer)) ≡ ok h
  unmarshal-marshal h value trailer f v t =
      let len : ℕ = add16 h.value_length 4 in
      let body : List ℕ = value ++ trailer in
      let front : List ℕ = marshal w h ++ value in
      let size : length front ≡ len =
        omega (arith, f.fits, v, length-append (marshal w h) value, length-marshal h) in
      let whole : length (front ++ trailer) ≡ len + length trailer =
        omega (arith, size, length-append front trailer) in
      let pad : 4 + (len - 4) ≡ length front = omega (arith, size, f.fits) in
      let after : length (front ++ trailer) - len ≡ length trailer = omega (arith, whole) in
      let value_length : len - 4 ≡ h.value_length = omega (arith, f.fits) in
      subst (λ raw. unmarshal w raw ≡ ok h) (append_assoc (marshal w h) value trailer)
        (unmarshal_reads (front ++ trailer) (put_u8 h.flags ++ (put_u16 len ++ body))
            (put_u16 len ++ body) body h.typ h.flags len (omega (arith, f.fits))
            (omega (arith, whole))
            (ap get_u8 (append_assoc (marshal w h) value trailer ∙ marshal-split h body)
              ∙ get_u8-put_u8 w h.typ (put_u8 h.flags ++ (put_u16 len ++ body)) f.typ)
            (get_u8-put_u8 w h.flags (put_u16 len ++ body) f.flags)
            (get_u16-put_u16 w len body (omega (arith, f.fits)))
            (rw (after, pad) (trailer_passes front trailer t))
          ∙ (λ i. ok (record h { value_length = value_length i })))

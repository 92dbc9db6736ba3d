-- ===== src/Sctp/Chunk/PayloadData/RoundTrip.antt =====
-- A DATA chunk is read back from what was written, and what a short one does.
use webrtc_unreliable_client.Prelude.{
  ℕ, ◌+◌, ◌≤◌, ◌<◌, ◌≡◌, ◌^◌, refl, ap, sym, ◌∙◌, Bool, false, List, ◌++◌, length, length-append,
  some, arith,
}
use mathlib.Core.List.{append_assoc}
use webrtc_unreliable_client.Prelude.Words.{IsU16, IsU32}
use webrtc_unreliable_client.Wire.{Buf, ok, panic}
use webrtc_unreliable_client.Wire.Laws.{
  get_u16-put_u16, get_u32-put_u32, length-put_u16, length-put_u32, slice_middle,
}
use webrtc_unreliable_client.Sctp.Chunk.Header
use webrtc_unreliable_client.Sctp.Chunk.Header.{ChunkHeader}
use webrtc_unreliable_client.Sctp.Chunk.Header.RoundTrip.{
  IsTrailer, IsWire, length-marshal, unmarshal-marshal as header_lem,
}
use webrtc_unreliable_client.Sctp.Chunk.PayloadData.{
  ChunkPayloadData, FlagRef, PayloadProtocolIdentifier, ppi_from, ppi_as_u32, dcep, string, binary,
  string_empty, binary_empty, unknown,
}
use webrtc_unreliable_client.Sctp.Chunk.PayloadData.Codec.{
  value_length, flags_of, header, has_flag, unmarshal, marshal_value, marshal,
}

-- The chunk's fields fit their places on the wire.
pub record IsWireData (c : ChunkPayloadData) : Type 0 where
  pub tsn : IsU32 c.tsn
  pub si : IsU16 c.stream_identifier
  pub ssn : IsU16 c.stream_sequence_number
  pub data_fits : length c.user_data + 16 < 2 ^ 16

ppi_from-ppi_as_u32 : (p : PayloadProtocolIdentifier) → ppi_from (ppi_as_u32 p) ≡ p
unfolding ppi_from ppi_as_u32
ppi_from-ppi_as_u32 dcep = refl
ppi_from-ppi_as_u32 string = refl
ppi_from-ppi_as_u32 binary = refl
ppi_from-ppi_as_u32 string_empty = refl
ppi_from-ppi_as_u32 binary_empty = refl
ppi_from-ppi_as_u32 unknown = refl

ppi_as_u32-IsU32 : (p : PayloadProtocolIdentifier) → IsU32 (ppi_as_u32 p)
unfolding ppi_as_u32
ppi_as_u32-IsU32 dcep = omega arith
ppi_as_u32-IsU32 p = omega arith

-- Each flag is read back from the flag byte, which is below 16.
abbrev FlagsBack : Bool → Bool → Bool → Bool → Type 0
FlagsBack e b u s =
    (has_flag (flags_of e b u s) 1 ≡ e)
    × (has_flag (flags_of e b u s) 2 ≡ b)
    × (has_flag (flags_of e b u s) 4 ≡ u)
    × (has_flag (flags_of e b u s) 8 ≡ s)
    × (flags_of e b u s < 16)

flags_back : (e b u s : Bool) → FlagsBack e b u s
unfolding has_flag flags_of
flags_back e b u s = ground arith

value_length_lem : (c : ChunkPayloadData) → value_length c ≡ 12 + length c.user_data
unfolding value_length
value_length_lem c = refl

-- What the receiver makes of a chunk: the sender's own notes are set anew.
abbrev pub received : ℕ → FlagRef → FlagRef → ChunkPayloadData → ChunkPayloadData
received now a b c = record c {
  acked = false;
  miss_indicator = 0;
  since = now;
  nsent = 0;
  abandoned = a;
  all_inflight = b;
  retransmit = false;
}

module _ (w : Buf) where
  open w use {put_u16, put_u32, get_u16, get_u32, slice}

  length-marshal_value : (c : ChunkPayloadData) → length (marshal_value w c) ≡ value_length c
  unfolding marshal_value value_length
  length-marshal_value c =
      let p : ℕ = ppi_as_u32 c.payload_type in
      omega (
        arith,
        length-append (put_u32 c.tsn) (
            put_u16 c.stream_identifier
            ++ (put_u16 c.stream_sequence_number ++ (put_u32 p ++ c.user_data))),
        length-append (put_u16 c.stream_identifier)
            (put_u16 c.stream_sequence_number ++ (put_u32 p ++ c.user_data)),
        length-append (put_u16 c.stream_sequence_number) (put_u32 p ++ c.user_data),
        length-append (put_u32 p) c.user_data,
        length-put_u32 w c.tsn,
        length-put_u16 w c.stream_identifier,
        length-put_u16 w c.stream_sequence_number,
        length-put_u32 w p,
      )

  -- A chunk that is read, with nothing to object to.
  unmarshal_reads :
      (now : ℕ) (a b : FlagRef) (raw reader r1 r2 r3 r4 user_data : List ℕ) (h : ChunkHeader)
      (tsn si ssn ppi : ℕ)
      → Header.unmarshal w raw ≡ ok h
      → h.typ ≡ 0
      → 12 ≤ length raw
      → slice raw 4 (4 + h.value_length) ≡ some reader
      → get_u32 reader ≡ some (tsn, r1)
      → get_u16 r1 ≡ some (si, r2)
      → get_u16 r2 ≡ some (ssn, r3)
      → get_u32 r3 ≡ some (ppi, r4)
      → slice raw 16 (4 + h.value_length) ≡ some user_data
      → unmarshal w now a b raw
        ≡ ok (record {
          unordered = has_flag h.flags 4;
          beginning_fragment = has_flag h.flags 2;
          ending_fragment = has_flag h.flags 1;
          immediate_sack = has_flag h.flags 8;
          tsn = tsn;
          stream_identifier = si;
          stream_sequence_number = ssn;
          payload_type = ppi_from ppi;
          user_data = user_data;
          acked = false;
          miss_indicator = 0;
          since = now;
          nsent = 0;
          abandoned = a;
          all_inflight = b;
          retransmit = false;
        })
  unfolding unmarshal
  unmarshal_reads now a b raw reader r1 r2 r3 r4 user_data h tsn si ssn ppi eh et el es e1 e2 e3 e4
        ed =
      ground (arith, eh, et, el, es, e1, e2, e3, e4, ed)

  -- The fixed fields, in front of the user data.
  fields : ChunkPayloadData → List ℕ
  fields c =
      put_u32 c.tsn
      ++ (put_u16 c.stream_identifier
          ++ (put_u16 c.stream_sequence_number ++ put_u32 (ppi_as_u32 c.payload_type)))

  marshal_value-fields : (c : ChunkPayloadData) → marshal_value w c ≡ fields c ++ c.user_data
  unfolding marshal_value fields
  marshal_value-fields c =
      let p : List ℕ = put_u32 (ppi_as_u32 c.payload_type) in
      let s : List ℕ = put_u16 c.stream_sequence_number in
      let i : List ℕ = put_u16 c.stream_identifier in
      sym (
        append_assoc (put_u32 c.tsn) (i ++ (s ++ p)) c.user_data
        ∙ ap (λ l. put_u32 c.tsn ++ l)
            (append_assoc i (s ++ p) c.user_data ∙ ap (λ l. i ++ l) (append_assoc s p c.user_data)))

  length-fields : (c : ChunkPayloadData) → length (fields c) ≡ 12
  length-fields c = omega (
    arith,
    ap length (marshal_value-fields c),
    length-append (fields c) c.user_data,
    length-marshal_value c,
    value_length_lem c,
  )

  fits : (c : ChunkPayloadData) → IsWireData c → (header c).value_length ≡ 12 + length c.user_data
  unfolding header value_length
  fits c f = omega (arith, f.data_fits)

  header-IsWire : (c : ChunkPayloadData) → IsWireData c → IsWire (header c)
  unfolding header value_length
  header-IsWire c f =
      let (_, _, _, _, small) =
        flags_back c.ending_fragment c.beginning_fragment c.unordered c.immediate_sack in
      record { typ = omega arith; flags = omega (arith, small); fits = omega (arith, f.data_fits) }

  -- The bytes of a chunk and what follows, in three parts.
  bytes : ChunkPayloadData → List ℕ → List ℕ
  bytes c trailer = Header.marshal w (header c) ++ (marshal_value w c ++ trailer)

  bytes-marshal :
      (c : ChunkPayloadData) (trailer : List ℕ) → marshal w c ++ trailer ≡ bytes c trailer
  unfolding marshal bytes
  bytes-marshal c trailer = append_assoc (Header.marshal w (header c)) (marshal_value w c) trailer

  bytes-value :
      (c : ChunkPayloadData) (trailer : List ℕ)
      → IsWireData c
      → slice (bytes c trailer) 4 (4 + (header c).value_length) ≡ some (marshal_value w c)
  unfolding bytes
  bytes-value c trailer f =
      slice_middle w (Header.marshal w (header c)) (marshal_value w c) trailer 4
        (4 + (header c).value_length) (length-marshal w (header c))
        (omega (arith, fits c f, length-marshal_value c, value_length_lem c))

  bytes-user_data :
      (c : ChunkPayloadData) (trailer : List ℕ)
      → IsWireData c
      → slice (bytes c trailer) 16 (4 + (header c).value_length) ≡ some c.user_data
  unfolding bytes
  bytes-user_data c trailer f =
      let hd : List ℕ = Header.marshal w (header c) in
      let cut : hd ++ (marshal_value w c ++ trailer)
          ≡ (hd ++ fields c) ++ (c.user_data ++ trailer) =
        ap (λ v. hd ++ (v ++ trailer)) (marshal_value-fields c)
        ∙ ap (λ v. hd ++ v) (append_assoc (fields c) c.user_data trailer)
        ∙ sym (append_assoc hd (fields c) (c.user_data ++ trailer)) in
      ap (λ v. slice v 16 (4 + (header c).value_length)) cut
      ∙ slice_middle w (hd ++ fields c) c.user_data trailer 16 (4 + (header c).value_length)
          (omega (arith, length-append hd (fields c), length-marshal w (header c), length-fields c))
          (omega (arith, fits c f))

  long : (c : ChunkPayloadData) (trailer : List ℕ) → 12 ≤ length (bytes c trailer)
  unfolding bytes
  long c trailer = omega (
    arith,
    length-append (Header.marshal w (header c)) (marshal_value w c ++ trailer),
    length-append (marshal_value w c) trailer,
    length-marshal_value c,
    value_length_lem c,
  )

  bytes-unmarshal :
      (now : ℕ) (a b : FlagRef) (c : ChunkPayloadData) (trailer : List ℕ)
      → IsWireData c
      → IsTrailer trailer
      → unmarshal w now a b (bytes c trailer) ≡ ok (received now a b c)
  unfolding marshal_value header bytes
  bytes-unmarshal now a b c trailer f t =
      let p : ℕ = ppi_as_u32 c.payload_type in
      let r3 : List ℕ = put_u32 p ++ c.user_data in
      let r2 : List ℕ = put_u16 c.stream_sequence_number ++ r3 in
      let r1 : List ℕ = put_u16 c.stream_identifier ++ r2 in
      let (e, b', u, s, _) =
        flags_back c.ending_fragment c.beginning_fragment c.unordered c.immediate_sack in
      unmarshal_reads now a b (bytes c trailer) (marshal_value w c) r1 r2 r3 c.user_data c.user_data
        (header c) c.tsn c.stream_identifier c.stream_sequence_number p
        (header_lem w (header c) (marshal_value w c) trailer (header-IsWire c f)
          (omega (arith, fits c f, length-marshal_value c, value_length_lem c)) t)
        refl (long c trailer) (bytes-value c trailer f) (get_u32-put_u32 w c.tsn r1 f.tsn)
        (get_u16-put_u16 w c.stream_identifier r2 f.si)
        (get_u16-put_u16 w c.stream_sequence_number r3 f.ssn)
        (get_u32-put_u32 w p c.user_data (ppi_as_u32-IsU32 c.payload_type))
        (bytes-user_data c trailer f)
      ∙ (λ i. ok (record (received now a b c) {
        unordered = u i;
        beginning_fragment = b' i;
        ending_fragment = e i;
        immediate_sack = s i;
        payload_type = ppi_from-ppi_as_u32 c.payload_type i;
      }))

  -- A DATA chunk whose fields fit the wire is read back from its bytes, if zero padding or four
  -- bytes and more of anything follow it: every field of the protocol as it was, the sender's own
  -- notes set anew.
  pub data_unmarshal-marshal :
      (now : ℕ) (a b : FlagRef) (c : ChunkPayloadData) (trailer : List ℕ)
      → IsWireData c
      → IsTrailer trailer
      → unmarshal w now a b (marshal w c ++ trailer) ≡ ok (received now a b c)
  data_unmarshal-marshal now a b c trailer f t =
      ap (unmarshal w now a b) (bytes-marshal c trailer) ∙ bytes-unmarshal now a b c trailer f t

  -- If the header of a chunk is read, it is of the DATA type, and it names a value shorter than 12
  -- bytes in a packet of 12 bytes or more, reading the chunk panics.
  pub unmarshal_panics :
      (now : ℕ) (a b : FlagRef) (raw : List ℕ) (h : ChunkHeader)
      → Header.unmarshal w raw ≡ ok h
      → h.typ ≡ 0
      → 12 ≤ length raw
      → h.value_length < 12
      → unmarshal w now a b raw ≡ panic
  unfolding unmarshal
  unmarshal_panics now a b raw h eh et el short =
      ground (arith, eh, et, w.slice_reversed raw 16 (4 + h.value_length))

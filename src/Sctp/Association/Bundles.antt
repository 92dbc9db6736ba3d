-- ===== src/Sctp/Association/Bundles.antt =====
-- The packets that `bundle_data_chunks_into_packets` of association_internal.rs makes.
use webrtc_unreliable_client.Prelude.{
  ℕ, ◌+◌, ◌*◌, ◌^◌, ◌<◌, ◌≤◌, ◌≡◌, refl, ap, ◌∙◌, false, List, [], ◌∷◌, ◌++◌, length, map, All,
  total, total-append, arith, ltb, if◌then◌else◌, Bool-cases, inl, inr,
}
use webrtc_unreliable_client.Prelude.Words.{add32}
use webrtc_unreliable_client.Sctp.Chunk.PayloadData.{ChunkPayloadData}
use webrtc_unreliable_client.Sctp.Sna.{get_padding_size}
use webrtc_unreliable_client.Sctp.Chunk.Header.{chunk_header_size}
use webrtc_unreliable_client.Sctp.Packet.{payload_data, marshalled_length, packet_size}
use webrtc_unreliable_client.Sctp.Chunk.PayloadData.Codec.{value_length}
use webrtc_unreliable_client.Sctp.Association.{
  Association, create_packet, common_header_size, data_chunk_header_size,
}
use webrtc_unreliable_client.Sctp.Association.Send.{
  bundle, bundle_data_chunks_into_packets, has_none,
}

-- The bytes of a packet of these chunks, without padding.
abbrev unpadded_size : List ChunkPayloadData → ℕ
unpadded_size cs =
    common_header_size
    + total (λ (c : ChunkPayloadData). data_chunk_header_size + length c.user_data) cs

abbrev pub flatten : List (List ChunkPayloadData) → List ChunkPayloadData
flatten [] = []
flatten (cs ∷ css) = cs ++ flatten css

++-assoc : (xs ys zs : List ChunkPayloadData) → (xs ++ ys) ++ zs ≡ xs ++ (ys ++ zs)
++-assoc [] ys zs = refl
++-assoc (x ∷ xs) ys zs = ap (λ l. x ∷ l) (++-assoc xs ys zs)

flatten_last :
    (cs : List ChunkPayloadData) → flatten (if has_none cs then [] else cs ∷ []) ≡ cs ++ []
unfolding has_none
flatten_last [] = refl
flatten_last (c ∷ cs) = refl

bundle-flatten :
    (a : Association) (held : List ChunkPayloadData) (n : ℕ) (cs : List ChunkPayloadData)
    → flatten (bundle a held n cs) ≡ held ++ cs
unfolding bundle
bundle-flatten a held n [] = flatten_last held
bundle-flatten a held n (c ∷ cs) = elim (Bool-cases (ltb a.mtu (add32 n (length c.user_data)))) [
  | inl e ↦ rw e (ap (λ l. held ++ l) (bundle-flatten a (c ∷ []) _ cs))
  | inr e ↦ rw e (bundle-flatten a (held ++ (c ∷ [])) _ cs ∙ ++-assoc held (c ∷ []) cs)
]

-- A chunk that fits into a packet of its own, and into a `u32`.
abbrev Fits : Association → ChunkPayloadData → Type 0
Fits a c = common_header_size + length c.user_data ≤ a.mtu

fits_last :
    (a : Association) (cs : List ChunkPayloadData)
    → unpadded_size cs ≤ a.mtu + data_chunk_header_size
    → All
        (λ p. unpadded_size p ≤ a.mtu + data_chunk_header_size)
        (if has_none cs then [] else cs ∷ [])
unfolding has_none
fits_last a [] h = tt
fits_last a (c ∷ cs) h = (h, tt)

no_room : (m n k : ℕ) → ltb m (add32 n k) ≡ false → n + k < 2 ^ 32 → n + k ≤ m
no_room m n k h l = ground arith

unpadded_size-snoc :
    (cs : List ChunkPayloadData) (c : ChunkPayloadData)
    → unpadded_size (cs ++ (c ∷ []))
      ≡ unpadded_size cs + data_chunk_header_size + length c.user_data
unpadded_size-snoc cs c = omega (
  arith,
  total-append (λ (x : ChunkPayloadData). data_chunk_header_size + length x.user_data) cs (c ∷ []),
)

bundle-Fits :
    (a : Association) (held : List ChunkPayloadData) (n : ℕ) (cs : List ChunkPayloadData)
    → a.mtu + 2 ^ 5 < 2 ^ 31
    → n ≡ unpadded_size held
    → unpadded_size held ≤ a.mtu + data_chunk_header_size
    → All (Fits a) cs
    → All (λ p. unpadded_size p ≤ a.mtu + data_chunk_header_size) (bundle a held n cs)
unfolding bundle
bundle-Fits a held n [] m e h f = fits_last a held h
bundle-Fits a held n (c ∷ cs) m e h (fc, f) =
    elim (Bool-cases (ltb a.mtu (add32 n (length c.user_data)))) [
      | inl b ↦ rw b (h, bundle-Fits a (c ∷ []) _ cs m (omega arith) (omega arith) f)
      | inr b ↦
          let room : n + length c.user_data ≤ a.mtu =
            no_room a.mtu n (length c.user_data) b (omega arith) in
          rw b (
            bundle-Fits a (held ++ (c ∷ [])) _ cs m (omega (arith, unpadded_size-snoc held c))
              (omega (arith, unpadded_size-snoc held c)) f)
    ]

marshalled_length-padded :
    (n : ℕ) (cs : List ChunkPayloadData)
    → marshalled_length n cs
      ≤ n
        + total (λ (c : ChunkPayloadData). data_chunk_header_size + length c.user_data) cs
        + 3 * length cs
unfolding marshalled_length get_padding_size value_length
marshalled_length-padded n [] = omega arith
marshalled_length-padded n (c ∷ cs) =
    let raw_len : ℕ = n + (chunk_header_size + value_length c) in
    omega (arith, marshalled_length-padded (raw_len + get_padding_size raw_len) cs)

-- A packet whose bytes without padding stay within `m` has at most 3 bytes of padding to a chunk.
pad :
    (m : ℕ) (css : List (List ChunkPayloadData))
    → All (λ cs. unpadded_size cs ≤ m) css
    → All (λ cs. packet_size cs ≤ m + 3 * length cs) css
unfolding packet_size
pad m [] h = tt
pad m (cs ∷ css) (h, hs) = (omega (arith, h, marshalled_length-padded 0 cs), pad m css hs)

-- The chunks of the packets, in order, are the chunks that were given, and no packet takes more bytes
-- on the wire than the MTU, one chunk header, and 3 bytes of padding for each of its chunks, if the
-- MTU is below 2 ^ 31 - 32 and every chunk's data fits behind the common header.
pub bundle_data_chunks_into_packets_lem :
    (a : Association) (chunks : List ChunkPayloadData)
    → a.mtu + 2 ^ 5 < 2 ^ 31
    → All (λ (c : ChunkPayloadData). common_header_size + length c.user_data ≤ a.mtu) chunks
    → (css : List (List ChunkPayloadData)) × (bundle_data_chunks_into_packets a chunks
        ≡ map (λ cs. create_packet a (map payload_data cs)) css)
      × (flatten css ≡ chunks)
      × All (λ cs. packet_size cs ≤ a.mtu + data_chunk_header_size + 3 * length cs) css
unfolding bundle_data_chunks_into_packets
bundle_data_chunks_into_packets_lem a chunks m f = (
  bundle a [] common_header_size chunks,
  refl,
  bundle-flatten a [] common_header_size chunks,
  pad (a.mtu + data_chunk_header_size) (bundle a [] common_header_size chunks)
      (bundle-Fits a [] common_header_size chunks m refl (omega arith) f),
)

-- Two chunks that fit into the MTU with the header of the first alone go into one packet, whether or
-- not the header of the second fits too.
pub bundle_two :
    (a : Association) (c d : ChunkPayloadData)
    → a.mtu < 2 ^ 31
    → common_header_size + data_chunk_header_size + length c.user_data + length d.user_data ≤ a.mtu
    → bundle_data_chunks_into_packets a (c ∷ d ∷ [])
      ≡ create_packet a (payload_data c ∷ payload_data d ∷ []) ∷ []
unfolding bundle_data_chunks_into_packets bundle has_none
bundle_two a c d m h =
    let first : ltb a.mtu (add32 common_header_size (length c.user_data)) ≡ false = ground arith in
    let second : ltb a.mtu (
          add32 (add32 common_header_size (data_chunk_header_size + length c.user_data))
            (length d.user_data))
        ≡ false =
      ground arith in
    rw (first, second) refl

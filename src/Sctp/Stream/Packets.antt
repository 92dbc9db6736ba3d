-- ===== src/Sctp/Stream/Packets.antt =====
-- What `packetize` of stream/mod.rs makes of a message.
use webrtc_unreliable_client.Prelude.{
  ℕ, zero, suc, ◌+◌, ◌-◌, ◌<◌, ◌≤◌, ◌≡◌, refl, sym, Bool, true, false, not, List, [], ◌∷◌, ◌++◌,
  length, All, ◌==◌, min, take, drop, take-append-drop, length-take, length-drop, arith,
  if◌then◌else◌, Bool-cases, inl, inr,
}
use webrtc_unreliable_client.Sctp.Shared.{Shared, new_flag}
use webrtc_unreliable_client.Sctp.Chunk.PayloadData.{
  ChunkPayloadData, PayloadProtocolIdentifier, ppi_as_u32, dcep, FlagRef,
}
use webrtc_unreliable_client.Sctp.Queue.Pending.Framing.{AreMessages, ends_inside}
use webrtc_unreliable_client.Sctp.Stream.{Stream}
use webrtc_unreliable_client.Sctp.Stream.Send.{fragments, packetize}

-- The bytes of the fragments, one after the other.
abbrev pub joined : List ChunkPayloadData → List ℕ
joined [] = []
joined (c ∷ cs) = c.user_data ++ joined cs

drop-drop : (i k : ℕ) (xs : List ℕ) → drop (i + k) xs ≡ drop k (drop i xs)
drop-drop zero k xs = let e : zero + k ≡ k = omega arith in rw e refl
drop-drop (suc i) zero [] = let e : suc i + zero ≡ suc i = omega arith in rw e refl
drop-drop (suc i) (suc k) [] = let e : suc i + suc k ≡ suc (i + suc k) = omega arith in rw e refl
drop-drop (suc i) k (x ∷ xs) =
    let e : suc i + k ≡ suc (i + k) = omega arith in rw e (drop-drop i k xs)

-- A fragment of a message: of its stream and kind, with at most a payload of data, and some.
pub record IsFragment (s : Stream) (ppi : PayloadProtocolIdentifier) (c : ChunkPayloadData)
    : Type 0 where
  pub stream : c.stream_identifier ≡ s.stream_identifier
  pub ssn : c.stream_sequence_number ≡ s.sequence_number
  pub kind : c.payload_type ≡ ppi
  pub some_data : 0 < length c.user_data
  pub fits : length c.user_data ≤ s.max_payload_size

abbrev is_nil : List ChunkPayloadData → Bool
is_nil [] = true
is_nil (c ∷ cs) = false

-- `cs` are the fragments of one message of the kind `u`, or what is left of it where `first` is false:
-- its first fragment alone is a beginning one, and its last one alone is an ending one.
abbrev pub IsWhole : Bool → Bool → List ChunkPayloadData → Type 0
IsWhole u first [] = Unit {0}
IsWhole u first (c ∷ cs) =
    (c.unordered ≡ u)
    × (c.beginning_fragment ≡ first)
    × (c.ending_fragment ≡ is_nil cs)
    × IsWhole u false cs

drop_all : (i : ℕ) (xs : List ℕ) → length xs ≤ i → drop i xs ≡ []
drop_all zero [] h = refl
drop_all zero (x ∷ xs) h = absurd (omega arith)
drop_all (suc i) [] h = refl
drop_all (suc i) (x ∷ xs) h = drop_all i xs (omega arith)

module _ (s : Stream) (ppi : PayloadProtocolIdentifier) (now : ℕ) (a b : FlagRef) (raw : List ℕ)
    (h : 0 < s.max_payload_size) where
  unfoldable parts : ℕ → ℕ → ℕ → List ChunkPayloadData
  unfolding fragments
  parts n i r = fragments s ppi now a b raw n i r

  joined-fragments : (n i r : ℕ) → r ≤ n → i + r ≡ length raw → joined (parts n i r) ≡ drop i raw
  unfolding parts
  joined-fragments zero i r l e = sym (drop_all i raw (omega arith))
  joined-fragments (suc n) i r l e =
      let k : ℕ = min s.max_payload_size r in
      elim (Bool-cases (r == 0)) [
        | inl z ↦ rw z (sym (drop_all i raw (ground arith)))
        | inr z ↦
            rw
              (
                z,
                joined-fragments n (i + k) (r - k) (ground arith) (omega arith),
                drop-drop i k raw,
              )
              (take-append-drop k (drop i raw))
      ]

  fragments-IsFragment :
      (n i r : ℕ) → r ≤ n → i + r ≡ length raw → All (IsFragment s ppi) (parts n i r)
  unfolding parts
  fragments-IsFragment zero i r l e = tt
  fragments-IsFragment (suc n) i r l e =
      let k : ℕ = min s.max_payload_size r in
      let size : length (take k (drop i raw)) ≡ k =
        omega (arith, length-take k (drop i raw), length-drop i raw) in
      elim (Bool-cases (r == 0)) [
        | inl z ↦ rw z tt
        | inr z ↦ rw z (
          record {
            stream = refl;
            ssn = refl;
            kind = refl;
            some_data = ground arith;
            fits = omega arith;
          },
          fragments-IsFragment n (i + k) (r - k) (ground arith) (omega arith),
        )
      ]

  abbrev unordered : Bool
  unordered = not (ppi_as_u32 ppi == ppi_as_u32 dcep)

  is_nil-parts : (n i r : ℕ) → r ≤ n → is_nil (parts n i r) ≡ (r == 0)
  unfolding parts
  is_nil-parts zero i r l = ground arith
  is_nil-parts (suc n) i r l = ground arith

  fragments-IsWhole :
      (n i r : ℕ) (first : Bool)
      → r ≤ n
      → ((r == 0) ≡ false → first ≡ (i == 0))
      → IsWhole unordered first (parts n i r)
  unfolding parts
  fragments-IsWhole zero i r first l f = tt
  fragments-IsWhole (suc n) i r first l f = elim (Bool-cases (r == 0)) [
    | inl z ↦ rw z tt
    | inr z ↦
        let k : ℕ = min s.max_payload_size r in
        let le : r - k ≤ n = ground arith in
        rw z (
          refl,
          sym (f z),
          sym (is_nil-parts n (i + k) (r - k) le),
          fragments-IsWhole n (i + k) (r - k) false le (λ e. ground arith),
        )
  ]

  fragments-AreMessages :
      (n i r : ℕ) (inside : Bool)
      → r ≤ n
      → ((r == 0) ≡ false → inside ≡ not (i == 0))
      → AreMessages unordered inside (parts n i r)
        × (ends_inside inside (parts n i r) ≡ (if r == 0 then inside else false))
  unfolding parts
  fragments-AreMessages zero i r inside l f = (tt, ground arith)
  fragments-AreMessages (suc n) i r inside l f = elim (Bool-cases (r == 0)) [
    | inl z ↦ rw z (tt, refl)
    | inr z ↦
        let k : ℕ = min s.max_payload_size r in
        let (rest, ends) =
          fragments-AreMessages n (i + k) (r - k) (not (r - k == 0)) (ground arith)
            (λ e. ground arith) in
        rw z ((refl, ground (arith, f z), rest), ground (arith, ends))
  ]

-- If the payload size is positive, the fragments of a message hold its bytes in order: a part with
-- data and at most the payload size each, all with the stream's identifier and the sequence number
-- before the message. They are one whole message: the first fragment and no other is a beginning
-- one, the last and no other is an ending one, and so they are a row of messages that ends.
pub packetize-joined :
    (s : Stream) (h : Shared) (now : ℕ) (raw : List ℕ) (ppi : PayloadProtocolIdentifier)
    → 0 < s.max_payload_size
    → let (s', h', chunks) = packetize s h now raw ppi in
      (joined chunks ≡ raw)
      × All (IsFragment s ppi) chunks
      × IsWhole (not (ppi_as_u32 ppi == ppi_as_u32 dcep)) true chunks
      × AreMessages (not (ppi_as_u32 ppi == ppi_as_u32 dcep)) false chunks
      × (ends_inside false chunks ≡ false)
unfolding packetize new_flag parts
packetize-joined s h now raw ppi p =
    let (a, b) : ℕ × ℕ = (h.next_flag, h.next_flag + 1) in
    let n : ℕ = length raw in
    let (m, ends) =
      fragments-AreMessages s ppi now a b raw p n 0 n false (omega arith) (λ e. refl) in
    (
      joined-fragments s ppi now a b raw p n 0 n (omega arith) (omega arith),
      fragments-IsFragment s ppi now a b raw p n 0 n (omega arith) (omega arith),
      fragments-IsWhole s ppi now a b raw p n 0 n true (omega arith) (λ e. refl),
      m,
      ground (arith, ends),
    )

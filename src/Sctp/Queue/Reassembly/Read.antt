-- ===== src/Sctp/Queue/Reassembly/Read.antt =====
-- What `read` of reassembly_queue.rs delivers.
use webrtc_unreliable_client.Prelude.{
  ℕ, ◌+◌, ◌-◌, ◌≤◌, ◌<◌, ◌≡◌, ◌≢◌, ◌⊎◌, refl, ap, ◌∙◌, Bool, true, false, List, [], ◌∷◌, ◌++◌, none,
  some, length, drop, arith, Bool-cases, inl, inr, if◌then◌else◌, ◌==◌, leb,
}
use webrtc_unreliable_client.Prelude.Words.{add16}
use webrtc_unreliable_client.Sctp.Sna.{sna16lte}
use webrtc_unreliable_client.Sctp.Sna.Order.{sna16gt-not_lte}
use webrtc_unreliable_client.Sctp.Queue.ChunkSet.{ChunkSet, is_complete}
use webrtc_unreliable_client.Sctp.Queue.Reassembly.{
  ReassemblyQueue, take_set, copy_chunks, report, read_set, read, is_readable, ok, err, try_again,
  short_buffer, ReadResult,
}
use webrtc_unreliable_client.Sctp.Queue.Reassembly.Bytes.{data_bytes, stored, IsExact}
use webrtc_unreliable_client.Sctp.Queue.Reassembly.Copy.{
  data_of, without, Fails, copy_chunks-fits, copy_chunks_short,
}

zero_add : (n : ℕ) → 0 + n ≡ n
zero_add n = omega arith

-- If a set is taken whose data fit the buffer, `read` writes all its data to the front of the
-- buffer in order, leaves the bytes behind them, reports their number, and takes it off the count.
pub read_delivers :
    (r r' : ReassemblyQueue) (s : ChunkSet) (buf : List ℕ)
    → take_set r ≡ (r', some s)
    → data_bytes s.chunks ≤ length buf
    → read r buf ≡ (
      record r' { n_bytes = r'.n_bytes - data_bytes s.chunks },
      data_of s.chunks ++ drop (data_bytes s.chunks) buf,
      ok (data_bytes s.chunks) s.ppi,
    )
unfolding read without
read_delivers r r' s buf e h =
    ap (λ t. read_set t buf) e
    ∙ ap (λ t. report s.ppi t) (copy_chunks-fits s.chunks r' [] buf h)
    ∙ (λ i. (
      record r' { n_bytes = r'.n_bytes - data_bytes s.chunks },
      data_of s.chunks ++ drop (data_bytes s.chunks) buf,
      ok (zero_add (data_bytes s.chunks) i) s.ppi,
    ))

report-Fails :
    (r : ReassemblyQueue) (s : ChunkSet) (out : ReassemblyQueue × ℕ × Bool × List ℕ)
    → Fails r s.chunks out
    → ((report s.ppi out).2 ≡ err short_buffer)
      × ((report s.ppi out).0 ≡ record r { n_bytes = r.n_bytes - data_bytes s.chunks })
unfolding report Fails without
report-Fails r s (r', n, failed, buf) (q, f) = (rw f refl, q)

-- If a set is taken whose data do not fit the buffer, `read` returns the error of a short buffer;
-- the set has left the queue, and its bytes the count.
pub read_short :
    (r r' : ReassemblyQueue) (s : ChunkSet) (buf : List ℕ)
    → take_set r ≡ (r', some s)
    → length buf < data_bytes s.chunks
    → ((read r buf).2 ≡ err short_buffer)
      × ((read r buf).0 ≡ record r' { n_bytes = r'.n_bytes - data_bytes s.chunks })
unfolding read
read_short r r' s buf e h =
    rw (e, read)
      (report-Fails r' s (copy_chunks r' 0 false buf s.chunks)
        (copy_chunks_short s.chunks r' [] buf h))

-- The queue is readable and a set is taken, or it is not and nothing happens.
abbrev TakesIf : ReassemblyQueue → Type 0
TakesIf r =
    (is_readable r ≡ false) × (take_set r ≡ (r, none))
    ⊎ ((r' : ReassemblyQueue) × (s : ChunkSet) × (is_readable r ≡ true)
        × (take_set r ≡ (r', some s)))

take_set-TakesIf : (r : ReassemblyQueue) → TakesIf r
take_set-TakesIf r = go r.unordered r.ordered refl refl
  where
    go : (u o : List ChunkSet) → r.unordered ≡ u → r.ordered ≡ o → TakesIf r
    go (s ∷ u) o eu eo = inr (
      record r { unordered = u },
      s,
      unfold is_readable in ground (arith, eu),
      unfold take_set in ground (arith, eu),
    )
    go [] [] eu eo =
        inl
          (unfold is_readable in ground (arith, eu, eo), unfold take_set in ground (arith, eu, eo))
    go [] (s ∷ o) eu eo = elim (Bool-cases (is_complete s)) [
      | inr partial ↦
          inl (
            unfold is_readable in ground (arith, eu, eo),
            unfold take_set in ground (arith, eu, eo),
          )
      | inl whole ↦ elim (Bool-cases (sna16lte s.ssn r.next_ssn)) [
        | inr later ↦ inl (
          unfold is_readable in ground (arith, eu, eo),
          unfold take_set in ground (arith, eu, eo, sna16gt-not_lte s.ssn r.next_ssn),
        )
        | inl due ↦ inr (
          record r {
            next_ssn = if s.ssn == r.next_ssn then add16 r.next_ssn 1 else r.next_ssn;
            ordered = o;
          },
          s,
          unfold is_readable in ground (arith, eu, eo),
          unfold take_set in ground (arith, eu, eo, sna16gt-not_lte s.ssn r.next_ssn),
        )
      ]
    ]

report_ne_try_again :
    (s : ChunkSet) (out : ReassemblyQueue × ℕ × Bool × List ℕ)
    → (report s.ppi out).2 ≢ err try_again
unfolding report
report_ne_try_again s (r, n, true, buf) = λ e. cc
report_ne_try_again s (r, n, false, buf) = λ e. cc

-- What a call of `read` may do, by `is_readable`.
abbrev pub ReadsIf :
    Bool → ReassemblyQueue → List ℕ → ReassemblyQueue × List ℕ × ReadResult → Type 0
ReadsIf true r buf out = out.2 ≢ err try_again
ReadsIf false r buf out = out ≡ (r, buf, err try_again)

-- `read` answers `try_again` exactly if the queue is not readable, and then it changes neither the
-- queue nor the buffer.
pub read-ReadsIf : (r : ReassemblyQueue) (buf : List ℕ) → ReadsIf (is_readable r) r buf (read r buf)
unfolding read
read-ReadsIf r buf = elim (take_set-TakesIf r) [
  | inl (no_set, e) ↦ rw no_set (rw (e, read) refl)
  | inr (r', s, set, e) ↦
      rw set (rw (e, read) (report_ne_try_again s (copy_chunks r' 0 false buf s.chunks)))
]

take_set-stored :
    (r r' : ReassemblyQueue) (s : ChunkSet)
    → take_set r ≡ (r', some s)
    → (stored r ≡ stored r' + data_bytes s.chunks) × (r'.n_bytes ≡ r.n_bytes)
unfolding take_set
take_set-stored r r' s e = ground arith

-- `read` keeps an exact byte count exact, whether it delivers, fails or finds nothing.
pub read-IsExact : (r : ReassemblyQueue) (buf : List ℕ) → IsExact r → IsExact (read r buf).0
unfolding read
read-IsExact r buf x = elim (take_set-TakesIf r) [
  | inl (no_set, e) ↦ rw (e, read) x
  | inr (r', s, set, e) ↦ elim (Bool-cases (leb (data_bytes s.chunks) (length buf))) [
    | inl fits ↦ ground (arith, read_delivers r r' s buf e, take_set-stored r r' s e)
    | inr short ↦ ground (arith, read_short r r' s buf e, take_set-stored r r' s e)
  ]
]

-- ===== src/Sctp/Queue/Reassembly/Copy.antt =====
-- The loop of `read` in reassembly_queue.rs that copies the fragments of a set to the buffer.
use mathlib.Core.List.{append-nil, append_assoc}
use webrtc_unreliable_client.Prelude.{
  ℕ, zero, suc, ◌+◌, ◌-◌, ◌≤◌, ◌<◌, ◌≡◌, refl, ap, sym, ◌∙◌, Bool, true, false, List, [], ◌∷◌, ◌++◌,
  length, length-append, take, drop, length-drop, take-length, drop-length, take_all, arith,
  Bool-cases, inl, inr, min, ltb,
}
use webrtc_unreliable_client.Sctp.Chunk.PayloadData.{ChunkPayloadData}
use webrtc_unreliable_client.Sctp.Queue.Reassembly.{
  ReassemblyQueue, subtract_num_bytes, write_at, copy_chunks,
}
use webrtc_unreliable_client.Sctp.Queue.Reassembly.Bytes.{data_bytes}

-- The data of a row of fragments, one after the other.
abbrev pub data_of : List ChunkPayloadData → List ℕ
data_of [] = []
data_of (c ∷ cs) = c.user_data ++ data_of cs

length-data_of : (cs : List ChunkPayloadData) → length (data_of cs) ≡ data_bytes cs
length-data_of [] = refl
length-data_of (c ∷ cs) = omega (arith, length-append c.user_data (data_of cs), length-data_of cs)

drop-nil : (n : ℕ) → drop {A = ℕ} n [] ≡ []
drop-nil zero = refl
drop-nil (suc n) = refl

drop-drop : (m n : ℕ) (xs : List ℕ) → drop n (drop m xs) ≡ drop (m + n) xs
drop-drop zero n xs = ap (λ k. drop k xs) (omega arith)
drop-drop (suc m) n [] = drop-nil n ∙ sym (drop-nil (suc m + n))
drop-drop (suc m) n (x ∷ xs) =
    let e : suc m + n ≡ suc (m + n) = omega arith in rw e (drop-drop m n xs)

-- A write behind `done`.
write_at-append :
    (done rest bytes : List ℕ)
    → write_at (done ++ rest) (length done) bytes ≡ (done ++ bytes) ++ drop (length bytes) rest
unfolding write_at
write_at-append done rest bytes =
    rw
      (
        take-length done rest,
        ← drop-drop (length done) (length bytes) (done ++ rest),
        drop-length done rest,
      )
      (sym (append_assoc done bytes (drop (length bytes) rest)))

unfoldable pub without : ReassemblyQueue → ℕ → ReassemblyQueue
without r n = record r { n_bytes = r.n_bytes - n }

pub subtract-without : (r : ReassemblyQueue) (n : ℕ) → subtract_num_bytes r n ≡ without r n
unfolding subtract_num_bytes without
subtract-without r n = ground arith

pub without-without : (r : ReassemblyQueue) (m n : ℕ) → without (without r m) n ≡ without r (m + n)
unfolding without
without-without r m n =
    let e : r.n_bytes - m - n ≡ r.n_bytes - (m + n) = omega arith in λ i. record r { n_bytes = e i }

-- One round of the loop, with and without room for the fragment.
module _ (c : ChunkPayloadData) (cs : List ChunkPayloadData) (r : ReassemblyQueue)
    (done rest : List ℕ) where
  copy_chunks-fits_step :
      length c.user_data ≤ length rest
      → copy_chunks r (length done) false (done ++ rest) (c ∷ cs)
        ≡ copy_chunks
            (without r (length c.user_data))
            (length (done ++ c.user_data))
            false
            ((done ++ c.user_data) ++ drop (length c.user_data) rest)
            cs
  unfolding copy_chunks
  copy_chunks-fits_step h =
      let n : ℕ = length c.user_data in
      let room : min n (length (done ++ rest) - length done) ≡ n =
        omega (arith, length-append done rest) in
      let all : take n c.user_data ≡ c.user_data = take_all n c.user_data (omega arith) in
      let step : ltb n n ≡ false = ground arith in
      rw room (
        rw all (
          rw step (
            rw (write_at-append done rest c.user_data)
              (rw (subtract-without r n) (rw (length-append done c.user_data) refl)))))

  copy_chunks-short_step :
      length rest < length c.user_data
      → copy_chunks r (length done) false (done ++ rest) (c ∷ cs)
        ≡ copy_chunks
            (without r (length c.user_data))
            (length done + length rest)
            true
            (write_at (done ++ rest) (length done) (take (length rest) c.user_data))
            cs
  unfolding copy_chunks
  copy_chunks-short_step h =
      let n : ℕ = length c.user_data in
      let room : min n (length (done ++ rest) - length done) ≡ length rest =
        omega (arith, length-append done rest) in
      let step : ltb (length rest) n ≡ true = ground arith in
      rw room (rw step (rw (subtract-without r n) refl))

-- Where the buffer has room, the loop writes all the data behind what is there.
pub copy_chunks-fits :
    (cs : List ChunkPayloadData) (r : ReassemblyQueue) (done rest : List ℕ)
    → data_bytes cs ≤ length rest
    → copy_chunks r (length done) false (done ++ rest) cs ≡ (
      without r (data_bytes cs),
      length done + data_bytes cs,
      false,
      (done ++ data_of cs) ++ drop (data_bytes cs) rest,
    )
copy_chunks-fits [] r done rest h = unfold copy_chunks without in ground (arith, append-nil done)
copy_chunks-fits (c ∷ cs) r done rest h =
    let n : ℕ = length c.user_data in
    let total_n : ℕ = data_bytes cs in
    let e : length (done ++ c.user_data) + total_n ≡ length done + (n + total_n) =
      omega (arith, length-append done c.user_data) in
    let front : (done ++ c.user_data) ++ data_of cs ≡ done ++ (c.user_data ++ data_of cs) =
      append_assoc done c.user_data (data_of cs) in
    copy_chunks-fits_step c cs r done rest (omega arith)
    ∙ copy_chunks-fits cs (without r n) (done ++ c.user_data) (drop n rest)
        (omega (arith, length-drop n rest))
    ∙ (λ i. (without-without r n total_n i, e i, false, front i ++ drop-drop n total_n rest i))

copy_chunks_failed :
    (cs : List ChunkPayloadData) (r : ReassemblyQueue) (n_written : ℕ) (buf : List ℕ)
    → copy_chunks r n_written true buf cs ≡ (without r (data_bytes cs), n_written, true, buf)
unfolding copy_chunks
copy_chunks_failed [] r n_written buf = unfold without in ground arith
copy_chunks_failed (c ∷ cs) r n_written buf = rw (subtract-without r (length c.user_data)) (
    copy_chunks_failed cs (without r (length c.user_data)) n_written buf
    ∙ (λ i. (without-without r (length c.user_data) (data_bytes cs) i, n_written, true, buf)))

-- Where it has not, the loop fails, and the bytes leave the count all the same.
unfoldable pub Fails :
    ReassemblyQueue → List ChunkPayloadData → ReassemblyQueue × ℕ × Bool × List ℕ → Type 0
Fails r cs out = (out.0 ≡ without r (data_bytes cs)) × (out.2 ≡ true)

pub copy_chunks_short :
    (cs : List ChunkPayloadData) (r : ReassemblyQueue) (done rest : List ℕ)
    → length rest < data_bytes cs
    → Fails r cs (copy_chunks r (length done) false (done ++ rest) cs)
unfolding Fails
copy_chunks_short [] r done rest h = absurd (omega arith)
copy_chunks_short (c ∷ cs) r done rest h =
    let n : ℕ = length c.user_data in
    elim (Bool-cases (ltb (length rest) n)) [
      | inl short ↦ rw (copy_chunks-short_step c cs r done rest (ground arith)) (
          rw
            (copy_chunks_failed cs (without r n) (length done + length rest)
              (write_at (done ++ rest) (length done) (take (length rest) c.user_data)))
            (without-without r n (data_bytes cs), refl))
      | inr long ↦
          let (q, f) =
            copy_chunks_short cs (without r n) (done ++ c.user_data) (drop n rest)
              (ground (arith, length-drop n rest)) in
          rw (copy_chunks-fits_step c cs r done rest (ground arith))
            (q ∙ without-without r n (data_bytes cs), f)
    ]

-- ===== src/Sctp/Queue/Payload/Pops.antt =====
-- What a pop of payload_queue.rs leaves.
use webrtc_unreliable_client.Prelude.{
  ℕ, ◌+◌, ◌≤◌, ◌≡◌, refl, true, List, [], ◌∷◌, none, some, length, arith, false, ◌==◌,
}
use webrtc_unreliable_client.Prelude.Map.{is_some, lookup-remove_some, lookup-remove_ne}
use webrtc_unreliable_client.Sctp.Chunk.PayloadData.{ChunkPayloadData}
use webrtc_unreliable_client.Sctp.Queue.Payload.{PayloadQueue, get, pop, pop_front}

-- A chunk that a pop takes shortens `sorted`, and what is left was there before.
pop_front-shorter :
    (q : PayloadQueue) (tsn : ℕ) (rest : List ℕ)
    → length (pop_front q tsn rest).0.sorted ≡ length rest
unfolding pop_front
pop_front-shorter q tsn rest = ground arith

pop_front-get :
    (q : PayloadQueue) (tsn t : ℕ) (rest : List ℕ)
    → is_some (get (pop_front q tsn rest).0 t) ≡ true
    → is_some (get q t) ≡ true
unfolding pop_front get
pop_front-get q tsn t rest h = ground (arith, lookup-remove_some t tsn q.chunk_map)

pub pop-shorter :
    (q : PayloadQueue) (tsn : ℕ) (c : ChunkPayloadData)
    → (pop q tsn).1 ≡ some c
    → length (pop q tsn).0.sorted + 1 ≡ length q.sorted
unfolding pop
pop-shorter q tsn c e = go q.sorted refl
  where
    go : (l : List ℕ) → q.sorted ≡ l → length (pop q tsn).0.sorted + 1 ≡ length q.sorted
    go [] h = ground (arith, h, e)
    go (t ∷ rest) h = ground (arith, h, e, pop_front-shorter q tsn rest)

pub pop-get_before :
    (q : PayloadQueue) (tsn t : ℕ) → is_some (get (pop q tsn).0 t) ≡ true → is_some (get q t) ≡ true
unfolding pop
pop-get_before q tsn t e = go q.sorted refl
  where
    go : (l : List ℕ) → q.sorted ≡ l → is_some (get q t) ≡ true
    go [] h = ground (arith, h, e)
    go (x ∷ rest) h = ground (arith, h, e, pop_front-get q tsn t rest)

-- A pop leaves the chunks of all other TSNs.
pop_front-get_other :
    (q : PayloadQueue) (tsn t : ℕ) (rest : List ℕ)
    → (tsn == t) ≡ false
    → get (pop_front q tsn rest).0 t ≡ get q t
unfolding pop_front get
pop_front-get_other q tsn t rest h = ground (arith, lookup-remove_ne t tsn q.chunk_map h)

pub pop-get_other :
    (q : PayloadQueue) (tsn t : ℕ) → (tsn == t) ≡ false → get (pop q tsn).0 t ≡ get q t
unfolding pop
pop-get_other q tsn t h = go q.sorted refl
  where
    go : (l : List ℕ) → q.sorted ≡ l → get (pop q tsn).0 t ≡ get q t
    go [] e = ground (arith, e)
    go (x ∷ rest) e = ground (arith, e, pop_front-get_other q tsn t rest h)

pub pop_empty :
    (q : PayloadQueue) (tsn : ℕ)
    → length q.sorted ≤ 0
    → ((pop q tsn).1 ≡ none) × ((pop q tsn).0 ≡ q)
unfolding pop
pop_empty q tsn h = go q.sorted refl
  where
    go : (l : List ℕ) → q.sorted ≡ l → ((pop q tsn).1 ≡ none) × ((pop q tsn).0 ≡ q)
    go [] e = simp (e, pop) (refl, refl)
    go (t ∷ rest) e = absurd (ground (arith, e, h))

-- ===== src/Sctp/Queue/Payload/Order.antt =====
-- The order of payload_queue.rs: `sorted` runs upwards in serial order from the cumulative TSN.
use webrtc_unreliable_client.Prelude.{
  ℕ, ◌-◌, ◌^◌, ◌<◌, ◌≤◌, ◌≡◌, ◌⊎◌, refl, ap, sym, List, [], ◌∷◌, ◌++◌, true, false, All, ltb, arith,
  ◌==◌, Bool-cases, inl, inr, some, none, Option,
}
use webrtc_unreliable_client.Prelude.Words.{IsU32, add32}
use webrtc_unreliable_client.Prelude.Sort.{insert, sort_by-snoc, IsSorted}
use webrtc_unreliable_client.Prelude.Map.{
  count, lookup, contains_key, count_key-lookup, lookup-count_key,
}
use webrtc_unreliable_client.Sctp.Sna.{sna32lt, sna32lte}
use webrtc_unreliable_client.Sctp.Sna.Order.{distance32}
use webrtc_unreliable_client.Sctp.Chunk.PayloadData.{ChunkPayloadData}
use webrtc_unreliable_client.Sctp.Queue.Payload.{
  PayloadQueue, can_push, push, push_no_check, pop, pop_front, get, update_sorted_keys,
}
use webrtc_unreliable_client.Sctp.Queue.Payload.Count.{IsValid, push-can_push, pop-found}

-- Every TSN is a `u32` at most half the circle above `cum`, and each lies above the one before.
abbrev pub Ascending : ℕ → ℕ → List ℕ → Type 0
Ascending cum lo [] = Unit {0}
Ascending cum lo (t ∷ ts) =
    IsU32 t
    × (lo < distance32 cum t)
    × (distance32 cum t ≤ 2 ^ 31)
    × Ascending cum (distance32 cum t) ts

abbrev pub IsOrdered : ℕ → PayloadQueue → Type 0
IsOrdered cum q = Ascending cum 0 q.sorted

-- Above the same point, serial order is the order of the distances.
sna32lt_above :
    (cum s t : ℕ)
    → IsU32 cum
    → IsU32 s
    → IsU32 t
    → 0 < distance32 cum s
    → distance32 cum s ≤ 2 ^ 31
    → 0 < distance32 cum t
    → distance32 cum t ≤ 2 ^ 31
    → sna32lt s t ≡ ltb (distance32 cum s) (distance32 cum t)
unfolding sna32lt
sna32lt_above cum s t hc hs ht a b c d = ground arith

Ascending-All :
    (cum lo x : ℕ) (ts : List ℕ)
    → IsU32 cum
    → IsU32 x
    → distance32 cum x ≤ lo
    → 0 < distance32 cum x
    → Ascending cum lo ts
    → All (λ y. sna32lt y x ≡ false) ts
Ascending-All cum lo x [] hc hx h p asc = tt
Ascending-All cum lo x (t ∷ ts) hc hx h p (ht, a, b, rest) = (
  ground (arith, sna32lt_above cum t x),
  Ascending-All cum (distance32 cum t) x ts hc hx (omega arith) p rest,
)

Ascending-IsSorted :
    (cum lo : ℕ) (ts : List ℕ) → IsU32 cum → Ascending cum lo ts → IsSorted sna32lt ts
Ascending-IsSorted cum lo [] hc asc = tt
Ascending-IsSorted cum lo (t ∷ ts) hc (ht, a, b, rest) = (
  Ascending-All cum (distance32 cum t) t ts hc ht (omega arith) (omega arith) rest,
  Ascending-IsSorted cum (distance32 cum t) ts hc rest,
)

insert-Ascending :
    (cum lo x : ℕ) (ts : List ℕ)
    → IsU32 cum
    → IsU32 x
    → lo < distance32 cum x
    → distance32 cum x ≤ 2 ^ 31
    → count x ts ≡ 0
    → Ascending cum lo ts
    → Ascending cum lo (insert sna32lt x ts)
unfolding insert
insert-Ascending cum lo x [] hc hx l h e asc = (hx, l, h, tt)
insert-Ascending cum lo x (t ∷ ts) hc hx l h e (ht, a, b, rest) = elim (Bool-cases (sna32lt x t)) [
  | inl less ↦ rw less (hx, l, h, (ht, ground (arith, sna32lt_above cum x t), b, rest))
  | inr more ↦ rw more (
    ht,
    a,
    b,
    insert-Ascending cum (distance32 cum t) x ts hc hx (ground (arith, sna32lt_above cum x t)) h
        (ground arith) rest,
  )
]

update_sorted_keys-Ascending :
    (cum x : ℕ) (ts : List ℕ)
    → IsU32 cum
    → IsU32 x
    → 0 < distance32 cum x
    → distance32 cum x ≤ 2 ^ 31
    → count x ts ≡ 0
    → Ascending cum 0 ts
    → Ascending cum 0 (update_sorted_keys (ts ++ (x ∷ [])))
unfolding update_sorted_keys
update_sorted_keys-Ascending cum x ts hc hx l h e asc =
    rw (sort_by-snoc sna32lt x ts (Ascending-IsSorted cum 0 ts hc asc))
      (insert-Ascending cum 0 x ts hc hx l h e asc)

can_push-above :
    (q : PayloadQueue) (p : ChunkPayloadData) (cum : ℕ)
    → IsU32 cum
    → IsU32 p.tsn
    → IsValid q
    → can_push q p cum ≡ true
    → (0 < distance32 cum p.tsn) × (distance32 cum p.tsn ≤ 2 ^ 31) × (count p.tsn q.sorted ≡ 0)
unfolding can_push sna32lte sna32lt contains_key
can_push-above q p cum hc hp v h =
    (ground arith, ground arith, ground (arith, v.keys p.tsn, count_key-lookup p.tsn q.chunk_map))

-- A push of a chunk with a `u32` TSN at the cumulative TSN `cum` keeps the TSNs of a valid queue
-- in order above `cum`, each at most half the circle away.
pub push-IsOrdered :
    {q : PayloadQueue} (p : ChunkPayloadData) (cum : ℕ)
    → IsU32 cum
    → IsU32 p.tsn
    → IsValid q
    → IsOrdered cum q
    → IsOrdered cum (push q p cum).0
unfolding push_no_check
push-IsOrdered {q} p cum hc hp v o = rw push-can_push (elim (Bool-cases (can_push q p cum)) [
  | inl e ↦
      let (lo, hi, absent) = can_push-above q p cum hc hp v e in
      rw e (update_sorted_keys-Ascending cum p.tsn q.sorted hc hp lo hi absent o)
  | inr e ↦ rw e o
])

-- From one TSN further on, every distance is one less.
Ascending-next :
    (cum lo : ℕ) (ts : List ℕ)
    → IsU32 cum
    → 0 < lo
    → Ascending cum lo ts
    → Ascending (add32 cum 1) (lo - 1) ts
Ascending-next cum lo [] hc h asc = tt
Ascending-next cum lo (t ∷ ts) hc h (ht, a, b, rest) =
    let step : distance32 (add32 cum 1) t ≡ distance32 cum t - 1 = omega arith in
    (
      ht,
      omega arith,
      omega arith,
      rw step (Ascending-next cum (distance32 cum t) ts hc (omega arith) rest),
    )

count-Ascending :
    (cum lo x : ℕ) (ts : List ℕ) → distance32 cum x ≤ lo → Ascending cum lo ts → count x ts ≡ 0
count-Ascending cum lo x [] h asc = refl
count-Ascending cum lo x (t ∷ ts) h (ht, a, b, rest) =
    ground (arith, count-Ascending cum (distance32 cum t) x ts (omega arith) rest)

pop_miss :
    (q : PayloadQueue) (tsn : ℕ)
    → (t : ℕ) (rest : List ℕ) → q.sorted ≡ t ∷ rest
    → (tsn == t) ≡ false
    → pop q tsn ≡ (q, none)
unfolding pop
pop_miss q tsn t rest e h = ground (arith, e, h)

pop_hit :
    (q : PayloadQueue) (tsn : ℕ) (rest : List ℕ)
    → q.sorted ≡ tsn ∷ rest
    → pop q tsn ≡ pop_front q tsn rest
unfolding pop pop_front
pop_hit q tsn rest e = ground (arith, e)

-- What a pop at `cum + 1` returns.
abbrev pub PopsNext : ℕ → PayloadQueue → PayloadQueue × Option ChunkPayloadData → Type 0
PopsNext cum q r =
    (r.1 ≡ get q (add32 cum 1))
    × ((r.1 ≡ none) × (r.0 ≡ q)
        ⊎ ((c : ChunkPayloadData) × (r.1 ≡ some c) × (c.tsn ≡ add32 cum 1) × IsOrdered c.tsn r.0))

pop_front-PopsNext :
    (q : PayloadQueue) (cum : ℕ) (rest : List ℕ) (c : ChunkPayloadData)
    → lookup (add32 cum 1) q.chunk_map ≡ some c
    → c.tsn ≡ add32 cum 1
    → Ascending (add32 cum 1) 0 rest
    → PopsNext cum q (pop_front q (add32 cum 1) rest)
unfolding pop_front get
pop_front-PopsNext q cum rest c f e asc = rw (f, pop_front) (refl, inr (c, refl, e, rw e asc))

pop-PopsNext :
    {q : PayloadQueue} (cum t : ℕ) (rest : List ℕ)
    → IsU32 cum
    → IsValid q
    → q.sorted ≡ t ∷ rest
    → Ascending cum 0 (t ∷ rest)
    → add32 cum 1 ≡ t
    → PopsNext cum q (pop q (add32 cum 1))
pop-PopsNext {q} cum t rest hc v e (ht, a, b, asc) same = go (pop-found next rest v e')
  where
    next : ℕ
    next = add32 cum 1

    e' : q.sorted ≡ next ∷ rest
    e' = rw same e

    one : distance32 cum t ≡ 1
    one = omega arith

    asc' : Ascending next 0 rest
    asc' = Ascending-next cum 1 rest hc (omega arith) (rw one at asc)

    go : (c : ChunkPayloadData) × (lookup next q.chunk_map ≡ some c) → PopsNext cum q (pop q next)
    go (c, f) =
        rw (pop_hit q next rest e') (pop_front-PopsNext q cum rest c f (v.tagged next c f) asc')

-- Of a valid queue that is ordered above `cum`, a pop at the next TSN takes the chunk with that TSN
-- wherever the queue holds one, and the queue is then ordered above that TSN. If the queue holds
-- none, it is left as it was.
pub pop-get :
    {q : PayloadQueue} (cum : ℕ)
    → IsU32 cum
    → IsValid q
    → IsOrdered cum q
    → PopsNext cum q (pop q (add32 cum 1))
unfolding get pop
pop-get {q} cum hc v o = go q.sorted refl o
  where
    next : ℕ
    next = add32 cum 1

    absent : count next q.sorted ≡ 0 → none ≡ lookup next q.chunk_map
    absent e = sym (lookup-count_key next q.chunk_map (omega (arith, v.keys next)))

    go : (l : List ℕ) → q.sorted ≡ l → Ascending cum 0 l → PopsNext cum q (pop q next)
    go [] e asc =
        let miss : pop q next ≡ (q, none) = ground (arith, e) in
        rw miss (absent (ap (λ ts. count next ts) e), inl (refl, refl))
    go (t ∷ rest) e asc = elim (Bool-cases (next == t)) [
      | inl same ↦ pop-PopsNext cum t rest hc v e asc (ground arith)
      | inr other ↦ rw (pop_miss q next t rest e other) (
        absent (
            ground (
              arith,
              ap (λ ts. count next ts) e,
              asc,
              count-Ascending cum (distance32 cum t) next rest,
            )),
        inl (refl, refl),
      )
    ]

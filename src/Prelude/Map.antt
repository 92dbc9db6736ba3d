-- ===== src/Prelude/Map.antt =====
-- A `HashMap` with number keys, as an association list: the code never reads its order.
use Prim.Native.Nat.{ℕ, ◌+◌}
use mathlib.Core.Path.{◌≡◌, refl}
use mathlib.Core.Bool.{Bool, true, false}
use mathlib.Core.Option.{Option, none, some}
use mathlib.Core.List.{List, [], ◌∷◌}
use native.Mathlib.Omega.{arith}
use webrtc_unreliable_client.Prelude.Tests.{◌==◌, if◌then◌else◌}
use webrtc_unreliable_client.Prelude.Lists.{total, length}

abbrev pub Map {ℓ} : Type ℓ → Type ℓ
Map V = List (ℕ × V)

abbrev pub is_some {ℓ} : {A : Type ℓ} → Option A → Bool
is_some none = false
is_some (some a) = true

-- 1 for the number that is looked for, and 0 for any other.
abbrev pub hit : ℕ → ℕ → ℕ
hit t x = if x == t then 1 else 0

-- How often `t` occurs.
abbrev pub count : ℕ → List ℕ → ℕ
count t xs = total (hit t) xs

module _ {ℓ} {V : Type ℓ} where
  unfoldable pub lookup : ℕ → Map V → Option V
  lookup k [] = none
  lookup k ((j, v) ∷ m) = if j == k then some v else lookup k m

  unfoldable pub contains_key : ℕ → Map V → Bool
  unfolding lookup
  contains_key k m = is_some (lookup k m)

  unfoldable pub insert : ℕ → V → Map V → Map V
  insert k v [] = (k, v) ∷ []
  insert k v ((j, w) ∷ m) = if j == k then (k, v) ∷ m else (j, w) ∷ insert k v m

  unfoldable pub remove : ℕ → Map V → Map V
  remove k [] = []
  remove k ((j, w) ∷ m) = if j == k then m else (j, w) ∷ remove k m

  -- `get_mut` and a write through it.
  unfoldable pub update : ℕ → (V → V) → Map V → Map V
  update k f [] = []
  update k f ((j, w) ∷ m) = if j == k then (j, f w) ∷ m else (j, w) ∷ update k f m

  -- `values_mut` and a write through each.
  unfoldable pub map_values : (V → V) → Map V → Map V
  map_values f [] = []
  map_values f ((j, w) ∷ m) = (j, f w) ∷ map_values f m

  -- A sum over the entries.
  abbrev pub total_map : (ℕ → V → ℕ) → Map V → ℕ
  total_map f m = total (λ e. f e.0 e.1) m

  -- How many entries have the key `t`.
  abbrev pub count_key : ℕ → Map V → ℕ
  count_key t m = total_map (λ j v. hit t j) m

  pub total_map-insert :
      (f : ℕ → V → ℕ) (k : ℕ) (v : V) (m : Map V)
      → lookup k m ≡ none
      → total_map f (insert k v m) ≡ f k v + total_map f m
  unfolding insert lookup
  total_map-insert f k v [] h = refl
  total_map-insert f k v ((j, w) ∷ m) h = ground (arith, total_map-insert f k v m)

  pub total_map-remove :
      (f : ℕ → V → ℕ) (k : ℕ) (m : Map V) {v : V}
      → lookup k m ≡ some v
      → total_map f m ≡ f k v + total_map f (remove k m)
  unfolding remove lookup
  total_map-remove f k [] h = cc
  total_map-remove f k ((j, w) ∷ m) {v} h = ground (arith, total_map-remove f k m {v = v})

  pub remove_absent : (k : ℕ) (m : Map V) → lookup k m ≡ none → remove k m ≡ m
  unfolding remove lookup
  remove_absent k [] h = refl
  remove_absent k ((j, w) ∷ m) h = ground (arith, remove_absent k m)

  pub total_map-update :
      (f : ℕ → V → ℕ) (k : ℕ) (g : V → V) (m : Map V) {v : V}
      → lookup k m ≡ some v
      → total_map f (update k g m) + f k v ≡ f k (g v) + total_map f m
  unfolding update lookup
  total_map-update f k g [] h = cc
  total_map-update f k g ((j, w) ∷ m) {v} h = ground (arith, total_map-update f k g m {v = v})

  pub lookup-insert :
      (j k : ℕ) (v : V) (m : Map V)
      → lookup j (insert k v m) ≡ (if k == j then some v else lookup j m)
  unfolding lookup insert
  lookup-insert j k v [] = refl
  lookup-insert j k v ((i, w) ∷ m) = ground (arith, lookup-insert j k v m)

  pub lookup-remove_ne :
      (j k : ℕ) (m : Map V) → (k == j) ≡ false → lookup j (remove k m) ≡ lookup j m
  unfolding lookup remove
  lookup-remove_ne j k [] h = refl
  lookup-remove_ne j k ((i, w) ∷ m) h = ground (arith, lookup-remove_ne j k m)

  -- What is found after a removal was there before.
  pub lookup-remove_some :
      (j k : ℕ) (m : Map V) → is_some (lookup j (remove k m)) ≡ true → is_some (lookup j m) ≡ true
  unfolding lookup remove
  lookup-remove_some j k [] h = h
  lookup-remove_some j k ((i, w) ∷ m) h = ground (arith, h, lookup-remove_some j k m)

  pub lookup-update :
      (j k : ℕ) (f : V → V) (m : Map V)
      → lookup j (update k f m)
        ≡ (if k == j then elim (lookup j m) [ none ↦ none | some v ↦ some (f v) ] else lookup j m)
  unfolding lookup update
  lookup-update j k f [] = ground arith
  lookup-update j k f ((i, w) ∷ m) = ground (arith, lookup-update j k f m)

  -- A key is looked up exactly if it occurs.
  pub lookup-count_key : (k : ℕ) (m : Map V) → count_key k m ≡ 0 → lookup k m ≡ none
  unfolding lookup
  lookup-count_key k [] h = refl
  lookup-count_key k ((j, w) ∷ m) h = ground (arith, lookup-count_key k m)

  pub count_key-lookup : (k : ℕ) (m : Map V) → lookup k m ≡ none → count_key k m ≡ 0
  unfolding lookup
  count_key-lookup k [] h = refl
  count_key-lookup k ((j, w) ∷ m) h = ground (arith, count_key-lookup k m)

  pub length-insert :
      (k : ℕ) (v : V) (m : Map V) → lookup k m ≡ none → length (insert k v m) ≡ length m + 1
  unfolding insert lookup
  length-insert k v [] h = omega arith
  length-insert k v ((j, w) ∷ m) h = ground (arith, length-insert k v m)

  pub length-remove :
      (k : ℕ) (m : Map V) {v : V} → lookup k m ≡ some v → length m ≡ length (remove k m) + 1
  unfolding remove lookup
  length-remove k [] h = cc
  length-remove k ((j, w) ∷ m) {v} h = ground (arith, length-remove k m {v = v})

  pub length-update : (k : ℕ) (f : V → V) (m : Map V) → length (update k f m) ≡ length m
  unfolding update
  length-update k f [] = refl
  length-update k f ((j, w) ∷ m) = ground (arith, length-update k f m)

  pub length-map_values : (f : V → V) (m : Map V) → length (map_values f m) ≡ length m
  unfolding map_values
  length-map_values f [] = refl
  length-map_values f ((j, w) ∷ m) = ground (arith, length-map_values f m)

  pub count_key-update :
      (t k : ℕ) (f : V → V) (m : Map V) → count_key t (update k f m) ≡ count_key t m
  unfolding update
  count_key-update t k f [] = refl
  count_key-update t k f ((j, w) ∷ m) = ground (arith, count_key-update t k f m)

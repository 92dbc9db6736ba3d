-- ===== src/Prelude/Sort.antt =====
-- `slice::sort_by` of the standard library: a stable sort by a strict comparison.
use Prim.Native.Nat.{ℕ, ◌+◌}
use mathlib.Core.Path.{◌≡◌, refl, sym, ap, ◌∙◌}
use mathlib.Core.Bool.{Bool, false}
use mathlib.Core.List.{List, [], ◌∷◌, ◌++◌, append-nil, append_assoc}
use mathlib.Core.Logic.{inl, inr}
use native.Mathlib.Omega.{arith}
use webrtc_unreliable_client.Prelude.Tests.{if◌then◌else◌, Bool-cases}
use webrtc_unreliable_client.Prelude.Lists.{All, total}

module _ {ℓ} {A : Type ℓ} (less : A → A → Bool) where
  -- `x` goes behind all that are not greater than it.
  unfoldable pub insert : A → List A → List A
  insert x [] = x ∷ []
  insert x (y ∷ ys) = if less x y then x ∷ y ∷ ys else y ∷ insert x ys

  unfoldable pub insert_all : List A → List A → List A
  unfolding insert
  insert_all acc [] = acc
  insert_all acc (x ∷ xs) = insert_all (insert x acc) xs

  unfoldable pub sort_by : List A → List A
  unfolding insert_all
  sort_by xs = insert_all [] xs

  -- No element is less than one that stands in front of it.
  abbrev pub IsSorted : List A → Type 0
  IsSorted [] = Unit {0}
  IsSorted (x ∷ xs) = All (λ y. less y x ≡ false) xs × IsSorted xs

  total-insert : (f : A → ℕ) (x : A) (ys : List A) → total f (insert x ys) ≡ f x + total f ys
  unfolding insert
  total-insert f x [] = refl
  total-insert f x (y ∷ ys) = ground (arith, total-insert f x ys)

  total-insert_all :
      (f : A → ℕ) (acc xs : List A) → total f (insert_all acc xs) ≡ total f acc + total f xs
  unfolding insert_all
  total-insert_all f acc [] = omega arith
  total-insert_all f acc (x ∷ xs) =
      omega (arith, total-insert_all f (insert x acc) xs, total-insert f x acc)

  -- Sorting keeps every sum over the elements, so also how often each occurs.
  pub total-sort_by : (f : A → ℕ) (xs : List A) → total f (sort_by xs) ≡ total f xs
  unfolding sort_by
  total-sort_by f xs = omega (arith, total-insert_all f [] xs)

  pub insert_last :
      (x : A) (ys : List A) → All (λ y. less x y ≡ false) ys → insert x ys ≡ ys ++ (x ∷ [])
  unfolding insert
  insert_last x [] h = refl
  insert_last x (y ∷ ys) h = ground (arith, insert_last x ys h.1)

  IsSorted-front :
      (acc : List A) (x : A) (xs : List A)
      → IsSorted (acc ++ (x ∷ xs))
      → All (λ y. less x y ≡ false) acc
  IsSorted-front [] x xs h = tt
  IsSorted-front (y ∷ acc) x xs h = (All_middle acc h.0, IsSorted-front acc x xs h.1)
    where
      All_middle : (zs : List A) → All (λ z. less z y ≡ false) (zs ++ (x ∷ xs)) → less x y ≡ false
      All_middle [] p = p.0
      All_middle (z ∷ zs) p = All_middle zs p.1

  insert_all-IsSorted : (acc xs : List A) → IsSorted (acc ++ xs) → insert_all acc xs ≡ acc ++ xs
  unfolding insert_all
  insert_all-IsSorted acc [] h = sym (append-nil acc)
  insert_all-IsSorted acc (x ∷ xs) h =
      rw (insert_last x acc (IsSorted-front acc x xs h)) (
        insert_all-IsSorted (acc ++ (x ∷ [])) xs (rw append_assoc h) ∙ append_assoc acc (x ∷ []) xs)

  insert_all-append :
      (acc xs ys : List A) → insert_all acc (xs ++ ys) ≡ insert_all (insert_all acc xs) ys
  unfolding insert_all
  insert_all-append acc [] ys = refl
  insert_all-append acc (x ∷ xs) ys = insert_all-append (insert x acc) xs ys

  -- Sorting a sorted list with one element behind it is one insertion.
  pub sort_by-snoc : (x : A) (xs : List A) → IsSorted xs → sort_by (xs ++ (x ∷ [])) ≡ insert x xs
  unfolding sort_by
  sort_by-snoc x xs h =
      insert_all-append [] xs (x ∷ []) ∙ ap (λ ys. insert x ys) (insert_all-IsSorted [] xs h)

  pub All-insert {κ} : (P : A → Type κ) (x : A) (ys : List A) → P x → All P ys → All P (insert x ys)
  unfolding insert
  All-insert P x [] hx hy = (hx, tt)
  All-insert P x (y ∷ ys) hx (h, hs) = elim (Bool-cases (less x y)) [
    | inl e ↦ rw e (hx, (h, hs))
    | inr e ↦ rw e (h, All-insert P x ys hx hs)
  ]

-- ===== src/Prelude/Snapshot.antt =====
-- `sorted(d.values(), key=...)` for a dictionary whose values carry their key: the list holds each
-- stored value once.
use Prim.Native.Nat.{◌≤◌}
use mathlib.Core.Path.{◌≡◌, refl, ◌∙◌}
use mathlib.Core.Logic.{◌≢◌}
use mathlib.Core.Bool.{Bool, true, false, ◌||◌}
use mathlib.Core.Option.{none, some}
use mathlib.Core.List.{List, [], ◌∷◌}
use native.Mathlib.Omega.{arith}
use iris_mind_v.Prelude.Equality.{Eq, ◌==◌}
use iris_mind_v.Prelude.Lists.{All, count}
use iris_mind_v.Prelude.Sorting.{sorted, sorted-All, count-sorted}
use iris_mind_v.Prelude.Dict.{
  Dict, values, lookup, insert, lookup-insert_ne, IsKeyed, values-lookup,
}

module _ {ℓ κ} {K : Type ℓ} {V : Type κ} ⦃e : Eq K⦄ (key : V → K) where
  -- No two values of the list have one key.
  abbrev pub Distinct : List V → Type (ℓ ⊔ κ)
  Distinct [] = Unit
  Distinct (x ∷ xs) = All (λ y. key x ≢ key y) xs × Distinct xs

  abbrev pub has_key : K → List V → Bool
  has_key k [] = false
  has_key k (x ∷ xs) = key x == k || has_key k xs

  abbrev at : K → V → Bool
  at k v = key v == k

  absent : (k : K) (xs : List V) → count (at k) xs ≡ 0 → All (λ y. k ≢ key y) xs
  unfolding count
  absent k [] h = tt
  absent k (x ∷ xs) h = ((λ same. ground arith), absent k xs (omega arith))

  head_absent : (x : V) (xs : List V) → count (at (key x)) (x ∷ xs) ≤ 1 → count (at (key x)) xs ≡ 0
  unfolding count
  head_absent x xs h = ground arith

  tail_once : (k : K) (x : V) (xs : List V) → count (at k) (x ∷ xs) ≤ 1 → count (at k) xs ≤ 1
  unfolding count
  tail_once k x xs h = omega arith

  Distinct-of_count : (xs : List V) → ((k : K) → count (at k) xs ≤ 1) → Distinct xs
  Distinct-of_count [] h = tt
  Distinct-of_count (x ∷ xs) h = (
    absent (key x) xs (head_absent x xs (h (key x))),
    Distinct-of_count xs (λ k. tail_once k x xs (h k)),
  )

  count_missing :
      (k : K) (d : Dict K V) → IsKeyed key d → lookup k d ≡ none → count (at k) (values d) ≡ 0
  unfolding count values lookup
  count_missing k [] w h = refl
  count_missing k ((j, v) ∷ d) w h = ground (arith, count_missing k d w.2)

  count-values-le_one : (k : K) (d : Dict K V) → IsKeyed key d → count (at k) (values d) ≤ 1
  unfolding count values
  count-values-le_one k [] w = omega arith
  count-values-le_one k ((j, v) ∷ d) w =
      ground (arith, count-values-le_one k d w.2, count_missing j d w.2)

  -- What a loop over the list may rely on: each value left is the one that the dictionary holds,
  -- and no other value left has its key.
  pub record IsCurrent (d : Dict K V) (xs : List V) : Type (ℓ ⊔ κ) where
    pub current : All (λ v. lookup (key v) d ≡ some v) xs
    pub distinct : Distinct xs

  pub sorted-values-IsCurrent :
      (le : V → V → Bool) (d : Dict K V) → IsKeyed key d → IsCurrent d (sorted le (values d))
  sorted-values-IsCurrent le d w = record {
    current = sorted-All le (λ v. lookup (key v) d ≡ some v) (values d) (values-lookup key d w);
    distinct =
        Distinct-of_count (sorted le (values d))
          λ k. rw (count-sorted le (at k) (values d)) (count-values-le_one k d w);
  }

  -- Writing at the key of the value that was taken off leaves the rest current.
  pub IsCurrent-insert :
      (x v : V) (d : Dict K V) (xs : List V)
      → IsCurrent d (x ∷ xs)
      → IsCurrent (insert (key x) v d) xs
  IsCurrent-insert x v d xs w = record {
    current = both xs w.current.1 w.distinct.0;
    distinct = w.distinct.1;
  }
    where
      both :
          (ys : List V)
          → All (λ y. lookup (key y) d ≡ some y) ys
          → All (λ y. key x ≢ key y) ys
          → All (λ y. lookup (key y) (insert (key x) v d) ≡ some y) ys
      both [] h k = tt
      both (y ∷ ys) h k = (lookup-insert_ne (key x) (key y) v d k.0 ∙ h.0, both ys h.1 k.1)

  pub IsCurrent-skip : {d : Dict K V} (x : V) (xs : List V) → IsCurrent d (x ∷ xs) → IsCurrent d xs
  IsCurrent-skip x xs w = record { current = w.current.1; distinct = w.distinct.1 }

  -- Each stored value stands in the list.
  has_key_of_lookup :
      (k : K) (v : V) (d : Dict K V)
      → IsKeyed key d
      → lookup k d ≡ some v
      → 1 ≤ count (at k) (values d)
  unfolding count values lookup
  has_key_of_lookup k v [] w h = cc
  has_key_of_lookup k v ((j, u) ∷ d) w h = ground (arith, has_key_of_lookup k v d w.2)

  has_key_of_count : (k : K) (xs : List V) → 1 ≤ count (at k) xs → has_key k xs ≡ true
  unfolding count
  has_key_of_count k [] h = absurd (omega arith)
  has_key_of_count k (x ∷ xs) h = ground (arith, has_key_of_count k xs)

  pub has_key-sorted :
      (le : V → V → Bool) (k : K) (v : V) (d : Dict K V)
      → IsKeyed key d
      → lookup k d ≡ some v
      → has_key k (sorted le (values d)) ≡ true
  has_key-sorted le k v d w h =
      has_key_of_count k (sorted le (values d))
        (rw (count-sorted le (at k) (values d)) (has_key_of_lookup k v d w h))

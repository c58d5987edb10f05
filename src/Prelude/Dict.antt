-- ===== src/Prelude/Dict.antt =====
-- Python's `dict`: an association list in insertion order, in which a key that is written again
-- keeps its place.
use Prim.Native.Nat.{◌+◌}
use mathlib.Core.Path.{◌≡◌, refl}
use mathlib.Core.Logic.{◌≢◌, ◌⊎◌, inl, inr}
use mathlib.Core.Bool.{Bool}
use mathlib.Core.Option.{Option, none, some}
use mathlib.Core.List.{List, [], ◌∷◌}
use native.Mathlib.Omega.{arith}
use iris_mind_v.Prelude.Tests.{if◌then◌else◌}
use iris_mind_v.Prelude.Equality.{Eq, ◌==◌}
use iris_mind_v.Prelude.Lists.{All, All-map, count}

abbrev pub Dict {ℓ κ} : Type ℓ → Type κ → Type (ℓ ⊔ κ)
Dict K V = List (K × V)

module _ {ℓ κ} {K : Type ℓ} {V : Type κ} where
  -- `list(d.values())`
  unfoldable pub values : Dict K V → List V
  values [] = []
  values ((k, v) ∷ d) = v ∷ values d

module _ {ℓ κ} {K : Type ℓ} {V : Type κ} ⦃e : Eq K⦄ where
  -- `d.get(k)`
  unfoldable pub lookup : K → Dict K V → Option V
  lookup k [] = none
  lookup k ((j, v) ∷ d) = if j == k then some v else lookup k d

  -- `d[k] = v`
  unfoldable pub insert : K → V → Dict K V → Dict K V
  insert k v [] = (k, v) ∷ []
  insert k v ((j, w) ∷ d) = if j == k then (j, v) ∷ d else (j, w) ∷ insert k v d

  -- `d.pop(k, None)`, without the value
  unfoldable pub remove : K → Dict K V → Dict K V
  remove k [] = []
  remove k ((j, w) ∷ d) = if j == k then d else (j, w) ∷ remove k d

  pub lookup-insert :
      (k j : K) (v : V) (d : Dict K V)
      → lookup j (insert k v d) ≡ (if k == j then some v else lookup j d)
  unfolding lookup insert
  lookup-insert k j v [] = refl
  lookup-insert k j v ((i, w) ∷ d) = ground (arith, lookup-insert k j v d)

  pub lookup-insert_self : (k : K) (v : V) (d : Dict K V) → lookup k (insert k v d) ≡ some v
  lookup-insert_self k v d = ground (arith, lookup-insert k k v d)

  pub lookup-insert_ne :
      (k j : K) (v : V) (d : Dict K V) → k ≢ j → lookup j (insert k v d) ≡ lookup j d
  lookup-insert_ne k j v d h = ground (arith, lookup-insert k j v d)

  pub insert-insert : (k : K) (v w : V) (d : Dict K V) → insert k v (insert k w d) ≡ insert k v d
  unfolding insert
  insert-insert k v w [] = ground arith
  insert-insert k v w ((i, u) ∷ d) = ground (arith, insert-insert k v w d)

  pub lookup-insert_inv :
      (k j : K) (v : V) (d : Dict K V) {u : V}
      → lookup j (insert k v d) ≡ some u
      → ((k ≡ j) × (u ≡ v)) ⊎ ((k ≢ j) × (lookup j d ≡ some u))
  lookup-insert_inv k j v d h = ground (arith, lookup-insert k j v d)

  abbrev pub Every {μ} : (K → V → Type μ) → Dict K V → Type (ℓ ⊔ κ ⊔ μ)
  Every P d = (k : K) (v : V) → lookup k d ≡ some v → P k v

  pub insert-Every {μ} :
      (P : K → V → Type μ) (k : K) (v : V) (d : Dict K V)
      → P k v
      → Every P d
      → Every P (insert k v d)
  insert-Every P k v d p h j u e = elim (lookup-insert_inv k j v d e) [
    | inl (same, value) ↦ rw (value, ← same) p
    | inr (other, old) ↦ h j u old
  ]

  pub lookup-remove_ne : (k j : K) (d : Dict K V) → k ≢ j → lookup j (remove k d) ≡ lookup j d
  unfolding lookup remove
  lookup-remove_ne k j [] h = refl
  lookup-remove_ne k j ((i, w) ∷ d) h = ground (arith, lookup-remove_ne k j d h)

  pub count-insert_new :
      (p : V → Bool) (k : K) (v : V) (d : Dict K V)
      → lookup k d ≡ none
      → count p (values (insert k v d)) ≡ count p (values d) + (if p v then 1 else 0)
  unfolding lookup insert values count
  count-insert_new p k v [] h = ground arith
  count-insert_new p k v ((i, w) ∷ d) h = ground (arith, count-insert_new p k v d)

  pub count-insert_old :
      (p : V → Bool) (k : K) (v w : V) (d : Dict K V)
      → lookup k d ≡ some w
      → count p (values (insert k v d)) + (if p w then 1 else 0)
        ≡ count p (values d) + (if p v then 1 else 0)
  unfolding lookup insert values count
  count-insert_old p k v w [] h = cc
  count-insert_old p k v w ((i, u) ∷ d) h = ground (arith, count-insert_old p k v w d)

  -- A dictionary whose values carry their own key: no key occurs twice, and each value stands
  -- under its key.
  module _ (key : V → K) where
    abbrev pub IsKeyed : Dict K V → Type (ℓ ⊔ κ)
    IsKeyed [] = Unit
    IsKeyed ((k, v) ∷ d) = (key v ≡ k) × (lookup k d ≡ none) × IsKeyed d

    pub insert-IsKeyed :
        (k : K) (v : V) (d : Dict K V) → key v ≡ k → IsKeyed d → IsKeyed (insert k v d)
    unfolding insert lookup
    insert-IsKeyed k v [] h w = (h, refl, tt)
    insert-IsKeyed k v ((i, u) ∷ d) h w =
        ground (arith, insert-IsKeyed k v d h w.2, lookup-insert k i v d)

    pub key-lookup : (k : K) (d : Dict K V) {v : V} → IsKeyed d → lookup k d ≡ some v → key v ≡ k
    unfolding lookup
    key-lookup k [] w h = cc
    key-lookup k ((i, u) ∷ d) {v} w h = ground (arith, key-lookup k d {v = v} w.2)

    -- Each value of the dictionary is what its own key looks up.
    pub values-lookup : (d : Dict K V) → IsKeyed d → All (λ v. lookup (key v) d ≡ some v) (values d)
    unfolding lookup values
    values-lookup [] w = tt
    values-lookup ((k, v) ∷ d) w =
        (ground arith, All-map (λ u h. later u h) (values d) (values-lookup d w.2))
      where
        later : (u : V) → lookup (key u) d ≡ some u → lookup (key u) ((k, v) ∷ d) ≡ some u
        later u h = ground arith

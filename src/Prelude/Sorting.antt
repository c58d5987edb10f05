-- ===== src/Prelude/Sorting.antt =====
-- `sorted(xs, key=...)`: a stable sort, here by insertion, over the comparison of the keys.
use Prim.Native.Nat.{ℕ, zero, suc, ◌+◌}
use mathlib.Core.Path.{◌≡◌, refl, ap, ◌∙◌}
use mathlib.Core.Option.{some}
use mathlib.Core.Logic.{◌⊎◌, inl, inr}
use mathlib.Core.Bool.{Bool, true}
use mathlib.Core.List.{List, [], ◌∷◌}
use native.Mathlib.Omega.{arith}
use iris_mind_v.Prelude.Tests.{if◌then◌else◌, Bool-cases}
use iris_mind_v.Prelude.Lists.{All, All-map, All-both, count, sum_of, take, get_elem?, length}

module _ {ℓ} {A : Type ℓ} (le : A → A → Bool) where
  pub place : A → List A → List A
  place x [] = x ∷ []
  place x (y ∷ ys) = if le x y then x ∷ y ∷ ys else y ∷ place x ys

  unfoldable pub sorted : List A → List A
  unfolding place
  sorted [] = []
  sorted (x ∷ xs) = place x (sorted xs)

  abbrev pub IsSorted : List A → Type ℓ
  IsSorted [] = Unit
  IsSorted (x ∷ xs) = All (λ y. le x y ≡ true) xs × IsSorted xs

module _ {ℓ κ} {A : Type ℓ} (le : A → A → Bool) (P : A → Type κ) where
  place-All : (x : A) (xs : List A) → P x → All P xs → All P (place le x xs)
  unfolding place
  place-All x [] p h = (p, tt)
  place-All x (y ∷ ys) p h = ground (arith, place-All x ys p h.1)

  pub sorted-All : (xs : List A) → All P xs → All P (sorted le xs)
  unfolding sorted
  sorted-All [] h = tt
  sorted-All (x ∷ xs) h = place-All x (sorted le xs) h.0 (sorted-All xs h.1)

module _ {ℓ} {A : Type ℓ} (le : A → A → Bool) where
  count-place : (p : A → Bool) (x : A) (xs : List A) → count p (place le x xs) ≡ count p (x ∷ xs)
  unfolding place count
  count-place p x [] = refl
  count-place p x (y ∷ ys) = ground (arith, count-place p x ys)

  place-cases :
      (p : A → Bool) (x : A) (xs : List A)
      → count p (place le x xs) ≡ (if p x then 1 else 0) + count p xs
  unfolding count
  place-cases p x xs = count-place p x xs

  -- A sort drops no element and doubles none.
  pub count-sorted : (p : A → Bool) (xs : List A) → count p (sorted le xs) ≡ count p xs
  unfolding sorted count
  count-sorted p [] = refl
  count-sorted p (x ∷ xs) =
      place-cases p x (sorted le xs) ∙ ap (λ n. (if p x then 1 else 0) + n) (count-sorted p xs)

module _ {ℓ} {A : Type ℓ} (le : A → A → Bool)
    (total : (x y : A) → (le x y ≡ true) ⊎ (le y x ≡ true))
    (trans : (x y z : A) → le x y ≡ true → le y z ≡ true → le x z ≡ true) where
  place-IsSorted : (x : A) (xs : List A) → IsSorted le xs → IsSorted le (place le x xs)
  unfolding place
  place-IsSorted x [] h = (tt, tt)
  place-IsSorted x (y ∷ ys) h = elim (Bool-cases (le x y)) [
    | inl e ↦ rw e ((e, All-map (λ z k. trans x y z e k) ys h.0), h)
    | inr e ↦ rw e (
      place-All le (λ z. le y z ≡ true) x ys (elim (total x y) [ inl f ↦ cc | inr f ↦ f ]) h.0,
      place-IsSorted x ys h.1,
    )
  ]

  pub sorted-IsSorted : (xs : List A) → IsSorted le (sorted le xs)
  unfolding sorted
  sorted-IsSorted [] = tt
  sorted-IsSorted (x ∷ xs) = place-IsSorted x (sorted le xs) (sorted-IsSorted xs)

module _ {ℓ} {A : Type ℓ} (le : A → A → Bool) (f : A → ℕ) where
  sum_of-place : (x : A) (xs : List A) → sum_of f (place le x xs) ≡ f x + sum_of f xs
  unfolding place sum_of
  sum_of-place x [] = refl
  sum_of-place x (y ∷ ys) = ground (arith, sum_of-place x ys)

  pub sum_of-sorted : (xs : List A) → sum_of f (sorted le xs) ≡ sum_of f xs
  unfolding sorted sum_of
  sum_of-sorted [] = refl
  sum_of-sorted (x ∷ xs) = sum_of-place x (sorted le xs) ∙ ap (λ n. f x + n) (sum_of-sorted xs)

-- Any two elements are related.
module _ {ℓ κ} {A : Type ℓ} (R : A → A → Type κ) where
  abbrev pub Pairwise : List A → Type κ
  Pairwise [] = Unit
  Pairwise (x ∷ xs) = All (R x) xs × Pairwise xs

module _ {ℓ κ} {A : Type ℓ} (le : A → A → Bool) (R : A → A → Type κ)
    (symmetric : (x y : A) → R x y → R y x) where
  place-Pairwise : (x : A) (xs : List A) → All (R x) xs → Pairwise R xs → Pairwise R (place le x xs)
  unfolding place
  place-Pairwise x [] h k = (tt, tt)
  place-Pairwise x (y ∷ ys) h k = elim (Bool-cases (le x y)) [
    | inl e ↦ rw e (h, k)
    | inr e ↦ rw e (place-All le (R y) x ys (symmetric x y h.0) k.0, place-Pairwise x ys h.1 k.1)
  ]

  pub sorted-Pairwise : (xs : List A) → Pairwise R xs → Pairwise R (sorted le xs)
  unfolding sorted
  sorted-Pairwise [] h = tt
  sorted-Pairwise (x ∷ xs) h =
      place-Pairwise x (sorted le xs) (sorted-All le (R x) xs h.0) (sorted-Pairwise xs h.1)

module _ {ℓ κ} {A : Type ℓ} (le : A → A → Bool) (P : A → Type κ) where
  place-All_inv : (x : A) (xs : List A) → All P (place le x xs) → P x × All P xs
  unfolding place
  place-All_inv x [] h = h
  place-All_inv x (y ∷ ys) h = elim (Bool-cases (le x y)) [
    | inl e ↦ rw e at h
    | inr e ↦
        let t : P y × All P (place le x ys) = rw e at h in
        let u = place-All_inv x ys t.1 in (u.0, (t.0, u.1))
  ]

  pub sorted-All_inv : (xs : List A) → All P (sorted le xs) → All P xs
  unfolding sorted
  sorted-All_inv [] h = tt
  sorted-All_inv (x ∷ xs) h =
      let t = place-All_inv x (sorted le xs) h in (t.0, sorted-All_inv xs t.1)

-- A list that is cut to its first elements.
module _ {ℓ κ} {A : Type ℓ} (P : A → Type κ) where
  pub take-All : (n : ℕ) (xs : List A) → All P xs → All P (take n xs)
  take-All zero xs h = tt
  take-All (suc n) [] h = tt
  take-All (suc n) (x ∷ xs) h = (h.0, take-All n xs h.1)

module _ {ℓ} {A : Type ℓ} (le : A → A → Bool) where
  pub take-IsSorted : (n : ℕ) (xs : List A) → IsSorted le xs → IsSorted le (take n xs)
  take-IsSorted zero xs h = tt
  take-IsSorted (suc n) [] h = tt
  take-IsSorted (suc n) (x ∷ xs) h =
      (take-All (λ y. le x y ≡ true) n xs h.0, take-IsSorted n xs h.1)

  -- An element is in the list, or the list has no element that comes after it.
  abbrev pub IsInOrAfter : List A → A → Type ℓ
  IsInOrAfter xs y = ((i : ℕ) × (get_elem? xs i ≡ some y)) ⊎ All (λ x. le x y ≡ true) xs

  later_too :
      (x : A) (xs : List A) (y : A) → (le x y ≡ true) × IsInOrAfter xs y → IsInOrAfter (x ∷ xs) y
  later_too x xs y (e, inl (i, here)) = inl (suc i, here)
  later_too x xs y (e, inr after) = inr (e, after)

  pub take-IsInOrAfter : (n : ℕ) (xs : List A) → IsSorted le xs → All (IsInOrAfter (take n xs)) xs
  take-IsInOrAfter n [] h = tt
  take-IsInOrAfter zero (x ∷ xs) h = (inr tt, take-IsInOrAfter zero xs h.1)
  take-IsInOrAfter (suc n) (x ∷ xs) h = (
    inl (0, refl),
    All-map (later_too x (take n xs)) xs (
        All-both (λ y. le x y ≡ true) (IsInOrAfter (take n xs)) xs h.0 (take-IsInOrAfter n xs h.1)),
  )

module _ {ℓ} {A : Type ℓ} (le : A → A → Bool) where
  length-place : (x : A) (xs : List A) → length (place le x xs) ≡ suc (length xs)
  unfolding place
  length-place x [] = refl
  length-place x (y ∷ ys) = ground (arith, length-place x ys)

  pub length-sorted : (xs : List A) → length (sorted le xs) ≡ length xs
  unfolding sorted
  length-sorted [] = refl
  length-sorted (x ∷ xs) = length-place x (sorted le xs) ∙ ap suc (length-sorted xs)

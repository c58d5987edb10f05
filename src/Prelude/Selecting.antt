-- ===== src/Prelude/Selecting.antt =====
-- What `[x for x in xs if p x]` leaves of a list.
use mathlib.Core.Path.{◌≡◌, refl}
use mathlib.Core.Logic.{inl, inr}
use mathlib.Core.Bool.{Bool, true}
use mathlib.Core.List.{List, [], ◌∷◌}
use native.Mathlib.Omega.{arith}
use iris_mind_v.Prelude.Tests.{Bool-cases}
use iris_mind_v.Prelude.Lists.{All, select, count, length}

module _ {ℓ} {A : Type ℓ} (p : A → Bool) where
  pub length-select : (xs : List A) → length (select p xs) ≡ count p xs
  unfolding select count
  length-select [] = refl
  length-select (x ∷ xs) = ground (arith, length-select xs)

  pub select-All {κ} :
      (P : A → Type κ) (xs : List A) → All P xs → All (λ x. P x × (p x ≡ true)) (select p xs)
  unfolding select
  select-All P [] h = tt
  select-All P (x ∷ xs) h = elim (Bool-cases (p x)) [
    | inl e ↦ rw (e, select) ((h.0, e), select-All P xs h.1)
    | inr e ↦ rw (e, select) (select-All P xs h.1)
  ]

  pub select-All_inv {κ} :
      (P : A → Type κ) (xs : List A) → All P (select p xs) → All (λ x. p x ≡ true → P x) xs
  unfolding select
  select-All_inv P [] h = tt
  select-All_inv P (x ∷ xs) h = elim (Bool-cases (p x)) [
    | inl e ↦ let t : P x × All P (select p xs) = rw e at h in (λ f. t.0, select-All_inv P xs t.1)
    | inr e ↦
        let t : All P (select p xs) = rw e at h in
        (λ f. ground (arith, e, f), select-All_inv P xs t)
  ]

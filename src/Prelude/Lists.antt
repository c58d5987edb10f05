-- ===== src/Prelude/Lists.antt =====
-- Lists measured by native numbers, and predicates on lists by recursion.
use Prim.Native.Nat.{ℕ, zero, suc, ◌+◌, ◌-◌, ◌≤◌, ◌<◌, min}
use mathlib.Core.Path.{◌≡◌, refl, ap, subst}
use mathlib.Core.Logic.{◌≢◌, inl, inr}
use mathlib.Core.Option.{Option, none, some}
use mathlib.Core.Bool.{Bool, true, false, ◌||◌}
use mathlib.Core.List.{List, [], ◌∷◌, ◌++◌, map}
use native.Mathlib.Omega.{arith}
use iris_mind_v.Prelude.Tests.{if◌then◌else◌, Bool-cases}
use iris_mind_v.Prelude.Equality.{Eq, ◌==◌}

module _ {ℓ} {A : Type ℓ} where
  abbrev pub length : List A → ℕ
  length [] = 0
  length (x ∷ xs) = suc (length xs)

  pub length-append : (xs ys : List A) → length (xs ++ ys) ≡ length xs + length ys
  length-append [] ys = omega arith
  length-append (x ∷ xs) ys = omega (arith, length-append xs ys)

  abbrev pub All {κ} : (A → Type κ) → List A → Type κ
  All P [] = Unit
  All P (x ∷ xs) = P x × All P xs

  -- `[x for x in xs if p x]`
  unfoldable pub select : (A → Bool) → List A → List A
  select p [] = []
  select p (x ∷ xs) = let rest = select p xs in if p x then x ∷ rest else rest

  -- `sum(1 for x in xs if p x)`
  unfoldable pub count : (A → Bool) → List A → ℕ
  count p [] = 0
  count p (x ∷ xs) = (if p x then 1 else 0) + count p xs

  -- `any(p x for x in xs)`
  unfoldable pub any : (A → Bool) → List A → Bool
  any p [] = false
  any p (x ∷ xs) = p x || any p xs

module _ {ℓ κ} {A : Type ℓ} (P : A → Type κ) where
  pub All-append : (xs ys : List A) → All P xs → All P ys → All P (xs ++ ys)
  All-append [] ys hx hy = hy
  All-append (x ∷ xs) ys hx hy = (hx.0, All-append xs ys hx.1 hy)

module _ {ℓ κ μ} {A : Type ℓ} {P : A → Type κ} {Q : A → Type μ} where
  pub All-map : ((x : A) → P x → Q x) → (xs : List A) → All P xs → All Q xs
  All-map f [] h = tt
  All-map f (x ∷ xs) h = (f x h.0, All-map f xs h.1)

-- `x in xs`
unfoldable pub elem {ℓ} : {A : Type ℓ} ⦃e : Eq A⦄ → A → List A → Bool
elem x [] = false
elem x (y ∷ ys) = x == y || elem x ys

-- `sum(f(x) for x in xs)`
unfoldable pub sum_of {ℓ} : {A : Type ℓ} → (A → ℕ) → List A → ℕ
sum_of f [] = 0
sum_of f (x ∷ xs) = f x + sum_of f xs

module _ {ℓ} {A : Type ℓ} where
  -- `xs[:n]`
  abbrev pub take : ℕ → List A → List A
  take zero xs = []
  take (suc n) [] = []
  take (suc n) (x ∷ xs) = x ∷ take n xs

  -- `xs[n:]`
  abbrev pub drop : ℕ → List A → List A
  drop zero xs = xs
  drop (suc n) [] = []
  drop (suc n) (x ∷ xs) = drop n xs

  -- `xs[i]`, none out of range
  abbrev pub get_elem? : List A → ℕ → Option A
  get_elem? [] i = none
  get_elem? (x ∷ xs) zero = some x
  get_elem? (x ∷ xs) (suc i) = get_elem? xs i

  -- `xs[i] = x`, for an index in range
  abbrev pub set : List A → ℕ → A → List A
  set [] i x = []
  set (y ∷ ys) zero x = x ∷ ys
  set (y ∷ ys) (suc i) x = y ∷ set ys i x

  pub get_elem?-append :
      (xs ys : List A) (i : ℕ) {x : A} → get_elem? xs i ≡ some x → get_elem? (xs ++ ys) i ≡ some x
  get_elem?-append [] ys i h = cc
  get_elem?-append (x ∷ xs) ys zero h = h
  get_elem?-append (x ∷ xs) ys (suc i) h = get_elem?-append xs ys i h

  pub get_elem?-append_last : (xs : List A) (x : A) → get_elem? (xs ++ x ∷ []) (length xs) ≡ some x
  get_elem?-append_last [] x = refl
  get_elem?-append_last (y ∷ xs) x = get_elem?-append_last xs x

  pub length-take : (n : ℕ) (xs : List A) → length (take n xs) ≡ min n (length xs)
  length-take zero xs = omega arith
  length-take (suc n) [] = omega arith
  length-take (suc n) (x ∷ xs) = omega (arith, length-take n xs)

  pub length-drop : (n : ℕ) (xs : List A) → length (drop n xs) ≡ length xs - n
  length-drop zero xs = omega arith
  length-drop (suc n) [] = omega arith
  length-drop (suc n) (x ∷ xs) = omega (arith, length-drop n xs)

  pub take_all : (n : ℕ) (xs : List A) → length xs ≤ n → take n xs ≡ xs
  take_all zero [] h = refl
  take_all (suc n) [] h = refl
  take_all zero (x ∷ xs) h = ground arith
  take_all (suc n) (x ∷ xs) h = ap (λ ys. x ∷ ys) (take_all n xs (omega arith))

  pub length-set : (xs : List A) (i : ℕ) (y : A) → length (set xs i y) ≡ length xs
  length-set [] i y = refl
  length-set (x ∷ xs) zero y = refl
  length-set (x ∷ xs) (suc i) y = ap suc (length-set xs i y)

  pub sum_of-set :
      (f : A → ℕ) (xs : List A) (i : ℕ) (x y : A)
      → get_elem? xs i ≡ some x
      → sum_of f (set xs i y) + f x ≡ sum_of f xs + f y
  unfolding sum_of
  sum_of-set f [] i x y h = cc
  sum_of-set f (z ∷ xs) zero x y h = ground arith
  sum_of-set f (z ∷ xs) (suc i) x y h = omega (arith, sum_of-set f xs i x y h)

  pub get_elem?-set_other :
      (xs : List A) (i j : ℕ) (y : A) → i ≢ j → get_elem? (set xs i y) j ≡ get_elem? xs j
  get_elem?-set_other [] i j y h = refl
  get_elem?-set_other (x ∷ xs) zero zero y h = elim (h refl) [ ]
  get_elem?-set_other (x ∷ xs) zero (suc j) y h = refl
  get_elem?-set_other (x ∷ xs) (suc i) zero y h = refl
  get_elem?-set_other (x ∷ xs) (suc i) (suc j) y h =
      get_elem?-set_other xs i j y (λ e. h (ap suc e))

module _ {ℓ} {A : Type ℓ} where
  pub get_elem?-set_here :
      (xs : List A) (i : ℕ) (x y : A) → get_elem? xs i ≡ some x → get_elem? (set xs i y) i ≡ some y
  get_elem?-set_here [] i x y h = cc
  get_elem?-set_here (z ∷ xs) zero x y h = refl
  get_elem?-set_here (z ∷ xs) (suc i) x y h = get_elem?-set_here xs i x y h

  pub All-both {κ μ} :
      (P : A → Type κ) (Q : A → Type μ) (xs : List A)
      → All P xs
      → All Q xs
      → All (λ x. P x × Q x) xs
  All-both P Q [] h k = tt
  All-both P Q (x ∷ xs) h k = ((h.0, k.0), All-both P Q xs h.1 k.1)

  -- An element that passes the test, where some do.
  pub All-found {κ} :
      (P : A → Type κ) (p : A → Bool) (xs : List A)
      → All P xs
      → 0 < count p xs
      → (x : A) × (P x) × (p x ≡ true)
  unfolding count
  All-found P p [] h k = elim k [ ]
  All-found P p (x ∷ xs) h k = elim (Bool-cases (p x)) [
    | inl e ↦ (x, h.0, e)
    | inr e ↦ All-found P p xs h.1 (ground (arith, e, k))
  ]

module _ {ℓ κ} {A : Type ℓ} (P : A → Type κ) where
  pub All-set : (xs : List A) (i : ℕ) (y : A) → All P xs → P y → All P (set xs i y)
  All-set [] i y h p = tt
  All-set (x ∷ xs) zero y h p = (p, h.1)
  All-set (x ∷ xs) (suc i) y h p = (h.0, All-set xs i y h.1 p)

module _ {ℓ κ} {A : Type ℓ} {B : Type κ} (f : A → B) where
  -- An entry replaced by one of the same image.
  pub map-set :
      (xs : List A) (i : ℕ) (x y : A)
      → get_elem? xs i ≡ some x
      → f y ≡ f x
      → map f (set xs i y) ≡ map f xs
  map-set [] i x y h e = refl
  map-set (z ∷ xs) zero x y h e = cc
  map-set (z ∷ xs) (suc i) x y h e = ap (λ ys. f z ∷ ys) (map-set xs i x y h e)

  pub length-map : (xs : List A) → length (map f xs) ≡ length xs
  length-map [] = refl
  length-map (x ∷ xs) = ap suc (length-map xs)

some_ne_none {ℓ} : {A : Type ℓ} {x : A} → none ≡ some x → ⊥
some_ne_none e = cc

some_injective {ℓ} : {A : Type ℓ} {x y : A} → some x ≡ some y → x ≡ y
some_injective e = cc

module _ {ℓ κ} {A : Type ℓ} (P : A → Type κ) where
  pub All-get_elem? : (xs : List A) (i : ℕ) (x : A) → All P xs → get_elem? xs i ≡ some x → P x
  All-get_elem? [] i x h e = elim (some_ne_none e) [ ]
  All-get_elem? (y ∷ xs) zero x h e = subst P (some_injective e) h.0
  All-get_elem? (y ∷ xs) (suc i) x h e = All-get_elem? xs i x h.1 e

module _ {ℓ κ μ} {A : Type ℓ} {B : Type κ} (P : B → Type μ) (f : A → B) where
  pub All-image : (xs : List A) → All (λ x. P (f x)) xs → All P (map f xs)
  All-image [] h = tt
  All-image (x ∷ xs) h = (h.0, All-image xs h.1)

module _ {ℓ κ μ} {A : Type ℓ} {B : Type κ} {C : Type μ} (g : B → C) (f : A → B) where
  pub map-map : (xs : List A) → map g (map f xs) ≡ map (λ x. g (f x)) xs
  map-map [] = refl
  map-map (x ∷ xs) = ap (λ ys. g (f x) ∷ ys) (map-map xs)

module _ {ℓ κ} {A : Type ℓ} {B : Type κ} (f g : A → B) where
  pub map-same : ((x : A) → f x ≡ g x) → (xs : List A) → map f xs ≡ map g xs
  map-same h [] = refl
  map-same h (x ∷ xs) = λ i. h x i ∷ map-same h xs i

module _ {ℓ κ} {A : Type ℓ} (P : A → Type κ) where
  pub All-always : ((x : A) → P x) → (xs : List A) → All P xs
  All-always h [] = tt
  All-always h (x ∷ xs) = (h x, All-always h xs)

module _ {ℓ} {A : Type ℓ} (f g : A → ℕ) where
  pub sum_of-le : ((x : A) → f x ≤ g x) → (xs : List A) → sum_of f xs ≤ sum_of g xs
  unfolding sum_of
  sum_of-le h [] = omega arith
  sum_of-le h (x ∷ xs) = omega (arith, h x, sum_of-le h xs)

module _ {ℓ κ} {A : Type ℓ} {B : Type κ} (g : B → ℕ) (f : A → B) where
  pub sum_of-map : (xs : List A) → sum_of g (map f xs) ≡ sum_of (λ x. g (f x)) xs
  unfolding sum_of
  sum_of-map [] = refl
  sum_of-map (x ∷ xs) = omega (arith, sum_of-map xs)

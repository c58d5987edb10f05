-- ===== src/Inference/Leases.antt =====
-- Lemmas on the active leases (iris/runtime/inference/scheduler.py): counting, cancelling and popping.
use iris_mind_v.Prelude.{
  ◌≤◌, ◌<◌, ◌≡◌, refl, ◌∙◌, ◌≢◌, inl, inr, Text, text_eq, none, some, Bool, true, arith, List, [],
  ◌∷◌, count, select, All, Bool-cases,
}
use iris_mind_v.Prelude.Dict.{
  Dict, values, values-lookup, lookup, remove, IsKeyed, lookup-remove_ne,
}
use iris_mind_v.Inference.Scheduler.{
  ActiveLease, is_target, cancel_if_target, cancel_targets, pop_all,
}

module _ {C : Type 0} where
  abbrev pub id_of : ActiveLease C → Text
  id_of l = l.lease_id

  -- A test that the cancellation of a token does not change.
  abbrev pub AsksRequest : (ActiveLease C → Bool) → Type 0
  AsksRequest p = (l : ActiveLease C) → p (cancel_if_target l) ≡ p l

  pub count-cancel_targets :
      (p : ActiveLease C → Bool) (d : Dict Text (ActiveLease C))
      → AsksRequest p
      → count p (values (cancel_targets d)) ≡ count p (values d)
  unfolding cancel_targets count values
  count-cancel_targets p [] h = refl
  count-cancel_targets p ((i, l) ∷ d) h = ground (arith, count-cancel_targets p d h, h l)

  pub lookup-cancel_targets :
      (id : Text) (d : Dict Text (ActiveLease C))
      → lookup id (cancel_targets d)
        ≡ elim (lookup id d) [ none ↦ none | some l ↦ some (cancel_if_target l) ]
  unfolding cancel_targets lookup
  lookup-cancel_targets id [] = refl
  lookup-cancel_targets id ((i, l) ∷ d) = ground (arith, lookup-cancel_targets id d)

  pub cancel_targets-IsKeyed :
      (d : Dict Text (ActiveLease C)) → IsKeyed id_of d → IsKeyed id_of (cancel_targets d)
  unfolding cancel_targets cancel_if_target
  cancel_targets-IsKeyed [] w = tt
  cancel_targets-IsKeyed ((i, l) ∷ d) w = (
    ground (arith, w.0),
    ground (arith, lookup-cancel_targets i d, w.1),
    cancel_targets-IsKeyed d w.2,
  )

  pub lookup-remove_absent :
      (id j : Text) (d : Dict Text (ActiveLease C))
      → lookup id d ≡ none
      → lookup id (remove j d) ≡ none
  unfolding remove lookup
  lookup-remove_absent id j [] h = refl
  lookup-remove_absent id j ((i, l) ∷ d) h = ground (arith, lookup-remove_absent id j d)

  pub remove-IsKeyed :
      (id : Text) (d : Dict Text (ActiveLease C)) → IsKeyed id_of d → IsKeyed id_of (remove id d)
  unfolding remove
  remove-IsKeyed id [] w = tt
  remove-IsKeyed id ((i, l) ∷ d) w =
      ground (arith, remove-IsKeyed id d w.2, lookup-remove_absent i id d w.1)

  pub count-remove-le :
      (p : ActiveLease C → Bool) (id : Text) (d : Dict Text (ActiveLease C))
      → count p (values (remove id d)) ≤ count p (values d)
  unfolding remove count values
  count-remove-le p id [] = omega arith
  count-remove-le p id ((i, l) ∷ d) = ground (arith, count-remove-le p id d)

  pub count-remove-lt :
      (p : ActiveLease C → Bool) (id : Text) (l : ActiveLease C) (d : Dict Text (ActiveLease C))
      → lookup id d ≡ some l
      → p l ≡ true
      → count p (values (remove id d)) < count p (values d)
  unfolding remove lookup count values
  count-remove-lt p id l [] h t = cc
  count-remove-lt p id l ((i, u) ∷ d) h t = ground (arith, count-remove-lt p id l d)

  pub count-pop_all-le :
      (p : ActiveLease C → Bool) (ls : List (ActiveLease C)) (d : Dict Text (ActiveLease C))
      → count p (values (pop_all ls d)) ≤ count p (values d)
  unfolding pop_all
  count-pop_all-le p [] d = omega arith
  count-pop_all-le p (l ∷ ls) d =
      omega (arith, count-pop_all-le p ls (remove l.lease_id d), count-remove-le p l.lease_id d)

  pub pop_all-IsKeyed :
      (ls : List (ActiveLease C)) (d : Dict Text (ActiveLease C))
      → IsKeyed id_of d
      → IsKeyed id_of (pop_all ls d)
  unfolding pop_all
  pop_all-IsKeyed [] d w = w
  pop_all-IsKeyed (l ∷ ls) d w =
      pop_all-IsKeyed ls (remove l.lease_id d) (remove-IsKeyed l.lease_id d w)

  pub select-All {κ} :
      (P : ActiveLease C → Type κ) (p : ActiveLease C → Bool) (ls : List (ActiveLease C))
      → All P ls
      → All (λ l. P l × (p l ≡ true)) (select p ls)
  unfolding select
  select-All P p [] h = tt
  select-All P p (l ∷ ls) h = elim (Bool-cases (p l)) [
    | inl e ↦ rw e ((h.0, e), select-All P p ls h.1)
    | inr e ↦ rw e (select-All P p ls h.1)
  ]

  -- Each target is the lease that its own id looks up.
  pub targets-lookup :
      (d : Dict Text (ActiveLease C))
      → IsKeyed id_of d
      → All
          (λ l. (lookup l.lease_id d ≡ some l) × (is_target l ≡ true))
          (select is_target (values d))
  targets-lookup d w =
      select-All (λ l. lookup l.lease_id d ≡ some l) is_target (values d) (values-lookup id_of d w)

  -- What is not popped stays.
  pub lookup-pop_all :
      (id : Text) (ls : List (ActiveLease C)) (d : Dict Text (ActiveLease C))
      → All (λ l. l.lease_id ≢ id) ls
      → lookup id (pop_all ls d) ≡ lookup id d
  unfolding pop_all
  lookup-pop_all id [] d h = refl
  lookup-pop_all id (l ∷ ls) d h =
      lookup-pop_all id ls (remove l.lease_id d) h.1 ∙ lookup-remove_ne l.lease_id id d h.0

  pub lookup-pop_all_absent :
      (id : Text) (ls : List (ActiveLease C)) (d : Dict Text (ActiveLease C))
      → lookup id d ≡ none
      → lookup id (pop_all ls d) ≡ none
  unfolding pop_all
  lookup-pop_all_absent id [] d h = h
  lookup-pop_all_absent id (l ∷ ls) d h =
      lookup-pop_all_absent id ls _ (lookup-remove_absent id l.lease_id d h)

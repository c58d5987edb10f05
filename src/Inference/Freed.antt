-- ===== src/Inference/Freed.antt =====
-- What a preemption of the scheduler (iris/runtime/inference/scheduler.py) leaves of the leases.
use iris_mind_v.Prelude.{
  ◌≤◌, ◌<◌, ◌≡◌, refl, ◌∙◌, Text, text_eq, none, some, ◌==◌, Bool, true, false, arith, List, [],
  ◌∷◌, count, select, All,
}
use iris_mind_v.Prelude.Dict.{Dict, values, lookup, remove, IsKeyed}
use iris_mind_v.Inference.Models.{InferenceSlotKind, slot_kind_eq}
use iris_mind_v.Inference.Scheduler.{
  ActiveLease, Scheduler, is_large, slot_count, large_count, is_target, is_nil, cancel_if_target,
  cancel_targets, pop_all, preempt,
}
use iris_mind_v.Inference.Leases.{
  id_of, count-cancel_targets, lookup-cancel_targets, cancel_targets-IsKeyed, count-remove-lt,
  count-pop_all-le, pop_all-IsKeyed, targets-lookup, lookup-pop_all_absent,
}

module _ {C : Type 0} where
  pub large_count-count :
      (d : Dict Text (ActiveLease C))
      → large_count d ≡ count (λ l. is_large l.request.slot_kind) (values d)
  unfolding large_count slot_count count values
  large_count-count [] = refl
  large_count-count ((i, l) ∷ d) = ground (arith, large_count-count d)

  pub targets_large : (l : ActiveLease C) → is_target l ≡ true → is_large l.request.slot_kind ≡ true
  unfolding is_target
  targets_large l h = ground arith

  pub asks_large :
      (l : ActiveLease C)
      → is_large (cancel_if_target l).request.slot_kind ≡ is_large l.request.slot_kind
  unfolding cancel_if_target
  asks_large l = ground arith

  pub asks_kind :
      (kind : InferenceSlotKind) (l : ActiveLease C)
      → ((cancel_if_target l).request.slot_kind == kind) ≡ (l.request.slot_kind == kind)
  unfolding cancel_if_target
  asks_kind kind l = ground arith

  pub pop_all-lt :
      (d : Dict Text (ActiveLease C)) (ls : List (ActiveLease C))
      → All (λ l. (lookup l.lease_id d ≡ some l) × (is_target l ≡ true)) ls
      → is_nil ls ≡ false
      → large_count (pop_all ls (cancel_targets d)) < large_count d
  unfolding pop_all
  pop_all-lt d [] h e = cc
  pop_all-lt d (l ∷ ls) h e = omega (
    arith,
    large_count-count d,
    large_count-count (pop_all ls (remove l.lease_id (cancel_targets d))),
    count-cancel_targets (λ (l : ActiveLease C). is_large l.request.slot_kind) d asks_large,
    count-pop_all-le (λ (l : ActiveLease C). is_large l.request.slot_kind) ls
        (remove l.lease_id (cancel_targets d)),
    count-remove-lt (λ (l : ActiveLease C). is_large l.request.slot_kind) l.lease_id
        (cancel_if_target l) (cancel_targets d)
        (rw (lookup-cancel_targets l.lease_id d, h.0.0) refl)
        (asks_large l ∙ targets_large l h.0.1),
  )

  -- Popping the targets frees a large slot.
  pub preempt-lt :
      (s : Scheduler C)
      → IsKeyed id_of s.active_leases
      → (preempt s).1 ≡ true
      → large_count (preempt s).0.active_leases < large_count s.active_leases
  unfolding preempt
  preempt-lt s w done = ground (
    arith,
    pop_all-lt s.active_leases (select is_target (values s.active_leases))
        (targets-lookup s.active_leases w),
  )

  pub preempt-count-le :
      (p : ActiveLease C → Bool) (s : Scheduler C)
      → ((l : ActiveLease C) → p (cancel_if_target l) ≡ p l)
      → count p (values (preempt s).0.active_leases) ≤ count p (values s.active_leases)
  unfolding preempt
  preempt-count-le p s h = ground (
    arith,
    count-cancel_targets p s.active_leases h,
    count-pop_all-le p (select is_target (values s.active_leases)) (cancel_targets s.active_leases),
  )

  pub preempt-slot_count-le :
      (kind : InferenceSlotKind) (s : Scheduler C)
      → slot_count kind (preempt s).0.active_leases ≤ slot_count kind s.active_leases
  unfolding slot_count
  preempt-slot_count-le kind s =
      preempt-count-le (λ l. l.request.slot_kind == kind) s (asks_kind kind)

  pub preempt-IsKeyed :
      (s : Scheduler C) → IsKeyed id_of s.active_leases → IsKeyed id_of (preempt s).0.active_leases
  unfolding preempt
  preempt-IsKeyed s w = ground (
    arith,
    cancel_targets-IsKeyed s.active_leases w,
    pop_all-IsKeyed (select is_target (values s.active_leases)) (cancel_targets s.active_leases),
  )

  pub preempt-fresh :
      (id : Text) (s : Scheduler C)
      → lookup id s.active_leases ≡ none
      → lookup id (preempt s).0.active_leases ≡ none
  unfolding preempt
  preempt-fresh id s h = ground (
    arith,
    lookup-cancel_targets id s.active_leases,
    lookup-pop_all_absent id (select is_target (values s.active_leases))
        (cancel_targets s.active_leases),
  )

-- ===== src/Inference/Limits.antt =====
-- The slot limits of the scheduler (iris/runtime/inference/scheduler.py).
use iris_mind_v.Prelude.{
  ◌+◌, ◌≤◌, ◌≡◌, refl, inl, inr, Text, text_eq, none, ◌==◌, true, if◌then◌else◌, arith, Bool-cases,
  Option-cases,
}
use iris_mind_v.Prelude.Dict.{Dict, lookup, insert, IsKeyed, insert-IsKeyed, count-insert_new}
use iris_mind_v.Inference.Models.{
  Time, InferenceSlotKind, small_classifier, embedding, reranker, slot_kind_eq,
  InferenceLeaseRequest, LocalInferenceResourcePolicy,
}
use iris_mind_v.Inference.Scheduler.{
  ActiveLease, Scheduler, is_large, slot_count, large_count, new_lease, acquire_lease,
  capacity_reason, can_preempt_for, preempt, capacity_decision, state_rejection, acquire,
}
use iris_mind_v.Inference.Freed.{
  large_count-count, asks_large, preempt-lt, preempt-count-le, preempt-slot_count-le,
  preempt-IsKeyed, preempt-fresh,
}
use iris_mind_v.Inference.Leases.{id_of}

module _ {C : Type 0} where
  module _ (policy : LocalInferenceResourcePolicy) where
    -- Each pool of slots holds no more leases than its limit; the two kinds of large slots share one.
    pub record IsWithinLimits (d : Dict Text (ActiveLease C)) : Type 0 where
      pub large : large_count d ≤ policy.large_llm_concurrency_limit
      pub small : slot_count small_classifier d ≤ policy.small_classifier_concurrency_limit
      pub embeddings : slot_count embedding d ≤ policy.embedding_concurrency_limit
      pub rerankers : slot_count reranker d ≤ policy.reranker_concurrency_limit

    -- Every lease stands under its own id, and the limits hold.
    pub record IsSound (s : Scheduler C) : Type 0 where
      pub keyed : IsKeyed id_of s.active_leases
      pub within : IsWithinLimits s.active_leases

    slot_count-insert :
        (kind : InferenceSlotKind) (id : Text) (l : ActiveLease C) (d : Dict Text (ActiveLease C))
        → lookup id d ≡ none
        → slot_count kind (insert id l d)
          ≡ slot_count kind d + (if l.request.slot_kind == kind then 1 else 0)
    unfolding slot_count
    slot_count-insert kind id l d h =
        count-insert_new (λ (l : ActiveLease C). l.request.slot_kind == kind) id l d h

    large_count-insert :
        (id : Text) (l : ActiveLease C) (d : Dict Text (ActiveLease C))
        → lookup id d ≡ none
        → large_count (insert id l d)
          ≡ large_count d + (if is_large l.request.slot_kind then 1 else 0)
    large_count-insert id l d h = omega (
      arith,
      large_count-count (insert id l d),
      large_count-count d,
      count-insert_new (λ (l : ActiveLease C). is_large l.request.slot_kind) id l d h,
    )

    -- A lease that finds room leaves the scheduler sound.
    acquire_lease-IsSound :
        (request : InferenceLeaseRequest) (now : Time) (id reason : Text) (s : Scheduler C)
        → lookup id s.active_leases ≡ none
        → capacity_reason policy request s ≡ none
        → IsSound s
        → IsSound (acquire_lease request now id reason s).0
    unfolding acquire_lease capacity_reason
    acquire_lease-IsSound request now id reason s fresh room w = record {
      keyed = insert-IsKeyed id_of id _ s.active_leases refl w.keyed;
      within = record {
        large = ground (
          arith,
          w.within.large,
          large_count-insert id (new_lease request now id) s.active_leases fresh,
        );
        small = ground (
          arith,
          w.within.small,
          slot_count-insert small_classifier id (new_lease request now id) s.active_leases fresh,
        );
        embeddings = ground (
          arith,
          w.within.embeddings,
          slot_count-insert embedding id (new_lease request now id) s.active_leases fresh,
        );
        rerankers = ground (
          arith,
          w.within.rerankers,
          slot_count-insert reranker id (new_lease request now id) s.active_leases fresh,
        );
      };
    }

    preempt-IsSound : (s : Scheduler C) → IsSound s → IsSound (preempt s).0
    preempt-IsSound s w = record {
      keyed = preempt-IsKeyed s w.keyed;
      within = record {
        large = omega (
          arith,
          w.within.large,
          large_count-count s.active_leases,
          large_count-count (preempt s).0.active_leases,
          preempt-count-le (λ l. is_large l.request.slot_kind) s asks_large,
        );
        small = omega (arith, w.within.small, preempt-slot_count-le small_classifier s);
        embeddings = omega (arith, w.within.embeddings, preempt-slot_count-le embedding s);
        rerankers = omega (arith, w.within.rerankers, preempt-slot_count-le reranker s);
      };
    }

    preempt-room :
        (request : InferenceLeaseRequest) (s : Scheduler C)
        → IsSound s
        → can_preempt_for request ≡ true
        → (preempt s).1 ≡ true
        → capacity_reason policy request (preempt s).0 ≡ none
    unfolding capacity_reason can_preempt_for
    preempt-room request s w may done = ground (arith, w.within.large, preempt-lt s w.keyed done)

    capacity_decision-IsSound :
        (request : InferenceLeaseRequest) (now : Time) (id : Text) (s : Scheduler C)
        → lookup id s.active_leases ≡ none
        → IsSound s
        → IsSound (capacity_decision policy request now id s).0
    unfolding capacity_decision
    capacity_decision-IsSound request now id s fresh w =
        elim (Option-cases (capacity_reason policy request s)) [
          | inl room ↦
              rw (room, capacity_decision) (acquire_lease-IsSound request now id _ s fresh room w)
          | inr (reason, full) ↦ elim (Bool-cases (can_preempt_for request)) [
            | inr stays ↦ rw (full, capacity_decision, stays) w
            | inl may ↦ elim (Bool-cases (preempt s).1) [
              | inl done ↦
                  rw (full, capacity_decision, may, done)
                    (acquire_lease-IsSound request now id _ (preempt s).0 (preempt-fresh id s fresh)
                      (preempt-room request s w may done) (preempt-IsSound s w))
              | inr kept ↦ rw (full, capacity_decision, may, kept) (preempt-IsSound s w)
            ]
          ]
        ]

    -- With the scheduler enabled, `acquire` keeps every pool within its limit, whatever it answers.
    pub acquire-IsSound :
        (request : InferenceLeaseRequest) (now : Time) (id : Text) (s : Scheduler C)
        → policy.enabled ≡ true
        → lookup id s.active_leases ≡ none
        → IsSound s
        → IsSound (acquire policy request now id s).0
    unfolding acquire
    acquire-IsSound request now id s on fresh w =
        elim (Option-cases (state_rejection policy request now s)) [
          | inl free ↦ simp (on, acquire, free) (capacity_decision-IsSound request now id s fresh w)
          | inr (rejection, refused) ↦ simp (on, acquire, refused) w
        ]

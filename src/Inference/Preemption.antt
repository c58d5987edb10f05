-- ===== src/Inference/Preemption.antt =====
-- Which leases an `acquire` (iris/runtime/inference/scheduler.py) may take away.
use iris_mind_v.Prelude.{
  ◌≡◌, refl, ap, ◌∙◌, ◌≢◌, inl, inr, Text, text_eq, Option, some, Bool, true, false, not, ◌||◌,
  arith, List, [], ◌∷◌, select, any, All-map, Bool-cases, Option-cases,
}
use iris_mind_v.Prelude.Dict.{Dict, values, lookup, insert, IsKeyed, lookup-insert_ne}
use iris_mind_v.Inference.Models.{Time, InferenceLeaseRequest, LocalInferenceResourcePolicy}
use iris_mind_v.Inference.Scheduler.{
  ActiveLease, Scheduler, new_lease, acquire_lease, capacity_reason, can_preempt_for, is_target,
  is_nil, cancel_if_target, cancel_targets, pop_all, preempt, capacity_decision, state_rejection,
  acquire,
}
use iris_mind_v.Inference.Leases.{id_of, lookup-cancel_targets, targets-lookup, lookup-pop_all}

module _ {C : Type 0} where
  -- A lease that may be taken away for the request: the request is urgent and both want a large slot,
  -- the lease has low priority and is preemptible, and its worker has said that it stopped.
  pub record MayPreempt (request : InferenceLeaseRequest) (l : ActiveLease C) : Type 0 where
    pub urgent : can_preempt_for request ≡ true
    pub target : is_target l ≡ true
    pub preemptible : l.request.preemptible ≡ true
    pub stopped : l.cancellation_token.stopped ≡ true

  -- What may have become of a lease.
  pub data Fate (request : InferenceLeaseRequest) (l : ActiveLease C)
      (after : Option (ActiveLease C)) : Type 0 where
    untouched : after ≡ some l → Fate request l after
    asked_to_stop :
        can_preempt_for request ≡ true
        → is_target l ≡ true
        → after ≡ some (cancel_if_target l)
        → Fate request l after
    preempted : MayPreempt request l → Fate request l after

  any-false :
      (p : ActiveLease C → Bool) (j : Text) (l : ActiveLease C) (d : Dict Text (ActiveLease C))
      → any p (select is_target (values d)) ≡ false
      → lookup j d ≡ some l
      → is_target l ≡ true
      → p l ≡ false
  unfolding any select values lookup
  any-false p j l [] h found t = cc
  any-false p j l ((i, u) ∷ d) h found t = ground (arith, any-false p j l d)

  cancel_if_target_other :
      (l : ActiveLease C) → is_target l ≡ false → some (cancel_if_target l) ≡ some l
  unfolding cancel_if_target
  cancel_if_target_other l t = ground arith

  not_popped :
      (j : Text) (l : ActiveLease C) (d : Dict Text (ActiveLease C))
      → IsKeyed id_of d
      → lookup j d ≡ some l
      → is_target l ≡ false
      → lookup j (pop_all (select is_target (values d)) (cancel_targets d)) ≡ some l
  unfolding cancel_if_target
  not_popped j l d w found t =
      lookup-pop_all j (select is_target (values d)) (cancel_targets d)
        (All-map (λ u h same. other u h same) (select is_target (values d)) (targets-lookup d w))
      ∙ lookup-cancel_targets j d
      ∙ rw found (ground arith)
    where
      other :
          (u : ActiveLease C)
          → (lookup u.lease_id d ≡ some u) × (is_target u ≡ true)
          → u.lease_id ≡ j
          → ⊥
      other u h same = ground (arith, ap (λ k. lookup k d) same)

  preempt-Fate :
      (request : InferenceLeaseRequest) (s : Scheduler C) (j : Text) (l : ActiveLease C)
      → IsKeyed id_of s.active_leases
      → can_preempt_for request ≡ true
      → lookup j s.active_leases ≡ some l
      → Fate request l (lookup j (preempt s).0.active_leases)
  unfolding preempt
  preempt-Fate request s j l w may found = elim (Bool-cases (is_target l)) [
    | inr t ↦ untouched (ground (arith, not_popped j l s.active_leases w found t, unmoved t))
    | inl t ↦
        elim (Bool-cases
          (is_nil targets || any (λ (l : ActiveLease C). not l.request.preemptible) targets)) [
            | inl stays ↦ rw (stays, preempt) (untouched found)
            | inr all_preemptible ↦
                elim (Bool-cases
                  (any (λ (l : ActiveLease C). not l.cancellation_token.stopped) targets)) [
                    | inl waits ↦
                        rw (all_preemptible, waits, preempt)
                          (asked_to_stop may t
                            (lookup-cancel_targets j s.active_leases ∙ rw found refl))
                    | inr all_stopped ↦ preempted (record {
                      urgent = may;
                      target = t;
                      preemptible = ground (
                        arith,
                        any-false (λ (l : ActiveLease C). not l.request.preemptible) j l
                            s.active_leases,
                      );
                      stopped = ground (
                        arith,
                        any-false (λ (l : ActiveLease C). not l.cancellation_token.stopped) j l
                            s.active_leases,
                      );
                    })
                  ]
          ]
  ]
    where
      targets : List (ActiveLease C)
      targets = select is_target (values s.active_leases)

      unmoved : is_target l ≡ false → lookup j (cancel_targets s.active_leases) ≡ some l
      unmoved t = lookup-cancel_targets j s.active_leases ∙ rw found (cancel_if_target_other l t)

  -- Where leases stand under their ids, an acquire under a new id takes no lease away but for
  -- an urgent request for a large slot, and then only a preemptible large lease of low priority
  -- whose worker has stopped; otherwise the lease stays, at most asked to stop if it is a large
  -- one of low priority and the request is urgent.
  pub acquire-Fate :
      (policy : LocalInferenceResourcePolicy) (request : InferenceLeaseRequest) (now : Time)
      (id : Text) (s : Scheduler C) (j : Text) (l : ActiveLease C)
      → IsKeyed id_of s.active_leases
      → id ≢ j
      → lookup j s.active_leases ≡ some l
      → Fate request l (lookup j (acquire policy request now id s).0.active_leases)
  unfolding acquire capacity_decision acquire_lease
  acquire-Fate policy request now id s j l w other found = elim (Bool-cases policy.enabled) [
    | inr off ↦ simp (off, acquire) stored
    | inl on ↦ elim (Option-cases (state_rejection policy request now s)) [
      | inr (rejection, refused) ↦ simp (on, refused, acquire) (untouched found)
      | inl free ↦ elim (Option-cases (capacity_reason policy request s)) [
        | inl room ↦ simp (on, free, acquire, capacity_decision, room) stored
        | inr (reason, full) ↦ elim (Bool-cases (can_preempt_for request)) [
          | inr stays ↦ simp (on, free, acquire, capacity_decision, full, stays) (untouched found)
          | inl may ↦ elim (Bool-cases (preempt s).1) [
            | inr kept ↦
                simp (on, free, acquire, capacity_decision, full, may, kept)
                  (preempt-Fate request s j l w may found)
            | inl done ↦
                simp (on, free, acquire, capacity_decision, full, may, done)
                  (rw
                    (lookup-insert_ne id j (new_lease request now id) (preempt s).0.active_leases
                      other)
                    (preempt-Fate request s j l w may found))
          ]
        ]
      ]
    ]
  ]
    where
      stored : Fate request l (lookup j (insert id (new_lease request now id) s.active_leases))
      stored = untouched (lookup-insert_ne id j _ s.active_leases other ∙ found)

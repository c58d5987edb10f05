-- ===== src/Inference/Busy.antt =====
-- The busy time of the scheduler (iris/runtime/inference/scheduler.py), over every sequence of calls.
use iris_mind_v.Prelude.{
  ◌≡◌, refl, inl, inr, Text, text_eq, none, some, ◌==◌, true, false, arith, List, [], ◌∷◌, is_some,
  Bool-cases, Option-cases,
}
use iris_mind_v.Prelude.Dict.{Dict, lookup, insert}
use iris_mind_v.Inference.Models.{
  Time, InferenceResourceState, idle, busy, warming, unavailable, state_eq, InferenceLeaseRequest,
  LocalInferenceResourcePolicy, InferenceLeaseCancellationToken,
}
use iris_mind_v.Inference.Scheduler.{
  ActiveLease, Scheduler, new_scheduler, new_lease, is_inactive, set_state, current_state, snapshot,
  acquire_lease, capacity_reason, can_preempt_for, cancel_targets, preempt, capacity_decision,
  state_rejection, acquire, release, on_token,
}

-- A call of the scheduler that may change it, with what the clock and `uuid4` return; a step of a token
-- is one of the worker's calls of its methods.
pub data Op (C : Type 0) : Type 0 where
  set_state_op : InferenceResourceState → (now : Time) → Op C
  acquire_op : InferenceLeaseRequest → (now : Time) (id : Text) → Op C
  release_op : Text → Op C
  token_op : (InferenceLeaseCancellationToken C → InferenceLeaseCancellationToken C) → Text → Op C

module _ {C : Type 0} where
  unfoldable pub apply : LocalInferenceResourcePolicy → Op C → Scheduler C → Scheduler C
  apply policy (set_state_op state now) s = set_state state now s
  apply policy (acquire_op request now id) s = (acquire policy request now id s).0
  apply policy (release_op id) s = (release id s).0
  apply policy (token_op f id) s = on_token f id s

  unfoldable pub run : LocalInferenceResourcePolicy → List (Op C) → Scheduler C → Scheduler C
  run policy [] s = s
  run policy (op ∷ ops) s = run policy ops (apply policy op s)

  -- The busy time is known while a lease is held or BUSY is set, and forgotten when the resource is idle.
  pub record IsTimed (s : Scheduler C) : Type 0 where
    pub held : is_inactive s.active_leases ≡ false → is_some s.busy_since ≡ true
    pub said : s.state_override ≡ some busy → is_some s.busy_since ≡ true
    pub forgotten :
        s.state_override ≡ none → is_inactive s.active_leases ≡ true → s.busy_since ≡ none

  insert-is_inactive :
      (id : Text) (l : ActiveLease C) (d : Dict Text (ActiveLease C))
      → is_inactive (insert id l d) ≡ false
  unfolding insert
  insert-is_inactive id l [] = refl
  insert-is_inactive id l ((i, u) ∷ d) = ground arith

  lookup-is_inactive :
      (id : Text) (l : ActiveLease C) (d : Dict Text (ActiveLease C))
      → lookup id d ≡ some l
      → is_inactive d ≡ false
  unfolding lookup
  lookup-is_inactive id l [] h = cc
  lookup-is_inactive id l ((i, u) ∷ d) h = refl

  cancel_targets-is_inactive :
      (d : Dict Text (ActiveLease C)) → is_inactive (cancel_targets d) ≡ is_inactive d
  unfolding cancel_targets
  cancel_targets-is_inactive [] = refl
  cancel_targets-is_inactive ((i, l) ∷ d) = refl

  set_state-IsTimed :
      (state : InferenceResourceState) (now : Time) (s : Scheduler C)
      → IsTimed s
      → IsTimed (set_state state now s)
  unfolding set_state
  set_state-IsTimed idle now s w = record {
    held = ground (arith, w.held);
    said = ground arith;
    forgotten = ground (arith, w.forgotten);
  }
  set_state-IsTimed busy now s w = record {
    held = ground (arith, w.held);
    said = ground (arith, w.said);
    forgotten = ground arith;
  }
  set_state-IsTimed warming now s w = record {
    held = w.held;
    said = ground arith;
    forgotten = ground arith;
  }
  set_state-IsTimed unavailable now s w = record {
    held = w.held;
    said = ground arith;
    forgotten = ground arith;
  }

  acquire_lease-IsTimed :
      (request : InferenceLeaseRequest) (now : Time) (id reason : Text) (s : Scheduler C)
      → IsTimed (acquire_lease request now id reason s).0
  unfolding acquire_lease
  acquire_lease-IsTimed request now id reason s = record {
    held = ground arith;
    said = ground arith;
    forgotten = ground (arith, insert-is_inactive id (new_lease request now id) s.active_leases);
  }

  release-IsTimed : (id : Text) (s : Scheduler C) → IsTimed s → IsTimed (release id s).0
  unfolding release
  release-IsTimed id s w = elim (Option-cases (lookup id s.active_leases)) [
    | inl missing ↦ rw (missing, release) w
    | inr (l, found) ↦
        rw (found, release)
          (record {
            held = ground (arith, w.held (lookup-is_inactive id l s.active_leases found));
            said = ground (arith, w.said);
            forgotten = ground (arith, w.forgotten);
          })
  ]

  on_token-IsTimed :
      (f : InferenceLeaseCancellationToken C → InferenceLeaseCancellationToken C) (id : Text)
      (s : Scheduler C)
      → IsTimed s
      → IsTimed (on_token f id s)
  unfolding on_token
  on_token-IsTimed f id s w = elim (Option-cases (lookup id s.active_leases)) [
    | inl missing ↦ rw (missing, on_token) w
    | inr (l, found) ↦
        rw (found, on_token)
          (let active = lookup-is_inactive id l s.active_leases found in
            record {
              held = λ _. w.held active;
              said = w.said;
              forgotten = λ _ h. absurd (
                  cc (
                    h,
                    insert-is_inactive id (record l { cancellation_token = f l.cancellation_token })
                        s.active_leases,
                  ));
            })
  ]

  -- A preemption that does not come about takes no lease away.
  preempt-IsTimed : (s : Scheduler C) → (preempt s).1 ≡ false → IsTimed s → IsTimed (preempt s).0
  unfolding preempt
  preempt-IsTimed s kept w = record {
    held = ground (arith, w.held, cancel_targets-is_inactive s.active_leases);
    said = ground (arith, w.said);
    forgotten = ground (arith, w.forgotten, cancel_targets-is_inactive s.active_leases);
  }

  acquire-IsTimed :
      (policy : LocalInferenceResourcePolicy) (request : InferenceLeaseRequest) (now : Time)
      (id : Text) (s : Scheduler C)
      → IsTimed s
      → IsTimed (acquire policy request now id s).0
  unfolding acquire capacity_decision
  acquire-IsTimed policy request now id s w = elim (Bool-cases policy.enabled) [
    | inr off ↦ simp (off, acquire) (acquire_lease-IsTimed request now id _ s)
    | inl on ↦ elim (Option-cases (state_rejection policy request now s)) [
      | inr (rejection, refused) ↦ simp (on, refused, acquire) w
      | inl free ↦ elim (Option-cases (capacity_reason policy request s)) [
        | inl room ↦
            simp (on, free, acquire, capacity_decision, room)
              (acquire_lease-IsTimed request now id _ s)
        | inr (reason, full) ↦ elim (Bool-cases (can_preempt_for request)) [
          | inr stays ↦ simp (on, free, acquire, capacity_decision, full, stays) w
          | inl may ↦ elim (Bool-cases (preempt s).1) [
            | inr kept ↦
                simp (on, free, acquire, capacity_decision, full, may, kept)
                  (preempt-IsTimed s kept w)
            | inl done ↦
                simp (on, free, acquire, capacity_decision, full, may, done)
                  (acquire_lease-IsTimed request now id _ (preempt s).0)
          ]
        ]
      ]
    ]
  ]

  run-IsTimed :
      (policy : LocalInferenceResourcePolicy) (ops : List (Op C)) (s : Scheduler C)
      → IsTimed s
      → IsTimed (run policy ops s)
  unfolding run apply
  run-IsTimed policy [] s w = w
  run-IsTimed policy (set_state_op state now ∷ ops) s w =
      run-IsTimed policy ops _ (set_state-IsTimed state now s w)
  run-IsTimed policy (acquire_op request now id ∷ ops) s w =
      run-IsTimed policy ops _ (acquire-IsTimed policy request now id s w)
  run-IsTimed policy (release_op id ∷ ops) s w = run-IsTimed policy ops _ (release-IsTimed id s w)
  run-IsTimed policy (token_op f id ∷ ops) s w =
      run-IsTimed policy ops _ (on_token-IsTimed f id s w)

  snapshot-busy_since :
      (now : Time) (s : Scheduler C)
      → IsTimed s
      → is_some (snapshot now s).busy_since ≡ ((snapshot now s).state == busy)
  unfolding snapshot current_state
  snapshot-busy_since now s w = ground (arith, w.held, w.said)

  -- Whatever sequence of calls a new scheduler goes through, a snapshot has a busy time exactly
  -- when its state is BUSY.
  pub run_busy_since :
      (policy : LocalInferenceResourcePolicy) (ops : List (Op C)) (now : Time)
      → let s = run policy ops new_scheduler in
        is_some (snapshot now s).busy_since ≡ ((snapshot now s).state == busy)
  run_busy_since policy ops now = snapshot-busy_since now (run policy ops new_scheduler) (
      run-IsTimed policy ops new_scheduler
        (record { held = ground arith; said = λ h. cc; forgotten = λ _ _. refl }))

-- ===== src/Inference/Scheduler.antt =====
-- iris/runtime/inference/scheduler.py. A method takes the state and returns the new one beside its
-- result; the asyncio lock makes each method one step. The clock and `uuid4` are arguments: what they
-- return. A token is an object that the lease and its worker share; it stands in its lease, and the
-- worker's calls of it are steps of `on_token`.
pub mod State
unfoldable pub use State.*
use iris_mind_v.Prelude.{
  ℕ, sub_ℕ, ◌+◌, Text, text, text_eq, Option, none, some, ◌==◌, Bool, true, false, not, ◌&&◌, ◌||◌,
  leb, if◌then◌else◌, List, [], ◌∷◌, count, select, any,
}
use iris_mind_v.Prelude.Dict.{Dict, values, lookup, insert, remove}
use iris_mind_v.Inference.Models.{
  Time, InferenceResourceState, idle, busy, warming, unavailable, state_eq, InferenceSlotKind,
  large_llm, background_llm, small_classifier, embedding, reranker, slot_kind_eq,
  InferenceWorkPriority, user_facing_response, safety_critical, background, proactive,
  InferenceLeaseDecision, acquired, defer, InferenceLeaseRequest, InferenceLeaseCancellationToken,
  new_token, request_cancellation, InferenceResourceSnapshot, InferenceLeaseResult,
  LocalInferenceResourcePolicy, policy_busy_decision_for, unavailable_decision_for,
}

module _ {C : Type 0} where
  module _ (policy : LocalInferenceResourcePolicy) where
    unfoldable pub explicit_large_model_busy : InferenceLeaseRequest → Scheduler C → Bool
    explicit_large_model_busy request s =
        elim s.state_override [ some busy ↦ true | _ ↦ false ] && is_large request.slot_kind

    unfoldable pub state_rejection :
        InferenceLeaseRequest → Time → Scheduler C → Option InferenceLeaseResult
    state_rejection request now s =
        if current_state s == unavailable
        then some (
            reject_lease request (unavailable_decision_for policy request.priority)
              (text "local inference resource unavailable") now s)
        else if current_state s == warming && is_low request.priority
        then some (
            reject_lease request policy.low_priority_when_warming
              (text "local inference resource warming") now s)
        else if explicit_large_model_busy request s
        then some (
            reject_lease request (busy_decision_for policy request)
              (text "local inference resource busy") now s)
        else none

    unfoldable pub capacity_reason : InferenceLeaseRequest → Scheduler C → Option Text
    capacity_reason request s = elim request.slot_kind [
      | small_classifier ↦
          if leb policy.small_classifier_concurrency_limit
            (slot_count small_classifier s.active_leases)
          then some (text "small classifier slot limit reached")
          else none
      | embedding ↦
          if leb policy.embedding_concurrency_limit (slot_count embedding s.active_leases)
          then some (text "embedding slot limit reached")
          else none
      | reranker ↦
          if leb policy.reranker_concurrency_limit (slot_count reranker s.active_leases)
          then some (text "reranker slot limit reached")
          else none
      | _ ↦
          if leb policy.large_llm_concurrency_limit (large_count s.active_leases)
          then some (text "large LLM slot limit reached")
          else none
    ]

  unfoldable pub is_target : ActiveLease C → Bool
  is_target l = is_large l.request.slot_kind && is_low l.request.priority

  unfoldable pub cancel_if_target : ActiveLease C → ActiveLease C
  cancel_if_target l =
      if is_target l
      then record l { cancellation_token = request_cancellation l.cancellation_token }
      else l

  -- `lease.cancellation_token.request_cancellation()` for each target, on the shared tokens.
  unfoldable pub cancel_targets : Dict Text (ActiveLease C) → Dict Text (ActiveLease C)
  cancel_targets [] = []
  cancel_targets ((id, l) ∷ leases) = (id, cancel_if_target l) ∷ cancel_targets leases

  -- `self._active_leases.pop(lease.lease_id, None)` for each target.
  unfoldable pub pop_all :
      List (ActiveLease C) → Dict Text (ActiveLease C) → Dict Text (ActiveLease C)
  pop_all [] leases = leases
  pop_all (l ∷ ls) leases = pop_all ls (remove l.lease_id leases)

  -- `not targets`
  abbrev pub is_nil : List (ActiveLease C) → Bool
  is_nil [] = true
  is_nil (l ∷ ls) = false

  -- `_preempt_lower_priority_large_leases_locked`
  unfoldable pub preempt : Scheduler C → Scheduler C × Bool
  preempt s =
      let targets = select is_target (values s.active_leases) in
      let s' = record s { active_leases = cancel_targets s.active_leases } in
      if is_nil targets || any (λ l. not l.request.preemptible) targets
      then (s, false)
      else if any (λ l. not l.cancellation_token.stopped) targets
      then (s', false)
      else (record s' { active_leases = pop_all targets s'.active_leases }, true)

  module _ (policy : LocalInferenceResourcePolicy) where
    unfoldable pub capacity_decision :
        InferenceLeaseRequest
        → (now : Time) (id : Text) → Scheduler C
        → Scheduler C × InferenceLeaseResult
    capacity_decision request now id s = elim (capacity_reason policy request s) [
      | none ↦ acquire_lease request now id (text "resource lease acquired") s
      | some reason ↦
          let (s', preempted) = if can_preempt_for request then preempt s else (s, false) in
          if preempted
          then acquire_lease request now id (text "preempted lower-priority large LLM lease") s'
          else (s', reject_lease request (busy_decision_for policy request) reason now s')
    ]

    -- `acquire` and `_acquire_locked_by_policy`
    unfoldable pub acquire :
        InferenceLeaseRequest
        → (now : Time) (id : Text) → Scheduler C
        → Scheduler C × InferenceLeaseResult
    acquire request now id s =
        if not policy.enabled
        then acquire_lease request now id (text "inference scheduler disabled") s
        else elim (state_rejection policy request now s) [
          | some rejection ↦ (s, rejection)
          | none ↦ capacity_decision request now id s
        ]

  unfoldable pub release : (lease_id : Text) → Scheduler C → Scheduler C × Bool
  release lease_id s = elim (lookup lease_id s.active_leases) [
    | none ↦ (s, false)
    | some _ ↦
        let left = remove lease_id s.active_leases in
        let free = is_inactive left && elim s.state_override [ none ↦ true | some _ ↦ false ] in
        (record s { active_leases = left; busy_since = if free then none else s.busy_since }, true)
  ]

  -- A call of a method of the token of this active lease, which `cancellation_token` hands out.
  unfoldable pub on_token :
      (InferenceLeaseCancellationToken C → InferenceLeaseCancellationToken C)
      → (lease_id : Text) → Scheduler C
      → Scheduler C
  on_token f lease_id s = elim (lookup lease_id s.active_leases) [
    | none ↦ s
    | some l ↦
        let l' = record l { cancellation_token = f l.cancellation_token } in
        record s { active_leases = insert lease_id l' s.active_leases }
  ]

-- ===== src/Inference/Scheduler/State.antt =====
-- The attributes of the scheduler of iris/runtime/inference/scheduler.py, its snapshot, and how it
-- stores and refuses a lease.
use iris_mind_v.Prelude.{
  ℕ, sub_ℕ, ◌+◌, Text, text_eq, Option, none, some, ◌==◌, Bool, true, false, ◌&&◌, if◌then◌else◌,
  [], ◌∷◌, count,
}
use iris_mind_v.Prelude.Dict.{Dict, values, insert}
use iris_mind_v.Inference.Models.{
  Time, InferenceResourceState, idle, busy, warming, unavailable, state_eq, InferenceSlotKind,
  large_llm, background_llm, small_classifier, embedding, reranker, slot_kind_eq,
  InferenceWorkPriority, user_facing_response, safety_critical, background, proactive,
  InferenceLeaseDecision, acquired, defer, InferenceLeaseRequest, InferenceLeaseCancellationToken,
  new_token, InferenceResourceSnapshot, InferenceLeaseResult, LocalInferenceResourcePolicy,
  policy_busy_decision_for,
}

abbrev pub is_large : InferenceSlotKind → Bool
is_large large_llm = true
is_large background_llm = true
is_large _ = false

abbrev pub is_high : InferenceWorkPriority → Bool
is_high user_facing_response = true
is_high safety_critical = true
is_high _ = false

abbrev pub is_low : InferenceWorkPriority → Bool
is_low background = true
is_low proactive = true
is_low _ = false

pub record ActiveLease (C : Type 0) : Type 0 where
  pub lease_id : Text
  pub request : InferenceLeaseRequest
  pub acquired_at : Time
  pub cancellation_token : InferenceLeaseCancellationToken C

unfoldable pub busy_decision_for :
    LocalInferenceResourcePolicy → InferenceLeaseRequest → InferenceLeaseDecision
busy_decision_for policy request =
    if is_high request.priority then defer else policy_busy_decision_for policy request.priority

unfoldable pub can_preempt_for : InferenceLeaseRequest → Bool
can_preempt_for request = is_high request.priority && is_large request.slot_kind

-- The attributes of the scheduler; its policy is an argument of the methods.
pub record Scheduler (C : Type 0) : Type 0 where
  pub state_override : Option InferenceResourceState
  pub active_leases : Dict Text (ActiveLease C)
  pub busy_since : Option Time

module _ {C : Type 0} where
  -- `LocalInferenceResourceScheduler(policy)`
  abbrev pub new_scheduler : Scheduler C
  new_scheduler = record { state_override = none; active_leases = []; busy_since = none }

  abbrev pub is_inactive : Dict Text (ActiveLease C) → Bool
  is_inactive [] = true
  is_inactive (l ∷ leases) = false

  unfoldable pub set_state : InferenceResourceState → (now : Time) → Scheduler C → Scheduler C
  set_state busy now s = record s {
    state_override = some busy;
    busy_since = elim s.busy_since [ none ↦ some now | some t ↦ some t ];
  }
  set_state idle now s = record s {
    state_override = none;
    busy_since = if is_inactive s.active_leases then none else s.busy_since;
  }
  set_state warming now s = record s { state_override = some warming }
  set_state unavailable now s = record s { state_override = some unavailable }

  -- `_state_locked`
  unfoldable pub current_state : Scheduler C → InferenceResourceState
  current_state s = elim s.state_override [
    | some state ↦ state
    | none ↦ if is_inactive s.active_leases then idle else busy
  ]

  -- `counts[kind]`
  unfoldable pub slot_count : InferenceSlotKind → Dict Text (ActiveLease C) → ℕ
  slot_count kind leases = count (λ l. l.request.slot_kind == kind) (values leases)

  -- `sum(counts[kind] for kind in _LARGE_SLOT_KINDS)`
  unfoldable pub large_count : Dict Text (ActiveLease C) → ℕ
  unfolding slot_count
  large_count leases = slot_count large_llm leases + slot_count background_llm leases

  -- `_snapshot_locked`
  unfoldable pub snapshot : (now : Time) → Scheduler C → InferenceResourceSnapshot
  unfolding current_state
  snapshot now s =
      let busy_since = if current_state s == busy then s.busy_since else none in
      record {
        state = current_state s;
        active_large_slots = large_count s.active_leases;
        active_small_classifier_slots = slot_count small_classifier s.active_leases;
        active_embedding_slots = slot_count embedding s.active_leases;
        active_reranker_slots = slot_count reranker s.active_leases;
        busy_since = busy_since;
        busy_duration = elim busy_since [ none ↦ none | some t ↦ some (sub_ℕ now t) ];
      }

  abbrev pub new_lease : InferenceLeaseRequest → (now : Time) (id : Text) → ActiveLease C
  new_lease request now id = record {
    lease_id = id;
    request = request;
    acquired_at = now;
    cancellation_token = new_token id;
  }

  -- `_acquire_locked`; `id` is what `uuid4` returns.
  unfoldable pub acquire_lease :
      (request : InferenceLeaseRequest) (now : Time) (id reason : Text)
      → Scheduler C
      → Scheduler C × InferenceLeaseResult
  acquire_lease request now id reason s =
      let s' : Scheduler C = record {
        state_override = s.state_override;
        active_leases = insert id (new_lease request now id) s.active_leases;
        busy_since = elim s.busy_since [ none ↦ some now | some t ↦ some t ];
      } in
      (
        s',
        record {
          decision = acquired;
          reason = reason;
          request = request;
          snapshot = snapshot now s';
          lease_id = some id;
        },
      )

  -- `_reject_locked`
  unfoldable pub reject_lease :
      InferenceLeaseRequest
      → InferenceLeaseDecision
      → Text
      → Time
      → Scheduler C
      → InferenceLeaseResult
  reject_lease request decision reason now s = record {
    decision = decision;
    reason = reason;
    request = request;
    snapshot = snapshot now s;
    lease_id = none;
  }

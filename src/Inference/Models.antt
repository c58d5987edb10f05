-- ===== src/Inference/Models.antt =====
-- iris/runtime/inference/models.py and policy.py. The callbacks of a cancellation token are a
-- parameter: the token stores them and hands them out.
use iris_mind_v.Prelude.{
  ℕ, ℤ, Text, text_eq, Option, Eq, Bool, true, false, if◌then◌else◌, List, [], ◌∷◌, ◌++◌,
}
use iris_mind_v.Model.{ModelCallSite, user_response_hot_path, event_reaction, Metadata}

-- An instant, in microseconds.
abbrev pub Time : Type 0
Time = ℕ

pub data InferenceResourceState : Type 0 where
  idle busy warming unavailable : InferenceResourceState

pub InferenceResourceState-discrete : Discrete InferenceResourceState
InferenceResourceState-discrete = hlevel

instance abbrev pub state_eq : Eq InferenceResourceState
state_eq = record { dec = InferenceResourceState-discrete }

pub data InferenceSlotKind : Type 0 where
  large_llm background_llm small_classifier embedding reranker : InferenceSlotKind

pub InferenceSlotKind-discrete : Discrete InferenceSlotKind
InferenceSlotKind-discrete = hlevel

instance abbrev pub slot_kind_eq : Eq InferenceSlotKind
slot_kind_eq = record { dec = InferenceSlotKind-discrete }

pub data InferenceWorkPriority : Type 0 where
  user_facing_response safety_critical background proactive : InferenceWorkPriority

pub data InferenceLeaseDecision : Type 0 where
  acquired defer cancel no_send denied : InferenceLeaseDecision

pub record InferenceLeaseRequest : Type 0 where
  pub slot_kind : InferenceSlotKind
  pub priority : InferenceWorkPriority
  pub call_site : ModelCallSite
  pub model_slot : Option Text
  pub model_name : Option Text
  pub preemptible : Bool
  pub metadata : Metadata

pub record InferenceLeaseCancellationToken (C : Type 0) : Type 0 where
  pub lease_id : Text
  pub cancellation_requested : Bool
  pub stopped : Bool
  pub callbacks : List C

module _ {C : Type 0} where
  -- `InferenceLeaseCancellationToken(lease_id)`
  abbrev pub new_token : Text → InferenceLeaseCancellationToken C
  new_token id = record {
    lease_id = id;
    cancellation_requested = false;
    stopped = false;
    callbacks = [];
  }

  unfoldable pub request_cancellation :
      InferenceLeaseCancellationToken C → InferenceLeaseCancellationToken C
  request_cancellation t = record t { cancellation_requested = true }

  unfoldable pub register_cancellation_callback :
      C → InferenceLeaseCancellationToken C → InferenceLeaseCancellationToken C
  register_cancellation_callback callback t =
      if t.stopped then t else record t { callbacks = t.callbacks ++ callback ∷ [] }

  -- The callbacks that are run, in their order; their number is the method's result.
  unfoldable pub run_cancellation_callbacks :
      InferenceLeaseCancellationToken C → InferenceLeaseCancellationToken C × List C
  run_cancellation_callbacks t =
      if t.cancellation_requested then (record t { callbacks = [] }, t.callbacks) else (t, [])

  unfoldable pub acknowledge_stopped :
      InferenceLeaseCancellationToken C → InferenceLeaseCancellationToken C
  acknowledge_stopped t = record t { stopped = true }

-- `busy_duration_seconds`, a float, is kept as the microseconds of the difference.
pub record InferenceResourceSnapshot : Type 0 where
  pub state : InferenceResourceState
  pub active_large_slots : ℕ
  pub active_small_classifier_slots : ℕ
  pub active_embedding_slots : ℕ
  pub active_reranker_slots : ℕ
  pub busy_since : Option Time
  pub busy_duration : Option ℤ

pub record InferenceLeaseResult : Type 0 where
  pub decision : InferenceLeaseDecision
  pub reason : Text
  pub request : InferenceLeaseRequest
  pub snapshot : InferenceResourceSnapshot
  pub lease_id : Option Text

unfoldable pub model_call_site_priority : ModelCallSite → InferenceWorkPriority
model_call_site_priority user_response_hot_path = user_facing_response
model_call_site_priority ModelCallSite.proactive = InferenceWorkPriority.proactive
model_call_site_priority event_reaction = InferenceWorkPriority.proactive
model_call_site_priority _ = background

pub record LocalInferenceResourcePolicy : Type 0 where
  pub enabled : Bool
  pub large_llm_concurrency_limit : ℕ
  pub small_classifier_concurrency_limit : ℕ
  pub embedding_concurrency_limit : ℕ
  pub reranker_concurrency_limit : ℕ
  pub background_when_busy : InferenceLeaseDecision
  pub proactive_when_busy : InferenceLeaseDecision
  pub low_priority_when_warming : InferenceLeaseDecision
  pub background_when_unavailable : InferenceLeaseDecision
  pub proactive_when_unavailable : InferenceLeaseDecision
  pub user_facing_when_unavailable : InferenceLeaseDecision

-- `policy.busy_decision_for(priority)`
unfoldable pub policy_busy_decision_for :
    LocalInferenceResourcePolicy → InferenceWorkPriority → InferenceLeaseDecision
policy_busy_decision_for p InferenceWorkPriority.proactive = p.proactive_when_busy
policy_busy_decision_for p _ = p.background_when_busy

unfoldable pub unavailable_decision_for :
    LocalInferenceResourcePolicy → InferenceWorkPriority → InferenceLeaseDecision
unavailable_decision_for p InferenceWorkPriority.proactive = p.proactive_when_unavailable
unavailable_decision_for p user_facing_response = p.user_facing_when_unavailable
unavailable_decision_for p safety_critical = p.user_facing_when_unavailable
unavailable_decision_for p background = p.background_when_unavailable

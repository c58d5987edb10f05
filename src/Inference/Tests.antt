-- ===== src/Inference/Tests.antt =====
-- The theorems on the inference leases at work. The callbacks are numbers here.
use iris_mind_v.Prelude.{
  ℕ, ◌≡◌, refl, ◌≢◌, text, none, some, true, List, [], ◌∷◌, ◌==◌, is_some, text_eq, List-discrete,
  ℕ_discrete,
}
use iris_mind_v.Prelude.Dict.{lookup}
use iris_mind_v.Model.{ModelCallSite}
use iris_mind_v.Inference.Models.{
  busy, state_eq, large_llm, background_llm, user_facing_response, background, defer, no_send,
  cancel, denied, InferenceLeaseRequest, InferenceSlotKind, InferenceWorkPriority,
  LocalInferenceResourcePolicy, new_token,
}
use iris_mind_v.Inference.Scheduler.{ActiveLease, Scheduler, new_scheduler, acquire, snapshot}
use iris_mind_v.Inference.Limits.{IsWithinLimits}
use iris_mind_v.Inference.Preemption.{Fate, acquire-Fate}
use iris_mind_v.Inference.Busy.{Op, acquire_op, release_op, run, run_busy_since}
use iris_mind_v.Inference.Runs.{IsFresh, run-IsWithinLimits}

abbrev policy : LocalInferenceResourcePolicy
policy = record {
  enabled = true;
  large_llm_concurrency_limit = 1;
  small_classifier_concurrency_limit = 4;
  embedding_concurrency_limit = 2;
  reranker_concurrency_limit = 2;
  background_when_busy = defer;
  proactive_when_busy = no_send;
  low_priority_when_warming = defer;
  background_when_unavailable = cancel;
  proactive_when_unavailable = no_send;
  user_facing_when_unavailable = denied;
}

abbrev request : InferenceSlotKind → InferenceWorkPriority → InferenceLeaseRequest
request kind priority = record {
  slot_kind = kind;
  priority = priority;
  call_site = ModelCallSite.reflection;
  model_slot = none;
  model_name = none;
  preemptible = true;
  metadata = [];
}

-- A background lease whose worker has stopped holds the only large slot.
abbrev stopped_lease : ActiveLease ℕ
stopped_lease = record {
  lease_id = text "l1";
  request = request background_llm background;
  acquired_at = 1;
  cancellation_token = let t = new_token (text "l1") in record t { stopped = true };
}

abbrev full : Scheduler ℕ
full = record {
  state_override = none;
  active_leases = (text "l1", stopped_lease) ∷ [];
  busy_since = some 1;
}

full_stored : lookup (text "l1") full.active_leases ≡ some stopped_lease
unfolding lookup List-discrete ℕ_discrete
full_stored = refl

abbrev urgent : InferenceLeaseRequest
urgent = request large_llm user_facing_response

abbrev calls : List (Op ℕ)
calls = acquire_op urgent 5 (text "l1") ∷ release_op (text "l1") ∷ []

calls-IsFresh : IsFresh policy calls new_scheduler
unfolding lookup
calls-IsFresh = (refl, tt)

run-IsWithinLimits_example : IsWithinLimits policy (run policy calls new_scheduler).active_leases
run-IsWithinLimits_example = run-IsWithinLimits policy calls refl calls-IsFresh

acquire-Fate_example :
    Fate urgent stopped_lease
      (lookup (text "l1") (acquire policy urgent 9 (text "l1b") full).0.active_leases)
acquire-Fate_example =
    acquire-Fate policy urgent 9 (text "l1b") full (text "l1") stopped_lease
      (refl, unfold lookup in refl, tt) other full_stored
  where
    other : text "l1b" ≢ text "l1"
    other h = cc

run_busy_since_example :
    let s : Scheduler ℕ = run policy calls new_scheduler in
    is_some (snapshot 7 s).busy_since ≡ ((snapshot 7 s).state == busy)
run_busy_since_example = run_busy_since policy calls 7

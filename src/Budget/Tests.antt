-- ===== src/Budget/Tests.antt =====
-- The budget theorems at work on one configuration and two calls.
use iris_mind_v.Prelude.{ℕ, pos, ◌≡◌, refl, ◌≤◌, none, some, true, false, List, [], ◌∷◌, ok, Bool}
use iris_mind_v.Model.{
  large_llm, user_response_hot_path, runtime_learning_hook, CascadeFallbackBehavior,
  ModelCallDescriptor,
}
use iris_mind_v.Budget.Config.{
  RuntimeFeatureModelCallBudget, RuntimeModelCallBudgetConfig, validate_model_call_budget_config,
  validate_feature_budget, require_non_negative_int, require_probability, validate_site_invariants,
}
use iris_mind_v.Budget.Gate.{Context, bind_model_call_budget_scope}
use iris_mind_v.Budget.Bounds.{
  check_each, accepted_calls, limit_of, request_calls_le, validated_calls,
}

abbrev budget : ℕ → Bool → RuntimeFeatureModelCallBudget
budget large only = record {
  large_llm_max_calls = pos large;
  small_classifier_max_calls = pos 1;
  embedding_max_calls = pos 1;
  reranker_max_calls = pos 1;
  background_llm_max_calls = pos 1;
  confidence_threshold = pos 65;
  low_confidence_fallback = CascadeFallbackBehavior.no_op;
  high_risk_escalation_allowed = false;
  uncertain_escalation_allowed = false;
  enqueue_only = only;
}

abbrev config : RuntimeModelCallBudgetConfig
config = record {
  enabled = true;
  user_response_hot_path = budget 1 false;
  event_reaction = budget 1 false;
  proactive = budget 1 false;
  memory_extraction = budget 0 false;
  reflection = budget 0 false;
  relationship_update = budget 0 false;
  interaction_policy_candidate = budget 0 false;
  runtime_learning_hook = budget 0 true;
}

abbrev call : ModelCallDescriptor
call = record {
  call_kind = large_llm;
  call_site = user_response_hot_path;
  model_slot = none;
  model_name = none;
  confidence = 100;
  high_risk = false;
  uncertain = false;
  metadata = [];
}

abbrev context : Context
context = record { scope = none; site = none; avoided_large_llm = some 0 }

abbrev asked : List ModelCallDescriptor
asked = call ∷ call ∷ []

config_valid : validate_model_call_budget_config 100 config ≡ ok config
unfolding validate_model_call_budget_config validate_feature_budget require_non_negative_int
    require_probability validate_site_invariants
config_valid = refl

request_calls_le_example :
    accepted_calls user_response_hot_path large_llm asked
      (bind_model_call_budget_scope (check_each config asked) context).1
    ≤ limit_of config user_response_hot_path large_llm
request_calls_le_example =
    request_calls_le config user_response_hot_path large_llm asked context refl

validated_calls_example :
    let results = (bind_model_call_budget_scope (check_each config asked) context).1 in
    (accepted_calls user_response_hot_path large_llm asked results ≤ 1)
    × (accepted_calls runtime_learning_hook large_llm asked results ≡ 0)
validated_calls_example = validated_calls 100 config config asked context config_valid refl

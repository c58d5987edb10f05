-- ===== src/Budget/Config.antt =====
-- iris/runtime/config/model_call_budget.py: the budgets of the call sites and their validation. A
-- threshold is a multiple of 2 to the -1074, which every finite float is; the parsing of TOML is left out.
use iris_mind_v.Prelude.{
  ℕ, ℤ, pos, negsuc, Text, text, Bool, true, false, not, ◌&&◌, leb, ltb, if◌then◌else◌, ◌++◌,
  Result, ok, raise, ◌>>=◌, ◌>>◌,
}
use iris_mind_v.Model.{
  ModelCallSite, user_response_hot_path, event_reaction, proactive, memory_extraction, reflection,
  relationship_update, interaction_policy_candidate, runtime_learning_hook, CascadeFallbackBehavior,
}

-- `site.value`
unfoldable pub site_value : ModelCallSite → Text
site_value user_response_hot_path = text "user_response_hot_path"
site_value event_reaction = text "event_reaction"
site_value proactive = text "proactive"
site_value memory_extraction = text "memory_extraction"
site_value reflection = text "reflection"
site_value relationship_update = text "relationship_update"
site_value interaction_policy_candidate = text "interaction_policy_candidate"
site_value runtime_learning_hook = text "runtime_learning_hook"

pub record RuntimeFeatureModelCallBudget : Type 0 where
  pub large_llm_max_calls : ℤ
  pub small_classifier_max_calls : ℤ
  pub embedding_max_calls : ℤ
  pub reranker_max_calls : ℤ
  pub background_llm_max_calls : ℤ
  pub confidence_threshold : ℤ
  pub low_confidence_fallback : CascadeFallbackBehavior
  pub high_risk_escalation_allowed : Bool
  pub uncertain_escalation_allowed : Bool
  pub enqueue_only : Bool

pub record RuntimeModelCallBudgetConfig : Type 0 where
  pub enabled : Bool
  pub user_response_hot_path : RuntimeFeatureModelCallBudget
  pub event_reaction : RuntimeFeatureModelCallBudget
  pub proactive : RuntimeFeatureModelCallBudget
  pub memory_extraction : RuntimeFeatureModelCallBudget
  pub reflection : RuntimeFeatureModelCallBudget
  pub relationship_update : RuntimeFeatureModelCallBudget
  pub interaction_policy_candidate : RuntimeFeatureModelCallBudget
  pub runtime_learning_hook : RuntimeFeatureModelCallBudget

unfoldable pub feature_budget_for_site :
    RuntimeModelCallBudgetConfig → ModelCallSite → RuntimeFeatureModelCallBudget
feature_budget_for_site config user_response_hot_path = config.user_response_hot_path
feature_budget_for_site config event_reaction = config.event_reaction
feature_budget_for_site config proactive = config.proactive
feature_budget_for_site config memory_extraction = config.memory_extraction
feature_budget_for_site config reflection = config.reflection
feature_budget_for_site config relationship_update = config.relationship_update
feature_budget_for_site config interaction_policy_candidate = config.interaction_policy_candidate
feature_budget_for_site config runtime_learning_hook = config.runtime_learning_hook

-- `ConfigError(message)`
pub data ConfigError : Type 0 where
  config_error : Text → ConfigError

-- `value > n`
abbrev pub exceeds : ℕ → ℤ → Bool
exceeds n (pos v) = ltb n v
exceeds n (negsuc v) = false

unfoldable pub require_non_negative_int : ℤ → Text → Result ConfigError ℤ
require_non_negative_int (pos n) path = ok (pos n)
require_non_negative_int (negsuc n) path =
    raise (config_error (path ++ text " must be greater than or equal to 0"))

-- `one` is the number that stands for 1.0.
module _ (one : ℕ) where
  unfoldable pub require_probability : ℤ → Text → Result ConfigError ℤ
  require_probability (pos n) path =
      if leb n one
      then ok (pos n)
      else raise (config_error (path ++ text " must be between 0.0 and 1.0"))
  require_probability (negsuc n) path =
      raise (config_error (path ++ text " must be between 0.0 and 1.0"))

abbrev pub is_hot_path : ModelCallSite → Bool
is_hot_path user_response_hot_path = true
is_hot_path _ = false

abbrev pub is_learning_hook : ModelCallSite → Bool
is_learning_hook runtime_learning_hook = true
is_learning_hook _ = false

unfoldable pub validate_site_invariants :
    RuntimeFeatureModelCallBudget → ModelCallSite → Text → Result ConfigError (Unit {0})
validate_site_invariants budget site path =
    if is_hot_path site && exceeds 1 budget.large_llm_max_calls
    then raise
        (config_error (path ++ text ".large_llm_max_calls must be <= 1 for user-facing hot path"))
    else if is_learning_hook site && not budget.enqueue_only
    then raise (config_error (path ++ text ".enqueue_only must be true"))
    else if is_learning_hook site && exceeds 0 budget.large_llm_max_calls
    then raise (
        config_error (path ++ text ".large_llm_max_calls must be 0 for enqueue-only runtime hooks"))
    else ok tt

module _ (one : ℕ) where
  unfoldable pub validate_feature_budget :
      RuntimeFeatureModelCallBudget
      → ModelCallSite
      → Result ConfigError RuntimeFeatureModelCallBudget
  unfolding site_value
  validate_feature_budget budget site =
      let path = text "model_call_budget." ++ site_value site in
      do
        large ←
            require_non_negative_int budget.large_llm_max_calls
              (path ++ text ".large_llm_max_calls")
        small ←
            require_non_negative_int budget.small_classifier_max_calls
              (path ++ text ".small_classifier_max_calls")
        emb ←
            require_non_negative_int budget.embedding_max_calls
              (path ++ text ".embedding_max_calls")
        rerank ←
            require_non_negative_int budget.reranker_max_calls (path ++ text ".reranker_max_calls")
        back ←
            require_non_negative_int budget.background_llm_max_calls
              (path ++ text ".background_llm_max_calls")
        threshold ←
            require_probability one budget.confidence_threshold
              (path ++ text ".confidence_threshold")
        validate_site_invariants budget site path
        ok (record {
          large_llm_max_calls = large;
          small_classifier_max_calls = small;
          embedding_max_calls = emb;
          reranker_max_calls = rerank;
          background_llm_max_calls = back;
          confidence_threshold = threshold;
          low_confidence_fallback = budget.low_confidence_fallback;
          high_risk_escalation_allowed = budget.high_risk_escalation_allowed;
          uncertain_escalation_allowed = budget.uncertain_escalation_allowed;
          enqueue_only = budget.enqueue_only;
        })

  unfoldable pub validate_model_call_budget_config :
      RuntimeModelCallBudgetConfig → Result ConfigError RuntimeModelCallBudgetConfig
  validate_model_call_budget_config config = do
    hot ← validate_feature_budget config.user_response_hot_path user_response_hot_path
    event ← validate_feature_budget config.event_reaction event_reaction
    pro ← validate_feature_budget config.proactive proactive
    mem ← validate_feature_budget config.memory_extraction memory_extraction
    refl_ ← validate_feature_budget config.reflection reflection
    rel ← validate_feature_budget config.relationship_update relationship_update
    cand ← validate_feature_budget config.interaction_policy_candidate interaction_policy_candidate
    hook ← validate_feature_budget config.runtime_learning_hook runtime_learning_hook
    ok (record {
      enabled = config.enabled;
      user_response_hot_path = hot;
      event_reaction = event;
      proactive = pro;
      memory_extraction = mem;
      reflection = refl_;
      relationship_update = rel;
      interaction_policy_candidate = cand;
      runtime_learning_hook = hook;
    })

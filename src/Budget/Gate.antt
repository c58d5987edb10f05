-- ===== src/Budget/Gate.antt =====
-- iris/runtime/model_call_budget.py: the gate before model calls, and its request-local counters. The
-- context variables are the state.
use iris_mind_v.Prelude.{
  ℕ, ℤ, pos, negsuc, zero, suc, ◌+◌, Text, text, Option, none, some, ◌==◌, Bool, false, not, ◌&&◌,
  ◌||◌, ltb, is_some, if◌then◌else◌,
}
use iris_mind_v.Model.{
  ModelCallKind, large_llm, small_classifier, embedding, reranker, background_llm, call_kind_eq,
  ModelCallSite, call_site_eq, accept, escalate, fallback, deny, ModelCallDescriptor, CascadeResult,
  is_accepted,
}
use iris_mind_v.Budget.Config.{
  RuntimeFeatureModelCallBudget, RuntimeModelCallBudgetConfig, feature_budget_for_site,
}

-- `_ModelCallBudgetScope`: a `Counter` by call site and call kind.
abbrev pub Scope : Type 0
Scope = ModelCallSite → ModelCallKind → ℕ

abbrev pub new_scope : Scope
new_scope site kind = 0

unfoldable pub used : Scope → ModelCallDescriptor → ℕ
used scope d = scope d.call_site d.call_kind

unfoldable pub record_call : Scope → ModelCallDescriptor → Scope
record_call scope d = λ site kind.
    if site == d.call_site && kind == d.call_kind then scope site kind + 1 else scope site kind

-- The context variables that the gate reads and sets: the scope, the call site, and the trace's
-- count of avoided large calls.
pub record Context : Type 0 where
  pub scope : Option Scope
  pub site : Option ModelCallSite
  pub avoided_large_llm : Option ℕ

-- `_scope()`
unfoldable pub current_scope : Context → Context × Scope
current_scope c = elim c.scope [
  | some scope ↦ (c, scope)
  | none ↦ (record c { scope = some new_scope }, new_scope)
]

unfoldable pub increment_avoided_large_llm_call : Context → Context
increment_avoided_large_llm_call c = record c {
  avoided_large_llm = elim c.avoided_large_llm [ none ↦ none | some n ↦ some (n + 1) ];
}

-- `with bind_model_call_budget_scope(): body`, where the body returns or raises.
unfoldable pub bind_model_call_budget_scope :
    {A : Type 0} → (Context → Context × A) → Context → Context × A
bind_model_call_budget_scope body c =
    let (c', result) = body (record c { scope = some new_scope }) in
    (record c' { scope = c.scope }, result)

unfoldable pub bind_model_call_site :
    {A : Type 0} → ModelCallSite → (Context → Context × A) → Context → Context × A
bind_model_call_site site body c =
    let (c', result) = body (record c { site = some site }) in (record c' { site = c.site }, result)

unfoldable pub current_model_call_site : ModelCallSite → Context → ModelCallSite
current_model_call_site default c = elim c.site [ none ↦ default | some site ↦ site ]

abbrev pub positive : ℤ → Option ℕ
positive (pos zero) = none
positive (pos (suc n)) = some (suc n)
positive (negsuc n) = none

unfoldable pub limit_for_kind : RuntimeFeatureModelCallBudget → ModelCallKind → Option ℕ
limit_for_kind b large_llm = positive b.large_llm_max_calls
limit_for_kind b small_classifier = positive b.small_classifier_max_calls
limit_for_kind b embedding = positive b.embedding_max_calls
limit_for_kind b reranker = positive b.reranker_max_calls
limit_for_kind b background_llm = positive b.background_llm_max_calls

abbrev pub accepted : ModelCallDescriptor → Text → CascadeResult
accepted d reason = record {
  decision = accept;
  reason = reason;
  confidence = d.confidence;
  fallback_behavior = none;
  model_metadata = d.metadata;
}

abbrev pub fallen_back : ModelCallDescriptor → Text → RuntimeFeatureModelCallBudget → CascadeResult
fallen_back d reason b = record {
  decision = fallback;
  reason = reason;
  confidence = d.confidence;
  fallback_behavior = some b.low_confidence_fallback;
  model_metadata = d.metadata;
}

abbrev pub denied : ModelCallDescriptor → Text → RuntimeFeatureModelCallBudget → CascadeResult
denied d reason b = record {
  decision = deny;
  reason = reason;
  confidence = d.confidence;
  fallback_behavior = some b.low_confidence_fallback;
  model_metadata = d.metadata;
}

unfoldable pub escalation_allowed : ModelCallDescriptor → RuntimeFeatureModelCallBudget → Bool
escalation_allowed d b =
    d.high_risk && b.high_risk_escalation_allowed || d.uncertain && b.uncertain_escalation_allowed

unfoldable pub low_confidence_result :
    ModelCallDescriptor → RuntimeFeatureModelCallBudget → CascadeResult
low_confidence_result d b =
    if escalation_allowed d b
    then record {
      decision = escalate;
      reason = text "low confidence allows escalation";
      confidence = d.confidence;
      fallback_behavior = none;
      model_metadata = d.metadata;
    }
    else fallen_back d (text "low confidence fallback") b

-- `confidence < threshold`
abbrev pub is_below : ℕ → ℤ → Bool
is_below n (pos t) = ltb n t
is_below n (negsuc t) = false

unfoldable pub pre_budget_decision :
    RuntimeModelCallBudgetConfig
    → ModelCallDescriptor
    → RuntimeFeatureModelCallBudget
    → Option CascadeResult
pre_budget_decision config d b =
    if not config.enabled
    then some (accepted d (text "model call budget disabled"))
    else if b.enqueue_only && d.call_kind == large_llm
    then some (denied d (text "call site is enqueue-only") b)
    else if is_below d.confidence b.confidence_threshold
    then some (low_confidence_result d b)
    else if not (is_some (limit_for_kind b d.call_kind))
    then some (fallen_back d (text "call kind is not enabled") b)
    else none

unfoldable pub decision_for_budget :
    RuntimeModelCallBudgetConfig
    → ModelCallDescriptor
    → RuntimeFeatureModelCallBudget
    → Context
    → Context × CascadeResult
decision_for_budget config d b c = elim (pre_budget_decision config d b) [
  | some result ↦ (c, result)
  | none ↦
      let (c', scope) = current_scope c in
      elim (limit_for_kind b d.call_kind) [
        | none ↦ (c', fallen_back d (text "model call budget exceeded") b)
        | some limit ↦
            if ltb (used scope d) limit
            then (c', accepted d (text "model call within budget"))
            else (c', fallen_back d (text "model call budget exceeded") b)
      ]
]

unfoldable pub check_and_record :
    RuntimeModelCallBudgetConfig → ModelCallDescriptor → Context → Context × CascadeResult
check_and_record config d c =
    let b = feature_budget_for_site config d.call_site in
    let (c', result) = decision_for_budget config d b c in
    let (c'', scope) = current_scope c' in
    if is_accepted result
    then (record c'' { scope = some (record_call scope d) }, result)
    else if d.call_kind == large_llm
    then (increment_avoided_large_llm_call c', result)
    else (c', result)

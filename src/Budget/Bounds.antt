-- ===== src/Budget/Bounds.antt =====
-- How many model calls the gate (iris/runtime/model_call_budget.py) lets through.
use iris_mind_v.Prelude.{
  ℕ, ◌+◌, ◌≤◌, ◌≡◌, inl, inr, none, some, ◌==◌, true, ◌&&◌, if◌then◌else◌, arith, List, [], ◌∷◌, ok,
  Bool-cases,
}
use iris_mind_v.Model.{
  ModelCallKind, large_llm, call_kind_eq, ModelCallSite, user_response_hot_path,
  runtime_learning_hook, call_site_eq, ModelCallDescriptor, CascadeResult, is_accepted,
}
use iris_mind_v.Budget.Config.{
  RuntimeFeatureModelCallBudget, RuntimeModelCallBudgetConfig, feature_budget_for_site,
  validate_feature_budget, validate_model_call_budget_config, validate_site_invariants,
  require_non_negative_int, require_probability,
}
use iris_mind_v.Budget.Gate.{
  new_scope, used, record_call, Context, current_scope, limit_for_kind, pre_budget_decision,
  decision_for_budget, check_and_record, low_confidence_result, increment_avoided_large_llm_call,
  bind_model_call_budget_scope,
}

-- The calls of one request, in order, and their results.
unfoldable pub check_each :
    RuntimeModelCallBudgetConfig → List ModelCallDescriptor → Context → Context × List CascadeResult
check_each config [] c = (c, [])
check_each config (d ∷ ds) c =
    let (c', result) = check_and_record config d c in
    let (c'', results) = check_each config ds c' in (c'', result ∷ results)

-- How many calls of this site and kind were accepted.
unfoldable pub accepted_calls :
    ModelCallSite → ModelCallKind → List ModelCallDescriptor → List CascadeResult → ℕ
accepted_calls site kind [] results = 0
accepted_calls site kind (d ∷ ds) [] = 0
accepted_calls site kind (d ∷ ds) (r ∷ rs) =
    (if site == d.call_site && kind == d.call_kind && is_accepted r then 1 else 0)
    + accepted_calls site kind ds rs

-- The count in the scope of a context, a missing scope being an empty one.
unfoldable pub count_of : Context → ModelCallSite → ModelCallKind → ℕ
count_of c site kind = elim c.scope [ none ↦ 0 | some scope ↦ scope site kind ]

abbrev pub limit_of : RuntimeModelCallBudgetConfig → ModelCallSite → ModelCallKind → ℕ
limit_of config site kind = elim (limit_for_kind (feature_budget_for_site config site) kind) [
  | none ↦ 0
  | some n ↦ n
]

-- The gate counts each accepted call once, and no other.
check_and_record-count :
    (config : RuntimeModelCallBudgetConfig) (d : ModelCallDescriptor) (c : Context)
    (site : ModelCallSite) (kind : ModelCallKind)
    → let (c', r) = check_and_record config d c in
      count_of c' site kind
      ≡ (if site == d.call_site && kind == d.call_kind && is_accepted r then 1 else 0)
        + count_of c site kind
unfolding check_and_record decision_for_budget current_scope count_of record_call
    increment_avoided_large_llm_call
check_and_record-count config d c site kind = ground arith

-- With the budget enabled, an accepted call leaves the count within its limit.
check_and_record-le :
    (config : RuntimeModelCallBudgetConfig) (d : ModelCallDescriptor) (c : Context)
    → config.enabled ≡ true
    → let (c', r) = check_and_record config d c in
      is_accepted r ≡ true
      → count_of c' d.call_site d.call_kind ≤ limit_of config d.call_site d.call_kind
unfolding check_and_record decision_for_budget current_scope count_of record_call used
    pre_budget_decision is_accepted low_confidence_result
check_and_record-le config d c on h = ground arith

module _ (config : RuntimeModelCallBudgetConfig) (site : ModelCallSite) (kind : ModelCallKind) where
  check_each-count :
      (ds : List ModelCallDescriptor) (c : Context)
      → let (c', results) = check_each config ds c in
        count_of c' site kind ≡ accepted_calls site kind ds results + count_of c site kind
  unfolding check_each accepted_calls
  check_each-count [] c = omega arith
  check_each-count (d ∷ ds) c =
      let c' = (check_and_record config d c).0 in
      omega (arith, check_each-count ds c', check_and_record-count config d c site kind)

  check_one-le :
      (d : ModelCallDescriptor) (c : Context)
      → config.enabled ≡ true
      → count_of c site kind ≤ limit_of config site kind
      → count_of (check_and_record config d c).0 site kind ≤ limit_of config site kind
  check_one-le d c on h = elim (call_site_eq.dec site d.call_site) [
    | no other ↦ ground (arith, check_and_record-count config d c site kind)
    | yes here ↦ elim (call_kind_eq.dec kind d.call_kind) [
      | no other ↦ ground (arith, check_and_record-count config d c site kind)
      | yes this ↦ elim (Bool-cases (is_accepted (check_and_record config d c).1)) [
        | inr refused ↦ ground (arith, check_and_record-count config d c site kind, refused)
        | inl taken ↦ rw (here, this) (check_and_record-le config d c on taken)
      ]
    ]
  ]

  check_each-le :
      (ds : List ModelCallDescriptor) (c : Context)
      → config.enabled ≡ true
      → count_of c site kind ≤ limit_of config site kind
      → count_of (check_each config ds c).0 site kind ≤ limit_of config site kind
  unfolding check_each
  check_each-le [] c on h = h
  check_each-le (d ∷ ds) c on h =
      check_each-le ds (check_and_record config d c).0 on (check_one-le d c on h)

  -- With the budget enabled, within one request scope the gate accepts no more calls of a site
  -- and kind than the limit of the site's budget for that kind, whatever calls are asked for
  -- and in whatever order.
  pub request_calls_le :
      (ds : List ModelCallDescriptor) (c : Context)
      → config.enabled ≡ true
      → accepted_calls site kind ds (bind_model_call_budget_scope (check_each config ds) c).1
        ≤ limit_of config site kind
  unfolding bind_model_call_budget_scope
  request_calls_le ds c on =
      let fresh = record c { scope = some new_scope } in
      omega (arith, check_each-le ds fresh on start, check_each-count ds fresh)
    where
      start : count_of (record c { scope = some new_scope }) site kind ≤ limit_of config site kind
      start = unfold count_of in omega arith

module _ (one : ℕ) where
  hot_path_limit :
      (b v : RuntimeFeatureModelCallBudget)
      → validate_feature_budget one b user_response_hot_path ≡ ok v
      → elim (limit_for_kind v large_llm) [ none ↦ 0 | some n ↦ n ] ≤ 1
  unfolding validate_feature_budget require_non_negative_int require_probability
      validate_site_invariants limit_for_kind
  hot_path_limit b v h = ground arith

  learning_hook_limit :
      (b v : RuntimeFeatureModelCallBudget)
      → validate_feature_budget one b runtime_learning_hook ≡ ok v
      → elim (limit_for_kind v large_llm) [ none ↦ 0 | some n ↦ n ] ≤ 0
  unfolding validate_feature_budget require_non_negative_int require_probability
      validate_site_invariants limit_for_kind
  learning_hook_limit b v h = ground arith

  validated-features :
      (config v : RuntimeModelCallBudgetConfig)
      → validate_model_call_budget_config one config ≡ ok v
      → (validate_feature_budget one config.user_response_hot_path user_response_hot_path
          ≡ ok v.user_response_hot_path)
        × (validate_feature_budget one config.runtime_learning_hook runtime_learning_hook
            ≡ ok v.runtime_learning_hook)
  unfolding validate_model_call_budget_config
  validated-features config v h = (ground arith, ground arith)

  -- With a validated configuration whose budget is enabled, a request scope gets at most one
  -- large model call accepted on the hot path of the user's response, and none in the learning
  -- hook.
  pub validated_calls :
      (config v : RuntimeModelCallBudgetConfig) (ds : List ModelCallDescriptor) (c : Context)
      → validate_model_call_budget_config one config ≡ ok v
      → v.enabled ≡ true
      → let results = (bind_model_call_budget_scope (check_each v ds) c).1 in
        (accepted_calls user_response_hot_path large_llm ds results ≤ 1)
        × (accepted_calls runtime_learning_hook large_llm ds results ≡ 0)
  unfolding feature_budget_for_site
  validated_calls config v ds c valid on =
      let (hot, hook) = validated-features config v valid in
      (
        omega (
          arith,
          request_calls_le v user_response_hot_path large_llm ds c on,
          hot_path_limit config.user_response_hot_path v.user_response_hot_path hot,
        ),
        omega (
          arith,
          request_calls_le v runtime_learning_hook large_llm ds c on,
          learning_hook_limit config.runtime_learning_hook v.runtime_learning_hook hook,
        ),
      )

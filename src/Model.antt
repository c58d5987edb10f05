-- ===== src/Model.antt =====
-- iris/contracts/model_policy.py: model calls and cascade results. A confidence is a multiple of
-- 2 to the -1074, which every float between 0 and 1 is; metadata is an association list of texts.
use iris_mind_v.Prelude.{ℕ, Text, Option, Eq, Bool, true, false, List}

pub data ModelCallKind : Type 0 where
  large_llm small_classifier embedding reranker background_llm : ModelCallKind

pub ModelCallKind-discrete : Discrete ModelCallKind
ModelCallKind-discrete = hlevel

instance abbrev pub call_kind_eq : Eq ModelCallKind
call_kind_eq = record { dec = ModelCallKind-discrete }

pub data ModelCallSite : Type 0 where
  user_response_hot_path event_reaction proactive memory_extraction reflection : ModelCallSite
  relationship_update interaction_policy_candidate runtime_learning_hook : ModelCallSite

pub ModelCallSite-discrete : Discrete ModelCallSite
ModelCallSite-discrete = hlevel

instance abbrev pub call_site_eq : Eq ModelCallSite
call_site_eq = record { dec = ModelCallSite-discrete }

pub data CascadeDecision : Type 0 where
  accept escalate fallback defer deny : CascadeDecision

pub data CascadeFallbackBehavior : Type 0 where
  no_op deterministic_baseline defer enqueue_background reject : CascadeFallbackBehavior

abbrev pub Confidence : Type 0
Confidence = ℕ

abbrev pub Metadata : Type 0
Metadata = List (Text × Text)

pub record ModelCallDescriptor : Type 0 where
  pub call_kind : ModelCallKind
  pub call_site : ModelCallSite
  pub model_slot : Option Text
  pub model_name : Option Text
  pub confidence : Confidence
  pub high_risk : Bool
  pub uncertain : Bool
  pub metadata : Metadata

pub record CascadeResult : Type 0 where
  pub decision : CascadeDecision
  pub reason : Text
  pub confidence : Confidence
  pub fallback_behavior : Option CascadeFallbackBehavior
  pub model_metadata : Metadata

-- `result.accepted`
unfoldable pub is_accepted : CascadeResult → Bool
is_accepted r = elim r.decision [ accept ↦ true | _ ↦ false ]

-- ===== src/Safety/Engine.antt =====
-- iris/safety/policy_engine.py, with the statuses and severities of iris/contracts/availability.py and
-- iris/contracts/safety.py.
use iris_mind_v.Prelude.{
  ℕ, Text, text, text_eq, Option, none, some, List, [], ◌∷◌, Bool, true, false, any, elem, leb,
  if◌then◌else◌,
}

pub data AvailabilityStatus : Type 0 where
  unknown available interruptible passive busy unavailable : AvailabilityStatus

pub data SafetyContextSeverity : Type 0 where
  low medium high : SafetyContextSeverity

pub data SafetyRiskLevel : Type 0 where
  low medium high : SafetyRiskLevel

pub data DeliverySource : Type 0 where
  user_initiated proactive_idle_tick : DeliverySource

pub record SafetyAuditMetadata : Type 0 where
  pub policy : Text
  pub policy_version : Text
  pub source : DeliverySource
  pub target_key : Text
  pub model_versions : List Text

-- Of a safety context the code reads the severity.
pub record SafetyContext : Type 0 where
  pub severity : SafetyContextSeverity

pub record SafetyPolicyContext : Type 0 where
  pub source : DeliverySource
  pub target_key : Text
  pub policy_constraint_names : List Text
  pub safety_contexts : List SafetyContext
  pub availability_status : Option AvailabilityStatus
  pub in_quiet_hours : Bool
  pub recent_block_count : ℕ

pub record SafetyPolicyDecision : Type 0 where
  pub allowed : Bool
  pub reason : Text
  pub risk_level : SafetyRiskLevel
  pub not_before : Option ℕ
  pub audit : SafetyAuditMetadata

pub record SafetyPolicyEngine : Type 0 where
  pub repeated_block_threshold : ℕ

abbrev pub is_high : SafetyContextSeverity → Bool
is_high high = true
is_high _ = false

abbrev pub is_busy : Option AvailabilityStatus → Bool
is_busy (some busy) = true
is_busy _ = false

abbrev pub is_unavailable : Option AvailabilityStatus → Bool
is_unavailable (some unavailable) = true
is_unavailable _ = false

unfoldable pub has_high_risk_safety_context : SafetyPolicyContext → Bool
has_high_risk_safety_context c = any (λ item. is_high item.severity) c.safety_contexts

abbrev pub Check : Type 0
Check = Bool × Text × SafetyRiskLevel

-- The first of the checks that blocks.
unfoldable pub first_block : List Check → Option (Text × SafetyRiskLevel)
first_block [] = none
first_block ((blocked, reason, risk_level) ∷ checks) =
    let rest = first_block checks in if blocked then some (reason, risk_level) else rest

unfoldable pub proactive_block :
    SafetyPolicyEngine → SafetyPolicyContext → Option (Text × SafetyRiskLevel)
proactive_block engine c = elim c.source [
  | user_initiated ↦ none
  | proactive_idle_tick ↦ first_block (
      (
        has_high_risk_safety_context c,
        text "proactive_high_risk_safety_context",
        SafetyRiskLevel.high,
      )
      ∷ (
        elem (text "sensitive_safety_context") c.policy_constraint_names,
        text "proactive_sensitive_safety_context",
        SafetyRiskLevel.high,
      )
      ∷ (is_busy c.availability_status, text "availability_busy", SafetyRiskLevel.medium)
      ∷ (
        is_unavailable c.availability_status,
        text "availability_unavailable",
        SafetyRiskLevel.medium,
      )
      ∷ (c.in_quiet_hours, text "quiet_hours", SafetyRiskLevel.medium)
      ∷ (
        leb engine.repeated_block_threshold c.recent_block_count,
        text "repeated_recent_blocks",
        SafetyRiskLevel.medium,
      )
      ∷ [])
]

unfoldable pub allow : SafetyAuditMetadata → SafetyPolicyDecision
allow audit = record {
  allowed = true;
  reason = text "allowed";
  risk_level = SafetyRiskLevel.low;
  not_before = none;
  audit = audit;
}

unfoldable pub block :
    (reason : Text) → SafetyRiskLevel → SafetyAuditMetadata → SafetyPolicyDecision
block reason risk_level audit = record {
  allowed = false;
  reason = reason;
  risk_level = risk_level;
  not_before = none;
  audit = audit;
}

unfoldable pub evaluate_delivery : SafetyPolicyEngine → SafetyPolicyContext → SafetyPolicyDecision
evaluate_delivery engine c =
    let audit : SafetyAuditMetadata = record {
      policy = text "strict_delivery";
      policy_version = text "1";
      source = c.source;
      target_key = c.target_key;
      model_versions = [];
    } in
    elim (proactive_block engine c) [
      | none ↦ allow audit
      | some (reason, risk_level) ↦ block reason risk_level audit
    ]

-- ===== src/Safety/Gate.antt =====
-- iris/safety/delivery_gate.py, with the policies of iris/contracts/surface_policy.py and
-- iris/contracts/user_control.py. What zoneinfo makes of an instant, the time of day in a zone, is a
-- parameter, in microseconds. The store of user control is a function, the answer of the verifier
-- an argument.
use iris_mind_v.Prelude.{
  ℕ, Text, text, text_eq, ◌++◌, Option, none, some, Eq, List, [], Bool, true, false, not, ◌&&◌,
  ◌||◌, ◌==◌, elem, is_empty, is_blank, leb, ltb, if◌then◌else◌,
}
use iris_mind_v.Delivery.Types.{Time, DeliverySurface, unknown, DeliveryTarget, PresentationHints}
use iris_mind_v.Safety.Engine.{
  AvailabilityStatus, SafetyRiskLevel, DeliverySource, user_initiated, proactive_idle_tick,
  SafetyAuditMetadata, SafetyPolicyContext, SafetyPolicyDecision, SafetyPolicyEngine,
  evaluate_delivery,
}

pub DeliverySurface-discrete : Discrete DeliverySurface
DeliverySurface-discrete = hlevel

instance abbrev pub surface_eq : Eq DeliverySurface
surface_eq = record { dec = DeliverySurface-discrete }

pub record QuietHoursPolicy : Type 0 where
  pub enabled : Bool
  pub start : ℕ
  pub end_at : ℕ
  pub timezone : Text

pub record DeliverySafetyDecision : Type 0 where
  pub allowed : Bool
  pub reason : Text
  pub not_before : Option Time
  pub risk_level : SafetyRiskLevel
  pub audit : Option SafetyAuditMetadata

-- What the gates read of a `PresentedOutput`.
pub record PresentedOutput : Type 0 where
  pub output_text : Option Text
  pub presentation_hints : PresentationHints

unfoldable pub is_sendable : PresentedOutput → Bool
is_sendable output = elim output.output_text [ none ↦ false | some s ↦ not (is_blank s) ]

-- `DeliverySafetyDecision(allowed=..., reason=...)`
abbrev pub plain_decision : (allowed : Bool) (reason : Text) → DeliverySafetyDecision
plain_decision allowed reason = record {
  allowed = allowed;
  reason = reason;
  not_before = none;
  risk_level = SafetyRiskLevel.low;
  audit = none;
}

unfoldable pub output_reason : PresentedOutput → Option Text
output_reason output = if is_sendable output then none else some (text "output_not_sendable")

unfoldable pub target_reason : DeliveryTarget → Option Text
target_reason target =
    if is_empty target.provider
    then some (text "missing_provider")
    else elim target.provider_subject [
      | some _ ↦ none
      | none ↦ elim target.provider_space_ref [ some _ ↦ none | none ↦ some (text "missing_route") ]
    ]

unfoldable pub availability_reason : Option AvailabilityStatus → Option Text
availability_reason (some AvailabilityStatus.busy) = some (text "availability_busy")
availability_reason (some AvailabilityStatus.unavailable) = some (text "availability_unavailable")
availability_reason _ = none

unfoldable pub check_target_output : DeliveryTarget → PresentedOutput → DeliverySafetyDecision
check_target_output target output = elim (output_reason output) [
  | some reason ↦ plain_decision false reason
  | none ↦ elim (target_reason target) [
    | some reason ↦ plain_decision false reason
    | none ↦ plain_decision true (text "allowed")
  ]
]

-- `target.provider_subject or ''`
abbrev pub or_empty : Option Text → Text
or_empty none = []
or_empty (some s) = s

unfoldable pub target_key : DeliveryTarget → Text
target_key target =
    target.provider
    ++ text ":"
    ++ or_empty target.provider_subject
    ++ text ":"
    ++ or_empty target.provider_space_ref

unfoldable pub delivery_decision : SafetyPolicyDecision → DeliverySafetyDecision
delivery_decision d = record {
  allowed = d.allowed;
  reason = d.reason;
  not_before = d.not_before;
  risk_level = d.risk_level;
  audit = some d.audit;
}

pub record DeliverySurfacePolicy : Type 0 where
  pub allowed_surfaces : List DeliverySurface
  pub allowed_providers : List Text
  pub denied_surfaces : List DeliverySurface
  pub denied_providers : List Text

unfoldable pub surface_reason :
    DeliverySurfacePolicy → DeliverySurface → (provider : Text) → Option Text
surface_reason p surface provider =
    if elem surface p.denied_surfaces
    then some (text "surface_denied")
    else if elem provider p.denied_providers
    then some (text "provider_denied")
    else if not (is_empty p.allowed_surfaces) && not (elem surface p.allowed_surfaces)
    then some (text "surface_not_allowed")
    else if not (is_empty p.allowed_providers) && not (elem provider p.allowed_providers)
    then some (text "provider_not_allowed")
    else none

pub record UserControlState : Type 0 where
  pub opt_out : Bool
  pub muted : Bool
  pub blocked : Bool
  pub interruptions_allowed : Bool
  pub updated_at : Time

pub data VerifierStatus : Type 0 where
  available warming busy unavailable : VerifierStatus

pub record ProductionDeliverySafetyGate : Type 0 where
  pub quiet_hours : QuietHoursPolicy
  pub engine : SafetyPolicyEngine
  pub surface_policy : DeliverySurfacePolicy
  pub user_control_store : Option (Text → Option UserControlState)
  pub final_verifier_enabled : Bool
  pub verifier_availability : Option VerifierStatus

unfoldable pub user_control_reason :
    Option (Text → Option UserControlState) → DeliveryTarget → PresentedOutput → Option Text
user_control_reason none target output = none
user_control_reason (some store) target output = elim (store (target_key target)) [
  | none ↦ none
  | some state ↦
      if state.opt_out
      then some (text "user_opted_out")
      else if state.muted
      then some (text "user_muted")
      else if state.blocked
      then some (text "user_blocked")
      else if output.presentation_hints.interruptible && not state.interruptions_allowed
      then some (text "interruptions_disabled")
      else none
]

unfoldable pub verifier_reason : (enabled : Bool) → Option VerifierStatus → Option Text
verifier_reason enabled status = if not enabled then none else elim status [
  | none ↦ some (text "verifier_not_configured")
  | some s ↦ elim s [
    | VerifierStatus.available ↦ none
    | VerifierStatus.warming ↦ some (text "verifier_warming")
    | VerifierStatus.busy ↦ some (text "verifier_busy")
    | VerifierStatus.unavailable ↦ some (text "verifier_unavailable")
  ]
]

unfoldable pub production_block_reason :
    ProductionDeliverySafetyGate → DeliveryTarget → PresentedOutput → Option Text
production_block_reason gate target output =
    if target.surface == unknown
    then some (text "unknown_delivery_surface")
    else elim (surface_reason gate.surface_policy target.surface target.provider) [
      | some violation ↦ some violation
      | none ↦ elim (user_control_reason gate.user_control_store target output) [
        | some reason ↦ some reason
        | none ↦ verifier_reason gate.final_verifier_enabled gate.verifier_availability
      ]
    ]

-- The source of a context, a missing one being that of a user.
abbrev pub source_of : Option SafetyPolicyContext → DeliverySource
source_of none = user_initiated
source_of (some context) = context.source

unfoldable pub blocked_production_decision :
    DeliveryTarget → Option SafetyPolicyContext → (reason : Text) → DeliverySafetyDecision
blocked_production_decision target context reason = record {
  allowed = false;
  reason = reason;
  not_before = none;
  risk_level = SafetyRiskLevel.high;
  audit = some record {
    policy = text "production_delivery";
    policy_version = text "2";
    source = source_of context;
    target_key = target_key target;
    model_versions = [];
  };
}

module _ (time_in_zone : Time → Text → ℕ) where
  unfoldable pub quiet_hours_reason : QuietHoursPolicy → Time → Option Text
  quiet_hours_reason q now =
      let current = time_in_zone now q.timezone in
      let in_window =
        (if ltb q.start q.end_at
          then leb q.start current && ltb current q.end_at
          else leb q.start current || ltb current q.end_at) in
      if not q.enabled then none else if in_window then some (text "quiet_hours") else none

  unfoldable pub is_quiet_hours : QuietHoursPolicy → Time → Bool
  is_quiet_hours q now = elim (quiet_hours_reason q now) [ none ↦ false | some _ ↦ true ]

  -- `BasicDeliverySafetyGate.check`
  unfoldable pub basic_check :
      QuietHoursPolicy
      → DeliveryTarget
      → PresentedOutput
      → Option AvailabilityStatus
      → Time
      → DeliverySafetyDecision
  basic_check q target output availability now =
      let precheck = check_target_output target output in
      if not precheck.allowed then precheck else elim (availability_reason availability) [
        | some reason ↦ plain_decision false reason
        | none ↦ elim (quiet_hours_reason q now) [
          | some reason ↦ plain_decision false reason
          | none ↦ plain_decision true (text "allowed")
        ]
      ]

  -- `StrictDeliverySafetyGate.check`
  unfoldable pub strict_check :
      QuietHoursPolicy
      → SafetyPolicyEngine
      → DeliveryTarget
      → PresentedOutput
      → Option AvailabilityStatus
      → Time
      → Option SafetyPolicyContext
      → DeliverySafetyDecision
  strict_check q engine target output availability now none =
      let precheck = check_target_output target output in
      if not precheck.allowed then precheck else basic_check q target output availability now
  strict_check q engine target output availability now (some context) =
      let precheck = check_target_output target output in
      if not precheck.allowed then precheck else elim context.source [
        | user_initiated ↦ basic_check q target output availability now
        | proactive_idle_tick ↦ delivery_decision (
            evaluate_delivery engine (record context {
              availability_status = availability;
              in_quiet_hours = is_quiet_hours q now;
            }))
      ]

  -- `ProductionDeliverySafetyGate.check`
  unfoldable pub production_check :
      ProductionDeliverySafetyGate
      → DeliveryTarget
      → PresentedOutput
      → Option AvailabilityStatus
      → Time
      → Option SafetyPolicyContext
      → DeliverySafetyDecision
  production_check gate target output availability now context =
      elim (production_block_reason gate target output) [
        | some reason ↦ blocked_production_decision target context reason
        | none ↦ strict_check gate.quiet_hours gate.engine target output availability now context
      ]

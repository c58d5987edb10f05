-- ===== src/Safety/Verdict.antt =====
-- When the production gate (iris/safety/delivery_gate.py) lets an output through: a condition that
-- names every reason to block, in no order.
use iris_mind_v.Prelude.{
  ℕ, Text, text, text_eq, ◌≡◌, Option, none, some, Bool, true, false, not, ◌&&◌, ◌||◌, ◌==◌, elem,
  is_some, is_empty, leb, arith, Option-cases, inl, inr,
}
use iris_mind_v.Delivery.Types.{Time, unknown, DeliveryTarget}
use iris_mind_v.Safety.Engine.{
  AvailabilityStatus, user_initiated, proactive_idle_tick, SafetyPolicyContext, SafetyPolicyEngine,
  is_busy, is_unavailable, has_high_risk_safety_context, first_block, proactive_block, allow, block,
  evaluate_delivery,
}
use iris_mind_v.Safety.Gate.{
  surface_eq, QuietHoursPolicy, PresentedOutput, is_sendable, output_reason, target_reason,
  availability_reason, check_target_output, target_key, delivery_decision, DeliverySurfacePolicy,
  surface_reason, UserControlState, VerifierStatus, ProductionDeliverySafetyGate,
  user_control_reason, verifier_reason, production_block_reason, blocked_production_decision,
  is_quiet_hours, basic_check, strict_check, production_check,
}

abbrev pub is_routed : DeliveryTarget → Bool
is_routed target =
    not (is_empty target.provider)
    && (is_some target.provider_subject || is_some target.provider_space_ref)

-- The lists of the policy admit the surface and the provider of the target.
abbrev pub surface_admitted : DeliverySurfacePolicy → DeliveryTarget → Bool
surface_admitted p target =
    not (elem target.surface p.denied_surfaces)
    && not (elem target.provider p.denied_providers)
    && (is_empty p.allowed_surfaces || elem target.surface p.allowed_surfaces)
    && (is_empty p.allowed_providers || elem target.provider p.allowed_providers)

-- The user of the target has not asked to be left alone.
abbrev pub user_permits : UserControlState → PresentedOutput → Bool
user_permits state output =
    not state.opt_out
    && not state.muted
    && not state.blocked
    && (not output.presentation_hints.interruptible || state.interruptions_allowed)

abbrev pub control_permits :
    Option (Text → Option UserControlState) → DeliveryTarget → PresentedOutput → Bool
control_permits none target output = true
control_permits (some store) target output = elim (store (target_key target)) [
  | none ↦ true
  | some state ↦ user_permits state output
]

abbrev pub is_available : Option VerifierStatus → Bool
is_available (some VerifierStatus.available) = true
is_available _ = false

-- A proactive output is let through in this context.
abbrev pub context_permits : SafetyPolicyEngine → Option SafetyPolicyContext → Bool
context_permits engine none = true
context_permits engine (some c) = elim c.source [
  | user_initiated ↦ true
  | proactive_idle_tick ↦
      not (has_high_risk_safety_context c)
      && not (elem (text "sensitive_safety_context") c.policy_constraint_names)
      && not (leb engine.repeated_block_threshold c.recent_block_count)
]

-- What production mode asks for.
unfoldable pub production_permits :
    ProductionDeliverySafetyGate → DeliveryTarget → PresentedOutput → Bool
production_permits gate target output =
    not (target.surface == unknown)
    && surface_admitted gate.surface_policy target
    && control_permits gate.user_control_store target output
    && (not gate.final_verifier_enabled || is_available gate.verifier_availability)

module _ (time_in_zone : Time → Text → ℕ) where
  -- What every delivery asks for, and a proactive one beside.
  unfoldable pub strict_permits :
      QuietHoursPolicy
      → SafetyPolicyEngine
      → DeliveryTarget
      → PresentedOutput
      → Option AvailabilityStatus
      → Time
      → Option SafetyPolicyContext
      → Bool
  strict_permits q engine target output availability now context =
      is_sendable output
      && is_routed target
      && not (is_busy availability || is_unavailable availability)
      && not (is_quiet_hours time_in_zone q now)
      && context_permits engine context

  -- Each part of the gate blocks exactly when its condition fails.
  precheck-allowed :
      (target : DeliveryTarget) (output : PresentedOutput)
      → (check_target_output target output).allowed ≡ (is_sendable output && is_routed target)
  unfolding check_target_output output_reason target_reason
  precheck-allowed target output = ground arith

  basic-allowed :
      (q : QuietHoursPolicy) (target : DeliveryTarget) (output : PresentedOutput)
      (availability : Option AvailabilityStatus) (now : Time)
      → (basic_check time_in_zone q target output availability now).allowed ≡ (
          is_sendable output
          && is_routed target
          && not (is_busy availability || is_unavailable availability)
          && not (is_quiet_hours time_in_zone q now))
  unfolding basic_check availability_reason is_quiet_hours
  basic-allowed q target output availability now = ground (arith, precheck-allowed target output)

  engine-allowed :
      (engine : SafetyPolicyEngine) (c : SafetyPolicyContext)
      → (evaluate_delivery engine c).allowed ≡ elim c.source as (λ _. Bool) [
        | user_initiated ↦ true
        | proactive_idle_tick ↦
            not (has_high_risk_safety_context c)
            && not (elem (text "sensitive_safety_context") c.policy_constraint_names)
            && not (is_busy c.availability_status || is_unavailable c.availability_status)
            && not c.in_quiet_hours
            && not (leb engine.repeated_block_threshold c.recent_block_count)
      ]
  unfolding evaluate_delivery proactive_block first_block allow block
  engine-allowed engine c = ground arith

  strict-allowed :
      (q : QuietHoursPolicy) (engine : SafetyPolicyEngine) (target : DeliveryTarget)
      (output : PresentedOutput) (availability : Option AvailabilityStatus) (now : Time)
      (context : Option SafetyPolicyContext)
      → (strict_check time_in_zone q engine target output availability now context).allowed
        ≡ strict_permits q engine target output availability now context
  unfolding strict_permits strict_check delivery_decision has_high_risk_safety_context
  strict-allowed q engine target output availability now none =
      ground (arith, precheck-allowed target output, basic-allowed q target output availability now)
  strict-allowed q engine target output availability now (some c) = ground (
    arith,
    precheck-allowed target output,
    basic-allowed q target output availability now,
    engine-allowed engine (record c {
      availability_status = availability;
      in_quiet_hours = is_quiet_hours time_in_zone q now;
    }),
  )

  production-blocked :
      (gate : ProductionDeliverySafetyGate) (target : DeliveryTarget) (output : PresentedOutput)
      → is_some (production_block_reason gate target output)
        ≡ not (production_permits gate target output)
  unfolding production_permits production_block_reason surface_reason user_control_reason
      verifier_reason
  production-blocked gate target output = ground arith

  -- The production gate allows a delivery exactly if no reason to block holds, whatever the
  -- order in which it looks at them: the surface is known and admitted with its provider, the
  -- user of the target permits it, the verifier is available where it is asked for, the output
  -- is sendable and its target routed, the target is neither busy nor unavailable, it is not in
  -- quiet hours, and a proactive output comes in a context that permits it.
  pub production_check-allowed :
      (gate : ProductionDeliverySafetyGate) (target : DeliveryTarget) (output : PresentedOutput)
      (availability : Option AvailabilityStatus) (now : Time) (context : Option SafetyPolicyContext)
      → (production_check time_in_zone gate target output availability now context).allowed ≡ (
          production_permits gate target output
          && strict_permits gate.quiet_hours gate.engine target output availability now context)
  unfolding production_check blocked_production_decision
  production_check-allowed gate target output availability now context =
      elim (Option-cases (production_block_reason gate target output)) [
        | inl e ↦ ground (
          arith,
          e,
          production-blocked gate target output,
          strict-allowed gate.quiet_hours gate.engine target output availability now context,
        )
        | inr (reason, e) ↦ ground (arith, e, production-blocked gate target output)
      ]

-- ===== src/Safety/Tests.antt =====
-- The production gate at work on a muted target.
use iris_mind_v.Prelude.{ℕ, ◌≡◌, Text, text, none, some, [], ◌∷◌, true, false, pos, ◌&&◌}
use iris_mind_v.Delivery.Types.{private_direct_message, DeliveryTarget, PresentationModality}
use iris_mind_v.Safety.Engine.{SafetyPolicyContext, proactive_idle_tick, available}
use iris_mind_v.Safety.Gate.{
  PresentedOutput, UserControlState, ProductionDeliverySafetyGate, production_check,
}
use iris_mind_v.Safety.Verdict.{production_permits, strict_permits, production_check-allowed}

abbrev ann : DeliveryTarget
ann = record {
  provider = text "chat";
  provider_subject = some (text "ann");
  provider_space_ref = none;
  session_id = text "s1";
  actor_id = none;
  account_id = none;
  space_id = none;
  surface = private_direct_message;
}

abbrev greeting : PresentedOutput
greeting = record {
  output_text = some (text "Good morning");
  presentation_hints = record {
    style_hint = none;
    emotion_hint = none;
    expression_hint = none;
    delay_ms = 0;
    priority = pos 0;
    interruptible = true;
    modality = PresentationModality.text;
  };
}

abbrev muted : UserControlState
muted = record {
  opt_out = false;
  muted = true;
  blocked = false;
  interruptions_allowed = true;
  updated_at = 0;
}

abbrev gate : ProductionDeliverySafetyGate
gate = record {
  quiet_hours = record { enabled = true; start = 22; end_at = 8; timezone = text "Asia/Tokyo" };
  engine = record { repeated_block_threshold = 2 };
  surface_policy = record {
    allowed_surfaces = [];
    allowed_providers = text "chat" ∷ [];
    denied_surfaces = [];
    denied_providers = [];
  };
  user_control_store = some (λ key. some muted);
  final_verifier_enabled = false;
  verifier_availability = none;
}

abbrev idle_tick : SafetyPolicyContext
idle_tick = record {
  source = proactive_idle_tick;
  target_key = text "chat:ann:";
  policy_constraint_names = [];
  safety_contexts = [];
  availability_status = none;
  in_quiet_hours = false;
  recent_block_count = 0;
}

abbrev noon : ℕ → Text → ℕ
noon now zone = 12

production_check-allowed_example :
    (production_check noon gate ann greeting (some available) 9 (some idle_tick)).allowed ≡ (
      production_permits gate ann greeting
      && strict_permits noon gate.quiet_hours gate.engine ann greeting
          (some available)
          9
          (some idle_tick))
production_check-allowed_example =
    production_check-allowed noon gate ann greeting (some available) 9 (some idle_tick)

-- ===== src/Activity/Events.antt =====
-- iris/runtime/state/interaction_activity.py: the snapshot of an activity event. `fromisoformat` is a
-- parameter: none where Python raises `ValueError`, and otherwise the instant, which is none of a
-- text without a time zone.
use iris_mind_v.Prelude.{
  ℕ, ◌+◌, min, timedelta, Text, text, text_eq, Option, none, some, Bool, true, false, leb,
  if◌then◌else◌, ◌==◌,
}
use iris_mind_v.Prelude.Dict.{lookup}
use iris_mind_v.Activity.Types.{
  ActivityKind, actor_input_started, actor_input_stopped, app_output_started, app_output_stopped,
  InteractionActivityChannel, actor_input, app_output, InteractionModality, voice, video, gesture,
  notification, unknown, InteractionActivitySnapshot, ActivityEventRecord,
}

-- What the code reads of an `ObservationIngressContext`.
pub record Ingress : Type 0 where
  pub adapter_id : Text
  pub provider : Option Text

unfoldable pub transition : ActivityKind → Option (InteractionActivityChannel × Bool)
transition actor_input_started = some (actor_input, true)
transition actor_input_stopped = some (actor_input, false)
transition app_output_started = some (app_output, true)
transition app_output_stopped = some (app_output, false)
transition _ = none

-- `InteractionModality(raw)`, or `UNKNOWN` of any other text
unfoldable pub modality_of : Text → InteractionModality
modality_of raw =
    if raw == text "voice"
    then voice
    else if raw == text "text"
    then InteractionModality.text
    else if raw == text "video"
    then video
    else if raw == text "gesture"
    then gesture
    else if raw == text "notification"
    then notification
    else unknown

unfoldable pub modality : ActivityEventRecord → InteractionModality
modality event = elim (lookup (text "modality") event.metadata) [
  | none ↦ modality_of (text "unknown")
  | some raw ↦ modality_of raw
]

module _ (fromisoformat : Text → Option (Option ℕ)) where
  unfoldable pub parse_advisory_expiry : Option Text → Option ℕ
  parse_advisory_expiry none = none
  parse_advisory_expiry (some raw) = elim (fromisoformat raw) [
    | none ↦ none
    | some instant ↦ instant
  ]

  unfoldable pub bounded_expiry : ActivityEventRecord → (now max_ttl_seconds : ℕ) → ℕ
  bounded_expiry event now max_ttl_seconds =
      let server_expiry = now + timedelta max_ttl_seconds in
      elim (parse_advisory_expiry (lookup (text "expires_at") event.metadata)) [
        | none ↦ server_expiry
        | some advisory_expiry ↦
            if leb advisory_expiry now then now else min advisory_expiry server_expiry
      ]

  unfoldable pub interaction_snapshot_from_event :
      ActivityEventRecord → Ingress → (now max_ttl_seconds : ℕ) → Option InteractionActivitySnapshot
  interaction_snapshot_from_event event ingress now max_ttl_seconds = elim (transition event.kind) [
    | none ↦ none
    | some (channel, active) ↦
        let expires_at = bounded_expiry event now max_ttl_seconds in
        some record {
          adapter_id = ingress.adapter_id;
          provider = ingress.provider;
          actor_id = event.actor_id;
          account_id = event.account_id;
          space_id = event.space_id;
          channel = channel;
          active = active;
          modality = modality event;
          reason = lookup (text "reason") event.metadata;
          provider_sequence = event.provider_sequence;
          observed_at = event.occurred_at;
          received_at = event.received_at;
          expires_at = if active then expires_at else now;
        }
  ]

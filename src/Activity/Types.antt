-- ===== src/Activity/Types.antt =====
-- iris/contracts/activity.py and iris/contracts/ordering.py: activity events, snapshots of what is
-- going on, and ordering decisions. An instant is a number of microseconds; identifiers are texts.
use iris_mind_v.Prelude.{ℕ, ℤ, Text, Option, Eq, Bool, true, false}
use iris_mind_v.Model.{Metadata}

pub data ActivityKind : Type 0 where
  actor_typing_started actor_typing_stopped app_opened app_closed : ActivityKind
  voice_joined voice_left system_interaction : ActivityKind
  actor_input_started actor_input_stopped app_output_started app_output_stopped : ActivityKind

pub data InteractionActivityChannel : Type 0 where
  actor_input app_output : InteractionActivityChannel

pub InteractionActivityChannel-discrete : Discrete InteractionActivityChannel
InteractionActivityChannel-discrete = hlevel

instance abbrev pub channel_eq : Eq InteractionActivityChannel
channel_eq = record { dec = InteractionActivityChannel-discrete }

pub data InteractionModality : Type 0 where
  voice text video gesture notification unknown : InteractionModality

pub InteractionModality-discrete : Discrete InteractionModality
InteractionModality-discrete = hlevel

instance abbrev pub modality_eq : Eq InteractionModality
modality_eq = record { dec = InteractionModality-discrete }

pub record InteractionActivitySnapshot : Type 0 where
  pub adapter_id : Text
  pub provider : Option Text
  pub actor_id : Option Text
  pub account_id : Option Text
  pub space_id : Option Text
  pub channel : InteractionActivityChannel
  pub active : Bool
  pub modality : InteractionModality
  pub reason : Option Text
  pub provider_sequence : Option ℤ
  pub observed_at : ℕ
  pub received_at : ℕ
  pub expires_at : ℕ

pub record ActivityEventRecord : Type 0 where
  pub activity_id : Text
  pub observation_id : Option Text
  pub provider_event_id : Option Text
  pub provider_sequence : Option ℤ
  pub actor_id : Option Text
  pub account_id : Option Text
  pub device_id : Option Text
  pub space_id : Option Text
  pub source : Option Text
  pub kind : ActivityKind
  pub occurred_at : ℕ
  pub received_at : ℕ
  pub metadata : Metadata

pub data RuntimeOrderingKeyKind : Type 0 where
  observation transcript interaction_activity state_candidate : RuntimeOrderingKeyKind
  delivery_result : RuntimeOrderingKeyKind

pub record RuntimeOrderingKey : Type 0 where
  pub kind : RuntimeOrderingKeyKind
  pub adapter_id : Option Text
  pub provider : Option Text
  pub account_id : Option Text
  pub actor_id : Option Text
  pub space_id : Option Text
  pub session_id : Option Text
  pub channel : Option Text

pub data OrderingConflictReason : Type 0 where
  duplicate stale version_conflict scope_conflict backend_unavailable : OrderingConflictReason

pub data OrderingDecisionKind : Type 0 where
  accept ignore_duplicate ignore_stale reject_conflict defer : OrderingDecisionKind

pub record OrderingConflict : Type 0 where
  pub reason : OrderingConflictReason
  pub expected_version : Option Text
  pub observed_version : Option Text

pub record OrderingDecision : Type 0 where
  pub key : RuntimeOrderingKey
  pub decision : OrderingDecisionKind
  pub conflict : Option OrderingConflict

-- `decision.accepted`
unfoldable pub is_accepted : OrderingDecision → Bool
is_accepted d = elim d.decision [ accept ↦ true | _ ↦ false ]

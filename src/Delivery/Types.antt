-- ===== src/Delivery/Types.antt =====
-- iris/contracts/delivery.py, iris/contracts/actions.py: statuses, actions, results, envelopes.
use iris_mind_v.Prelude.{ℕ, ℤ, Text, Option, Eq, Bool, true, false}

-- A `datetime` with a time zone, as microseconds since a fixed instant; a `timedelta` likewise.
abbrev pub Time : Type 0
Time = ℕ

pub data DeliveryStatus : Type 0 where
  pending leased succeeded failed_permanent cancelled blocked : DeliveryStatus

pub DeliveryStatus-discrete : Discrete DeliveryStatus
DeliveryStatus-discrete = hlevel

-- `status in TERMINAL_DELIVERY_STATUSES`
abbrev pub is_terminal : DeliveryStatus → Bool
is_terminal pending = false
is_terminal leased = false
is_terminal _ = true

abbrev pub is_pending : DeliveryStatus → Bool
is_pending pending = true
is_pending _ = false

abbrev pub is_leased : DeliveryStatus → Bool
is_leased leased = true
is_leased _ = false

pub data DeliverySurface : Type 0 where
  private_direct_message public_channel voice avatar notification unknown : DeliverySurface

pub record DeliveryTarget : Type 0 where
  pub provider : Text
  pub provider_subject : Option Text
  pub provider_space_ref : Option Text
  pub session_id : Text
  pub actor_id : Option Text
  pub account_id : Option Text
  pub space_id : Option Text
  pub surface : DeliverySurface

pub data ActionStatus : Type 0 where
  succeeded failed cancelled blocked : ActionStatus

pub ActionStatus-discrete : Discrete ActionStatus
ActionStatus-discrete = hlevel

instance abbrev pub action_status_eq : Eq ActionStatus
action_status_eq = record { dec = ActionStatus-discrete }

pub data PresentationModality : Type 0 where
  text voice both notification unknown : PresentationModality

pub record PresentationHints : Type 0 where
  pub style_hint : Option Text
  pub emotion_hint : Option Text
  pub expression_hint : Option Text
  pub delay_ms : ℕ
  pub priority : ℤ
  pub interruptible : Bool
  pub modality : PresentationModality

-- The fields that `AppAction` gives to each of its classes.
pub record ActionHeader : Type 0 where
  pub action_id : Text
  pub session_id : Text
  pub correlation_id : Text

pub data AppAction : Type 0 where
  send_message : ActionHeader → (body : Text) → PresentationHints → AppAction
  no_action : ActionHeader → (reason : Text) → AppAction

-- `isinstance(action, NoAction)`
abbrev pub is_no_action : AppAction → Bool
is_no_action (send_message h t p) = false
is_no_action (no_action h r) = true

pub record ActionResult : Type 0 where
  pub action_id : Text
  pub correlation_id : Text
  pub status : ActionStatus
  pub delivered_at : Option Time
  pub external_message_id : Option Text
  pub error_reason : Option Text

pub record DeliveryEnvelope : Type 0 where
  pub delivery_id : Text
  pub action : AppAction
  pub target : DeliveryTarget
  pub status : DeliveryStatus
  pub created_at : Time
  pub updated_at : Time
  pub not_before : Option Time
  pub attempts : ℕ
  pub max_attempts : ℕ
  pub idempotency_key : Text
  pub lease_id : Option Text
  pub lease_expires_at : Option Time
  pub blocked_reason : Option Text
  pub last_error_reason : Option Text
  pub source_observation_id : Option Text

pub record DeliveryReport : Type 0 where
  pub delivery_id : Text
  pub lease_id : Option Text
  pub result : ActionResult
  pub reported_at : Time

-- The messages of `DeliveryOutboxError`. The last is Python's `KeyError`, which the outbox does not
-- catch where it reads `self._items[existing_id]`.
pub data DeliveryOutboxError : Type 0 where
  no_action_not_deliverable idempotency_key_required outbox_depth_exceeded : DeliveryOutboxError
  delivery_not_found delivery_already_terminal delivery_not_leased : DeliveryOutboxError
  lease_mismatch delivery_report_conflict : DeliveryOutboxError
  key_error : DeliveryOutboxError

-- ===== src/Delivery/Broker.antt =====
-- iris/runtime/delivery/broker.py and iris/runtime/learning/dispatch.py: the broker between the
-- external clients and the outbox, and the learning events that it hands on. The digest of the
-- dispatch key is a parameter; the log lines are left out.
pub mod Once
pub mod Repeats
use iris_mind_v.Prelude.{
  ℕ, ◌+◌, timedelta, ◌≡◌, refl, ap, Text, text, text_eq, option_eq, Bool, true, false, Option, none,
  some, arith, List, [], ◌∷◌, ◌++◌, Result, ok, raise, elem, if◌then◌else◌,
}
use iris_mind_v.Prelude.Dict.{lookup}
use iris_mind_v.Delivery.Types.{
  Time, AppAction, DeliveryTarget, ActionStatus, ActionResult, DeliveryEnvelope, DeliveryReport,
  DeliveryOutboxError,
}
use iris_mind_v.Delivery.Outbox.{
  Outbox, Outcome, result_fingerprint, fingerprint_eq, history_of, get, settle, complete, release,
  lease_due,
}
use iris_mind_v.Delivery.Reports.{
  Settled, refused, repeated, accepted, settle_cases, history_of-settle, complete-IsReport,
  release-IsReport,
}

pub record LearningEvent : Type 0 where
  pub result : ActionResult
  pub delivery : DeliveryEnvelope
  pub action : AppAction
  pub target : DeliveryTarget
  pub reported_at : Time
  pub source_observation_id : Option Text

-- `AppActionBrokerError(str(exc))`
pub data AppActionBrokerError : Type 0 where
  broker_error : DeliveryOutboxError → AppActionBrokerError

-- `learning_dispatch_store` is its set of keys, if there is one. `hook_runs` are the events that
-- `learning_hook_runner.run` was called with, the latest first.
pub record Broker : Type 0 where
  pub outbox : Outbox
  pub lease_seconds : ℕ
  pub retry_backoff_seconds : ℕ
  pub has_hook_runner : Bool
  pub learning_dispatch_store : Option (List Text)
  pub hook_runs : List LearningEvent

unfoldable pub poll_actions :
    (provider : Text) (now : Time) (max_items : ℕ) → Broker → Broker × List DeliveryEnvelope
poll_actions provider now max_items b =
    let (outbox, due) = lease_due provider now max_items b.lease_seconds b.outbox in
    (record b { outbox = outbox }, due)

unfoldable pub get_delivery_provider : Text → Broker → Result AppActionBrokerError Text
get_delivery_provider delivery_id b = elim (get delivery_id b.outbox) [
  | ok existing ↦ ok existing.target.provider
  | raise e ↦ raise (broker_error e)
]

-- `status in _TERMINAL_REPORT_STATUSES`
abbrev pub is_terminal_report : ActionStatus → Bool
is_terminal_report ActionStatus.succeeded = true
is_terminal_report ActionStatus.cancelled = true
is_terminal_report ActionStatus.blocked = true
is_terminal_report ActionStatus.failed = false

-- `status.value`
unfoldable pub status_value : ActionStatus → Text
status_value ActionStatus.succeeded = text "succeeded"
status_value ActionStatus.failed = text "failed"
status_value ActionStatus.cancelled = text "cancelled"
status_value ActionStatus.blocked = text "blocked"

-- `x or ""`
abbrev pub or_empty : Option Text → Text
or_empty none = []
or_empty (some t) = t

-- `"|".join(parts)`
unfoldable pub join : List Text → Text
join [] = []
join (t ∷ []) = t
join (t ∷ u ∷ parts) = t ++ (text "|" ++ join (u ∷ parts))

unfoldable pub dispatch_material : DeliveryReport → Text
unfolding join status_value
dispatch_material report =
    let result = report.result in
    join (
      report.delivery_id
      ∷ or_empty report.lease_id
      ∷ result.action_id
      ∷ result.correlation_id
      ∷ status_value result.status
      ∷ or_empty result.external_message_id
      ∷ or_empty result.error_reason
      ∷ [])

-- `mark_if_absent`
unfoldable pub mark_if_absent : Text → List Text → List Text × Bool
mark_if_absent key keys = if elem key keys then (keys, false) else (key ∷ keys, true)

-- The part of `report_action_result` that goes to the outbox.
unfoldable pub settle_report : DeliveryReport → Broker → Outcome DeliveryEnvelope
settle_report report b =
    if is_terminal_report report.result.status
    then complete report.delivery_id report.lease_id report.result report.reported_at b.outbox
    else release report.delivery_id report.lease_id
        (report.reported_at + timedelta b.retry_backoff_seconds) report.result report.reported_at
        b.outbox

-- `sha256(material).hexdigest()`
module _ (hexdigest : Text → Text) where
  unfoldable pub learning_dispatch_key : DeliveryReport → Text
  unfolding dispatch_material
  learning_dispatch_key report = hexdigest (dispatch_material report)

  unfoldable pub dispatch_learning : DeliveryReport → DeliveryEnvelope → Broker → Broker
  unfolding mark_if_absent learning_dispatch_key
  dispatch_learning report delivery b =
      let event : LearningEvent = record {
        result = report.result;
        delivery = delivery;
        action = delivery.action;
        target = delivery.target;
        reported_at = report.reported_at;
        source_observation_id = delivery.source_observation_id;
      } in
      if b.has_hook_runner
      then elim b.learning_dispatch_store [
        | none ↦ b
        | some keys ↦
            let (keys', fresh) = mark_if_absent (learning_dispatch_key report) keys in
            if fresh
            then record b { learning_dispatch_store = some keys'; hook_runs = event ∷ b.hook_runs }
            else b
      ]
      else b

  unfoldable pub report_action_result :
      DeliveryReport → Broker → Broker × Result AppActionBrokerError DeliveryEnvelope
  report_action_result report b =
      let (outbox, outcome) = settle_report report b in
      elim outcome [
        | raise e ↦ (record b { outbox = outbox }, raise (broker_error e))
        | ok updated ↦ (dispatch_learning report updated (record b { outbox = outbox }), ok updated)
      ]

-- ===== src/Delivery/Transitions.antt =====
-- iris/contracts/delivery_transitions.py: the state transitions of one delivery item.
use iris_mind_v.Prelude.{
  ℕ, ◌+◌, timedelta, Text, Option, none, some, text_eq, option_eq, ◌==◌, Bool, true, false, not,
  ◌&&◌, leb, ltb, if◌then◌else◌, Result, ok, raise, ◌>>◌,
}
use iris_mind_v.Delivery.Types.{
  Time, DeliveryStatus, is_terminal, is_pending, is_leased, ActionStatus, ActionResult,
  DeliveryEnvelope, DeliveryOutboxError, delivery_already_terminal, delivery_not_leased,
  lease_mismatch,
}

pub record DeliveryState : Type 0 where
  pub status : DeliveryStatus
  pub updated_at : Time
  pub not_before : Option Time
  pub attempts : ℕ
  pub lease_id : Option Text
  pub lease_expires_at : Option Time
  pub blocked_reason : Option Text
  pub last_error_reason : Option Text

unfoldable pub current_state : DeliveryEnvelope → DeliveryState
current_state item = record {
  status = item.status;
  updated_at = item.updated_at;
  not_before = item.not_before;
  attempts = item.attempts;
  lease_id = item.lease_id;
  lease_expires_at = item.lease_expires_at;
  blocked_reason = item.blocked_reason;
  last_error_reason = item.last_error_reason;
}

unfoldable pub rebuild_delivery : DeliveryEnvelope → DeliveryState → DeliveryEnvelope
rebuild_delivery item state = record {
  delivery_id = item.delivery_id;
  action = item.action;
  target = item.target;
  status = state.status;
  created_at = item.created_at;
  updated_at = state.updated_at;
  not_before = state.not_before;
  attempts = state.attempts;
  max_attempts = item.max_attempts;
  idempotency_key = item.idempotency_key;
  lease_id = state.lease_id;
  lease_expires_at = state.lease_expires_at;
  blocked_reason = state.blocked_reason;
  last_error_reason = state.last_error_reason;
  source_observation_id = item.source_observation_id;
}

unfoldable pub require_reportable_lease :
    DeliveryEnvelope → Option Text → Result DeliveryOutboxError (Unit {0})
require_reportable_lease item lease_id =
    if is_terminal item.status
    then raise delivery_already_terminal
    else if not (is_leased item.status)
    then raise delivery_not_leased
    else if not (item.lease_id == lease_id)
    then raise lease_mismatch
    else ok tt

unfoldable pub delivery_status_from_action_status : ActionStatus → DeliveryStatus
delivery_status_from_action_status ActionStatus.succeeded = DeliveryStatus.succeeded
delivery_status_from_action_status ActionStatus.cancelled = DeliveryStatus.cancelled
delivery_status_from_action_status ActionStatus.blocked = DeliveryStatus.blocked
delivery_status_from_action_status ActionStatus.failed = DeliveryStatus.failed_permanent

unfoldable pub complete_delivery :
    (item : DeliveryEnvelope) (lease_id : Option Text) (result : ActionResult) (completed_at : Time)
    → Result DeliveryOutboxError DeliveryEnvelope
unfolding require_reportable_lease rebuild_delivery current_state delivery_status_from_action_status
complete_delivery item lease_id result completed_at = do
  require_reportable_lease item lease_id
  let current = current_state item
  let state = record current {
    status = delivery_status_from_action_status result.status;
    updated_at = completed_at;
    lease_id = none;
    lease_expires_at = none;
    last_error_reason = result.error_reason;
  }
  ok (rebuild_delivery item state)

unfoldable pub release_delivery :
    (item : DeliveryEnvelope) (lease_id : Option Text) (retry_after : Time) (result : ActionResult)
    (released_at : Time)
    → Result DeliveryOutboxError DeliveryEnvelope
unfolding require_reportable_lease rebuild_delivery current_state
release_delivery item lease_id retry_after result released_at = do
  require_reportable_lease item lease_id
  let current = current_state item
  let failed = record current {
    status = DeliveryStatus.failed_permanent;
    updated_at = released_at;
    lease_id = none;
    lease_expires_at = none;
    last_error_reason = result.error_reason;
  }
  let retried = record current {
    status = DeliveryStatus.pending;
    updated_at = released_at;
    not_before = some retry_after;
    lease_id = none;
    lease_expires_at = none;
    last_error_reason = result.error_reason;
  }
  ok (rebuild_delivery item (if leb item.max_attempts item.attempts then failed else retried))

unfoldable pub fail_exhausted_delivery :
    (item : DeliveryEnvelope) (failed_at : Time) (error_reason : Text) → DeliveryEnvelope
unfolding rebuild_delivery current_state
fail_exhausted_delivery item failed_at error_reason =
    let current = current_state item in
    rebuild_delivery item (record current {
      status = DeliveryStatus.failed_permanent;
      updated_at = failed_at;
      lease_id = none;
      lease_expires_at = none;
      last_error_reason = some error_reason;
    })

unfoldable pub lease_delivery :
    (item : DeliveryEnvelope) (lease_id : Text) (leased_at : Time) (lease_seconds : ℕ)
    (not_before : Option Time)
    → DeliveryEnvelope
unfolding rebuild_delivery current_state
lease_delivery item lease_id leased_at lease_seconds not_before =
    let current = current_state item in
    rebuild_delivery item (record current {
      status = DeliveryStatus.leased;
      updated_at = leased_at;
      not_before = not_before;
      attempts = item.attempts + 1;
      lease_id = some lease_id;
      lease_expires_at = some (leased_at + timedelta lease_seconds);
    })

-- `t is not None and t > now`
abbrev pub is_after : Option Time → Time → Bool
is_after none now = false
is_after (some t) now = ltb now t

-- `t is not None and t <= now`
abbrev pub has_passed : Option Time → Time → Bool
has_passed none now = false
has_passed (some t) now = leb t now

unfoldable pub is_delivery_due : DeliveryEnvelope → Time → Bool
is_delivery_due item now =
    if is_terminal item.status
    then false
    else if is_after item.not_before now
    then false
    else if is_pending item.status
    then true
    else is_leased item.status && has_passed item.lease_expires_at now

-- ===== src/Delivery/Samples.antt =====
-- Small outboxes for the tests.
use iris_mind_v.Prelude.{
  pos, ◌≡◌, refl, Text, text, text_eq, option_eq, Option, none, some, true, false, List, [], ◌∷◌,
  ◌++◌, All, ok, arith, ℕ_discrete, List-discrete, Option-discrete, length, ◌<◌, elem, count,
  text_le, sorted, decimal,
}
use iris_mind_v.Prelude.Dict.{lookup, insert, values}
use iris_mind_v.Delivery.Types.{
  DeliveryStatus, pending, leased, ActionStatus, ActionResult, ActionHeader, send_message,
  PresentationHints, PresentationModality, DeliveryTarget, DeliverySurface, DeliveryEnvelope,
}
use iris_mind_v.Delivery.Transitions.{is_delivery_due, lease_delivery, complete_delivery}
use iris_mind_v.Delivery.Outbox.{
  Outbox, new_outbox, lease_name, enqueue, complete, lease_due, lease_loop, lease_visit,
  classify_report, has_lease, fingerprint_eq, history_of, result_fingerprint, envelope_key_le,
}
use iris_mind_v.Delivery.Valid.{IsValid, IsNew, new_outbox-IsValid}
use iris_mind_v.Delivery.Runs.{
  Op, enqueue_op, lease_op, complete_op, apply, run, IsProper, run-IsValid,
}

abbrev pub hints : PresentationHints
hints = record {
  style_hint = none;
  emotion_hint = none;
  expression_hint = none;
  delay_ms = 0;
  priority = pos 0;
  interruptible = true;
  modality = PresentationModality.text;
}

abbrev pub header : ActionHeader
header = record { action_id = text "a"; session_id = text "s"; correlation_id = text "c" }

abbrev pub target : DeliveryTarget
target = record {
  provider = text "chat";
  provider_subject = none;
  provider_space_ref = none;
  session_id = text "s";
  actor_id = none;
  account_id = none;
  space_id = none;
  surface = DeliverySurface.voice;
}

abbrev pub envelope : Text → DeliveryEnvelope
envelope id = record {
  delivery_id = id;
  action = send_message header (text "hello") hints;
  target = target;
  status = pending;
  created_at = 1;
  updated_at = 1;
  not_before = none;
  attempts = 0;
  max_attempts = 3;
  idempotency_key = id;
  lease_id = none;
  lease_expires_at = none;
  blocked_reason = none;
  last_error_reason = none;
  source_observation_id = none;
}

pub envelope-IsNew : (id : Text) → IsNew (envelope id)
envelope-IsNew id = record {
  status = refl;
  attempts = refl;
  lease_id = refl;
  lease_expires_at = refl;
}

abbrev pub first : Text
first = text "d1"

abbrev pub second : Text
second = text "d2"

-- Two envelopes are enqueued, and one is leased.
abbrev pub calls : List Op
calls =
    enqueue_op (envelope first) ∷ enqueue_op (envelope second) ∷ lease_op (text "chat") 10 1 60 ∷ []

pub calls-IsProper : All IsProper calls
calls-IsProper = (envelope-IsNew first, (envelope-IsNew second, (tt, tt)))

abbrev pub held : DeliveryEnvelope
held = record (envelope first) {
  status = leased;
  updated_at = 10;
  attempts = 1;
  lease_id = some (text "lease-1");
  lease_expires_at = some 70;
}

pub calls_held : lookup first (run calls (new_outbox none)).items ≡ some held
unfolding run apply enqueue lease_due new_outbox lookup insert values sorted lease_delivery
    is_delivery_due lease_name decimal envelope_key_le lease_loop List-discrete ℕ_discrete text_le
    lease_visit complete classify_report elem history_of has_lease complete_delivery Option-discrete
    count result_fingerprint
calls_held = refl

-- Its report, and one of another result.
abbrev pub result : ActionResult
result = record {
  action_id = text "a";
  correlation_id = text "c";
  status = ActionStatus.succeeded;
  delivered_at = some 20;
  external_message_id = none;
  error_reason = none;
}

abbrev pub other_result : ActionResult
other_result = record result { status = ActionStatus.failed; error_reason = some (text "timeout") }

abbrev pub lease : Option Text
lease = some (text "lease-1")

abbrev pub state : Outbox
state = run calls (new_outbox none)

abbrev pub done : DeliveryEnvelope
done = record held {
  status = DeliveryStatus.succeeded;
  updated_at = 20;
  lease_id = none;
  lease_expires_at = none;
}

pub state_completes : (complete first lease result 20 state).1 ≡ ok done
unfolding run apply enqueue lease_due new_outbox lookup insert values sorted lease_delivery
    is_delivery_due lease_name decimal envelope_key_le lease_loop List-discrete ℕ_discrete text_le
    lease_visit complete classify_report elem history_of has_lease complete_delivery Option-discrete
    count result_fingerprint
state_completes = refl

pub state-IsValid : IsValid state
state-IsValid = run-IsValid calls (new_outbox none) calls-IsProper (new_outbox-IsValid none)

-- Two envelopes wait.
abbrev pub waiting_calls : List Op
waiting_calls = enqueue_op (envelope first) ∷ enqueue_op (envelope second) ∷ []

abbrev pub waiting : Outbox
waiting = run waiting_calls (new_outbox (some 2))

pub waiting-IsProper : All IsProper waiting_calls
waiting-IsProper = (envelope-IsNew first, (envelope-IsNew second, tt))

pub waiting-IsValid : IsValid waiting
waiting-IsValid =
    run-IsValid waiting_calls (new_outbox (some 2)) waiting-IsProper (new_outbox-IsValid (some 2))

abbrev pub finishing : List Op
finishing = calls ++ complete_op first lease result 20 ∷ []

abbrev pub finished : Outbox
finished = run finishing (new_outbox none)

pub finishing-IsProper : All IsProper finishing
finishing-IsProper = (envelope-IsNew first, (envelope-IsNew second, (tt, (tt, tt))))

pub finished_done : lookup first finished.items ≡ some done
unfolding run apply enqueue lease_due new_outbox lookup insert values sorted lease_delivery
    is_delivery_due lease_name decimal envelope_key_le lease_loop List-discrete ℕ_discrete text_le
    lease_visit complete classify_report elem history_of has_lease complete_delivery Option-discrete
    count result_fingerprint
finished_done = refl

pub finished-IsValid : IsValid finished
finished-IsValid =
    run-IsValid finishing (new_outbox none) finishing-IsProper (new_outbox-IsValid none)

pub short : length (lease_due (text "chat") 10 5 60 waiting).1 < 5
unfolding run apply enqueue lease_due new_outbox lookup insert values sorted lease_delivery
    is_delivery_due lease_name decimal envelope_key_le lease_loop List-discrete ℕ_discrete text_le
    lease_visit complete classify_report elem history_of has_lease complete_delivery Option-discrete
    count result_fingerprint
short = omega arith

-- Between two reports another item is enqueued and the outbox is polled.
abbrev pub meantime : List Op
meantime = enqueue_op (envelope (text "d")) ∷ lease_op (text "chat") 50 5 60 ∷ []

pub unseen :
    elem
      (result_fingerprint first lease other_result)
      (history_of first (run meantime (complete first lease result 20 state).0))
    ≡ false
unfolding run apply enqueue lease_due new_outbox lookup insert values sorted lease_delivery
    is_delivery_due lease_name decimal envelope_key_le lease_loop List-discrete ℕ_discrete text_le
    lease_visit complete classify_report elem history_of has_lease complete_delivery Option-discrete
    count result_fingerprint
unseen = ground arith

-- ===== src/Delivery/Broker/Once.antt =====
-- What a report does, or does not do, to the broker: `report_action_result` of
-- iris/runtime/delivery/broker.py.
use iris_mind_v.Prelude.{
  ◌≡◌, ap, Text, text_eq, option_eq, true, some, arith, Result, ok, raise, elem, Bool-cases,
  Result-cases, inl, inr,
}
use iris_mind_v.Prelude.Dict.{lookup}
use iris_mind_v.Delivery.Types.{Time, DeliveryEnvelope, DeliveryReport, DeliveryOutboxError}
use iris_mind_v.Delivery.Outbox.{
  Outbox, Outcome, ReportFingerprint, result_fingerprint, fingerprint_eq, history_of, settle,
  complete, release,
}
use iris_mind_v.Delivery.Reports.{
  Settled, refused, repeated, accepted, settle_cases, history_of-settle, complete-IsReport,
  release-IsReport,
}
use iris_mind_v.Delivery.Replay.{settle_known}
use iris_mind_v.Delivery.Broker.{
  Broker, AppActionBrokerError, is_terminal_report, settle_report, dispatch_learning,
  report_action_result,
}

-- The same report, made at another time.
abbrev pub later : Time → DeliveryReport → DeliveryReport
later at report = record report { reported_at = at }

abbrev pub fingerprint : DeliveryReport → ReportFingerprint
fingerprint report = result_fingerprint report.delivery_id report.lease_id report.result

pub settle_report_known :
    (report : DeliveryReport) (b : Broker) (e : DeliveryEnvelope)
    → (settle_report report b).1 ≡ ok e
    → let s' = (settle_report report b).0 in
      (elem (fingerprint report) (history_of report.delivery_id s') ≡ true)
      × (lookup report.delivery_id s'.items ≡ some e)
unfolding settle_report complete release result_fingerprint
settle_report_known report b e h = elim (Bool-cases (is_terminal_report report.result.status)) [
  | inl done ↦ rw done (
      history_of-settle report.delivery_id _ _
        (complete-IsReport report.lease_id report.result report.reported_at) b.outbox e
        (rw done at h))
  | inr failed ↦ rw failed (
      history_of-settle report.delivery_id _ _
        (release-IsReport report.lease_id _ report.result report.reported_at) b.outbox e
        (rw failed at h))
]

pub settle_report_again :
    (report : DeliveryReport) (at : Time) (b : Broker) (e : DeliveryEnvelope)
    → elem (fingerprint report) (history_of report.delivery_id b.outbox) ≡ true
    → lookup report.delivery_id b.outbox.items ≡ some e
    → settle_report (later at report) b ≡ (b.outbox, ok e)
unfolding settle_report complete release
settle_report_again report at b e known found =
    elim (Bool-cases (is_terminal_report report.result.status)) [
      | inl done ↦ rw done (settle_known report.delivery_id _ _ b.outbox e known found)
      | inr failed ↦ rw failed (settle_known report.delivery_id _ _ b.outbox e known found)
    ]

settle_unchanged :
    (id : Text) (current : ReportFingerprint)
    (next : DeliveryEnvelope → Result DeliveryOutboxError DeliveryEnvelope) (s : Outbox)
    (e : DeliveryOutboxError)
    → (settle id current next s).1 ≡ raise e
    → (settle id current next s).0 ≡ s
settle_unchanged id current next s e h =
    go (settle id current next s) (settle_cases id current next s) h
  where
    go :
        (after : Outcome DeliveryEnvelope)
        → Settled id current next s after
        → after.1 ≡ raise e
        → after.0 ≡ s
    go after (refused x p) k = rw p
    go after (repeated item found old p) k = rw p
    go after (accepted item updated found unseen unused n p) k =
        cc (ap (λ (r : Outcome DeliveryEnvelope). r.1) p)

settle_report_unchanged :
    (report : DeliveryReport) (b : Broker) (e : DeliveryOutboxError)
    → (settle_report report b).1 ≡ raise e
    → (settle_report report b).0 ≡ b.outbox
unfolding settle_report complete release
settle_report_unchanged report b e h = elim (Bool-cases (is_terminal_report report.result.status)) [
  | inl done ↦ rw done (settle_unchanged report.delivery_id _ _ b.outbox e (rw done at h))
  | inr failed ↦ rw failed (settle_unchanged report.delivery_id _ _ b.outbox e (rw failed at h))
]

pub outbox-dispatch_learning :
    (hexdigest : Text → Text) (report : DeliveryReport) (d : DeliveryEnvelope) (b : Broker)
    → (dispatch_learning hexdigest report d b).outbox ≡ b.outbox
unfolding dispatch_learning
outbox-dispatch_learning hexdigest report d b = ground arith

pub report_ok :
    (hexdigest : Text → Text) (report : DeliveryReport) (b : Broker) (o : Outbox)
    (e : DeliveryEnvelope)
    → settle_report report b ≡ (o, ok e)
    → report_action_result hexdigest report b
      ≡ (dispatch_learning hexdigest report e (record b { outbox = o }), ok e)
unfolding report_action_result
report_ok hexdigest report b o e h =
    rw (h, report_action_result)
      (ap (λ (s : Outbox). (dispatch_learning hexdigest report e (record b { outbox = s }), ok e))
        (ap (λ (r : Outcome DeliveryEnvelope). r.0) h))

pub settle_report_ok :
    (hexdigest : Text → Text) (report : DeliveryReport) (b : Broker) (e : DeliveryEnvelope)
    → (report_action_result hexdigest report b).1 ≡ ok e
    → (settle_report report b).1 ≡ ok e
unfolding report_action_result
settle_report_ok hexdigest report b e h = ground arith

-- A report that is refused with an error changes nothing in the broker.
pub report_refused :
    (hexdigest : Text → Text) (report : DeliveryReport) (b : Broker) (x : AppActionBrokerError)
    → (report_action_result hexdigest report b).1 ≡ raise x
    → (report_action_result hexdigest report b).0 ≡ b
unfolding report_action_result
report_refused hexdigest report b x h = elim (Result-cases (settle_report report b).1) [
  | inl (e, p) ↦ ground arith
  | inr (y, p) ↦ ground (arith, settle_report_unchanged report b y p)
]

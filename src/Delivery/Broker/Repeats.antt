-- ===== src/Delivery/Broker/Repeats.antt =====
-- A report that is made again after other calls of the broker (iris/runtime/delivery/broker.py) and
-- of its outbox.
use iris_mind_v.Prelude.{
  ℕ, ◌≡◌, ap, ◌∙◌, sym, subst, inl, inr, Text, text_eq, option_eq, Bool, true, none, some, arith,
  List, [], ◌∷◌, ok, elem, is_some, Bool-cases, Option-cases, Result-cases, if◌then◌else◌,
}
use iris_mind_v.Prelude.Dict.{lookup}
use iris_mind_v.Delivery.Types.{Time, DeliveryEnvelope, DeliveryReport}
use iris_mind_v.Delivery.Outbox.{ReportFingerprint, fingerprint_eq}
use iris_mind_v.Delivery.Runs.{Op, apply, lease_op, complete_op, release_op}
use iris_mind_v.Delivery.Repeats.{IsKnown, apply-IsKnown}
use iris_mind_v.Delivery.Broker.{
  Broker, is_terminal_report, settle_report, learning_dispatch_key, dispatch_learning,
  mark_if_absent, dispatch_material, report_action_result, poll_actions,
}
use iris_mind_v.Delivery.Broker.Once.{
  later, fingerprint, settle_report_known, settle_report_again, settle_report_ok, report_ok,
  outbox-dispatch_learning,
}

-- A call of the broker, or of the outbox by another of its users.
pub data BrokerOp : Type 0 where
  poll_op : (provider : Text) (now : Time) (max_items : ℕ) → BrokerOp
  report_op : DeliveryReport → BrokerOp
  outbox_op : Op → BrokerOp

module _ (hexdigest : Text → Text) where
  unfoldable pub apply_broker : BrokerOp → Broker → Broker
  apply_broker (poll_op provider now max_items) b = (poll_actions provider now max_items b).0
  apply_broker (report_op report) b = (report_action_result hexdigest report b).0
  apply_broker (outbox_op op) b = record b { outbox = apply op b.outbox }

  unfoldable pub run_broker : List BrokerOp → Broker → Broker
  run_broker [] b = b
  run_broker (op ∷ ops) b = run_broker ops (apply_broker op b)

  -- Nothing is left to hand on to learning for a report with this key.
  abbrev is_dispatched : (key : Text) → Broker → Bool
  is_dispatched key b =
      if b.has_hook_runner
      then elim b.learning_dispatch_store [ none ↦ true | some keys ↦ elem key keys ]
      else true

  dispatches :
      (report : DeliveryReport) (d : DeliveryEnvelope) (b : Broker)
      → is_dispatched
          (learning_dispatch_key hexdigest report)
          (dispatch_learning hexdigest report d b)
        ≡ true
  unfolding dispatch_learning mark_if_absent elem
  dispatches report d b = ground arith

  stays_dispatched :
      (key : Text) (report : DeliveryReport) (d : DeliveryEnvelope) (b : Broker)
      → is_dispatched key b ≡ true
      → is_dispatched key (dispatch_learning hexdigest report d b) ≡ true
  unfolding dispatch_learning mark_if_absent elem
  stays_dispatched key report d b h = ground arith

  dispatch_nothing :
      (report : DeliveryReport) (at : Time) (d : DeliveryEnvelope) (b : Broker)
      → is_dispatched (learning_dispatch_key hexdigest report) b ≡ true
      → dispatch_learning hexdigest (later at report) d b ≡ b
  unfolding dispatch_learning mark_if_absent learning_dispatch_key dispatch_material
  dispatch_nothing report at d b h = ground arith

  settle_report-IsKnown :
      (f : ReportFingerprint) (id : Text) (report : DeliveryReport) (b : Broker)
      → IsKnown f id b.outbox
      → IsKnown f id (settle_report report b).0
  unfolding settle_report
  settle_report-IsKnown f id report b k =
      elim (Bool-cases (is_terminal_report report.result.status)) [
        | inl done ↦ rw done (
            unfold apply in
            apply-IsKnown f id
              (complete_op report.delivery_id report.lease_id report.result report.reported_at)
              b.outbox k)
        | inr failed ↦ rw failed (
            unfold apply in
            apply-IsKnown f id
              (release_op report.delivery_id report.lease_id _ report.result report.reported_at)
              b.outbox k)
      ]

  -- The report is noted in the outbox, and nothing is left to hand on for it.
  record IsHandled (report : DeliveryReport) (b : Broker) : Type 0 where
    known : IsKnown (fingerprint report) report.delivery_id b.outbox
    dispatched : is_dispatched (learning_dispatch_key hexdigest report) b ≡ true

  report-IsHandled :
      (report other : DeliveryReport) (b : Broker)
      → IsHandled report b
      → IsHandled report (report_action_result hexdigest other b).0
  unfolding report_action_result
  report-IsHandled report other b t =
      let o = (settle_report other b).0 in
      let known = settle_report-IsKnown (fingerprint report) report.delivery_id other b t.known in
      elim (Result-cases (settle_report other b).1) [
        | inl (e, p) ↦
            rw (p, report_action_result)
              (record {
                known =
                    subst (IsKnown (fingerprint report) report.delivery_id)
                      (sym (outbox-dispatch_learning hexdigest other e (record b { outbox = o })))
                      known;
                dispatched = stays_dispatched _ other e (record b { outbox = o }) t.dispatched;
              })
        | inr (x, p) ↦
            rw (p, report_action_result) (record { known = known; dispatched = t.dispatched })
      ]

  apply_broker-IsHandled :
      (report : DeliveryReport) (op : BrokerOp) (b : Broker)
      → IsHandled report b
      → IsHandled report (apply_broker op b)
  unfolding apply_broker poll_actions
  apply_broker-IsHandled report (poll_op provider now max_items) b t = record {
    known =
        unfold apply in
        apply-IsKnown _ _ (lease_op provider now max_items b.lease_seconds) b.outbox t.known;
    dispatched = t.dispatched;
  }
  apply_broker-IsHandled report (report_op other) b t = report-IsHandled report other b t
  apply_broker-IsHandled report (outbox_op op) b t = record {
    known = apply-IsKnown _ _ op b.outbox t.known;
    dispatched = t.dispatched;
  }

  run_broker-IsHandled :
      (report : DeliveryReport) (ops : List BrokerOp) (b : Broker)
      → IsHandled report b
      → IsHandled report (run_broker ops b)
  unfolding run_broker
  run_broker-IsHandled report [] b t = t
  run_broker-IsHandled report (op ∷ ops) b t =
      run_broker-IsHandled report ops (apply_broker op b) (apply_broker-IsHandled report op b t)

  first_report :
      (report : DeliveryReport) (b : Broker) (e : DeliveryEnvelope)
      → (report_action_result hexdigest report b).1 ≡ ok e
      → let b' = (report_action_result hexdigest report b).0 in
        IsHandled report b' × (lookup report.delivery_id b'.outbox.items ≡ some e)
  first_report report b e h =
      let o = (settle_report report b).0 in
      let accepted = settle_report_ok hexdigest report b e h in
      let (noted, found) = settle_report_known report b e accepted in
      let b' = dispatch_learning hexdigest report e (record b { outbox = o }) in
      let kept : b'.outbox ≡ o =
        outbox-dispatch_learning hexdigest report e (record b { outbox = o }) in
      rw (report_ok hexdigest report b o e (λ i. (o, accepted i))) (
        record {
          known =
              subst (IsKnown (fingerprint report) report.delivery_id) (sym kept)
                (record { noted = noted; present = ap is_some found });
          dispatched = dispatches report e (record b { outbox = o });
        },
        subst (λ s. lookup report.delivery_id s.items ≡ some e) (sym kept) found,
      )

  -- A report that was accepted got the envelope that is then stored. Made once more at any
  -- time, after any sequence of polls, reports and other calls of the outbox, it gets the
  -- envelope that is stored then, changes nothing in the broker, and hands no second event to
  -- learning.
  pub report_replayed :
      (report : DeliveryReport) (b : Broker) (e : DeliveryEnvelope) (ops : List BrokerOp)
      (at : Time)
      → (report_action_result hexdigest report b).1 ≡ ok e
      → let first = (report_action_result hexdigest report b).0 in
        let b' = run_broker ops first in
        (lookup report.delivery_id first.outbox.items ≡ some e)
        × (now_is : DeliveryEnvelope) × (lookup report.delivery_id b'.outbox.items ≡ some now_is)
        × (report_action_result hexdigest (later at report) b' ≡ (b', ok now_is))
  report_replayed report b e ops at h =
      let (handled, found) = first_report report b e h in
      let b' = run_broker ops (report_action_result hexdigest report b).0 in
      let t = run_broker-IsHandled report ops (report_action_result hexdigest report b).0 handled in
      elim (Option-cases (lookup report.delivery_id b'.outbox.items)) [
        | inl gone ↦ cc (t.known.present, ap is_some gone)
        | inr (now_is, stored) ↦ (
          found,
          now_is,
          stored,
          report_ok hexdigest (later at report) b' b'.outbox now_is
                (settle_report_again report at b' now_is t.known.noted stored)
              ∙ ap (λ (x : Broker). (x, ok now_is))
                  (dispatch_nothing report at now_is b' t.dispatched),
        )
      ]

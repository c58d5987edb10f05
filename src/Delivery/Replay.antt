-- ===== src/Delivery/Replay.antt =====
-- Repeated, conflicting and late reports (iris/runtime/delivery/in_memory.py).
use iris_mind_v.Prelude.{
  ℕ, ◌<◌, ◌≡◌, ap, ◌∙◌, ◌≢◌, Text, text_eq, option_eq, true, false, Option, some, arith, List, [],
  ◌∷◌, Result, ok, raise, elem,
}
use iris_mind_v.Prelude.Dict.{lookup}
use iris_mind_v.Delivery.Types.{
  Time, leased, ActionResult, DeliveryEnvelope, DeliveryOutboxError, delivery_report_conflict,
}
use iris_mind_v.Delivery.Transitions.{is_delivery_due}
use iris_mind_v.Delivery.Outbox.{
  Outbox, ReportFingerprint, fingerprint_eq, classify_report, has_lease, result_fingerprint,
  history_of, settle, complete, release, lease_due,
}
use iris_mind_v.Delivery.Reports.{
  complete-IsReport, release-IsReport, settle_needs_lease, history_of-settle,
}
use iris_mind_v.Delivery.Valid.{IsValid}
use iris_mind_v.Delivery.Leasing.{eligible}
use iris_mind_v.Delivery.Leasing.Evolution.{lease_due-Kept}

pub settle_known :
    (id : Text) (current : ReportFingerprint)
    (next : DeliveryEnvelope → Result DeliveryOutboxError DeliveryEnvelope) (s : Outbox)
    (e : DeliveryEnvelope)
    → elem current (history_of id s) ≡ true
    → lookup id s.items ≡ some e
    → settle id current next s ≡ (s, ok e)
unfolding settle classify_report
settle_known id current next s e known found = ground arith

has_lease_of_elem :
    (f : ReportFingerprint) (history : List ReportFingerprint)
    → elem f history ≡ true
    → has_lease f.lease_id history ≡ true
unfolding elem has_lease
has_lease_of_elem f [] h = cc
has_lease_of_elem f (g ∷ history) h = ground (arith, has_lease_of_elem f history)

pub settle_conflict :
    (id : Text) (old current : ReportFingerprint)
    (next : DeliveryEnvelope → Result DeliveryOutboxError DeliveryEnvelope) (s : Outbox)
    (e : DeliveryEnvelope)
    → elem old (history_of id s) ≡ true
    → lookup id s.items ≡ some e
    → current.lease_id ≡ old.lease_id
    → elem current (history_of id s) ≡ false
    → settle id current next s ≡ (s, raise delivery_report_conflict)
unfolding settle classify_report
settle_conflict id old current next s e known found same unseen =
    let used : has_lease current.lease_id (history_of id s) ≡ true =
      rw same (has_lease_of_elem old (history_of id s) known) in
    ground arith

module _ (id : Text) (lease_id : Option Text) (result : ActionResult) (at : Time) (s : Outbox)
    (e : DeliveryEnvelope) where
  abbrev pub completed : Outbox
  completed = (complete id lease_id result at s).0

  pub complete_known :
      (complete id lease_id result at s).1 ≡ ok e
      → (elem (result_fingerprint id lease_id result) (history_of id completed) ≡ true)
        × (lookup id completed.items ≡ some e)
  unfolding complete result_fingerprint
  complete_known h = history_of-settle id _ _ (complete-IsReport lease_id result at) s e h

-- A report under a lease that the stored item does not hold leaves the outbox as it is,
-- whichever of complete and release it goes through.
pub late_report :
    (id : Text) (lease_id : Option Text) (result : ActionResult) (at retry_after : Time)
    (s : Outbox) (item : DeliveryEnvelope)
    → lookup id s.items ≡ some item
    → item.lease_id ≢ lease_id
    → ((complete id lease_id result at s).0 ≡ s)
      × ((release id lease_id retry_after result at s).0 ≡ s)
unfolding complete release result_fingerprint
late_report id lease_id result at retry_after s item found other = (
  settle_needs_lease id _ _ (complete-IsReport lease_id result at) s item found other,
  settle_needs_lease id _ _ (release-IsReport lease_id retry_after result at) s item found other,
)

held_not_eligible :
    (provider : Text) (now t : Time) (e : DeliveryEnvelope)
    → e.status ≡ leased
    → e.lease_expires_at ≡ some t
    → now < t
    → eligible provider now e ≡ false
unfolding is_delivery_due
held_not_eligible provider now t e held ends before = ground arith

-- In a valid outbox lease_due leaves a leased item as it is until its lease has ended.
pub lease_due_respects_lease :
    (provider : Text) (now t : Time) (max_items seconds : ℕ) (s : Outbox) (id : Text)
    (e : DeliveryEnvelope)
    → IsValid s
    → lookup id s.items ≡ some e
    → e.status ≡ leased
    → e.lease_expires_at ≡ some t
    → now < t
    → lookup id (lease_due provider now max_items seconds s).0.items ≡ some e
lease_due_respects_lease provider now t max_items seconds s id e w found held ends before =
    let kept = lease_due-Kept provider now seconds max_items s w id e found in
    kept.stored ∙ ap some (kept.untouched (held_not_eligible provider now t e held ends before))

-- ===== src/Delivery/Reports.antt =====
-- Reports to the outbox: `complete` and `release` of iris/runtime/delivery/in_memory.py.
use iris_mind_v.Prelude.{
  ◌≡◌, refl, sym, ap, ◌∙◌, ◌≢◌, inl, inr, subst, Text, text_eq, option_eq, true, false, Option,
  none, some, arith, ◌∷◌, Result, ok, raise, elem, Bool-cases, Option-cases, Result-cases,
}
use iris_mind_v.Prelude.Dict.{
  Every, lookup, insert, lookup-insert_self, lookup-insert_ne, key-lookup,
}
use iris_mind_v.Delivery.Types.{
  Time, is_leased, ActionResult, DeliveryEnvelope, DeliveryOutboxError, delivery_report_conflict,
  delivery_not_found,
}
use iris_mind_v.Delivery.Transitions.{complete_delivery, release_delivery}
use iris_mind_v.Delivery.Outbox.{
  Outbox, Outcome, ReportFingerprint, fingerprint_eq, classify_report, has_lease, history_of,
  settle,
}
use iris_mind_v.Delivery.Lifecycle.{
  IsSound, Evolves, stays, follows, Follows, complete_delivery-Follows, complete_delivery-IsSound,
  complete_delivery_leased, release_delivery-Follows, release_delivery-IsSound,
  release_delivery_leased,
}
use iris_mind_v.Delivery.Valid.{IsValid, Valid-put}

-- A transition that a report may ask for: it applies to a leased item under the report's lease,
-- follows the lifecycle, and frees the lease.
pub record IsReport (lease_id : Option Text)
    (next : DeliveryEnvelope → Result DeliveryOutboxError DeliveryEnvelope) : Type 0 where
  pub moves : (a b : DeliveryEnvelope) → next a ≡ ok b → Follows a b
  pub sound : (a b : DeliveryEnvelope) → IsSound a → next a ≡ ok b → IsSound b
  pub under :
      (a b : DeliveryEnvelope)
      → next a ≡ ok b
      → (is_leased a.status ≡ true) × (a.lease_id ≡ lease_id) × (b.lease_id ≡ none)

pub complete-IsReport :
    (l : Option Text) (result : ActionResult) (at : Time)
    → IsReport l (λ item. complete_delivery item l result at)
complete-IsReport l result at = record {
  moves = λ a b h. complete_delivery-Follows a l result at h;
  sound = λ a b w h. complete_delivery-IsSound a l result at w h;
  under = λ a b h.
      let (st, le, fr) = complete_delivery_leased a l result at h in (ap is_leased st, le, fr);
}

pub release-IsReport :
    (l : Option Text) (retry_after : Time) (result : ActionResult) (at : Time)
    → IsReport l (λ item. release_delivery item l retry_after result at)
release-IsReport l retry_after result at = record {
  moves = λ a b h. release_delivery-Follows a l retry_after result at h;
  sound = λ a b w h. release_delivery-IsSound a l retry_after result at w h;
  under = λ a b h.
      let (st, le, fr) = release_delivery_leased a l retry_after result at h in
      (ap is_leased st, le, fr);
}

-- The store after an accepted report.
abbrev pub accept : Text → ReportFingerprint → DeliveryEnvelope → Outbox → Outbox
accept id current updated s = record s {
  items = insert id updated s.items;
  report_index = insert id (current ∷ history_of id s) s.report_index;
}

-- The courses of a report.
pub data Settled (id : Text) (current : ReportFingerprint)
    (next : DeliveryEnvelope → Result DeliveryOutboxError DeliveryEnvelope) (s : Outbox)
    (after : Outcome DeliveryEnvelope) : Type 0 where
  refused : (e : DeliveryOutboxError) → after ≡ (s, raise e) → Settled id current next s after
  repeated :
      (item : DeliveryEnvelope)
      → lookup id s.items ≡ some item
      → elem current (history_of id s) ≡ true
      → after ≡ (s, ok item)
      → Settled id current next s after
  accepted :
      (item updated : DeliveryEnvelope)
      → lookup id s.items ≡ some item
      → elem current (history_of id s) ≡ false
      → has_lease current.lease_id (history_of id s) ≡ false
      → next item ≡ ok updated
      → after ≡ (accept id current updated s, ok updated)
      → Settled id current next s after

module _ (id : Text) (current : ReportFingerprint)
    (next : DeliveryEnvelope → Result DeliveryOutboxError DeliveryEnvelope) (s : Outbox) where
  pub settle_cases : Settled id current next s (settle id current next s)
  unfolding settle classify_report
  settle_cases = elim (Option-cases (lookup id s.items)) [
    | inl absent ↦ refused delivery_not_found (ground arith)
    | inr (item, found) ↦ elim (Bool-cases (elem current (history_of id s))) [
      | inl old ↦ repeated item found old (ground arith)
      | inr unseen ↦ elim (Bool-cases (has_lease current.lease_id (history_of id s))) [
        | inl used ↦ refused delivery_report_conflict (ground arith)
        | inr unused ↦ elim (Result-cases (next item)) [
          | inl (updated, e) ↦ accepted item updated found unseen unused e (ground arith)
          | inr (x, e) ↦ refused x (ground arith)
        ]
      ]
    ]
  ]

module _ (id : Text) (current : ReportFingerprint)
    (next : DeliveryEnvelope → Result DeliveryOutboxError DeliveryEnvelope)
    (rule : IsReport current.lease_id next) (s : Outbox) where
  pub settle-IsValid : IsValid s → IsValid (settle id current next s).0
  settle-IsValid w = go (settle id current next s) (settle_cases id current next s)
    where
      go : (after : Outcome DeliveryEnvelope) → Settled id current next s after → IsValid after.0
      go after (refused x e) = rw e w
      go after (repeated item found old e) = rw e w
      go after (accepted item updated found unseen unused h e) =
          let keyed =
            key-lookup (λ (v : DeliveryEnvelope). v.delivery_id) id s.items w.keyed found in
          rw e (
            Valid-put w id updated ((rule.moves item updated h).same.delivery_id ∙ keyed)
              (rule.sound item updated (w.sound id item found) h) ((rule.under item updated h).2))

  -- One step of the lifecycle at the reported item, and nothing elsewhere.
  pub settle-Evolves :
      Every
        (λ i e.
          (e' : DeliveryEnvelope) × (lookup i (settle id current next s).0.items ≡ some e')
          × Evolves e e'
          × (i ≢ id → e' ≡ e))
        s.items
  settle-Evolves i e h = go (settle id current next s) (settle_cases id current next s)
    where
      go :
          (after : Outcome DeliveryEnvelope)
          → Settled id current next s after
          → (e' : DeliveryEnvelope) × (lookup i after.0.items ≡ some e')
            × Evolves e e'
            × (i ≢ id → e' ≡ e)
      go after (refused x p) = rw p (e, h, stays refl, λ _. refl)
      go after (repeated item found old p) = rw p (e, h, stays refl, λ _. refl)
      go after (accepted item updated found unseen unused k p) = elim (text_eq.dec id i) [
        | yes same ↦
            let here : e ≡ item = cc in
            rw p (
              updated,
              subst (λ j. lookup j (insert id updated s.items) ≡ some updated) same
                  (lookup-insert_self id updated s.items),
              rw here (follows (rule.moves item updated k)),
              λ other. absurd (other (sym same)),
            )
        | no other ↦
            rw p (e, lookup-insert_ne id i updated s.items other ∙ h, stays refl, λ _. refl)
      ]

  -- A report changes the outbox only if the item is leased under the report's lease.
  pub settle_needs_lease :
      (item : DeliveryEnvelope)
      → lookup id s.items ≡ some item
      → item.lease_id ≢ current.lease_id
      → (settle id current next s).0 ≡ s
  settle_needs_lease item found other =
      go (settle id current next s) (settle_cases id current next s)
    where
      go : (after : Outcome DeliveryEnvelope) → Settled id current next s after → after.0 ≡ s
      go after (refused x e) = ap (λ (r : Outcome DeliveryEnvelope). r.0) e
      go after (repeated item found old e) = ap (λ (r : Outcome DeliveryEnvelope). r.0) e
      go after (accepted item' updated found' unseen unused h e) =
          let same : item ≡ item' = cc in absurd (other (rw same ((rule.under item' updated h).1)))

  -- After an accepted report its fingerprint is in the history of the delivery.
  pub history_of-settle :
      (e : DeliveryEnvelope)
      → (settle id current next s).1 ≡ ok e
      → (elem current (history_of id (settle id current next s).0) ≡ true)
        × (lookup id (settle id current next s).0.items ≡ some e)
  unfolding elem history_of
  history_of-settle e h = go (settle id current next s) (settle_cases id current next s) h
    where
      go :
          (after : Outcome DeliveryEnvelope)
          → Settled id current next s after
          → after.1 ≡ ok e
          → (elem current (history_of id after.0) ≡ true) × (lookup id after.0.items ≡ some e)
      go after (refused x p) k = cc
      go after (repeated item found old p) k = ground arith
      go after (accepted item updated found unseen unused n p) k = ground (
        arith,
        lookup-insert_self id (current ∷ history_of id s) s.report_index,
        lookup-insert_self id updated s.items,
      )

-- ===== src/Delivery/Repeats.antt =====
-- A report that is made again after other calls of the outbox (iris/runtime/delivery/in_memory.py).
use iris_mind_v.Prelude.{
  ℕ, ◌+◌, ◌≡◌, refl, ◌<◌, ap, inl, inr, Option-cases, Text, text_eq, option_eq, true, false, raise,
  Option, arith, List, [], ◌∷◌, All, ok, elem, is_some, length, Result,
}
use iris_mind_v.Prelude.Dict.{lookup, insert, lookup-insert}
use iris_mind_v.Delivery.Types.{
  Time, is_terminal, ActionResult, DeliveryEnvelope, DeliveryOutboxError, delivery_report_conflict,
}
use iris_mind_v.Delivery.Outbox.{
  Outbox, Outcome, ReportFingerprint, fingerprint_eq, result_fingerprint, history_of, settle,
  enqueue, complete, release, lease_due,
}
use iris_mind_v.Delivery.Reports.{Settled, refused, repeated, accepted, accept, settle_cases}
use iris_mind_v.Delivery.Leasing.{
  Progress, Visit, skipped, exhausted, leased, lease_loop_ind, leased_item, exhausted_item,
}
use iris_mind_v.Delivery.Valid.{IsValid}
use iris_mind_v.Delivery.Replay.{settle_known, settle_conflict, complete_known}
use iris_mind_v.Delivery.Runs.{
  Op, enqueue_op, lease_op, complete_op, release_op, apply, run, IsProper, Spares, apply-IsValid,
  run_terminal, Enqueued, same, lost, added, enqueue_cases,
}

module _ (f : ReportFingerprint) (id : Text) where
  -- The report is in the history of a stored delivery.
  pub record IsKnown (s : Outbox) : Type 0 where
    pub noted : elem f (history_of id s) ≡ true
    pub present : is_some (lookup id s.items) ≡ true

  noted-accept :
      (i : Text) (current : ReportFingerprint) (updated : DeliveryEnvelope) (s : Outbox)
      → elem f (history_of id s) ≡ true
      → elem f (history_of id (accept i current updated s)) ≡ true
  unfolding history_of elem
  noted-accept i current updated s h = elim (text_eq.dec i id) [
    | yes here ↦ ground (arith, h, lookup-insert i id (current ∷ history_of i s) s.report_index)
    | no other ↦ ground (arith, h, lookup-insert i id (current ∷ history_of i s) s.report_index)
  ]

  settle-IsKnown :
      (i : Text) (current : ReportFingerprint)
      (next : DeliveryEnvelope → Result DeliveryOutboxError DeliveryEnvelope) (s : Outbox)
      → IsKnown s
      → IsKnown (settle i current next s).0
  settle-IsKnown i current next s k = go (settle i current next s) (settle_cases i current next s)
    where
      go : (after : Outcome DeliveryEnvelope) → Settled i current next s after → IsKnown after.0
      go after (refused x e) = rw e k
      go after (repeated item found old e) = rw e k
      go after (accepted item updated found unseen unused h e) = rw e (record {
        noted = noted-accept i current updated s k.noted;
        present = ground (arith, k.present, lookup-insert i id updated s.items);
      })

  enqueue-IsKnown : (e : DeliveryEnvelope) (s : Outbox) → IsKnown s → IsKnown (enqueue e s).0
  enqueue-IsKnown e s k = go (enqueue e s) (enqueue_cases e s)
    where
      go : (after : Outcome DeliveryEnvelope) → Enqueued e s after → IsKnown after.0
      go after (same p _) = rw p k
      go after (lost i known gone p) = rw p k
      go after (added room p) = rw p (record {
        noted = unfold history_of in k.noted;
        present = ground (arith, k.present, lookup-insert e.delivery_id id e s.items);
      })

  insert-IsKnown :
      (i : Text) (e : DeliveryEnvelope) (s : Outbox)
      → IsKnown s
      → IsKnown (record s { items = insert i e s.items })
  unfolding history_of
  insert-IsKnown i e s k = record {
    noted = k.noted;
    present = ground (arith, k.present, lookup-insert i id e s.items);
  }

  recount-IsKnown : (n : ℕ) (s : Outbox) → IsKnown s → IsKnown (record s { lease_counter = n })
  unfolding history_of
  recount-IsKnown n s k = record { noted = k.noted; present = k.present }

  lease_due-IsKnown :
      (provider : Text) (now : Time) (max_items seconds : ℕ) (s : Outbox)
      → IsKnown s
      → IsKnown (lease_due provider now max_items seconds s).0
  unfolding lease_due
  lease_due-IsKnown provider now max_items seconds s k =
      (lease_loop_ind provider now seconds max_items (λ rest acc. IsKnown acc.0) step _ (s, [])
        k).holds
    where
      step :
          (item : DeliveryEnvelope) (rest : List DeliveryEnvelope) (acc after : Progress)
          → IsKnown acc.0
          → length acc.1 < max_items
          → Visit provider now seconds item acc after
          → IsKnown after.0
      step item rest acc after h _ (skipped unfit e) = rw e h
      step item rest (t, due) after h _ (exhausted fit out e) =
          rw e (insert-IsKnown _ (exhausted_item item now) t h)
      step item rest (t, due) after h _ (leased fit left e) =
          let counted = record t { lease_counter = t.lease_counter + 1 } in
          rw e (
            insert-IsKnown _ (leased_item item now seconds t) counted
              (recount-IsKnown (t.lease_counter + 1) t h))

  pub apply-IsKnown : (op : Op) (s : Outbox) → IsKnown s → IsKnown (apply op s)
  unfolding apply complete release
  apply-IsKnown (enqueue_op e) s k = enqueue-IsKnown e s k
  apply-IsKnown (lease_op provider now max_items seconds) s k =
      lease_due-IsKnown provider now max_items seconds s k
  apply-IsKnown (complete_op i lease_id result at) s k = settle-IsKnown i _ _ s k
  apply-IsKnown (release_op i lease_id retry_after result at) s k = settle-IsKnown i _ _ s k

  pub run-IsKnown : (ops : List Op) (s : Outbox) → IsKnown s → IsKnown (run ops s)
  unfolding run
  run-IsKnown [] s k = k
  run-IsKnown (op ∷ ops) s k = run-IsKnown ops (apply op s) (apply-IsKnown op s k)

-- Once complete has succeeded in a valid outbox and the item has come to an end, the same
-- report, made again at any time through complete or release, after any sequence of calls that
-- enqueues new envelopes only and none of them under the id of the item, returns the same
-- envelope and leaves the outbox as it is.
pub complete_replayed :
    (id : Text) (lease_id : Option Text) (result : ActionResult) (at at' retry_after : Time)
    (s : Outbox) (e : DeliveryEnvelope) (ops : List Op)
    → IsValid s
    → All IsProper ops
    → All (Spares id) ops
    → (complete id lease_id result at s).1 ≡ ok e
    → is_terminal e.status ≡ true
    → let s' = run ops (complete id lease_id result at s).0 in
      (complete id lease_id result at' s' ≡ (s', ok e))
      × (release id lease_id retry_after result at' s' ≡ (s', ok e))
complete_replayed id lease_id result at at' retry_after s e ops w n spares h ended =
    let s1 = (complete id lease_id result at s).0 in
    let (noted, found) = complete_known id lease_id result at s e h in
    let w1 = apply-IsValid (complete_op id lease_id result at) s tt w in
    let f = result_fingerprint id lease_id result in
    let known = run-IsKnown f id ops s1 (record { noted = noted; present = ap is_some found }) in
    let kept = run_terminal ops s1 id e n spares (unfold apply in w1) ended found in
    (
      unfold complete in settle_known id _ _ (run ops s1) e known.noted kept,
      unfold release in settle_known id _ _ (run ops s1) e known.noted kept,
    )

-- Once complete has succeeded under a lease, a report of another result under that lease that
-- is not in the history of the delivery, made through complete or release after any sequence of
-- calls of the outbox, is a conflict and leaves the outbox as it is.
pub complete_contradicted :
    (id : Text) (lease_id : Option Text) (result other : ActionResult) (at at' retry_after : Time)
    (s : Outbox) (e : DeliveryEnvelope) (ops : List Op)
    → (complete id lease_id result at s).1 ≡ ok e
    → elem
        (result_fingerprint id lease_id other)
        (history_of id (run ops (complete id lease_id result at s).0))
      ≡ false
    → let s' = run ops (complete id lease_id result at s).0 in
      (complete id lease_id other at' s' ≡ (s', raise delivery_report_conflict))
      × (release id lease_id retry_after other at' s' ≡ (s', raise delivery_report_conflict))
complete_contradicted id lease_id result other at at' retry_after s e ops h unseen =
    let s1 = (complete id lease_id result at s).0 in
    let (noted, found) = complete_known id lease_id result at s e h in
    let f = result_fingerprint id lease_id result in
    let known = run-IsKnown f id ops s1 (record { noted = noted; present = ap is_some found }) in
    elim (Option-cases (lookup id (run ops s1).items)) [
      | inl gone ↦ cc (known.present, ap is_some gone)
      | inr (now_is, stored) ↦ (
        unfold complete result_fingerprint in
            settle_conflict id f _ _ (run ops s1) now_is known.noted stored refl unseen,
        unfold release result_fingerprint in
            settle_conflict id f _ _ (run ops s1) now_is known.noted stored refl unseen,
      )
    ]

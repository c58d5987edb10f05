-- ===== src/Delivery/Limit.antt =====
-- The depth limit of the outbox (iris/runtime/delivery/in_memory.py) never changes.
use iris_mind_v.Prelude.{ℕ, ◌≡◌, refl, ◌∙◌, Text, text_eq, Result, List, [], ◌∷◌, sorted}
use iris_mind_v.Prelude.Dict.{values}
use iris_mind_v.Delivery.Types.{Time, DeliveryEnvelope, DeliveryOutboxError}
use iris_mind_v.Delivery.Outbox.{
  Outbox, Outcome, enqueue, complete, release, result_fingerprint, lease_due, settle,
  envelope_key_le, ReportFingerprint,
}
use iris_mind_v.Delivery.Reports.{Settled, refused, repeated, accepted, settle_cases}
use iris_mind_v.Delivery.Leasing.{Progress, Visit, skipped, exhausted, leased, lease_loop_ind}
use iris_mind_v.Delivery.Runs.{
  Enqueued, same, lost, added, enqueue_cases, Op, enqueue_op, lease_op, complete_op, release_op,
  apply, run,
}

-- The items of a provider that have not come to an end.
pub limit-settle :
    (id : Text) (current : ReportFingerprint)
    (next : DeliveryEnvelope → Result DeliveryOutboxError DeliveryEnvelope) (s : Outbox)
    → (settle id current next s).0.max_depth_per_provider ≡ s.max_depth_per_provider
limit-settle id current next s = go (settle id current next s) (settle_cases id current next s)
  where
    go :
        (after : Outcome DeliveryEnvelope)
        → Settled id current next s after
        → after.0.max_depth_per_provider ≡ s.max_depth_per_provider
    go after (refused x e) = rw e
    go after (repeated item found old e) = rw e
    go after (accepted item updated found unseen unused h e) = rw e

pub limit-lease_due :
    (provider : Text) (now : Time) (max_items seconds : ℕ) (s : Outbox)
    → (lease_due provider now max_items seconds s).0.max_depth_per_provider
      ≡ s.max_depth_per_provider
unfolding lease_due
limit-lease_due provider now max_items seconds s =
    (lease_loop_ind provider now seconds max_items
      (λ rest acc. acc.0.max_depth_per_provider ≡ s.max_depth_per_provider)
      (λ item rest acc after h _ v. keep item acc after h v)
      (sorted envelope_key_le (values s.items)) (s, []) refl).holds
  where
    keep :
        (item : DeliveryEnvelope) (acc after : Progress)
        → acc.0.max_depth_per_provider ≡ s.max_depth_per_provider
        → Visit provider now seconds item acc after
        → after.0.max_depth_per_provider ≡ s.max_depth_per_provider
    keep item acc after h (skipped unfit e) = rw e h
    keep item acc after h (exhausted fit out e) = rw e h
    keep item acc after h (leased fit left e) = rw e h

pub limit-enqueue :
    (e : DeliveryEnvelope) (s : Outbox)
    → (enqueue e s).0.max_depth_per_provider ≡ s.max_depth_per_provider
limit-enqueue e s = go (enqueue e s) (enqueue_cases e s)
  where
    go :
        (after : Outcome DeliveryEnvelope)
        → Enqueued e s after
        → after.0.max_depth_per_provider ≡ s.max_depth_per_provider
    go after (same p _) = rw p refl
    go after (lost _ _ _ p) = rw p refl
    go after (added room p) = rw p refl

pub limit-apply :
    (op : Op) (s : Outbox) → (apply op s).max_depth_per_provider ≡ s.max_depth_per_provider
unfolding apply complete release result_fingerprint
limit-apply (enqueue_op e) s = limit-enqueue e s
limit-apply (lease_op provider now max_items seconds) s =
    limit-lease_due provider now max_items seconds s
limit-apply (complete_op id lease_id result at) s = limit-settle id _ _ s
limit-apply (release_op id lease_id retry_after result at) s = limit-settle id _ _ s

pub limit-run :
    (ops : List Op) (s : Outbox) → (run ops s).max_depth_per_provider ≡ s.max_depth_per_provider
unfolding run
limit-run [] s = refl
limit-run (op ∷ ops) s = limit-run ops (apply op s) ∙ limit-apply op s

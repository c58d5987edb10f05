-- ===== src/Delivery/Leasing/Safety.antt =====
-- What `lease_due` (iris/runtime/delivery/in_memory.py) keeps and what it hands out.
use iris_mind_v.Prelude.{
  ℕ, ◌≤◌, ◌<◌, refl, Text, text_eq, arith, List, [], ◌∷◌, length, length-append, All, All-map,
  sorted, sorted-All,
}
use iris_mind_v.Prelude.Dict.{values, values-lookup}
use iris_mind_v.Delivery.Types.{Time, DeliveryEnvelope}
use iris_mind_v.Delivery.Transitions.{lease_delivery, fail_exhausted_delivery}
use iris_mind_v.Delivery.Outbox.{Outbox, envelope_key_le, lease_due}
use iris_mind_v.Delivery.Lifecycle.{
  IsSound, lease_delivery-IsSound, fail_exhausted_delivery-IsSound,
}
use iris_mind_v.Delivery.Valid.{IsValid, Valid-put, Valid-lease}
use iris_mind_v.Delivery.Leasing.{
  Progress, leased_item, Visit, skipped, exhausted, leased, lease_loop_ind,
}

module _ (provider : Text) (now : Time) (max_items seconds : ℕ) where
  KeepsValid : List DeliveryEnvelope → Progress → Type 0
  KeepsValid rest acc = IsValid acc.0 × All IsSound rest

  Visit-KeepsValid :
      (item : DeliveryEnvelope) (rest : List DeliveryEnvelope) (acc after : Progress)
      → KeepsValid (item ∷ rest) acc
      → length acc.1 < max_items
      → Visit provider now seconds item acc after
      → KeepsValid rest after
  unfolding KeepsValid fail_exhausted_delivery lease_delivery
  Visit-KeepsValid item rest acc after (w, sound) more (skipped unfit e) = rw e (w, sound.1)
  Visit-KeepsValid item rest acc after (w, sound) more (exhausted go out e) =
      let fine = fail_exhausted_delivery-IsSound item now _ sound.0 in
      rw e (Valid-put w _ _ refl fine refl, sound.1)
  Visit-KeepsValid item rest acc after (w, sound) more (leased go left e) =
      let fine = lease_delivery-IsSound item now _ seconds left in
      rw e (Valid-lease w _ _ refl fine refl, sound.1)

  -- Leasing keeps the outbox valid.
  pub lease_due-IsValid :
      (s : Outbox) → IsValid s → IsValid (lease_due provider now max_items seconds s).0
  unfolding lease_due KeepsValid
  lease_due-IsValid s w =
      (lease_loop_ind provider now seconds max_items KeepsValid Visit-KeepsValid
        (sorted envelope_key_le (values s.items)) (s, []) (w, snapshot_sound)).holds.0
    where
      snapshot_sound : All IsSound (sorted envelope_key_le (values s.items))
      snapshot_sound = sorted-All envelope_key_le IsSound (values s.items) (
          All-map (λ v h. w.sound v.delivery_id v h) (values s.items)
            (values-lookup (λ v. v.delivery_id) s.items w.keyed))

  -- No more items are handed out than were asked for.
  pub length-lease_due-le :
      (s : Outbox) → length (lease_due provider now max_items seconds s).1 ≤ max_items
  unfolding lease_due
  length-lease_due-le s =
      (lease_loop_ind provider now seconds max_items (λ rest acc. length acc.1 ≤ max_items)
        (λ item rest acc after h more v. grow item acc after h more v) _ (s, [])
        (omega arith)).holds
    where
      grow :
          (item : DeliveryEnvelope) (acc after : Progress)
          → length acc.1 ≤ max_items
          → length acc.1 < max_items
          → Visit provider now seconds item acc after
          → length after.1 ≤ max_items
      grow item acc after h more (skipped unfit e) = rw e h
      grow item acc after h more (exhausted go out e) = rw e h
      grow item acc after h more (leased go left e) =
          rw e (omega (arith, length-append acc.1 (leased_item item now seconds acc.0 ∷ [])))

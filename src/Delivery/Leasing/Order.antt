-- ===== src/Delivery/Leasing/Order.antt =====
-- The order in which `lease_due` (iris/runtime/delivery/in_memory.py) hands items out.
use iris_mind_v.Prelude.{
  ℕ, ◌≡◌, ◌⊎◌, Text, text_le_total, text_le_trans, true, arith, List, [], ◌∷◌, ◌++◌, All, All-map,
  All-append, sorted, IsSorted, sorted-IsSorted,
}
use iris_mind_v.Prelude.Dict.{values}
use iris_mind_v.Delivery.Types.{Time, DeliveryEnvelope}
use iris_mind_v.Delivery.Transitions.{lease_delivery}
use iris_mind_v.Delivery.Outbox.{Outbox, envelope_key_le, lease_due}
use iris_mind_v.Delivery.Leasing.{
  Progress, leased_item, Visit, skipped, exhausted, leased, lease_loop_ind,
}

module _ (a b : DeliveryEnvelope) where
  envelope_key_le_total : (envelope_key_le a b ≡ true) ⊎ (envelope_key_le b a ≡ true)
  unfolding envelope_key_le
  envelope_key_le_total = ground (arith, text_le_total a.delivery_id b.delivery_id)

  envelope_key_le_trans :
      (c : DeliveryEnvelope)
      → envelope_key_le a b ≡ true
      → envelope_key_le b c ≡ true
      → envelope_key_le a c ≡ true
  unfolding envelope_key_le
  envelope_key_le_trans c h k =
      ground (arith, text_le_trans a.delivery_id b.delivery_id c.delivery_id)

-- Leasing an item does not change its place.
leased_item_le :
    (a item : DeliveryEnvelope) (now : Time) (seconds : ℕ) (s : Outbox)
    → envelope_key_le a item ≡ true
    → envelope_key_le a (leased_item item now seconds s) ≡ true
unfolding envelope_key_le lease_delivery
leased_item_le a item now seconds s h = h

le_leased_item :
    (a item : DeliveryEnvelope) (now : Time) (seconds : ℕ) (s : Outbox)
    → envelope_key_le item a ≡ true
    → envelope_key_le (leased_item item now seconds s) a ≡ true
unfolding envelope_key_le lease_delivery
le_leased_item a item now seconds s h = h

snoc-IsSorted :
    (xs : List DeliveryEnvelope) (y : DeliveryEnvelope)
    → IsSorted envelope_key_le xs
    → All (λ x. envelope_key_le x y ≡ true) xs
    → IsSorted envelope_key_le (xs ++ y ∷ [])
snoc-IsSorted [] y s h = (tt, tt)
snoc-IsSorted (x ∷ xs) y s h = (All-append _ xs (y ∷ []) s.0 (h.0, tt), snoc-IsSorted xs y s.1 h.1)

module _ (provider : Text) (now : Time) (max_items seconds : ℕ) where
  record InOrder (rest : List DeliveryEnvelope) (acc : Progress) : Type 0 where
    rest_sorted : IsSorted envelope_key_le rest
    due_sorted : IsSorted envelope_key_le acc.1
    before : All (λ d. All (λ v. envelope_key_le d v ≡ true) rest) acc.1

  drop_first :
      (item : DeliveryEnvelope) (rest : List DeliveryEnvelope) (acc : Progress)
      → InOrder (item ∷ rest) acc
      → InOrder rest acc
  drop_first item rest acc t = record {
    rest_sorted = t.rest_sorted.1;
    due_sorted = t.due_sorted;
    before = All-map (λ d h. h.1) acc.1 t.before;
  }

  Visit-InOrder :
      (item : DeliveryEnvelope) (rest : List DeliveryEnvelope) (acc after : Progress)
      → InOrder (item ∷ rest) acc
      → Visit provider now seconds item acc after
      → InOrder rest after
  Visit-InOrder item rest acc after t (skipped unfit e) = rw e (drop_first item rest acc t)
  Visit-InOrder item rest (s, due) after t (exhausted fit out e) =
      let u = drop_first item rest (s, due) t in
      rw e (record { rest_sorted = u.rest_sorted; due_sorted = u.due_sorted; before = u.before })
  Visit-InOrder item rest (s, due) after t (leased fit left e) =
      let u = drop_first item rest (s, due) t in
      let new = leased_item item now seconds s in
      rw e (record {
        rest_sorted = u.rest_sorted;
        due_sorted =
            snoc-IsSorted due new t.due_sorted
              (All-map (λ d h. leased_item_le d item now seconds s h.0) due t.before);
        before =
            All-append _ due (new ∷ []) u.before
              (All-map (λ v h. le_leased_item v item now seconds s h) rest t.rest_sorted.0, tt);
      })

  -- The items that lease_due hands out are in the order of their creation, by id where that is
  -- the same.
  pub lease_due-IsSorted :
      (s : Outbox) → IsSorted envelope_key_le (lease_due provider now max_items seconds s).1
  unfolding lease_due
  lease_due-IsSorted s =
      (lease_loop_ind provider now seconds max_items InOrder
        (λ item rest acc after t _ v. Visit-InOrder item rest acc after t v)
        (sorted envelope_key_le (values s.items)) (s, [])
        (record {
          rest_sorted =
              sorted-IsSorted envelope_key_le envelope_key_le_total envelope_key_le_trans
                (values s.items);
          due_sorted = tt;
          before = tt;
        })).holds.due_sorted

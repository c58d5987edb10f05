-- ===== src/Delivery/Leasing.antt =====
-- A proof rule for the loop of `lease_due` (iris/runtime/delivery/in_memory.py), and the three
-- courses of its body.
pub mod Safety
pub mod Evolution
pub mod Completion
pub mod Order
use iris_mind_v.Prelude.{
  ℕ, suc, ◌+◌, ◌≤◌, ◌<◌, ◌≡◌, refl, ◌⊎◌, inl, inr, Text, text, text_eq, ◌==◌, Bool, Bool-cases,
  true, false, not, ◌&&◌, ◌||◌, leb, arith, List, [], ◌∷◌, ◌++◌, length,
}
use iris_mind_v.Prelude.Dict.{insert, insert-insert}
use iris_mind_v.Delivery.Types.{Time, DeliveryEnvelope}
use iris_mind_v.Delivery.Transitions.{fail_exhausted_delivery, lease_delivery, is_delivery_due}
use iris_mind_v.Delivery.Outbox.{Outbox, lease_name, lease_visit, lease_loop}

abbrev pub Progress : Type 0
Progress = Outbox × List DeliveryEnvelope

-- What `lease_due` looks for.
abbrev pub eligible : Text → Time → DeliveryEnvelope → Bool
eligible provider now item = item.target.provider == provider && is_delivery_due item now

abbrev pub exhausted_item : DeliveryEnvelope → Time → DeliveryEnvelope
exhausted_item item now = fail_exhausted_delivery item now (text "max_attempts_exceeded")

abbrev pub leased_item : DeliveryEnvelope → Time → ℕ → Outbox → DeliveryEnvelope
leased_item item now seconds s =
    lease_delivery item (lease_name (s.lease_counter + 1)) now seconds item.not_before

module _ (provider : Text) (now : Time) (seconds : ℕ) where
  abbrev pub after_exhausted : DeliveryEnvelope → Progress → Progress
  after_exhausted item (s, due) =
      let failed = exhausted_item item now in
      (record s { items = insert failed.delivery_id failed s.items }, due)

  abbrev pub after_leased : DeliveryEnvelope → Progress → Progress
  after_leased item (s, due) =
      let leased = leased_item item now seconds s in
      (
        record s {
          items = insert leased.delivery_id leased s.items;
          lease_counter = s.lease_counter + 1;
        },
        due ++ leased ∷ [],
      )

  -- The body of the loop, by its tests.
  pub data Visit (item : DeliveryEnvelope) (acc after : Progress) : Type 0 where
    skipped : eligible provider now item ≡ false → after ≡ acc → Visit item acc after
    exhausted :
        eligible provider now item ≡ true
        → item.max_attempts ≤ item.attempts
        → after ≡ after_exhausted item acc
        → Visit item acc after
    leased :
        eligible provider now item ≡ true
        → item.attempts < item.max_attempts
        → after ≡ after_leased item acc
        → Visit item acc after

  pub lease_visit_cases :
      (item : DeliveryEnvelope) (acc : Progress)
      → Visit item acc (lease_visit provider now seconds item acc)
  unfolding lease_visit lease_delivery fail_exhausted_delivery
  lease_visit_cases item (s, due) = elim (Bool-cases (eligible provider now item)) [
    | inl go ↦ elim (Bool-cases (leb item.max_attempts item.attempts)) [
      | inl out ↦ exhausted go (ground arith) (
          ground (
            arith,
            insert-insert item.delivery_id (exhausted_item item now) (exhausted_item item now)
                s.items,
          ))
      | inr left ↦ leased go (ground arith) (ground arith)
    ]
    | inr stop ↦ skipped stop (ground arith)
  ]

  module _ (max_items : ℕ) (P : List DeliveryEnvelope → Progress → Type 0) where
    pub record Ends (after : Progress) : Type 0 where
      pub rest : List DeliveryEnvelope
      pub holds : P rest after
      pub all_or_full : (rest ≡ []) ⊎ (max_items ≤ length after.1)

    -- What each visit keeps holds when the loop ends, at the items that it left.
    pub lease_loop_ind :
        ((item : DeliveryEnvelope) (rest : List DeliveryEnvelope) (acc after : Progress)
          → P (item ∷ rest) acc
          → length acc.1 < max_items
          → Visit item acc after
          → P rest after)
        → (items : List DeliveryEnvelope) (acc : Progress) → P items acc
        → Ends (lease_loop provider now max_items seconds items acc)
    unfolding lease_loop
    lease_loop_ind step [] acc h = record { rest = []; holds = h; all_or_full = inl refl }
    lease_loop_ind step (item ∷ rest) acc h = elim (Bool-cases (leb max_items (length acc.1))) [
      | inl full ↦
          rw full (record { rest = item ∷ rest; holds = h; all_or_full = inr (ground arith) })
      | inr more ↦ rw more (
          lease_loop_ind step rest (lease_visit provider now seconds item acc)
            (step item rest acc _ h (ground arith) (lease_visit_cases item acc)))
    ]

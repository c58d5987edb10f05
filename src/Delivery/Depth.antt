-- ===== src/Delivery/Depth.antt =====
-- The depth limit of the outbox (iris/runtime/delivery/in_memory.py).
use iris_mind_v.Prelude.{
  ℕ, ◌+◌, ◌≤◌, ◌≡◌, refl, sym, ap, ◌∙◌, inl, inr, Text, text, text_eq, Result, false, some, arith,
  List, [], ◌∷◌, count, sorted, All, if◌then◌else◌, Option-cases,
}
use native.Mathlib.Nat.{le_refl, le_trans}
use iris_mind_v.Prelude.Dict.{lookup, insert, values, count-insert_old, count-insert_new}
use iris_mind_v.Prelude.Snapshot.{
  IsCurrent, sorted-values-IsCurrent, IsCurrent-insert, IsCurrent-skip,
}
use iris_mind_v.Delivery.Types.{
  Time, DeliveryStatus, is_terminal, DeliveryEnvelope, DeliveryTarget, DeliveryOutboxError,
}
use iris_mind_v.Delivery.Transitions.{lease_delivery, fail_exhausted_delivery}
use iris_mind_v.Delivery.Outbox.{
  Outbox, Outcome, new_outbox, lease_name, is_active_for, depth_exceeded, enqueue, complete,
  release, result_fingerprint, lease_due, settle, envelope_key_le, ReportFingerprint,
}
use iris_mind_v.Delivery.Lifecycle.{
  Moves, take, retake, retry, exhaust, finish, Follows, lease_delivery-Follows,
  fail_exhausted_delivery-Follows,
}
use iris_mind_v.Delivery.Reports.{
  IsReport, complete-IsReport, release-IsReport, Settled, refused, repeated, accepted, settle_cases,
}
use iris_mind_v.Delivery.Valid.{Items, IsValid, new_outbox-IsValid}
use iris_mind_v.Delivery.Leasing.{Progress, Visit, skipped, exhausted, leased, lease_loop_ind}
use iris_mind_v.Delivery.Limit.{limit-settle, limit-lease_due, limit-run}
use iris_mind_v.Delivery.Runs.{
  Enqueued, same, lost, added, enqueue_cases, Op, enqueue_op, lease_op, complete_op, release_op,
  apply, run, IsProper, apply-IsValid,
}

-- The items of a provider that have not come to an end.
abbrev pub depth : Text → Items → ℕ
depth provider items = count (is_active_for provider) (values items)

abbrev active : Text → DeliveryEnvelope → ℕ
active p e = if is_active_for p e then 1 else 0

active-le-one : (p : Text) (e : DeliveryEnvelope) → active p e ≤ 1
active-le-one p e = ground arith

source_active : {s t : DeliveryStatus} → Moves s t → is_terminal s ≡ false
source_active take = refl
source_active retake = refl
source_active retry = refl
source_active exhaust = refl
source_active (finish h) = refl

-- A move along the lifecycle makes no item active.
active-Follows : (p : Text) (a b : DeliveryEnvelope) → Follows a b → active p b ≤ active p a
unfolding is_active_for
active-Follows p a b f =
    let target = ap (λ (t : DeliveryTarget). t.provider) f.same.target in
    let live = source_active f.moves in ground arith

depth-insert_old :
    (p id : Text) (a b : DeliveryEnvelope) (items : Items)
    → lookup id items ≡ some a
    → Follows a b
    → depth p (insert id b items) ≤ depth p items
depth-insert_old p id a b items found f =
    omega (arith, count-insert_old (is_active_for p) id b a items found, active-Follows p a b f)

module _ (p : Text) where
  pub settle-depth :
      (id : Text) (current : ReportFingerprint)
      (next : DeliveryEnvelope → Result DeliveryOutboxError DeliveryEnvelope)
      → IsReport current.lease_id next
      → (s : Outbox) → depth p (settle id current next s).0.items ≤ depth p s.items
  settle-depth id current next rule s =
      go (settle id current next s) (settle_cases id current next s)
    where
      go :
          (after : Outcome DeliveryEnvelope)
          → Settled id current next s after
          → depth p after.0.items ≤ depth p s.items
      go after (refused x e) = rw e (le_refl _)
      go after (repeated item found old e) = rw e (le_refl _)
      go after (accepted item updated found unseen unused h e) =
          rw e (depth-insert_old p id item updated s.items found (rule.moves item updated h))

  module _ (provider : Text) (now : Time) (max_items seconds : ℕ) (s : Outbox) where
    record Shrinks (rest : List DeliveryEnvelope) (acc : Progress) : Type 0 where
      current : IsCurrent (λ (e : DeliveryEnvelope). e.delivery_id) acc.0.items rest
      shrinks : depth p acc.0.items ≤ depth p s.items

    Visit-Shrinks :
        (item : DeliveryEnvelope) (rest : List DeliveryEnvelope) (acc after : Progress)
        → Shrinks (item ∷ rest) acc
        → Visit provider now seconds item acc after
        → Shrinks rest after
    unfolding fail_exhausted_delivery lease_delivery
    Visit-Shrinks item rest acc after t (skipped unfit e) =
        rw e (record { current = IsCurrent-skip _ item rest t.current; shrinks = t.shrinks })
    Visit-Shrinks item rest acc after t (exhausted fit out e) =
        let f =
          fail_exhausted_delivery-Follows item now (text "max_attempts_exceeded") (ground arith) in
        rw e (record {
          current = IsCurrent-insert _ item _ acc.0.items rest t.current;
          shrinks =
              le_trans
                (depth-insert_old p item.delivery_id item _ acc.0.items t.current.current.0 f)
                t.shrinks;
        })
    Visit-Shrinks item rest acc after t (leased fit left e) =
        let f =
          lease_delivery-Follows item now (lease_name (acc.0.lease_counter + 1)) seconds
            (ground arith) in
        rw e (record {
          current = IsCurrent-insert _ item _ acc.0.items rest t.current;
          shrinks =
              le_trans
                (depth-insert_old p item.delivery_id item _ acc.0.items t.current.current.0 f)
                t.shrinks;
        })

    pub lease_due-depth :
        IsValid s → depth p (lease_due provider now max_items seconds s).0.items ≤ depth p s.items
    unfolding lease_due
    lease_due-depth w =
        (lease_loop_ind provider now seconds max_items Shrinks
          (λ item rest acc after t _ v. Visit-Shrinks item rest acc after t v)
          (sorted envelope_key_le (values s.items)) (s, [])
          (record {
            current = sorted-values-IsCurrent _ envelope_key_le s.items w.keyed;
            shrinks = le_refl _;
          })).holds.shrinks

  -- Storing a new item adds at most itself to the depth of its provider, and nothing to another's.
  pub with_new-depth :
      (e : DeliveryEnvelope) (items : Items)
      → depth p (insert e.delivery_id e items) ≤ depth p items + active p e
  with_new-depth e items = elim (Option-cases (lookup e.delivery_id items)) [
    | inl absent ↦ omega (arith, count-insert_new (is_active_for p) e.delivery_id e items absent)
    | inr (old, found) ↦
        omega (arith, count-insert_old (is_active_for p) e.delivery_id e old items found)
  ]

-- No provider has more items that are not ended than the limit allows, if there is a limit.
abbrev pub IsBounded : Outbox → Type 0
IsBounded s =
    (limit : ℕ) → s.max_depth_per_provider ≡ some limit → (p : Text) → depth p s.items ≤ limit

enqueue-IsBounded : (e : DeliveryEnvelope) (s : Outbox) → IsBounded s → IsBounded (enqueue e s).0
unfolding is_active_for depth_exceeded
enqueue-IsBounded e s h = go (enqueue e s) (enqueue_cases e s)
  where
    go : (after : Outcome DeliveryEnvelope) → Enqueued e s after → IsBounded after.0
    go after (same p _) = rw p h
    go after (lost _ _ _ p) = rw p h
    go after (added room p) = rw p (λ limit some_limit provider.
        ground (arith, h limit some_limit provider, with_new-depth provider e s.items))

apply-IsBounded : (op : Op) (s : Outbox) → IsValid s → IsBounded s → IsBounded (apply op s)
unfolding apply complete release result_fingerprint
apply-IsBounded (enqueue_op e) s w h limit l p = enqueue-IsBounded e s h limit l p
apply-IsBounded (lease_op provider now max_items seconds) s w h limit l p =
    le_trans (lease_due-depth p provider now max_items seconds s w)
      (h limit (sym (limit-lease_due provider now max_items seconds s) ∙ l) p)
apply-IsBounded (complete_op id lease_id result at) s w h limit l p =
    le_trans (settle-depth p id _ _ (complete-IsReport lease_id result at) s)
      (h limit (sym (limit-settle id _ _ s) ∙ l) p)
apply-IsBounded (release_op id lease_id retry_after result at) s w h limit l p =
    le_trans (settle-depth p id _ _ (release-IsReport lease_id retry_after result at) s)
      (h limit (sym (limit-settle id _ _ s) ∙ l) p)

run-IsBounded :
    (ops : List Op) (s : Outbox)
    → All IsProper ops
    → IsValid s
    → IsBounded s
    → IsBounded (run ops s)
unfolding run
run-IsBounded [] s n w h = h
run-IsBounded (op ∷ ops) s n w h =
    run-IsBounded ops (apply op s) n.1 (apply-IsValid op s n.0 w) (apply-IsBounded op s w h)

-- Whatever sequence of calls a new outbox with a depth limit goes through, if the envelopes
-- that are enqueued are new ones, no provider has more items that have not ended than the
-- limit.
pub depth-run :
    (limit : ℕ) (ops : List Op) (p : Text)
    → All IsProper ops
    → depth p (run ops (new_outbox (some limit))).items ≤ limit
unfolding new_outbox values count
depth-run limit ops p n =
    run-IsBounded ops (new_outbox (some limit)) n (new_outbox-IsValid (some limit))
      (λ l e q. omega arith) limit (limit-run ops (new_outbox (some limit))) p

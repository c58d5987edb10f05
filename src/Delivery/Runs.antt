-- ===== src/Delivery/Runs.antt =====
-- Sequences of calls of the outbox (iris/runtime/delivery/in_memory.py).
use iris_mind_v.Prelude.{
  ℕ, ◌≡◌, refl, ap, ◌∙◌, ◌≢◌, inl, inr, Text, text_eq, true, false, ◌||◌, Option, none, some, arith,
  List, [], ◌∷◌, ok, raise, All, is_some, Bool-cases, Option-cases, is_empty,
}
use iris_mind_v.Prelude.Dict.{lookup, insert, lookup-insert_self, lookup-insert_ne}
use iris_mind_v.Delivery.Types.{
  Time, DeliveryStatus, is_terminal, is_no_action, ActionResult, DeliveryEnvelope, key_error,
}
use iris_mind_v.Delivery.Outbox.{
  Outbox, Outcome, new_outbox, depth_exceeded, enqueue, complete, release, lease_due,
  result_fingerprint,
}
use iris_mind_v.Delivery.Lifecycle.{
  Moves, take, retake, retry, exhaust, finish, Evolves, stays, follows,
}
use iris_mind_v.Delivery.Reports.{
  complete-IsReport, release-IsReport, settle-IsValid, settle-Evolves,
}
use iris_mind_v.Delivery.Valid.{
  IsValid, IsNew, IsNew-IsSound, Valid-put, Valid-index, new_outbox-IsValid,
}
use iris_mind_v.Delivery.Leasing.Safety.{lease_due-IsValid}
use iris_mind_v.Delivery.Leasing.Evolution.{lease_due-Kept}

abbrev pub with_new : DeliveryEnvelope → Outbox → Outbox
with_new e s = record s {
  items = insert e.delivery_id e s.items;
  idempotency_index = insert e.idempotency_key e.delivery_id s.idempotency_index;
}

-- The courses of `enqueue`.
pub data Enqueued (e : DeliveryEnvelope) (s : Outbox) (after : Outcome DeliveryEnvelope)
    : Type 0 where
  same : after.0 ≡ s → after.1 ≢ raise key_error → Enqueued e s after
  lost :
      (id : Text)
      → lookup e.idempotency_key s.idempotency_index ≡ some id
      → lookup id s.items ≡ none
      → after.0 ≡ s
      → Enqueued e s after
  added :
      depth_exceeded s e.target.provider ≡ false → after ≡ (with_new e s, ok e) → Enqueued e s after

pub enqueue_cases : (e : DeliveryEnvelope) (s : Outbox) → Enqueued e s (enqueue e s)
unfolding enqueue
enqueue_cases e s = elim (Bool-cases (is_no_action e.action || is_empty e.idempotency_key)) [
  | inl bad ↦ same (ground arith) (ground arith)
  | inr good ↦ elim (Option-cases (lookup e.idempotency_key s.idempotency_index)) [
    | inr (id, known) ↦ elim (Option-cases (lookup id s.items)) [
      | inl gone ↦ lost id known gone (ground arith)
      | inr (item, found) ↦ same (ground arith) (ground arith)
    ]
    | inl unknown ↦ elim (Bool-cases (depth_exceeded s e.target.provider)) [
      | inl full ↦ same (ground arith) (ground arith)
      | inr room ↦ added room (ground arith)
    ]
  ]
]

pub enqueue-IsValid :
    (e : DeliveryEnvelope) (s : Outbox) → IsNew e → IsValid s → IsValid (enqueue e s).0
enqueue-IsValid e s n w = go (enqueue e s) (enqueue_cases e s)
  where
    present : is_some (lookup e.delivery_id (insert e.delivery_id e s.items)) ≡ true
    present = rw (lookup-insert_self e.delivery_id e s.items)

    go : (after : Outcome DeliveryEnvelope) → Enqueued e s after → IsValid after.0
    go after (same p _) = rw p w
    go after (lost id known gone p) = rw p w
    go after (added room p) = rw p (
        Valid-index e.idempotency_key e.delivery_id
          (Valid-put w e.delivery_id e refl (IsNew-IsSound e n) n.lease_id) present)

-- No entry of the index of a valid outbox leads nowhere.
pub enqueue-ne-key_error :
    (e : DeliveryEnvelope) (s : Outbox) → IsValid s → (enqueue e s).1 ≢ raise key_error
enqueue-ne-key_error e s w = go (enqueue e s) (enqueue_cases e s)
  where
    go : (after : Outcome DeliveryEnvelope) → Enqueued e s after → after.1 ≢ raise key_error
    go after (same _ fine) = fine
    go after (lost id known gone p) =
        absurd (cc (w.indexed e.idempotency_key id known, ap is_some gone))
    go after (added room p) = λ h. cc

-- A call of the outbox that may change it.
pub data Op : Type 0 where
  enqueue_op : DeliveryEnvelope → Op
  lease_op : (provider : Text) (now : Time) (max_items seconds : ℕ) → Op
  complete_op : (id : Text) (lease_id : Option Text) (result : ActionResult) (at : Time) → Op
  release_op :
      (id : Text) (lease_id : Option Text) (retry_after : Time) (result : ActionResult) (at : Time)
      → Op

unfoldable pub apply : Op → Outbox → Outbox
apply (enqueue_op e) s = (enqueue e s).0
apply (lease_op provider now max_items seconds) s = (lease_due provider now max_items seconds s).0
apply (complete_op id lease_id result at) s = (complete id lease_id result at s).0
apply (release_op id lease_id retry_after result at) s =
    (release id lease_id retry_after result at s).0

unfoldable pub run : List Op → Outbox → Outbox
run [] s = s
run (op ∷ ops) s = run ops (apply op s)

-- The envelopes that are enqueued are new ones.
abbrev pub IsProper : Op → Type 0
IsProper (enqueue_op e) = IsNew e
IsProper _ = Unit

pub apply-IsValid : (op : Op) (s : Outbox) → IsProper op → IsValid s → IsValid (apply op s)
unfolding apply complete release result_fingerprint
apply-IsValid (enqueue_op e) s n w = enqueue-IsValid e s n w
apply-IsValid (lease_op provider now max_items seconds) s n w =
    lease_due-IsValid provider now max_items seconds s w
apply-IsValid (complete_op id lease_id result at) s n w =
    settle-IsValid id _ _ (complete-IsReport lease_id result at) s w
apply-IsValid (release_op id lease_id retry_after result at) s n w =
    settle-IsValid id _ _ (release-IsReport lease_id retry_after result at) s w

-- Every run of proper calls keeps the outbox valid.
pub run-IsValid : (ops : List Op) (s : Outbox) → All IsProper ops → IsValid s → IsValid (run ops s)
unfolding run
run-IsValid [] s n w = w
run-IsValid (op ∷ ops) s n w = run-IsValid ops (apply op s) n.1 (apply-IsValid op s n.0 w)

-- Whatever sequence of calls a new outbox goes through, if the envelopes that are enqueued are
-- new ones, enqueue never fails on an entry of its own idempotency index.
pub run-enqueue-ne-key_error :
    (depth : Option ℕ) (ops : List Op) (e : DeliveryEnvelope)
    → All IsProper ops
    → (enqueue e (run ops (new_outbox depth))).1 ≢ raise key_error
run-enqueue-ne-key_error depth ops e n =
    enqueue-ne-key_error e (run ops (new_outbox depth))
      (run-IsValid ops (new_outbox depth) n (new_outbox-IsValid depth))

-- Whatever sequence of enqueue, lease_due, complete and release calls a new outbox goes
-- through, if the envelopes that are enqueued are new ones, then two stored items that hold the
-- same lease are one item.
pub run_exclusive :
    (depth : Option ℕ) (ops : List Op) (i j l : Text) (a b : DeliveryEnvelope)
    → All IsProper ops
    → lookup i (run ops (new_outbox depth)).items ≡ some a
    → lookup j (run ops (new_outbox depth)).items ≡ some b
    → a.lease_id ≡ some l
    → b.lease_id ≡ some l
    → i ≡ j
run_exclusive depth ops i j l a b n ha hb =
    (run-IsValid ops (new_outbox depth) n (new_outbox-IsValid depth)).exclusive i j a b l ha hb

-- The call does not store another item under this id.
abbrev pub Spares : Text → Op → Type 0
Spares id (enqueue_op e) = e.delivery_id ≢ id
Spares id _ = Unit

Moves-not_terminal : {s t : DeliveryStatus} → Moves s t → is_terminal s ≡ false
Moves-not_terminal take = refl
Moves-not_terminal retake = refl
Moves-not_terminal retry = refl
Moves-not_terminal exhaust = refl
Moves-not_terminal (finish h) = refl

terminal_stays : (a b : DeliveryEnvelope) → is_terminal a.status ≡ true → Evolves a b → b ≡ a
terminal_stays a b h (stays e) = e
terminal_stays a b h (follows f) = cc (Moves-not_terminal f.moves)

apply_terminal :
    (op : Op) (s : Outbox) (id : Text) (e : DeliveryEnvelope)
    → IsValid s
    → Spares id op
    → is_terminal e.status ≡ true
    → lookup id s.items ≡ some e
    → lookup id (apply op s).items ≡ some e
unfolding apply complete release result_fingerprint
apply_terminal (enqueue_op new) s id e w other h found = go (enqueue new s) (enqueue_cases new s)
  where
    go :
        (after : Outcome DeliveryEnvelope) → Enqueued new s after → lookup id after.0.items ≡ some e
    go after (same p _) = rw p found
    go after (lost _ _ _ p) = rw p found
    go after (added room p) = rw p (lookup-insert_ne new.delivery_id id new s.items other ∙ found)
apply_terminal (lease_op provider now max_items seconds) s id e w other h found =
    let kept = lease_due-Kept provider now seconds max_items s w id e found in
    kept.stored ∙ ap some (terminal_stays e kept.now_is h kept.evolves)
apply_terminal (complete_op i lease_id result at) s id e w other h found =
    let (e', stored, evolves, _) =
      settle-Evolves i _ _ (complete-IsReport lease_id result at) s id e found in
    stored ∙ ap some (terminal_stays e e' h evolves)
apply_terminal (release_op i lease_id retry_after result at) s id e w other h found =
    let (e', stored, evolves, _) =
      settle-Evolves i _ _ (release-IsReport lease_id retry_after result at) s id e found in
    stored ∙ ap some (terminal_stays e e' h evolves)

-- In a valid outbox an item that has come to an end stays as it is through every sequence of
-- calls that enqueues new envelopes only, none of them under the id of the item.
pub run_terminal :
    (ops : List Op) (s : Outbox) (id : Text) (e : DeliveryEnvelope)
    → All IsProper ops
    → All (Spares id) ops
    → IsValid s
    → is_terminal e.status ≡ true
    → lookup id s.items ≡ some e
    → lookup id (run ops s).items ≡ some e
unfolding run
run_terminal [] s id e n spares w h found = found
run_terminal (op ∷ ops) s id e n spares w h found =
    run_terminal ops (apply op s) id e n.1 spares.1 (apply-IsValid op s n.0 w) h
      (apply_terminal op s id e w spares.0 h found)

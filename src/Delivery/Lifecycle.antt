-- ===== src/Delivery/Lifecycle.antt =====
-- What the transitions of iris/contracts/delivery_transitions.py do to one item: the moves between
-- statuses, the fields that stay, and the coherence of an item's lease fields.
use iris_mind_v.Prelude.{
  ℕ, ◌+◌, ◌≤◌, ◌<◌, ◌≡◌, refl, ◌⊎◌, inl, inr, Text, text_eq, option_eq, Option, none, true, false,
  ok, arith, is_some,
}
use iris_mind_v.Delivery.Types.{
  Time, DeliveryStatus, pending, leased, failed_permanent, is_terminal, is_leased, ActionResult,
  DeliveryEnvelope,
}
use iris_mind_v.Delivery.Transitions.{
  complete_delivery, release_delivery, fail_exhausted_delivery, lease_delivery, is_delivery_due,
}

-- The moves that an item may make once it is stored.
pub data Moves : DeliveryStatus → DeliveryStatus → Type 0 where
  take : Moves pending leased
  retake : Moves leased leased
  retry : Moves leased pending
  exhaust : Moves pending failed_permanent
  finish : {s : DeliveryStatus} → is_terminal s ≡ true → Moves leased s

-- The fields that no transition changes.
pub record SameItem (a b : DeliveryEnvelope) : Type 0 where
  pub delivery_id : b.delivery_id ≡ a.delivery_id
  pub action : b.action ≡ a.action
  pub target : b.target ≡ a.target
  pub created_at : b.created_at ≡ a.created_at
  pub max_attempts : b.max_attempts ≡ a.max_attempts
  pub idempotency_key : b.idempotency_key ≡ a.idempotency_key
  pub source : b.source_observation_id ≡ a.source_observation_id

-- An attempt is counted exactly when the item is leased.
abbrev pub attempts_after : DeliveryStatus → ℕ → ℕ
attempts_after leased n = n + 1
attempts_after _ n = n

pub record Follows (a b : DeliveryEnvelope) : Type 0 where
  pub moves : Moves a.status b.status
  pub same : SameItem a b
  pub attempts : b.attempts ≡ attempts_after b.status a.attempts

pub data Evolves (a b : DeliveryEnvelope) : Type 0 where
  stays : b ≡ a → Evolves a b
  follows : Follows a b → Evolves a b

-- An item keeps to its attempts, and holds a lease with an end exactly when it is leased.
pub record IsSound (e : DeliveryEnvelope) : Type 0 where
  pub within : e.attempts ≤ e.max_attempts
  pub held : is_some e.lease_id ≡ is_leased e.status
  pub ends : is_some e.lease_expires_at ≡ is_leased e.status

Moves-finish : (s t : DeliveryStatus) → s ≡ leased → is_terminal t ≡ true → Moves s t
Moves-finish s t h k = rw h (finish k)

Moves-settle :
    (s t : DeliveryStatus) → s ≡ leased → (is_terminal t ≡ true) ⊎ (t ≡ pending) → Moves s t
Moves-settle s t h (inl k) = Moves-finish s t h k
Moves-settle s t h (inr k) = rw (h, k) retry

Moves-lease : (s : DeliveryStatus) → is_terminal s ≡ false → Moves s leased
Moves-lease pending h = take
Moves-lease leased h = retake
Moves-lease _ h = cc

Moves-exhaust : (s : DeliveryStatus) → is_terminal s ≡ false → Moves s failed_permanent
Moves-exhaust pending h = exhaust
Moves-exhaust leased h = finish refl
Moves-exhaust _ h = cc

module _ (item : DeliveryEnvelope) {after : DeliveryEnvelope} where
  pub complete_delivery-Follows :
      (lease_id : Option Text) (result : ActionResult) (at : Time)
      → complete_delivery item lease_id result at ≡ ok after
      → Follows item after
  unfolding complete_delivery
  complete_delivery-Follows lease_id result at h = record {
    moves = Moves-finish item.status after.status (ground arith) (ground arith);
    same = ground arith;
    attempts = ground arith;
  }

  pub complete_delivery-IsSound :
      (lease_id : Option Text) (result : ActionResult) (at : Time)
      → IsSound item
      → complete_delivery item lease_id result at ≡ ok after
      → IsSound after
  unfolding complete_delivery
  complete_delivery-IsSound lease_id result at w h = ground arith

  pub release_delivery-IsSound :
      (lease_id : Option Text) (retry_after : Time) (result : ActionResult) (at : Time)
      → IsSound item
      → release_delivery item lease_id retry_after result at ≡ ok after
      → IsSound after
  unfolding release_delivery
  release_delivery-IsSound lease_id retry_after result at w h = ground arith

  pub release_delivery-Follows :
      (lease_id : Option Text) (retry_after : Time) (result : ActionResult) (at : Time)
      → release_delivery item lease_id retry_after result at ≡ ok after
      → Follows item after
  unfolding release_delivery
  release_delivery-Follows lease_id retry_after result at h = record {
    moves = Moves-settle item.status after.status (ground arith) (ground arith);
    same = ground arith;
    attempts = ground arith;
  }

-- Reporting on an item that is not leased, or under another lease, is refused.
pub complete_delivery_leased :
    (item : DeliveryEnvelope) (lease_id : Option Text) (result : ActionResult) (at : Time)
    {after : DeliveryEnvelope}
    → complete_delivery item lease_id result at ≡ ok after
    → (item.status ≡ leased) × (item.lease_id ≡ lease_id) × (after.lease_id ≡ none)
unfolding complete_delivery
complete_delivery_leased item lease_id result at h = ground arith

pub release_delivery_leased :
    (item : DeliveryEnvelope) (lease_id : Option Text) (retry_after : Time) (result : ActionResult)
    (at : Time) {after : DeliveryEnvelope}
    → release_delivery item lease_id retry_after result at ≡ ok after
    → (item.status ≡ leased) × (item.lease_id ≡ lease_id) × (after.lease_id ≡ none)
unfolding release_delivery
release_delivery_leased item lease_id retry_after result at h = ground arith

module _ (item : DeliveryEnvelope) (now : Time) where
  due_not_terminal : is_delivery_due item now ≡ true → is_terminal item.status ≡ false
  unfolding is_delivery_due
  due_not_terminal h = ground arith

  pub lease_delivery-Follows :
      (lease_id : Text) (seconds : ℕ)
      → is_delivery_due item now ≡ true
      → Follows item (lease_delivery item lease_id now seconds item.not_before)
  unfolding lease_delivery
  lease_delivery-Follows lease_id seconds h = record {
    moves = Moves-lease item.status (due_not_terminal h);
    same = ground arith;
    attempts = refl;
  }

  pub fail_exhausted_delivery-Follows :
      (reason : Text)
      → is_delivery_due item now ≡ true
      → Follows item (fail_exhausted_delivery item now reason)
  unfolding fail_exhausted_delivery
  fail_exhausted_delivery-Follows reason h = record {
    moves = Moves-exhaust item.status (due_not_terminal h);
    same = ground arith;
    attempts = refl;
  }

  pub lease_delivery-IsSound :
      (lease_id : Text) (seconds : ℕ)
      → item.attempts < item.max_attempts
      → IsSound (lease_delivery item lease_id now seconds item.not_before)
  unfolding lease_delivery
  lease_delivery-IsSound lease_id seconds h = ground arith

  pub fail_exhausted_delivery-IsSound :
      (reason : Text) → IsSound item → IsSound (fail_exhausted_delivery item now reason)
  unfolding fail_exhausted_delivery
  fail_exhausted_delivery-IsSound reason w = ground arith

-- ===== src/Delivery/Outbox.antt =====
-- iris/runtime/delivery/in_memory.py: the process-local outbox. A method takes the state and
-- returns the new state beside its result; the state outlives an exception.
use iris_mind_v.Prelude.{
  ℕ, ◌+◌, Text, text, decimal, text_le, is_empty, Option, none, some, Eq, text_eq, option_eq, ◌==◌,
  Bool, true, false, not, ◌&&◌, ◌||◌, leb, ltb, if◌then◌else◌, Result, ok, raise, List, [], ◌∷◌,
  ◌++◌, length, count, elem, sorted, ℕ_discrete,
}
use iris_mind_v.Prelude.Dict.{Dict, values, lookup, insert}
use iris_mind_v.Delivery.Types.{
  Time, is_terminal, is_leased, is_no_action, ActionStatus, ActionStatus-discrete, ActionResult,
  DeliveryEnvelope, DeliveryOutboxError, no_action_not_deliverable, idempotency_key_required,
  outbox_depth_exceeded, delivery_not_found, delivery_report_conflict, key_error,
}
use iris_mind_v.Delivery.Transitions.{
  complete_delivery, release_delivery, fail_exhausted_delivery, lease_delivery, is_delivery_due,
}

-- `_ReportFingerprint`, a tuple in the source.
pub record ReportFingerprint : Type 0 where
  pub delivery_id : Text
  pub lease_id : Option Text
  pub action_id : Text
  pub correlation_id : Text
  pub status : ActionStatus
  pub external_message_id : Option Text
  pub error_reason : Option Text

pub ReportFingerprint-discrete : Discrete ReportFingerprint
ReportFingerprint-discrete = hlevel (ℕ_discrete, ActionStatus-discrete)

instance abbrev pub fingerprint_eq : Eq ReportFingerprint
fingerprint_eq = record { dec = ReportFingerprint-discrete }

pub record Outbox : Type 0 where
  pub max_depth_per_provider : Option ℕ
  pub items : Dict Text DeliveryEnvelope
  pub idempotency_index : Dict Text Text
  pub report_index : Dict Text (List ReportFingerprint)
  pub lease_counter : ℕ

-- A method's result, with the state in which it leaves the outbox.
abbrev pub Outcome : Type 0 → Type 0
Outcome A = Outbox × Result DeliveryOutboxError A

-- `InMemoryDeliveryOutbox()`
unfoldable pub new_outbox : Option ℕ → Outbox
new_outbox max_depth = record {
  max_depth_per_provider = max_depth;
  items = [];
  idempotency_index = [];
  report_index = [];
  lease_counter = 0;
}

-- The items that the depth limit counts for a provider.
unfoldable pub is_active_for : Text → DeliveryEnvelope → Bool
is_active_for provider item = item.target.provider == provider && not (is_terminal item.status)

unfoldable pub depth_exceeded : Outbox → Text → Bool
unfolding is_active_for
depth_exceeded s provider = elim s.max_depth_per_provider [
  | none ↦ false
  | some depth ↦ leb depth (count (is_active_for provider) (values s.items))
]

-- `self._items[existing_id]`
unfoldable pub stored_item : Outbox → Text → Outcome DeliveryEnvelope
stored_item s existing_id = elim (lookup existing_id s.items) [
  | some item ↦ (s, ok item)
  | none ↦ (s, raise key_error)
]

unfoldable pub enqueue : DeliveryEnvelope → Outbox → Outcome DeliveryEnvelope
unfolding stored_item depth_exceeded
enqueue envelope s =
    if is_no_action envelope.action
    then (s, raise no_action_not_deliverable)
    else if is_empty envelope.idempotency_key
    then (s, raise idempotency_key_required)
    else elim (lookup envelope.idempotency_key s.idempotency_index) [
      | some existing_id ↦ stored_item s existing_id
      | none ↦
          if depth_exceeded s envelope.target.provider then (s, raise outbox_depth_exceeded) else (
            record s {
              items = insert envelope.delivery_id envelope s.items;
              idempotency_index =
                  insert envelope.idempotency_key envelope.delivery_id s.idempotency_index;
            },
            ok envelope,
          )
    ]

unfoldable pub lease_name : ℕ → Text
lease_name n = text "lease-" ++ decimal n

unfoldable pub lease_item :
    (item : DeliveryEnvelope) (now : Time) (lease_seconds : ℕ) → Outbox → Outbox × DeliveryEnvelope
lease_item item now lease_seconds s =
    let failed = fail_exhausted_delivery item now (text "max_attempts_exceeded") in
    let counter = s.lease_counter + 1 in
    if leb item.max_attempts item.attempts
    then (record s { items = insert item.delivery_id failed s.items }, failed)
    else (
      record s { lease_counter = counter },
      lease_delivery item (lease_name counter) now lease_seconds item.not_before,
    )

-- The body of the `for` loop of `lease_due`, behind its `break`.
unfoldable pub lease_visit :
    (provider : Text) (now : Time) (lease_seconds : ℕ)
    → DeliveryEnvelope
    → Outbox × List DeliveryEnvelope
    → Outbox × List DeliveryEnvelope
unfolding lease_item
lease_visit provider now lease_seconds item (s, due) =
    let (s', leased) = lease_item item now lease_seconds s in
    if not (item.target.provider == provider) || not (is_delivery_due item now) then (s, due) else (
      record s' { items = insert leased.delivery_id leased s'.items },
      if is_leased leased.status then due ++ leased ∷ [] else due,
    )

unfoldable pub lease_loop :
    (provider : Text) (now : Time) (max_items lease_seconds : ℕ)
    → List DeliveryEnvelope
    → Outbox × List DeliveryEnvelope
    → Outbox × List DeliveryEnvelope
lease_loop provider now max_items lease_seconds [] acc = acc
lease_loop provider now max_items lease_seconds (item ∷ rest) acc =
    let next =
      lease_loop provider now max_items lease_seconds rest
        (lease_visit provider now lease_seconds item acc) in
    if leb max_items (length acc.1) then acc else next

-- `key(a) <= key(b)` for `_envelope_sort_key`
unfoldable pub envelope_key_le : DeliveryEnvelope → DeliveryEnvelope → Bool
envelope_key_le a b =
    if ltb a.created_at b.created_at
    then true
    else if ltb b.created_at a.created_at
    then false
    else text_le a.delivery_id b.delivery_id

unfoldable pub lease_due :
    (provider : Text) (now : Time) (max_items lease_seconds : ℕ)
    → Outbox
    → Outbox × List DeliveryEnvelope
lease_due provider now max_items lease_seconds s =
    lease_loop provider now max_items lease_seconds (sorted envelope_key_le (values s.items))
      (s, [])

-- `_get`, and the method `get`
unfoldable pub get : Text → Outbox → Result DeliveryOutboxError DeliveryEnvelope
get delivery_id s = elim (lookup delivery_id s.items) [
  | some item ↦ ok item
  | none ↦ raise delivery_not_found
]

pub data ReportOutcome : Type 0 where
  idempotent conflict new : ReportOutcome

unfoldable pub has_lease : Option Text → List ReportFingerprint → Bool
has_lease lease_id [] = false
has_lease lease_id (fingerprint ∷ history) =
    fingerprint.lease_id == lease_id || has_lease lease_id history

unfoldable pub classify_report : List ReportFingerprint → ReportFingerprint → ReportOutcome
classify_report history current =
    if elem current history
    then idempotent
    else if has_lease current.lease_id history
    then conflict
    else new

unfoldable pub result_fingerprint : Text → Option Text → ActionResult → ReportFingerprint
result_fingerprint delivery_id lease_id result = record {
  delivery_id = delivery_id;
  lease_id = lease_id;
  action_id = result.action_id;
  correlation_id = result.correlation_id;
  status = result.status;
  external_message_id = result.external_message_id;
  error_reason = result.error_reason;
}

-- `self._report_index.get(delivery_id, frozenset())`
unfoldable pub history_of : Text → Outbox → List ReportFingerprint
history_of delivery_id s = elim (lookup delivery_id s.report_index) [
  | some history ↦ history
  | none ↦ []
]

-- The common course of `complete` and `release`: `next` is the transition that they apply.
unfoldable pub settle :
    (delivery_id : Text) (current : ReportFingerprint)
    (next : DeliveryEnvelope → Result DeliveryOutboxError DeliveryEnvelope)
    → Outbox
    → Outcome DeliveryEnvelope
unfolding get
settle delivery_id current next s = elim (get delivery_id s) [
  | raise e ↦ (s, raise e)
  | ok item ↦
      let history = history_of delivery_id s in
      elim (classify_report history current) [
        | idempotent ↦ (s, ok item)
        | conflict ↦ (s, raise delivery_report_conflict)
        | new ↦ elim (next item) [
          | raise e ↦ (s, raise e)
          | ok updated ↦ (
            record s {
              items = insert delivery_id updated s.items;
              report_index = insert delivery_id (current ∷ history) s.report_index;
            },
            ok updated,
          )
        ]
      ]
]

unfoldable pub complete :
    (delivery_id : Text) (lease_id : Option Text) (result : ActionResult) (completed_at : Time)
    → Outbox
    → Outcome DeliveryEnvelope
unfolding settle
complete delivery_id lease_id result completed_at =
    settle delivery_id (result_fingerprint delivery_id lease_id result)
      (λ item. complete_delivery item lease_id result completed_at)

unfoldable pub release :
    (delivery_id : Text) (lease_id : Option Text) (retry_after : Time) (result : ActionResult)
    (released_at : Time)
    → Outbox
    → Outcome DeliveryEnvelope
unfolding settle
release delivery_id lease_id retry_after result released_at =
    settle delivery_id (result_fingerprint delivery_id lease_id result)
      (λ item. release_delivery item lease_id retry_after result released_at)

-- ===== src/Review/Store.antt =====
-- iris/runtime/state/memory_candidates.py: the in-memory store of memory candidates that wait for
-- their review. The candidate itself, which the store does not look at, is a parameter; the lock
-- makes each method one step.
use iris_mind_v.Prelude.{
  ℤ, pos, greater, natural, take, select, Text, text, text_eq, text_le, option_eq, Option, none,
  some, Eq, ◌==◌, Bool, true, false, ◌&&◌, ltb, if◌then◌else◌, List, [], Result, ok, raise, sorted,
}
use iris_mind_v.Prelude.Dict.{Dict, values, lookup, insert}
use iris_mind_v.Delivery.Types.{Time}
use iris_mind_v.Model.{Metadata}

pub data MemoryCandidateReviewStatus : Type 0 where
  pending_review approved rejected discarded : MemoryCandidateReviewStatus

pub data ReviewCandidateStatus : Type 0 where
  pending_review approved rejected discarded : ReviewCandidateStatus

pub data ReviewCandidateType : Type 0 where
  memory shared_episodic_memory persona_patch relationship internal_state : ReviewCandidateType
  consolidation interaction_policy : ReviewCandidateType

unfoldable pub ReviewCandidateType-discrete : Discrete ReviewCandidateType
ReviewCandidateType-discrete = hlevel

instance abbrev pub candidate_type_eq : Eq ReviewCandidateType
candidate_type_eq = record { dec = ReviewCandidateType-discrete }

-- `record.status.value`
abbrev pub record_status_value : MemoryCandidateReviewStatus → Text
record_status_value pending_review = text "pending_review"
record_status_value approved = text "approved"
record_status_value rejected = text "rejected"
record_status_value discarded = text "discarded"

-- `query.status.value`
abbrev pub query_status_value : ReviewCandidateStatus → Text
query_status_value pending_review = text "pending_review"
query_status_value approved = text "approved"
query_status_value rejected = text "rejected"
query_status_value discarded = text "discarded"

-- `ReviewCandidateStatus(status.value)`
abbrev pub query_status : MemoryCandidateReviewStatus → ReviewCandidateStatus
query_status pending_review = pending_review
query_status approved = approved
query_status rejected = rejected
query_status discarded = discarded

pub record MemoryCandidateReviewRecord (C : Type 0) : Type 0 where
  pub candidate_id : Text
  pub candidate : C
  pub created_at : Time
  pub updated_at : Time
  pub idempotency_key : Text
  pub status : MemoryCandidateReviewStatus
  pub candidate_type : ReviewCandidateType
  pub actor_id : Option Text
  pub account_id : Option Text
  pub space_id : Option Text
  pub source_observation_id : Option Text
  pub reviewed_at : Option Time
  pub reviewed_by : Option Text
  pub review_reason : Option Text
  pub promoted_memory_id : Option Text
  pub metadata : Metadata

pub record MemoryCandidateReviewUpdate : Type 0 where
  pub status : MemoryCandidateReviewStatus
  pub updated_at : Time
  pub reviewed_at : Option Time
  pub reviewed_by : Option Text
  pub review_reason : Option Text
  pub promoted_memory_id : Option Text

pub record ReviewCandidateFilter : Type 0 where
  pub status : Option ReviewCandidateStatus
  pub candidate_type : Option ReviewCandidateType
  pub actor_id : Option Text
  pub account_id : Option Text
  pub space_id : Option Text
  pub limit : ℤ

-- Python's `KeyError`, which the store does not catch, and the `ValueError` of a limit below 1.
pub data ReviewStoreError : Type 0 where
  key_error value_error : ReviewStoreError

-- `update.x if update.x is not None else record.x`
abbrev pub new_or_old {ℓ} : {A : Type ℓ} → Option A → Option A → Option A
new_or_old (some x) old = some x
new_or_old none old = old

-- `wanted is None or actual == wanted`
abbrev pub admits {ℓ} : {A : Type ℓ} ⦃e : Eq A⦄ → Option A → Option A → Bool
admits none actual = true
admits (some wanted) actual = actual == some wanted

abbrev pub status_admits : Option ReviewCandidateStatus → MemoryCandidateReviewStatus → Bool
status_admits none status = true
status_admits (some wanted) status = record_status_value status == query_status_value wanted

pub record Store (C : Type 0) : Type 0 where
  pub records : Dict Text (MemoryCandidateReviewRecord C)
  pub idempotency_keys : Dict Text Text

module _ {C : Type 0} where
  -- `InMemoryMemoryCandidateReviewStore()`
  unfoldable pub new_store : Store C
  new_store = record { records = []; idempotency_keys = [] }

  -- `raise key_error` is the failure of `self._records[existing_id]`.
  unfoldable pub add :
      MemoryCandidateReviewRecord C
      → Store C
      → Store C × Result ReviewStoreError (MemoryCandidateReviewRecord C)
  add new s = elim (lookup new.candidate_id s.records) [
    | some existing ↦ (s, ok existing)
    | none ↦ elim (lookup new.idempotency_key s.idempotency_keys) [
      | some existing_id ↦ elim (lookup existing_id s.records) [
        | some existing ↦ (s, ok existing)
        | none ↦ (s, raise key_error)
      ]
      | none ↦ (
        record {
          records = insert new.candidate_id new s.records;
          idempotency_keys = insert new.idempotency_key new.candidate_id s.idempotency_keys;
        },
        ok new,
      )
    ]
  ]

  unfoldable pub get : (candidate_id : Text) → Store C → Option (MemoryCandidateReviewRecord C)
  get id s = lookup id s.records

  unfoldable pub matches_filter : ReviewCandidateFilter → MemoryCandidateReviewRecord C → Bool
  matches_filter query r =
      status_admits query.status r.status
      && admits query.candidate_type (some r.candidate_type)
      && admits query.actor_id r.actor_id
      && admits query.account_id r.account_id
      && admits query.space_id r.space_id

  -- The order of `(record.created_at, str(record.candidate_id))`
  unfoldable pub record_key_le :
      MemoryCandidateReviewRecord C → MemoryCandidateReviewRecord C → Bool
  record_key_le a b =
      if ltb a.created_at b.created_at
      then true
      else if ltb b.created_at a.created_at
      then false
      else text_le a.candidate_id b.candidate_id

  unfoldable pub list_by_filter :
      ReviewCandidateFilter
      → Store C
      → Result ReviewStoreError (List (MemoryCandidateReviewRecord C))
  list_by_filter query s =
      if greater (pos 1) query.limit
      then raise value_error
      else ok (
          take (natural query.limit)
            (sorted record_key_le (select (matches_filter query) (values s.records))))

  unfoldable pub list_by_status :
      MemoryCandidateReviewStatus
      → (actor_id account_id space_id : Option Text) → (limit : ℤ) → Store C
      → Result ReviewStoreError (List (MemoryCandidateReviewRecord C))
  list_by_status status actor_id account_id space_id limit = list_by_filter (record {
    status = some (query_status status);
    candidate_type = none;
    actor_id = actor_id;
    account_id = account_id;
    space_id = space_id;
    limit = limit;
  })

  unfoldable pub list_pending :
      (actor_id account_id space_id : Option Text)
      → (limit : ℤ) → Store C
      → Result ReviewStoreError (List (MemoryCandidateReviewRecord C))
  list_pending = list_by_status pending_review

  unfoldable pub updated_record :
      MemoryCandidateReviewUpdate → MemoryCandidateReviewRecord C → MemoryCandidateReviewRecord C
  updated_record update r = record r {
    status = update.status;
    updated_at = update.updated_at;
    reviewed_at = new_or_old update.reviewed_at r.reviewed_at;
    reviewed_by = new_or_old update.reviewed_by r.reviewed_by;
    review_reason = new_or_old update.review_reason r.review_reason;
    promoted_memory_id = new_or_old update.promoted_memory_id r.promoted_memory_id;
  }

  unfoldable pub update_review :
      (candidate_id : Text)
      → MemoryCandidateReviewUpdate
      → Store C
      → Store C × Option (MemoryCandidateReviewRecord C)
  update_review id update s = elim (lookup id s.records) [
    | none ↦ (s, none)
    | some r ↦
        let updated = updated_record update r in
        (record s { records = insert id updated s.records }, some updated)
  ]

  unfoldable pub update_status :
      (candidate_id : Text)
      → MemoryCandidateReviewStatus
      → (updated_at : Time) → Store C
      → Store C × Option (MemoryCandidateReviewRecord C)
  update_status id status at = update_review id (record {
    status = status;
    updated_at = at;
    reviewed_at = none;
    reviewed_by = none;
    review_reason = none;
    promoted_memory_id = none;
  })

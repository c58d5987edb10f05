-- ===== src/Review/Tests.antt =====
-- The store of candidates on concrete records.
use iris_mind_v.Prelude.{
  ℕ, pos, ◌≡◌, refl, Text, text, none, some, List, [], ◌∷◌, ok, raise, map, Result, sorted, select,
  List-discrete, Option-discrete, ℕ_discrete,
}
use iris_mind_v.Prelude.Dict.{lookup, insert, values}
use iris_mind_v.Delivery.Types.{Time}
use iris_mind_v.Review.Store.{
  pending_review, approved, memory, ReviewCandidateType-discrete, MemoryCandidateReviewRecord,
  ReviewCandidateFilter, ReviewStoreError, new_store, add, list_by_filter, matches_filter,
  update_status, update_review, updated_record, record_key_le,
}
use iris_mind_v.Review.Valid.{Op, add_op, status_op, apply, run}
use iris_mind_v.Review.Listing.{IsListing, run-list_by_filter}

abbrev note : (id key : Text) (at : Time) → MemoryCandidateReviewRecord ℕ
note id key at = record {
  candidate_id = id;
  candidate = 7;
  created_at = at;
  updated_at = at;
  idempotency_key = key;
  status = pending_review;
  candidate_type = memory;
  actor_id = some (text "ann");
  account_id = none;
  space_id = none;
  source_observation_id = none;
  reviewed_at = none;
  reviewed_by = none;
  review_reason = none;
  promoted_memory_id = none;
  metadata = [];
}

abbrev calls : List (Op ℕ)
calls =
    add_op (note (text "c2") (text "k2") 20)
    ∷ add_op (note (text "c1") (text "k1") 10)
    ∷ add_op (note (text "c3") (text "k1") 5)
    ∷ add_op (note (text "c4") (text "k4") 40)
    ∷ status_op (text "c4") approved 50
    ∷ []

abbrev by_ann : ReviewCandidateFilter
by_ann = record {
  status = some pending_review;
  candidate_type = some memory;
  actor_id = some (text "ann");
  account_id = none;
  space_id = none;
  limit = pos 5;
}

abbrev ids : Result ReviewStoreError (List (MemoryCandidateReviewRecord ℕ)) → List Text
ids (ok listed) = map (λ r. r.candidate_id) listed
ids (raise e) = []

pending_ids : ids (list_by_filter by_ann (run calls new_store)) ≡ text "c1" ∷ text "c2" ∷ []
unfolding list_by_filter sorted select values run apply update_status update_review lookup add
    new_store insert List-discrete ℕ_discrete matches_filter Option-discrete
    ReviewCandidateType-discrete updated_record record_key_le
pending_ids = refl

run-list_by_filter_example :
    (listed : List (MemoryCandidateReviewRecord ℕ)) × (list_by_filter by_ann (run calls new_store)
      ≡ ok listed)
    × IsListing by_ann (run calls new_store) listed
run-list_by_filter_example = run-list_by_filter calls by_ann refl

-- ===== src/Review/Listing.antt =====
-- What the store of candidates lists (`list_by_filter` of iris/runtime/state/memory_candidates.py).
use iris_mind_v.Prelude.{
  ℤ, pos, negsuc, greater, natural, min, take, length, count, select, All, All-map, ◌≡◌, refl, ◌∙◌,
  ap, ◌⊎◌, text_eq, text_le_total, text_le_trans, arith, some, true, false, List, ok, sorted,
  IsSorted, sorted-IsSorted, sorted-All, sorted-All_inv, length-sorted, length-take, take-All,
  take-IsSorted, IsInOrAfter, take-IsInOrAfter, length-select, select-All, select-All_inv,
}
use iris_mind_v.Prelude.Dict.{values, lookup, values-lookup}
use iris_mind_v.Review.Store.{
  MemoryCandidateReviewRecord, ReviewCandidateFilter, Store, new_store, matches_filter,
  record_key_le, list_by_filter,
}
use iris_mind_v.Review.Filter.{Passes, matches_filter-Passes, Passes-matches_filter}
use iris_mind_v.Review.Valid.{Op, run, id_of, IsValid, new_store-IsValid, run_store-IsValid}

limit_ok : (limit : ℤ) → greater limit (pos 0) ≡ true → greater (pos 1) limit ≡ false
limit_ok (pos n) h = ground arith
limit_ok (negsuc n) h = cc

module _ {C : Type 0} where
  module _ (a b : MemoryCandidateReviewRecord C) where
    record_key_le_total : (record_key_le a b ≡ true) ⊎ (record_key_le b a ≡ true)
    unfolding record_key_le
    record_key_le_total = ground (arith, text_le_total a.candidate_id b.candidate_id)

    record_key_le_trans :
        (c : MemoryCandidateReviewRecord C)
        → record_key_le a b ≡ true
        → record_key_le b c ≡ true
        → record_key_le a c ≡ true
    unfolding record_key_le
    record_key_le_trans c h k =
        ground (arith, text_le_trans a.candidate_id b.candidate_id c.candidate_id)

  -- The first records that the filter selects, at most as many as its limit, oldest first and by
  -- id where that is the same.
  pub record IsListing (query : ReviewCandidateFilter) (s : Store C)
      (listed : List (MemoryCandidateReviewRecord C)) : Type 0 where
    pub in_order : IsSorted record_key_le listed
    pub each : All (λ r. (lookup r.candidate_id s.records ≡ some r) × Passes query r) listed
    pub number :
        length listed ≡ min (natural query.limit) (count (matches_filter query) (values s.records))
    pub first : All (λ r. Passes query r → IsInOrAfter record_key_le listed r) (values s.records)

  first_matches-IsListing :
      (query : ReviewCandidateFilter) (s : Store C)
      → IsValid s
      → IsListing query s (
          take
            (natural query.limit)
            (sorted record_key_le (select (matches_filter query) (values s.records))))
  first_matches-IsListing query s w =
      let fits = matches_filter query in
      let n = natural query.limit in
      let chosen = select fits (values s.records) in
      let ordered : IsSorted record_key_le (sorted record_key_le chosen) =
        sorted-IsSorted record_key_le record_key_le_total record_key_le_trans chosen in
      record {
        in_order = take-IsSorted record_key_le n (sorted record_key_le chosen) ordered;
        each =
            All-map (λ r t. (t.0, matches_filter-Passes query r t.1)) _
              (take-All _ n (sorted record_key_le chosen) (
                sorted-All record_key_le _ chosen
                  (select-All fits _ (values s.records) (values-lookup id_of s.records w.keyed))));
        number =
            length-take n (sorted record_key_le chosen)
            ∙ ap (min n)
                (length-sorted record_key_le chosen ∙ length-select fits (values s.records));
        first =
            All-map (λ r f p. f (Passes-matches_filter query r p)) (values s.records)
              (select-All_inv fits _ (values s.records) (
                sorted-All_inv record_key_le _ chosen
                  (take-IsInOrAfter record_key_le n (sorted record_key_le chosen) ordered)));
      }

  -- Whatever sequence of add, update_review and update_status calls a new store of candidates
  -- goes through, list_by_filter with a positive limit answers with a listing that is sorted by
  -- the time of creation and then by id, holds only stored records that pass the filter, has as
  -- many records as pass it or as the limit allows if that is less, and leaves out a record
  -- that passes only if it comes after all those that are listed.
  pub run-list_by_filter :
      (ops : List (Op C)) (query : ReviewCandidateFilter)
      → greater query.limit (pos 0) ≡ true
      → (listed : List (MemoryCandidateReviewRecord C)) × (list_by_filter query (run ops new_store)
          ≡ ok listed)
        × IsListing query (run ops new_store) listed
  unfolding list_by_filter
  run-list_by_filter ops query h =
      let s = run ops new_store in
      (
        _,
        rw (limit_ok query.limit h) refl,
        first_matches-IsListing query s (run_store-IsValid ops new_store new_store-IsValid),
      )

-- ===== src/Review/Filter.antt =====
-- What it means to pass the filter of the store of candidates (`_matches_filter` of
-- iris/runtime/state/memory_candidates.py).
use iris_mind_v.Prelude.{
  ◌≡◌, refl, ap, ◌∙◌, text_eq, arith, Option, none, some, option_eq, Eq, ==_iff, true,
  List-discrete, ℕ_discrete,
}
use iris_mind_v.Review.Store.{
  MemoryCandidateReviewStatus, ReviewCandidateStatus, pending_review, approved, rejected, discarded,
  candidate_type_eq, query_status, admits, status_admits, MemoryCandidateReviewRecord,
  ReviewCandidateFilter, matches_filter,
}

-- The record has each property that the filter asks for.
pub record Passes {C : Type 0} (query : ReviewCandidateFilter) (r : MemoryCandidateReviewRecord C)
    : Type 0 where
  pub status :
      (wanted : ReviewCandidateStatus) → query.status ≡ some wanted → query_status r.status ≡ wanted
  pub candidate_type : (wanted : _) → query.candidate_type ≡ some wanted → r.candidate_type ≡ wanted
  pub actor_id : (wanted : _) → query.actor_id ≡ some wanted → r.actor_id ≡ some wanted
  pub account_id : (wanted : _) → query.account_id ≡ some wanted → r.account_id ≡ some wanted
  pub space_id : (wanted : _) → query.space_id ≡ some wanted → r.space_id ≡ some wanted

module _ {ℓ} {A : Type ℓ} ⦃e : Eq A⦄ where
  admits_sound :
      (asked actual : Option A)
      → admits asked actual ≡ true
      → (wanted : A) → asked ≡ some wanted
      → actual ≡ some wanted
  admits_sound none actual h wanted k = cc
  admits_sound (some x) actual h wanted k = (==_iff actual (some x)).0 h ∙ k

  admits_complete :
      (asked actual : Option A)
      → ((wanted : A) → asked ≡ some wanted → actual ≡ some wanted)
      → admits asked actual ≡ true
  admits_complete none actual f = refl
  admits_complete (some x) actual f = (==_iff actual (some x)).1 (f x refl)

status_sound :
    (asked : ReviewCandidateStatus) (s : MemoryCandidateReviewStatus)
    → status_admits (some asked) s ≡ true
    → query_status s ≡ asked
unfolding List-discrete ℕ_discrete
status_sound pending_review pending_review h = refl
status_sound pending_review approved h = cc
status_sound pending_review rejected h = cc
status_sound pending_review discarded h = cc
status_sound approved pending_review h = cc
status_sound approved approved h = refl
status_sound approved rejected h = cc
status_sound approved discarded h = cc
status_sound rejected pending_review h = cc
status_sound rejected approved h = cc
status_sound rejected rejected h = refl
status_sound rejected discarded h = cc
status_sound discarded pending_review h = cc
status_sound discarded approved h = cc
status_sound discarded rejected h = cc
status_sound discarded discarded h = refl

status_complete : (s : MemoryCandidateReviewStatus) → status_admits (some (query_status s)) s ≡ true
unfolding List-discrete ℕ_discrete
status_complete pending_review = refl
status_complete approved = refl
status_complete rejected = refl
status_complete discarded = refl

status_full :
    (asked : Option ReviewCandidateStatus) (s : MemoryCandidateReviewStatus)
    → ((wanted : ReviewCandidateStatus) → asked ≡ some wanted → query_status s ≡ wanted)
    → status_admits asked s ≡ true
status_full none s f = refl
status_full (some asked) s f = rw (← f asked refl) (status_complete s)

module _ {C : Type 0} (query : ReviewCandidateFilter) (r : MemoryCandidateReviewRecord C) where
  matches-parts :
      matches_filter query r ≡ true
      → (status_admits query.status r.status ≡ true)
        × (admits query.candidate_type (some r.candidate_type) ≡ true)
        × (admits query.actor_id r.actor_id ≡ true)
        × (admits query.account_id r.account_id ≡ true)
        × (admits query.space_id r.space_id ≡ true)
  unfolding matches_filter
  matches-parts h = ground arith

  pub matches_filter-Passes : matches_filter query r ≡ true → Passes query r
  matches_filter-Passes h =
      let (s, t, actor, account, space) = matches-parts h in
      record {
        status = λ wanted k. status_sound wanted r.status (rw k at s);
        candidate_type =
            λ wanted k. cc (admits_sound query.candidate_type (some r.candidate_type) t wanted k);
        actor_id = admits_sound query.actor_id r.actor_id actor;
        account_id = admits_sound query.account_id r.account_id account;
        space_id = admits_sound query.space_id r.space_id space;
      }

  pub Passes-matches_filter : Passes query r → matches_filter query r ≡ true
  unfolding matches_filter
  Passes-matches_filter p =
      let s = status_full query.status r.status p.status in
      let t =
        admits_complete query.candidate_type (some r.candidate_type)
          (λ wanted k. ap some (p.candidate_type wanted k)) in
      let actor = admits_complete query.actor_id r.actor_id p.actor_id in
      let account = admits_complete query.account_id r.account_id p.account_id in
      let space = admits_complete query.space_id r.space_id p.space_id in
      ground (arith, s, t, actor, account, space)

-- ===== src/Review/Valid.antt =====
-- Sequences of calls of the store of candidates (iris/runtime/state/memory_candidates.py).
use iris_mind_v.Prelude.{
  ◌≡◌, refl, ap, ◌∙◌, ◌⊎◌, inl, inr, Text, text_eq, arith, Option, none, some, List, [], ◌∷◌, ok,
  Option-cases,
}
use iris_mind_v.Prelude.Dict.{
  insert-Every, lookup, insert, lookup-insert, lookup-insert_self, IsKeyed, insert-IsKeyed,
  key-lookup,
}
use iris_mind_v.Delivery.Types.{Time}
use iris_mind_v.Review.Store.{
  MemoryCandidateReviewStatus, MemoryCandidateReviewRecord, MemoryCandidateReviewUpdate, Store,
  new_store, add, updated_record, update_review, update_status,
}

-- A call of the store that may change it.
pub data Op (C : Type 0) : Type 0 where
  add_op : MemoryCandidateReviewRecord C → Op C
  review_op : (candidate_id : Text) → MemoryCandidateReviewUpdate → Op C
  status_op : (candidate_id : Text) → MemoryCandidateReviewStatus → (updated_at : Time) → Op C

module _ {C : Type 0} where
  abbrev pub id_of : MemoryCandidateReviewRecord C → Text
  id_of r = r.candidate_id

  unfoldable pub apply : Op C → Store C → Store C
  apply (add_op r) s = (add r s).0
  apply (review_op id update) s = (update_review id update s).0
  apply (status_op id status at) s = (update_status id status at s).0

  unfoldable pub run : List (Op C) → Store C → Store C
  run [] s = s
  run (op ∷ ops) s = run ops (apply op s)

  abbrev pub key_at : Option (MemoryCandidateReviewRecord C) → Option Text
  key_at none = none
  key_at (some r) = some r.idempotency_key

  -- The records stand under their ids, the index leads from a key to a record with that key, and every stored record is
  -- the one that the index has for its key.
  pub record IsValid (s : Store C) : Type 0 where
    pub keyed : IsKeyed id_of s.records
    pub indexed :
        (key id : Text)
        → lookup key s.idempotency_keys ≡ some id
        → key_at (lookup id s.records) ≡ some key
    pub entered :
        (id : Text) (r : MemoryCandidateReviewRecord C)
        → lookup id s.records ≡ some r
        → lookup r.idempotency_key s.idempotency_keys ≡ some id

  pub new_store-IsValid : IsValid (new_store {C = C})
  unfolding new_store lookup
  new_store-IsValid = record { keyed = tt; indexed = λ key id h. cc; entered = λ id r h. cc }

  added-IsValid :
      (new : MemoryCandidateReviewRecord C) (s : Store C)
      → lookup new.candidate_id s.records ≡ none
      → lookup new.idempotency_key s.idempotency_keys ≡ none
      → IsValid s
      → IsValid (record {
        records = insert new.candidate_id new s.records;
        idempotency_keys = insert new.idempotency_key new.candidate_id s.idempotency_keys;
      })
  added-IsValid new s missing unknown w = record {
    keyed = insert-IsKeyed id_of new.candidate_id new s.records refl w.keyed;
    indexed = λ key id h. ground (
      arith,
      w.indexed key id,
      lookup-insert new.candidate_id id new s.records,
      lookup-insert new.idempotency_key key new.candidate_id s.idempotency_keys,
    );
    entered =
        insert-Every
          (λ id r.
            lookup r.idempotency_key
              (insert new.idempotency_key new.candidate_id s.idempotency_keys)
            ≡ some id)
          new.candidate_id new s.records
          (lookup-insert_self new.idempotency_key _ s.idempotency_keys)
          (λ id r h. ground (
            arith,
            w.entered id r h,
            lookup-insert new.idempotency_key r.idempotency_key new.candidate_id s.idempotency_keys,
          ));
  }

  -- The answer of `add`, in a valid store: a record that is then stored and that has the id or the
  -- key of the one that was given.
  pub record IsAnswered (new : MemoryCandidateReviewRecord C) (s : Store C) : Type 0 where
    pub answer : MemoryCandidateReviewRecord C
    pub answered : (add new s).1 ≡ ok answer
    pub stored : lookup answer.candidate_id (add new s).0.records ≡ some answer
    pub akin :
        (answer.candidate_id ≡ new.candidate_id) ⊎ (answer.idempotency_key ≡ new.idempotency_key)
    pub valid : IsValid (add new s).0

  answer_given :
      (new answer : MemoryCandidateReviewRecord C) (s s' : Store C)
      → add new s ≡ (s', ok answer)
      → lookup answer.candidate_id s'.records ≡ some answer
      → ((answer.candidate_id ≡ new.candidate_id) ⊎ (answer.idempotency_key ≡ new.idempotency_key))
      → IsValid s'
      → IsAnswered new s
  answer_given new answer s s' e stored akin valid = record {
    answer = answer;
    answered = rw e refl;
    stored = rw e stored;
    akin = akin;
    valid = rw e valid;
  }

  -- A stored record stands under its own id.
  stored_under :
      (id : Text) (r : MemoryCandidateReviewRecord C) (s : Store C)
      → IsValid s
      → lookup id s.records ≡ some r
      → lookup r.candidate_id s.records ≡ some r
  stored_under id r s w found =
      ap (λ k. lookup k s.records) (key-lookup id_of id s.records w.keyed found) ∙ found

  pub add-IsAnswered :
      (new : MemoryCandidateReviewRecord C) (s : Store C) → IsValid s → IsAnswered new s
  unfolding add
  add-IsAnswered new s w = elim (Option-cases (lookup new.candidate_id s.records)) [
    | inr (old, found) ↦
        answer_given new old s s (rw (found, add) refl)
          (stored_under new.candidate_id old s w found)
          (inl (key-lookup id_of new.candidate_id s.records w.keyed found)) w
    | inl missing ↦ elim (Option-cases (lookup new.idempotency_key s.idempotency_keys)) [
      | inl unknown ↦
          answer_given new new s _ (rw (missing, unknown, add) refl)
            (lookup-insert_self new.candidate_id new s.records) (inl refl)
            (added-IsValid new s missing unknown w)
      | inr (id, known) ↦ elim (Option-cases (lookup id s.records)) [
        | inl gone ↦ ground (arith, w.indexed new.idempotency_key id known)
        | inr (old, found) ↦
            answer_given new old s s (rw (missing, known, found, add) refl)
              (stored_under id old s w found)
              (inr (ground (arith, w.indexed new.idempotency_key id known))) w
      ]
    ]
  ]

  pub update_review-IsValid :
      (id : Text) (update : MemoryCandidateReviewUpdate) (s : Store C)
      → IsValid s
      → IsValid (update_review id update s).0
  unfolding update_review updated_record
  update_review-IsValid id update s w = elim (Option-cases (lookup id s.records)) [
    | inl missing ↦ rw (missing, update_review) w
    | inr (r, found) ↦
        rw (found, update_review)
          (record {
            keyed =
                insert-IsKeyed id_of id (updated_record update r) s.records
                  (key-lookup id_of id s.records w.keyed found) w.keyed;
            indexed = λ key i h.
                ground (
                  arith,
                  w.indexed key i h,
                  lookup-insert id i (updated_record update r) s.records,
                );
            entered =
                insert-Every (λ i r. lookup r.idempotency_key s.idempotency_keys ≡ some i) id
                  (updated_record update r) s.records (w.entered id r found) w.entered;
          })
  ]

  apply-IsValid : (op : Op C) (s : Store C) → IsValid s → IsValid (apply op s)
  unfolding apply update_status
  apply-IsValid (add_op r) s w = (add-IsAnswered r s w).valid
  apply-IsValid (review_op id update) s w = update_review-IsValid id update s w
  apply-IsValid (status_op id status at) s w = update_review-IsValid id _ s w

  -- Every run of calls keeps the store valid.
  pub run_store-IsValid : (ops : List (Op C)) (s : Store C) → IsValid s → IsValid (run ops s)
  unfolding run
  run_store-IsValid [] s w = w
  run_store-IsValid (op ∷ ops) s w = run_store-IsValid ops (apply op s) (apply-IsValid op s w)

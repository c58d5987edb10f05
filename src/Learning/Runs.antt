-- ===== src/Learning/Runs.antt =====
-- Sequences of calls of the queue of background jobs (iris/runtime/learning/queue.py).
use iris_mind_v.Prelude.{
  ℕ, ◌≡◌, refl, ap, ◌∙◌, inl, inr, Text, text_eq, arith, Option, none, some, Bool, List, [], ◌∷◌,
  ok, Option-cases, sorted, Bool-cases, leb,
}
use iris_mind_v.Prelude.Dict.{values, lookup, key-lookup}
use iris_mind_v.Prelude.Snapshot.{
  IsCurrent, sorted-values-IsCurrent, IsCurrent-insert, IsCurrent-skip,
}
use iris_mind_v.Learning.Jobs.{Time, BackgroundJobRecord}
use iris_mind_v.Learning.Policy.{BackgroundJobQueuePolicy}
use iris_mind_v.Learning.Records.{JobUpdate, replace_job}
use iris_mind_v.Learning.Queue.{
  Queue, new_queue, existing_job, enqueue, enqueue_with_policy, job_order_le,
}
use iris_mind_v.Learning.Lease.{Leasing, take_job, lease_due}
use iris_mind_v.Learning.Updates.{
  require, update_job, update_terminal, mark_succeeded, mark_permanent_failure, mark_cancelled,
  defer_leased, mark_retryable_failure,
}
use iris_mind_v.Learning.Concurrency.{id_of, lease_loop_ind, loop_start}
use iris_mind_v.Learning.Valid.{
  IsValid, new_queue-IsValid, rewrite-IsValid, enqueue-Course, enqueue_with_policy-Course,
  Course-IsValid,
}

-- A call of the queue that may change it.
pub data Op (P : Type 0) : Type 0 where
  enqueue_op : BackgroundJobRecord P → Op P
  enqueue_with_policy_op :
      (job : BackgroundJobRecord P) (now : Time) (policy : BackgroundJobQueuePolicy)
      (idle_available : Bool)
      → Op P
  lease_op :
      (now : Time) (max_items lease_seconds : ℕ) (policy : Option BackgroundJobQueuePolicy)
      (idle_available : Bool)
      → Op P
  succeeded_op : (job_id : Text) (finished_at : Time) → Op P
  permanent_failure_op cancelled_op defer_op : (job_id : Text) (at : Time) (reason : Text) → Op P
  retryable_failure_op :
      (job_id : Text) (failed_at : Time) (reason : Text) (retry_after : Time) → Op P

module _ {P : Type 0} where
  unfoldable pub apply : Op P → Queue P → Queue P
  apply (enqueue_op job) q = (enqueue job q).0
  apply (enqueue_with_policy_op job now policy idle) q =
      (enqueue_with_policy job now policy idle q).0
  apply (lease_op now max_items lease_seconds policy idle) q =
      (lease_due now max_items lease_seconds policy idle q).0
  apply (succeeded_op id at) q = (mark_succeeded id at q).0
  apply (permanent_failure_op id at reason) q = (mark_permanent_failure id at reason q).0
  apply (cancelled_op id at reason) q = (mark_cancelled id at reason q).0
  apply (defer_op id at reason) q = (defer_leased id at reason q).0
  apply (retryable_failure_op id at reason after) q =
      (mark_retryable_failure id at reason after q).0

  unfoldable pub run : List (Op P) → Queue P → Queue P
  run [] q = q
  run (op ∷ ops) q = run ops (apply op q)

  pub update_job-IsValid :
      (id : Text) (update : BackgroundJobRecord P → JobUpdate) (q : Queue P)
      → IsValid q
      → IsValid (update_job id update q).0
  unfolding update_job require replace_job
  update_job-IsValid id update q w = elim (Option-cases (lookup id q.jobs)) [
    | inl missing ↦ rw (missing, update_job) w
    | inr (job, found) ↦
        let named : job.job_id ≡ id = key-lookup id_of id q.jobs w.keyed found in
        rw (found, update_job, ← named)
          (rewrite-IsValid q job (replace_job job (update job))
            (ap (λ k. lookup k q.jobs) named ∙ found) refl refl w)
  ]

  module _ (now : Time) (max_items lease_seconds : ℕ) (policy : Option BackgroundJobQueuePolicy)
      (idle : Bool) where
    record KeepsValid (rest : List (BackgroundJobRecord P)) (acc : Leasing P) : Type 0 where
      current : IsCurrent id_of acc.queue.jobs rest
      valid : IsValid acc.queue

    pub lease_due-IsValid :
        (q : Queue P) → IsValid q → IsValid (lease_due now max_items lease_seconds policy idle q).0
    unfolding lease_due take_job replace_job
    lease_due-IsValid q w =
        let (rest, t) =
          lease_loop_ind now max_items lease_seconds policy idle KeepsValid
            (λ job rest acc t skip. record {
              current = IsCurrent-skip id_of job rest t.current;
              valid = t.valid;
            })
            (λ job rest acc t go. record {
              current = IsCurrent-insert id_of job _ acc.queue.jobs rest t.current;
              valid = rewrite-IsValid acc.queue job _ t.current.current.0 refl refl t.valid;
            })
            (sorted job_order_le (values q.jobs))
            (loop_start now max_items lease_seconds policy idle q)
            (record {
              current = sorted-values-IsCurrent id_of job_order_le q.jobs w.keyed;
              valid = w;
            }) in
        elim (Bool-cases (leb max_items 0)) [
          | inl none_asked ↦ rw none_asked w
          | inr some_asked ↦ rw some_asked t.valid
        ]

  pub apply-IsValid : (op : Op P) (q : Queue P) → IsValid q → IsValid (apply op q)
  unfolding apply mark_succeeded mark_permanent_failure mark_cancelled defer_leased
      mark_retryable_failure update_terminal
  apply-IsValid (enqueue_op job) q w = Course-IsValid job q _ (enqueue-Course job q) w
  apply-IsValid (enqueue_with_policy_op job now policy idle) q w =
      Course-IsValid job q _ (enqueue_with_policy-Course job now policy idle q) w
  apply-IsValid (lease_op now max_items lease_seconds policy idle) q w =
      lease_due-IsValid now max_items lease_seconds policy idle q w
  apply-IsValid (succeeded_op id at) q w = update_job-IsValid id _ q w
  apply-IsValid (permanent_failure_op id at reason) q w = update_job-IsValid id _ q w
  apply-IsValid (cancelled_op id at reason) q w = update_job-IsValid id _ q w
  apply-IsValid (defer_op id at reason) q w = update_job-IsValid id _ q w
  apply-IsValid (retryable_failure_op id at reason after) q w = update_job-IsValid id _ q w

  -- Every run of calls keeps the queue valid.
  pub run_queue-IsValid : (ops : List (Op P)) (q : Queue P) → IsValid q → IsValid (run ops q)
  unfolding run
  run_queue-IsValid [] q w = w
  run_queue-IsValid (op ∷ ops) q w = run_queue-IsValid ops (apply op q) (apply-IsValid op q w)

  -- Whatever sequence of calls an empty job queue goes through, two stored jobs with one
  -- idempotency key are one job.
  pub run_deduplicates :
      (ops : List (Op P)) (i j : Text) (a b : BackgroundJobRecord P)
      → lookup i (run ops new_queue).jobs ≡ some a
      → lookup j (run ops new_queue).jobs ≡ some b
      → a.idempotency_key ≡ b.idempotency_key
      → i ≡ j
  run_deduplicates ops i j a b ha hb same =
      let w = run_queue-IsValid ops new_queue new_queue-IsValid in
      cc (w.entered i a ha, w.entered j b hb, same)

  -- Whatever sequence of calls an empty job queue goes through, enqueueing a job that has the
  -- idempotency key of a stored one, and an id that is not stored, answers with the stored job
  -- and changes nothing.
  pub run-enqueue_again :
      (ops : List (Op P)) (id : Text) (old new : BackgroundJobRecord P)
      → lookup id (run ops new_queue).jobs ≡ some old
      → new.idempotency_key ≡ old.idempotency_key
      → lookup new.job_id (run ops new_queue).jobs ≡ none
      → enqueue new (run ops new_queue) ≡ (run ops new_queue, ok old)
  unfolding enqueue existing_job
  run-enqueue_again ops id old new found same unknown =
      let w = run_queue-IsValid ops new_queue new_queue-IsValid in
      let known : lookup new.idempotency_key (run ops new_queue).idempotency_keys ≡ some id =
        rw same (w.entered id old found) in
      ground arith

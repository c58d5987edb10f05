-- ===== src/Learning/Retries.antt =====
-- Retryable failures (iris/runtime/learning/queue.py: `mark_retryable_failure`), and what they mean
-- for the next leases of the job.
use iris_mind_v.Prelude.{
  ℕ, ◌+◌, ◌≡◌, refl, ap, ◌∙◌, Text, text_eq, Option, some, Bool, true, not, ◌&&◌, leb, arith, List,
  [], ◌∷◌, length,
}
use iris_mind_v.Prelude.Dict.{lookup, lookup-insert_self, IsKeyed}
use iris_mind_v.Learning.Jobs.{Time, BackgroundJobRecord}
use iris_mind_v.Learning.Policy.{BackgroundJobQueuePolicy}
use iris_mind_v.Learning.Records.{replace_job, is_leaseable, is_finished, retry_failure_status}
use iris_mind_v.Learning.Queue.{Queue}
use iris_mind_v.Learning.Lease.{lease_due}
use iris_mind_v.Learning.Updates.{require, update_job, retryable_failure, mark_retryable_failure}
use iris_mind_v.Learning.Concurrency.{id_of}
use iris_mind_v.Learning.Taking.{untouched, taken, lease_due-Fate}

-- The arguments of one call of `mark_retryable_failure`.
pub record Failure : Type 0 where
  pub failed_at : Time
  pub reason : Text
  pub retry_after : Time

module _ {P : Type 0} where
  unfoldable pub fail_each : Text → List Failure → Queue P → Queue P
  fail_each id [] q = q
  fail_each id (f ∷ fs) q =
      fail_each id fs (mark_retryable_failure id f.failed_at f.reason f.retry_after q).0

  -- What the job is after the failures.
  unfoldable pub failed_job : List Failure → BackgroundJobRecord P → BackgroundJobRecord P
  failed_job [] job = job
  failed_job (f ∷ fs) job =
      failed_job fs (replace_job job (retryable_failure f.failed_at f.reason f.retry_after job))

  mark_retryable_failure-lookup :
      (id : Text) (f : Failure) (q : Queue P) (job : BackgroundJobRecord P)
      → lookup id q.jobs ≡ some job
      → lookup id (mark_retryable_failure id f.failed_at f.reason f.retry_after q).0.jobs
        ≡ some (replace_job job (retryable_failure f.failed_at f.reason f.retry_after job))
  unfolding mark_retryable_failure update_job require
  mark_retryable_failure-lookup id f q job found =
      rw (found, update_job) (lookup-insert_self id _ q.jobs)

  fail_each-lookup :
      (id : Text) (fs : List Failure) (q : Queue P) (job : BackgroundJobRecord P)
      → lookup id q.jobs ≡ some job
      → lookup id (fail_each id fs q).jobs ≡ some (failed_job fs job)
  unfolding fail_each failed_job
  fail_each-lookup id [] q job found = found
  fail_each-lookup id (f ∷ fs) q job found =
      fail_each-lookup id fs _ _ (mark_retryable_failure-lookup id f q job found)

  failed_job-attempts :
      (fs : List Failure) (job : BackgroundJobRecord P)
      → (failed_job fs job).attempts ≡ job.attempts + length fs
  unfolding failed_job replace_job
  failed_job-attempts [] job = omega arith
  failed_job-attempts (f ∷ fs) job = omega (
    arith,
    failed_job-attempts fs
        (replace_job job (retryable_failure f.failed_at f.reason f.retry_after job)),
  )

  failed_job-max_attempts :
      (fs : List Failure) (job : BackgroundJobRecord P)
      → (failed_job fs job).max_attempts ≡ job.max_attempts
  unfolding failed_job replace_job
  failed_job-max_attempts [] job = refl
  failed_job-max_attempts (f ∷ fs) job = failed_job-max_attempts fs _

  failed_job-status :
      (f : Failure) (fs : List Failure) (job : BackgroundJobRecord P)
      → (failed_job (f ∷ fs) job).status
        ≡ retry_failure_status (job.attempts + length (f ∷ fs)) job.max_attempts
  unfolding failed_job replace_job
  failed_job-status f [] job = refl
  failed_job-status f (g ∷ fs) job =
      failed_job-status g fs
        (replace_job job (retryable_failure f.failed_at f.reason f.retry_after job))
      ∙ ap (λ n. retry_failure_status n job.max_attempts) (omega arith)

  -- After one or more retryable failures of a stored job, one upon another, the job has counted
  -- each of them, and it is given up exactly when its attempts are used up.
  pub fail_each_attempts :
      (id : Text) (f : Failure) (fs : List Failure) (q : Queue P) (job : BackgroundJobRecord P)
      → lookup id q.jobs ≡ some job
      → (after : BackgroundJobRecord P) × (lookup id (fail_each id (f ∷ fs) q).jobs ≡ some after)
        × (after.attempts ≡ job.attempts + length (f ∷ fs))
        × (is_finished after.status ≡ leb job.max_attempts (job.attempts + length (f ∷ fs)))
  unfolding retry_failure_status
  fail_each_attempts id f fs q job found = (
    failed_job (f ∷ fs) job,
    fail_each-lookup id (f ∷ fs) q job found,
    failed_job-attempts (f ∷ fs) job,
    ground (arith, failed_job-status f fs job),
  )

  -- After a retryable failure of a stored job it may be leased exactly from the time of its
  -- retry on, and only while it has attempts left.
  pub mark_retryable_failure-is_leaseable :
      (id : Text) (f : Failure) (q : Queue P) (job : BackgroundJobRecord P) (now : Time)
      → lookup id q.jobs ≡ some job
      → (after : BackgroundJobRecord P) × (lookup id
            (mark_retryable_failure id f.failed_at f.reason f.retry_after q).0.jobs
          ≡ some after)
        × (is_leaseable now after
            ≡ not (leb job.max_attempts (job.attempts + 1)) && leb f.retry_after now)
  unfolding is_leaseable replace_job retry_failure_status
  mark_retryable_failure-is_leaseable id f q job now found = (
    replace_job job (retryable_failure f.failed_at f.reason f.retry_after job),
    mark_retryable_failure-lookup id f q job found,
    ground arith,
  )

  module _ (now : Time) (max_items lease_seconds : ℕ) (policy : Option BackgroundJobQueuePolicy)
      (idle : Bool) where
    -- In a queue whose jobs stand under their ids, lease_due leaves a job that has ended as it
    -- is.
    pub lease_due_finished :
        (q : Queue P) (id : Text) (job : BackgroundJobRecord P)
        → IsKeyed id_of q.jobs
        → lookup id q.jobs ≡ some job
        → is_finished job.status ≡ true
        → lookup id (lease_due now max_items lease_seconds policy idle q).0.jobs ≡ some job
    unfolding is_leaseable
    lease_due_finished q id job w found h =
        elim (lease_due-Fate now max_items lease_seconds policy idle q id job w found) [
          | untouched p ↦ p
          | taken may p ↦ absurd (finished_is_not_leaseable may.leaseable)
        ]
      where
        finished_is_not_leaseable : is_leaseable now job ≡ true → ⊥
        finished_is_not_leaseable e = ground arith

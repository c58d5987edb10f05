-- ===== src/Learning/Updates.antt =====
-- iris/runtime/learning/queue.py: the methods that end, defer or retry a job.
use iris_mind_v.Prelude.{◌+◌, Text, text_eq, Option, none, some, Result, ok, raise}
use iris_mind_v.Prelude.Dict.{lookup, insert}
use iris_mind_v.Learning.Jobs.{
  Time, BackgroundJobStatus, pending, succeeded, failed_permanent, cancelled, job_status_eq,
  job_kind_eq, BackgroundJobRecord,
}
use iris_mind_v.Learning.Records.{retry_failure_status, JobUpdate, job_update, replace_job}
use iris_mind_v.Learning.Queue.{BackgroundJobQueueError, unknown_background_job, Queue}

abbrev pub terminal_update : BackgroundJobStatus → Time → Option Text → JobUpdate
terminal_update status updated_at error =
    let update = job_update status updated_at in record update { last_error = error }

abbrev pub deferral : Time → Text → JobUpdate
deferral deferred_until reason =
    let update = job_update pending deferred_until in
    record update { not_before = some deferred_until; defer_reason = some reason }

module _ {P : Type 0} where
  -- `_require`, and the method `get`
  unfoldable pub require : Text → Queue P → Result BackgroundJobQueueError (BackgroundJobRecord P)
  require job_id q = elim (lookup job_id q.jobs) [
    | some job ↦ ok job
    | none ↦ raise (unknown_background_job job_id)
  ]

  -- `job = self._require(job_id); self._jobs[job_id] = replace_job(job, ...)`
  unfoldable pub update_job :
      (job_id : Text) (update : BackgroundJobRecord P → JobUpdate)
      → Queue P
      → Queue P × Result BackgroundJobQueueError (Unit {0})
  unfolding require
  update_job job_id update q = elim (require job_id q) [
    | raise e ↦ (q, raise e)
    | ok job ↦ (record q { jobs = insert job_id (replace_job job (update job)) q.jobs }, ok tt)
  ]

  -- `_update_terminal`
  unfoldable pub update_terminal :
      (job_id : Text) (status : BackgroundJobStatus) (updated_at : Time) (error : Option Text)
      → Queue P
      → Queue P × Result BackgroundJobQueueError (Unit {0})
  unfolding update_job
  update_terminal job_id status updated_at error =
      update_job job_id (λ job. terminal_update status updated_at error)

  unfoldable pub mark_succeeded :
      (job_id : Text) (finished_at : Time)
      → Queue P
      → Queue P × Result BackgroundJobQueueError (Unit {0})
  unfolding update_terminal
  mark_succeeded job_id finished_at = update_terminal job_id succeeded finished_at none

  unfoldable pub mark_permanent_failure :
      (job_id : Text) (failed_at : Time) (reason : Text)
      → Queue P
      → Queue P × Result BackgroundJobQueueError (Unit {0})
  unfolding update_terminal
  mark_permanent_failure job_id failed_at reason =
      update_terminal job_id failed_permanent failed_at (some reason)

  unfoldable pub mark_cancelled :
      (job_id : Text) (cancelled_at : Time) (reason : Text)
      → Queue P
      → Queue P × Result BackgroundJobQueueError (Unit {0})
  unfolding update_terminal
  mark_cancelled job_id cancelled_at reason =
      update_terminal job_id cancelled cancelled_at (some reason)

  unfoldable pub defer_leased :
      (job_id : Text) (deferred_until : Time) (reason : Text)
      → Queue P
      → Queue P × Result BackgroundJobQueueError (Unit {0})
  unfolding update_job
  defer_leased job_id deferred_until reason =
      update_job job_id (λ job. deferral deferred_until reason)

  abbrev pub retryable_failure : Time → Text → Time → BackgroundJobRecord P → JobUpdate
  retryable_failure failed_at reason retry_after job =
      let attempts = job.attempts + 1 in
      let update = job_update (retry_failure_status attempts job.max_attempts) failed_at in
      record update {
        attempts = some attempts;
        not_before = some retry_after;
        last_error = some reason;
      }

  unfoldable pub mark_retryable_failure :
      (job_id : Text) (failed_at : Time) (reason : Text) (retry_after : Time)
      → Queue P
      → Queue P × Result BackgroundJobQueueError (Unit {0})
  unfolding update_job retry_failure_status
  mark_retryable_failure job_id failed_at reason retry_after =
      update_job job_id (retryable_failure failed_at reason retry_after)

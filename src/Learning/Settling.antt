-- ===== src/Learning/Settling.antt =====
-- What becomes of the jobs that the runner (iris/runtime/learning/runner.py) takes from the queue.
use iris_mind_v.Prelude.{
  ℕ, ◌+◌, ◌≡◌, ◌≢◌, refl, Text, text_eq, Option, none, some, Bool, true, false, Result, ok, arith,
}
use iris_mind_v.Prelude.Dict.{lookup, lookup-insert_self, lookup-insert_ne}
use iris_mind_v.Learning.Jobs.{
  Time, leased, BackgroundJobStatus, job_status_eq, BackgroundJobKind, BackgroundJobRecord,
  succeeded, cancelled, failed_permanent,
}
use iris_mind_v.Learning.Records.{JobUpdate, replace_job, retry_failure_status}
use iris_mind_v.Learning.Queue.{Queue}
use iris_mind_v.Learning.Updates.{
  require, update_job, update_terminal, mark_succeeded, mark_permanent_failure, mark_cancelled,
  mark_retryable_failure, defer_leased, terminal_update, deferral, retryable_failure,
}
use iris_mind_v.Inference.Models.{InferenceLeaseResult, acquired, defer, cancel, no_send, denied}
use iris_mind_v.Learning.Runner.{
  RunnerError, queue_result, Worker, Runner, Options, close_job, fail_for_retry, defer_leased_job,
  defer_lost_inference_lease, apply_inference_lease_rejection, acquire_inference_lease, run_with,
  finish_job,
}

module _ {P : Type 0} where
  -- A job of this id is stored, and it is not leased.
  abbrev pub Settled : Queue P → Text → Type 0
  Settled q id =
      (job : BackgroundJobRecord P) × (lookup id q.jobs ≡ some job) × (job.status ≢ leased)

  abbrev pub Stored : Queue P → Text → Type 0
  Stored q id = (job : BackgroundJobRecord P) × (lookup id q.jobs ≡ some job)

  -- What a step on one job does: it succeeds, settles the job, and leaves the others stored and settled.
  pub record Settles (id : Text) (q q' : Queue P) (result : Result RunnerError (Unit {0}))
      : Type 0 where
    pub succeeds : result ≡ ok tt
    pub settled : Settled q' id
    pub others : (other : Text) → id ≢ other → lookup other q'.jobs ≡ lookup other q.jobs

  pub update_job-Settles :
      (id : Text) (update : BackgroundJobRecord P → JobUpdate) (q : Queue P)
      → Stored q id
      → ((job : BackgroundJobRecord P) → (update job).status ≢ leased)
      → Settles id q (update_job id update q).0 (queue_result (update_job id update q).1)
  unfolding update_job require replace_job
  update_job-Settles id update q (job, stored) free =
      rw (stored, update_job, require)
        record {
          succeeds = refl;
          settled = (
            replace_job job (update job),
            lookup-insert_self id (replace_job job (update job)) q.jobs,
            free job,
          );
          others =
              λ other apart. lookup-insert_ne id other (replace_job job (update job)) q.jobs apart;
        }

  update_terminal-Settles :
      (id : Text) (status : BackgroundJobStatus) (at : Time) (error : Option Text) (q : Queue P)
      → Stored q id
      → status ≢ leased
      → Settles id q
          (update_terminal id status at error q).0
          (queue_result (update_terminal id status at error q).1)
  unfolding update_terminal
  update_terminal-Settles id status at error q st free =
      update_job-Settles id (λ job. terminal_update status at error) q st (λ job. free)

pub retry_ne_leased :
    (attempts max_attempts : ℕ) → retry_failure_status attempts max_attempts ≢ leased
unfolding retry_failure_status
retry_ne_leased attempts max_attempts e = ground (arith, e)

module _ {P C : Type 0} (clock : ℕ → Time) (uuid4 : ℕ → Text) (idle_available : ℕ → Bool)
    (workers : BackgroundJobKind → Option (Worker P C)) (options : Options) where
  -- A step of the runner that settles this job.
  abbrev pub StepSettles : Text → Runner P C → Runner P C × Result RunnerError (Unit {0}) → Type 0
  StepSettles id r after = Settles id r.queue after.0.queue after.1

  module _ (job : BackgroundJobRecord P) (r : Runner P C) (st : Stored r.queue job.job_id) where
    fail_for_retry-StepSettles :
        (exception : Text)
        → StepSettles job.job_id r
            (fail_for_retry clock uuid4 idle_available workers options job exception r)
    unfolding fail_for_retry mark_retryable_failure
    fail_for_retry-StepSettles exception =
        update_job-Settles job.job_id (retryable_failure _ exception _) r.queue st
          (λ old. retry_ne_leased (old.attempts + 1) old.max_attempts)

    defer_leased_job-StepSettles :
        (reason : Text)
        → StepSettles job.job_id r
            (defer_leased_job clock uuid4 idle_available workers options job reason r)
    unfolding defer_leased_job defer_leased
    defer_leased_job-StepSettles reason =
        update_job-Settles job.job_id (λ old. deferral _ reason) r.queue st (λ old e. cc)

    cancelled_job-StepSettles :
        (now : Time) (reason : Text)
        → Settles job.job_id r.queue
            (mark_cancelled job.job_id now reason r.queue).0
            (queue_result (mark_cancelled job.job_id now reason r.queue).1)
    unfolding mark_cancelled
    cancelled_job-StepSettles now reason =
        update_terminal-Settles job.job_id cancelled now (some reason) r.queue st (λ e. cc)

    pub apply_inference_lease_rejection-StepSettles :
        (lease : InferenceLeaseResult)
        → StepSettles job.job_id r
            (apply_inference_lease_rejection clock uuid4 idle_available workers options job lease r)
    unfolding apply_inference_lease_rejection
    apply_inference_lease_rejection-StepSettles lease =
        elim lease.decision
          as (λ d. StepSettles job.job_id r (
            apply_inference_lease_rejection clock uuid4 idle_available workers options job
              (record lease { decision = d }) r)) [
                | defer ↦ defer_leased_job-StepSettles _
                | acquired ↦ cancelled_job-StepSettles _ _
                | cancel ↦ cancelled_job-StepSettles _ _
                | no_send ↦ cancelled_job-StepSettles _ _
                | denied ↦ cancelled_job-StepSettles _ _
              ]

    succeeded_job-StepSettles :
        (now : Time)
        → Settles job.job_id r.queue
            (mark_succeeded job.job_id now r.queue).0
            (queue_result (mark_succeeded job.job_id now r.queue).1)
    unfolding mark_succeeded
    succeeded_job-StepSettles now =
        update_terminal-Settles job.job_id succeeded now none r.queue st (λ e. cc)

    failed_job-StepSettles :
        (now : Time) (reason : Text)
        → Settles job.job_id r.queue
            (mark_permanent_failure job.job_id now reason r.queue).0
            (queue_result (mark_permanent_failure job.job_id now reason r.queue).1)
    unfolding mark_permanent_failure
    failed_job-StepSettles now reason =
        update_terminal-Settles job.job_id failed_permanent now (some reason) r.queue st (λ e. cc)

  module _ (job : BackgroundJobRecord P) (r : Runner P C) (st : Stored r.queue job.job_id) where
    finish_job-StepSettles :
        (exception : Option Text) (lost : Bool)
        → StepSettles job.job_id r
            (finish_job clock uuid4 idle_available workers options exception lost job r)
    unfolding finish_job defer_lost_inference_lease
    finish_job-StepSettles (some e) lost = fail_for_retry-StepSettles job r st e
    finish_job-StepSettles none true = defer_leased_job-StepSettles job r st _
    finish_job-StepSettles none false = succeeded_job-StepSettles job r st _

  module _ (job : BackgroundJobRecord P) (r : Runner P C) (st : Stored r.queue job.job_id) where
    pub close_job-StepSettles :
        (exception : Option Text) (lease : InferenceLeaseResult)
        → StepSettles job.job_id r
            (close_job clock uuid4 idle_available workers options exception job lease r)
    unfolding close_job
    close_job-StepSettles exception lease =
        finish_job-StepSettles job (record r { inference_scheduler = _ }) st exception _

    pub missing_worker-StepSettles :
        StepSettles job.job_id r (run_with clock uuid4 idle_available workers options none job r)
    unfolding run_with
    missing_worker-StepSettles = failed_job-StepSettles job r st _ _

  pub acquire-queue :
      (job : BackgroundJobRecord P) (worker : Worker P C) (r : Runner P C)
      → (acquire_inference_lease clock uuid4 idle_available workers options job worker r).0.queue
        ≡ r.queue
  unfolding acquire_inference_lease
  acquire-queue job worker r = ground arith

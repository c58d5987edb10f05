-- ===== src/Learning/Runner.antt =====
-- iris/runtime/learning/runner.py: the runner of background jobs over the job queue and the inference
-- scheduler. The clock and the ids of uuid4 are streams that are read one after the other; how a
-- worker ends, and what becomes of the queue and of the scheduler while it runs, is a parameter of
-- the worker. Log lines are left out, with the soft timeout that is only logged. A token whose lease has gone is not
-- asked: the job is deferred then in any case, unless its worker has failed.
use iris_mind_v.Prelude.{
  ℕ, suc, ◌+◌, max, timedelta, Text, text, text_eq, ◌++◌, Option, none, some, Bool, true, false,
  not, ◌&&◌, ◌||◌, ◌==◌, if◌then◌else◌, List, [], ◌∷◌, length, Result, ok, raise,
}
use iris_mind_v.Prelude.Dict.{lookup}
use iris_mind_v.Model.{
  ModelCallSite, memory_extraction, reflection, relationship_update, interaction_policy_candidate,
  runtime_learning_hook,
}
use iris_mind_v.Budget.Config.{site_value}
use iris_mind_v.Learning.Jobs.{Time, BackgroundJobKind, kind_value, BackgroundJobRecord}
use iris_mind_v.Learning.Policy.{
  BackgroundJobKindPolicy, BackgroundJobQueuePolicy, for_kind, retry_delay_seconds,
  max_timeout_seconds, BackgroundJobQueueMetrics,
}
use iris_mind_v.Learning.Queue.{Queue, BackgroundJobQueueError}
use iris_mind_v.Learning.Lease.{lease_due}
use iris_mind_v.Learning.Metrics.{collect_metrics}
use iris_mind_v.Learning.Updates.{
  mark_succeeded, mark_permanent_failure, mark_cancelled, mark_retryable_failure, defer_leased,
}
use iris_mind_v.Inference.Models.{
  background_llm, idle, state_eq, InferenceLeaseDecision, acquired, defer, cancel, no_send, denied,
  InferenceLeaseRequest, InferenceLeaseResult, model_call_site_priority,
  LocalInferenceResourcePolicy,
}
use iris_mind_v.Inference.Scheduler.State.{Scheduler, current_state, snapshot}
use iris_mind_v.Inference.Scheduler.{acquire, release}

-- `decision.value`
unfoldable pub decision_value : InferenceLeaseDecision → Text
decision_value acquired = text "acquired"
decision_value defer = text "defer"
decision_value cancel = text "cancel"
decision_value no_send = text "no_send"
decision_value denied = text "denied"

-- How the run of a worker ends: it returns, it raises an `Exception`, which the runner catches, or
-- it raises another `BaseException`, which `_CaptureWorkerFailure` lets through.
pub data WorkerRun : Type 0 where
  returned : WorkerRun
  failed : (exception : Text) → WorkerRun
  escaped : (exception : Text) → WorkerRun

-- The errors that end a run: those of the queue, and what escapes from a worker.
pub data RunnerError : Type 0 where
  queue_error : BackgroundJobQueueError → RunnerError
  worker_exit : Text → RunnerError

-- A worker: whether it is a `CancellableBackgroundJobWorker`, how its run on a job ends, and what
-- the calls that it and others make meanwhile do to the scheduler and to the queue.
pub record Worker (P C : Type 0) : Type 0 where
  pub is_cancellable : Bool
  pub outcome : BackgroundJobRecord P → WorkerRun
  pub meanwhile : BackgroundJobRecord P → Scheduler C → Scheduler C
  pub queue_meanwhile : BackgroundJobRecord P → Queue P → Queue P

-- The queue and the scheduler that the runner shares with others, how often the streams were read,
-- and the attribute `latest_metrics`.
pub record Runner (P C : Type 0) : Type 0 where
  pub queue : Queue P
  pub inference_scheduler : Option (Scheduler C)
  pub readings : ℕ
  pub latest_metrics : Option BackgroundJobQueueMetrics

pub record Options : Type 0 where
  pub max_jobs_per_run : ℕ
  pub lease_seconds : ℕ
  pub queue_policy : BackgroundJobQueuePolicy
  pub resource_policy : LocalInferenceResourcePolicy

unfoldable pub call_site_for_job_kind : BackgroundJobKind → ModelCallSite
call_site_for_job_kind BackgroundJobKind.memory_extraction = memory_extraction
call_site_for_job_kind BackgroundJobKind.memory_consolidation = reflection
call_site_for_job_kind BackgroundJobKind.reflection = reflection
call_site_for_job_kind BackgroundJobKind.relationship_update = relationship_update
call_site_for_job_kind BackgroundJobKind.interaction_policy_candidate = interaction_policy_candidate
call_site_for_job_kind _ = runtime_learning_hook

module _ {P : Type 0} where
  unfoldable pub job_uses_llm : BackgroundJobRecord P → BackgroundJobKindPolicy → Bool
  job_uses_llm job kind_policy = job.resource_profile.uses_llm || kind_policy.uses_llm

  unfoldable pub synthetic_acquired_lease : BackgroundJobRecord P → InferenceLeaseResult
  synthetic_acquired_lease job =
      let site = call_site_for_job_kind job.kind in
      record {
        decision = acquired;
        reason = text "no inference resource lease required";
        request = record {
          slot_kind = background_llm;
          priority = model_call_site_priority site;
          call_site = site;
          model_slot = none;
          model_name = none;
          preemptible = false;
          metadata = (text "background_job_kind", kind_value job.kind) ∷ [];
        };
        snapshot = record {
          state = idle;
          active_large_slots = 0;
          active_small_classifier_slots = 0;
          active_embedding_slots = 0;
          active_reranker_slots = 0;
          busy_since = none;
          busy_duration = none;
        };
        lease_id = none;
      }

  unfoldable pub lease_request :
      BackgroundJobRecord P → (preemptible : Bool) → InferenceLeaseRequest
  lease_request job preemptible =
      let descriptor = job.resource_profile.model_call_descriptor in
      let site : ModelCallSite = elim descriptor [
        | none ↦ call_site_for_job_kind job.kind
        | some d ↦ d.call_site
      ] in
      record {
        slot_kind = background_llm;
        priority = model_call_site_priority site;
        call_site = site;
        model_slot = elim descriptor [ none ↦ none | some d ↦ d.model_slot ];
        model_name = elim descriptor [ none ↦ none | some d ↦ d.model_name ];
        preemptible = preemptible;
        metadata =
            (text "background_job_kind", kind_value job.kind)
            ∷ (text "call_site", site_value site)
            ∷ [];
      }

-- `lease_result.acquired`
abbrev pub is_acquired : InferenceLeaseResult → Bool
is_acquired r = elim r.decision [ acquired ↦ true | _ ↦ false ]

-- What a method of the queue returns, as the runner lets it through.
abbrev pub queue_result : Result BackgroundJobQueueError (Unit {0}) → Result RunnerError (Unit {0})
queue_result (ok _) = ok tt
queue_result (raise e) = raise (queue_error e)

module _ {P C : Type 0} (clock : ℕ → Time) (uuid4 : ℕ → Text) (idle_available : ℕ → Bool)
    (workers : BackgroundJobKind → Option (Worker P C)) (options : Options) where
  -- `self._runtime_hooks.now()`
  abbrev pub read_clock : Runner P C → Runner P C × Time
  read_clock r = (record r { readings = suc r.readings }, clock r.readings)

  abbrev pub kind_policy : BackgroundJobRecord P → BackgroundJobKindPolicy
  kind_policy job = for_kind options.queue_policy job.kind

  -- A call of a method of the queue.
  abbrev pub on_queue :
      (Queue P → Queue P × Result BackgroundJobQueueError (Unit {0}))
      → Runner P C
      → Runner P C × Result RunnerError (Unit {0})
  on_queue f r = let (q, result) = f r.queue in (record r { queue = q }, queue_result result)

  unfoldable pub acquire_inference_lease :
      BackgroundJobRecord P → Worker P C → Runner P C → Runner P C × InferenceLeaseResult
  acquire_inference_lease job worker r = elim r.inference_scheduler [
    | none ↦ (r, synthetic_acquired_lease job)
    | some s ↦
        if not (job_uses_llm job (kind_policy job))
        then (r, synthetic_acquired_lease job)
        else let request = lease_request job worker.is_cancellable in
          let (s', result) =
            acquire options.resource_policy request (clock r.readings) (uuid4 r.readings) s in
          let s'' : Scheduler C = elim result.lease_id [
            | none ↦ s'
            | some id ↦ (release id s').0
          ] in
          if is_acquired result && not worker.is_cancellable
          then (
            record r { inference_scheduler = some s''; readings = suc (suc r.readings) },
            record {
              decision = defer;
              reason = text "background LLM worker lacks cooperative cancellation";
              request = request;
              snapshot = snapshot (clock (suc r.readings)) s'';
              lease_id = none;
            },
          )
          else (record r { inference_scheduler = some s'; readings = suc r.readings }, result)
  ]

  unfoldable pub defer_leased_job :
      BackgroundJobRecord P
      → (reason : Text) → Runner P C
      → Runner P C × Result RunnerError (Unit {0})
  defer_leased_job job reason r =
      let (r', now) = read_clock r in
      on_queue
        (defer_leased job.job_id (now + timedelta (kind_policy job).defer_seconds_when_saturated)
          reason)
        r'

  unfoldable pub apply_inference_lease_rejection :
      BackgroundJobRecord P
      → InferenceLeaseResult
      → Runner P C
      → Runner P C × Result RunnerError (Unit {0})
  apply_inference_lease_rejection job result r =
      let reason =
        text "inference resource "
        ++ decision_value result.decision
        ++ text ": "
        ++ result.reason in
      elim result.decision [
        | defer ↦ defer_leased_job job reason r
        | _ ↦ let (r', now) = read_clock r in on_queue (mark_cancelled job.job_id now reason) r'
      ]

  unfoldable pub defer_lost_inference_lease :
      BackgroundJobRecord P → Runner P C → Runner P C × Result RunnerError (Unit {0})
  defer_lost_inference_lease job r =
      defer_leased_job job
        (text "inference resource defer: active lease disappeared before completion") r

  -- `_mark_retryable_failure`
  unfoldable pub fail_for_retry :
      BackgroundJobRecord P
      → (exception : Text) → Runner P C
      → Runner P C × Result RunnerError (Unit {0})
  fail_for_retry job exception r =
      let (r', failed_at) = read_clock r in
      let retry_after =
        failed_at + timedelta (retry_delay_seconds (kind_policy job) job.attempts) in
      on_queue (mark_retryable_failure job.job_id failed_at exception retry_after) r'

  -- The flag of the token, where the lease still stands.
  unfoldable pub cancellation_requested : (lease_id : Text) → Scheduler C → Bool
  cancellation_requested lease_id s = elim (lookup lease_id s.active_leases) [
    | none ↦ false
    | some lease ↦ lease.cancellation_token.cancellation_requested
  ]

  -- The scheduler after the worker and the release of the lease, with whether the lease was still
  -- active and whether its cancellation had been asked for.
  unfoldable pub end_lease :
      (lease_id : Option Text) → Option (Scheduler C) → Option (Scheduler C) × Bool × Bool
  end_lease none scheduler = (scheduler, true, false)
  end_lease (some id) none = (none, true, false)
  end_lease (some id) (some s) =
      let (s', still_active) = release id s in (some s', still_active, cancellation_requested id s)

  -- How `_run_job` ends, by the exception of the worker and whether the lease was lost.
  unfoldable pub finish_job :
      (exception : Option Text) (lost : Bool)
      → BackgroundJobRecord P
      → Runner P C
      → Runner P C × Result RunnerError (Unit {0})
  finish_job (some exception) lost job r = fail_for_retry job exception r
  finish_job none true job r = defer_lost_inference_lease job r
  finish_job none false job r =
      let (r', now) = read_clock r in on_queue (mark_succeeded job.job_id now) r'

  -- What `_run_job` does once the worker has ended, by the exception that was caught.
  unfoldable pub close_job :
      (exception : Option Text)
      → BackgroundJobRecord P
      → InferenceLeaseResult
      → Runner P C
      → Runner P C × Result RunnerError (Unit {0})
  close_job exception job lease r =
      let (scheduler, still_active, requested) = end_lease lease.lease_id r.inference_scheduler in
      finish_job exception (requested || not still_active) job
        (record r { inference_scheduler = scheduler })

  -- What `_run_job` does once the lease is acquired. An exception that escapes ends it at once, with
  -- the lease and the job as they are.
  unfoldable pub run_leased :
      Worker P C
      → BackgroundJobRecord P
      → InferenceLeaseResult
      → Runner P C
      → Runner P C × Result RunnerError (Unit {0})
  run_leased worker job lease r =
      let r' = record r {
        queue = worker.queue_meanwhile job r.queue;
        inference_scheduler = elim r.inference_scheduler [
          | none ↦ none
          | some s ↦ some (worker.meanwhile job s)
        ];
      } in
      elim (worker.outcome job) [
        | returned ↦ close_job none job lease r'
        | failed exception ↦ close_job (some exception) job lease r'
        | escaped exception ↦ (r', raise (worker_exit exception))
      ]

  -- `_run_job` with the worker that is registered for the job's kind.
  unfoldable pub run_with :
      Option (Worker P C)
      → BackgroundJobRecord P
      → Runner P C
      → Runner P C × Result RunnerError (Unit {0})
  run_with none job r =
      let (r', now) = read_clock r in
      on_queue
        (mark_permanent_failure job.job_id now
          (text "no worker registered for " ++ kind_value job.kind))
        r'
  run_with (some worker) job r =
      let (r', lease) = acquire_inference_lease job worker r in
      if is_acquired lease
      then run_leased worker job lease r'
      else apply_inference_lease_rejection job lease r'

  unfoldable pub run_job :
      BackgroundJobRecord P → Runner P C → Runner P C × Result RunnerError (Unit {0})
  run_job job r = run_with (workers job.kind) job r

  unfoldable pub run_jobs :
      List (BackgroundJobRecord P) → Runner P C → Runner P C × Result RunnerError (Unit {0})
  run_jobs [] r = (r, ok tt)
  run_jobs (job ∷ jobs) r =
      let (r', result) = run_job job r in
      elim result [ raise e ↦ (r', raise e) | ok _ ↦ run_jobs jobs r' ]

  unfoldable pub idle_available_for_lease : Runner P C → Bool
  idle_available_for_lease r =
      if idle_available r.readings
      then true
      else elim r.inference_scheduler [ none ↦ false | some s ↦ current_state s == idle ]

  unfoldable pub lease_seconds_for_policy : ℕ
  lease_seconds_for_policy = max options.lease_seconds (max_timeout_seconds options.queue_policy)

  -- `run_once()`: the queue's jobs, and the runner after them with the number of jobs or the error
  -- that ended the run.
  unfoldable pub lease_jobs : Runner P C → Runner P C × List (BackgroundJobRecord P)
  lease_jobs r =
      let (r', started_at) = read_clock r in
      let (q, jobs) =
        lease_due started_at options.max_jobs_per_run lease_seconds_for_policy
          (some options.queue_policy) (idle_available_for_lease r') r'.queue in
      (record r' { queue = q }, jobs)

  unfoldable pub run_once : Runner P C → Runner P C × Result RunnerError ℕ
  run_once r =
      let (r', jobs) = lease_jobs r in
      let (r'', result) = run_jobs jobs r' in
      elim result [
        | raise e ↦ (r'', raise e)
        | ok _ ↦
            let (last, now) = read_clock r'' in
            (
              record last { latest_metrics = some (collect_metrics now last.queue) },
              ok (length jobs),
            )
      ]

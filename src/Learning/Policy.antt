-- ===== src/Learning/Policy.antt =====
-- iris/runtime/learning/policy.py: the pressure policy of the queue, its metrics, and the deferral
-- of a job.
use iris_mind_v.Prelude.{
  ℕ, ℤ, zero, suc, ◌+◌, ◌*◌, min, max, Text, text, Option, none, some, Bool, ◌||◌, leb, ltb,
  if◌then◌else◌, List, [], ◌∷◌, Result, ok, raise,
}
use iris_mind_v.Prelude.Dict.{Dict, lookup, values}
use iris_mind_v.Learning.Jobs.{Time, BackgroundJobKind, job_kind_eq, BackgroundJobRecord}

pub data BackgroundJobBackpressureMode : Type 0 where
  accept defer reject : BackgroundJobBackpressureMode

pub data BackgroundJobEnqueueDecision : Type 0 where
  accepted existing deferred rejected : BackgroundJobEnqueueDecision

pub data BackgroundJobBackpressureReason : Type 0 where
  max_pending_jobs kind_concurrency_saturated : BackgroundJobBackpressureReason
  idle_only_not_available retry_storm_prevention : BackgroundJobBackpressureReason

-- `reason.value`
unfoldable pub reason_value : BackgroundJobBackpressureReason → Text
reason_value max_pending_jobs = text "max_pending_jobs"
reason_value kind_concurrency_saturated = text "kind_concurrency_saturated"
reason_value idle_only_not_available = text "idle_only_not_available"
reason_value retry_storm_prevention = text "retry_storm_prevention"

pub record BackgroundJobKindPolicy : Type 0 where
  pub concurrency_limit : ℕ
  pub timeout_seconds : ℕ
  pub max_pending_jobs : ℕ
  pub retry_backoff_base_seconds : ℕ
  pub retry_backoff_max_seconds : ℕ
  pub defer_seconds_when_saturated : ℕ
  pub backpressure_mode : BackgroundJobBackpressureMode
  pub uses_llm : Bool
  pub idle_only : Bool

pub data PolicyError : Type 0 where
  must_be_greater_than_zero max_less_than_base : PolicyError

-- `__post_init__`
unfoldable pub validate_kind_policy :
    BackgroundJobKindPolicy → Result PolicyError BackgroundJobKindPolicy
validate_kind_policy p =
    if leb p.concurrency_limit 0
      || leb p.timeout_seconds 0
      || leb p.max_pending_jobs 0
      || leb p.retry_backoff_base_seconds 0
      || leb p.retry_backoff_max_seconds 0
      || leb p.defer_seconds_when_saturated 0
    then raise must_be_greater_than_zero
    else if ltb p.retry_backoff_max_seconds p.retry_backoff_base_seconds
    then raise max_less_than_base
    else ok p

-- The loop of `retry_delay_seconds` over its multiplier.
unfoldable pub doubled : ℕ → ℕ → ℕ
doubled zero multiplier = multiplier
doubled (suc n) multiplier = doubled n (multiplier * 2)

unfoldable pub retry_delay_seconds : BackgroundJobKindPolicy → ℕ → ℕ
unfolding doubled
retry_delay_seconds p attempts_before_failure =
    min (p.retry_backoff_base_seconds * doubled attempts_before_failure 1)
      p.retry_backoff_max_seconds

pub record BackgroundJobQueuePolicy : Type 0 where
  pub default_policy : BackgroundJobKindPolicy
  pub per_kind : Dict BackgroundJobKind BackgroundJobKindPolicy

unfoldable pub for_kind : BackgroundJobQueuePolicy → BackgroundJobKind → BackgroundJobKindPolicy
for_kind policy kind = elim (lookup kind policy.per_kind) [
  | some p ↦ p
  | none ↦ policy.default_policy
]

largest_timeout : ℕ → List BackgroundJobKindPolicy → ℕ
largest_timeout m [] = m
largest_timeout m (p ∷ ps) = largest_timeout (max m p.timeout_seconds) ps

unfoldable pub max_timeout_seconds : BackgroundJobQueuePolicy → ℕ
unfolding largest_timeout
max_timeout_seconds policy =
    largest_timeout policy.default_policy.timeout_seconds (values policy.per_kind)

pub record BackgroundJobEnqueueResult (Payload : Type 0) : Type 0 where
  pub decision : BackgroundJobEnqueueDecision
  pub stored : Option (BackgroundJobRecord Payload)
  pub reason : Option BackgroundJobBackpressureReason
  pub deferred_until : Option Time

pub record BackgroundJobKindMetrics : Type 0 where
  pub kind : BackgroundJobKind
  pub pending : ℕ
  pub leased : ℕ
  pub succeeded : ℕ
  pub failed_retryable : ℕ
  pub failed_permanent : ℕ
  pub cancelled : ℕ
  pub oldest_pending_age_seconds : Option ℤ

-- `metrics.queue_depth`
unfoldable pub kind_queue_depth : BackgroundJobKindMetrics → ℕ
kind_queue_depth m = m.pending + m.failed_retryable

pub record BackgroundJobQueueMetrics : Type 0 where
  pub generated_at : Time
  pub queue_depth : ℕ
  pub leased : ℕ
  pub succeeded : ℕ
  pub failed_retryable : ℕ
  pub failed_permanent : ℕ
  pub cancelled : ℕ
  pub oldest_pending_age_seconds : Option ℤ
  pub per_kind : List BackgroundJobKindMetrics

-- `metrics.failed` and `metrics.non_terminal`
unfoldable pub failed_count : BackgroundJobQueueMetrics → ℕ
failed_count m = m.failed_retryable + m.failed_permanent

unfoldable pub non_terminal_count : BackgroundJobQueueMetrics → ℕ
non_terminal_count m = m.queue_depth + m.leased

module _ {Payload : Type 0} where
  unfoldable pub defer_job_record :
      (job : BackgroundJobRecord Payload) (deferred_until : Time)
      (reason : BackgroundJobBackpressureReason)
      → BackgroundJobRecord Payload
  unfolding reason_value
  defer_job_record job deferred_until reason = record {
    job_id = job.job_id;
    kind = job.kind;
    payload = job.payload;
    status = job.status;
    attempts = job.attempts;
    max_attempts = job.max_attempts;
    not_before = deferred_until;
    leased_until = job.leased_until;
    idempotency_key = job.idempotency_key;
    created_at = job.created_at;
    updated_at = deferred_until;
    last_error = job.last_error;
    resource_profile = job.resource_profile;
    defer_reason = some (reason_value reason);
  }

-- ===== src/Learning/Records.antt =====
-- iris/runtime/learning/queue.py: the tests on one job and the counts over all of them, by which the
-- queue decides, and the rebuilding of a job.
use iris_mind_v.Prelude.{
  ℕ, Text, text_eq, Option, none, some, ◌==◌, Bool, true, false, not, ◌&&◌, ◌||◌, leb, ltb,
  if◌then◌else◌, List, count,
}
use iris_mind_v.Learning.Jobs.{
  Time, BackgroundJobStatus, pending, leased, succeeded, failed_retryable, failed_permanent,
  cancelled, job_status_eq, BackgroundJobKind, job_kind_eq, BackgroundJobRecord,
}
use iris_mind_v.Learning.Policy.{
  BackgroundJobBackpressureReason, max_pending_jobs, kind_concurrency_saturated,
  idle_only_not_available, retry_storm_prevention, BackgroundJobKindPolicy,
}

-- `status in _QUEUE_DEPTH_STATUSES`
abbrev pub is_ready : BackgroundJobStatus → Bool
is_ready pending = true
is_ready failed_retryable = true
is_ready _ = false

abbrev pub is_leased : BackgroundJobStatus → Bool
is_leased leased = true
is_leased _ = false

abbrev pub is_retryable : BackgroundJobStatus → Bool
is_retryable failed_retryable = true
is_retryable _ = false

abbrev pub is_finished : BackgroundJobStatus → Bool
is_finished succeeded = true
is_finished failed_permanent = true
is_finished cancelled = true
is_finished _ = false

-- `t is not None and t <= now`, `t is not None and t > now`
abbrev pub has_passed : Option Time → Time → Bool
has_passed none now = false
has_passed (some t) now = leb t now

abbrev pub is_ahead : Option Time → Time → Bool
is_ahead none now = false
is_ahead (some t) now = ltb now t

-- `old if new is None else new`
abbrev pub or_keep {ℓ} : {A : Type ℓ} → Option A → A → A
or_keep none old = old
or_keep (some new) old = new

abbrev pub or_keep? {ℓ} : {A : Type ℓ} → Option A → Option A → Option A
or_keep? none old = old
or_keep? (some new) old = some new

unfoldable pub retry_failure_status : (attempts max_attempts : ℕ) → BackgroundJobStatus
retry_failure_status attempts max_attempts =
    if leb max_attempts attempts then failed_permanent else failed_retryable

pub record JobUpdate : Type 0 where
  pub status : BackgroundJobStatus
  pub updated_at : Time
  pub attempts : Option ℕ
  pub not_before : Option Time
  pub leased_until : Option Time
  pub last_error : Option Text
  pub defer_reason : Option Text

-- `JobUpdate(status=..., updated_at=...)`, whose other fields are `None`.
abbrev pub job_update : BackgroundJobStatus → Time → JobUpdate
job_update status updated_at = record {
  status = status;
  updated_at = updated_at;
  attempts = none;
  not_before = none;
  leased_until = none;
  last_error = none;
  defer_reason = none;
}

module _ {P : Type 0} where
  unfoldable pub replace_job : BackgroundJobRecord P → JobUpdate → BackgroundJobRecord P
  replace_job job update = record {
    job_id = job.job_id;
    kind = job.kind;
    payload = job.payload;
    status = update.status;
    attempts = or_keep update.attempts job.attempts;
    max_attempts = job.max_attempts;
    not_before = or_keep update.not_before job.not_before;
    resource_profile = job.resource_profile;
    leased_until = update.leased_until;
    idempotency_key = job.idempotency_key;
    created_at = job.created_at;
    updated_at = update.updated_at;
    last_error = update.last_error;
    defer_reason = or_keep? update.defer_reason job.defer_reason;
  }

  unfoldable pub is_leaseable : Time → BackgroundJobRecord P → Bool
  is_leaseable now job =
      let lease_expired = is_leased job.status && has_passed job.leased_until now in
      (is_ready job.status || lease_expired) && leb job.not_before now

  unfoldable pub active_lease : Time → BackgroundJobRecord P → Bool
  active_lease now job = is_leased job.status && is_ahead job.leased_until now

  -- `_leased_counts(jobs, now)[kind]`
  unfoldable pub leased_counts : List (BackgroundJobRecord P) → Time → BackgroundJobKind → ℕ
  unfolding active_lease
  leased_counts jobs now kind = count (λ job. job.kind == kind && active_lease now job) jobs

  unfoldable pub is_backlog_pending : Time → BackgroundJobRecord P → Bool
  unfolding is_leaseable
  is_backlog_pending now job = is_leaseable now job && not (is_retryable job.status)

  unfoldable pub in_backlog : Time → BackgroundJobRecord P → Bool
  unfolding is_backlog_pending
  in_backlog now job = is_backlog_pending now job || is_retryable job.status

  unfoldable pub backlog_count : List (BackgroundJobRecord P) → BackgroundJobKind → Time → ℕ
  unfolding in_backlog
  backlog_count jobs kind now = count (λ job. job.kind == kind && in_backlog now job) jobs

  unfoldable pub backlog_pending_count : List (BackgroundJobRecord P) → BackgroundJobKind → Time → ℕ
  unfolding is_backlog_pending
  backlog_pending_count jobs kind now =
      count (λ job. job.kind == kind && is_backlog_pending now job) jobs

  unfoldable pub retryable_count : List (BackgroundJobRecord P) → BackgroundJobKind → ℕ
  retryable_count jobs kind = count (λ job. job.kind == kind && is_retryable job.status) jobs

  unfoldable pub evaluate_enqueue_backpressure :
      (job : BackgroundJobRecord P) (jobs : List (BackgroundJobRecord P)) (now : Time)
      (policy : BackgroundJobKindPolicy) (idle_available : Bool)
      → Option BackgroundJobBackpressureReason
  evaluate_enqueue_backpressure job jobs now policy idle_available =
      if (policy.idle_only || job.resource_profile.idle_only) && not idle_available
      then some idle_only_not_available
      else if leb policy.max_pending_jobs (backlog_count jobs job.kind now)
      then (if ltb 0 (retryable_count jobs job.kind)
          then some retry_storm_prevention
          else some max_pending_jobs)
      else if leb policy.concurrency_limit (leased_counts jobs now job.kind)
      then some kind_concurrency_saturated
      else none

-- ===== src/Learning/Metrics.antt =====
-- iris/runtime/learning/queue.py: `collect_metrics`. Ages are kept in microseconds.
use iris_mind_v.Prelude.{
  sum_of, ℕ, ℤ, sub_ℕ, min, text_le, Option, none, some, ◌==◌, Bool, ◌&&◌, ◌||◌, leb, if◌then◌else◌,
  List, [], ◌∷◌, map, count, select, elem, sorted,
}
use iris_mind_v.Prelude.Dict.{values}
use iris_mind_v.Learning.Jobs.{
  Time, BackgroundJobStatus, succeeded, failed_retryable, failed_permanent, cancelled,
  job_status_eq, BackgroundJobKind, job_kind_eq, kind_value, BackgroundJobRecord,
}
use iris_mind_v.Learning.Policy.{
  BackgroundJobKindMetrics, BackgroundJobQueueMetrics, kind_queue_depth,
}
use iris_mind_v.Learning.Records.{
  is_retryable, active_lease, is_backlog_pending, backlog_pending_count,
}
use iris_mind_v.Learning.Queue.{Queue}

-- `min(values)`, or none where there are none.
unfoldable pub minimum : List ℕ → Option ℕ
minimum [] = none
minimum (n ∷ ns) = elim (minimum ns) [ none ↦ some n | some m ↦ some (min n m) ]

-- `key(a) <= key(b)` for `_kind_sort_key`
unfoldable pub kind_le : BackgroundJobKind → BackgroundJobKind → Bool
unfolding kind_value
kind_le a b = text_le (kind_value a) (kind_value b)

module _ {P : Type 0} where
  -- The kinds of the jobs, each once.
  unfoldable pub job_kinds : List (BackgroundJobRecord P) → List BackgroundJobKind
  job_kinds [] = []
  job_kinds (job ∷ jobs) =
      let rest = job_kinds jobs in if elem job.kind rest then rest else job.kind ∷ rest

  unfoldable pub status_count : BackgroundJobStatus → List (BackgroundJobRecord P) → ℕ
  status_count status jobs = count (λ job. job.status == status) jobs

  unfoldable pub oldest_pending_age_seconds : List (BackgroundJobRecord P) → Time → Option ℤ
  oldest_pending_age_seconds jobs now =
      let waiting =
        select
          (λ job. (is_retryable job.status || is_backlog_pending now job) && leb job.not_before now)
          jobs in
      elim (minimum (map (λ job. job.created_at) waiting)) [
        | none ↦ none
        | some first ↦ some (sub_ℕ now first)
      ]

  unfoldable pub kind_metrics :
      BackgroundJobKind → List (BackgroundJobRecord P) → Time → BackgroundJobKindMetrics
  unfolding status_count oldest_pending_age_seconds
  kind_metrics kind jobs now =
      let kind_jobs = select (λ job. job.kind == kind) jobs in
      record {
        kind = kind;
        pending = backlog_pending_count kind_jobs kind now;
        leased = count (λ job. active_lease now job) kind_jobs;
        succeeded = status_count succeeded kind_jobs;
        failed_retryable = status_count failed_retryable kind_jobs;
        failed_permanent = status_count failed_permanent kind_jobs;
        cancelled = status_count cancelled kind_jobs;
        oldest_pending_age_seconds = oldest_pending_age_seconds kind_jobs now;
      }

  unfoldable pub metrics_from_jobs : List (BackgroundJobRecord P) → Time → BackgroundJobQueueMetrics
  metrics_from_jobs jobs now =
      let kinds = sorted kind_le (job_kinds jobs) in
      let per_kind = map (λ kind. kind_metrics kind jobs now) kinds in
      record {
        generated_at = now;
        queue_depth = sum_of (λ m. kind_queue_depth m) per_kind;
        leased = sum_of (λ m. m.leased) per_kind;
        succeeded = sum_of (λ m. m.succeeded) per_kind;
        failed_retryable = sum_of (λ m. m.failed_retryable) per_kind;
        failed_permanent = sum_of (λ m. m.failed_permanent) per_kind;
        cancelled = sum_of (λ m. m.cancelled) per_kind;
        oldest_pending_age_seconds = oldest_pending_age_seconds jobs now;
        per_kind = per_kind;
      }

  unfoldable pub collect_metrics : Time → Queue P → BackgroundJobQueueMetrics
  collect_metrics now q = metrics_from_jobs (values q.jobs) now

-- ===== src/Learning/Tests.antt =====
-- The theorems on background jobs at work on small queues. The payload is a number here.
use iris_mind_v.Prelude.{
  ℕ, ◌≡◌, refl, ap, ◌≢◌, ◌≤◌, Text, text, text_eq, none, some, true, false, List, [], ◌∷◌, All, ok,
  max, ℕ_discrete, List-discrete,
}
use iris_mind_v.Prelude.Dict.{lookup, insert, values}
use iris_mind_v.Learning.Jobs.{
  pending, failed_permanent, reflection, memory_extraction, BackgroundJobResourceProfile,
  BackgroundJobRecord,
}
use iris_mind_v.Learning.Policy.{
  BackgroundJobBackpressureMode, reject, BackgroundJobKindPolicy, BackgroundJobQueuePolicy,
  for_kind, validate_kind_policy,
}
use iris_mind_v.Learning.Records.{is_finished, is_leaseable, leased_counts, backlog_count}
use iris_mind_v.Prelude.{count}
use iris_mind_v.Learning.Jobs.{succeeded, failed_retryable, cancelled, job_status_eq}
use iris_mind_v.Learning.Records.{active_lease, in_backlog}
use iris_mind_v.Learning.Metrics.{status_count, collect_metrics}
use iris_mind_v.Learning.Totals.{collect_metrics_totals}
use iris_mind_v.Learning.Queue.{
  Queue, new_queue, existing_job, store_job, enqueue, enqueue_with_policy,
}
use iris_mind_v.Learning.Lease.{lease_due}
use iris_mind_v.Learning.Updates.{mark_retryable_failure}
use iris_mind_v.Learning.Valid.{IsValid, new_queue-IsValid}
use iris_mind_v.Learning.Runs.{
  Op, enqueue_op, apply, run, run_queue-IsValid, run_deduplicates, run-enqueue_again,
}
use iris_mind_v.Learning.Concurrency.{lease_due-leased_counts}
use iris_mind_v.Learning.Taking.{IsTaken, Fate, lease_due-IsTaken, lease_due-Fate}
use iris_mind_v.Learning.Pressure.{enqueue_with_policy-backlog}
use iris_mind_v.Learning.Retries.{
  Failure, fail_each, fail_each_attempts, mark_retryable_failure-is_leaseable,
}

abbrev pub profile : BackgroundJobResourceProfile
profile = record { uses_llm = true; idle_only = false; model_call_descriptor = none }

abbrev pub job : Text → BackgroundJobRecord ℕ
job id = record {
  job_id = id;
  kind = reflection;
  payload = 0;
  status = pending;
  attempts = 0;
  max_attempts = 2;
  not_before = 5;
  resource_profile = profile;
  leased_until = none;
  idempotency_key = id;
  created_at = 1;
  updated_at = 1;
  last_error = none;
  defer_reason = none;
}

abbrev pub kind_policy : BackgroundJobKindPolicy
kind_policy = record {
  concurrency_limit = 1;
  timeout_seconds = 60;
  max_pending_jobs = 2;
  retry_backoff_base_seconds = 1;
  retry_backoff_max_seconds = 8;
  defer_seconds_when_saturated = 30;
  backpressure_mode = reject;
  uses_llm = true;
  idle_only = false;
}

abbrev pub policy : BackgroundJobQueuePolicy
policy = record { default_policy = kind_policy; per_kind = [] }

abbrev pub calls : List (Op ℕ)
calls = enqueue_op (job (text "j1")) ∷ enqueue_op (job (text "j2")) ∷ []

abbrev pub state : Queue ℕ
state = run calls new_queue

pub state-IsValid : IsValid state
state-IsValid = run_queue-IsValid calls new_queue new_queue-IsValid

stored : lookup (text "j1") state.jobs ≡ some (job (text "j1"))
unfolding run apply enqueue existing_job store_job new_queue lookup insert List-discrete ℕ_discrete
stored = refl

missing : lookup (text "j3") state.jobs ≡ none
unfolding run apply enqueue existing_job store_job new_queue lookup insert List-discrete ℕ_discrete
missing = refl

limited : for_kind policy reflection ≡ kind_policy
unfolding for_kind lookup
limited = refl

policy_valid : validate_kind_policy (for_kind policy reflection) ≡ ok (for_kind policy reflection)
unfolding for_kind lookup validate_kind_policy
policy_valid = refl

policy_mode : (for_kind policy reflection).backpressure_mode ≢ BackgroundJobBackpressureMode.accept
unfolding for_kind lookup
policy_mode h = cc

abbrev failure : Failure
failure = record { failed_at = 10; reason = text "timeout"; retry_after = 20 }

lease_due-leased_counts_example :
    let after = (lease_due 10 5 60 (some policy) true state).0 in
    leased_counts (values after.jobs) 10 reflection
    ≤ max (leased_counts (values state.jobs) 10 reflection) 1
lease_due-leased_counts_example =
    lease_due-leased_counts 10 5 60 (some policy) true state state-IsValid.keyed reflection
      kind_policy (ap some limited)

lease_due-IsTaken_example :
    All (IsTaken 10 5 60 (some policy) true state) (lease_due 10 5 60 (some policy) true state).1
lease_due-IsTaken_example = lease_due-IsTaken 10 5 60 (some policy) true state state-IsValid.keyed

lease_due-Fate_example :
    Fate 10 5 60
      (some policy)
      true
      (lease_due 10 5 60 (some policy) true state).0
      (text "j1")
      (job (text "j1"))
lease_due-Fate_example =
    lease_due-Fate 10 5 60 (some policy) true state (text "j1") (job (text "j1"))
      state-IsValid.keyed stored

enqueue_with_policy-backlog_example :
    let after = (enqueue_with_policy (job (text "j3")) 10 policy true state).0 in
    backlog_count (values after.jobs) memory_extraction 10
    ≤ max
        (backlog_count (values state.jobs) memory_extraction 10)
        (for_kind policy memory_extraction).max_pending_jobs
enqueue_with_policy-backlog_example =
    enqueue_with_policy-backlog 10 true (job (text "j3")) policy state memory_extraction
      policy_valid policy_mode refl

run_deduplicates_example : text "j1" ≡ text "j1"
run_deduplicates_example =
    run_deduplicates calls (text "j1") (text "j1") (job (text "j1")) (job (text "j1")) stored stored
      refl

-- Another job with the key of the first.
abbrev repeat : BackgroundJobRecord ℕ
repeat = let j = job (text "j3") in record j { idempotency_key = text "j1" }

run-enqueue_again_example : enqueue repeat state ≡ (state, ok (job (text "j1")))
run-enqueue_again_example =
    run-enqueue_again calls (text "j1") (job (text "j1")) repeat stored refl missing

fail_each_attempts_example :
    (after : BackgroundJobRecord ℕ) × (lookup
        (text "j1")
        (fail_each (text "j1") (failure ∷ failure ∷ []) state).jobs
      ≡ some after)
    × (after.attempts ≡ 2)
    × (is_finished after.status ≡ true)
fail_each_attempts_example =
    fail_each_attempts (text "j1") failure (failure ∷ []) state (job (text "j1")) stored

mark_retryable_failure-is_leaseable_example :
    (after : BackgroundJobRecord ℕ) × (lookup
        (text "j1")
        (mark_retryable_failure (text "j1") 10 (text "timeout") 20 state).0.jobs
      ≡ some after)
    × (is_leaseable 25 after ≡ true)
mark_retryable_failure-is_leaseable_example =
    mark_retryable_failure-is_leaseable (text "j1") failure state (job (text "j1")) 25 stored

collect_metrics_totals_example :
    let m = collect_metrics 10 state in
    let jobs = values state.jobs in
    (m.queue_depth ≡ count (in_backlog 10) jobs)
    × (m.leased ≡ count (active_lease 10) jobs)
    × (m.succeeded ≡ status_count succeeded jobs)
    × (m.failed_retryable ≡ status_count failed_retryable jobs)
    × (m.failed_permanent ≡ status_count failed_permanent jobs)
    × (m.cancelled ≡ status_count cancelled jobs)
collect_metrics_totals_example = collect_metrics_totals 10 state

-- ===== src/Learning/Queue.antt =====
-- iris/runtime/learning/queue.py: the in-memory queue of background jobs and its `enqueue` methods. A
-- method takes the state and returns the new one beside its result; the asyncio lock makes each method
-- one step.
use iris_mind_v.Prelude.{
  ◌+◌, timedelta, Text, text_eq, text_le, Option, none, some, Bool, true, false, ◌||◌, ltb,
  if◌then◌else◌, [], Result, ok, raise,
}
use iris_mind_v.Prelude.Dict.{Dict, values, lookup, insert}
use iris_mind_v.Learning.Jobs.{Time, job_status_eq, job_kind_eq, BackgroundJobRecord}
use iris_mind_v.Learning.Policy.{
  BackgroundJobBackpressureMode, BackgroundJobEnqueueDecision, BackgroundJobBackpressureReason,
  BackgroundJobKindPolicy, BackgroundJobQueuePolicy, for_kind, BackgroundJobEnqueueResult,
  defer_job_record,
}
use iris_mind_v.Learning.Records.{evaluate_enqueue_backpressure}

-- `BackgroundJobQueueError`, and Python's `KeyError` where the queue does not catch it.
pub data BackgroundJobQueueError : Type 0 where
  unknown_background_job : Text → BackgroundJobQueueError
  key_error : BackgroundJobQueueError

pub record Queue (P : Type 0) : Type 0 where
  pub jobs : Dict Text (BackgroundJobRecord P)
  pub idempotency_keys : Dict Text Text

module _ {P : Type 0} where
  -- `InMemoryBackgroundJobQueue()`
  unfoldable pub new_queue : Queue P
  new_queue = record { jobs = []; idempotency_keys = [] }

  -- `ok none` is the answer `None`, `raise key_error` the failure of `self._jobs[existing_id]`.
  unfoldable pub existing_job :
      BackgroundJobRecord P
      → Queue P
      → Result BackgroundJobQueueError (Option (BackgroundJobRecord P))
  existing_job job q = elim (lookup job.job_id q.jobs) [
    | some existing ↦ ok (some existing)
    | none ↦ elim (lookup job.idempotency_key q.idempotency_keys) [
      | none ↦ ok none
      | some existing_id ↦ elim (lookup existing_id q.jobs) [
        | some existing ↦ ok (some existing)
        | none ↦ raise key_error
      ]
    ]
  ]

  unfoldable pub store_job : BackgroundJobRecord P → Queue P → Queue P
  store_job job q = record {
    jobs = insert job.job_id job q.jobs;
    idempotency_keys = insert job.idempotency_key job.job_id q.idempotency_keys;
  }

  unfoldable pub enqueue :
      BackgroundJobRecord P
      → Queue P
      → Queue P × Result BackgroundJobQueueError (BackgroundJobRecord P)
  unfolding store_job
  enqueue job q = elim (existing_job job q) [
    | raise e ↦ (q, raise e)
    | ok (some existing) ↦ (q, ok existing)
    | ok none ↦ (store_job job q, ok job)
  ]

  -- What `enqueue_with_policy` does with a job that is not stored yet.
  unfoldable pub admit :
      (job : BackgroundJobRecord P) (now : Time) (kind_policy : BackgroundJobKindPolicy)
      (reason : Option BackgroundJobBackpressureReason)
      → Queue P
      → Queue P × BackgroundJobEnqueueResult P
  unfolding store_job
  admit job now kind_policy none q = (
    store_job job q,
    record {
      decision = BackgroundJobEnqueueDecision.accepted;
      stored = some job;
      reason = none;
      deferred_until = none;
    },
  )
  admit job now kind_policy (some reason) q =
      let deferred_until = now + timedelta kind_policy.defer_seconds_when_saturated in
      let deferred = defer_job_record job deferred_until reason in
      elim kind_policy.backpressure_mode [
        | BackgroundJobBackpressureMode.accept ↦ (
          store_job job q,
          record {
            decision = BackgroundJobEnqueueDecision.accepted;
            stored = some job;
            reason = none;
            deferred_until = none;
          },
        )
        | BackgroundJobBackpressureMode.reject ↦ (
          q,
          record {
            decision = BackgroundJobEnqueueDecision.rejected;
            stored = none;
            reason = some reason;
            deferred_until = none;
          },
        )
        | BackgroundJobBackpressureMode.defer ↦ (
          store_job deferred q,
          record {
            decision = BackgroundJobEnqueueDecision.deferred;
            stored = some deferred;
            reason = some reason;
            deferred_until = some deferred_until;
          },
        )
      ]

  unfoldable pub enqueue_with_policy :
      (job : BackgroundJobRecord P) (now : Time) (policy : BackgroundJobQueuePolicy)
      (idle_available : Bool)
      → Queue P
      → Queue P × Result BackgroundJobQueueError (BackgroundJobEnqueueResult P)
  enqueue_with_policy job now policy idle_available q = elim (existing_job job q) [
    | raise e ↦ (q, raise e)
    | ok (some existing) ↦ (
      q,
      ok (record {
        decision = BackgroundJobEnqueueDecision.existing;
        stored = some existing;
        reason = none;
        deferred_until = none;
      }),
    )
    | ok none ↦
        let kind_policy = for_kind policy job.kind in
        let reason =
          evaluate_enqueue_backpressure job (values q.jobs) now kind_policy idle_available in
        let (q', result) = admit job now kind_policy reason q in (q', ok result)
  ]

  -- `key(a) <= key(b)` for `_job_order`
  unfoldable pub job_order_le : BackgroundJobRecord P → BackgroundJobRecord P → Bool
  job_order_le a b =
      if ltb a.not_before b.not_before
      then true
      else if ltb b.not_before a.not_before
      then false
      else if ltb a.created_at b.created_at
      then true
      else if ltb b.created_at a.created_at
      then false
      else text_le a.job_id b.job_id

  unfoldable pub requires_idle : BackgroundJobRecord P → Option BackgroundJobKindPolicy → Bool
  requires_idle job kind_policy =
      job.resource_profile.idle_only || elim kind_policy [ none ↦ false | some p ↦ p.idle_only ]

-- ===== src/Learning/Pressure.antt =====
-- The bound that `enqueue_with_policy` (iris/runtime/learning/queue.py) puts on the backlog.
use iris_mind_v.Prelude.{
  ◌+◌, timedelta, ◌≤◌, ◌<◌, ◌≡◌, refl, ap, ◌≢◌, inl, inr, text_eq, Option, none, some, ◌==◌, Bool,
  false, ◌&&◌, max, if◌then◌else◌, arith, ok, List,
}
use iris_mind_v.Prelude.Dict.{values, lookup, count-insert_new}
use iris_mind_v.Learning.Jobs.{Time, BackgroundJobKind, job_kind_eq, BackgroundJobRecord}
use iris_mind_v.Learning.Policy.{
  BackgroundJobKindPolicy, BackgroundJobQueuePolicy, BackgroundJobBackpressureReason, accept,
  defer_job_record, for_kind, validate_kind_policy,
}
use iris_mind_v.Learning.Records.{
  is_retryable, in_backlog, is_backlog_pending, is_leaseable, backlog_count,
  evaluate_enqueue_backpressure,
}
use iris_mind_v.Learning.Queue.{Queue, existing_job, store_job, admit, enqueue_with_policy}
use iris_mind_v.Learning.Valid.{fresh_cases, mode_cases}

module _ {P : Type 0} (now : Time) (idle_available : Bool) where
  -- A job that meets no pressure finds room in the backlog of its kind.
  room_for :
      (job : BackgroundJobRecord P) (jobs : List (BackgroundJobRecord P))
      (p : BackgroundJobKindPolicy)
      → evaluate_enqueue_backpressure job jobs now p idle_available ≡ none
      → backlog_count jobs job.kind now < p.max_pending_jobs
  unfolding evaluate_enqueue_backpressure
  room_for job jobs p h = ground arith

  fresh_id :
      (job : BackgroundJobRecord P) (q : Queue P)
      → existing_job job q ≡ ok none
      → lookup job.job_id q.jobs ≡ none
  unfolding existing_job
  fresh_id job q h = ground arith

  backlog-store :
      (job : BackgroundJobRecord P) (q : Queue P) (kind : BackgroundJobKind)
      → lookup job.job_id q.jobs ≡ none
      → backlog_count (values (store_job job q).jobs) kind now
        ≡ backlog_count (values q.jobs) kind now
          + (if job.kind == kind && in_backlog now job then 1 else 0)
  unfolding backlog_count store_job
  backlog-store job q kind h =
      count-insert_new (λ (j : BackgroundJobRecord P). j.kind == kind && in_backlog now j)
        job.job_id job q.jobs h

  -- A job that is deferred from now on is not in the backlog now.
  deferred-in_backlog :
      (job : BackgroundJobRecord P) (p : BackgroundJobKindPolicy)
      (reason : BackgroundJobBackpressureReason)
      → validate_kind_policy p ≡ ok p
      → is_retryable job.status ≡ false
      → in_backlog now
          (defer_job_record job (now + timedelta p.defer_seconds_when_saturated) reason)
        ≡ false
  unfolding validate_kind_policy in_backlog is_backlog_pending is_leaseable defer_job_record
  deferred-in_backlog job p reason valid h = ground arith

  module _ (job : BackgroundJobRecord P) (p : BackgroundJobKindPolicy) (q : Queue P)
      (kind : BackgroundJobKind) where
    admit-backlog :
        (reason : Option BackgroundJobBackpressureReason)
        → validate_kind_policy p ≡ ok p
        → p.backpressure_mode ≢ accept
        → is_retryable job.status ≡ false
        → lookup job.job_id q.jobs ≡ none
        → evaluate_enqueue_backpressure job (values q.jobs) now p idle_available ≡ reason
        → backlog_count (values (admit job now p reason q).0.jobs) kind now ≤ (
            if job.kind == kind
            then max (backlog_count (values q.jobs) kind now) p.max_pending_jobs
            else backlog_count (values q.jobs) kind now)
    unfolding admit defer_job_record
    admit-backlog none valid mode status fresh met =
        ground (arith, backlog-store job q kind fresh, room_for job (values q.jobs) p met)
    admit-backlog (some reason) valid mode status fresh met =
        elim (mode_cases p.backpressure_mode) [
          | inl e ↦ absurd (mode e)
          | inr (inl e) ↦ rw e (ground arith)
          | inr (inr e) ↦
              let until = now + timedelta p.defer_seconds_when_saturated in
              rw e (
                ground (
                  arith,
                  backlog-store (defer_job_record job until reason) q kind fresh,
                  deferred-in_backlog job p reason valid status,
                ))
        ]

  -- While the policy of the job's kind is a valid one that defers or rejects under pressure,
  -- and the job is not a failed one, enqueue_with_policy lets the backlog of no kind grow
  -- beyond the max_pending_jobs of that kind.
  pub enqueue_with_policy-backlog :
      (job : BackgroundJobRecord P) (policy : BackgroundJobQueuePolicy) (q : Queue P)
      (kind : BackgroundJobKind)
      → let p = for_kind policy job.kind in
        validate_kind_policy p ≡ ok p
        → (for_kind policy job.kind).backpressure_mode ≢ accept
        → is_retryable job.status ≡ false
        → let (q', _) = enqueue_with_policy job now policy idle_available q in
          backlog_count (values q'.jobs) kind now
          ≤ max (backlog_count (values q.jobs) kind now) (for_kind policy kind).max_pending_jobs
  unfolding enqueue_with_policy
  enqueue_with_policy-backlog job policy q kind valid mode status = elim (fresh_cases job q) [
    | inl fresh ↦
        rw (fresh, enqueue_with_policy)
          (let h =
              admit-backlog job (for_kind policy job.kind) q kind _ valid mode status
                (fresh_id job q fresh) refl in
            elim (job_kind_eq.dec job.kind kind) [
              | yes same ↦ ground (arith, h, ap (for_kind policy) same)
              | no other ↦ ground (arith, h)
            ])
    | inr (inl (a, p)) ↦ rw (p, enqueue_with_policy) (omega arith)
    | inr (inr p) ↦ rw (p, enqueue_with_policy) (omega arith)
  ]

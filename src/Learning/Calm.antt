-- ===== src/Learning/Calm.antt =====
-- The calls of the job queue (iris/runtime/learning/queue.py), other than lease_due, take no job away and
-- lease no job that is settled.
use iris_mind_v.Prelude.{
  ◌+◌, ◌≡◌, ◌≢◌, ap, ◌∙◌, inl, inr, Text, text_eq, some, none, arith, Option-cases, List, [], ◌∷◌,
  All, ok,
}
use iris_mind_v.Prelude.Dict.{lookup, insert, lookup-insert_ne}
use iris_mind_v.Learning.Jobs.{leased, BackgroundJobRecord}
use iris_mind_v.Learning.Records.{JobUpdate}
use iris_mind_v.Learning.Queue.{Queue, existing_job, store_job}
use iris_mind_v.Learning.Updates.{
  require, update_job, update_terminal, mark_succeeded, mark_permanent_failure, mark_cancelled,
  mark_retryable_failure, defer_leased,
}
use iris_mind_v.Learning.Valid.{Course, same, added, enqueue-Course, enqueue_with_policy-Course}
use iris_mind_v.Learning.Runs.{
  Op, enqueue_op, enqueue_with_policy_op, lease_op, succeeded_op, permanent_failure_op,
  cancelled_op, defer_op, retryable_failure_op, apply, run,
}
use iris_mind_v.Learning.Settling.{update_job-Settles, retry_ne_leased}
use iris_mind_v.Learning.Stepping.{IsCalm, Calm_refl, Calm_trans, Settles-IsCalm}

-- The call leases no jobs.
abbrev pub LeavesUnleased : {P : Type 0} → Op P → Type 0
LeavesUnleased (lease_op now max_items lease_seconds policy idle) = ⊥
LeavesUnleased _ = Unit

module _ {P : Type 0} where
  update_job-IsCalm :
      (id : Text) (update : BackgroundJobRecord P → JobUpdate) (q : Queue P)
      → ((job : BackgroundJobRecord P) → (update job).status ≢ leased)
      → IsCalm q (update_job id update q).0
  unfolding update_job require
  update_job-IsCalm id update q free = elim (Option-cases (lookup id q.jobs)) [
    | inl missing ↦ rw (missing, update_job, require) (Calm_refl q)
    | inr (job, found) ↦ Settles-IsCalm id q _ _ (update_job-Settles id update q (job, found) free)
  ]

  store_job-IsCalm :
      (new : BackgroundJobRecord P) (q : Queue P)
      → lookup new.job_id q.jobs ≡ none
      → IsCalm q (store_job new q)
  unfolding store_job
  store_job-IsCalm new q missing = record {
    stored = λ id (job, stored). (job, kept id job stored);
    settled = λ id (job, stored, free). (job, kept id job stored, free);
  }
    where
      kept :
          (id : Text) (job : BackgroundJobRecord P)
          → lookup id q.jobs ≡ some job
          → lookup id (insert new.job_id new q.jobs) ≡ some job
      kept id job stored = elim (text_eq.dec new.job_id id) [
        | yes here ↦ cc
        | no apart ↦ lookup-insert_ne new.job_id id new q.jobs apart ∙ stored
      ]

  unknown_job :
      (job : BackgroundJobRecord P) (q : Queue P)
      → existing_job job q ≡ ok none
      → lookup job.job_id q.jobs ≡ none
  unfolding existing_job
  unknown_job job q fresh = ground arith

  Course-IsCalm : (job : BackgroundJobRecord P) (q q' : Queue P) → Course job q q' → IsCalm q q'
  Course-IsCalm job q q' (same e) = rw e (Calm_refl q)
  Course-IsCalm job q q' (added j fresh same_id same_key e) =
      rw e (store_job-IsCalm j q (ap (λ k. lookup k q.jobs) same_id ∙ unknown_job job q fresh))

  apply-IsCalm : (op : Op P) (q : Queue P) → LeavesUnleased op → IsCalm q (apply op q)
  unfolding apply mark_succeeded mark_permanent_failure mark_cancelled defer_leased
      mark_retryable_failure update_terminal
  apply-IsCalm (enqueue_op job) q n = Course-IsCalm job q _ (enqueue-Course job q)
  apply-IsCalm (enqueue_with_policy_op job now policy idle) q n =
      Course-IsCalm job q _ (enqueue_with_policy-Course job now policy idle q)
  apply-IsCalm (lease_op now max_items lease_seconds policy idle) q n = absurd n
  apply-IsCalm (succeeded_op id at) q n = update_job-IsCalm id _ q (λ job e. cc)
  apply-IsCalm (permanent_failure_op id at reason) q n = update_job-IsCalm id _ q (λ job e. cc)
  apply-IsCalm (cancelled_op id at reason) q n = update_job-IsCalm id _ q (λ job e. cc)
  apply-IsCalm (defer_op id at reason) q n = update_job-IsCalm id _ q (λ job e. cc)
  apply-IsCalm (retryable_failure_op id at reason after) q n =
      update_job-IsCalm id _ q (λ job. retry_ne_leased (job.attempts + 1) job.max_attempts)

  -- Every run of calls that leases no jobs is calm.
  pub run-IsCalm : (ops : List (Op P)) (q : Queue P) → All LeavesUnleased ops → IsCalm q (run ops q)
  unfolding run
  run-IsCalm [] q n = Calm_refl q
  run-IsCalm (op ∷ ops) q n =
      Calm_trans q (apply op q) (run ops (apply op q)) (apply-IsCalm op q n.0)
        (run-IsCalm ops (apply op q) n.1)

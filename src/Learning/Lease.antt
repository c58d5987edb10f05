-- ===== src/Learning/Lease.antt =====
-- iris/runtime/learning/queue.py: `lease_due`.
use iris_mind_v.Prelude.{
  ℕ, ◌+◌, timedelta, text_eq, Option, none, some, ◌==◌, Bool, false, not, ◌&&◌, ◌||◌, leb,
  if◌then◌else◌, List, [], ◌∷◌, ◌++◌, length, sorted,
}
use iris_mind_v.Prelude.Dict.{values, insert}
use iris_mind_v.Learning.Jobs.{
  Time, leased, job_status_eq, BackgroundJobKind, job_kind_eq, BackgroundJobRecord,
}
use iris_mind_v.Learning.Policy.{BackgroundJobKindPolicy, BackgroundJobQueuePolicy, for_kind}
use iris_mind_v.Learning.Records.{JobUpdate, job_update, replace_job, is_leaseable, leased_counts}
use iris_mind_v.Learning.Queue.{Queue, requires_idle, job_order_le}

-- `policy.for_kind(job.kind) if policy is not None else None`
abbrev pub kind_policy_of :
    Option BackgroundJobQueuePolicy → BackgroundJobKind → Option BackgroundJobKindPolicy
kind_policy_of policy kind = elim policy [ none ↦ none | some p ↦ some (for_kind p kind) ]

abbrev pub lease_update : (now lease_seconds : ℕ) → JobUpdate
lease_update now lease_seconds =
    let update = job_update leased now in
    record update { leased_until = some (now + timedelta lease_seconds) }

-- The variables of the loop of `lease_due`.
pub record Leasing (P : Type 0) : Type 0 where
  pub queue : Queue P
  pub leased_counts : BackgroundJobKind → ℕ
  pub taken : List (BackgroundJobRecord P)

module _ {P : Type 0} (now : Time) (policy : Option BackgroundJobQueuePolicy)
    (idle_available : Bool) where
  -- The tests under which the loop goes on to the next job.
  unfoldable pub passed_over : BackgroundJobRecord P → (BackgroundJobKind → ℕ) → Bool
  unfolding requires_idle
  passed_over job counts =
      let kind_policy = kind_policy_of policy job.kind in
      not (is_leaseable now job)
      || (requires_idle job kind_policy && not idle_available)
      || elim kind_policy [ none ↦ false | some p ↦ leb p.concurrency_limit (counts job.kind) ]

module _ {P : Type 0} (now : Time) (lease_seconds : ℕ) where
  unfoldable pub take_job : BackgroundJobRecord P → Leasing P → Leasing P
  take_job job acc =
      let updated = replace_job job (lease_update now lease_seconds) in
      let queue = acc.queue in
      record {
        queue = record queue { jobs = insert job.job_id updated queue.jobs };
        leased_counts =
            λ kind. if kind == job.kind then acc.leased_counts kind + 1 else acc.leased_counts kind;
        taken = acc.taken ++ updated ∷ [];
      }

module _ {P : Type 0} (now : Time) (max_items lease_seconds : ℕ)
    (policy : Option BackgroundJobQueuePolicy) (idle_available : Bool) where
  unfoldable pub lease_loop : List (BackgroundJobRecord P) → Leasing P → Leasing P
  lease_loop [] acc = acc
  lease_loop (job ∷ rest) acc =
      let skip = passed_over now policy idle_available job acc.leased_counts in
      let acc' = if skip then acc else take_job now lease_seconds job acc in
      let next = lease_loop rest acc' in
      if not skip && leb max_items (length acc'.taken) then acc' else next

  unfoldable pub lease_due : Queue P → Queue P × List (BackgroundJobRecord P)
  lease_due q =
      let jobs = values q.jobs in
      let start : Leasing P = record {
        queue = q;
        leased_counts = leased_counts jobs now;
        taken = [];
      } in
      let after = lease_loop (sorted job_order_le jobs) start in
      if leb max_items 0 then (q, []) else (after.queue, after.taken)

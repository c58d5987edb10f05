-- ===== src/Learning/Batch.antt =====
-- A batch of the runner (iris/runtime/learning/runner.py): what becomes of the jobs that `run_once` takes.
use iris_mind_v.Prelude.{
  ℕ, ◌≡◌, refl, ap, sym, subst, inl, inr, Text, text_eq, Option, some, Bool, Result, ok, raise,
  List, [], ◌∷◌, ◌++◌, All, All-map, length, arith,
}
use iris_mind_v.Prelude.Dict.{IsKeyed}
use iris_mind_v.Learning.Jobs.{Time, BackgroundJobKind, BackgroundJobRecord}
use iris_mind_v.Learning.Policy.{BackgroundJobQueuePolicy}
use iris_mind_v.Learning.Records.{replace_job}
use iris_mind_v.Learning.Queue.{Queue}
use iris_mind_v.Learning.Lease.{lease_due, lease_update}
use iris_mind_v.Learning.Taking.{IsTaken, untouched, taken, lease_due-IsTaken, lease_due-Fate}
use iris_mind_v.Learning.Runner.{
  RunnerError, worker_exit, Worker, Runner, Options, run_job, run_jobs, run_once, lease_jobs,
  lease_seconds_for_policy, idle_available_for_lease, read_clock,
}
use iris_mind_v.Learning.Settling.{Settled, Stored}
use iris_mind_v.Learning.Stepping.{IsCalm, Calm_refl, Calm_trans, AreCalm, Escapes, run_job-Steps}
use iris_mind_v.Learning.Concurrency.{id_of}

module _ {P : Type 0} where
  taken_Stored :
      (now : Time) (max_items lease_seconds : ℕ) (policy : Option BackgroundJobQueuePolicy)
      (idle : Bool) (q : Queue P) (job : BackgroundJobRecord P)
      → IsKeyed id_of q.jobs
      → IsTaken now max_items lease_seconds policy idle q job
      → Stored (lease_due now max_items lease_seconds policy idle q).0 job.job_id
  unfolding replace_job
  taken_Stored now max_items lease_seconds policy idle q job w t =
      subst (λ j. Stored (lease_due now max_items lease_seconds policy idle q).0 j.job_id)
        (sym t.now_is)
        (elim (lease_due-Fate now max_items lease_seconds policy idle q t.old.job_id t.old w
          t.stored) [
            | untouched found ↦ (t.old, found)
            | taken may found ↦ (replace_job t.old (lease_update now lease_seconds), found)
          ])

module _ {P C : Type 0} (workers : BackgroundJobKind → Option (Worker P C)) where
  -- How a batch ends: it returns the value with all its jobs settled, or an exception escapes from
  -- the worker of one job, with all jobs before that one settled.
  pub data BatchEnds {A : Type 0} (value : A) (jobs : List (BackgroundJobRecord P)) (q : Queue P)
      (result : Result RunnerError A) : Type 0 where
    all_settled :
        result ≡ ok value → All (λ job. Settled q job.job_id) jobs → BatchEnds value jobs q result
    cut_short :
        (done left : List (BackgroundJobRecord P)) (job : BackgroundJobRecord P) (x : Text)
        → jobs ≡ done ++ job ∷ left
        → Escapes workers job x
        → result ≡ raise (worker_exit x)
        → All (λ job. Settled q job.job_id) done
        → BatchEnds value jobs q result

module _ {P C : Type 0} (clock : ℕ → Time) (uuid4 : ℕ → Text) (idle_available : ℕ → Bool)
    (workers : BackgroundJobKind → Option (Worker P C)) (options : Options)
    (calm : AreCalm workers) where
  abbrev batch :
      List (BackgroundJobRecord P) → Runner P C → Runner P C × Result RunnerError (Unit {0})
  batch = run_jobs clock uuid4 idle_available workers options

  abbrev step : BackgroundJobRecord P → Runner P C → Runner P C × Result RunnerError (Unit {0})
  step = run_job clock uuid4 idle_available workers options

  run_jobs-cons :
      (job : BackgroundJobRecord P) (jobs : List (BackgroundJobRecord P)) (r : Runner P C)
      → (step job r).1 ≡ ok tt
      → batch (job ∷ jobs) r ≡ batch jobs (step job r).0
  unfolding run_jobs
  run_jobs-cons job jobs r e = ground (arith, e)

  run_jobs-stop :
      (job : BackgroundJobRecord P) (jobs : List (BackgroundJobRecord P)) (r : Runner P C)
      (x : RunnerError)
      → (step job r).1 ≡ raise x
      → batch (job ∷ jobs) r ≡ ((step job r).0, raise x)
  unfolding run_jobs
  run_jobs-stop job jobs r x e = ground (arith, e)

  -- A batch takes no stored job away and leases none that is settled.
  record Batched (jobs : List (BackgroundJobRecord P)) (r : Runner P C)
      (after : Runner P C × Result RunnerError (Unit {0})) : Type 0 where
    keeps : IsCalm r.queue after.0.queue
    ends : BatchEnds workers tt jobs after.0.queue after.1

  Batched-cons :
      (job : BackgroundJobRecord P) (jobs : List (BackgroundJobRecord P)) (q q' : Queue P)
      (result : Result RunnerError (Unit {0}))
      → Settled q job.job_id
      → IsCalm q q'
      → BatchEnds workers tt jobs q' result
      → BatchEnds workers tt (job ∷ jobs) q' result
  Batched-cons job jobs q q' result here keeps (all_settled fine settled) =
      all_settled fine (keeps.settled job.job_id here, settled)
  Batched-cons job jobs q q' result here keeps
        (cut_short done left at x split escapes fails settled) =
      cut_short (job ∷ done) left at x (ap (λ js. job ∷ js) split) escapes fails
        (keeps.settled job.job_id here, settled)

  run_jobs-Batched :
      (jobs : List (BackgroundJobRecord P)) (r : Runner P C)
      → All (λ job. Stored r.queue job.job_id) jobs
      → Batched jobs r (batch jobs r)
  run_jobs-Batched [] r st =
      unfold run_jobs in record { keeps = Calm_refl r.queue; ends = all_settled refl tt }
  run_jobs-Batched (job ∷ jobs) r st =
      let one = run_job-Steps clock uuid4 idle_available workers options calm job r st.0 in
      let r' = (step job r).0 in
      let later = All-map (λ j here. one.keeps.stored j.job_id here) jobs st.1 in
      elim one.ends [
        | inl (fine, settled) ↦
            let rest = run_jobs-Batched jobs r' later in
            subst (Batched (job ∷ jobs) r) (sym (run_jobs-cons job jobs r fine)) (record {
              keeps = Calm_trans r.queue r'.queue (batch jobs r').0.queue one.keeps rest.keeps;
              ends = Batched-cons job jobs r'.queue _ _ settled rest.keeps rest.ends;
            })
        | inr (x, fails, escapes) ↦
            subst (Batched (job ∷ jobs) r) (sym (run_jobs-stop job jobs r (worker_exit x) fails))
              (record { keeps = one.keeps; ends = cut_short [] jobs job x refl escapes refl tt })
      ]

  lease_jobs-Stored :
      (r : Runner P C)
      → IsKeyed id_of r.queue.jobs
      → let (r', jobs) = lease_jobs clock uuid4 idle_available workers options r in
        All (λ job. Stored r'.queue job.job_id) jobs
  unfolding lease_jobs
  lease_jobs-Stored r w =
      let now = clock r.readings in
      let seconds = lease_seconds_for_policy clock uuid4 idle_available workers options in
      let r' = (read_clock clock uuid4 idle_available workers options r).0 in
      let idle = idle_available_for_lease clock uuid4 idle_available workers options r' in
      let policy = some options.queue_policy in
      let q' = (lease_due now options.max_jobs_per_run seconds policy idle r.queue).0 in
      All-map
        (λ job t. taken_Stored now options.max_jobs_per_run seconds policy idle r.queue job w t)
        (lease_due now options.max_jobs_per_run seconds policy idle r.queue).1
        (lease_due-IsTaken now options.max_jobs_per_run seconds policy idle r.queue w)

  run_once-ok :
      (r : Runner P C)
      → let (r', jobs) = lease_jobs clock uuid4 idle_available workers options r in
        (batch jobs r').1 ≡ ok tt
        → let after = run_once clock uuid4 idle_available workers options r in
          (after.1 ≡ ok (length jobs)) × (after.0.queue ≡ (batch jobs r').0.queue)
  unfolding run_once
  run_once-ok r fine = ground (arith, fine)

  run_once-raise :
      (r : Runner P C) (x : RunnerError)
      → let (r', jobs) = lease_jobs clock uuid4 idle_available workers options r in
        (batch jobs r').1 ≡ raise x
        → run_once clock uuid4 idle_available workers options r ≡ ((batch jobs r').0, raise x)
  unfolding run_once
  run_once-raise r x fails = ground (arith, fails)

  -- In a queue whose jobs stand under their ids, and if the calls made of the queue while a
  -- worker runs take no job away and lease no settled job, run_once returns the number of the
  -- jobs that it leased and leaves each of them stored with a status other than leased, whether
  -- or not there is a worker for it, whether that returns or raises an Exception, and however
  -- the inference scheduler answers; or an exception that is no Exception escapes from the
  -- worker of one of the jobs, run_once raises that one, and each job before is so settled.
  pub run_once-settles :
      (r : Runner P C)
      → IsKeyed id_of r.queue.jobs
      → let jobs = (lease_jobs clock uuid4 idle_available workers options r).1 in
        let (r', result) = run_once clock uuid4 idle_available workers options r in
        BatchEnds workers (length jobs) jobs r'.queue result
  run_once-settles r w = go (run_jobs-Batched jobs r' (lease_jobs-Stored r w)).ends
    where
      r' : Runner P C
      r' = (lease_jobs clock uuid4 idle_available workers options r).0

      jobs : List (BackgroundJobRecord P)
      jobs = (lease_jobs clock uuid4 idle_available workers options r).1

      after : Runner P C × Result RunnerError ℕ
      after = run_once clock uuid4 idle_available workers options r

      go :
          BatchEnds workers tt jobs (batch jobs r').0.queue (batch jobs r').1
          → BatchEnds workers (length jobs) jobs after.0.queue after.1
      go (all_settled fine settled) =
          let (counts, same) = run_once-ok r fine in
          all_settled counts
            (subst (λ q. All (λ job. Settled q job.job_id) jobs) (sym same) settled)
      go (cut_short done left job x split escapes fails settled) =
          subst
            (λ (a : Runner P C × Result RunnerError ℕ).
              BatchEnds workers (length jobs) jobs a.0.queue a.1)
            (sym (run_once-raise r (worker_exit x) fails))
            (cut_short done left job x split escapes refl settled)

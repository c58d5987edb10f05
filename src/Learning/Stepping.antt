-- ===== src/Learning/Stepping.antt =====
-- One job of the runner (iris/runtime/learning/runner.py), whatever its worker does: it is settled, or an
-- exception has escaped from its worker.
use iris_mind_v.Prelude.{
  ℕ, ◌≡◌, refl, sym, subst, ◌∙◌, ◌⊎◌, inl, inr, Text, text_eq, Option, none, some, Bool, Bool-cases,
  Result, ok, raise, if◌then◌else◌,
}
use iris_mind_v.Learning.Jobs.{Time, BackgroundJobKind, BackgroundJobRecord}
use iris_mind_v.Learning.Queue.{Queue}
use iris_mind_v.Inference.Models.{InferenceLeaseResult}
use iris_mind_v.Learning.Runner.{
  WorkerRun, returned, failed, escaped, RunnerError, worker_exit, Worker, Runner, Options,
  is_acquired, acquire_inference_lease, apply_inference_lease_rejection, close_job, run_leased,
  run_with, run_job,
}
use iris_mind_v.Learning.Settling.{
  Settled, Stored, Settles, acquire-queue, close_job-StepSettles, missing_worker-StepSettles,
  apply_inference_lease_rejection-StepSettles,
}

module _ {P : Type 0} where
  -- What happens to the queue between two states of it takes no job away and leases no job that is
  -- settled.
  pub record IsCalm (q q' : Queue P) : Type 0 where
    pub stored : (id : Text) → Stored q id → Stored q' id
    pub settled : (id : Text) → Settled q id → Settled q' id

  pub Calm_refl : (q : Queue P) → IsCalm q q
  Calm_refl q = record { stored = λ id h. h; settled = λ id h. h }

  pub Calm_trans : (q q' q'' : Queue P) → IsCalm q q' → IsCalm q' q'' → IsCalm q q''
  Calm_trans q q' q'' a b = record {
    stored = λ id h. b.stored id (a.stored id h);
    settled = λ id h. b.settled id (a.settled id h);
  }

  pub Settles-IsCalm :
      (id : Text) (q q' : Queue P) (result : Result RunnerError (Unit {0}))
      → Settles id q q' result
      → IsCalm q q'
  Settles-IsCalm id q q' result w = record {
    stored = λ other (job, stored). elim (text_eq.dec id other) [
      | yes same ↦ subst (Stored q') same (w.settled.0, w.settled.1)
      | no apart ↦ (job, w.others other apart ∙ stored)
    ];
    settled = λ other (job, stored, free). elim (text_eq.dec id other) [
      | yes same ↦ subst (Settled q') same w.settled
      | no apart ↦ (job, w.others other apart ∙ stored, free)
    ];
  }

module _ {P C : Type 0} (workers : BackgroundJobKind → Option (Worker P C)) where
  -- What the calls made while a worker runs do to the queue is calm.
  abbrev pub AreCalm : Type 0
  AreCalm =
      (kind : BackgroundJobKind) (worker : Worker P C) (job : BackgroundJobRecord P) (q : Queue P)
      → workers kind ≡ some worker
      → IsCalm q (worker.queue_meanwhile job q)

  -- An exception escapes from the worker of the job.
  abbrev pub Escapes : BackgroundJobRecord P → Text → Type 0
  Escapes job x =
      (worker : Worker P C) × (workers job.kind ≡ some worker) × (worker.outcome job ≡ escaped x)

  pub record Steps (job : BackgroundJobRecord P) (r : Runner P C)
      (after : Runner P C × Result RunnerError (Unit {0})) : Type 0 where
    pub keeps : IsCalm r.queue after.0.queue
    pub ends :
        ((after.1 ≡ ok tt) × Settled after.0.queue job.job_id)
        ⊎ ((x : Text) × (after.1 ≡ raise (worker_exit x)) × Escapes job x)

  Settles-Steps :
      (job : BackgroundJobRecord P) (r r' : Runner P C)
      (after : Runner P C × Result RunnerError (Unit {0}))
      → IsCalm r.queue r'.queue
      → Settles job.job_id r'.queue after.0.queue after.1
      → Steps job r after
  Settles-Steps job r r' after before w = record {
    keeps =
        Calm_trans r.queue r'.queue after.0.queue before
          (Settles-IsCalm job.job_id r'.queue after.0.queue after.1 w);
    ends = inl (w.succeeds, w.settled);
  }

outcome_cases :
    (o : WorkerRun)
    → (o ≡ returned) ⊎ ((e : Text) × (o ≡ failed e)) ⊎ ((x : Text) × (o ≡ escaped x))
outcome_cases returned = inl refl
outcome_cases (failed e) = inr (inl (e, refl))
outcome_cases (escaped x) = inr (inr (x, refl))

module _ {P C : Type 0} (clock : ℕ → Time) (uuid4 : ℕ → Text) (idle_available : ℕ → Bool)
    (workers : BackgroundJobKind → Option (Worker P C)) (options : Options)
    (calm : AreCalm workers) where
  run_leased-Steps :
      (job : BackgroundJobRecord P) (worker : Worker P C) (lease : InferenceLeaseResult)
      (r : Runner P C)
      → workers job.kind ≡ some worker
      → Stored r.queue job.job_id
      → Steps workers job r
          (run_leased clock uuid4 idle_available workers options worker job lease r)
  unfolding run_leased
  run_leased-Steps job worker lease r known st = elim (outcome_cases (worker.outcome job)) [
    | inl e ↦ rw (e, run_leased) (closed none)
    | inr (inl (x, e)) ↦ rw (e, run_leased) (closed (some x))
    | inr (inr (x, e)) ↦
        rw (e, run_leased) (record { keeps = quiet; ends = inr (x, refl, (worker, known, e)) })
  ]
    where
      quiet : IsCalm r.queue (worker.queue_meanwhile job r.queue)
      quiet = calm job.kind worker job r.queue known

      after_worker : Runner P C
      after_worker = record r {
        queue = worker.queue_meanwhile job r.queue;
        inference_scheduler = elim r.inference_scheduler [
          | none ↦ none
          | some s ↦ some (worker.meanwhile job s)
        ];
      }

      closed :
          (exception : Option Text)
          → Steps workers job r (
              close_job clock uuid4 idle_available workers options exception job lease after_worker)
      closed exception = Settles-Steps workers job r after_worker _ quiet (
          close_job-StepSettles clock uuid4 idle_available workers options job after_worker
            (quiet.stored job.job_id st) exception lease)

  same_queue-Steps :
      (job : BackgroundJobRecord P) (r r' : Runner P C)
      (after : Runner P C × Result RunnerError (Unit {0}))
      → r'.queue ≡ r.queue
      → Steps workers job r' after
      → Steps workers job r after
  same_queue-Steps job r r' after same t = record {
    keeps = subst (λ q. IsCalm q after.0.queue) same t.keeps;
    ends = t.ends;
  }

  acquired-Steps :
      (job : BackgroundJobRecord P) (worker : Worker P C) (lease : InferenceLeaseResult)
      (r : Runner P C)
      → workers job.kind ≡ some worker
      → Stored r.queue job.job_id
      → Steps workers job r (
          if is_acquired lease
          then run_leased clock uuid4 idle_available workers options worker job lease r
          else apply_inference_lease_rejection clock uuid4 idle_available workers options job lease
              r)
  acquired-Steps job worker lease r known st = elim (Bool-cases (is_acquired lease)) [
    | inl e ↦ rw e (run_leased-Steps job worker lease r known st)
    | inr e ↦ rw e (
        Settles-Steps workers job r r _ (Calm_refl r.queue) (
          apply_inference_lease_rejection-StepSettles clock uuid4 idle_available workers options job
            r st lease))
  ]

  run_with-Steps :
      (job : BackgroundJobRecord P) (worker : Option (Worker P C)) (r : Runner P C)
      → workers job.kind ≡ worker
      → Stored r.queue job.job_id
      → Steps workers job r (run_with clock uuid4 idle_available workers options worker job r)
  unfolding run_with
  run_with-Steps job none r known st =
      Settles-Steps workers job r r _ (Calm_refl r.queue)
        (missing_worker-StepSettles clock uuid4 idle_available workers options job r st)
  run_with-Steps job (some worker) r known st =
      let (r', lease) =
        acquire_inference_lease clock uuid4 idle_available workers options job worker r in
      let same = acquire-queue clock uuid4 idle_available workers options job worker r in
      same_queue-Steps job r r' _ same
        (acquired-Steps job worker lease r' known (subst (λ q. Stored q job.job_id) (sym same) st))

  pub run_job-Steps :
      (job : BackgroundJobRecord P) (r : Runner P C)
      → Stored r.queue job.job_id
      → Steps workers job r (run_job clock uuid4 idle_available workers options job r)
  unfolding run_job
  run_job-Steps job r st = run_with-Steps job (workers job.kind) r refl st

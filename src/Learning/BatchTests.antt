-- ===== src/Learning/BatchTests.antt =====
-- The runner at work on a queue of two jobs whose worker takes a lease of the inference scheduler.
use iris_mind_v.Prelude.{
  ℕ, ◌+◌, ◌≡◌, sym, subst, text, text_eq, decimal, Option, none, some, true, false, Bool, List, [],
  ◌∷◌, length, arith,
}
use iris_mind_v.Learning.Jobs.{BackgroundJobKind, BackgroundJobRecord}
use iris_mind_v.Learning.Queue.{Queue}
use iris_mind_v.Learning.Runs.{Op, enqueue_op, cancelled_op, run}
use iris_mind_v.Learning.Stepping.{IsCalm, AreCalm}
use iris_mind_v.Learning.Calm.{run-IsCalm}
use iris_mind_v.Inference.Models.{defer, LocalInferenceResourcePolicy}
use iris_mind_v.Inference.Scheduler.State.{new_scheduler}
use iris_mind_v.Learning.Runner.{failed, escaped, Worker, Runner, Options, lease_jobs, run_once}
use iris_mind_v.Learning.Batch.{BatchEnds, run_once-settles}
use iris_mind_v.Learning.Tests.{job, policy, state, state-IsValid}

abbrev resources : LocalInferenceResourcePolicy
resources = record {
  enabled = true;
  large_llm_concurrency_limit = 1;
  small_classifier_concurrency_limit = 1;
  embedding_concurrency_limit = 1;
  reranker_concurrency_limit = 1;
  background_when_busy = defer;
  proactive_when_busy = defer;
  low_priority_when_warming = defer;
  background_when_unavailable = defer;
  proactive_when_unavailable = defer;
  user_facing_when_unavailable = defer;
}

abbrev options : Options
options = record {
  max_jobs_per_run = 5;
  lease_seconds = 30;
  queue_policy = policy;
  resource_policy = resources;
}

-- A job that is enqueued while a worker runs.
abbrev meantime : List (Op ℕ)
meantime = enqueue_op (job (text "j9")) ∷ cancelled_op (text "j8") 40 (text "gone") ∷ []

abbrev failing_worker : Worker ℕ ℕ
failing_worker = record {
  is_cancellable = true;
  outcome = λ job. failed (text "no answer");
  meanwhile = λ job s. s;
  queue_meanwhile = λ job q. run meantime q;
}

abbrev exiting_worker : Worker ℕ ℕ
exiting_worker = record failing_worker { outcome = λ job. escaped (text "SystemExit") }

abbrev workers : BackgroundJobKind → Option (Worker ℕ ℕ)
workers BackgroundJobKind.reflection = some exiting_worker
workers kind = some failing_worker

calm_worker :
    (kind : BackgroundJobKind) (worker : Worker ℕ ℕ)
    → workers kind ≡ some worker
    → (q : Queue ℕ) (job : BackgroundJobRecord ℕ) → worker.queue_meanwhile job q ≡ run meantime q
calm_worker kind worker known q job = ground arith

workers-AreCalm : AreCalm workers
workers-AreCalm kind worker job q known =
    subst (IsCalm q) (sym (calm_worker kind worker known q job))
      (run-IsCalm meantime q (tt, (tt, tt)))

abbrev clock : ℕ → ℕ
clock n = 100 + n

abbrev never_idle : ℕ → Bool
never_idle n = false

abbrev runner : Runner ℕ ℕ
runner = record {
  queue = state;
  inference_scheduler = some new_scheduler;
  readings = 0;
  latest_metrics = none;
}

run_once-settles_example :
    let jobs = (lease_jobs clock decimal never_idle workers options runner).1 in
    let (after, result) = run_once clock decimal never_idle workers options runner in
    BatchEnds workers (length jobs) jobs after.queue result
run_once-settles_example =
    run_once-settles clock decimal never_idle workers options workers-AreCalm runner
      state-IsValid.keyed

-- ===== src/Learning/Totals.antt =====
-- The totals of `collect_metrics` (iris/runtime/learning/queue.py).
use iris_mind_v.Prelude.{
  sum_of, ℕ, ◌+◌, ◌≡◌, refl, ap, ◌∙◌, ◌==◌, Bool, true, false, Bool-cases, inl, inr, if◌then◌else◌,
  arith, List, [], ◌∷◌, map, count, count-sorted, select, elem, sorted, All, All-map,
}
use iris_mind_v.Prelude.Dict.{values}
use iris_mind_v.Learning.Jobs.{
  Time, succeeded, failed_retryable, failed_permanent, cancelled, job_status_eq, BackgroundJobKind,
  job_kind_eq, BackgroundJobRecord,
}
use iris_mind_v.Learning.Policy.{BackgroundJobKindMetrics, kind_queue_depth}
use iris_mind_v.Learning.Records.{
  active_lease, is_backlog_pending, in_backlog, backlog_pending_count,
}
use iris_mind_v.Learning.Queue.{Queue}
use iris_mind_v.Learning.Metrics.{
  kind_le, job_kinds, status_count, kind_metrics, metrics_from_jobs, collect_metrics,
}

count_absent :
    (k : BackgroundJobKind) (ks : List BackgroundJobKind)
    → elem k ks ≡ false
    → count (λ j. j == k) ks ≡ 0
unfolding elem count
count_absent k [] h = refl
count_absent k (j ∷ ks) h = ground (arith, count_absent k ks)

module _ {P : Type 0} where
  -- Summing by kind adds each job as often as its kind occurs.
  by_kind :
      (BackgroundJobRecord P → Bool) → List BackgroundJobKind → List (BackgroundJobRecord P) → ℕ
  by_kind p ks jobs = sum_of (λ k. count p (select (λ job. job.kind == k) jobs)) ks

  by_kind-nil :
      (p : BackgroundJobRecord P → Bool) (ks : List BackgroundJobKind) → by_kind p ks [] ≡ 0
  unfolding by_kind sum_of select count
  by_kind-nil p [] = refl
  by_kind-nil p (k ∷ ks) = omega (arith, by_kind-nil p ks)

  by_kind-cons :
      (p : BackgroundJobRecord P → Bool) (ks : List BackgroundJobKind) (job : BackgroundJobRecord P)
      (jobs : List (BackgroundJobRecord P))
      → by_kind p ks (job ∷ jobs)
        ≡ (if p job then count (λ k. k == job.kind) ks else 0) + by_kind p ks jobs
  unfolding by_kind sum_of select count
  by_kind-cons p [] job jobs = ground arith
  by_kind-cons p (k ∷ ks) job jobs = ground (arith, by_kind-cons p ks job jobs)

  by_kind-count :
      (p : BackgroundJobRecord P → Bool) (ks : List BackgroundJobKind)
      (jobs : List (BackgroundJobRecord P))
      → All (λ job. count (λ k. k == job.kind) ks ≡ 1) jobs
      → by_kind p ks jobs ≡ count p jobs
  unfolding count
  by_kind-count p ks [] h = by_kind-nil p ks
  by_kind-count p ks (job ∷ jobs) h =
      ground (arith, by_kind-cons p ks job jobs, by_kind-count p ks jobs h.1, h.0)

  elem_once :
      (k : BackgroundJobKind) (jobs : List (BackgroundJobRecord P))
      → elem k (job_kinds jobs) ≡ true
      → count (λ j. j == k) (job_kinds jobs) ≡ 1
  unfolding job_kinds elem count
  elem_once k [] h = cc
  elem_once k (job ∷ jobs) h = elim (Bool-cases (elem job.kind (job_kinds jobs))) [
    | inl old ↦ rw old (elem_once k jobs (rw old at h))
    | inr new ↦ rw new (elim (job_kind_eq.dec job.kind k) [
      | yes same ↦ ground (
        arith,
        count_absent job.kind (job_kinds jobs) new,
        count_absent k (job_kinds jobs),
        ap (λ j. elem j (job_kinds jobs)) same,
      )
      | no other ↦ ground (arith, elem_once k jobs, rw new at h)
    ])
  ]

  elem_kept :
      (k : BackgroundJobKind) (job : BackgroundJobRecord P) (jobs : List (BackgroundJobRecord P))
      → elem k (job_kinds jobs) ≡ true
      → elem k (job_kinds (job ∷ jobs)) ≡ true
  unfolding job_kinds elem
  elem_kept k job jobs h = ground arith

  elem_head :
      (job : BackgroundJobRecord P) (jobs : List (BackgroundJobRecord P))
      → elem job.kind (job_kinds (job ∷ jobs)) ≡ true
  unfolding job_kinds elem
  elem_head job jobs = ground arith

  all_present :
      (jobs : List (BackgroundJobRecord P))
      → All (λ job. elem job.kind (job_kinds jobs) ≡ true) jobs
  all_present [] = tt
  all_present (job ∷ jobs) =
      (elem_head job jobs, All-map (λ j h. elem_kept j.kind job jobs h) jobs (all_present jobs))

  -- The sum over the kinds of the jobs, in whatever order they are sorted, is the count over the jobs.
  by_kind-total :
      (p : BackgroundJobRecord P → Bool) (jobs : List (BackgroundJobRecord P))
      → by_kind p (sorted kind_le (job_kinds jobs)) jobs ≡ count p jobs
  by_kind-total p jobs = by_kind-count p (sorted kind_le (job_kinds jobs)) jobs (
      All-map
        (λ job h.
          count-sorted kind_le (λ k. k == job.kind) (job_kinds jobs) ∙ elem_once job.kind jobs h)
        jobs (all_present jobs))

  sum_of-map :
      (f : BackgroundJobKindMetrics → ℕ) (p : BackgroundJobRecord P → Bool)
      (jobs : List (BackgroundJobRecord P)) (now : Time)
      → ((k : BackgroundJobKind)
          → f (kind_metrics k jobs now) ≡ count p (select (λ job. job.kind == k) jobs))
      → (ks : List BackgroundJobKind)
      → sum_of f (map (λ k. kind_metrics k jobs now) ks) ≡ by_kind p ks jobs
  unfolding sum_of by_kind
  sum_of-map f p jobs now h [] = refl
  sum_of-map f p jobs now h (k ∷ ks) = omega (arith, h k, sum_of-map f p jobs now h ks)

  total :
      (f : BackgroundJobKindMetrics → ℕ) (p : BackgroundJobRecord P → Bool)
      (jobs : List (BackgroundJobRecord P)) (now : Time)
      → ((k : BackgroundJobKind)
          → f (kind_metrics k jobs now) ≡ count p (select (λ job. job.kind == k) jobs))
      → sum_of f (map (λ k. kind_metrics k jobs now) (sorted kind_le (job_kinds jobs)))
        ≡ count p jobs
  total f p jobs now h =
      sum_of-map f p jobs now h (sorted kind_le (job_kinds jobs)) ∙ by_kind-total p jobs

  -- Within one kind, the pending and the failed jobs are its backlog.
  kind_depth :
      (now : Time) (k : BackgroundJobKind) (jobs : List (BackgroundJobRecord P))
      → let mine = select (λ job. job.kind == k) jobs in
        backlog_pending_count mine k now + status_count failed_retryable mine
        ≡ count (in_backlog now) mine
  unfolding backlog_pending_count status_count in_backlog is_backlog_pending select count
  kind_depth now k [] = omega arith
  kind_depth now k (job ∷ jobs) = ground (arith, kind_depth now k jobs)

  -- The totals of collect_metrics, which it sums over the kinds of the stored jobs, are the
  -- counts over all stored jobs: the backlog for queue_depth, the active leases for leased, and
  -- the jobs of each status for the others.
  pub collect_metrics_totals :
      (now : Time) (q : Queue P)
      → let m = collect_metrics now q in
        let jobs = values q.jobs in
        (m.queue_depth ≡ count (in_backlog now) jobs)
        × (m.leased ≡ count (active_lease now) jobs)
        × (m.succeeded ≡ status_count succeeded jobs)
        × (m.failed_retryable ≡ status_count failed_retryable jobs)
        × (m.failed_permanent ≡ status_count failed_permanent jobs)
        × (m.cancelled ≡ status_count cancelled jobs)
  unfolding collect_metrics metrics_from_jobs kind_metrics kind_queue_depth status_count
  collect_metrics_totals now q = (
    total (λ m. kind_queue_depth m) (in_backlog now) (values q.jobs) now
        (λ k. kind_depth now k (values q.jobs)),
    total (λ m. m.leased) (active_lease now) (values q.jobs) now (λ k. refl),
    total (λ m. m.succeeded) (λ job. job.status == succeeded) (values q.jobs) now (λ k. refl),
    total (λ m. m.failed_retryable) (λ job. job.status == failed_retryable) (values q.jobs) now
        (λ k. refl),
    total (λ m. m.failed_permanent) (λ job. job.status == failed_permanent) (values q.jobs) now
        (λ k. refl),
    total (λ m. m.cancelled) (λ job. job.status == cancelled) (values q.jobs) now (λ k. refl),
  )

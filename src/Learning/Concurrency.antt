-- ===== src/Learning/Concurrency.antt =====
-- `lease_due` (iris/runtime/learning/queue.py) keeps each kind to its concurrency limit.
use iris_mind_v.Prelude.{
  ℕ, ◌≤◌, ◌<◌, ◌≡◌, sym, ap, ◌∙◌, inl, inr, Text, text_eq, Option, some, ◌==◌, Bool, true, false,
  ◌&&◌, leb, max, arith, List, [], ◌∷◌, length, sorted, Bool-cases,
}
use native.Mathlib.Nat.{le_refl, le_trans}
use iris_mind_v.Prelude.Dict.{values, lookup, IsKeyed, count-insert_old}
use iris_mind_v.Prelude.Snapshot.{
  IsCurrent, sorted-values-IsCurrent, IsCurrent-insert, IsCurrent-skip,
}
use iris_mind_v.Learning.Jobs.{Time, BackgroundJobKind, job_kind_eq, BackgroundJobRecord}
use iris_mind_v.Learning.Policy.{BackgroundJobKindPolicy, BackgroundJobQueuePolicy}
use iris_mind_v.Learning.Records.{replace_job, active_lease, leased_counts}
use iris_mind_v.Learning.Queue.{Queue, job_order_le, requires_idle}
use iris_mind_v.Learning.Lease.{
  Leasing, kind_policy_of, lease_update, passed_over, take_job, lease_loop, lease_due,
}

module _ {P : Type 0} where
  abbrev pub id_of : BackgroundJobRecord P → Text
  id_of job = job.job_id

module _ {P : Type 0} (now : Time) (max_items lease_seconds : ℕ)
    (policy : Option BackgroundJobQueuePolicy) (idle_available : Bool) where
  -- What each job keeps, passed over or taken, holds when the loop ends.
  pub lease_loop_ind {ℓ} :
      (I : List (BackgroundJobRecord P) → Leasing P → Type ℓ)
      → ((job : BackgroundJobRecord P) (rest : List (BackgroundJobRecord P)) (acc : Leasing P)
          → I (job ∷ rest) acc
          → passed_over now policy idle_available job acc.leased_counts ≡ true
          → I rest acc)
      → ((job : BackgroundJobRecord P) (rest : List (BackgroundJobRecord P)) (acc : Leasing P)
          → I (job ∷ rest) acc
          → passed_over now policy idle_available job acc.leased_counts ≡ false
          → I rest (take_job now lease_seconds job acc))
      → (jobs : List (BackgroundJobRecord P)) (acc : Leasing P) → I jobs acc
      → (rest : List (BackgroundJobRecord P)) × I rest
          (lease_loop now max_items lease_seconds policy idle_available jobs acc)
  unfolding lease_loop
  lease_loop_ind I over take [] acc h = ([], h)
  lease_loop_ind I over take (job ∷ rest) acc h =
      elim (Bool-cases (passed_over now policy idle_available job acc.leased_counts)) [
        | inl skip ↦ rw skip (lease_loop_ind I over take rest acc (over job rest acc h skip))
        | inr go ↦
            let acc' = take_job now lease_seconds job acc in
            elim (Bool-cases (leb max_items (length acc'.taken))) [
              | inl full ↦ rw (go, full) (rest, take job rest acc h go)
              | inr more ↦
                  rw (go, more) (lease_loop_ind I over take rest acc' (take job rest acc h go))
            ]
      ]

  module _ (q : Queue P) where
    abbrev before : BackgroundJobKind → ℕ
    before kind = leased_counts (values q.jobs) now kind

    record Tracked (rest : List (BackgroundJobRecord P)) (acc : Leasing P) : Type 0 where
      current : IsCurrent id_of acc.queue.jobs rest
      counted :
          (kind : BackgroundJobKind)
          → leased_counts (values acc.queue.jobs) now kind ≤ acc.leased_counts kind
      bounded :
          (kind : BackgroundJobKind) (p : BackgroundJobKindPolicy)
          → kind_policy_of policy kind ≡ some p
          → acc.leased_counts kind ≤ max (before kind) p.concurrency_limit

    counted-take :
        (job : BackgroundJobRecord P) (acc : Leasing P) (kind : BackgroundJobKind)
        → lookup job.job_id acc.queue.jobs ≡ some job
        → leased_counts (values acc.queue.jobs) now kind ≤ acc.leased_counts kind
        → let acc' = take_job now lease_seconds job acc in
          leased_counts (values acc'.queue.jobs) now kind ≤ acc'.leased_counts kind
    unfolding take_job leased_counts replace_job
    counted-take job acc kind found h = ground (
      arith,
      count-insert_old (λ (j : BackgroundJobRecord P). j.kind == kind && active_lease now j)
          job.job_id (replace_job job (lease_update now lease_seconds)) job acc.queue.jobs found,
    )

    room_left :
        (job : BackgroundJobRecord P) (counts : BackgroundJobKind → ℕ) (p : BackgroundJobKindPolicy)
        → passed_over now policy idle_available job counts ≡ false
        → kind_policy_of policy job.kind ≡ some p
        → counts job.kind < p.concurrency_limit
    unfolding passed_over requires_idle
    room_left job counts p go lim = ground arith

    bounded-take :
        (job : BackgroundJobRecord P) (acc : Leasing P) (kind : BackgroundJobKind)
        (p : BackgroundJobKindPolicy)
        → passed_over now policy idle_available job acc.leased_counts ≡ false
        → kind_policy_of policy kind ≡ some p
        → acc.leased_counts kind ≤ max (before kind) p.concurrency_limit
        → (take_job now lease_seconds job acc).leased_counts kind
          ≤ max (before kind) p.concurrency_limit
    unfolding take_job
    bounded-take job acc kind p go lim h = elim (job_kind_eq.dec kind job.kind) [
      | yes same ↦
          let lim' : kind_policy_of policy job.kind ≡ some p =
            ap (kind_policy_of policy) (sym same) ∙ lim in
          let room : acc.leased_counts job.kind < p.concurrency_limit =
            room_left job acc.leased_counts p go lim' in
          let here : acc.leased_counts kind < p.concurrency_limit = rw same room in ground arith
      | no other ↦ ground arith
    ]

  abbrev pub loop_start : Queue P → Leasing P
  loop_start q = record { queue = q; leased_counts = leased_counts (values q.jobs) now; taken = [] }

  Tracked-start :
      (q : Queue P)
      → IsKeyed id_of q.jobs
      → Tracked q (sorted job_order_le (values q.jobs)) (loop_start q)
  Tracked-start q w = record {
    current = sorted-values-IsCurrent id_of job_order_le q.jobs w;
    counted = λ kind. le_refl _;
    bounded = λ kind p lim. omega arith;
  }

  Tracked-over :
      (q : Queue P) (job : BackgroundJobRecord P) (rest : List (BackgroundJobRecord P))
      (acc : Leasing P)
      → Tracked q (job ∷ rest) acc
      → passed_over now policy idle_available job acc.leased_counts ≡ true
      → Tracked q rest acc
  Tracked-over q job rest acc t skip = record {
    current = IsCurrent-skip id_of job rest t.current;
    counted = t.counted;
    bounded = t.bounded;
  }

  Tracked-take :
      (q : Queue P) (job : BackgroundJobRecord P) (rest : List (BackgroundJobRecord P))
      (acc : Leasing P)
      → Tracked q (job ∷ rest) acc
      → passed_over now policy idle_available job acc.leased_counts ≡ false
      → Tracked q rest (take_job now lease_seconds job acc)
  unfolding take_job
  Tracked-take q job rest acc t go = record {
    current = IsCurrent-insert id_of job _ acc.queue.jobs rest t.current;
    counted = λ kind. counted-take q job acc kind t.current.current.0 (t.counted kind);
    bounded = λ kind p lim. bounded-take q job acc kind p go lim (t.bounded kind p lim);
  }

  -- In a queue whose jobs stand under their ids, after lease_due no kind for which the policy
  -- has a limit holds more active leases than that limit, unless it held more before, and then
  -- no more than before.
  pub lease_due-leased_counts :
      (q : Queue P)
      → IsKeyed id_of q.jobs
      → (kind : BackgroundJobKind) (p : BackgroundJobKindPolicy)
      → kind_policy_of policy kind ≡ some p
      → leased_counts
          (values (lease_due now max_items lease_seconds policy idle_available q).0.jobs)
          now
          kind
        ≤ max (leased_counts (values q.jobs) now kind) p.concurrency_limit
  unfolding lease_due
  lease_due-leased_counts q w kind p lim =
      let (rest, t) =
        lease_loop_ind (Tracked q) (Tracked-over q) (Tracked-take q)
          (sorted job_order_le (values q.jobs)) (loop_start q) (Tracked-start q w) in
      let ends = le_trans (t.counted kind) (t.bounded kind p lim) in
      elim (Bool-cases (leb max_items 0)) [
        | inl none_asked ↦ rw none_asked (omega arith)
        | inr some_asked ↦ rw some_asked ends
      ]

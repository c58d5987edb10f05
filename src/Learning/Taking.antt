-- ===== src/Learning/Taking.antt =====
-- Which jobs `lease_due` (iris/runtime/learning/queue.py) hands out, and what it leaves alone.
use iris_mind_v.Prelude.{
  ℕ, ◌≤◌, ◌<◌, ◌≡◌, refl, ◌∙◌, inl, inr, Text, text_eq, Option, some, Bool, true, false, not, ◌||◌,
  leb, arith, List, [], ◌∷◌, length, length-append, All, All-append, sorted, sorted-All, Bool-cases,
}
use iris_mind_v.Prelude.Dict.{
  values, values-lookup, lookup, lookup-insert_self, lookup-insert_ne, IsKeyed,
}
use iris_mind_v.Learning.Jobs.{Time, BackgroundJobKind, job_kind_eq, BackgroundJobRecord}
use iris_mind_v.Learning.Policy.{BackgroundJobQueuePolicy}
use iris_mind_v.Learning.Records.{replace_job, is_leaseable}
use iris_mind_v.Learning.Queue.{Queue, job_order_le, requires_idle}
use iris_mind_v.Learning.Lease.{
  Leasing, kind_policy_of, lease_update, passed_over, take_job, lease_loop, lease_due,
}
use iris_mind_v.Learning.Concurrency.{id_of, lease_loop_ind, loop_start}

module _ {P : Type 0} (now : Time) (max_items lease_seconds : ℕ)
    (policy : Option BackgroundJobQueuePolicy) (idle_available : Bool) where
  -- A job that may be leased: its time has come, and it has the idle time that it asks for.
  pub record MayTake (job : BackgroundJobRecord P) : Type 0 where
    pub leaseable : is_leaseable now job ≡ true
    pub idle : not (requires_idle job (kind_policy_of policy job.kind)) || idle_available ≡ true

  MayTake-of_go :
      (job : BackgroundJobRecord P) (counts : BackgroundJobKind → ℕ)
      → passed_over now policy idle_available job counts ≡ false
      → MayTake job
  unfolding passed_over
  MayTake-of_go job counts go = record { leaseable = ground arith; idle = ground arith }

  -- The job is the leased form of one that was stored and could be taken.
  pub record IsTaken (q : Queue P) (job : BackgroundJobRecord P) : Type 0 where
    pub old : BackgroundJobRecord P
    pub stored : lookup old.job_id q.jobs ≡ some old
    pub may : MayTake old
    pub now_is : job ≡ replace_job old (lease_update now lease_seconds)

  -- What became of a job that was stored.
  pub data Fate (q' : Queue P) (id : Text) (old : BackgroundJobRecord P) : Type 0 where
    untouched : lookup id q'.jobs ≡ some old → Fate q' id old
    taken :
        MayTake old
        → lookup id q'.jobs ≡ some (replace_job old (lease_update now lease_seconds))
        → Fate q' id old

  record Traced (q : Queue P) (rest : List (BackgroundJobRecord P)) (acc : Leasing P) : Type 0 where
    origin : All (λ job. lookup job.job_id q.jobs ≡ some job) rest
    from : All (IsTaken q) acc.taken
    fates :
        (id : Text) (old : BackgroundJobRecord P)
        → lookup id q.jobs ≡ some old
        → Fate acc.queue id old

  Traced-over :
      (q : Queue P) (job : BackgroundJobRecord P) (rest : List (BackgroundJobRecord P))
      (acc : Leasing P)
      → Traced q (job ∷ rest) acc
      → passed_over now policy idle_available job acc.leased_counts ≡ true
      → Traced q rest acc
  Traced-over q job rest acc t skip = record { origin = t.origin.1; from = t.from; fates = t.fates }

  Traced-take :
      (q : Queue P) (job : BackgroundJobRecord P) (rest : List (BackgroundJobRecord P))
      (acc : Leasing P)
      → Traced q (job ∷ rest) acc
      → passed_over now policy idle_available job acc.leased_counts ≡ false
      → Traced q rest (take_job now lease_seconds job acc)
  unfolding take_job
  Traced-take q job rest acc t go = record {
    origin = t.origin.1;
    from =
        All-append (IsTaken q) acc.taken _ t.from
          (record { old = job; stored = t.origin.0; may = may; now_is = refl }, tt);
    fates = λ id old found. elim (text_eq.dec job.job_id id) [
      | yes same ↦
          let is_job : job ≡ old = ground arith in
          taken (rw (← is_job) may) (rw (← same, ← is_job) (lookup-insert_self _ _ acc.queue.jobs))
      | no other ↦ elim (t.fates id old found) [
        | untouched kept ↦ untouched (lookup-insert_ne _ id _ acc.queue.jobs other ∙ kept)
        | taken m kept ↦ taken m (lookup-insert_ne _ id _ acc.queue.jobs other ∙ kept)
      ]
    ];
  }
    where
      may : MayTake job
      may = MayTake-of_go job acc.leased_counts go

  loop-length :
      (jobs : List (BackgroundJobRecord P)) (acc : Leasing P)
      → length acc.taken < max_items
      → length (lease_loop now max_items lease_seconds policy idle_available jobs acc).taken
        ≤ max_items
  unfolding lease_loop take_job
  loop-length [] acc h = omega arith
  loop-length (job ∷ rest) acc h = ground (
    arith,
    loop-length rest acc,
    loop-length rest (take_job now lease_seconds job acc),
    length-append acc.taken (replace_job job (lease_update now lease_seconds) ∷ []),
  )

  Traced-start :
      (q : Queue P)
      → IsKeyed id_of q.jobs
      → Traced q
          (sorted job_order_le (values q.jobs))
          (loop_start now max_items lease_seconds policy idle_available q)
  Traced-start q w = record {
    origin =
        sorted-All job_order_le (λ job. lookup job.job_id q.jobs ≡ some job) (values q.jobs)
          (values-lookup id_of q.jobs w);
    from = tt;
    fates = λ id old found. untouched found;
  }

  Traced-end :
      (q : Queue P)
      → IsKeyed id_of q.jobs
      → (rest : List (BackgroundJobRecord P)) × Traced q rest (
          lease_loop now max_items lease_seconds policy idle_available
            (sorted job_order_le (values q.jobs))
            (loop_start now max_items lease_seconds policy idle_available q))
  Traced-end q w =
      lease_loop_ind now max_items lease_seconds policy idle_available (Traced q) (Traced-over q)
        (Traced-take q) _ _ (Traced-start q w)

  -- In a queue whose jobs stand under their ids, every job that lease_due hands out is the
  -- leased form of a stored job whose time had come and which had the idle time that it asks
  -- for.
  pub lease_due-IsTaken :
      (q : Queue P)
      → IsKeyed id_of q.jobs
      → All (IsTaken q) (lease_due now max_items lease_seconds policy idle_available q).1
  unfolding lease_due
  lease_due-IsTaken q w =
      let (rest, t) = Traced-end q w in
      elim (Bool-cases (leb max_items 0)) [
        | inl none_asked ↦ rw none_asked tt
        | inr some_asked ↦ rw some_asked t.from
      ]

  -- In a queue whose jobs stand under their ids, lease_due leaves a stored job as it was, or
  -- the job could be taken and is stored leased.
  pub lease_due-Fate :
      (q : Queue P) (id : Text) (old : BackgroundJobRecord P)
      → IsKeyed id_of q.jobs
      → lookup id q.jobs ≡ some old
      → Fate (lease_due now max_items lease_seconds policy idle_available q).0 id old
  unfolding lease_due
  lease_due-Fate q id old w found =
      let (rest, t) = Traced-end q w in
      elim (Bool-cases (leb max_items 0)) [
        | inl none_asked ↦ rw none_asked (untouched found)
        | inr some_asked ↦ rw some_asked (t.fates id old found)
      ]

  -- lease_due of the job queue hands out no more jobs than were asked for, none when none were.
  pub length-lease_due-le_max_items :
      (q : Queue P)
      → length (lease_due now max_items lease_seconds policy idle_available q).1 ≤ max_items
  unfolding lease_due
  length-lease_due-le_max_items q = ground (
    arith,
    loop-length (sorted job_order_le (values q.jobs))
        (loop_start now max_items lease_seconds policy idle_available q),
  )

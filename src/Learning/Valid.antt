-- ===== src/Learning/Valid.antt =====
-- The well-formedness of the queue (iris/runtime/learning/queue.py), and what the `enqueue` methods may do to it.
use iris_mind_v.Prelude.{
  ◌+◌, timedelta, ◌≡◌, refl, ◌∙◌, ◌≢◌, ◌⊎◌, inl, inr, Text, text_eq, Option, none, some, Bool, true,
  arith, ok, raise, is_some, Option-cases,
}
use iris_mind_v.Prelude.Dict.{
  insert-Every, lookup, insert, lookup-insert, lookup-insert_self, IsKeyed, insert-IsKeyed,
}
use iris_mind_v.Learning.Jobs.{Time, BackgroundJobRecord, job_kind_eq}
use iris_mind_v.Learning.Policy.{
  BackgroundJobKindPolicy, BackgroundJobQueuePolicy, BackgroundJobBackpressureReason,
  BackgroundJobBackpressureMode, accept, reject, defer, defer_job_record, for_kind,
}
use iris_mind_v.Learning.Queue.{
  Queue, key_error, new_queue, existing_job, store_job, enqueue, admit, enqueue_with_policy,
}
use iris_mind_v.Learning.Concurrency.{id_of}

pub mode_cases : (m : BackgroundJobBackpressureMode) → (m ≡ accept) ⊎ (m ≡ reject) ⊎ (m ≡ defer)
mode_cases accept = inl refl
mode_cases reject = inr (inl refl)
mode_cases defer = inr (inr refl)

module _ {P : Type 0} where
  -- The jobs stand under their ids, the index names stored jobs, and every stored job is the one that
  -- the index has for its key.
  pub record IsValid (q : Queue P) : Type 0 where
    pub keyed : IsKeyed id_of q.jobs
    pub indexed :
        (key id : Text)
        → lookup key q.idempotency_keys ≡ some id
        → is_some (lookup id q.jobs) ≡ true
    pub entered :
        (id : Text) (job : BackgroundJobRecord P)
        → lookup id q.jobs ≡ some job
        → lookup job.idempotency_key q.idempotency_keys ≡ some id

  pub new_queue-IsValid : IsValid (new_queue {P = P})
  unfolding new_queue lookup
  new_queue-IsValid = record { keyed = tt; indexed = λ key id h. cc; entered = λ id job h. cc }

  -- Writing a job with the id and the key of a stored one.
  pub rewrite-IsValid :
      (q : Queue P) (old new : BackgroundJobRecord P)
      → lookup old.job_id q.jobs ≡ some old
      → new.job_id ≡ old.job_id
      → new.idempotency_key ≡ old.idempotency_key
      → IsValid q
      → IsValid (record q { jobs = insert old.job_id new q.jobs })
  rewrite-IsValid q old new found same_id same_key w = record {
    keyed = insert-IsKeyed id_of old.job_id new q.jobs same_id w.keyed;
    indexed =
        λ key id h. ground (arith, w.indexed key id h, lookup-insert old.job_id id new q.jobs);
    entered =
        insert-Every (λ id job. lookup job.idempotency_key q.idempotency_keys ≡ some id) old.job_id
          new q.jobs (rw same_key (w.entered old.job_id old found)) w.entered;
  }

  store-IsValid :
      (job : BackgroundJobRecord P) (q : Queue P)
      → existing_job job q ≡ ok none
      → IsValid q
      → IsValid (store_job job q)
  unfolding store_job existing_job
  store-IsValid job q fresh w = record {
    keyed = insert-IsKeyed id_of job.job_id job q.jobs refl w.keyed;
    indexed = λ key id h. ground (
      arith,
      w.indexed key id,
      lookup-insert job.job_id id job q.jobs,
      lookup-insert job.idempotency_key key job.job_id q.idempotency_keys,
    );
    entered =
        insert-Every
          (λ id j.
            lookup j.idempotency_key (insert job.idempotency_key job.job_id q.idempotency_keys)
            ≡ some id)
          job.job_id job q.jobs (lookup-insert_self job.idempotency_key _ q.idempotency_keys)
          (λ id j h. ground (
            arith,
            w.entered id j h,
            lookup-insert job.idempotency_key j.idempotency_key job.job_id q.idempotency_keys,
          ));
  }

  -- In a valid queue the index never leads to a job that is not stored.
  pub existing_job-ne-key_error :
      (job : BackgroundJobRecord P) (q : Queue P) → IsValid q → existing_job job q ≢ raise key_error
  unfolding existing_job
  existing_job-ne-key_error job q w h =
      elim (Option-cases (lookup job.idempotency_key q.idempotency_keys)) [
        | inl unknown ↦ ground arith
        | inr (id, known) ↦ ground (arith, w.indexed job.idempotency_key id known)
      ]

  pub fresh_cases :
      (job : BackgroundJobRecord P) (q : Queue P)
      → (existing_job job q ≡ ok none)
        ⊎ ((answer : BackgroundJobRecord P) × (existing_job job q ≡ ok (some answer)))
        ⊎ (existing_job job q ≡ raise key_error)
  unfolding existing_job
  fresh_cases job q = elim (Option-cases (lookup job.job_id q.jobs)) [
    | inr (a, found) ↦ inr (inl (a, ground arith))
    | inl missing ↦ elim (Option-cases (lookup job.idempotency_key q.idempotency_keys)) [
      | inl unknown ↦ inl (ground arith)
      | inr (id, known) ↦ elim (Option-cases (lookup id q.jobs)) [
        | inr (a, found) ↦ inr (inl (a, ground arith))
        | inl gone ↦ inr (inr (ground arith))
      ]
    ]
  ]

  -- What the two `enqueue` methods may do to the queue.
  pub data Course (job : BackgroundJobRecord P) (q q' : Queue P) : Type 0 where
    same : q' ≡ q → Course job q q'
    added :
        (j : BackgroundJobRecord P)
        → existing_job job q ≡ ok none
        → j.job_id ≡ job.job_id
        → j.idempotency_key ≡ job.idempotency_key
        → q' ≡ store_job j q
        → Course job q q'

  pub enqueue-Course : (job : BackgroundJobRecord P) (q : Queue P) → Course job q (enqueue job q).0
  unfolding enqueue
  enqueue-Course job q = elim (fresh_cases job q) [
    | inl fresh ↦ added job fresh refl refl (rw (fresh, enqueue) refl)
    | inr (inl (a, p)) ↦ same (rw (p, enqueue) refl)
    | inr (inr p) ↦ same (rw (p, enqueue) refl)
  ]

  admit-Course :
      (job : BackgroundJobRecord P) (now : Time) (policy : BackgroundJobKindPolicy)
      (reason : Option BackgroundJobBackpressureReason) (q : Queue P)
      → existing_job job q ≡ ok none
      → Course job q (admit job now policy reason q).0
  unfolding admit defer_job_record
  admit-Course job now policy none q fresh = added job fresh refl refl refl
  admit-Course job now policy (some reason) q fresh = elim (mode_cases policy.backpressure_mode) [
    | inl e ↦ added job fresh refl refl (rw e refl)
    | inr (inl e) ↦ same (rw e refl)
    | inr (inr e) ↦
        let until = now + timedelta policy.defer_seconds_when_saturated in
        added (defer_job_record job until reason) fresh refl refl (rw e refl)
  ]

  pub enqueue_with_policy-Course :
      (job : BackgroundJobRecord P) (now : Time) (policy : BackgroundJobQueuePolicy)
      (idle_available : Bool) (q : Queue P)
      → Course job q (enqueue_with_policy job now policy idle_available q).0
  unfolding enqueue_with_policy
  enqueue_with_policy-Course job now policy idle_available q = elim (fresh_cases job q) [
    | inl fresh ↦
        rw (fresh, enqueue_with_policy) (admit-Course job now (for_kind policy job.kind) _ q fresh)
    | inr (inl (a, p)) ↦ same (rw (p, enqueue_with_policy) refl)
    | inr (inr p) ↦ same (rw (p, enqueue_with_policy) refl)
  ]

  existing_job-same :
      (job j : BackgroundJobRecord P) (q : Queue P)
      → j.job_id ≡ job.job_id
      → j.idempotency_key ≡ job.idempotency_key
      → existing_job j q ≡ existing_job job q
  unfolding existing_job
  existing_job-same job j q same_id same_key = ground arith

  pub Course-IsValid :
      (job : BackgroundJobRecord P) (q q' : Queue P) → Course job q q' → IsValid q → IsValid q'
  Course-IsValid job q q' (same p) w = rw p w
  Course-IsValid job q q' (added j fresh same_id same_key p) w =
      rw p (store-IsValid j q (existing_job-same job j q same_id same_key ∙ fresh) w)

-- ===== src/Inference/Runs.antt =====
-- The slot limits (iris/runtime/inference/scheduler.py) over every sequence of calls.
use iris_mind_v.Prelude.{
  ◌≤◌, ◌≡◌, refl, ap, inl, inr, Text, text_eq, none, some, ◌==◌, Bool, true, arith, List, [], ◌∷◌,
  count, Option-cases,
}
use iris_mind_v.Prelude.Dict.{
  Dict, values, lookup, insert, remove, insert-IsKeyed, key-lookup, count-insert_old,
}
use iris_mind_v.Inference.Models.{
  Time, InferenceResourceState, idle, busy, warming, unavailable, small_classifier, embedding,
  reranker, slot_kind_eq, LocalInferenceResourcePolicy, InferenceLeaseCancellationToken,
}
use iris_mind_v.Inference.Scheduler.{
  ActiveLease, Scheduler, new_scheduler, is_large, slot_count, large_count, set_state, release,
  on_token,
}
use iris_mind_v.Inference.Leases.{id_of, remove-IsKeyed, count-remove-le}
use iris_mind_v.Inference.Freed.{large_count-count}
use iris_mind_v.Inference.Limits.{IsWithinLimits, IsSound, acquire-IsSound}
use iris_mind_v.Inference.Busy.{Op, set_state_op, acquire_op, release_op, token_op, apply, run}

module _ {C : Type 0} (policy : LocalInferenceResourcePolicy) where
  -- Each lease id that `uuid4` returns is none of an active lease.
  abbrev pub IsFresh : List (Op C) → Scheduler C → Type 0
  IsFresh [] s = Unit
  IsFresh (acquire_op request now id ∷ ops) s =
      (lookup id s.active_leases ≡ none) × IsFresh ops (apply policy (acquire_op request now id) s)
  IsFresh (op ∷ ops) s = IsFresh ops (apply policy op s)

  -- Fewer leases keep the limits.
  fewer-IsWithinLimits :
      (d e : Dict Text (ActiveLease C))
      → ((p : ActiveLease C → Bool)
          → ((l m : ActiveLease C) → l.request ≡ m.request → p l ≡ p m)
          → count p (values e) ≤ count p (values d))
      → IsWithinLimits policy d
      → IsWithinLimits policy e
  unfolding slot_count
  fewer-IsWithinLimits d e h w = record {
    large = omega (
      arith,
      w.large,
      large_count-count d,
      large_count-count e,
      h (λ l. is_large l.request.slot_kind) (λ l m same. ap (λ r. is_large r.slot_kind) same),
    );
    small = omega (
      arith,
      w.small,
      h (λ l. l.request.slot_kind == small_classifier)
          (λ l m same. ap (λ r. r.slot_kind == small_classifier) same),
    );
    embeddings = omega (
      arith,
      w.embeddings,
      h (λ l. l.request.slot_kind == embedding)
          (λ l m same. ap (λ r. r.slot_kind == embedding) same),
    );
    rerankers = omega (
      arith,
      w.rerankers,
      h (λ l. l.request.slot_kind == reranker) (λ l m same. ap (λ r. r.slot_kind == reranker) same),
    );
  }

  set_state-IsSound :
      (state : InferenceResourceState) (now : Time) (s : Scheduler C)
      → IsSound policy s
      → IsSound policy (set_state state now s)
  unfolding set_state
  set_state-IsSound idle now s w = record { keyed = w.keyed; within = w.within }
  set_state-IsSound busy now s w = record { keyed = w.keyed; within = w.within }
  set_state-IsSound warming now s w = record { keyed = w.keyed; within = w.within }
  set_state-IsSound unavailable now s w = record { keyed = w.keyed; within = w.within }

  release-IsSound :
      (id : Text) (s : Scheduler C) → IsSound policy s → IsSound policy (release id s).0
  unfolding release
  release-IsSound id s w = elim (Option-cases (lookup id s.active_leases)) [
    | inl missing ↦ rw (missing, release) w
    | inr (l, found) ↦
        rw (found, release)
          (record {
            keyed = remove-IsKeyed id s.active_leases w.keyed;
            within =
                fewer-IsWithinLimits s.active_leases (remove id s.active_leases)
                  (λ p _. count-remove-le p id s.active_leases) w.within;
          })
  ]

  on_token-IsSound :
      (f : InferenceLeaseCancellationToken C → InferenceLeaseCancellationToken C) (id : Text)
      (s : Scheduler C)
      → IsSound policy s
      → IsSound policy (on_token f id s)
  unfolding on_token
  on_token-IsSound f id s w = elim (Option-cases (lookup id s.active_leases)) [
    | inl missing ↦ rw (missing, on_token) w
    | inr (l, found) ↦
        let l' : ActiveLease C = record l { cancellation_token = f l.cancellation_token } in
        rw (found, on_token)
          (record {
            keyed =
                insert-IsKeyed id_of id l' s.active_leases
                  (key-lookup id_of id s.active_leases w.keyed found) w.keyed;
            within =
                fewer-IsWithinLimits s.active_leases (insert id l' s.active_leases)
                  (λ p same. changed p l l' found (same l l' refl)) w.within;
          })
  ]
    where
      changed :
          (p : ActiveLease C → Bool) (l l' : ActiveLease C)
          → lookup id s.active_leases ≡ some l
          → p l ≡ p l'
          → count p (values (insert id l' s.active_leases)) ≤ count p (values s.active_leases)
      changed p l l' found same = ground (arith, count-insert_old p id l' l s.active_leases found)

  run-IsSound :
      (ops : List (Op C)) (s : Scheduler C)
      → policy.enabled ≡ true
      → IsFresh ops s
      → IsSound policy s
      → IsSound policy (run policy ops s)
  unfolding run apply
  run-IsSound [] s on fresh w = w
  run-IsSound (set_state_op state now ∷ ops) s on fresh w =
      run-IsSound ops _ on fresh (set_state-IsSound state now s w)
  run-IsSound (acquire_op request now id ∷ ops) s on fresh w =
      run-IsSound ops _ on fresh.1 (acquire-IsSound policy request now id s on fresh.0 w)
  run-IsSound (release_op id ∷ ops) s on fresh w =
      run-IsSound ops _ on fresh (release-IsSound id s w)
  run-IsSound (token_op f id ∷ ops) s on fresh w =
      run-IsSound ops _ on fresh (on_token-IsSound f id s w)

  -- Whatever sequence of set_state, acquire and release calls and of calls of tokens a new
  -- scheduler goes through, if its policy is enabled and each new lease id is none of an active
  -- lease, each pool of slots stays within its limit, preemptions included.
  pub run-IsWithinLimits :
      (ops : List (Op C))
      → policy.enabled ≡ true
      → IsFresh ops new_scheduler
      → IsWithinLimits policy (run policy ops new_scheduler).active_leases
  unfolding large_count slot_count count values
  run-IsWithinLimits ops on fresh =
      (run-IsSound ops new_scheduler on fresh (record {
        keyed = tt;
        within = record {
          large = omega arith;
          small = omega arith;
          embeddings = omega arith;
          rerankers = omega arith;
        };
      })).within

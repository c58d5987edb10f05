-- ===== src/Activity/Active.antt =====
-- What `active_for_target` (iris/runtime/state/interaction_activity.py) reports, and for how long.
use iris_mind_v.Prelude.{
  ℕ, ◌+◌, ◌≤◌, ◌≡◌, ◌≢◌, refl, ap, ◌∙◌, inl, inr, ◌⊎◌, Text, Option, none, Bool, true, false, not,
  Option-cases, leb, List, [], ◌∷◌, All, All-always, select, arith,
}
use iris_mind_v.Prelude.Dict.{Dict, values, lookup, insert, remove, IsKeyed, insert-IsKeyed}
use iris_mind_v.Activity.Types.{InteractionActivitySnapshot, ActivityEventRecord}
use iris_mind_v.Activity.Store.{
  InteractionActivityKey, key_eq, key_from_snapshot, Store, apply, expired_keys, remove_keys,
  prune_expired, Target, is_active_for, active_for_target,
}
use iris_mind_v.Activity.Events.{Ingress, bounded_expiry, interaction_snapshot_from_event}
use iris_mind_v.Activity.Integrator.{project_event}
use iris_mind_v.Activity.Latest.{apply_cases}

abbrev pub Snapshots : Type 0
Snapshots = Dict InteractionActivityKey InteractionActivitySnapshot

expired_keys-other :
    (now : ℕ) (k : InteractionActivityKey) (d : Snapshots)
    → lookup k d ≡ none
    → All (λ j. k ≢ j) (expired_keys now d)
unfolding lookup expired_keys
expired_keys-other now k [] h = tt
expired_keys-other now k ((j, s) ∷ d) h = ground (arith, expired_keys-other now k d)

remove_keys-other :
    (ks : List InteractionActivityKey) (k : InteractionActivityKey)
    (s : InteractionActivitySnapshot) (d : Snapshots)
    → All (λ j. k ≢ j) ks
    → remove_keys ks ((k, s) ∷ d) ≡ (k, s) ∷ remove_keys ks d
unfolding remove_keys remove
remove_keys-other [] k s d h = refl
remove_keys-other (j ∷ ks) k s d h = ground (arith, h, remove_keys-other ks k s (remove j d) h.1)

-- The snapshots that have not expired, in their order.
remove_keys-values :
    (now : ℕ) (d : Snapshots)
    → IsKeyed key_from_snapshot d
    → values (remove_keys (expired_keys now d) d)
      ≡ select (λ s. not (leb s.expires_at now)) (values d)
unfolding expired_keys remove_keys remove values select
remove_keys-values now [] w = refl
remove_keys-values now ((k, s) ∷ d) w = ground (
  arith,
  w,
  remove_keys-values now d w.2,
  remove_keys-other (expired_keys now d) k s d (expired_keys-other now k d w.1),
)

select-select {ℓ} :
    {A : Type ℓ} (p q : A → Bool) (xs : List A)
    → All (λ x. (p x ≡ false) ⊎ (q x ≡ true)) xs
    → select p (select q xs) ≡ select p xs
unfolding select
select-select p q [] h = refl
select-select p q (x ∷ xs) h = ground (arith, h.0, select-select p q xs h.1)

-- In a store whose snapshots stand under their keys, what active_for_target reports is what a
-- filter over all stored snapshots gives: deleting the expired ones, key by key, loses none
-- that is reported.
pub active_for_target-select :
    (target : Target) (now : ℕ) (store : Store)
    → IsKeyed key_from_snapshot store.snapshots
    → (active_for_target target now store).1
      ≡ select (is_active_for target now) (values store.snapshots)
unfolding active_for_target prune_expired is_active_for
active_for_target-select target now store w =
    ap (λ ss. select (is_active_for target now) ss) (remove_keys-values now store.snapshots w)
    ∙ select-select (is_active_for target now) (λ s. not (leb s.expires_at now))
        (values store.snapshots)
        (All-always
          (λ s. (is_active_for target now s ≡ false) ⊎ (not (leb s.expires_at now) ≡ true))
          (λ s. active_or_expired target now s) (values store.snapshots))
  where
    active_or_expired :
        (target : Target) (now : ℕ) (s : InteractionActivitySnapshot)
        → (is_active_for target now s ≡ false) ⊎ (not (leb s.expires_at now) ≡ true)
    active_or_expired target now s = ground arith

-- Every snapshot of the store has expired by then.
abbrev pub ExpiresBy : ℕ → Store → Type 0
ExpiresBy limit store =
    IsKeyed key_from_snapshot store.snapshots
    × All (λ s. s.expires_at ≤ limit) (values store.snapshots)

insert-All {ℓ} :
    (P : InteractionActivitySnapshot → Type ℓ) (k : InteractionActivityKey)
    (s : InteractionActivitySnapshot) (d : Snapshots)
    → P s
    → All P (values d)
    → All P (values (insert k s d))
unfolding values insert
insert-All P k s [] p h = (p, tt)
insert-All P k s ((j, t) ∷ d) p h = ground (arith, p, h, insert-All P k s d p h.1)

none_active :
    (target : Target) (now : ℕ) (ss : List InteractionActivitySnapshot)
    → All (λ s. s.expires_at ≤ now) ss
    → select (is_active_for target now) ss ≡ []
unfolding select is_active_for
none_active target now [] h = refl
none_active target now (s ∷ ss) h = ground (arith, h.0, none_active target now ss h.1)

module _ (isoformat : ℕ → Text) (fromisoformat : Text → Option (Option ℕ)) where
  apply-ExpiresBy :
      (limit : ℕ) (s : InteractionActivitySnapshot) (store : Store)
      → s.expires_at ≤ limit
      → ExpiresBy limit store
      → ExpiresBy limit (apply isoformat s store).0
  apply-ExpiresBy limit s store h w = apply_cases isoformat (ExpiresBy limit) s store w (
    insert-IsKeyed key_from_snapshot (key_from_snapshot s) s store.snapshots refl w.0,
    insert-All (λ t. t.expires_at ≤ limit) (key_from_snapshot s) s store.snapshots h w.1,
  )

  bounded_expiry-le :
      (event : ActivityEventRecord) (now ttl : ℕ)
      → (now ≤ bounded_expiry fromisoformat event now ttl)
        × (bounded_expiry fromisoformat event now ttl ≤ now + ttl)
  unfolding bounded_expiry
  bounded_expiry-le event now ttl = ground arith

  module _ (ttl : ℕ) where
    -- The events that the journal accepts, with their ingress and the time of their receipt.
    unfoldable pub integrate_all : List (ActivityEventRecord × Ingress × ℕ) → Store → Store
    integrate_all [] store = store
    integrate_all ((event, ingress, received_at) ∷ events) store =
        integrate_all events
          (project_event isoformat fromisoformat ttl event ingress received_at store)

    update-ExpiresBy :
        (event : ActivityEventRecord) (ingress : Ingress) (now limit : ℕ) (store : Store)
        → now + ttl ≤ limit
        → ExpiresBy limit store
        → ExpiresBy limit (project_event isoformat fromisoformat ttl event ingress now store)
    unfolding project_event interaction_snapshot_from_event
    update-ExpiresBy event ingress now limit store h w =
        elim (Option-cases (interaction_snapshot_from_event fromisoformat event ingress now ttl)) [
          | inl e ↦ ground (arith, e, w)
          | inr (s, e) ↦
              ground (arith, e, apply-ExpiresBy limit s store, bounded_expiry-le event now ttl, w)
        ]

    integrate_all-ExpiresBy :
        (events : List (ActivityEventRecord × Ingress × ℕ)) (limit : ℕ) (store : Store)
        → All (λ e. e.2 + ttl ≤ limit) events
        → ExpiresBy limit store
        → ExpiresBy limit (integrate_all events store)
    unfolding integrate_all
    integrate_all-ExpiresBy [] limit store h w = w
    integrate_all-ExpiresBy ((event, ingress, now) ∷ events) limit store h w =
        integrate_all-ExpiresBy events limit
          (project_event isoformat fromisoformat ttl event ingress now store) h.1
          (update-ExpiresBy event ingress now limit store h.0 w)

    -- Activity ends with its time to live: once that time has passed since the receipt of every
    -- event of a run, and all that the store held before has expired, active_for_target reports
    -- nothing, whatever expiry the events asked for.
    pub active_for_target-expired :
        (events : List (ActivityEventRecord × Ingress × ℕ)) (target : Target) (now : ℕ)
        (store : Store)
        → All (λ e. e.2 + ttl ≤ now) events
        → ExpiresBy now store
        → (active_for_target target now (integrate_all events store)).1 ≡ []
    active_for_target-expired events target now store h w =
        let after = integrate_all events store in
        let (keyed, expired) = integrate_all-ExpiresBy events now store h w in
        active_for_target-select target now after keyed
        ∙ none_active target now (values after.snapshots) expired

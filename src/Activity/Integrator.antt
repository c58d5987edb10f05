-- ===== src/Activity/Integrator.antt =====
-- iris/runtime/state/activity_integrator.py: the update of the interaction projection by an event that
-- the journal has accepted.
use iris_mind_v.Prelude.{ℕ, Text, Option, none, some}
use iris_mind_v.Activity.Types.{ActivityEventRecord}
use iris_mind_v.Activity.Store.{Store, apply}
use iris_mind_v.Activity.Events.{Ingress, interaction_snapshot_from_event}

-- What `_update_interaction_projection` does with a projection store.
unfoldable pub project_event :
    (isoformat : ℕ → Text) (fromisoformat : Text → Option (Option ℕ))
    (interaction_max_ttl_seconds : ℕ)
    → ActivityEventRecord
    → Ingress
    → (received_at : ℕ) → Store
    → Store
project_event isoformat fromisoformat interaction_max_ttl_seconds event ingress received_at store =
    elim (interaction_snapshot_from_event fromisoformat event ingress received_at
      interaction_max_ttl_seconds) [
        | none ↦ store
        | some snapshot ↦ (apply isoformat snapshot store).0
      ]

unfoldable pub update_interaction_projection :
    (isoformat : ℕ → Text) (fromisoformat : Text → Option (Option ℕ))
    (interaction_max_ttl_seconds : ℕ)
    → ActivityEventRecord
    → Ingress
    → (received_at : ℕ) → Option Store
    → Option Store
update_interaction_projection isoformat fromisoformat interaction_max_ttl_seconds event ingress
      received_at none =
    none
update_interaction_projection isoformat fromisoformat interaction_max_ttl_seconds event ingress
      received_at (some store) =
    some (
      project_event isoformat fromisoformat interaction_max_ttl_seconds event ingress received_at
        store)

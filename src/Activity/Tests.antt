-- ===== src/Activity/Tests.antt =====
-- The activity theorems at work on two snapshots of one actor that come in the wrong order.
use iris_mind_v.Prelude.{
  ℕ, pos, Text, text, Option, none, some, List, [], ◌∷◌, true, ◌+◌, ◌≡◌, refl, decimal, All, select,
  arith,
}
use iris_mind_v.Prelude.Dict.{lookup, values}
use iris_mind_v.Activity.Types.{
  actor_input_started, actor_input, unknown, InteractionActivitySnapshot, ActivityEventRecord,
}
use iris_mind_v.Activity.Store.{
  InteractionActivityKey, Store, new_store, key_from_snapshot, Target, active_for_target,
  is_active_for,
}
use iris_mind_v.Activity.Events.{Ingress}
use iris_mind_v.Activity.Latest.{apply_all, HasSequences, Covers, apply_all-Covers}
use iris_mind_v.Activity.Registers.{register, is_of, write_all, apply_all-registers}
use iris_mind_v.Activity.Active.{active_for_target-select, integrate_all, active_for_target-expired}

abbrev snapshot_at : (sequence at : ℕ) → InteractionActivitySnapshot
snapshot_at sequence at = record {
  adapter_id = text "desk";
  provider = none;
  actor_id = some (text "ann");
  account_id = none;
  space_id = none;
  channel = actor_input;
  active = true;
  modality = unknown;
  reason = none;
  provider_sequence = some (pos sequence);
  observed_at = at;
  received_at = at;
  expires_at = at + 300;
}

abbrev out_of_order : List InteractionActivitySnapshot
out_of_order = snapshot_at 2 20 ∷ snapshot_at 1 10 ∷ []

new_store-HasSequences : HasSequences new_store
unfolding lookup
new_store-HasSequences k v e = cc

apply_all-Covers_example : All (Covers (apply_all decimal out_of_order new_store)) out_of_order
apply_all-Covers_example =
    apply_all-Covers decimal out_of_order new_store (refl, (refl, tt)) new_store-HasSequences

abbrev anns_key : InteractionActivityKey
anns_key = key_from_snapshot (snapshot_at 1 10)

apply_all-registers_example :
    register anns_key (apply_all decimal out_of_order new_store)
    ≡ write_all (select (is_of anns_key) out_of_order) (register anns_key new_store)
apply_all-registers_example = apply_all-registers decimal anns_key out_of_order new_store

abbrev one_snapshot : Store
one_snapshot = record {
  snapshots = (key_from_snapshot (snapshot_at 1 10), snapshot_at 1 10) ∷ [];
  latest_snapshots = [];
}

abbrev ann : Target
ann = record { provider = none; actor_id = some (text "ann"); account_id = none; space_id = none }

active_for_target-select_example :
    (active_for_target ann 100 one_snapshot).1
    ≡ select (is_active_for ann 100) (values one_snapshot.snapshots)
unfolding lookup
active_for_target-select_example = active_for_target-select ann 100 one_snapshot (refl, refl, tt)

abbrev typing : ActivityEventRecord
typing = record {
  activity_id = text "a1";
  observation_id = none;
  provider_event_id = none;
  provider_sequence = none;
  actor_id = some (text "ann");
  account_id = none;
  device_id = none;
  space_id = none;
  source = none;
  kind = actor_input_started;
  occurred_at = 5;
  received_at = 7;
  metadata = (text "expires_at", text "9999") ∷ [];
}

abbrev desk : Ingress
desk = record { adapter_id = text "desk"; provider = none }

abbrev never : Text → Option (Option ℕ)
never s = none

active_for_target-expired_example :
    (active_for_target ann 400
      (integrate_all decimal never 300 ((typing, desk, 7) ∷ []) new_store)).1
    ≡ []
unfolding values
active_for_target-expired_example =
    active_for_target-expired decimal never 300 ((typing, desk, 7) ∷ []) ann 400 new_store
      (omega arith, tt) (tt, tt)

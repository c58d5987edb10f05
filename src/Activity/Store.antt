-- ===== src/Activity/Store.antt =====
-- iris/runtime/state/interaction_activity.py: the in-memory projection of activity snapshots. The
-- text of an instant, `isoformat`, is a parameter.
use iris_mind_v.Prelude.{
  ℕ, ◌+◌, ℤ, pos, negsuc, greater, int_eq, bool_eq, Text, text, text_eq, option_eq, decimal, ◌++◌,
  Option, none, some, Eq, Bool, ◌&&◌, ◌||◌, ◌==◌, nat_eq, leb, ltb, if◌then◌else◌, List, [], ◌∷◌,
  select, Option-discrete, List-discrete, ℕ_discrete,
}
use iris_mind_v.Prelude.Dict.{Dict, values, lookup, insert, remove}
use iris_mind_v.Activity.Types.{
  InteractionActivityChannel, actor_input, app_output, InteractionActivityChannel-discrete,
  channel_eq, modality_eq, InteractionActivitySnapshot, RuntimeOrderingKey, interaction_activity,
  OrderingConflictReason, duplicate, stale, version_conflict, OrderingDecisionKind, accept,
  ignore_duplicate, ignore_stale, reject_conflict, OrderingDecision,
}

pub record InteractionActivityKey : Type 0 where
  pub adapter_id : Text
  pub provider : Option Text
  pub actor_id : Option Text
  pub account_id : Option Text
  pub space_id : Option Text
  pub channel : InteractionActivityChannel

pub InteractionActivityKey-discrete : Discrete InteractionActivityKey
InteractionActivityKey-discrete = hlevel (
  List-discrete ℕ_discrete,
  Option-discrete (List-discrete ℕ_discrete),
  InteractionActivityChannel-discrete,
)

instance abbrev pub key_eq : Eq InteractionActivityKey
key_eq = record { dec = InteractionActivityKey-discrete }

abbrev pub key_from_snapshot : InteractionActivitySnapshot → InteractionActivityKey
key_from_snapshot s = record {
  adapter_id = s.adapter_id;
  provider = s.provider;
  actor_id = s.actor_id;
  account_id = s.account_id;
  space_id = s.space_id;
  channel = s.channel;
}

-- `channel.value`
unfoldable pub channel_value : InteractionActivityChannel → Text
channel_value actor_input = text "actor_input"
channel_value app_output = text "app_output"

unfoldable pub ordering_key : InteractionActivitySnapshot → RuntimeOrderingKey
ordering_key s = record {
  kind = interaction_activity;
  adapter_id = some s.adapter_id;
  provider = s.provider;
  account_id = s.account_id;
  actor_id = s.actor_id;
  space_id = s.space_id;
  session_id = none;
  channel = some (channel_value s.channel);
}

-- `str(n)`
unfoldable pub int_text : ℤ → Text
int_text (pos n) = decimal n
int_text (negsuc n) = text "-" ++ decimal (n + 1)

unfoldable pub same_snapshot_content : (candidate latest : InteractionActivitySnapshot) → Bool
same_snapshot_content candidate latest =
    candidate.active == latest.active
    && candidate.modality == latest.modality
    && candidate.reason == latest.reason
    && candidate.provider_sequence == latest.provider_sequence
    && candidate.observed_at == latest.observed_at
    && candidate.received_at == latest.received_at

-- `(a, b) < (c, d)` and `(a, b) == (c, d)` of the instants
unfoldable pub earlier : (candidate latest : InteractionActivitySnapshot) → Bool
earlier candidate latest =
    ltb candidate.observed_at latest.observed_at
    || candidate.observed_at == latest.observed_at && ltb candidate.received_at latest.received_at

unfoldable pub same_instants : (candidate latest : InteractionActivitySnapshot) → Bool
same_instants candidate latest =
    candidate.observed_at == latest.observed_at && candidate.received_at == latest.received_at

unfoldable pub same_snapshot_order : (candidate latest : InteractionActivitySnapshot) → Bool
same_snapshot_order candidate latest = elim candidate.provider_sequence [
  | none ↦ same_instants candidate latest
  | some n ↦ elim latest.provider_sequence [
    | none ↦ same_instants candidate latest
    | some m ↦ n == m && same_instants candidate latest
  ]
]

unfoldable pub is_older_snapshot : (candidate latest : InteractionActivitySnapshot) → Bool
is_older_snapshot candidate latest = elim candidate.provider_sequence [
  | none ↦ earlier candidate latest
  | some n ↦ elim latest.provider_sequence [
    | none ↦ earlier candidate latest
    | some m ↦ greater m n || n == m && earlier candidate latest
  ]
]

pub record Store : Type 0 where
  pub snapshots : Dict InteractionActivityKey InteractionActivitySnapshot
  pub latest_snapshots : Dict InteractionActivityKey InteractionActivitySnapshot

abbrev pub new_store : Store
new_store = record { snapshots = []; latest_snapshots = [] }

module _ (isoformat : ℕ → Text) where
  unfoldable pub snapshot_version : InteractionActivitySnapshot → Text
  snapshot_version s = elim s.provider_sequence [
    | some n ↦
        text "sequence:"
        ++ int_text n
        ++ text "|observed_at:"
        ++ isoformat s.observed_at
        ++ text "|received_at:"
        ++ isoformat s.received_at
    | none ↦ isoformat s.observed_at ++ text "|" ++ isoformat s.received_at
  ]

  unfoldable pub ignored_decision :
      RuntimeOrderingKey
      → OrderingDecisionKind
      → OrderingConflictReason
      → (expected observed : InteractionActivitySnapshot) → OrderingDecision
  ignored_decision key decision reason expected observed = record {
    key = key;
    decision = decision;
    conflict = some record {
      reason = reason;
      expected_version = some (snapshot_version expected);
      observed_version = some (snapshot_version observed);
    };
  }

  -- `store.apply(snapshot)`
  unfoldable pub apply : InteractionActivitySnapshot → Store → Store × OrderingDecision
  apply s store =
      let key = key_from_snapshot s in
      let ordered = ordering_key s in
      let accepted : Store × OrderingDecision = (
        record {
          snapshots = insert key s store.snapshots;
          latest_snapshots = insert key s store.latest_snapshots;
        },
        record { key = ordered; decision = accept; conflict = none },
      ) in
      elim (lookup key store.latest_snapshots) [
        | none ↦ accepted
        | some latest ↦
            if same_snapshot_content s latest
            then (store, ignored_decision ordered ignore_duplicate duplicate latest s)
            else if is_older_snapshot s latest
            then (store, ignored_decision ordered ignore_stale stale latest s)
            else if same_snapshot_order s latest
            then (store, ignored_decision ordered reject_conflict version_conflict latest s)
            else accepted
      ]

-- `tuple(key for key, snapshot in self._snapshots.items() if snapshot.expires_at <= now)`
unfoldable pub expired_keys :
    ℕ → Dict InteractionActivityKey InteractionActivitySnapshot → List InteractionActivityKey
expired_keys now [] = []
expired_keys now ((k, s) ∷ d) =
    let rest = expired_keys now d in if leb s.expires_at now then k ∷ rest else rest

-- `for key in keys: del d[key]`
unfoldable pub remove_keys :
    List InteractionActivityKey
    → Dict InteractionActivityKey InteractionActivitySnapshot
    → Dict InteractionActivityKey InteractionActivitySnapshot
remove_keys [] d = d
remove_keys (k ∷ ks) d = remove_keys ks (remove k d)

unfoldable pub prune_expired : ℕ → Store → Store
prune_expired now store = record store {
  snapshots = remove_keys (expired_keys now store.snapshots) store.snapshots;
}

pub record Target : Type 0 where
  pub provider : Option Text
  pub actor_id : Option Text
  pub account_id : Option Text
  pub space_id : Option Text

unfoldable pub is_active_for : Target → ℕ → InteractionActivitySnapshot → Bool
is_active_for target now s =
    s.active
    && ltb now s.expires_at
    && s.provider == target.provider
    && s.actor_id == target.actor_id
    && s.account_id == target.account_id
    && s.space_id == target.space_id

-- `store.active_for_target(...)`
unfoldable pub active_for_target : Target → ℕ → Store → Store × List InteractionActivitySnapshot
active_for_target target now store =
    let store' = prune_expired now store in
    (store', select (is_active_for target now) (values store'.snapshots))

-- ===== src/Activity/Registers.antt =====
-- What the store of iris/runtime/state/interaction_activity.py is for: one register for each key, which
-- sees the snapshots of its key only.
use iris_mind_v.Prelude.{
  ℕ, ◌≡◌, refl, inl, inr, Text, Option, none, some, Option-cases, Bool-cases, Bool, ◌==◌, List, [],
  ◌∷◌, select, arith, if◌then◌else◌,
}
use iris_mind_v.Prelude.Dict.{lookup, lookup-insert_self, lookup-insert_ne}
use iris_mind_v.Activity.Types.{InteractionActivitySnapshot}
use iris_mind_v.Activity.Store.{InteractionActivityKey, key_eq, key_from_snapshot, Store, apply}
use iris_mind_v.Activity.Latest.{refused, apply_all, apply-new, apply-known, apply_cases}

-- A register takes a snapshot unless it holds one for which the snapshot is refused.
unfoldable pub write :
    Option InteractionActivitySnapshot
    → InteractionActivitySnapshot
    → Option InteractionActivitySnapshot
write none s = some s
write (some latest) s = if refused s latest then some latest else some s

unfoldable pub write_all :
    List InteractionActivitySnapshot
    → Option InteractionActivitySnapshot
    → Option InteractionActivitySnapshot
write_all [] held = held
write_all (s ∷ ss) held = write_all ss (write held s)

-- The register of a key in a store.
abbrev pub register : InteractionActivityKey → Store → Option InteractionActivitySnapshot
register key store = lookup key store.latest_snapshots

abbrev pub is_of : InteractionActivityKey → InteractionActivitySnapshot → Bool
is_of key s = key_from_snapshot s == key

module _ (isoformat : ℕ → Text) (key : InteractionActivityKey) where
  apply-own :
      (s : InteractionActivitySnapshot) (store : Store)
      → let own = key_from_snapshot s in
        register own (apply isoformat s store).0 ≡ write (register own store) s
  unfolding write
  apply-own s store =
      let own = key_from_snapshot s in
      elim (Option-cases (register own store)) [
        | inl e ↦
            rw (apply-new isoformat s store e, e) (lookup-insert_self own s store.latest_snapshots)
        | inr (latest, e) ↦
            rw (apply-known isoformat s latest store e, e)
              (elim (Bool-cases (refused s latest)) [
                | inl r ↦ rw r e
                | inr r ↦ rw r (lookup-insert_self own s store.latest_snapshots)
              ])
      ]

  apply-register :
      (s : InteractionActivitySnapshot) (store : Store)
      → register key (apply isoformat s store).0
        ≡ (if is_of key s then write (register key store) s else register key store)
  apply-register s store = elim (key_eq.dec (key_from_snapshot s) key) [
    | yes same ↦ rw (← same) (ground (arith, apply-own s store))
    | no other ↦ ground (
      arith,
      other,
      apply_cases isoformat (λ t. register key t ≡ register key store) s store refl
          (lookup-insert_ne (key_from_snapshot s) key s store.latest_snapshots other),
    )
  ]

  -- The store of activity refines one register for each key: after any snapshots are applied,
  -- the latest snapshot of a key is what a register holds that saw the snapshots of that key
  -- alone, in their order, and took each unless it was refused for the one held.
  pub apply_all-registers :
      (ss : List InteractionActivitySnapshot) (store : Store)
      → register key (apply_all isoformat ss store)
        ≡ write_all (select (is_of key) ss) (register key store)
  unfolding apply_all write_all select
  apply_all-registers [] store = refl
  apply_all-registers (s ∷ ss) store =
      ground (arith, apply_all-registers ss (apply isoformat s store).0, apply-register s store)

-- ===== src/Activity/Latest.antt =====
-- The latest snapshot of each key after a run of applications
-- (iris/runtime/state/interaction_activity.py), whatever their order.
use iris_mind_v.Prelude.{
  ℕ, ◌≡◌, inl, inr, Text, none, some, Bool, false, Option-cases, Bool-cases, ◌||◌, List, [], ◌∷◌,
  All, arith, if◌then◌else◌, subst, sym, ap, ◌∙◌,
}
use iris_mind_v.Prelude.Dict.{
  lookup, insert, lookup-insert_self, lookup-insert_ne, Every, insert-Every,
}
use iris_mind_v.Activity.Types.{InteractionActivitySnapshot}
use iris_mind_v.Activity.Store.{
  key_eq, key_from_snapshot, same_snapshot_content, same_snapshot_order, is_older_snapshot, Store,
  apply,
}
use iris_mind_v.Activity.Ordering.{Sequenced, is_older_irrefl, is_older_trans, refused_not_older}

-- The store's latest snapshot of this one's key is there, and not older than it.
abbrev pub Covers : Store → InteractionActivitySnapshot → Type 0
Covers store s =
    (latest : InteractionActivitySnapshot) × (lookup (key_from_snapshot s) store.latest_snapshots
      ≡ some latest)
    × (is_older_snapshot latest s ≡ false)
    × Sequenced latest

abbrev pub HasSequences : Store → Type 0
HasSequences store = Every (λ k v. Sequenced v) store.latest_snapshots

abbrev pub taken : InteractionActivitySnapshot → Store → Store
taken s store = record {
  snapshots = insert (key_from_snapshot s) s store.snapshots;
  latest_snapshots = insert (key_from_snapshot s) s store.latest_snapshots;
}

abbrev pub refused : (s latest : InteractionActivitySnapshot) → Bool
refused s latest =
    same_snapshot_content s latest || is_older_snapshot s latest || same_snapshot_order s latest

module _ (isoformat : ℕ → Text) where
  -- The snapshots in the order they come.
  unfoldable pub apply_all : List InteractionActivitySnapshot → Store → Store
  apply_all [] store = store
  apply_all (s ∷ ss) store = apply_all ss (apply isoformat s store).0

  pub apply-new :
      (s : InteractionActivitySnapshot) (store : Store)
      → lookup (key_from_snapshot s) store.latest_snapshots ≡ none
      → (apply isoformat s store).0 ≡ taken s store
  unfolding apply
  apply-new s store e = ground (arith, e)

  pub apply-known :
      (s latest : InteractionActivitySnapshot) (store : Store)
      → lookup (key_from_snapshot s) store.latest_snapshots ≡ some latest
      → (apply isoformat s store).0 ≡ (if refused s latest then store else taken s store)
  unfolding apply
  apply-known s latest store e = ground (arith, e)

  -- What holds of the store as it is, and with the snapshot taken, holds after `apply`.
  pub apply_cases {κ} :
      (P : Store → Type κ) (s : InteractionActivitySnapshot) (store : Store)
      → P store
      → P (taken s store)
      → P (apply isoformat s store).0
  apply_cases P s store h k =
      elim (Option-cases (lookup (key_from_snapshot s) store.latest_snapshots)) [
        | inl e ↦ subst P (sym (apply-new s store e)) k
        | inr (latest, e) ↦
            subst P (sym (apply-known s latest store e))
              (elim (Bool-cases (refused s latest)) [ inl r ↦ rw r h | inr r ↦ rw r k ])
      ]

  module _ (s : InteractionActivitySnapshot) (store : Store) (hs : Sequenced s)
      (w : HasSequences store) where
    taken-Covers : Covers (taken s store) s
    taken-Covers = (
      s,
      lookup-insert_self (key_from_snapshot s) s store.latest_snapshots,
      is_older_irrefl s hs,
      hs,
    )

    apply-Covers : Covers (apply isoformat s store).0 s
    apply-Covers = elim (Option-cases (lookup (key_from_snapshot s) store.latest_snapshots)) [
      | inl e ↦ subst (λ t. Covers t s) (sym (apply-new s store e)) taken-Covers
      | inr (latest, e) ↦
          subst (λ t. Covers t s) (sym (apply-known s latest store e))
            (elim (Bool-cases (refused s latest)) [
              | inl r ↦
                  rw r (latest, e, refused_not_older s latest hs (w _ latest e) r, w _ latest e)
              | inr r ↦ rw r taken-Covers
            ])
    ]

    apply-HasSequences : HasSequences (apply isoformat s store).0
    apply-HasSequences =
        apply_cases HasSequences s store w
          (insert-Every (λ k v. Sequenced v) (key_from_snapshot s) s store.latest_snapshots hs w)

    apply-keeps :
        (x : InteractionActivitySnapshot)
        → Sequenced x
        → Covers store x
        → Covers (apply isoformat s store).0 x
    apply-keeps x hx (old, eo, later, ho) =
        elim (key_eq.dec (key_from_snapshot s) (key_from_snapshot x)) [
          | no other ↦
              apply_cases (λ t. Covers t x) s store (old, eo, later, ho)
                (
                  old,
                  lookup-insert_ne (key_from_snapshot s) (key_from_snapshot x) s
                        store.latest_snapshots other
                      ∙ eo,
                  later,
                  ho,
                )
          | yes same ↦
              subst (λ t. Covers t x)
                (sym
                  (apply-known s old store (ap (λ k. lookup k store.latest_snapshots) same ∙ eo)))
                (elim (Bool-cases (refused s old)) [
                  | inl r ↦ rw r (old, eo, later, ho)
                  | inr r ↦ rw r (
                    s,
                    (ap (λ k. lookup k (insert (key_from_snapshot s) s store.latest_snapshots))
                          (sym same)
                        ∙ lookup-insert_self (key_from_snapshot s) s store.latest_snapshots),
                    is_older_trans x old s hx ho hs later (ground (arith, r)),
                    hs,
                  )
                ])
        ]

  apply_all-keeps :
      (ss : List InteractionActivitySnapshot) (store : Store) (x : InteractionActivitySnapshot)
      → All Sequenced ss
      → HasSequences store
      → Sequenced x
      → Covers store x
      → Covers (apply_all ss store) x
  unfolding apply_all
  apply_all-keeps [] store x hs w hx c = c
  apply_all-keeps (s ∷ ss) store x hs w hx c =
      apply_all-keeps ss (apply isoformat s store).0 x hs.1 (apply-HasSequences s store hs.0 w) hx
        (apply-keeps s store hs.0 w x hx c)

  -- If all snapshots carry a provider sequence, those in the store too, then after they are
  -- applied, in whatever order they come, the latest snapshot of the key of each of them is
  -- stored and is not older than it.
  pub apply_all-Covers :
      (ss : List InteractionActivitySnapshot) (store : Store)
      → All Sequenced ss
      → HasSequences store
      → All (Covers (apply_all ss store)) ss
  unfolding apply_all
  apply_all-Covers [] store hs w = tt
  apply_all-Covers (s ∷ ss) store hs w =
      let next = (apply isoformat s store).0 in
      let w' = apply-HasSequences s store hs.0 w in
      (
        apply_all-keeps ss next s hs.1 w' hs.0 (apply-Covers s store hs.0 w),
        apply_all-Covers ss next hs.1 w',
      )

-- ===== src/Activity/Ordering.antt =====
-- Which snapshot the projection (iris/runtime/state/interaction_activity.py) holds as the latest.
use iris_mind_v.Prelude.{
  ◌||◌, ◌&&◌, int_eq, ◌≡◌, refl, inl, inr, ◌⊎◌, none, is_some, Bool, true, false, Option-cases,
  ◌==◌, greater, pos, negsuc, ℤ, arith,
}
use iris_mind_v.Activity.Types.{InteractionActivitySnapshot}
use iris_mind_v.Activity.Store.{
  key_eq, same_snapshot_content, earlier, same_instants, same_snapshot_order, is_older_snapshot,
}

-- Every snapshot carries a provider sequence.
abbrev pub Sequenced : InteractionActivitySnapshot → Type 0
Sequenced s = is_some s.provider_sequence ≡ true

greater_trans : (a b c : ℤ) → greater a b ≡ true → greater b c ≡ true → greater a c ≡ true
greater_trans (pos a) (pos b) (pos c) h k = ground arith
greater_trans (pos a) (pos b) (negsuc c) h k = refl
greater_trans (pos a) (negsuc b) (pos c) h k = ground arith
greater_trans (pos a) (negsuc b) (negsuc c) h k = refl
greater_trans (negsuc a) (pos b) c h k = cc
greater_trans (negsuc a) (negsuc b) (pos c) h k = ground arith
greater_trans (negsuc a) (negsuc b) (negsuc c) h k = ground arith

greater_asym : (a b : ℤ) → greater a b ≡ true → greater b a ≡ false
greater_asym (pos a) (pos b) h = ground arith
greater_asym (pos a) (negsuc b) h = refl
greater_asym (negsuc a) (pos b) h = cc
greater_asym (negsuc a) (negsuc b) h = ground arith

-- Not above and not below is equal.
greater_split : (a b : ℤ) → (greater a b ≡ true) ⊎ (a ≡ b) ⊎ (greater b a ≡ true)
greater_split (pos a) (pos b) = ground arith
greater_split (pos a) (negsuc b) = inl refl
greater_split (negsuc a) (pos b) = inr (inr refl)
greater_split (negsuc a) (negsuc b) = ground arith

-- `is_older_snapshot` of snapshots with these sequences.
abbrev older_by : (n m : ℤ) (candidate latest : InteractionActivitySnapshot) → Bool
older_by n m candidate latest = greater m n || n == m && earlier candidate latest

older_by_irrefl : (n : ℤ) (s : InteractionActivitySnapshot) → older_by n n s s ≡ false
unfolding earlier
older_by_irrefl n s = ground (arith, greater_asym n n)

older_by_trans :
    (a b c : ℤ) (x y z : InteractionActivitySnapshot)
    → older_by b a y x ≡ false
    → older_by c b z y ≡ false
    → older_by c a z x ≡ false
unfolding earlier
older_by_trans a b c x y z h k = ground (
  arith,
  greater_split a b,
  greater_split b c,
  greater_split a c,
  greater_asym a b,
  greater_asym b c,
  greater_asym a c,
  greater_trans a c b,
  greater_trans b a c,
  greater_trans c b a,
)

absurd : (s : InteractionActivitySnapshot) → Sequenced s → s.provider_sequence ≡ none → ⊥
absurd s h e = cc

pub is_older_irrefl :
    (s : InteractionActivitySnapshot) → Sequenced s → is_older_snapshot s s ≡ false
unfolding is_older_snapshot earlier
is_older_irrefl s h = elim (Option-cases s.provider_sequence) [
  | inl e ↦ ground (arith, e, h)
  | inr (n, e) ↦ rw e (older_by_irrefl n s)
]

-- Among snapshots with sequences, what is not older stays so when the latest moves on.
pub is_older_trans :
    (x y z : InteractionActivitySnapshot)
    → Sequenced x
    → Sequenced y
    → Sequenced z
    → is_older_snapshot y x ≡ false
    → is_older_snapshot z y ≡ false
    → is_older_snapshot z x ≡ false
unfolding is_older_snapshot
is_older_trans x y z sx sy sz h k = elim (Option-cases x.provider_sequence) [
  | inl e ↦ elim (absurd x sx e) [ ]
  | inr (a, ea) ↦ elim (Option-cases y.provider_sequence) [
    | inl e ↦ elim (absurd y sy e) [ ]
    | inr (b, eb) ↦ elim (Option-cases z.provider_sequence) [
      | inl e ↦ elim (absurd z sz e) [ ]
      | inr (c, ec) ↦ ground (arith, ea, eb, ec, h, k, older_by_trans a b c x y z)
    ]
  ]
]

older_by_asym :
    (n m : ℤ) (s t : InteractionActivitySnapshot)
    → older_by n m s t ≡ true
    → older_by m n t s ≡ false
unfolding earlier
older_by_asym n m s t h = ground (arith, greater_asym n m, greater_asym m n, greater_split n m)

-- The latest that a snapshot is refused for is not older than it.
pub refused_not_older :
    (s latest : InteractionActivitySnapshot)
    → Sequenced s
    → Sequenced latest
    → (same_snapshot_content s latest || is_older_snapshot s latest || same_snapshot_order s latest)
      ≡ true
    → is_older_snapshot latest s ≡ false
unfolding is_older_snapshot same_snapshot_content same_snapshot_order same_instants earlier
refused_not_older s latest hs hl h = elim (Option-cases s.provider_sequence) [
  | inl e ↦ elim (absurd s hs e) [ ]
  | inr (n, en) ↦ elim (Option-cases latest.provider_sequence) [
    | inl e ↦ elim (absurd latest hl e) [ ]
    | inr (m, em) ↦
        ground (arith, en, em, h, older_by_asym n m s latest, greater_asym n m, greater_asym m n)
  ]
]

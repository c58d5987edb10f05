-- ===== src/Prompting/Entries.antt =====
-- The results that the total budget may cut, in the order it takes them
-- (iris/runtime/prompting/budget.py).
use iris_mind_v.Prelude.{
  ℕ, suc, ◌+◌, ◌≤◌, ◌≡◌, ◌≢◌, sym, ap, ◌∙◌, some, List, [], ◌∷◌, true, All, All-map, set, get_elem?,
  get_elem?-set_other, arith, sorted, sorted-All, sorted-Pairwise, Pairwise, Bool-cases, inl, inr,
}
use iris_mind_v.Prompting.Types.{SectionBudgetApplication}
use iris_mind_v.Prompting.Policy.{overflow_le, may_shrink, shrinkable}

-- The entries of the ordered list stand in the results under their indices, each once.
abbrev pub Entry : Type 0
Entry = ℕ × SectionBudgetApplication

abbrev pub Stand : List SectionBudgetApplication → List Entry → Type 0
Stand rs = All (λ e. get_elem? rs e.0 ≡ some e.1)

abbrev pub Apart : Entry → Entry → Type 0
Apart d e = d.0 ≢ e.0

pub Stand-set :
    (rs : List SectionBudgetApplication) (es : List Entry) (i : ℕ) (r r' : SectionBudgetApplication)
    → All (Apart (i, r)) es
    → Stand rs es
    → Stand (set rs i r') es
Stand-set rs [] i r r' h k = tt
Stand-set rs (e ∷ es) i r r' h k =
    (get_elem?-set_other rs i e.0 r' h.0 ∙ k.0, Stand-set rs es i r r' h.1 k.1)

-- `tail` are the results from index `i`.
shrinkable-Stand :
    (rs : List SectionBudgetApplication) (i : ℕ) (tail : List SectionBudgetApplication)
    → ((k j : ℕ) → k + i ≡ j → get_elem? rs j ≡ get_elem? tail k)
    → Stand rs (shrinkable i tail)
unfolding shrinkable
shrinkable-Stand rs i [] f = tt
shrinkable-Stand rs i (r ∷ tail) f =
    let rest = shrinkable-Stand rs (suc i) tail (λ k j e. f (suc k) j (omega (arith, e))) in
    elim (Bool-cases (may_shrink r)) [
      | inl e ↦ rw e (f 0 i (omega arith), rest)
      | inr e ↦ rw e rest
    ]

shrinkable-from :
    (i : ℕ) (rs : List SectionBudgetApplication) → All (λ e. i ≤ e.0) (shrinkable i rs)
unfolding shrinkable
shrinkable-from i [] = tt
shrinkable-from i (r ∷ rs) =
    let rest =
      All-map (λ e h. omega (arith, h)) (shrinkable (suc i) rs) (shrinkable-from (suc i) rs) in
    elim (Bool-cases (may_shrink r)) [ inl e ↦ rw e (omega arith, rest) | inr e ↦ rw e rest ]

shrinkable-Apart : (i : ℕ) (rs : List SectionBudgetApplication) → Pairwise Apart (shrinkable i rs)
unfolding shrinkable
shrinkable-Apart i [] = tt
shrinkable-Apart i (r ∷ rs) =
    let above =
      All-map (λ e h. omega (arith, h)) (shrinkable (suc i) rs) (shrinkable-from (suc i) rs) in
    elim (Bool-cases (may_shrink r)) [
      | inl e ↦ rw e (above, shrinkable-Apart (suc i) rs)
      | inr e ↦ rw e (shrinkable-Apart (suc i) rs)
    ]

shrinkable-shrinkable :
    (i : ℕ) (rs : List SectionBudgetApplication)
    → All (λ e. may_shrink e.1 ≡ true) (shrinkable i rs)
unfolding shrinkable
shrinkable-shrinkable i [] = tt
shrinkable-shrinkable i (r ∷ rs) = ground (arith, shrinkable-shrinkable (suc i) rs)

module _ (rs : List SectionBudgetApplication) where
  abbrev pub ordered : List Entry
  ordered = sorted overflow_le (shrinkable 0 rs)

  pub ordered-Stand : Stand rs ordered
  ordered-Stand =
      sorted-All overflow_le (λ e. get_elem? rs e.0 ≡ some e.1) (shrinkable 0 rs)
        (shrinkable-Stand rs 0 rs (λ k j e. ap (λ n. get_elem? rs n) (omega (arith, e))))

  pub ordered-Apart : Pairwise Apart ordered
  ordered-Apart =
      sorted-Pairwise overflow_le Apart (λ d e h k. h (sym k)) (shrinkable 0 rs)
        (shrinkable-Apart 0 rs)

  pub ordered-shrinkable : All (λ e. may_shrink e.1 ≡ true) ordered
  ordered-shrinkable =
      sorted-All overflow_le (λ e. may_shrink e.1 ≡ true) (shrinkable 0 rs)
        (shrinkable-shrinkable 0 rs)

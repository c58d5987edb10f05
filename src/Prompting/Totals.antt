-- ===== src/Prompting/Totals.antt =====
-- The total that `PromptBudgetPolicy` (iris/runtime/prompting/budget.py) leaves.
use iris_mind_v.Prelude.{
  ℕ, suc, ◌+◌, ◌-◌, ◌≤◌, min, max, ◌≡◌, ◌⊎◌, none, some, is_some, List, [], ◌∷◌, true, All, All-map,
  sum_of, sum_of-set, set, arith, sum_of-sorted, Pairwise, if◌then◌else◌,
}
use iris_mind_v.Prompting.Types.{
  RuntimePromptProfileBudget, SectionBudgetApplication, BudgetedPromptSection,
  PromptSectionAssemblyReport,
}
use iris_mind_v.Prompting.Policy.{
  cut, chars_of, omit_existing, truncate_existing, replace_existing_with_items,
  replace_existing_with_content, overflow_le, may_shrink, shrinkable, shrink_loop,
  apply_total_budget,
}
use iris_mind_v.Prompting.Entries.{
  Entry, Stand, Apart, Stand-set, ordered, ordered-Stand, ordered-Apart, ordered-shrinkable,
}
use iris_mind_v.Prompting.Fits.{items_within_char_budget-FitsOrNone, length-truncate_text}

chars-truncate_kept :
    (s : BudgetedPromptSection) (report : PromptSectionAssemblyReport) (n : ℕ)
    → chars_of (truncate_existing (record { section = some s; report = report }) n) ≤ n
unfolding chars_of truncate_existing replace_existing_with_items replace_existing_with_content
    omit_existing
chars-truncate_kept s report n = ground (
  arith,
  length-truncate_text s.content n,
  items_within_char_budget-FitsOrNone s.title n s.kind s.items,
)

chars-truncate_existing :
    (r : SectionBudgetApplication) (n : ℕ) → chars_of (truncate_existing r n) ≤ n
chars-truncate_existing r n =
    elim r.section
      as (λ o. chars_of (truncate_existing (record { section = o; report = r.report }) n) ≤ n) [
        | none ↦ unfold chars_of truncate_existing in omega arith
        | some s ↦ chars-truncate_kept s r.report n
      ]

chars-omit_existing : (r : SectionBudgetApplication) → chars_of (omit_existing r) ≤ 0
unfolding chars_of omit_existing
chars-omit_existing r = omega arith

pub chars-cut :
    (r : SectionBudgetApplication) (n : ℕ) → n ≤ chars_of r → chars_of (cut r n) + n ≤ chars_of r
unfolding cut
chars-cut r n h = ground (arith, chars-omit_existing r, chars-truncate_existing r (chars_of r - n))

shrink_loop-le :
    (es : List Entry) (remaining : ℕ) (rs : List SectionBudgetApplication) (limit rest : ℕ)
    → Stand rs es
    → Pairwise Apart es
    → All (λ e. is_some e.1.section ≡ true) es
    → sum_of chars_of rs ≤ limit + remaining
    → (sum_of chars_of rs ≤ rest + sum_of (λ e. chars_of e.1) es) ⊎ (remaining ≡ 0)
    → sum_of chars_of (shrink_loop es remaining rs) ≤ max limit rest
unfolding shrink_loop sum_of
shrink_loop-le [] remaining rs limit rest st ap on h k = ground arith
shrink_loop-le ((i, r) ∷ es) remaining rs limit rest st ap on h k =
    let n = min (chars_of r) remaining in
    ground (
      arith,
      chars-cut r n,
      sum_of-set chars_of rs i r (cut r n) st.0,
      shrink_loop-le es (remaining - n) (set rs i (cut r n)) limit rest
          (Stand-set rs es i r (cut r n) ap.0 st.1) ap.1 on.1,
    )

-- The characters of the results that the total budget must not cut.
unfoldable pub required_of : SectionBudgetApplication → ℕ
required_of r = if may_shrink r then 0 else chars_of r

required_and_shrinkable :
    (i : ℕ) (rs : List SectionBudgetApplication)
    → sum_of chars_of rs ≡ sum_of required_of rs + sum_of (λ e. chars_of e.1) (shrinkable i rs)
unfolding sum_of shrinkable required_of
required_and_shrinkable i [] = omega arith
required_and_shrinkable i (r ∷ rs) = ground (arith, required_and_shrinkable (suc i) rs)

may_shrink-some : (r : SectionBudgetApplication) → may_shrink r ≡ true → is_some r.section ≡ true
unfolding may_shrink
may_shrink-some r h = ground arith

pub apply_total_budget-le :
    (b : RuntimePromptProfileBudget) (rs : List SectionBudgetApplication)
    → sum_of chars_of (apply_total_budget b rs) ≤ max b.total_max_chars (sum_of required_of rs)
unfolding apply_total_budget
apply_total_budget-le b rs =
    let over = sum_of chars_of rs - b.total_max_chars in
    ground (
      arith,
      required_and_shrinkable 0 rs,
      sum_of-sorted overflow_le (λ e. chars_of e.1) (shrinkable 0 rs),
      shrink_loop-le (ordered rs) over rs b.total_max_chars (sum_of required_of rs)
          (ordered-Stand rs) (ordered-Apart rs)
          (All-map (λ e. may_shrink-some e.1) (ordered rs) (ordered-shrinkable rs)),
    )

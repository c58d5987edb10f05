-- ===== src/Prompting/Sound.antt =====
-- What holds of a section cut to its budget (iris/runtime/prompting/budget.py) and of its report,
-- and that both passes establish and keep it.
use iris_mind_v.Prelude.{
  ℕ, ◌+◌, ◌-◌, ◌≤◌, ◌≡◌, refl, inl, inr, Text, none, some, List, [], true, false, length, is_empty,
  arith, Option-cases, Bool-cases, nat_eq, ◌≢◌,
}
use iris_mind_v.Prompting.Types.{
  RuntimePromptProfileBudget, section_budget, PromptSectionInput, PromptSectionAssemblyReport,
  BudgetedPromptSection, SectionBudgetApplication, RuntimePromptSectionBudget,
}
use iris_mind_v.Prompting.Render.{render_items, render_section_content}
use iris_mind_v.Prompting.Items.{items_after_item_budget, items_within_char_budget}
use iris_mind_v.Prompting.Section.{
  apply_section, apply_items_section, items_result, section_result, omitted_result,
  text_within_char_budget, section_is_omitted_by_zero_budget, input_item_count,
}
use iris_mind_v.Prompting.Policy.{
  cut, chars_of, omit_existing, truncate_existing, replace_existing_with_items,
  replace_existing_with_content,
}
use iris_mind_v.Prompting.Fits.{
  FitsOrNone, items_within_char_budget-FitsOrNone, length-truncate_text,
}
use iris_mind_v.Prompting.Sizes.{
  render-items_after_item_budget, length-items_after_item_budget, items_after_item_budget-le,
  length-items_within_char_budget,
}

-- A report accounts for all the characters and items of its section's input.
abbrev pub IsAccounted : PromptSectionAssemblyReport → Type 0
IsAccounted r =
    (r.output_chars + r.truncated_chars ≡ r.input_chars)
    × (r.output_items + r.truncated_items ≡ r.input_items)

-- A section within its budget, with the report that describes it.
abbrev pub IsWithin : RuntimePromptSectionBudget → BudgetedPromptSection → Type 0
IsWithin b s = (length s.content ≤ b.max_chars) × (length s.items ≤ b.max_items)

abbrev pub Describes : PromptSectionAssemblyReport → BudgetedPromptSection → Type 0
Describes r s =
    (r.omitted ≡ false)
    × (r.output_chars ≡ length s.content)
    × (is_empty s.items ≡ false
        → (r.output_items ≡ length s.items) × (s.content ≡ render_items s.title s.items))

unfoldable pub IsSound : RuntimePromptProfileBudget → SectionBudgetApplication → Type 0
IsSound b r = IsAccounted r.report × elim r.section [
  | none ↦ (r.report.omitted ≡ true) × (r.report.output_chars ≡ 0)
  | some s ↦ IsWithin (section_budget b s.kind) s × Describes r.report s
]

module _ (b : RuntimePromptProfileBudget) (s : PromptSectionInput) where
  omitted_result-IsSound :
      (budget : RuntimePromptSectionBudget) (chars items : ℕ)
      → IsSound b (omitted_result s budget chars items)
  unfolding IsSound omitted_result
  omitted_result-IsSound budget chars items = ground arith

  items_result-IsSound :
      (chars items : ℕ) (kept : List Text)
      → let budget = section_budget b s.kind in
        FitsOrNone s.title chars kept
        → length kept ≤ items
        → FitsOrNone s.title budget.max_chars kept
        → length kept ≤ budget.max_items
        → IsSound b (items_result s budget chars items kept)
  unfolding IsSound items_result section_result omitted_result
  items_result-IsSound chars items kept h k m n = ground arith

  -- With items, under a budget of some items.
  apply_items_section-IsSound :
      (section_budget b s.kind).max_items ≢ 0
      → IsSound b (
          apply_items_section s
            (section_budget b s.kind)
            (length (render_items s.title s.items))
            (length s.items))
  unfolding apply_items_section
  apply_items_section-IsSound n =
      let budget = section_budget b s.kind in
      let chars = length (render_items s.title s.items) in
      let kept = items_after_item_budget s budget.max_items in
      let fitting = items_within_char_budget s.kind s.title kept budget.max_chars in
      ground (
        arith,
        omitted_result-IsSound budget chars (length s.items),
        items_result-IsSound chars (length s.items) kept,
        items_result-IsSound chars (length s.items) fitting,
        items_within_char_budget-FitsOrNone s.title budget.max_chars s.kind kept,
        length-items_within_char_budget s.title budget.max_chars s.kind kept,
        render-items_after_item_budget s budget.max_items,
        length-items_after_item_budget s budget.max_items,
        items_after_item_budget-le s budget.max_items n,
      )

  content_section-IsSound :
      (budgeted : Text)
      → let budget = section_budget b s.kind in
        text_within_char_budget (render_section_content s) budget ≡ some budgeted
        → IsSound b (
            section_result record {
              section = s;
              budget = budget;
              rendered = budgeted;
              kept_items = [];
              input_chars = length (render_section_content s);
              input_items = input_item_count s;
              output_items = input_item_count s;
            })
  unfolding IsSound section_result text_within_char_budget
  content_section-IsSound budgeted h =
      let budget = section_budget b s.kind in
      ground (arith, length-truncate_text (render_section_content s) budget.max_chars)

  render-given_items :
      is_empty s.items ≡ false → render_section_content s ≡ render_items s.title s.items
  unfolding render_section_content
  render-given_items e = rw e refl

  input_item_count-given_items : is_empty s.items ≡ false → input_item_count s ≡ length s.items
  unfolding input_item_count
  input_item_count-given_items e = rw e refl

  given_items-IsSound : is_empty s.items ≡ false → IsSound b (apply_section b s)
  unfolding apply_section section_is_omitted_by_zero_budget
  given_items-IsSound e =
      rw (render-given_items e, input_item_count-given_items e, e)
        (ground (
          arith,
          omitted_result-IsSound (section_budget b s.kind) (length (render_items s.title s.items))
              (length s.items),
          apply_items_section-IsSound,
        ))

  given_content-IsSound : is_empty s.items ≡ true → IsSound b (apply_section b s)
  unfolding apply_section
  given_content-IsSound e =
      let budget = section_budget b s.kind in
      let chars = length (render_section_content s) in
      let omitted = omitted_result-IsSound budget chars (input_item_count s) in
      elim (Option-cases (text_within_char_budget (render_section_content s) budget)) [
        | inl f ↦ rw (f, e) (ground (arith, omitted))
        | inr (budgeted, f) ↦
            rw (f, e) (ground (arith, omitted, content_section-IsSound budgeted f))
      ]

  pub apply_section-IsSound : IsSound b (apply_section b s)
  apply_section-IsSound = elim (Bool-cases (is_empty s.items)) [
    | inl e ↦ given_content-IsSound e
    | inr e ↦ given_items-IsSound e
  ]

omit_existing-IsSound :
    (b : RuntimePromptProfileBudget) (r : SectionBudgetApplication)
    → IsSound b r
    → IsSound b (omit_existing r)
unfolding IsSound omit_existing
omit_existing-IsSound b r h = ground arith

module _ (b : RuntimePromptProfileBudget) (s : BudgetedPromptSection)
    (report : PromptSectionAssemblyReport) where
  abbrev kept_result : SectionBudgetApplication
  kept_result = record { section = some s; report = report }

  truncate_kept-IsSound :
      (n : ℕ)
      → IsSound b kept_result
      → n ≤ length s.content
      → IsSound b (truncate_existing kept_result n)
  unfolding IsSound truncate_existing replace_existing_with_items replace_existing_with_content
      omit_existing
  truncate_kept-IsSound n h k =
      let kept = items_within_char_budget s.kind s.title s.items n in
      ground (
        arith,
        h,
        length-truncate_text s.content n,
        items_within_char_budget-FitsOrNone s.title n s.kind s.items,
        length-items_within_char_budget s.title n s.kind s.items,
      )

module _ (b : RuntimePromptProfileBudget) (r : SectionBudgetApplication) (h : IsSound b r) where
  truncate_existing-IsSound : (n : ℕ) → n ≤ chars_of r → IsSound b (truncate_existing r n)
  unfolding chars_of truncate_existing
  truncate_existing-IsSound n k =
      (elim r.section
          as (λ o.
            IsSound b (record { section = o; report = r.report })
            → n ≤ chars_of (record { section = o; report = r.report })
            → IsSound b (truncate_existing (record { section = o; report = r.report }) n)) [
              | none ↦ λ h' k'. h'
              | some s ↦ λ h' k'. truncate_kept-IsSound b s r.report n h' k'
            ])
        h k

  pub cut-IsSound : (n : ℕ) → IsSound b (cut r n)
  unfolding cut
  cut-IsSound n =
      ground (arith, omit_existing-IsSound b r h, truncate_existing-IsSound (chars_of r - n))

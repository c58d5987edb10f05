-- ===== src/Prompting/Whole.antt =====
-- Sections that `PromptBudgetPolicy.apply` (iris/runtime/prompting/budget.py) leaves whole.
use iris_mind_v.Prelude.{
  ◌≤◌, ◌<◌, ◌≡◌, refl, ap, some, List, [], ◌∷◌, All, map, length, sum_of, arith,
}
use iris_mind_v.Prompting.Types.{
  PromptProfileName, RuntimePromptProfileBudget, section_budget, PromptSectionInput,
  BudgetedPromptSection,
}
use iris_mind_v.Prompting.Render.{render_section_content}
use iris_mind_v.Prompting.Items.{items_after_item_budget}
use iris_mind_v.Prompting.Section.{
  apply_section, apply_items_section, items_result, section_result, text_within_char_budget,
  section_is_omitted_by_zero_budget,
}
use iris_mind_v.Prompting.Policy.{
  chars_of, apply_total_budget, output_sections, section_results, apply_budget,
}

-- A section that no budget cuts.
abbrev pub whole_section : PromptSectionInput → BudgetedPromptSection
whole_section s = record {
  kind = s.kind;
  title = s.title;
  trust_boundary = s.trust_boundary;
  content = render_section_content s;
  items = s.items;
}

-- A section that its own budget leaves whole.
abbrev pub FitsBudget : RuntimePromptProfileBudget → PromptSectionInput → Type 0
FitsBudget b s =
    let budget = section_budget b s.kind in
    (0 < budget.max_chars)
    × (length (render_section_content s) ≤ budget.max_chars)
    × (length s.items ≤ budget.max_items)

apply_section-whole :
    (b : RuntimePromptProfileBudget) (s : PromptSectionInput)
    → FitsBudget b s
    → (apply_section b s).section ≡ some (whole_section s)
unfolding apply_section section_is_omitted_by_zero_budget apply_items_section items_result
    section_result text_within_char_budget items_after_item_budget render_section_content
apply_section-whole b s h = ground (arith, h)

module _ (b : RuntimePromptProfileBudget) where
  outputs-whole :
      (ss : List PromptSectionInput)
      → All (FitsBudget b) ss
      → output_sections (map (λ s. apply_section b s) ss) ≡ map whole_section ss
  unfolding output_sections
  outputs-whole [] h = refl
  outputs-whole (s ∷ ss) h =
      rw (apply_section-whole b s h.0) (ap (λ rest. whole_section s ∷ rest) (outputs-whole ss h.1))

  chars-whole :
      (ss : List PromptSectionInput)
      → All (FitsBudget b) ss
      → sum_of chars_of (map (λ s. apply_section b s) ss)
        ≡ sum_of (λ s. length (render_section_content s)) ss
  unfolding sum_of chars_of
  chars-whole [] h = refl
  chars-whole (s ∷ ss) h = rw (apply_section-whole b s h.0) (omega (arith, chars-whole ss h.1))

  -- If every section fits the budget of its kind and all of them fit the total, apply puts out
  -- every section, rendered in full and with all its items.
  pub apply_budget-whole :
      (profile : PromptProfileName) (ss : List PromptSectionInput)
      → All (FitsBudget b) ss
      → sum_of (λ s. length (render_section_content s)) ss ≤ b.total_max_chars
      → (apply_budget b profile ss).sections ≡ map whole_section ss
  unfolding apply_budget section_results apply_total_budget
  apply_budget-whole profile ss h k = ground (arith, chars-whole ss h, outputs-whole ss h)

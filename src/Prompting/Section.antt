-- ===== src/Prompting/Section.antt =====
-- iris/runtime/prompting/budget.py: one section cut to its own budget, with its report.
use iris_mind_v.Prelude.{
  ℕ, ◌-◌, max, Text, Option, none, some, List, [], Bool, true, false, not, ◌&&◌, ◌||◌, ◌==◌, leb,
  ltb, if◌then◌else◌, nat_eq, length, is_empty,
}
use iris_mind_v.Prompting.Types.{
  omit, overflow_behavior_eq, RuntimePromptSectionBudget, RuntimePromptProfileBudget,
  section_budget, PromptSectionInput, SectionBudgetApplication,
}
use iris_mind_v.Prompting.Render.{render_items, render_section_content, truncate_text}
use iris_mind_v.Prompting.Items.{items_after_item_budget, items_within_char_budget}

unfoldable pub text_within_char_budget : Text → RuntimePromptSectionBudget → Option Text
text_within_char_budget rendered budget =
    if leb (length rendered) budget.max_chars
    then some rendered
    else if budget.overflow_behavior == omit
    then none
    else some (truncate_text rendered budget.max_chars)

pub record SectionComputation : Type 0 where
  pub section : PromptSectionInput
  pub budget : RuntimePromptSectionBudget
  pub rendered : Text
  pub kept_items : List Text
  pub input_chars : ℕ
  pub input_items : ℕ
  pub output_items : ℕ

unfoldable pub section_result : SectionComputation → SectionBudgetApplication
section_result c =
    let output_chars = length c.rendered in
    record {
      section = some record {
        kind = c.section.kind;
        title = c.section.title;
        trust_boundary = c.section.trust_boundary;
        content = c.rendered;
        items = c.kept_items;
      };
      report = record {
        kind = c.section.kind;
        trust_boundary = c.section.trust_boundary;
        input_chars = c.input_chars;
        output_chars = output_chars;
        input_items = c.input_items;
        output_items = c.output_items;
        max_chars = c.budget.max_chars;
        max_items = c.budget.max_items;
        priority = c.budget.priority;
        overflow_behavior = c.budget.overflow_behavior;
        omitted = false;
        truncated_chars = max (c.input_chars - output_chars) 0;
        truncated_items = max (c.input_items - c.output_items) 0;
      };
    }

unfoldable pub section_is_omitted_by_zero_budget :
    PromptSectionInput → (max_chars max_items : ℕ) → Bool
section_is_omitted_by_zero_budget s max_chars max_items =
    max_chars == 0 || not (is_empty s.items) && max_items == 0

unfoldable pub input_item_count : PromptSectionInput → ℕ
input_item_count s =
    if not (is_empty s.items) then length s.items else if is_empty s.content then 0 else 1

unfoldable pub omitted_result :
    PromptSectionInput
    → RuntimePromptSectionBudget
    → (input_chars input_items : ℕ) → SectionBudgetApplication
omitted_result s budget input_chars input_items = record {
  section = none;
  report = record {
    kind = s.kind;
    trust_boundary = s.trust_boundary;
    input_chars = input_chars;
    output_chars = 0;
    input_items = input_items;
    output_items = 0;
    max_chars = budget.max_chars;
    max_items = budget.max_items;
    priority = budget.priority;
    overflow_behavior = budget.overflow_behavior;
    omitted = true;
    truncated_chars = input_chars;
    truncated_items = input_items;
  };
}

-- A section of these kept items; none of them is an omitted section.
unfoldable pub items_result :
    PromptSectionInput
    → RuntimePromptSectionBudget
    → (input_chars input_items : ℕ) → List Text
    → SectionBudgetApplication
items_result s budget input_chars input_items kept =
    if is_empty kept
    then omitted_result s budget input_chars input_items
    else section_result record {
      section = s;
      budget = budget;
      rendered = render_items s.title kept;
      kept_items = kept;
      input_chars = input_chars;
      input_items = input_items;
      output_items = length kept;
    }

unfoldable pub apply_items_section :
    PromptSectionInput
    → RuntimePromptSectionBudget
    → (input_chars input_items : ℕ) → SectionBudgetApplication
apply_items_section s budget input_chars input_items =
    let kept = items_after_item_budget s budget.max_items in
    if ltb budget.max_chars (length (render_items s.title kept))
    then (if budget.overflow_behavior == omit
        then omitted_result s budget input_chars input_items
        else items_result s budget input_chars input_items
            (items_within_char_budget s.kind s.title kept budget.max_chars))
    else items_result s budget input_chars input_items kept

unfoldable pub apply_section :
    RuntimePromptProfileBudget → PromptSectionInput → SectionBudgetApplication
apply_section profile_budget s =
    let budget = section_budget profile_budget s.kind in
    let rendered = render_section_content s in
    let input_chars = length rendered in
    let input_items = input_item_count s in
    if section_is_omitted_by_zero_budget s budget.max_chars budget.max_items
    then omitted_result s budget input_chars input_items
    else if not (is_empty s.items)
    then apply_items_section s budget input_chars input_items
    else elim (text_within_char_budget rendered budget) [
      | none ↦ omitted_result s budget input_chars input_items
      | some budgeted_text ↦ section_result record {
        section = s;
        budget = budget;
        rendered = budgeted_text;
        kept_items = [];
        input_chars = input_chars;
        input_items = input_items;
        output_items = input_items;
      }
    ]

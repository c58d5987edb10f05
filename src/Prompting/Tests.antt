-- ===== src/Prompting/Tests.antt =====
-- The theorems on prompts at concrete sections: the default profile `local_low`, and one so short
-- that sections are cut.
use iris_mind_v.Prelude.{
  is_blank, whitespace, ℕ, text, List, [], ◌∷◌, true, ◌≡◌, refl, ◌⊎◌, ◌↔◌, ok, some, map, sum_of,
  ◌≤◌, ◌+◌, length, All, get_elem?, arith, elem, ℕ_discrete,
}
use iris_mind_v.Prompting.Types.{
  local_low, system, recent_conversation, user_memory, trusted, external_context, omit,
  PromptSectionKind-discrete, PromptOverflowBehavior-discrete, PromptSectionInput, ProfileBudget,
  SectionBudgetApplication, section_budget, omitted_section_count,
}
use iris_mind_v.Prompting.Config.{
  behavior_value, profile_value, validate_profile, validate_sections, validate_section,
  validate_required_section_budget, add_required, trusted_required_separator_chars,
}
use iris_mind_v.Prompting.Defaults.{local_low_profile}
use iris_mind_v.Prompting.Render.{render_section_content, render_items, join_lines}
use iris_mind_v.Prompting.Section.{
  apply_section, apply_items_section, items_result, section_result,
  section_is_omitted_by_zero_budget,
}
use iris_mind_v.Prompting.Items.{items_after_item_budget, items_kept_for_section}
use iris_mind_v.Prompting.Policy.{
  apply_budget, apply_total_budget, omit_existing, may_shrink, overflow_le,
}
use iris_mind_v.Prompting.Sound.{IsWithin, IsAccounted}
use iris_mind_v.Prompting.Order.{apply_total_budget-order}
use iris_mind_v.Prompting.Guarantees.{
  apply_budget-IsWithin, apply_budget-report, section_input, reported_input,
}
use iris_mind_v.Prompting.Whole.{apply_budget-whole, whole_section}
use iris_mind_v.Prompting.Validated.{validated-total_chars, natural_profile}
use iris_mind_v.Prompting.Parsing.{parse-value}
use iris_mind_v.Prompting.Toml.{str, parse_overflow_behavior, parse_profile_name}

abbrev instructions : PromptSectionInput
instructions = record {
  kind = system;
  title = text "System";
  trust_boundary = trusted;
  content = text "Be kind.";
  items = [];
}

abbrev conversation : PromptSectionInput
conversation = record {
  kind = recent_conversation;
  title = text "Recent";
  trust_boundary = external_context;
  content = [];
  items = text "user: hi" ∷ text "assistant: hello" ∷ [];
}

abbrev memories : PromptSectionInput
memories = record {
  kind = user_memory;
  title = text "Memory";
  trust_boundary = external_context;
  content = [];
  items = text "likes tea" ∷ text "likes rain" ∷ text "likes Go" ∷ text "owns a cat" ∷ [];
}

abbrev sample_sections : List PromptSectionInput
sample_sections = instructions ∷ conversation ∷ memories ∷ []

abbrev short_profile : ProfileBudget ℕ
short_profile = record (natural_profile local_low_profile) { total_max_chars = 60 }

apply_budget-IsWithin_example :
    All
      (λ s. IsWithin (section_budget short_profile s.kind) s)
      (apply_budget short_profile local_low sample_sections).sections
apply_budget-IsWithin_example = apply_budget-IsWithin short_profile sample_sections local_low

apply_budget-report_example :
    let result = apply_budget short_profile local_low sample_sections in
    (sum_of (λ r. r.output_chars) result.report.section_reports ≡ result.report.total_chars)
    × (omitted_section_count result.report + length result.sections ≡ 3)
    × (map reported_input result.report.section_reports ≡ map section_input sample_sections)
    × All IsAccounted result.report.section_reports
apply_budget-report_example = apply_budget-report short_profile sample_sections local_low

abbrev first_result : SectionBudgetApplication
first_result = apply_section short_profile memories

abbrev later_result : SectionBudgetApplication
later_result = apply_section short_profile conversation

first_result-may_shrink : may_shrink first_result ≡ true
unfolding may_shrink section_budget apply_section section_is_omitted_by_zero_budget
    apply_items_section items_after_item_budget items_kept_for_section items_result section_result
    render_section_content render_items join_lines PromptSectionKind-discrete
    PromptOverflowBehavior-discrete ℕ_discrete
first_result-may_shrink = refl

overflow_le-results : overflow_le (1, first_result) (0, later_result) ≡ true
unfolding section_budget apply_section section_is_omitted_by_zero_budget apply_items_section
    items_after_item_budget items_kept_for_section items_result section_result
    render_section_content render_items join_lines PromptSectionKind-discrete ℕ_discrete
overflow_le-results = refl

apply_total_budget-order_example :
    let after = apply_total_budget short_profile (later_result ∷ first_result ∷ []) in
    (get_elem? after 0 ≡ some later_result)
    ⊎ (get_elem? after 1 ≡ some (omit_existing first_result))
apply_total_budget-order_example =
    apply_total_budget-order short_profile (later_result ∷ first_result ∷ []) 0 1 later_result
      first_result refl refl first_result-may_shrink (omega arith) overflow_le-results

apply_budget-whole_example :
    (apply_budget
      (natural_profile local_low_profile)
      local_low
      (instructions ∷ conversation ∷ [])).sections
    ≡ whole_section instructions ∷ whole_section conversation ∷ []
unfolding section_budget render_section_content render_items join_lines sum_of
    PromptSectionKind-discrete is_blank whitespace elem ℕ_discrete
apply_budget-whole_example =
    apply_budget-whole (natural_profile local_low_profile) local_low
      (instructions ∷ conversation ∷ [])
      ((omega arith, omega arith, omega arith), ((omega arith, omega arith, omega arith), tt))
      (omega arith)

local_low_validates : validate_profile local_low_profile local_low ≡ ok local_low_profile
unfolding validate_profile validate_sections validate_section validate_required_section_budget
    add_required trusted_required_separator_chars section_budget elem PromptSectionKind-discrete
    PromptOverflowBehavior-discrete
local_low_validates = refl

validated-total_chars_example :
    (apply_budget (natural_profile local_low_profile) local_low sample_sections).report.total_chars
    ≤ 6000
validated-total_chars_example =
    validated-total_chars local_low_profile local_low_profile local_low local_low sample_sections
      local_low_validates ((λ e. cc, (λ e. cc, tt)), ((λ e. cc, tt), (tt, tt)))

parse-value_example :
    ((parse_overflow_behavior (str (text "omit")) (text "p") ≡ ok omit)
      ↔ (str (text "omit") ≡ str (text "omit")))
    × ((parse_profile_name (str (text "omit")) (text "p") ≡ ok local_low)
        ↔ (str (text "omit") ≡ str (text "local_low")))
unfolding behavior_value profile_value
parse-value_example = parse-value (str (text "omit")) (text "p") omit local_low

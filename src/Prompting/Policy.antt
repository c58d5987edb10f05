-- ===== src/Prompting/Policy.antt =====
-- iris/runtime/prompting/budget.py: `PromptBudgetPolicy`, which cuts each section to its own budget
-- and then all of them to the profile's total. A list that the code patches in place is rebuilt.
use iris_mind_v.Prelude.{
  ℕ, suc, ◌-◌, max, min, Text, none, some, is_some, List, [], ◌∷◌, map, sum_of, set, length, sorted,
  Bool, true, false, not, ◌&&◌, ◌||◌, ◌==◌, leb, ltb, if◌then◌else◌, is_empty,
}
use iris_mind_v.Prompting.Types.{
  PromptProfileName, required, overflow_behavior_eq, RuntimePromptProfileBudget, PromptSectionInput,
  BudgetedPromptSection, SectionBudgetApplication, PromptBudgetResult,
}
use iris_mind_v.Prompting.Render.{render_items, truncate_text}
use iris_mind_v.Prompting.Items.{items_within_char_budget}
use iris_mind_v.Prompting.Section.{apply_section}

unfoldable pub omit_existing : SectionBudgetApplication → SectionBudgetApplication
omit_existing r = record {
  section = none;
  report = record r.report {
    output_chars = 0;
    output_items = 0;
    omitted = true;
    truncated_chars = r.report.input_chars;
    truncated_items = r.report.input_items;
  };
}

unfoldable pub replace_existing_with_items :
    SectionBudgetApplication → List Text → SectionBudgetApplication
replace_existing_with_items r kept = elim r.section [
  | none ↦ r
  | some s ↦
      let content = render_items s.title kept in
      record {
        section = some (record s { content = content; items = kept });
        report = record r.report {
          output_chars = length content;
          output_items = length kept;
          omitted = false;
          truncated_chars = max (r.report.input_chars - length content) 0;
          truncated_items = max (r.report.input_items - length kept) r.report.truncated_items;
        };
      }
]

unfoldable pub replace_existing_with_content :
    SectionBudgetApplication → Text → SectionBudgetApplication
replace_existing_with_content r content = elim r.section [
  | none ↦ r
  | some s ↦ record {
    section = some (record s { content = content; items = [] });
    report = record r.report {
      output_chars = length content;
      truncated_chars = max (r.report.input_chars - length content) 0;
    };
  }
]

unfoldable pub truncate_existing :
    SectionBudgetApplication → (max_chars : ℕ) → SectionBudgetApplication
truncate_existing r max_chars = elim r.section [
  | none ↦ r
  | some s ↦
      if not (is_empty s.items)
      then (let kept = items_within_char_budget s.kind s.title s.items max_chars in
          if is_empty kept then omit_existing r else replace_existing_with_items r kept)
      else replace_existing_with_content r (truncate_text s.content max_chars)
]

-- The characters of a result's section, none counting 0.
unfoldable pub chars_of : SectionBudgetApplication → ℕ
chars_of r = elim r.section [ none ↦ 0 | some s ↦ length s.content ]

-- `key(a) <= key(b)` for `_overflow_sort_key`
abbrev pub overflow_le : ℕ × SectionBudgetApplication → ℕ × SectionBudgetApplication → Bool
overflow_le (i, a) (j, b) =
    ltb a.report.priority b.report.priority || leb a.report.priority b.report.priority && leb i j

-- A result that the total budget may cut.
unfoldable pub may_shrink : SectionBudgetApplication → Bool
may_shrink r = is_some r.section && not (r.report.overflow_behavior == required)

-- The results from index `i` that may be cut, with their indices.
unfoldable pub shrinkable :
    (i : ℕ) → List SectionBudgetApplication → List (ℕ × SectionBudgetApplication)
shrinkable i [] = []
shrinkable i (r ∷ rs) =
    let rest = shrinkable (suc i) rs in if may_shrink r then (i, r) ∷ rest else rest

-- A result that loses this many characters, all of them or its last ones.
unfoldable pub cut : SectionBudgetApplication → (removable : ℕ) → SectionBudgetApplication
cut r removable =
    if leb (chars_of r) removable
    then omit_existing r
    else truncate_existing r (chars_of r - removable)

-- The loop over the ordered results, with the patched list and the overflow that remains.
unfoldable pub shrink_loop :
    List (ℕ × SectionBudgetApplication)
    → (remaining_overflow : ℕ) → List SectionBudgetApplication
    → List SectionBudgetApplication
shrink_loop [] remaining_overflow patched = patched
shrink_loop ((index, r) ∷ rest) remaining_overflow patched =
    let removable = min (chars_of r) remaining_overflow in
    let next =
      shrink_loop rest (remaining_overflow - removable) (set patched index (cut r removable)) in
    if leb remaining_overflow 0 || not (is_some r.section) then patched else next

-- The sections of the results that have one.
unfoldable pub output_sections : List SectionBudgetApplication → List BudgetedPromptSection
output_sections [] = []
output_sections (r ∷ rs) =
    let rest = output_sections rs in elim r.section [ none ↦ rest | some s ↦ s ∷ rest ]

module _ (budget : RuntimePromptProfileBudget) where
  unfoldable pub apply_total_budget : List SectionBudgetApplication → List SectionBudgetApplication
  apply_total_budget results =
      let total = sum_of chars_of results in
      let ordered = sorted overflow_le (shrinkable 0 results) in
      if leb total budget.total_max_chars
      then results
      else shrink_loop ordered (total - budget.total_max_chars) results

  unfoldable pub section_results : List PromptSectionInput → List SectionBudgetApplication
  section_results sections = apply_total_budget (map (λ s. apply_section budget s) sections)

  unfoldable pub apply_budget :
      (profile : PromptProfileName) → List PromptSectionInput → PromptBudgetResult
  apply_budget profile sections =
      let results = section_results sections in
      let outputs = output_sections results in
      record {
        sections = outputs;
        report = record {
          profile = profile;
          total_chars = sum_of (λ s. length s.content) outputs;
          total_max_chars = budget.total_max_chars;
          section_reports = map (λ r. r.report) results;
        };
      }

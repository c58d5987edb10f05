-- ===== src/Prompting/Guarantees.antt =====
-- What `PromptBudgetPolicy.apply` (iris/runtime/prompting/budget.py) promises of its result.
use iris_mind_v.Prelude.{
  ℕ, ◌+◌, ◌-◌, ◌≤◌, min, max, ◌≡◌, refl, sym, ap, ◌∙◌, List, [], ◌∷◌, All, All-map, All-set,
  All-image, All-always, map-map, map-same, map, map-set, length, length-map, sum_of, count, set,
  All-get_elem?, Pairwise, arith,
}
use iris_mind_v.Prompting.Types.{
  PromptProfileName, RuntimePromptProfileBudget, section_budget, PromptSectionInput,
  PromptSectionKind, PromptSectionAssemblyReport, SectionBudgetApplication, omitted_section_count,
}
use iris_mind_v.Prompting.Render.{render_section_content}
use iris_mind_v.Prompting.Section.{
  apply_section, apply_items_section, items_result, section_result, omitted_result,
}
use iris_mind_v.Prompting.Policy.{
  cut, chars_of, omit_existing, truncate_existing, replace_existing_with_items,
  replace_existing_with_content, shrink_loop, apply_total_budget, output_sections, section_results,
  apply_budget,
}
use iris_mind_v.Prompting.Sound.{IsSound, IsAccounted, IsWithin, apply_section-IsSound, cut-IsSound}
use iris_mind_v.Prompting.Entries.{
  Entry, Stand, Apart, Stand-set, ordered, ordered-Stand, ordered-Apart,
}
use iris_mind_v.Prompting.Totals.{required_of, apply_total_budget-le}

module _ {ℓ} (P : SectionBudgetApplication → Type ℓ)
    (keep : (r : SectionBudgetApplication) (n : ℕ) → P r → P (cut r n)) where
  shrink_loop-All :
      (es : List Entry) (n : ℕ) (rs : List SectionBudgetApplication)
      → All P rs
      → All (λ e. P e.1) es
      → All P (shrink_loop es n rs)
  unfolding shrink_loop
  shrink_loop-All [] n rs h k = h
  shrink_loop-All ((i, r) ∷ es) n rs h k =
      let m = min (chars_of r) n in
      ground (
        arith,
        shrink_loop-All es (n - m) (set rs i (cut r m)) (All-set P rs i (cut r m) h (keep r m k.0))
            k.1,
      )

  apply_total_budget-All :
      (b : RuntimePromptProfileBudget) (rs : List SectionBudgetApplication)
      → All P rs
      → All P (apply_total_budget b rs)
  unfolding apply_total_budget
  apply_total_budget-All b rs h = ground (
    arith,
    h,
    shrink_loop-All (ordered rs) (sum_of chars_of rs - b.total_max_chars) rs h
        (All-map (λ e st. All-get_elem? P rs e.0 e.1 h st) (ordered rs) (ordered-Stand rs)),
  )

-- A value that a cut does not change.
module _ {ℓ} {A : Type ℓ} (f : SectionBudgetApplication → A)
    (same : (r : SectionBudgetApplication) (n : ℕ) → f (cut r n) ≡ f r) where
  shrink_loop-map :
      (es : List Entry) (n : ℕ) (rs : List SectionBudgetApplication)
      → Stand rs es
      → Pairwise Apart es
      → map f (shrink_loop es n rs) ≡ map f rs
  unfolding shrink_loop
  shrink_loop-map [] n rs st ap' = refl
  shrink_loop-map ((i, r) ∷ es) n rs st ap' =
      let m = min (chars_of r) n in
      let rs' = set rs i (cut r m) in
      ground (
        arith,
        shrink_loop-map es (n - m) rs' (Stand-set rs es i r (cut r m) ap'.0 st.1) ap'.1
            ∙ map-set f rs i r (cut r m) st.0 (same r m),
      )

  apply_total_budget-map :
      (b : RuntimePromptProfileBudget) (rs : List SectionBudgetApplication)
      → map f (apply_total_budget b rs) ≡ map f rs
  unfolding apply_total_budget
  apply_total_budget-map b rs = ground (
    arith,
    shrink_loop-map (ordered rs) (sum_of chars_of rs - b.total_max_chars) rs (ordered-Stand rs)
        (ordered-Apart rs),
  )

IsSound-IsAccounted :
    (b : RuntimePromptProfileBudget) (r : SectionBudgetApplication)
    → IsSound b r
    → IsAccounted r.report
unfolding IsSound
IsSound-IsAccounted b r h = h.0

outputs-chars :
    (rs : List SectionBudgetApplication)
    → sum_of (λ s. length s.content) (output_sections rs) ≡ sum_of chars_of rs
unfolding output_sections sum_of chars_of
outputs-chars [] = refl
outputs-chars (r ∷ rs) = ground (arith, outputs-chars rs)

outputs-IsWithin :
    (b : RuntimePromptProfileBudget) (rs : List SectionBudgetApplication)
    → All (IsSound b) rs
    → All (λ s. IsWithin (section_budget b s.kind) s) (output_sections rs)
unfolding output_sections IsSound
outputs-IsWithin b [] h = tt
outputs-IsWithin b (r ∷ rs) h = ground (arith, h.0, outputs-IsWithin b rs h.1)

reports-chars :
    (b : RuntimePromptProfileBudget) (rs : List SectionBudgetApplication)
    → All (IsSound b) rs
    → (sum_of (λ r. r.output_chars) (map (λ r. r.report) rs) ≡ sum_of chars_of rs)
      × (count (λ r. r.omitted) (map (λ r. r.report) rs) + length (output_sections rs) ≡ length rs)
unfolding output_sections IsSound sum_of count chars_of
reports-chars b [] h = (refl, refl)
reports-chars b (r ∷ rs) h = ground (arith, h.0, reports-chars b rs h.1)

abbrev pub section_input : PromptSectionInput → PromptSectionKind × ℕ
section_input s = (s.kind, length (render_section_content s))

abbrev pub reported_input : PromptSectionAssemblyReport → PromptSectionKind × ℕ
reported_input r = (r.kind, r.input_chars)

cut-input :
    (r : SectionBudgetApplication) (n : ℕ)
    → reported_input (cut r n).report ≡ reported_input r.report
unfolding cut omit_existing truncate_existing replace_existing_with_items
    replace_existing_with_content
cut-input r n = ground arith

apply_section-input :
    (b : RuntimePromptProfileBudget) (s : PromptSectionInput)
    → reported_input (apply_section b s).report ≡ section_input s
unfolding apply_section apply_items_section items_result section_result omitted_result
apply_section-input b s = ground arith

module _ (b : RuntimePromptProfileBudget) (sections : List PromptSectionInput) where
  section_results-IsSound : All (IsSound b) (section_results b sections)
  unfolding section_results
  section_results-IsSound =
      apply_total_budget-All (IsSound b) (λ r n h. cut-IsSound b r h n) b
        (map (λ s. apply_section b s) sections)
        (All-image (IsSound b) (λ s. apply_section b s) sections
          (All-always (λ s. IsSound b (apply_section b s)) (apply_section-IsSound b) sections))

  -- Every section that apply puts out has at most the characters and the items that the budget
  -- of its kind allows.
  pub apply_budget-IsWithin :
      (profile : PromptProfileName)
      → All (λ s. IsWithin (section_budget b s.kind) s) (apply_budget b profile sections).sections
  unfolding apply_budget
  apply_budget-IsWithin profile =
      outputs-IsWithin b (section_results b sections) section_results-IsSound

  -- The total goes beyond the profile's only if that of the required sections does.
  pub total_chars-le :
      (profile : PromptProfileName)
      → (apply_budget b profile sections).report.total_chars
        ≤ max b.total_max_chars (sum_of required_of (map (λ s. apply_section b s) sections))
  unfolding apply_budget section_results
  total_chars-le profile =
      let rs = map (λ s. apply_section b s) sections in
      omega (arith, outputs-chars (apply_total_budget b rs), apply_total_budget-le b rs)

  section_results-input :
      map (λ r. reported_input r.report) (section_results b sections) ≡ map section_input sections
  unfolding section_results
  section_results-input =
      apply_total_budget-map (λ r. reported_input r.report) cut-input b
        (map (λ s. apply_section b s) sections)
      ∙ map-map (λ r. reported_input r.report) (λ s. apply_section b s) sections
      ∙ map-same (λ s. reported_input (apply_section b s).report) section_input
          (apply_section-input b) sections

  -- The report of apply agrees with its result: the output characters of the sections add up to
  -- the total, the omitted sections and those put out are as many as the inputs, the section
  -- reports give the kinds and rendered lengths of the inputs in their order, and in each of
  -- them what was put out and what was cut add up to the input, in characters and in items.
  pub apply_budget-report :
      (profile : PromptProfileName)
      → let result = apply_budget b profile sections in
        (sum_of (λ r. r.output_chars) result.report.section_reports ≡ result.report.total_chars)
        × (omitted_section_count result.report + length result.sections ≡ length sections)
        × (map reported_input result.report.section_reports ≡ map section_input sections)
        × All IsAccounted result.report.section_reports
  unfolding apply_budget omitted_section_count
  apply_budget-report profile =
      let rs = section_results b sections in
      let (chars, sections_count) = reports-chars b rs section_results-IsSound in
      (chars ∙ sym (outputs-chars rs), sections_count ∙ results_count, inputs, accounted)
    where
      results_count : length (section_results b sections) ≡ length sections
      results_count =
          sym (length-map (λ r. reported_input r.report) (section_results b sections))
          ∙ ap length section_results-input
          ∙ length-map section_input sections

      inputs :
          map reported_input (map (λ r. r.report) (section_results b sections))
          ≡ map section_input sections
      inputs =
          map-map reported_input (λ r. r.report) (section_results b sections)
          ∙ section_results-input

      accounted : All IsAccounted (map (λ r. r.report) (section_results b sections))
      accounted =
          All-image IsAccounted (λ r. r.report) (section_results b sections)
            (All-map (λ r h. IsSound-IsAccounted b r h) (section_results b sections)
              section_results-IsSound)

-- ===== src/Prompting/Validated.antt =====
-- Prompts under a profile that iris/runtime/config/prompt_budget.py has validated: the budgets it
-- checks are the ones that iris/runtime/prompting/budget.py cuts to.
use iris_mind_v.Prelude.{
  natural, ℕ, ◌+◌, ◌≤◌, ℤ, ◌≡◌, ◌≢◌, refl, subst, List, [], ◌∷◌, ◌==◌, if◌then◌else◌, sum_of-le,
  sum_of-map, Option, none, some, All, Pairwise, sum_of, ok, Result-cases, inl, inr, arith,
}
use iris_mind_v.Prompting.Types.{
  PromptProfileName, PromptSectionKind, section_kind_eq, required, overflow_behavior_eq,
  SectionBudget, ProfileBudget, section_budget, PromptSectionInput, BudgetedPromptSection,
}
use iris_mind_v.Prompting.Config.{
  section_kinds, validate_section, add_required, RequiredTotals, validate_sections,
  validate_profile,
}
use iris_mind_v.Prompting.Section.{
  apply_section, apply_items_section, items_result, section_result, omitted_result,
}
use iris_mind_v.Prompting.Policy.{chars_of, may_shrink, apply_budget}
use iris_mind_v.Prompting.Sound.{IsSound, apply_section-IsSound}
use iris_mind_v.Prompting.Totals.{required_of}
use iris_mind_v.Prompting.Guarantees.{total_chars-le}

-- The budgets of a profile as naturals: of a validated profile, the same numbers.
abbrev pub natural_section : SectionBudget ℤ → SectionBudget ℕ
natural_section s = record {
  max_chars = natural s.max_chars;
  max_items = natural s.max_items;
  priority = natural s.priority;
  overflow_behavior = s.overflow_behavior;
}

abbrev pub natural_profile : ProfileBudget ℤ → ProfileBudget ℕ
natural_profile p = record {
  total_max_chars = natural p.total_max_chars;
  system = natural_section p.system;
  persona = natural_section p.persona;
  safety_constraints = natural_section p.safety_constraints;
  recent_conversation = natural_section p.recent_conversation;
  user_memory = natural_section p.user_memory;
  project_memory = natural_section p.project_memory;
  relationship_signal = natural_section p.relationship_signal;
  internal_state = natural_section p.internal_state;
  interaction_policy = natural_section p.interaction_policy;
  task_context = natural_section p.task_context;
  user_input = natural_section p.user_input;
}

natural-section_budget :
    (p : ProfileBudget ℤ) (k : PromptSectionKind)
    → section_budget (natural_profile p) k ≡ natural_section (section_budget p k)
unfolding section_budget
natural-section_budget p k = ground arith

-- The characters that a required section may take.
abbrev pub required_max : ProfileBudget ℤ → PromptSectionKind → ℕ
required_max p k =
    let budget = section_budget p k in
    if budget.overflow_behavior == required then natural budget.max_chars else 0

validate_sections-sum :
    (p : ProfileBudget ℤ) (name : PromptProfileName) (ks : List PromptSectionKind)
    (totals after : RequiredTotals)
    → validate_sections p name ks totals ≡ ok after
    → after.required_max_chars ≡ totals.required_max_chars + sum_of (required_max p) ks
unfolding validate_sections sum_of add_required
validate_sections-sum p name [] totals after h = ground arith
validate_sections-sum p name (k ∷ ks) totals after h =
    elim (Result-cases (validate_section (section_budget p k) name k)) [
      | inl (u, e) ↦ ground (
        arith,
        h,
        e,
        validate_sections-sum p name ks (add_required (section_budget p k) k totals) after,
      )
      | inr (u, e) ↦ ground (arith, h, e)
    ]

validate_profile-sum :
    (p q : ProfileBudget ℤ) (name : PromptProfileName)
    → validate_profile p name ≡ ok q
    → (q ≡ p) × (sum_of (required_max p) section_kinds ≤ natural p.total_max_chars)
unfolding validate_profile
validate_profile-sum p q name h =
    let zeros : RequiredTotals = record { required_max_chars = 0; required_trusted_sections = 0 } in
    elim (Result-cases (validate_sections p name section_kinds zeros)) [
      | inl (totals, e) ↦
          ground (arith, h, e, validate_sections-sum p name section_kinds zeros totals e)
      | inr (u, e) ↦ ground (arith, h, e)
    ]

-- The pigeonhole: of sections of different kinds, none counts twice.
abbrev pub OtherKinds : PromptSectionInput → PromptSectionInput → Type 0
OtherKinds s t = s.kind ≢ t.kind

module _ (g : PromptSectionKind → ℕ) where
  abbrev weight : PromptSectionKind → List PromptSectionInput → ℕ
  weight k = sum_of (λ s. if s.kind == k then g k else 0)

  sum-weights :
      (ss : List PromptSectionInput)
      → sum_of (λ s. g s.kind) ss ≡ sum_of (λ k. weight k ss) section_kinds
  unfolding sum_of
  sum-weights [] = refl
  sum-weights (s ∷ ss) = ground (arith, sum-weights ss)

  weight-others :
      (k : PromptSectionKind) (ss : List PromptSectionInput)
      → All (λ s. k ≢ s.kind) ss
      → weight k ss ≡ 0
  unfolding sum_of
  weight-others k [] h = refl
  weight-others k (s ∷ ss) h = ground (arith, h.0, weight-others k ss h.1)

  weight-le :
      (k : PromptSectionKind) (ss : List PromptSectionInput)
      → Pairwise OtherKinds ss
      → weight k ss ≤ g k
  unfolding sum_of
  weight-le k [] h = omega arith
  weight-le k (s ∷ ss) h = elim (section_kind_eq.dec s.kind k) [
    | yes e ↦ ground (arith, weight-others k ss (subst (λ j. All (λ t. j ≢ t.kind) ss) e h.0))
    | no e ↦ ground (arith, weight-le k ss h.1)
  ]

  sum-different_kinds :
      (ss : List PromptSectionInput)
      → Pairwise OtherKinds ss
      → sum_of (λ s. g s.kind) ss ≤ sum_of g section_kinds
  sum-different_kinds ss h =
      omega (
        arith,
        sum-weights ss,
        sum_of-le (λ k. weight k ss) g (λ k. weight-le k ss h) section_kinds,
      )

apply_section-behavior :
    (b : ProfileBudget ℕ) (s : PromptSectionInput)
    → (apply_section b s).report.overflow_behavior ≡ (section_budget b s.kind).overflow_behavior
unfolding apply_section apply_items_section items_result section_result omitted_result
apply_section-behavior b s = ground arith

abbrev IsOf : PromptSectionKind → Option BudgetedPromptSection → Type 0
IsOf kind none = Unit
IsOf kind (some t) = t.kind ≡ kind

apply_section-kind :
    (b : ProfileBudget ℕ) (s : PromptSectionInput) → IsOf s.kind (apply_section b s).section
unfolding apply_section apply_items_section items_result section_result omitted_result
apply_section-kind b s = ground arith

apply_section-chars :
    (b : ProfileBudget ℕ) (s : PromptSectionInput)
    → chars_of (apply_section b s) ≤ (section_budget b s.kind).max_chars
unfolding chars_of IsSound
apply_section-chars b s = ground (arith, apply_section-kind b s, apply_section-IsSound b s)

required_of-le :
    (p : ProfileBudget ℤ) (s : PromptSectionInput)
    → required_of (apply_section (natural_profile p) s) ≤ required_max p s.kind
unfolding required_of may_shrink chars_of
required_of-le p s =
    let b = natural_profile p in
    ground
      (arith, apply_section-behavior b s, apply_section-chars b s, natural-section_budget p s.kind)

-- Under a profile that validation accepts, and with sections of which no two are of one kind,
-- the sections that apply puts out have together at most total_max_chars characters.
pub validated-total_chars :
    (p q : ProfileBudget ℤ) (name profile : PromptProfileName) (ss : List PromptSectionInput)
    → validate_profile p name ≡ ok q
    → Pairwise OtherKinds ss
    → (apply_budget (natural_profile q) profile ss).report.total_chars ≤ natural q.total_max_chars
validated-total_chars p q name profile ss h d =
    let (same, enough) = validate_profile-sum p q name h in
    rw same (
      omega (
        arith,
        enough,
        total_chars-le (natural_profile p) ss profile,
        sum_of-map required_of (apply_section (natural_profile p)) ss,
        sum_of-le (λ s. required_of (apply_section (natural_profile p) s))
            (λ s. required_max p s.kind) (required_of-le p) ss,
        sum-different_kinds (required_max p) ss d,
      ))

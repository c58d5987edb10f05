-- ===== src/Prompting/Types.antt =====
-- The values of prompt assembly: iris/contracts/prompting.py, the budgets of
-- iris/runtime/config/prompt_budget.py, and the results of iris/runtime/prompting/budget.py. The
-- integers of the
-- contracts are natural numbers: `Field(ge=0)` refuses the others.
use iris_mind_v.Prelude.{ℕ, Text, Option, Eq, Bool, List, ltb, ◌||◌, count, sum_of}

pub data PromptProfileName : Type 0 where
  local_low local_balanced local_quality proactive_short : PromptProfileName

unfoldable pub PromptProfileName-discrete : Discrete PromptProfileName
PromptProfileName-discrete = hlevel

instance abbrev pub profile_name_eq : Eq PromptProfileName
profile_name_eq = record { dec = PromptProfileName-discrete }

pub data PromptSectionKind : Type 0 where
  system persona safety_constraints recent_conversation user_memory : PromptSectionKind
  project_memory relationship_signal internal_state interaction_policy : PromptSectionKind
  task_context user_input : PromptSectionKind

unfoldable pub PromptSectionKind-discrete : Discrete PromptSectionKind
PromptSectionKind-discrete = hlevel

instance abbrev pub section_kind_eq : Eq PromptSectionKind
section_kind_eq = record { dec = PromptSectionKind-discrete }

pub data PromptTrustBoundary : Type 0 where
  trusted internal_derived external_context user_input : PromptTrustBoundary

pub data PromptOverflowBehavior : Type 0 where
  required truncate truncate_items omit : PromptOverflowBehavior
  use_existing_summary_then_truncate : PromptOverflowBehavior

unfoldable pub PromptOverflowBehavior-discrete : Discrete PromptOverflowBehavior
PromptOverflowBehavior-discrete = hlevel

instance abbrev pub overflow_behavior_eq : Eq PromptOverflowBehavior
overflow_behavior_eq = record { dec = PromptOverflowBehavior-discrete }

-- The budgets over integers, as a configuration holds them, or over naturals, as the policy reads
-- those of a validated configuration.
pub record SectionBudget (N : Type 0) : Type 0 where
  pub max_chars : N
  pub max_items : N
  pub priority : N
  pub overflow_behavior : PromptOverflowBehavior

pub record ProfileBudget (N : Type 0) : Type 0 where
  pub total_max_chars : N
  pub system : SectionBudget N
  pub persona : SectionBudget N
  pub safety_constraints : SectionBudget N
  pub recent_conversation : SectionBudget N
  pub user_memory : SectionBudget N
  pub project_memory : SectionBudget N
  pub relationship_signal : SectionBudget N
  pub internal_state : SectionBudget N
  pub interaction_policy : SectionBudget N
  pub task_context : SectionBudget N
  pub user_input : SectionBudget N

abbrev pub RuntimePromptSectionBudget : Type 0
RuntimePromptSectionBudget = SectionBudget ℕ

abbrev pub RuntimePromptProfileBudget : Type 0
RuntimePromptProfileBudget = ProfileBudget ℕ

-- `budget.section_budget(kind)`
unfoldable pub section_budget : {N : Type 0} → ProfileBudget N → PromptSectionKind → SectionBudget N
section_budget b system = b.system
section_budget b persona = b.persona
section_budget b safety_constraints = b.safety_constraints
section_budget b recent_conversation = b.recent_conversation
section_budget b user_memory = b.user_memory
section_budget b project_memory = b.project_memory
section_budget b relationship_signal = b.relationship_signal
section_budget b internal_state = b.internal_state
section_budget b interaction_policy = b.interaction_policy
section_budget b task_context = b.task_context
section_budget b PromptSectionKind.user_input = b.user_input

pub record PromptSectionInput : Type 0 where
  pub kind : PromptSectionKind
  pub title : Text
  pub trust_boundary : PromptTrustBoundary
  pub content : Text
  pub items : List Text

pub record PromptSectionAssemblyReport : Type 0 where
  pub kind : PromptSectionKind
  pub trust_boundary : PromptTrustBoundary
  pub input_chars : ℕ
  pub output_chars : ℕ
  pub input_items : ℕ
  pub output_items : ℕ
  pub max_chars : ℕ
  pub max_items : ℕ
  pub priority : ℕ
  pub overflow_behavior : PromptOverflowBehavior
  pub omitted : Bool
  pub truncated_chars : ℕ
  pub truncated_items : ℕ

-- The report of an assembly, less its fields on the persona, which this code leaves at their
-- defaults.
pub record PromptAssemblyReport : Type 0 where
  pub profile : PromptProfileName
  pub total_chars : ℕ
  pub total_max_chars : ℕ
  pub section_reports : List PromptSectionAssemblyReport

unfoldable pub omitted_section_count : PromptAssemblyReport → ℕ
omitted_section_count r = count (λ s. s.omitted) r.section_reports

unfoldable pub truncated_section_count : PromptAssemblyReport → ℕ
truncated_section_count r =
    count (λ s. ltb 0 s.truncated_chars || ltb 0 s.truncated_items) r.section_reports

unfoldable pub truncated_item_count : PromptAssemblyReport → ℕ
truncated_item_count r = sum_of (λ s. s.truncated_items) r.section_reports

pub record BudgetedPromptSection : Type 0 where
  pub kind : PromptSectionKind
  pub title : Text
  pub trust_boundary : PromptTrustBoundary
  pub content : Text
  pub items : List Text

pub record SectionBudgetApplication : Type 0 where
  pub section : Option BudgetedPromptSection
  pub report : PromptSectionAssemblyReport

pub record PromptBudgetResult : Type 0 where
  pub sections : List BudgetedPromptSection
  pub report : PromptAssemblyReport

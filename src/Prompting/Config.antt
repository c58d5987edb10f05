-- ===== src/Prompting/Config.antt =====
-- iris/runtime/config/prompt_budget.py: the prompt budgets of a configuration and their validation.
use iris_mind_v.Prelude.{
  is_negative, is_zero, greater, natural, ℕ, ◌+◌, ◌-◌, ◌*◌, ℤ, pos, Text, text, ◌++◌, List, [], ◌∷◌,
  Bool, not, ◌&&◌, ◌||◌, ◌==◌, leb, ltb, if◌then◌else◌, elem, Result, ok, raise, ◌>>=◌, ◌>>◌, map,
}
use iris_mind_v.Budget.Config.{ConfigError, config_error}
use iris_mind_v.Prompting.Types.{
  PromptProfileName, local_low, local_balanced, local_quality, proactive_short, profile_name_eq,
  PromptSectionKind, system, persona, safety_constraints, recent_conversation, user_memory,
  project_memory, relationship_signal, internal_state, interaction_policy, task_context,
  section_kind_eq, PromptOverflowBehavior, required, truncate, truncate_items, omit,
  use_existing_summary_then_truncate, overflow_behavior_eq, SectionBudget, ProfileBudget,
  section_budget,
}

-- `tuple(PromptSectionKind)`
abbrev pub section_kinds : List PromptSectionKind
section_kinds =
    system ∷ persona ∷ safety_constraints ∷ recent_conversation ∷ user_memory ∷ project_memory
    ∷ relationship_signal ∷ internal_state ∷ interaction_policy ∷ task_context
    ∷ PromptSectionKind.user_input ∷ []

abbrev pub profile_names : List PromptProfileName
profile_names = local_low ∷ local_balanced ∷ local_quality ∷ proactive_short ∷ []

abbrev pub overflow_behaviors : List PromptOverflowBehavior
overflow_behaviors =
    required ∷ truncate ∷ truncate_items ∷ omit ∷ use_existing_summary_then_truncate ∷ []

abbrev pub required_section_kinds : List PromptSectionKind
required_section_kinds = system ∷ safety_constraints ∷ PromptSectionKind.user_input ∷ []

-- `kind.value`, `name.value` and `behavior.value`
unfoldable pub kind_value : PromptSectionKind → Text
kind_value system = text "system"
kind_value persona = text "persona"
kind_value safety_constraints = text "safety_constraints"
kind_value recent_conversation = text "recent_conversation"
kind_value user_memory = text "user_memory"
kind_value project_memory = text "project_memory"
kind_value relationship_signal = text "relationship_signal"
kind_value internal_state = text "internal_state"
kind_value interaction_policy = text "interaction_policy"
kind_value task_context = text "task_context"
kind_value PromptSectionKind.user_input = text "user_input"

unfoldable pub profile_value : PromptProfileName → Text
profile_value local_low = text "local_low"
profile_value local_balanced = text "local_balanced"
profile_value local_quality = text "local_quality"
profile_value proactive_short = text "proactive_short"

unfoldable pub behavior_value : PromptOverflowBehavior → Text
behavior_value required = text "required"
behavior_value truncate = text "truncate"
behavior_value truncate_items = text "truncate_items"
behavior_value omit = text "omit"
behavior_value use_existing_summary_then_truncate = text "use_existing_summary_then_truncate"

pub record RuntimePromptBudgetConfig : Type 0 where
  pub enabled : Bool
  pub chat_profile : PromptProfileName
  pub proactive_profile : PromptProfileName
  pub local_low : ProfileBudget ℤ
  pub local_balanced : ProfileBudget ℤ
  pub local_quality : ProfileBudget ℤ
  pub proactive_short : ProfileBudget ℤ

unfoldable pub profile_budget : RuntimePromptBudgetConfig → PromptProfileName → ProfileBudget ℤ
profile_budget config PromptProfileName.local_low = config.local_low
profile_budget config PromptProfileName.local_balanced = config.local_balanced
profile_budget config PromptProfileName.local_quality = config.local_quality
profile_budget config PromptProfileName.proactive_short = config.proactive_short

unfoldable pub profile_budget_for_call_site :
    RuntimePromptBudgetConfig → (proactive : Bool) → ProfileBudget ℤ
profile_budget_for_call_site config proactive =
    let profile = if proactive then config.proactive_profile else config.chat_profile in
    profile_budget config profile

unfoldable pub section_budget_for_profile :
    RuntimePromptBudgetConfig → PromptProfileName → PromptSectionKind → SectionBudget ℤ
section_budget_for_profile config profile section =
    section_budget (profile_budget config profile) section

unfoldable pub memory_top_k_for_profile : RuntimePromptBudgetConfig → PromptProfileName → ℤ
memory_top_k_for_profile config profile =
    (section_budget_for_profile config profile user_memory).max_items

unfoldable pub project_context_top_k_for_profile : RuntimePromptBudgetConfig → PromptProfileName → ℤ
project_context_top_k_for_profile config profile =
    (section_budget_for_profile config profile project_memory).max_items

abbrev pub section_path : PromptProfileName → PromptSectionKind → Text
section_path profile section =
    text "prompt_budget." ++ profile_value profile ++ text "." ++ kind_value section

-- `", ".join(values)`
unfoldable pub join_values : List Text → Text
join_values [] = []
join_values (s ∷ []) = s
join_values (s ∷ t ∷ ts) = s ++ text ", " ++ join_values (t ∷ ts)

unfoldable pub validate_required_section_budget :
    SectionBudget ℤ → (path : Text) → PromptSectionKind → Result ConfigError (Unit {0})
unfolding elem
validate_required_section_budget budget path section =
    if not (elem section required_section_kinds)
    then raise (
        config_error (
          path
          ++ text ".required section must be one of: "
          ++ join_values (map kind_value required_section_kinds)))
    else if is_zero budget.max_chars
    then raise (config_error (path ++ text ".required section must have max_chars greater than 0"))
    else if is_zero budget.max_items
    then raise (config_error (path ++ text ".required section must have max_items greater than 0"))
    else ok tt

unfoldable pub validate_section :
    SectionBudget ℤ → PromptProfileName → PromptSectionKind → Result ConfigError (Unit {0})
validate_section budget profile section =
    let path = section_path profile section in
    if is_negative budget.max_chars
    then raise (config_error (path ++ text ".max_chars must be greater than or equal to 0"))
    else if is_negative budget.max_items
    then raise (config_error (path ++ text ".max_items must be greater than or equal to 0"))
    else if is_negative budget.priority
    then raise (config_error (path ++ text ".priority must be greater than or equal to 0"))
    else if budget.overflow_behavior == required
    then validate_required_section_budget budget path section
    else ok tt

unfoldable pub trusted_required_separator_chars : (required_trusted_sections : ℕ) → ℕ
trusted_required_separator_chars n = if leb n 1 then 0 else (n - 1) * 2

-- The sums that the loop over the kinds keeps: `required_max_chars`, `required_trusted_sections`.
pub record RequiredTotals : Type 0 where
  pub required_max_chars : ℕ
  pub required_trusted_sections : ℕ

unfoldable pub add_required : SectionBudget ℤ → PromptSectionKind → RequiredTotals → RequiredTotals
add_required budget section totals =
    if budget.overflow_behavior == required
    then record {
      required_max_chars = totals.required_max_chars + natural budget.max_chars;
      required_trusted_sections =
          totals.required_trusted_sections
          + (if section == system || section == safety_constraints then 1 else 0);
    }
    else totals

-- A section's sums are added once it has passed, so that its numbers are naturals.
unfoldable pub validate_sections :
    ProfileBudget ℤ
    → PromptProfileName
    → List PromptSectionKind
    → RequiredTotals
    → Result ConfigError RequiredTotals
validate_sections profile name [] totals = ok totals
validate_sections profile name (section ∷ sections) totals =
    let budget = section_budget profile section in
    validate_section budget name section
    >> validate_sections profile name sections (add_required budget section totals)

unfoldable pub validate_profile :
    ProfileBudget ℤ → PromptProfileName → Result ConfigError (ProfileBudget ℤ)
validate_profile profile name =
    let path = text "prompt_budget." ++ profile_value name in
    if not (greater profile.total_max_chars (pos 0))
    then raise (config_error (path ++ text ".total_max_chars must be greater than 0"))
    else do
      totals ←
          validate_sections profile name section_kinds
            (record { required_max_chars = 0; required_trusted_sections = 0 })
      let required_prompt_chars =
          totals.required_max_chars
          + trusted_required_separator_chars totals.required_trusted_sections
      if ltb (natural profile.total_max_chars) required_prompt_chars
          then raise (
              config_error (
                path
                ++ text ".required section max_chars total "
                ++ text "including trusted separators must not exceed total_max_chars"))
          else ok profile

unfoldable pub validate_prompt_budget_config :
    RuntimePromptBudgetConfig → Result ConfigError RuntimePromptBudgetConfig
validate_prompt_budget_config config = do
  low ← validate_profile config.local_low local_low
  balanced ← validate_profile config.local_balanced local_balanced
  quality ← validate_profile config.local_quality local_quality
  short ← validate_profile config.proactive_short proactive_short
  let value = record config {
    local_low = low;
    local_balanced = balanced;
    local_quality = quality;
    proactive_short = short;
  }
  let profile = profile_budget value value.proactive_profile
  let chat_profile = profile_budget value value.chat_profile
  if not (value.proactive_profile == proactive_short)
        && greater profile.total_max_chars chat_profile.total_max_chars
      then raise (
          config_error
            (text "prompt_budget.proactive_profile must not exceed chat_profile total_max_chars"))
      else if not
          (greater value.local_balanced.total_max_chars value.proactive_short.total_max_chars)
      then raise (
          config_error (
            text
              "prompt_budget.proactive_short.total_max_chars must be shorter than local_balanced"))
      else ok value

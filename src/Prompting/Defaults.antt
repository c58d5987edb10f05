-- ===== src/Prompting/Defaults.antt =====
-- iris/runtime/config/prompt_budget.py: the default profiles, and the contract of a profile
-- (iris/contracts/prompting.py).
use iris_mind_v.Prelude.{
  ◌≡◌, arith, ℕ, ℤ, pos, Text, List, [], ◌∷◌, true, ◌==◌, if◌then◌else◌, map, Result, ok, raise,
}
use iris_mind_v.Prompting.Types.{
  PromptProfileName, local_balanced, proactive_short, PromptSectionKind, section_kind_eq,
  PromptOverflowBehavior, required, truncate, truncate_items, omit,
  use_existing_summary_then_truncate, SectionBudget, ProfileBudget, section_budget,
}
use iris_mind_v.Prompting.Config.{section_kinds, kind_value, RuntimePromptBudgetConfig}

abbrev section_of : (max_chars max_items priority : ℕ) → PromptOverflowBehavior → SectionBudget ℤ
section_of max_chars max_items priority overflow_behavior = record {
  max_chars = pos max_chars;
  max_items = pos max_items;
  priority = pos priority;
  overflow_behavior = overflow_behavior;
}

abbrev pub local_low_profile : ProfileBudget ℤ
local_low_profile = record {
  total_max_chars = pos 6000;
  system = section_of 1100 1 100 required;
  persona = section_of 500 1 95 truncate;
  safety_constraints = section_of 900 8 98 truncate_items;
  recent_conversation = section_of 1800 6 70 use_existing_summary_then_truncate;
  user_memory = section_of 800 3 55 truncate_items;
  project_memory = section_of 500 2 45 truncate_items;
  relationship_signal = section_of 450 2 65 truncate_items;
  internal_state = section_of 550 4 60 truncate_items;
  interaction_policy = section_of 500 4 75 truncate_items;
  task_context = section_of 800 4 50 truncate_items;
  user_input = section_of 1600 1 100 required;
}

abbrev pub local_balanced_profile : ProfileBudget ℤ
local_balanced_profile = record {
  total_max_chars = pos 10000;
  system = section_of 1400 1 100 required;
  persona = section_of 900 1 95 truncate;
  safety_constraints = section_of 1200 10 98 truncate_items;
  recent_conversation = section_of 3600 12 70 use_existing_summary_then_truncate;
  user_memory = section_of 1400 5 55 truncate_items;
  project_memory = section_of 1000 4 45 truncate_items;
  relationship_signal = section_of 700 3 65 truncate_items;
  internal_state = section_of 800 5 60 truncate_items;
  interaction_policy = section_of 700 5 75 truncate_items;
  task_context = section_of 1200 6 50 truncate_items;
  user_input = section_of 2400 1 100 required;
}

abbrev pub local_quality_profile : ProfileBudget ℤ
local_quality_profile = record {
  total_max_chars = pos 16000;
  system = section_of 1800 1 100 required;
  persona = section_of 1400 1 95 truncate;
  safety_constraints = section_of 1600 12 98 truncate_items;
  recent_conversation = section_of 6400 20 70 use_existing_summary_then_truncate;
  user_memory = section_of 2400 8 55 truncate_items;
  project_memory = section_of 1800 6 45 truncate_items;
  relationship_signal = section_of 1000 4 65 truncate_items;
  internal_state = section_of 1200 6 60 truncate_items;
  interaction_policy = section_of 1000 6 75 truncate_items;
  task_context = section_of 2000 8 50 truncate_items;
  user_input = section_of 3200 1 100 required;
}

abbrev pub proactive_short_profile : ProfileBudget ℤ
proactive_short_profile = record {
  total_max_chars = pos 3000;
  system = section_of 900 1 100 required;
  persona = section_of 350 1 95 truncate;
  safety_constraints = section_of 700 6 98 truncate_items;
  recent_conversation = section_of 500 3 45 truncate_items;
  user_memory = section_of 300 1 35 omit;
  project_memory = section_of 0 0 20 omit;
  relationship_signal = section_of 450 2 70 truncate_items;
  internal_state = section_of 350 3 55 truncate_items;
  interaction_policy = section_of 400 3 80 truncate_items;
  task_context = section_of 450 3 50 truncate_items;
  user_input = section_of 700 1 100 required;
}

abbrev pub default_prompt_budget_config : RuntimePromptBudgetConfig
default_prompt_budget_config = record {
  enabled = true;
  chat_profile = local_balanced;
  proactive_profile = proactive_short;
  local_low = local_low_profile;
  local_balanced = local_balanced_profile;
  local_quality = local_quality_profile;
  proactive_short = proactive_short_profile;
}

pub record PromptSectionBudget : Type 0 where
  pub max_chars : ℕ
  pub max_items : ℕ
  pub priority : ℕ
  pub overflow_behavior : PromptOverflowBehavior

pub record PromptProfileSectionBudget : Type 0 where
  pub kind : PromptSectionKind
  pub budget : PromptSectionBudget

pub record PromptProfileBudget : Type 0 where
  pub name : PromptProfileName
  pub total_max_chars : ℕ
  pub sections : List PromptProfileSectionBudget

-- `KeyError(kind.value)`
pub data KeyError : Type 0 where
  key_error : Text → KeyError

unfoldable pub find_section :
    List PromptProfileSectionBudget → PromptSectionKind → Result KeyError PromptSectionBudget
find_section [] kind = raise (key_error (kind_value kind))
find_section (section ∷ sections) kind =
    if section.kind == kind then ok section.budget else find_section sections kind

-- `PromptProfileBudget.section_budget`
unfoldable pub contract_budget :
    PromptProfileBudget → PromptSectionKind → Result KeyError PromptSectionBudget
unfolding find_section
contract_budget p kind = find_section p.sections kind

-- `RuntimePromptSectionBudget.to_contract`
unfoldable pub section_to_contract : SectionBudget ℕ → PromptSectionBudget
section_to_contract b = record {
  max_chars = b.max_chars;
  max_items = b.max_items;
  priority = b.priority;
  overflow_behavior = b.overflow_behavior;
}

unfoldable pub iter_profile_sections : ProfileBudget ℕ → List (PromptSectionKind × SectionBudget ℕ)
iter_profile_sections p = map (λ kind. (kind, section_budget p kind)) section_kinds

-- `RuntimePromptProfileBudget.to_contract`
unfoldable pub profile_to_contract : ProfileBudget ℕ → PromptProfileName → PromptProfileBudget
profile_to_contract p name = record {
  name = name;
  total_max_chars = p.total_max_chars;
  sections =
      map (λ entry. record { kind = entry.0; budget = section_to_contract entry.1 })
        (iter_profile_sections p);
}

-- The contract of a profile has the budget of every kind, and it is the profile's.
pub contract_budget-section_budget :
    (p : ProfileBudget ℕ) (name : PromptProfileName) (kind : PromptSectionKind)
    → contract_budget (profile_to_contract p name) kind
      ≡ ok (section_to_contract (section_budget p kind))
unfolding contract_budget find_section profile_to_contract iter_profile_sections
contract_budget-section_budget p name kind = ground arith

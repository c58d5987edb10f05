-- ===== src/Prompting/Toml.antt =====
-- iris/runtime/config/prompt_budget.py: the table `[prompt_budget]` of a TOML file, read into a
-- configuration. A table is a list of keys and values; a float is the integer of its bits.
use iris_mind_v.Prelude.{
  ℕ, ℤ, Text, text, text_eq, ◌++◌, Option, none, some, List, [], ◌∷◌, Bool, ◌==◌, if◌then◌else◌,
  map, Result, ok, raise, ◌>>=◌,
}
use iris_mind_v.Budget.Config.{ConfigError, config_error}
use iris_mind_v.Prompting.Types.{
  PromptProfileName, local_low, local_balanced, local_quality, proactive_short, PromptSectionKind,
  system, persona, safety_constraints, recent_conversation, user_memory, project_memory,
  relationship_signal, internal_state, interaction_policy, task_context, section_kind_eq,
  PromptOverflowBehavior, SectionBudget, ProfileBudget, section_budget,
}
use iris_mind_v.Prompting.Config.{
  section_kinds, profile_names, overflow_behaviors, kind_value, profile_value, behavior_value,
  section_path, join_values, RuntimePromptBudgetConfig, profile_budget,
  validate_prompt_budget_config,
}

mutual
  pub data TomlValue : Type 0 where
    str : Text → TomlValue
    int : ℤ → TomlValue
    float : ℕ → TomlValue
    bool : Bool → TomlValue
    null : TomlValue
    array : TomlArray → TomlValue
    table : TomlTable → TomlValue

  pub data TomlArray : Type 0 where
    no_values : TomlArray
    value_then : TomlValue → TomlArray → TomlArray

  pub data TomlTable : Type 0 where
    no_entries : TomlTable
    entry_then : (key : Text) → TomlValue → TomlTable → TomlTable

-- `table[key]`, none where `key not in table`
unfoldable pub get_key : TomlTable → (key : Text) → Option TomlValue
get_key no_entries key = none
get_key (entry_then k v t) key = if k == key then some v else get_key t key

unfoldable pub parse_bool : TomlValue → (path : Text) → Result ConfigError Bool
parse_bool (bool b) path = ok b
parse_bool _ path =
    raise (config_error (text "Runtime config value '" ++ path ++ text "' must be a boolean"))

unfoldable pub parse_int : TomlValue → (path : Text) → Result ConfigError ℤ
parse_int (int n) path = ok n
parse_int _ path =
    raise (config_error (text "Runtime config value '" ++ path ++ text "' must be an integer"))

unfoldable pub parse_string : TomlValue → (path : Text) → Result ConfigError Text
parse_string (str s) path = ok s
parse_string _ path =
    raise (config_error (text "Runtime config value '" ++ path ++ text "' must be a string"))

-- The first of the values whose text this is.
unfoldable pub find_value {ℓ} : {A : Type ℓ} → (A → Text) → List A → (raw : Text) → Option A
find_value value [] raw = none
find_value value (a ∷ rest) raw = if raw == value a then some a else find_value value rest raw

abbrev pub not_allowed : (path raw : Text) → List Text → ConfigError
not_allowed path raw values =
    config_error (
      text "Invalid "
      ++ path
      ++ text ": "
      ++ raw
      ++ text ". Allowed values: "
      ++ join_values values)

unfoldable pub parse_profile_name : TomlValue → (path : Text) → Result ConfigError PromptProfileName
parse_profile_name value path = do
  raw ← parse_string value path
  elim (find_value profile_value profile_names raw) [
    | some profile ↦ ok profile
    | none ↦ raise (not_allowed path raw (map profile_value profile_names))
  ]

unfoldable pub parse_overflow_behavior :
    TomlValue → (path : Text) → Result ConfigError PromptOverflowBehavior
parse_overflow_behavior value path = do
  raw ← parse_string value path
  elim (find_value behavior_value overflow_behaviors raw) [
    | some behavior ↦ ok behavior
    | none ↦ raise (not_allowed path raw (map behavior_value overflow_behaviors))
  ]

unfoldable pub table_or_empty : TomlTable → (key path : Text) → Result ConfigError TomlTable
table_or_empty t key path = elim (get_key t key) [
  | none ↦ ok no_entries
  | some value ↦ elim value [
    | table inner ↦ ok inner
    | _ ↦ raise (config_error (text "Runtime config value '" ++ path ++ text "' must be a table"))
  ]
]

unfoldable pub optional_int : TomlTable → (key path : Text) → (default : ℤ) → Result ConfigError ℤ
optional_int t key path default = elim (get_key t key) [
  | none ↦ ok default
  | some value ↦ parse_int value (path ++ text "." ++ key)
]

unfoldable pub optional_overflow_behavior :
    TomlTable
    → (key path : Text) → (default : PromptOverflowBehavior)
    → Result ConfigError PromptOverflowBehavior
optional_overflow_behavior t key path default = elim (get_key t key) [
  | none ↦ ok default
  | some value ↦ parse_overflow_behavior value (path ++ text "." ++ key)
]

unfoldable pub section_value :
    SectionBudget ℤ → (section target : PromptSectionKind) → SectionBudget ℤ → SectionBudget ℤ
section_value current section target replacement =
    if section == target then replacement else current

unfoldable pub replace_section_budget :
    ProfileBudget ℤ → PromptSectionKind → SectionBudget ℤ → ProfileBudget ℤ
replace_section_budget p section b = record {
  total_max_chars = p.total_max_chars;
  system = section_value p.system section system b;
  persona = section_value p.persona section persona b;
  safety_constraints = section_value p.safety_constraints section safety_constraints b;
  recent_conversation = section_value p.recent_conversation section recent_conversation b;
  user_memory = section_value p.user_memory section user_memory b;
  project_memory = section_value p.project_memory section project_memory b;
  relationship_signal = section_value p.relationship_signal section relationship_signal b;
  internal_state = section_value p.internal_state section internal_state b;
  interaction_policy = section_value p.interaction_policy section interaction_policy b;
  task_context = section_value p.task_context section task_context b;
  user_input = section_value p.user_input section PromptSectionKind.user_input b;
}

unfoldable pub replace_profile_budget :
    RuntimePromptBudgetConfig → PromptProfileName → ProfileBudget ℤ → RuntimePromptBudgetConfig
replace_profile_budget config local_low b = record config { local_low = b }
replace_profile_budget config local_balanced b = record config { local_balanced = b }
replace_profile_budget config local_quality b = record config { local_quality = b }
replace_profile_budget config proactive_short b = record config { proactive_short = b }

unfoldable pub apply_section_toml :
    SectionBudget ℤ
    → TomlTable
    → PromptProfileName
    → PromptSectionKind
    → Result ConfigError (SectionBudget ℤ)
apply_section_toml b t profile section =
    let path = section_path profile section in
    do
      chars ← optional_int t (text "max_chars") path b.max_chars
      items ← optional_int t (text "max_items") path b.max_items
      prio ← optional_int t (text "priority") path b.priority
      behavior ← optional_overflow_behavior t (text "overflow_behavior") path b.overflow_behavior
      ok (record {
        max_chars = chars;
        max_items = items;
        priority = prio;
        overflow_behavior = behavior;
      })

unfoldable pub apply_sections_toml :
    ProfileBudget ℤ
    → TomlTable
    → PromptProfileName
    → List PromptSectionKind
    → Result ConfigError (ProfileBudget ℤ)
apply_sections_toml value t profile [] = ok value
apply_sections_toml value t profile (section ∷ sections) = do
  section_table ← table_or_empty t (kind_value section) (section_path profile section)
  b ← apply_section_toml (section_budget value section) section_table profile section
  apply_sections_toml (replace_section_budget value section b) t profile sections

unfoldable pub apply_profile_toml :
    ProfileBudget ℤ → TomlTable → PromptProfileName → Result ConfigError (ProfileBudget ℤ)
apply_profile_toml p t profile = do
  total ←
      optional_int t (text "total_max_chars") (text "prompt_budget." ++ profile_value profile)
        p.total_max_chars
  apply_sections_toml (record p { total_max_chars = total }) t profile section_kinds

unfoldable pub apply_profiles_toml :
    RuntimePromptBudgetConfig
    → TomlTable
    → List PromptProfileName
    → Result ConfigError RuntimePromptBudgetConfig
apply_profiles_toml value t [] = ok value
apply_profiles_toml value t (profile ∷ profiles) = do
  profile_table ←
      table_or_empty t (profile_value profile) (text "prompt_budget." ++ profile_value profile)
  b ← apply_profile_toml (profile_budget value profile) profile_table profile
  apply_profiles_toml (replace_profile_budget value profile b) t profiles

-- A key's parsed value, or what stands there where the table lacks the key.
unfoldable pub parsed_or {ℓ} :
    {A : Type ℓ}
    → TomlTable
    → (key : Text) → A
    → (TomlValue → Text → Result ConfigError A)
    → Result ConfigError A
parsed_or t key default parse = elim (get_key t key) [
  | none ↦ ok default
  | some value ↦ parse value (text "prompt_budget." ++ key)
]

unfoldable pub apply_prompt_budget_toml :
    RuntimePromptBudgetConfig → TomlTable → Result ConfigError RuntimePromptBudgetConfig
apply_prompt_budget_toml config t = do
  on ← parsed_or t (text "enabled") config.enabled parse_bool
  chat ← parsed_or t (text "chat_profile") config.chat_profile parse_profile_name
  pro ← parsed_or t (text "proactive_profile") config.proactive_profile parse_profile_name
  value ←
      apply_profiles_toml
        (record config { enabled = on; chat_profile = chat; proactive_profile = pro }) t
        profile_names
  validate_prompt_budget_config value

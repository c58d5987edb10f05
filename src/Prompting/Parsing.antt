-- ===== src/Prompting/Parsing.antt =====
-- The texts that iris/runtime/config/prompt_budget.py reads and writes for its enumerations.
use iris_mind_v.Prelude.{
  List-discrete, ℕ_discrete, ◌∙◌, Text, ◌≡◌, ◌↔◌, refl, ap, Option-cases, inl, inr, some, List, [],
  ◌∷◌, text_eq, ok, arith,
}
use iris_mind_v.Prompting.Types.{
  PromptProfileName, local_low, local_balanced, local_quality, proactive_short,
  PromptOverflowBehavior, required, truncate, truncate_items, omit,
  use_existing_summary_then_truncate,
}
use iris_mind_v.Prompting.Config.{profile_names, overflow_behaviors, profile_value, behavior_value}
use iris_mind_v.Prompting.Toml.{
  TomlValue, str, int, float, bool, null, array, table, parse_string, find_value,
  parse_profile_name, parse_overflow_behavior,
}

find_value_sound {ℓ} :
    {A : Type ℓ} (value : A → Text) (all : List A) (raw : Text) (a : A)
    → find_value value all raw ≡ some a
    → raw ≡ value a
unfolding find_value
find_value_sound value [] raw a h = cc
find_value_sound value (b ∷ all) raw a h = ground (arith, find_value_sound value all raw a)

find-behavior :
    (b : PromptOverflowBehavior)
    → find_value behavior_value overflow_behaviors (behavior_value b) ≡ some b
unfolding find_value behavior_value List-discrete ℕ_discrete
find-behavior required = refl
find-behavior truncate = refl
find-behavior truncate_items = refl
find-behavior omit = refl
find-behavior use_existing_summary_then_truncate = refl

find-profile :
    (p : PromptProfileName) → find_value profile_value profile_names (profile_value p) ≡ some p
unfolding find_value profile_value List-discrete ℕ_discrete
find-profile local_low = refl
find-profile local_balanced = refl
find-profile local_quality = refl
find-profile proactive_short = refl

parsed_behavior :
    (v : TomlValue) (path : Text) (b : PromptOverflowBehavior)
    → parse_overflow_behavior v path ≡ ok b
    → v ≡ str (behavior_value b)
unfolding parse_overflow_behavior parse_string
parsed_behavior (str raw) path b h =
    elim (Option-cases (find_value behavior_value overflow_behaviors raw)) [
      | inl e ↦ ground (arith, h, e)
      | inr (c, e) ↦
          ground (arith, h, e, find_value_sound behavior_value overflow_behaviors raw c e)
    ]
parsed_behavior (int n) path b h = cc
parsed_behavior (float n) path b h = cc
parsed_behavior (bool n) path b h = cc
parsed_behavior null path b h = cc
parsed_behavior (array n) path b h = cc
parsed_behavior (table n) path b h = cc

parsed_profile :
    (v : TomlValue) (path : Text) (p : PromptProfileName)
    → parse_profile_name v path ≡ ok p
    → v ≡ str (profile_value p)
unfolding parse_profile_name parse_string
parsed_profile (str raw) path p h =
    elim (Option-cases (find_value profile_value profile_names raw)) [
      | inl e ↦ ground (arith, h, e)
      | inr (c, e) ↦ ground (arith, h, e, find_value_sound profile_value profile_names raw c e)
    ]
parsed_profile (int n) path p h = cc
parsed_profile (float n) path p h = cc
parsed_profile (bool n) path p h = cc
parsed_profile null path p h = cc
parsed_profile (array n) path p h = cc
parsed_profile (table n) path p h = cc

parse-behavior_value :
    (path : Text) (b : PromptOverflowBehavior)
    → parse_overflow_behavior (str (behavior_value b)) path ≡ ok b
unfolding parse_overflow_behavior parse_string
parse-behavior_value path b = ground (arith, find-behavior b)

parse-profile_value :
    (path : Text) (p : PromptProfileName) → parse_profile_name (str (profile_value p)) path ≡ ok p
unfolding parse_profile_name parse_string
parse-profile_value path p = ground (arith, find-profile p)

-- A value of a configuration is read as an overflow behavior exactly if it is the text of that
-- behavior, and as a profile name exactly if it is the text of that name.
pub parse-value :
    (v : TomlValue) (path : Text) (b : PromptOverflowBehavior) (p : PromptProfileName)
    → ((parse_overflow_behavior v path ≡ ok b) ↔ (v ≡ str (behavior_value b)))
      × ((parse_profile_name v path ≡ ok p) ↔ (v ≡ str (profile_value p)))
parse-value v path b p = (
  (
    parsed_behavior v path b,
    λ e. ap (λ w. parse_overflow_behavior w path) e ∙ parse-behavior_value path b,
  ),
  (
    parsed_profile v path p,
    λ e. ap (λ w. parse_profile_name w path) e ∙ parse-profile_value path p,
  ),
)

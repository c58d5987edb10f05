-- ===== src/Prompting/Items.antt =====
-- iris/runtime/prompting/budget.py: the items of a section that fit its budget.
use iris_mind_v.Prelude.{
  ℕ, ◌-◌, Text, Option, none, some, List, [], ◌∷◌, ◌++◌, Bool, ◌&&◌, ◌||◌, ◌==◌, leb, ltb,
  if◌then◌else◌, length, take, drop, is_empty,
}
use mathlib.Core.List.{reverse}
use iris_mind_v.Prompting.Types.{
  PromptSectionKind, recent_conversation, user_memory, section_kind_eq, PromptSectionInput,
}
use iris_mind_v.Prompting.Render.{render_items, truncate_item_to_fit}

unfoldable pub items_kept_for_section : PromptSectionKind → List Text → (max_items : ℕ) → List Text
items_kept_for_section kind items max_items =
    if leb max_items 0
    then []
    else if kind == recent_conversation
    then drop (length items - max_items) items
    else take max_items items

unfoldable pub items_after_item_budget : PromptSectionInput → (max_items : ℕ) → List Text
items_after_item_budget s max_items =
    if is_empty s.items
    then []
    else if ltb max_items (length s.items) && ltb 0 max_items
    then items_kept_for_section s.kind s.items max_items
    else s.items

-- `(truncated,) if truncated is not None else ()`
abbrev pub one_or_none : Option Text → List Text
one_or_none none = []
one_or_none (some truncated) = truncated ∷ []

module _ (title : Text) (max_chars : ℕ) where
  abbrev pub fits : List Text → Bool
  fits items = leb (length (render_items title items)) max_chars

  -- The loop over `reversed(items)`, with the items kept so far.
  unfoldable pub latest_loop : List Text → (kept : List Text) → List Text
  latest_loop [] kept = kept
  latest_loop (item ∷ items) kept =
      let next = latest_loop items (item ∷ kept) in
      if fits (item ∷ kept)
      then next
      else if is_empty kept
      then one_or_none (truncate_item_to_fit recent_conversation title item max_chars)
      else kept

  unfoldable pub latest_items_within_char_budget : List Text → List Text
  latest_items_within_char_budget items = latest_loop (reverse items) []

  -- The loop over the items, with those kept so far.
  unfoldable pub first_loop : List Text → (kept : List Text) → List Text
  first_loop [] kept = kept
  first_loop (item ∷ items) kept =
      let next = first_loop items (kept ++ item ∷ []) in
      if fits (kept ++ item ∷ [])
      then next
      else if is_empty kept
      then one_or_none (truncate_item_to_fit user_memory title item max_chars)
      else kept

  unfoldable pub first_items_within_char_budget : List Text → List Text
  first_items_within_char_budget items = first_loop items []

unfoldable pub items_within_char_budget :
    PromptSectionKind → (title : Text) → List Text → (max_chars : ℕ) → List Text
items_within_char_budget kind title items max_chars =
    if leb max_chars 0 || is_empty items
    then []
    else if fits title max_chars items
    then items
    else if kind == recent_conversation
    then latest_items_within_char_budget title max_chars items
    else first_items_within_char_budget title max_chars items

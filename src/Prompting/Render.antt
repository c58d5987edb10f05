-- ===== src/Prompting/Render.antt =====
-- iris/runtime/prompting/budget.py: the text of a section, and a text or an item cut to a length.
use iris_mind_v.Prelude.{
  is_blank, whitespace, ℕ, ◌-◌, Text, text, Option, none, some, List, [], ◌∷◌, ◌++◌, ◌&&◌, ◌==◌,
  nat_eq, not, leb, if◌then◌else◌, length, elem, take, map, is_empty,
}
use iris_mind_v.Prompting.Types.{
  PromptSectionKind, user_input, recent_conversation, section_kind_eq, PromptSectionInput,
}

-- `"\n".join(lines)`
unfoldable pub join_lines : List Text → Text
join_lines [] = []
join_lines (s ∷ []) = s
join_lines (s ∷ t ∷ ts) = s ++ 10 ∷ join_lines (t ∷ ts)

-- `f"- {item}"`
abbrev pub bullet : Text → Text
bullet item = text "- " ++ item

unfoldable pub render_items : (title : Text) → List Text → Text
unfolding join_lines
render_items title items = title ++ text ":" ++ 10 ∷ join_lines (map bullet items)

unfoldable pub render_section_content : PromptSectionInput → Text
unfolding is_blank whitespace elem
render_section_content s =
    if not (is_empty s.items)
    then render_items s.title s.items
    else if is_blank s.content
    then []
    else if s.kind == user_input
    then s.content
    else s.title ++ text ":" ++ 10 ∷ s.content

abbrev pub marker : Text
marker = 8230 ∷ []

unfoldable pub truncate_text : Text → (max_chars : ℕ) → Text
truncate_text s max_chars =
    if leb max_chars 0
    then []
    else if leb (length s) max_chars
    then s
    else if max_chars == 1
    then marker
    else take (max_chars - 1) s ++ marker

-- `s.partition(": ")`, none where the separator does not occur
unfoldable pub partition : Text → Option (Text × Text)
partition [] = none
partition (c ∷ []) = none
partition (c ∷ d ∷ s) =
    let rest = partition (d ∷ s) in
    if c == 58 && d == 32
    then some ([], s)
    else elim rest [ none ↦ none | some (before, after) ↦ some (c ∷ before, after) ]

unfoldable pub truncate_conversation_item_to_fit : (title item : Text) (max_chars : ℕ) → Option Text
unfolding partition
truncate_conversation_item_to_fit title item max_chars = elim (partition item) [
  | none ↦ none
  | some (role_prefix, content) ↦
      let prefix = role_prefix ++ text ": " in
      let available = max_chars - length (render_items title (prefix ∷ [])) in
      if leb available 0 then none else some (prefix ++ truncate_text content available)
]

unfoldable pub truncate_item_to_fit :
    PromptSectionKind → (title item : Text) (max_chars : ℕ) → Option Text
truncate_item_to_fit kind title item max_chars =
    if kind == recent_conversation
    then truncate_conversation_item_to_fit title item max_chars
    else let overhead = length (render_items title ([] ∷ [])) in
      let available = max_chars - overhead in
      if leb available 0 then none else some (truncate_text item available)

-- ===== src/Prompting/Fits.antt =====
-- That what iris/runtime/prompting/budget.py cuts to a length has at most that length.
use iris_mind_v.Prelude.{
  ℕ, ◌+◌, ◌-◌, ◌≤◌, ◌≡◌, refl, ◌∙◌, inl, inr, take, ◌⊎◌, Text, text, List, [], ◌∷◌, ◌++◌, true,
  length, length-append, length-take, arith, is_empty, Option-cases,
}
use mathlib.Core.List.{reverse}
use iris_mind_v.Prompting.Types.{PromptSectionKind, recent_conversation, user_memory}
use iris_mind_v.Prompting.Render.{
  bullet, join_lines, render_items, truncate_text, marker, partition,
  truncate_conversation_item_to_fit, truncate_item_to_fit,
}
use iris_mind_v.Prompting.Items.{
  one_or_none, fits, latest_loop, first_loop, latest_items_within_char_budget,
  first_items_within_char_budget, items_within_char_budget,
}

pub length-truncate_text : (s : Text) (n : ℕ) → length (truncate_text s n) ≤ n
unfolding truncate_text
length-truncate_text s n =
    ground (arith, length-append (take (n - 1) s) marker, length-take (n - 1) s)

length-render_one :
    (title item : Text) → length (render_items title (item ∷ [])) ≡ length title + 4 + length item
unfolding render_items join_lines
length-render_one title item =
    length-append (title ++ text ":") (10 ∷ bullet item)
    ∙ omega (arith, length-append title (text ":"))

-- What fits, or nothing.
abbrev pub FitsOrNone : (title : Text) (max_chars : ℕ) → List Text → Type 0
FitsOrNone title max_chars kept = (is_empty kept ≡ true) ⊎ (fits title max_chars kept ≡ true)

conversation_item_fits :
    (title item : Text) (n : ℕ)
    → FitsOrNone title n (one_or_none (truncate_conversation_item_to_fit title item n))
unfolding truncate_conversation_item_to_fit
conversation_item_fits title item n = elim (Option-cases (partition item)) [
  | inl e ↦ rw (e, one_or_none) (inl refl)
  | inr ((before, content), e) ↦
      let prefix = before ++ text ": " in
      let available = n - length (render_items title (prefix ∷ [])) in
      let cut = truncate_text content available in
      rw (e, one_or_none)
        (ground (
          arith,
          length-render_one title prefix,
          length-render_one title (prefix ++ cut),
          length-append prefix cut,
          length-truncate_text content available,
        ))
]

item_fits :
    (kind : PromptSectionKind) (title item : Text) (n : ℕ)
    → FitsOrNone title n (one_or_none (truncate_item_to_fit kind title item n))
unfolding truncate_item_to_fit
item_fits kind title item n = ground (
  arith,
  conversation_item_fits title item n,
  length-render_one title [],
  length-render_one title (truncate_text item (n - length (render_items title ([] ∷ [])))),
  length-truncate_text item (n - length (render_items title ([] ∷ []))),
)

module _ (title : Text) (n : ℕ) where
  latest_loop-FitsOrNone :
      (items kept : List Text)
      → FitsOrNone title n kept
      → FitsOrNone title n (latest_loop title n items kept)
  unfolding latest_loop
  latest_loop-FitsOrNone [] kept h = h
  latest_loop-FitsOrNone (x ∷ items) kept h =
      ground
        (arith, item_fits recent_conversation title x n, latest_loop-FitsOrNone items (x ∷ kept))

  first_loop-FitsOrNone :
      (items kept : List Text)
      → FitsOrNone title n kept
      → FitsOrNone title n (first_loop title n items kept)
  unfolding first_loop
  first_loop-FitsOrNone [] kept h = h
  first_loop-FitsOrNone (x ∷ items) kept h =
      ground (arith, item_fits user_memory title x n, first_loop-FitsOrNone items (kept ++ x ∷ []))

  pub items_within_char_budget-FitsOrNone :
      (kind : PromptSectionKind) (items : List Text)
      → FitsOrNone title n (items_within_char_budget kind title items n)
  unfolding items_within_char_budget latest_items_within_char_budget first_items_within_char_budget
  items_within_char_budget-FitsOrNone kind items = ground (
    arith,
    latest_loop-FitsOrNone (reverse items) [] (inl refl),
    first_loop-FitsOrNone items [] (inl refl),
  )

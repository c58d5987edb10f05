-- ===== src/Prompting/Sizes.antt =====
-- The length of rendered items, and what keeping fewer of them does to it.
use iris_mind_v.Prelude.{
  ℕ, zero, suc, Option, ◌≢◌, ◌+◌, ◌-◌, ◌≤◌, ◌≡◌, refl, ◌∙◌, Text, text, List, [], ◌∷◌, ◌++◌, take,
  drop, sum_of, map, length, length-append, length-take, length-drop, arith, none, some,
}
use mathlib.Core.List.{reverse, reverse_aux}
use iris_mind_v.Prompting.Types.{
  PromptSectionKind, PromptSectionInput, recent_conversation, user_memory,
}
use iris_mind_v.Prompting.Render.{bullet, join_lines, render_items, truncate_item_to_fit}
use iris_mind_v.Prompting.Items.{
  one_or_none, latest_loop, first_loop, latest_items_within_char_budget,
  first_items_within_char_budget, items_within_char_budget, items_kept_for_section,
  items_after_item_budget,
}

-- The characters of an item with its bullet and a line break.
abbrev pub line_size : Text → ℕ
line_size item = length item + 3

length-join_lines :
    (items : List Text) → length (join_lines (map bullet items)) ≡ sum_of line_size items - 1
unfolding join_lines sum_of
length-join_lines [] = refl
length-join_lines (x ∷ []) = omega arith
length-join_lines (x ∷ y ∷ ys) =
    length-append (bullet x) (10 ∷ join_lines (map bullet (y ∷ ys)))
    ∙ omega (arith, length-join_lines (y ∷ ys))

pub length-render_items :
    (title : Text) (items : List Text)
    → length (render_items title items) ≡ length title + 2 + (sum_of line_size items - 1)
unfolding render_items
length-render_items title items =
    length-append (title ++ text ":") (10 ∷ join_lines (map bullet items))
    ∙ omega (arith, length-append title (text ":"), length-join_lines items)

module _ {ℓ} {A : Type ℓ} (f : A → ℕ) where
  sum_of-take : (n : ℕ) (xs : List A) → sum_of f (take n xs) ≤ sum_of f xs
  unfolding sum_of
  sum_of-take zero xs = omega arith
  sum_of-take (suc n) [] = omega arith
  sum_of-take (suc n) (x ∷ xs) = omega (arith, sum_of-take n xs)

  sum_of-drop : (n : ℕ) (xs : List A) → sum_of f (drop n xs) ≤ sum_of f xs
  unfolding sum_of
  sum_of-drop zero xs = omega arith
  sum_of-drop (suc n) [] = omega arith
  sum_of-drop (suc n) (x ∷ xs) = omega (arith, sum_of-drop n xs)

module _ (s : PromptSectionInput) (n : ℕ) where
  -- Fewer items are no longer.
  pub render-items_after_item_budget :
      length (render_items s.title (items_after_item_budget s n))
      ≤ length (render_items s.title s.items)
  unfolding items_after_item_budget items_kept_for_section
  render-items_after_item_budget = ground (
    arith,
    length-render_items s.title (items_after_item_budget s n),
    length-render_items s.title s.items,
    sum_of-take line_size n s.items,
    sum_of-drop line_size (length s.items - n) s.items,
  )

  pub length-items_after_item_budget : length (items_after_item_budget s n) ≤ length s.items
  unfolding items_after_item_budget items_kept_for_section
  length-items_after_item_budget =
      ground (arith, length-take n s.items, length-drop (length s.items - n) s.items)

  pub items_after_item_budget-le : n ≢ 0 → length (items_after_item_budget s n) ≤ n
  unfolding items_after_item_budget items_kept_for_section
  items_after_item_budget-le h =
      ground (arith, length-take n s.items, length-drop (length s.items - n) s.items)

length-one_or_none : (o : Option Text) → length (one_or_none o) ≤ 1
length-one_or_none none = omega arith
length-one_or_none (some t) = omega arith

length-reverse_aux : (xs r : List Text) → length (reverse_aux xs r) ≡ length xs + length r
length-reverse_aux [] r = omega arith
length-reverse_aux (x ∷ xs) r = omega (arith, length-reverse_aux xs (x ∷ r))

length-reverse : (xs : List Text) → length (reverse xs) ≡ length xs
length-reverse xs = omega (arith, length-reverse_aux xs [])

module _ (title : Text) (n : ℕ) where
  length-latest_loop :
      (items kept : List Text)
      → length (latest_loop title n items kept) ≤ length items + length kept
  unfolding latest_loop
  length-latest_loop [] kept = omega arith
  length-latest_loop (x ∷ items) kept = ground (
    arith,
    length-latest_loop items (x ∷ kept),
    length-one_or_none (truncate_item_to_fit recent_conversation title x n),
  )

  length-first_loop :
      (items kept : List Text) → length (first_loop title n items kept) ≤ length items + length kept
  unfolding first_loop
  length-first_loop [] kept = omega arith
  length-first_loop (x ∷ items) kept = ground (
    arith,
    length-first_loop items (kept ++ x ∷ []),
    length-append kept (x ∷ []),
    length-one_or_none (truncate_item_to_fit user_memory title x n),
  )

  pub length-items_within_char_budget :
      (kind : PromptSectionKind) (items : List Text)
      → length (items_within_char_budget kind title items n) ≤ length items
  unfolding items_within_char_budget latest_items_within_char_budget first_items_within_char_budget
  length-items_within_char_budget kind items = ground (
    arith,
    length-latest_loop (reverse items) [],
    length-first_loop items [],
    length-reverse items,
  )

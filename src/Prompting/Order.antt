-- ===== src/Prompting/Order.antt =====
-- Which sections `PromptBudgetPolicy._apply_total_budget` (iris/runtime/prompting/budget.py) cuts first.
use iris_mind_v.Prelude.{
  ℕ, zero, suc, subst, ◌+◌, ◌-◌, ◌≤◌, ◌<◌, min, ◌≡◌, ◌≢◌, refl, sym, ap, ◌∙◌, inl, inr, ◌⊎◌, some,
  is_some, List, [], ◌∷◌, true, false, not, All, All-map, All-both, All-found, sum_of, set,
  get_elem?, get_elem?-set_other, get_elem?-set_here, arith, IsSorted, sorted-IsSorted, Pairwise,
  Bool-cases, ◌==◌, nat_eq, count, count-sorted, leb, ◌||◌, ℕ_discrete,
}
use iris_mind_v.Prompting.Types.{RuntimePromptProfileBudget, SectionBudgetApplication}
use iris_mind_v.Prompting.Policy.{
  cut, chars_of, omit_existing, overflow_le, may_shrink, shrinkable, shrink_loop,
  apply_total_budget,
}
use iris_mind_v.Prompting.Entries.{
  Entry, Stand, Apart, Stand-set, ordered, ordered-Stand, ordered-Apart, ordered-shrinkable,
}

overflow_le_total : (d e : Entry) → (overflow_le d e ≡ true) ⊎ (overflow_le e d ≡ true)
overflow_le_total d e = ground arith

overflow_le_trans :
    (d e f : Entry) → overflow_le d e ≡ true → overflow_le e f ≡ true → overflow_le d f ≡ true
overflow_le_trans d e f h k = ground arith

overflow_le_antisym : (d e : Entry) → overflow_le d e ≡ true → overflow_le e d ≡ true → d.0 ≡ e.0
overflow_le_antisym d e h k = ground arith

-- What holds where the loop stops, and where it goes on, holds.
shrink_loop_cases {κ} :
    (P : List SectionBudgetApplication → Type κ) (i : ℕ) (r : SectionBudgetApplication)
    (es : List Entry) (remaining : ℕ) (rs : List SectionBudgetApplication)
    → P rs
    → (let n = min (chars_of r) remaining in
        P (shrink_loop es (remaining - n) (set rs i (cut r n))))
    → P (shrink_loop ((i, r) ∷ es) remaining rs)
unfolding shrink_loop
shrink_loop_cases P i r es remaining rs h k =
    elim (Bool-cases (leb remaining 0 || not (is_some r.section))) [
      | inl e ↦ rw e h
      | inr e ↦ rw e k
    ]

shrink_loop-stop :
    (es : List Entry) (rs : List SectionBudgetApplication) (n : ℕ)
    → n ≤ 0
    → shrink_loop es n rs ≡ rs
unfolding shrink_loop
shrink_loop-stop [] rs n h = refl
shrink_loop-stop ((i, r) ∷ es) rs n h = ground arith

-- A result outside the list stays.
shrink_loop-other :
    (j : ℕ) (es : List Entry) (n : ℕ) (rs : List SectionBudgetApplication)
    → All (λ e. e.0 ≢ j) es
    → get_elem? (shrink_loop es n rs) j ≡ get_elem? rs j
shrink_loop-other j [] n rs h = unfold shrink_loop in refl
shrink_loop-other j ((i, r) ∷ es) n rs h =
    shrink_loop_cases (λ rs'. get_elem? rs' j ≡ get_elem? rs j) i r es n rs refl
      (shrink_loop-other j es (n - min (chars_of r) n) (set rs i (cut r (min (chars_of r) n))) h.1
        ∙ get_elem?-set_other rs i j (cut r (min (chars_of r) n)) h.0)

same_entry :
    (rs : List SectionBudgetApplication) (i k : ℕ) (r rk : SectionBudgetApplication)
    → get_elem? rs i ≡ some r
    → get_elem? rs k ≡ some rk
    → i ≡ k
    → Path Entry (k, rk) (i, r)
same_entry rs i k r rk h hk q = cc

module _ (j k : ℕ) (rj rk : SectionBudgetApplication) (apart : j ≢ k)
    (le : overflow_le (k, rk) (j, rj) ≡ true) where
  abbrev Kept : List SectionBudgetApplication → Type 0
  Kept rs = (get_elem? rs j ≡ some rj) ⊎ (get_elem? rs k ≡ some (omit_existing rk))

  -- The entry of the one to go first is taken.
  first_taken :
      (es : List Entry) (n : ℕ) (rs : List SectionBudgetApplication)
      → All (Apart (k, rk)) es
      → get_elem? rs j ≡ some rj
      → get_elem? rs k ≡ some rk
      → Kept (shrink_loop ((k, rk) ∷ es) n rs)
  first_taken es n rs ap hj hk =
      let m = min (chars_of rk) n in
      let rs' = set rs k (cut rk m) in
      shrink_loop_cases Kept k rk es n rs (inl hj) (elim (Bool-cases (leb (chars_of rk) n)) [
        | inl e ↦ inr (
            shrink_loop-other k es (n - m) rs' (All-map (λ e h q. h (sym q)) es ap)
            ∙ get_elem?-set_here rs k rk (cut rk m) hk
            ∙ (unfold cut in ground (arith, e)))
        | inr e ↦ inl (
            ap_get (shrink_loop-stop es rs' (n - m) (ground (arith, e)))
            ∙ get_elem?-set_other rs k j (cut rk m) (λ q. apart (sym q))
            ∙ hj)
      ])
    where
      ap_get : {xs ys : List SectionBudgetApplication} → xs ≡ ys → get_elem? xs j ≡ get_elem? ys j
      ap_get e = λ i. get_elem? (e i) j

  later_not_taken :
      (es : List Entry) (rs : List SectionBudgetApplication)
      → All (λ e. overflow_le (j, rj) e ≡ true) es
      → Stand rs es
      → get_elem? rs k ≡ some rk
      → 0 < count (λ e. e.0 == k) es
      → ⊥
  later_not_taken es rs above st hk here =
      let (e, (h, s), q) = All-found _ (λ e. e.0 == k) es (All-both _ _ es above st) here in
      apart (ground (arith, overflow_le_antisym (j, rj) e h, le, s, hk, q))

  shrink_loop-Kept :
      (es : List Entry) (n : ℕ) (rs : List SectionBudgetApplication)
      → Stand rs es
      → Pairwise Apart es
      → IsSorted overflow_le es
      → get_elem? rs j ≡ some rj
      → get_elem? rs k ≡ some rk
      → 0 < count (λ e. e.0 == k) es
      → Kept (shrink_loop es n rs)
  unfolding count
  shrink_loop-Kept [] n rs st ap so hj hk here = elim here [ ]
  shrink_loop-Kept ((i, r) ∷ es) n rs st ap so hj hk here = elim (ℕ_discrete i k) [
    | yes q ↦
        subst (λ e. All (Apart e) es → Kept (shrink_loop (e ∷ es) n rs))
          (same_entry rs i k r rk st.0 hk q) (λ above. first_taken es n rs above hj hk) ap.0
    | no q ↦ elim (ℕ_discrete i j) [
      | yes q' ↦
          elim (later_not_taken es rs
            (subst (λ d. All (λ e. overflow_le d e ≡ true) es)
              (sym (same_entry rs i j r rj st.0 hj q')) so.0)
            st.1 hk (ground (arith, here, q))) [ ]
      | no q' ↦
          let m = min (chars_of r) n in
          let rs' = set rs i (cut r m) in
          shrink_loop_cases Kept i r es n rs (inl hj) (
            shrink_loop-Kept es (n - m) rs' (Stand-set rs es i r (cut r m) ap.0 st.1) ap.1 so.1
              (get_elem?-set_other rs i j (cut r m) q' ∙ hj)
              (get_elem?-set_other rs i k (cut r m) q ∙ hk) (ground (arith, here, q)))
    ]
  ]

count-shrinkable :
    (k i : ℕ) (tail : List SectionBudgetApplication) (m : ℕ) (rk : SectionBudgetApplication)
    → get_elem? tail m ≡ some rk
    → m + i ≡ k
    → may_shrink rk ≡ true
    → 0 < count (λ e. e.0 == k) (shrinkable i tail)
unfolding shrinkable count
count-shrinkable k i [] m rk h q on = cc
count-shrinkable k i (r ∷ tail) zero rk h q on = ground arith
count-shrinkable k i (r ∷ tail) (suc m) rk h q on =
    ground (arith, count-shrinkable k (suc i) tail m rk h (omega (arith, q)) on)

-- The total budget cuts a result only once every result that it may cut and that comes before
-- it, by priority and then by place, is omitted altogether.
pub apply_total_budget-order :
    (b : RuntimePromptProfileBudget) (rs : List SectionBudgetApplication) (j k : ℕ)
    (rj rk : SectionBudgetApplication)
    → get_elem? rs j ≡ some rj
    → get_elem? rs k ≡ some rk
    → may_shrink rk ≡ true
    → j ≢ k
    → overflow_le (k, rk) (j, rj) ≡ true
    → let after = apply_total_budget b rs in
      (get_elem? after j ≡ some rj) ⊎ (get_elem? after k ≡ some (omit_existing rk))
unfolding apply_total_budget
apply_total_budget-order b rs j k rj rk hj hk on apart le =
    elim (Bool-cases (leb (sum_of chars_of rs) b.total_max_chars)) [
      | inl e ↦ rw e (inl hj)
      | inr e ↦ rw e (
          shrink_loop-Kept j k rj rk apart le (ordered rs) (sum_of chars_of rs - b.total_max_chars)
            rs (ordered-Stand rs) (ordered-Apart rs)
            (sorted-IsSorted overflow_le overflow_le_total overflow_le_trans (shrinkable 0 rs)) hj
            hk
            (subst (λ n. 0 < n) (sym (count-sorted overflow_le (λ e. e.0 == k) (shrinkable 0 rs)))
              (count-shrinkable k 0 rs k rk hk (omega arith) on)))
    ]

-- A result that the total budget may not cut stays as it is.
pub apply_total_budget-required :
    (b : RuntimePromptProfileBudget) (rs : List SectionBudgetApplication) (j : ℕ)
    (r : SectionBudgetApplication)
    → get_elem? rs j ≡ some r
    → may_shrink r ≡ false
    → get_elem? (apply_total_budget b rs) j ≡ some r
unfolding apply_total_budget
apply_total_budget-required b rs j r h off =
    elim (Bool-cases (leb (sum_of chars_of rs) b.total_max_chars)) [
      | inl e ↦ rw e h
      | inr e ↦ rw e (
          shrink_loop-other j (ordered rs) (sum_of chars_of rs - b.total_max_chars) rs (
            All-map (λ e p q. not_shrinkable e p.0 p.1 q) (ordered rs)
              (All-both _ _ (ordered rs) (ordered-Stand rs) (ordered-shrinkable rs)))
          ∙ h)
    ]
  where
    not_shrinkable : (e : Entry) → get_elem? rs e.0 ≡ some e.1 → may_shrink e.1 ≡ true → e.0 ≡ j → ⊥
    not_shrinkable e st on q = cc

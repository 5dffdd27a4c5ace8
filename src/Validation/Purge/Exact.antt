-- ===== src/Validation/Purge/Exact.antt =====
-- `purge_train_times` of src/aurax/validation/cpcv.py drops exactly the labels that overlap a test
-- label.
use aura_x.Prelude.{
  ℕ, ◌≤◌, ◌≡◌, refl, sym, ◌∙◌, ap, not, Bool, false, List, [], ◌∷◌, map, ltb, any, All, arith,
  count, select,
}
use aura_x.Validation.Purge.{
  Label, Numpy, Increasing, start_of, overlaps, merge_sorted, merge_intervals, stabs,
  purge_train_times,
}
use aura_x.Validation.Purge.Merge.{
  WellFormed, Disjoint, Beyond, merge_sorted-Disjoint, merge_sorted-overlaps,
}
use aura_x.Validation.Purge.Stab.{end_reaches-eq-any}

-- `any` is a count above zero, so a permutation keeps it.
any-count : (p : Label → Bool) (rows : List Label) → any p rows ≡ ltb 0 (count p rows)
any-count p [] = ground arith
any-count p (r ∷ rows) = ground (arith, any-count p rows)

abbrev ill_formed : Label → Bool
ill_formed (s, e) = ltb e s

WellFormed-none : (rows : List Label) → All WellFormed rows → any ill_formed rows ≡ false
WellFormed-none [] h = refl
WellFormed-none (r ∷ rows) (w, h) = ground (arith, WellFormed-none rows h)

none-WellFormed : (rows : List Label) → any ill_formed rows ≡ false → All WellFormed rows
none-WellFormed [] h = tt
none-WellFormed (r ∷ rows) h = ground (arith, none-WellFormed rows)

abbrev StartsFrom : ℕ → List Label → Type 0
StartsFrom lo [] = Unit
StartsFrom lo ((s, e) ∷ rest) = lo ≤ s

Beyond-StartsFrom : (s e : ℕ) (rest : List Label) → s ≤ e → Beyond e rest → StartsFrom s rest
Beyond-StartsFrom s e [] h b = tt
Beyond-StartsFrom s e ((s', e') ∷ rest) h b = omega arith

Disjoint-Increasing :
    (lo : ℕ) (merged : List Label)
    → StartsFrom lo merged
    → Disjoint merged
    → Increasing lo (map start_of merged)
Disjoint-Increasing lo [] h d = tt
Disjoint-Increasing lo ((s, e) ∷ rest) h (w, b, d) =
    (h, Disjoint-Increasing s rest (Beyond-StartsFrom s e rest w b) d)

StartsFrom-zero : (merged : List Label) → StartsFrom 0 merged
StartsFrom-zero [] = tt
StartsFrom-zero ((s, e) ∷ rest) = omega arith

module _ (np : Numpy) where
  any-sort : (p : Label → Bool) (rows : List Label) → any p (np.sort_rows rows) ≡ any p rows
  any-sort p rows =
      any-count p (np.sort_rows rows)
      ∙ ap (ltb 0) (np.sort_rows-permutes p rows)
      ∙ sym (any-count p rows)

  sort-WellFormed : (rows : List Label) → All WellFormed rows → All WellFormed (np.sort_rows rows)
  sort-WellFormed rows h =
      none-WellFormed (np.sort_rows rows) (any-sort ill_formed rows ∙ WellFormed-none rows h)

  -- The mask of the purge is the overlap with any test label.
  pub stabs-eq-any :
      (l : Label) (test_t1 : List Label)
      → WellFormed l
      → All WellFormed test_t1
      → stabs np (merge_intervals np test_t1) l ≡ any (overlaps l) test_t1
  unfolding stabs merge_intervals
  stabs-eq-any (a0, a1) test_t1 w wf =
      let rows = np.sort_rows test_t1 in
      let asc = np.sort_rows-sorts test_t1 in
      let rows_wf = sort-WellFormed test_t1 wf in
      let merged = merge_sorted rows in
      let disjoint = merge_sorted-Disjoint rows asc rows_wf in
      rw
        (np.searchsorted_right-counts (map start_of merged) a1
          (Disjoint-Increasing 0 merged (StartsFrom-zero merged) disjoint))
        (end_reaches-eq-any a0 a1 merged disjoint
          ∙ merge_sorted-overlaps (a0, a1) rows w asc rows_wf
          ∙ any-sort (overlaps (a0, a1)) test_t1)

  select_masks :
      (t1 test_t1 : List Label)
      → All WellFormed t1
      → All WellFormed test_t1
      → select (λ row. not (stabs np (merge_intervals np test_t1) row)) t1
        ≡ select (λ row. not (any (overlaps row) test_t1)) t1
  select_masks [] test_t1 h wf = refl
  select_masks (l ∷ t1) test_t1 (w, h) wf =
      ground (arith, stabs-eq-any l test_t1 w wf, select_masks t1 test_t1 h wf)

  select_everything : (t1 : List Label) → t1 ≡ select (λ row. not (any (overlaps row) [])) t1
  select_everything [] = refl
  select_everything (l ∷ t1) = ap (◌∷◌ l) (select_everything t1)

  -- For labels that do not end before they start, the sorting, merging and binary search of
  -- `purge_train_times` keep exactly the train labels that overlap no test label, in order.
  pub purge_train_times_exact :
      (t1 test_t1 : List Label)
      → All WellFormed t1
      → All WellFormed test_t1
      → purge_train_times np t1 test_t1 ≡ select (λ row. not (any (overlaps row) test_t1)) t1
  unfolding purge_train_times
  purge_train_times_exact [] test_t1 h wf = refl
  purge_train_times_exact (l ∷ t1) [] h wf = select_everything (l ∷ t1)
  purge_train_times_exact (l ∷ t1) (r ∷ test_t1) h wf = select_masks (l ∷ t1) (r ∷ test_t1) h wf

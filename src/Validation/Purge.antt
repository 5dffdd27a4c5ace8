-- ===== src/Validation/Purge.antt =====
-- `_merge_intervals` and `purge_train_times` of src/aurax/validation/cpcv.py. A label is its start
-- and end time; a Series is the list of its rows. numpy's sort and `searchsorted` are parameters;
-- its masks, running maximum and segment maxima act position by position and are written out.
pub mod Merge
pub mod Stab
pub mod Exact
use aura_x.Prelude.{
  ℕ, zero, suc, ◌≤◌, ◌<◌, ◌≡◌, Bool, true, false, not, ◌&&◌, Option, none, some, List, [], ◌∷◌, map,
  max, ltb, leb, select, count, get_elem?, if◌then◌else◌,
}

abbrev pub Label : Type 0
Label = ℕ × ℕ

abbrev pub Ascending : ℕ → List Label → Type 0
Ascending lo [] = Unit
Ascending lo ((s, e) ∷ rest) = (lo ≤ s) × Ascending s rest

abbrev pub Increasing : ℕ → List ℕ → Type 0
Increasing lo [] = Unit
Increasing lo (s ∷ rest) = (lo ≤ s) × Increasing s rest

-- numpy: the rows in the order of `argsort` of their starts, which is a permutation that sorts; and
-- `searchsorted(a, v, side="right")`, which counts the entries of a sorted array that are `<= v`.
pub record Numpy : Type 0 where
  pub sort_rows : List Label → List Label
  pub searchsorted_right : List ℕ → ℕ → ℕ
  pub sort_rows-sorts : (rows : List Label) → Ascending 0 (sort_rows rows)
  pub sort_rows-permutes :
      (p : Label → Bool) (rows : List Label) → count p (sort_rows rows) ≡ count p rows
  pub searchsorted_right-counts :
      (a : List ℕ) (v : ℕ) → Increasing 0 a → searchsorted_right a v ≡ count (λ s. leb s v) a

-- The segments of `_merge_intervals` after the sort: the running maximum of all ends so far, the
-- open segment, and the rows to come. A start beyond the running maximum opens a new segment.
unfoldable pub merge_from : ℕ → Label → List Label → List Label
merge_from cummax (a, e) [] = (a, e) ∷ []
merge_from cummax (a, e) ((s, t) ∷ rest) =
    let apart = merge_from (max cummax t) (s, t) rest in
    let joined = merge_from (max cummax t) (a, max e t) rest in
    if ltb cummax s then (a, e) ∷ apart else joined

abbrev pub merge_sorted : List Label → List Label
merge_sorted [] = []
merge_sorted ((s, e) ∷ rest) = merge_from e (s, e) rest

abbrev pub start_of : Label → ℕ
start_of l = l.0

abbrev pub end_of : Label → ℕ
end_of l = l.1

-- `me[idx] >= a0` where `idx` is valid, with `n` the index plus one
abbrev pub end_reaches : ℕ → List ℕ → ℕ → Bool
end_reaches zero ends a0 = false
end_reaches (suc i) ends a0 = elim (get_elem? ends i) [ none ↦ false | some e ↦ leb a0 e ]

module _ (np : Numpy) where
  unfoldable pub merge_intervals : List Label → List Label
  merge_intervals rows = merge_sorted (np.sort_rows rows)

  -- one entry of the mask `overlap`
  unfoldable pub stabs : List Label → Label → Bool
  stabs merged (a0, a1) =
      end_reaches (np.searchsorted_right (map start_of merged) a1) (map end_of merged) a0

  unfoldable pub purge_train_times : List Label → List Label → List Label
  purge_train_times [] test_t1 = []
  purge_train_times t1 [] = t1
  purge_train_times (l ∷ t1) (r ∷ test_t1) =
      select (λ row. not (stabs (merge_intervals (r ∷ test_t1)) row)) (l ∷ t1)

-- Two label spans share an instant.
abbrev pub overlaps : Label → Label → Bool
overlaps (a0, a1) (s, e) = leb s a1 && leb a0 e

-- ===== src/Validation/Splits.antt =====
-- The splitters of src/aurax/validation/cpcv.py and the holdout of walkforward.py. A Series `t1` is
-- the list of its rows, a start and an end; its index is the starts.
pub mod NoLeak
pub mod Blind
pub mod Stands
pub mod Holdout
pub mod Returns
use aura_x.Prelude.{
  ℕ, zero, suc, ◌+◌, ◌-◌, ◌≤◌, ◌<◌, ◌==◌, min, ltb, leb, Bool, true, false, not, ◌&&◌, ◌||◌, Option,
  none, some, List, [], ◌∷◌, length, get_elem?, take, drop, any, Result, ok, raise, Error, or_raise,
  ◌>>=◌, ◌>>◌, raise_if, ◌++◌, Float, ◌⊗◌, if◌then◌else◌,
}
use aura_x.Prelude.Int.{pos, pos_part}
use aura_x.Validation.Purge.{Label, Numpy, purge_train_times}

-- `{ts: i for i, ts in enumerate(index)}`: a later position replaces an earlier one.
abbrev pub position_from : ℕ → List Label → ℕ → Option ℕ
position_from i [] ts = none
position_from i ((t, e) ∷ rest) ts =
    let here : Option ℕ = if t == ts then some i else none in
    elim (position_from (suc i) rest ts) [ some j ↦ some j | none ↦ here ]

abbrev pub position : List Label → ℕ → Option ℕ
position index ts = position_from 0 index ts

-- Whether a test label that ends at `t1_i` embargoes the position `p`: the window of `embargo_bars`
-- strictly after the end, inside the index.
abbrev pub embargoes : List Label → ℕ → ℕ → Label → Bool
embargoes index embargo_bars p (t0, t1_i) = elim (position index t1_i) [
  | none ↦ false
  | some end_pos ↦ leb (suc end_pos) p && leb p (min (end_pos + embargo_bars) (length index - 1))
]

-- the mask `keep`, and what it keeps
unfoldable pub keep_rows : List Label → ℕ → List Label → List Label → Result (List Label)
keep_rows index embargo_bars test_t1 [] = ok []
keep_rows index embargo_bars test_t1 ((t0, t1) ∷ train) = do
  p ← or_raise (position index t0) Error.key_error
  rest ← keep_rows index embargo_bars test_t1 train
  ok (if any (embargoes index embargo_bars p) test_t1 then rest else (t0, t1) ∷ rest)

unfoldable pub apply_embargo : List Label → List Label → List Label → ℕ → Result (List Label)
apply_embargo train test_t1 index zero = ok train
apply_embargo train test_t1 index (suc k) = keep_rows index (suc k) test_t1 train

-- Python's `sorted` of integers.
abbrev pub insert_sorted : ℕ → List ℕ → List ℕ
insert_sorted p [] = p ∷ []
insert_sorted p (q ∷ qs) =
    let later = insert_sorted p qs in if leb p q then p ∷ q ∷ qs else q ∷ later

abbrev pub sorted : List ℕ → List ℕ
sorted [] = []
sorted (p ∷ ps) = insert_sorted p (sorted ps)

-- `pos_of[ts] for ts in surviving.index`
unfoldable pub positions : List Label → List Label → Result (List ℕ)
positions index [] = ok []
positions index ((t0, t1) ∷ rows) = do
  p ← or_raise (position index t0) Error.key_error
  ps ← positions index rows
  ok (p ∷ ps)

-- `t1.iloc[test_pos]`
unfoldable pub rows_at : List Label → List ℕ → Result (List Label)
rows_at t1 [] = ok []
rows_at t1 (p ∷ ps) = do
  row ← or_raise (get_elem? t1 p) Error.index_error
  rows ← rows_at t1 ps
  ok (row ∷ rows)

-- `np.arange(from, from + n)`
abbrev pub arange : ℕ → ℕ → List ℕ
arange from zero = []
arange from (suc n) = from ∷ arange (suc from) n

module _ (np : Numpy) where
  -- The body of the loop of `split`, in both splitters: the train and the test positions.
  unfoldable pub fold : List Label → ℕ → List ℕ → Result (List ℕ × List ℕ)
  fold t1 embargo_bars test_pos = do
    test_t1 ← rows_at t1 (sorted test_pos)
    surviving ← apply_embargo (purge_train_times np t1 test_t1) test_t1 t1 embargo_bars
    train_pos ← positions t1 surviving
    ok (sorted train_pos, sorted test_pos)

  -- the folds of the groups of test positions
  unfoldable pub split : List Label → ℕ → List (List ℕ) → Result (List (List ℕ × List ℕ))
  split t1 embargo_bars [] = ok []
  split t1 embargo_bars (test_pos ∷ groups) = do
    here ← fold t1 embargo_bars test_pos
    rest ← split t1 embargo_bars groups
    ok (here ∷ rest)

  -- `holdout_split`, with `cut` its cut
  unfoldable pub holdout_split : List Label → ℕ → Result (List ℕ × List ℕ)
  holdout_split t1 cut =
      let holdout_pos = arange cut (length t1 - cut) in
      let purged : Result (List ℕ × List ℕ) = (do
        holdout_t1 ← rows_at t1 holdout_pos
        dev_pos ← positions t1 (purge_train_times np (take cut t1) holdout_t1)
        ok (sorted dev_pos, holdout_pos)) in
      if length t1 - cut == 0 then ok (arange 0 cut, holdout_pos) else purged

-- numpy's `array_split` of `arange(n)` into `k` parts, and `combinations(range(n), k)` of itertools
pub record Partition : Type 0 where
  pub array_split : ℕ → ℕ → List (List ℕ)
  pub combinations : ℕ → ℕ → List (List ℕ)

-- `np.concatenate([group_bounds[g] for g in combo])`
unfoldable pub gather : List (List ℕ) → List ℕ → Result (List ℕ)
gather groups [] = ok []
gather groups (g ∷ combo) = do
  here ← or_raise (get_elem? groups g) Error.index_error
  rest ← gather groups combo
  ok (here ++ rest)

unfoldable pub gather_all : List (List ℕ) → List (List ℕ) → Result (List (List ℕ))
gather_all groups [] = ok []
gather_all groups (combo ∷ combos) = do
  here ← gather groups combo
  rest ← gather_all groups combos
  ok (here ∷ rest)

module _ {ℓ} {F : Type ℓ} ⦃f : Float F⦄ (np : Numpy) (ps : Partition) where
  -- `int(n * embargo_pct)`, for a fraction that is a number. `apply_embargo` embargoes nothing from
  -- `embargo_bars <= 0` on, so that a negative count stands as 0.
  abbrev pub embargo_bars : ℕ → F → ℕ
  embargo_bars n embargo_pct = pos_part (f.floor (f.of_int (pos n) ⊗ embargo_pct))

  -- `CombinatorialPurgedCV`, its constructor's check and its `split`
  unfoldable pub combinatorial_purged_cv : ℕ → ℕ → F → List Label → Result (List (List ℕ × List ℕ))
  combinatorial_purged_cv n_groups n_test_groups embargo_pct t1 = do
    raise_if (not (leb 1 n_test_groups && ltb n_test_groups n_groups)) Error.value_error
    let n = length t1
    tests ← gather_all (ps.array_split n n_groups) (ps.combinations n_groups n_test_groups)
    split np t1 (embargo_bars n embargo_pct) tests

  -- `PurgedKFold`, likewise
  unfoldable pub purged_k_fold : ℕ → F → List Label → Result (List (List ℕ × List ℕ))
  purged_k_fold n_splits embargo_pct t1 = do
    raise_if (ltb n_splits 2) Error.value_error
    let n = length t1
    split np t1 (embargo_bars n embargo_pct) (ps.array_split n n_splits)

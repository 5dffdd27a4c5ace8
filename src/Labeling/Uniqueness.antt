-- ===== src/Labeling/Uniqueness.antt =====
-- src/aurax/l4_labeling/uniqueness.py. A label is its start and end time, a concurrency the bars of the
-- span with their counts.
use aura_x.Prelude.{
  ℕ, min, max, leb, ◌==◌, Bool, true, false, ◌&&◌, Option, none, some, length, zip_with, Result, ok,
  raise, Error, ◌>>=◌, if◌then◌else◌, ◌⊕◌, ◌⊖◌, ◌⊗◌, nought, List, [], ◌∷◌, map, select, count,
  Float, ◌⊘◌, unit,
}
use aura_x.Prelude.Int.{pos}

-- the time lies in the span of a label
abbrev pub is_live : ℕ → ℕ × ℕ → Bool
is_live ts (t0, t1) = leb t0 ts && leb ts t1

-- `t1.index.min()` and `t1.max()` of labels that follow a first one
abbrev pub first_start : ℕ → List (ℕ × ℕ) → ℕ
first_start lo [] = lo
first_start lo ((t0, t1) ∷ labels) = first_start (min lo t0) labels

abbrev pub last_end : ℕ → List (ℕ × ℕ) → ℕ
last_end hi [] = hi
last_end hi ((t0, t1) ∷ labels) = last_end (max hi t1) labels

module _ {ℓ} {F : Type ℓ} ⦃f : Float F⦄ where
  -- how many labels are live at each bar of the span of all labels
  pub num_concurrent_events : List ℕ → List (ℕ × ℕ) → List (ℕ × F)
  num_concurrent_events bar_index [] = []
  num_concurrent_events bar_index ((t0, t1) ∷ labels) =
      map (λ ts. (ts, f.of_int (pos (count (is_live ts) ((t0, t1) ∷ labels)))))
        (select (λ ts. is_live ts (first_start t0 labels, last_end t1 labels)) bar_index)

  -- `mean` is pandas'; the uniqueness of a label without a bar is NaN
  abbrev pub mean_or_nan : (List F → F) → List F → F
  mean_or_nan mean [] = f.nan
  mean_or_nan mean (x ∷ xs) = mean (x ∷ xs)

  pub average_uniqueness : (List F → F) → List (ℕ × ℕ) → List (ℕ × F) → List F
  average_uniqueness mean [] concurrency = []
  average_uniqueness mean (l ∷ labels) concurrency =
      mean_or_nan mean (map (λ c. unit ⊘ c.1) (select (λ c. is_live c.0 l) concurrency))
      ∷ average_uniqueness mean labels concurrency

-- The sum of pandas, which passes over NaN, and the logarithm.
pub record Sums {ℓ} (F : Type ℓ) : Type ℓ where
  pub mean : List F → F
  pub sum : List F → F
  pub log : F → F

module _ {ℓ} {F : Type ℓ} ⦃f : Float F⦄ where
  -- `diff()`, from the value before
  abbrev pub diff_from : F → List (ℕ × F) → List (ℕ × F)
  diff_from before [] = []
  diff_from before ((ts, x) ∷ rows) = (ts, x ⊖ before) ∷ diff_from x rows

  abbrev pub diff : List (ℕ × F) → List (ℕ × F)
  diff [] = []
  diff ((ts, x) ∷ rows) = (ts, f.nan) ∷ diff_from x rows

  -- the value at an instant, NaN where there is none
  abbrev pub value_at : ℕ → List (ℕ × F) → F
  value_at ts [] = f.nan
  value_at ts ((t, x) ∷ rows) = if t == ts then x else value_at ts rows

  -- `cumsum()`, which passes over NaN
  abbrev pub cumsum : F → List F → List F
  cumsum acc [] = []
  cumsum acc (x ∷ xs) =
      let next = if f.eq x x then acc ⊕ x else acc in
      (if f.eq x x then next else f.nan) ∷ cumsum next xs

  abbrev pub last_or : F → List F → F
  last_or x [] = x
  last_or x (y ∷ ys) = last_or y ys

  abbrev pub clip_zero : F → F
  clip_zero w = if f.lt w nought then nought else w

  -- `time_decay`, of a Series in the order of its index
  pub time_decay : F → List F → List F
  time_decay last_weight av_uniqueness =
      let decay = cumsum nought av_uniqueness in
      let total = last_or f.nan decay in
      let slope =
        if f.le nought last_weight
        then (unit ⊖ last_weight) ⊘ total
        else unit ⊘ ((last_weight ⊕ unit) ⊗ total) in
      let const = unit ⊖ slope ⊗ total in map (λ d. clip_zero (const ⊕ slope ⊗ d)) decay

module _ {ℓ} {F : Type ℓ} ⦃f : Float F⦄ (pd : Sums F) where
  -- `close` is a Series of its bars
  pub return_attribution : List (ℕ × ℕ) → List (ℕ × F) → List (ℕ × F) → List F
  return_attribution labels concurrency close =
      let log_ret = diff (map (λ (c : ℕ × F). (c.0, pd.log c.1)) close) in
      map
        (λ l. f.abs (
          pd.sum (
            map (λ (r : ℕ × F). r.1 ⊘ value_at r.0 concurrency)
              (select (λ (r : ℕ × F). is_live r.0 l) log_ret))))
        labels

  -- the weights before the time decay
  pub base_weights : List (ℕ × ℕ) → List (ℕ × F) → Option (List (ℕ × F)) → Bool → Result (List F)
  base_weights labels concurrency close false = ok (average_uniqueness pd.mean labels concurrency)
  base_weights labels concurrency none true = raise Error.value_error
  base_weights labels concurrency (some prices) true =
      ok (return_attribution labels concurrency prices)

  -- `fillna(0.0)`, then the mean is brought to 1
  abbrev pub normalized : Bool → List F → List F
  normalized normalize weights =
      let filled = map (λ w. if f.eq w w then w else nought) weights in
      let total = pd.sum filled in
      if normalize && f.lt nought total
      then map (λ w. w ⊗ (f.of_int (pos (length filled)) ⊘ total)) filled
      else filled

  -- `sample_weights`, of labels in the order of their starts
  pub sample_weights :
      List (ℕ × ℕ) → List ℕ → Option (List (ℕ × F)) → Bool → Bool → F → Bool → Result (List F)
  sample_weights [] bar_index close by_return apply_time_decay last_weight normalize = ok []
  sample_weights (l ∷ labels) bar_index close by_return apply_time_decay last_weight normalize = do
    let concurrency = num_concurrent_events bar_index (l ∷ labels)
    base ← base_weights (l ∷ labels) concurrency close by_return
    let decay = time_decay last_weight (average_uniqueness pd.mean (l ∷ labels) concurrency)
    ok (normalized normalize (if apply_time_decay then zip_with ◌⊗◌ base decay else base))

-- ===== src/Labeling/Trend.antt =====
-- src/aurax/l4_labeling/trend_scanning.py. `log_price` is the column of the logarithms; an event is
-- the position of its bar.
use aura_x.Prelude.{
  ℕ, zero, suc, ◌+◌, ◌-◌, min, leb, ltb, Option, none, some, List, [], ◌∷◌, length, get_elem?, take,
  drop, Float, ◌⊕◌, ◌⊖◌, ◌⊗◌, ◌⊘◌, nought, if◌then◌else◌,
}
use aura_x.Prelude.Int.{ℤ, pos, negsuc}

-- numpy's sum and mean of a column
pub record Sums {ℓ} (F : Type ℓ) : Type ℓ where
  pub sum : List F → F
  pub mean : List F → F

pub record TrendRow {ℓ} (F : Type ℓ) : Type ℓ where
  -- positions of the event and of the end of its trend
  pub ts : ℕ
  pub t1 : ℕ
  pub label : ℤ
  pub ret : F
  pub t_value : F
  pub horizon : ℕ

-- The best horizon so far: its t-value and its slope.
pub record Best {ℓ} (F : Type ℓ) : Type ℓ where
  pub t : F
  pub slope : F
  pub horizon : ℕ

module _ {ℓ} {F : Type ℓ} ⦃f : Float F⦄ where
  -- `np.arange(n, dtype=float)`, from `k` on
  abbrev pub times : ℕ → ℕ → List F
  times k zero = []
  times k (suc n) = f.of_int (pos k) ∷ times (suc k) n

  abbrev pub products : F → F → List F → List F → List F
  products mx my [] ys = []
  products mx my (x ∷ xs) [] = []
  products mx my (x ∷ xs) (y ∷ ys) = (x ⊖ mx) ⊗ (y ⊖ my) ∷ products mx my xs ys

  abbrev pub residuals : F → F → List F → List F → List F
  residuals intercept slope [] ys = []
  residuals intercept slope (x ∷ xs) [] = []
  residuals intercept slope (x ∷ xs) (y ∷ ys) =
      let r = y ⊖ (intercept ⊕ slope ⊗ x) in r ⊗ r ∷ residuals intercept slope xs ys

  abbrev pub sign : F → ℤ
  sign x = if f.lt nought x then pos 1 else if f.lt x nought then negsuc 0 else pos 0

module _ {ℓ} {F : Type ℓ} ⦃f : Float F⦄ (np : Sums F) where
  pub slope_tvalue : List F → F × F
  slope_tvalue y =
      let n = length y in
      let x = times 0 n in
      let sxx = np.sum (products (np.mean x) (np.mean x) x x) in
      let slope = np.sum (products (np.mean x) (np.mean y) x y) ⊘ sxx in
      let intercept = np.mean y ⊖ slope ⊗ np.mean x in
      let s2 = np.sum (residuals intercept slope x y) ⊘ f.of_int (pos (n - 2)) in
      let se = f.sqrt (s2 ⊘ sxx) in
      if ltb n 3
      then (nought, nought)
      else if f.eq sxx nought
      then (nought, nought)
      else if f.eq se nought
      then (slope, nought)
      else (slope, slope ⊘ se)

  -- one horizon of the scan
  abbrev pub better : List F → ℕ → ℕ → Best F → Best F
  better log_price i0 horizon best =
      let (slope, tval) = slope_tvalue (take (suc horizon) (drop i0 log_price)) in
      if f.lt (f.abs best.t) (f.abs tval)
      then record { t = tval; slope = slope; horizon = horizon }
      else best

  -- the horizons from `horizon` on, `k` of them, up to the end of the data
  pub scan : List F → ℕ → ℕ → ℕ → Best F → Best F
  scan log_price i0 horizon zero best = best
  scan log_price i0 horizon (suc k) best =
      let rest = scan log_price i0 (suc horizon) k (better log_price i0 horizon best) in
      if leb (length log_price) (i0 + horizon) then best else rest

  abbrev pub start_best : ℕ → Best F
  start_best min_horizon = record { t = nought; slope = nought; horizon = min_horizon }

  abbrev pub trend_row : F → ℕ → ℕ → Best F → F → F → TrendRow F
  trend_row t_value_threshold i0 i_end best p0 p1 = record {
    ts = i0;
    t1 = i_end;
    label = if f.le t_value_threshold (f.abs best.t) then sign best.slope else pos 0;
    ret = p1 ⊖ p0;
    t_value = best.t;
    horizon = best.horizon;
  }

  -- One event; `none` where the source goes on to the next. The horizons are `min_horizon` to
  -- `max_horizon`.
  pub trend_event : List F → ℕ → ℕ → F → ℕ → Option (TrendRow F)
  trend_event log_price min_horizon max_horizon t_value_threshold i0 =
      let n = length log_price in
      let best =
        scan log_price i0 min_horizon (suc max_horizon - min_horizon) (start_best min_horizon) in
      let i_end = min (i0 + best.horizon) (n - 1) in
      let row : Option (TrendRow F) = elim (get_elem? log_price i0) [
        | none ↦ none
        | some p0 ↦ elim (get_elem? log_price i_end) [
          | none ↦ none
          | some p1 ↦ some (trend_row t_value_threshold i0 i_end best p0 p1)
        ]
      ] in
      if leb n (i0 + min_horizon) then none else row

  pub trend_scanning_labels : List F → ℕ → ℕ → F → List ℕ → List (TrendRow F)
  trend_scanning_labels log_price min_horizon max_horizon t_value_threshold [] = []
  trend_scanning_labels log_price min_horizon max_horizon t_value_threshold (i0 ∷ events) =
      let rest = trend_scanning_labels log_price min_horizon max_horizon t_value_threshold events in
      elim (trend_event log_price min_horizon max_horizon t_value_threshold i0) [
        | none ↦ rest
        | some row ↦ row ∷ rest
      ]

-- ===== src/Monitoring/Decay.antt =====
-- src/aurax/l8_monitoring/decay.py. The passes of numpy and pandas over a column, and the text of a
-- formatted number, are parameters.
use Prim.Native.String.{◌++◌}
use aura_x.Prelude.{
  ℕ, zero, suc, ◌-◌, min, ◌==◌, leb, Bool, ◌&&◌, ◌||◌, List, [], ◌∷◌, ◌++◌ as append, map, String,
  Option, none, some, length, select, Float, ◌⊕◌, ◌⊖◌, ◌⊗◌, ◌⊘◌, nought, Result, ok, Error,
  or_raise, ◌>>=◌, if◌then◌else◌,
}
use aura_x.Prelude.Int.{pos}

-- `rolling(w).mean()`, `rolling(w).std(ddof=1)`, `mean`, `sum`, `linspace(0, 1, n)`, `digitize` of a
-- value and `format` of a number under a format specification
pub record Columns {ℓ} (F : Type ℓ) : Type ℓ where
  pub rolling_mean : ℕ → List F → List F
  pub rolling_std : ℕ → List F → List F
  pub mean : List F → F
  pub sum : List F → F
  pub linspace : ℕ → List F
  pub digitize : List F → F → ℕ
  pub format : String → F → String

pub record DecayConfig {ℓ} (F : Type ℓ) : Type ℓ where
  pub sharpe_window : ℕ
  pub min_rolling_sharpe : F
  pub max_calibration_error : F

pub record DecayReport {ℓ} (F : Type ℓ) : Type ℓ where
  pub rolling_sharpe : F
  pub calibration_error : F
  pub sharpe_breached : Bool
  pub calibration_breached : Bool

abbrev pub last {ℓ} : {A : Type ℓ} → List A → Option A
last [] = none
last (x ∷ xs) = elim (last xs) [ none ↦ some x | some y ↦ some y ]

-- the bin of a sample
abbrev pub bin_of {ℓ} : {F : Type ℓ} → Columns F → ℕ → F → ℕ
bin_of np n_bins p = min (np.digitize (np.linspace (suc n_bins)) p - 1) (n_bins - 1)

-- `idx == b`
abbrev pub in_bin {ℓ} : {F : Type ℓ} → Columns F → ℕ → ℕ → F × F → Bool
in_bin np n_bins b (p, o) = bin_of np n_bins p == b

module _ {ℓ} {F : Type ℓ} ⦃f : Float F⦄ (np : Columns F) where
  unfoldable pub sharpe_rows : F → List F → List F → List F
  sharpe_rows annual [] stds = []
  sharpe_rows annual (m ∷ means) [] = []
  sharpe_rows annual (m ∷ means) (s ∷ stds) =
      (m ⊘ (if f.eq s nought then f.nan else s)) ⊗ annual ∷ sharpe_rows annual means stds

  unfoldable pub rolling_sharpe : List F → ℕ → ℕ → List F
  unfolding sharpe_rows
  rolling_sharpe returns window periods_per_year =
      sharpe_rows (f.sqrt (f.of_int (pos periods_per_year))) (np.rolling_mean window returns)
        (np.rolling_std window returns)

  -- One round of the loop over the bins; `samples` are the pairs of a probability and an outcome.
  pub bin_error : ℕ → List (F × F) → ℕ → F
  bin_error n_bins samples b =
      let inside = select (in_bin np n_bins b) samples in
      f.of_int (pos (length inside))
      ⊘ f.of_int (pos (length samples))
      ⊗ f.abs (np.mean (map (λ s. s.1) inside) ⊖ np.mean (map (λ s. s.0) inside))

  -- the bins from `b` on, `k` of them
  unfoldable pub add_bins : ℕ → List (F × F) → ℕ → ℕ → F → F
  unfolding bin_error
  add_bins n_bins samples b zero ece = ece
  add_bins n_bins samples b (suc k) ece =
      let inside = select (in_bin np n_bins b) samples in
      add_bins n_bins samples (suc b) k
        (if length inside == 0 then ece else ece ⊕ bin_error n_bins samples b)

  unfoldable pub calibration_error : List (F × F) → ℕ → F
  calibration_error [] n_bins = f.nan
  calibration_error (s ∷ samples) n_bins = add_bins n_bins (s ∷ samples) 0 n_bins nought

  -- `iloc[-1]` raises on an empty column.
  abbrev pub last_sharpe : DecayConfig F → List F → Result F
  last_sharpe cfg returns =
      if leb cfg.sharpe_window (length returns)
      then or_raise (last (rolling_sharpe returns cfg.sharpe_window 1512)) Error.index_error
      else ok f.nan

  abbrev pub report_of : DecayConfig F → F → F → DecayReport F
  report_of cfg sharpe ece = record {
    rolling_sharpe = sharpe;
    calibration_error = ece;
    sharpe_breached = f.is_finite sharpe && f.lt sharpe cfg.min_rolling_sharpe;
    calibration_breached = f.is_finite ece && f.lt cfg.max_calibration_error ece;
  }

  -- `DecayMonitor.evaluate`
  unfoldable pub evaluate : DecayConfig F → List F → List (F × F) → Result (DecayReport F)
  evaluate cfg returns samples = do
    sharpe ← last_sharpe cfg returns
    ok (report_of cfg sharpe (calibration_error samples 10))

  abbrev pub retrain_due : DecayReport F → Bool
  retrain_due r = r.sharpe_breached || r.calibration_breached

  -- `DecayMonitor.should_retrain`
  pub should_retrain : DecayConfig F → List F → List (F × F) → Result Bool
  should_retrain cfg returns samples = do
    report ← evaluate cfg returns samples
    ok (retrain_due report)

  -- `DecayReport.reasons`, joined by "; "
  abbrev pub reasons : DecayReport F → List String
  reasons r =
      append
        (if r.sharpe_breached
          then ("rolling Sharpe " ++ (np.format "+.2f" r.rolling_sharpe ++ " below floor")) ∷ []
          else [])
        (if r.calibration_breached
          then ("calibration error " ++ (np.format ".3f" r.calibration_error ++ " above max")) ∷ []
          else [])

abbrev pub join : List String → String
join [] = ""
join (s ∷ []) = s
join (s ∷ t ∷ rest) = s ++ ("; " ++ join (t ∷ rest))

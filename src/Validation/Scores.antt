-- ===== src/Validation/Scores.antt =====
-- src/aurax/validation/metrics.py and backtest.py. A column is a list; NaN stands for a missing row.
use aura_x.Prelude.{
  ℕ, zero, suc, ◌-◌, ltb, ◌||◌, Option, none, some, List, [], ◌∷◌, map, length, Float, ◌⊕◌, ◌⊖◌,
  ◌⊗◌, ◌⊘◌, nought, unit, if◌then◌else◌,
}
use aura_x.Prelude.Int.{pos}

-- numpy's reductions (`std` with `ddof=1`), its NaN-propagating `maximum` and `minimum`, the normal
-- distribution of scipy, and `np.e`
pub record Numeric {ℓ} (F : Type ℓ) : Type ℓ where
  pub mean : List F → F
  pub nanmean : List F → F
  pub std : List F → F
  pub min_of : List F → F
  pub maximum : F → F → F
  pub minimum : F → F → F
  pub norm_cdf : F → F
  pub norm_ppf : F → F
  pub e : F

-- Round-trip transaction costs.
pub record CostModel {ℓ} (F : Type ℓ) : Type ℓ where
  pub spread_pips : F
  pub slippage_pips : F
  pub pip_size : F
  pub commission_ret : F

module _ {ℓ} {F : Type ℓ} ⦃f : Float F⦄ (np : Numeric F) where
  -- `sr * sqrt(periods_per_year) if periods_per_year else sr`
  abbrev pub annualised : F → Option ℕ → F
  annualised sr none = sr
  annualised sr (some zero) = sr
  annualised sr (some (suc n)) = sr ⊗ f.sqrt (f.of_int (pos (suc n)))

  pub sharpe_ratio : List F → Option ℕ → F
  sharpe_ratio r periods_per_year =
      if ltb (length r) 2 || f.eq (np.std r) nought
      then f.nan
      else annualised (np.mean r ⊘ np.std r) periods_per_year

  abbrev pub downside : F → F → F
  downside target x = let d = np.minimum (x ⊖ target) nought in d ⊗ d

  pub sortino_ratio : List F → Option ℕ → F → F
  sortino_ratio r periods_per_year target =
      let dd = f.sqrt (np.mean (map (downside target) r)) in
      if ltb (length r) 2
      then f.nan
      else if f.eq dd nought
      then f.nan
      else annualised ((np.mean r ⊖ target) ⊘ dd) periods_per_year

  -- The equity less its running peak, from an equity and a peak on.
  abbrev pub below_peak : F → F → List F → List F
  below_peak equity peak [] = []
  below_peak equity peak (x ∷ r) =
      let now = equity ⊕ x in let top = np.maximum peak now in (now ⊖ top) ∷ below_peak now top r

  pub max_drawdown : List F → F
  max_drawdown [] = nought
  max_drawdown (x ∷ r) = np.min_of ((x ⊖ x) ∷ below_peak x x r)

  pub probabilistic_sharpe_ratio : F → ℕ → F → F → F → F
  probabilistic_sharpe_ratio sharpe n_obs benchmark skew kurtosis =
      let denom =
        f.sqrt (unit ⊖ skew ⊗ sharpe ⊕ (kurtosis ⊖ unit) ⊘ f.lit 4 0 ⊗ (sharpe ⊗ sharpe)) in
      if ltb n_obs 2
      then f.nan
      else if f.eq denom nought
      then f.nan
      else np.norm_cdf ((sharpe ⊖ benchmark) ⊗ f.sqrt (f.of_int (pos (n_obs - 1))) ⊘ denom)

  abbrev pub euler_mascheroni : F
  euler_mascheroni = f.lit 5772156649015329 16

  pub expected_max_sharpe : F → ℕ → F
  expected_max_sharpe sharpe_std n_trials =
      let trials = f.of_int (pos n_trials) in
      let z1 = np.norm_ppf (unit ⊖ unit ⊘ trials) in
      let z2 = np.norm_ppf (unit ⊖ unit ⊘ (trials ⊗ np.e)) in
      if ltb n_trials 2 || f.le sharpe_std nought
      then nought
      else sharpe_std ⊗ ((unit ⊖ euler_mascheroni) ⊗ z1 ⊕ euler_mascheroni ⊗ z2)

  pub deflated_sharpe_ratio : F → ℕ → ℕ → F → F → F → F
  deflated_sharpe_ratio sharpe n_obs n_trials sharpe_std skew kurtosis =
      probabilistic_sharpe_ratio sharpe n_obs (expected_max_sharpe sharpe_std n_trials) skew
        kurtosis

module _ {ℓ} {F : Type ℓ} ⦃f : Float F⦄ where
  pub per_trade_cost : CostModel F → F → F
  per_trade_cost c entry_price =
      (c.spread_pips ⊕ c.slippage_pips) ⊗ c.pip_size ⊘ entry_price ⊕ c.commission_ret

  -- `fillna(0.0)`
  abbrev pub fill_flat : F → F
  fill_flat x = if f.eq x x then x else nought

  abbrev pub traded : F → F
  traded s = if f.eq s nought then nought else unit

  abbrev pub net_return : Option (CostModel F) → F → F → F → F
  net_return none side ret price = fill_flat side ⊗ ret
  net_return (some c) side ret price =
      fill_flat side ⊗ ret ⊖ per_trade_cost c price ⊗ traded (fill_flat side)

  -- `side` and `entry_price` are aligned to the index of `ret`
  pub strategy_returns : List F → List F → Option (List F) → Option (CostModel F) → List F
  strategy_returns [] ret prices c = []
  strategy_returns (s ∷ side) [] prices c = []
  strategy_returns (s ∷ side) (r ∷ ret) none c =
      net_return c s r unit ∷ strategy_returns side ret none c
  strategy_returns (s ∷ side) (r ∷ ret) (some []) c = []
  strategy_returns (s ∷ side) (r ∷ ret) (some (p ∷ prices)) c =
      net_return c s r p ∷ strategy_returns side ret (some prices) c

  -- gross returns less the modelled costs, row by row
  pub cost_adjusted_returns : List F → List (F × F × F) → List F
  cost_adjusted_returns [] costs = []
  cost_adjusted_returns (r ∷ gross) [] = []
  cost_adjusted_returns (r ∷ gross) ((spread, commission, slippage) ∷ costs) =
      (r ⊖ spread ⊖ commission ⊖ slippage) ∷ cost_adjusted_returns gross costs

  abbrev pub baseline_relative : F → F → F
  baseline_relative strategy baseline = strategy ⊖ baseline

  pub turnover : Numeric F → List F → F
  turnover np [] = nought
  turnover np (s ∷ side) = np.mean (map traded (s ∷ side))

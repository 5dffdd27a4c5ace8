-- ===== src/Risk/Formulas.antt =====
-- The pure formulas of src/aurax/l6_risk/sizing.py. A division behind a guard that excludes zero is
-- written without its exception.
pub mod Bounds
use aura_x.Prelude.{
  ℕ, zero, suc, ◌+◌, ◌==◌, Bool, true, false, not, ◌&&◌, ◌||◌, List, [], ◌∷◌, map, Float, ◌⊕◌, ◌⊖◌,
  ◌⊗◌, ◌⊘◌, nought, unit, fmax, fmin, Result, ok, raise, raise_if, value_error, overflow_error,
  ◌>>=◌, ◌>>◌, if◌then◌else◌,
}
use aura_x.Prelude.Dict.{Dict}
use aura_x.Prelude.Int.{ℤ}
use aura_x.Market.{InstrumentSpec}

module _ {ℓ} {F : Type ℓ} ⦃f : Float F⦄ where
  pub position_size_atr : F → F → F → F → F → F
  position_size_atr risk_cash atr stop_multiplier contract_size quote_per_price =
      let denom = stop_multiplier ⊗ atr ⊗ contract_size ⊗ quote_per_price in
      if f.le atr nought || f.le stop_multiplier nought
      then nought
      else if f.le denom nought
      then nought
      else risk_cash ⊘ denom

  abbrev pub scaled_edge : F → F → F → F
  scaled_edge p tau kelly_fraction =
      let edge = f.lit 2 0 ⊗ p ⊖ unit in
      let ref = f.lit 2 0 ⊗ tau ⊖ unit in
      if f.le ref nought
      then (if f.lt tau unit then kelly_fraction ⊗ edge ⊘ (unit ⊖ tau) else kelly_fraction)
      else kelly_fraction ⊗ edge ⊘ ref

  unfoldable pub confidence_multiplier : F → F → F → F → Result F
  confidence_multiplier p tau kelly_fraction cap = do
    raise_if (not (f.le nought p && f.le p unit)) value_error
    ok (if f.lt p tau then nought else fmin cap (fmax nought (scaled_edge p tau kelly_fraction)))

  -- `sum` adds from the left
  gross_from : F → Dict F → F
  gross_from acc [] = acc
  gross_from acc ((k, v) ∷ d) = gross_from (acc ⊕ f.abs v) d

  pub apply_correlation_cap : Dict F → F → Dict F
  unfolding gross_from
  apply_correlation_cap exposures cap =
      let gross = gross_from nought exposures in
      if f.le gross cap || f.eq gross nought
      then exposures
      else map (λ e. (e.0, e.1 ⊗ (cap ⊘ gross))) exposures

  -- row `i`, from column `j` on
  correlation_row : F → ℕ → ℕ → ℕ → List F
  correlation_row rho i j zero = []
  correlation_row rho i j (suc left) =
      (if i == j then unit else rho) ∷ correlation_row rho i (j + 1) left

  correlation_rows : F → ℕ → ℕ → ℕ → List (List F)
  unfolding correlation_row
  correlation_rows rho n i zero = []
  correlation_rows rho n i (suc left) =
      correlation_row rho i 0 n ∷ correlation_rows rho n (i + 1) left

  pub correlation_matrix : ℕ → F → List (List F)
  unfolding correlation_rows
  correlation_matrix n rho = correlation_rows rho n 0 n

  -- `√(rᵀ C r)` for a symmetric C: `dot` is numpy's inner product.
  pub aggregate_correlated_risk : (List F → List F → F) → List F → List (List F) → F
  aggregate_correlated_risk dot r corr =
      f.sqrt (fmax nought (dot (map (λ column. dot r column) corr) r))

  -- `math.floor`
  abbrev pub floor_int : F → Result ℤ
  floor_int x =
      if f.is_finite x
      then ok (f.floor x)
      else raise (if f.eq x x then overflow_error else value_error)

  pub round_to_lot : F → InstrumentSpec F → Result F
  round_to_lot lots spec = if f.le lots nought || f.le spec.lot_step nought then ok nought else do
    steps ← floor_int (lots ⊘ spec.lot_step)
    let stepped = f.of_int steps ⊗ spec.lot_step
    ok (if f.le spec.min_lot stepped then f.round stepped 8 else nought)

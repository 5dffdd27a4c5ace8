-- ===== src/Features/Volatility.antt =====
-- src/aurax/l1_features/volatility.py
use Prim.Native.String.{◌++◌}
use aura_x.Prelude.{
  ℕ, zero, suc, ◌+◌, false, Option, none, some, List, [], ◌∷◌, map, get_elem?, String, Result, ok,
  Error, or_raise, ◌>>=◌, ◌>>◌, zip_with, Float, ◌⊕◌, ◌⊖◌, ◌⊗◌, unit, divide,
}
use aura_x.Prelude.Int.{pos, ◌-ℤ◌}
use aura_x.Prelude.Dict.{insert, lookup}
use aura_x.Prelude.Text.{str}
use aura_x.Features.Series.{Series, observed}
use aura_x.Features.Base.{
  Bars, Features, column, ensure_ohlcv, prefixed, zip_with3, log_returns, true_range, wilder_smooth,
  rolling_percentile,
}

pub record VolatilityBlock : Type 0 where
  pub atr_lookbacks : List ℕ
  pub atr_percentile_window : ℕ
  pub yang_zhang_window : ℕ
  pub realized_vol_window : ℕ
  pub realized_vol_annualization : Option ℕ

abbrev pub atr_name : ℕ → String
atr_name lb = "atr_" ++ str lb

module _ {ℓ} {F : Type ℓ} ⦃f : Float F⦄ where
  -- `if periods_per_year: vol = vol * np.sqrt(periods_per_year)`
  abbrev pub annualise : Option ℕ → List F → List F
  annualise none vol = vol
  annualise (some zero) vol = vol
  annualise (some (suc n)) vol = map (λ v. v ⊗ f.sqrt (f.of_int (pos (suc n)))) vol

  -- `0.34 / (1.34 + (n + 1) / (n - 1))`
  abbrev pub yang_zhang_weight : ℕ → Result F
  yang_zhang_weight n =
      divide (f.of_int (pos (n + 1))) (f.of_int (pos n -ℤ pos 1))
      >>= (λ q. divide (f.lit 34 2) (f.lit 134 2 ⊕ q))

  -- a row of `rogers_satchell`, of `u`, `d` and `open_close`
  abbrev pub rogers_satchell : F → F → F → F
  rogers_satchell u d open_close = u ⊗ (u ⊖ open_close) ⊕ d ⊗ (d ⊖ open_close)

module _ {ℓ} {F : Type ℓ} ⦃f : Float F⦄ (pd : Series F) where
  unfoldable pub atr : Bars F → ℕ → Result (List F)
  atr bars window =
      wilder_smooth pd
        (true_range pd (column "high" bars) (column "low" bars) (column "close" bars)) window

  unfoldable pub realized_volatility : List F → ℕ → Option ℕ → List F
  realized_volatility close window periods_per_year =
      annualise periods_per_year (pd.rolling window (observed window pd.std) (log_returns pd close))

  unfoldable pub yang_zhang : Bars F → ℕ → Result (List F)
  yang_zhang bars n =
      let log_o = map pd.log (column "open" bars) in
      let log_h = map pd.log (column "high" bars) in
      let log_l = map pd.log (column "low" bars) in
      let log_c = map pd.log (column "close" bars) in
      let overnight = zip_with f.sub log_o (pd.shift 1 log_c) in
      let open_close = zip_with f.sub log_c log_o in
      let u = zip_with f.sub log_h log_o in
      let d = zip_with f.sub log_l log_o in
      yang_zhang_weight n >>= (λ k.
        let sigma_o2 = pd.rolling n (observed n pd.var) overnight in
        let sigma_c2 = pd.rolling n (observed n pd.var) open_close in
        let sigma_rs2 =
          pd.rolling n (observed n pd.mean) (zip_with3 rogers_satchell u d open_close) in
        ok (zip_with3 (λ o c r. f.sqrt (o ⊕ k ⊗ c ⊕ (unit ⊖ k) ⊗ r)) sigma_o2 sigma_c2 sigma_rs2))

  -- the loop over the lookbacks
  unfoldable pub add_atrs : Bars F → List ℕ → Features F → Result (Features F)
  add_atrs bars [] out = ok out
  add_atrs bars (lb ∷ lookbacks) out = atr bars lb >>= (λ a. add_atrs bars lookbacks (
      insert (atr_name lb ++ "_pct_price") (zip_with f.div a (column "close" bars))
        (insert (atr_name lb) a out)))

  -- `VolatilityBlock.compute` past its check
  unfoldable pub volatility_features : VolatilityBlock → Bars F → Result (Features F)
  volatility_features b bars = add_atrs bars b.atr_lookbacks [] >>= (λ out.
      or_raise (get_elem? b.atr_lookbacks 0) Error.index_error >>= (λ primary.
        or_raise (lookup (atr_name primary) out) Error.key_error >>= (λ a.
          yang_zhang bars b.yang_zhang_window >>= (λ yz. ok (
            prefixed "vol" (
              insert "realized_vol"
                (realized_volatility (column "close" bars) b.realized_vol_window
                  b.realized_vol_annualization)
                (insert "yang_zhang" yz
                  (insert "atr_pct" (rolling_percentile pd a b.atr_percentile_window) out))))))))

  -- `VolatilityBlock.compute`
  unfoldable pub volatility_compute : VolatilityBlock → Bars F → Result (Features F)
  volatility_compute b bars = ensure_ohlcv false bars >> volatility_features b bars

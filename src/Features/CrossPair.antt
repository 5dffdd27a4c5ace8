-- ===== src/Features/CrossPair.antt =====
-- src/aurax/l1_features/cross_pair.py
use aura_x.Prelude.{
  ℕ, zero, suc, false, Option, none, some, List, [], map, zip_with, Result, ok, ◌>>=◌, ◌>>◌, Float,
  if◌then◌else◌,
}
use aura_x.Prelude.Dict.{insert}
use aura_x.Data.Frame.{Frame}
use aura_x.Features.Series.{Series}
use aura_x.Features.Base.{
  Bars, Features, index_of, column, ensure_ohlcv, prefixed, log_returns, rolling_zscore,
}

pub record CrossPairBlock {ℓ} (F : Type ℓ) : Type ℓ where
  pub partner_close : Frame F
  pub corr_window : ℕ
  pub ratio_zscore_window : ℕ
  pub lead_lag_max_shift : ℕ

-- the columns of the block
unfoldable pub pair_columns {ℓ} : {F : Type ℓ} → List F → List F → List F → List F → Features F
pair_columns lead_lag_best lead_lag_corr spread_z corr = prefixed "xpair" (
    insert "lead_lag_best" lead_lag_best
      (insert "lead_lag_corr" lead_lag_corr (insert "spread_z" spread_z (insert "corr" corr []))))

module _ {ℓ} {F : Type ℓ} ⦃f : Float F⦄ where
  -- `c if best is None else best.where(best.abs() >= c.abs(), c)`
  abbrev pub stronger : Option (List F) → List F → List F
  stronger none c = c
  stronger (some best) c = zip_with (λ b v. if f.le (f.abs v) (f.abs b) then b else v) best c

  -- a column of `None` is missing at every row
  abbrev pub best_column : Option (List F) → List ℕ → List F
  best_column none index = map (λ t. f.nan) index
  best_column (some best) index = best

module _ {ℓ} {F : Type ℓ} ⦃f : Float F⦄ (pd : Series F) where
  unfoldable pub rolling_correlation : List F → List F → ℕ → List F
  rolling_correlation ret_a ret_b window = pd.rolling_corr window ret_a ret_b

  unfoldable pub log_spread : List F → List F → List F
  log_spread close_a close_b = zip_with f.sub (map pd.log close_a) (map pd.log close_b)

  -- the loop over `k`, from `k` on, `n` rounds
  unfoldable pub strongest : ℕ → List F → List F → ℕ → ℕ → Option (List F) → Option (List F)
  strongest window ret_a ret_b k zero best = best
  strongest window ret_a ret_b k (suc n) best =
      strongest window ret_a ret_b (suc k) n
        (some (stronger best (rolling_correlation ret_a (pd.shift k ret_b) window)))

  -- what `CrossPairBlock.compute` makes of the bars and the aligned partner
  unfoldable pub pair_features : CrossPairBlock F → Bars F → List F → Features F
  pair_features b bars partner =
      let ret_a = log_returns pd (column "close" bars) in
      let ret_b = log_returns pd partner in
      let best = strongest b.corr_window ret_a ret_b 1 b.lead_lag_max_shift none in
      pair_columns (best_column best (index_of bars))
        (rolling_correlation ret_a (pd.shift 1 ret_b) b.corr_window)
        (rolling_zscore pd (log_spread (column "close" bars) partner) b.ratio_zscore_window)
        (rolling_correlation ret_a ret_b b.corr_window)

  -- `CrossPairBlock.compute` past its check
  unfoldable pub cross_pair_features : CrossPairBlock F → Bars F → Result (Features F)
  cross_pair_features b bars =
      pd.reindex b.partner_close (index_of bars) >>= (λ partner. ok (pair_features b bars partner))

  -- `CrossPairBlock.compute`
  unfoldable pub cross_pair_compute : CrossPairBlock F → Bars F → Result (Features F)
  cross_pair_compute b bars = ensure_ohlcv false bars >> cross_pair_features b bars

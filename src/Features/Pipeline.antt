-- ===== src/Features/Pipeline.antt =====
-- src/aurax/l1_features/pipeline.py. The parameters are a record of the keys that the standard blocks
-- read, `none` where the key is missing; the defaults are those of the blocks.
use aura_x.Prelude.{
  ℕ, Bool, false, ◌||◌, Option, none, some, List, [], ◌∷◌, ◌++◌, map, Result, ok, raise, Error,
  ◌>>=◌, ◌>>◌, Float, if◌then◌else◌,
}
use aura_x.Market.{Session}
use aura_x.Meta.Gated.{where_set}
use aura_x.Data.Frame.{Frame}
use aura_x.Features.Series.{Series, notna}
use aura_x.Features.Base.{Bars, Features, index_of, ensure_ohlcv}
use aura_x.Features.Volatility.{VolatilityBlock, volatility_compute}
use aura_x.Features.TrendMemory.{TrendMemoryBlock, trend_memory_compute}
use aura_x.Features.Sessions.{Windows, SessionBlock, session_compute}
use aura_x.Features.CrossPair.{CrossPairBlock, cross_pair_compute}

-- the blocks of src/aurax/l1_features
pub data FeatureBlock {ℓ} (F : Type ℓ) : Type ℓ where
  volatility : VolatilityBlock → FeatureBlock F
  trend_memory : TrendMemoryBlock → FeatureBlock F
  session : SessionBlock → FeatureBlock F
  cross_pair : CrossPairBlock F → FeatureBlock F

-- the feature matrix: an index, and the columns over it
pub record Matrix {ℓ} (F : Type ℓ) : Type ℓ where
  pub index : List ℕ
  pub columns : Features F

pub record VolatilityParams : Type 0 where
  pub atr_lookbacks : Option (List ℕ)
  pub atr_percentile_window : Option ℕ
  pub yang_zhang_window : Option ℕ
  pub realized_vol_window : Option ℕ
  -- `some none` is the key with the value `None`
  pub realized_vol_annualization : Option (Option ℕ)

pub record TrendMemoryParams : Type 0 where
  pub hurst_window : Option ℕ
  pub hurst_min_lag : Option ℕ
  pub hurst_max_lag : Option ℕ
  pub ker_window : Option ℕ
  pub mfdfa_window : Option ℕ
  pub mfdfa_enabled : Option Bool

pub record SessionParams : Type 0 where
  pub asian : Option (ℕ × ℕ)
  pub london : Option (ℕ × ℕ)
  pub ny : Option (ℕ × ℕ)
  pub session_relative_vol_window : Option ℕ

pub record CrossPairParams : Type 0 where
  pub corr_window : Option ℕ
  pub ratio_zscore_window : Option ℕ
  pub lead_lag_max_shift : Option ℕ

pub record FeatureParams : Type 0 where
  pub volatility : VolatilityParams
  pub trend_memory : TrendMemoryParams
  pub session : SessionParams
  pub cross_pair : CrossPairParams

abbrev pub or_else {ℓ} : {A : Type ℓ} → A → Option A → A
or_else a none = a
or_else a (some b) = b

-- `atr_lookbacks or [14, 24, 48]`
abbrev pub or_lookbacks : Option (List ℕ) → List ℕ
or_lookbacks none = 14 ∷ 24 ∷ 48 ∷ []
or_lookbacks (some []) = 14 ∷ 24 ∷ 48 ∷ []
or_lookbacks (some (lb ∷ lookbacks)) = lb ∷ lookbacks

abbrev pub volatility_block : VolatilityParams → VolatilityBlock
volatility_block p = record {
  atr_lookbacks = or_lookbacks p.atr_lookbacks;
  atr_percentile_window = or_else 252 p.atr_percentile_window;
  yang_zhang_window = or_else 24 p.yang_zhang_window;
  realized_vol_window = or_else 24 p.realized_vol_window;
  realized_vol_annualization = or_else (some 1512) p.realized_vol_annualization;
}

abbrev pub trend_memory_block : TrendMemoryParams → TrendMemoryBlock
trend_memory_block p = record {
  hurst_window = or_else 100 p.hurst_window;
  hurst_min_lag = or_else 2 p.hurst_min_lag;
  hurst_max_lag = or_else 20 p.hurst_max_lag;
  ker_window = or_else 14 p.ker_window;
  mfdfa_window = or_else 256 p.mfdfa_window;
  mfdfa_enabled = or_else false p.mfdfa_enabled;
}

-- a window that the parameters give
abbrev pub given : Session → Option (ℕ × ℕ) → Windows
given sess none = []
given sess (some w) = (sess, w) ∷ []

-- `_session_block`
abbrev pub session_block : SessionParams → SessionBlock
session_block p = record {
  windows = given Session.asian p.asian ++ (given Session.london p.london ++ given Session.ny p.ny);
  session_relative_vol_window = or_else 120 p.session_relative_vol_window;
}

module _ {ℓ} {F : Type ℓ} where
  abbrev pub pair_block : CrossPairParams → Option (Frame F) → List (FeatureBlock F)
  pair_block p none = []
  pair_block p (some partner) =
      cross_pair (record {
        partner_close = partner;
        corr_window = or_else 48 p.corr_window;
        ratio_zscore_window = or_else 96 p.ratio_zscore_window;
        lead_lag_max_shift = or_else 6 p.lead_lag_max_shift;
      })
      ∷ []

  -- `FeaturePipeline.from_params`: its blocks
  unfoldable pub from_params : FeatureParams → Option (Frame F) → List (FeatureBlock F)
  from_params params partner_close =
      volatility (volatility_block params.volatility)
      ∷ trend_memory (trend_memory_block params.trend_memory)
      ∷ session (session_block params.session)
      ∷ pair_block params.cross_pair partner_close

  -- `pd.concat` of no frame raises
  abbrev pub some_block : List (FeatureBlock F) → Result (Unit {0})
  some_block [] = raise Error.value_error
  some_block (block ∷ blocks) = ok tt

  -- the rows that a mask keeps
  abbrev pub mask_columns : List Bool → Features F → Features F
  mask_columns mask [] = []
  mask_columns mask ((c, xs) ∷ columns) = (c, where_set mask xs) ∷ mask_columns mask columns

  abbrev pub mask_rows : List Bool → Matrix F → Matrix F
  mask_rows mask m = record {
    index = where_set mask m.index;
    columns = mask_columns mask m.columns;
  }

module _ {ℓ} {F : Type ℓ} ⦃f : Float F⦄ where
  -- `|` of a mask and `notna` of a column
  abbrev pub or_notna : List Bool → List F → List Bool
  or_notna [] xs = []
  or_notna (b ∷ mask) [] = []
  or_notna (b ∷ mask) (x ∷ xs) = (b || notna x) ∷ or_notna mask xs

  -- `matrix.notna().any(axis=1)`, from the columns seen so far
  abbrev pub any_notna : List Bool → Features F → List Bool
  any_notna mask [] = mask
  any_notna mask ((c, xs) ∷ columns) = any_notna (or_notna mask xs) columns

  -- the warm-up rows, where every feature is NaN, are dropped
  unfoldable pub drop_warmup : Matrix F → Matrix F
  drop_warmup m = mask_rows (any_notna (map (λ t. false) m.index) m.columns) m

module _ {ℓ} {F : Type ℓ} ⦃f : Float F⦄ (pd : Series F) where
  -- `block.compute(bars)`
  unfoldable pub block_compute : FeatureBlock F → Bars F → Result (Features F)
  block_compute (volatility b) bars = volatility_compute pd b bars
  block_compute (trend_memory b) bars = trend_memory_compute pd b bars
  block_compute (session b) bars = session_compute pd b bars
  block_compute (cross_pair b) bars = cross_pair_compute pd b bars

  unfoldable pub compute_each : List (FeatureBlock F) → Bars F → Result (Features F)
  compute_each [] bars = ok []
  compute_each (block ∷ blocks) bars =
      block_compute block bars
      >>= (λ frame. compute_each blocks bars >>= (λ frames. ok (frame ++ frames)))

  -- `FeaturePipeline.compute`
  unfoldable pub compute : List (FeatureBlock F) → Bool → Bars F → Result (Matrix F)
  compute blocks dropna_warmup bars =
      ensure_ohlcv false bars
      >> (compute_each blocks bars >>= (λ columns.
          some_block blocks
          >> (let matrix : Matrix F = record { index = index_of bars; columns = columns } in
              ok (if dropna_warmup then drop_warmup matrix else matrix))))

  unfoldable pub build_feature_matrix :
      Bars F → FeatureParams → Option (Frame F) → Bool → Result (Matrix F)
  build_feature_matrix bars params partner_close dropna_warmup =
      compute (from_params params partner_close) dropna_warmup bars

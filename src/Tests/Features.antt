-- ===== src/Tests/Features.antt =====
-- The features of four bars, and what is known of them at the third.
use aura_x.Prelude.{
  ℕ, zero, suc, ◌≡◌, refl, ◌*◌, true, List, [], ◌∷◌, none, some, map, take, String, length,
  get_elem?, Result, ok, raise, if◌then◌else◌, arith,
}
use aura_x.Prelude.Tests.{str_eq}
use aura_x.Prelude.Int.{◌-ℤ◌, ◌*ℤ◌, ◌+ℤ◌, floor_div}
use aura_x.Prelude.Fixed.{Fixed, fixed_float, square_root, whole, quotient, root}
use aura_x.Data.Frame.{Frame, find}
use aura_x.Data.Frame.Laws.{Rising-Unique}
use aura_x.Features.Series.{Series, last_rows, lagged, or_nan, in_group}
use aura_x.Features.Base.{
  Bars, ensure_ohlcv, prefixed, log_returns, true_range, wilder_smooth, rolling_zscore,
  rolling_percentile,
}
use aura_x.Features.Volatility.{
  atr, realized_volatility, yang_zhang, add_atrs, volatility_features, volatility_compute,
}
use aura_x.Features.TrendMemory.{
  kaufman_efficiency_ratio, hurst_exponent, rolling_hurst, fluctuation, dfa_hurst,
  trend_memory_features, trend_memory_compute,
}
use aura_x.Features.Sessions.{
  primary_session, session_membership, session_features, session_compute,
}
use aura_x.Features.CrossPair.{
  pair_columns, rolling_correlation, log_spread, strongest, pair_features, cross_pair_features,
  cross_pair_compute,
}
use aura_x.Prelude.Text.{str, padded}
use aura_x.Features.Pipeline.{
  FeatureBlock, volatility, trend_memory, session, cross_pair, Matrix, compute, compute_each,
  block_compute, drop_warmup,
}
use aura_x.Features.Heads.Known.{known_bars, known_block}
use aura_x.Features.Heads.Masks.{known_rows}
use aura_x.Tests.Data.{num}
use aura_x.Tests.Protocol.{total, mean_of}
use aura_x.Features.PointInTime.{compute_known}

-- a value at each row
abbrev at_rows {ℓ} : {A : Type ℓ} → (ℕ → Fixed) → List A → List Fixed
at_rows value [] = []
at_rows value (x ∷ xs) = value 0 ∷ at_rows (λ i. value (suc i)) xs

get_elem?-at_rows {ℓ} :
    {A : Type ℓ} (value : ℕ → Fixed) (xs : List A) (i : ℕ)
    → get_elem? (at_rows value xs) i
      ≡ elim (get_elem? xs i) [ none ↦ none | some x ↦ some (value i) ]
get_elem?-at_rows value [] i = refl
get_elem?-at_rows value (x ∷ xs) zero = refl
get_elem?-at_rows value (x ∷ xs) (suc i) = get_elem?-at_rows (λ i. value (suc i)) xs i

-- the way from the first to the last
abbrev spread : List Fixed → Fixed
spread [] = fixed_float.nan
spread (x ∷ xs) = fixed_float.abs (fixed_float.sub (lagged 0 (x ∷ xs)) x)

abbrev greatest : List Fixed → Fixed
greatest [] = fixed_float.nan
greatest (x ∷ xs) = let rest = greatest xs in if fixed_float.lt rest x then x else rest

-- pandas by its laws
abbrev series : Series Fixed
series = record {
  log = λ x. x;
  row_max = greatest;
  array_mean = mean_of;
  cumsum = λ xs. xs;
  slope = λ xs ys. spread ys;
  trend_line = λ order t seg. seg;
  log_scales = λ n. 8 ∷ [];
  sum = total;
  mean = mean_of;
  std = spread;
  var = spread;
  corr = λ m xs ys. fixed_float.mul (spread xs) (spread ys);
  ewm_last = λ alpha m past. fixed_float.mul alpha (lagged 0 past);
  shift = λ k xs. at_rows (λ i. lagged k (take (suc i) xs)) xs;
  diff = λ k xs.
      at_rows (λ i. fixed_float.sub (lagged 0 (take (suc i) xs)) (lagged k (take (suc i) xs))) xs;
  rolling = λ w agg xs. at_rows (λ i. agg (last_rows w (take (suc i) xs))) xs;
  rolling_corr = λ w xs ys.
      at_rows
        (λ i.
          fixed_float.mul (spread (last_rows w (take (suc i) xs)))
            (spread (last_rows w (take (suc i) ys))))
        xs;
  ewm_mean = λ alpha m xs. at_rows (λ i. fixed_float.mul alpha (lagged 0 (take (suc i) xs))) xs;
  transform = λ g keys xs. at_rows (in_group g keys xs) xs;
  reindex = λ s index. ok (map (λ t. or_nan (find t s)) index);
  shift_at = λ k xs. get_elem?-at_rows _ xs;
  diff_at = λ k xs. get_elem?-at_rows _ xs;
  rolling_at = λ w agg xs. get_elem?-at_rows _ xs;
  rolling_corr_at = λ w xs ys. get_elem?-at_rows _ xs;
  ewm_mean_at = λ alpha m xs. get_elem?-at_rows _ xs;
  transform_at = λ g keys xs. get_elem?-at_rows _ xs;
  reindex_unique = λ s index u. refl;
}

abbrev hours : ℕ → ℕ
hours n = n * 3_600_000

-- a bar that opens at one price, closes at another, and reaches one beyond both
abbrev bar : ℕ → ℕ → ℕ → ℕ → String → Fixed
bar o h l c name =
    if str_eq name "open"
    then num o
    else if str_eq name "high"
    then num h
    else if str_eq name "low"
    then num l
    else num c

abbrev four_bars : Bars Fixed
four_bars = record {
  names = "open" ∷ "high" ∷ "low" ∷ "close" ∷ [];
  is_datetime = true;
  rows =
      (hours 0, bar 10 14 9 12)
      ∷ (hours 4, bar 12 17 11 15)
      ∷ (hours 8, bar 15 16 10 11)
      ∷ (hours 12, bar 11 13 10 12)
      ∷ [];
}

abbrev partner : Frame Fixed
partner = (hours 0, num 20) ∷ (hours 8, num 23) ∷ (hours 12, num 19) ∷ []

abbrev blocks : List (FeatureBlock Fixed)
blocks =
    volatility (record {
      atr_lookbacks = 2 ∷ [];
      atr_percentile_window = 2;
      yang_zhang_window = 2;
      realized_vol_window = 2;
      realized_vol_annualization = some 4;
    })
    ∷ trend_memory (record {
      hurst_window = 3;
      hurst_min_lag = 1;
      hurst_max_lag = 2;
      ker_window = 2;
      mfdfa_window = 3;
      mfdfa_enabled = true;
    })
    ∷ session (record { windows = []; session_relative_vol_window = 2 })
    ∷ cross_pair (record {
      partner_close = partner;
      corr_window = 2;
      ratio_zscore_window = 2;
      lead_lag_max_shift = 2;
    })
    ∷ []

abbrev value_or {ℓ} : {A : Type ℓ} → A → Result A → A
value_or a (ok b) = b
value_or a (raise e) = a

abbrev matrix : Matrix Fixed
matrix = value_or (record { index = []; columns = [] }) (compute series blocks true four_bars)

-- all four bars have a feature, at the first of them the dummies of its session
matrix_rows : length matrix.index ≡ 4
unfolding compute compute_each block_compute drop_warmup ensure_ohlcv prefixed log_returns
    true_range wilder_smooth rolling_zscore rolling_percentile atr realized_volatility yang_zhang
    add_atrs volatility_features volatility_compute kaufman_efficiency_ratio hurst_exponent
    rolling_hurst fluctuation dfa_hurst trend_memory_features trend_memory_compute primary_session
    session_membership session_features session_compute pair_columns rolling_correlation log_spread
    strongest pair_features cross_pair_features cross_pair_compute str_eq str ◌-ℤ◌ ◌*ℤ◌ ◌+ℤ◌
    floor_div padded square_root whole quotient root
matrix_rows = refl

matrix_computed : compute series blocks true four_bars ≡ ok matrix
unfolding compute compute_each block_compute drop_warmup ensure_ohlcv prefixed log_returns
    true_range wilder_smooth rolling_zscore rolling_percentile atr realized_volatility yang_zhang
    add_atrs volatility_features volatility_compute kaufman_efficiency_ratio hurst_exponent
    rolling_hurst fluctuation dfa_hurst trend_memory_features trend_memory_compute primary_session
    session_membership session_features session_compute pair_columns rolling_correlation log_spread
    strongest pair_features cross_pair_features cross_pair_compute str_eq str ◌-ℤ◌ ◌*ℤ◌ ◌+ℤ◌
    floor_div padded square_root whole quotient root
matrix_computed = refl

compute_known_example :
    compute series (map (known_block (hours 8)) blocks) true (known_bars (hours 8) four_bars)
    ≡ ok (known_rows (hours 8) matrix)
compute_known_example =
    compute_known series blocks true four_bars (hours 8) matrix
      (
        tt,
        (tt, (tt, (Rising-Unique 0 partner (omega arith, (omega arith, (omega arith, tt))), tt))),
      )
      matrix_computed

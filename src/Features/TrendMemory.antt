-- ===== src/Features/TrendMemory.antt =====
-- src/aurax/l1_features/trend_memory.py. Lags are 1 or more: at a lag of 0 numpy refuses the slices.
use aura_x.Prelude.{
  ℕ, zero, suc, ◌+◌, ◌-◌, ◌*◌, ◌/◌, ltb, leb, Bool, ◌||◌, List, [], ◌∷◌, map, length, take, drop,
  select, zip_with, Result, ok, ◌>>◌, Float, ◌⊖◌, ◌⊗◌, nought, if◌then◌else◌,
}
use aura_x.Prelude.Int.{pos}
use aura_x.Prelude.Dict.{insert}
use aura_x.Features.Series.{Series, observed}
use aura_x.Features.Base.{Bars, Features, column, ensure_ohlcv, prefixed, without_zeros}

pub record TrendMemoryBlock : Type 0 where
  pub hurst_window : ℕ
  pub hurst_min_lag : ℕ
  pub hurst_max_lag : ℕ
  pub ker_window : ℕ
  pub mfdfa_window : ℕ
  pub mfdfa_enabled : Bool

-- `np.arange(lo, lo + n)`
abbrev pub count_from : ℕ → ℕ → List ℕ
count_from lo zero = []
count_from lo (suc n) = lo ∷ count_from (suc lo) n

-- a segment of the profile, and the scales that are used
abbrev pub segment {ℓ} : {A : Type ℓ} → ℕ → List A → ℕ → List A
segment s profile i = take s (drop (i * s) profile)

abbrev pub is_used : ℕ → ℕ → ℕ → Bool
is_used n order s = if ltb s (order + 2) || ltb (n / 2) s then Bool.false else Bool.true

module _ {ℓ} {F : Type ℓ} ⦃f : Float F⦄ where
  -- `float` of the elements of an array of numbers
  abbrev pub floats : List ℕ → List F
  floats ns = map (λ n. f.of_int (pos n)) ns

  -- the root of the mean square of the increments over a lag, or of the residuals of a segment
  abbrev pub mean_square : Series F → List F → List F → F
  mean_square pd xs ys = pd.array_mean (map (λ d. d ⊗ d) (zip_with f.sub xs ys))

module _ {ℓ} {F : Type ℓ} ⦃f : Float F⦄ (pd : Series F) where
  unfoldable pub kaufman_efficiency_ratio : List F → ℕ → List F
  kaufman_efficiency_ratio close window =
      let direction = map f.abs (pd.diff window close) in
      let volatility = pd.rolling window (observed window pd.sum) (map f.abs (pd.diff 1 close)) in
      zip_with f.div direction (without_zeros volatility)

  unfoldable pub hurst_exponent : ℕ → ℕ → List F → F
  hurst_exponent min_lag max_lag x =
      let rms : ℕ → F = λ lag. f.sqrt (mean_square pd (drop lag x) (take (length x - lag) x)) in
      let tau =
        map {B = ℕ × F} (λ lag. (lag, rms lag)) (count_from min_lag (suc max_lag - min_lag)) in
      let kept = select (λ p. f.lt nought p.1) tau in
      if leb (length x) max_lag
      then f.nan
      else if ltb (length kept) 2
      then f.nan
      else pd.slope (map (λ p. pd.log (f.of_int (pos p.0))) kept) (map (λ p. pd.log p.1) kept)

  unfoldable pub rolling_hurst : List F → ℕ → ℕ → ℕ → List F
  rolling_hurst close window min_lag max_lag =
      pd.rolling window (observed window (hurst_exponent min_lag max_lag)) (map pd.log close)

  -- the fluctuation at a scale
  unfoldable pub fluctuation : ℕ → List F → ℕ → F
  fluctuation order profile s =
      let t = floats (count_from 0 s) in
      f.sqrt (
        pd.array_mean (
          map (λ i. let seg = segment s profile i in mean_square pd seg (pd.trend_line order t seg))
            (count_from 0 (length profile / s))))

  unfoldable pub dfa_hurst : ℕ → List F → F
  dfa_hurst order x =
      let n = length x in
      let profile = pd.cumsum (map (λ v. v ⊖ pd.array_mean x) x) in
      let used = select (is_used n order) (pd.log_scales n) in
      let fluct = map (fluctuation order profile) used in
      if ltb n 16
      then f.nan
      else if ltb (length used) 2
      then f.nan
      else pd.slope (map pd.log (floats used)) (map pd.log fluct)

  -- `TrendMemoryBlock.compute` past its check
  unfoldable pub trend_memory_features : TrendMemoryBlock → Bars F → Features F
  trend_memory_features b bars =
      let close = column "close" bars in
      let ker = insert "ker" (kaufman_efficiency_ratio close b.ker_window) [] in
      let hurst =
        insert "hurst" (rolling_hurst close b.hurst_window b.hurst_min_lag b.hurst_max_lag) ker in
      let dfa =
        pd.rolling b.mfdfa_window (observed b.mfdfa_window (dfa_hurst 1)) (map pd.log close) in
      prefixed "tm" (if b.mfdfa_enabled then insert "dfa" dfa hurst else hurst)

  -- `TrendMemoryBlock.compute`
  unfoldable pub trend_memory_compute : TrendMemoryBlock → Bars F → Result (Features F)
  trend_memory_compute b bars = ensure_ohlcv Bool.false bars >> ok (trend_memory_features b bars)

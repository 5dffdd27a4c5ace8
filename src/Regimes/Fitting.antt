-- ===== src/Regimes/Fitting.antt =====
-- `RegimeDetector` of src/aurax/l2_regime/detector.py around its hidden Markov model: what is fitted on
-- which rows, and the prediction from a frame of features. The frame is its columns by name.
use aura_x.Prelude.{
  ℕ, ◌*◌, ◌==◌, ltb, Bool, true, ◌&&◌, Option, none, some, List, [], ◌∷◌, map, length, is_empty,
  any, select, String, Result, ok, raise, Error, ◌>>=◌, ◌>>◌, raise_if, or_raise, Float, nought,
  if◌then◌else◌,
}
use aura_x.Prelude.Dict.{Dict, lookup}
use aura_x.Market.{Regime, RegimeState}
use aura_x.Features.Series.{notna}
use aura_x.Features.TrendMemory.{count_from}
use aura_x.Monitoring.Decay.{last}
use aura_x.Regimes.Detector.{RegimeConfig, RegimeRow, StateMap, learn_mapping, predict_regimes}
use aura_x.Regimes.Hmm.{Arrays, HmmConfig, Hmm, nth}
use aura_x.Regimes.Hmm.Fit.{hmm_fit, hmm_predict, hmm_predict_proba}
use aura_x.Regimes.Hmm.Viterbi.{hmm_decode}

-- the settings that name columns, beside those of the rules and of the model
pub record DetectorConfig {ℓ} (F : Type ℓ) : Type ℓ where
  pub rules : RegimeConfig F
  pub hmm : HmmConfig F
  pub hmm_features : List String
  pub vol_feature : String
  pub trend_feature : String
  pub atr_pct_col : String
  pub hurst_col : String
  pub ker_col : String

-- `_hmm` and `_state_to_regime`
pub record Fitted {ℓ} (F : Type ℓ) : Type ℓ where
  pub model : Hmm F
  pub state_to_regime : StateMap

-- the columns that are there, in the order of their names
abbrev pub present {ℓ} : {F : Type ℓ} → Dict (List F) → List String → List (List F)
present features [] = []
present features (c ∷ names) =
    let rest = present features names in
    elim (lookup c features) [ none ↦ rest | some xs ↦ xs ∷ rest ]

-- `sorted(set(states))`, of states below `k`
abbrev pub distinct : ℕ → List ℕ → List ℕ
distinct k states = select (λ s. any (λ t. t == s) states) (count_from 0 k)

module _ {ℓ} {F : Type ℓ} ⦃f : Float F⦄ where
  -- `_hmm_frame`, as its rows; `n` is the length of the index
  unfoldable pub hmm_frame : DetectorConfig F → ℕ → Dict (List F) → Result (List (List F))
  hmm_frame cfg n features =
      let cols = present features cfg.hmm_features in
      raise_if (is_empty cols) Error.value_error
      >> ok (map (λ i. map (λ xs. nth xs i) cols) (count_from 0 n))

  -- a row that `dropna` keeps
  abbrev pub is_complete : List F → Bool
  is_complete [] = true
  is_complete (x ∷ row) = notna x && is_complete row

  -- a column at the rows that `dropna` keeps
  abbrev pub at_complete : List (List F) → List F → List F
  at_complete [] xs = []
  at_complete (row ∷ rows) [] = []
  at_complete (row ∷ rows) (x ∷ xs) =
      let rest = at_complete rows xs in if is_complete row then x ∷ rest else rest

  -- `vol[states == s]`
  abbrev pub of_state : ℕ → List ℕ → List F → List F
  of_state s [] xs = []
  of_state s (t ∷ states) [] = []
  of_state s (t ∷ states) (x ∷ xs) =
      let rest = of_state s states xs in if t == s then x ∷ rest else rest

  -- the mean of a column over the rows of a state, 0 where the column is missing
  abbrev pub state_mean : (List F → F) → Option (List F) → List ℕ → ℕ → F
  state_mean nanmean none states s = nought
  state_mean nanmean (some xs) states s = nanmean (of_state s states xs)

  abbrev pub column_at : List (List F) → Dict (List F) → String → Option (List F)
  column_at rows features c = elim (lookup c features) [
    | none ↦ none
    | some xs ↦ some (at_complete rows xs)
  ]

  -- what the model says of a row, none where it was dropped
  abbrev pub spread_rows : List (List F) → List (List F) → List ℕ → List (Option (List F × ℕ))
  spread_rows [] proba states = []
  spread_rows (row ∷ rows) [] states = none ∷ spread_rows rows [] states
  spread_rows (row ∷ rows) (p ∷ proba) [] = none ∷ spread_rows rows (p ∷ proba) []
  spread_rows (row ∷ rows) (p ∷ proba) (s ∷ states) =
      let taken = spread_rows rows proba states in
      let dropped = spread_rows rows (p ∷ proba) (s ∷ states) in
      if is_complete row then some (p, s) ∷ taken else none ∷ dropped

  -- the rows beside their ATR percentiles, where that column is there
  abbrev pub with_atr :
      List (Option (List F × ℕ)) → Option (List F) → List (Option (List F × ℕ) × Option F)
  with_atr rows none = map (λ r. (r, none)) rows
  with_atr [] (some atr) = []
  with_atr (r ∷ rows) (some []) = (r, none) ∷ with_atr rows (some [])
  with_atr (r ∷ rows) (some (a ∷ atr)) = (r, some a) ∷ with_atr rows (some atr)

  -- the last value of a column
  abbrev pub last_of : Dict (List F) → String → F
  last_of features c = elim (lookup c features) [
    | none ↦ f.nan
    | some xs ↦ elim (last xs) [ none ↦ f.nan | some x ↦ x ]
  ]

module _ {ℓ} {F : Type ℓ} ⦃f : Float F⦄ (np : Arrays F) (nanmean : List F → F) where
  -- `RegimeDetector.fit`
  unfoldable pub detector_fit : DetectorConfig F → ℕ → Dict (List F) → Result (Fitted F)
  detector_fit cfg n features = hmm_frame cfg n features >>= (λ rows.
      let frame = select is_complete rows in
      raise_if (ltb (length frame) (cfg.hmm.n_states * 5)) Error.value_error
      >> (let model = hmm_fit np cfg.hmm frame in
          let states = hmm_predict np cfg.hmm model frame in
          let mean : String → ℕ → F =
            λ c s. state_mean nanmean (column_at rows features c) states s in
          elim (distinct cfg.hmm.n_states states) [
            | [] ↦ raise Error.value_error
            | s ∷ others ↦ ok (record {
              model = model;
              state_to_regime =
                  learn_mapping (mean cfg.vol_feature) (mean cfg.trend_feature) s others;
            })
          ]))

  -- `predict_regimes`; before the fit it raises
  unfoldable pub detector_predict_regimes :
      DetectorConfig F → Option (Fitted F) → ℕ → Dict (List F) → Result (List (RegimeRow F))
  detector_predict_regimes cfg none n features = raise Error.runtime_error
  detector_predict_regimes cfg (some fitted) n features = hmm_frame cfg n features >>= (λ rows.
      let frame = select is_complete rows in
      let proba = hmm_predict_proba np cfg.hmm fitted.model frame in
      let states = hmm_decode np cfg.hmm fitted.model frame in
      let said = spread_rows rows proba states in
      ok (
        predict_regimes cfg.rules fitted.state_to_regime
          (with_atr said (lookup cfg.atr_pct_col features))))

  -- `regime_series`
  unfoldable pub regime_series :
      DetectorConfig F → Option (Fitted F) → ℕ → Dict (List F) → Result (List Regime)
  regime_series cfg fitted n features =
      detector_predict_regimes cfg fitted n features
      >>= (λ rows. ok (map (λ (r : RegimeRow F). r.regime) rows))

  -- `predict`, of the last bar
  unfoldable pub detector_predict :
      DetectorConfig F → Option (Fitted F) → ℕ → Dict (List F) → Result (RegimeState F)
  detector_predict cfg fitted n features =
      detector_predict_regimes cfg fitted n features >>= (λ rows.
        or_raise (last rows) Error.index_error >>= (λ row. ok (record {
          regime = row.regime;
          probabilities =
              (Regime.trend, row.p_trend)
              ∷ (Regime.range, row.p_range)
              ∷ (Regime.shock, row.p_shock)
              ∷ [];
          hurst = some (last_of features cfg.hurst_col);
          ker = some (last_of features cfg.ker_col);
          atr_percentile = some (last_of features cfg.atr_pct_col);
        })))

-- ===== src/Labeling/Labeler.antt =====
-- `Labeler` of src/aurax/l4_labeling/labeler.py: the barriers of layer 4 scaled by the ATR of layer 1, and
-- the weights of the labels. Events come in the order of the index, by their positions.
use aura_x.Prelude.{
  ℕ, Bool, true, not, ◌||◌, Option, none, some, List, [], ◌∷◌, map, length, is_empty, select,
  String, Result, ok, Error, ◌>>=◌, ◌>>◌, raise_if, Float, unit, if◌then◌else◌,
}
use aura_x.Prelude.Tests.{str_eq}
use aura_x.Prelude.Dict.{member}
use aura_x.Features.Series.{Series}
use aura_x.Features.Base.{Bars, column, index_of}
use aura_x.Features.TrendMemory.{count_from}
use aura_x.Features.Volatility.{atr}
use aura_x.Labeling.Barrier.{Bar, BarrierConfig, LabelRow, label_events}
use aura_x.Labeling.Trend.{TrendRow, trend_scanning_labels}
use aura_x.Labeling.Trend
use aura_x.Labeling.Uniqueness.{Sums, sample_weights}

pub record LabelConfig {ℓ} (F : Type ℓ) : Type ℓ where
  pub atr_lookback : ℕ
  pub tp_atr_mult : F
  pub sl_atr_mult : F
  pub vertical_bars : ℕ
  pub min_return : F
  pub tie_break : String
  pub uniqueness_enabled : Bool
  pub apply_time_decay : Bool
  pub time_decay_last_weight : F
  pub by_return : Bool
  pub ts_min_horizon : ℕ
  pub ts_max_horizon : ℕ
  pub ts_t_value_threshold : F

-- the positions of all bars, without a side
abbrev pub all_events {ℓ} : {F : Type ℓ} → ℕ → List (ℕ × Option F)
all_events n = map (λ i. (i, none)) (count_from 0 n)

abbrev pub or_all {ℓ} : {F : Type ℓ} → ℕ → Option (List (ℕ × Option F)) → List (ℕ × Option F)
or_all n none = all_events n
or_all n (some events) = events

module _ {ℓ} {F : Type ℓ} where
  -- the bars beside their ATR
  abbrev pub barrier_bars : List (ℕ × (String → F)) → List F → List (Bar F)
  barrier_bars [] a = []
  barrier_bars (r ∷ rows) [] = []
  barrier_bars ((t, cell) ∷ rows) (a ∷ atrs) =
      record { ts = t; high = cell "high"; low = cell "low"; close = cell "close"; atr = a }
      ∷ barrier_bars rows atrs

  abbrev pub barrier_config : LabelConfig F → BarrierConfig F
  barrier_config cfg = record {
    tp_mult = cfg.tp_atr_mult;
    sl_mult = cfg.sl_atr_mult;
    vertical_bars = cfg.vertical_bars;
    min_ret = cfg.min_return;
    tie_is_sl = str_eq cfg.tie_break "sl";
  }

  abbrev pub zip_weights : List (LabelRow F) → List F → List (LabelRow F × F)
  zip_weights [] ws = []
  zip_weights (l ∷ labels) [] = []
  zip_weights (l ∷ labels) (w ∷ ws) = (l, w) ∷ zip_weights labels ws

module _ {ℓ} {F : Type ℓ} ⦃f : Float F⦄ (pd : Series F) (sums : Sums F) where
  -- the weights of the labels
  abbrev pub weights_of : LabelConfig F → Bars F → List (LabelRow F) → Result (List F)
  weights_of cfg bars labels =
      if cfg.uniqueness_enabled
      then sample_weights sums (map (λ (l : LabelRow F). (l.ts, l.t1)) labels) (index_of bars)
          (some (map (λ r. (r.0, r.1 "close")) bars.rows)) cfg.by_return cfg.apply_time_decay
          cfg.time_decay_last_weight true
      else ok (map (λ l. unit) labels)

  -- `make_labels`: each label with its weight. A column that is missing is a missing key of the ATR.
  unfoldable pub make_labels :
      LabelConfig F → Bars F → Option (List (ℕ × Option F)) → Result (List (LabelRow F × F))
  make_labels cfg bars events =
      raise_if
        (not (is_empty (select (λ c. not (member c bars.names)) ("high" ∷ "low" ∷ "close" ∷ []))))
        Error.key_error
      >> (atr pd bars cfg.atr_lookback >>= (λ barrier_atr.
          raise_if (not (str_eq cfg.tie_break "sl" || str_eq cfg.tie_break "tp")) Error.value_error
          >> (let labels =
                label_events (barrier_config cfg) (barrier_bars bars.rows barrier_atr)
                  (or_all (length bars.rows) events) in
              if is_empty labels
              then ok []
              else weights_of cfg bars labels >>= (λ ws. ok (zip_weights labels ws)))))

-- `make_trend_labels`; `log_price` is what the function makes of the closes
unfoldable pub make_trend_labels {ℓ} :
    {F : Type ℓ} ⦃f : Float F⦄
    → Series F
    → Trend.Sums F
    → LabelConfig F
    → Bars F
    → Option (List ℕ)
    → List (TrendRow F)
make_trend_labels pd np cfg bars events =
    let log_price = map pd.log (column "close" bars) in
    trend_scanning_labels np log_price cfg.ts_min_horizon cfg.ts_max_horizon
      cfg.ts_t_value_threshold
      (elim events [ none ↦ count_from 0 (length bars.rows) | some ps ↦ ps ])

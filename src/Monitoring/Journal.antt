-- ===== src/Monitoring/Journal.antt =====
-- `journal_metrics` of src/aurax/l8_monitoring/monitor.py: the metrics of the closed trades. A row
-- has a value in each column that the frame has.
use aura_x.Prelude.{
  ℕ, min, max, ◌==◌, Bool, Option, none, some, List, [], ◌∷◌, map, length, select, Float, nought,
  unit, if◌then◌else◌,
}
use aura_x.Monitoring.Decay.{Columns, rolling_sharpe, calibration_error, last}

-- The columns the code reads: `pnl_net`, `pnl` and `meta_prob`, each there or not.
pub record TradeFrame {ℓ} (F : Type ℓ) : Type ℓ where
  pub rows : ℕ
  pub pnl_net : Option (List F)
  pub pnl : Option (List F)
  pub meta_prob : Option (List F)

pub record JournalMetrics {ℓ} (F : Type ℓ) : Type ℓ where
  pub n_trades : ℕ
  pub total_pnl : F
  pub hit_rate : F
  pub rolling_sharpe : F
  pub calibration_error : F

-- the column of the profit
abbrev pub pnl_column {ℓ} : {F : Type ℓ} → TradeFrame F → Option (List F)
pnl_column t = elim t.pnl_net [ some c ↦ some c | none ↦ t.pnl ]

module _ {ℓ} {F : Type ℓ} ⦃f : Float F⦄ (np : Columns F) where
  abbrev pub empty_metrics : JournalMetrics F
  empty_metrics = record {
    n_trades = 0;
    total_pnl = nought;
    hit_rate = f.nan;
    rolling_sharpe = f.nan;
    calibration_error = f.nan;
  }

  -- `notna`: NaN is the one value that is not equal to itself
  abbrev pub notna : F → Bool
  notna x = f.eq x x

  abbrev pub won : F → F
  won x = if f.lt nought x then unit else nought

  -- the samples of the calibration: closed trades with a finite probability
  abbrev pub samples : List F → List F → List (F × F)
  samples [] probs = []
  samples (x ∷ pnl) [] = []
  samples (x ∷ pnl) (p ∷ probs) =
      let rest = samples pnl probs in
      if notna x then (if f.is_finite p then (p, won x) ∷ rest else rest) else rest

  pub closed_metrics : ℕ → ℕ → List F → Option (List F) → JournalMetrics F
  closed_metrics window periods_per_year pnl meta_prob =
      let closed = select notna pnl in
      let n = length closed in
      let rs = rolling_sharpe np closed (max 2 (min window n)) periods_per_year in
      record {
        n_trades = n;
        total_pnl = np.sum closed;
        hit_rate = np.mean (map won closed);
        rolling_sharpe = elim (last (select notna rs)) [ none ↦ f.nan | some r ↦ r ];
        calibration_error = elim meta_prob [
          | none ↦ f.nan
          | some probs ↦ calibration_error np (samples pnl probs) 10
        ];
      }

  pub journal_metrics : Option (TradeFrame F) → ℕ → ℕ → JournalMetrics F
  unfolding closed_metrics
  journal_metrics none window periods_per_year = empty_metrics
  journal_metrics (some t) window periods_per_year = elim (pnl_column t) [
    | none ↦ empty_metrics
    | some pnl ↦
        if t.rows == 0
        then empty_metrics
        else if length (select notna pnl) == 0
        then empty_metrics
        else closed_metrics window periods_per_year pnl t.meta_prob
  ]

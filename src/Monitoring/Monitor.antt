-- ===== src/Monitoring/Monitor.antt =====
-- `Monitor` of src/aurax/l8_monitoring/monitor.py: the peak equity and the last regime are its state,
-- beside that of the notifier.
pub mod Events
use Prim.Native.String.{◌++◌}
use aura_x.Prelude.{
  ℕ, Bool, true, false, not, ◌&&◌, ◌||◌, Option, none, some, List, [], ◌∷◌, String, Float, ◌⊖◌, ◌⊘◌,
  nought, fmax, Result, ok, raise, if◌then◌else◌,
}
use aura_x.Prelude.Tests.{str_eq}
use aura_x.Prelude.Int.{ℤ, pos, ltb_ℤ}
use aura_x.Prelude.Dict.{Dict}
use aura_x.Monitoring.Alerts.{AlertKind, fill, breach, regime_flip, decay, Notifier}
use aura_x.Monitoring.Decay.{
  Columns, DecayConfig, DecayReport, evaluate, retrain_due, reasons, join,
}
use aura_x.Monitoring.Journal.{TradeFrame, JournalMetrics, journal_metrics}

pub record MonitorConfig {ℓ} (F : Type ℓ) : Type ℓ where
  pub decay : DecayConfig F
  pub drawdown_alert : F
  pub sharpe_window : ℕ
  pub periods_per_year : ℕ

pub record Monitor {ℓ κ} (F : Type ℓ) (S : Type κ) : Type (ℓ ⊔ κ) where
  pub peak : F
  pub last_regime : Option String
  pub notified : S

pub record DashboardSnapshot {ℓ} (F : Type ℓ) : Type ℓ where
  pub equity : F
  pub peak_equity : F
  pub drawdown : F
  pub rolling_sharpe : F
  pub hit_rate : F
  pub calibration_error : F
  pub n_trades : ℕ
  pub total_pnl : F
  pub regime : Option String
  pub retrain_due : Bool
  pub open_positions : Dict F

-- the text of a flip
abbrev pub flip : String → String → String
flip old new = old ++ (" → " ++ new)

module _ {ℓ} {F : Type ℓ} ⦃f : Float F⦄ where
  abbrev pub drawdown : F → F → F
  drawdown peak equity = if f.lt nought peak then (peak ⊖ equity) ⊘ peak else nought

  abbrev pub breach_text : Columns F → F → F → String
  breach_text np dd equity =
      "drawdown " ++ (np.format ".1%" dd ++ (" (equity " ++ (np.format ",.0f" equity ++ ")")))

module _ {ℓ κ} {F : Type ℓ} {S : Type κ} ⦃f : Float F⦄ (np : Columns F) (cfg : MonitorConfig F)
    (out : Notifier S) where
  -- a monitor that has seen nothing
  abbrev pub started : S → Monitor F S
  started s = record { peak = f.neg_inf; last_regime = none; notified = s }

  -- send, whatever the answer
  abbrev pub alert : AlertKind → String → Monitor F S → Monitor F S
  alert kind message m = record m { notified = (out.send kind message m.notified).1 }

  pub on_fill : String → ℤ → F → F → Monitor F S → Bool × Monitor F S
  on_fill symbol side lots price m =
      let side_text = if ltb_ℤ (pos 0) side then "BUY" else "SELL" in
      let (sent, s) =
        out.send fill
          (symbol
            ++ (" "
                ++ (side_text
                    ++ (" " ++ (np.format ".2f" lots ++ (" @ " ++ np.format ".5f" price))))))
          m.notified in
      (sent, record m { notified = s })

  -- `rv` is the regime's value
  pub on_regime : String → Monitor F S → Bool × Monitor F S
  on_regime rv m = elim m.last_regime [
    | none ↦ (false, record m { last_regime = some rv })
    | some old ↦
        if str_eq rv old
        then (false, record m { last_regime = some rv })
        else (true, record (alert regime_flip (flip old rv) m) { last_regime = some rv })
  ]

  pub update_equity : F → Monitor F S → Bool × Monitor F S
  update_equity equity m =
      let peak = fmax m.peak equity in
      let dd = drawdown peak equity in
      let raised = record m { peak = peak } in
      if f.le cfg.drawdown_alert dd
      then (true, alert breach (breach_text np dd equity) raised)
      else (false, raised)

  pub check_decay : List F → List (F × F) → Monitor F S → Result (DecayReport F) × Monitor F S
  check_decay returns samples m = elim (evaluate np cfg.decay returns samples) [
    | raise e ↦ (raise e, m)
    | ok report ↦
        (ok report, (if retrain_due np report then alert decay (join (reasons np report)) m else m))
  ]

  -- the monitor does not change; `peak == -inf` says that no equity has been seen
  pub snapshot :
      F → Option (TradeFrame F) → Option String → Dict F → Monitor F S → DashboardSnapshot F
  snapshot equity trades regime open_positions m =
      let metrics = journal_metrics np trades cfg.sharpe_window cfg.periods_per_year in
      let peak = if f.eq m.peak f.neg_inf then equity else fmax m.peak equity in
      record {
        equity = equity;
        peak_equity = peak;
        drawdown = drawdown peak equity;
        rolling_sharpe = metrics.rolling_sharpe;
        hit_rate = metrics.hit_rate;
        calibration_error = metrics.calibration_error;
        n_trades = metrics.n_trades;
        total_pnl = metrics.total_pnl;
        regime = elim regime [
          | none ↦ m.last_regime
          | some r ↦ if str_eq r "" then m.last_regime else some r
        ];
        retrain_due =
            (f.is_finite metrics.rolling_sharpe
              && f.lt metrics.rolling_sharpe cfg.decay.min_rolling_sharpe)
            || (f.is_finite metrics.calibration_error
                && f.lt cfg.decay.max_calibration_error metrics.calibration_error);
        open_positions = open_positions;
      }

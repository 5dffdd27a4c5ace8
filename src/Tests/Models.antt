-- ===== src/Tests/Models.antt =====
-- The labels, the regimes, the sides, the monitor and the retraining at concrete inputs.
use aura_x.Prelude.{
  min, ℕ, suc, ◌+◌, ◌≤◌, ◌<◌, ◌≡◌, ◌≢◌, refl, ◌⊎◌, ◌↔◌, true, false, Option, none, some, List, [],
  ◌∷◌, ◌++◌, get_elem?, arith, if◌then◌else◌, nought, Result, ok,
}
use aura_x.Prelude.Int.{negsuc, ◌-ℤ◌, ◌*ℤ◌, floor_div}
use aura_x.Prelude.Fixed.{Fixed, nan, fin, root, square_root, fixed_float, quotient}
use aura_x.Market.{Regime, trend, range, shock}
use aura_x.Labeling.Barrier.{Bar, BarrierConfig, touch_of, barrier_prices}
use aura_x.Labeling.Barrier.FirstTouch.{FirstAfter, touch_of-IsFirst}
use aura_x.Regimes.Detector.{
  RegimeConfig, RegimeRow, gate, predict_rules, predict_regimes, model_row,
}
use aura_x.Regimes.Detector.Rules.{gates, gates_no_atr, predict_rules-eq-gates}
use aura_x.Regimes.Detector.Override.{predict_regimes_override}
use aura_x.Primary.{Proba}
use aura_x.Monitoring.Alerts.{format_alert, Log, log_notifier, decay}
use aura_x.Monitoring.Decay.{
  evaluate, evaluate, rolling_sharpe, sharpe_rows, calibration_error, add_bins, Columns,
  DecayConfig, retrain_due,
}
use aura_x.Monitoring.Monitor.{MonitorConfig, started}
use aura_x.Monitoring.Monitor.Events.{
  watch_regimes, flips, watch_regimes-flips, watch_equity, breaches, watch_equity-breaches,
}
use aura_x.Lifecycle.Gate.{Metrics, go_no_go, go_no_go_iff, Clears}
use aura_x.Lifecycle.Retrain.{
  Decayed, retrain, RetrainPolicy, RetrainResult, RetrainData, maybe_retrain, maybe_retrain_alerts,
  maybe_retrain-Clears,
}
use aura_x.Tests.Data.{micro, num}

abbrev bar : ℕ → ℕ → ℕ → ℕ → Bar Fixed
bar ts high low close = record {
  ts = ts;
  high = micro high;
  low = micro low;
  close = micro close;
  atr = micro 5_000;
}

abbrev bars : List (Bar Fixed)
bars =
    bar 0 1_101_000 1_099_000 1_100_000
    ∷ bar 4 1_104_000 1_099_000 1_103_000
    ∷ bar 8 1_112_000 1_102_000 1_111_000
    ∷ bar 12 1_113_000 1_080_000 1_081_000
    ∷ []

abbrev barriers : BarrierConfig Fixed
barriers = record {
  tp_mult = num 2;
  sl_mult = num 1;
  vertical_bars = 3;
  min_ret = nought;
  tie_is_sl = true;
}

touch_of-IsFirst_example :
    let b = bar 0 1_101_000 1_099_000 1_100_000 in
    let o = touch_of barriers bars (num 1) 0 b in
    FirstAfter true (num 1) (barrier_prices barriers (num 1) b.close b.atr) bars 0 (min (0 + 3) 3) o
    × (0 < o.1)
    × (o.1 ≤ 0 + 3)
    × (o.1 < 4)
touch_of-IsFirst_example =
    touch_of-IsFirst barriers bars (num 1) 0 (bar 0 1_101_000 1_099_000 1_100_000) (omega arith)
      (omega arith)

abbrev regimes : RegimeConfig Fixed
regimes = record {
  hurst_trend_threshold = micro 550_000;
  ker_trend_threshold = micro 300_000;
  shock_atr_percentile = micro 950_000;
  n_states = 3;
  shock_override = true;
}

predict_rules-eq-gates_example :
    let hurst = micro 600_000 ∷ nan ∷ [] in
    let ker = micro 400_000 ∷ micro 100_000 ∷ [] in
    let atr = micro 200_000 ∷ micro 990_000 ∷ [] in
    (predict_rules regimes 2 (some hurst) (some ker) (some atr) ≡ gates regimes hurst ker atr)
    × (predict_rules regimes 2 (some hurst) (some ker) none ≡ gates_no_atr regimes hurst ker)
predict_rules-eq-gates_example =
    predict_rules-eq-gates regimes 2 (micro 600_000 ∷ nan ∷ []) (micro 400_000 ∷ micro 100_000 ∷ [])
      (micro 200_000 ∷ micro 990_000 ∷ []) refl refl refl

-- state 0 is a trend, state 1 a range
abbrev names : List (ℕ × Regime)
names = (2, shock) ∷ (0, trend) ∷ (1, range) ∷ []

abbrev decoded : Option (List Fixed × ℕ)
decoded = some (micro 700_000 ∷ micro 200_000 ∷ micro 100_000 ∷ [], 0)

predict_regimes_override_example :
    (r : RegimeRow Fixed) × (get_elem?
        (predict_regimes regimes names ((decoded, some (micro 990_000)) ∷ []))
        0
      ≡ some r)
    × (((gate regimes nan nan (some (micro 990_000)) ≡ shock) × (r.regime ≡ shock))
        ⊎ ((gate regimes nan nan (some (micro 990_000)) ≢ shock)
            × (r.regime ≡ (model_row names decoded).regime)))
    × (r.p_trend ≡ (model_row names decoded).p_trend)
    × (r.p_range ≡ (model_row names decoded).p_range)
    × (r.p_shock ≡ (model_row names decoded).p_shock)
predict_regimes_override_example =
    predict_regimes_override regimes names ((decoded, some (micro 990_000)) ∷ []) 0 decoded nan nan
      (micro 990_000) refl refl

abbrev proba : Proba Fixed
proba = record { p_down = micro 200_000; p_flat = micro 100_000; p_up = micro 700_000 }

-- Columns whose rolling Sharpe ratio is what `rolling_mean` says, here the column itself.
abbrev columns : Columns Fixed
columns = record {
  rolling_mean = λ w xs. xs;
  rolling_std = λ w xs. num 1 ∷ num 1 ∷ [];
  mean = λ xs. nought;
  sum = λ xs. nought;
  linspace = λ n. [];
  digitize = λ edges p. 0;
  format = λ spec x. "x";
}

abbrev decay_config : DecayConfig Fixed
decay_config = record {
  sharpe_window = 2;
  min_rolling_sharpe = nought;
  max_calibration_error = micro 100_000;
}

abbrev monitor_config : MonitorConfig Fixed
monitor_config = record {
  decay = decay_config;
  drawdown_alert = micro 100_000;
  sharpe_window = 2;
  periods_per_year = 1512;
}

watch_regimes-flips_example :
    let m = started columns monitor_config log_notifier [] in
    (watch_regimes columns monitor_config ("trend" ∷ "trend" ∷ "shock" ∷ []) m).notified
    ≡ [] ++ flips none ("trend" ∷ "trend" ∷ "shock" ∷ [])
watch_regimes-flips_example =
    watch_regimes-flips columns monitor_config ("trend" ∷ "trend" ∷ "shock" ∷ [])
      (started columns monitor_config log_notifier [])

watch_equity-breaches_example :
    let m = started columns monitor_config log_notifier [] in
    (watch_equity columns monitor_config (num 10_000 ∷ num 8_500 ∷ []) m).notified
    ≡ [] ++ breaches columns monitor_config m.peak (num 10_000 ∷ num 8_500 ∷ [])
watch_equity-breaches_example =
    watch_equity-breaches columns monitor_config (num 10_000 ∷ num 8_500 ∷ [])
      (started columns monitor_config log_notifier [])

abbrev measured : Metrics Fixed
measured = record {
  cpcv_sharpe_mean = micro 900_000;
  walk_forward_sharpe = micro 600_000;
  holdout_sharpe = micro 800_000;
  baselines = ("majority", micro 300_000) ∷ ("random", nan) ∷ [];
  deflated_sharpe = micro 970_000;
}

go_no_go_iff_example :
    (go_no_go (λ spec x. "x") (micro 950_000) measured).passed ≡ true
    ↔ Clears (micro 950_000) measured
go_no_go_iff_example = go_no_go_iff (λ spec x. "x") (micro 950_000) measured

abbrev policy : RetrainPolicy Fixed
policy = record { decay = decay_config; require_gate_pass = true }

-- a losing month; the training data is a seed and the trained model its successor
abbrev losing : RetrainData Fixed ℕ
losing = record {
  monitor_returns = micro 10_000 ∷ fixed_float.sub nought (micro 10_000) ∷ [];
  monitor_samples = [];
  dataset = 4;
}

abbrev retrains : Log → Result (RetrainResult Fixed ℕ) × Log
retrains log =
    maybe_retrain columns policy log_notifier (λ d. ok (suc d)) (λ d. ok measured) (micro 950_000)
      losing log

abbrev promotion : RetrainResult Fixed ℕ
promotion = record {
  triggered = true;
  decay = record {
    rolling_sharpe = fin (negsuc 388_844);
    calibration_error = nan;
    sharpe_breached = true;
    calibration_breached = false;
  };
  promoted = true;
  model = some 5;
  report = some (go_no_go (λ spec x. "x") (micro 950_000) measured);
}

abbrev two_alerts : Log
two_alerts =
    (decay, format_alert decay "retrain triggered: rolling Sharpe x below floor")
    ∷ (decay, format_alert decay "retrained model PROMOTED")
    ∷ []

retrains-promotion : retrains [] ≡ (ok promotion, two_alerts)
unfolding maybe_retrain retrain evaluate rolling_sharpe sharpe_rows calibration_error add_bins
    go_no_go square_root root quotient ◌*ℤ◌ floor_div ◌-ℤ◌
retrains-promotion = refl

maybe_retrain-Clears_example :
    (evaluate columns policy.decay losing.monitor_returns losing.monitor_samples
      ≡ ok promotion.decay)
    × Decayed columns policy log_notifier
        (λ d. ok (suc d))
        (λ d. ok measured)
        (micro 950_000)
        losing.monitor_returns
        losing.monitor_samples
    × (ok (suc 4) ≡ ok 5)
    × ((metrics : Metrics Fixed) × (ok measured ≡ ok metrics) × Clears (micro 950_000) metrics)
maybe_retrain-Clears_example =
    maybe_retrain-Clears columns policy log_notifier (λ d. ok (suc d)) (λ d. ok measured)
      (micro 950_000) losing [] two_alerts promotion 5 refl retrains-promotion refl

maybe_retrain_alerts_example :
    ((retrain_due columns promotion.decay ≡ false)
      × (promotion ≡ record {
        triggered = false;
        decay = promotion.decay;
        promoted = false;
        model = none;
        report = none;
      })
      × (two_alerts ≡ []))
    ⊎ ((retrain_due columns promotion.decay ≡ true)
        × ((model : ℕ) × (ok (suc 4) ≡ ok model)
            × (promotion.model ≡ (if promotion.promoted then some model else none)))
        × (two_alerts ≡ two_alerts))
maybe_retrain_alerts_example =
    maybe_retrain_alerts columns policy log_notifier (λ d. ok (suc d)) (λ d. ok measured)
      (micro 950_000) losing [] two_alerts promotion retrains-promotion

-- ===== src/Validation/Harness/Holdout.antt =====
-- The verdict of a validation, and what the holdout model has not seen.
use aura_x.Prelude.{
  ℕ, ◌≤◌, ◌≡◌, subst, sym, ◌∙◌, true, Option, some, List, map, nought, length, String, Result, ok,
  raise, >>=-eq-ok, iloc, Float, ◌↔◌, All, ap,
}
use aura_x.Data.Frame.{Pandas}
use aura_x.Validation.Purge.{Label, Numpy}
use aura_x.Validation.Purge.Merge.{WellFormed}
use aura_x.Validation.Splits.{Partition, combinatorial_purged_cv, holdout_split}
use aura_x.Validation.Splits.NoLeak.{Rising}
use aura_x.Validation.Splits.Holdout.{Apart, holdout_split-Apart}
use aura_x.Validation.WalkForward.{walk_forward_split}
use aura_x.Validation.OutOfFold.{Estimator, iloc_weights}
use aura_x.Validation.Scores.{
  Numeric, strategy_returns, sharpe_ratio, sortino_ratio, max_drawdown, turnover, fill_flat,
}
use aura_x.Validation.OutOfFold.NoLeak.{WeightsAt, iloc_weights-WeightsAt, FittedOn}
use aura_x.Validation.Baselines.{Draws}
use aura_x.Lifecycle.Gate.{Metrics, ValidationReport, go_no_go, go_no_go_iff, Clears}
use aura_x.Validation.Harness.{
  ValidationConfig, Events, Report, entries, all_returns, develop, holdout_side, report_of, cut_of,
  run_validation,
}

abbrev report_or {ℓ} : {F : Type ℓ} → Report F → Result (Report F) → Report F
report_or r (ok report) = report
report_or r (raise e) = r

module _ {ℓ κ μ ν} {F : Type ℓ} {X : Type κ} {Y : Type μ} {M : Type ν} ⦃f : Float F⦄
    (est : Estimator F X Y M) (times : Numpy) (ps : Partition) (np : Numeric F) (pd : Pandas F)
    (draws : Draws F) (pstd : List F → F) (format : String → F → String)
    (cfg : ValidationConfig F) where
  -- What the report says of the holdout comes from these sides: their returns, after costs, on the
  -- rows of the holdout.
  abbrev pub Reported : Events F X Y → List ℕ → List F → Report F → Type ℓ
  Reported events hold_pos side report =
      (hold_ret : List F) × (hold_entry : Option (List F)) × (iloc events.ret hold_pos
        ≡ ok hold_ret)
      × WeightsAt (entries events.entry_price events.close) hold_pos hold_entry
      × let returns = strategy_returns side hold_ret hold_entry (some cfg.cost_model) in
        (report.verdict.metrics.holdout_sharpe ≡ sharpe_ratio np returns cfg.periods_per_year)
        × (report.holdout_sortino ≡ sortino_ratio np returns cfg.periods_per_year nought)
        × (report.holdout_max_drawdown ≡ max_drawdown np returns)
        × (report.holdout_turnover ≡ turnover np (map fill_flat side))

  report_of_verdict :
      (events dev : Events F X Y) (hold_pos : List ℕ) (hold_side : List F)
      (paths walks : List (List Label × List F)) (report : Report F)
      → report_of est times ps np pd draws pstd format cfg events dev hold_pos hold_side paths walks
        ≡ ok report
      → Reported events hold_pos hold_side report
        × (m : Metrics F) × (go_no_go format cfg.deflated_sharpe_min m ≡ report.verdict)
  unfolding report_of go_no_go
  report_of_verdict events dev hold_pos hold_side paths walks report e =
      let (ret, returned, e1) = >>=-eq-ok (iloc events.ret hold_pos) _ e in
      let (ep, entered, e2) =
        >>=-eq-ok (iloc_weights (entries events.entry_price events.close) hold_pos) _ e1 in
      let (labels, _, e3) = >>=-eq-ok (iloc events.labels hold_pos) _ e2 in
      let (close, _, e4) = >>=-eq-ok (iloc_weights events.close hold_pos) _ e3 in
      (
        (
          ret,
          ep,
          returned,
          iloc_weights-WeightsAt _ hold_pos ep entered,
          (
            sym (ap (λ r. (report_or report r).verdict.metrics.holdout_sharpe) e4),
            sym (ap (λ r. (report_or report r).holdout_sortino) e4),
            sym (ap (λ r. (report_or report r).holdout_max_drawdown) e4),
            sym (ap (λ r. (report_or report r).holdout_turnover) e4),
          ),
        ),
        _,
        ap (λ r. (report_or report r).verdict) e4,
      )

  -- the holdout's model and its predictions, of the development rows that `develop` makes
  holdout_side-FittedOn :
      (events dev : Events F X Y) (split : List ℕ × List ℕ) (side : List F)
      → develop est times ps np pd draws pstd format cfg events split.0 ≡ ok dev
      → holdout_side est times ps np pd draws pstd format cfg events dev split.1 ≡ ok side
      → FittedOn est events.xs events.ys events.sample_weight split side
  unfolding develop holdout_side
  holdout_side-FittedOn events dev (dev_pos, hold_pos) side developed predicted =
      let (xs, rows, e1) = >>=-eq-ok (iloc events.xs dev_pos) _ developed in
      let (ys, targets, e2) = >>=-eq-ok (iloc events.ys dev_pos) _ e1 in
      let (t1, _, e3) = >>=-eq-ok (iloc events.t1 dev_pos) _ e2 in
      let (ret, _, e4) = >>=-eq-ok (iloc events.ret dev_pos) _ e3 in
      let (labels, _, e5) = >>=-eq-ok (iloc events.labels dev_pos) _ e4 in
      let (w, weighed, e6) = >>=-eq-ok (iloc_weights events.sample_weight dev_pos) _ e5 in
      let (ep, _, e7) =
        >>=-eq-ok (iloc_weights (entries events.entry_price events.close) dev_pos) _ e6 in
      let (model, fitted, h1) = >>=-eq-ok (est.fit dev.xs dev.ys dev.sample_weight) _ predicted in
      let (test_x, tests, h2) = >>=-eq-ok (iloc events.xs hold_pos) _ h1 in
      let dev_of : Result (Events F X Y) → Events F X Y =
        λ r. elim r [ ok d ↦ d | raise e ↦ dev ] in
      let same = ap dev_of e7 in
      (
        xs,
        ys,
        w,
        model,
        test_x,
        rows,
        targets,
        iloc_weights-WeightsAt events.sample_weight dev_pos w weighed,
        ap (λ (d : Events F X Y). est.fit d.xs d.ys d.sample_weight) same ∙ fitted,
        tests,
        h2,
      )

  verdict_iff :
      (m : Metrics F) (v : ValidationReport F)
      → go_no_go format cfg.deflated_sharpe_min m ≡ v
      → (v.passed ≡ true ↔ Clears cfg.deflated_sharpe_min v.metrics)
  unfolding go_no_go
  verdict_iff m v e =
      subst (λ (v : ValidationReport F). v.passed ≡ true ↔ Clears cfg.deflated_sharpe_min v.metrics)
        e (go_no_go_iff format cfg.deflated_sharpe_min m)

  -- Whatever the estimator is: when `run_validation` returns on well-formed labels and an index
  -- without duplicates, with the cut inside it, the holdout is every position from the cut on, and
  -- its sides are the predictions there of an estimator fitted on the rows, targets and weights at
  -- the development positions alone, whose labels overlap no label of the holdout. The holdout's
  -- Sharpe and Sortino ratios, drawdown and turnover in the report are those of these sides and of
  -- the returns of the holdout's rows, and the report passes just when the metrics that it holds meet
  -- the four criteria.
  pub run_validation_unseen :
      (events : Events F X Y) (report : Report F)
      → All WellFormed events.t1
      → Rising 0 events.t1
      → cut_of est times ps np pd draws pstd format cfg (length events.t1) ≤ length events.t1
      → run_validation est times ps np pd draws pstd format cfg events ≡ ok report
      → (split : List ℕ × List ℕ) × (side : List F) × Apart events.t1
          (cut_of est times ps np pd draws pstd format cfg (length events.t1))
          split
        × FittedOn est events.xs events.ys events.sample_weight split side
        × Reported events split.1 side report
        × (report.verdict.passed ≡ true ↔ Clears cfg.deflated_sharpe_min report.verdict.metrics)
  unfolding run_validation
  run_validation_unseen events report wf r inside e =
      let cut = cut_of est times ps np pd draws pstd format cfg (length events.t1) in
      let ((dev_pos, hold_pos), apart, e1) = >>=-eq-ok (holdout_split times events.t1 cut) _ e in
      let (dev, developed, e2) =
        >>=-eq-ok (develop est times ps np pd draws pstd format cfg events dev_pos) _ e1 in
      let (paths, _, e3) =
        >>=-eq-ok
          (combinatorial_purged_cv times ps cfg.cpcv_n_groups cfg.cpcv_n_test_groups cfg.embargo_pct
            dev.t1)
          _ e2 in
      let (path_returns, _, e4) =
        >>=-eq-ok (all_returns est times ps np pd draws pstd format cfg dev _) _ e3 in
      let (walks, _, e5) =
        >>=-eq-ok
          (walk_forward_split times ps cfg.walk_forward_splits cfg.walk_forward_mode cfg.embargo_pct
            dev.t1)
          _ e4 in
      let (walk_returns, _, e6) =
        >>=-eq-ok (all_returns est times ps np pd draws pstd format cfg dev _) _ e5 in
      let (side, predicted, e7) =
        >>=-eq-ok (holdout_side est times ps np pd draws pstd format cfg events dev hold_pos) _
          e6 in
      let (reported, m, verdict) =
        report_of_verdict events dev hold_pos side path_returns walk_returns report e7 in
      (
        (dev_pos, hold_pos),
        side,
        holdout_split-Apart times events.t1 cut (dev_pos, hold_pos) wf r inside apart,
        holdout_side-FittedOn events dev (dev_pos, hold_pos) side developed predicted,
        reported,
        verdict_iff m report.verdict verdict,
      )

-- ===== src/Validation/Harness.antt =====
-- The protocol of src/aurax/validation/harness.py. The estimator is an interface; a frame is the list
-- of its rows, and the columns are lists in the same order. Pandas, numpy and the draws are
-- parameters.
pub mod Holdout
use aura_x.Prelude.{
  ℕ, zero, suc, Bool, not, ◌&&◌, Option, none, some, List, [], ◌∷◌, map, length, select, is_empty,
  concat, String, Result, ok, raise, ◌>>=◌, iloc, Float, ◌⊖◌, ◌⊗◌, nought, unit, if◌then◌else◌,
}
use aura_x.Prelude.Int.{ℤ, pos, pos_part}
use aura_x.Data.Frame.{Frame, Pandas}
use aura_x.Validation.Purge.{Label, Numpy}
use aura_x.Validation.Splits.{Partition, combinatorial_purged_cv, holdout_split}
use aura_x.Validation.WalkForward.{walk_forward_split}
use aura_x.Validation.OutOfFold.{Estimator, iloc_weights, fit_predict}
use aura_x.Validation.Scores.{
  Numeric, CostModel, sharpe_ratio, sortino_ratio, max_drawdown, deflated_sharpe_ratio,
  strategy_returns, turnover, fill_flat,
}
use aura_x.Validation.Baselines.{Draws, baseline_sharpes}
use aura_x.Lifecycle.Gate.{Metrics, ValidationReport, go_no_go}

pub record ValidationConfig {ℓ} (F : Type ℓ) : Type ℓ where
  pub cpcv_n_groups : ℕ
  pub cpcv_n_test_groups : ℕ
  pub embargo_pct : F
  pub walk_forward_splits : ℕ
  pub walk_forward_mode : String
  pub holdout_pct : F
  pub periods_per_year : Option ℕ
  pub deflated_sharpe_min : F
  pub n_trials : ℕ
  pub cost_model : CostModel F

-- the rows that `run_validation` is given, with the optional columns
pub record Events {ℓ κ μ} (F : Type ℓ) (X : Type κ) (Y : Type μ) : Type (ℓ ⊔ κ ⊔ μ) where
  pub xs : List X
  pub ys : List Y
  pub t1 : List Label
  pub ret : List F
  pub labels : List ℤ
  pub close : Option (List F)
  pub entry_price : Option (List F)
  pub sample_weight : Option (List F)

-- `ValidationReport`, beside the verdict with its metrics and reasons
pub record Report {ℓ} (F : Type ℓ) : Type ℓ where
  pub verdict : ValidationReport F
  pub cpcv_sharpe_std : F
  pub cpcv_paths : ℕ
  pub holdout_sortino : F
  pub holdout_max_drawdown : F
  pub holdout_turnover : F
  pub n_trials : ℕ

-- `if len(tr) and len(te)`
abbrev pub both_filled : List ℕ × List ℕ → Bool
both_filled (tr, te) = not (is_empty tr) && not (is_empty te)

-- the entry prices, or else the closes
abbrev pub entries {ℓ} : {A : Type ℓ} → Option A → Option A → Option A
entries none close = close
entries (some prices) close = some prices

module _ {ℓ κ μ ν} {F : Type ℓ} {X : Type κ} {Y : Type μ} {M : Type ν} ⦃f : Float F⦄
    (est : Estimator F X Y M) (times : Numpy) (ps : Partition) (np : Numeric F) (pd : Pandas F)
    (draws : Draws F) (pstd : List F → F) (format : String → F → String)
    (cfg : ValidationConfig F) where
  -- `_fold_returns`, with the test positions' labels
  unfoldable pub fold_returns : Events F X Y → List ℕ × List ℕ → Result (List Label × List F)
  fold_returns dev (tr, te) = do
    side ← fit_predict est dev.xs dev.ys dev.sample_weight (tr, te)
    ret ← iloc dev.ret te
    ep ← iloc_weights dev.entry_price te
    rows ← iloc dev.t1 te
    ok (rows, strategy_returns side ret ep (some cfg.cost_model))

  -- over the folds
  unfoldable pub all_returns :
      Events F X Y → List (List ℕ × List ℕ) → Result (List (List Label × List F))
  all_returns dev [] = ok []
  all_returns dev (fold ∷ folds) = do
    here ← fold_returns dev fold
    rest ← all_returns dev folds
    ok (here ∷ rest)

  -- the development rows of the events
  unfoldable pub develop : Events F X Y → List ℕ → Result (Events F X Y)
  develop events dev_pos = do
    xs ← iloc events.xs dev_pos
    ys ← iloc events.ys dev_pos
    t1 ← iloc events.t1 dev_pos
    ret ← iloc events.ret dev_pos
    labels ← iloc events.labels dev_pos
    w ← iloc_weights events.sample_weight dev_pos
    ep ← iloc_weights (entries events.entry_price events.close) dev_pos
    ok (record {
      xs = xs;
      ys = ys;
      t1 = t1;
      ret = ret;
      labels = labels;
      close = none;
      entry_price = ep;
      sample_weight = w;
    })

  -- returns by the instants of their rows
  abbrev pub indexed : List Label → List F → Frame F
  indexed [] r = []
  indexed (row ∷ rows) [] = []
  indexed (row ∷ rows) (x ∷ r) = (row.0, x) ∷ indexed rows r

  -- the Sharpe ratios of the paths that are finite
  abbrev pub finite_of : Option ℕ → List (List Label × List F) → List F
  finite_of ppy paths =
      select f.is_finite (map (λ (p : List Label × List F). sharpe_ratio np p.1 ppy) paths)

  -- `float(g(finite)) if finite else otherwise`
  abbrev pub unless_empty : (List F → F) → F → List F → F
  unless_empty g otherwise [] = otherwise
  unless_empty g otherwise (x ∷ xs) = g (x ∷ xs)

  -- the predictions on the holdout of an estimator that is fitted on the development rows
  unfoldable pub holdout_side : Events F X Y → Events F X Y → List ℕ → Result (List F)
  holdout_side events dev hold_pos = do
    model ← est.fit dev.xs dev.ys dev.sample_weight
    test_x ← iloc events.xs hold_pos
    est.predict model test_x

  -- what the six steps measure, and the report
  unfoldable pub report_of :
      Events F X Y
      → Events F X Y
      → List ℕ
      → List F
      → List (List Label × List F)
      → List (List Label × List F)
      → Result (Report F)
  report_of events dev hold_pos hold_side paths walks = do
    hold_ret ← iloc events.ret hold_pos
    ep_hold ← iloc_weights (entries events.entry_price events.close) hold_pos
    hold_labels ← iloc events.labels hold_pos
    close_hold ← iloc_weights events.close hold_pos
    let ppy = cfg.periods_per_year
    let hold_r = strategy_returns hold_side hold_ret ep_hold (some cfg.cost_model)
    let wf = pd.sort_index (concat (map (λ (p : List Label × List F). indexed p.0 p.1) walks))
    let verdict = go_no_go format cfg.deflated_sharpe_min (record {
      cpcv_sharpe_mean = unless_empty np.mean f.nan (finite_of ppy paths);
      walk_forward_sharpe = sharpe_ratio np (map (λ (p : ℕ × F). p.1) wf) ppy;
      holdout_sharpe = sharpe_ratio np hold_r ppy;
      baselines =
          baseline_sharpes np draws hold_labels hold_ret close_hold (some cfg.cost_model) ppy;
      deflated_sharpe =
          deflated_sharpe_ratio np (sharpe_ratio np hold_r none) (length hold_r) cfg.n_trials
            (unless_empty pstd nought (finite_of none paths)) nought (f.lit 3 0);
    })
    ok (record {
      verdict = verdict;
      cpcv_sharpe_std = unless_empty pstd f.nan (finite_of ppy paths);
      cpcv_paths = length paths;
      holdout_sortino = sortino_ratio np hold_r ppy nought;
      holdout_max_drawdown = max_drawdown np hold_r;
      holdout_turnover = turnover np (map fill_flat hold_side);
      n_trials = cfg.n_trials;
    })

  -- `int(n * (1.0 - holdout_pct))`, for a fraction that is at most 1
  abbrev pub cut_of : ℕ → ℕ
  cut_of n = pos_part (f.floor (f.of_int (pos n) ⊗ (unit ⊖ cfg.holdout_pct)))

  unfoldable pub run_validation : Events F X Y → Result (Report F)
  run_validation events = do
    (dev_pos, hold_pos) ← holdout_split times events.t1 (cut_of (length events.t1))
    dev ← develop events dev_pos
    paths ←
        combinatorial_purged_cv times ps cfg.cpcv_n_groups cfg.cpcv_n_test_groups cfg.embargo_pct
          dev.t1
    path_returns ← all_returns dev (select both_filled paths)
    walks ←
        walk_forward_split times ps cfg.walk_forward_splits cfg.walk_forward_mode cfg.embargo_pct
          dev.t1
    walk_returns ← all_returns dev (select both_filled walks)
    hold_side ← holdout_side events dev hold_pos
    report_of events dev hold_pos hold_side path_returns walk_returns

-- ===== src/Meta/Model.antt =====
-- src/aurax/l5_meta/meta_model.py, the model around a base learner. The learner is an interface, as
-- the factory that makes it is an argument of the code.
pub mod Threshold
use aura_x.Prelude.{
  ℕ, zero, suc, ◌==◌, Bool, not, ◌&&◌, ltb, Option, none, some, List, [], ◌∷◌, ◌++◌, map, length,
  replicate, select, count, String, Result, ok, raise, ◌>>=◌, iloc, set_all, concat, Float, nought,
  if◌then◌else◌,
}
use aura_x.Validation.Purge.{Label, Numpy}
use aura_x.Validation.Splits.{Partition, arange, purged_k_fold}
use aura_x.Validation.OutOfFold.{iloc_weights, fill}
use aura_x.Validation.Scores.{Numeric, CostModel, sharpe_ratio, strategy_returns}
use aura_x.Meta.Calibration.{Arrays, Calibrator, make_calibrator, fit_calibrator, calibrate}

pub record MetaConfig {ℓ} (F : Type ℓ) : Type ℓ where
  pub base : String
  pub calibration : Option String
  pub threshold_tau : F
  pub cv_folds : ℕ

-- A base learner on rows of type `X`: what it is once fitted, and its probability of class 1.
pub record Learner {ℓ κ μ} (F : Type ℓ) (X : Type κ) (M : Type μ) : Type (ℓ ⊔ κ ⊔ μ) where
  pub fit : List X → List F → Option (List F) → Result M
  pub proba1 : M → X → F

-- what a fitted `MetaLabelModel` keeps
pub record MetaLabelModel {ℓ κ} (F : Type ℓ) (M : Type κ) : Type (ℓ ⊔ κ) where
  pub threshold : F
  pub calibrator : Calibrator F
  pub base : M

-- the folds but one, in order
abbrev pub others : ℕ → List (List ℕ) → List ℕ
others i [] = []
others zero (fold ∷ folds) = concat folds
others (suc i) (fold ∷ folds) = fold ++ others i folds

-- a contiguous fold and its complement, for each of the folds from the i-th on
abbrev pub contiguous : ℕ → List (List ℕ) → List (List ℕ) → List (List ℕ × List ℕ)
contiguous i folds [] = []
contiguous i folds (test ∷ rest) = (others i folds, test) ∷ contiguous (suc i) folds rest

module _ {ℓ} {F : Type ℓ} ⦃f : Float F⦄ where
  -- `xs[mask]` for `mask = ~np.isnan(oof)`
  abbrev pub masked {κ} : {A : Type κ} → List F → List A → List A
  masked [] xs = []
  masked (v ∷ oof) [] = []
  masked (v ∷ oof) (x ∷ xs) = let rest = masked oof xs in if f.eq v v then x ∷ rest else rest

  abbrev pub masked_weights : List F → Option (List F) → Option (List F)
  masked_weights oof none = none
  masked_weights oof (some w) = some (masked oof w)

module _ {ℓ κ μ} {F : Type ℓ} {X : Type κ} {M : Type μ} ⦃f : Float F⦄ (np : Arrays F)
    (times : Numpy) (ps : Partition) (learner : Learner F X M) where
  -- `_splits`; the embargo of `PurgedKFold` is its default
  unfoldable pub splits :
      MetaConfig F → List X → Option (List Label) → Result (List (List ℕ × List ℕ))
  splits cfg xs (some t1) = purged_k_fold times ps cfg.cv_folds (f.lit 1 2) t1
  splits cfg xs none =
      let folds = ps.array_split (length xs) cfg.cv_folds in ok (contiguous 0 folds folds)

  -- one fold: a learner fitted on the train rows, and its probabilities at the test rows
  unfoldable pub fold_probas : List X → List F → Option (List F) → List ℕ × List ℕ → Result (List F)
  fold_probas xs y sample_weight (tr, te) = do
    w ← iloc_weights sample_weight tr
    train_x ← iloc xs tr
    train_y ← iloc y tr
    base ← learner.fit train_x train_y w
    test_x ← iloc xs te
    ok (map (learner.proba1 base) test_x)

  unfoldable pub fit :
      MetaConfig F
      → F
      → List X
      → List F
      → Option (List F)
      → Option (List Label)
      → Result (MetaLabelModel F M)
  fit cfg threshold xs y sample_weight t1 = do
    folds ← splits cfg xs t1
    oof ← fill (fold_probas xs y sample_weight) folds (replicate (length xs) f.nan)
    method ← make_calibrator cfg.calibration
    calibrator ←
        fit_calibrator np method (masked oof oof) (masked oof y) (masked_weights oof sample_weight)
    base ← learner.fit xs y sample_weight
    ok (record { threshold = threshold; calibrator = calibrator; base = base })

  -- the calibrated probability that the primary's signal is right
  unfoldable pub p_correct : MetaLabelModel F M → X → Result F
  p_correct model x = calibrate np model.calibrator (learner.proba1 model.base x)

  -- `gate`, at a row
  unfoldable pub passes : MetaLabelModel F M → Option F → X → Result Bool
  passes model tau x =
      p_correct model x >>= (λ p. ok (f.le (elim tau [ none ↦ model.threshold | some t ↦ t ]) p))

module _ {ℓ} {F : Type ℓ} ⦃f : Float F⦄ where
  -- the column where it is taken, flat elsewhere
  abbrev pub gated : F → List F → List F → List F
  gated tau [] side = []
  gated tau (p ∷ probs) [] = []
  gated tau (p ∷ probs) (s ∷ side) = (if f.le tau p then s else nought) ∷ gated tau probs side

  -- `labels[take]`
  abbrev pub taken : F → List F → List F → List F
  taken tau [] labels = []
  taken tau (p ∷ probs) [] = []
  taken tau (p ∷ probs) (l ∷ labels) =
      let rest = taken tau probs labels in if f.le tau p then l ∷ rest else rest

  -- whether the loop considers a threshold: enough trades, and a finite objective
  abbrev pub eligible : List F → (F → F) → ℕ → F → Bool
  eligible probs obj min_trades tau =
      not (ltb (count (f.le tau) probs) min_trades) && f.is_finite (obj tau)

  -- the loop over the grid, with the best threshold and objective so far
  abbrev pub search : List F → (F → F) → ℕ → List F → F → F → F × F
  search probs obj min_trades [] best_tau best_obj = (best_tau, best_obj)
  search probs obj min_trades (tau ∷ grid) best_tau best_obj =
      let better = eligible probs obj min_trades tau && f.lt best_obj (obj tau) in
      search probs obj min_trades grid (if better then tau else best_tau)
        (if better then obj tau else best_obj)

module _ {ℓ} {F : Type ℓ} ⦃f : Float F⦄ (np : Numeric F) where
  -- the objective at a threshold: of the gated trades' returns, or else the precision
  abbrev pub objective :
      List F → List F → Option (List F) → Option (List F) → Option (CostModel F) → F → F
  objective probs labels (some ret) (some side) cost_model tau =
      sharpe_ratio np (strategy_returns (gated tau probs side) ret none cost_model) none
  objective probs labels none side cost_model tau = np.mean (taken tau probs labels)
  objective probs labels (some ret) none cost_model tau = np.mean (taken tau probs labels)

  -- the threshold that `tune_threshold` stores and returns, on a grid that is given
  pub tune_threshold :
      MetaConfig F
      → List F
      → List F
      → Option (List F)
      → Option (List F)
      → Option (CostModel F)
      → List F
      → ℕ
      → F
  tune_threshold cfg probs labels ret side cost_model grid min_trades =
      (search probs (objective probs labels ret side cost_model) min_trades grid cfg.threshold_tau
        f.neg_inf).0

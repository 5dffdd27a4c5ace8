-- ===== src/Meta/Training.antt =====
-- `train_meta_labeler` of src/aurax/l5_meta/pipeline.py, on the steps of the gated primary.
use aura_x.Prelude.{
  Bool, Option, some, List, [], ◌∷◌, ◌++◌, map, any, Result, ok, ◌>>=◌, Float, nought, unit,
  if◌then◌else◌,
}
use aura_x.Prelude.Int.{ℤ}
use aura_x.Primary.{Proba}
use aura_x.Validation.Purge.{Numpy}
use aura_x.Validation.Splits.{Partition}
use aura_x.Validation.Scores.{Numeric, CostModel}
use aura_x.Meta.Calibration.{Arrays}
use aura_x.Meta.Model
use aura_x.Meta.Model.{MetaLabelModel, Learner, p_correct, tune_threshold}
use aura_x.Meta.Gated.{
  acts, for_each, where_set, where_weights, meta_labels_from_sides, meta_features, recent_winrate,
  PrimaryModel, GatedSetup, oof_primary,
}

-- what is returned of the training
pub record Diagnostics {ℓ κ} (F : Type ℓ) (M : Type κ) : Type (ℓ ⊔ κ) where
  pub meta_model : MetaLabelModel F M
  pub meta_features : List (List F)
  pub meta_labels : List F
  pub oof_side : List ℤ
  pub tau : F
  pub precision_raw : F
  pub precision_gated : F
  pub trade_rate_raw : F
  pub trade_rate_gated : F

module _ {ℓ κ μ ν} {F : Type ℓ} {X : Type κ} {P : Type μ} {M : Type ν} ⦃f : Float F⦄ (np : Arrays F)
    (num : Numeric F) (row_max : List F → F) (times : Numpy) (ps : Partition)
    (learner : Learner F (List F) M) (primary : PrimaryModel F X P) (setup : GatedSetup F X) where
  abbrev pub indicator : Bool → F
  indicator b = if b then unit else nought

  -- the features with the recent win rate, from the meta-labels of the rows before, the last first
  abbrev pub features_from : List F → List X → List (ℤ × Proba F) → List F → List (List F)
  features_from before [] oof meta_y = []
  features_from before (x ∷ xs) [] meta_y = []
  features_from before (x ∷ xs) (r ∷ oof) [] = []
  features_from before (x ∷ xs) ((s, p) ∷ oof) (m ∷ meta_y) =
      (meta_features row_max setup.regimes setup.context x p s
        ++ (recent_winrate num.mean 20 before ∷ []))
      ∷ features_from (m ∷ before) xs oof meta_y

  -- the acted rows that are taken, among all rows
  abbrev pub taken_rows : List Bool → List Bool → List Bool
  taken_rows [] taken = []
  taken_rows (Bool.false ∷ acted) taken = Bool.false ∷ taken_rows acted taken
  taken_rows (Bool.true ∷ acted) [] = Bool.false ∷ taken_rows acted []
  taken_rows (Bool.true ∷ acted) (t ∷ taken) = t ∷ taken_rows acted taken

  abbrev pub precision_of : List Bool → List F → F
  precision_of taken labels =
      if any (λ t. t) taken then num.mean (where_set taken labels) else f.nan

  -- `grid` is the one that `tune_threshold` has by default
  pub train_meta_labeler :
      List F
      → List X
      → List ℤ
      → Option (List F)
      → Option (List F)
      → Option (CostModel F)
      → Bool
      → Result (Diagnostics F M)
  train_meta_labeler grid xs y sample_weight ret cost_model tune = do
    oof ← oof_primary np row_max times ps learner primary setup xs y sample_weight
    let sides = map (λ (r : ℤ × Proba F). r.0) oof
    let acted = map acts sides
    let meta_y : List F = meta_labels_from_sides sides y
    let feats = features_from [] xs oof meta_y
    meta ←
        Model.fit np times ps learner setup.config setup.config.threshold_tau
          (where_set acted feats) (where_set acted meta_y) (where_weights acted sample_weight)
          (some (where_set acted (map setup.label_of xs)))
    probs ← for_each (p_correct np times ps learner meta) (where_set acted feats)
    let tuned =
        tune_threshold num setup.config probs (where_set acted meta_y) (where_weights acted ret)
          (some (map f.of_int (where_set acted sides))) cost_model grid 20
    let tau = if tune then tuned else meta.threshold
    let taken = map (f.le tau) probs
    ok (record {
      meta_model = record meta { threshold = tau };
      meta_features = feats;
      meta_labels = meta_y;
      oof_side = sides;
      tau = tau;
      precision_raw = num.mean (where_set acted meta_y);
      precision_gated = precision_of taken (where_set acted meta_y);
      trade_rate_raw = num.mean (map indicator acted);
      trade_rate_gated = num.mean (map indicator (taken_rows acted taken));
    })

-- ===== src/Meta/Logistic.antt =====
-- `LogisticMeta` of src/aurax/l5_meta/meta_model.py, the base learner that the model has by default.
-- numpy's passes over a matrix of rows are parameters.
use aura_x.Prelude.{
  ℕ, zero, suc, Option, none, some, List, [], ◌∷◌, map, length, replicate, zip_with, ok, Float, ◌⊕◌,
  ◌⊖◌, ◌⊗◌, ◌⊘◌, nought, unit, fmax, fmin,
}
use aura_x.Meta.Model.{Learner}

-- `nan_to_num`, `mean(axis=0)`, `std(axis=0)`, `row @ coef`, `design.T @ v`, `exp` and `sum`
pub record Matrices {ℓ} (F : Type ℓ) : Type ℓ where
  pub nan_to_num : F → F
  pub column_means : List (List F) → List F
  pub column_stds : List (List F) → List F
  pub dot : List F → List F → F
  pub transposed : List (List F) → List F → List F
  pub exp : F → F
  pub sum : List F → F

-- the settings, and what `fit` keeps
pub record LogisticConfig {ℓ} (F : Type ℓ) : Type ℓ where
  pub l2 : F
  pub lr : F
  pub n_iter : ℕ

pub record Logistic {ℓ} (F : Type ℓ) : Type ℓ where
  pub mean : List F
  pub std : List F
  pub coef : List F

module _ {ℓ} {F : Type ℓ} ⦃f : Float F⦄ (np : Matrices F) where
  -- a row of `_design`
  abbrev pub design_row : List F → List F → List F → List F
  design_row mean std x = unit ∷ zip_with ◌⊘◌ (zip_with ◌⊖◌ (map np.nan_to_num x) mean) std

  -- `1.0 / (1.0 + np.exp(-np.clip(z, -30, 30)))`
  abbrev pub logistic : F → F
  logistic z =
      let clipped = fmin (fmax z (nought ⊖ f.lit 30 0)) (f.lit 30 0) in
      unit ⊘ (unit ⊕ np.exp (nought ⊖ clipped))

  -- `coef * reg`, which spares the bias
  abbrev pub regularised : List F → List F
  regularised [] = []
  regularised (bias ∷ coef) = (bias ⊗ nought) ∷ map (λ c. c ⊗ unit) coef

  -- the iterations that are left
  abbrev pub descend : LogisticConfig F → ℕ → List (List F) → List F → List F → List F → List F
  descend cfg zero design target w coef = coef
  descend cfg (suc n) design target w coef =
      let p = map (λ row. logistic (np.dot row coef)) design in
      let grad =
        zip_with ◌⊕◌ (np.transposed design (zip_with ◌⊗◌ (zip_with ◌⊖◌ p target) w))
          (map (λ c. cfg.l2 ⊗ c) (regularised coef)) in
      descend cfg n design target w (zip_with ◌⊖◌ coef (map (λ g. cfg.lr ⊗ g) grad))

  -- `np.clip(sample_weight, 0, None)`, or ones
  abbrev pub clipped_weights : ℕ → Option (List F) → List F
  clipped_weights n none = replicate n unit
  clipped_weights n (some w) = map (λ x. fmax x nought) w

  pub logistic_fit : LogisticConfig F → ℕ → List (List F) → List F → Option (List F) → Logistic F
  logistic_fit cfg width xs y sample_weight =
      let xv = map (map np.nan_to_num) xs in
      let mean = np.column_means xv in
      let std = map (λ s. s ⊕ f.lit 1 9) (np.column_stds xv) in
      let clipped = clipped_weights (length y) sample_weight in
      let w = map (λ x. x ⊘ np.sum clipped) clipped in
      record {
        mean = mean;
        std = std;
        coef =
            descend cfg cfg.n_iter (map (design_row mean std) xs) y w
              (replicate (suc width) nought);
      }

  pub logistic_proba : Logistic F → List F → F
  logistic_proba model x = logistic (np.dot (design_row model.mean model.std x) model.coef)

  -- `_default_meta_base`, a learner on rows of `width` features
  pub default_meta_base : ℕ → Learner F (List F) (Logistic F)
  default_meta_base width = record {
    fit = λ xs y w.
        ok (logistic_fit (record { l2 = f.lit 1 2; lr = f.lit 3 1; n_iter = 500 }) width xs y w);
    proba1 = logistic_proba;
  }

-- ===== src/Validation/OutOfFold.antt =====
-- Out-of-fold predictions: the loop of `oof_predict` in src/aurax/validation/harness.py, which
-- l5_meta/meta_model.py and l5_meta/pipeline.py repeat. An estimator is an interface.
pub mod NoLeak
use aura_x.Prelude.{
  ℕ, ◌==◌, not, Option, none, some, List, [], ◌∷◌, length, replicate, Result, ok, raise, Error,
  ◌>>=◌, ◌>>◌, raise_if, iloc, set_all, Float,
}
use aura_x.Validation.Purge.{Label, Numpy}
use aura_x.Validation.Splits.{Partition, purged_k_fold}

-- `xs.iloc[ps]` where there are weights
abbrev pub iloc_weights {ℓ} : {W : Type ℓ} → Option (List W) → List ℕ → Result (Option (List W))
iloc_weights none ps = ok none
iloc_weights (some w) ps = iloc w ps >>= (λ rows. ok (some rows))

-- Each fold's values written at its test positions; pandas raises when they are not as many.
unfoldable pub fill {ℓ} :
    {B : Type ℓ}
    → (List ℕ × List ℕ → Result (List B))
    → List (List ℕ × List ℕ)
    → List B
    → Result (List B)
fill g [] out = ok out
fill g ((tr, te) ∷ folds) out = do
  values ← g (tr, te)
  raise_if (not (length values == length te)) Error.value_error
  fill g folds (set_all out te values)

-- An estimator on rows `X` with targets `Y`: what it is once fitted, and its predictions.
pub record Estimator {ℓ κ μ ν} (F : Type ℓ) (X : Type κ) (Y : Type μ) (M : Type ν)
    : Type (ℓ ⊔ κ ⊔ μ ⊔ ν) where
  pub fit : List X → List Y → Option (List F) → Result M
  pub predict : M → List X → Result (List F)

module _ {ℓ κ μ ν} {F : Type ℓ} {X : Type κ} {Y : Type μ} {M : Type ν} ⦃f : Float F⦄
    (est : Estimator F X Y M) where
  -- fitted on the train rows, predicted at the test rows
  unfoldable pub fit_predict : List X → List Y → Option (List F) → List ℕ × List ℕ → Result (List F)
  fit_predict xs ys sample_weight (tr, te) = do
    w ← iloc_weights sample_weight tr
    train_x ← iloc xs tr
    train_y ← iloc ys tr
    model ← est.fit train_x train_y w
    test_x ← iloc xs te
    est.predict model test_x

  -- `oof_predict` with a `PurgedKFold`
  unfoldable pub oof_predict :
      Numpy → Partition → ℕ → F → List X → List Y → List Label → Option (List F) → Result (List F)
  oof_predict np ps n_splits embargo_pct xs ys t1 sample_weight = do
    folds ← purged_k_fold np ps n_splits embargo_pct t1
    fill (fit_predict xs ys sample_weight) folds (replicate (length xs) f.nan)

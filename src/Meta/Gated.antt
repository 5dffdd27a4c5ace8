-- ===== src/Meta/Gated.antt =====
-- src/aurax/l5_meta/features.py and pipeline.py: the features of the model, the labels it learns
-- from, and the primary behind its gate. A row of the frames is of a type `X`; the columns of
-- context, the regime and the label of a row are functions of it, as the code looks them up by the
-- row's index. The primary is an interface, as its factory is an argument of the code.
pub mod Safety
pub mod NoLeak
use aura_x.Prelude.{
  ℕ, zero, suc, ◌*◌, ◌/◌, ltb, leb, Bool, true, false, not, ◌&&◌, Option, none, some, List, [], ◌∷◌,
  ◌++◌, map, length, count, select, take, replicate, max, String, Result, ok, raise, Error, ◌>>=◌,
  iloc, Float, ◌⊖◌, nought, unit, if◌then◌else◌,
}
use aura_x.Prelude.Tests.{str_eq}
use aura_x.Prelude.Int.{ℤ, pos, leb_ℤ}
use aura_x.Market.{Regime, regime_value}
use aura_x.Primary.{Proba}
use aura_x.Validation.Purge.{Label, Numpy}
use aura_x.Validation.Splits.{Partition, purged_k_fold}
use aura_x.Validation.OutOfFold.{iloc_weights, fill}
use aura_x.Meta.Calibration.{Arrays}
use aura_x.Meta.Model.{MetaConfig, MetaLabelModel, Learner}
use aura_x.Meta.Model

abbrev pub eq_ℤ : ℤ → ℤ → Bool
eq_ℤ a b = leb_ℤ a b && leb_ℤ b a

-- `side != 0`
abbrev pub acts : ℤ → Bool
acts s = not (eq_ℤ s (pos 0))

-- `meta_labels_from_sides`, of a row
abbrev pub is_right : ℤ → ℤ → Bool
is_right s d = acts s && eq_ℤ s d

abbrev pub for_each {ℓ κ} : {A : Type ℓ} {B : Type κ} → (A → Result B) → List A → Result (List B)
for_each g [] = ok []
for_each g (x ∷ xs) = g x >>= (λ y. for_each g xs >>= (λ ys. ok (y ∷ ys)))

-- `astype(int)` of a column, which raises at NaN
abbrev pub all_present {ℓ} : {A : Type ℓ} → List (Option A) → Result (List A)
all_present [] = ok []
all_present (none ∷ xs) = raise Error.value_error
all_present (some x ∷ xs) = all_present xs >>= (λ rest. ok (x ∷ rest))

-- the rows where a mask is set
abbrev pub where_set {ℓ} : {A : Type ℓ} → List Bool → List A → List A
where_set [] xs = []
where_set (b ∷ mask) [] = []
where_set (b ∷ mask) (x ∷ xs) = let rest = where_set mask xs in if b then x ∷ rest else rest

abbrev pub where_weights {ℓ} : {W : Type ℓ} → List Bool → Option (List W) → Option (List W)
where_weights mask none = none
where_weights mask (some w) = some (where_set mask w)

module _ {ℓ} {F : Type ℓ} ⦃f : Float F⦄ where
  -- `meta_labels_from_sides`
  unfoldable pub meta_labels_from_sides : List ℤ → List ℤ → List F
  meta_labels_from_sides [] y = []
  meta_labels_from_sides (s ∷ side) [] = []
  meta_labels_from_sides (s ∷ side) (d ∷ y) =
      (if is_right s d then unit else nought) ∷ meta_labels_from_sides side y

  abbrev pub regime_dummies : Option String → List F
  regime_dummies none = nought ∷ nought ∷ nought ∷ []
  regime_dummies (some text) =
      map (λ r. if str_eq text (regime_value r) then unit else nought)
        (Regime.trend ∷ Regime.range ∷ Regime.shock ∷ [])

  -- the columns of the regime, where regimes are given
  abbrev pub regime_columns {κ} : {X : Type κ} → Option (X → Option String) → X → List F
  regime_columns none x = []
  regime_columns (some regime_of) x = regime_dummies (regime_of x)

  -- `replace([inf, -inf], nan)`
  abbrev pub finite_or_nan : F → F
  finite_or_nan x = if f.is_finite x then x else f.nan

  -- A row of `build_meta_features` without the recent win rate; `row_max` is pandas' `max(axis=1)`.
  unfoldable pub meta_features {κ} :
      {X : Type κ}
      → (List F → F)
      → Option (X → Option String)
      → (X → List F)
      → X
      → Proba F
      → ℤ
      → List F
  meta_features row_max regimes context x p side = map finite_or_nan (
      (f.abs (p.p_up ⊖ p.p_down)
        ∷ row_max (p.p_down ∷ p.p_flat ∷ p.p_up ∷ [])
        ∷ p.p_up
        ∷ p.p_down
        ∷ f.of_int side
        ∷ [])
      ++ (regime_columns regimes x ++ context x))

  -- The recent win rate at a row, of the meta-labels before it, the last one first; `mean` is
  -- numpy's.
  pub recent_winrate : (List F → F) → ℕ → List F → F
  recent_winrate mean recent_window before =
      let recent = take recent_window before in
      if ltb (length recent) (max 3 (recent_window / 4)) then f.lit 5 1 else mean recent

-- The primary on rows `X`: what it is once fitted, and a row's side and probabilities under a regime.
pub record PrimaryModel {ℓ κ μ} (F : Type ℓ) (X : Type κ) (P : Type μ) : Type (ℓ ⊔ κ ⊔ μ) where
  pub fit : List X → List ℤ → Option (List F) → Result P
  pub predict_side : P → Option String → X → Result ℤ
  pub predict_proba : P → Option String → X → Result (Proba F)

-- what `MetaGatedPrimary` is made with
pub record GatedSetup {ℓ κ} (F : Type ℓ) (X : Type κ) : Type (ℓ ⊔ κ) where
  pub label_of : X → Label
  pub regimes : Option (X → Option String)
  pub context : X → List F
  pub config : MetaConfig F

-- `primary_`, and `meta_` where `_fitted`
pub record Gated {ℓ κ μ} (F : Type ℓ) (P : Type κ) (M : Type μ) : Type (ℓ ⊔ κ ⊔ μ) where
  pub primary : P
  pub meta : Option (MetaLabelModel F M)

abbrev pub regime_at {ℓ} : {X : Type ℓ} → Option (X → Option String) → X → Option String
regime_at none x = none
regime_at (some regime_of) x = regime_of x

module _ {ℓ κ μ ν} {F : Type ℓ} {X : Type κ} {P : Type μ} {M : Type ν} ⦃f : Float F⦄ (np : Arrays F)
    (row_max : List F → F) (times : Numpy) (ps : Partition) (learner : Learner F (List F) M)
    (primary : PrimaryModel F X P) (setup : GatedSetup F X) where
  -- a row's side and probabilities, of a fitted primary
  abbrev pub signal : P → X → Result (ℤ × Proba F)
  signal model x =
      let regime = regime_at setup.regimes x in
      primary.predict_proba model regime x
      >>= (λ p. primary.predict_side model regime x >>= (λ s. ok (s, p)))

  -- one fold of `_oof_primary`
  unfoldable pub oof_fold :
      List X → List ℤ → Option (List F) → List ℕ × List ℕ → Result (List (Option (ℤ × Proba F)))
  oof_fold xs y sample_weight (tr, te) = do
    w ← iloc_weights sample_weight tr
    train_x ← iloc xs tr
    train_y ← iloc y tr
    model ← primary.fit train_x train_y w
    test_x ← iloc xs te
    signals ← for_each (signal model) test_x
    ok (map some signals)

  -- `_oof_primary`, then the sides as integers
  unfoldable pub oof_primary : List X → List ℤ → Option (List F) → Result (List (ℤ × Proba F))
  oof_primary xs y sample_weight = do
    folds ← purged_k_fold times ps setup.config.cv_folds (f.lit 1 2) (map setup.label_of xs)
    oof ← fill (oof_fold xs y sample_weight) folds (replicate (length xs) none)
    all_present oof

  -- the features of the rows
  abbrev pub features : List X → List (ℤ × Proba F) → List (List F)
  features [] oof = []
  features (x ∷ xs) [] = []
  features (x ∷ xs) ((s, p) ∷ oof) =
      meta_features row_max setup.regimes setup.context x p s ∷ features xs oof

  -- the meta-model on the rows where the primary acts
  unfoldable pub fit_meta :
      List X → List ℤ → Option (List F) → List (ℤ × Proba F) → Result (MetaLabelModel F M)
  fit_meta xs y sample_weight oof =
      let sides = map (λ (r : ℤ × Proba F). r.0) oof in
      let acted = map acts sides in
      Model.fit np times ps learner setup.config setup.config.threshold_tau
        (where_set acted (features xs oof)) (where_set acted (meta_labels_from_sides sides y))
        (where_weights acted sample_weight) (some (where_set acted (map setup.label_of xs)))

  -- whether there are enough bets to learn from
  abbrev pub enough_bets : List (ℤ × Proba F) → Bool
  enough_bets oof = leb (setup.config.cv_folds * 2) (count (λ (r : ℤ × Proba F). acts r.0) oof)

  -- `MetaGatedPrimary.fit`
  unfoldable pub fit : List X → List ℤ → Option (List F) → Result (Gated F P M)
  fit xs y sample_weight = do
    oof ← oof_primary xs y sample_weight
    meta ←
        (if enough_bets oof
          then fit_meta xs y sample_weight oof >>= (λ m. ok (some m))
          else ok none)
    fitted ← primary.fit xs y sample_weight
    ok (record { primary = fitted; meta = meta })

  -- the primary's side at a row, or flat where the meta-model rejects it
  abbrev pub gate : P → Option (MetaLabelModel F M) → X → ℤ → Result ℤ
  gate model none x side = ok side
  gate model (some meta) x side =
      primary.predict_proba model (regime_at setup.regimes x) x >>= (λ p.
        Model.passes np times ps learner meta (some meta.threshold)
          (meta_features row_max setup.regimes setup.context x p side)
        >>= (λ passed. ok (if passed then side else pos 0)))

  -- `MetaGatedPrimary.predict`, of a row
  unfoldable pub predict : Gated F P M → X → Result ℤ
  predict gated x =
      primary.predict_side gated.primary (regime_at setup.regimes x) x
      >>= gate gated.primary gated.meta x

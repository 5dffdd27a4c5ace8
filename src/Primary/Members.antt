-- ===== src/Primary/Members.antt =====
-- src/aurax/l3_primary/members.py and the fit of ensemble.py. The members that wrap a library are an
-- interface; the logistic one is written out.
use aura_x.Prelude.{
  ℕ, zero, suc, Bool, true, false, ◌++◌, Option, List, [], ◌∷◌, map, length, any, select, replicate,
  zip_with, String, Result, ok, raise, Error, ◌>>=◌, Float, ◌⊕◌, ◌⊖◌, ◌⊗◌, ◌⊘◌, nought, unit,
  if◌then◌else◌,
}
use aura_x.Prelude.Tests.{str_eq}
use aura_x.Prelude.Int.{ℤ, pos, negsuc}
use aura_x.Prelude.Dict.{Dict, insert, keys, member}
use aura_x.Primary.{Proba, PrimaryConfig, encode_labels, align_row}
use aura_x.Meta.Gated.{eq_ℤ}
use aura_x.Meta.Logistic.{Matrices, design_row, clipped_weights}

-- the members of `MEMBER_REGISTRY`
pub data MemberKind : Type 0 where
  logistic lightgbm catboost cnn patchtst ssm : MemberKind

-- `build_member`, up to the parameters of the member
unfoldable pub build_member : String → Result MemberKind
build_member name =
    if str_eq name "logistic"
    then ok MemberKind.logistic
    else if str_eq name "lightgbm"
    then ok MemberKind.lightgbm
    else if str_eq name "catboost"
    then ok MemberKind.catboost
    else if str_eq name "cnn"
    then ok MemberKind.cnn
    else if str_eq name "patchtst"
    then ok MemberKind.patchtst
    else if str_eq name "ssm"
    then ok MemberKind.ssm
    else raise Error.key_error

-- `available_backends`, from what `find_spec` finds
unfoldable pub available_backends : (String → Bool) → List String
available_backends find_spec =
    ("logistic" ∷ [])
    ++ ((if find_spec "lightgbm" then "lightgbm" ∷ [] else [])
        ++ ((if find_spec "catboost" then "catboost" ∷ [] else [])
            ++ (if find_spec "torch" then "cnn" ∷ "patchtst" ∷ "ssm" ∷ [] else [])))

-- `set(names).issubset(backends)`
abbrev pub is_subset : List String → List String → Bool
is_subset [] backends = true
is_subset (n ∷ names) backends =
    let rest = is_subset names backends in if member n backends then rest else false

module _ {ℓ} {F : Type ℓ} ⦃f : Float F⦄ where
  -- `PrimaryConfig.lightweight` and `PrimaryConfig.from_available`, of a configuration that is read
  abbrev pub lightweight : PrimaryConfig F
  lightweight = record {
    members = ("logistic", unit) ∷ [];
    regime_overrides = [];
    flat_threshold = f.lit 15 2;
  }

  unfoldable pub from_available : (String → Bool) → PrimaryConfig F → PrimaryConfig F
  from_available find_spec cfg =
      if is_subset (keys cfg.members) (available_backends find_spec) then cfg else lightweight

-- a member of the registry, fitted
pub record SideModels {ℓ} (X W M : Type ℓ) : Type ℓ where
  pub fit : MemberKind → List X → List ℤ → Option (List W) → Result M

module _ {ℓ} {X W M : Type ℓ} (side : SideModels X W M) where
  -- `PrimarySignalModel.fit`: the fitted members by their names
  unfoldable pub fit_members :
      List String → List X → List ℤ → Option (List W) → Dict M → Result (Dict M)
  fit_members [] xs y w members = ok members
  fit_members (name ∷ names) xs y w members = build_member name >>= (λ kind.
      side.fit kind xs y w >>= (λ fitted. fit_members names xs y w (insert name fitted members)))

-- the settings of `LogisticSide`, and what its `fit` keeps
pub record LogisticSideConfig {ℓ} (F : Type ℓ) : Type ℓ where
  pub l2 : F
  pub lr : F
  pub n_iter : ℕ

pub record LogisticSide {ℓ} (F : Type ℓ) : Type ℓ where
  pub mean : List F
  pub std : List F
  pub classes : List ℤ
  pub weights : List (List F)

-- `sorted(set(labels))`, of labels that are -1, 0 or 1
abbrev pub classes_of : List ℤ → List ℤ
classes_of labels = select (λ c. any (λ l. eq_ℤ c l) labels) (negsuc 0 ∷ pos 0 ∷ pos 1 ∷ [])

module _ {ℓ} {F : Type ℓ} ⦃f : Float F⦄ where
  -- a row of `target`
  abbrev pub one_hot : List ℤ → ℤ → List F
  one_hot classes label = map (λ c. if eq_ℤ c label then unit else nought) classes

  -- the columns of the errors, one for each class that is left
  abbrev pub heads_of : List (List F) → List F
  heads_of [] = []
  heads_of ([] ∷ rows) = heads_of rows
  heads_of ((x ∷ row) ∷ rows) = x ∷ heads_of rows

  abbrev pub tails_of : List (List F) → List (List F)
  tails_of [] = []
  tails_of ([] ∷ rows) = [] ∷ tails_of rows
  tails_of ((x ∷ row) ∷ rows) = row ∷ tails_of rows

  abbrev pub weigh_rows : List (List F) → List (List F) → List F → List (List F)
  weigh_rows [] target w = []
  weigh_rows (p ∷ proba) [] w = []
  weigh_rows (p ∷ proba) (t ∷ target) [] = []
  weigh_rows (p ∷ proba) (t ∷ target) (v ∷ w) =
      map (λ d. d ⊗ v) (zip_with f.sub p t) ∷ weigh_rows proba target w

module _ {ℓ} {F : Type ℓ} where
  -- the classes with their probabilities
  abbrev pub beside : List ℤ → List F → List (ℤ × F)
  beside [] ps = []
  beside (c ∷ classes) [] = []
  beside (c ∷ classes) (p ∷ ps) = (c, p) ∷ beside classes ps

module _ {ℓ} {F : Type ℓ} ⦃f : Float F⦄ (np : Matrices F) (row_max : List F → F) where
  -- a row of `softmax`
  unfoldable pub softmax : List F → List F
  softmax z =
      let top = row_max z in let e = map (λ v. np.exp (v ⊖ top)) z in map (λ v. v ⊘ np.sum e) e

  -- a step of the weights of each class, from the columns of the errors
  abbrev pub step_weights :
      LogisticSideConfig F → List (List F) → List F → List (List F) → List (List F) → List (List F)
  step_weights cfg design mask [] errors = []
  step_weights cfg design mask (row ∷ weights) errors =
      let grad =
        zip_with f.add (np.transposed design (heads_of errors))
          (zip_with f.mul (map (λ v. cfg.l2 ⊗ v) row) mask) in
      zip_with f.sub row (map (λ g. cfg.lr ⊗ g) grad)
      ∷ step_weights cfg design mask weights (tails_of errors)

  -- the rounds of gradient descent that are left
  unfoldable pub side_descend :
      LogisticSideConfig F
      → ℕ
      → List (List F)
      → List (List F)
      → List F
      → List F
      → List (List F)
      → List (List F)
  side_descend cfg zero design target w mask weights = weights
  side_descend cfg (suc n) design target w mask weights =
      let proba = map (λ x. softmax (map (np.dot x) weights)) design in
      side_descend cfg n design target w mask
        (step_weights cfg design mask weights (weigh_rows proba target w))

  -- `LogisticSide.fit`, of rows of `width` features
  unfoldable pub side_fit :
      LogisticSideConfig F → ℕ → List (List F) → List ℤ → Option (List F) → Result (LogisticSide F)
  side_fit cfg width xs y sample_weight =
      let xv = map (map np.nan_to_num) xs in
      let mean = np.column_means xv in
      let std = map (λ s. s ⊕ f.lit 1 9) (np.column_stds xv) in
      let design = map (design_row np mean std) xs in
      encode_labels y >>= (λ labels.
        let classes = classes_of labels in
        let clipped = clipped_weights np (length xs) sample_weight in
        let w = map (λ v. v ⊘ np.sum clipped) clipped in
        ok (record {
          mean = mean;
          std = std;
          classes = classes;
          weights =
              side_descend cfg cfg.n_iter design (map (one_hot classes) labels) w
                (nought ∷ replicate width unit)
                (replicate (length classes) (replicate (suc width) nought));
        }))

  -- a row of `LogisticSide.predict_proba`
  unfoldable pub side_proba : LogisticSide F → List F → Result (Proba F)
  side_proba m x =
      let proba = softmax (map (np.dot (design_row np m.mean m.std x)) m.weights) in
      align_row (beside m.classes proba)
        (record { p_down = nought; p_flat = nought; p_up = nought })

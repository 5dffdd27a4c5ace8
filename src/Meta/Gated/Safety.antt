-- ===== src/Meta/Gated/Safety.antt =====
-- What the gate lets through, and when there is one.
use aura_x.Prelude.{
  ◌*◌, ◌≤◌, ◌<◌, ◌≡◌, refl, sym, ap, ◌∙◌, subst, Bool, true, false, Option, none, some, List, [],
  ◌∷◌, count, map, unit, nought, Result, ok, ◌>>=◌, >>=-eq-ok, Float, ◌⊎◌, inl, inr, if◌then◌else◌,
  arith, Bool-cases,
}
use aura_x.Prelude.Int.{ℤ, pos}
use aura_x.Primary.{Proba}
use aura_x.Validation.Purge.{Numpy}
use aura_x.Validation.Splits.{Partition}
use aura_x.Meta.Calibration.{Arrays}
use aura_x.Meta.Model
use aura_x.Meta.Model.{MetaLabelModel, Learner, p_correct, passes}
use aura_x.Meta.Gated.{
  acts, eq_ℤ, where_set, where_weights, meta_labels_from_sides, features, meta_features,
  PrimaryModel, GatedSetup, Gated, regime_at, oof_primary, fit_meta, enough_bets, fit, gate,
  predict,
}

-- what is kept when a test lets a step be taken
kept_when {ℓ} :
    {A : Type ℓ} (test : Bool) (step : Result A) (kept : Option A)
    → (if test then step >>= (λ a. ok (some a)) else ok none) ≡ ok kept
    → ((test ≡ false) × (kept ≡ none)) ⊎ ((test ≡ true) × (a : A) × (step ≡ ok a) × (kept ≡ some a))
kept_when false step kept e = inl (refl, ground arith)
kept_when true step kept e =
    let (a, made, e1) = >>=-eq-ok step _ e in inr (refl, a, made, ground arith)

module _ {ℓ κ} {F : Type ℓ} {A : Type κ} where
  -- the elements beside the signals that are bets, with those signals
  abbrev pub bets_of : List A → List (ℤ × Proba F) → List (A × ℤ × Proba F)
  bets_of [] oof = []
  bets_of (x ∷ xs) [] = []
  bets_of (x ∷ xs) ((s, p) ∷ oof) =
      let rest = bets_of xs oof in if eq_ℤ s (pos 0) then rest else (x, s, p) ∷ rest

  -- a mask on a column keeps what stands beside the bets
  where_set-bets_of :
      (xs : List A) (oof : List (ℤ × Proba F))
      → where_set (map acts (map (λ (r : ℤ × Proba F). r.0) oof)) xs
        ≡ map (λ (r : A × ℤ × Proba F). r.0) (bets_of xs oof)
  where_set-bets_of [] [] = refl
  where_set-bets_of [] (r ∷ oof) = refl
  where_set-bets_of (x ∷ xs) [] = refl
  where_set-bets_of (x ∷ xs) (r ∷ oof) = elim (Bool-cases (eq_ℤ r.0 (pos 0))) [
    | inr e ↦ rw e (ap (◌∷◌ x) (where_set-bets_of xs oof))
    | inl e ↦ rw e (where_set-bets_of xs oof)
  ]

-- the weights of the bets, where weights are given
abbrev pub bet_weights {ℓ} : {F : Type ℓ} → Option (List F) → List (ℤ × Proba F) → Option (List F)
bet_weights none oof = none
bet_weights (some w) oof = some (map (λ (r : _ × ℤ × Proba _). r.0) (bets_of w oof))

module _ {ℓ} {F : Type ℓ} ⦃f : Float F⦄ where
  -- the target of a bet: whether its side was the outcome
  abbrev pub target_of : ℤ × ℤ × Proba F → F
  target_of (outcome, side, p) = if eq_ℤ side outcome then unit else nought

  labels-bets_of :
      (y : List ℤ) (oof : List (ℤ × Proba F))
      → where_set
          (map acts (map (λ (r : ℤ × Proba F). r.0) oof))
          (meta_labels_from_sides (map (λ (r : ℤ × Proba F). r.0) oof) y)
        ≡ map target_of (bets_of y oof)
  unfolding meta_labels_from_sides
  labels-bets_of [] [] = refl
  labels-bets_of [] (r ∷ oof) = refl
  labels-bets_of (d ∷ y) [] = refl
  labels-bets_of (d ∷ y) (r ∷ oof) = elim (Bool-cases (eq_ℤ r.0 (pos 0))) [
    | inr e ↦ rw e (ap (◌∷◌ (target_of (d, r.0, r.1))) (labels-bets_of y oof))
    | inl e ↦ rw e (labels-bets_of y oof)
  ]

module _ {ℓ κ μ ν} {F : Type ℓ} {X : Type κ} {P : Type μ} {M : Type ν} ⦃f : Float F⦄ (np : Arrays F)
    (row_max : List F → F) (times : Numpy) (ps : Partition) (learner : Learner F (List F) M)
    (primary : PrimaryModel F X P) (setup : GatedSetup F X) where
  -- the side that the primary gives to a row
  abbrev pub primary_side : P → X → Result ℤ
  primary_side model x = primary.predict_side model (regime_at setup.regimes x) x

  -- The model puts the row's probability at its threshold or above, on the features of this side.
  abbrev pub Trusted : P → MetaLabelModel F M → X → ℤ → Type ℓ
  Trusted model meta x s =
      (p : Proba F) × (prob : F) × (primary.predict_proba model (regime_at setup.regimes x) x
        ≡ ok p)
      × (p_correct np times ps learner meta
            (meta_features row_max setup.regimes setup.context x p s)
          ≡ ok prob)
      × (f.le meta.threshold prob ≡ true)

  gate-Trusted :
      (model : P) (fitted : Option (MetaLabelModel F M)) (x : X) (s side : ℤ)
      → gate np row_max times ps learner primary setup model fitted x side ≡ ok s
      → ((fitted ≡ none) × (side ≡ s))
        ⊎ ((meta : MetaLabelModel F M) × (fitted ≡ some meta)
            × ((s ≡ pos 0) ⊎ ((side ≡ s) × Trusted model meta x side)))
  unfolding passes
  gate-Trusted model none x s side e = inl (refl, ground arith)
  gate-Trusted model (some meta) x s side e =
      let (p, proba, e1) =
        >>=-eq-ok (primary.predict_proba model (regime_at setup.regimes x) x) _ e in
      let (passed, at_tau, e2) =
        >>=-eq-ok (passes np times ps learner meta (some meta.threshold) _) _ e1 in
      let (prob, correct, e3) = >>=-eq-ok (p_correct np times ps learner meta _) _ at_tau in
      inr (
        meta,
        refl,
        elim (Bool-cases (f.le meta.threshold prob)) [
          | inl trusts ↦ inr (ground arith, (p, prob, proba, correct, trusts))
          | inr doubts ↦ inl (ground arith)
        ],
      )

  -- A side that the gated primary predicts is flat, or it is the primary's own side; and then, where
  -- a meta-model has been fitted, that model's calibrated probability that the side is right is at
  -- its threshold or above. Without a meta-model it is always the primary's own side.
  pub predict-Trusted :
      (gated : Gated F P M) (x : X) (s : ℤ)
      → predict np row_max times ps learner primary setup gated x ≡ ok s
      → ((gated.meta ≡ none) × (primary_side gated.primary x ≡ ok s))
        ⊎ ((meta : MetaLabelModel F M) × (gated.meta ≡ some meta)
            × ((s ≡ pos 0)
                ⊎ ((primary_side gated.primary x ≡ ok s) × Trusted gated.primary meta x s)))
  unfolding predict
  predict-Trusted gated x s e =
      let (side, predicted, e1) = >>=-eq-ok (primary_side gated.primary x) _ e in
      elim (gate-Trusted gated.primary gated.meta x s side e1) [
        | inl (without, same) ↦ inl (without, predicted ∙ ap ok same)
        | inr (meta, fitted, inl flat) ↦ inr (meta, fitted, inl flat)
        | inr (meta, fitted, inr (same, trusted)) ↦ inr (
          meta,
          fitted,
          inr (predicted ∙ ap ok same, subst (Trusted gated.primary meta x) same trusted),
        )
      ]

  features-bets_of :
      (xs : List X) (oof : List (ℤ × Proba F))
      → where_set
          (map acts (map (λ (r : ℤ × Proba F). r.0) oof))
          (features np row_max times ps learner primary setup xs oof)
        ≡ map
            (λ (r : X × ℤ × Proba F). meta_features row_max setup.regimes setup.context r.0 r.2 r.1)
            (bets_of xs oof)
  features-bets_of [] [] = refl
  features-bets_of [] (r ∷ oof) = refl
  features-bets_of (x ∷ xs) [] = refl
  features-bets_of (x ∷ xs) (r ∷ oof) = elim (Bool-cases (eq_ℤ r.0 (pos 0))) [
    | inr e ↦ rw e (
        ap (◌∷◌ (meta_features row_max setup.regimes setup.context x r.1 r.0))
          (features-bets_of xs oof))
    | inl e ↦ rw e (features-bets_of xs oof)
  ]

  weights-bets_of :
      (w : Option (List F)) (oof : List (ℤ × Proba F))
      → where_weights (map acts (map (λ (r : ℤ × Proba F). r.0) oof)) w ≡ bet_weights w oof
  weights-bets_of none oof = refl
  weights-bets_of (some w) oof = ap some (where_set-bets_of w oof)

  spans-bets_of :
      (xs : List X) (oof : List (ℤ × Proba F))
      → where_set (map acts (map (λ (r : ℤ × Proba F). r.0) oof)) (map setup.label_of xs)
        ≡ map (λ (r : X × ℤ × Proba F). setup.label_of r.0) (bets_of xs oof)
  spans-bets_of [] [] = refl
  spans-bets_of [] (r ∷ oof) = refl
  spans-bets_of (x ∷ xs) [] = refl
  spans-bets_of (x ∷ xs) (r ∷ oof) = elim (Bool-cases (eq_ℤ r.0 (pos 0))) [
    | inr e ↦ rw e (ap (◌∷◌ (setup.label_of x)) (spans-bets_of xs oof))
    | inl e ↦ rw e (spans-bets_of xs oof)
  ]

  -- the model that the bets alone fit: their features, whether each side was the outcome, their
  -- weights and their labels
  abbrev pub FittedOnBets :
      List X → List ℤ → Option (List F) → List (ℤ × Proba F) → MetaLabelModel F M → Type (ℓ ⊔ ν)
  FittedOnBets xs y w oof meta =
      Model.fit np times ps learner setup.config setup.config.threshold_tau
        (map
          (λ (r : X × ℤ × Proba F). meta_features row_max setup.regimes setup.context r.0 r.2 r.1)
          (bets_of xs oof))
        (map target_of (bets_of y oof)) (bet_weights w oof)
        (some (map (λ (r : X × ℤ × Proba F). setup.label_of r.0) (bets_of xs oof)))
      ≡ ok meta

  fit_meta-FittedOnBets :
      (xs : List X) (y : List ℤ) (w : Option (List F)) (oof : List (ℤ × Proba F))
      (meta : MetaLabelModel F M)
      → fit_meta np row_max times ps learner primary setup xs y w oof ≡ ok meta
      → FittedOnBets xs y w oof meta
  unfolding fit_meta
  fit_meta-FittedOnBets xs y w oof meta e =
      rw
        (
          sym (features-bets_of xs oof),
          sym (labels-bets_of y oof),
          sym (weights-bets_of w oof),
          sym (spans-bets_of xs oof),
        )
        e

  -- When `fit` returns, it has made the primary's out-of-fold signals, and it keeps a meta-model just
  -- when at least twice `cv_folds` of their sides are bets. That model is fitted on the bets alone:
  -- on the features of their rows, on whether each side was the outcome, and on the weights and the
  -- label spans of these rows.
  pub fit_enough :
      (xs : List X) (y : List ℤ) (sample_weight : Option (List F)) (gated : Gated F P M)
      → fit np row_max times ps learner primary setup xs y sample_weight ≡ ok gated
      → (oof : List (ℤ × Proba F)) × (oof_primary np row_max times ps learner primary setup xs y
            sample_weight
          ≡ ok oof)
        × (((gated.meta ≡ none)
              × (count (λ (r : ℤ × Proba F). acts r.0) oof < setup.config.cv_folds * 2))
            ⊎ ((meta : MetaLabelModel F M) × (gated.meta ≡ some meta)
                × (setup.config.cv_folds * 2 ≤ count (λ (r : ℤ × Proba F). acts r.0) oof)
                × FittedOnBets xs y sample_weight oof meta))
  unfolding fit
  fit_enough xs y w gated e =
      let (oof, signals, e1) =
        >>=-eq-ok (oof_primary np row_max times ps learner primary setup xs y w) _ e in
      let (kept, chosen, e2) =
        >>=-eq-ok
          (if enough_bets np row_max times ps learner primary setup oof
            then fit_meta np row_max times ps learner primary setup xs y w oof
              >>= (λ m. ok (some m))
            else ok none)
          _ e1 in
      let (fitted, refit, e3) = >>=-eq-ok (primary.fit xs y w) _ e2 in
      let keeps : kept ≡ gated.meta = ground arith in
      (
        oof,
        signals,
        elim (kept_when _ _ kept chosen) [
          | inl (few, nothing) ↦ inl (sym keeps ∙ nothing, ground arith)
          | inr (enough, m, made, something) ↦
              inr (m, sym keeps ∙ something, ground arith, fit_meta-FittedOnBets xs y w oof m made)
        ],
      )

-- ===== src/Validation/OutOfFold/NoLeak.antt =====
-- Where the out-of-fold values come from: no sample is predicted by a model that has seen it, or a
-- label that overlaps one of its fold.
use aura_x.Prelude.{
  ℕ, zero, suc, ◌≡◌, refl, sym, subst, ◌==◌, false, not, Option, none, some, List, [], ◌∷◌, length,
  get_elem?, any, All, replicate, iloc, Result, ok, Error, >>=-eq-ok, raise_if, set_at, set_all,
  Float, ◌⊎◌, inl, inr, arith,
}
use aura_x.Validation.Purge.{Label, Numpy}
use aura_x.Validation.Purge.Merge.{WellFormed}
use aura_x.Validation.Splits.{Partition, embargo_bars, purged_k_fold}
use aura_x.Validation.Splits.NoLeak.{Rising}
use aura_x.Validation.Splits.Blind.{Blind, purged_k_fold-Blind}
use aura_x.Validation.OutOfFold.{iloc_weights, fill, Estimator, fit_predict, oof_predict}

module _ {ℓ} {B : Type ℓ} where
  -- The value that a fold writes at a position: the position and the value stand at the same place
  -- of the test positions and of the fold's values.
  abbrev pub Writes : List ℕ → List B → ℕ → B → Type ℓ
  Writes te values i v = (k : ℕ) × (get_elem? te k ≡ some i) × (get_elem? values k ≡ some v)

  set_at_source :
      (xs : List B) (p : ℕ) (a : B) (i : ℕ) (v : B)
      → get_elem? (set_at xs p a) i ≡ some v
      → (((i == p) ≡ false) × (get_elem? xs i ≡ some v)) ⊎ ((some p ≡ some i) × (some a ≡ some v))
  set_at_source [] p a i v h = absurd cc
  set_at_source (x ∷ xs) zero a zero v h = inr (refl, h)
  set_at_source (x ∷ xs) zero a (suc i) v h = inl (ground arith, h)
  set_at_source (x ∷ xs) (suc p) a zero v h = inl (ground arith, h)
  set_at_source (x ∷ xs) (suc p) a (suc i) v h = elim (set_at_source xs p a i v h) [
    | inl (ne, at) ↦ inl (ground arith, at)
    | inr (same, value) ↦ inr (ground arith, value)
  ]

  set_all_source :
      (xs : List B) (te : List ℕ) (values : List B) (i : ℕ) (v : B)
      → length values ≡ length te
      → get_elem? (set_all xs te values) i ≡ some v
      → ((any (λ p. i == p) te ≡ false) × (get_elem? xs i ≡ some v)) ⊎ Writes te values i v
  set_all_source xs [] values i v len h = inl (refl, h)
  set_all_source xs (p ∷ te) [] i v len h = absurd (omega (arith, len))
  set_all_source xs (p ∷ te) (a ∷ values) i v len h =
      elim (set_all_source (set_at xs p a) te values i v (omega (arith, len)) h) [
        | inr (k, at, value) ↦ inr (suc k, at, value)
        | inl (later, kept) ↦ elim (set_at_source xs p a i v kept) [
          | inl (ne, at) ↦ inl (ground arith, at)
          | inr (same, value) ↦ inr (0, same, value)
        ]
      ]

  -- a value of the result is one that no fold has written over, or one that a fold has written
  abbrev pub Source {κ} :
      (List ℕ × List ℕ → Type κ)
      → (List ℕ × List ℕ → Result (List B))
      → List (List ℕ × List ℕ)
      → List B
      → ℕ
      → B
      → Type (ℓ ⊔ κ)
  Source P g folds xs i v =
      (All (λ fold. any (λ p. i == p) fold.1 ≡ false) folds × (get_elem? xs i ≡ some v))
      ⊎ ((fold : List ℕ × List ℕ) × P fold
          × (values : List B) × (g fold ≡ ok values)
          × Writes fold.1 values i v)

  pub fill_source {κ} :
      (P : List ℕ × List ℕ → Type κ) (g : List ℕ × List ℕ → Result (List B))
      (folds : List (List ℕ × List ℕ)) (xs out : List B) (i : ℕ) (v : B)
      → All P folds
      → fill g folds xs ≡ ok out
      → get_elem? out i ≡ some v
      → Source P g folds xs i v
  unfolding fill
  fill_source P g [] xs out i v all e h =
      let same : xs ≡ out = ground arith in
      inl (tt, subst (λ o. get_elem? o i ≡ some v) (sym same) h)
  fill_source P g ((tr, te) ∷ folds) xs out i v (p, all) e h =
      let (values, made, e1) = >>=-eq-ok (g (tr, te)) _ e in
      let (done, as_many, e2) =
        >>=-eq-ok (raise_if (not (length values == length te)) Error.value_error) _ e1 in
      elim (fill_source P g folds (set_all xs te values) out i v all e2 h) [
        | inr later ↦ inr later
        | inl (untested, kept) ↦ elim (set_all_source xs te values i v (ground arith) kept) [
          | inl (not_here, at) ↦ inl ((not_here, untested), at)
          | inr writes ↦ inr ((tr, te), p, values, made, writes)
        ]
      ]

pub get_elem?-replicate {ℓ} :
    {B : Type ℓ} (n i : ℕ) (a v : B) → get_elem? (replicate n a) i ≡ some v → some a ≡ some v
get_elem?-replicate zero i a v h = absurd cc
get_elem?-replicate (suc n) zero a v h = h
get_elem?-replicate (suc n) (suc i) a v h = get_elem?-replicate n i a v h

-- the weights of the rows at some positions, where weights are given
abbrev pub WeightsAt {ℓ} : {W : Type ℓ} → Option (List W) → List ℕ → Option (List W) → Type ℓ
WeightsAt none ps got = got ≡ none
WeightsAt (some w) ps got = (rows : List _) × (iloc w ps ≡ ok rows) × (got ≡ some rows)

pub iloc_weights-WeightsAt {ℓ} :
    {W : Type ℓ} (w : Option (List W)) (ps : List ℕ) (got : Option (List W))
    → iloc_weights w ps ≡ ok got
    → WeightsAt w ps got
iloc_weights-WeightsAt none ps got e = ground arith
iloc_weights-WeightsAt (some w) ps got e =
    let (rows, found, e1) = >>=-eq-ok (iloc w ps) _ e in (rows, found, ground arith)

module _ {ℓ κ μ ν} {F : Type ℓ} {X : Type κ} {Y : Type μ} {M : Type ν}
    (est : Estimator F X Y M) where
  -- The values are the predictions at the fold's test rows of an estimator that is fitted on its
  -- train rows, their targets and their weights.
  abbrev pub FittedOn :
      List X → List Y → Option (List F) → List ℕ × List ℕ → List F → Type (ℓ ⊔ κ ⊔ μ ⊔ ν)
  FittedOn xs ys w (tr, te) values =
      (train_x : List X) × (train_y : List Y) × (train_w : Option (List F)) × (model : M)
      × (test_x : List X) × (iloc xs tr ≡ ok train_x)
      × (iloc ys tr ≡ ok train_y)
      × WeightsAt w tr train_w
      × (est.fit train_x train_y train_w ≡ ok model)
      × (iloc xs te ≡ ok test_x)
      × (est.predict model test_x ≡ ok values)

module _ {ℓ κ μ ν} {F : Type ℓ} {X : Type κ} {Y : Type μ} {M : Type ν} ⦃f : Float F⦄
    (est : Estimator F X Y M) (np : Numpy) (ps : Partition) where
  fit_predict-FittedOn :
      (xs : List X) (ys : List Y) (w : Option (List F)) (fold : List ℕ × List ℕ) (values : List F)
      → fit_predict est xs ys w fold ≡ ok values
      → FittedOn est xs ys w fold values
  unfolding fit_predict
  fit_predict-FittedOn xs ys w (tr, te) values e =
      let (train_w, weighed, e1) = >>=-eq-ok (iloc_weights w tr) _ e in
      let (train_x, rows, e2) = >>=-eq-ok (iloc xs tr) _ e1 in
      let (train_y, targets, e3) = >>=-eq-ok (iloc ys tr) _ e2 in
      let (model, fitted, e4) = >>=-eq-ok (est.fit train_x train_y train_w) _ e3 in
      let (test_x, tests, e5) = >>=-eq-ok (iloc xs te) _ e4 in
      (
        train_x,
        train_y,
        train_w,
        model,
        test_x,
        rows,
        targets,
        iloc_weights-WeightsAt w tr train_w weighed,
        fitted,
        tests,
        e5,
      )

  -- On well-formed labels and an index without duplicates, an out-of-fold prediction that
  -- `oof_predict` returns is NaN at a sample that no fold tests, or else stems from a fold that tests
  -- the sample: it is the prediction at the sample of an estimator fitted on the rows, targets and
  -- weights at the fold's train positions alone, whose labels overlap none of the fold's test labels
  -- and lie in none of their embargoes.
  pub oof_predict-Blind :
      (n_splits : ℕ) (embargo_pct : F) (xs : List X) (ys : List Y) (t1 : List Label)
      (sample_weight : Option (List F)) (out : List F) (i : ℕ) (v : F)
      → All WellFormed t1
      → Rising 0 t1
      → oof_predict est np ps n_splits embargo_pct xs ys t1 sample_weight ≡ ok out
      → get_elem? out i ≡ some v
      → (folds : List (List ℕ × List ℕ)) × (purged_k_fold np ps n_splits embargo_pct t1 ≡ ok folds)
        × ((All (λ fold. any (λ p. i == p) fold.1 ≡ false) folds × (some f.nan ≡ some v))
            ⊎ ((fold : List ℕ × List ℕ) × Blind t1 (embargo_bars np ps (length t1) embargo_pct) fold
                × (values : List F) × FittedOn est xs ys sample_weight fold values
                × Writes fold.1 values i v))
  unfolding oof_predict
  oof_predict-Blind n_splits embargo_pct xs ys t1 w out i v wf r e h =
      let (folds, made, e1) = >>=-eq-ok (purged_k_fold np ps n_splits embargo_pct t1) _ e in
      let blind = purged_k_fold-Blind np ps n_splits embargo_pct t1 folds wf r made in
      elim (fill_source (Blind t1 (embargo_bars np ps (length t1) embargo_pct))
        (fit_predict est xs ys w) folds _ out i v blind e1 h) [
          | inl (untested, at) ↦
              (folds, made, inl (untested, get_elem?-replicate (length xs) i f.nan v at))
          | inr (fold, b, values, predicted, writes) ↦ (
            folds,
            made,
            inr (fold, b, values, fit_predict-FittedOn xs ys w fold values predicted, writes),
          )
        ]

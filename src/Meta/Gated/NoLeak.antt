-- ===== src/Meta/Gated/NoLeak.antt =====
-- The meta-model learns from signals of primaries that have not seen what they judge.
use aura_x.Prelude.{
  ℕ, zero, suc, ◌≡◌, sym, ap, subst, Option, none, some, List, [], ◌∷◌, length, map, get_elem?, All,
  replicate, ok, raise, Result, Error, or_raise, iloc, any, ◌==◌, true, refl, ◌∙◌, >>=-eq-ok, Float,
  inl, inr, arith,
}
use aura_x.Prelude.Int.{ℤ}
use aura_x.Primary.{Proba}
use aura_x.Validation.Purge.{Numpy}
use aura_x.Validation.Purge.Merge.{WellFormed}
use aura_x.Validation.Splits.{Partition, embargo_bars, purged_k_fold}
use aura_x.Validation.Splits.NoLeak.{Rising}
use aura_x.Validation.Splits.Blind.{Blind, purged_k_fold-Blind}
use aura_x.Validation.OutOfFold.{fill, iloc_weights}
use aura_x.Validation.OutOfFold.NoLeak.{
  Writes, fill_source, get_elem?-replicate, WeightsAt, iloc_weights-WeightsAt,
}
use aura_x.Meta.Calibration.{Arrays}
use aura_x.Meta.Model.{Learner}
use aura_x.Meta.Gated.{
  all_present, for_each, PrimaryModel, GatedSetup, regime_at, signal, oof_fold, oof_primary,
}

all_present_get {ℓ} :
    {A : Type ℓ} (xs : List (Option A)) (out : List A) (i : ℕ) (v : A)
    → all_present xs ≡ ok out
    → get_elem? out i ≡ some v
    → get_elem? xs i ≡ some (some v)
all_present_get [] out i v e h = let same : [] ≡ out = cc in absurd (ground (arith, same, h))
all_present_get (none ∷ xs) out i v e h = absurd cc
all_present_get (some x ∷ xs) out zero v e h =
    let (rest, later, e1) = >>=-eq-ok (all_present xs) _ e in
    let same : x ∷ rest ≡ out = ground arith in
    ap some (subst (λ o. get_elem? o 0 ≡ some v) (sym same) h)
all_present_get (some x ∷ xs) out (suc i) v e h =
    let (rest, later, e1) = >>=-eq-ok (all_present xs) _ e in
    let same : x ∷ rest ≡ out = ground arith in
    all_present_get xs rest i v later (subst (λ o. get_elem? o (suc i) ≡ some v) (sym same) h)

abbrev signal_or {ℓ} : {A : Type ℓ} → A → Result A → A
signal_or a (ok b) = b
signal_or a (raise e) = a

found_value {ℓ} :
    {A : Type ℓ} (o : Option A) (a : A) → or_raise o Error.index_error ≡ ok a → o ≡ some a
found_value none a e = absurd cc
found_value (some b) a e = ground arith

tested {ℓ} :
    {B : Type ℓ} (te : List ℕ) (values : List B) (i : ℕ) (v : B)
    → Writes te values i v
    → any (λ p. i == p) te ≡ true
tested [] values i v (k, at, value) = absurd cc
tested (p ∷ te) values i v (zero, at, value) = ground arith
tested (p ∷ te) [] i v (suc k, at, value) = absurd cc
tested (p ∷ te) (a ∷ values) i v (suc k, at, value) =
    let later = tested te values i v (k, at, value) in ground arith

-- a row of a selection is the row at the position that stands at its place
get_elem?-iloc {ℓ} :
    {A : Type ℓ} (xs : List A) (ps : List ℕ) (rows : List A) (k i : ℕ) (x : A)
    → iloc xs ps ≡ ok rows
    → get_elem? ps k ≡ some i
    → get_elem? rows k ≡ some x
    → get_elem? xs i ≡ some x
get_elem?-iloc xs [] rows k i x e at row = absurd cc
get_elem?-iloc xs (p ∷ ps) rows zero i x e at row =
    let (here, found, e1) = >>=-eq-ok (or_raise (get_elem? xs p) Error.index_error) _ e in
    let (rest, later, e2) = >>=-eq-ok (iloc xs ps) _ e1 in
    let same : here ∷ rest ≡ rows = ground arith in
    let first : get_elem? (here ∷ rest) 0 ≡ some x =
      subst (λ o. get_elem? o 0 ≡ some x) (sym same) row in
    subst (λ j. get_elem? xs j ≡ some x) (ground (arith, at))
      (found_value (get_elem? xs p) here found ∙ first)
get_elem?-iloc xs (p ∷ ps) rows (suc k) i x e at row =
    let (here, found, e1) = >>=-eq-ok (or_raise (get_elem? xs p) Error.index_error) _ e in
    let (rest, later, e2) = >>=-eq-ok (iloc xs ps) _ e1 in
    let same : here ∷ rest ≡ rows = ground arith in
    get_elem?-iloc xs ps rest k i x later at
      (subst (λ o. get_elem? o (suc k) ≡ some x) (sym same) row)

-- a value of a pass over a list is made from the element at its place
for_each_get {ℓ κ} :
    {A : Type ℓ} {B : Type κ} (g : A → Result B) (xs : List A) (out : List B) (k : ℕ) (v : B)
    → for_each g xs ≡ ok out
    → get_elem? (map some out) k ≡ some (some v)
    → (x : A) × (get_elem? xs k ≡ some x) × (g x ≡ ok v)
for_each_get g [] out k v e h =
    let same : [] ≡ out = cc in
    absurd (ground (arith, subst (λ o. get_elem? (map some o) k ≡ some (some v)) (sym same) h))
for_each_get g (x ∷ xs) out zero v e h =
    let (y, made, e1) = >>=-eq-ok (g x) _ e in
    let (ys, later, e2) = >>=-eq-ok (for_each g xs) _ e1 in
    let same : y ∷ ys ≡ out = ground arith in
    let first : get_elem? (map some (y ∷ ys)) 0 ≡ some (some v) =
      subst (λ o. get_elem? (map some o) 0 ≡ some (some v)) (sym same) h in
    let is : y ≡ v = ground arith in (x, refl, made ∙ ap ok is)
for_each_get g (x ∷ xs) out (suc k) v e h =
    let (y, made, e1) = >>=-eq-ok (g x) _ e in
    let (ys, later, e2) = >>=-eq-ok (for_each g xs) _ e1 in
    let same : y ∷ ys ≡ out = ground arith in
    for_each_get g xs ys k v later
      (subst (λ o. get_elem? (map some o) (suc k) ≡ some (some v)) (sym same) h)

module _ {ℓ κ μ ν} {F : Type ℓ} {X : Type κ} {P : Type μ} {M : Type ν} ⦃f : Float F⦄ (np : Arrays F)
    (row_max : List F → F) (times : Numpy) (ps : Partition) (learner : Learner F (List F) M)
    (primary : PrimaryModel F X P) (setup : GatedSetup F X) where
  -- The signal of the sample at `i` comes from a primary that is fitted on the rows, the outcomes and
  -- the weights at these positions: its side and its probabilities for the sample's row.
  abbrev pub SignalOf :
      List X → List ℤ → Option (List F) → List ℕ → ℕ → ℤ × Proba F → Type (ℓ ⊔ κ ⊔ μ)
  SignalOf xs y w tr i (side, proba) =
      (train_x : List X) × (train_y : List ℤ) × (train_w : Option (List F)) × (model : P) × (x : X)
      × (iloc xs tr ≡ ok train_x)
      × (iloc y tr ≡ ok train_y)
      × WeightsAt w tr train_w
      × (primary.fit train_x train_y train_w ≡ ok model)
      × (get_elem? xs i ≡ some x)
      × (primary.predict_side model (regime_at setup.regimes x) x ≡ ok side)
      × (primary.predict_proba model (regime_at setup.regimes x) x ≡ ok proba)

  signal_parts :
      (model : P) (x : X) (side : ℤ) (proba : Proba F)
      → signal np row_max times ps learner primary setup model x ≡ ok (side, proba)
      → (primary.predict_side model (regime_at setup.regimes x) x ≡ ok side)
        × (primary.predict_proba model (regime_at setup.regimes x) x ≡ ok proba)
  signal_parts model x side proba e =
      let (p, probable, e1) =
        >>=-eq-ok (primary.predict_proba model (regime_at setup.regimes x) x) _ e in
      let (s, sided, e2) =
        >>=-eq-ok (primary.predict_side model (regime_at setup.regimes x) x) _ e1 in
      (
        sided ∙ ap (λ r. ok (signal_or {A = ℤ × Proba F} (s, p) r).0) e2,
        probable ∙ ap (λ r. ok (signal_or {A = ℤ × Proba F} (s, p) r).1) e2,
      )

  oof_fold-SignalOf :
      (xs : List X) (y : List ℤ) (w : Option (List F)) (tr te : List ℕ)
      (values : List (Option (ℤ × Proba F))) (i : ℕ) (v : ℤ × Proba F)
      → oof_fold np row_max times ps learner primary setup xs y w (tr, te) ≡ ok values
      → Writes te values i (some v)
      → SignalOf xs y w tr i v
  unfolding oof_fold
  oof_fold-SignalOf xs y w tr te values i (side, proba) e (k, at, value) =
      let (train_w, weighed, e1) = >>=-eq-ok (iloc_weights w tr) _ e in
      let (train_x, rows, e2) = >>=-eq-ok (iloc xs tr) _ e1 in
      let (train_y, outcomes, e3) = >>=-eq-ok (iloc y tr) _ e2 in
      let (model, fitted, e4) = >>=-eq-ok (primary.fit train_x train_y train_w) _ e3 in
      let (test_x, tests, e5) = >>=-eq-ok (iloc xs te) _ e4 in
      let g = signal np row_max times ps learner primary setup model in
      let (signals, made, e6) = >>=-eq-ok (for_each g test_x) _ e5 in
      let same : map some signals ≡ values = ground arith in
      let (x, row, signalled) =
        for_each_get g test_x signals k (side, proba) made
          (subst (λ o. get_elem? o k ≡ some (some (side, proba))) (sym same) value) in
      let parts = signal_parts model x side proba signalled in
      (
        train_x,
        train_y,
        train_w,
        model,
        x,
        rows,
        outcomes,
        iloc_weights-WeightsAt w tr train_w weighed,
        fitted,
        get_elem?-iloc xs te test_x k i x tests at row,
        parts.0,
        parts.1,
      )

  -- On well-formed labels and an index without duplicates, each signal that `_oof_primary` gives to
  -- the meta-model belongs to a fold that tests its sample: it is the side and the probabilities that
  -- a primary gives to the sample's row, fitted on the rows, outcomes and weights at the fold's train
  -- positions alone, whose labels overlap none of the fold's test labels and lie in none of their
  -- embargoes.
  pub oof_primary-Blind :
      (xs : List X) (y : List ℤ) (sample_weight : Option (List F)) (out : List (ℤ × Proba F))
      (i : ℕ) (v : ℤ × Proba F)
      → All WellFormed (map setup.label_of xs)
      → Rising 0 (map setup.label_of xs)
      → oof_primary np row_max times ps learner primary setup xs y sample_weight ≡ ok out
      → get_elem? out i ≡ some v
      → (fold : List ℕ × List ℕ) × Blind
          (map setup.label_of xs)
          (embargo_bars times ps (length (map setup.label_of xs)) (f.lit 1 2))
          fold
        × (any (λ p. i == p) fold.1 ≡ true)
        × SignalOf xs y sample_weight fold.0 i v
  unfolding oof_primary
  oof_primary-Blind xs y w out i v wf r e h =
      let t1 = map setup.label_of xs in
      let cv_folds = setup.config.cv_folds in
      let (folds, made, e1) = >>=-eq-ok (purged_k_fold times ps cv_folds (f.lit 1 2) t1) _ e in
      let g = oof_fold np row_max times ps learner primary setup xs y w in
      let (oof, filled, e2) = >>=-eq-ok (fill g folds (replicate (length xs) none)) _ e1 in
      let blind = purged_k_fold-Blind times ps cv_folds (f.lit 1 2) t1 folds wf r made in
      elim (fill_source _ g folds _ oof i (some v) blind filled
        (all_present_get oof out i v e2 h)) [
          | inl (untested, at) ↦
              let empty = get_elem?-replicate (length xs) i none (some v) at in absurd cc
          | inr ((tr, te), b, values, folded, writes) ↦ (
            (tr, te),
            b,
            tested te values i (some v) writes,
            oof_fold-SignalOf xs y w tr te values i v folded writes,
          )
        ]

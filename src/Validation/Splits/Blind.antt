-- ===== src/Validation/Splits/Blind.antt =====
-- Every fold of a splitter is blind to what it tests.
use aura_x.Prelude.{
  ℕ, ◌≡◌, ltb, List, [], ◌∷◌, length, All, subst, ok, Error, >>=-eq-ok, raise_if, Float, arith,
}
use aura_x.Validation.Purge.{Label, Numpy}
use aura_x.Validation.Purge.Merge.{WellFormed}
use aura_x.Validation.Splits.{Partition, split, fold, rows_at, embargo_bars, purged_k_fold}
use aura_x.Validation.Splits.NoLeak.{Rising, Clear, fold-Clear}

-- a fold whose train rows know nothing of its test labels
abbrev pub Blind : List Label → ℕ → List ℕ × List ℕ → Type 0
Blind t1 k (tr, te) =
    (test_t1 : List Label) × (rows_at t1 te ≡ ok test_t1) × All (Clear t1 k test_t1) tr

split-Blind :
    (np : Numpy) (t1 : List Label) (k : ℕ) (groups : List (List ℕ)) (folds : List (List ℕ × List ℕ))
    → All WellFormed t1
    → Rising 0 t1
    → split np t1 k groups ≡ ok folds
    → All (Blind t1 k) folds
unfolding split
split-Blind np t1 k [] folds wf r e = let eq : [] ≡ folds = cc in subst (All (Blind t1 k)) eq tt
split-Blind np t1 k (test_pos ∷ groups) folds wf r e =
    let ((tr, te), here, e1) = >>=-eq-ok (fold np t1 k test_pos) _ e in
    let (rest, there, e2) = >>=-eq-ok (split np t1 k groups) _ e1 in
    let eq : (tr, te) ∷ rest ≡ folds = ground arith in
    subst (All (Blind t1 k)) eq
      (fold-Clear np t1 k test_pos tr te wf r here, split-Blind np t1 k groups rest wf r there)

pub purged_k_fold-Blind {ℓ} :
    {F : Type ℓ} ⦃f : Float F⦄ (np : Numpy) (ps : Partition) (n_splits : ℕ) (embargo_pct : F)
    (t1 : List Label) (folds : List (List ℕ × List ℕ))
    → All WellFormed t1
    → Rising 0 t1
    → purged_k_fold np ps n_splits embargo_pct t1 ≡ ok folds
    → All (Blind t1 (embargo_bars np ps (length t1) embargo_pct)) folds
unfolding purged_k_fold
purged_k_fold-Blind np ps n_splits embargo_pct t1 folds wf r e =
    let (checked, enough, e1) = >>=-eq-ok (raise_if (ltb n_splits 2) Error.value_error) _ e in
    split-Blind np t1 _ _ folds wf r e1

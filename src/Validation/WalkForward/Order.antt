-- ===== src/Validation/WalkForward/Order.antt =====
-- A walk-forward fold trains on the past only.
use aura_x.Prelude.{
  ℕ, zero, suc, ◌+◌, ◌-◌, ◌≤◌, ◌<◌, ◌≡◌, refl, subst, ◌==◌, ltb, true, false, not, some, List, [],
  ◌∷◌, ◌++◌, get_elem?, any, All, All-append, String, ok, Error, ◌⊗◌, nought, ◌>>=◌, >>=-eq-ok,
  raise_if, Float, length, Bool-cases, inl, inr, arith, if◌then◌else◌,
}
use aura_x.Validation.Purge.{Label, Numpy, purge_train_times, overlaps}
use aura_x.Validation.Purge.Merge.{WellFormed}
use aura_x.Validation.Purge.Exact.{purge_train_times_exact}
use aura_x.Validation.Splits.{Partition, arange, rows_at, positions, sorted}
use aura_x.Prelude.Int.{pos}
use aura_x.Validation.Splits.NoLeak.{Rising, All-select, All-sorted, All-rows_at, not-true}
use aura_x.Validation.Splits.Stands.{rows_at-StandsAt, positions-StandsAt}
use aura_x.Validation.WalkForward.{
  Mode, mode_of, purged_train, walk_fold, walk_all, walk_blocks, walk_forward_split, train_start_of,
}

arange-within : (from n hi : ℕ) → from + n ≤ hi → All (λ p. p < hi) (arange from n)
arange-within from zero hi h = tt
arange-within from (suc n) hi h =
    (omega (arith, h), arange-within (suc from) n hi (omega (arith, h)))

-- A fold whose train positions lie before its test block, with the embargo between, and whose
-- train labels overlap no test label.
abbrev pub Before : List Label → ℕ → List ℕ × List ℕ → Type 0
Before t1 embargo (train, test) =
    (start : ℕ) × (test_t1 : List Label) × (get_elem? test 0 ≡ some start)
    × (rows_at t1 test ≡ ok test_t1)
    × All
        (λ p.
          (p + embargo < start)
          × ((row : Label) × (get_elem? t1 p ≡ some row) × (any (overlaps row) test_t1 ≡ false)))
        train

module _ (np : Numpy) (t1 : List Label) (embargo : ℕ) (wf : All WellFormed t1)
    (r : Rising 0 t1) where
  clear :
      (test_t1 : List Label) (start : ℕ) (ps : List ℕ)
      → All
          (λ p.
            (p < start - embargo)
            × ((row : Label) × (get_elem? t1 p ≡ some row)
                × (not (any (overlaps row) test_t1) ≡ true)))
          ps
      → All
          (λ p.
            (p + embargo < start)
            × ((row : Label) × (get_elem? t1 p ≡ some row) × (any (overlaps row) test_t1 ≡ false)))
          ps
  clear test_t1 start [] h = tt
  clear test_t1 start (p ∷ ps) ((l, (row, at, free)), hs) =
      ((omega (arith, l), (row, at, not-true _ free)), clear test_t1 start ps hs)

  purged_train-Before :
      (train_start start : ℕ) (test train : List ℕ)
      → (start - embargo - train_start == 0) ≡ false
      → purged_train np t1 train_start (start - embargo) (start ∷ test) ≡ ok train
      → Before t1 embargo (train, start ∷ test)
  unfolding purged_train
  purged_train-Before a start test train some_train e =
      let n = start - embargo - a in
      let (train_t1, rows, e1) = >>=-eq-ok (rows_at t1 (arange a n)) _ e in
      let (test_t1, tests, e2) = >>=-eq-ok (rows_at t1 (start ∷ test)) _ e1 in
      let (ps, placed, e3) =
        >>=-eq-ok (positions t1 (purge_train_times np train_t1 test_t1)) _ e2 in
      let early =
        rows_at-StandsAt t1 (λ p. p < start - embargo) (arange a n) train_t1
          (arange-within a n (start - embargo) (ground arith)) rows in
      let pure =
        purge_train_times_exact np train_t1 test_t1 (All-rows_at WellFormed t1 _ train_t1 wf rows)
          (All-rows_at WellFormed t1 _ test_t1 wf tests) in
      let survivors = All-select _ (λ row. not (any (overlaps row) test_t1)) train_t1 early in
      let kept =
        positions-StandsAt t1 (λ p. p < start - embargo)
          (λ row. not (any (overlaps row) test_t1) ≡ true) _ ps r survivors
          (subst (λ rows. positions t1 rows ≡ ok ps) pure placed) in
      let eq : sorted ps ≡ train = ground arith in
      (
        start,
        test_t1,
        refl,
        tests,
        subst (All _) eq (All-sorted _ ps (clear test_t1 start ps kept)),
      )

  walk_fold-Before :
      (mode : Mode) (previous test : List ℕ) (folds : List (List ℕ × List ℕ))
      → walk_fold np t1 mode (pos embargo) previous test ≡ ok folds
      → All (Before t1 embargo) folds
  unfolding walk_fold
  walk_fold-Before mode previous [] folds e =
      let eq : [] ≡ folds = cc in subst (All (Before t1 embargo)) eq tt
  walk_fold-Before mode previous (start ∷ test) folds e =
      let (a, begins, e1) = >>=-eq-ok (train_start_of np mode previous) _ e in
      elim (Bool-cases (start - embargo - a == 0)) [
        | inl empty ↦ let eq : [] ≡ folds = ground arith in subst (All (Before t1 embargo)) eq tt
        | inr some_train ↦
            let (train, purged, e2) =
              >>=-eq-ok (purged_train np t1 a (start - embargo) (start ∷ test))
                (λ train. ok ((train, start ∷ test) ∷ []))
                (subst
                  (λ b.
                    (if b
                      then ok []
                      else (purged_train np t1 a (start - embargo) (start ∷ test)
                          >>= (λ train. ok ((train, start ∷ test) ∷ []))))
                    ≡ ok folds)
                  some_train e1) in
            let eq : (train, start ∷ test) ∷ [] ≡ folds = ground arith in
            subst (All (Before t1 embargo)) eq
              (purged_train-Before a start test train some_train purged, tt)
      ]

  walk_all-Before :
      (mode : Mode) (previous : List ℕ) (blocks : List (List ℕ)) (folds : List (List ℕ × List ℕ))
      → walk_all np t1 mode (pos embargo) previous blocks ≡ ok folds
      → All (Before t1 embargo) folds
  unfolding walk_all
  walk_all-Before mode previous [] folds e =
      let eq : [] ≡ folds = cc in subst (All (Before t1 embargo)) eq tt
  walk_all-Before mode previous (test ∷ blocks) folds e =
      let (here, e_here, e1) = >>=-eq-ok (walk_fold np t1 mode (pos embargo) previous test) _ e in
      let (rest, e_rest, e2) = >>=-eq-ok (walk_all np t1 mode (pos embargo) test blocks) _ e1 in
      let eq : here ++ rest ≡ folds = ground arith in
      subst (All (Before t1 embargo)) eq (
        All-append _ here rest (walk_fold-Before mode previous test here e_here)
          (walk_all-Before mode test blocks rest e_rest))

  walk_blocks-Before :
      (mode : Mode) (blocks : List (List ℕ)) (folds : List (List ℕ × List ℕ))
      → walk_blocks np t1 mode (pos embargo) blocks ≡ ok folds
      → All (Before t1 embargo) folds
  walk_blocks-Before mode [] folds e =
      let eq : [] ≡ folds = cc in subst (All (Before t1 embargo)) eq tt
  walk_blocks-Before mode (first ∷ blocks) folds e = walk_all-Before mode first blocks folds e

-- On well-formed labels and an index without duplicates, with a product of their number and
-- `embargo_pct` that is not negative, and in either mode, the train positions of each walk-forward fold lie before its test block with the
-- product, rounded down, between, and the label at each overlaps no test label of the fold.
pub walk_forward_split-Before {ℓ} :
    {F : Type ℓ} ⦃f : Float F⦄ (np : Numpy) (ps : Partition) (n_splits : ℕ) (mode : String)
    (embargo_pct : F) (t1 : List Label) (folds : List (List ℕ × List ℕ)) (embargo : ℕ)
    → All WellFormed t1
    → Rising 0 t1
    → f.lt (f.of_int (pos (length t1)) ⊗ embargo_pct) nought ≡ false
    → f.floor (f.of_int (pos (length t1)) ⊗ embargo_pct) ≡ pos embargo
    → walk_forward_split np ps n_splits mode embargo_pct t1 ≡ ok folds
    → All (Before t1 embargo) folds
unfolding walk_forward_split
walk_forward_split-Before np ps n_splits mode embargo_pct t1 folds embargo wf r sign whole e =
    let (m, known, e1) = >>=-eq-ok (mode_of mode) _ e in
    let (checked, enough, e2) = >>=-eq-ok (raise_if (ltb n_splits 2) Error.value_error) _ e1 in
    let blocks = ps.array_split (length t1) (suc n_splits) in
    walk_blocks-Before np t1 embargo wf r m blocks folds
      (subst (λ z. walk_blocks np t1 m z blocks ≡ ok folds) (rw sign whole) e2)

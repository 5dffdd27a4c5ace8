-- ===== src/Validation/Splits/Returns.antt =====
-- A fold of an index without duplicates never raises.
use aura_x.Prelude.{
  ℕ, zero, suc, ◌<◌, ◌≡◌, refl, not, some, List, [], ◌∷◌, length, get_elem?, any, All, ok, arith,
  inl, inr, Bool-cases, subst, sym,
}
use aura_x.Validation.Purge.{Label, Numpy, purge_train_times, overlaps}
use aura_x.Validation.Purge.Merge.{WellFormed}
use aura_x.Validation.Purge.Exact.{purge_train_times_exact}
use aura_x.Validation.Splits.{embargoes, keep_rows, apply_embargo, sorted, positions, rows_at, fold}
use aura_x.Validation.Splits.NoLeak.{
  Rising, Stands, Clear, position-eq, All-of_elems, All-select, All-map, All-rows_at, All-sorted,
  fold-Clear,
}

get_elem?-some :
    (t1 : List Label) (k : ℕ) → k < length t1 → (row : Label) × (get_elem? t1 k ≡ some row)
get_elem?-some [] k h = absurd (omega arith)
get_elem?-some (r ∷ t1) zero h = (r, refl)
get_elem?-some (r ∷ t1) (suc k) h = get_elem?-some t1 k (omega arith)

rows_at_returns :
    (t1 : List Label) (ps : List ℕ)
    → All (λ p. p < length t1) ps
    → (rows : List Label) × (rows_at t1 ps ≡ ok rows)
unfolding rows_at
rows_at_returns t1 [] h = ([], refl)
rows_at_returns t1 (p ∷ ps) (h, hs) =
    let (row, at) = get_elem?-some t1 p h in
    let (rows, rest) = rows_at_returns t1 ps hs in (row ∷ rows, rw (at, rest) refl)

keep_rows_returns :
    (t1 test_t1 train : List Label) (k : ℕ)
    → Rising 0 t1
    → All (Stands t1) train
    → (kept : List Label) × (keep_rows t1 k test_t1 train ≡ ok kept) × All (Stands t1) kept
unfolding keep_rows
keep_rows_returns t1 test_t1 [] k r h = ([], refl, tt)
keep_rows_returns t1 test_t1 ((t, u) ∷ train) k r ((i, at), hs) =
    let (kept, returned, stand) = keep_rows_returns t1 test_t1 train k r hs in
    let found = position-eq i t1 (t, u) r at in
    elim (Bool-cases (any (embargoes t1 k i) test_t1)) [
      | inl out ↦ (kept, rw (found, returned, out) refl, stand)
      | inr free ↦ ((t, u) ∷ kept, rw (found, returned, free) refl, ((i, at), stand))
    ]

apply_embargo_returns :
    (t1 test_t1 train : List Label) (k : ℕ)
    → Rising 0 t1
    → All (Stands t1) train
    → (kept : List Label) × (apply_embargo train test_t1 t1 k ≡ ok kept) × All (Stands t1) kept
unfolding apply_embargo
apply_embargo_returns t1 test_t1 train zero r h = (train, refl, h)
apply_embargo_returns t1 test_t1 train (suc k) r h = keep_rows_returns t1 test_t1 train (suc k) r h

positions_returns :
    (t1 rows : List Label)
    → Rising 0 t1
    → All (Stands t1) rows
    → (ps : List ℕ) × (positions t1 rows ≡ ok ps)
unfolding positions
positions_returns t1 [] r h = ([], refl)
positions_returns t1 ((t, u) ∷ rows) r ((i, at), hs) =
    let (ps, returned) = positions_returns t1 rows r hs in
    (i ∷ ps, rw (position-eq i t1 (t, u) r at, returned) refl)

fold_returns :
    (np : Numpy) (t1 : List Label) (k : ℕ) (test_pos : List ℕ)
    → All WellFormed t1
    → Rising 0 t1
    → All (λ p. p < length t1) test_pos
    → (train : List ℕ) × (fold np t1 k test_pos ≡ ok (train, sorted test_pos))
unfolding fold
fold_returns np t1 k test_pos wf r h =
    let (test_t1, tests) =
      rows_at_returns t1 (sorted test_pos) (All-sorted (λ p. p < length t1) test_pos h) in
    let survivors =
      subst (All (Stands t1))
        (sym (
          purge_train_times_exact np t1 test_t1 wf
            (All-rows_at WellFormed t1 (sorted test_pos) test_t1 wf tests)))
        (All-map (λ row (stands, apart). stands) _
          (All-select (Stands t1) (λ row. not (any (overlaps row) test_t1)) t1
            (All-of_elems (Stands t1) t1 (λ i row at. (i, at))))) in
    let (kept, embargoed, stand) =
      apply_embargo_returns t1 test_t1 (purge_train_times np t1 test_t1) k r survivors in
    let (ps, placed) = positions_returns t1 kept r stand in
    (sorted ps, rw (tests, embargoed, placed) refl)

-- On well-formed labels, an index without duplicates and test positions inside it, a fold returns
-- the test positions sorted and train positions that leak nothing: the label at each overlaps no
-- test label, and no embargo holds the position.
pub fold_leaks_nothing :
    (np : Numpy) (t1 : List Label) (k : ℕ) (test_pos : List ℕ)
    → All WellFormed t1
    → Rising 0 t1
    → All (λ p. p < length t1) test_pos
    → (train : List ℕ) × (test_t1 : List Label) × (fold np t1 k test_pos
        ≡ ok (train, sorted test_pos))
      × (rows_at t1 (sorted test_pos) ≡ ok test_t1)
      × All (Clear t1 k test_t1) train
fold_leaks_nothing np t1 k test_pos wf r h =
    let (train, e) = fold_returns np t1 k test_pos wf r h in
    let (test_t1, tests, clear) = fold-Clear np t1 k test_pos train (sorted test_pos) wf r e in
    (train, test_t1, e, tests, clear)

-- ===== src/Tests/Protocol.antt =====
-- The validation protocol of src/aurax/validation on five labels, with an estimator that predicts how
-- many rows it was fitted on.
use aura_x.Prelude.{
  ℕ, ◌≡◌, refl, ◌==◌, Bool, true, false, none, some, List, [], ◌∷◌, map, length, any, All,
  replicate, String, Result, ok, raise, ◌⊕◌, ◌⊘◌, ◌⊎◌, ◌↔◌, arith, if◌then◌else◌,
}
use aura_x.Prelude.Int.{ℤ, pos, ◌+ℤ◌, ◌-ℤ◌, ◌*ℤ◌, floor_div}
use aura_x.Prelude.Fixed.{Fixed, fixed_float, whole}
use aura_x.Prelude.Tests.{str_eq}
use aura_x.Validation.Purge.{Label, purge_train_times, merge_intervals, merge_from, stabs}
use aura_x.Validation.Splits.{
  Partition, embargo_bars, purged_k_fold, split, fold, rows_at, apply_embargo, keep_rows, positions,
  holdout_split, gather, gather_all, combinatorial_purged_cv,
}
use aura_x.Validation.Splits.Blind.{Blind}
use aura_x.Validation.Splits.Holdout.{Apart}
use aura_x.Validation.OutOfFold.{Estimator, fill, fit_predict, oof_predict}
use aura_x.Validation.OutOfFold.NoLeak.{Writes, FittedOn, oof_predict-Blind}
use aura_x.Validation.WalkForward.{purged_train, walk_fold, walk_all, walk_forward_split}
use aura_x.Validation.WalkForward.Order.{Before, walk_forward_split-Before}
use aura_x.Validation.Scores.{Numeric}
use aura_x.Validation.Baselines.{Draws}
use aura_x.Lifecycle.Gate.{Clears}
use aura_x.Validation.Harness.{
  ValidationConfig, Events, Report, develop, holdout_side, fold_returns, all_returns, report_of,
  run_validation,
}
use aura_x.Validation.Harness.Holdout.{Reported, run_validation_unseen}
use aura_x.Tests.Data.{num, micro}
use aura_x.Tests.Validation.{numpy, by_start, place}
use aura_x.Tests.Stores.{pandas}

-- four rows in two parts or in three
abbrev pub parts : Partition
parts = record {
  array_split = λ n k.
      if k == 2 then (0 ∷ 1 ∷ []) ∷ (2 ∷ 3 ∷ []) ∷ [] else (0 ∷ 1 ∷ []) ∷ (2 ∷ []) ∷ (3 ∷ []) ∷ [];
  combinations = λ n k. (0 ∷ []) ∷ (1 ∷ []) ∷ [];
}

abbrev pub four : List Label
four = (0, 1) ∷ (2, 3) ∷ (4, 5) ∷ (6, 7) ∷ []

abbrev five : List Label
five = (0, 1) ∷ (2, 3) ∷ (4, 5) ∷ (6, 7) ∷ (8, 9) ∷ []

abbrev counts_rows : Estimator Fixed ℕ ℤ ℕ
counts_rows = record {
  fit = λ xs ys w. ok (length xs);
  predict = λ rows xs. ok (map (λ x. num rows) xs);
}

abbrev sides : List ℤ
sides = pos 1 ∷ pos 1 ∷ pos 0 ∷ pos 1 ∷ []

out_of_fold :
    oof_predict counts_rows numpy parts 2 (num 0) (10 ∷ 11 ∷ 12 ∷ 13 ∷ []) sides four none
    ≡ ok (num 2 ∷ num 2 ∷ num 2 ∷ num 2 ∷ [])
unfolding oof_predict purged_k_fold split fold rows_at apply_embargo keep_rows positions fill
    fit_predict purge_train_times merge_intervals merge_from stabs by_start place ◌*ℤ◌ ◌+ℤ◌
    floor_div whole
out_of_fold = refl

abbrev predictions : List Fixed
predictions = num 2 ∷ num 2 ∷ num 2 ∷ num 2 ∷ []

oof_predict-Blind_example :
    (folds : List (List ℕ × List ℕ)) × (purged_k_fold numpy parts 2 (num 0) four ≡ ok folds)
    × ((All (λ fold. any (λ p. 2 == p) fold.1 ≡ false) folds
          × (some (fixed_float.nan) ≡ some (num 2)))
        ⊎ ((fold : List ℕ × List ℕ) × Blind four (embargo_bars numpy parts 4 (num 0)) fold
            × (values : List Fixed) × FittedOn counts_rows
                (10 ∷ 11 ∷ 12 ∷ 13 ∷ [])
                sides
                none
                fold
                values
            × Writes fold.1 values 2 (num 2)))
oof_predict-Blind_example =
    oof_predict-Blind counts_rows numpy parts 2 (num 0) (10 ∷ 11 ∷ 12 ∷ 13 ∷ []) sides four none
      predictions 2 (num 2) (ground arith) (ground arith) out_of_fold refl

walked :
    walk_forward_split numpy parts 2 "anchored" (num 0) four
    ≡ ok ((0 ∷ 1 ∷ [], 2 ∷ []) ∷ (0 ∷ 1 ∷ 2 ∷ [], 3 ∷ []) ∷ [])
unfolding walk_forward_split walk_all walk_fold purged_train rows_at positions purge_train_times
    merge_intervals merge_from stabs by_start place ◌*ℤ◌ floor_div whole str_eq
walked = refl

walk_forward_split-Before_example :
    All (Before four 0) ((0 ∷ 1 ∷ [], 2 ∷ []) ∷ (0 ∷ 1 ∷ 2 ∷ [], 3 ∷ []) ∷ [])
unfolding ◌*ℤ◌ floor_div whole
walk_forward_split-Before_example =
    walk_forward_split-Before numpy parts 2 "anchored" (num 0) four _ 0 (ground arith)
      (ground arith) refl refl walked

abbrev pub total : List Fixed → Fixed
total [] = num 0
total (x ∷ xs) = x ⊕ total xs

abbrev pub mean_of : List Fixed → Fixed
mean_of xs = total xs ⊘ fixed_float.of_int (pos (length xs))

abbrev pub numeric : Numeric Fixed
numeric = record {
  mean = mean_of;
  nanmean = mean_of;
  std = mean_of;
  min_of = mean_of;
  maximum = λ x y. if fixed_float.lt x y then y else x;
  minimum = λ x y. if fixed_float.lt y x then y else x;
  norm_cdf = λ x. x;
  norm_ppf = λ x. x;
  e = micro 2_718_281;
}

abbrev draws : Draws Fixed
draws = record { pct_change = λ xs. xs; choice = λ seed size. replicate size (num 1) }

abbrev protocol : ValidationConfig Fixed
protocol = record {
  cpcv_n_groups = 2;
  cpcv_n_test_groups = 1;
  embargo_pct = num 0;
  walk_forward_splits = 2;
  walk_forward_mode = "anchored";
  holdout_pct = micro 200_000;
  periods_per_year = none;
  deflated_sharpe_min = micro 950_000;
  n_trials = 1;
  cost_model = record {
    spread_pips = num 1;
    slippage_pips = num 1;
    pip_size = micro 100;
    commission_ret = num 0;
  };
}

abbrev events : Events Fixed ℕ ℤ
events = record {
  xs = 10 ∷ 11 ∷ 12 ∷ 13 ∷ 14 ∷ [];
  ys = pos 1 ∷ pos 1 ∷ pos 0 ∷ pos 1 ∷ pos 1 ∷ [];
  t1 = five;
  ret = micro 10 ∷ micro 20 ∷ micro 30 ∷ micro 10 ∷ micro 20 ∷ [];
  labels = pos 1 ∷ pos 1 ∷ pos 0 ∷ pos 1 ∷ pos 1 ∷ [];
  close = none;
  entry_price = some (num 1 ∷ num 1 ∷ num 1 ∷ num 1 ∷ num 1 ∷ []);
  sample_weight = none;
}

abbrev is_ok {ℓ} : {A : Type ℓ} → Result A → Bool
is_ok (ok a) = true
is_ok (raise e) = false

returned {ℓ} : {A : Type ℓ} (r : Result A) → is_ok r ≡ true → (a : A) × (r ≡ ok a)
returned (ok a) h = (a, refl)
returned (raise e) h = absurd cc

abbrev format : String → Fixed → String
format spec x = spec

validated :
    is_ok
      (run_validation counts_rows numpy parts numeric pandas draws mean_of format protocol events)
    ≡ true
unfolding run_validation holdout_split develop combinatorial_purged_cv gather gather_all split fold
    apply_embargo keep_rows all_returns fold_returns fit_predict holdout_side report_of
    walk_forward_split walk_all walk_fold purged_train rows_at positions purge_train_times
    merge_intervals merge_from stabs by_start place ◌*ℤ◌ ◌-ℤ◌ floor_div whole str_eq
validated = refl

report : Report Fixed
report =
    (returned
      (run_validation counts_rows numpy parts numeric pandas draws mean_of format protocol events)
      validated).0

report_returned :
    run_validation counts_rows numpy parts numeric pandas draws mean_of format protocol events
    ≡ ok report
unfolding report
report_returned =
    (returned
      (run_validation counts_rows numpy parts numeric pandas draws mean_of format protocol events)
      validated).1

run_validation_unseen_example :
    (split : List ℕ × List ℕ) × (side : List Fixed) × Apart five 4 split
    × FittedOn counts_rows events.xs events.ys events.sample_weight split side
    × Reported counts_rows numpy parts numeric pandas draws mean_of format protocol events split.1
        side report
    × (report.verdict.passed ≡ true ↔ Clears (micro 950_000) report.verdict.metrics)
unfolding ◌*ℤ◌ ◌-ℤ◌ floor_div whole
run_validation_unseen_example =
    run_validation_unseen counts_rows numpy parts numeric pandas draws mean_of format protocol
      events report (ground arith) (ground arith) (omega arith) report_returned

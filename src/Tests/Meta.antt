-- ===== src/Tests/Meta.antt =====
-- src/aurax/l5_meta on four rows, with a learner that answers 0.7 and a primary that goes long.
use aura_x.Prelude.{
  true, ◌==◌, any, ℕ, ◌+◌, ◌*◌, ◌≤◌, ◌<◌, ◌≡◌, refl, none, some, List, [], ◌∷◌, length, count, All,
  ok, ◌⊎◌, arith, if◌then◌else◌,
}
use aura_x.Prelude.Int.{ℤ, pos, ◌+ℤ◌, ◌-ℤ◌, ◌*ℤ◌, floor_div}
use aura_x.Prelude.Fixed.{Fixed, fixed_float, Fixed-IsOrdered, Fixed-AddsPositive, whole}
use aura_x.Prelude.Tests.{str_eq}
use aura_x.Market.{regime_value}
use aura_x.Primary.{Proba}
use aura_x.Validation.Purge.{purge_train_times, merge_intervals, merge_from, stabs}
use aura_x.Validation.Splits.{
  embargo_bars, purged_k_fold, split, fold, rows_at, apply_embargo, keep_rows, positions,
}
use aura_x.Validation.Splits.Blind.{Blind}
use aura_x.Validation.OutOfFold.{fill}
use aura_x.Meta.Calibration.{Arrays, Calibrator, pava, calibrate, fit_calibrator, make_calibrator}
use aura_x.Meta.Calibration.Pava.{NeverFalls, pava-NeverFalls}
use aura_x.Meta.Model
use aura_x.Meta.Model.{
  MetaConfig, MetaLabelModel, Learner, objective, tune_threshold, p_correct, passes, splits,
  fold_probas,
}
use aura_x.Meta.Model.Threshold.{Chosen, NoBetter, tune_threshold_best}
use aura_x.Meta.Gated.{
  acts, PrimaryModel, GatedSetup, Gated, oof_fold, oof_primary, fit_meta, fit, predict,
  meta_labels_from_sides, meta_features,
}
use aura_x.Meta.Gated.Safety.{primary_side, Trusted, FittedOnBets, predict-Trusted, fit_enough}
use aura_x.Meta.Gated.NoLeak.{SignalOf, oof_primary-Blind}
use aura_x.Tests.Data.{num, micro}
use aura_x.Tests.Validation.{numpy, by_start, place}
use aura_x.Tests.Protocol.{parts, four, numeric, total}

pava-NeverFalls_example :
    (out : List Fixed) × (pava (num 1 ∷ num 3 ∷ num 2 ∷ []) (num 1 ∷ num 1 ∷ num 2 ∷ []) ≡ ok out)
    × (length out ≡ 3)
    × NeverFalls out
pava-NeverFalls_example =
    pava-NeverFalls Fixed-IsOrdered Fixed-AddsPositive (num 1 ∷ num 3 ∷ num 2 ∷ [])
      (num 1 ∷ num 1 ∷ num 2 ∷ []) refl (refl, (refl, (refl, tt)))

abbrev config : MetaConfig Fixed
config = record {
  base = "logistic";
  calibration = some "none";
  threshold_tau = micro 550_000;
  cv_folds = 2;
}

abbrev probs : List Fixed
probs = micro 450_000 ∷ micro 600_000 ∷ micro 700_000 ∷ []

abbrev hits : List Fixed
hits = num 0 ∷ num 1 ∷ num 1 ∷ []

abbrev grid : List Fixed
grid = micro 400_000 ∷ micro 500_000 ∷ micro 650_000 ∷ []

tune_threshold_best_example :
    let obj = objective numeric probs hits none none none in
    let tau = tune_threshold numeric config probs hits none none none grid 1 in
    (o : Fixed) × Chosen probs obj 1 grid (micro 550_000, fixed_float.neg_inf) (tau, o)
    × All (NoBetter probs obj 1 o) grid
tune_threshold_best_example =
    tune_threshold_best Fixed-IsOrdered numeric config probs hits none none none grid 1

abbrev arrays : Arrays Fixed
arrays = record {
  argsort = λ xs. [];
  unique = λ xs. (xs, []);
  interp = λ x xs ys. x;
  exp = λ x. x;
  sum = total;
}

abbrev learner : Learner Fixed (List Fixed) ℕ
learner = record { fit = λ xs y w. ok (length xs); proba1 = λ n x. micro 700_000 }

abbrev up : Proba Fixed
up = record { p_down = micro 100_000; p_flat = micro 200_000; p_up = micro 700_000 }

abbrev long_only : PrimaryModel Fixed ℕ ℕ
long_only = record {
  fit = λ xs y w. ok (length xs);
  predict_side = λ n regime x. ok (pos 1);
  predict_proba = λ n regime x. ok up;
}

abbrev largest : List Fixed → Fixed
largest [] = num 0
largest (x ∷ xs) = let rest = largest xs in if fixed_float.lt rest x then x else rest

-- the row `n` has a label from 2n to 2n + 1
abbrev setup : GatedSetup Fixed ℕ
setup = record {
  label_of = λ n. (2 * n, 2 * n + 1);
  regimes = some (λ n. some "trend");
  context = λ n. [];
  config = config;
}

abbrev rows : List ℕ
rows = 0 ∷ 1 ∷ 2 ∷ 3 ∷ []

abbrev ys : List ℤ
ys = pos 1 ∷ pos 0 ∷ pos 1 ∷ pos 1 ∷ []

abbrev gated : Gated Fixed ℕ ℕ
gated = record {
  primary = 4;
  meta = some (record { threshold = micro 550_000; calibrator = Calibrator.identity; base = 4 });
}

fitted : fit arrays largest numpy parts learner long_only setup rows ys none ≡ ok gated
unfolding fit oof_primary oof_fold purged_k_fold split fold rows_at apply_embargo keep_rows
    positions fill purge_train_times merge_intervals merge_from stabs by_start place ◌*ℤ◌ ◌+ℤ◌ ◌-ℤ◌
    floor_div whole fit_meta meta_labels_from_sides meta_features Model.fit splits fold_probas
    make_calibrator fit_calibrator str_eq regime_value
fitted = refl

predicted : predict arrays largest numpy parts learner long_only setup gated 7 ≡ ok (pos 1)
unfolding predict passes p_correct calibrate meta_features ◌-ℤ◌ ◌*ℤ◌ str_eq regime_value
predicted = refl

predict-Trusted_example :
    ((gated.meta ≡ none)
      × (primary_side arrays largest numpy parts learner long_only setup 4 7 ≡ ok (pos 1)))
    ⊎ ((meta : MetaLabelModel Fixed ℕ) × (gated.meta ≡ some meta)
        × ((pos 1 ≡ pos 0)
            ⊎ ((primary_side arrays largest numpy parts learner long_only setup 4 7 ≡ ok (pos 1))
                × Trusted arrays largest numpy parts learner long_only setup 4 meta 7 (pos 1))))
predict-Trusted_example =
    predict-Trusted arrays largest numpy parts learner long_only setup gated 7 (pos 1) predicted

fit_enough_example :
    (oof : List (ℤ × Proba Fixed)) × (oof_primary arrays largest numpy parts learner long_only setup
        rows ys none
      ≡ ok oof)
    × (((gated.meta ≡ none) × (count (λ (r : ℤ × Proba Fixed). acts r.0) oof < 2 * 2))
        ⊎ ((meta : MetaLabelModel Fixed ℕ) × (gated.meta ≡ some meta)
            × (2 * 2 ≤ count (λ (r : ℤ × Proba Fixed). acts r.0) oof)
            × FittedOnBets arrays largest numpy parts learner long_only setup rows ys none oof
                meta))
fit_enough_example =
    fit_enough arrays largest numpy parts learner long_only setup rows ys none gated fitted

abbrev signals : List (ℤ × Proba Fixed)
signals = (pos 1, up) ∷ (pos 1, up) ∷ (pos 1, up) ∷ (pos 1, up) ∷ []

signalled : oof_primary arrays largest numpy parts learner long_only setup rows ys none ≡ ok signals
unfolding oof_primary oof_fold purged_k_fold split fold rows_at apply_embargo keep_rows positions
    fill purge_train_times merge_intervals merge_from stabs by_start place ◌*ℤ◌ floor_div whole
signalled = refl

oof_primary-Blind_example :
    (fold : List ℕ × List ℕ) × Blind four (embargo_bars numpy parts 4 (micro 10_000)) fold
    × (any (λ p. 2 == p) fold.1 ≡ true)
    × SignalOf arrays largest numpy parts learner long_only setup rows ys none fold.0 2 (pos 1, up)
oof_primary-Blind_example =
    oof_primary-Blind arrays largest numpy parts learner long_only setup rows ys none signals 2
      (pos 1, up) (ground arith) (ground arith) signalled refl

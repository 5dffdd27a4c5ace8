-- ===== src/Validation/WalkForward.antt =====
-- The walk-forward folds of src/aurax/validation/walkforward.py.
pub mod Order
use aura_x.Prelude.{
  ℕ, zero, suc, ◌+◌, ◌-◌, ◌⊖◌, ◌⊗◌, nought, ltb, leb, ◌==◌, Bool, not, ◌||◌, Option, List, [], ◌∷◌,
  ◌++◌ as append, length, get_elem?, String, Result, ok, raise, Error, or_raise, ◌>>=◌, ◌>>◌,
  raise_if, Float, if◌then◌else◌, is_empty,
}
use aura_x.Prelude.Tests.{str_eq}
use aura_x.Validation.Purge.{Label, Numpy, purge_train_times}
use aura_x.Validation.Splits.{Partition, arange, rows_at, positions, sorted}
use aura_x.Prelude.Int.{ℤ, pos, negsuc}

abbrev negate : ℤ → ℤ
negate (pos zero) = pos 0
negate (pos (suc n)) = negsuc n
negate (negsuc n) = pos (suc n)

pub data Mode : Type 0 where
  anchored rolling : Mode

-- the constructor's check of `mode`
abbrev pub mode_of : String → Result Mode
mode_of text =
    if str_eq text "anchored"
    then ok Mode.anchored
    else if str_eq text "rolling"
    then ok Mode.rolling
    else raise Error.value_error

module _ (np : Numpy) where
  -- the train positions of a fold, purged against its test block
  unfoldable pub purged_train : List Label → ℕ → ℕ → List ℕ → Result (List ℕ)
  purged_train t1 train_start train_end test_pos = do
    train_t1 ← rows_at t1 (arange train_start (train_end - train_start))
    test_t1 ← rows_at t1 test_pos
    train_pos ← positions t1 (purge_train_times np train_t1 test_t1)
    ok (sorted train_pos)

  -- `folds[i - 1][0]`, or 0
  abbrev pub train_start_of : Mode → List ℕ → Result ℕ
  train_start_of Mode.anchored previous = ok 0
  train_start_of Mode.rolling [] = raise Error.index_error
  train_start_of Mode.rolling (p ∷ previous) = ok p

  -- `max(0, test_start - embargo)`; a negative embargo reaches into the test block
  abbrev pub train_end_of : ℕ → ℤ → ℕ
  train_end_of test_start (pos embargo) = test_start - embargo
  train_end_of test_start (negsuc embargo) = test_start + suc embargo

  -- The body of the loop of `split`, after the fold `previous`: a fold of train and test positions,
  -- none where the test block or the train window is empty.
  unfoldable pub walk_fold :
      List Label → Mode → ℤ → List ℕ → List ℕ → Result (List (List ℕ × List ℕ))
  walk_fold t1 mode embargo previous [] = ok []
  walk_fold t1 mode embargo previous (test_start ∷ test) =
      train_start_of mode previous >>= (λ train_start.
        let train_end = train_end_of test_start embargo in
        let purged : Result (List (List ℕ × List ℕ)) =
          purged_train t1 train_start train_end (test_start ∷ test)
          >>= (λ train. ok ((train, test_start ∷ test) ∷ [])) in
        if train_end - train_start == 0 then ok [] else purged)

  -- the loop, over the blocks that follow `previous`
  unfoldable pub walk_all :
      List Label → Mode → ℤ → List ℕ → List (List ℕ) → Result (List (List ℕ × List ℕ))
  walk_all t1 mode embargo previous [] = ok []
  walk_all t1 mode embargo previous (test ∷ blocks) = do
    here ← walk_fold t1 mode embargo previous test
    rest ← walk_all t1 mode embargo test blocks
    ok (append here rest)

  -- over `folds`, from the second on
  abbrev pub walk_blocks : List Label → Mode → ℤ → List (List ℕ) → Result (List (List ℕ × List ℕ))
  walk_blocks t1 mode embargo [] = ok []
  walk_blocks t1 mode embargo (first ∷ blocks) = walk_all t1 mode embargo first blocks

module _ {ℓ} {F : Type ℓ} ⦃f : Float F⦄ (np : Numpy) (ps : Partition) where
  -- `int(n * self.embargo_pct)`, which rounds towards zero
  abbrev pub embargo_of : ℕ → F → ℤ
  embargo_of n embargo_pct =
      let product = f.of_int (pos n) ⊗ embargo_pct in
      if f.lt product nought then negate (f.floor (nought ⊖ product)) else f.floor product

  -- `WalkForwardSplit`, its constructor's checks and its `split`
  unfoldable pub walk_forward_split : ℕ → String → F → List Label → Result (List (List ℕ × List ℕ))
  walk_forward_split n_splits mode embargo_pct t1 = do
    m ← mode_of mode
    raise_if (ltb n_splits 2) Error.value_error
    walk_blocks np t1 m (embargo_of (length t1) embargo_pct)
        (ps.array_split (length t1) (suc n_splits))

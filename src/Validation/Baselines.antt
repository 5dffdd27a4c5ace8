-- ===== src/Validation/Baselines.antt =====
-- src/aurax/validation/baselines.py: the comparators of the gate.
use aura_x.Prelude.{
  ℕ, zero, suc, ◌≤◌, ◌<◌, leb, Bool, ◌≡◌, Option, none, some, List, [], ◌∷◌, length, count,
  replicate, Float, if◌then◌else◌, Bool-cases, inl, inr, ◌⊎◌, refl, arith, leb→le,
}
use aura_x.Prelude.Int.{ℤ, pos, negsuc, ltb_ℤ}
use aura_x.Prelude.Dict.{Dict}
use aura_x.Validation.Scores.{Numeric, CostModel, sharpe_ratio, strategy_returns}

-- `labels > 0` and `labels < 0`
abbrev pub is_up : ℤ → Bool
is_up l = ltb_ℤ (pos 0) l

abbrev pub is_down : ℤ → Bool
is_down l = ltb_ℤ l (pos 0)

pub majority_class_side : List ℤ → ℤ
majority_class_side labels =
    if leb (count is_down labels) (count is_up labels) then pos 1 else negsuc 0

-- how many labels have the direction of a side
abbrev pub votes : ℤ → List ℤ → ℕ
votes (pos n) labels = count is_up labels
votes (negsuc n) labels = count is_down labels

votes_le :
    (labels : List ℤ) (s : ℤ)
    → count is_down labels ≤ votes s labels
    → count is_up labels ≤ votes s labels
    → (d : ℤ) → votes d labels ≤ votes s labels
votes_le labels s h k (pos n) = k
votes_le labels s h k (negsuc n) = h

-- The majority side has at least as many labels as any other direction `d`, and it is long, or else
-- short and strictly more labels are short.
pub majority_class_side_majority :
    (labels : List ℤ) (d : ℤ)
    → let s = majority_class_side labels in
      (votes d labels ≤ votes s labels)
      × ((s ≡ pos 1) ⊎ ((s ≡ negsuc 0) × (count is_up labels < count is_down labels)))
unfolding majority_class_side
majority_class_side_majority labels d =
    elim (Bool-cases (leb (count is_down labels) (count is_up labels))) [
      | inl h ↦ rw h (votes_le labels (pos 1) (leb→le _ _ h) (omega arith) d, inl refl)
      | inr h ↦
          rw h (votes_le labels (negsuc 0) (omega arith) (ground arith) d, inr (refl, ground arith))
    ]

-- pandas' `pct_change().dropna()` and numpy's seeded draws of a side, `size` of them
pub record Draws {ℓ} (F : Type ℓ) : Type ℓ where
  pub pct_change : List F → List F
  pub choice : ℕ → ℕ → List F

module _ {ℓ} {F : Type ℓ} ⦃f : Float F⦄ (np : Numeric F) (draws : Draws F) where
  pub majority_baseline_returns : List ℤ → List F → Option (CostModel F) → List F
  majority_baseline_returns labels ret c =
      strategy_returns (replicate (length ret) (f.of_int (majority_class_side labels))) ret none c

  -- the Sharpe ratios of `n` seeds from `seed` on
  pub random_sharpes : ℕ → ℕ → List F → Option (CostModel F) → Option ℕ → List F
  random_sharpes seed zero ret c periods_per_year = []
  random_sharpes seed (suc n) ret c periods_per_year =
      sharpe_ratio np (strategy_returns (draws.choice seed (length ret)) ret none c)
        periods_per_year
      ∷ random_sharpes (suc seed) n ret c periods_per_year

  pub random_entry_sharpe : List F → ℕ → ℕ → Option (CostModel F) → Option ℕ → F
  random_entry_sharpe ret n_seeds base_seed c periods_per_year =
      np.nanmean (random_sharpes base_seed n_seeds ret c periods_per_year)

  pub baseline_sharpes :
      List ℤ → List F → Option (List F) → Option (CostModel F) → Option ℕ → Dict F
  baseline_sharpes labels ret close c periods_per_year =
      ("majority", sharpe_ratio np (majority_baseline_returns labels ret c) periods_per_year)
      ∷ ("random", random_entry_sharpe ret 25 0 c periods_per_year)
      ∷ elim close [
        | none ↦ []
        | some prices ↦
            ("buy_and_hold", sharpe_ratio np (draws.pct_change prices) periods_per_year) ∷ []
      ]

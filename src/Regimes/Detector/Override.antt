-- ===== src/Regimes/Detector/Override.antt =====
-- The shock override of src/aurax/l2_regime/detector.py.
use aura_x.Prelude.{
  ◌⊎◌, inl, inr, Bool-cases, ℕ, zero, suc, ◌≡◌, true, Option, some, ◌≢◌, List, [], ◌∷◌, get_elem?,
  Float, arith,
}
use aura_x.Market.{shock}
use aura_x.Regimes.Detector.{
  RegimeConfig, StateMap, RegimeRow, gate, model_row, predict_regimes, override_row,
}

module _ {ℓ} {F : Type ℓ} ⦃f : Float F⦄ (cfg : RegimeConfig F) (m : StateMap) where
  predict_regimes-at :
      (rows : List (Option (List F × ℕ) × Option F)) (i : ℕ) (hmm : Option (List F × ℕ))
      (atr : Option F)
      → get_elem? rows i ≡ some (hmm, atr)
      → get_elem? (predict_regimes cfg m rows) i ≡ some (override_row cfg atr (model_row m hmm))
  unfolding predict_regimes
  predict_regimes-at [] i hmm atr e = cc
  predict_regimes-at (row ∷ rows) zero hmm atr e = ground arith
  predict_regimes-at (row ∷ rows) (suc i) hmm atr e = predict_regimes-at rows i hmm atr e

  -- With the override on, a row whose ATR percentile makes the scalar gate say shock is labelled
  -- shock whatever the model says, and every other row with a percentile keeps the model's regime;
  -- the probabilities are the model's in both cases.
  pub predict_regimes_override :
      (rows : List (Option (List F × ℕ) × Option F)) (i : ℕ) (hmm : Option (List F × ℕ))
      (hurst ker a : F)
      → cfg.shock_override ≡ true
      → get_elem? rows i ≡ some (hmm, some a)
      → (r : RegimeRow F) × (get_elem? (predict_regimes cfg m rows) i ≡ some r)
        × (((gate cfg hurst ker (some a) ≡ shock) × (r.regime ≡ shock))
            ⊎ ((gate cfg hurst ker (some a) ≢ shock) × (r.regime ≡ (model_row m hmm).regime)))
        × (r.p_trend ≡ (model_row m hmm).p_trend)
        × (r.p_range ≡ (model_row m hmm).p_range)
        × (r.p_shock ≡ (model_row m hmm).p_shock)
  unfolding gate
  predict_regimes_override rows i hmm hurst ker a on e =
      let at = predict_regimes-at rows i hmm (some a) e in
      elim (Bool-cases (f.le cfg.shock_atr_percentile a)) [
        | inl high ↦ (
          override_row cfg (some a) (model_row m hmm),
          at,
          inl (ground arith, ground arith),
          ground arith,
          ground arith,
          ground arith,
        )
        | inr low ↦ (
          override_row cfg (some a) (model_row m hmm),
          at,
          inr ((λ k. ground arith), ground arith),
          ground arith,
          ground arith,
          ground arith,
        )
      ]

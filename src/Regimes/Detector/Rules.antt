-- ===== src/Regimes/Detector/Rules.antt =====
-- The vectorised rules of src/aurax/l2_regime/detector.py against the scalar gate.
use aura_x.Prelude.{ℕ, zero, suc, ◌≡◌, refl, none, some, List, [], ◌∷◌, length, Float, arith}
use aura_x.Market.{Regime}
use aura_x.Regimes.Detector.{RegimeConfig, gate, predict_rules, assign}

module _ {ℓ} {F : Type ℓ} ⦃f : Float F⦄ (cfg : RegimeConfig F) where
  -- The scalar gate, row by row.
  abbrev pub gates : List F → List F → List F → List Regime
  gates [] ker atr = []
  gates (h ∷ hurst) [] atr = []
  gates (h ∷ hurst) (k ∷ ker) [] = []
  gates (h ∷ hurst) (k ∷ ker) (a ∷ atr) = gate cfg h k (some a) ∷ gates hurst ker atr

  abbrev pub gates_no_atr : List F → List F → List Regime
  gates_no_atr [] ker = []
  gates_no_atr (h ∷ hurst) [] = []
  gates_no_atr (h ∷ hurst) (k ∷ ker) = gate cfg h k none ∷ gates_no_atr hurst ker

  -- On a frame with the memory columns, with or without the ATR percentile, `predict_rules` is `gate`
  -- at every row, NaN cells included.
  pub predict_rules-eq-gates :
      (n : ℕ) (hurst ker atr : List F)
      → length hurst ≡ n
      → length ker ≡ n
      → length atr ≡ n
      → (predict_rules cfg n (some hurst) (some ker) (some atr) ≡ gates hurst ker atr)
        × (predict_rules cfg n (some hurst) (some ker) none ≡ gates_no_atr hurst ker)
  unfolding predict_rules assign gate
  predict_rules-eq-gates zero [] [] [] _ _ _ = (refl, refl)
  predict_rules-eq-gates (suc n) (h ∷ hurst) (k ∷ ker) (a ∷ atr) eh ek ea =
      ground (arith, predict_rules-eq-gates n hurst ker atr)
  predict_rules-eq-gates zero [] [] (a ∷ atr) eh ek ea = absurd (omega arith)
  predict_rules-eq-gates zero [] (k ∷ ker) atr eh ek ea = absurd (omega arith)
  predict_rules-eq-gates zero (h ∷ hurst) ker atr eh ek ea = absurd (omega arith)
  predict_rules-eq-gates (suc n) [] ker atr eh ek ea = absurd (omega arith)
  predict_rules-eq-gates (suc n) (h ∷ hurst) [] atr eh ek ea = absurd (omega arith)
  predict_rules-eq-gates (suc n) (h ∷ hurst) (k ∷ ker) [] eh ek ea = absurd (omega arith)

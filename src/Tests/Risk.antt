-- ===== src/Tests/Risk.antt =====
-- src/aurax/l6_risk/sizing.py at concrete requests.
use aura_x.Prelude.{
  ◌≡◌, refl, ◌⊎◌, true, false, none, some, List, [], ◌∷◌, All, nought, unit, Float, ok,
}
use aura_x.Prelude.Tests.{str_eq}
use aura_x.Prelude.Int.{◌-ℤ◌, floor_div, ◌*ℤ◌}
use aura_x.Prelude.Fixed.{quotient, Fixed, fixed_float, Fixed-IsOrdered}
use aura_x.Prelude.Dict.{keys}
use aura_x.Market.{long, short, trend, shock}
use aura_x.Risk.Records.{SizingRequest, circuit_breaker}
use aura_x.Risk.Formulas.{confidence_multiplier}
use aura_x.Risk.Formulas.Bounds.{confidence_multiplier_range}
use aura_x.Risk.Manager.{Decisions, evaluate, first_decisions, circuit_breaker_tripped}
use aura_x.Risk.Manager.StandDown.{Halted, evaluate_stands_down}
use aura_x.Risk.Manager.Breaker.{HaltedBy, evaluate_halts, evaluate-peak}
use aura_x.Risk.Manager.Sizes.{evaluate-Tradable}
use aura_x.Risk.Manager.Lots.{Made}
use aura_x.Tests.Data.{micro, num, inner, risk_config, request}

-- one leg to trade and one in a shock
abbrev two_legs : List (SizingRequest Fixed)
two_legs = request "EURUSD" long (some trend) ∷ request "GBPUSD" short (some shock) ∷ []

confidence_multiplier_range_example :
    (Float.le fixed_float nought (micro 700_000) ≡ true)
    × (Float.le fixed_float (micro 700_000) unit ≡ true)
    × (Float.le fixed_float nought (num 1) ≡ true)
    × (Float.le fixed_float (num 1) (num 1) ≡ true)
    × ((Float.lt fixed_float (micro 700_000) (micro 550_000) ≡ false) ⊎ (num 1 ≡ nought))
unfolding confidence_multiplier ◌-ℤ◌ floor_div ◌*ℤ◌ quotient
confidence_multiplier_range_example =
    confidence_multiplier_range Fixed-IsOrdered (micro 700_000) (micro 550_000) (micro 500_000)
      (num 1) refl refl

evaluate_stands_down_example :
    Halted inner risk_config "GBPUSD"
      (evaluate inner risk_config two_legs (num 10_000) none (num 10_000)).0
unfolding str_eq
evaluate_stands_down_example =
    evaluate_stands_down inner risk_config "GBPUSD" two_legs (num 10_000) none (num 10_000)
      (λ h. absurd cc, (λ _. refl, tt))

evaluate_halts_example :
    (ds : Decisions Fixed) × ((evaluate inner risk_config two_legs (num 8_000) none (num 10_000)).0
      ≡ ok ds)
    × (keys ds ≡ keys (first_decisions risk_config two_legs []))
    × All (HaltedBy circuit_breaker) ds
unfolding circuit_breaker_tripped quotient
evaluate_halts_example =
    evaluate_halts inner risk_config two_legs (num 8_000) none (num 10_000) refl

evaluate-peak_example :
    let peak' = (evaluate inner risk_config two_legs (num 11_000) none (num 10_000)).1 in
    (Float.le fixed_float (num 10_000) peak' ≡ true)
    × (Float.le fixed_float (num 11_000) peak' ≡ true)
    × ((peak' ≡ num 10_000) ⊎ (peak' ≡ num 11_000))
evaluate-peak_example =
    evaluate-peak Fixed-IsOrdered inner risk_config two_legs (num 11_000) none (num 10_000) refl
      refl

evaluate-Tradable_example :
    Made "EURUSD"
      (request "EURUSD" long (some trend))
      (evaluate inner risk_config two_legs (num 10_000) none (num 10_000)).0
unfolding str_eq
evaluate-Tradable_example =
    evaluate-Tradable Fixed-IsOrdered inner risk_config "EURUSD"
      (request "EURUSD" long (some trend)) two_legs (num 10_000) none (num 10_000)
      (λ _. refl, (λ h. absurd cc, tt))

-- ===== src/Risk/Records.antt =====
-- The requests, decisions and limits of src/aurax/l6_risk/sizing.py.
use aura_x.Prelude.{Bool, not, Option, String, Float, nought}
use aura_x.Prelude.Dict.{Dict}
use aura_x.Market.{Side, Regime, InstrumentSpec}

pub data SizingReason : Type 0 where
  approved_ok flat_side regime_standdown meta_gate circuit_breaker corr_capped below_min_lot :
      SizingReason

-- `SizingReason.value`
unfoldable pub reason_value : SizingReason → String
reason_value approved_ok = "ok"
reason_value flat_side = "flat"
reason_value regime_standdown = "regime_standdown"
reason_value meta_gate = "meta_gate"
reason_value circuit_breaker = "circuit_breaker"
reason_value corr_capped = "corr_capped"
reason_value below_min_lot = "below_min_lot"

pub record SizingRequest {ℓ} (F : Type ℓ) : Type ℓ where
  pub symbol : String
  pub side : Side
  pub meta_prob : F
  pub atr : F
  pub price : F
  pub spec : InstrumentSpec F
  pub regime : Option Regime

pub record SizingDecision {ℓ} (F : Type ℓ) : Type ℓ where
  pub symbol : String
  pub side : Side
  pub size_lots : F
  pub base_lots : F
  pub confidence_mult : F
  pub risk_fraction : F
  pub stop_distance : F
  pub reason : SizingReason

-- `SizingDecision.approved`
abbrev pub approved {ℓ} : {F : Type ℓ} ⦃f : Float F⦄ → SizingDecision F → Bool
approved ⦃f⦄ d = not (f.eq d.size_lots nought)

pub record RiskConfig {ℓ} (F : Type ℓ) : Type ℓ where
  pub risk_per_trade : F
  pub atr_stop_mult : F
  pub meta_threshold_tau : F
  pub kelly_fraction : F
  pub max_confidence_mult : F
  pub correlation_cap : F
  pub max_drawdown_breaker : F
  pub assumed_correlation : F
  pub account_ccy : String
  pub specs : Dict (InstrumentSpec F)

-- ===== src/Risk/Manager.antt =====
-- `RiskManager` of src/aurax/l6_risk/sizing.py. Its only state is the peak equity, which starts at
-- minus infinity; the decisions are objects in a dict, changed in place.
pub mod Legs
pub mod StandDown
pub mod Lots
pub mod Sizes
pub mod Breaker
use aura_x.Prelude.{
  ℕ, Bool, true, false, ◌||◌, Option, none, some, List, [], ◌∷◌, ◌++◌, map, length, String, Float,
  ◌⊕◌, ◌⊖◌, ◌⊗◌, ◌⊘◌, nought, unit, fmax, Result, ok, raise, or_raise, key_error, zero_division,
  ◌>>=◌, if◌then◌else◌,
}
use aura_x.Prelude.Dict.{Dict, lookup, insert, modify, modify_all}
use aura_x.Market.{Side, is_flat, side_int, Regime, is_shock}
use aura_x.Risk.Records.{
  SizingReason, approved_ok, flat_side, regime_standdown, meta_gate, circuit_breaker, corr_capped,
  below_min_lot, SizingRequest, SizingDecision, RiskConfig,
}
use aura_x.Risk.Formulas.{
  position_size_atr, confidence_multiplier, correlation_matrix, aggregate_correlated_risk,
  round_to_lot,
}

abbrev pub Decisions {ℓ} : Type ℓ → Type ℓ
Decisions F = Dict (SizingDecision F)

abbrev pub shocked : Option Regime → Bool
shocked none = false
shocked (some g) = is_shock g

module _ {ℓ} {F : Type ℓ} ⦃f : Float F⦄ where
  -- `circuit_breaker_tripped`: the answer and the new peak
  unfoldable pub circuit_breaker_tripped : RiskConfig F → F → F → Bool × F
  circuit_breaker_tripped cfg equity peak =
      let peak' = fmax peak equity in
      (
        if f.le peak' nought
            then false
            else f.le cfg.max_drawdown_breaker ((peak' ⊖ equity) ⊘ peak'),
        peak',
      )

  abbrev pub set_reason : SizingReason → SizingDecision F → SizingDecision F
  set_reason reason d = record d { reason = reason }

  abbrev pub first_decision : RiskConfig F → SizingRequest F → SizingDecision F
  first_decision cfg r = record {
    symbol = r.symbol;
    side = r.side;
    size_lots = nought;
    base_lots = nought;
    confidence_mult = nought;
    risk_fraction = nought;
    stop_distance = cfg.atr_stop_mult ⊗ r.atr;
    reason = flat_side;
  }

  -- the dict comprehension: a later request for a symbol replaces an earlier one
  pub first_decisions : RiskConfig F → List (SizingRequest F) → Decisions F → Decisions F
  first_decisions cfg [] ds = ds
  first_decisions cfg (r ∷ rs) ds =
      first_decisions cfg rs (insert r.symbol (first_decision cfg r) ds)

  -- the provisional size of a gated request
  abbrev pub sized : RiskConfig F → F → SizingRequest F → F → SizingDecision F → SizingDecision F
  sized cfg equity r conf d =
      let base =
        position_size_atr (equity ⊗ cfg.risk_per_trade) r.atr cfg.atr_stop_mult r.spec.contract_size
          unit in
      record d {
        base_lots = base;
        confidence_mult = conf;
        size_lots = f.of_int (side_int r.side) ⊗ base ⊗ conf;
        risk_fraction = cfg.risk_per_trade ⊗ conf;
        reason = approved_ok;
      }

  -- the gate on the confidence, step 3
  pub gate_meta : RiskConfig F → F → SizingRequest F → Decisions F → F → Decisions F × Bool
  gate_meta cfg equity r ds conf =
      if f.le conf nought
      then (modify r.symbol (set_reason meta_gate) ds, false)
      else (modify r.symbol (sized cfg equity r conf) ds, true)

  -- one request of the loop of steps 2 to 5: the decisions, and whether the leg is active
  pub gate_leg : RiskConfig F → F → SizingRequest F → Decisions F → Result (Decisions F × Bool)
  gate_leg cfg equity r ds =
      if is_flat r.side
      then ok (modify r.symbol (set_reason flat_side) ds, false)
      else if shocked r.regime
      then ok (modify r.symbol (set_reason regime_standdown) ds, false)
      else do
        conf ←
            confidence_multiplier r.meta_prob cfg.meta_threshold_tau cfg.kelly_fraction
              cfg.max_confidence_mult
        ok (gate_meta cfg equity r ds conf)

  pub gate_legs :
      RiskConfig F
      → F
      → List (SizingRequest F)
      → Decisions F
      → List (SizingRequest F)
      → Result (Decisions F × List (SizingRequest F))
  gate_legs cfg equity [] ds active = ok (ds, active)
  gate_legs cfg equity (r ∷ rs) ds active = gate_leg cfg equity r ds >>= λ step.
      gate_legs cfg equity rs step.0 (if step.1 then active ++ (r ∷ []) else active)

  -- a request's symbol is always a key
  abbrev pub risk_of : Decisions F → SizingRequest F → F
  risk_of ds r = elim (lookup r.symbol ds) [
    | none ↦ nought
    | some d ↦ d.risk_fraction ⊗ f.of_int (side_int r.side)
  ]

  abbrev pub capped : F → SizingDecision F → SizingDecision F
  capped scale d = record d {
    size_lots = d.size_lots ⊗ scale;
    risk_fraction = d.risk_fraction ⊗ scale;
    reason = corr_capped;
  }

  pub scale_legs : F → List (SizingRequest F) → Decisions F → Decisions F
  scale_legs scale [] ds = ds
  scale_legs scale (r ∷ rs) ds = scale_legs scale rs (modify r.symbol (capped scale) ds)

  -- the covariance risk of the active legs, with numpy's inner product
  abbrev pub leg_risk :
      (List F → List F → F) → RiskConfig F → Option F → List (SizingRequest F) → Decisions F → F
  leg_risk dot cfg correlation active ds =
      let rho : F = elim correlation [ none ↦ cfg.assumed_correlation | some c ↦ c ] in
      aggregate_correlated_risk dot (map (λ q. risk_of ds q) active)
        (correlation_matrix (length active) rho)

  -- step 6
  pub cap_legs :
      (List F → List F → F)
      → RiskConfig F
      → Option F
      → List (SizingRequest F)
      → Decisions F
      → Result (Decisions F)
  cap_legs dot cfg correlation [] ds = ok ds
  cap_legs dot cfg correlation (r ∷ rs) ds =
      let agg = leg_risk dot cfg correlation (r ∷ rs) ds in
      if f.lt cfg.correlation_cap agg
      then if f.eq agg nought
        then raise zero_division
        else ok (scale_legs (cfg.correlation_cap ⊘ agg) (r ∷ rs) ds)
      else ok ds

  -- a leg of step 7, with its rounded lots
  abbrev pub finished : F → SizingRequest F → F → SizingDecision F → SizingDecision F
  finished equity r rounded d =
      if f.le rounded nought
      then record d { size_lots = nought; risk_fraction = nought; reason = below_min_lot }
      else record d {
        size_lots = f.of_int (side_int r.side) ⊗ rounded;
        risk_fraction = rounded ⊗ r.spec.contract_size ⊗ d.stop_distance ⊗ unit ⊘ equity;
      }

  pub round_leg : F → SizingRequest F → Decisions F → Result (Decisions F)
  round_leg equity r ds = do
    d ← or_raise (lookup r.symbol ds) key_error
    rounded ← round_to_lot (f.abs d.size_lots) r.spec
    ok (modify r.symbol (finished equity r rounded) ds)

  pub round_legs : F → List (SizingRequest F) → Decisions F → Result (Decisions F)
  round_legs equity [] ds = ok ds
  round_legs equity (r ∷ rs) ds = round_leg equity r ds >>= round_legs equity rs

  -- steps 2 to 7
  pub size_all :
      (List F → List F → F)
      → RiskConfig F
      → F
      → Option F
      → List (SizingRequest F)
      → Result (Decisions F)
  size_all dot cfg equity correlation requests =
      gate_legs cfg equity requests (first_decisions cfg requests []) [] >>= λ gated.
      cap_legs dot cfg correlation gated.1 gated.0 >>= round_legs equity gated.1

  -- `evaluate`: the decisions, or the exception, and the new peak
  pub evaluate :
      (List F → List F → F)
      → RiskConfig F
      → List (SizingRequest F)
      → F
      → Option F
      → F
      → Result (Decisions F) × F
  evaluate dot cfg requests equity correlation peak =
      let (tripped, peak') = circuit_breaker_tripped cfg equity peak in
      (
        if tripped || f.le equity nought
            then ok (modify_all (set_reason circuit_breaker) (first_decisions cfg requests []))
            else size_all dot cfg equity correlation requests,
        peak',
      )

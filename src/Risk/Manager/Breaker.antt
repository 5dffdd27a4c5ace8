-- ===== src/Risk/Manager/Breaker.antt =====
-- The circuit breaker and the peak equity of src/aurax/l6_risk/sizing.py.
use aura_x.Prelude.{
  ◌≡◌, refl, ◌⊎◌, true, ◌||◌, Option, List, [], ◌∷◌, String, Float, IsOrdered, nought, ok, arith,
  All,
}
use aura_x.Prelude.Dict.{insert, modify_all, keys, keys-modify_all}
use aura_x.Risk.Records.{SizingRequest, SizingDecision, SizingReason, RiskConfig, circuit_breaker}
use aura_x.Risk.Manager.{
  Decisions, first_decision, first_decisions, evaluate, circuit_breaker_tripped, set_reason,
}

module _ {ℓ} {F : Type ℓ} ⦃f : Float F⦄ where
  abbrev pub Unsized : String × SizingDecision F → Type ℓ
  Unsized (k, d) = d.size_lots ≡ nought

  abbrev pub HaltedBy : SizingReason → String × SizingDecision F → Type ℓ
  HaltedBy reason (k, d) = (d.size_lots ≡ nought) × (d.reason ≡ reason)

  insert-Unsized :
      (k : String) (d : SizingDecision F) (ds : Decisions F)
      → d.size_lots ≡ nought
      → All Unsized ds
      → All Unsized (insert k d ds)
  insert-Unsized k d [] e h = (e, tt)
  insert-Unsized k d ((j, w) ∷ ds) e h = ground (arith, insert-Unsized k d ds e h.1)

  first_decisions-Unsized :
      (cfg : RiskConfig F) (rs : List (SizingRequest F)) (ds : Decisions F)
      → All Unsized ds
      → All Unsized (first_decisions cfg rs ds)
  unfolding first_decisions
  first_decisions-Unsized cfg [] ds h = h
  first_decisions-Unsized cfg (r ∷ rs) ds h =
      first_decisions-Unsized cfg rs (insert r.symbol (first_decision cfg r) ds)
        (insert-Unsized r.symbol (first_decision cfg r) ds refl h)

  halt-All :
      (reason : SizingReason) (ds : Decisions F)
      → All Unsized ds
      → All (HaltedBy reason) (modify_all (set_reason reason) ds)
  halt-All reason [] h = tt
  halt-All reason ((k, d) ∷ ds) (e, h) = ((e, refl), halt-All reason ds h)

  -- If the breaker trips or the equity is not positive, `evaluate` raises nothing, decides about the
  -- same symbols as without a halt, and gives every one of them size zero and the breaker's reason.
  pub evaluate_halts :
      (dot : List F → List F → F) (cfg : RiskConfig F) (requests : List (SizingRequest F))
      (equity : F) (correlation : Option F) (peak : F)
      → (circuit_breaker_tripped cfg equity peak).0 || f.le equity nought ≡ true
      → (ds : Decisions F) × ((evaluate dot cfg requests equity correlation peak).0 ≡ ok ds)
        × (keys ds ≡ keys (first_decisions cfg requests []))
        × All (HaltedBy circuit_breaker) ds
  unfolding evaluate
  evaluate_halts dot cfg requests equity correlation peak halted =
      let first = first_decisions cfg requests [] in
      (
        modify_all (set_reason circuit_breaker) first,
        rw halted,
        keys-modify_all (set_reason circuit_breaker) first,
        halt-All circuit_breaker first (first_decisions-Unsized cfg requests [] tt),
      )

  -- Between numbers the new peak is the greater of the old one and the equity, on every branch of
  -- `evaluate`, exceptions included: the drawdown is measured from a running maximum.
  pub evaluate-peak :
      IsOrdered F
      → (dot : List F → List F → F) (cfg : RiskConfig F) (requests : List (SizingRequest F))
        (equity : F) (correlation : Option F) (peak : F)
      → f.le peak peak ≡ true
      → f.le equity equity ≡ true
      → let peak' = (evaluate dot cfg requests equity correlation peak).1 in
        (f.le peak peak' ≡ true) × (f.le equity peak' ≡ true) × ((peak' ≡ peak) ⊎ (peak' ≡ equity))
  unfolding evaluate circuit_breaker_tripped
  evaluate-peak laws dot cfg requests equity correlation peak p e =
      ground (arith, laws.lt-le peak equity, laws.not-lt-le peak equity p e)

-- ===== src/Risk/Manager/StandDown.antt =====
-- What `evaluate` of src/aurax/l6_risk/sizing.py never sizes.
use aura_x.Prelude.{
  refl, ◌≡◌, inl, inr, any, false, ◌||◌, Option, none, some, List, [], String, Float, nought,
  Result, ok, raise, ◌>>=◌, Bool-cases,
}
use aura_x.Prelude.Dict.{lookup, lookup-modify_all}
use aura_x.Risk.Records.{SizingRequest, SizingDecision, RiskConfig, circuit_breaker}
use aura_x.Risk.Manager.{
  Decisions, first_decisions, gate_legs, cap_legs, round_legs, size_all, evaluate,
  circuit_breaker_tripped, set_reason,
}
use aura_x.Risk.Manager.Legs.{
  Idle, is_for, Blocked, StandsDown, Keeps, first_decisions-Idle, gate_legs-StandsDown,
  cap_legs-Keeps, round_legs-Keeps,
}

module _ {ℓ} {F : Type ℓ} ⦃f : Float F⦄ (dot : List F → List F → F) (cfg : RiskConfig F) where
  -- an exception, or an idle decision
  abbrev pub Halted : String → Result (Decisions F) → Type ℓ
  Halted k (raise e) = Unit
  Halted k (ok ds) = Idle (lookup k ds)

  after_round :
      (k : String) (ds : Decisions F) (y : Result (Decisions F))
      → Idle (lookup k ds)
      → Keeps k ds y
      → Halted k y
  after_round k ds (raise e) i q = tt
  after_round k ds (ok ds') i q = rw q i

  after_cap :
      (equity : F) (k : String) (active : List (SizingRequest F)) (ds : Decisions F)
      (capped : Result (Decisions F))
      → any (is_for k) active ≡ false
      → Idle (lookup k ds)
      → Keeps k ds capped
      → Halted k (capped >>= round_legs equity active)
  after_cap equity k active ds (raise e) n i q = tt
  after_cap equity k active ds (ok ds') n i q =
      after_round k ds' (round_legs equity active ds') (rw q i)
        (round_legs-Keeps equity k active ds' n)

  after_gate :
      (equity : F) (correlation : Option F) (k : String)
      (gated : Result (Decisions F × List (SizingRequest F)))
      → StandsDown k gated
      → Halted k (gated >>= λ g. cap_legs dot cfg correlation g.1 g.0 >>= round_legs equity g.1)
  after_gate equity correlation k (raise e) h = tt
  after_gate equity correlation k (ok (ds, active)) (i, n) =
      after_cap equity k active ds (cap_legs dot cfg correlation active ds) n i
        (cap_legs-Keeps dot cfg correlation k active ds n)

  unsized :
      (o : Option (SizingDecision F))
      → Idle o
      → Idle (elim o [ none ↦ none | some d ↦ some (set_reason circuit_breaker d) ])
  unsized none i = tt
  unsized (some d) i = i

  -- If every request for a symbol is flat or comes in a shock regime, `evaluate` gives the symbol no
  -- size, whatever the other requests, the correlation and the equity are.
  pub evaluate_stands_down :
      (k : String) (requests : List (SizingRequest F)) (equity : F) (correlation : Option F)
      (peak : F)
      → Blocked k requests
      → Halted k (evaluate dot cfg requests equity correlation peak).0
  unfolding evaluate size_all
  evaluate_stands_down k requests equity correlation peak b =
      let first = first_decisions cfg requests [] in
      let idle : Idle (lookup k first) = first_decisions-Idle cfg k requests [] tt in
      let sized : Halted k (size_all dot cfg equity correlation requests) =
        after_gate equity correlation k (gate_legs cfg equity requests first [])
          (gate_legs-StandsDown cfg equity k requests first [] b idle refl) in
      elim (Bool-cases ((circuit_breaker_tripped cfg equity peak).0 || f.le equity nought)) [
        | inl halted ↦
            rw (halted, lookup-modify_all k (set_reason circuit_breaker) first)
              (unsized (lookup k first) idle)
        | inr trading ↦ rw trading sized
      ]

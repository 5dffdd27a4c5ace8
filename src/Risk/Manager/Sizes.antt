-- ===== src/Risk/Manager/Sizes.antt =====
-- The sizes that come out of `evaluate` of src/aurax/l6_risk/sizing.py.
use aura_x.Prelude.{
  ◌≡◌, ◌⊎◌, inl, inr, true, false, ◌||◌, Option, none, some, List, [], String, Float, IsOrdered,
  nought, Result, ok, raise, any, ◌>>=◌, Bool-cases,
}
use aura_x.Prelude.Dict.{lookup, lookup-modify_all}
use aura_x.Risk.Records.{SizingRequest, SizingDecision, RiskConfig, circuit_breaker}
use aura_x.Risk.Manager.{
  Decisions, first_decisions, gate_legs, cap_legs, round_legs, size_all, evaluate,
  circuit_breaker_tripped, set_reason,
}
use aura_x.Risk.Manager.Legs.{Idle, is_for, first_decisions-Idle, Keeps, cap_legs-Keeps}
use aura_x.Risk.Manager.Lots.{Tradable, Made, Only, Ready, round_legs-Made, gate_legs-Ready}

module _ {ℓ} {F : Type ℓ} ⦃f : Float F⦄ (laws : IsOrdered F) where
  Idle-Tradable : (r : SizingRequest F) (o : Option (SizingDecision F)) → Idle o → Tradable r o
  Idle-Tradable r none i = tt
  Idle-Tradable r (some d) i = inl i

  unsized-Tradable :
      (r : SizingRequest F) (o : Option (SizingDecision F))
      → Idle o
      → Tradable r (elim o [ none ↦ none | some d ↦ some (set_reason circuit_breaker d) ])
  unsized-Tradable r none i = tt
  unsized-Tradable r (some d) i = inl i

  module _ (dot : List F → List F → F) (cfg : RiskConfig F) where
    after_cap :
        (equity : F) (k : String) (r : SizingRequest F) (active : List (SizingRequest F))
        (ds : Decisions F) (capped : Result (Decisions F))
        → Only k r active
        → (any (is_for k) active ≡ true) ⊎ (Keeps k ds capped × Idle (lookup k ds))
        → Made k r (capped >>= round_legs equity active)
    after_cap equity k r active ds (raise e) only h = tt
    after_cap equity k r active ds (ok ds') only (inl own) =
        round_legs-Made laws equity k r active ds' only (inl own)
    after_cap equity k r active ds (ok ds') only (inr (same, i)) =
        round_legs-Made laws equity k r active ds' only
          (inr (rw same (Idle-Tradable r (lookup k ds) i)))

    after_gate :
        (equity : F) (correlation : Option F) (k : String) (r : SizingRequest F)
        (gated : Result (Decisions F × List (SizingRequest F)))
        → Ready k r gated
        → Made k r (gated >>= λ g. cap_legs dot cfg correlation g.1 g.0 >>= round_legs equity g.1)
    after_gate equity correlation k r (raise e) h = tt
    after_gate equity correlation k r (ok (ds, active)) (h, only) =
        after_cap equity k r active ds (cap_legs dot cfg correlation active ds) only
          (elim (Bool-cases (any (is_for k) active)) [
            | inl own ↦ inl own
            | inr other ↦ inr (cap_legs-Keeps dot cfg correlation k active ds other, idle other h)
          ])
      where
        idle :
            any (is_for k) active ≡ false
            → (any (is_for k) active ≡ true) ⊎ Idle (lookup k ds)
            → Idle (lookup k ds)
        idle n (inl a) = cc
        idle n (inr i) = i

    -- If `r` is the only request for its symbol and `evaluate` returns, the symbol's size is zero, or
    -- a lot in the direction of `r`: a whole number of the broker's steps, at least the minimum lot.
    pub evaluate-Tradable :
        (k : String) (r : SizingRequest F) (requests : List (SizingRequest F)) (equity : F)
        (correlation : Option F) (peak : F)
        → Only k r requests
        → Made k r (evaluate dot cfg requests equity correlation peak).0
    unfolding evaluate size_all
    evaluate-Tradable k r requests equity correlation peak only =
        let first = first_decisions cfg requests [] in
        let idle : Idle (lookup k first) = first_decisions-Idle cfg k requests [] tt in
        elim (Bool-cases ((circuit_breaker_tripped cfg equity peak).0 || f.le equity nought)) [
          | inl halted ↦
              rw (halted, lookup-modify_all k (set_reason circuit_breaker) first)
                (unsized-Tradable r (lookup k first) idle)
          | inr trading ↦ rw trading (
              after_gate equity correlation k r (gate_legs cfg equity requests first [])
                (gate_legs-Ready cfg equity k r requests first [] only tt (inr idle)))
        ]

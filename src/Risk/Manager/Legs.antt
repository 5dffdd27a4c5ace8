-- ===== src/Risk/Manager/Legs.antt =====
-- The steps of `evaluate` of src/aurax/l6_risk/sizing.py, seen from the decision of one symbol.
use aura_x.Prelude.{
  ◌≡◌, refl, ◌∙◌, ◌⊎◌, inl, inr, Bool, true, false, ◌||◌, Option, none, some, List, [], ◌∷◌, ◌++◌,
  String, Float, ◌⊘◌, nought, Result, ok, raise, arith, All, any, str_eq, if◌then◌else◌, Bool-cases,
  Option-cases, Result-cases, ◌>>=◌,
}
use aura_x.Prelude.Dict.{lookup, insert, lookup-insert, modify, lookup-modify}
use aura_x.Market.{is_flat}
use aura_x.Risk.Records.{
  meta_gate, flat_side, regime_standdown, SizingRequest, SizingDecision, RiskConfig,
}
use aura_x.Risk.Formulas.{confidence_multiplier, round_to_lot}
use aura_x.Risk.Manager.{
  Decisions, shocked, first_decision, first_decisions, gate_leg, gate_meta, set_reason, gate_legs,
  sized, scale_legs, capped, cap_legs, leg_risk, round_leg, round_legs, finished,
}

module _ {ℓ} {F : Type ℓ} ⦃f : Float F⦄ where
  -- no decision, or one of size zero
  abbrev pub Idle : Option (SizingDecision F) → Type ℓ
  Idle none = Unit
  Idle (some d) = d.size_lots ≡ nought

  abbrev pub is_for : String → SizingRequest F → Bool
  is_for k r = str_eq k r.symbol

  pub first_decisions-Idle :
      (cfg : RiskConfig F) (k : String) (rs : List (SizingRequest F)) (ds : Decisions F)
      → Idle (lookup k ds)
      → Idle (lookup k (first_decisions cfg rs ds))
  unfolding first_decisions
  first_decisions-Idle cfg k [] ds h = h
  first_decisions-Idle cfg k (r ∷ rs) ds h =
      first_decisions-Idle cfg k rs (insert r.symbol (first_decision cfg r) ds)
        (ground (arith, lookup-insert k r.symbol (first_decision cfg r) ds))

  modify-Idle :
      (k j : String) (g : SizingDecision F → SizingDecision F) (ds : Decisions F)
      → ((d : SizingDecision F) → (g d).size_lots ≡ d.size_lots)
      → Idle (lookup k ds)
      → Idle (lookup k (modify j g ds))
  modify-Idle k j g ds same h = rw (lookup-modify k j g ds) (after (str_eq k j) (lookup k ds) h)
    where
      after :
          (b : Bool) (o : Option (SizingDecision F))
          → Idle o
          → Idle (if b then elim o [ none ↦ none | some v ↦ some (g v) ] else o)
      after true none i = tt
      after true (some d) i = same d ∙ i
      after false o i = i

  -- A leg of the gate leaves a decision idle, or it is its own and becomes active; a flat side or a
  -- shock never does.
  abbrev pub Gated : String → SizingRequest F → Result (Decisions F × Bool) → Type ℓ
  Gated k r (raise e) = Unit
  Gated k r (ok (ds, act)) =
      ((act ≡ true → is_flat r.side || shocked r.regime ≡ false))
      × (Idle (lookup k ds) ⊎ ((is_for k r ≡ true) × (act ≡ true)))

  gate_meta-Idle :
      (cfg : RiskConfig F) (equity : F) (r : SizingRequest F) (ds : Decisions F) (k : String)
      (conf : F)
      → Idle (lookup k ds)
      → let (ds', act) = gate_meta cfg equity r ds conf in
        Idle (lookup k ds') ⊎ ((is_for k r ≡ true) × (act ≡ true))
  unfolding gate_meta
  gate_meta-Idle cfg equity r ds k conf h = ground (
    arith,
    modify-Idle k r.symbol (set_reason meta_gate) ds (λ d. refl) h,
    lookup-modify k r.symbol (sized cfg equity r conf) ds,
  )

  pub gate_leg-Gated :
      (cfg : RiskConfig F) (equity : F) (r : SizingRequest F) (ds : Decisions F) (k : String)
      → Idle (lookup k ds)
      → Gated k r (gate_leg cfg equity r ds)
  unfolding gate_leg
  gate_leg-Gated cfg equity r ds k h =
      elim (Result-cases (
        confidence_multiplier r.meta_prob cfg.meta_threshold_tau cfg.kelly_fraction
          cfg.max_confidence_mult)) [
            | inr (x, e) ↦ ground (
              arith,
              modify-Idle k r.symbol (set_reason flat_side) ds (λ d. refl) h,
              modify-Idle k r.symbol (set_reason regime_standdown) ds (λ d. refl) h,
            )
            | inl (conf, e) ↦ ground (
              arith,
              modify-Idle k r.symbol (set_reason flat_side) ds (λ d. refl) h,
              modify-Idle k r.symbol (set_reason regime_standdown) ds (λ d. refl) h,
              gate_meta-Idle cfg equity r ds k conf h,
            )
          ]

  -- Every request for the symbol has no side or comes in a shock.
  abbrev pub Blocked : String → List (SizingRequest F) → Type 0
  Blocked k rs = All (λ r. is_for k r ≡ true → is_flat r.side || shocked r.regime ≡ true) rs

  abbrev pub StandsDown : String → Result (Decisions F × List (SizingRequest F)) → Type ℓ
  StandsDown k (raise e) = Unit
  StandsDown k (ok (ds, active)) = Idle (lookup k ds) × (any (is_for k) active ≡ false)

  pub any-active :
      (k : String) (active : List (SizingRequest F)) (r : SizingRequest F)
      → any (is_for k) (active ++ (r ∷ [])) ≡ any (is_for k) active || is_for k r
  any-active k [] r = ground arith
  any-active k (q ∷ active) r = ground (arith, any-active k active r)

  gate_step-StandsDown :
      (cfg : RiskConfig F) (equity : F) (r : SizingRequest F) (k : String)
      (active : List (SizingRequest F)) (step : Result (Decisions F × Bool))
      → (is_for k r ≡ true → is_flat r.side || shocked r.regime ≡ true)
      → any (is_for k) active ≡ false
      → Gated k r step
      → StandsDown k (step >>= λ (ds, act). ok (ds, if act then active ++ (r ∷ []) else active))
  gate_step-StandsDown cfg equity r k active (raise e) b n g = tt
  gate_step-StandsDown cfg equity r k active (ok (ds, true)) b n g =
      ground (arith, any-active k active r, g.0)
  gate_step-StandsDown cfg equity r k active (ok (ds, false)) b n (_, inl i) = (i, n)
  gate_step-StandsDown cfg equity r k active (ok (ds, false)) b n (_, inr (_, bad)) = cc

  pub gate_legs-StandsDown :
      (cfg : RiskConfig F) (equity : F) (k : String) (rs : List (SizingRequest F))
      (ds : Decisions F) (active : List (SizingRequest F))
      → Blocked k rs
      → Idle (lookup k ds)
      → any (is_for k) active ≡ false
      → StandsDown k (gate_legs cfg equity rs ds active)
  unfolding gate_legs
  gate_legs-StandsDown cfg equity k [] ds active b i n = (i, n)
  gate_legs-StandsDown cfg equity k (r ∷ rs) ds active (b, bs) i n =
      go (gate_leg cfg equity r ds)
        (gate_step-StandsDown cfg equity r k active _ b n (gate_leg-Gated cfg equity r ds k i))
        (λ ds' active' i' n'. gate_legs-StandsDown cfg equity k rs ds' active' bs i' n')
    where
      go :
          (step : Result (Decisions F × Bool))
          → StandsDown k (step >>= λ (ds, act). ok (ds, if act then active ++ (r ∷ []) else active))
          → ((ds' : Decisions F) (active' : List (SizingRequest F))
              → Idle (lookup k ds')
              → any (is_for k) active' ≡ false
              → StandsDown k (gate_legs cfg equity rs ds' active'))
          → StandsDown k (
              step >>= λ step.
              gate_legs cfg equity rs step.0 (if step.1 then active ++ (r ∷ []) else active))
      go (raise e) h ih = tt
      go (ok (ds', act)) h ih = ih ds' (if act then active ++ (r ∷ []) else active) h.0 h.1

  -- The later steps touch the decisions of the active legs alone.
  pub scale_legs-other :
      (scale : F) (k : String) (rs : List (SizingRequest F)) (ds : Decisions F)
      → any (is_for k) rs ≡ false
      → lookup k (scale_legs scale rs ds) ≡ lookup k ds
  unfolding scale_legs
  scale_legs-other scale k [] ds n = refl
  scale_legs-other scale k (r ∷ rs) ds n = ground (
    arith,
    scale_legs-other scale k rs (modify r.symbol (capped scale) ds),
    lookup-modify k r.symbol (capped scale) ds,
  )

  -- What a later step must keep to leave the symbol's decision alone.
  abbrev pub Keeps : String → Decisions F → Result (Decisions F) → Type ℓ
  Keeps k ds (raise e) = Unit
  Keeps k ds (ok ds') = lookup k ds' ≡ lookup k ds

  pub cap_legs-Keeps :
      (dot : List F → List F → F) (cfg : RiskConfig F) (correlation : Option F) (k : String)
      (rs : List (SizingRequest F)) (ds : Decisions F)
      → any (is_for k) rs ≡ false
      → Keeps k ds (cap_legs dot cfg correlation rs ds)
  unfolding cap_legs
  cap_legs-Keeps dot cfg correlation k [] ds n = refl
  cap_legs-Keeps dot cfg correlation k (r ∷ rs) ds n =
      let agg = leg_risk dot cfg correlation (r ∷ rs) ds in
      elim (Bool-cases (f.lt cfg.correlation_cap agg)) [
        | inl over ↦ elim (Bool-cases (f.eq agg nought)) [
          | inl zero ↦ rw (over, zero) tt
          | inr divides ↦
              rw (over, divides) (scale_legs-other (cfg.correlation_cap ⊘ agg) k (r ∷ rs) ds n)
        ]
        | inr under ↦ rw under
      ]

  pub round_leg-Keeps :
      (equity : F) (k : String) (r : SizingRequest F) (ds : Decisions F)
      → is_for k r ≡ false
      → Keeps k ds (round_leg equity r ds)
  unfolding round_leg
  round_leg-Keeps equity k r ds n = elim (Option-cases (lookup r.symbol ds)) [
    | inl gone ↦ rw gone tt
    | inr (d, there) ↦ rw there (after (round_to_lot (f.abs d.size_lots) r.spec))
  ]
    where
      after :
          (x : Result F)
          → Keeps k ds (x >>= λ rounded. ok (modify r.symbol (finished equity r rounded) ds))
      after (raise e) = tt
      after (ok rounded) = ground (arith, lookup-modify k r.symbol (finished equity r rounded) ds)

  pub round_legs-Keeps :
      (equity : F) (k : String) (rs : List (SizingRequest F)) (ds : Decisions F)
      → any (is_for k) rs ≡ false
      → Keeps k ds (round_legs equity rs ds)
  unfolding round_legs
  round_legs-Keeps equity k [] ds n = refl
  round_legs-Keeps equity k (r ∷ rs) ds n =
      go (round_leg equity r ds) (round_leg-Keeps equity k r ds (ground arith))
        (λ ds'. round_legs-Keeps equity k rs ds' (ground arith))
    where
      go :
          (x : Result (Decisions F))
          → Keeps k ds x
          → ((ds' : Decisions F) → Keeps k ds' (round_legs equity rs ds'))
          → Keeps k ds (x >>= round_legs equity rs)
      go (raise e) h ih = tt
      go (ok ds') h ih = keep (round_legs equity rs ds') (ih ds')
        where
          keep : (y : Result (Decisions F)) → Keeps k ds' y → Keeps k ds y
          keep (raise e) q = tt
          keep (ok ds'') q = q ∙ h

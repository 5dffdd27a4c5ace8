-- ===== src/Risk/Manager/Lots.antt =====
-- The lots that `evaluate` of src/aurax/l6_risk/sizing.py lets through.
use aura_x.Prelude.{
  ◌≡◌, sym, ◌∙◌, ◌⊎◌, inl, inr, Bool, true, false, Option, none, some, List, [], ◌∷◌, ◌++◌, String,
  Float, IsOrdered, ◌⊗◌, nought, Result, ok, raise, arith, All, All-append, any, ◌>>=◌,
  if◌then◌else◌, Bool-cases, Option-cases,
}
use aura_x.Prelude.Dict.{lookup, modify, lookup-modify}
use aura_x.Market.{side_int}
use aura_x.Risk.Records.{SizingRequest, SizingDecision, RiskConfig}
use mathlib.Core.Bool.{false≢true}
use aura_x.Risk.Formulas.{round_to_lot}
use aura_x.Risk.Formulas.Bounds.{IsLot, Rounds, round_to_lot-Rounds}
use aura_x.Risk.Manager.{Decisions, gate_leg, gate_legs, round_leg, round_legs, finished}
use aura_x.Risk.Manager.Legs.{
  Idle, is_for, Gated, Keeps, gate_leg-Gated, any-active, round_leg-Keeps,
}

module _ {ℓ} {F : Type ℓ} ⦃f : Float F⦄ where
  abbrev pub Tradable : SizingRequest F → Option (SizingDecision F) → Type ℓ
  Tradable r none = Unit
  Tradable r (some d) =
      (d.size_lots ≡ nought)
      ⊎ ((lots : F) × IsLot r.spec lots × (d.size_lots ≡ f.of_int (side_int r.side) ⊗ lots))

  abbrev pub Made : String → SizingRequest F → Result (Decisions F) → Type ℓ
  Made k r (raise e) = Unit
  Made k r (ok ds) = Tradable r (lookup k ds)

  -- With its lots rounded, the leg's own decision is tradable.
  finished-Tradable :
      IsOrdered F
      → (equity : F) (r : SizingRequest F) (rounded : F) (o : Option (SizingDecision F))
      → (rounded ≡ nought) ⊎ IsLot r.spec rounded
      → Tradable r (elim o [ none ↦ none | some d ↦ some (finished equity r rounded d) ])
  finished-Tradable laws equity r rounded none h = tt
  finished-Tradable laws equity r rounded (some d) h = elim (Bool-cases (f.le rounded nought)) [
    | inl zero_lots ↦ inl (ground arith)
    | inr lots ↦ inr (rounded, lot h lots, ground arith)
  ]
    where
      lot :
          (rounded ≡ nought) ⊎ IsLot r.spec rounded
          → f.le rounded nought ≡ false
          → IsLot r.spec rounded
      lot (inr l) _ = l
      lot (inl z) n = absurd (false≢true (sym (rw z at n) ∙ laws.nought_number))

  round_leg-Tradable :
      IsOrdered F
      → (equity : F) (k : String) (r : SizingRequest F) (ds : Decisions F) → is_for k r ≡ true
      → Made k r (round_leg equity r ds)
  unfolding round_leg
  round_leg-Tradable laws equity k r ds same = elim (Option-cases (lookup r.symbol ds)) [
    | inl gone ↦ rw gone tt
    | inr (d, there) ↦ rw there (
        after (round_to_lot (f.abs d.size_lots) r.spec)
          (round_to_lot-Rounds (f.abs d.size_lots) r.spec))
  ]
    where
      after :
          (x : Result F)
          → Rounds r.spec x
          → Made k r (x >>= λ rounded. ok (modify r.symbol (finished equity r rounded) ds))
      after (raise e) h = tt
      after (ok rounded) h =
          rw (lookup-modify k r.symbol (finished equity r rounded) ds, same)
            (finished-Tradable laws equity r rounded (lookup k ds) h)

  -- The symbol has no other request than `r`.
  abbrev pub Only : String → SizingRequest F → List (SizingRequest F) → Type ℓ
  Only k r rs = All (λ q. is_for k q ≡ true → q ≡ r) rs

  -- One rounding step, then the others.
  then-Made :
      (equity : F) (k : String) (r : SizingRequest F) (rs : List (SizingRequest F))
      (x : Result (Decisions F))
      → Made k r x
      → ((ds : Decisions F) → Tradable r (lookup k ds) → Made k r (round_legs equity rs ds))
      → Made k r (x >>= round_legs equity rs)
  then-Made equity k r rs (raise e) h ih = tt
  then-Made equity k r rs (ok ds) h ih = ih ds h

  kept-Made :
      (k : String) (r : SizingRequest F) (ds : Decisions F) (x : Result (Decisions F))
      → Keeps k ds x
      → Tradable r (lookup k ds)
      → Made k r x
  kept-Made k r ds (raise e) h t = tt
  kept-Made k r ds (ok ds') h t = rw h t

  pub round_legs-Made :
      IsOrdered F
      → (equity : F) (k : String) (r : SizingRequest F) (rs : List (SizingRequest F))
        (ds : Decisions F)
      → Only k r rs
      → (any (is_for k) rs ≡ true) ⊎ Tradable r (lookup k ds)
      → Made k r (round_legs equity rs ds)
  unfolding round_legs
  round_legs-Made laws equity k r [] ds only (inl never) = absurd (false≢true never)
  round_legs-Made laws equity k r [] ds only (inr t) = t
  round_legs-Made laws equity k r (q ∷ rs) ds (o, only) h = elim (Bool-cases (is_for k q)) [
    | inl own ↦
        then-Made equity k r rs (round_leg equity q ds)
          (rw (o own) (round_leg-Tradable laws equity k r ds (rw (o own) at own)))
          (λ ds' t. round_legs-Made laws equity k r rs ds' only (inr t))
    | inr other ↦
        go (round_leg equity q ds) (round_leg-Keeps equity k q ds other)
          (λ ds'. round_legs-Made laws equity k r rs ds' only) (ground arith)
  ]
    where
      go :
          (x : Result (Decisions F))
          → Keeps k ds x
          → ((ds' : Decisions F)
              → (any (is_for k) rs ≡ true) ⊎ Tradable r (lookup k ds')
              → Made k r (round_legs equity rs ds'))
          → (any (is_for k) rs ≡ true) ⊎ Tradable r (lookup k ds)
          → Made k r (x >>= round_legs equity rs)
      go (raise e) keep ih g = tt
      go (ok ds') keep ih (inl later) = ih ds' (inl later)
      go (ok ds') keep ih (inr t) = ih ds' (inr (rw keep t))

  abbrev pub Ready :
      String → SizingRequest F → Result (Decisions F × List (SizingRequest F)) → Type ℓ
  Ready k r (raise e) = Unit
  Ready k r (ok (ds, active)) =
      ((any (is_for k) active ≡ true) ⊎ Idle (lookup k ds)) × Only k r active

  gate_step-Ready :
      (k : String) (r q : SizingRequest F) (active : List (SizingRequest F)) (ds : Decisions F)
      (act : Bool)
      → (is_for k q ≡ true → q ≡ r)
      → Only k r active
      → (any (is_for k) active ≡ true) ⊎ (Idle (lookup k ds) ⊎ ((is_for k q ≡ true) × (act ≡ true)))
      → Ready k r (ok (ds, if act then active ++ (q ∷ []) else active))
  gate_step-Ready k r q active ds false o only (inl a) = (inl a, only)
  gate_step-Ready k r q active ds false o only (inr (inl i)) = (inr i, only)
  gate_step-Ready k r q active ds false o only (inr (inr (_, bad))) = cc
  gate_step-Ready k r q active ds true o only h = (
    ground (arith, any-active k active q),
    All-append (λ x. is_for k x ≡ true → x ≡ r) active (q ∷ []) only (o, tt),
  )

  pub gate_legs-Ready :
      (cfg : RiskConfig F) (equity : F) (k : String) (r : SizingRequest F)
      (rs : List (SizingRequest F)) (ds : Decisions F) (active : List (SizingRequest F))
      → Only k r rs
      → Only k r active
      → (any (is_for k) active ≡ true) ⊎ Idle (lookup k ds)
      → Ready k r (gate_legs cfg equity rs ds active)
  unfolding gate_legs
  gate_legs-Ready cfg equity k r [] ds active o only h = (h, only)
  gate_legs-Ready cfg equity k r (q ∷ rs) ds active (o, os) only h =
      go (gate_leg cfg equity q ds) (gate h)
        (λ ds' active' only' h'. gate_legs-Ready cfg equity k r rs ds' active' os only' h')
    where
      gate :
          (any (is_for k) active ≡ true) ⊎ Idle (lookup k ds)
          → (any (is_for k) active ≡ true) ⊎ Gated k q (gate_leg cfg equity q ds)
      gate (inl a) = inl a
      gate (inr i) = inr (gate_leg-Gated cfg equity q ds k i)

      go :
          (x : Result (Decisions F × Bool))
          → (any (is_for k) active ≡ true) ⊎ Gated k q x
          → ((ds' : Decisions F) (active' : List (SizingRequest F))
              → Only k r active'
              → (any (is_for k) active' ≡ true) ⊎ Idle (lookup k ds')
              → Ready k r (gate_legs cfg equity rs ds' active'))
          → Ready k r (
              x >>= λ step.
              gate_legs cfg equity rs step.0 (if step.1 then active ++ (q ∷ []) else active))
      go (raise e) g ih = tt
      go (ok (ds', act)) (inl a) ih =
          (let (h', only') = gate_step-Ready k r q active ds' act o only (inl a) in
            ih ds' _ only' h')
      go (ok (ds', act)) (inr g) ih =
          (let (h', only') = gate_step-Ready k r q active ds' act o only (inr g.1) in
            ih ds' _ only' h')

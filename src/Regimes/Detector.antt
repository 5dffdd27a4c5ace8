-- ===== src/Regimes/Detector.antt =====
-- `RegimeDetector` of src/aurax/l2_regime/detector.py. A frame is its columns, each a list with one
-- value per row, or none where the column is missing. The hidden Markov model enters by its
-- posteriors and its decoded states.
pub mod Rules
pub mod Override
use aura_x.Prelude.{
  ℕ, zero, suc, ◌==◌, Bool, true, false, not, ◌&&◌, ◌||◌, Option, none, some, List, [], ◌∷◌,
  replicate, get_elem?, length, Float, ◌⊕◌, nought, unit, if◌then◌else◌,
}
use aura_x.Market.{Regime, trend, range, shock}

pub record RegimeConfig {ℓ} (F : Type ℓ) : Type ℓ where
  pub hurst_trend_threshold : F
  pub ker_trend_threshold : F
  pub shock_atr_percentile : F
  pub n_states : ℕ
  pub shock_override : Bool

-- `regime[mask] = value`
pub assign : List Bool → Regime → List Regime → List Regime
assign [] value rs = rs
assign (m ∷ mask) value [] = []
assign (m ∷ mask) value (r ∷ rs) = (if m then value else r) ∷ assign mask value rs

abbrev pub at_least {ℓ} : {F : Type ℓ} ⦃f : Float F⦄ → F → List F → List Bool
at_least threshold [] = []
at_least ⦃f⦄ threshold (x ∷ xs) = f.le threshold x ∷ at_least threshold xs

-- `&` of two masks
abbrev pub both : List Bool → List Bool → List Bool
both [] ns = []
both (m ∷ ms) [] = []
both (m ∷ ms) (n ∷ ns) = (m && n) ∷ both ms ns

-- A row of `predict_regimes`.
pub record RegimeRow {ℓ} (F : Type ℓ) : Type ℓ where
  pub regime : Regime
  pub p_trend : F
  pub p_range : F
  pub p_shock : F

-- The states' names, a dict from state to regime.
abbrev pub StateMap : Type 0
StateMap = List (ℕ × Regime)

abbrev pub regime_of : ℕ → StateMap → Option Regime
regime_of s [] = none
regime_of s ((t, r) ∷ m) = if s == t then some r else regime_of s m

abbrev pub without : ℕ → List ℕ → List ℕ
without x [] = []
without x (s ∷ states) = let rest = without x states in if s == x then rest else s ∷ rest

name_rest : ℕ → List ℕ → StateMap
name_rest trend_state [] = []
name_rest trend_state (s ∷ rest) =
    (s, (if s == trend_state then trend else range)) ∷ name_rest trend_state rest

module _ {ℓ} {F : Type ℓ} ⦃f : Float F⦄ where
  pub gate : RegimeConfig F → F → F → Option F → Regime
  gate cfg hurst ker atr_percentile =
      let calm =
        if f.le cfg.hurst_trend_threshold hurst && f.le cfg.ker_trend_threshold ker
        then trend
        else range in
      elim atr_percentile [
        | none ↦ calm
        | some a ↦ if f.le cfg.shock_atr_percentile a then shock else calm
      ]

  -- the trend mask, where both memory columns are present
  abbrev pub mark_trend :
      RegimeConfig F → Option (List F) → Option (List F) → List Regime → List Regime
  mark_trend cfg (some hurst) (some ker) rs =
      assign
        (both (at_least cfg.hurst_trend_threshold hurst) (at_least cfg.ker_trend_threshold ker))
        trend rs
  mark_trend cfg (some hurst) none rs = rs
  mark_trend cfg none ker rs = rs

  abbrev pub mark_shock : RegimeConfig F → Option (List F) → List Regime → List Regime
  mark_shock cfg none rs = rs
  mark_shock cfg (some atr) rs = assign (at_least cfg.shock_atr_percentile atr) shock rs

  -- `predict_rules` over a frame of `n` rows
  pub predict_rules :
      RegimeConfig F → ℕ → Option (List F) → Option (List F) → Option (List F) → List Regime
  predict_rules cfg n hurst ker atr =
      mark_shock cfg atr (mark_trend cfg hurst ker (replicate n range))

  -- Python's `max(states, key=mean)`: the first state that no later one exceeds.
  pub arg_max : (ℕ → F) → ℕ → List ℕ → ℕ
  arg_max mean best [] = best
  arg_max mean best (s ∷ states) =
      arg_max mean (if f.lt (mean best) (mean s) then s else best) states

  -- `_learn_mapping` on the sorted distinct states, with the means of the two signatures.
  abbrev pub name_others : (ℕ → F) → List ℕ → StateMap
  unfolding name_rest
  name_others trend_mean [] = []
  name_others trend_mean (s ∷ rest) = name_rest (arg_max trend_mean s rest) (s ∷ rest)

  pub learn_mapping : (ℕ → F) → (ℕ → F) → ℕ → List ℕ → StateMap
  unfolding name_rest
  learn_mapping vol_mean trend_mean first states =
      let shock_state = arg_max vol_mean first states in
      (shock_state, shock) ∷ name_others trend_mean (without shock_state (first ∷ states))

  abbrev pub add_to : Regime → F → RegimeRow F → RegimeRow F
  add_to trend p r = record r { p_trend = r.p_trend ⊕ p }
  add_to range p r = record r { p_range = r.p_range ⊕ p }
  add_to shock p r = record r { p_shock = r.p_shock ⊕ p }

  abbrev pub get_prob : List F → ℕ → F
  get_prob proba s = elim (get_elem? proba s) [ none ↦ f.nan | some p ↦ p ]

  -- the state probabilities of a row, collapsed by regime
  pub collapse : StateMap → List F → RegimeRow F → RegimeRow F
  collapse [] proba r = r
  collapse ((s, g) ∷ m) proba r = collapse m proba (add_to g (get_prob proba s) r)

  -- A row without the model's features is `range`; with them it has its decoded state's name.
  pub model_row : StateMap → Option (List F × ℕ) → RegimeRow F
  model_row m none = record { regime = range; p_trend = nought; p_range = unit; p_shock = nought }
  model_row m (some (proba, state)) =
      record (collapse m proba
        (record { regime = range; p_trend = nought; p_range = nought; p_shock = nought })) {
          regime = elim (regime_of state m) [ none ↦ range | some g ↦ g ];
        }

  -- the override, where it is on and the column present
  abbrev pub override_row : RegimeConfig F → Option F → RegimeRow F → RegimeRow F
  override_row cfg none r = r
  override_row cfg (some a) r =
      if cfg.shock_override && f.le cfg.shock_atr_percentile a
      then record r { regime = shock }
      else r

  -- `predict_regimes`, row by row: what the fitted model says, and the row's ATR percentile
  pub predict_regimes :
      RegimeConfig F → StateMap → List (Option (List F × ℕ) × Option F) → List (RegimeRow F)
  predict_regimes cfg m [] = []
  predict_regimes cfg m ((hmm, atr) ∷ rows) =
      override_row cfg atr (model_row m hmm) ∷ predict_regimes cfg m rows

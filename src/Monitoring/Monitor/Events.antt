-- ===== src/Monitoring/Monitor/Events.antt =====
-- A monitor that is told of a sequence of regimes or of equities, with the log as its notifier.
use aura_x.Prelude.{
  ◌≡◌, refl, sym, ap, ◌∙◌, Option, none, some, List, [], ◌∷◌, ◌++◌ as append, String, Float, fmax,
  if◌then◌else◌, Bool-cases, Option-cases, inl, inr,
}
use aura_x.Prelude.Tests.{str_eq}
use aura_x.Monitoring.Alerts.{breach, regime_flip, format_alert, Log, log_notifier}
use aura_x.Monitoring.Decay.{Columns}
use aura_x.Monitoring.Monitor.{
  MonitorConfig, Monitor, on_regime, update_equity, flip, drawdown, breach_text,
}

append_assoc {ℓ} :
    {A : Type ℓ} (xs : List A) (y : A) (zs : List A)
    → append (append xs (y ∷ [])) zs ≡ append xs (y ∷ zs)
append_assoc [] y zs = refl
append_assoc (x ∷ xs) y zs = ap (◌∷◌ x) (append_assoc xs y zs)

append_nil {ℓ} : {A : Type ℓ} (xs : List A) → append xs [] ≡ xs
append_nil [] = refl
append_nil (x ∷ xs) = ap (◌∷◌ x) (append_nil xs)

-- the lines of the changes from one regime to a different next one
abbrev pub flips : Option String → List String → Log
flips last [] = []
flips none (r ∷ rs) = flips (some r) rs
flips (some old) (r ∷ rs) =
    let rest = flips (some r) rs in
    if str_eq r old then rest else (regime_flip, format_alert regime_flip (flip old r)) ∷ rest

module _ {ℓ} {F : Type ℓ} ⦃f : Float F⦄ (np : Columns F) (cfg : MonitorConfig F) where
  -- a day's regimes, in order
  pub watch_regimes : List String → Monitor F Log → Monitor F Log
  watch_regimes [] m = m
  watch_regimes (r ∷ rs) m = watch_regimes rs (on_regime np cfg log_notifier r m).1

  on_regime-flips :
      (r : String) (rs : List String) (m : Monitor F Log)
      → let m' = (on_regime np cfg log_notifier r m).1 in
        append m'.notified (flips m'.last_regime rs)
        ≡ append m.notified (flips m.last_regime (r ∷ rs))
  unfolding on_regime
  on_regime-flips r rs m = elim (Option-cases m.last_regime) [
    | inl e ↦ rw e refl
    | inr (old, e) ↦ rw e (elim (Bool-cases (str_eq r old)) [
      | inl same ↦ rw same refl
      | inr new ↦ rw new (
          append_assoc m.notified (regime_flip, format_alert regime_flip (flip old r))
            (flips (some r) rs))
    ])
  ]

  -- A sequence of regimes logs one line for each change, in order, and nothing else; the first
  -- regime a new monitor sees is no change.
  pub watch_regimes-flips :
      (rs : List String) (m : Monitor F Log)
      → (watch_regimes rs m).notified ≡ append m.notified (flips m.last_regime rs)
  unfolding watch_regimes
  watch_regimes-flips [] m = sym (append_nil m.notified)
  watch_regimes-flips (r ∷ rs) m =
      watch_regimes-flips rs (on_regime np cfg log_notifier r m).1 ∙ on_regime-flips r rs m

  pub watch_equity : List F → Monitor F Log → Monitor F Log
  watch_equity [] m = m
  watch_equity (e ∷ es) m = watch_equity es (update_equity np cfg log_notifier e m).1

  -- the lines of the breaches against the running peak
  abbrev pub breaches : F → List F → Log
  breaches peak [] = []
  breaches peak (e ∷ es) =
      let top = fmax peak e in
      let dd = drawdown top e in
      let rest = breaches top es in
      if f.le cfg.drawdown_alert dd
      then (breach, format_alert breach (breach_text np dd e)) ∷ rest
      else rest

  update_equity-breaches :
      (e : F) (es : List F) (m : Monitor F Log)
      → let m' = (update_equity np cfg log_notifier e m).1 in
        append m'.notified (breaches m'.peak es) ≡ append m.notified (breaches m.peak (e ∷ es))
  unfolding update_equity
  update_equity-breaches e es m =
      let dd = drawdown (fmax m.peak e) e in
      elim (Bool-cases (f.le cfg.drawdown_alert dd)) [
        | inl over ↦ rw over (
            append_assoc m.notified (breach, format_alert breach (breach_text np dd e))
              (breaches (fmax m.peak e) es))
        | inr under ↦ rw under refl
      ]

  -- A sequence of equities logs one line for each equity whose drawdown from the running peak
  -- reaches the alert level, in order, and nothing else.
  pub watch_equity-breaches :
      (es : List F) (m : Monitor F Log)
      → (watch_equity es m).notified ≡ append m.notified (breaches m.peak es)
  unfolding watch_equity
  watch_equity-breaches [] m = sym (append_nil m.notified)
  watch_equity-breaches (e ∷ es) m =
      watch_equity-breaches es (update_equity np cfg log_notifier e m).1
      ∙ update_equity-breaches e es m

-- ===== src/Lifecycle/Retrain.antt =====
-- `RetrainOrchestrator` of src/aurax/lifecycle/retrain.py. The training pipeline and what the
-- validation measures are parameters: they may raise; the notifier's state is what has been sent by then.
use Prim.Native.String.{◌++◌}
use aura_x.Prelude.{
  Bool, true, false, ◌≡◌, Option, none, some, List, String, Float, if◌then◌else◌, Bool-cases, arith,
  Result, ok, raise, Result-cases, >>=-eq-ok, subst, sym, ◌&&◌, ◌⊎◌, inl, inr,
}
use aura_x.Monitoring.Alerts.{decay, Notifier}
use aura_x.Monitoring.Decay.{
  Columns, DecayConfig, DecayReport, evaluate, report_of, last_sharpe, calibration_error,
  retrain_due, reasons, join,
}
use aura_x.Lifecycle.Gate.{Metrics, ValidationReport, go_no_go, Clears, go_no_go_iff}

pub record RetrainPolicy {ℓ} (F : Type ℓ) : Type ℓ where
  pub decay : DecayConfig F
  pub require_gate_pass : Bool

-- `M` is the trained model.
pub record RetrainResult {ℓ} (F M : Type ℓ) : Type ℓ where
  pub triggered : Bool
  pub decay : DecayReport F
  pub promoted : Bool
  pub model : Option M
  pub report : Option (ValidationReport F)

-- The monitored trades and the training data `D`.
pub record RetrainData {ℓ} (F D : Type ℓ) : Type ℓ where
  pub monitor_returns : List F
  pub monitor_samples : List (F × F)
  pub dataset : D

module _ {ℓ κ} {F M D : Type ℓ} {S : Type κ} ⦃f : Float F⦄ (np : Columns F)
    (policy : RetrainPolicy F) (out : Notifier S) (train : D → Result M)
    (measure : D → Result (Metrics F)) (deflated_sharpe_min : F) where
  -- `run_validation`
  abbrev pub run_validation : D → Result (ValidationReport F)
  run_validation d = elim (measure d) [
    | raise e ↦ raise e
    | ok m ↦ ok (go_no_go np.format deflated_sharpe_min m)
  ]

  abbrev pub verdict_text : Bool → String
  verdict_text promoted =
      "retrained model " ++ (if promoted then "PROMOTED" else "REJECTED by the gate")

  -- the report and the verdict: without the gate a model is promoted
  abbrev pub gate : D → Result (Option (ValidationReport F) × Bool)
  gate d =
      if policy.require_gate_pass
      then elim (run_validation d) [ raise e ↦ raise e | ok r ↦ ok (some r, r.passed) ]
      else ok (none, true)

  abbrev pub retrained : DecayReport F → M → Option (ValidationReport F) × Bool → RetrainResult F M
  retrained report model (gate_report, promoted) = record {
    triggered = true;
    decay = report;
    promoted = promoted;
    model = if promoted then some model else none;
    report = gate_report;
  }

  -- training, the gate and the second alert
  unfoldable pub retrain : RetrainData F D → DecayReport F → S → Result (RetrainResult F M) × S
  retrain d report s = elim (train d.dataset) [
    | raise e ↦ (raise e, s)
    | ok model ↦ elim (gate d.dataset) [
      | raise e ↦ (raise e, s)
      | ok verdict ↦
          (ok (retrained report model verdict), (out.send decay (verdict_text verdict.1) s).1)
    ]
  ]

  unfoldable pub maybe_retrain : RetrainData F D → S → Result (RetrainResult F M) × S
  unfolding retrain
  maybe_retrain d s = elim (evaluate np policy.decay d.monitor_returns d.monitor_samples) [
    | raise e ↦ (raise e, s)
    | ok report ↦
        if retrain_due np report
        then retrain d report
            (out.send decay ("retrain triggered: " ++ join (reasons np report)) s).1
        else (
          ok (record {
            triggered = false;
            decay = report;
            promoted = false;
            model = none;
            report = none;
          }),
          s,
        )
  ]

  -- the first alert's text
  abbrev pub trigger_text : DecayReport F → String
  trigger_text report = "retrain triggered: " ++ join (reasons np report)

  retrain_inv :
      (d : RetrainData F D) (report : DecayReport F) (s s' : S) (result : RetrainResult F M)
      → retrain d report s ≡ (ok result, s')
      → (model : M) × (verdict : Option (ValidationReport F) × Bool) × (train d.dataset ≡ ok model)
        × (gate d.dataset ≡ ok verdict)
        × (result ≡ retrained report model verdict)
        × (s' ≡ (out.send decay (verdict_text verdict.1) s).1)
  unfolding retrain
  retrain_inv d report s s' result h = elim (Result-cases (train d.dataset)) [
    | inr (e, failed) ↦ absurd (ground arith)
    | inl (model, trained) ↦ elim (Result-cases (gate d.dataset)) [
      | inr (e, failed) ↦ absurd (ground arith)
      | inl (verdict, decided) ↦ (model, verdict, trained, decided, ground arith, ground arith)
    ]
  ]

  gate-Clears :
      (d : D) (verdict : Option (ValidationReport F) × Bool)
      → policy.require_gate_pass ≡ true
      → gate d ≡ ok verdict
      → verdict.1 ≡ true
      → (metrics : Metrics F) × (measure d ≡ ok metrics) × Clears deflated_sharpe_min metrics
  gate-Clears d verdict required h passes = elim (Result-cases (measure d)) [
    | inr (e, failed) ↦ absurd (ground arith)
    | inl (metrics, measured) ↦
        (metrics, measured, (go_no_go_iff np.format deflated_sharpe_min metrics).0 (ground arith))
  ]

  -- what a call without decay returns
  abbrev pub untriggered : DecayReport F → RetrainResult F M
  untriggered report = record {
    triggered = false;
    decay = report;
    promoted = false;
    model = none;
    report = none;
  }

  maybe_retrain_inv :
      (d : RetrainData F D) (s s' : S) (result : RetrainResult F M)
      → maybe_retrain d s ≡ (ok result, s')
      → (report : DecayReport F) × (evaluate np policy.decay d.monitor_returns d.monitor_samples
          ≡ ok report)
        × (((retrain_due np report ≡ false) × (result ≡ untriggered report) × (s' ≡ s))
            ⊎ ((retrain_due np report ≡ true)
                × (retrain d report (out.send decay (trigger_text report) s).1 ≡ (ok result, s'))))
  unfolding maybe_retrain
  maybe_retrain_inv d s s' result h =
      elim (Result-cases (evaluate np policy.decay d.monitor_returns d.monitor_samples)) [
        | inr (e, failed) ↦ absurd (ground arith)
        | inl (report, evaluated) ↦ elim (Bool-cases (retrain_due np report)) [
          | inl due ↦ (report, evaluated, inr (due, ground arith))
          | inr fine ↦ (report, evaluated, inl (fine, ground arith, ground arith))
        ]
      ]

  -- A call that returns has either found no decay, sent nothing and returned no model, or found
  -- decay, trained, and sent the two alerts, the trigger with its reasons and then the verdict; then
  -- it returns the model exactly when it is promoted.
  pub maybe_retrain_alerts :
      (d : RetrainData F D) (s s' : S) (result : RetrainResult F M)
      → maybe_retrain d s ≡ (ok result, s')
      → ((retrain_due np result.decay ≡ false) × (result ≡ untriggered result.decay) × (s' ≡ s))
        ⊎ ((retrain_due np result.decay ≡ true)
            × ((model : M) × (train d.dataset ≡ ok model)
                × (result.model ≡ (if result.promoted then some model else none)))
            × (s'
                ≡ (out.send decay
                    (verdict_text result.promoted)
                    (out.send decay (trigger_text result.decay) s).1).1))
  maybe_retrain_alerts d s s' result h =
      let (report, evaluated, cases) = maybe_retrain_inv d s s' result h in
      elim cases [
        | inl (fine, idle, same) ↦ inl (ground arith, ground arith, same)
        | inr (due, ran) ↦
            let (trained, verdict, t, g, e, sent) =
              retrain_inv d report (out.send decay (trigger_text report) s).1 s' result ran in
            inr (ground arith, (trained, t, ground arith), rw e sent)
      ]

  -- What decay is: the last rolling Sharpe ratio of the trades is a number under the floor, or the
  -- calibration error of their probabilities in ten bins is a number over the maximum.
  abbrev pub Decayed : List F → List (F × F) → Type ℓ
  Decayed returns samples =
      ((sharpe : F) × (last_sharpe np policy.decay returns ≡ ok sharpe)
        × (f.is_finite sharpe ≡ true)
        × (f.lt sharpe policy.decay.min_rolling_sharpe ≡ true))
      ⊎ ((f.is_finite (calibration_error np samples 10) ≡ true)
          × (f.lt policy.decay.max_calibration_error (calibration_error np samples 10) ≡ true))

  evaluate-Decayed :
      (returns : List F) (samples : List (F × F)) (report : DecayReport F)
      → evaluate np policy.decay returns samples ≡ ok report
      → retrain_due np report ≡ true
      → Decayed returns samples
  unfolding evaluate
  evaluate-Decayed returns samples report e due =
      let (sharpe, measured, e1) = >>=-eq-ok (last_sharpe np policy.decay returns) _ e in
      let ece = calibration_error np samples 10 in
      let is : report_of np policy.decay sharpe ece ≡ report = ground arith in
      let due1 : retrain_due np (report_of np policy.decay sharpe ece) ≡ true =
        subst (λ r. retrain_due np r ≡ true) (sym is) due in
      elim (Bool-cases (f.is_finite sharpe && f.lt sharpe policy.decay.min_rolling_sharpe)) [
        | inl low ↦ inl (sharpe, measured, ground arith, ground arith)
        | inr fine ↦ inr (ground arith, ground arith)
      ]

  -- With the gate required, a model that is returned is the one that was trained on the dataset; the
  -- monitored trades have decayed in their Sharpe ratio or their calibration, as the report says that
  -- is returned; and the metrics that the validation measures on the dataset clear the four criteria.
  pub maybe_retrain-Clears :
      (d : RetrainData F D) (s s' : S) (result : RetrainResult F M) (model : M)
      → policy.require_gate_pass ≡ true
      → maybe_retrain d s ≡ (ok result, s')
      → result.model ≡ some model
      → (evaluate np policy.decay d.monitor_returns d.monitor_samples ≡ ok result.decay)
        × Decayed d.monitor_returns d.monitor_samples
        × (train d.dataset ≡ ok model)
        × ((metrics : Metrics F) × (measure d.dataset ≡ ok metrics)
            × Clears deflated_sharpe_min metrics)
  maybe_retrain-Clears d s s' result model required h promoted =
      let (report, evaluated, cases) = maybe_retrain_inv d s s' result h in
      elim cases [
        | inl (fine, idle, same) ↦ absurd (ground arith)
        | inr (due, ran) ↦
            let (trained, verdict, t, g, e, sent) =
              retrain_inv d report (out.send decay (trigger_text report) s).1 s' result ran in
            (
              ground arith,
              evaluate-Decayed d.monitor_returns d.monitor_samples report evaluated due,
              ground arith,
              gate-Clears d.dataset verdict required g (ground arith),
            )
      ]

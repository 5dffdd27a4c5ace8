-- ===== src/Regimes/Hmm/Fit.antt =====
-- `fit`, `predict_proba` and `predict` of `GaussianHMM`.
use aura_x.Prelude.{ℕ, zero, suc, List, map, Float, ◌⊕◌, ◌⊖◌, if◌then◌else◌}
use aura_x.Regimes.Hmm.{
  Arrays, HmmConfig, HmmParams, Hmm, standardize_row, log_floor, init_params, log_emission, forward,
  likelihood, backward, posterior, em_step,
}

module _ {ℓ} {F : Type ℓ} ⦃f : Float F⦄ (np : Arrays F) where
  -- the loop of `fit`, with the rounds that are left after this one
  unfoldable pub fit_rounds : HmmConfig F → List (List F) → ℕ → F → HmmParams F → HmmParams F × F
  fit_rounds cfg z zero prev_ll p = em_step np cfg z p
  fit_rounds cfg z (suc n) prev_ll p =
      let next = em_step np cfg z p in
      let rest = fit_rounds cfg z n next.1 next.0 in
      if f.lt (next.1 ⊖ prev_ll) cfg.tol then next else rest

  -- `GaussianHMM.fit`
  unfoldable pub hmm_fit : HmmConfig F → List (List F) → Hmm F
  hmm_fit cfg xs =
      let mean = np.column_means xs in
      let std = map (λ s. s ⊕ f.lit 1 9) (np.column_stds xs) in
      let z = map (standardize_row mean std) xs in
      let fitted = fit_rounds cfg z cfg.rounds f.neg_inf (init_params np cfg z) in
      record { mean = mean; std = std; params = fitted.0; converged_loglik = fitted.1 }

  -- `predict_proba` and `predict`
  unfoldable pub hmm_predict_proba : HmmConfig F → Hmm F → List (List F) → List (List F)
  hmm_predict_proba cfg m xs =
      let log_em = log_emission np m.params (map (standardize_row m.mean m.std) xs) in
      let alpha = forward np cfg.n_states m.params log_em in
      let beta = backward np cfg.n_states (map (log_floor np) m.params.transmat) log_em in
      posterior np (likelihood np alpha) alpha beta

  unfoldable pub hmm_predict : HmmConfig F → Hmm F → List (List F) → List ℕ
  hmm_predict cfg m xs = map np.argmax (hmm_predict_proba cfg m xs)

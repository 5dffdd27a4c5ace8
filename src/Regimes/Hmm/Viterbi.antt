-- ===== src/Regimes/Hmm/Viterbi.antt =====
-- `decode` of `GaussianHMM`, on observations that are not empty.
use aura_x.Prelude.{ℕ, none, some, List, [], ◌∷◌, map, get_elem?, zip_with, Float, ◌⊕◌}
use aura_x.Regimes.Hmm.{Arrays, HmmConfig, Hmm, columns, standardize_row, log_floor, log_emission}

-- the states, from the last one back along `psi`
unfoldable pub backtrack : ℕ → List (List ℕ) → List ℕ → List ℕ
backtrack s [] path = s ∷ path
backtrack s (psi ∷ psis) path =
    backtrack (elim (get_elem? psi s) [ none ↦ 0 | some r ↦ r ]) psis (s ∷ path)

module _ {ℓ} {F : Type ℓ} ⦃f : Float F⦄ where
  -- a row of `m`, of `delta[t - 1]` and a column of the transition matrix, for each column
  abbrev pub arrivals : List (List F) → List F → List (List F)
  arrivals cols delta = map (zip_with ◌⊕◌ delta) cols

module _ {ℓ} {F : Type ℓ} ⦃f : Float F⦄ (np : Arrays F) where
  -- the loop over `t`: the last `delta`, and the rows of `psi`, the last one first
  unfoldable pub viterbi_loop :
      List (List F) → List F → List (List ℕ) → List (List F) → List F × List (List ℕ)
  viterbi_loop cols delta psis [] = (delta, psis)
  viterbi_loop cols delta psis (em ∷ log_em) =
      viterbi_loop cols (zip_with ◌⊕◌ em (map np.amax (arrivals cols delta)))
        (map np.argmax (arrivals cols delta) ∷ psis) log_em

  -- the most likely path under emissions, a start and the columns of the transition matrix
  unfoldable pub viterbi : List (List F) → List F → List (List F) → List ℕ
  viterbi cols start [] = []
  viterbi cols start (em ∷ log_em) =
      let last = viterbi_loop cols (zip_with ◌⊕◌ start em) [] log_em in
      backtrack (np.argmax last.0) last.1 []

  -- `decode`
  unfoldable pub hmm_decode : HmmConfig F → Hmm F → List (List F) → List ℕ
  hmm_decode cfg m xs =
      viterbi (columns cfg.n_states (map (log_floor np) m.params.transmat))
        (log_floor np m.params.startprob)
        (log_emission np m.params (map (standardize_row m.mean m.std) xs))

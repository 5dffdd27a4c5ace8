-- ===== src/Regimes/Hmm.antt =====
-- `GaussianHMM` of src/aurax/l2_regime/hmm.py. A matrix is the list of its rows; numpy's and scipy's
-- passes over an array are parameters.
pub mod Fit
pub mod Viterbi
pub mod Paths
pub mod Optimal
use aura_x.Prelude.{
  ℕ, zero, suc, ◌-◌, ◌==◌, max, Bool, Option, none, some, List, [], ◌∷◌, map, length, get_elem?,
  replicate, zip_with, Float, ◌⊕◌, ◌⊖◌, ◌⊗◌, ◌⊘◌, nought, unit, if◌then◌else◌,
}
use aura_x.Prelude.Int.{pos}
use aura_x.Features.TrendMemory.{count_from}

-- `log`, `exp`, `logsumexp`, `sum`, `argmax` and `max` of an array, `mean(axis=0)`, `std(axis=0)` and
-- `var(axis=0)` of a matrix, 2π, and the rows of `np.array_split(np.argsort(column), k)`
pub record Arrays {ℓ} (F : Type ℓ) : Type ℓ where
  pub log : F → F
  pub exp : F → F
  pub logsumexp : List F → F
  pub sum : List F → F
  pub argmax : List F → ℕ
  pub amax : List F → F
  pub column_means : List (List F) → List F
  pub column_stds : List (List F) → List F
  pub column_vars : List (List F) → List F
  pub two_pi : F
  pub quantile_bins : ℕ → List F → List (List ℕ)

-- the settings; `n_iter` is one more than `rounds`, since with no iteration the code has no likelihood
pub record HmmConfig {ℓ} (F : Type ℓ) : Type ℓ where
  pub n_states : ℕ
  pub rounds : ℕ
  pub tol : F
  pub min_covar : F

-- what the iterations change, and what `fit` keeps
pub record HmmParams {ℓ} (F : Type ℓ) : Type ℓ where
  pub means : List (List F)
  pub covars : List (List F)
  pub startprob : List F
  pub transmat : List (List F)

pub record Hmm {ℓ} (F : Type ℓ) : Type ℓ where
  pub mean : List F
  pub std : List F
  pub params : HmmParams F
  pub converged_loglik : F

-- an operation of two matrices, row by row
abbrev pub zip_rows {ℓ} : {A B C : Type ℓ} → (A → B → C) → List A → List B → List C
zip_rows g [] ys = []
zip_rows g (x ∷ xs) [] = []
zip_rows g (x ∷ xs) (y ∷ ys) = g x y ∷ zip_rows g xs ys

-- the rows at some positions
abbrev pub pick {ℓ} : {A : Type ℓ} → List A → List ℕ → List A
pick rows [] = []
pick rows (p ∷ ps) =
    let rest = pick rows ps in elim (get_elem? rows p) [ none ↦ rest | some r ↦ r ∷ rest ]

-- all but the last row, and all but the first
abbrev pub but_last {ℓ} : {A : Type ℓ} → List A → List A
but_last [] = []
but_last (x ∷ []) = []
but_last (x ∷ y ∷ rows) = x ∷ but_last (y ∷ rows)

abbrev pub but_first {ℓ} : {A : Type ℓ} → List A → List A
but_first [] = []
but_first (x ∷ rows) = rows

module _ {ℓ} {F : Type ℓ} ⦃f : Float F⦄ where
  abbrev pub nth : List F → ℕ → F
  nth xs i = elim (get_elem? xs i) [ none ↦ f.nan | some x ↦ x ]

  abbrev pub row_at : List (List F) → ℕ → List F
  row_at rows i = elim (get_elem? rows i) [ none ↦ [] | some row ↦ row ]

  -- the first `k` columns of a matrix
  abbrev pub columns : ℕ → List (List F) → List (List F)
  columns k rows = map (λ j. map (λ row. nth row j) rows) (count_from 0 k)

  -- a row of the first transition matrix, before it is divided by its sum
  abbrev pub sticky_row : ℕ → ℕ → List F
  sticky_row k i =
      map (λ j. if i == j then f.lit 9 1 else f.lit 1 1 ⊘ f.of_int (pos (max (k - 1) 1)))
        (count_from 0 k)

  -- a row of `_standardize`
  abbrev pub standardize_row : List F → List F → List F → List F
  standardize_row mean std x = zip_with ◌⊘◌ (zip_with ◌⊖◌ x mean) std

module _ {ℓ} {F : Type ℓ} ⦃f : Float F⦄ (np : Arrays F) where
  unfoldable pub init_params : HmmConfig F → List (List F) → HmmParams F
  init_params cfg z =
      let k = cfg.n_states in
      let bins = map (pick z) (np.quantile_bins k (map (λ row. nth row 0) z)) in
      record {
        means = map np.column_means bins;
        covars = map (λ b. map (λ v. v ⊕ cfg.min_covar) (np.column_vars b)) bins;
        startprob = replicate k (unit ⊘ f.of_int (pos k));
        transmat =
            map (λ i. let row = sticky_row k i in map (λ v. v ⊘ np.sum row) row) (count_from 0 k);
      }

  -- the emission of a row under a state
  abbrev pub emission_at : List F → List F → List F → F
  emission_at z mean var =
      (nought ⊖ f.lit 5 1)
      ⊗ np.sum (
          zip_with ◌⊕◌ (map (λ v. np.log (np.two_pi ⊗ v)) var)
            (zip_with ◌⊘◌ (map (λ d. d ⊗ d) (zip_with ◌⊖◌ z mean)) var))

  unfoldable pub log_emission : HmmParams F → List (List F) → List (List F)
  log_emission p z = map (λ row. zip_rows (emission_at row) p.means p.covars) z

  -- `np.log(transmat + _LOG_FLOOR)` and `np.log(startprob + _LOG_FLOOR)`
  abbrev pub log_floor : List F → List F
  log_floor xs = map (λ x. np.log (x ⊕ f.lit 1 300)) xs

  -- the rest of `log_alpha` after a row, from the columns of the transition matrix
  unfoldable pub forward_from : List (List F) → List F → List (List F) → List (List F)
  forward_from cols alpha [] = []
  forward_from cols alpha (em ∷ log_em) =
      let next = zip_with ◌⊕◌ em (map (λ col. np.logsumexp (zip_with ◌⊕◌ alpha col)) cols) in
      next ∷ forward_from cols next log_em

  unfoldable pub forward : ℕ → HmmParams F → List (List F) → List (List F)
  forward k p [] = []
  forward k p (em ∷ log_em) =
      let alpha = zip_with ◌⊕◌ (log_floor p.startprob) em in
      alpha ∷ forward_from (columns k (map log_floor p.transmat)) alpha log_em

  -- `logsumexp(log_alpha[-1])`
  abbrev pub likelihood : List (List F) → F
  likelihood [] = f.nan
  likelihood (alpha ∷ []) = np.logsumexp alpha
  likelihood (alpha ∷ next ∷ rows) = likelihood (next ∷ rows)

  abbrev pub backward_row : List (List F) → List F → List F → List F
  backward_row log_trans em beta =
      map (λ row. np.logsumexp (zip_with ◌⊕◌ row (zip_with ◌⊕◌ em beta))) log_trans

  -- `log_beta`: zeros at the last row, and each row from the one after it
  unfoldable pub backward : ℕ → List (List F) → List (List F) → List (List F)
  backward k log_trans [] = []
  backward k log_trans (em ∷ []) = replicate k nought ∷ []
  backward k log_trans (em ∷ next ∷ log_em) =
      let rest = backward k log_trans (next ∷ log_em) in
      elim rest [ [] ↦ [] | beta ∷ betas ↦ backward_row log_trans next beta ∷ (beta ∷ betas) ]

  -- `np.exp(log_alpha + log_beta - ll)`
  abbrev pub posterior : F → List (List F) → List (List F) → List (List F)
  posterior ll alpha beta =
      zip_rows (λ a b. map (λ v. np.exp (v ⊖ ll)) (zip_with ◌⊕◌ a b)) alpha beta

  -- a cell of `xi` summed over time
  abbrev pub xi_cell : F → ℕ → ℕ → F → List (List F) → List (List F) → F
  xi_cell ll i j trans alpha ahead =
      np.sum (zip_rows (λ a b. np.exp (nth a i ⊕ trans ⊕ nth b j ⊖ ll)) alpha ahead)

  abbrev pub new_transition : List F → List F → List F
  new_transition xi old =
      let row = np.sum xi in if f.lt nought row then map (λ x. x ⊘ row) xi else old

  -- the mean and the covariance of a state, which a state without weight keeps
  abbrev pub new_emission : HmmConfig F → List F → List (List F) → List F × List F → List F × List F
  new_emission cfg gamma z (mean, covar) =
      let weight = np.sum gamma in
      let d = length mean in
      let weighed : List (List F) → List F =
        λ rows. map (λ col. np.sum (zip_with ◌⊗◌ gamma col) ⊘ weight) (columns d rows) in
      let centre = weighed z in
      let square : List F → List F = λ row. map (λ v. v ⊗ v) (zip_with ◌⊖◌ row centre) in
      if f.le weight nought
      then (mean, covar)
      else (centre, map (λ v. v ⊕ cfg.min_covar) (weighed (map square z)))

  -- one iteration: the new parameters, and the likelihood under the old ones
  unfoldable pub em_step : HmmConfig F → List (List F) → HmmParams F → HmmParams F × F
  em_step cfg z p =
      let k = cfg.n_states in
      let log_em = log_emission p z in
      let alpha = forward k p log_em in
      let ll = likelihood alpha in
      let log_trans = map log_floor p.transmat in
      let beta = backward k log_trans log_em in
      let gamma = posterior ll alpha beta in
      let ahead = zip_rows (zip_with ◌⊕◌) (but_first log_em) (but_first beta) in
      let xi =
        map
          (λ i.
            map (λ j. xi_cell ll i j (nth (row_at log_trans i) j) (but_last alpha) ahead)
              (count_from 0 k))
          (count_from 0 k) in
      let first = row_at gamma 0 in
      let emissions =
        zip_rows (λ g mc. new_emission cfg g z mc) (columns k gamma)
          (zip_rows (λ m c. (m, c)) p.means p.covars) in
      (
        record {
          means = map (λ mc. mc.0) emissions;
          covars = map (λ mc. mc.1) emissions;
          startprob = map (λ v. v ⊘ np.sum first) first;
          transmat = zip_rows new_transition xi p.transmat;
        },
        ll,
      )

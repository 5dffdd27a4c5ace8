-- ===== src/Risk/Allocation.antt =====
-- src/aurax/l6_risk/allocation.py. The policy is a parameter: its raw output at a state, its samples
-- with their random state, and the update that PyTorch makes of it. So are the vector operations,
-- which are on vectors of one length.
pub mod Session
use aura_x.Prelude.{
  ℕ, zero, suc, ◌==◌, Bool, not, Option, none, some, List, [], ◌∷◌, ◌++◌, map, length, replicate,
  concat, Result, ok, raise, Error, ◌>>=◌, ◌>>◌, raise_if, Float, ◌⊕◌, ◌⊖◌, ◌⊗◌, ◌⊘◌, nought, unit,
  fmax, if◌then◌else◌,
}
use aura_x.Prelude.Int.{pos}

pub record AllocationConfig {ℓ} (F : Type ℓ) : Type ℓ where
  pub turnover_penalty : F
  pub risk_penalty : F
  pub hidden : ℕ
  pub lr : F
  pub gamma : F
  pub gae_lambda : F
  pub clip_eps : F
  pub entropy_coef : F
  pub value_coef : F
  pub epochs_per_update : ℕ
  pub max_grad_norm : F
  pub alpha_floor : F
  pub seed : ℕ

-- `dot`, `w @ cov @ w`, `sum`, `mean` and `log1p` of numpy, the cast to 32 bits, and `softplus`
pub record Vectors {ℓ} (F : Type ℓ) : Type ℓ where
  pub dot : List F → List F → F
  pub quadratic : List F → List (List F) → F
  pub sum : List F → F
  pub mean : List F → F
  pub log1p : F → F
  pub float32 : F → F
  pub softplus : F → F

module _ {ℓ} {F : Type ℓ} ⦃f : Float F⦄ where
  pub reward : AllocationConfig F → F → F → F → F
  reward cfg log_return turnover covariance_risk =
      log_return ⊖ cfg.turnover_penalty ⊗ turnover ⊖ cfg.risk_penalty ⊗ covariance_risk

  abbrev pub changes : List F → List F → List F
  changes [] prev = []
  changes (w ∷ weights) [] = []
  changes (w ∷ weights) (p ∷ prev) = f.abs (w ⊖ p) ∷ changes weights prev

  -- `np.full(k, 1.0 / k)`
  abbrev pub uniform : ℕ → List F
  uniform k = replicate k (unit ⊘ f.of_int (pos k))

  -- The advantages of the steps, from the values of the states; after the last the value is 0.
  abbrev pub first_of : List F → F
  first_of [] = nought
  first_of (x ∷ xs) = x

  pub advantages : AllocationConfig F → List F → List F → List F
  advantages cfg [] values = []
  advantages cfg (r ∷ rewards) [] = []
  advantages cfg (r ∷ rewards) (v ∷ values) =
      let later = advantages cfg rewards values in
      let delta = r ⊕ cfg.gamma ⊗ first_of values ⊖ v in
      (delta ⊕ cfg.gamma ⊗ cfg.gae_lambda ⊗ first_of later) ∷ later

module _ {ℓ} {F : Type ℓ} ⦃f : Float F⦄ (np : Vectors F) where
  pub covariance_risk : List F → List (List F) → F
  covariance_risk weights covariance = f.sqrt (fmax nought (np.quadratic weights covariance))

  pub portfolio_turnover : List F → List F → F
  portfolio_turnover weights prev_weights = np.sum (changes weights prev_weights)

  pub portfolio_log_return : List F → List F → F
  portfolio_log_return weights realized =
      np.log1p (fmax (np.dot weights realized) (nought ⊖ f.lit 999 3))

  -- `_state`
  abbrev pub state_of : List F → List (List F) → List F → List F
  state_of expected covariance prev_weights =
      map np.float32 expected ++ (map np.float32 (concat covariance) ++ map np.float32 prev_weights)

-- a step of the historical series
pub record Step {ℓ} (F : Type ℓ) : Type ℓ where
  pub expected : List F
  pub covariance : List (List F)
  pub realized : List F

-- what a rollout records of a step
pub record Record {ℓ} (F : Type ℓ) : Type ℓ where
  pub state : List F
  pub action : List F
  pub logp : F
  pub value : F
  pub step_reward : F

-- A policy `P`: its raw output, a sample of weights with its log-probability and the value of the
-- state, and the epochs of updates on a rollout with its advantages. `G` is the random state.
pub record Policy {ℓ κ μ} (F : Type ℓ) (P : Type κ) (G : Type μ) : Type (ℓ ⊔ κ ⊔ μ) where
  pub build : ℕ → G → P × G
  pub raw : P → List F → List F
  pub sample : P → List F → G → (List F × F × F) × G
  pub update : P → List (Record F) → List F → P

-- what a `DirichletAllocator` keeps
pub record Allocator {ℓ κ} (F : Type ℓ) (P : Type κ) : Type (ℓ ⊔ κ) where
  pub n_instruments : Option ℕ
  pub actor : Option P
  pub prev_weights : Option (List F)
  pub reward_history : List F

module _ {ℓ κ μ} {F : Type ℓ} {P : Type κ} {G : Type μ} ⦃f : Float F⦄ (np : Vectors F)
    (policy : Policy F P G) (cfg : AllocationConfig F) where
  -- the walk of one rollout over the series, from the weights before it
  pub rollout : P → List (Step F) → List F → G → List (Record F) × G
  rollout model [] pw g = ([], g)
  rollout model (step ∷ steps) pw g =
      let state = state_of np step.expected step.covariance pw in
      let ((w, logp, value), g1) = policy.sample model state g in
      let r =
        reward cfg (portfolio_log_return np w step.realized) (portfolio_turnover np w pw)
          (covariance_risk np w step.covariance) in
      let (rest, g2) = rollout model steps w g1 in
      (record { state = state; action = w; logp = logp; value = value; step_reward = r } ∷ rest, g2)

  -- the rounds of `fit`, with the mean reward of each
  pub train : ℕ → P → List (Step F) → List F → List F → G → P × List F × G
  train zero model steps init_weights history g = (model, history, g)
  train (suc n) model steps init_weights history g =
      let (records, g1) = rollout model steps init_weights g in
      let rewards = map (λ (r : Record F). r.step_reward) records in
      let adv = advantages cfg rewards (map (λ (r : Record F). r.value) records) in
      train n (policy.update model records adv) steps init_weights
        (history ++ (np.mean rewards ∷ [])) g1

  -- `fit` on a series of `k` instruments, at least one, whose shapes agree, with the random state after
  -- the seeding; the code raises at none, where it divides by `k`
  pub fit : ℕ → List (Step F) → ℕ → G → Allocator F P × G
  fit k steps n_updates g =
      let (built, g1) = policy.build k g in
      let (model, history, g2) = train n_updates built steps (uniform k) [] g1 in
      (
        record {
          n_instruments = some k;
          actor = some model;
          prev_weights = some (uniform k);
          reward_history = history;
        },
        g2,
      )

  abbrev pub same_count : ℕ → Option ℕ → Bool
  same_count k none = Bool.false
  same_count k (some n) = k == n

  abbrev pub prev_of : ℕ → Option (List F) → List F
  prev_of k none = uniform k
  prev_of k (some weights) = weights

  -- the Dirichlet mean
  abbrev pub weights_of : P → List F → List F
  weights_of model state =
      let alpha = map (λ x. np.softplus x ⊕ cfg.alpha_floor) (policy.raw model state) in
      map (λ a. a ⊘ np.sum alpha) alpha

  abbrev pub allocate_with :
      Option P → List F → List (List F) → Allocator F P → Result (List F) × Allocator F P
  allocate_with none expected covariance a = (raise Error.runtime_error, a)
  allocate_with (some model) expected covariance a =
      let k = length expected in
      let weights = weights_of model (state_of np expected covariance (prev_of k a.prev_weights)) in
      if same_count k a.n_instruments
      then (ok weights, record a { prev_weights = some weights })
      else (raise Error.value_error, a)

  pub allocate : List F → List (List F) → Allocator F P → Result (List F) × Allocator F P
  allocate expected covariance a = allocate_with a.actor expected covariance a

module _ {ℓ κ} {F : Type ℓ} {P : Type κ} ⦃f : Float F⦄ where
  abbrev pub reset_with : Option ℕ → Allocator F P → Allocator F P
  reset_with none a = a
  reset_with (some n) a = record a { prev_weights = some (uniform n) }

  pub reset : Allocator F P → Allocator F P
  reset a = reset_with a.n_instruments a

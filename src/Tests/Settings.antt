-- ===== src/Tests/Settings.antt =====
-- src/aurax/config.py on two small files, and src/aurax/l6_risk/allocation.py with a policy that asks
-- for equal weights.
use aura_x.Prelude.{ℕ, ◌≡◌, Option, none, some, List, [], ◌∷◌, map, String, if◌then◌else◌}
use aura_x.Prelude.Tests.{str_eq}
use aura_x.Prelude.Fixed.{Fixed, fixed_float}
use aura_x.Config.{Entries, leaf, table, nil, entry}
use aura_x.Risk.Allocation.{AllocationConfig, Vectors, Step, Policy, fit, reset}
use aura_x.Risk.Allocation.Session.{session, session_forgotten}
use aura_x.Tests.Data.{num, micro, inner}
use aura_x.Tests.Protocol.{total, mean_of}

-- the leaves are lists of texts
abbrev root : Entries (List String)
root =
    entry "includes" (leaf ("risk.yaml" ∷ []))
      (entry "risk" (table (entry "cap" (leaf ("0.05" ∷ [])) nil)) nil)

abbrev risk : Entries (List String)
risk =
    entry "risk" (table (entry "cap" (leaf ("0.02" ∷ [])) (entry "kelly" (leaf ("0.5" ∷ [])) nil)))
      nil

abbrev files : String → Option (Entries (List String))
files name =
    if str_eq name "default.yaml"
    then some root
    else if str_eq name "risk.yaml"
    then some risk
    else none

abbrev params : Entries (List String)
params =
    entry "risk" (table (entry "cap" (leaf ("0.05" ∷ [])) (entry "kelly" (leaf ("0.5" ∷ [])) nil)))
      nil

abbrev vectors : Vectors Fixed
vectors = record {
  dot = inner;
  quadratic = λ w cov. inner w (map (inner w) cov);
  sum = total;
  mean = mean_of;
  log1p = λ x. x;
  float32 = λ x. x;
  softplus = λ x. num 1;
}

abbrev equal : Policy Fixed ℕ ℕ
equal = record {
  build = λ k g. (k, g);
  raw = λ k state. num 0 ∷ num 0 ∷ [];
  sample = λ k state g. ((micro 500_000 ∷ micro 500_000 ∷ [], num 0, num 0), g);
  update = λ k records adv. k;
}

abbrev settings : AllocationConfig Fixed
settings = record {
  turnover_penalty = micro 1_000;
  risk_penalty = micro 500_000;
  hidden = 32;
  lr = micro 1_000;
  gamma = micro 950_000;
  gae_lambda = micro 900_000;
  clip_eps = micro 200_000;
  entropy_coef = micro 1_000;
  value_coef = micro 500_000;
  epochs_per_update = 8;
  max_grad_norm = micro 500_000;
  alpha_floor = micro 10_000;
  seed = 0;
}

abbrev series : List (Step Fixed)
series =
    record {
      expected = micro 100 ∷ micro 200 ∷ [];
      covariance = (num 1 ∷ num 0 ∷ []) ∷ (num 0 ∷ num 1 ∷ []) ∷ [];
      realized = micro 300 ∷ micro 100 ∷ [];
    }
    ∷ []

-- the second call names one instrument and raises
abbrev calls : List (List Fixed × List (List Fixed))
calls =
    (micro 100 ∷ micro 200 ∷ [], (num 1 ∷ num 0 ∷ []) ∷ (num 0 ∷ num 1 ∷ []) ∷ [])
    ∷ (micro 100 ∷ [], [])
    ∷ []

session_forgotten_example :
    let fitted = (fit vectors equal settings 2 series 3 0).0 in
    (reset (session vectors equal settings calls fitted).1 ≡ fitted)
    × (session vectors equal settings calls (reset (session vectors equal settings calls fitted).1)
        ≡ session vectors equal settings calls fitted)
session_forgotten_example = session_forgotten vectors equal settings 2 3 series 0 calls calls

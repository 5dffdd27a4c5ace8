-- ===== src/Meta/Calibration.antt =====
-- src/aurax/l5_meta/calibration.py. The exponential and numpy's sort, grouping, interpolation and sum
-- are parameters.
pub mod Pava
use aura_x.Prelude.{
  ℕ, zero, suc, ◌+◌, ◌-◌, ◌==◌, Bool, ◌||◌, Option, none, some, List, [], ◌∷◌, ◌++◌, map, length,
  replicate, zip_with, String, Result, ok, raise, Error, ◌>>=◌, get_elem?, or_raise, iloc, Float,
  ◌⊕◌, ◌⊖◌, ◌⊗◌, ◌⊘◌, nought, unit, divide, if◌then◌else◌,
}
use aura_x.Prelude.Tests.{str_eq}

-- an element of `blocks`
pub record Block {ℓ} (F : Type ℓ) : Type ℓ where
  pub value : F
  pub weight : F
  pub count : ℕ

-- `argsort` with `mergesort`, `unique` with the inverse, `interp` held at its ends, `exp`, `sum`
pub record Arrays {ℓ} (F : Type ℓ) : Type ℓ where
  pub argsort : List F → List ℕ
  pub unique : List F → List F × List ℕ
  pub interp : F → List F → List F → F
  pub exp : F → F
  pub sum : List F → F

module _ {ℓ} {F : Type ℓ} ⦃f : Float F⦄ where
  -- Appends a block and pools the last two while they violate the order. The last block comes first.
  pub pool : Block F → List (Block F) → Result (List (Block F))
  pool b [] = ok (b ∷ [])
  pool b (a ∷ below) =
      let nw = a.weight ⊕ b.weight in
      let pooled : Result (List (Block F)) = (do
        value ← divide (a.value ⊗ a.weight ⊕ b.value ⊗ b.weight) nw
        pool (record { value = value; weight = nw; count = a.count + b.count }) below) in
      if f.le b.value a.value then pooled else ok (b ∷ a ∷ below)

  -- the loop over `zip(y, w, strict=True)`
  pub pool_all : List F → List F → List (Block F) → Result (List (Block F))
  pool_all [] [] blocks = ok blocks
  pool_all [] (wi ∷ w) blocks = raise Error.value_error
  pool_all (yi ∷ y) [] blocks = raise Error.value_error
  pool_all (yi ∷ y) (wi ∷ w) blocks = do
    pooled ← pool (record { value = yi; weight = wi; count = 1 }) blocks
    pool_all y w pooled

  -- `out`: the value of each block, as often as it counts
  abbrev pub spread : List (Block F) → List F → List F
  spread [] out = out
  spread (b ∷ below) out = spread below (replicate b.count b.value ++ out)

  pub pava : List F → List F → Result (List F)
  pava y w = do blocks ← pool_all y w []; ok (spread blocks [])

-- the calibrators, those that are fitted with what they have fitted
pub data Calibrator {ℓ} (F : Type ℓ) : Type ℓ where
  isotonic : List F → List F → Calibrator F
  platt : F → F → Calibrator F
  identity : Calibrator F

pub data Method : Type 0 where
  isotonic_method sigmoid_method identity_method : Method

-- `make_calibrator`, of a method in lower case
unfoldable pub make_calibrator : Option String → Result Method
make_calibrator none = ok identity_method
make_calibrator (some method) =
    if str_eq method "isotonic"
    then ok isotonic_method
    else if str_eq method "sigmoid" || str_eq method "platt"
    then ok sigmoid_method
    else if str_eq method "" || (str_eq method "none" || str_eq method "identity")
    then ok identity_method
    else raise Error.value_error

module _ {ℓ} {F : Type ℓ} ⦃f : Float F⦄ (np : Arrays F) where
  -- an element of `sigmoid`
  abbrev pub sigmoid : F → F
  sigmoid z =
      if f.le nought z then unit ⊘ (unit ⊕ np.exp (nought ⊖ z)) else np.exp z ⊘ (unit ⊕ np.exp z)

  -- `agg` and `cnt` at a group: the sum of its fits, and how many they are
  abbrev pub add_at : ℕ → List ℕ → List F → F → F → F × F
  add_at g [] fit agg cnt = (agg, cnt)
  add_at g (i ∷ inv) [] agg cnt = (agg, cnt)
  add_at g (i ∷ inv) (v ∷ fit) agg cnt =
      if i == g then add_at g inv fit (agg ⊕ v) (cnt ⊕ unit) else add_at g inv fit agg cnt

  abbrev pub group_means : ℕ → List F → List ℕ → List F → List F
  group_means g [] inv fit = []
  group_means g (x ∷ uniq) inv fit =
      let (agg, cnt) = add_at g inv fit nought nought in
      (agg ⊘ cnt) ∷ group_means (suc g) uniq inv fit

  pub isotonic_fit : List F → List F → Option (List F) → Result (Calibrator F)
  isotonic_fit scores labels sample_weight = do
    let order = np.argsort scores
    let weights : List F = elim sample_weight [ none ↦ replicate (length scores) unit | some w ↦ w ]
    s ← iloc scores order
    y ← iloc labels order
    w ← iloc weights order
    fit ← pava y w
    let (uniq, inv) = np.unique s
    ok (isotonic uniq (group_means 0 uniq inv fit))

  -- the descent of Platt scaling, with the iterations that are left
  abbrev pub descend : ℕ → F → List F → List F → List F → F → F → F × F
  descend zero lr s y w a b = (a, b)
  descend (suc n) lr s y w a b =
      let p = map (λ x. sigmoid (a ⊗ x ⊕ b)) s in
      let g = zip_with ◌⊗◌ (zip_with ◌⊖◌ p y) w in
      descend n lr s y w (a ⊖ lr ⊗ np.sum (zip_with ◌⊗◌ g s)) (b ⊖ lr ⊗ np.sum g)

  pub sigmoid_fit : F → ℕ → List F → List F → Option (List F) → Calibrator F
  sigmoid_fit lr n_iter scores labels sample_weight =
      let weights : List F = elim sample_weight [
        | none ↦ replicate (length scores) unit
        | some w ↦ w
      ] in
      let w = map (λ x. x ⊘ np.sum weights) weights in
      let (a, b) = descend n_iter lr scores labels w unit nought in platt a b

  -- `fit` of the calibrator that a method makes
  unfoldable pub fit_calibrator : Method → List F → List F → Option (List F) → Result (Calibrator F)
  fit_calibrator isotonic_method scores labels w = isotonic_fit scores labels w
  fit_calibrator sigmoid_method scores labels w = ok (sigmoid_fit (f.lit 5 1) 500 scores labels w)
  fit_calibrator identity_method scores labels w = ok identity

  -- an element of `predict`; an empty grid has no first value
  unfoldable pub calibrate : Calibrator F → F → Result F
  calibrate (isotonic [] ys) score = raise Error.index_error
  calibrate (isotonic (x ∷ []) ys) score = or_raise (get_elem? ys 0) Error.index_error
  calibrate (isotonic (x ∷ x' ∷ xs) ys) score = ok (np.interp score (x ∷ x' ∷ xs) ys)
  calibrate (platt a b) score = ok (sigmoid (a ⊗ score ⊕ b))
  calibrate identity score = ok score

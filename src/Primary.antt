-- ===== src/Primary.antt =====
-- The side of a trade: src/aurax/l3_primary/base.py, ensemble.py and windows.py. A row of a frame is the
-- probabilities of down, flat and up; the members are fitted in Members.
pub mod Sides
pub mod Members
pub mod Sequence
use aura_x.Prelude.{
  is_empty, ℕ, zero, suc, ◌+◌, Bool, true, false, ◌&&◌, not, Option, none, some, List, [], ◌∷◌, map,
  length, take, drop, ltb, ◌-◌, String, Float, ◌⊕◌, ◌⊖◌, ◌⊗◌, ◌⊘◌, nought, unit, fmax, Result, ok,
  raise, Error, ◌>>=◌, if◌then◌else◌, any,
}
use aura_x.Prelude.Int.{ℤ, pos, negsuc}
use aura_x.Prelude.Dict.{Dict, lookup, get_or, keys}

pub record Proba {ℓ} (F : Type ℓ) : Type ℓ where
  pub p_down : F
  pub p_flat : F
  pub p_up : F

pub record PrimaryConfig {ℓ} (F : Type ℓ) : Type ℓ where
  pub members : Dict F
  pub regime_overrides : Dict (Dict F)
  pub flat_threshold : F

-- numpy's sum and dot product, and the sum of a row of a frame
pub record Vectors {ℓ} (F : Type ℓ) : Type ℓ where
  pub sum : List F → F
  pub dot : List F → List F → F
  pub row_sum : List F → F

abbrev pub is_class : ℤ → Bool
is_class (pos zero) = true
is_class (pos (suc zero)) = true
is_class (pos (suc (suc n))) = false
is_class (negsuc zero) = true
is_class (negsuc (suc n)) = false

pub encode_labels : List ℤ → Result (List ℤ)
encode_labels y = if any (λ l. not (is_class l)) y then raise Error.value_error else ok y

module _ {ℓ} {F : Type ℓ} ⦃f : Float F⦄ where
  abbrev pub scaled : F → Proba F → Proba F
  scaled s p = record { p_down = p.p_down ⊘ s; p_flat = p.p_flat ⊘ s; p_up = p.p_up ⊘ s }

  pub normalize_row : Vectors F → Proba F → Proba F
  normalize_row np p =
      let s = np.row_sum (p.p_down ∷ p.p_flat ∷ p.p_up ∷ []) in
      scaled (if f.eq s nought then unit else s) p

  -- One row of `probas_to_side`; NaN has no sign that `astype(int)` takes.
  pub side_of : F → Proba F → Result ℤ
  side_of flat_threshold p =
      let margin = p.p_up ⊖ p.p_down in
      let sign =
        if f.lt nought margin then pos 1 else if f.lt margin nought then negsuc 0 else pos 0 in
      if f.eq margin margin
      then ok (if f.lt (f.abs margin) flat_threshold then pos 0 else sign)
      else raise Error.value_error

  pub normalize : Vectors F → Dict F → List String → List F
  normalize np weights names =
      let vec = map (λ n. fmax nought (get_or n weights nought)) names in
      if f.lt nought (np.sum vec)
      then map (λ w. w ⊘ np.sum vec) vec
      else map (λ n. unit ⊘ f.of_int (pos (length names))) names

  -- an override that is there and not empty, else the members
  abbrev pub base_weights : PrimaryConfig F → String → Dict F
  base_weights cfg regime = elim (lookup regime cfg.regime_overrides) [
    | none ↦ cfg.members
    | some weights ↦ if is_empty weights then cfg.members else weights
  ]

  pub regime_weights : Vectors F → PrimaryConfig F → String → List F
  regime_weights np cfg regime = normalize np (base_weights cfg regime) (keys cfg.members)

  -- the weighted sum of the members' rows
  abbrev pub blend : Vectors F → List F → List (Proba F) → Proba F
  blend np weights rows = record {
    p_down = np.dot weights (map (λ (p : Proba F). p.p_down) rows);
    p_flat = np.dot weights (map (λ (p : Proba F). p.p_flat) rows);
    p_up = np.dot weights (map (λ (p : Proba F). p.p_up) rows);
  }

  -- the weights without a regime, and with one
  abbrev pub row_weights : Vectors F → PrimaryConfig F → Option String → List F
  row_weights np cfg none = normalize np cfg.members (keys cfg.members)
  row_weights np cfg (some regime) = regime_weights np cfg regime

  -- One row of `predict_proba`: the rows of the fitted members, none before the fit, and the
  -- regime's text where regimes are given.
  pub predict_row : Vectors F → PrimaryConfig F → List (Proba F) → Option String → Result (Proba F)
  predict_row np cfg [] regime = raise Error.runtime_error
  predict_row np cfg (p ∷ rows) regime =
      ok (normalize_row np (blend np (row_weights np cfg regime) (p ∷ rows)))

  -- one row of `predict_side`
  pub predict_side : Vectors F → PrimaryConfig F → List (Proba F) → Option String → Result ℤ
  predict_side np cfg rows regime = do
    p ← predict_row np cfg rows regime
    side_of cfg.flat_threshold p

  abbrev pub put_class : ℤ → F → Proba F → Proba F
  put_class (pos zero) x p = record p { p_flat = x }
  put_class (pos (suc n)) x p = record p { p_up = x }
  put_class (negsuc n) x p = record p { p_down = x }

  -- One row of `align_proba`: the probabilities of the classes that are present, 0 for the others;
  -- a class that has no column is a missing key.
  pub align_row : List (ℤ × F) → Proba F → Result (Proba F)
  align_row [] p = ok p
  align_row ((c, x) ∷ present) p =
      let rest = align_row present (put_class c x p) in
      if is_class c then rest else raise Error.key_error

-- The trailing windows of src/aurax/l3_primary/windows.py: `k` of them, each with its last bar, from
-- the one that ends at bar `i` of the index.
pub windows_from {ℓ} : {A : Type ℓ} → List A → ℕ → ℕ → ℕ → List (List A × ℕ)
windows_from rows lookback i zero = []
windows_from rows lookback i (suc k) =
    (take lookback rows, i) ∷ windows_from (drop 1 rows) lookback (suc i) k

-- `clean` is `nan_to_num` of a row
pub make_sequences {ℓ} : {A : Type ℓ} → (A → A) → List A → ℕ → List (List A × ℕ)
unfolding windows_from
make_sequences clean rows lookback =
    if ltb (length rows) lookback
    then []
    else windows_from (map clean rows) lookback (lookback - 1) (suc (length rows) - lookback)

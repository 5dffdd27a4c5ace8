-- ===== src/Meta/Model/Threshold.antt =====
-- The threshold that the search over the grid ends with is the best of the grid.
use aura_x.Prelude.{
  ℕ, suc, ◌≡◌, refl, sym, ap, ◌∙◌, subst, Bool, true, false, ◌&&◌, Option, some, List, [], ◌∷◌,
  get_elem?, All, Float, IsOrdered, ◌⊎◌, inl, inr, if◌then◌else◌, arith, Bool-cases,
}
use aura_x.Validation.Scores.{Numeric, CostModel}
use aura_x.Meta.Model.{MetaConfig, objective, eligible, search, tune_threshold}

module _ {ℓ} {F : Type ℓ} ⦃f : Float F⦄ where
  -- A threshold and its objective: those that the loop began with, or those of an eligible element
  -- of the grid that is above where it began.
  abbrev pub Chosen : List F → (F → F) → ℕ → List F → F × F → F × F → Type ℓ
  Chosen probs obj min_trades grid (tau0, obj0) (tau, o) =
      ((tau ≡ tau0) × (o ≡ obj0))
      ⊎ ((i : ℕ) × (get_elem? grid i ≡ some tau)
          × (eligible probs obj min_trades tau ≡ true)
          × (o ≡ obj tau)
          × (f.lt obj0 o ≡ true))

  -- an element of the grid is not eligible, or it does not do better
  abbrev pub NoBetter : List F → (F → F) → ℕ → F → F → Type 0
  NoBetter probs obj min_trades o tau =
      (eligible probs obj min_trades tau ≡ false) ⊎ (f.lt o (obj tau) ≡ false)

  -- what the loop ends with
  abbrev Best : List F → (F → F) → ℕ → List F → F × F → F × F → Type ℓ
  Best probs obj min_trades grid (tau0, obj0) (tau, o) =
      Chosen probs obj min_trades grid (tau0, obj0) (tau, o)
      × ((z : F) → f.lt obj0 z ≡ false → f.lt o z ≡ false)
      × All (NoBetter probs obj min_trades o) grid

module _ {ℓ} {F : Type ℓ} ⦃f : Float F⦄ (laws : IsOrdered F) where
  lt_asym : (x y : F) → f.lt x y ≡ true → f.lt y x ≡ false
  lt_asym x y h = ground (arith, laws.lt-not-le x y, laws.lt-le y x)

  lt_irrefl : (x : F) → f.lt x x ≡ false
  lt_irrefl x = ground (arith, lt_asym x x)

  lt_trans : (x y z : F) → f.lt x y ≡ true → f.lt y z ≡ true → f.lt x z ≡ true
  lt_trans x y z h k =
      let l = laws.lt-le x y h in
      let m = laws.lt-le y z k in
      let (nx, _) = laws.number_of_le x y l in
      let (_, nz) = laws.number_of_le y z m in
      elim (Bool-cases (f.lt x z)) [
        | inl e ↦ e
        | inr e ↦
            let back = laws.le_trans z x y (laws.not-lt-le x z nx nz e) l in
            absurd (ground (arith, back, laws.lt-not-le y z k))
      ]

  Chosen-skip :
      (probs : List F) (obj : F → F) (min_trades : ℕ) (tau : F) (grid : List F) (tau0 obj0 : F)
      (best : F × F)
      → Chosen probs obj min_trades grid (tau0, obj0) best
      → Chosen probs obj min_trades (tau ∷ grid) (tau0, obj0) best
  Chosen-skip probs obj min_trades tau grid tau0 obj0 best (inl same) = inl same
  Chosen-skip probs obj min_trades tau grid tau0 obj0 best (inr (i, at, able, value, above)) =
      inr (suc i, at, able, value, above)

  Chosen-later :
      (probs : List F) (obj : F → F) (min_trades : ℕ) (tau : F) (grid : List F) (tau0 obj0 : F)
      (best : F × F)
      → eligible probs obj min_trades tau ≡ true
      → f.lt obj0 (obj tau) ≡ true
      → Chosen probs obj min_trades grid (tau, obj tau) best
      → Chosen probs obj min_trades (tau ∷ grid) (tau0, obj0) best
  Chosen-later probs obj min_trades tau grid tau0 obj0 (t, o) able better (inl (same, value)) =
      inr (0, ap some (sym same), rw same able, value ∙ ap obj (sym same), rw value better)
  Chosen-later probs obj min_trades tau grid tau0 obj0 (t, o) able better
        (inr (i, at, fine, value, above)) =
      inr (suc i, at, fine, value, lt_trans obj0 (obj tau) o better above)

  search_best :
      (probs : List F) (obj : F → F) (min_trades : ℕ) (grid : List F) (tau0 obj0 : F)
      → Best probs obj min_trades grid (tau0, obj0) (search probs obj min_trades grid tau0 obj0)
  search_best probs obj min_trades [] tau0 obj0 = (inl (refl, refl), λ z h. h, tt)
  search_best probs obj min_trades (tau ∷ grid) tau0 obj0 =
      let ends : Bool → F × F = λ b.
        search probs obj min_trades grid (if b then tau else tau0) (if b then obj tau else obj0) in
      let best = Best probs obj min_trades (tau ∷ grid) (tau0, obj0) in
      elim (Bool-cases (eligible probs obj min_trades tau && f.lt obj0 (obj tau))) [
        | inl e ↦
            let better : f.lt obj0 (obj tau) ≡ true = ground arith in
            let able : eligible probs obj min_trades tau ≡ true = ground arith in
            let (chosen, below, rest) = search_best probs obj min_trades grid tau (obj tau) in
            subst (λ b. best (ends b)) (sym e)
              (
                Chosen-later probs obj min_trades tau grid tau0 obj0 _ able better chosen,
                (λ z h. below z (ground (arith, lt_trans obj0 (obj tau) z better))),
                (inr (below (obj tau) (lt_irrefl (obj tau))), rest),
              )
        | inr e ↦
            let (chosen, below, rest) = search_best probs obj min_trades grid tau0 obj0 in
            subst (λ b. best (ends b)) (sym e)
              (
                Chosen-skip probs obj min_trades tau grid tau0 obj0 _ chosen,
                below,
                (
                  elim (Bool-cases (eligible probs obj min_trades tau)) [
                    | inr not_able ↦ inl not_able
                    | inl able ↦ inr (below (obj tau) (ground arith))
                  ],
                  rest,
                ),
              )
      ]

  -- The threshold that `tune_threshold` chooses is the configured one, where its objective counts as
  -- minus infinity, or an element of the grid with enough trades and a finite objective above minus
  -- infinity. No element of the grid that has enough trades and a finite objective has a greater
  -- one.
  pub tune_threshold_best :
      (np : Numeric F) (cfg : MetaConfig F) (probs labels : List F) (ret side : Option (List F))
      (cost_model : Option (CostModel F)) (grid : List F) (min_trades : ℕ)
      → let obj = objective np probs labels ret side cost_model in
        let tau = tune_threshold np cfg probs labels ret side cost_model grid min_trades in
        (o : F) × Chosen probs obj min_trades grid (cfg.threshold_tau, f.neg_inf) (tau, o)
        × All (NoBetter probs obj min_trades o) grid
  unfolding tune_threshold
  tune_threshold_best np cfg probs labels ret side cost_model grid min_trades =
      let obj = objective np probs labels ret side cost_model in
      let (chosen, below, rest) =
        search_best probs obj min_trades grid cfg.threshold_tau f.neg_inf in
      (_, chosen, rest)

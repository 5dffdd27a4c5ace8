-- ===== src/Risk/Formulas/Bounds.antt =====
-- The ranges of `confidence_multiplier` and `round_to_lot` of src/aurax/l6_risk/sizing.py.
use aura_x.Prelude.{
  ◌≡◌, true, false, Float, IsOrdered, nought, unit, fmax, fmin, Result, ok, raise, ◌>>=◌, ◌⊗◌, ◌⊘◌,
  ◌⊎◌, inl, inr, refl, ◌||◌, if◌then◌else◌, Bool-cases, arith,
}
use aura_x.Prelude.Int.{ℤ}
use aura_x.Market.{InstrumentSpec}
use aura_x.Risk.Formulas.{round_to_lot, floor_int, confidence_multiplier, scaled_edge}

module _ {ℓ} {F : Type ℓ} ⦃f : Float F⦄ (laws : IsOrdered F) where
  open laws use {number_of_le, lt-le, not-lt-le}

  fmax_ge : (x : F) → f.le nought nought ≡ true → f.le nought (fmax nought x) ≡ true
  fmax_ge x h = ground (arith, lt-le nought x)

  fmin_range :
      (cap x : F)
      → f.le nought cap ≡ true
      → f.le nought x ≡ true
      → (f.le nought (fmin cap x) ≡ true) × (f.le (fmin cap x) cap ≡ true)
  fmin_range cap x h k = ground (arith, lt-le x cap, number_of_le nought cap h)

  -- Under a cap of at least 0, whatever the probability, threshold and fraction, NaN among them: if
  -- `confidence_multiplier` returns, the probability was in [0, 1], and the multiplier is in [0, cap],
  -- and 0 below the threshold.
  pub confidence_multiplier_range :
      (p tau kelly_fraction cap : F) {m : F}
      → f.le nought cap ≡ true
      → confidence_multiplier p tau kelly_fraction cap ≡ ok m
      → (f.le nought p ≡ true)
        × (f.le p unit ≡ true)
        × (f.le nought m ≡ true)
        × (f.le m cap ≡ true)
        × ((f.lt p tau ≡ false) ⊎ (m ≡ nought))
  unfolding confidence_multiplier
  confidence_multiplier_range p tau kelly_fraction cap h e = ground (
    arith,
    number_of_le nought cap h,
    fmin_range cap (fmax nought (scaled_edge p tau kelly_fraction)) h,
    fmax_ge (scaled_edge p tau kelly_fraction),
  )

module _ {ℓ} {F : Type ℓ} ⦃f : Float F⦄ where
  -- A whole number of the broker's steps, at least the minimum lot, rounded to eight places.
  abbrev pub IsLot : InstrumentSpec F → F → Type ℓ
  IsLot spec lots =
      (steps : ℤ) × (f.le spec.min_lot (f.of_int steps ⊗ spec.lot_step) ≡ true)
      × (lots ≡ f.round (f.of_int steps ⊗ spec.lot_step) 8)

  -- If `round_to_lot` returns, it returns zero or a lot.
  abbrev pub Rounds : InstrumentSpec F → Result F → Type ℓ
  Rounds spec (raise e) = Unit
  Rounds spec (ok x) = (x ≡ nought) ⊎ IsLot spec x

  pub round_to_lot-Rounds :
      (lots : F) (spec : InstrumentSpec F) → Rounds spec (round_to_lot lots spec)
  unfolding round_to_lot
  round_to_lot-Rounds lots spec =
      elim (Bool-cases (f.le lots nought || f.le spec.lot_step nought)) [
        | inl none_left ↦ rw none_left (inl refl)
        | inr some_left ↦ rw some_left (whole (floor_int (lots ⊘ spec.lot_step)))
      ]
    where
      whole :
          (n : Result ℤ)
          → Rounds spec (
              n >>= λ steps. ok (
                if f.le spec.min_lot (f.of_int steps ⊗ spec.lot_step)
                then f.round (f.of_int steps ⊗ spec.lot_step) 8
                else nought))
      whole (raise e) = tt
      whole (ok steps) = elim (Bool-cases (f.le spec.min_lot (f.of_int steps ⊗ spec.lot_step))) [
        | inl big ↦ rw big (inr (steps, big, refl))
        | inr small ↦ rw small (inl refl)
      ]

-- ===== src/Primary/Sides.antt =====
-- When `probas_to_side` of src/aurax/l3_primary/base.py abstains, and what it says otherwise.
use aura_x.Prelude.{
  zero, suc, ok, raise, Error, true, false, ◌≡◌, refl, ◌⊎◌, inl, inr, Float, ◌⊖◌, nought,
  Bool-cases,
}
use aura_x.Prelude.Int.{ℤ, pos, negsuc}
use aura_x.Primary.{Proba, side_of}

module _ {ℓ} {F : Type ℓ} ⦃f : Float F⦄ where
  -- what the side says of the margin of up over down
  abbrev pub Says : F → F → ℤ → Type 0
  Says threshold margin (pos zero) =
      (f.lt (f.abs margin) threshold ≡ true)
      ⊎ ((f.lt nought margin ≡ false) × (f.lt margin nought ≡ false))
  Says threshold margin (pos (suc n)) =
      (n ≡ 0) × (f.lt (f.abs margin) threshold ≡ false) × (f.lt nought margin ≡ true)
  Says threshold margin (negsuc n) =
      (n ≡ 0) × (f.lt (f.abs margin) threshold ≡ false) × (f.lt margin nought ≡ true)

  -- Where the margin is a number a side comes out: flat only for a margin below the threshold or
  -- neither positive nor negative, long only for a positive one and short only for a negative one
  -- that is not below it. Where it is NaN the code raises.
  pub side_of_cases :
      (threshold : F) (p : Proba F)
      → ((side : ℤ) × (side_of threshold p ≡ ok side) × Says threshold (p.p_up ⊖ p.p_down) side)
        ⊎ ((f.eq (p.p_up ⊖ p.p_down) (p.p_up ⊖ p.p_down) ≡ false)
            × (side_of threshold p ≡ raise Error.value_error))
  unfolding side_of
  side_of_cases threshold p =
      let m = p.p_up ⊖ p.p_down in
      elim (Bool-cases (f.eq m m)) [
        | inr nan ↦ inr (nan, rw nan refl)
        | inl number ↦ inl (elim (Bool-cases (f.lt (f.abs m) threshold)) [
          | inl small ↦ (pos 0, rw (number, small) refl, inl small)
          | inr large ↦ elim (Bool-cases (f.lt nought m)) [
            | inl up ↦ (pos 1, rw (number, large, up) refl, (refl, large, up))
            | inr not_up ↦ elim (Bool-cases (f.lt m nought)) [
              | inl down ↦ (negsuc 0, rw (number, large, not_up, down) refl, (refl, large, down))
              | inr level ↦ (pos 0, rw (number, large, not_up, level) refl, inr (not_up, level))
            ]
          ]
        ])
      ]

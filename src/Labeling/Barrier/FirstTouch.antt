-- ===== src/Labeling/Barrier/FirstTouch.antt =====
-- The walk of `triple_barrier_labels` (src/aurax/l4_labeling/triple_barrier.py) finds the first touch.
use aura_x.Prelude.{
  ℕ, zero, suc, ◌+◌, ◌-◌, ◌≤◌, ◌<◌, ◌≡◌, refl, sym, subst, ap, ◌∙◌, min, ◌⊎◌, inl, inr, Bool, true,
  false, ◌&&◌, ◌||◌, some, List, [], ◌∷◌, any, take, drop, length, length-take_le, get_elem?, Float,
  arith, if◌then◌else◌, Bool-cases,
}
use aura_x.Market.{BarrierTouch, tp, sl, vertical}
use aura_x.Labeling.Barrier.{
  Bar, BarrierConfig, hits_tp, hits_sl, first_touch, touch_of, last_bar, window, barrier_prices,
}

module _ {ℓ} {F : Type ℓ} ⦃f : Float F⦄ where
  module _ (tie_is_sl : Bool) (s : F) (prices : F × F) where
    -- the bar touches a barrier
    abbrev pub touches : Bar F → Bool
    touches b = hits_tp s prices.0 b || hits_sl s prices.1 b

    -- which one counts; a bar that touches both is decided by the tie rule
    abbrev pub verdict : Bar F → BarrierTouch
    verdict b =
        if hits_tp s prices.0 b && hits_sl s prices.1 b
        then (if tie_is_sl then sl else tp)
        else if hits_tp s prices.0 b
        then tp
        else sl

    -- The outcome over the bars from `j` on: a timeout at `i_end` that no bar touches before, or
    -- the verdict of the `k`-th bar, the first that touches a barrier.
    abbrev pub IsFirst : ℕ → ℕ → List (Bar F) → BarrierTouch × ℕ → Type ℓ
    IsFirst i_end j bars (outcome, t) =
        ((outcome ≡ vertical) × (t ≡ i_end) × (any touches bars ≡ false))
        ⊎ ((k : ℕ) × (b : Bar F) × (get_elem? bars k ≡ some b)
            × (t ≡ j + k)
            × (touches b ≡ true)
            × (any touches (take k bars) ≡ false)
            × (outcome ≡ verdict b))

    later-IsFirst :
        (i_end j : ℕ) (b : Bar F) (rest : List (Bar F)) (o : BarrierTouch × ℕ)
        → touches b ≡ false
        → IsFirst i_end (suc j) rest o
        → IsFirst i_end j (b ∷ rest) o
    later-IsFirst i_end j b rest (outcome, t) n (inl (v, e, none_touch)) = inl (v, e, ground arith)
    later-IsFirst i_end j b rest (outcome, t) n (inr (k, c, at, e, touch, before, same)) =
        inr (suc k, c, at, omega arith, touch, ground arith, same)

    first_touch_miss :
        (i_end j : ℕ) (b : Bar F) (rest : List (Bar F))
        → hits_tp s prices.0 b ≡ false
        → hits_sl s prices.1 b ≡ false
        → first_touch tie_is_sl s prices i_end j (b ∷ rest)
          ≡ first_touch tie_is_sl s prices i_end (suc j) rest
    unfolding first_touch
    first_touch_miss i_end j b rest miss none_hit = rw (miss, none_hit) refl

    -- The walk returns the first touch, decided by the tie rule, or else the timeout.
    pub first_touch-IsFirst :
        (i_end j : ℕ) (bars : List (Bar F))
        → IsFirst i_end j bars (first_touch tie_is_sl s prices i_end j bars)
    unfolding first_touch
    first_touch-IsFirst i_end j [] = inl (refl, refl, refl)
    first_touch-IsFirst i_end j (b ∷ rest) = elim (Bool-cases (hits_tp s prices.0 b)) [
      | inl hit ↦ elim (Bool-cases (hits_sl s prices.1 b)) [
        | inl too ↦ rw (hit, too) (inr (0, b, refl, omega arith, ground arith, refl, ground arith))
        | inr alone ↦
            rw (hit, alone) (inr (0, b, refl, omega arith, ground arith, refl, ground arith))
      ]
      | inr miss ↦ elim (Bool-cases (hits_sl s prices.1 b)) [
        | inl hit ↦ rw (miss, hit) (inr (0, b, refl, omega arith, ground arith, refl, ground arith))
        | inr none_hit ↦
            subst (IsFirst i_end j (b ∷ rest)) (sym (first_touch_miss i_end j b rest miss none_hit))
              (later-IsFirst i_end j b rest (first_touch tie_is_sl s prices i_end (suc j) rest)
                (ground arith) (first_touch-IsFirst i_end (suc j) rest))
      ]
    ]

  -- The outcome of an event at `i0`: a timeout at `i_end` when no bar after the event, up to
  -- `i_end`, touches a barrier; or else the verdict of the bar at the touch's position, which touches
  -- one, as no bar between the event and it does.
  abbrev pub FirstAfter : Bool → F → F × F → List (Bar F) → ℕ → ℕ → BarrierTouch × ℕ → Type ℓ
  FirstAfter tie_is_sl s prices bars i0 i_end (outcome, t) =
      ((outcome ≡ vertical)
        × (t ≡ i_end)
        × (any (touches tie_is_sl s prices) (take (i_end - i0) (drop (suc i0) bars)) ≡ false))
      ⊎ ((b : Bar F) × (get_elem? bars t ≡ some b)
          × (touches tie_is_sl s prices b ≡ true)
          × (any (touches tie_is_sl s prices) (take (t - suc i0) (drop (suc i0) bars)) ≡ false)
          × (outcome ≡ verdict tie_is_sl s prices b))

  take-take :
      (n k : ℕ) (xs : List (Bar F)) (b : Bar F)
      → get_elem? (take n xs) k ≡ some b
      → (get_elem? xs k ≡ some b) × (take k (take n xs) ≡ take k xs)
  take-take zero k xs b e = absurd cc
  take-take (suc n) k [] b e = absurd cc
  take-take (suc n) zero (x ∷ xs) b e = (e, refl)
  take-take (suc n) (suc k) (x ∷ xs) b e =
      let (at, same) = take-take n k xs b e in (at, ap (◌∷◌ x) same)

  get_elem?-drop : (m k : ℕ) (xs : List (Bar F)) → get_elem? (drop m xs) k ≡ get_elem? xs (m + k)
  get_elem?-drop zero k xs = ap (get_elem? xs) (omega arith)
  get_elem?-drop (suc m) k [] = refl
  get_elem?-drop (suc m) k (x ∷ xs) =
      let next : suc (m + k) ≡ suc m + k = omega arith in
      get_elem?-drop m k xs ∙ ap (get_elem? (x ∷ xs)) next

  IsFirst-FirstAfter :
      (tie_is_sl : Bool) (s : F) (prices : F × F) (bars : List (Bar F)) (i0 i_end : ℕ)
      (o : BarrierTouch × ℕ)
      → IsFirst tie_is_sl s prices i_end (suc i0) (window bars i0 i_end) o
      → FirstAfter tie_is_sl s prices bars i0 i_end o
  IsFirst-FirstAfter tie_is_sl s prices bars i0 i_end (outcome, t) (inl timeout) = inl timeout
  IsFirst-FirstAfter tie_is_sl s prices bars i0 i_end (outcome, t)
        (inr (k, b, at, e, touch, before, same)) =
      let (later, as_far) = take-take (i_end - i0) k (drop (suc i0) bars) b at in
      let here : get_elem? bars (suc i0 + k) ≡ some b =
        sym (get_elem?-drop (suc i0) k bars) ∙ later in
      let steps : t - suc i0 ≡ k = omega (arith, e) in
      inr (
        b,
        ap (get_elem? bars) e ∙ here,
        touch,
        ap (λ n. any (touches tie_is_sl s prices) (take n (drop (suc i0) bars))) steps
            ∙ ap (any (touches tie_is_sl s prices)) (sym as_far)
            ∙ before,
        same,
      )

  get_elem?-lt :
      (k : ℕ) (bars : List (Bar F)) {b : Bar F} → get_elem? bars k ≡ some b → k < length bars
  get_elem?-lt k [] e = cc
  get_elem?-lt zero (c ∷ bars) e = omega arith
  get_elem?-lt (suc k) (c ∷ bars) e = omega (arith, get_elem?-lt k bars e)

  -- The touch lies after the event and within the horizon.
  IsFirst-range :
      (tie_is_sl : Bool) (s : F) (prices : F × F) (bars : List (Bar F)) (i0 i_end : ℕ)
      (o : BarrierTouch × ℕ)
      → i0 < i_end
      → IsFirst tie_is_sl s prices i_end (suc i0) (window bars i0 i_end) o
      → (i0 < o.1) × (o.1 ≤ i_end)
  IsFirst-range tie_is_sl s prices bars i0 i_end (outcome, t) h (inl (_, e, _)) = omega arith
  IsFirst-range tie_is_sl s prices bars i0 i_end (outcome, t) h (inr (k, c, at, e, _, _, _)) =
      omega (
        arith,
        get_elem?-lt k (window bars i0 i_end) at,
        length-take_le (i_end - i0) (drop (suc i0) bars),
      )

  -- With a horizon of at least one bar, an event that has a next bar is decided by the first of the
  -- bars after it that touches a barrier, at that bar's position, or times out at the last bar of its
  -- horizon when none does. The position lies after the event, at most `vertical_bars` later and
  -- inside the data.
  pub touch_of-IsFirst :
      (cfg : BarrierConfig F) (bars : List (Bar F)) (s : F) (i0 : ℕ) (b : Bar F)
      → 1 ≤ cfg.vertical_bars
      → suc i0 < length bars
      → let o = touch_of cfg bars s i0 b in
        FirstAfter cfg.tie_is_sl s
          (barrier_prices cfg s b.close b.atr)
          bars
          i0
          (min (i0 + cfg.vertical_bars) (length bars - 1))
          o
        × (i0 < o.1)
        × (o.1 ≤ i0 + cfg.vertical_bars)
        × (o.1 < length bars)
  touch_of-IsFirst cfg bars s i0 b h k =
      let prices = barrier_prices cfg s b.close b.atr in
      let i_end = last_bar cfg i0 (length bars) in
      let first =
        first_touch-IsFirst cfg.tie_is_sl s prices i_end (suc i0) (window bars i0 i_end) in
      let range =
        IsFirst-range cfg.tie_is_sl s prices bars i0 i_end (touch_of cfg bars s i0 b) (omega arith)
          first in
      (
        IsFirst-FirstAfter cfg.tie_is_sl s prices bars i0 i_end (touch_of cfg bars s i0 b) first,
        range.0,
        omega arith,
        omega arith,
      )

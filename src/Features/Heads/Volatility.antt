-- ===== src/Features/Heads/Volatility.antt =====
-- The volatility block on the first `n` rows.
use aura_x.Prelude.{
  ℕ, suc, zero, ◌≡◌, refl, Option, none, some, List, [], ◌∷◌, take, Error, or_raise, get_elem?,
  Float,
}
use aura_x.Prelude.Dict.{lookup}
use aura_x.Features.Series.{Series}
use aura_x.Features.Base.{Bars, Features}
use aura_x.Features.Volatility.{
  VolatilityBlock, atr_name, yang_zhang_weight, atr, realized_volatility, yang_zhang, add_atrs,
  volatility_features,
}
use aura_x.Features.Trailing.{map-take, zip_with-take, zip_with3-take, shift-take, rolling-take}
use aura_x.Features.Heads.{
  map_ok, bind-map_ok, bind-same, head, cut, insert-cut, lookup-cut, prefixed-cut, log_returns-take,
  true_range-take, wilder_smooth-take, rolling_percentile-take,
}

module _ {ℓ} {F : Type ℓ} ⦃f : Float F⦄ (pd : Series F) where
  atr-head :
      (n : ℕ) (bars : Bars F) (window : ℕ)
      → atr pd (head n bars) window ≡ map_ok (take n) (atr pd bars window)
  unfolding atr
  atr-head n bars window = simp (atr, map-take, true_range-take pd, wilder_smooth-take pd)

  realized_volatility-take :
      (n : ℕ) (close : List F) (window : ℕ) (periods_per_year : Option ℕ)
      → realized_volatility pd (take n close) window periods_per_year
        ≡ take n (realized_volatility pd close window periods_per_year)
  unfolding realized_volatility
  realized_volatility-take n close window none =
      simp (realized_volatility, log_returns-take pd, rolling-take pd)
  realized_volatility-take n close window (some zero) =
      simp (realized_volatility, log_returns-take pd, rolling-take pd)
  realized_volatility-take n close window (some (suc k)) =
      simp (realized_volatility, log_returns-take pd, rolling-take pd, map-take)

  yang_zhang-head :
      (n : ℕ) (bars : Bars F) (window : ℕ)
      → yang_zhang pd (head n bars) window ≡ map_ok (take n) (yang_zhang pd bars window)
  unfolding yang_zhang
  yang_zhang-head n bars window =
      bind-same {A = F} (take n) (yang_zhang_weight window) _ _
        (λ k. simp (map-take, zip_with-take, zip_with3-take, shift-take pd, rolling-take pd))

  add_atrs-head :
      (n : ℕ) (bars : Bars F) (lookbacks : List ℕ) (out : Features F)
      → add_atrs pd (head n bars) lookbacks (cut n out)
        ≡ map_ok (cut n) (add_atrs pd bars lookbacks out)
  unfolding add_atrs
  add_atrs-head n bars [] out = refl
  add_atrs-head n bars (lb ∷ lookbacks) out = rw (atr-head n bars lb) (
      bind-map_ok (take n) (cut n) (atr pd bars lb) _ _
        (λ a. simp (map-take, zip_with-take, insert-cut, add_atrs-head n bars lookbacks)))

  pub volatility_features-head :
      (b : VolatilityBlock) (n : ℕ) (bars : Bars F)
      → volatility_features pd b (head n bars) ≡ map_ok (cut n) (volatility_features pd b bars)
  unfolding volatility_features
  volatility_features-head b n bars = rw (add_atrs-head n bars b.atr_lookbacks []) (
      bind-map_ok (cut n) (cut n) (add_atrs pd bars b.atr_lookbacks []) _ _ (λ out.
        bind-same (cut n) (or_raise (get_elem? b.atr_lookbacks 0) Error.index_error) _ _ (λ primary.
          rw (lookup-cut n (atr_name primary) Error.key_error out) (
            bind-map_ok (take n) (cut n) (or_raise (lookup (atr_name primary) out) Error.key_error)
              _ _
              (λ a. rw (yang_zhang-head n bars b.yang_zhang_window) (
                bind-map_ok (take n) (cut n) (yang_zhang pd bars b.yang_zhang_window) _ _ (λ yz.
                  simp (
                    map-take,
                    realized_volatility-take,
                    rolling_percentile-take pd,
                    insert-cut,
                    prefixed-cut,
                  ))))))))

-- ===== src/Features/Heads.antt =====
-- The first `n` rows of the bars and of a feature frame, and the functions of base.py on them.
pub mod Volatility
pub mod Blocks
pub mod Masks
pub mod Known
use aura_x.Prelude.{
  ℕ, suc, zero, ◌≡◌, refl, sym, ap, ◌∙◌, Bool, true, false, Option, none, some, List, [], ◌∷◌, map,
  take, String, Result, ok, raise, Error, or_raise, get_elem?, ◌>>=◌, zip_with, Float, arith, unit,
  divide, Result-cases, inl, inr, if◌then◌else◌,
}
use aura_x.Prelude.Dict.{insert, lookup, modify_all}
use aura_x.Features.Series.{Series}
use aura_x.Features.Base.{
  Bars, Features, column, prefixed, without_zeros, zip_with3, log_returns, true_range,
  wilder_smooth, rolling_zscore, rolling_percentile,
}
use aura_x.Prelude.Int.{pos}
use aura_x.Features.Trailing.{
  map-take, zip_with-take, zip_with3-take, shift-take, diff-take, rolling-take, ewm_mean-take,
  rolling_corr-take, transform-take,
}

-- the value of a result, changed
abbrev pub map_ok {ℓ κ} : {A : Type ℓ} {B : Type κ} → (A → B) → Result A → Result B
map_ok g (ok a) = ok (g a)
map_ok g (raise e) = raise e

-- a step and the next one, where both commute with a change of their values
pub bind-map_ok {ℓ κ μ ν} :
    {A : Type ℓ} {A' : Type κ} {B : Type μ} {B' : Type ν} (change : A → A') (after : B → B')
    (m : Result A) (g : A' → Result B') (h : A → Result B)
    → ((a : A) → g (change a) ≡ map_ok after (h a))
    → (map_ok change m >>= g) ≡ map_ok after (m >>= h)
bind-map_ok change after (ok a) g h e = e a
bind-map_ok change after (raise err) g h e = refl

pub bind-same {ℓ μ ν} :
    {A : Type ℓ} {B : Type μ} {B' : Type ν} (after : B → B') (m : Result A) (g : A → Result B')
    (h : A → Result B)
    → ((a : A) → g a ≡ map_ok after (h a))
    → (m >>= g) ≡ map_ok after (m >>= h)
bind-same after (ok a) g h e = e a
bind-same after (raise err) g h e = refl

module _ {ℓ} {F : Type ℓ} where
  -- the first `n` bars
  abbrev pub head : ℕ → Bars F → Bars F
  head n bars = record bars { rows = take n bars.rows }

  -- the first `n` rows of the columns
  abbrev pub cut : ℕ → Features F → Features F
  cut n frame = modify_all (take n) frame

  pub insert-cut :
      (n : ℕ) (k : String) (xs : List F) (frame : Features F)
      → insert k (take n xs) (cut n frame) ≡ cut n (insert k xs frame)
  insert-cut n k xs [] = refl
  insert-cut n k xs ((j, ys) ∷ frame) = ground (arith, insert-cut n k xs frame)

  pub lookup-cut :
      (n : ℕ) (k : String) (e : Error) (frame : Features F)
      → or_raise (lookup k (cut n frame)) e ≡ map_ok (take n) (or_raise (lookup k frame) e)
  lookup-cut n k e [] = refl
  lookup-cut n k e ((j, ys) ∷ frame) = ground (arith, lookup-cut n k e frame)

  pub prefixed-cut :
      (name : String) (n : ℕ) (frame : Features F)
      → prefixed name (cut n frame) ≡ cut n (prefixed name frame)
  unfolding prefixed
  prefixed-cut name n [] = refl
  prefixed-cut name n ((c, xs) ∷ frame) = cc (prefixed-cut name n frame)

  pub column-head :
      (name : String) (n : ℕ) (bars : Bars F)
      → column name (head n bars) ≡ take n (column name bars)
  column-head name n bars = map-take (λ r. r.1 name) n bars.rows

module _ {ℓ} {F : Type ℓ} ⦃f : Float F⦄ (pd : Series F) where
  pub log_returns-take :
      (n : ℕ) (close : List F) → log_returns pd (take n close) ≡ take n (log_returns pd close)
  unfolding log_returns
  log_returns-take n close = simp (log_returns, map-take, diff-take pd)

  pub true_range-take :
      (n : ℕ) (high low close : List F)
      → true_range pd (take n high) (take n low) (take n close)
        ≡ take n (true_range pd high low close)
  unfolding true_range
  true_range-take n high low close =
      simp (true_range, map-take, zip_with-take, zip_with3-take, shift-take pd)

  pub wilder_smooth-take :
      (n : ℕ) (series : List F) (window : ℕ)
      → wilder_smooth pd (take n series) window ≡ map_ok (take n) (wilder_smooth pd series window)
  unfolding wilder_smooth
  wilder_smooth-take n series window =
      bind-same (take n) (divide unit (f.of_int (pos window))) _ _
        (λ alpha. ap ok (ewm_mean-take pd alpha window n series))

  pub without_zeros-take :
      (n : ℕ) (xs : List F) → without_zeros (take n xs) ≡ take n (without_zeros xs)
  without_zeros-take n xs = map-take _ n xs

  pub rolling_zscore-take :
      (n : ℕ) (series : List F) (window : ℕ)
      → rolling_zscore pd (take n series) window ≡ take n (rolling_zscore pd series window)
  unfolding rolling_zscore
  rolling_zscore-take n series window =
      simp (rolling_zscore, rolling-take pd, map-take, zip_with-take)

  pub rolling_percentile-take :
      (n : ℕ) (series : List F) (window : ℕ)
      → rolling_percentile pd (take n series) window ≡ take n (rolling_percentile pd series window)
  unfolding rolling_percentile
  rolling_percentile-take n series window = rolling-take pd window _ n series

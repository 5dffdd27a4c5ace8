-- ===== src/Features/Heads/Blocks.antt =====
-- The other blocks on the first `n` rows.
use aura_x.Prelude.{
  ℕ, suc, zero, ◌≡◌, refl, ap, ◌∙◌, Option, none, some, List, [], ◌∷◌, take, String, ok, Error,
  or_raise, Float, inl, inr, Bool-cases,
}
use aura_x.Prelude.Dict.{insert}
use aura_x.Features.Series.{Series}
use aura_x.Features.Base.{Bars, Features, column, prefixed, log_returns}
use aura_x.Prelude.Tests.{str_eq}
use aura_x.Features.Trailing.{
  map-take, zip_with-take, shift-take, diff-take, rolling-take, rolling_corr-take, transform-take,
}
use aura_x.Features.Heads.{
  map_ok, bind-map_ok, bind-same, head, cut, insert-cut, prefixed-cut, log_returns-take,
  rolling_zscore-take,
}
use aura_x.Features.Base.{index_of}
use aura_x.Features.TrendMemory.{
  TrendMemoryBlock, kaufman_efficiency_ratio, rolling_hurst, trend_memory_features,
}
use aura_x.Features.Sessions.{
  Windows, SessionBlock, or_default, session_at, window_of, primary_session, dummies,
  session_membership, prior_mean, session_features,
}
use aura_x.Features.CrossPair.{
  CrossPairBlock, stronger, best_column, rolling_correlation, log_spread, strongest, pair_columns,
  pair_features,
}
use aura_x.Market.{Session}

module _ {ℓ} {F : Type ℓ} ⦃f : Float F⦄ (pd : Series F) where
  kaufman-take :
      (n : ℕ) (close : List F) (window : ℕ)
      → kaufman_efficiency_ratio pd (take n close) window
        ≡ take n (kaufman_efficiency_ratio pd close window)
  unfolding kaufman_efficiency_ratio
  kaufman-take n close window =
      simp (kaufman_efficiency_ratio, diff-take pd, rolling-take pd, map-take, zip_with-take)

  rolling_hurst-take :
      (n : ℕ) (close : List F) (window min_lag max_lag : ℕ)
      → rolling_hurst pd (take n close) window min_lag max_lag
        ≡ take n (rolling_hurst pd close window min_lag max_lag)
  unfolding rolling_hurst
  rolling_hurst-take n close window min_lag max_lag =
      simp (rolling_hurst, rolling-take pd, map-take)

  pub trend_memory_features-head :
      (b : TrendMemoryBlock) (n : ℕ) (bars : Bars F)
      → trend_memory_features pd b (head n bars) ≡ cut n (trend_memory_features pd b bars)
  unfolding trend_memory_features prefixed str_eq
  trend_memory_features-head b n bars = elim (Bool-cases b.mfdfa_enabled) [
    | inl e ↦ rw e (simp (map-take, kaufman-take, rolling_hurst-take, rolling-take pd))
    | inr e ↦ rw e (simp (map-take, kaufman-take, rolling_hurst-take))
  ]

  dummies-take :
      (windows : Windows) (n : ℕ) (index : List ℕ) (cols : Features F)
      → dummies windows (take n index) (cut n cols) ≡ cut n (dummies windows index cols)
  dummies-take [] n index cols = refl
  dummies-take ((sess, (start, end)) ∷ windows) n index cols =
      simp (map-take, insert-cut, dummies-take windows n index)

  prior_mean-take :
      (win n : ℕ) (x : List F) → prior_mean pd win (take n x) ≡ take n (prior_mean pd win x)
  prior_mean-take win n x =
      rw (shift-take pd 1 n x, prior_mean) (rolling-take pd win _ n (pd.shift 1 x))

-- the sessions of the first `n` bars
primary_session-take :
    (windows : Windows) (n : ℕ) (index : List ℕ)
    → primary_session windows (take n index) ≡ map_ok (take n) (primary_session windows index)
unfolding primary_session
primary_session-take windows n index =
    bind-same (take n) (or_raise (window_of Session.asian (or_default windows)) Error.key_error) _ _
      (λ a.
        bind-same (take n)
          (or_raise (window_of Session.london (or_default windows)) Error.key_error) _ _
          (λ l.
            bind-same (take n)
              (or_raise (window_of Session.ny (or_default windows)) Error.key_error) _ _
              (λ s. ap ok (map-take (session_at a l s) n index))))

module _ {ℓ} {F : Type ℓ} ⦃f : Float F⦄ (pd : Series F) where
  pub session_features-head :
      (b : SessionBlock) (n : ℕ) (bars : Bars F)
      → session_features pd b (head n bars) ≡ map_ok (cut n) (session_features pd b bars)
  unfolding session_features session_membership
  session_features-head b n bars = rw (map-take (λ r. r.0) n bars.rows) (
      rw (primary_session-take b.windows n (index_of bars)) (
        bind-map_ok (take n) (cut n) (primary_session b.windows (index_of bars)) _ _ (λ sess. simp (
          map-take,
          log_returns-take pd,
          transform-take pd (prior_mean pd b.session_relative_vol_window)
              (prior_mean-take pd b.session_relative_vol_window),
          zip_with-take,
          dummies-take pd (or_default b.windows) n (index_of bars) [],
          insert-cut,
          prefixed-cut,
        ))))

  -- the first `n` rows of a column that may be missing
  abbrev take_best : ℕ → Option (List F) → Option (List F)
  take_best n none = none
  take_best n (some xs) = some (take n xs)

  stronger-take :
      (n : ℕ) (best : Option (List F)) (c : List F)
      → stronger (take_best n best) (take n c) ≡ take n (stronger best c)
  stronger-take n none c = refl
  stronger-take n (some best) c = zip_with-take _ n best c

  strongest-take :
      (window k rounds n : ℕ) (ret_a ret_b : List F) (best : Option (List F))
      → strongest pd window (take n ret_a) (take n ret_b) k rounds (take_best n best)
        ≡ take_best n (strongest pd window ret_a ret_b k rounds best)
  unfolding strongest rolling_correlation
  strongest-take window k zero n ret_a ret_b best = refl
  strongest-take window k (suc rounds) n ret_a ret_b best =
      let c = pd.rolling_corr window ret_a (pd.shift k ret_b) in
      let moved : pd.rolling_corr window (take n ret_a) (pd.shift k (take n ret_b)) ≡ take n c =
        ap (pd.rolling_corr window (take n ret_a)) (shift-take pd k n ret_b)
        ∙ rolling_corr-take pd window n ret_a (pd.shift k ret_b) in
      ap
        (λ v.
          strongest pd window (take n ret_a) (take n ret_b) (suc k) rounds
            (some (stronger (take_best n best) v)))
        moved
      ∙ ap (λ v. strongest pd window (take n ret_a) (take n ret_b) (suc k) rounds (some v))
          (stronger-take n best c)
      ∙ strongest-take window (suc k) rounds n ret_a ret_b (some (stronger best c))

  best_column-take :
      (best : Option (List F)) (n : ℕ) (index : List ℕ)
      → best_column (take_best n best) (take n index) ≡ take n (best_column best index)
  best_column-take none n index = map-take _ n index
  best_column-take (some best) n index = refl

  insert4-cut :
      (n : ℕ) (i j k l : String) (ws xs ys zs : List F) (frame : Features F)
      → insert i
          (take n ws)
          (insert j (take n xs) (insert k (take n ys) (insert l (take n zs) (cut n frame))))
        ≡ cut n (insert i ws (insert j xs (insert k ys (insert l zs frame))))
  insert4-cut n i j k l ws xs ys zs frame = simp insert-cut

  pair_columns-cut :
      (n : ℕ) (ws xs ys zs : List F)
      → pair_columns (take n ws) (take n xs) (take n ys) (take n zs)
        ≡ cut n (pair_columns ws xs ys zs)
  unfolding pair_columns
  pair_columns-cut n ws xs ys zs =
      ap (prefixed "xpair")
        (insert4-cut n "lead_lag_best" "lead_lag_corr" "spread_z" "corr" ws xs ys zs [])
      ∙ prefixed-cut "xpair" n _

  log_spread-take :
      (n : ℕ) (xs ys : List F)
      → log_spread pd (take n xs) (take n ys) ≡ take n (log_spread pd xs ys)
  unfolding log_spread
  log_spread-take n xs ys = simp (log_spread, map-take, zip_with-take)

  rolling_correlation-take :
      (n : ℕ) (xs ys : List F) (window : ℕ)
      → rolling_correlation pd (take n xs) (take n ys) window
        ≡ take n (rolling_correlation pd xs ys window)
  unfolding rolling_correlation
  rolling_correlation-take n xs ys window = rolling_corr-take pd window n xs ys

  pub pair_features-head :
      (b : CrossPairBlock F) (n : ℕ) (bars : Bars F) (partner : List F)
      → pair_features pd b (head n bars) (take n partner) ≡ cut n (pair_features pd b bars partner)
  unfolding pair_features
  pair_features-head b n bars partner =
      let ret_a = log_returns pd (column "close" bars) in
      let ret_b = log_returns pd partner in
      let strong = strongest pd b.corr_window ret_a ret_b 1 b.lead_lag_max_shift none in
      simp (
        map-take,
        log_returns-take pd,
        log_spread-take,
        rolling_zscore-take pd,
        shift-take pd,
        rolling_correlation-take,
        strongest-take b.corr_window 1 b.lead_lag_max_shift n ret_a ret_b none,
        best_column-take strong n (index_of bars),
        pair_columns-cut,
      )

-- ===== src/Features/Base.antt =====
-- src/aurax/l1_features/base.py. The columns of a frame of bars are read by their names.
use Prim.Native.String.{◌++◌}
use text.Mathlib.Text.{starts_with}
use aura_x.Prelude.{
  ℕ, leb, Bool, true, not, ◌&&◌, List, [], ◌∷◌, map, take, select, String, Result, ok, Error, ◌>>=◌,
  ◌>>◌, raise_if, is_empty, zip_with, Float, nought, unit, divide, if◌then◌else◌,
}
use aura_x.Prelude.Int.{pos}
use aura_x.Prelude.Dict.{Dict, member}
use aura_x.Data.Frame.{Frame}
use aura_x.Features.Series.{Series, lagged, observed}

pub record Bars {ℓ} (F : Type ℓ) : Type ℓ where
  -- `bars.columns`, and whether the index is a `DatetimeIndex`
  pub names : List String
  pub is_datetime : Bool
  pub rows : Frame (String → F)

-- the feature frames have the index of their bars: their columns, by name
abbrev pub Features {ℓ} : Type ℓ → Type ℓ
Features F = Dict (List F)

abbrev pub ohlcv : List String
ohlcv = "open" ∷ "high" ∷ "low" ∷ "close" ∷ "volume" ∷ []

-- the columns that are needed and not there
abbrev pub missing : Bool → List String → List String
missing require_volume names =
    select (λ c. not (member c names)) (if require_volume then ohlcv else take 4 ohlcv)

-- `is_monotonic_increasing`
abbrev pub is_ascending : ℕ → List ℕ → Bool
is_ascending lo [] = true
is_ascending lo (t ∷ ts) = leb lo t && is_ascending t ts

module _ {ℓ} {F : Type ℓ} where
  -- `bars.index` and `bars[name]`
  abbrev pub index_of : Bars F → List ℕ
  index_of bars = map (λ r. r.0) bars.rows

  abbrev pub column : String → Bars F → List F
  column name bars = map (λ r. r.1 name) bars.rows

  unfoldable pub ensure_ohlcv : Bool → Bars F → Result (Unit {0})
  ensure_ohlcv require_volume bars =
      raise_if (not (is_empty (missing require_volume bars.names))) Error.value_error
      >> (raise_if (not bars.is_datetime) Error.value_error
          >> raise_if (not (is_ascending 0 (index_of bars))) Error.value_error)

  abbrev pub zip_with3 : (F → F → F → F) → List F → List F → List F → List F
  zip_with3 g [] ys zs = []
  zip_with3 g (x ∷ xs) [] zs = []
  zip_with3 g (x ∷ xs) (y ∷ ys) [] = []
  zip_with3 g (x ∷ xs) (y ∷ ys) (z ∷ zs) = g x y z ∷ zip_with3 g xs ys zs

  -- `FeatureBlock._prefixed`, of a block's name
  unfoldable pub prefixed : String → Features F → Features F
  prefixed name [] = []
  prefixed name ((c, xs) ∷ frame) =
      (if starts_with c (name ++ "_") then c else name ++ ("_" ++ c), xs) ∷ prefixed name frame

module _ {ℓ} {F : Type ℓ} ⦃f : Float F⦄ where
  -- `.replace(0.0, np.nan)`
  abbrev pub without_zeros : List F → List F
  without_zeros xs = map (λ x. if f.eq x nought then f.nan else x) xs

  -- `float((x <= x[-1]).mean())`
  abbrev pub rank_last : Series F → List F → F
  rank_last pd x = pd.array_mean (map (λ v. if f.le v (lagged 0 x) then unit else nought) x)

module _ {ℓ} {F : Type ℓ} ⦃f : Float F⦄ (pd : Series F) where
  unfoldable pub log_returns : List F → List F
  log_returns close = pd.diff 1 (map pd.log close)

  unfoldable pub true_range : List F → List F → List F → List F
  true_range high low close =
      let prev_close = pd.shift 1 close in
      zip_with3 (λ a b c. pd.row_max (a ∷ b ∷ c ∷ [])) (zip_with f.sub high low)
        (map f.abs (zip_with f.sub high prev_close)) (map f.abs (zip_with f.sub low prev_close))

  unfoldable pub wilder_smooth : List F → ℕ → Result (List F)
  wilder_smooth series window =
      divide unit (f.of_int (pos window)) >>= (λ alpha. ok (pd.ewm_mean alpha window series))

  unfoldable pub rolling_zscore : List F → ℕ → List F
  rolling_zscore series window =
      let mean = pd.rolling window (observed window pd.mean) series in
      let std = pd.rolling window (observed window pd.std) series in
      zip_with f.div (zip_with f.sub series mean) (without_zeros std)

  unfoldable pub rolling_percentile : List F → ℕ → List F
  rolling_percentile series window = pd.rolling window (observed window (rank_last pd)) series

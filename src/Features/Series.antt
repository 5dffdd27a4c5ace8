-- ===== src/Features/Series.antt =====
-- What src/aurax/l1_features uses of pandas and numpy. A series is the list of its values; the frame
-- it belongs to keeps the index. The operations are parameters; what their documentation says of the
-- value at a row is a law.
use aura_x.Prelude.{
  ℕ, suc, ◌-◌, ◌≡◌, Bool, ltb, Option, none, some, List, [], ◌∷◌, map, String, length, get_elem?,
  take, drop, count, Result, ok, Float, if◌then◌else◌,
}
use aura_x.Prelude.Tests.{str_eq}
use aura_x.Data.Frame.{Frame, find}
use aura_x.Data.Frame.Laws.{Unique}

-- the last `w` values
abbrev pub last_rows {ℓ} : {A : Type ℓ} → ℕ → List A → List A
last_rows w xs = drop (length xs - w) xs

module _ {ℓ} {A : Type ℓ} where
  -- the value at each row is read off the values up to it
  abbrev pub value_at {κ} : {B : Type κ} → (List A → B) → List A → ℕ → Option B
  value_at g xs i = elim (get_elem? xs i) [ none ↦ none | some x ↦ some (g (take (suc i) xs)) ]

  -- the values whose key is `k`, in order
  abbrev pub group : String → List String → List A → List A
  group k [] xs = []
  group k (j ∷ keys) [] = []
  group k (j ∷ keys) (x ∷ xs) = let rest = group k keys xs in if str_eq k j then x ∷ rest else rest

-- how often the key stands among the keys
abbrev pub rank : String → List String → ℕ
rank k keys = count (str_eq k) keys

module _ {ℓ} {F : Type ℓ} ⦃f : Float F⦄ where
  abbrev pub or_nan : Option F → F
  or_nan none = f.nan
  or_nan (some x) = x

  -- `notna`: NaN is not equal to itself
  abbrev pub notna : F → Bool
  notna x = f.eq x x

  -- `min_periods`: a window with fewer values than this has no statistic
  abbrev pub observed : ℕ → (List F → F) → List F → F
  observed m agg window = if ltb (count notna window) m then f.nan else agg window

  -- the value `k` rows before the last
  abbrev pub lagged : ℕ → List F → F
  lagged k past =
      if ltb k (length past) then or_nan (get_elem? past (length past - suc k)) else f.nan

  -- the place of a row in its group, and what the group has there
  abbrev pub in_group : (List F → List F) → List String → List F → ℕ → F
  in_group g keys xs i = elim (get_elem? keys i) [
    | none ↦ f.nan
    | some k ↦ or_nan (get_elem? (g (group k keys xs)) (rank k (take i keys)))
  ]

-- pandas and numpy
pub record Series {ℓ} (F : Type ℓ) ⦃f : Float F⦄ : Type ℓ where
  -- `np.log`, `max(axis=1)`, and of an array: its mean, its cumulated sums,
  -- `np.polyfit(x, y, 1)[0]`, and `np.polyval(np.polyfit(t, y, order), t)`
  pub log : F → F
  pub row_max : List F → F
  pub array_mean : List F → F
  pub cumsum : List F → List F
  pub slope : List F → List F → F
  pub trend_line : ℕ → List F → List F → List F
  -- `np.unique(np.floor(np.logspace(np.log10(8), np.log10(n // 4), 12)))`
  pub log_scales : ℕ → List ℕ
  -- of a window: the sum, the mean, `std(ddof=1)`, `var(ddof=1)`, and `corr` with its own
  -- `min_periods`
  pub sum : List F → F
  pub mean : List F → F
  pub std : List F → F
  pub var : List F → F
  pub corr : ℕ → List F → List F → F
  -- the last of `ewm(alpha, adjust=False, min_periods).mean()`
  pub ewm_last : F → ℕ → List F → F
  pub shift : ℕ → List F → List F
  pub diff : ℕ → List F → List F
  pub rolling : ℕ → (List F → F) → List F → List F
  pub rolling_corr : ℕ → List F → List F → List F
  pub ewm_mean : F → ℕ → List F → List F
  -- `groupby(keys).transform(g)`
  pub transform : (List F → List F) → List String → List F → List F
  pub reindex : Frame F → List ℕ → Result (List F)
  pub shift_at : (k : ℕ) (xs : List F) (i : ℕ) → get_elem? (shift k xs) i ≡ value_at (lagged k) xs i
  pub diff_at :
      (k : ℕ) (xs : List F) (i : ℕ)
      → get_elem? (diff k xs) i ≡ value_at (λ past. f.sub (lagged 0 past) (lagged k past)) xs i
  pub rolling_at :
      (w : ℕ) (agg : List F → F) (xs : List F) (i : ℕ)
      → get_elem? (rolling w agg xs) i ≡ value_at (λ past. agg (last_rows w past)) xs i
  pub rolling_corr_at :
      (w : ℕ) (xs ys : List F) (i : ℕ)
      → get_elem? (rolling_corr w xs ys) i
        ≡ value_at (λ past. corr w (last_rows w past) (last_rows w (take (suc i) ys))) xs i
  pub ewm_mean_at :
      (alpha : F) (m : ℕ) (xs : List F) (i : ℕ)
      → get_elem? (ewm_mean alpha m xs) i ≡ value_at (ewm_last alpha m) xs i
  pub transform_at :
      (g : List F → List F) (keys : List String) (xs : List F) (i : ℕ)
      → get_elem? (transform g keys xs) i
        ≡ elim (get_elem? xs i) [ none ↦ none | some x ↦ some (in_group g keys xs i) ]
  -- a series whose index has no duplicates gives each instant its value, or NaN
  pub reindex_unique :
      (s : Frame F) (index : List ℕ)
      → Unique s
      → reindex s index ≡ ok (map (λ t. or_nan (find t s)) index)

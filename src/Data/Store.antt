-- ===== src/Data/Store.antt =====
-- The parquet stores of src/aurax/l0_data/store.py. The files are a dict from a path to its frame;
-- what pandas does to an index is a parameter, and so is whether a parquet engine is installed. The
-- frames that are written to a path have the same columns.
pub mod Refines
pub mod RoundTrip
use Prim.Native.String.{◌++◌}
use aura_x.Prelude.{
  ℕ, leb, Bool, true, false, not, ◌&&◌, Option, none, some, List, [], ◌∷◌, ◌++◌ as append, min, max,
  length, select, String, Result, ok, raise, Error, if◌then◌else◌,
}
use aura_x.Prelude.Tests.{str_eq}
use aura_x.Prelude.Dict.{Dict, lookup, insert}
use aura_x.Market.{Timeframe, timeframe_value}
use aura_x.Data.Frame.{Frame, keep_last, Pandas}

abbrev pub Files {ℓ} : Type ℓ → Type ℓ
Files A = Dict (Frame A)

-- `_path` of the three stores, below the root
abbrev pub bars_path : String → Timeframe → String
bars_path symbol timeframe =
    "bars/" ++ (symbol ++ ("/" ++ (timeframe_value timeframe ++ ".parquet")))

abbrev pub set_path : String → String → Timeframe → String → String
set_path kind symbol timeframe set_name =
    kind
    ++ ("/"
        ++ (symbol ++ ("/" ++ (timeframe_value timeframe ++ ("/" ++ (set_name ++ ".parquet"))))))

-- `df.index >= start` and `df.index <= end`, each where it is given
abbrev pub in_bounds : Option ℕ → Option ℕ → ℕ → Bool
in_bounds none none t = true
in_bounds (some lo) none t = leb lo t
in_bounds none (some hi) t = leb t hi
in_bounds (some lo) (some hi) t = leb lo t && leb t hi

module _ {ℓ} {A : Type ℓ} where
  abbrev pub old_rows : Option (Frame A) → Frame A
  old_rows none = []
  old_rows (some rows) = rows

  -- `df.index.min()` and `df.index.max()` of rows that follow a first one
  abbrev pub min_ts : ℕ → Frame A → ℕ
  min_ts lo [] = lo
  min_ts lo ((t, a) ∷ rows) = min_ts (min lo t) rows

  abbrev pub max_ts : ℕ → Frame A → ℕ
  max_ts hi [] = hi
  max_ts hi ((t, a) ∷ rows) = max_ts (max hi t) rows

  -- how many rows, from when to when
  abbrev pub span_of : Frame A → ℕ × Option (ℕ × ℕ)
  span_of [] = (0, none)
  span_of ((t, a) ∷ rows) = (length ((t, a) ∷ rows), some (min_ts t rows, max_ts t rows))

module _ {ℓ} {A : Type ℓ} (pd : Pandas A) where
  -- the rows that are written over those of the file
  abbrev pub merged : Option (Frame A) → Frame A → Frame A
  merged old df = pd.sort_index (keep_last (append (old_rows old) df))

module _ {ℓ} {A : Type ℓ} (pd : Pandas A) (engine : Bool) where
  -- `_upsert_parquet`: the number of incoming rows, and the files
  unfoldable pub upsert_parquet : String → Frame A → Files A → Result ℕ × Files A
  upsert_parquet path [] files = (ok 0, files)
  upsert_parquet path (r ∷ df) files =
      if engine
      then (ok (length (r ∷ df)), insert path (merged pd (lookup path files) (r ∷ df)) files)
      else (raise Error.runtime_error, files)

  -- `_load_parquet`; a missing file is an empty frame
  unfoldable pub load_parquet : String → Option ℕ → Option ℕ → Files A → Result (Frame A)
  load_parquet path start end files = elim (lookup path files) [
    | none ↦ ok []
    | some rows ↦
        if engine
        then ok (select (λ r. in_bounds start end r.0) (pd.sort_index rows))
        else raise Error.runtime_error
  ]

  -- `ParquetBarStore`
  unfoldable pub upsert_bars : Frame A → String → Timeframe → Files A → Result ℕ × Files A
  upsert_bars df symbol timeframe = upsert_parquet (bars_path symbol timeframe) df

  unfoldable pub load_bars : String → Timeframe → Option ℕ → Option ℕ → Files A → Result (Frame A)
  load_bars symbol timeframe = load_parquet (bars_path symbol timeframe)

  pub coverage : String → Timeframe → Files A → Result (ℕ × Option (ℕ × ℕ))
  coverage symbol timeframe files = elim (load_bars symbol timeframe none none files) [
    | raise e ↦ raise e
    | ok df ↦ ok (span_of df)
  ]

  -- `ParquetFeatureStore`
  pub upsert_features : Frame A → String → Timeframe → String → Files A → Result ℕ × Files A
  upsert_features df symbol timeframe feature_set =
      upsert_parquet (set_path "features" symbol timeframe feature_set) df

  pub load_features : String → Timeframe → String → Option ℕ → Option ℕ → Files A → Result (Frame A)
  load_features symbol timeframe feature_set =
      load_parquet (set_path "features" symbol timeframe feature_set)

  -- `ParquetLabelStore`
  pub upsert_labels : Frame A → String → Timeframe → String → Files A → Result ℕ × Files A
  upsert_labels df symbol timeframe label_set =
      upsert_parquet (set_path "labels" symbol timeframe label_set) df

  pub load_labels : String → Timeframe → String → Option ℕ → Option ℕ → Files A → Result (Frame A)
  load_labels symbol timeframe label_set =
      load_parquet (set_path "labels" symbol timeframe label_set)

-- what the factories make
pub data Dest : Type 0 where
  parquet db : Dest

-- `make_bar_store`, `make_feature_store` and `make_label_store`, up to the class they return
pub make_store : String → Result Dest
make_store dest =
    if str_eq dest "parquet"
    then ok parquet
    else if str_eq dest "db"
    then ok db
    else raise Error.value_error

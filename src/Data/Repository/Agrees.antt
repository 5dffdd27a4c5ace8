-- ===== src/Data/Repository/Agrees.antt =====
-- The two stores that `make_bar_store` makes, `ParquetBarStore` and `BarRepository`, on the same calls.
use aura_x.Prelude.{ℕ, ◌≡◌, true, Option, none, some, List, [], ◌∷◌, String, Float}
use aura_x.Market.{Timeframe}
use aura_x.Data.Frame.{Frame, Pandas}
use aura_x.Data.Store.{Files, bars_path, upsert_parquet}
use aura_x.Data.Store
use aura_x.Data.Store.Refines.{view}
use aura_x.Data.Repository.{BarTable, FrameBar, TableBar, bar_row, bar_key}
use aura_x.Data.Repository

-- a call of `upsert_bars`
pub data BarUpsert {ℓ} (F : Type ℓ) : Type ℓ where
  upsert : Frame (FrameBar F) → String → Timeframe → BarUpsert F

abbrev pub map_option {ℓ κ} : {A : Type ℓ} {B : Type κ} → (A → B) → Option A → Option B
map_option g none = none
map_option g (some a) = some (g a)

abbrev pub map_rows {ℓ κ} : {A : Type ℓ} {B : Type κ} → (A → B) → Frame A → Frame B
map_rows g [] = []
map_rows g ((t, a) ∷ rows) = (t, g a) ∷ map_rows g rows

module _ {ℓ} {F S : Type ℓ} ⦃f : Float F⦄ (pd : Pandas (FrameBar F))
    (db : BarTable (TableBar F) S) where
  -- under the key of each bar the table has what the file has, as a row of the table
  abbrev pub Agrees : Files (FrameBar F) → S → Type ℓ
  Agrees files s =
      (symbol : String) (timeframe : Timeframe) (t : ℕ)
      → db.table.row s (bar_key symbol timeframe t)
        ≡ map_option bar_row (view files (bars_path symbol timeframe) t)

  -- the calls in turn, on the files and on the table
  unfoldable pub run_files : List (BarUpsert F) → Files (FrameBar F) → Files (FrameBar F)
  run_files [] files = files
  run_files (upsert df symbol timeframe ∷ calls) files =
      run_files calls (Store.upsert_bars pd true df symbol timeframe files).1

  unfoldable pub run_table : List (BarUpsert F) → S → S
  run_table [] s = s
  run_table (upsert df symbol timeframe ∷ calls) s =
      run_table calls (Repository.upsert_bars db df symbol timeframe s).1

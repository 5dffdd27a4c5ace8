-- ===== src/Data/Repository.antt =====
-- src/aurax/db/repository.py. The database is a parameter: the tables and what SQL says of the
-- statements that are executed on them. A JSON text is the dict that it holds.
pub mod Paths
pub mod Agrees
use aura_x.Prelude.{
  ℕ, ◌==◌, ◌≡◌, Bool, true, ◌&&◌, not, Option, none, some, List, [], ◌∷◌, map, length, String,
  Float, nought, unit, if◌then◌else◌,
}
use aura_x.Prelude.Tests.{str_eq}
use aura_x.Prelude.Int.{ℤ}
use aura_x.Prelude.Dict.{Dict}
use aura_x.Market.{Timeframe, timeframe_value}
use aura_x.Data.Frame.{Frame, find, Rising}
use aura_x.Data.Store.{in_bounds}

-- the primary keys of `market.bars`, and of `market.features` and `market.labels`
pub record BarKey : Type 0 where
  pub symbol : String
  pub timeframe : String
  pub ts : ℕ

pub record SetKey : Type 0 where
  pub symbol : String
  pub timeframe : String
  pub set_name : String
  pub ts : ℕ

abbrev pub same_bar : BarKey → BarKey → Bool
same_bar j k = str_eq j.symbol k.symbol && (str_eq j.timeframe k.timeframe && (j.ts == k.ts))

abbrev pub same_set : SetKey → SetKey → Bool
same_set j k =
    str_eq j.symbol k.symbol
    && (str_eq j.timeframe k.timeframe && (str_eq j.set_name k.set_name && (j.ts == k.ts)))

-- the last of the rows under a key
abbrev pub last_under {ℓ} : {K : Type 0} {A : Type ℓ} → (K → K → Bool) → K → List (K × A) → Option A
last_under same k [] = none
last_under same k ((j, a) ∷ rows) = elim (last_under same k rows) [
  | some b ↦ some b
  | none ↦ if same k j then some a else none
]

-- a table with a primary key, and `INSERT ... ON CONFLICT DO UPDATE` of rows in one transaction: each
-- row replaces the one under its key
pub record Table {ℓ} (K : Type 0) (same : K → K → Bool) (A S : Type ℓ) : Type ℓ where
  pub row : S → K → Option A
  pub upsert_all : List (K × A) → S → S
  pub upsert_all_row :
      (rows : List (K × A)) (s : S) (k : K)
      → row (upsert_all rows s) k
        ≡ elim (last_under same k rows) [ some a ↦ some a | none ↦ row s k ]

-- `SELECT ... WHERE symbol, timeframe and the bounds ORDER BY ts`
pub record BarTable {ℓ} (A S : Type ℓ) : Type ℓ where
  pub table : Table BarKey same_bar A S
  pub select_bars : String → String → Option ℕ → Option ℕ → S → Frame A
  pub select_bars-Rising :
      (symbol timeframe : String) (start end : Option ℕ) (s : S)
      → Rising 0 (select_bars symbol timeframe start end s)
  pub select_bars_row :
      (symbol timeframe : String) (start end : Option ℕ) (s : S) (t : ℕ)
      → find t (select_bars symbol timeframe start end s) ≡ (
          if in_bounds start end t
          then table.row s (record { symbol = symbol; timeframe = timeframe; ts = t })
          else none)

-- `market.trades`, with `INSERT ... ON CONFLICT (trade_id) DO NOTHING`
pub record TradeTable {ℓ} (A S : Type ℓ) : Type ℓ where
  pub row : S → String → Option A
  pub insert_new : String → A → S → S
  pub insert_new_row :
      (id : String) (a : A) (s : S) (k : String)
      → row (insert_new id a s) k
        ≡ elim (row s k) [ some b ↦ some b | none ↦ if str_eq id k then some a else none ]

-- a bar of a frame, `none` where the column is missing, and a bar of the table, `none` where it is null
pub record FrameBar {ℓ} (F : Type ℓ) : Type ℓ where
  pub open_price : F
  pub high : F
  pub low : F
  pub close : F
  pub volume : Option F
  pub spread : Option F

pub record TableBar {ℓ} (F : Type ℓ) : Type ℓ where
  pub open_price : F
  pub high : F
  pub low : F
  pub close : F
  pub volume : F
  pub spread : Option F

pub record FrameLabel {ℓ} (F : Type ℓ) : Type ℓ where
  pub t1 : Option ℕ
  pub label : ℤ
  pub ret : F
  pub barrier : String
  pub tp_price : F
  pub sl_price : F
  pub sample_weight : Option F
  pub side : Option ℤ

pub record TableLabel {ℓ} (F : Type ℓ) : Type ℓ where
  pub t1 : Option ℕ
  pub label : ℤ
  pub ret : Option F
  pub barrier : String
  pub tp_price : F
  pub sl_price : F
  pub sample_weight : F
  pub side : Option ℤ

-- what `record_open` is given of a trade, and what stands under its id
pub record Trade {ℓ} (F : Type ℓ) : Type ℓ where
  pub trade_id : String
  pub fields : Dict F
  pub meta : Option (Dict F)

pub record TableTrade {ℓ} (F : Type ℓ) : Type ℓ where
  pub fields : Dict F
  pub status : String
  pub meta : Dict F

module _ {ℓ} {F : Type ℓ} ⦃f : Float F⦄ where
  -- `None if pd.isna(v) else float(v)`
  abbrev pub null_nan : F → Option F
  null_nan v = if f.eq v v then some v else none

  abbrev pub null_missing : Option F → Option F
  null_missing none = none
  null_missing (some v) = null_nan v

  -- `float(getattr(r, "volume", 0.0) or 0.0)`
  abbrev pub or_nought : Option F → F
  or_nought none = nought
  or_nought (some v) = if f.eq v nought then nought else v

  unfoldable pub bar_row : FrameBar F → TableBar F
  bar_row r = record {
    open_price = r.open_price;
    high = r.high;
    low = r.low;
    close = r.close;
    volume = or_nought r.volume;
    spread = null_missing r.spread;
  }

  unfoldable pub label_row : FrameLabel F → TableLabel F
  label_row r = record {
    t1 = r.t1;
    label = r.label;
    ret = null_nan r.ret;
    barrier = r.barrier;
    tp_price = r.tp_price;
    sl_price = r.sl_price;
    sample_weight = elim r.sample_weight [ none ↦ unit | some w ↦ w ];
    side = r.side;
  }

  -- the JSON object of a feature vector
  abbrev pub feature_row : Dict F → Dict (Option F)
  feature_row [] = []
  feature_row ((k, v) ∷ row) = (k, null_nan v) ∷ feature_row row

-- the keys of the rows of a frame
abbrev pub bar_key : String → Timeframe → ℕ → BarKey
bar_key symbol timeframe t = record {
  symbol = symbol;
  timeframe = timeframe_value timeframe;
  ts = t;
}

abbrev pub set_key : String → Timeframe → String → ℕ → SetKey
set_key symbol timeframe set_name t = record {
  symbol = symbol;
  timeframe = timeframe_value timeframe;
  set_name = set_name;
  ts = t;
}

abbrev pub keyed {ℓ κ} :
    {K : Type 0} {A : Type ℓ} {B : Type κ} → (ℕ → K) → (A → B) → Frame A → List (K × B)
keyed key to_row [] = []
keyed key to_row ((t, a) ∷ df) = (key t, to_row a) ∷ keyed key to_row df

-- the three `upsert` methods: nothing is executed for an empty frame
unfoldable pub upsert_rows {ℓ} :
    {K : Type 0} {same : K → K → Bool} {A B S : Type ℓ}
    → Table K same B S
    → (ℕ → K)
    → (A → B)
    → Frame A
    → S
    → ℕ × S
upsert_rows db key to_row [] s = (0, s)
upsert_rows db key to_row (r ∷ df) s =
    let rows = keyed key to_row (r ∷ df) in (length rows, db.upsert_all rows s)

module _ {ℓ} {F S : Type ℓ} ⦃f : Float F⦄ where
  -- `BarRepository`
  unfoldable pub upsert_bars :
      BarTable (TableBar F) S → Frame (FrameBar F) → String → Timeframe → S → ℕ × S
  upsert_bars db df symbol timeframe = upsert_rows db.table (bar_key symbol timeframe) bar_row df

  unfoldable pub load_bars :
      BarTable (TableBar F) S → String → Timeframe → Option ℕ → Option ℕ → S → Frame (TableBar F)
  load_bars db symbol timeframe start end =
      db.select_bars symbol (timeframe_value timeframe) start end

  -- `FeatureRepository.upsert_features`
  pub upsert_features :
      Table SetKey same_set (Dict (Option F)) S
      → Frame (Dict F)
      → String
      → Timeframe
      → String
      → S
      → ℕ × S
  upsert_features db df symbol timeframe feature_set =
      upsert_rows db (set_key symbol timeframe feature_set) feature_row df

  -- `LabelRepository.upsert_labels`
  pub upsert_labels :
      Table SetKey same_set (TableLabel F) S
      → Frame (FrameLabel F)
      → String
      → Timeframe
      → String
      → S
      → ℕ × S
  upsert_labels db df symbol timeframe label_set =
      upsert_rows db (set_key symbol timeframe label_set) label_row df

  -- `TradeRepository.record_open`
  pub record_open : TradeTable (TableTrade F) S → Trade F → S → S
  record_open db trade = db.insert_new trade.trade_id (record {
    fields = trade.fields;
    status = "open";
    meta = elim trade.meta [ none ↦ [] | some m ↦ m ];
  })

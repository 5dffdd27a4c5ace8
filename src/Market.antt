-- ===== src/Market.antt =====
-- The shared records and enumerations of src/aurax/enums.py and src/aurax/types.py, and Python's
-- `datetime`, as far as the program computes with it.
pub mod Clock
use aura_x.Prelude.{ℕ, Bool, true, false, String, Option, ◌≡◌}
use aura_x.Prelude.Int.{ℤ, pos, negsuc}
use aura_x.Prelude.{Float, ◌⊖◌, List}
use aura_x.Market.Clock.{Datetime}

pub data Timeframe : Type 0 where
  m15 h4 d1 : Timeframe

-- the member's value
abbrev pub timeframe_value : Timeframe → String
timeframe_value m15 = "M15"
timeframe_value h4 = "H4"
timeframe_value d1 = "D1"

-- `Timeframe.minutes`
unfoldable pub minutes : Timeframe → ℕ
minutes m15 = 15
minutes h4 = 240
minutes d1 = 1440

pub data Side : Type 0 where
  short flat long : Side

-- `int(side)`
unfoldable pub side_int : Side → ℤ
side_int short = negsuc 0
side_int flat = pos 0
side_int long = pos 1

-- `int(side) > 0` and `int(side) == 0`
abbrev pub is_long : Side → Bool
is_long long = true
is_long _ = false

abbrev pub is_flat : Side → Bool
is_flat flat = true
is_flat _ = false

pub data BarrierTouch : Type 0 where
  tp sl vertical : BarrierTouch

pub data Label : Type 0 where
  down neutral up : Label

pub data Regime : Type 0 where
  trend range shock : Regime

abbrev pub is_shock : Regime → Bool
is_shock shock = true
is_shock _ = false

-- `Regime.value`
unfoldable pub regime_value : Regime → String
regime_value trend = "trend"
regime_value range = "range"
regime_value shock = "shock"

pub data Session : Type 0 where
  asian london ny off : Session

pub record InstrumentSpec {ℓ} (F : Type ℓ) : Type ℓ where
  pub symbol : String
  pub pip_size : F
  pub digits : ℕ
  pub contract_size : F
  pub min_lot : F
  pub lot_step : F
  pub base_ccy : String
  pub quote_ccy : String
  pub asset_class : String

pub record Bar {ℓ} (F : Type ℓ) : Type ℓ where
  pub symbol : String
  pub timeframe : Timeframe
  pub ts : Datetime
  pub open_price : F
  pub high : F
  pub low : F
  pub close : F
  pub volume : F
  pub spread : Option F

pub record Tick {ℓ} (F : Type ℓ) : Type ℓ where
  pub symbol : String
  pub ts : Datetime
  pub bid : F
  pub ask : F
  pub last : Option F
  pub volume : Option F

-- `Tick.spread`
abbrev pub tick_spread {ℓ} : {F : Type ℓ} ⦃f : Float F⦄ → Tick F → F
tick_spread t = t.ask ⊖ t.bid

pub record LabelRecord {ℓ} (F : Type ℓ) : Type ℓ where
  pub symbol : String
  pub timeframe : Timeframe
  pub ts : Datetime
  pub t1 : Option Datetime
  pub label : Label
  pub ret : F
  pub barrier : BarrierTouch
  pub tp_price : F
  pub sl_price : F
  pub sample_weight : F
  pub side : Option Side

pub record RegimeState {ℓ} (F : Type ℓ) : Type ℓ where
  pub regime : Regime
  pub probabilities : List (Regime × F)
  pub hurst : Option F
  pub ker : Option F
  pub atr_percentile : Option F

pub record Signal {ℓ} (F : Type ℓ) : Type ℓ where
  pub symbol : String
  pub ts : Datetime
  pub side : Side
  pub meta_prob : Option F
  pub regime : Option Regime
  pub atr : Option F
  pub size_lots : Option F
  pub approved : Bool

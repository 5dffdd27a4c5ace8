-- ===== src/Tests/Data.antt =====
-- Sample data in the shape of config/ and of the repository's tests: EURUSD and GBPUSD, an account of
-- 10,000.
use aura_x.Prelude.{ℕ, ◌*◌, Option, List, [], ◌∷◌, String, ◌⊕◌, ◌⊗◌, nought}
use aura_x.Prelude.Int.{pos}
use aura_x.Prelude.Fixed.{Fixed, fin, fixed_float}
use aura_x.Prelude.Dict.{Dict}
use aura_x.Market.{Side, Regime, InstrumentSpec}
use aura_x.Market.Clock.{Datetime}
use aura_x.Risk.Records.{SizingRequest, RiskConfig}

-- `n` millionths
abbrev pub micro : ℕ → Fixed
micro n = fin (pos n)

abbrev pub num : ℕ → Fixed
num n = micro (n * 1_000_000)

abbrev pub spec_of : String → InstrumentSpec Fixed
spec_of symbol = record {
  symbol = symbol;
  pip_size = micro 100;
  digits = 5;
  contract_size = num 100_000;
  min_lot = micro 10_000;
  lot_step = micro 10_000;
  base_ccy = "EUR";
  quote_ccy = "USD";
  asset_class = "fx_major";
}

abbrev pub specs : Dict (InstrumentSpec Fixed)
specs = ("EURUSD", spec_of "EURUSD") ∷ ("GBPUSD", spec_of "GBPUSD") ∷ []

abbrev pub inner : List Fixed → List Fixed → Fixed
inner [] ys = nought
inner (x ∷ xs) [] = nought
inner (x ∷ xs) (y ∷ ys) = x ⊗ y ⊕ inner xs ys

abbrev pub risk_config : RiskConfig Fixed
risk_config = record {
  risk_per_trade = micro 10_000;
  atr_stop_mult = num 2;
  meta_threshold_tau = micro 550_000;
  kelly_fraction = micro 500_000;
  max_confidence_mult = num 1;
  correlation_cap = micro 20_000;
  max_drawdown_breaker = micro 150_000;
  assumed_correlation = micro 500_000;
  account_ccy = "USD";
  specs = specs;
}

abbrev pub request : String → Side → Option Regime → SizingRequest Fixed
request symbol side regime = record {
  symbol = symbol;
  side = side;
  meta_prob = micro 700_000;
  atr = micro 5_000;
  price = micro 1_100_000;
  spec = spec_of symbol;
  regime = regime;
}

abbrev pub noon : Datetime
noon = record {
  year = 2024;
  month = 3;
  day = 5;
  hour = 12;
  minute = 0;
  second = 0;
  microsecond = 0;
}

-- ===== src/Data/Schema.antt =====
-- The frames of src/aurax/l0_data/schema.py. A payload is what the terminal answers: rows with their
-- times and a dict of fields, every row with the same columns. An instant is in milliseconds.
use aura_x.Prelude.{
  ℕ, ◌*◌, Bool, Option, none, some, List, [], ◌∷◌, String, map, ◌++◌ as append, if◌then◌else◌,
}
use aura_x.Prelude.Tests.{str_eq}
use aura_x.Prelude.Dict.{Dict, lookup}
use aura_x.Data.Frame.{Frame, keep_last, Rising, Pandas}
use aura_x.Data.Frame.Laws.{keep_last-Unique, Unique-Rising, Ascending-keep_last}

pub record Raw {ℓ} (V : Type ℓ) : Type ℓ where
  pub time : ℕ
  pub time_msc : ℕ
  pub fields : Dict V

pub record Payload {ℓ} (V : Type ℓ) : Type ℓ where
  -- `"time_msc" in df.columns`
  pub has_time_msc : Bool
  pub rows : List (Raw V)

-- a row of a frame: its values in the order of the columns, where `none` is `pd.NA`
abbrev pub Row {ℓ} : Type ℓ → Type ℓ
Row V = List (Option V)

abbrev pub bar_columns : List String
bar_columns = "open" ∷ "high" ∷ "low" ∷ "close" ∷ "volume" ∷ "spread" ∷ []

abbrev pub tick_columns : List String
tick_columns = "bid" ∷ "ask" ∷ "last" ∷ "volume" ∷ []

module _ {ℓ} {V : Type ℓ} where
  -- `df.rename(columns={"tick_volume": "volume"})`
  abbrev pub rename : Dict V → Dict V
  rename [] = []
  rename ((k, v) ∷ d) = (if str_eq k "tick_volume" then "volume" else k, v) ∷ rename d

  -- the columns asked for, with those that are missing filled by `pd.NA`
  abbrev pub columns : List String → Dict V → Row V
  columns names fields = map (λ name. lookup name fields) names

  abbrev pub spread_of : (V → V → V) → Option V → Option V → Option V
  spread_of minus (some ask) (some bid) = some (minus ask bid)
  spread_of minus _ _ = none

  abbrev pub tick_row : (V → V → V) → Dict V → Row V
  tick_row minus fields =
      append (columns tick_columns fields)
        (spread_of minus (lookup "ask" fields) (lookup "bid" fields) ∷ [])

  -- the bars as they come, by the instants at which they open
  abbrev pub bars_of : Payload V → Frame (Row V)
  bars_of rates = map (λ r. (r.time * 1000, columns bar_columns (rename r.fields))) rates.rows

module _ {ℓ} {V : Type ℓ} (pd : Pandas (Row V)) where
  pub rates_to_frame : Payload V → Frame (Row V)
  rates_to_frame rates = keep_last (pd.sort_index (bars_of rates))

  -- `minus` is `ask - bid`, which is `pd.NA` when one of them is
  pub ticks_to_frame : (V → V → V) → Payload V → Frame (Row V)
  ticks_to_frame minus ticks = pd.sort_index (
      map (λ r. (if ticks.has_time_msc then r.time_msc else r.time * 1000, tick_row minus r.fields))
        ticks.rows)

  -- Whatever the terminal answers, the bars of a frame are sorted by their instants and no instant
  -- has two of them.
  rates_to_frame-Rising : (rates : Payload V) → Rising 0 (rates_to_frame rates)
  unfolding rates_to_frame
  rates_to_frame-Rising rates =
      let rows = pd.sort_index (bars_of rates) in
      Unique-Rising 0 (keep_last rows)
        (Ascending-keep_last 0 rows (pd.sort_index-sorts (bars_of rates))) (keep_last-Unique rows)

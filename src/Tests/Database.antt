-- ===== src/Tests/Database.antt =====
-- The two stores of bars on three calls, with a table that keeps every row it was given.
use aura_x.Prelude.{
  ℕ, suc, ◌≡◌, refl, ap, ◌∙◌, ◌==◌, ◌&&◌, Option, none, some, List, [], ◌∷◌, ◌++◌, select, String,
  arith, Option-cases, inl, inr, if◌then◌else◌,
}
use aura_x.Prelude.Tests.{str_eq}
use aura_x.Prelude.Fixed.{Fixed, fixed_float}
use aura_x.Market.{Timeframe}
use aura_x.Data.Frame.{Frame, find_last, keep_last}
use aura_x.Data.Frame.Laws.{keep_last-Unique, find-keep_last, find-select, Rising-select}
use aura_x.Data.Store.{bars_path, in_bounds}
use aura_x.Data.Store
use aura_x.Data.Store.Refines.{find-sort_index, sort_index-Rising}
use aura_x.Data.Repository.{BarKey, same_bar, last_under, BarTable, FrameBar, TableBar, bar_key}
use aura_x.Data.Repository
use aura_x.Data.Repository.Agrees.{BarUpsert, upsert, Agrees}
use aura_x.Tests.Data.{num}
use aura_x.Tests.Stores.{pandas}

abbrev Bar : Type 0
Bar = TableBar Fixed

abbrev Rows : Type 0
Rows = List (BarKey × Bar)

last_under-append :
    (k : BarKey) (s rows : Rows)
    → last_under same_bar k (s ++ rows)
      ≡ elim (last_under same_bar k rows) [ some a ↦ some a | none ↦ last_under same_bar k s ]
last_under-append k [] rows = elim (Option-cases (last_under same_bar k rows)) [
  | inl e ↦ rw e refl
  | inr (a, e) ↦ rw e refl
]
last_under-append k ((j, b) ∷ s) rows = elim (Option-cases (last_under same_bar k rows)) [
  | inl e ↦ ground (arith, last_under-append k s rows)
  | inr (a, e) ↦ ground (arith, last_under-append k s rows)
]

-- the rows of a symbol and a timeframe, by their instants
abbrev bars_of : String → String → Rows → Frame Bar
bars_of symbol timeframe [] = []
bars_of symbol timeframe ((j, b) ∷ s) =
    let rest = bars_of symbol timeframe s in
    if str_eq symbol j.symbol && str_eq timeframe j.timeframe then (j.ts, b) ∷ rest else rest

==_sym : (a b : ℕ) → (a == b) ≡ (b == a)
==_sym a b = ground arith

find_last-bars_of :
    (symbol timeframe : String) (t : ℕ) (s : Rows)
    → find_last t (bars_of symbol timeframe s)
      ≡ last_under same_bar (record { symbol = symbol; timeframe = timeframe; ts = t }) s
find_last-bars_of symbol timeframe t [] = refl
find_last-bars_of symbol timeframe t ((j, b) ∷ s) =
    ground (arith, find_last-bars_of symbol timeframe t s, ==_sym t j.ts)

abbrev sorted_bars : String → String → Rows → Frame Bar
sorted_bars symbol timeframe s = pandas.sort_index (keep_last (bars_of symbol timeframe s))

abbrev database : BarTable Bar Rows
database = record {
  table = record {
    row = λ s k. last_under same_bar k s;
    upsert_all = λ rows s. s ++ rows;
    upsert_all_row = λ rows s k. last_under-append k s rows;
  };
  select_bars = λ symbol timeframe start end s.
      select (λ r. in_bounds start end r.0) (sorted_bars symbol timeframe s);
  select_bars-Rising = λ symbol timeframe start end s.
      Rising-select _ 0 _
        (sort_index-Rising pandas _ (keep_last-Unique (bars_of symbol timeframe s)));
  select_bars_row = λ symbol timeframe start end s t.
      find-select (in_bounds start end) t (sorted_bars symbol timeframe s)
      ∙ ap (λ (o : Option Bar). if in_bounds start end t then o else none)
          (find-sort_index pandas t _ (keep_last-Unique (bars_of symbol timeframe s))
            ∙ find-keep_last t (bars_of symbol timeframe s)
            ∙ find_last-bars_of symbol timeframe t s);
}

abbrev bar : ℕ → Option Fixed → FrameBar Fixed
bar n spread = record {
  open_price = num n;
  high = num (suc n);
  low = num n;
  close = num n;
  volume = none;
  spread = spread;
}

abbrev calls : List (BarUpsert Fixed)
calls =
    upsert ((10, bar 1 none) ∷ (20, bar 2 (some (num 1))) ∷ []) "EURUSD" Timeframe.h4
    ∷ upsert ((20, bar 3 (some Fixed.nan)) ∷ []) "EURUSD" Timeframe.h4
    ∷ upsert ((20, bar 4 none) ∷ []) "EURUSD" Timeframe.d1
    ∷ []

-- ===== src/Tests/Stores.antt =====
-- src/aurax/l0_data at concrete frames, with a pandas that sorts by insertion and a client that
-- answers every request with one tick.
use aura_x.Prelude.{
  ℕ, suc, ◌≤◌, ◌-◌, ◌*◌, ◌/◌, ◌≡◌, refl, ◌∙◌, leb, true, false, none, some, List, [], ◌∷◌, select,
  length, String, Result, ok, arith, if◌then◌else◌, Bool-cases, inl, inr,
}
use aura_x.Prelude.Tests.{str_eq}
use aura_x.Data.Frame.{Frame, is_at, find, find_last, Ascending, Rising, Pandas}
use aura_x.Data.Store.{Files, in_bounds, upsert_parquet, load_parquet}
use aura_x.Data.Store.Refines.{IsValid, view, Upsert, upsert, run, replay, run_refines}
use aura_x.Data.Store.RoundTrip.{load_parquet-upsert_parquet, upsert_parquet_again}
use aura_x.Data.Ingest.{go_on, Source, ingest_ticks}
use aura_x.Data.Ingest.Ticks.{store_ticks, Tiles, fetch_all, ingest_ticks-Tiles}

module _ {ℓ} {A : Type ℓ} where
  unfoldable pub place : ℕ × A → Frame A → Frame A
  place r [] = r ∷ []
  place (t, a) ((u, b) ∷ rows) =
      let later = place (t, a) rows in if leb t u then (t, a) ∷ (u, b) ∷ rows else (u, b) ∷ later

  unfoldable pub by_index : Frame A → Frame A
  by_index [] = []
  by_index (r ∷ rows) = place r (by_index rows)

  place-Ascending :
      (t : ℕ) (a : A) (rows : Frame A) (lo : ℕ)
      → lo ≤ t
      → Ascending lo rows
      → Ascending lo (place (t, a) rows)
  unfolding place
  place-Ascending t a [] lo h asc = (h, tt)
  place-Ascending t a ((u, b) ∷ rows) lo h (l, asc) = elim (Bool-cases (leb t u)) [
    | inl e ↦ rw e (h, (ground arith, asc))
    | inr e ↦ rw e (l, place-Ascending t a rows u (ground arith) asc)
  ]

  pub by_index-Ascending : (rows : Frame A) → Ascending 0 (by_index rows)
  unfolding by_index
  by_index-Ascending [] = tt
  by_index-Ascending ((t, a) ∷ rows) =
      place-Ascending t a (by_index rows) 0 (omega arith) (by_index-Ascending rows)

  select-place :
      (k t : ℕ) (a : A) (rows : Frame A)
      → select (is_at k) (place (t, a) rows) ≡ select (is_at k) ((t, a) ∷ rows)
  unfolding place
  select-place k t a [] = refl
  select-place k t a ((u, b) ∷ rows) = ground (arith, select-place k t a rows)

  pub select-by_index :
      (k : ℕ) (rows : Frame A) → select (is_at k) (by_index rows) ≡ select (is_at k) rows
  unfolding by_index
  select-by_index k [] = refl
  select-by_index k ((t, a) ∷ rows) =
      select-place k t a (by_index rows) ∙ ground (arith, select-by_index k rows)

  abbrev pub pandas : Pandas A
  pandas = record {
    sort_index = by_index;
    sort_index-sorts = by_index-Ascending;
    sort_index-keeps = λ k rows h. select-by_index k rows;
  }

abbrev h4 : String
h4 = "bars/EURUSD/H4.parquet"

-- out of order, with the instant 20 twice
abbrev bars : Frame ℕ
bars = (30, 3) ∷ (20, 1) ∷ (20, 2) ∷ []

abbrev more_bars : Frame ℕ
more_bars = (40, 4) ∷ (20, 5) ∷ []

none-IsValid : IsValid {A = ℕ} []
none-IsValid path rows h = absurd cc

abbrev calls : List (Upsert ℕ)
calls = upsert h4 bars ∷ upsert "bars/GBPUSD/H4.parquet" more_bars ∷ upsert h4 more_bars ∷ []

run_refines_example :
    IsValid (run pandas calls []) × (view (run pandas calls []) ≡ replay calls (view []))
run_refines_example = run_refines pandas calls [] none-IsValid

-- the files with the first frame
abbrev stored : Files ℕ
stored = run pandas (upsert h4 bars ∷ []) []

stored-IsValid : IsValid stored
stored-IsValid = (run_refines pandas (upsert h4 bars ∷ []) [] none-IsValid).0

load_parquet-upsert_parquet_example :
    (rows : Frame ℕ) × (load_parquet pandas true h4
        (some 20)
        (some 30)
        (upsert_parquet pandas true h4 more_bars stored).1
      ≡ ok rows)
    × Rising 0 rows
    × ((k : ℕ)
        → find k rows ≡ (
            if in_bounds (some 20) (some 30) k
            then elim (find_last k more_bars) [ some a ↦ some a | none ↦ view stored h4 k ]
            else none))
load_parquet-upsert_parquet_example =
    load_parquet-upsert_parquet pandas h4 more_bars (some 20) (some 30) stored stored-IsValid

upsert_parquet_again_example :
    let (n, files) = upsert_parquet pandas true h4 more_bars stored in
    upsert_parquet pandas true h4 more_bars files ≡ (n, files)
upsert_parquet_again_example = upsert_parquet_again pandas true h4 more_bars stored

-- the loads give the last rows
loaded : load_parquet pandas true h4 (some 20) (some 30) stored ≡ ok ((20, 2) ∷ (30, 3) ∷ [])
unfolding load_parquet run upsert_parquet by_index place str_eq
loaded = refl

-- the state counts the requests
abbrev client : Source ℕ ℕ
client = record {
  enter = λ s. some (ok tt, s);
  leave = λ s. s;
  copy_rates = λ symbol tf a b s. some (ok (record { has_time_msc = false; rows = [] }), suc s);
  copy_ticks = λ symbol a b s. some (
    ok (record {
      has_time_msc = true;
      rows = record { time = a / 1000; time_msc = a; fields = ("bid", 1) ∷ ("ask", 3) ∷ [] } ∷ [];
    }),
    suc s,
  );
  upsert_bars = λ df symbol tf s. some (ok (length df), s);
  append_ticks = λ symbol df s. some (ok tt, s);
  minus = ◌-◌;
}

ingest_ticks-Tiles_example :
    (windows : List (ℕ × ℕ)) × Tiles (1 * 86_400_000) 5 200_000_000 windows
    × (ingest_ticks pandas client 200_000_000 1 "EURUSD" 5 200_000_000 true 0
        ≡ go_on
            (store_ticks pandas client "EURUSD" true)
            (fetch_all pandas client "EURUSD" windows [] 0 0))
    × (r : Result ℕ × ℕ) × (ingest_ticks pandas client 200_000_000 1 "EURUSD" 5 200_000_000 true 0
        ≡ some r)
ingest_ticks-Tiles_example =
    ingest_ticks-Tiles pandas client 200_000_000 1 "EURUSD" 5 200_000_000 true 0 (omega arith)
      (omega arith) (λ a b s. (_, refl)) (λ df s. (_, refl))

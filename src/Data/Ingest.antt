-- ===== src/Data/Ingest.antt =====
-- The ingestion of src/aurax/l0_data/ingestion.py. The client, the bar store and the tick table are
-- reached through a record of their calls on a common state; a datetime is in milliseconds.
pub mod Ticks
use Prim.Native.String.{◌++◌}
use aura_x.Prelude.{
  ℕ, zero, suc, ◌+◌, ◌*◌, ltb, Bool, not, ◌&&◌, Option, none, some, List, [], ◌∷◌, ◌++◌ as append,
  min, length, is_empty, concat, String, Result, ok, raise, if◌then◌else◌,
}
use aura_x.Prelude.Dict.{Dict, insert}
use aura_x.Market.{Timeframe, timeframe_value}
use aura_x.Data.Frame.{Frame, keep_last, Pandas}
use aura_x.Data.Schema.{Payload, Row, rates_to_frame, ticks_to_frame}

-- a call on the state; `none` is a call that has not returned within its fuel
abbrev pub Op {ℓ κ} : Type ℓ → Type κ → Type (ℓ ⊔ κ)
Op S A = S → Option (Result A × S)

module _ {ℓ κ μ} {S : Type ℓ} {A : Type κ} {B : Type μ} where
  -- what follows a call, unless it raises
  abbrev pub go_on : (A → Op S B) → Option (Result A × S) → Option (Result B × S)
  go_on next none = none
  go_on next (some (raise e, s)) = some (raise e, s)
  go_on next (some (ok a, s)) = next a s

abbrev pub done {ℓ κ} : {S : Type ℓ} {A : Type κ} → A → Op S A
done a s = some (ok a, s)

-- the calls that the ingestor makes
pub record Source {ℓ κ} (S : Type ℓ) (V : Type κ) : Type (ℓ ⊔ κ) where
  pub enter : Op S (Unit {0})
  -- `__exit__`, which lets an exception pass
  pub leave : S → S
  pub copy_rates : String → Timeframe → ℕ → ℕ → Op S (Payload V)
  pub copy_ticks : String → ℕ → ℕ → Op S (Payload V)
  pub upsert_bars : Frame (Row V) → String → Timeframe → Op S ℕ
  pub append_ticks : String → Frame (Row V) → Op S (Unit {0})
  pub minus : V → V → V

abbrev pub day : ℕ
day = 86_400_000

module _ {ℓ κ} {S : Type ℓ} {V : Type κ} (pd : Pandas (Row V)) (source : Source S V) where
  pub fetch_bars : String → Timeframe → ℕ → ℕ → Op S (Frame (Row V))
  fetch_bars symbol timeframe start end s =
      go_on (λ rates. done (rates_to_frame pd rates))
        (source.copy_rates symbol timeframe start end s)

  pub ingest_bars : String → Timeframe → ℕ → ℕ → Bool → Op S ℕ
  ingest_bars symbol timeframe start end store s =
      go_on
        (λ df s1.
          if store && not (is_empty df)
          then go_on (λ n. done (length df)) (source.upsert_bars df symbol timeframe s1)
          else done (length df) s1)
        (fetch_bars symbol timeframe start end s)

  -- `if not df.empty: frames.append(df)`
  abbrev pub keep_frame : Frame (Row V) → List (Frame (Row V)) → List (Frame (Row V))
  keep_frame df frames = if is_empty df then frames else append frames (df ∷ [])

  -- the loop of `ingest_ticks` from a cursor, on fuel
  pub tick_loop :
      ℕ → ℕ → String → ℕ → ℕ → List (Frame (Row V)) → ℕ → Op S (List (Frame (Row V)) × ℕ)
  tick_loop zero chunk symbol end cursor frames total s = none
  tick_loop (suc fuel) chunk symbol end cursor frames total s =
      let chunk_end = min (cursor + chunk) end in
      let rest =
        go_on
          (λ raw.
            let df = ticks_to_frame pd source.minus raw in
            tick_loop fuel chunk symbol end chunk_end (keep_frame df frames) (total + length df))
          (source.copy_ticks symbol cursor chunk_end s) in
      if ltb cursor end then rest else some (ok (frames, total), s)

  pub ingest_ticks : ℕ → ℕ → String → ℕ → ℕ → Bool → Op S ℕ
  ingest_ticks fuel tick_chunk_days symbol start end store s =
      go_on
        (λ (frames, total) s1.
          if store && not (is_empty frames)
          then go_on (λ stored. done total)
              (source.append_ticks symbol (keep_last (concat frames)) s1)
          else done total s1)
        (tick_loop fuel (tick_chunk_days * day) symbol end start [] 0 s)

  -- `ingest_universe`, the inner loop
  abbrev pub ingest_timeframes : String → List Timeframe → ℕ → ℕ → Dict ℕ → Op S (Dict ℕ)
  ingest_timeframes symbol [] start end summary s = done summary s
  ingest_timeframes symbol (tf ∷ timeframes) start end summary s =
      go_on
        (λ n.
          ingest_timeframes symbol timeframes start end
            (insert (symbol ++ (":" ++ timeframe_value tf)) n summary))
        (ingest_bars symbol tf start end Bool.true s)

  abbrev pub ingest_pair_ticks : ℕ → ℕ → String → ℕ → ℕ → Bool → Dict ℕ → Op S (Dict ℕ)
  ingest_pair_ticks fuel days symbol start end with_ticks summary s =
      if with_ticks
      then go_on (λ n. done (insert (symbol ++ ":ticks") n summary))
          (ingest_ticks fuel days symbol start end Bool.true s)
      else done summary s

  abbrev pub ingest_pairs :
      ℕ → ℕ → List String → List Timeframe → ℕ → ℕ → Bool → Dict ℕ → Op S (Dict ℕ)
  ingest_pairs fuel days [] timeframes start end with_ticks summary s = done summary s
  ingest_pairs fuel days (symbol ∷ pairs) timeframes start end with_ticks summary s =
      go_on (ingest_pairs fuel days pairs timeframes start end with_ticks) (
        go_on (ingest_pair_ticks fuel days symbol start end with_ticks)
          (ingest_timeframes symbol timeframes start end summary s))

  -- `with self.client`: the client is left whether or not the body raises
  abbrev pub leaving : {A : Type 0} → Option (Result A × S) → Option (Result A × S)
  leaving none = none
  leaving (some (r, s)) = some (r, source.leave s)

  pub ingest_universe : ℕ → ℕ → List String → List Timeframe → ℕ → ℕ → Bool → Op S (Dict ℕ)
  ingest_universe fuel days pairs timeframes start end with_ticks s =
      go_on
        (λ entered s1. leaving (ingest_pairs fuel days pairs timeframes start end with_ticks [] s1))
        (source.enter s)

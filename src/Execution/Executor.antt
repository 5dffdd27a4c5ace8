-- ===== src/Execution/Executor.antt =====
-- src/aurax/l7_execution/executor.py: guard, route with retries, remember the order id, journal.
pub mod Retry
pub mod Skips
pub mod Once
pub mod Journal
use Prim.Native.String.{◌++◌}
use aura_x.Prelude.{
  ℕ, zero, suc, ◌+◌, Bool, true, false, not, ◌&&◌, ◌||◌, Option, none, some, List, [], ◌∷◌, String,
  Float, ◌⊕◌, ◌⊖◌, ◌⊗◌, divide, Result, ok, raise, if◌then◌else◌,
}
use aura_x.Prelude.Dict.{Dict, lookup, insert, member}
use aura_x.Prelude.Int.{ℤ}
use aura_x.Prelude.Text.{str}
use aura_x.Market.{Side, is_long, is_flat, side_int, Regime, regime_value, InstrumentSpec}
use aura_x.Market.Clock.{Datetime, minute_key}
use aura_x.Risk.Records.{SizingDecision, approved, reason_value}
use aura_x.Execution.Broker.{
  OrderStatus, rejected, skipped, is_requote, OrderRequest, OrderResult, is_fill, no_fill, Broker,
}
use aura_x.Execution.Guards.{spread_ok, in_news_window}

pub record ExecutionConfig {ℓ} (F : Type ℓ) : Type ℓ where
  pub max_spread_pips : F
  pub max_slippage_pips : F
  pub news_blackout_minutes : ℕ
  pub tp_rr : F
  pub max_retries : ℕ
  pub magic : ℕ
  pub high_impact_events : List String

-- What `_journal` hands to `record_open`.
pub record TradeEntry {ℓ} (F : Type ℓ) : Type ℓ where
  pub trade_id : String
  pub symbol : String
  pub side : ℤ
  pub open_ts : Datetime
  pub entry_price : F
  pub size_lots : F
  pub meta_prob : Option F
  pub regime : Option String
  pub spread_entry : F
  pub stop_distance : F
  pub reason : String

-- The journal, in state `J`: it may raise, and keeps what it had written.
pub record TradeJournal {ℓ} (F J : Type ℓ) : Type ℓ where
  pub record_open : TradeEntry F → J → Result (Unit {0}) × J

pub record Executor {ℓ} (B J : Type ℓ) : Type ℓ where
  pub broker : B
  pub seen : List String
  pub journal : Option J

-- The arguments of `execute`.
pub record Call {ℓ} (F : Type ℓ) : Type ℓ where
  pub decision : SizingDecision F
  pub bid : F
  pub ask : F
  pub now : Datetime
  pub bar_ts : Option Datetime
  pub news_events : List Datetime
  pub meta_prob : Option F
  pub regime : Option Regime

unfoldable pub order_id : ℕ → String → Datetime → String
unfolding str minute_key
order_id magic symbol ts = "AX-" ++ (str magic ++ ("-" ++ (symbol ++ ("-" ++ minute_key ts))))

-- `bar_ts or now`
abbrev pub bar_or_now : Option Datetime → Datetime → Datetime
bar_or_now none now = now
bar_or_now (some ts) now = ts

module _ {ℓ} {F : Type ℓ} where
  abbrev pub coid : ExecutionConfig F → Call F → String
  coid cfg c = order_id cfg.magic c.decision.symbol (bar_or_now c.bar_ts c.now)

module _ {ℓ} {F : Type ℓ} ⦃f : Float F⦄ where
  abbrev pub pip : Dict (InstrumentSpec F) → String → F
  pip specs symbol = elim (lookup symbol specs) [ none ↦ f.lit 1 4 | some spec ↦ spec.pip_size ]

  unfoldable pub pre_trade_ok : ExecutionConfig F → F → Datetime → List Datetime → Bool
  pre_trade_ok cfg spread_pips now news_events =
      if not (spread_ok spread_pips cfg.max_spread_pips)
      then false
      else not (in_news_window now news_events cfg.news_blackout_minutes)

  -- the order of an approved decision: stops at the distance of the decision, adverse and favourable
  abbrev pub order_for : ExecutionConfig F → Call F → F → OrderRequest F
  order_for cfg c pip_size =
      let d = c.decision in
      let s = f.of_int (side_int d.side) in
      let entry = if is_long d.side then c.ask else c.bid in
      record {
        client_order_id = coid cfg c;
        symbol = d.symbol;
        side = d.side;
        volume_lots = f.abs d.size_lots;
        pip_size = pip_size;
        price = none;
        sl = some (entry ⊖ s ⊗ d.stop_distance);
        tp = some (entry ⊕ s ⊗ d.stop_distance ⊗ cfg.tp_rr);
        max_deviation_pips = cfg.max_slippage_pips;
        comment = "AuraX";
        magic = cfg.magic;
      }

  abbrev pub entry_for : Call F → OrderResult F → F → TradeEntry F
  unfolding side_int regime_value reason_value
  entry_for c r spread_pips =
      let d = c.decision in
      record {
        trade_id = r.client_order_id;
        symbol = d.symbol;
        side = side_int d.side;
        open_ts = c.now;
        entry_price = r.avg_price;
        size_lots = r.filled_lots;
        meta_prob = c.meta_prob;
        regime = elim c.regime [ none ↦ none | some g ↦ some (regime_value g) ];
        spread_entry = spread_pips;
        stop_distance = d.stop_distance;
        reason = reason_value d.reason;
      }

-- What follows one attempt: only a requote is tried again.
module _ {ℓ} {F B : Type ℓ} where
  abbrev pub next_attempt :
      (OrderResult F → B → Result (OrderResult F) × B)
      → Result (OrderResult F) × B
      → Result (OrderResult F) × B
  next_attempt again (raise e, b) = (raise e, b)
  next_attempt again (ok r, b) = elim (is_requote r.status) [ true ↦ again r b | false ↦ (ok r, b) ]

module _ {ℓ} {F B : Type ℓ} ⦃f : Float F⦄ (broker : Broker F B) where
  -- The loop of `_send_with_retry`, with the attempts that are left and the last result.
  unfoldable pub send_loop : ℕ → OrderRequest F → OrderResult F → B → Result (OrderResult F) × B
  send_loop zero o last b = (ok last, b)
  send_loop (suc n) o last b = next_attempt (send_loop n o) (broker.place_order o b)

  unfoldable pub send_with_retry :
      ExecutionConfig F → OrderRequest F → B → Result (OrderResult F) × B
  unfolding send_loop
  send_with_retry cfg o b =
      send_loop (suc cfg.max_retries) o (no_fill o.client_order_id rejected "no_attempt") b

module _ {ℓ} {F B J : Type ℓ} ⦃f : Float F⦄ (broker : Broker F B) (book : TradeJournal F J) where
  -- `_journal`: what `record_open` raises is logged and dropped.
  abbrev pub journal_fill : Call F → OrderResult F → F → Option J → Option J
  journal_fill c r spread_pips none = none
  journal_fill c r spread_pips (some j) = some (book.record_open (entry_for c r spread_pips) j).1

  -- after the broker has answered, or raised
  abbrev pub settle :
      ExecutionConfig F
      → Call F
      → F
      → Executor B J
      → Result (OrderResult F) × B
      → Result (OrderResult F) × Executor B J
  settle cfg c spread_pips s (raise e, b) = (raise e, record s { broker = b })
  settle cfg c spread_pips s (ok r, b) = (
    ok r,
    record {
      broker = b;
      seen = coid cfg c ∷ s.seen;
      journal = if is_fill r then journal_fill c r spread_pips s.journal else s.journal;
    },
  )

  -- with the spread at hand: the guards, then the order
  abbrev pub guarded :
      ExecutionConfig F → F → Call F → F → Executor B J → Result (OrderResult F) × Executor B J
  guarded cfg pip_size c spread_pips s =
      if not (pre_trade_ok cfg spread_pips c.now c.news_events)
      then (
        ok (
            no_fill (coid cfg c) skipped
              (if not (spread_ok spread_pips cfg.max_spread_pips) then "spread" else "news")),
        s,
      )
      else settle cfg c spread_pips s
          (send_with_retry broker cfg (order_for cfg c pip_size) s.broker)

  abbrev pub route :
      ExecutionConfig F
      → F
      → Call F
      → Executor B J
      → Result F
      → Result (OrderResult F) × Executor B J
  route cfg pip_size c s (raise e) = (raise e, s)
  route cfg pip_size c s (ok spread_pips) = guarded cfg pip_size c spread_pips s

  unfoldable pub execute :
      ExecutionConfig F
      → Dict (InstrumentSpec F)
      → Call F
      → Executor B J
      → Result (OrderResult F) × Executor B J
  execute cfg specs c s =
      let pip_size = pip specs c.decision.symbol in
      if not (approved c.decision) || is_flat c.decision.side
      then (ok (no_fill (coid cfg c) skipped "no_position"), s)
      else if member (coid cfg c) s.seen
      then (ok (no_fill (coid cfg c) skipped "duplicate"), s)
      else route cfg pip_size c s (divide (c.ask ⊖ c.bid) pip_size)

  -- The loop of `execute_all`, over the decisions and with the results so far. An exception ends it.
  pub execute_each :
      ExecutionConfig F
      → Dict (InstrumentSpec F)
      → Dict (F × F)
      → (SizingDecision F → F → F → Call F)
      → Dict (SizingDecision F)
      → Dict (OrderResult F)
      → Executor B J
      → Result (Dict (OrderResult F)) × Executor B J
  execute_each cfg specs quotes call [] out s = (ok out, s)
  execute_each cfg specs quotes call ((symbol, d) ∷ rest) out s = elim (lookup symbol quotes) [
    | none ↦ execute_each cfg specs quotes call rest out s
    | some (bid, ask) ↦
        (let (r, s') = execute cfg specs (call d bid ask) s in
          elim r [
            | raise e ↦ (raise e, s')
            | ok res ↦ execute_each cfg specs quotes call rest (insert symbol res out) s'
          ])
  ]

  pub execute_all :
      ExecutionConfig F
      → Dict (InstrumentSpec F)
      → Dict (SizingDecision F)
      → Dict (F × F)
      → Datetime
      → Option Datetime
      → List Datetime
      → Executor B J
      → Result (Dict (OrderResult F)) × Executor B J
  unfolding execute_each
  execute_all cfg specs decisions quotes now bar_ts news_events s =
      execute_each cfg specs quotes
        (λ d bid ask. record {
          decision = d;
          bid = bid;
          ask = ask;
          now = now;
          bar_ts = bar_ts;
          news_events = news_events;
          meta_prob = none;
          regime = none;
        })
        decisions [] s

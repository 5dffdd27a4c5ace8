-- ===== src/Tests/Execution.antt =====
-- src/aurax/l7_execution at concrete orders: a paper broker that requotes twice.
use aura_x.Prelude.{
  ℕ, ◌≡◌, refl, ◌⊎◌, ◌+◌, ◌≤◌, true, false, ◌&&◌, none, some, List, [], ◌∷◌, ◌++◌, arith, nought,
  Float, ◌⊕◌, ◌⊗◌, ok, raise, if◌then◌else◌, zero_division,
}
use aura_x.Prelude.Tests.{str_eq}
use aura_x.Prelude.Dict.{lookup, get_or}
use aura_x.Prelude.Fixed.{Fixed, quotient, fixed_float}
use aura_x.Prelude.Int.{◌-ℤ◌, ◌*ℤ◌, floor_div}
use aura_x.Execution.Guards.{in_news_window}
use aura_x.Market.{long, side_int}
use aura_x.Risk.Records.{SizingDecision, approved_ok}
use aura_x.Execution.Broker.{
  place_recorded, fill_order, OrderRequest, PaperBroker, place_order, paper, requote, no_fill,
}
use aura_x.Execution.Broker.Paper.{place_order-positions, fills, lots_of}
use aura_x.Execution.Executor.{
  pre_trade_ok, send_loop, ExecutionConfig, TradeEntry, TradeJournal, Executor, Call,
  send_with_retry, execute, coid,
}
use aura_x.Execution.Executor.Retry.{send_with_retry_absorbs, send_with_retry_exhausts, requoted}
use aura_x.Execution.Executor.Skips.{passes, skips, execute-skips}
use aura_x.Execution.Executor.Once.{sent, run, run-sent_once}
use aura_x.Execution.Executor.Journal.{execute_same, Journals, execute-Journals}
use aura_x.Tests.Data.{micro, num, specs, noon}

abbrev order : OrderRequest Fixed
order = record {
  client_order_id = "AX-7-EURUSD-1";
  symbol = "EURUSD";
  side = long;
  volume_lots = micro 200_000;
  pip_size = micro 100;
  price = none;
  sl = none;
  tp = none;
  max_deviation_pips = num 2;
  comment = "AuraX";
  magic = 7;
}

-- a broker with a quote for EURUSD and `n` requotes left
abbrev broker_with : ℕ → PaperBroker Fixed
broker_with n = record {
  slippage_pips = micro 500_000;
  requotes = n;
  fill_ratio = num 1;
  quotes = ("EURUSD", (micro 1_100_000, micro 1_100_100)) ∷ [];
  seq = 0;
  positions = [];
  orders = [];
}

abbrev config : ExecutionConfig Fixed
config = record {
  max_spread_pips = num 2;
  max_slippage_pips = num 2;
  news_blackout_minutes = 30;
  tp_rr = num 2;
  max_retries = 3;
  magic = 7;
  high_impact_events = [];
}

place_order-positions_example :
    let (r, b') = place_order order (broker_with 0) in
    lookup "EURUSD" b'.positions ≡ (
      if fills r && str_eq "EURUSD" "EURUSD"
      then some (get_or "EURUSD" [] nought ⊕ Float.of_int fixed_float (side_int long) ⊗ lots_of r)
      else none)
place_order-positions_example = place_order-positions order (broker_with 0) "EURUSD"

send_with_retry_absorbs_example :
    send_with_retry paper config order (broker_with 2)
    ≡ place_order order (requoted order 0 2 (broker_with 2))
send_with_retry_absorbs_example = send_with_retry_absorbs order config (broker_with 2) (omega arith)

send_with_retry_exhausts_example :
    send_with_retry paper config order (broker_with 9)
    ≡ (ok (no_fill "AX-7-EURUSD-1" requote "requote"), requoted order 5 4 (broker_with 9))
send_with_retry_exhausts_example =
    send_with_retry_exhausts order config (broker_with 9) (omega arith)

abbrev decision : SizingDecision Fixed
decision = record {
  symbol = "EURUSD";
  side = long;
  size_lots = micro 200_000;
  base_lots = micro 200_000;
  confidence_mult = num 1;
  risk_fraction = micro 10_000;
  stop_distance = micro 10_000;
  reason = approved_ok;
}

abbrev call : Call Fixed
call = record {
  decision = decision;
  bid = micro 1_100_000;
  ask = micro 1_100_100;
  now = noon;
  bar_ts = none;
  news_events = [];
  meta_prob = none;
  regime = none;
}

-- The journal is the list of its entries.
abbrev Book : Type 0
Book = List (TradeEntry Fixed)

abbrev book : TradeJournal Fixed Book
book = record { record_open = λ e j. (ok tt, j ++ (e ∷ [])) }

-- A journal that is down.
abbrev broken : TradeJournal Fixed Book
broken = record { record_open = λ e j. (raise zero_division, j) }

abbrev executor : Executor (PaperBroker Fixed) Book
executor = record { broker = broker_with 2; seen = []; journal = some [] }

paper-NeverSkips :
    (o : OrderRequest Fixed) (b : PaperBroker Fixed) → skips (place_order o b).0 ≡ false
unfolding place_order place_recorded fill_order
paper-NeverSkips o b = ground arith

execute-skips_example :
    ((passes config specs call executor ≡ true)
      × (skips (execute paper book config specs call executor).0 ≡ false))
    ⊎ ((passes config specs call executor ≡ false)
        × ((execute paper book config specs call executor).1 ≡ executor)
        × ((skips (execute paper book config specs call executor).0 ≡ true)
            ⊎ ((execute paper book config specs call executor).0 ≡ raise zero_division)))
execute-skips_example = execute-skips paper book paper-NeverSkips config specs call executor

run-sent_once_example :
    let id = coid config call in
    let s' = (execute paper book config specs call executor).1 in
    (sent book id (run book config specs (call ∷ []) s') ≡ sent book id s')
    × (sent book id (run book config specs (call ∷ []) s') ≤ sent book id executor + 4)
unfolding execute pre_trade_ok in_news_window send_with_retry send_loop place_order place_recorded
    fill_order str_eq quotient ◌-ℤ◌ side_int ◌*ℤ◌ floor_div
run-sent_once_example = run-sent_once book config specs call (call ∷ []) executor _ refl refl

execute_same_example :
    let (r, s) = execute paper book config specs call executor in
    let (r', s') = execute paper broken config specs call (record executor { journal = none }) in
    (r ≡ r') × (s.broker ≡ s'.broker) × (s.seen ≡ s'.seen)
execute_same_example =
    execute_same paper book broken config specs call (broker_with 2) [] (some []) none

execute-Journals_example : Journals book call [] (execute paper book config specs call executor)
execute-Journals_example = execute-Journals book paper config specs call executor [] refl

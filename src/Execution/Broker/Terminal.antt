-- ===== src/Execution/Broker/Terminal.antt =====
-- `MT5Broker` of src/aurax/l7_execution/broker.py, over a terminal that is an interface.
use aura_x.Prelude.{
  ℕ, Bool, Option, none, some, String, Float, ◌⊖◌, ◌⊗◌, nought, Result, ok, raise, Error, ◌>>=◌,
  if◌then◌else◌,
}
use aura_x.Prelude.Int.{ℤ}
use aura_x.Market.{is_long}
use aura_x.Execution.Broker.{Broker, OrderRequest, OrderResult, no_fill, OrderStatus}

-- the request that `order_send` is given
pub record TradeRequest {ℓ} (F : Type ℓ) : Type ℓ where
  pub symbol : String
  pub volume : F
  pub is_buy : Bool
  pub price : F
  pub sl : F
  pub tp : F
  pub deviation : ℤ
  pub magic : ℕ
  pub comment : String

-- an answer: whether its code says done, the code's text, and what was traded
pub record TradeAnswer {ℓ} (F : Type ℓ) : Type ℓ where
  pub is_done : Bool
  pub retcode : String
  pub volume : F
  pub price : F
  pub order : String

-- the bid and the ask of a symbol, where it has a tick, and `order_send`; `truncate` is Python's
-- `int` of a float, which raises at one that is not finite
pub record OrderTerminal {ℓ} (F S : Type ℓ) : Type ℓ where
  pub symbol_info_tick : String → S → Option (F × F)
  pub order_send : TradeRequest F → S → Option (TradeAnswer F) × S
  pub truncate : F → Result ℤ

module _ {ℓ} {F : Type ℓ} ⦃f : Float F⦄ where
  -- `x or y` of an optional price: none and 0 are not set, and `y` is read only then
  abbrev pub or_price {κ} : {A : Type κ} → (F → A) → Option F → A → A
  or_price set none y = y
  or_price set (some x) y = if f.eq x nought then y else set x

  -- an attribute of a tick, which the answer None does not have
  abbrev pub quote {κ} : {A : Type κ} → (F × F → A) → Option (F × F) → Result A
  quote read none = raise Error.attribute_error
  quote read (some tick) = ok (read tick)

  abbrev pub result_of : OrderRequest F → Option (TradeAnswer F) → OrderResult F
  result_of order none = no_fill order.client_order_id OrderStatus.rejected "none"
  result_of order (some res) =
      if res.is_done
      then record {
        client_order_id = order.client_order_id;
        status = OrderStatus.filled;
        filled_lots = res.volume;
        avg_price = res.price;
        broker_order_id = some res.order;
        reason = "";
      }
      else no_fill order.client_order_id OrderStatus.rejected res.retcode

module _ {ℓ} {F S : Type ℓ} ⦃f : Float F⦄ where
  -- `symbol_info`: the bid, the ask and the spread
  unfoldable pub terminal_symbol_info : OrderTerminal F S → String → S → Result (F × F × F)
  terminal_symbol_info mt5 symbol s =
      quote (λ (bid, ask). (bid, ask, ask ⊖ bid)) (mt5.symbol_info_tick symbol s)

  abbrev pub trade_request :
      OrderTerminal F S → OrderRequest F → Option (F × F) → Result (TradeRequest F)
  trade_request mt5 order tick =
      or_price ok order.price (quote (λ (bid, ask). if is_long order.side then ask else bid) tick)
      >>= (λ price. mt5.truncate (order.max_deviation_pips ⊗ f.lit 10 0) >>= (λ deviation.
          ok (record {
            symbol = order.symbol;
            volume = order.volume_lots;
            is_buy = is_long order.side;
            price = price;
            sl = or_price (λ x. x) order.sl nought;
            tp = or_price (λ x. x) order.tp nought;
            deviation = deviation;
            magic = order.magic;
            comment = order.comment;
          })))

  -- the request sent, unless it could not be made
  abbrev pub send_order :
      OrderTerminal F S → OrderRequest F → Result (TradeRequest F) → S → Result (OrderResult F) × S
  send_order mt5 order (raise e) s = (raise e, s)
  send_order mt5 order (ok request) s =
      let sent = mt5.order_send request s in (ok (result_of order sent.0), sent.1)

  -- `place_order`
  unfoldable pub terminal_place_order :
      OrderTerminal F S → OrderRequest F → S → Result (OrderResult F) × S
  terminal_place_order mt5 order s =
      send_order mt5 order (trade_request mt5 order (mt5.symbol_info_tick order.symbol s)) s

  -- `MT5Broker` as a broker of the protocol
  abbrev pub mt5_broker : OrderTerminal F S → Broker F S
  mt5_broker mt5 = record { place_order = terminal_place_order mt5 }
